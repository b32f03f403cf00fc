-- ===== src/Cache/ReadOut.antt =====
-- `Cache::read` of client_src/cache.cpp as a whole, in terms of positions in the file.
use net_fs.Prelude.{
  ℕ, ◌+◌, ◌-◌, ◌/◌, ◌%◌, ◌<◌, ◌^◌, ◌>>=◌, min, List, [], leb, ltb, wrap64, Option, none, some, ◌==◌,
  str_eq, nat_eq, string_eq, ◌||◌, if◌then◌else◌, find, at-find, Result, ok, ◌≡◌, ◌≢◌, ◌⊎◌, refl,
  ap, sym, ◌∙◌, arith, Bool-cases, inl, inr, true, false,
}
use net_fs.Cache.Contents.{or_else}
use net_fs.Cache.State.{FileCache, Cache, Backend}
use net_fs.Cache.Valid.{IsValid, view}
use net_fs.Cache.Store.{file_facts}
use net_fs.Cache.WriteBlock.{dirty_at}
use net_fs.Cache.Files.{
  SameBlocks, SameBlocks-IsValid, SameBlocks-view, SameBlocks-dirty_at, Known, cache_file_attr_lem,
}
use net_fs.Cache.Fetch.{Serves, FetchFailed}
use net_fs.Cache.Written.{cached_byte}
use net_fs.Cache.Served.{Served, Bytes}
use net_fs.Cache.ReadSpan.{read_within_lem}
use net_fs.Cache.Ops.{cache_file_attr, read_within, read}

-- The cache `c'` is `c` after a read of a file.
pub record ReadFrom (remote : List ℕ → ℕ → ℕ) (c c' : Cache) (f : List ℕ) : Type 0 where
  pub valid : IsValid c'
  pub same_size : c'.block_size ≡ c.block_size
  pub other_facts : (g : List ℕ) → str_eq f g ≡ false → file_facts c' g ≡ file_facts c g
  pub same_dirt : (g : List ℕ) (k : ℕ) → dirty_at c' g k ≡ dirty_at c g k
  pub kept :
      (g : List ℕ) (pos : ℕ)
      → (cached_byte c' g pos ≡ cached_byte c g pos)
        ⊎ ((cached_byte c g pos ≡ none) × (cached_byte c' g pos ≡ some (remote g pos)))

SameBlocks-cached_byte :
    {c c' : Cache}
    → SameBlocks c c'
    → (g : List ℕ) (pos : ℕ) → cached_byte c' g pos ≡ cached_byte c g pos
unfolding cached_byte
SameBlocks-cached_byte {c} {c'} s g pos =
    ap (λ (n : ℕ). view c' g (pos / n) (pos % n)) s.same_size
    ∙ SameBlocks-view s g (pos / c.block_size) (pos % c.block_size)

Served-ReadFrom :
    (remote : List ℕ → ℕ → ℕ) (c c₁ c' : Cache) (f : List ℕ)
    → Known c c₁ f
    → Served remote c₁ c'
    → ReadFrom remote c c' f
Served-ReadFrom remote c c₁ c' f k s = record {
  valid = s.valid;
  same_size = s.same_size ∙ k.same.same_size;
  other_facts = λ g other. s.same_facts g ∙ k.other_facts g other;
  same_dirt = λ g b. s.same_dirt g b ∙ SameBlocks-dirty_at k.same g b;
  kept = λ g pos.
      let before = SameBlocks-cached_byte k.same g pos in
      elim (s.kept g pos) [
        | inl same ↦ inl (same ∙ before)
        | inr (miss, hit) ↦ inr (sym before ∙ miss, hit)
      ];
}

Served-refl : (remote : List ℕ → ℕ → ℕ) (c : Cache) → IsValid c → Served remote c c
Served-refl remote c v = record {
  valid = v;
  same_size = refl;
  same_facts = λ g. refl;
  same_dirt = λ g k. refl;
  kept = λ g pos. inl refl;
}

SameBlocks-Bytes :
    (remote : List ℕ → ℕ → ℕ) (c c₁ : Cache) (f : List ℕ) (offset size : ℕ) (bytes : List ℕ)
    → SameBlocks c c₁
    → Bytes remote c₁ f offset size bytes
    → Bytes remote c f offset size bytes
SameBlocks-Bytes remote c c₁ f offset size bytes s (len, values) = (
  len,
  λ pos i.
      values pos i
      ∙ ap (λ (o : Option ℕ). or_else o (some (remote f pos))) (SameBlocks-cached_byte s f pos),
)

module _ {S : Type 0} (backend : Backend S) (bound : ℕ) (remote : List ℕ → ℕ → ℕ)
    (serves : Serves backend bound remote) (f : List ℕ) (offset size : ℕ) (c : Cache) (s : S) where
  read_refused :
      (code : ℕ) (s₁ : S)
      → code ≢ 0
      → cache_file_attr backend f c s ≡ ok (code, c, s₁)
      → read backend f offset size c s ≡ ok (code, [], c, s₁)
  unfolding read
  read_refused code s₁ failed h =
      let failed' : (code == 0) ≡ false = ground arith in rw (h, ◌>>=◌, failed') refl

  read_nothing :
      (c₁ : Cache) (s₁ : S) (fc : FileCache)
      → cache_file_attr backend f c s ≡ ok (0, c₁, s₁)
      → find f c₁.file_map ≡ some fc
      → offset < 2 ^ 63
      → (leb fc.attr.size offset || size == 0) ≡ true
      → read backend f offset size c s ≡ ok (0, [], c₁, s₁)
  unfolding read
  read_nothing c₁ s₁ fc h found signed nothing =
      let passes : ltb offset (2 ^ 63) ≡ true = ground arith in
      rw (h, ◌>>=◌, at-find f c₁.file_map found, passes, nothing) refl

  read_span :
      (c₁ : Cache) (s₁ : S) (fc : FileCache) (r : Result (ℕ × List ℕ × Cache × S))
      → offset + size < 2 ^ 64
      → offset < 2 ^ 63
      → cache_file_attr backend f c s ≡ ok (0, c₁, s₁)
      → find f c₁.file_map ≡ some fc
      → (leb fc.attr.size offset || size == 0) ≡ false
      → read_within backend f offset (min size (fc.attr.size - offset)) c₁ s₁ ≡ r
      → read backend f offset size c s ≡ r
  unfolding read
  read_span c₁ s₁ fc r small signed h found more run =
      let whole : wrap64 (offset + size) ≡ offset + size = omega arith in
      let cut : (if ltb fc.attr.size (offset + size) then fc.attr.size - offset else size)
          ≡ min size (fc.attr.size - offset) =
        ground arith in
      let passes : ltb offset (2 ^ 63) ≡ true = ground arith in
      rw (h, ◌>>=◌, at-find f c₁.file_map found, passes, more, whole, cut) run

  -- How a read of a file ends whose attributes are known: with an error code of the fetch, or with
  -- the bytes up to the end of the file.
  abbrev pub Ends : FileCache → Type 0
  Ends fc =
      (code : ℕ) × (bytes : List ℕ) × (c' : Cache) × (s' : S) × (read backend f offset size c s
        ≡ ok (code, bytes, c', s'))
      × ReadFrom remote c c' f
      × ((FetchFailed backend f code s' × (bytes ≡ []))
          ⊎ ((code ≡ 0) × Bytes remote c f offset (min size (fc.attr.size - offset)) bytes))

  read-Known :
      (c₁ : Cache) (s₁ : S)
      → IsValid c
      → offset + size < 2 ^ 64
      → offset < 2 ^ 63
      → cache_file_attr backend f c s ≡ ok (0, c₁, s₁)
      → (k : Known c c₁ f) → k.file.attr.size + c.block_size < bound
      → Ends k.file
  read-Known c₁ s₁ v small signed h k fits =
      let v₁ : IsValid c₁ = SameBlocks-IsValid k.same v in
      elim (Bool-cases (leb k.file.attr.size offset || size == 0)) [
        | inl nothing ↦ (
          0,
          [],
          c₁,
          s₁,
          read_nothing c₁ s₁ k.file h k.found signed nothing,
          Served-ReadFrom remote c c₁ c₁ f k (Served-refl remote c₁ v₁),
          inr (refl, (ground arith, λ pos i. absurd (ground arith))),
        )
        | inr more ↦
            let (code, bytes, c', s', run, served, values) =
              read_within_lem backend bound remote serves f offset
                (min size (k.file.attr.size - offset)) c₁ s₁ k.file v₁ k.found (ground arith)
                (ground arith) (rw k.same.same_size fits) in
            (
              code,
              bytes,
              c',
              s',
              read_span c₁ s₁ k.file (ok (code, bytes, c', s')) small signed h k.found more run,
              Served-ReadFrom remote c c₁ c' f k served,
              elim values [
                | inl none_read ↦ inl none_read
                | inr (done, read_bytes) ↦ inr (
                  done,
                  SameBlocks-Bytes remote c c₁ f offset (min size (k.file.attr.size - offset)) bytes
                      k.same read_bytes,
                )
              ],
            )
      ]

  -- `Cache::read` on a valid cache, when the end of the read is a 64-bit number, its offset is
  -- not negative as a signed one, and the callback for content answers below a bound of at most
  -- 2^63 that the end of the file's last block keeps. An error code from the fetch of the
  -- attributes is passed on, and the cache does not change. Otherwise no assertion fails, the
  -- cache stays valid, no cached byte and no dirty mark changes, bytes that come in are the
  -- server's, and other files' attributes stay; the code is that of the last call of the callback
  -- for content, which failed, and nothing is read, or it is 0 and the bytes read are those up to
  -- the end of the file, the cached one at each position where the cache had one and the server's
  -- at each other.
  pub read_lem :
      (code : ℕ) (c₁ : Cache) (s₁ : S)
      → IsValid c
      → offset + size < 2 ^ 64
      → offset < 2 ^ 63
      → cache_file_attr backend f c s ≡ ok (code, c₁, s₁)
      → ((fc : FileCache) → find f c₁.file_map ≡ some fc → fc.attr.size + c.block_size < bound)
      → ((code ≢ 0) × (read backend f offset size c s ≡ ok (code, [], c, s₁)))
        ⊎ ((code ≡ 0) × (fc : FileCache) × (find f c₁.file_map ≡ some fc) × Ends fc)
  read_lem code c₁ s₁ v small signed h fits =
      elim (cache_file_attr_lem backend f c s code c₁ s₁ h) [
        | inl (done, k) ↦ inr (
          done,
          k.file,
          k.found,
          read-Known c₁ s₁ v small signed (h ∙ ap (λ (n : ℕ). ok (n, c₁, s₁)) done) k
              (fits k.file k.found),
        )
        | inr (failed, same) ↦
            inl
              (failed, read_refused code s₁ failed (h ∙ ap (λ (d : Cache). ok (code, d, s₁)) same))
      ]
