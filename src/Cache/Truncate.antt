-- ===== src/Cache/Truncate.antt =====
-- `Cache::truncate` of client_src/cache.cpp as a whole.
use net_fs.Prelude.{
  ℕ, List, some, ◌==◌, ltb, nat_eq, string_eq, Bool, true, false, find, find-put, str_eq_iff,
  at-find, ok, ◌>>=◌, ◌≡◌, ◌≢◌, ◌⊎◌, refl, ap, ◌∙◌, arith, Bool-cases, inl, inr,
}
use net_fs.Cache.State.{FileAttr, FileCache, Cache, Backend}
use net_fs.Cache.Blocks.{set_file, delete_entry_beyond}
use net_fs.Cache.Store.{file_facts}
use net_fs.Cache.Files.{Known, cache_file_attr_lem}
use net_fs.Cache.Written.{file_facts-known}
use net_fs.Cache.Ops.{cache_file_attr, resize, truncate}
use net_fs.Cache.Sound.{IsSound}
use net_fs.Cache.SoundCalls.{cache_file_attr-IsSound}
use net_fs.Cache.Cut.{Cut, cut_bound, uncut-Cut, shrunk-Cut, Cut-attr, Known-Cut}

-- What the callback for attributes leaves when it is given a size.
pub record Reply {S : Type 0} (backend : Backend S) (f : List ℕ) (a : FileAttr) (stale : Bool)
    (s : S) : Type 0 where
  pub code : ℕ
  pub attr : FileAttr
  pub now_stale : Bool
  pub behind : S
  pub run : backend.attr_wb f a stale s ≡ ok (code, attr, now_stale, behind)

-- The callback for attributes answers, with an error code or without.
abbrev pub Replies : {S : Type 0} → Backend S → Type 0
Replies {S} backend = (f : List ℕ) (a : FileAttr) (stale : Bool) (s : S) → Reply backend f a stale s

module _ {S : Type 0} (backend : Backend S) (replies : Replies backend) (f : List ℕ) (size : ℕ)
    (c : Cache) (s : S) where
  -- What the attributes of a file are written back to with the new size.
  abbrev pub reply :
      (fc : FileCache) (s₁ : S) → Reply backend f (record fc.attr { size = size }) fc.stale s₁
  reply fc s₁ = replies f (record fc.attr { size = size }) fc.stale s₁

  -- The file with what the callback left.
  abbrev pub resized : (fc : FileCache) (s₁ : S) → FileCache → FileCache
  resized fc s₁ fc₂ = record fc₂ { attr = (reply fc s₁).attr; stale = (reply fc s₁).now_stale }

  resize_run :
      (c₂ : Cache) (s₁ : S) (fc fc₂ : FileCache)
      → find f c₂.file_map ≡ some fc₂
      → fc₂.attr ≡ fc.attr
      → fc₂.stale ≡ fc.stale
      → resize backend f size c₂ s₁
        ≡ ok ((reply fc s₁).code, set_file f (resized fc s₁ fc₂) c₂, (reply fc s₁).behind)
  unfolding resize
  resize_run c₂ s₁ fc fc₂ known attr stale =
      rw (at-find f c₂.file_map known, attr, stale, (reply fc s₁).run) refl

  truncate_passes :
      (code : ℕ) (s₁ : S)
      → code ≢ 0
      → cache_file_attr backend f c s ≡ ok (code, c, s₁)
      → truncate backend f size c s ≡ ok (code, c, s₁)
  unfolding truncate
  truncate_passes code s₁ failed h =
      let failed' : (code == 0) ≡ false = ground arith in rw (h, ◌>>=◌, failed') refl

  module _ (c₁ : Cache) (s₁ : S) (fc : FileCache)
      (h : cache_file_attr backend f c s ≡ ok (0, c₁, s₁))
      (known : find f c₁.file_map ≡ some fc) where
    truncate_stays :
        ltb size fc.attr.size ≡ false
        → ltb fc.attr.size size ≡ false
        → truncate backend f size c s ≡ ok (0, c₁, s₁)
    unfolding truncate
    truncate_stays less more = rw (h, ◌>>=◌, at-find f c₁.file_map known, less, more) refl

    truncate_grows :
        ltb size fc.attr.size ≡ false
        → ltb fc.attr.size size ≡ true
        → truncate backend f size c s ≡ resize backend f size c₁ s₁
    unfolding truncate
    truncate_grows less more = rw (h, ◌>>=◌, at-find f c₁.file_map known, less, more) refl

    truncate_shrinks :
        (c₂ : Cache)
        → ltb size fc.attr.size ≡ true
        → delete_entry_beyond f (cut_bound c₁ size) c₁ ≡ ok c₂
        → truncate backend f size c s ≡ resize backend f size c₂ s₁
    unfolding truncate
    truncate_shrinks c₂ less run = rw (h, ◌>>=◌, at-find f c₁.file_map known, less, run) refl

  -- The end of the operation, when the file is known with the attributes of `fc`.
  pub record Truncated (c₁ : Cache) (s₁ : S) (fc : FileCache) : Type 0 where
    pub c' : Cache
    pub run : truncate backend f size c s ≡ ok ((reply fc s₁).code, c', (reply fc s₁).behind)
    pub cut : Cut f fc.attr.size size c c'
    pub facts : file_facts c' f ≡ some ((reply fc s₁).attr, (reply fc s₁).now_stale)

  resized-Truncated :
      (c₁ c₂ : Cache) (s₁ : S) (fc fc₂ : FileCache)
      → Known c c₁ f
      → truncate backend f size c s ≡ resize backend f size c₂ s₁
      → Cut f fc.attr.size size c₁ c₂
      → find f c₂.file_map ≡ some fc₂
      → fc₂.attr ≡ fc.attr
      → fc₂.stale ≡ fc.stale
      → Truncated c₁ s₁ fc
  resized-Truncated c₁ c₂ s₁ fc fc₂ k run cut known attr stale = record {
    c' = set_file f (resized fc s₁ fc₂) c₂;
    run = run ∙ resize_run c₂ s₁ fc fc₂ known attr stale;
    cut =
        Known-Cut f fc.attr.size size c c₁ _ k
          (Cut-attr f fc.attr.size size c₁ c₂ fc₂ (resized fc s₁ fc₂) cut known refl);
    facts =
        file_facts-known (set_file f (resized fc s₁ fc₂) c₂) f (resized fc s₁ fc₂)
          (find-put f f (resized fc s₁ fc₂) c₂.file_map ∙ rw ((str_eq_iff f f).1 refl) refl);
  }

  -- `Cache::truncate` on a sound cache, when the callback for attributes answers. An error code
  -- from the fetch of the attributes is passed on, and the cache does not change. If the file has
  -- the size already, nothing is written back. Otherwise the size is written back, the file has the
  -- attributes and the mark that this leaves, its code is returned, and the cache is sound: it has
  -- lost exactly the blocks of the file that start at the new size or later, if that is less
  -- than the old one, whatever the code.
  pub truncate_lem :
      (code : ℕ) (c₁ : Cache) (s₁ : S)
      → IsSound c
      → cache_file_attr backend f c s ≡ ok (code, c₁, s₁)
      → ((code ≢ 0) × (truncate backend f size c s ≡ ok (code, c, s₁)))
        ⊎ ((code ≡ 0)
            × (fc : FileCache) × (find f c₁.file_map ≡ some fc)
            × (((fc.attr.size ≡ size) × (truncate backend f size c s ≡ ok (0, c₁, s₁)))
                ⊎ ((fc.attr.size ≢ size) × Truncated c₁ s₁ fc)))
  truncate_lem code c₁ s₁ sound h = elim (cache_file_attr_lem backend f c s code c₁ s₁ h) [
    | inr (failed, same) ↦
        inl (failed, truncate_passes code s₁ failed (h ∙ ap (λ (d : Cache). ok (code, d, s₁)) same))
    | inl (done, k) ↦
        let fc : FileCache = k.file in
        let h' : cache_file_attr backend f c s ≡ ok (0, c₁, s₁) =
          h ∙ ap (λ (n : ℕ). ok (n, c₁, s₁)) done in
        let sound₁ : IsSound c₁ = cache_file_attr-IsSound backend f c c₁ s s₁ code sound h in
        inr (
          done,
          fc,
          k.found,
          elim (Bool-cases (ltb size fc.attr.size)) [
            | inl less ↦
                let (c₂, fc₂, run, cut, known, attr, stale) =
                  shrunk-Cut f size c₁ fc sound₁ k.found less in
                inr (
                  ground arith,
                  resized-Truncated c₁ c₂ s₁ fc fc₂ k
                      (truncate_shrinks c₁ s₁ fc h' k.found c₂ less run) cut known attr stale,
                )
            | inr no_less ↦ elim (Bool-cases (ltb fc.attr.size size)) [
              | inl more ↦ inr (
                ground arith,
                resized-Truncated c₁ c₁ s₁ fc fc k (truncate_grows c₁ s₁ fc h' k.found no_less more)
                    (uncut-Cut f fc.attr.size size c₁ sound₁ no_less) k.found refl refl,
              )
              | inr no_more ↦ inl (ground arith, truncate_stays c₁ s₁ fc h' k.found no_less no_more)
            ]
          ],
        )
  ]
