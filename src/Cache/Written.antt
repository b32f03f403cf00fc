-- ===== src/Cache/Written.antt =====
-- `Cache::write` of client_src/cache.cpp as a whole, in terms of positions in the file.
use net_fs.Prelude.{
  ℕ, ◌+◌, ◌-◌, ◌*◌, ◌/◌, ◌%◌, ◌<◌, ◌^◌, ◌>>=◌, max, List, length, get_elem?, ltb, wrap64, Option,
  some, ◌==◌, str_eq, str_eq_iff, nat_eq, string_eq, ◌&&◌, Bool, if◌then◌else◌, find, put, at-find,
  find-put, ok, ◌≡◌, ◌≢◌, ◌⊎◌, refl, ap, subst, ◌∙◌, arith, Bool-cases, inl, inr, true, false,
}
use net_fs.Cache.State.{FileAttr, FileCache, Cache, Backend}
use net_fs.Cache.Blocks.{set_file, block_number, block_offset}
use net_fs.Cache.Valid.{IsValid, find_entry, view}
use net_fs.Cache.Store.{file_facts}
use net_fs.Cache.WriteBlock.{dirty_at}
use net_fs.Cache.Span.{in_span}
use net_fs.Cache.Files.{
  SameBlocks, SameBlocks-IsValid, SameBlocks-view, SameBlocks-dirty_at, SameBlocks-trans,
  set_file-SameBlocks, set_file-other_facts, cache_file_attr_lem, Known,
}
use net_fs.Cache.Ops.{write_loop, grow, cache_file_attr, write}
use net_fs.Cache.Write.{Spread, write_loop_lem}

-- The byte that the cache holds at a position of a file.
unfoldable pub cached_byte : Cache → List ℕ → ℕ → Option ℕ
cached_byte c f pos = view c f (block_number c pos) (block_offset c pos)

-- The cache `c'` is `c` with `buf` written into a file at `offset`.
pub record Written (c c' : Cache) (f : List ℕ) (offset : ℕ) (buf : List ℕ) : Type 0 where
  pub valid : IsValid c'
  pub same_size : c'.block_size ≡ c.block_size
  pub other_facts : (g : List ℕ) → str_eq f g ≡ false → file_facts c' g ≡ file_facts c g
  pub bytes :
      (g : List ℕ) (pos : ℕ)
      → cached_byte c' g pos ≡ (
          if str_eq f g && in_span offset (length buf) pos
          then get_elem? buf (pos - offset)
          else cached_byte c g pos)
  pub stays_dirty : (g : List ℕ) (k : ℕ) → dirty_at c g k ≡ true → dirty_at c' g k ≡ true
  pub becomes_dirty :
      (pos : ℕ) → in_span offset (length buf) pos ≡ true → dirty_at c' f (block_number c pos) ≡ true

-- A file's attributes after a write that ends at `end`.
unfoldable pub grown : ℕ → FileAttr × Bool → FileAttr × Bool
grown end (attr, stale) = (record attr { size = max attr.size end }, stale)

grow-attr :
    (end : ℕ) (fc : FileCache)
    → ((grow end fc).attr, (grow end fc).stale) ≡ grown end (fc.attr, fc.stale)
unfolding grow grown
grow-attr end fc = elim (Bool-cases (ltb fc.attr.size end)) [
  | inl less ↦ let most : max fc.attr.size end ≡ end = ground arith in rw (less, most) refl
  | inr more ↦ let most : max fc.attr.size end ≡ fc.attr.size = ground arith in rw (more, most) refl
]

pub place : (n pos : ℕ) → 0 < n → (pos / n * n + pos % n ≡ pos) × (pos % n < n)
place n pos h = (omega arith, omega arith)

Written-Spread :
    (c c₂ c' : Cache) (f : List ℕ) (offset : ℕ) (buf : List ℕ)
    → 0 < c.block_size
    → SameBlocks c c₂
    → ((g : List ℕ) → str_eq f g ≡ false → file_facts c₂ g ≡ file_facts c g)
    → Spread c₂ c' f offset buf
    → Written c c' f offset buf
unfolding cached_byte view find_entry
Written-Spread c c₂ c' f offset buf positive same facts s = record {
  valid = s.valid;
  same_size = s.same_size ∙ same.same_size;
  other_facts = λ g other. s.same_facts g ∙ facts g other;
  bytes = λ g pos.
      let (at_pos, inner) = place c.block_size pos positive in
      ap (λ (n : ℕ). view c' g (pos / n) (pos % n)) (s.same_size ∙ same.same_size)
      ∙ rw (same.same_size, at_pos) at
          (s.bytes g (pos / c.block_size) (pos % c.block_size) (rw same.same_size inner))
      ∙ rw (SameBlocks-view same g (pos / c.block_size) (pos % c.block_size)) refl;
  stays_dirty = λ g k d. s.stays_dirty g k (SameBlocks-dirty_at same g k ∙ d);
  becomes_dirty = λ pos i.
      let (at_pos, inner) = place c.block_size pos positive in
      s.becomes_dirty (pos / c.block_size) (pos % c.block_size) (rw same.same_size inner)
        (rw (same.same_size, at_pos) i);
}

grow-entries : (end : ℕ) (fc : FileCache) → (grow end fc).entries ≡ fc.entries
unfolding grow
grow-entries end fc = elim (Bool-cases (ltb fc.attr.size end)) [
  | inl less ↦ rw less refl
  | inr more ↦ rw more refl
]

pub file_facts-known :
    (c : Cache) (f : List ℕ) (fc : FileCache)
    → find f c.file_map ≡ some fc
    → file_facts c f ≡ some (fc.attr, fc.stale)
unfolding file_facts
file_facts-known c f fc h = ground arith

put_found : (c : Cache) (f : List ℕ) (fc : FileCache) → find f (put f fc c.file_map) ≡ some fc
put_found c f fc = find-put f f fc c.file_map ∙ rw ((str_eq_iff f f).1 refl) refl

-- The loop of `write`, from a cache with the blocks of `c`.
loop-Written :
    (c c₂ : Cache) (f : List ℕ) (offset : ℕ) (buf : List ℕ) (fc₂ : FileCache)
    → IsValid c
    → SameBlocks c c₂
    → find f c₂.file_map ≡ some fc₂
    → ((g : List ℕ) → str_eq f g ≡ false → file_facts c₂ g ≡ file_facts c g)
    → (c' : Cache) × (write_loop
          (length buf)
          f
          (block_number c₂ offset)
          (block_offset c₂ offset)
          buf
          c₂
        ≡ ok c')
      × Written c c' f offset buf
      × (file_facts c' f ≡ some (fc₂.attr, fc₂.stale))
loop-Written c c₂ f offset buf fc₂ v same known facts =
    let v₂ : IsValid c₂ = SameBlocks-IsValid same v in
    let (at_offset, inner) = place c₂.block_size offset v₂.positive in
    let (c', run, spread) =
      write_loop_lem (length buf) c₂ f (block_number c₂ offset) (block_offset c₂ offset) buf fc₂ v₂
        known inner (omega arith) in
    (
      c',
      run,
      Written-Spread c c₂ c' f offset buf v.positive same facts
          (subst (λ (p : ℕ). Spread c₂ c' f p buf) at_offset spread),
      spread.same_facts f ∙ file_facts-known c₂ f fc₂ known,
    )

module _ {S : Type 0} (backend : Backend S) (f : List ℕ) (offset : ℕ) (buf : List ℕ) (c : Cache)
    (s : S) where
  write_passes :
      (code : ℕ) (s' : S)
      → code ≢ 0
      → cache_file_attr backend f c s ≡ ok (code, c, s')
      → write backend f offset buf c s ≡ ok (code, c, s')
  unfolding write
  write_passes code s' failed h =
      let failed' : (code == 0) ≡ false = ground arith in rw (h, ◌>>=◌, failed') refl

  write_runs :
      (c₁ c' : Cache) (s' : S) (fc : FileCache)
      → cache_file_attr backend f c s ≡ ok (0, c₁, s')
      → find f c₁.file_map ≡ some fc
      → write_loop
          (length buf)
          f
          (block_number c₁ offset)
          (block_offset c₁ offset)
          buf
          (set_file f (grow (wrap64 (offset + length buf)) fc) c₁)
        ≡ ok c'
      → write backend f offset buf c s ≡ ok (0, c', s')
  unfolding write
  write_runs c₁ c' s' fc h found run = rw (h, ◌>>=◌, at-find f c₁.file_map found, run) refl

  -- `Cache::write` of a file whose attributes are known or can be fetched succeeds, whatever the
  -- bytes and the place, if the end of the write is a 64-bit number.
  write_succeeds :
      (c₁ : Cache) (s' : S)
      → IsValid c
      → offset + length buf < 2 ^ 64
      → cache_file_attr backend f c s ≡ ok (0, c₁, s')
      → Known c c₁ f
      → (c' : Cache) × (write backend f offset buf c s ≡ ok (0, c', s'))
        × Written c c' f offset buf
        × (facts : FileAttr × Bool) × (file_facts c₁ f ≡ some facts)
        × (file_facts c' f ≡ some (grown (offset + length buf) facts))
  write_succeeds c₁ s' v small h k =
      let fc₂ : FileCache = grow (wrap64 (offset + length buf)) k.file in
      let same = set_file-SameBlocks c₁ f k.file fc₂ k.found (grow-entries _ k.file) in
      let (c', run, written, facts) =
        loop-Written c (set_file f fc₂ c₁) f offset buf fc₂ v (SameBlocks-trans k.same same)
          (put_found c₁ f fc₂)
          (λ g other. set_file-other_facts c₁ f g fc₂ other ∙ k.other_facts g other) in
      (
        c',
        write_runs c₁ c' s' k.file h k.found run,
        written,
        (k.file.attr, k.file.stale),
        file_facts-known c₁ f k.file k.found,
        facts
            ∙ ap some (
                grow-attr (wrap64 (offset + length buf)) k.file
                ∙ ap (λ (n : ℕ). grown n (k.file.attr, k.file.stale)) (omega arith)),
      )

  -- `Cache::write` on a valid cache, when its end is a 64-bit number. An error code from the fetch
  -- of the attributes is passed on, and the cache does not change. Otherwise the write succeeds,
  -- no assertion fails, and the cache stays valid: it holds the buffer's bytes at their positions
  -- of the file, in dirty blocks, and every other byte of every file as before; a dirty block
  -- stays dirty, the size grows to the end of the write if that is more, and other files'
  -- attributes stay.
  pub write_lem :
      (code : ℕ) (c₁ : Cache) (s' : S)
      → IsValid c
      → offset + length buf < 2 ^ 64
      → cache_file_attr backend f c s ≡ ok (code, c₁, s')
      → ((code ≢ 0) × (write backend f offset buf c s ≡ ok (code, c, s')))
        ⊎ ((code ≡ 0)
            × (c' : Cache) × (write backend f offset buf c s ≡ ok (0, c', s'))
            × Written c c' f offset buf
            × (facts : FileAttr × Bool) × (file_facts c₁ f ≡ some facts)
            × (file_facts c' f ≡ some (grown (offset + length buf) facts)))
  write_lem code c₁ s' v small h = elim (cache_file_attr_lem backend f c s code c₁ s' h) [
    | inl (done, k) ↦
        let (c', run, written, facts, before, after) =
          write_succeeds c₁ s' v small (h ∙ ap (λ (n : ℕ). ok (n, c₁, s')) done) k in
        inr (done, c', run, written, facts, before, after)
    | inr (failed, same) ↦
        inl (failed, write_passes code s' failed (h ∙ ap (λ (d : Cache). ok (code, d, s')) same))
  ]
