-- ===== src/Cache/SoundOps.antt =====
-- Attributes, the loop of `write` and `invalidate` of client_src/cache.cpp, and the invariant of
-- the cache.
use net_fs.Prelude.{
  ℕ, zero, suc, ◌+◌, ◌-◌, ◌<◌, ◌≤◌, min, List, [], ◌∷◌, length, take, drop, length-take, none, some,
  ltb, leb, wrap64, nat_eq, string_eq, false, find, at, Unique, ok, ◌>>=◌, >>=-eq-ok, ◌≡◌, refl,
  sym, ap, subst, ◌∙◌, arith, Bool-cases, Option-cases, inl, inr,
}
use net_fs.Cache.Entry.{CacheEntry, entry_write}
use net_fs.Cache.Contents.{IsBlock, entry_write_lem}
use net_fs.Cache.State.{FileAttr, FileCache, Cache}
use net_fs.Cache.Blocks.{set_file, set_entry, new_entry, write_block}
use net_fs.Cache.Store.{find_entry-file}
use net_fs.Cache.Files.{SameBlocks-IsValid, set_file-SameBlocks, new_file-SameBlocks}
use net_fs.Cache.Ops.{grow, write_loop, invalidate}
use net_fs.Cache.Keyed.{put-Keyed}
use net_fs.Cache.Invalidate.{invalidate_lem}
use net_fs.Cache.Sound.{
  IsSound, assert-eq-ok, at-eq-ok, same_result, set_entry-IsSound, new_entry-Made,
}

-- Other attributes of a file.
pub set_file-IsSound :
    (c : Cache) (f : List ℕ) (fc fc' : FileCache)
    → IsSound c
    → find f c.file_map ≡ some fc
    → fc'.entries ≡ fc.entries
    → IsSound (set_file f fc' c)
set_file-IsSound c f fc fc' s known same = record {
  valid = SameBlocks-IsValid (set_file-SameBlocks c f fc fc' known same) s.valid;
  keyed =
      put-Keyed c (set_file f fc' c) f fc' refl
        (subst (λ m. Unique m) (sym same) (s.keyed f fc known)) s.keyed;
}

pub new_file-IsSound :
    (c : Cache) (f : List ℕ) (attr : FileAttr)
    → IsSound c
    → find f c.file_map ≡ none
    → IsSound (set_file f (record { stale = false; attr = attr; entries = [] }) c)
new_file-IsSound c f attr s unknown =
    let fc : FileCache = record { stale = false; attr = attr; entries = [] } in
    record {
      valid = SameBlocks-IsValid (new_file-SameBlocks c f fc unknown refl) s.valid;
      keyed = put-Keyed c (set_file f fc c) f fc refl (unfold Unique in tt) s.keyed;
    }

pub grow-entries : (end : ℕ) (fc : FileCache) → (grow end fc).entries ≡ fc.entries
unfolding grow
grow-entries end fc = elim (Bool-cases (ltb fc.attr.size end)) [
  | inl more ↦ rw more refl
  | inr less ↦ rw less refl
]

written_entry :
    (f : List ℕ) (b offset : ℕ) (buf : List ℕ) (c c' : Cache) (fc : FileCache) (e e' : CacheEntry)
    → IsSound c
    → 0 < length buf
    → offset + length buf ≤ c.block_size
    → find f c.file_map ≡ some fc
    → find b fc.entries ≡ some e
    → IsBlock c.block_size e
    → entry_write offset buf e ≡ ok e'
    → set_entry f b e' c ≡ ok c'
    → IsSound c'
written_entry f b offset buf c c' fc e e' s some_bytes fits known there whole wrote set =
    let (e₁, run, block', _, kept, _) =
      entry_write_lem c.block_size offset buf e s.valid.small whole some_bytes fits in
    let same : e₁ ≡ e' = same_result run wrote in
    set_entry-IsSound c f b fc e e' c' s known there (subst (IsBlock c.block_size) same block')
      (ap (λ (d : CacheEntry). d.use_record) (sym same) ∙ kept) set

write_block-IsSound :
    (f : List ℕ) (b offset : ℕ) (buf : List ℕ) (c c' : Cache)
    → IsSound c
    → 0 < length buf
    → offset + length buf ≤ c.block_size
    → write_block f b offset buf c ≡ ok c'
    → IsSound c'
unfolding write_block
write_block-IsSound f b offset buf c c' s some_bytes fits h =
    let (_, h₁) = assert-eq-ok (leb (wrap64 (offset + length buf)) c.block_size) _ h in
    let (fc, found, next) = >>=-eq-ok (at f c.file_map) _ h₁ in
    let known = at-eq-ok f c.file_map found in
    elim (Option-cases (find b fc.entries)) [
      | inr (e, there) ↦
          let (e', wrote, set) =
            >>=-eq-ok (entry_write offset buf e) (λ d. set_entry f b d c) (rw there at next) in
          written_entry f b offset buf c c' fc e e' s some_bytes fits known there
            (s.valid.blocks f b e (find_entry-file c f b fc known ∙ there)) wrote set
      | inl absent ↦
          let ((e, c₁), made, next') =
            >>=-eq-ok (new_entry f b c)
              (λ (t : CacheEntry × Cache).
                entry_write offset buf t.0 >>= (λ d. set_entry f b d t.1))
              (rw absent at next) in
          let m = new_entry-Made c f b fc e c₁ s known absent made in
          let (e', wrote, set) =
            >>=-eq-ok (entry_write offset buf e) (λ d. set_entry f b d c₁) next' in
          written_entry f b offset buf c₁ c' m.file e e' m.sound some_bytes (rw m.same_size fits)
            m.known m.there m.block wrote set
    ]

pub write_loop-IsSound :
    (fuel : ℕ) (f : List ℕ) (b start : ℕ) (buf : List ℕ) (c c' : Cache)
    → IsSound c
    → start < c.block_size
    → write_loop fuel f b start buf c ≡ ok c'
    → IsSound c'
unfolding write_loop
write_loop-IsSound fuel f b start [] c c' s h run =
    subst IsSound (same_result {r = ok c} refl run) s
write_loop-IsSound zero f b start (x ∷ buf) c c' s h run = absurd (cc)
write_loop-IsSound (suc fuel) f b start (x ∷ buf) c c' s h run =
    let bsize : ℕ = min (c.block_size - start) (length (x ∷ buf)) in
    let len = length-take bsize (x ∷ buf) in
    let (c₁, first, rest) = >>=-eq-ok (write_block f b start (take bsize (x ∷ buf)) c) _ run in
    let s₁ =
      write_block-IsSound f b start (take bsize (x ∷ buf)) c c₁ s (omega (arith, len))
        (omega (arith, len)) first in
    write_loop-IsSound fuel f (b + 1) 0 (drop bsize (x ∷ buf)) c₁ c' s₁ s₁.valid.positive rest

pub invalidate-IsSound :
    (f : List ℕ) (c c' : Cache) → IsSound c → invalidate f c ≡ ok c' → IsSound c'
invalidate-IsSound f c c' s h =
    let (c₁, run, done) = invalidate_lem f c s.valid s.keyed in
    subst IsSound (same_result run h) (record { valid = done.valid; keyed = done.keyed })
