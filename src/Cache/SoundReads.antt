-- ===== src/Cache/SoundReads.antt =====
-- The reads of client_src/cache.cpp, and the invariant of the cache.
use net_fs.Prelude.{
  ℕ, zero, suc, ◌+◌, ◌-◌, ◌*◌, min, List, [], ◌∷◌, ◌++◌, length, take, drop, ◌==◌, leb, replicate,
  wrap64, nat_eq, string_eq, Bool, find, at, ok, >>=-eq-ok, ◌≡◌, refl, ap, subst, Bool-cases,
  Option-cases, inl, inr,
}
use net_fs.Range.{Range}
use net_fs.Cache.State.{Cache, Backend}
use net_fs.Cache.Blocks.{find_use, is_some, is_full_block, move_to_head, read_block}
use net_fs.Cache.Valid.{find_entry}
use net_fs.Cache.Files.{SameBlocks-IsValid}
use net_fs.Cache.ReadBlock.{move_to_head_lem}
use net_fs.Cache.Ops.{
  fetch_block, fill_blocks, fetch_ranges, missing_blocks, cache_blocks, read_loop,
}
use net_fs.Cache.Sound.{IsSound, assert-eq-ok, same_result, fetch_block-IsSound}

fill_blocks-IsSound :
    (f : List ℕ) (b n : ℕ) (buf : List ℕ) (c c' : Cache)
    → IsSound c
    → fill_blocks f b n buf c ≡ ok c'
    → IsSound c'
unfolding fill_blocks
fill_blocks-IsSound f b zero buf c c' s h = subst IsSound (same_result {r = ok c} refl h) s
fill_blocks-IsSound f b (suc n) buf c c' s h =
    let (c₁, run, rest) = >>=-eq-ok (fetch_block f b (take c.block_size buf) c) _ h in
    fill_blocks-IsSound f (b + 1) n (drop c.block_size buf) c₁ c'
      (fetch_block-IsSound f b (take c.block_size buf) c c₁ s run) rest

noted_entry :
    (c : Cache) (hit : Bool) (g : List ℕ) (k : ℕ)
    → find_entry (record c { last_read_hit = hit }) g k ≡ find_entry c g k
unfolding find_entry
noted_entry c hit g k = refl

-- The note on the last read is not part of the invariant.
noted-IsSound : (c : Cache) (hit : Bool) → IsSound c → IsSound (record c { last_read_hit = hit })
noted-IsSound c hit s = record {
  valid =
      SameBlocks-IsValid
        (record {
          same_entry = λ g k. noted_entry c hit g k;
          same_size = refl;
          same_list = refl;
          same_next = refl;
        })
        s.valid;
  keyed = s.keyed;
}

move_to_head-IsSound :
    (c c' : Cache) (node : ℕ) → IsSound c → move_to_head node c ≡ ok c' → IsSound c'
unfolding move_to_head
move_to_head-IsSound c c' node s h = elim (Option-cases (find_use node c.recent_list)) [
  | inl miss ↦ absurd (let stop = rw (move_to_head, miss) at h in cc)
  | inr (u, there) ↦
      let (rest, run, touched) = move_to_head_lem c node u s.valid there in
      let same : record c { recent_list = u ∷ rest } ≡ c' = same_result run h in
      subst IsSound same (record { valid = touched.valid; keyed = s.keyed })
]

read_block-IsSound :
    (f : List ℕ) (b offset size : ℕ) (c c' : Cache) (bytes : List ℕ)
    → IsSound c
    → read_block f b offset size c ≡ ok (bytes, c')
    → IsSound c'
unfolding read_block
read_block-IsSound f b offset size c c' bytes s h =
    let (_, h₁) = assert-eq-ok (is_some (find f c.file_map)) _ h in
    let (_, h₂) = assert-eq-ok (leb (wrap64 (offset + size)) c.block_size) _ h₁ in
    let (fc, _, h₃) = >>=-eq-ok (at f c.file_map) _ h₂ in
    let (e, _, h₄) = >>=-eq-ok (at b fc.entries) _ h₃ in
    let (_, h₅) = assert-eq-ok (is_full_block fc b c) _ h₄ in
    let (c₁, run, last) = >>=-eq-ok (move_to_head e.use_record c) _ h₅ in
    let same : c₁ ≡ c' =
      ap (λ (t : List ℕ × Cache). t.1)
        (same_result {r = ok (take size (drop offset e.content), c₁)} refl last) in
    subst IsSound same (move_to_head-IsSound c c₁ e.use_record s run)

pub read_loop-IsSound :
    (fuel : ℕ) (f : List ℕ) (b start left : ℕ) (c c' : Cache) (bytes : List ℕ)
    → IsSound c
    → read_loop fuel f b start left c ≡ ok (bytes, c')
    → IsSound c'
unfolding read_loop
read_loop-IsSound fuel f b start zero c c' bytes s h =
    subst IsSound (ap (λ (t : List ℕ × Cache). t.1) (same_result {r = ok ([], c)} refl h)) s
read_loop-IsSound zero f b start (suc left) c c' bytes s h = absurd (cc)
read_loop-IsSound (suc fuel) f b start (suc left) c c' bytes s h =
    let bsize : ℕ = min (c.block_size - start) (suc left) in
    let ((first, c₁), run, h₁) = >>=-eq-ok (read_block f b start bsize c) _ h in
    let ((rest, c₂), run', h₂) =
      >>=-eq-ok (read_loop fuel f (b + 1) 0 (suc left - bsize) c₁) _ h₁ in
    let same : c₂ ≡ c' =
      ap (λ (t : List ℕ × Cache). t.1) (same_result {r = ok (first ++ rest, c₂)} refl h₂) in
    subst IsSound same (
      read_loop-IsSound fuel f (b + 1) 0 (suc left - bsize) c₁ c₂ rest
        (read_block-IsSound f b start bsize c c₁ first s run) run')

module _ {S : Type 0} (backend : Backend S) where
  fetch_ranges-IsSound :
      (f : List ℕ) (ranges : List Range) (c c' : Cache) (s s' : S) (code : ℕ)
      → IsSound c
      → fetch_ranges backend f ranges c s ≡ ok (code, c', s')
      → IsSound c'
  unfolding fetch_ranges
  fetch_ranges-IsSound f [] c c' s s' code sound h =
      subst IsSound (ap (λ (t : ℕ × Cache × S). t.1) (same_result {r = ok (0, c, s)} refl h)) sound
  fetch_ranges-IsSound f (rg ∷ ranges) c c' s s' code sound h =
      let ((code₁, buf, size, s₁), _, h₁) =
        >>=-eq-ok
          (backend.content_ft f (wrap64 (rg.start * c.block_size))
            (replicate (wrap64 ((rg.end - rg.start) * c.block_size)) 0) s)
          _ h in
      elim (Bool-cases (code₁ == 0)) [
        | inl done ↦
            let (c₁, run, h₂) =
              >>=-eq-ok (fill_blocks f rg.start (rg.end - rg.start) buf c) _ (rw done at h₁) in
            fetch_ranges-IsSound f ranges c₁ c' s₁ s' code
              (fill_blocks-IsSound f rg.start (rg.end - rg.start) buf c c₁ sound run) h₂
        | inr failed ↦
            subst IsSound
              (ap (λ (t : ℕ × Cache × S). t.1)
                (same_result {r = ok (code₁, c, s₁)} refl (rw failed at h₁)))
              sound
      ]

  pub cache_blocks-IsSound :
      (f : List ℕ) (from to : ℕ) (c c' : Cache) (s s' : S) (code : ℕ)
      → IsSound c
      → cache_blocks backend f from to c s ≡ ok (code, c', s')
      → IsSound c'
  unfolding cache_blocks
  cache_blocks-IsSound f from to c c' s s' code sound h =
      let (_, h₁) = assert-eq-ok (is_some (find f c.file_map)) _ h in
      let (fc, _, h₂) = >>=-eq-ok (at f c.file_map) _ h₁ in
      elim (Bool-cases (fc.attr.size == 0)) [
        | inl empty ↦
            subst IsSound
              (ap (λ (t : ℕ × Cache × S). t.1)
                (same_result {r = ok (0, c, s)} refl (rw empty at h₂)))
              sound
        | inr some_bytes ↦
            let (ranges, _, h₃) =
              >>=-eq-ok (missing_blocks fc c from (to - from) []) _ (rw some_bytes at h₂) in
            fetch_ranges-IsSound f ranges (record c { last_read_hit = length ranges == 0 }) c' s s'
              code (noted-IsSound c (length ranges == 0) sound) h₃
      ]
