-- ===== src/Cache/SoundFlush.antt =====
-- `flush`, `flushDirtyBlocks` and `evictBlocks` of client_src/cache.cpp, and the invariant of the
-- cache.
use net_fs.Prelude.{
  ℕ, zero, suc, min, List, [], ◌∷◌, length, some, ◌==◌, ==_iff, ltb, nat_eq, string_eq, Bool, true,
  find, find-put, put, put-Unique, erase, erase-Unique, at, at-find, Unique, ok, ◌>>=◌, >>=-eq-ok,
  if◌then◌else◌, ◌≡◌, refl, sym, ap, subst, ◌∙◌, arith, Bool-cases, Option-cases, inl, inr,
}
use net_fs.Time.{FileTime}
use net_fs.Cache.Entry.{CacheEntry, entry_clean}
use net_fs.Cache.State.{FileAttr, FileCache, Cache, Backend}
use net_fs.Cache.Blocks.{set_file, delete_entry, erase_use}
use net_fs.Cache.Valid.{IsValid}
use net_fs.Cache.Store.{find_entry-file}
use net_fs.Cache.Flush.{
  Flushing, gather, write_rest, clean_blocks, with_times, finish_flush, flush_blocks, sort,
  dirty_blocks, flush, group_dirty, flush_groups, flush_dirty_blocks, last_use, evict_loop,
  evict_blocks,
}
use net_fs.Cache.GatherBlocks.{contains}
use net_fs.Cache.Cleans.{Cleans-IsValid}
use net_fs.Cache.CleanBlocks.{clean_blocks_lem, clean_file}
use net_fs.Cache.Remove.{delete_entry_lem}
use net_fs.Cache.Keyed.{Keyed, put-Keyed}
use net_fs.Cache.Sound.{IsSound, at-eq-ok, same_result}
use net_fs.Cache.SoundOps.{set_file-IsSound}
use net_fs.Cache.SoundCalls.{same_cache}

at_block :
    (b : ℕ) (entries : List (ℕ × CacheEntry)) {e : CacheEntry}
    → at b entries ≡ ok e
    → find b entries ≡ some e
at_block b entries {e} h = elim (Option-cases (find b entries)) [
  | inl miss ↦ absurd (unfold at in ground arith)
  | inr (d, there) ↦ let both : ok d ≡ ok e = sym (at-find b entries there) ∙ h in there ∙ cc
]

-- Where the loop that marks blocks clean runs through, the blocks are there.
clean_blocks_there :
    (blocks : List ℕ) (entries entries' : List (ℕ × CacheEntry))
    → clean_blocks blocks entries ≡ ok entries'
    → (b : ℕ) → contains blocks b ≡ true
    → (e : CacheEntry) × (find b entries ≡ some e)
unfolding clean_blocks contains
clean_blocks_there [] entries entries' h b is_in = absurd (cc)
clean_blocks_there (k ∷ blocks) entries entries' h b is_in =
    let (e, found, rest) = >>=-eq-ok (at k entries) _ h in
    elim (Bool-cases (k == b)) [
      | inl here ↦ (
        e,
        subst (λ (n : ℕ). find n entries ≡ some e) ((==_iff k b).0 here) (at_block k entries found),
      )
      | inr other ↦
          let (d, there) =
            clean_blocks_there blocks (put k (entry_clean e) entries) entries' rest b
              (ground arith) in
          (d, sym (find-put k b (entry_clean e) entries ∙ rw other refl) ∙ there)
    ]

clean_blocks-Unique :
    (blocks : List ℕ) (entries entries' : List (ℕ × CacheEntry))
    → Unique entries
    → clean_blocks blocks entries ≡ ok entries'
    → Unique entries'
unfolding clean_blocks
clean_blocks-Unique [] entries entries' u h =
    subst (λ m. Unique m) (same_result {r = ok entries} refl h) u
clean_blocks-Unique (k ∷ blocks) entries entries' u h =
    let (e, _, rest) = >>=-eq-ok (at k entries) _ h in
    clean_blocks-Unique blocks (put k (entry_clean e) entries) entries'
      (put-Unique k (entry_clean e) entries u) rest

-- A file with some blocks clean, and other attributes.
cleaned-IsSound :
    (f : List ℕ) (c : Cache) (fc : FileCache) (blocks : List ℕ) (entries : List (ℕ × CacheEntry))
    (attr : FileAttr) (stale : Bool)
    → IsSound c
    → find f c.file_map ≡ some fc
    → clean_blocks blocks fc.entries ≡ ok entries
    → IsSound (set_file f (record { stale = stale; attr = attr; entries = entries }) c)
cleaned-IsSound f c fc blocks entries attr stale s known run =
    let fc' : FileCache = record { stale = stale; attr = attr; entries = entries } in
    let (entries₁, run₁, found) =
      clean_blocks_lem blocks fc.entries (clean_blocks_there blocks fc.entries entries run) in
    let same : entries₁ ≡ entries = same_result run₁ run in
    record {
      valid =
          Cleans-IsValid
            (clean_file f c fc fc' blocks known (λ k. ap (find k) (sym same) ∙ found k)) s.valid;
      keyed =
          put-Keyed c (set_file f fc' c) f fc' refl
            (clean_blocks-Unique blocks fc.entries entries (s.keyed f fc known) run) s.keyed;
    }

delete_entry-IsSound :
    (f : List ℕ) (b : ℕ) (c c' : Cache) → IsSound c → delete_entry f b c ≡ ok c' → IsSound c'
unfolding delete_entry
delete_entry-IsSound f b c c' s h =
    let (fc, found, h₁) = >>=-eq-ok (at f c.file_map) _ h in
    let known = at-eq-ok f c.file_map found in
    elim (Option-cases (find b fc.entries)) [
      | inl miss ↦ absurd (let stop = rw miss at h₁ in cc)
      | inr (e, there) ↦
          let (c₁, run, removed, _, _) =
            delete_entry_lem c f b e s.valid (find_entry-file c f b fc known ∙ there) in
          let (rest, _, h₂) = >>=-eq-ok (erase_use e.use_record c.recent_list) _ (rw there at h₁) in
          let fc' : FileCache = record fc { entries = erase b fc.entries } in
          let c₂ : Cache = record (set_file f fc' c) { recent_list = rest } in
          let same : c₂ ≡ c' = same_result {r = ok c₂} refl h₂ in
          record {
            valid = subst IsValid (same_result run h) removed.valid;
            keyed = subst Keyed same (
                put-Keyed c c₂ f fc' refl (erase-Unique b fc.entries (s.keyed f fc known)) s.keyed);
          }
    ]

evict_loop-IsSound : (n : ℕ) (c c' : Cache) → IsSound c → evict_loop n c ≡ ok c' → IsSound c'
unfolding evict_loop
evict_loop-IsSound zero c c' s h = subst IsSound (same_result {r = ok c} refl h) s
evict_loop-IsSound (suc n) c c' s h =
    let (u, _, h₁) = >>=-eq-ok (last_use c.recent_list) _ h in
    let (c₁, run, rest) =
      >>=-eq-ok (delete_entry u.entry_id.filename u.entry_id.block_num c) _ h₁ in
    evict_loop-IsSound n c₁ c' (delete_entry-IsSound _ _ c c₁ s run) rest

module _ {S : Type 0} (backend : Backend S) where
  finish_flush-IsSound :
      (f : List ℕ) (blocks : List ℕ) (c c' : Cache) (fc : FileCache) (time : FileTime)
      (stale : Bool) (s s' : S) (code : ℕ)
      → IsSound c
      → find f c.file_map ≡ some fc
      → finish_flush backend f blocks
          (record fc { attr = record fc.attr { time = time }; stale = stale })
          c
          s
        ≡ ok (code, c', s')
      → IsSound c'
  unfolding finish_flush
  finish_flush-IsSound f blocks c c' fc time stale s s' code sound known h =
      let (entries, cleaned, h₁) = >>=-eq-ok (clean_blocks blocks fc.entries) _ h in
      let ((code₁, attr, stale', s₁), _, h₂) =
        >>=-eq-ok (backend.attr_wb f (record fc.attr { time = time }) stale s) _ h₁ in
      same_cache h₂ (cleaned-IsSound f c fc blocks entries attr stale' sound known cleaned)

  -- The rest of `flushBlocks`, after the loop over the blocks.
  rest-IsSound :
      (f : List ℕ) (blocks : List ℕ) (c c' : Cache) (fc : FileCache) (fl : Flushing S) (s' : S)
      (code : ℕ)
      → IsSound c
      → find f c.file_map ≡ some fc
      → (do
        (code', fl') ← write_rest backend f fl
        if code' == 0
            then finish_flush backend f blocks (with_times fc fl') c fl'.behind
            else ok (code', set_file f (with_times fc fl') c, fl'.behind))
        ≡ ok (code, c', s')
      → IsSound c'
  rest-IsSound f blocks c c' fc fl s' code sound known h =
      let ((code₁, fl'), _, h₁) = >>=-eq-ok (write_rest backend f fl) _ h in
      elim (Bool-cases (code₁ == 0)) [
        | inr failed ↦
            same_cache (rw failed at h₁)
              (set_file-IsSound c f fc (with_times fc fl') sound known refl)
        | inl done ↦
            finish_flush-IsSound f blocks c c' fc fl'.time fl'.stale fl'.behind s' code sound known
              (rw done at h₁)
      ]

  flush_blocks-IsSound :
      (f : List ℕ) (blocks : List ℕ) (c c' : Cache) (s s' : S) (code : ℕ)
      → IsSound c
      → flush_blocks backend f blocks c s ≡ ok (code, c', s')
      → IsSound c'
  unfolding flush_blocks
  flush_blocks-IsSound f blocks c c' s s' code sound h =
      let (fc, found, h₁) = >>=-eq-ok (at f c.file_map) _ h in
      let known = at-eq-ok f c.file_map found in
      let ((code₁, fl), _, h₂) =
        >>=-eq-ok
          (gather backend f c.block_size fc.entries blocks (record {
            flush_range = [];
            gathered = [];
            time = fc.attr.time;
            stale = fc.stale;
            behind = s;
          }))
          _ h₁ in
      elim (Bool-cases (code₁ == 0)) [
        | inr failed ↦
            same_cache (rw failed at h₂)
              (set_file-IsSound c f fc (with_times fc fl) sound known refl)
        | inl done ↦ rest-IsSound f blocks c c' fc fl s' code sound known (rw done at h₂)
      ]

  pub flush-IsSound :
      (f : List ℕ) (c c' : Cache) (s s' : S) (code : ℕ)
      → IsSound c
      → flush backend f c s ≡ ok (code, c', s')
      → IsSound c'
  unfolding flush
  flush-IsSound f c c' s s' code sound h = elim (Option-cases (find f c.file_map)) [
    | inl unknown ↦ same_cache (rw (flush, unknown) at h) sound
    | inr (fc, known) ↦
        let h₁ = rw (flush, known) at h in
        elim (Bool-cases (ltb 0 (length (dirty_blocks fc.entries)))) [
          | inr clean ↦ same_cache (rw clean at h₁) sound
          | inl busy ↦
              let ((code₁, c₁, s₁), run, h₂) =
                >>=-eq-ok (flush_blocks backend f (sort (dirty_blocks fc.entries)) c s) _
                  (rw busy at h₁) in
              same_cache h₂ (flush_blocks-IsSound f _ c c₁ s s₁ code₁ sound run)
        ]
  ]

  flush_groups-IsSound :
      (groups : List (List ℕ × List ℕ)) (c c' : Cache) (s s' : S) (code : ℕ)
      → IsSound c
      → flush_groups backend groups c s ≡ ok (code, c', s')
      → IsSound c'
  unfolding flush_groups
  flush_groups-IsSound [] c c' s s' code sound h = same_cache h sound
  flush_groups-IsSound ((f, blocks) ∷ groups) c c' s s' code sound h =
      let ((code₁, c₁, s₁), run, h₁) = >>=-eq-ok (flush_blocks backend f (sort blocks) c s) _ h in
      let sound₁ = flush_blocks-IsSound f (sort blocks) c c₁ s s₁ code₁ sound run in
      elim (Bool-cases (code₁ == 0)) [
        | inl done ↦ flush_groups-IsSound groups c₁ c' s₁ s' code sound₁ (rw done at h₁)
        | inr failed ↦ same_cache (rw failed at h₁) sound₁
      ]

  pub flush_dirty_blocks-IsSound :
      (c c' : Cache) (s s' : S) (code : ℕ)
      → IsSound c
      → flush_dirty_blocks backend c s ≡ ok (code, c', s')
      → IsSound c'
  unfolding flush_dirty_blocks
  flush_dirty_blocks-IsSound c c' s s' code sound h =
      let (groups, _, h₁) = >>=-eq-ok (group_dirty c.file_map c.recent_list) _ h in
      flush_groups-IsSound groups c c' s s' code sound h₁

  pub evict_blocks-IsSound :
      (count : ℕ) (c c' : Cache) (s s' : S) (code : ℕ)
      → IsSound c
      → evict_blocks backend count c s ≡ ok (code, c', s')
      → IsSound c'
  unfolding evict_blocks
  evict_blocks-IsSound count c c' s s' code sound h =
      let ((code₁, c₁, s₁), run, h₁) = >>=-eq-ok (flush_dirty_blocks backend c s) _ h in
      let sound₁ = flush_dirty_blocks-IsSound c c₁ s s₁ code₁ sound run in
      elim (Bool-cases (code₁ == 0)) [
        | inr failed ↦ same_cache (rw failed at h₁) sound₁
        | inl done ↦
            let (c₂, loop, h₂) =
              >>=-eq-ok (evict_loop (min (length c.recent_list) count) c₁) _ (rw done at h₁) in
            same_cache h₂ (evict_loop-IsSound _ c₁ c₂ sound₁ loop)
      ]
