-- ===== src/Cache/Beyond.antt =====
-- `Cache::deleteEntryBeyond` of client_src/cache.cpp: a file's blocks from a bound on go, with
-- their records.
use net_fs.Prelude.{
  ℕ, List, some, leb, str_eq, str_eq_iff, nat_eq, string_eq, ◌&&◌, Bool, find, put, at-find,
  find-put, ok, ◌≡◌, refl, sym, ap, subst, ◌∙◌, arith, Bool-cases, Option-cases, inl, inr, true,
}
use net_fs.Cache.Entry.{CacheEntry}
use net_fs.Cache.State.{Use, FileCache, Cache}
use net_fs.Cache.Blocks.{find_use, set_file, drop_beyond, delete_entry_beyond}
use net_fs.Cache.Valid.{IsValid, find_entry, use_of}
use net_fs.Cache.Store.{find_entry-file}
use net_fs.Cache.Remove.{unless, kept_use, Removed, removed-IsValid}
use net_fs.Cache.Keyed.{Keyed, put-Keyed}
use net_fs.Cache.DropBeyond.{drop_beyond-Dropped, holds_node, holds_node-find, find-holds_node}

-- The blocks of a file from the bound on.
abbrev pub beyond : List ℕ → ℕ → List ℕ → ℕ → Bool
beyond f bound g k = str_eq f g && leb bound k

module _ (c : Cache) (f : List ℕ) (bound : ℕ) (fc : FileCache) (v : IsValid c) (keyed : Keyed c)
    (known : find f c.file_map ≡ some fc) where
  beyond_node :
      (n : ℕ) (u : Use)
      → find_use n c.recent_list ≡ some u
      → holds_node bound n fc.entries ≡ beyond f bound u.entry_id.filename u.entry_id.block_num
  beyond_node n u hit =
      let (d, found, at_n) = v.used n u hit in
      elim (Bool-cases (beyond f bound u.entry_id.filename u.entry_id.block_num)) [
        | inl goes ↦
            let ef : f ≡ u.entry_id.filename =
              (str_eq_iff f u.entry_id.filename).0 (ground arith) in
            let here : find_entry c f u.entry_id.block_num ≡ some d =
              subst (λ h. find_entry c h u.entry_id.block_num ≡ some d) (sym ef) found in
            let there : find u.entry_id.block_num fc.entries ≡ some d =
              sym (find_entry-file c f u.entry_id.block_num fc known) ∙ here in
            let held : holds_node bound d.use_record fc.entries ≡ true =
              holds_node-find bound fc.entries u.entry_id.block_num d (ground arith) there in
            ap (λ (m : ℕ). holds_node bound m fc.entries) (sym at_n) ∙ held ∙ sym goes
        | inr stays ↦ elim (Bool-cases (holds_node bound n fc.entries)) [
          | inr free ↦ free ∙ sym stays
          | inl held ↦
              let (b, e, there, from_bound, node) =
                find-holds_node bound n fc.entries (keyed f fc known) held in
              let record_of : find_use e.use_record c.recent_list ≡ some (use_of f b e.use_record) =
                v.recorded f b e (find_entry-file c f b fc known ∙ there) in
              let again : find_use n c.recent_list ≡ some (use_of f b e.use_record) =
                subst (λ (m : ℕ). find_use m c.recent_list ≡ some (use_of f b e.use_record)) node
                  record_of in
              let same : use_of f b e.use_record ≡ u = cc in
              let goes : beyond f bound f b ≡ true = ground (arith, str_eq_iff f f) in
              let goes' : beyond f bound u.entry_id.filename u.entry_id.block_num ≡ true =
                subst (λ (z : Use). beyond f bound z.entry_id.filename z.entry_id.block_num ≡ true)
                  same goes in
              absurd (ground arith)
        ]
      ]

  kept_entry :
      (kept : List (ℕ × CacheEntry)) (c' : Cache)
      → c'.file_map ≡ put f (record fc { entries = kept }) c.file_map
      → ((b : ℕ) → find b kept ≡ unless (leb bound b) (find b fc.entries))
      → (g : List ℕ) (k : ℕ) → find_entry c' g k ≡ unless (beyond f bound g k) (find_entry c g k)
  unfolding find_entry
  kept_entry kept c' h found g k =
      let at_file = find-put f g (record fc { entries = kept }) c.file_map in
      let at_block = found k in
      elim (Bool-cases (str_eq f g)) [
        | inl same ↦
            let known' : find g c.file_map ≡ some fc =
              subst (λ x. find x c.file_map ≡ some fc) ((str_eq_iff f g).0 same) known in
            ground (arith, at_file, at_block, known', h)
        | inr other ↦ ground (arith, at_file, h)
      ]

  beyond_run :
      (kept : List (ℕ × CacheEntry)) (rest : List Use)
      → drop_beyond bound fc.entries c.recent_list ≡ ok (kept, rest)
      → delete_entry_beyond f bound c
        ≡ ok (record (set_file f (record fc { entries = kept }) c) { recent_list = rest })
  unfolding delete_entry_beyond
  beyond_run kept rest run = rw (known, at-find f c.file_map known, run) refl

  -- The file's blocks from the bound on go with their records, and nothing else changes.
  pub delete_entry_beyond_lem :
      (c' : Cache) × (fc' : FileCache) × (delete_entry_beyond f bound c ≡ ok c')
      × Removed (beyond f bound) c c'
      × Keyed c'
      × (c'.file_map ≡ put f fc' c.file_map)
      × (fc'.attr ≡ fc.attr)
      × (fc'.stale ≡ fc.stale)
  delete_entry_beyond_lem =
      let (kept, rest, run, dropped) =
        drop_beyond-Dropped f bound fc.entries c.recent_list (keyed f fc known) v.distinct
          (λ b e h. v.recorded f b e (find_entry-file c f b fc known ∙ h)) in
      let fc' : FileCache = record fc { entries = kept } in
      let c' : Cache = record (set_file f fc' c) { recent_list = rest } in
      let now = kept_entry kept c' refl dropped.found in
      let uses : (n : ℕ) → find_use n rest ≡ kept_use (beyond f bound) (find_use n c.recent_list) =
        λ n. elim (Option-cases (find_use n c.recent_list)) [
          | inl miss ↦ let gone = dropped.uses n in ground arith
          | inr (u, hit) ↦ let place = beyond_node n u hit in dropped.uses n ∙ rw (place, hit) refl
        ] in
      (
        c',
        fc',
        beyond_run kept rest run,
        record {
          valid = removed-IsValid (beyond f bound) c c' v refl refl now uses dropped.distinct;
          same_size = refl;
          now = now;
        },
        put-Keyed c c' f fc' refl dropped.unique keyed,
        refl,
        refl,
        refl,
      )
