-- ===== src/Cache/CleanBlocks.antt =====
-- The end of `Cache::flushBlocks` in client_src/cache.cpp, where the flushed blocks are marked
-- clean.
use net_fs.Prelude.{
  ℕ, List, [], ◌∷◌, some, ◌==◌, ==_iff, str_eq, str_eq_iff, nat_eq, string_eq, ◌&&◌, Bool, true,
  if◌then◌else◌, find, put, at-find, find-put, ok, ◌≡◌, refl, subst, ◌∙◌, arith, Bool-cases, inl,
  inr,
}
use net_fs.Cache.Entry.{CacheEntry, entry_clean}
use net_fs.Cache.State.{FileCache, Cache}
use net_fs.Cache.Blocks.{set_file}
use net_fs.Cache.Valid.{find_entry}
use net_fs.Cache.Store.{find_entry-file}
use net_fs.Cache.Flush.{clean_blocks}
use net_fs.Cache.Cleans.{cleaned, Cleans}
use net_fs.Cache.GatherBlocks.{contains}

abbrev pub in_file : List ℕ → List ℕ → List ℕ → ℕ → Bool
in_file f blocks g k = str_eq f g && contains blocks k

-- The loop that marks the flushed blocks clean.
pub clean_blocks_lem :
    (blocks : List ℕ) (entries : List (ℕ × CacheEntry))
    → ((b : ℕ) → contains blocks b ≡ true → (e : CacheEntry) × (find b entries ≡ some e))
    → (entries' : List (ℕ × CacheEntry)) × (clean_blocks blocks entries ≡ ok entries')
      × ((k : ℕ)
          → find k entries'
            ≡ (if contains blocks k then cleaned (find k entries) else find k entries))
unfolding clean_blocks contains entry_clean
clean_blocks_lem [] entries there = (entries, refl, λ k. refl)
clean_blocks_lem (b ∷ blocks) entries there =
    let (e, here) = there b (ground (arith, ==_iff b b)) in
    let after = λ (k : ℕ). find-put b k (entry_clean e) entries in
    let there' : (k : ℕ)
        → contains blocks k ≡ true
        → (d : CacheEntry) × (find k (put b (entry_clean e) entries) ≡ some d) =
      λ k h. (elim (Bool-cases (b == k)) [
        | inl same ↦ (entry_clean e, after k ∙ rw same refl)
        | inr other ↦
            let (d, found) = there k (ground arith) in (d, after k ∙ rw (other, found) refl)
      ]) in
    let (entries', run, found) = clean_blocks_lem blocks (put b (entry_clean e) entries) there' in
    (
      entries',
      rw (at-find b entries here) run,
      λ k. elim (Bool-cases (b == k)) [
        | inl same ↦
            let here' : find k entries ≡ some e =
              subst (λ (n : ℕ). find n entries ≡ some e) ((==_iff b k).0 same) here in
            let at_k = after k in
            elim (Bool-cases (contains blocks k)) [
              | inl more ↦ found k ∙ rw (more, at_k, same, here') refl
              | inr no_more ↦ found k ∙ rw (no_more, at_k, same, here') refl
            ]
        | inr other ↦ let at_k = after k in found k ∙ rw (at_k, other) refl
      ],
    )

-- A file's entry after its blocks are marked clean.
pub clean_file :
    (f : List ℕ) (c : Cache) (fc fc' : FileCache) (blocks : List ℕ)
    → find f c.file_map ≡ some fc
    → ((k : ℕ)
        → find k fc'.entries
          ≡ (if contains blocks k then cleaned (find k fc.entries) else find k fc.entries))
    → Cleans (in_file f blocks) c (set_file f fc' c)
unfolding find_entry
clean_file f c fc fc' blocks known found = record {
  same_size = refl;
  same_list = refl;
  same_next = refl;
  entry = λ g k.
      let at_file = find-put f g fc' c.file_map in
      elim (Bool-cases (str_eq f g)) [
        | inl here ↦
            let known' : find g c.file_map ≡ some fc =
              subst (λ h. find h c.file_map ≡ some fc) ((str_eq_iff f g).0 here) known in
            let now : find g (put f fc' c.file_map) ≡ some fc' = at_file ∙ rw here refl in
            find_entry-file (set_file f fc' c) g k fc' now
            ∙ found k
            ∙ rw (here, find_entry-file c g k fc known') refl
        | inr other ↦ ground (arith, at_file)
      ];
}
