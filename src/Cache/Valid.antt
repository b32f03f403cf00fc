-- ===== src/Cache/Valid.antt =====
-- The invariant of `Cache` in client_src/cache.hpp: blocks are well formed, and the entries and the
-- usage list point at each other.
use net_fs.Prelude.{
  ℕ, suc, ◌<◌, ◌^◌, List, [], ◌∷◌, ◌++◌, Option, none, some, ◌==◌, str_eq, str_eq_iff, nat_eq,
  string_eq, ◌&&◌, Bool, if◌then◌else◌, find, ◌≡◌, ◌⊎◌, refl, sym, subst, ◌∙◌, arith, Bool-cases,
  Option-cases, inl, inr, true,
}
use net_fs.Cache.Entry.{CacheEntry}
use net_fs.Cache.Contents.{IsBlock, byte_at}
use net_fs.Cache.State.{Use, Cache}
use net_fs.Cache.Blocks.{find_use}
use net_fs.Cache.Usage.{Distinct, find_use-append, find_use-append_found, Distinct-append}

unfoldable pub find_entry : Cache → List ℕ → ℕ → Option CacheEntry
find_entry c f b = elim (find f c.file_map) [ none ↦ none | some fc ↦ find b fc.entries ]

-- What the cache holds of a file, byte by byte: the block, and the place in it.
unfoldable pub view : Cache → List ℕ → ℕ → ℕ → Option ℕ
view c f b x = elim (find_entry c f b) [ none ↦ none | some e ↦ byte_at e x ]

abbrev pub same_place : List ℕ → ℕ → List ℕ → ℕ → Bool
same_place f b g k = str_eq f g && b == k

abbrev pub use_of : List ℕ → ℕ → ℕ → Use
use_of f b node = record { node = node; entry_id = record { filename = f; block_num = b } }

pub record IsValid (c : Cache) : Type 0 where
  pub positive : 0 < c.block_size
  pub small : c.block_size < 2 ^ 64
  pub blocks :
      (f : List ℕ) (b : ℕ) (e : CacheEntry) → find_entry c f b ≡ some e → IsBlock c.block_size e
  pub recorded :
      (f : List ℕ) (b : ℕ) (e : CacheEntry)
      → find_entry c f b ≡ some e
      → find_use e.use_record c.recent_list ≡ some (use_of f b e.use_record)
  pub used :
      (n : ℕ) (u : Use)
      → find_use n c.recent_list ≡ some u
      → (e : CacheEntry) × (find_entry c u.entry_id.filename u.entry_id.block_num ≡ some e)
        × (e.use_record ≡ n)
  pub fresh : (n : ℕ) (u : Use) → find_use n c.recent_list ≡ some u → n < c.next_node
  pub distinct : Distinct c.recent_list

-- The same place, as equations.
pub same_place_iff :
    (f : List ℕ) (b : ℕ) (g : List ℕ) (k : ℕ) → same_place f b g k ≡ true → (f ≡ g) × (b ≡ k)
same_place_iff f b g k h = ground (arith, str_eq_iff f g)

-- A changed entry keeps the cache valid if the block is well formed and the record is the old one.
module _ (c c' : Cache) (f : List ℕ) (b : ℕ) (e e' : CacheEntry) (v : IsValid c)
    (old : find_entry c f b ≡ some e) (same_size : c'.block_size ≡ c.block_size)
    (same_list : c'.recent_list ≡ c.recent_list) (same_next : c'.next_node ≡ c.next_node)
    (now : (g : List ℕ) (k : ℕ)
      → find_entry c' g k ≡ (if same_place f b g k then some e' else find_entry c g k))
    (block : IsBlock c.block_size e') (record_kept : e'.use_record ≡ e.use_record) where
  entry_here :
      (g : List ℕ) (k : ℕ) (d : CacheEntry)
      → same_place f b g k ≡ true
      → find_entry c' g k ≡ some d
      → e' ≡ d
  entry_here g k d same h = ground (arith, now g k)

  replaced_used :
      (n : ℕ) (u : Use)
      → find_use n c'.recent_list ≡ some u
      → (d : CacheEntry) × (find_entry c' u.entry_id.filename u.entry_id.block_num ≡ some d)
        × (d.use_record ≡ n)
  replaced_used n u h =
      let (d, found, there) = v.used n u (rw (← same_list) h) in
      let here = now u.entry_id.filename u.entry_id.block_num in
      elim (Bool-cases (same_place f b u.entry_id.filename u.entry_id.block_num)) [
        | inl same ↦
            let (ef, eb) = same_place_iff f b u.entry_id.filename u.entry_id.block_num same in
            let again : find_entry c f b ≡ some d = rw (ef, eb) found in
            (e', here ∙ rw same refl, record_kept ∙ cc)
        | inr other ↦ (d, here ∙ rw other found, there)
      ]

  pub replaced-IsValid : IsValid c'
  replaced-IsValid = record {
    positive = omega (arith, v.positive);
    small = rw same_size v.small;
    blocks = λ g k d h. rw same_size (elim (Bool-cases (same_place f b g k)) [
      | inl same ↦ subst (IsBlock c.block_size) (entry_here g k d same h) block
      | inr other ↦ v.blocks g k d (ground (arith, now g k))
    ]);
    recorded = λ g k d h. rw same_list (elim (Bool-cases (same_place f b g k)) [
      | inl same ↦
          let (ef, eb) = same_place_iff f b g k same in
          rw (← entry_here g k d same h, record_kept, ← ef, ← eb) (v.recorded f b e old)
      | inr other ↦ v.recorded g k d (ground (arith, now g k))
    ]);
    used = replaced_used;
    fresh = λ n u h. rw same_next (v.fresh n u (rw (← same_list) h));
    distinct = rw same_list v.distinct;
  }

-- So does a new entry whose record is a new node at the end of the list.
module _ (c c' : Cache) (f : List ℕ) (b : ℕ) (e' : CacheEntry) (v : IsValid c)
    (absent : find_entry c f b ≡ none) (same_size : c'.block_size ≡ c.block_size)
    (longer : c'.recent_list ≡ c.recent_list ++ use_of f b c.next_node ∷ [])
    (next : c'.next_node ≡ suc c.next_node)
    (now : (g : List ℕ) (k : ℕ)
      → find_entry c' g k ≡ (if same_place f b g k then some e' else find_entry c g k))
    (block : IsBlock c.block_size e') (record_new : e'.use_record ≡ c.next_node) where
  new_node : find_use c.next_node c.recent_list ≡ none
  new_node = elim (Option-cases (find_use c.next_node c.recent_list)) [
    | inl h ↦ h
    | inr (u, h) ↦ absurd (omega (arith, v.fresh c.next_node u h))
  ]

  added_here :
      (g : List ℕ) (k : ℕ) (d : CacheEntry)
      → same_place f b g k ≡ true
      → find_entry c' g k ≡ some d
      → e' ≡ d
  added_here g k d same h = ground (arith, now g k)

  at_new_node : find_use c.next_node c'.recent_list ≡ some (use_of f b c.next_node)
  at_new_node =
      rw longer
        (find_use-append c.recent_list (use_of f b c.next_node) c.next_node new_node ∙ ground arith)

  -- A node of the longer list is one of the shorter list, or the new one.
  split_use :
      (n : ℕ) (u : Use)
      → find_use n c'.recent_list ≡ some u
      → (find_use n c.recent_list ≡ some u) ⊎ ((n ≡ c.next_node) × (u ≡ use_of f b c.next_node))
  split_use n u h = elim (Option-cases (find_use n c.recent_list)) [
    | inl miss ↦
        let there = find_use-append c.recent_list (use_of f b c.next_node) n miss in
        let h' : find_use n (c.recent_list ++ use_of f b c.next_node ∷ []) ≡ some u =
          rw longer at h in
        inr (ground (arith, there), ground (arith, there))
    | inr (w, hit) ↦
        let there = find_use-append_found c.recent_list (use_of f b c.next_node) w n hit in
        let h' : find_use n (c.recent_list ++ use_of f b c.next_node ∷ []) ≡ some u =
          rw longer at h in
        inl (cc)
  ]

  added_used :
      (n : ℕ) (u : Use)
      → find_use n c'.recent_list ≡ some u
      → (d : CacheEntry) × (find_entry c' u.entry_id.filename u.entry_id.block_num ≡ some d)
        × (d.use_record ≡ n)
  added_used n u h = elim (split_use n u h) [
    | inr (en, eu) ↦
        let here : same_place f b f b ≡ true = ground (arith, str_eq_iff f f) in
        (e', rw eu (now f b ∙ rw here refl), record_new ∙ sym en)
    | inl old ↦
        let (d, found, there) = v.used n u old in
        let at = now u.entry_id.filename u.entry_id.block_num in
        elim (Bool-cases (same_place f b u.entry_id.filename u.entry_id.block_num)) [
          | inl same ↦
              let (ef, eb) = same_place_iff f b u.entry_id.filename u.entry_id.block_num same in
              let again : find_entry c f b ≡ some d = rw (ef, eb) found in absurd (cc)
          | inr other ↦ (d, at ∙ rw other found, there)
        ]
  ]

  pub added-IsValid : IsValid c'
  added-IsValid = record {
    positive = omega (arith, v.positive);
    small = rw same_size v.small;
    blocks = λ g k d h. rw same_size (elim (Bool-cases (same_place f b g k)) [
      | inl same ↦ subst (IsBlock c.block_size) (added_here g k d same h) block
      | inr other ↦ v.blocks g k d (ground (arith, now g k))
    ]);
    recorded = λ g k d h. elim (Bool-cases (same_place f b g k)) [
      | inl same ↦
          let (ef, eb) = same_place_iff f b g k same in
          rw (← added_here g k d same h, record_new, ← ef, ← eb) at_new_node
      | inr other ↦ rw longer (
          find_use-append_found c.recent_list (use_of f b c.next_node) _ d.use_record
            (v.recorded g k d (ground (arith, now g k))))
    ];
    used = added_used;
    fresh = λ n u h. elim (split_use n u h) [
      | inl old ↦ omega (arith, v.fresh n u old, next)
      | inr (en, eu) ↦ omega (arith, next)
    ];
    distinct =
        rw longer (Distinct-append c.recent_list (use_of f b c.next_node) v.distinct new_node);
  }
