-- ===== src/Cache/Cleans.antt =====
-- What marking blocks clean leaves of the cache of client_src/cache.cpp.
use net_fs.Prelude.{
  ℕ, List, Option, none, some, nat_eq, string_eq, ◌||◌, Bool, false, if◌then◌else◌, ◌≡◌, ◌⊎◌, refl,
  sym, ap, subst, ◌∙◌, arith, Bool-cases, Option-cases, inl, inr,
}
use net_fs.Cache.Entry.{CacheEntry, entry_clean}
use net_fs.Cache.Contents.{IsBlock, byte_at}
use net_fs.Cache.State.{Cache}
use net_fs.Cache.Valid.{IsValid, find_entry, view}
use net_fs.Cache.WriteBlock.{dirty_at}
use net_fs.Cache.Files.{SameBlocks}

abbrev pub cleaned : Option CacheEntry → Option CacheEntry
cleaned none = none
cleaned (some e) = some (entry_clean e)

-- The cache `c'` is `c` with the marked blocks clean.
pub record Cleans (marked : List ℕ → ℕ → Bool) (c c' : Cache) : Type 0 where
  pub same_size : c'.block_size ≡ c.block_size
  pub same_list : c'.recent_list ≡ c.recent_list
  pub same_next : c'.next_node ≡ c.next_node
  pub entry :
      (g : List ℕ) (k : ℕ)
      → find_entry c' g k ≡ (if marked g k then cleaned (find_entry c g k) else find_entry c g k)

IsBlock-clean : (n : ℕ) (e : CacheEntry) → IsBlock n e → IsBlock n (entry_clean e)
unfolding entry_clean
IsBlock-clean n e block = record {
  whole = block.whole;
  sorted = block.sorted;
  within = block.within;
}

module _ {marked : List ℕ → ℕ → Bool} {c c' : Cache} (cleans : Cleans marked c c') where
  pub entry_before :
      (g : List ℕ) (k : ℕ) (e' : CacheEntry)
      → find_entry c' g k ≡ some e'
      → (e : CacheEntry) × (find_entry c g k ≡ some e) × ((e' ≡ e) ⊎ (e' ≡ entry_clean e))
  entry_before g k e' h =
      let now = cleans.entry g k in
      elim (Option-cases (find_entry c g k)) [
        | inl miss ↦ absurd (ground arith)
        | inr (e, old) ↦ elim (Bool-cases (marked g k)) [
          | inl clean ↦
              let same : some e' ≡ some (entry_clean e) = sym h ∙ now ∙ rw (clean, old) refl in
              (e, old, inr (cc))
          | inr kept ↦
              let same : some e' ≡ some e = sym h ∙ now ∙ rw (kept, old) refl in (e, old, inl (cc))
        ]
      ]

  pub entry_after :
      (g : List ℕ) (k : ℕ) (e : CacheEntry)
      → find_entry c g k ≡ some e
      → (e' : CacheEntry) × (find_entry c' g k ≡ some e') × (e'.use_record ≡ e.use_record)
  unfolding entry_clean
  entry_after g k e h =
      let now = cleans.entry g k in
      elim (Bool-cases (marked g k)) [
        | inl clean ↦ (entry_clean e, now ∙ rw (clean, h) refl, refl)
        | inr kept ↦ (e, now ∙ rw (kept, h) refl, refl)
      ]

  pub Cleans-IsValid : IsValid c → IsValid c'
  unfolding entry_clean
  Cleans-IsValid v = record {
    positive = omega (arith, v.positive, cleans.same_size);
    small = omega (arith, v.small, cleans.same_size);
    blocks = λ g k e' h.
        let (e, old, which) = entry_before g k e' h in
        let block = v.blocks g k e old in
        rw cleans.same_size (elim which [
          | inl same ↦ subst (IsBlock c.block_size) (sym same) block
          | inr clean ↦
              subst (IsBlock c.block_size) (sym clean) (IsBlock-clean c.block_size e block)
        ]);
    recorded = λ g k e' h.
        let (e, old, which) = entry_before g k e' h in
        let node : e'.use_record ≡ e.use_record = (elim which [
          | inl same ↦ ap (λ (d : CacheEntry). d.use_record) same
          | inr clean ↦ ap (λ (d : CacheEntry). d.use_record) clean
        ]) in
        rw (cleans.same_list, node) (v.recorded g k e old);
    used = λ n u h.
        let (e, old, at_n) = v.used n u (rw cleans.same_list at h) in
        let (e', now, node) = entry_after u.entry_id.filename u.entry_id.block_num e old in
        (e', now, node ∙ at_n);
    fresh = λ n u h. rw cleans.same_next (v.fresh n u (rw cleans.same_list at h));
    distinct = rw cleans.same_list v.distinct;
  }

  -- No byte of the cache changes, and the marked blocks are the ones that are not dirty any more.
  pub Cleans-view : (g : List ℕ) (k x : ℕ) → view c' g k x ≡ view c g k x
  unfolding view byte_at entry_clean
  Cleans-view g k x =
      let now = cleans.entry g k in
      elim (Bool-cases (marked g k)) [
        | inl clean ↦ elim (Option-cases (find_entry c g k)) [
          | inl miss ↦ ground arith
          | inr (e, old) ↦
              let now' : find_entry c' g k ≡ some (entry_clean e) = now ∙ rw (clean, old) refl in
              rw (view, old, now') refl
        ]
        | inr kept ↦ ground arith
      ]

  pub Cleans-dirty_at :
      (g : List ℕ) (k : ℕ) → dirty_at c' g k ≡ (if marked g k then false else dirty_at c g k)
  unfolding dirty_at entry_clean
  Cleans-dirty_at g k =
      let now = cleans.entry g k in
      elim (Bool-cases (marked g k)) [
        | inl clean ↦ elim (Option-cases (find_entry c g k)) [
          | inl miss ↦ ground arith
          | inr (e, old) ↦
              let now' : find_entry c' g k ≡ some (entry_clean e) = now ∙ rw (clean, old) refl in
              rw (dirty_at, old, now', clean) refl
        ]
        | inr kept ↦ ground arith
      ]

-- Nothing is marked.
pub SameBlocks-Cleans : {c c' : Cache} → SameBlocks c c' → Cleans (λ g k. false) c c'
SameBlocks-Cleans s = record {
  same_size = s.same_size;
  same_list = s.same_list;
  same_next = s.same_next;
  entry = s.same_entry;
}

pub Cleans-trans :
    {first second : List ℕ → ℕ → Bool} {c d e : Cache}
    → Cleans first c d
    → Cleans second d e
    → Cleans (λ g k. first g k || second g k) c e
unfolding entry_clean
Cleans-trans {first} {second} {c} {d} {e} s t = record {
  same_size = t.same_size ∙ s.same_size;
  same_list = t.same_list ∙ s.same_list;
  same_next = t.same_next ∙ s.same_next;
  entry = λ g k.
      let once = s.entry g k in
      let twice = t.entry g k in
      elim (Option-cases (find_entry c g k)) [
        | inl miss ↦ ground arith
        | inr (a, there) ↦ ground arith
      ];
}

pub Cleans-same :
    {first second : List ℕ → ℕ → Bool} {c d : Cache}
    → ((g : List ℕ) (k : ℕ) → first g k ≡ second g k)
    → Cleans first c d
    → Cleans second c d
Cleans-same same s = record {
  same_size = s.same_size;
  same_list = s.same_list;
  same_next = s.same_next;
  entry = λ g k. s.entry g k ∙ rw (same g k) refl;
}
