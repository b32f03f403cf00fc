-- ===== src/Cache/Evict.antt =====
-- The loop of `evictBlocks` in client_src/cache.cpp: the blocks that were used least recently go.
use net_fs.Prelude.{
  ℕ, zero, suc, ◌-◌, ◌<◌, ◌≤◌, List, [], ◌∷◌, length, take, none, some, ◌==◌, ==_iff, Bool, true,
  false, ok, ◌>>=◌, ◌≡◌, refl, sym, ap, subst, ◌∙◌, arith, Bool-cases, Option-cases, inl, inr,
}
use net_fs.Cache.Entry.{CacheEntry}
use net_fs.Cache.State.{Use, Cache}
use net_fs.Cache.Blocks.{erase_use, find_use, delete_entry, is_none}
use net_fs.Cache.Usage.{Distinct}
use net_fs.Cache.Valid.{IsValid, find_entry, same_place, use_of}
use net_fs.Cache.Flush.{last_use, evict_loop}
use net_fs.Cache.Remove.{Removed, delete_entry_lem}

-- The last node of a list with distinct nodes is found by its number, and erasing it leaves what
-- is before it.
last_use_lem :
    (us : List Use)
    → Distinct us
    → 0 < length us
    → (u : Use) × (last_use us ≡ ok u)
      × (find_use u.node us ≡ some u)
      × (erase_use u.node us ≡ ok (take (length us - 1) us))
unfolding last_use find_use erase_use
last_use_lem [] d h = absurd (omega arith)
last_use_lem (u ∷ []) d h =
    let here : (u.node == u.node) ≡ true = (==_iff u.node u.node).1 refl in
    (u, refl, rw here refl, rw (here, erase_use) refl)
last_use_lem (u ∷ v ∷ us) d h =
    let (w, last, found, run) = last_use_lem (v ∷ us) d.1 (omega arith) in
    let other : (u.node == w.node) ≡ false = (elim (Bool-cases (u.node == w.node)) [
      | inl same ↦
          let alone : find_use w.node (v ∷ us) ≡ none =
            subst (λ (n : ℕ). find_use n (v ∷ us) ≡ none) ((==_iff u.node w.node).0 same) d.0 in
          let both : some w ≡ none = sym found ∙ alone in absurd (cc)
      | inr differ ↦ differ
    ]) in
    let count : suc (suc (length us) - 1) ≡ suc (suc (length us)) - 1 = omega arith in
    let longer : ok (take (suc (suc (length us) - 1)) (u ∷ v ∷ us))
        ≡ ok (take (suc (suc (length us)) - 1) (u ∷ v ∷ us)) =
      ap (λ (n : ℕ). ok (take n (u ∷ v ∷ us))) count in
    (w, last, rw other found, rw (other, run, erase_use) longer)

find_use-take :
    (k n : ℕ) (us : List Use) (u : Use) → find_use n (take k us) ≡ some u → find_use n us ≡ some u
unfolding find_use
find_use-take zero n us u h = absurd (cc)
find_use-take (suc k) n [] u h = absurd (cc)
find_use-take (suc k) n (v ∷ us) u h = ground (arith, find_use-take k n us u)

take-take_less {ℓ} : {A : Type ℓ} (n m : ℕ) (xs : List A) → n ≤ m → take n (take m xs) ≡ take n xs
take-take_less zero m xs h = refl
take-take_less (suc n) zero xs h = absurd (omega arith)
take-take_less (suc n) (suc m) [] h = refl
take-take_less (suc n) (suc m) (x ∷ xs) h = ap (λ ys. x ∷ ys) (take-take_less n m xs (omega arith))

take-all {ℓ} : {A : Type ℓ} (n : ℕ) (xs : List A) → length xs ≤ n → take n xs ≡ xs
take-all zero [] h = refl
take-all zero (x ∷ xs) h = absurd (omega arith)
take-all (suc n) [] h = refl
take-all (suc n) (x ∷ xs) h = ap (λ ys. x ∷ ys) (take-all n xs (omega arith))

-- Whether a block's record is not among the nodes.
unfoldable pub unrecorded : Cache → List Use → List ℕ → ℕ → Bool
unrecorded c us g k = elim (find_entry c g k) [
  | none ↦ false
  | some e ↦ is_none (find_use e.use_record us)
]

-- When no entry and no node is new, the entries that are left are those whose nodes are left.
Removed-unrecorded :
    (c c' : Cache)
    → IsValid c
    → IsValid c'
    → c'.block_size ≡ c.block_size
    → ((g : List ℕ) (k : ℕ) (e : CacheEntry)
        → find_entry c' g k ≡ some e
        → find_entry c g k ≡ some e)
    → ((n : ℕ) (u : Use) → find_use n c'.recent_list ≡ some u → find_use n c.recent_list ≡ some u)
    → Removed (unrecorded c c'.recent_list) c c'
unfolding unrecorded
Removed-unrecorded c c' v v' same old_entry old_use = record {
  valid = v';
  same_size = same;
  now = λ g k. elim (Option-cases (find_entry c g k)) [
    | inl miss ↦ elim (Option-cases (find_entry c' g k)) [
      | inl miss' ↦ ground arith
      | inr (e, there) ↦ let o = old_entry g k e there in absurd (ground arith)
    ]
    | inr (e, there) ↦ elim (Option-cases (find_use e.use_record c'.recent_list)) [
      | inl gone ↦ elim (Option-cases (find_entry c' g k)) [
        | inl miss ↦ ground arith
        | inr (d, there') ↦
            let o = old_entry g k d there' in
            let same_entry : d ≡ e = cc in
            let r : find_use e.use_record c'.recent_list ≡ some (use_of g k e.use_record) =
              subst
                (λ (z : CacheEntry).
                  find_use z.use_record c'.recent_list ≡ some (use_of g k z.use_record))
                same_entry (v'.recorded g k d there') in
            absurd (cc)
      ]
      | inr (u, hit) ↦
          let o = old_use e.use_record u hit in
          let r = v.recorded g k e there in
          let same_use : u ≡ use_of g k e.use_record = cc in
          let (d, found, _) = v'.used e.use_record u hit in
          let here : find_entry c' g k ≡ some d =
            subst (λ (z : Use). find_entry c' z.entry_id.filename z.entry_id.block_num ≡ some d)
              same_use found in
          let o' = old_entry g k d here in let back = here ∙ sym o' ∙ there in ground arith
    ]
  ];
}

record Evicted (n : ℕ) (c c' : Cache) : Type 0 where
  valid : IsValid c'
  same_size : c'.block_size ≡ c.block_size
  list : c'.recent_list ≡ take (length c.recent_list - n) c.recent_list
  old_entry :
      (g : List ℕ) (k : ℕ) (e : CacheEntry) → find_entry c' g k ≡ some e → find_entry c g k ≡ some e

evict_step_run :
    (n : ℕ) (c c₁ c' : Cache) (u : Use)
    → last_use c.recent_list ≡ ok u
    → delete_entry u.entry_id.filename u.entry_id.block_num c ≡ ok c₁
    → evict_loop n c₁ ≡ ok c'
    → evict_loop (suc n) c ≡ ok c'
unfolding evict_loop
evict_step_run n c c₁ c' u last del rest = rw (last, ◌>>=◌, del) rest

evict_loop-Evicted :
    (n : ℕ) (c : Cache)
    → IsValid c
    → n ≤ length c.recent_list
    → (c' : Cache) × (evict_loop n c ≡ ok c') × Evicted n c c'
unfolding evict_loop
evict_loop-Evicted zero c v h = (
  c,
  refl,
  record {
    valid = v;
    same_size = refl;
    list = sym (take-all (length c.recent_list - 0) c.recent_list (omega arith));
    old_entry = λ g k e there. there;
  },
)
evict_loop-Evicted (suc n) c v h =
    let (u, last, found, erased) = last_use_lem c.recent_list v.distinct (omega arith) in
    let (e, there, node) = v.used u.node u found in
    let (c₁, del, removed, run, len) =
      delete_entry_lem c u.entry_id.filename u.entry_id.block_num e v there in
    let both : ok c₁.recent_list ≡ ok (take (length c.recent_list - 1) c.recent_list) =
      sym run ∙ ap (λ (m : ℕ). erase_use m c.recent_list) node ∙ erased in
    let list₁ : c₁.recent_list ≡ take (length c.recent_list - 1) c.recent_list = ground arith in
    let (c', rest, ev) = evict_loop-Evicted n c₁ removed.valid (omega arith) in
    let count : length c₁.recent_list - n ≡ length c.recent_list - suc n = omega arith in
    (
      c',
      evict_step_run n c c₁ c' u last del rest,
      record {
        valid = ev.valid;
        same_size = ev.same_size ∙ removed.same_size;
        list =
            ev.list
            ∙ ap (λ (m : ℕ). take m c₁.recent_list) count
            ∙ ap (λ (us : List Use). take (length c.recent_list - suc n) us) list₁
            ∙ take-take_less (length c.recent_list - suc n) (length c.recent_list - 1) c.recent_list
                (omega arith);
        old_entry = λ g k d there'.
            let kept = ev.old_entry g k d there' in
            let n₁ = removed.now g k in
            elim (Bool-cases (same_place u.entry_id.filename u.entry_id.block_num g k)) [
              | inl lost ↦ absurd (ground arith)
              | inr stays ↦ ground arith
            ];
      },
    )

-- The loop of `evictBlocks` deletes as many blocks as it is told, when there are so many. The nodes
-- that are left are the first of the usage list, in their order; the blocks that are left are those
-- that the nodes left are for, unchanged, and the cache is still valid.
pub evict_loop_lem :
    (n : ℕ) (c : Cache)
    → IsValid c
    → n ≤ length c.recent_list
    → (c' : Cache) × (evict_loop n c ≡ ok c')
      × (c'.recent_list ≡ take (length c.recent_list - n) c.recent_list)
      × Removed (unrecorded c c'.recent_list) c c'
evict_loop_lem n c v h =
    let (c', run, ev) = evict_loop-Evicted n c v h in
    (
      c',
      run,
      ev.list,
      Removed-unrecorded c c' v ev.valid ev.same_size ev.old_entry (λ m u hit.
          find_use-take (length c.recent_list - n) m c.recent_list u (rw ev.list at hit)),
    )
