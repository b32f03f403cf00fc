-- ===== src/Cache/Invalidate.antt =====
-- `Cache::invalidate` of client_src/cache.cpp: the cache forgets a file.
use net_fs.Prelude.{
  ℕ, List, none, some, str_eq, str_eq_iff, nat_eq, string_eq, find, put, erase, find-erase,
  find-put, ok, ◌≡◌, refl, sym, subst, ◌∙◌, arith, Bool-cases, Option-cases, inl, inr, false,
}
use net_fs.Cache.State.{FileCache, Cache}
use net_fs.Cache.Blocks.{delete_entry_beyond}
use net_fs.Cache.Ops.{invalidate}
use net_fs.Cache.Valid.{IsValid, find_entry}
use net_fs.Cache.Store.{file_facts}
use net_fs.Cache.Files.{SameBlocks-IsValid}
use net_fs.Cache.Remove.{unless}
use net_fs.Cache.Keyed.{Keyed, erase-Keyed}
use net_fs.Cache.Beyond.{delete_entry_beyond_lem}

-- The cache `c'` is `c` without the file.
pub record Invalidated (f : List ℕ) (c c' : Cache) : Type 0 where
  pub valid : IsValid c'
  pub keyed : Keyed c'
  pub same_size : c'.block_size ≡ c.block_size
  pub unknown : file_facts c' f ≡ none
  pub other_facts : (g : List ℕ) → str_eq f g ≡ false → file_facts c' g ≡ file_facts c g
  pub now : (g : List ℕ) (k : ℕ) → find_entry c' g k ≡ unless (str_eq f g) (find_entry c g k)

-- A file that the cache does not know.
unknown-Invalidated :
    (f : List ℕ) (c : Cache) → IsValid c → Keyed c → find f c.file_map ≡ none → Invalidated f c c
unfolding file_facts find_entry
unknown-Invalidated f c v keyed miss = record {
  valid = v;
  keyed = keyed;
  same_size = refl;
  unknown = ground arith;
  other_facts = λ g other. refl;
  now = λ g k. elim (Bool-cases (str_eq f g)) [
    | inl here ↦
        let miss' : find g c.file_map ≡ none =
          subst (λ h. find h c.file_map ≡ none) ((str_eq_iff f g).0 here) miss in
        ground arith
    | inr other ↦ ground arith
  ];
}

abbrev forgotten : List ℕ → Cache → Cache
forgotten f c₁ = record c₁ { file_map = erase f c₁.file_map }

module _ (f : List ℕ) (c c₁ : Cache) (fc' : FileCache)
    (map₁ : c₁.file_map ≡ put f fc' c.file_map) where
  erased-file_facts :
      (g : List ℕ) → file_facts (forgotten f c₁) g ≡ unless (str_eq f g) (file_facts c g)
  unfolding file_facts
  erased-file_facts g =
      let gone = find-erase f g c₁.file_map in
      let before = find-put f g fc' c.file_map in
      elim (Bool-cases (str_eq f g)) [ inl here ↦ ground arith | inr other ↦ ground arith ]

erased-find_entry :
    (f : List ℕ) (c₁ : Cache) (g : List ℕ) (k : ℕ)
    → find_entry (forgotten f c₁) g k ≡ unless (str_eq f g) (find_entry c₁ g k)
unfolding find_entry
erased-find_entry f c₁ g k =
    let gone = find-erase f g c₁.file_map in
    elim (Bool-cases (str_eq f g)) [ inl here ↦ ground arith | inr other ↦ ground arith ]

pub invalidate_unknown : (f : List ℕ) (c : Cache) → find f c.file_map ≡ none → invalidate f c ≡ ok c
unfolding invalidate
invalidate_unknown f c miss = rw (invalidate, miss) refl

invalidate_run :
    (f : List ℕ) (c c₁ : Cache) (fc : FileCache)
    → find f c.file_map ≡ some fc
    → delete_entry_beyond f 0 c ≡ ok c₁
    → invalidate f c ≡ ok (forgotten f c₁)
unfolding invalidate
invalidate_run f c c₁ fc known run = rw (invalidate, known, run) refl

-- Invalidating a file of a valid cache runs through. The cache knows nothing of the file any more
-- and nothing else has changed.
pub invalidate_lem :
    (f : List ℕ) (c : Cache)
    → IsValid c
    → Keyed c
    → (c' : Cache) × (invalidate f c ≡ ok c') × Invalidated f c c'
invalidate_lem f c v keyed = elim (Option-cases (find f c.file_map)) [
  | inl miss ↦ (c, invalidate_unknown f c miss, unknown-Invalidated f c v keyed miss)
  | inr (fc, known) ↦
      let (c₁, fc', run, removed, keyed₁, map₁, _, _) =
        delete_entry_beyond_lem c f 0 fc v keyed known in
      let gone = erased-find_entry f c₁ in
      let facts = erased-file_facts f c c₁ fc' map₁ in
      let same : (g : List ℕ) (k : ℕ) → find_entry (forgotten f c₁) g k ≡ find_entry c₁ g k = λ g k.
        elim (Bool-cases (str_eq f g)) [
          | inl here ↦ gone g k ∙ rw here (sym (removed.now g k ∙ rw here (ground arith)))
          | inr other ↦ gone g k ∙ rw other refl
        ] in
      (
        forgotten f c₁,
        invalidate_run f c c₁ fc known run,
        record {
          valid =
              SameBlocks-IsValid
                (record { same_entry = same; same_size = refl; same_list = refl; same_next = refl })
                removed.valid;
          keyed = erase-Keyed c₁ (forgotten f c₁) f refl keyed₁;
          same_size = removed.same_size;
          unknown = facts f ∙ ground (arith, str_eq_iff f f);
          other_facts = λ g other. facts g ∙ rw other refl;
          now = λ g k.
              let first = removed.now g k in
              elim (Bool-cases (str_eq f g)) [
                | inl here ↦ gone g k ∙ rw here refl
                | inr other ↦ gone g k ∙ rw other (first ∙ rw other refl)
              ];
        },
      )
]
