-- ===== src/Cache/Fill.antt =====
-- The blocks that `cacheBlocks` of client_src/cache.cpp fills from what it fetched.
use net_fs.Prelude.{
  ℕ, ◌+◌, ◌*◌, ◌<◌, List, [], ◌∷◌, Option, none, some, str_eq_iff, nat_eq, string_eq, ◌||◌, Bool,
  find, ◌≡◌, ◌⊎◌, refl, ap₂, sym, subst, ◌∙◌, arith, Bool-cases, Option-cases, inl, inr, true,
  false,
}
use net_fs.Cache.Entry.{CacheEntry, is_dirty}
use net_fs.Cache.Contents.{byte_at, or_else}
use net_fs.Cache.State.{Cache}
use net_fs.Cache.Blocks.{is_full_block, full_ranges}
use net_fs.Cache.Valid.{IsValid, find_entry, view, same_place, same_place_iff}
use net_fs.Cache.Store.{Stored, file_facts}
use net_fs.Cache.WriteBlock.{dirty_at, view_stored, view_same, dirty_same}
use net_fs.Cache.ReadBlock.{full_at}

-- The cache `c'` is `c` with some bytes fetched: `remote` gives the bytes that the server has. No
-- byte that was in the cache is changed.
pub record Filling (remote : List ℕ → ℕ → ℕ) (c c' : Cache) : Type 0 where
  pub valid : IsValid c'
  pub same_size : c'.block_size ≡ c.block_size
  pub same_facts : (g : List ℕ) → file_facts c' g ≡ file_facts c g
  pub same_dirt : (g : List ℕ) (k : ℕ) → dirty_at c' g k ≡ dirty_at c g k
  pub stays_full : (g : List ℕ) (k : ℕ) → full_at c g k ≡ true → full_at c' g k ≡ true
  pub kept :
      (g : List ℕ) (k x : ℕ)
      → x < c.block_size
      → (view c' g k x ≡ view c g k x)
        ⊎ ((view c g k x ≡ none) × (view c' g k x ≡ some (remote g (k * c.block_size + x))))

pub Filling-refl : (remote : List ℕ → ℕ → ℕ) (c : Cache) → IsValid c → Filling remote c c
Filling-refl remote c v = record {
  valid = v;
  same_size = refl;
  same_facts = λ g. refl;
  same_dirt = λ g k. refl;
  stays_full = λ g k h. h;
  kept = λ g k x h. inl refl;
}

kept_twice :
    {a b d : Option ℕ} {r : ℕ}
    → (b ≡ a) ⊎ ((a ≡ none) × (b ≡ some r))
    → (d ≡ b) ⊎ ((b ≡ none) × (d ≡ some r))
    → (d ≡ a) ⊎ ((a ≡ none) × (d ≡ some r))
kept_twice (inl p) (inl q) = inl (q ∙ p)
kept_twice (inl p) (inr (m, q)) = inr (sym p ∙ m, q)
kept_twice (inr (m, p)) (inl q) = inr (m, q ∙ p)
kept_twice (inr (m, p)) (inr (m', q)) = inr (m, q)

pub Filling-trans :
    {remote : List ℕ → ℕ → ℕ} {c d e : Cache}
    → Filling remote c d
    → Filling remote d e
    → Filling remote c e
Filling-trans {remote} {c} {d} {e} s t = record {
  valid = t.valid;
  same_size = t.same_size ∙ s.same_size;
  same_facts = λ g. t.same_facts g ∙ s.same_facts g;
  same_dirt = λ g k. t.same_dirt g k ∙ s.same_dirt g k;
  stays_full = λ g k h. t.stays_full g k (s.stays_full g k h);
  kept = λ g k x h. kept_twice (s.kept g k x h) (
      subst {A = ℕ}
        (λ n.
          (view e g k x ≡ view d g k x)
          ⊎ ((view d g k x ≡ none) × (view e g k x ≡ some (remote g (k * n + x)))))
        s.same_size (t.kept g k x (rw s.same_size h)));
}

-- The entry in a place, and what follows from it.
abbrev entry_full : ℕ → Option CacheEntry → Bool
entry_full n none = false
entry_full n (some e) = full_ranges n e.valid_ranges

full_at-find_entry :
    (c : Cache) (g : List ℕ) (k : ℕ) → full_at c g k ≡ entry_full c.block_size (find_entry c g k)
unfolding full_at find_entry is_full_block
full_at-find_entry c g k = elim (Option-cases (find g c.file_map)) [
  | inl miss ↦ ground arith
  | inr (fc, known) ↦ elim (Option-cases (find k fc.entries)) [
    | inl absent ↦ ground arith
    | inr (e, there) ↦ ground arith
  ]
]

whole_full : (n : ℕ) → full_ranges n (record { start = 0; end = n } ∷ []) ≡ true
unfolding full_ranges
whole_full n = ground arith

pub dirty_here :
    (c : Cache) (g : List ℕ) (k : ℕ) (e : CacheEntry)
    → find_entry c g k ≡ some e
    → dirty_at c g k ≡ is_dirty e
unfolding dirty_at
dirty_here c g k e h = ground arith

pub dirty_nowhere :
    (c : Cache) (g : List ℕ) (k : ℕ) → find_entry c g k ≡ none → dirty_at c g k ≡ false
unfolding dirty_at
dirty_nowhere c g k h = ground arith

or_else_cases :
    (a : Option ℕ) (v : Option ℕ) (r : ℕ)
    → v ≡ or_else a (some r)
    → (v ≡ a) ⊎ ((a ≡ none) × (v ≡ some r))
or_else_cases none v r h = inr (refl, h)
or_else_cases (some b) v r h = inl h

-- An entry put in place that is what was there, filled up.
module _ (remote : List ℕ → ℕ → ℕ) (c c' : Cache) (f : List ℕ) (b : ℕ) (e : CacheEntry)
    (st : Stored c c' f b e)
    (whole : e.valid_ranges ≡ record { start = 0; end = c.block_size } ∷ [])
    (dirt : is_dirty e ≡ dirty_at c f b)
    (bytes : (x : ℕ)
      → x < c.block_size
      → byte_at e x ≡ or_else (view c f b x) (some (remote f (b * c.block_size + x)))) where
  e_full : full_ranges c.block_size e.valid_ranges ≡ true
  e_full = rw whole (whole_full c.block_size)

  filled_full : (g : List ℕ) (k : ℕ) → full_at c' g k ≡ (same_place f b g k || full_at c g k)
  filled_full g k =
      let now = st.now g k in
      elim (Bool-cases (same_place f b g k)) [
        | inl same ↦ full_at-find_entry c' g k ∙ rw (now, same, st.same_size) e_full
        | inr other ↦
            full_at-find_entry c' g k
            ∙ rw (now, other, st.same_size) (sym (full_at-find_entry c g k))
      ]

  filled_here :
      (g : List ℕ) (k x : ℕ)
      → x < c.block_size
      → same_place f b g k ≡ true
      → (view c' g k x ≡ view c g k x)
        ⊎ ((view c g k x ≡ none) × (view c' g k x ≡ some (remote g (k * c.block_size + x))))
  filled_here g k x h same =
      let (ef, eb) = same_place_iff f b g k same in
      let seen : view c' g k x ≡ byte_at e x = view_stored c' g k e x (st.now g k ∙ rw same refl) in
      let byte : byte_at e x ≡ or_else (view c g k x) (some (remote g (k * c.block_size + x))) =
        bytes x h
        ∙ ap₂
            (λ (g' : List ℕ) (m : ℕ).
              or_else (view c g' m x) (some (remote g' (m * c.block_size + x))))
            ef eb in
      or_else_cases (view c g k x) (view c' g k x) _ (seen ∙ byte)

  filled_dirt : (g : List ℕ) (k : ℕ) → dirty_at c' g k ≡ dirty_at c g k
  filled_dirt g k =
      let now = st.now g k in
      elim (Bool-cases (same_place f b g k)) [
        | inl same ↦
            let (ef, eb) = same_place_iff f b g k same in
            dirty_here c' g k e (now ∙ rw same refl)
            ∙ dirt
            ∙ ap₂ (λ (g' : List ℕ) (m : ℕ). dirty_at c g' m) ef eb
        | inr other ↦ dirty_same c c' g k (now ∙ rw other refl)
      ]

  pub Filling-Stored : Filling remote c c' × (full_at c' f b ≡ true)
  Filling-Stored =
      let here : same_place f b f b ≡ true = ground (arith, str_eq_iff f f) in
      (
        record {
          valid = st.valid;
          same_size = st.same_size;
          same_facts = st.same_facts;
          same_dirt = filled_dirt;
          stays_full = λ g k h. ground (arith, filled_full g k);
          kept = λ g k x h. elim (Bool-cases (same_place f b g k)) [
            | inl same ↦ filled_here g k x h same
            | inr other ↦ inl (view_same c c' g k x (st.now g k ∙ rw other refl))
          ];
        },
        filled_full f b ∙ rw here refl,
      )
