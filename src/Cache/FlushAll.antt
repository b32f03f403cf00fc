-- ===== src/Cache/FlushAll.antt =====
-- `Cache::flushDirtyBlocks` and `Cache::flush` of client_src/cache.cpp: what the server has after a
-- flush, and which blocks are still dirty.
use net_fs.Prelude.{
  ℕ, ◌+◌, ◌*◌, ◌/◌, ◌%◌, ◌<◌, List, [], ◌∷◌, Option, none, some, ◌==◌, ==_iff, str_eq, str_eq_iff,
  nat_eq, string_eq, ◌||◌, Bool, true, false, find, Unique, ok, ◌>>=◌, ◌≡◌, ◌⊎◌, refl, sym, ap,
  subst, ◌∙◌, arith, Bool-cases, Option-cases, inl, inr,
}
use net_fs.Cache.Entry.{CacheEntry}
use net_fs.Cache.State.{FileAttr, Cache, Backend}
use net_fs.Cache.Blocks.{is_some}
use net_fs.Cache.Valid.{IsValid, find_entry, view}
use net_fs.Cache.Store.{file_facts, find_entry-file}
use net_fs.Cache.Written.{cached_byte}
use net_fs.Cache.Flush.{sort, flush_blocks, flush_groups}
use net_fs.Cache.Gather.{Refused, Stores}
use net_fs.Cache.GatherBlocks.{contains}
use net_fs.Cache.Cleans.{
  Cleans, Cleans-view, Cleans-trans, Cleans-same, SameBlocks-Cleans, entry_after, entry_before,
}
use net_fs.Cache.FlushBlocks.{Inside, HasStored, flush_blocks_lem}
use net_fs.Cache.CleanBlocks.{in_file}
use net_fs.Cache.FlushFiles.{in_groups, contains-sort, file_of_entry}

-- Every block of the cache ends below the bound.
abbrev pub InBounds : ℕ → Cache → Type 0
InBounds bound c =
    (g : List ℕ) (k : ℕ) (e : CacheEntry)
    → find_entry c g k ≡ some e
    → k * c.block_size + c.block_size < bound

pub Cleans-cached_byte :
    {marked : List ℕ → ℕ → Bool} {c c' : Cache}
    → Cleans marked c c'
    → (g : List ℕ) (pos : ℕ) → cached_byte c' g pos ≡ cached_byte c g pos
unfolding cached_byte
Cleans-cached_byte {marked} {c} {c'} cleans g pos =
    ap (λ (n : ℕ). view c' g (pos / n) (pos % n)) cleans.same_size
    ∙ Cleans-view cleans g (pos / c.block_size) (pos % c.block_size)

abbrev pub has_group : List (List ℕ × List ℕ) → List ℕ → Bool
has_group groups g = is_some (find g groups)

-- What is said of the first group and of the rest, said of all.
in_groups-first :
    (f : List ℕ) (blocks : List ℕ) (groups : List (List ℕ × List ℕ)) (g : List ℕ) (k : ℕ)
    → find f groups ≡ none
    → (in_file f (sort blocks) g k || in_groups groups g k) ≡ in_groups ((f, blocks) ∷ groups) g k
unfolding in_groups find
in_groups-first f blocks groups g k alone = elim (Bool-cases (str_eq f g)) [
  | inl here ↦
      let alone' : find g groups ≡ none =
        subst (λ h. find h groups ≡ none) ((str_eq_iff f g).0 here) alone in
      ground (arith, contains-sort blocks k)
  | inr other ↦ ground arith
]

Inside-facts :
    (c c' : Cache) (g : List ℕ) (pos : ℕ)
    → file_facts c' g ≡ file_facts c g
    → Inside c g pos
    → Inside c' g pos
unfolding file_facts
Inside-facts c c' g pos same inside fc known = elim (Option-cases (find g c.file_map)) [
  | inl miss ↦ absurd (ground arith)
  | inr (fc', known') ↦
      let attrs : some (fc.attr, fc.stale) ≡ some (fc'.attr, fc'.stale) = ground arith in
      let size : fc.attr.size ≡ fc'.attr.size =
        ap (λ (o : Option (FileAttr × Bool)). size_of o) attrs in
      omega (arith, inside fc' known')
]
  where
    size_of : Option (FileAttr × Bool) → ℕ
    size_of none = 0
    size_of (some (attr, stale)) = attr.size

Cleans-InBounds :
    {bound : ℕ} {marked : List ℕ → ℕ → Bool} {c c' : Cache}
    → Cleans marked c c'
    → InBounds bound c
    → InBounds bound c'
Cleans-InBounds cleans bounds g k e' h =
    let (e, old, _) = entry_before cleans g k e' h in rw cleans.same_size (bounds g k e old)

first_group :
    (f : List ℕ) (blocks : List ℕ) (groups : List (List ℕ × List ℕ))
    → find f ((f, blocks) ∷ groups) ≡ some blocks
unfolding find
first_group f blocks groups = ground (arith, str_eq_iff f f)

in_first :
    (f : List ℕ) (blocks : List ℕ) (groups : List (List ℕ × List ℕ)) (k : ℕ)
    → in_groups ((f, blocks) ∷ groups) f k ≡ contains blocks k
unfolding in_groups
in_first f blocks groups k = rw (in_groups, first_group f blocks groups) refl

later_group :
    (f : List ℕ) (blocks : List ℕ) (groups : List (List ℕ × List ℕ)) (g : List ℕ) (bs : List ℕ)
    → find f groups ≡ none
    → find g groups ≡ some bs
    → find g ((f, blocks) ∷ groups) ≡ some bs
unfolding find
later_group f blocks groups g bs alone h = elim (Bool-cases (str_eq f g)) [
  | inl here ↦
      let alone' : find g groups ≡ none =
        subst (λ h. find h groups ≡ none) ((str_eq_iff f g).0 here) alone in
      absurd (cc)
  | inr other ↦ ground arith
]

module _ {S : Type 0} (backend : Backend S) (bound : ℕ) (remote : S → List ℕ → ℕ → ℕ)
    (stores : Stores backend bound remote) where
  stored_step :
      (c c₁ : Cache) (f : List ℕ) (blocks : List ℕ) (groups : List (List ℕ × List ℕ)) (s s₁ s₂ : S)
      → find f groups ≡ none
      → Cleans (in_file f (sort blocks)) c c₁
      → ((g : List ℕ) → str_eq f g ≡ false → file_facts c₁ g ≡ file_facts c g)
      → HasStored remote (str_eq f) (in_file f (sort blocks)) c s s₁
      → HasStored remote (has_group groups) (in_groups groups) c₁ s₁ s₂
      → HasStored remote
          (has_group ((f, blocks) ∷ groups))
          (in_groups ((f, blocks) ∷ groups))
          c
          s
          s₂
  unfolding in_groups find
  stored_step c c₁ f blocks groups s s₁ s₂ alone cleans facts first rest g pos inside =
      let bytes = Cleans-cached_byte cleans g pos in
      let size = cleans.same_size in
      elim (Bool-cases (str_eq f g)) [
        | inl here ↦
            let alone' : find g groups ≡ none =
              subst (λ h. find h groups ≡ none) ((str_eq_iff f g).0 here) alone in
            let inner : Inside c g pos = (elim inside [
              | inl no_group ↦ absurd (ground arith)
              | inr inner ↦ inner
            ]) in
            let later = rest g pos (inl (rw alone' refl)) in
            let sooner = first g pos (inr inner) in
            let same = contains-sort blocks (pos / c.block_size) in
            let member : in_groups ((f, blocks) ∷ groups) g (pos / c.block_size)
                ≡ contains blocks (pos / c.block_size) =
              rw (in_groups, here) refl in
            (later ∙ rw (in_groups, alone') refl) ∙ sooner ∙ rw (here, same, member) refl
        | inr other ↦
            let later = rest g pos (elim inside [
              | inl no_group ↦ inl (ground arith)
              | inr inner ↦ inr (Inside-facts c c₁ g pos (facts g other) inner)
            ]) in
            let sooner = first g pos (inl other) in
            let sooner' : some (remote s₁ g pos) ≡ some (remote s g pos) = sooner ∙ rw other refl in
            let member : in_groups ((f, blocks) ∷ groups) g (pos / c.block_size)
                ≡ in_groups groups g (pos / c.block_size) =
              rw (in_groups, other) refl in
            later ∙ rw (bytes, size, sooner', member) refl
      ]

  -- The flush of the groups returns, and the cache keeps its bytes. Without an error all the blocks
  -- of the groups are clean and the server has their bytes; with one, some may be clean.
  abbrev pub GroupsEnd : List (List ℕ × List ℕ) → Cache → S → Type 0
  GroupsEnd groups c s =
      (code : ℕ) × (c' : Cache) × (s' : S) × (flush_groups backend groups c s ≡ ok (code, c', s'))
      × IsValid c'
      × ((Refused backend code s' × (marked : List ℕ → ℕ → Bool) × Cleans marked c c')
          ⊎ ((code ≡ 0)
              × Cleans (in_groups groups) c c'
              × HasStored remote (has_group groups) (in_groups groups) c s s'))

  groups_go :
      (f : List ℕ) (blocks : List ℕ) (groups : List (List ℕ × List ℕ)) (c c₁ : Cache) (s s₁ : S)
      (code : ℕ)
      → flush_blocks backend f (sort blocks) c s ≡ ok (code, c₁, s₁)
      → (code == 0) ≡ true
      → flush_groups backend ((f, blocks) ∷ groups) c s ≡ flush_groups backend groups c₁ s₁
  unfolding flush_groups
  groups_go f blocks groups c c₁ s s₁ code run done = rw (run, ◌>>=◌, done) refl

  groups_stop :
      (f : List ℕ) (blocks : List ℕ) (groups : List (List ℕ × List ℕ)) (c c₁ : Cache) (s s₁ : S)
      (code : ℕ)
      → flush_blocks backend f (sort blocks) c s ≡ ok (code, c₁, s₁)
      → (code == 0) ≡ false
      → flush_groups backend ((f, blocks) ∷ groups) c s ≡ ok (code, c₁, s₁)
  unfolding flush_groups
  groups_stop f blocks groups c c₁ s s₁ code run failed = rw (run, ◌>>=◌, failed) refl

  module _ (f : List ℕ) (blocks : List ℕ) (groups : List (List ℕ × List ℕ)) (c c₁ : Cache)
      (s s₁ : S) (code : ℕ) (run : flush_blocks backend f (sort blocks) c s ≡ ok (code, c₁, s₁))
      (v : IsValid c₁) where
    groups_failed :
        (code == 0) ≡ false
        → Refused backend code s₁
        → (marked : List ℕ → ℕ → Bool) → Cleans marked c c₁
        → GroupsEnd ((f, blocks) ∷ groups) c s
    groups_failed failed refused marked cleans = (
      code,
      c₁,
      s₁,
      groups_stop f blocks groups c c₁ s s₁ code run failed,
      v,
      inl (refused, marked, cleans),
    )

    groups_next :
        (code == 0) ≡ true
        → find f groups ≡ none
        → ((g : List ℕ) → str_eq f g ≡ false → file_facts c₁ g ≡ file_facts c g)
        → Cleans (in_file f (sort blocks)) c c₁
        → HasStored remote (str_eq f) (in_file f (sort blocks)) c s s₁
        → GroupsEnd groups c₁ s₁
        → GroupsEnd ((f, blocks) ∷ groups) c s
    groups_next done alone facts cleans first
          (code', c', s', run', v', inl (failed, marked, more)) =
        (
          code',
          c',
          s',
          groups_go f blocks groups c c₁ s s₁ code run done ∙ run',
          v',
          inl (failed, _, Cleans-trans cleans more),
        )
    groups_next done alone facts cleans first (code', c', s', run', v', inr (done', more, rest)) = (
      code',
      c',
      s',
      groups_go f blocks groups c c₁ s s₁ code run done ∙ run',
      v',
      inr (
        done',
        Cleans-same (λ g k. in_groups-first f blocks groups g k alone) (Cleans-trans cleans more),
        stored_step c c₁ f blocks groups s s₁ s' alone cleans facts first rest,
      ),
    )

  -- The flush of all groups, one file after the other.
  pub flush_groups_lem :
      (groups : List (List ℕ × List ℕ)) (c : Cache) (s : S)
      → IsValid c
      → InBounds bound c
      → Unique groups
      → ((g : List ℕ) (blocks : List ℕ)
          → find g groups ≡ some blocks
          → (k : ℕ) × (contains blocks k ≡ true))
      → ((g : List ℕ) (k : ℕ)
          → in_groups groups g k ≡ true
          → (e : CacheEntry) × (find_entry c g k ≡ some e))
      → GroupsEnd groups c s
  flush_groups_lem [] c s v bounds unique some_block there = (
    0,
    c,
    s,
    unfold flush_groups in refl,
    v,
    inr (
      refl,
      unfold in_groups in
          unfold find in
          record { same_size = refl; same_list = refl; same_next = refl; entry = λ g k. refl },
      unfold in_groups in unfold find in λ g pos inside. refl,
    ),
  )
  flush_groups_lem ((f, blocks) ∷ groups) c s v bounds unique some_block there =
      let both : (find f groups ≡ none) × Unique groups = unfold Unique in unique in
      let (alone, others) = both in
      let (k, is_in) = some_block f blocks (first_group f blocks groups) in
      let (e, found) = there f k (in_first f blocks groups k ∙ is_in) in
      let (fc, known, _) = file_of_entry c f k e found in
      let (code, c₁, s₁, run, v₁, ending, facts, effect) =
        flush_blocks_lem backend bound remote stores f c fc (sort blocks) s v known (λ b h.
          let (d, at_b) =
            there f b (in_first f blocks groups b ∙ (sym (contains-sort blocks b) ∙ h)) in
          (d, sym (find_entry-file c f b fc known) ∙ at_b, bounds f b d at_b)) in
      elim (Bool-cases (code == 0)) [
        | inl done ↦ elim effect [
          | inl (failed, _) ↦ absurd (failed ((==_iff code 0).0 done))
          | inr (cleans, first) ↦
              groups_next f blocks groups c c₁ s s₁ code run v₁ done alone facts cleans first (
                flush_groups_lem groups c₁ s₁ v₁ (Cleans-InBounds cleans bounds) others
                  (λ g bs h. some_block g bs (later_group f blocks groups g bs alone h))
                  (λ g n h.
                    let (d, at_n) =
                      there g n (sym (in_groups-first f blocks groups g n alone) ∙ ground arith) in
                    let (d', now, _) = entry_after cleans g n d at_n in (d', now)))
        ]
        | inr failed ↦
            let refused : Refused backend code s₁ = (elim ending [
              | inl done ↦ absurd (ground arith)
              | inr refused ↦ refused
            ]) in
            elim effect [
              | inl (_, same) ↦
                  groups_failed f blocks groups c c₁ s s₁ code run v₁ failed refused _
                    (SameBlocks-Cleans same)
              | inr (cleans, _) ↦
                  groups_failed f blocks groups c c₁ s s₁ code run v₁ failed refused _ cleans
            ]
      ]
