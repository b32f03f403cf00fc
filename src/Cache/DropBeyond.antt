-- ===== src/Cache/DropBeyond.antt =====
-- The loop of `Cache::deleteEntryBeyond` in client_src/cache.cpp over the entries of a file.
use net_fs.Prelude.{
  ℕ, List, [], ◌∷◌, none, some, ◌==◌, ==_iff, leb, nat_eq, string_eq, ◌&&◌, ◌||◌, Bool, find,
  Unique, ok, ◌≡◌, refl, sym, ap, subst, ◌∙◌, arith, Bool-cases, inl, inr, true, false,
}
use net_fs.Cache.Entry.{CacheEntry}
use net_fs.Cache.State.{Use}
use net_fs.Cache.Blocks.{erase_use, find_use, drop_beyond}
use net_fs.Cache.Usage.{Distinct, erase_use_lem}
use net_fs.Cache.Valid.{use_of}
use net_fs.Cache.Remove.{unless}

-- Whether a node is the record of a block from the bound on.
unfoldable pub holds_node : ℕ → ℕ → List (ℕ × CacheEntry) → Bool
holds_node bound m [] = false
holds_node bound m ((b, e) ∷ entries) =
    (leb bound b && e.use_record == m) || holds_node bound m entries

pub holds_node-find :
    (bound : ℕ) (entries : List (ℕ × CacheEntry)) (b : ℕ) (e : CacheEntry)
    → leb bound b ≡ true
    → find b entries ≡ some e
    → holds_node bound e.use_record entries ≡ true
unfolding holds_node find
holds_node-find bound [] b e h there = absurd (cc)
holds_node-find bound ((k, d) ∷ entries) b e h there = elim (Bool-cases (k == b)) [
  | inl here ↦
      let eb : k ≡ b = (==_iff k b).0 here in
      let ed : d ≡ e = ground arith in
      let node : (d.use_record == e.use_record) ≡ true =
        (==_iff d.use_record e.use_record).1 (ap (λ (x : CacheEntry). x.use_record) ed) in
      ground arith
  | inr other ↦ ground (arith, holds_node-find bound entries b e h)
]

pub find-holds_node :
    (bound m : ℕ) (entries : List (ℕ × CacheEntry))
    → Unique entries
    → holds_node bound m entries ≡ true
    → (b : ℕ) × (e : CacheEntry) × (find b entries ≡ some e)
      × (leb bound b ≡ true)
      × (e.use_record ≡ m)
unfolding holds_node find Unique
find-holds_node bound m [] u h = absurd (cc)
find-holds_node bound m ((k, d) ∷ entries) u h =
    elim (Bool-cases (leb bound k && d.use_record == m)) [
      | inl here ↦ (k, d, ground (arith, ==_iff k k), ground arith, ground arith)
      | inr other ↦
          let (b, e, there, from_bound, node) =
            find-holds_node bound m entries u.1 (ground arith) in
          (
            b,
            e,
            elim (Bool-cases (k == b)) [
              | inl same ↦
                  let absent : find b entries ≡ none =
                    subst (λ (n : ℕ). find n entries ≡ none) ((==_iff k b).0 same) u.0 in
                  absurd (cc)
              | inr differ ↦ ground arith
            ],
            from_bound,
            node,
          )
    ]

-- What the loop leaves of a file's entries and of the usage list.
pub record Dropped (bound : ℕ) (entries : List (ℕ × CacheEntry)) (recent : List Use)
    (kept : List (ℕ × CacheEntry)) (rest : List Use) : Type 0 where
  pub unique : Unique kept
  pub distinct : Distinct rest
  pub found : (b : ℕ) → find b kept ≡ unless (leb bound b) (find b entries)
  pub uses : (m : ℕ) → find_use m rest ≡ unless (holds_node bound m entries) (find_use m recent)

same_block :
    (f : List ℕ) (k m b n : ℕ) → some (use_of f k m) ≡ some (use_of f b n) → (k == b) ≡ true
same_block f k m b n both =
    let same : use_of f k m ≡ use_of f b n = cc in
    (==_iff k b).1 (ap (λ (u : Use). u.entry_id.block_num) same)

drop_go :
    (bound k : ℕ) (d : CacheEntry) (entries : List (ℕ × CacheEntry)) (recent recent₁ : List Use)
    → leb bound k ≡ true
    → erase_use d.use_record recent ≡ ok recent₁
    → drop_beyond bound ((k, d) ∷ entries) recent ≡ drop_beyond bound entries recent₁
unfolding drop_beyond
drop_go bound k d entries recent recent₁ goes run = rw (drop_beyond, goes, run) refl

drop_keep :
    (bound k : ℕ) (d : CacheEntry) (entries kept : List (ℕ × CacheEntry)) (recent rest : List Use)
    → leb bound k ≡ false
    → drop_beyond bound entries recent ≡ ok (kept, rest)
    → drop_beyond bound ((k, d) ∷ entries) recent ≡ ok ((k, d) ∷ kept, rest)
unfolding drop_beyond
drop_keep bound k d entries kept recent rest stays run = rw (drop_beyond, stays, run) refl

pub drop_beyond-Dropped :
    (f : List ℕ) (bound : ℕ) (entries : List (ℕ × CacheEntry)) (recent : List Use)
    → Unique entries
    → Distinct recent
    → ((b : ℕ) (e : CacheEntry)
        → find b entries ≡ some e
        → find_use e.use_record recent ≡ some (use_of f b e.use_record))
    → (kept : List (ℕ × CacheEntry)) × (rest : List Use) × (drop_beyond bound entries recent
        ≡ ok (kept, rest))
      × Dropped bound entries recent kept rest
unfolding holds_node find Unique
drop_beyond-Dropped f bound [] recent unique distinct recorded = (
  [],
  recent,
  unfold drop_beyond in refl,
  record { unique = tt; distinct = distinct; found = λ b. ground arith; uses = λ m. refl },
)
drop_beyond-Dropped f bound ((k, d) ∷ entries) recent unique distinct recorded =
    let node_here = recorded k d (ground (arith, ==_iff k k)) in
    let tail : (b : ℕ) (e : CacheEntry)
        → find b entries ≡ some e
        → (find b ((k, d) ∷ entries) ≡ some e) × ((k == b) ≡ false) =
      λ b e h. elim (Bool-cases (k == b)) [
        | inl same ↦
            let absent : find b entries ≡ none =
              subst (λ (n : ℕ). find n entries ≡ none) ((==_iff k b).0 same) unique.0 in
            absurd (cc)
        | inr differ ↦ (ground arith, differ)
      ] in
    elim (Bool-cases (leb bound k)) [
      | inl goes ↦
          let (recent₁, run, distinct₁, found₁, _) =
            erase_use_lem d.use_record recent (use_of f k d.use_record) distinct node_here in
          let recorded₁ : (b : ℕ) (e : CacheEntry)
              → find b entries ≡ some e
              → find_use e.use_record recent₁ ≡ some (use_of f b e.use_record) =
            λ b e h.
              (let (there, differ) = tail b e h in
                let node = recorded b e there in
                elim (Bool-cases (d.use_record == e.use_record)) [
                  | inl same ↦
                      let node' : find_use e.use_record recent ≡ some (use_of f k d.use_record) =
                        subst (λ (n : ℕ). find_use n recent ≡ some (use_of f k d.use_record))
                          ((==_iff d.use_record e.use_record).0 same) node_here in
                      let both : some (use_of f k d.use_record) ≡ some (use_of f b e.use_record) =
                        sym node' ∙ node in
                      let clash = same_block f k d.use_record b e.use_record both in
                      absurd (ground arith)
                  | inr other ↦ found₁ e.use_record ∙ rw other node
                ]) in
          let (kept, rest, run', dropped) =
            drop_beyond-Dropped f bound entries recent₁ unique.1 distinct₁ recorded₁ in
          (
            kept,
            rest,
            drop_go bound k d entries recent recent₁ goes run ∙ run',
            record {
              unique = dropped.unique;
              distinct = dropped.distinct;
              found = λ b.
                  let now = dropped.found b in
                  elim (Bool-cases (k == b)) [
                    | inl same ↦ ground (arith, ==_iff k b)
                    | inr differ ↦ ground arith
                  ];
              uses = λ m. let now = dropped.uses m in let before = found₁ m in ground arith;
            },
          )
      | inr stays ↦
          let (kept, rest, run, dropped) =
            drop_beyond-Dropped f bound entries recent unique.1 distinct
              (λ b e h. recorded b e (tail b e h).0) in
          (
            (k, d) ∷ kept,
            rest,
            drop_keep bound k d entries kept recent rest stays run,
            record {
              unique = (dropped.found k ∙ rw stays unique.0, dropped.unique);
              distinct = dropped.distinct;
              found = λ b.
                  let now = dropped.found b in
                  elim (Bool-cases (k == b)) [
                    | inl same ↦ ground (arith, ==_iff k b)
                    | inr differ ↦ ground arith
                  ];
              uses = λ m. let now = dropped.uses m in ground arith;
            },
          )
    ]
