-- ===== src/Range/Sorted.antt =====
-- `RangeList` of client_src/range.hpp as a set of positions: the invariant of its list, and what
-- `insertRange` does to the set.
use net_fs.Prelude.{
  ℕ, ◌+◌, ◌≤◌, ◌<◌, min, max, List, [], ◌∷◌, ltb, leb, ◌&&◌, ◌||◌, Bool, false, Bool-cases, inl,
  inr, lt→ltb, ◌≡◌, refl, arith, ok,
}
use net_fs.Range.{Range, insert_range}
use net_fs.Range.Merge.{From, absorb, merge, insert_body-merge}

-- No range is empty, and each starts beyond the end of the one before.
abbrev pub IsSorted : List Range → Type 0
IsSorted = From 0

abbrev pub inside : Range → ℕ → Bool
inside r x = leb r.start x && ltb x r.end

-- The set of positions that a list of ranges stands for.
unfoldable pub covers : List Range → ℕ → Bool
covers [] x = false
covers (r ∷ rs) x = inside r x || covers rs x

From-weaken : (lo lo' : ℕ) (rs : List Range) → lo' ≤ lo → From lo rs → From lo' rs
From-weaken lo lo' [] h f = tt
From-weaken lo lo' (r ∷ rs) h f = (omega arith, f.1, f.2)

absorb-From :
    (lo lo' s e : ℕ) (rs : List Range)
    → lo ≤ s
    → lo ≤ lo'
    → s < e
    → From lo' rs
    → From lo (absorb s e rs)
unfolding absorb
absorb-From lo lo' s e [] h k p f = (h, p, tt)
absorb-From lo lo' s e (r ∷ rs) h k p f = elim (Bool-cases (leb r.start e)) [
  | inl more ↦ rw more (
      absorb-From lo (r.end + 1) (min s r.start) (max e r.end) rs (omega arith) (omega arith)
        (omega arith) f.2)
  | inr done ↦ rw done (h, p, (ground arith, f.1, f.2))
]

covers-absorb :
    (lo s e x : ℕ) (rs : List Range)
    → s < e
    → s ≤ lo
    → From lo rs
    → covers (absorb s e rs) x ≡ (leb s x && ltb x e || covers rs x)
unfolding absorb covers
covers-absorb lo s e x [] p h f = refl
covers-absorb lo s e x (r ∷ rs) p h f =
    ground (arith, covers-absorb (r.end + 1) (min s r.start) (max e r.end) x rs)

covers-merge :
    (new : Range) (lo x : ℕ) (rs : List Range)
    → new.start < new.end
    → From lo rs
    → covers (merge new rs) x ≡ (covers rs x || inside new x)
unfolding merge absorb covers
covers-merge new lo x [] p f = ground arith
covers-merge new lo x (r ∷ rs) p f = ground (
  arith,
  covers-merge new (r.end + 1) x rs p,
  covers-absorb (r.end + 1) (min new.start r.start) (max new.end r.end) x rs,
)

merge-From :
    (new : Range) (lo : ℕ) (rs : List Range)
    → new.start < new.end
    → lo ≤ new.start
    → From lo rs
    → From lo (merge new rs)
unfolding merge absorb
merge-From new lo [] p h f = (h, p, tt)
merge-From new lo (r ∷ rs) p h f = elim (Bool-cases (ltb r.end new.start)) [
  | inl before ↦ rw before (f.0, f.1, merge-From new (r.end + 1) rs p (ground arith) f.2)
  | inr later ↦
      rw later (unfold absorb in absorb-From lo lo new.start new.end (r ∷ rs) h (omega arith) p f)
]

-- `insertRange` of a range that is not empty passes its assertion. It keeps the list sorted with
-- gaps between the ranges, and the list then stands for the positions of before and those of the
-- new range, and no others.
pub insert_range-IsSorted :
    (start end : ℕ) (ranges : List Range)
    → start < end
    → IsSorted ranges
    → (after : List Range) × (insert_range start end ranges ≡ ok after)
      × IsSorted after
      × ((x : ℕ) → covers after x ≡ (covers ranges x || (leb start x && ltb x end)))
unfolding insert_range
insert_range-IsSorted start end ranges p f =
    let new : Range = record { start = start; end = end } in
    let same = insert_body-merge new 0 ranges p f in
    (
      merge new ranges,
      rw (lt→ltb start end p, same),
      merge-From new 0 ranges p (omega arith) f,
      λ x. covers-merge new 0 x ranges p f,
    )
