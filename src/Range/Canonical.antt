-- ===== src/Range/Canonical.antt =====
-- A sorted list of ranges is the only one for its set of positions.
use net_fs.Prelude.{ℕ, ◌+◌, ◌<◌, List, [], ◌∷◌, true, false, ◌≡◌, refl, sym, ◌∙◌, arith}
use mathlib.Core.Bool.{false≢true}
use net_fs.Range.{Range}
use net_fs.Range.Merge.{From}
use net_fs.Range.Sorted.{IsSorted, covers}

covers_below : (lo x : ℕ) (rs : List Range) → From lo rs → x < lo → covers rs x ≡ false
unfolding covers
covers_below lo x [] f h = refl
covers_below lo x (r ∷ rs) f h = ground (arith, covers_below (r.end + 1) x rs)

module _ (r q : Range) (rs qs : List Range) (f : From 0 (r ∷ rs)) (g : From 0 (q ∷ qs))
    (same : (x : ℕ) → covers (r ∷ rs) x ≡ covers (q ∷ qs) x) where
  same_start : r.start ≡ q.start
  unfolding covers
  same_start = ground (
    arith,
    same r.start,
    same q.start,
    covers_below (r.end + 1) q.start rs f.2,
    covers_below (q.end + 1) r.start qs g.2,
  )

  same_end : r.end ≡ q.end
  unfolding covers
  same_end = ground (
    arith,
    same_start,
    same r.end,
    same q.end,
    covers_below (r.end + 1) r.end rs f.2,
    covers_below (q.end + 1) q.end qs g.2,
    covers_below (q.end + 1) r.end qs g.2,
    covers_below (r.end + 1) q.end rs f.2,
  )

  same_rest : (x : ℕ) → covers rs x ≡ covers qs x
  unfolding covers
  same_rest x = ground (
    arith,
    same_start,
    same_end,
    same x,
    covers_below (r.end + 1) x rs f.2,
    covers_below (q.end + 1) x qs g.2,
  )

covers_self : (r : Range) (rs : List Range) → r.start < r.end → covers (r ∷ rs) r.start ≡ true
unfolding covers
covers_self r rs h = ground arith

canonical :
    (lo lo' : ℕ) (rs qs : List Range)
    → From lo rs
    → From lo' qs
    → ((x : ℕ) → covers rs x ≡ covers qs x)
    → rs ≡ qs
unfolding covers
canonical lo lo' [] [] f g same = refl
canonical lo lo' [] (q ∷ qs) f g same = absurd (false≢true (same q.start ∙ covers_self q qs g.1))
canonical lo lo' (r ∷ rs) [] f g same =
    absurd (false≢true (sym (same r.start) ∙ covers_self r rs f.1))
canonical lo lo' (r ∷ rs) (q ∷ qs) f g same =
    let f' : From 0 (r ∷ rs) = (omega arith, f.1, f.2) in
    let g' : From 0 (q ∷ qs) = (omega arith, g.1, g.2) in
    let ends = same_end r q rs qs f' g' same in
    let starts = same_start r q rs qs f' g' same in
    let rest = canonical (r.end + 1) (q.end + 1) rs qs f.2 g.2 (same_rest r q rs qs f' g' same) in
    cc

-- Two range lists that `insertRange` can build, sorted with gaps, are equal as soon as they stand
-- for the same positions.
pub IsSorted-canonical :
    (rs qs : List Range)
    → IsSorted rs
    → IsSorted qs
    → ((x : ℕ) → covers rs x ≡ covers qs x)
    → rs ≡ qs
IsSorted-canonical rs qs = canonical 0 0 rs qs
