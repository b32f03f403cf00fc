-- ===== src/Range.antt =====
-- client_src/range.hpp and client_src/range.cpp: sorted lists of disjoint half-open ranges, and the
-- copying of one buffer's ranges over another buffer.
pub mod Merge
pub mod Sorted
pub mod Canonical
pub mod Overlay
use net_fs.Prelude.{
  ℕ, suc, ◌+◌, min, max, List, [], ◌∷◌, ◌++◌, Bool, Option, none, some, ltb, leb, take, drop,
  if◌then◌else◌, Result, ok, assert, ◌>>◌, ◌>>=◌, err, bad_access, get_elem?, set, length, zero,
  ◌-◌,
}

pub record Range : Type 0 where
  pub start : ℕ
  pub end : ℕ

-- Ranges that only touch overlap too.
overlap : Range → Range → Bool
overlap r₁ r₂ = if leb r₁.start r₂.start then leb r₂.start r₁.end else leb r₁.start r₂.end

-- The variables of the loop of `insertRange`. `over_start` is `none` where the code has -1; the
-- indices are taken to fit an `int`, fewer than 2 ^ 31 ranges.
record Scan : Type 0 where
  over_start : Option ℕ
  over_end : ℕ
  new_start : ℕ
  new_end : ℕ

-- The first index wins.
first_index : Option ℕ → ℕ → ℕ
first_index none i = i
first_index (some k) i = k

-- One round of the loop, at the index `i`.
scan_step : Range → ℕ → Range → Scan → Scan
unfolding first_index overlap
scan_step new_range i r st =
    if overlap r new_range
    then record {
      over_start = some (first_index st.over_start i);
      over_end = suc i;
      new_start = min st.new_start r.start;
      new_end = max st.new_end r.end;
    }
    else st

scan : Range → ℕ → List Range → Scan → Scan
scan new_range i [] st = st
scan new_range i (r ∷ rs) st = scan new_range (suc i) rs (scan_step new_range i r st)

-- The `while` loop of the branch where nothing overlaps, and the insertion at its iterator.
insert_sorted : Range → List Range → List Range
insert_sorted new [] = new ∷ []
insert_sorted new (r ∷ rs) =
    if ltb r.start new.start then r ∷ insert_sorted new rs else new ∷ r ∷ rs

-- The end of `insertRange`: erase the overlapped ranges and insert their union, or insert.
place : List Range → Scan → List Range
place ranges st = elim st.over_start [
  | none ↦ insert_sorted (record { start = st.new_start; end = st.new_end }) ranges
  | some k ↦
      take k ranges ++ record { start = st.new_start; end = st.new_end } ∷ drop st.over_end ranges
]

init_scan : Range → Scan
init_scan new = record { over_start = none; over_end = 0; new_start = new.start; new_end = new.end }

-- `_ranges` after `insertRange(start, end)`, past its assertion.
pub insert_body : Range → List Range → List Range
unfolding scan scan_step place insert_sorted init_scan
insert_body new ranges = place ranges (scan new 0 ranges (init_scan new))

unfoldable pub insert_range : ℕ → ℕ → List Range → Result (List Range)
unfolding insert_body
insert_range start end ranges = do
  assert (ltb start end)
  ok (insert_body (record { start = start; end = end }) ranges)

-- `lower_layer[i] = upper_layer[i]`
copy_at : List ℕ → ℕ → List ℕ → Result (List ℕ)
copy_at upper i lower = elim (get_elem? upper i) [
  | none ↦ err bad_access
  | some v ↦ if ltb i (length lower) then ok (set lower i v) else err bad_access
]

-- The loop of `overlay` for one range, with `n` rounds left at the index `i`.
overlay_loop : List ℕ → ℕ → ℕ → List ℕ → Result (List ℕ)
overlay_loop upper i zero lower = ok lower
overlay_loop upper i (suc n) lower = do
  lower' ← copy_at upper i lower
  overlay_loop upper (suc i) n lower'

pub overlay_range : List ℕ → Range → List ℕ → Result (List ℕ)
overlay_range upper range lower = overlay_loop upper range.start (range.end - range.start) lower

unfoldable pub overlay : List ℕ → List Range → List ℕ → Result (List ℕ)
unfolding overlay_range overlay_loop copy_at
overlay upper [] lower = ok lower
overlay upper (r ∷ ranges) lower = do
  lower' ← overlay_range upper r lower
  overlay upper ranges lower'
