-- ===== src/Range/Merge.antt =====
-- `insertRange` of client_src/range.cpp, with its indices gone: on a sorted list it is a merge.
use net_fs.Prelude.{
  ℕ, suc, ◌+◌, ◌≤◌, ◌<◌, min, max, List, [], ◌∷◌, none, some, ltb, leb, drop, drop-suc,
  if◌then◌else◌, ◌≡◌, ◌⊎◌, inl, inr, Bool-cases, tests, refl, ap, ◌∙◌, arith, true, false,
}
use net_fs.Range.{
  Range, Scan, scan, scan_step, first_index, place, insert_sorted, insert_body, overlap, init_scan,
}

-- Ranges that start at `lo` or later, none empty, each beyond the end of the one before.
abbrev pub From : ℕ → List Range → Type 0
From lo [] = Unit
From lo (r ∷ rs) = (lo ≤ r.start) × (r.start < r.end) × From (r.end + 1) rs

-- The range from `s` to `e` takes in the ranges that start no later than `e`.
unfoldable pub absorb : ℕ → ℕ → List Range → List Range
absorb s e [] = record { start = s; end = e } ∷ []
absorb s e (r ∷ rs) =
    let rest = absorb (min s r.start) (max e r.end) rs in
    if leb r.start e then rest else record { start = s; end = e } ∷ r ∷ rs

unfoldable pub merge : Range → List Range → List Range
unfolding absorb
merge new [] = new ∷ []
merge new (r ∷ rs) =
    let rest = merge new rs in
    if ltb r.end new.start then r ∷ rest else absorb new.start new.end (r ∷ rs)

-- What the scan leaves of a list whose ranges all lie beyond the new one.
scan_beyond :
    (new : Range) (i lo : ℕ) (rs : List Range) (st : Scan)
    → new.start < new.end
    → new.end < lo
    → From lo rs
    → scan new i rs st ≡ st
unfolding scan scan_step overlap
scan_beyond new i lo [] st p h f = refl
scan_beyond new i lo (r ∷ rs) st p h f = ground (arith, scan_beyond new (suc i) (r.end + 1) rs st p)

overlap_after : (r new : Range) → new.start < r.start → overlap r new ≡ leb r.start new.end
unfolding overlap
overlap_after r new h = ground arith

-- `e`, the end of the union so far, is that of the new range or lies before what follows.
scan-absorb :
    (new : Range) (full rs : List Range) (i lo s e k : ℕ)
    → new.start < new.end
    → new.end ≤ e
    → new.start < lo
    → (e ≤ new.end) ⊎ (e < lo)
    → From lo rs
    → drop i full ≡ rs
    → (st : Scan) × (scan new i rs
          (record { over_start = some k; over_end = i; new_start = s; new_end = e })
        ≡ st)
      × (st.over_start ≡ some k)
      × (◌≡◌ {A = List Range}
          (record { start = st.new_start; end = st.new_end } ∷ drop st.over_end full)
          (absorb s e rs))
unfolding scan scan_step absorb first_index
scan-absorb new full [] i lo s e k p le h sep f d = (_, refl, refl, ground (arith, d))
scan-absorb new full (r ∷ rs) i lo s e k p le h sep f d = elim (Bool-cases (leb r.start e)) [
  | inl more ↦
      let past : leb r.start new.end ≡ true = ground arith in
      let (st, run, kept, out) =
        scan-absorb new full rs (suc i) (r.end + 1) (min s r.start) (max e r.end) k p (omega arith)
          (omega arith) (omega tests) f.2 (drop-suc i full d) in
      (st, rw (overlap_after r new (omega arith), past) run, kept, rw more out)
  | inr done ↦
      let apart : leb r.start new.end ≡ false = ground arith in
      (
        record { over_start = some k; over_end = i; new_start = s; new_end = e },
        rw (overlap_after r new (omega arith), apart)
            (scan_beyond new (suc i) (r.end + 1) rs _ p (ground arith) f.2),
        refl,
        rw (done, d),
      )
]

-- The state of the scan for a list with one more range, that does not overlap, in front.
bump : Scan → Scan
bump st = elim st.over_start [
  | none ↦ st
  | some k ↦ record st { over_start = some (suc k); over_end = suc st.over_end }
]

scan_step-bump :
    (new r : Range) (i : ℕ) (st : Scan)
    → scan_step new (suc i) r (bump st) ≡ bump (scan_step new i r st)
unfolding scan_step bump first_index
scan_step-bump new r i st = ground arith

scan-bump :
    (new : Range) (rs : List Range) (i : ℕ) (st : Scan)
    → scan new (suc i) rs (bump st) ≡ bump (scan new i rs st)
unfolding scan
scan-bump new [] i st = refl
scan-bump new (r ∷ rs) i st = rw scan_step-bump (scan-bump new rs (suc i) (scan_step new i r st))

-- While no overlap is found the new range keeps its start.
scan-none :
    (new : Range) (rs : List Range) (i : ℕ) (st : Scan)
    → (scan new i rs st).over_start ≡ none
    → (st.over_start ≡ none) × ((scan new i rs st).new_start ≡ st.new_start)
unfolding scan scan_step
scan-none new [] i st h = (h, refl)
scan-none new (r ∷ rs) i st h = ground (arith, scan-none new rs (suc i) (scan_step new i r st) h)

place-bump :
    (r : Range) (rs : List Range) (st : Scan)
    → (st.over_start ≡ none → r.start < st.new_start)
    → place (r ∷ rs) (bump st) ≡ r ∷ place rs st
unfolding place bump insert_sorted
place-bump r rs st h = ground arith

step_apart : (new r : Range) (i : ℕ) (st : Scan) → overlap r new ≡ false → scan_step new i r st ≡ st
unfolding scan_step
step_apart new r i st h = rw h

step_meets :
    (new r : Range)
    → overlap r new ≡ true
    → scan_step new 0 r (init_scan new) ≡ record {
      over_start = some 0;
      over_end = 1;
      new_start = min new.start r.start;
      new_end = max new.end r.end;
    }
unfolding scan_step init_scan first_index
step_meets new r h = rw h

place_from_front :
    (full : List Range) (st : Scan)
    → st.over_start ≡ some 0
    → place full st ≡ record { start = st.new_start; end = st.new_end } ∷ drop st.over_end full
unfolding place
place_from_front full st h = ground arith

module _ (new r : Range) (rs : List Range) (p : new.start < new.end) where
  insert_body_before :
      r.start < r.end → r.end < new.start → insert_body new (r ∷ rs) ≡ r ∷ insert_body new rs
  unfolding insert_body bump
  insert_body_before q h =
      ap (λ st. place (r ∷ rs) (scan new 1 rs st))
        (step_apart new r 0 (init_scan new) (unfold overlap in ground arith))
      ∙ ap (place (r ∷ rs)) (scan-bump new rs 0 (init_scan new))
      ∙ place-bump r rs (scan new 0 rs (init_scan new))
          λ none_found. ground (arith, scan-none new rs 0 (init_scan new) none_found)

  insert_body_beyond :
      From (r.end + 1) rs
      → r.start < r.end
      → new.end < r.start
      → insert_body new (r ∷ rs) ≡ new ∷ r ∷ rs
  unfolding insert_body
  insert_body_beyond f q h =
      ap (place (r ∷ rs))
        (scan_beyond new 0 r.start (r ∷ rs) (init_scan new) p h (omega arith, q, f))
      ∙ (unfold place insert_sorted init_scan in ground arith)

  insert_body_meets :
      From (r.end + 1) rs
      → r.start < r.end
      → new.start ≤ r.end
      → r.start ≤ new.end
      → insert_body new (r ∷ rs) ≡ absorb (min new.start r.start) (max new.end r.end) rs
  unfolding insert_body
  insert_body_meets f q h k =
      let (st, run, kept, out) =
        scan-absorb new (r ∷ rs) rs 1 (r.end + 1) (min new.start r.start) (max new.end r.end) 0 p
          (omega arith) (omega arith) (omega arith) f refl in
      ap (λ st. place (r ∷ rs) (scan new 1 rs st))
        (step_meets new r (unfold overlap in ground arith))
      ∙ ap (place (r ∷ rs)) run
      ∙ place_from_front (r ∷ rs) st kept
      ∙ out

-- On a sorted list the code's scan, erase and insert are the merge.
pub insert_body-merge :
    (new : Range) (lo : ℕ) (rs : List Range)
    → new.start < new.end
    → From lo rs
    → insert_body new rs ≡ merge new rs
unfolding merge absorb
insert_body-merge new lo [] p f = unfold insert_body in refl
insert_body-merge new lo (r ∷ rs) p f =
    let ih = insert_body-merge new (r.end + 1) rs p f.2 in
    elim (Bool-cases (ltb r.end new.start)) [
      | inl before ↦ rw (insert_body_before new r rs p f.1 (omega tests), ih, before) refl
      | inr later ↦ elim (Bool-cases (ltb new.end r.start)) [
        | inl beyond ↦ insert_body_beyond new r rs p f.2 f.1 (omega tests) ∙ ground arith
        | inr meets ↦
            insert_body_meets new r rs p f.2 f.1 (ground arith) (ground arith) ∙ ground arith
      ]
    ]
