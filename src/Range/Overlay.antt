-- ===== src/Range/Overlay.antt =====
-- `overlay` of client_src/range.cpp: its ranges, and nothing else, are copied over.
use net_fs.Prelude.{
  get_elem?_within, ℕ, zero, suc, ◌+◌, ◌-◌, ◌≤◌, ◌<◌, List, [], ◌∷◌, ltb, leb, if◌then◌else◌, ◌&&◌,
  Bool-cases, ◌≡◌, refl, ◌∙◌, arith, ok, inl, inr, get_elem?, set, length, length-set,
  get_elem?-set_self, get_elem?-set_ne, some, ==_iff, ◌==◌,
}
use net_fs.Range.{Range, copy_at, overlay_loop, overlay_range, overlay}
use net_fs.Range.Sorted.{covers, inside}

-- Every range ends at `n` or before.
abbrev pub Within : ℕ → List Range → Type 0
Within n [] = Unit
Within n (r ∷ rs) = (r.end ≤ n) × Within n rs

get_elem?-set :
    (xs : List ℕ) (i x v : ℕ)
    → i < length xs
    → get_elem? (set xs i v) x ≡ (if i == x then some v else get_elem? xs x)
get_elem?-set xs i x v h = elim (Bool-cases (i == x)) [
  | inl same ↦
      let e : i ≡ x = (==_iff i x).0 same in rw same (rw (← e) (get_elem?-set_self xs i v h))
  | inr other ↦ rw other (get_elem?-set_ne xs i x v (λ e. ground arith))
]

copy_at_within :
    (upper : List ℕ) (i v : ℕ) (lower : List ℕ)
    → get_elem? upper i ≡ some v
    → i < length lower
    → copy_at upper i lower ≡ ok (set lower i v)
unfolding copy_at
copy_at_within upper i v lower at h = ground arith

overlay_loop_lem :
    (upper : List ℕ) (i n : ℕ) (lower : List ℕ)
    → i + n ≤ length upper
    → length upper ≡ length lower
    → (out : List ℕ) × (overlay_loop upper i n lower ≡ ok out)
      × (length out ≡ length lower)
      × ((x : ℕ)
          → get_elem? out x
            ≡ (if leb i x && ltb x (i + n) then get_elem? upper x else get_elem? lower x))
unfolding overlay_loop
overlay_loop_lem upper i zero lower h e = (lower, refl, refl, λ x. ground arith)
overlay_loop_lem upper i (suc n) lower h e =
    let (v, at) = get_elem?_within upper i (omega arith) in
    let (out, run, len, values) =
      overlay_loop_lem upper (suc i) n (set lower i v) (omega arith)
        (omega (arith, length-set {0} lower i v)) in
    (
      out,
      rw (copy_at_within upper i v lower at (omega arith)) run,
      len ∙ length-set lower i v,
      λ x. ground (arith, values x, get_elem?-set lower i x v),
    )

overlay_range_lem :
    (upper : List ℕ) (r : Range) (lower : List ℕ)
    → r.end ≤ length upper
    → length upper ≡ length lower
    → (out : List ℕ) × (overlay_range upper r lower ≡ ok out)
      × (length out ≡ length lower)
      × ((x : ℕ) → get_elem? out x ≡ (if inside r x then get_elem? upper x else get_elem? lower x))
unfolding overlay_range
overlay_range_lem upper r lower h e = elim (Bool-cases (ltb r.start r.end)) [
  | inl some_rounds ↦
      let (out, run, len, values) =
        overlay_loop_lem upper r.start (r.end - r.start) lower (ground arith) e in
      (out, run, len, λ x. ground (arith, values x))
  | inr no_rounds ↦
      let none_left : r.end - r.start ≡ 0 = ground arith in
      (lower, rw none_left (unfold overlay_loop in refl), refl, λ x. ground arith)
]

overlay_cons :
    (upper : List ℕ) (r : Range) (ranges : List Range) (lower : List ℕ) {mid : List ℕ}
    → overlay_range upper r lower ≡ ok mid
    → overlay upper (r ∷ ranges) lower ≡ overlay upper ranges mid
unfolding overlay
overlay_cons upper r ranges lower h = ground (arith, h)

-- `overlay` reads and writes inside its buffers when no range ends beyond them. Each position of a
-- range then holds the upper layer's byte, and each other position what it held before.
pub overlay_lem :
    (upper : List ℕ) (ranges : List Range) (lower : List ℕ)
    → Within (length upper) ranges
    → length upper ≡ length lower
    → (out : List ℕ) × (overlay upper ranges lower ≡ ok out)
      × (length out ≡ length lower)
      × ((x : ℕ)
          → get_elem? out x ≡ (if covers ranges x then get_elem? upper x else get_elem? lower x))
unfolding covers
overlay_lem upper [] lower w e = (lower, unfold overlay in refl, refl, λ x. refl)
overlay_lem upper (r ∷ ranges) lower w e =
    let (mid, first, len, values) = overlay_range_lem upper r lower w.0 e in
    let (out, run, len', values') = overlay_lem upper ranges mid w.1 (omega arith) in
    (
      out,
      overlay_cons upper r ranges lower first ∙ run,
      len' ∙ len,
      λ x. ground (arith, values x, values' x),
    )
