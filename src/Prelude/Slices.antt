-- ===== src/Prelude/Slices.antt =====
-- What `get_elem?` finds in the parts of lists that `take`, `drop` and `++` make.
use Prim.Native.Nat.{ℕ, zero, suc, ◌+◌, ◌-◌, ◌≤◌, ◌<◌}
use mathlib.Core.Path.{◌≡◌, refl, ap, ◌∙◌}
use mathlib.Core.List.{List, [], ◌∷◌, ◌++◌}
use mathlib.Core.Bool.{◌&&◌}
use mathlib.Core.Option.{none, some}
use native.Mathlib.Omega.{arith}
use net_fs.Prelude.Tests.{ltb, leb, if◌then◌else◌}
use net_fs.Prelude.Lists.{length, get_elem?, take, drop, length-append, length-take, length-drop}

-- At level 0, where `ground` splits on numbers.
module _ {A : Type 0} where
  pub get_elem?-append :
      (xs ys : List A) (i : ℕ)
      → get_elem? (xs ++ ys) i
        ≡ (if ltb i (length xs) then get_elem? xs i else get_elem? ys (i - length xs))
  get_elem?-append [] ys i = ground arith
  get_elem?-append (x ∷ xs) ys zero = ground arith
  get_elem?-append (x ∷ xs) ys (suc i) = get_elem?-append xs ys i ∙ ground arith

  pub get_elem?-take :
      (n : ℕ) (xs : List A) (i : ℕ)
      → get_elem? (take n xs) i ≡ (if ltb i n then get_elem? xs i else none)
  get_elem?-take zero xs i = ground arith
  get_elem?-take (suc n) [] i = ground arith
  get_elem?-take (suc n) (x ∷ xs) zero = ground arith
  get_elem?-take (suc n) (x ∷ xs) (suc i) = get_elem?-take n xs i ∙ ground arith

  pub get_elem?-drop :
      (n : ℕ) (xs : List A) (i : ℕ) → get_elem? (drop n xs) i ≡ get_elem? xs (n + i)
  get_elem?-drop zero xs i = ap (get_elem? xs) (omega arith)
  get_elem?-drop (suc n) [] i = refl
  get_elem?-drop (suc n) (x ∷ xs) i =
      let e : suc n + i ≡ suc (n + i) = omega arith in get_elem?-drop n xs i ∙ rw e refl

  pub get_elem?_beyond : (xs : List A) (i : ℕ) → length xs ≤ i → get_elem? xs i ≡ none
  get_elem?_beyond [] i h = refl
  get_elem?_beyond (x ∷ xs) zero h = absurd (omega arith)
  get_elem?_beyond (x ∷ xs) (suc i) h = get_elem?_beyond xs i (omega arith)

  pub get_elem?_within : (xs : List A) (i : ℕ) → i < length xs → (v : A) × (get_elem? xs i ≡ some v)
  get_elem?_within [] i h = elim h [ ]
  get_elem?_within (x ∷ xs) zero h = (x, refl)
  get_elem?_within (x ∷ xs) (suc i) h = get_elem?_within xs i (omega arith)

  -- `buf` put over a part of `xs`.
  pub length-splice :
      (n : ℕ) (buf xs : List A)
      → n + length buf ≤ length xs
      → length (take n xs ++ (buf ++ drop (n + length buf) xs)) ≡ length xs
  length-splice n buf xs h = omega (
    arith,
    length-append (take n xs) (buf ++ drop (n + length buf) xs),
    length-append buf (drop (n + length buf) xs),
    length-take n xs,
    length-drop (n + length buf) xs,
  )

  pub get_elem?-splice :
      (n : ℕ) (buf xs : List A) (i : ℕ)
      → n + length buf ≤ length xs
      → get_elem? (take n xs ++ (buf ++ drop (n + length buf) xs)) i
        ≡ (if leb n i && ltb i (n + length buf) then get_elem? buf (i - n) else get_elem? xs i)
  get_elem?-splice n buf xs i h =
      let rest : List A = drop (n + length buf) xs in
      let len : length (take n xs) ≡ n = omega (arith, length-take n xs) in
      get_elem?-append (take n xs) (buf ++ rest) i
      ∙ rw len (
          ground (
            arith,
            get_elem?-take n xs i,
            get_elem?-append buf rest (i - n),
            get_elem?-drop (n + length buf) xs (i - n - length buf),
          ))
