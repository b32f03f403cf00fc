-- ===== src/Cache/Usage.antt =====
-- `std::list` with iterators that stay on their nodes, as `_recent_list` of client_src/cache.hpp.
use net_fs.Prelude.{
  ℕ, suc, List, [], ◌∷◌, ◌++◌, length, none, some, ◌==◌, ==_iff, if◌then◌else◌, ok, ◌≡◌, refl, ap,
  ◌∙◌, arith, Bool-cases, inl, inr,
}
use net_fs.Cache.State.{Use}
use net_fs.Cache.Blocks.{erase_use, find_use}

-- No two nodes of the list have one number.
abbrev pub Distinct : List Use → Type 0
Distinct [] = Unit
Distinct (u ∷ us) = (find_use u.node us ≡ none) × Distinct us

pub find_use-node : (node : ℕ) (us : List Use) (u : Use) → find_use node us ≡ some u → u.node ≡ node
unfolding find_use
find_use-node node [] u h = absurd (cc)
find_use-node node (v ∷ us) u h = ground (arith, find_use-node node us u)

-- An iterator that is on a node of the list can be erased, and the other nodes stay.
pub erase_use_lem :
    (node : ℕ) (us : List Use) (u : Use)
    → Distinct us
    → find_use node us ≡ some u
    → (rest : List Use) × (erase_use node us ≡ ok rest)
      × Distinct rest
      × ((m : ℕ) → find_use m rest ≡ (if node == m then none else find_use m us))
      × (suc (length rest) ≡ length us)
unfolding find_use erase_use
erase_use_lem node [] u d h = absurd (cc)
erase_use_lem node (v ∷ us) u d h = elim (Bool-cases (v.node == node)) [
  | inl here ↦
      let e : v.node ≡ node = (==_iff v.node node).0 here in
      (us, rw (here, erase_use) refl, d.1, λ m. ground (arith, d.0), refl)
  | inr there ↦
      let (rest, run, d', found, len) = erase_use_lem node us u d.1 (ground arith) in
      (
        v ∷ rest,
        rw (there, run, erase_use) refl,
        (ground (arith, found v.node, d.0), d'),
        λ m. ground (arith, found m),
        ap suc len,
      )
]

pub find_use-append :
    (us : List Use) (u : Use) (m : ℕ)
    → find_use m us ≡ none
    → find_use m (us ++ u ∷ []) ≡ (if u.node == m then some u else none)
unfolding find_use
find_use-append [] u m h = refl
find_use-append (v ∷ us) u m h = ground (arith, find_use-append us u m)

pub find_use-append_found :
    (us : List Use) (u v : Use) (m : ℕ)
    → find_use m us ≡ some v
    → find_use m (us ++ u ∷ []) ≡ some v
unfolding find_use
find_use-append_found [] u v m h = absurd (cc)
find_use-append_found (w ∷ us) u v m h = ground (arith, find_use-append_found us u v m)

pub Distinct-append :
    (us : List Use) (u : Use) → Distinct us → find_use u.node us ≡ none → Distinct (us ++ u ∷ [])
unfolding find_use
Distinct-append [] u d h = (refl, tt)
Distinct-append (v ∷ us) u d h =
    (find_use-append us u v.node d.0 ∙ ground arith, Distinct-append us u d.1 (ground arith))
