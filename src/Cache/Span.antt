-- ===== src/Cache/Span.antt =====
-- Spans of a file's bytes, cut into blocks: the arithmetic of the loops of `Cache::write` and
-- `Cache::read` in client_src/cache.cpp.
use net_fs.Prelude.{
  ℕ, ◌+◌, ◌-◌, ◌*◌, ◌<◌, ◌≤◌, ◌≡◌, ◌≢◌, ◌⊎◌, inl, inr, ap, Bool, leb, ltb, ◌==◌, ==_iff, ◌&&◌,
  if◌then◌else◌, min, length, take, drop, List, get_elem?, get_elem?-take, get_elem?-drop, Option,
  arith, Bool-cases, true,
}

-- Whether `p` is one of the `n` positions from `start` on.
abbrev pub in_span : ℕ → ℕ → ℕ → Bool
in_span start n p = leb start p && ltb p (start + n)

-- Where the blocks `k` and `curr` of a file stand to each other.
abbrev pub Blocks : ℕ → ℕ → ℕ → ℕ → ℕ → Type 0
Blocks size curr k at_curr at_k =
    ((k ≡ curr) × (at_k ≡ at_curr))
    ⊎ ((k ≢ curr) × (at_k + size ≤ at_curr))
    ⊎ ((k ≢ curr) × (at_curr + size ≤ at_k))

pub blocks_apart : (size k curr : ℕ) → k < curr → k * size + size ≤ curr * size
blocks_apart size k curr h = grind arith

pub block_order : (size curr k : ℕ) → Blocks size curr k (curr * size) (k * size)
block_order size curr k = elim (Bool-cases (k == curr)) [
  | inl same ↦ let e : k ≡ curr = (==_iff k curr).0 same in inl (e, ap (λ (n : ℕ). n * size) e)
  | inr other ↦ elim (Bool-cases (ltb k curr)) [
    | inl before ↦ inr (inl (ground arith, blocks_apart size k curr (ground arith)))
    | inr after ↦ inr (inr (ground arith, blocks_apart size curr k (ground arith)))
  ]
]

-- The first block of a span and the span that is left are the whole span.
pub span_step :
    (size curr k x bstart n at_curr at_k : ℕ) (buf : List ℕ) (old : Option ℕ)
    → x < size
    → bstart < size
    → n ≡ min (size - bstart) (length buf)
    → Blocks size curr k at_curr at_k
    → (if in_span (at_curr + size) (length buf - n) (at_k + x)
        then get_elem? (drop n buf) (at_k + x - (at_curr + size))
        else if curr == k && in_span bstart n x
        then get_elem? (take n buf) (x - bstart)
        else old)
      ≡ (if in_span (at_curr + bstart) (length buf) (at_k + x)
          then get_elem? buf (at_k + x - (at_curr + bstart))
          else old)
span_step size curr k x bstart n at_curr at_k buf old h p e b =
    ground
      (arith, get_elem?-drop n buf (at_k + x - (at_curr + size)), get_elem?-take n buf (x - bstart))

-- A position of the span lies in what is left, or in the first block.
pub span_split :
    (size curr k x bstart n len at_curr at_k : ℕ)
    → x < size
    → bstart < size
    → n ≡ min (size - bstart) len
    → Blocks size curr k at_curr at_k
    → in_span (at_curr + bstart) len (at_k + x) ≡ true
    → (in_span (at_curr + size) (len - n) (at_k + x) ≡ true) ⊎ ((curr == k) ≡ true)
span_split size curr k x bstart n len at_curr at_k h p e b i = elim b [
  | inl (ek, _) ↦ inr (ground arith)
  | inr (inl (_, before)) ↦ absurd (ground arith)
  | inr (inr (_, after)) ↦ inl (ground arith)
]

-- Two changes of a file's bytes, one after the other, and their sum.
pub two_changes :
    (same in_rest same_block in_first in_all : Bool) (v' v₁ v a b d : Option ℕ)
    → v' ≡ (if same && in_rest then a else v₁)
    → v₁ ≡ (if (same && same_block) && in_first then b else v)
    → (if in_rest then a else if same_block && in_first then b else v) ≡ (if in_all then d else v)
    → v' ≡ (if same && in_all then d else v)
two_changes same in_rest same_block in_first in_all v' v₁ v a b d p q r = ground arith
