-- ===== src/Cache/ReadLoop.antt =====
-- The loop of `Cache::read` in client_src/cache.cpp, over blocks that are in the cache as a whole.
use net_fs.Prelude.{
  ℕ, zero, suc, ◌+◌, ◌-◌, ◌*◌, ◌<◌, ◌≤◌, ◌>>=◌, min, List, [], ◌++◌, length, get_elem?, ltb, Option,
  ok, ◌≡◌, refl, ap, sym, subst, ◌∙◌, arith, inl, inr, true, false, get_elem?-append, length-append,
}
use net_fs.Cache.State.{Cache}
use net_fs.Cache.Blocks.{read_block, is_full_block}
use net_fs.Cache.Valid.{IsValid, find_entry, view}
use net_fs.Cache.Span.{Blocks, in_span, block_order}
use net_fs.Cache.ReadBlock.{Touched, full_at, read_block_lem}
use net_fs.Cache.Ops.{read_loop}

pub Touched-trans : {c d e : Cache} → Touched c d → Touched d e → Touched c e
Touched-trans s t = record {
  valid = t.valid;
  same_map = t.same_map ∙ s.same_map;
  same_size = t.same_size ∙ s.same_size;
}

pub Touched-view :
    {c c' : Cache} → Touched c c' → (g : List ℕ) (k x : ℕ) → view c' g k x ≡ view c g k x
unfolding view find_entry
Touched-view t g k x = rw t.same_map refl

pub Touched-full_at :
    {c c' : Cache} → Touched c c' → (g : List ℕ) (k : ℕ) → full_at c' g k ≡ full_at c g k
unfolding full_at is_full_block
Touched-full_at t g k = rw (t.same_map, t.same_size) refl

-- The bytes of the span of a file that starts at `start`, as the cache `c` holds them.
pub record Gave (c c' : Cache) (f : List ℕ) (start left : ℕ) (bytes : List ℕ) : Type 0 where
  pub touched : Touched c c'
  pub len : length bytes ≡ left
  pub given :
      (k x : ℕ)
      → x < c.block_size
      → in_span start left (k * c.block_size + x) ≡ true
      → get_elem? bytes (k * c.block_size + x - start) ≡ view c f k x

abbrev pub AllFull : Cache → List ℕ → ℕ → ℕ → Type 0
AllFull c f start left =
    (k x : ℕ)
    → x < c.block_size
    → in_span start left (k * c.block_size + x) ≡ true
    → full_at c f k ≡ true

-- A position of the span is read with the first block, or with the rest.
read_step :
    (size curr k x bstart n left at_curr at_k : ℕ) (first rest : List ℕ) (b : Option ℕ)
    → x < size
    → bstart < size
    → n ≡ min (size - bstart) left
    → Blocks size curr k at_curr at_k
    → in_span (at_curr + bstart) left (at_k + x) ≡ true
    → length first ≡ n
    → (k ≡ curr → bstart ≤ x → x < bstart + n → get_elem? first (x - bstart) ≡ b)
    → (in_span (at_curr + size) (left - n) (at_k + x) ≡ true
        → get_elem? rest (at_k + x - (at_curr + size)) ≡ b)
    → get_elem? (first ++ rest) (at_k + x - (at_curr + bstart)) ≡ b
read_step size curr k x bstart n left at_curr at_k first rest b h p e order i len at_first at_rest =
    let both = get_elem?-append first rest (at_k + x - (at_curr + bstart)) in
    elim order [
      | inl (ek, at_same) ↦
          let place : at_k + x - (at_curr + bstart) ≡ x - bstart = omega arith in
          let inner : ltb (at_k + x - (at_curr + bstart)) (length first) ≡ true = ground arith in
          both ∙ rw inner (ap (get_elem? first) place ∙ at_first ek (ground arith) (ground arith))
      | inr (inl (_, before)) ↦ absurd (ground arith)
      | inr (inr (_, after)) ↦
          let beyond : ltb (at_k + x - (at_curr + bstart)) (length first) ≡ false = ground arith in
          let place : at_k + x - (at_curr + bstart) - length first ≡ at_k + x - (at_curr + size) =
            ground arith in
          both ∙ rw beyond (ap (get_elem? rest) place ∙ at_rest (ground arith))
    ]

Gave-nothing : (c : Cache) (f : List ℕ) (start : ℕ) → IsValid c → Gave c c f start 0 []
Gave-nothing c f start v = record {
  touched = record { valid = v; same_map = refl; same_size = refl };
  len = refl;
  given = λ k x h i. absurd (ground arith);
}

Gave-step :
    (c c₁ c' : Cache) (f : List ℕ) (curr bstart n left : ℕ) (first rest : List ℕ)
    → bstart < c.block_size
    → n ≡ min (c.block_size - bstart) left
    → Touched c c₁
    → length first ≡ n
    → ((x : ℕ) → bstart ≤ x → x < bstart + n → get_elem? first (x - bstart) ≡ view c f curr x)
    → Gave c₁ c' f (curr * c.block_size + c.block_size) (left - n) rest
    → Gave c c' f (curr * c.block_size + bstart) left (first ++ rest)
unfolding view find_entry
Gave-step c c₁ c' f curr bstart n left first rest h e t len bytes s = record {
  touched = Touched-trans t s.touched;
  len = omega (arith, length-append first rest, s.len);
  given = λ k x inner i.
      read_step c.block_size curr k x bstart n left (curr * c.block_size) (k * c.block_size) first
        rest (view c f k x) inner h e (block_order c.block_size curr k) i len
        (λ ek low high. bytes x low high ∙ ap (λ (m : ℕ). view c f m x) (sym ek))
        (λ i'.
          rw t.same_size at (s.given k x (rw t.same_size inner) (rw t.same_size i'))
          ∙ Touched-view t f k x);
}

read_loop_more :
    (fuel : ℕ) (c c₁ c' : Cache) (f : List ℕ) (curr bstart left : ℕ) (first rest : List ℕ)
    → read_block f curr bstart (min (c.block_size - bstart) (suc left)) c ≡ ok (first, c₁)
    → read_loop fuel f (curr + 1) 0 (suc left - min (c.block_size - bstart) (suc left)) c₁
      ≡ ok (rest, c')
    → read_loop (suc fuel) f curr bstart (suc left) c ≡ ok (first ++ rest, c')
unfolding read_loop
read_loop_more fuel c c₁ c' f curr bstart left first rest run more = rw (run, ◌>>=◌, more) refl

-- The first byte of a span.
first_full :
    (c : Cache) (f : List ℕ) (curr bstart left : ℕ)
    → bstart < c.block_size
    → AllFull c f (curr * c.block_size + bstart) (suc left)
    → full_at c f curr ≡ true
first_full c f curr bstart left h full = full curr bstart h (ground arith)

span_rest :
    (size bstart n left at_curr p : ℕ)
    → bstart < size
    → n ≡ min (size - bstart) left
    → in_span (at_curr + size) (left - n) p ≡ true
    → in_span (at_curr + bstart) left p ≡ true
span_rest size bstart n left at_curr p h e i = ground arith

rest_full :
    (c c₁ : Cache) (f : List ℕ) (curr bstart n left : ℕ)
    → bstart < c.block_size
    → n ≡ min (c.block_size - bstart) left
    → Touched c c₁
    → AllFull c f (curr * c.block_size + bstart) left
    → AllFull c₁ f (curr * c.block_size + c.block_size) (left - n)
rest_full c c₁ f curr bstart n left h e t full k x inner i =
    Touched-full_at t f k
    ∙ full k x (rw t.same_size at inner) (
        span_rest c.block_size bstart n left (curr * c.block_size) (k * c.block_size + x) h e
          (rw t.same_size at i))

-- The loop ends within its fuel and gives the cached bytes of the whole span.
pub read_loop_lem :
    (fuel : ℕ) (c : Cache) (f : List ℕ) (curr bstart left : ℕ)
    → IsValid c
    → bstart < c.block_size
    → left ≤ fuel
    → AllFull c f (curr * c.block_size + bstart) left
    → (bytes : List ℕ) × (c' : Cache) × (read_loop fuel f curr bstart left c ≡ ok (bytes, c'))
      × Gave c c' f (curr * c.block_size + bstart) left bytes
unfolding read_loop
read_loop_lem zero c f curr bstart zero v h enough full = ([], c, refl, Gave-nothing c f _ v)
read_loop_lem (suc fuel) c f curr bstart zero v h enough full = ([], c, refl, Gave-nothing c f _ v)
read_loop_lem zero c f curr bstart (suc left) v h enough full = absurd (omega arith)
read_loop_lem (suc fuel) c f curr bstart (suc left) v h enough full =
    let n : ℕ = min (c.block_size - bstart) (suc left) in
    let (first, c₁, run, t, len, bytes) =
      read_block_lem c f curr bstart n v (omega arith) (first_full c f curr bstart left h full) in
    let next : (curr + 1) * c₁.block_size + 0 ≡ curr * c.block_size + c.block_size =
      omega (arith, ap (λ (m : ℕ). curr * m) t.same_size) in
    let (rest, c', more, s) =
      read_loop_lem fuel c₁ f (curr + 1) 0 (suc left - n) t.valid (omega (arith, t.valid.positive))
        (omega arith)
        (subst {A = ℕ} (λ p. AllFull c₁ f p (suc left - n)) (sym next)
          (rest_full c c₁ f curr bstart n (suc left) h refl t full)) in
    (
      first ++ rest,
      c',
      read_loop_more fuel c c₁ c' f curr bstart left first rest run more,
      Gave-step c c₁ c' f curr bstart n (suc left) first rest h refl t len bytes
          (subst {A = ℕ} (λ p. Gave c₁ c' f p (suc left - n) rest) next s),
    )
