-- ===== src/Cache/Write.antt =====
-- `Cache::write` of client_src/cache.cpp: what the cache holds after a write.
use net_fs.Prelude.{
  ℕ, zero, suc, ◌+◌, ◌-◌, ◌*◌, ◌<◌, ◌≤◌, min, List, [], ◌∷◌, length, take, drop, get_elem?, some,
  ◌==◌, str_eq, str_eq_iff, nat_eq, string_eq, ◌&&◌, if◌then◌else◌, find, ok, ◌≡◌, refl, ap, subst,
  ◌∙◌, arith, Option-cases, inl, inr, true, length-take, length-drop,
}
use net_fs.Cache.State.{FileCache, Cache}
use net_fs.Cache.Blocks.{write_block}
use net_fs.Cache.Valid.{IsValid, find_entry, view}
use net_fs.Cache.Store.{file_facts}
use net_fs.Cache.WriteBlock.{Wrote, dirty_at, write_block_lem}
use net_fs.Cache.Span.{in_span, span_step, span_split, two_changes, block_order}
use net_fs.Cache.Ops.{write_loop}

-- The cache `c'` is `c` with `buf` written into a file from the position `start` on.
pub record Spread (c c' : Cache) (f : List ℕ) (start : ℕ) (buf : List ℕ) : Type 0 where
  pub valid : IsValid c'
  pub same_size : c'.block_size ≡ c.block_size
  pub same_facts : (g : List ℕ) → file_facts c' g ≡ file_facts c g
  pub bytes :
      (g : List ℕ) (k x : ℕ)
      → x < c.block_size
      → view c' g k x ≡ (
          if str_eq f g && in_span start (length buf) (k * c.block_size + x)
          then get_elem? buf (k * c.block_size + x - start)
          else view c g k x)
  pub stays_dirty : (g : List ℕ) (k : ℕ) → dirty_at c g k ≡ true → dirty_at c' g k ≡ true
  pub becomes_dirty :
      (k x : ℕ)
      → x < c.block_size
      → in_span start (length buf) (k * c.block_size + x) ≡ true
      → dirty_at c' f k ≡ true

file_facts-find :
    (c c' : Cache) (g : List ℕ) (fc : FileCache)
    → file_facts c' g ≡ file_facts c g
    → find g c.file_map ≡ some fc
    → (fc' : FileCache) × (find g c'.file_map ≡ some fc')
file_facts-find c c' g fc facts h = elim (Option-cases (find g c'.file_map)) [
  | inl miss ↦ absurd (unfold file_facts in ground arith)
  | inr found ↦ found
]

Spread-refl : (c : Cache) (f : List ℕ) (start : ℕ) → IsValid c → Spread c c f start []
Spread-refl c f start v = record {
  valid = v;
  same_size = refl;
  same_facts = λ g. refl;
  bytes = λ g k x h. ground arith;
  stays_dirty = λ g k h. h;
  becomes_dirty = λ k x h i. absurd (ground arith);
}

-- The first block and what follows it.
Spread-step :
    (c c₁ c' : Cache) (f : List ℕ) (curr bstart n : ℕ) (buf : List ℕ)
    → bstart < c.block_size
    → n ≡ min (c.block_size - bstart) (length buf)
    → Wrote c c₁ f curr bstart (take n buf)
    → Spread c₁ c' f (curr * c.block_size + c.block_size) (drop n buf)
    → Spread c c' f (curr * c.block_size + bstart) buf
unfolding view find_entry
Spread-step c c₁ c' f curr bstart n buf h e w s =
    let len : length (take n buf) ≡ n = omega (arith, length-take n buf) in
    let left : length (drop n buf) ≡ length buf - n = omega (arith, length-drop n buf) in
    record {
      valid = s.valid;
      same_size = s.same_size ∙ w.same_size;
      same_facts = λ g. s.same_facts g ∙ w.same_facts g;
      bytes = λ g k x inner.
          let order = block_order c.block_size curr k in
          let step =
            span_step c.block_size curr k x bstart n (curr * c.block_size) (k * c.block_size) buf
              (view c g k x) inner h e order in
          let rest = rw (w.same_size, left) at (s.bytes g k x (rw w.same_size inner)) in
          let first = rw len at (w.bytes g k x) in
          two_changes (str_eq f g) _ (curr == k) _ _ _ (view c₁ g k x) (view c g k x) _ _ _ rest
            first step;
      stays_dirty = λ g k d. s.stays_dirty g k (ground (arith, w.dirt g k));
      becomes_dirty = λ k x inner i.
          let order = block_order c.block_size curr k in
          elim (span_split c.block_size curr k x bstart n (length buf) (curr * c.block_size)
            (k * c.block_size) inner h e order i) [
              | inl rest ↦ s.becomes_dirty k x (rw w.same_size inner) (rw (w.same_size, left) rest)
              | inr first ↦
                  s.stays_dirty f k (w.dirt f k ∙ rw (first, (str_eq_iff f f).1 refl) refl)
            ];
    }

write_loop_cons :
    (fuel : ℕ) (c c₁ c' : Cache) (f : List ℕ) (curr bstart y : ℕ) (ys : List ℕ)
    → write_block f curr bstart (take (min (c.block_size - bstart) (length (y ∷ ys))) (y ∷ ys)) c
      ≡ ok c₁
    → write_loop fuel f
        (curr + 1)
        0
        (drop (min (c.block_size - bstart) (length (y ∷ ys))) (y ∷ ys))
        c₁
      ≡ ok c'
    → write_loop (suc fuel) f curr bstart (y ∷ ys) c ≡ ok c'
unfolding write_loop
write_loop_cons fuel c c₁ c' f curr bstart y ys run rest = rw run rest

-- The loop ends within its fuel, without a failed assertion, and writes the whole buffer.
pub write_loop_lem :
    (fuel : ℕ) (c : Cache) (f : List ℕ) (curr bstart : ℕ) (buf : List ℕ) (fc : FileCache)
    → IsValid c
    → find f c.file_map ≡ some fc
    → bstart < c.block_size
    → length buf ≤ fuel
    → (c' : Cache) × (write_loop fuel f curr bstart buf c ≡ ok c')
      × Spread c c' f (curr * c.block_size + bstart) buf
unfolding write_loop
write_loop_lem zero c f curr bstart [] fc v known h enough = (c, refl, Spread-refl c f _ v)
write_loop_lem (suc fuel) c f curr bstart [] fc v known h enough = (c, refl, Spread-refl c f _ v)
write_loop_lem zero c f curr bstart (y ∷ ys) fc v known h enough = absurd (omega arith)
write_loop_lem (suc fuel) c f curr bstart (y ∷ ys) fc v known h enough =
    let buf : List ℕ = y ∷ ys in
    let n : ℕ = min (c.block_size - bstart) (length buf) in
    let len : length (take n buf) ≡ n = omega (arith, length-take n buf) in
    let (c₁, run, w) =
      write_block_lem c f curr bstart (take n buf) fc v known (omega arith) (omega arith) in
    let (fc₁, known₁) = file_facts-find c c₁ f fc (w.same_facts f) known in
    let (c', rest, s) =
      write_loop_lem fuel c₁ f (curr + 1) 0 (drop n buf) fc₁ w.valid known₁
        (omega (arith, w.valid.positive)) (omega (arith, length-drop n buf)) in
    let next : (curr + 1) * c₁.block_size + 0 ≡ curr * c.block_size + c.block_size =
      omega (arith, ap (λ (m : ℕ). curr * m) w.same_size) in
    (
      c',
      write_loop_cons fuel c c₁ c' f curr bstart y ys run rest,
      Spread-step c c₁ c' f curr bstart n buf h refl w
          (subst {A = ℕ} (λ p. Spread c₁ c' f p (drop n buf)) next s),
    )
