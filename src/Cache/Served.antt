-- ===== src/Cache/Served.antt =====
-- What a read of client_src/cache.cpp does to the cache, and the bytes that it gives.
use net_fs.Prelude.{
  ℕ, ◌+◌, ◌-◌, ◌*◌, ◌/◌, ◌%◌, ◌<◌, List, length, get_elem?, get_elem?_within, Option, none, some,
  nat_eq, string_eq, ◌≡◌, ◌⊎◌, refl, ap, sym, ◌∙◌, arith, inl, inr, true,
}
use net_fs.Cache.Contents.{or_else}
use net_fs.Cache.State.{Cache}
use net_fs.Cache.Valid.{IsValid, find_entry, view}
use net_fs.Cache.Store.{file_facts, find_entry-file}
use net_fs.Cache.WriteBlock.{dirty_at}
use net_fs.Cache.Span.{in_span}
use net_fs.Cache.ReadBlock.{Touched, full_at, full_at-entry, full_byte, view_at}
use net_fs.Cache.ReadLoop.{Gave, AllFull, Touched-view, Touched-full_at}
use net_fs.Cache.Fill.{Filling}
use net_fs.Cache.Written.{cached_byte, place}

-- A full block has a byte in every place.
full_at-view :
    (c : Cache) (f : List ℕ) (k x : ℕ)
    → IsValid c
    → full_at c f k ≡ true
    → x < c.block_size
    → (b : ℕ) × (view c f k x ≡ some b)
full_at-view c f k x v full h =
    let (fc, known, is_full, e, there, one) = full_at-entry c f k full in
    let at_place : find_entry c f k ≡ some e = find_entry-file c f k fc known ∙ there in
    let block = v.blocks f k e at_place in
    let (b, byte) = get_elem?_within e.content x (omega (arith, block.whole)) in
    (b, view_at c f k x e at_place ∙ full_byte c.block_size e x block one ∙ byte)

-- A byte of a full block is the one of before, or the server's.
filled_byte :
    (a d : Option ℕ) (b r : ℕ)
    → d ≡ some b
    → (d ≡ a) ⊎ ((a ≡ none) × (d ≡ some r))
    → d ≡ or_else a (some r)
filled_byte none d b r h (inl e) = absurd (let n = sym h ∙ e in cc)
filled_byte (some a) d b r h (inl e) = e
filled_byte a d b r h (inr (e, k)) = k ∙ ap (λ (o : Option ℕ). or_else o (some r)) (sym e)

-- The cache `c'` is `c` after a read: some bytes of the server are in it, and the usage list may
-- have another order.
pub record Served (remote : List ℕ → ℕ → ℕ) (c c' : Cache) : Type 0 where
  pub valid : IsValid c'
  pub same_size : c'.block_size ≡ c.block_size
  pub same_facts : (g : List ℕ) → file_facts c' g ≡ file_facts c g
  pub same_dirt : (g : List ℕ) (k : ℕ) → dirty_at c' g k ≡ dirty_at c g k
  pub kept :
      (g : List ℕ) (pos : ℕ)
      → (cached_byte c' g pos ≡ cached_byte c g pos)
        ⊎ ((cached_byte c g pos ≡ none) × (cached_byte c' g pos ≡ some (remote g pos)))

kept_places :
    (remote : List ℕ → ℕ → ℕ) (c c' : Cache)
    → Filling remote c c'
    → 0 < c.block_size
    → (g : List ℕ) (pos : ℕ)
    → (cached_byte c' g pos ≡ cached_byte c g pos)
      ⊎ ((cached_byte c g pos ≡ none) × (cached_byte c' g pos ≡ some (remote g pos)))
unfolding cached_byte
kept_places remote c c' s positive g pos =
    let (at_pos, inner) = place c.block_size pos positive in
    let number : view c' g (pos / c'.block_size) (pos % c'.block_size)
        ≡ view c' g (pos / c.block_size) (pos % c.block_size) =
      ap (λ (n : ℕ). view c' g (pos / n) (pos % n)) s.same_size in
    let moved : some (remote g (pos / c.block_size * c.block_size + pos % c.block_size))
        ≡ some (remote g pos) =
      ap (λ (p : ℕ). some (remote g p)) at_pos in
    elim (s.kept g (pos / c.block_size) (pos % c.block_size) inner) [
      | inl same ↦ inl (number ∙ same)
      | inr (miss, hit) ↦ inr (miss, number ∙ hit ∙ moved)
    ]

pub Touched-Filling : (remote : List ℕ → ℕ → ℕ) {c c' : Cache} → Touched c c' → Filling remote c c'
unfolding file_facts dirty_at find_entry
Touched-Filling remote {c} {c'} t = record {
  valid = t.valid;
  same_size = t.same_size;
  same_facts = λ g. rw t.same_map refl;
  same_dirt = λ g k. rw t.same_map refl;
  stays_full = λ g k h. Touched-full_at t g k ∙ h;
  kept = λ g k x h. inl (Touched-view t g k x);
}

pub Filling-Served :
    (remote : List ℕ → ℕ → ℕ) (c c' : Cache)
    → Filling remote c c'
    → 0 < c.block_size
    → Served remote c c'
Filling-Served remote c c' s positive = record {
  valid = s.valid;
  same_size = s.same_size;
  same_facts = s.same_facts;
  same_dirt = s.same_dirt;
  kept = kept_places remote c c' s positive;
}

-- The bytes of a span of a file: those that the cache has, and the server's for the others.
abbrev pub Bytes : (List ℕ → ℕ → ℕ) → Cache → List ℕ → ℕ → ℕ → List ℕ → Type 0
Bytes remote c f offset size bytes =
    (length bytes ≡ size)
    × ((pos : ℕ)
        → in_span offset size pos ≡ true
        → get_elem? bytes (pos - offset) ≡ or_else (cached_byte c f pos) (some (remote f pos)))

-- What the loop gives after the blocks have been filled.
pub Gave-Bytes :
    (remote : List ℕ → ℕ → ℕ) (c c₁ c' : Cache) (f : List ℕ) (offset size : ℕ) (bytes : List ℕ)
    → 0 < c.block_size
    → Filling remote c c₁
    → AllFull c₁ f offset size
    → Gave c₁ c' f offset size bytes
    → Bytes remote c f offset size bytes
unfolding cached_byte
Gave-Bytes remote c c₁ c' f offset size bytes positive s full gave = (
  gave.len,
  λ pos i.
      let (at_pos, inner) = place c₁.block_size pos s.valid.positive in
      let k : ℕ = pos / c₁.block_size in
      let x : ℕ = pos % c₁.block_size in
      let here : in_span offset size (k * c₁.block_size + x) ≡ true =
        ap (in_span offset size) at_pos ∙ i in
      let given : get_elem? bytes (pos - offset) ≡ view c₁ f k x =
        ap (λ (p : ℕ). get_elem? bytes (p - offset)) (sym at_pos) ∙ gave.given k x inner here in
      let (b, byte) = full_at-view c₁ f k x s.valid (full k x inner here) inner in
      given
      ∙ filled_byte (cached_byte c f pos) (view c₁ f k x) b (remote f pos) byte
          (kept_places remote c c₁ s positive f pos),
)
