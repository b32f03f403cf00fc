-- ===== src/Cache/FetchBlock.antt =====
-- The loop of `cacheBlocks` in client_src/cache.cpp that puts what was fetched into the blocks.
use net_fs.Prelude.{
  ℕ, zero, suc, ◌+◌, ◌*◌, ◌<◌, ◌≤◌, ◌>>=◌, List, length, take, drop, get_elem?, ltb, Option, none,
  some, ◌==◌, ==_iff, str_eq_iff, nat_eq, string_eq, find, at-find, ok, ◌≡◌, refl, ap, sym, subst,
  ◌∙◌, arith, Bool-cases, Option-cases, inl, inr, true, false, length-take, length-drop,
  get_elem?-take, get_elem?-drop,
}
use net_fs.Cache.Entry.{CacheEntry, State, clean, dirty, empty_entry, entry_fetch, is_dirty}
use net_fs.Cache.Contents.{
  byte_at, or_else, entry_fetch_lem, empty_entry-IsBlock, byte_at-empty_entry,
}
use net_fs.Cache.State.{FileCache, Cache}
use net_fs.Cache.Blocks.{set_entry, new_entry}
use net_fs.Cache.Valid.{IsValid, find_entry, view, same_place}
use net_fs.Cache.Store.{file_facts, find_entry-file, set_entry-Stored, new_entry-Stored}
use net_fs.Cache.WriteBlock.{view_absent, Stored-find, Stored-trans}
use net_fs.Cache.ReadBlock.{full_at, view_at}
use net_fs.Cache.Fill.{
  Filling, Filling-refl, Filling-trans, Filling-Stored, dirty_nowhere, dirty_here,
}
use net_fs.Cache.Ops.{fetch_block, fill_blocks}

-- What the server has of a block.
abbrev pub Holds : (List ℕ → ℕ → ℕ) → List ℕ → ℕ → ℕ → List ℕ → Type 0
Holds remote f start n buf =
    (length buf ≡ n) × ((i : ℕ) → i < n → get_elem? buf i ≡ some (remote f (start + i)))

same_state : (d e : CacheEntry) → e.state ≡ d.state → is_dirty e ≡ is_dirty d
same_state d e h = ap (λ (q : State). elim q [ dirty ↦ true | clean ↦ false ]) h

new_clean : (n node : ℕ) → is_dirty (empty_entry n node) ≡ false
unfolding empty_entry
new_clean n node = refl

module _ (remote : List ℕ → ℕ → ℕ) (c : Cache) (f : List ℕ) (b : ℕ) (block : List ℕ)
    (fc : FileCache) (v : IsValid c) (known : find f c.file_map ≡ some fc)
    (fetched : Holds remote f (b * c.block_size) c.block_size block) where
  fetch_block_found :
      (e e' : CacheEntry) (c' : Cache)
      → find b fc.entries ≡ some e
      → entry_fetch block e ≡ ok e'
      → set_entry f b e' c ≡ ok c'
      → fetch_block f b block c ≡ ok c'
  unfolding fetch_block
  fetch_block_found e e' c' there run set = rw (at-find f c.file_map known, ◌>>=◌, there, run) set

  fetch_block_made :
      (e e' : CacheEntry) (c₁ c' : Cache)
      → find b fc.entries ≡ none
      → new_entry f b c ≡ ok (e, c₁)
      → entry_fetch block e ≡ ok e'
      → set_entry f b e' c₁ ≡ ok c'
      → fetch_block f b block c ≡ ok c'
  unfolding fetch_block
  fetch_block_made e e' c₁ c' absent made run set =
      rw (at-find f c.file_map known, ◌>>=◌, absent, made, run) set

  from_server :
      (a d : Option ℕ) (x : ℕ)
      → d ≡ or_else a (get_elem? block x)
      → x < c.block_size
      → d ≡ or_else a (some (remote f (b * c.block_size + x)))
  from_server a d x byte inner = byte ∙ ap (or_else a) (fetched.1 x inner)

  fetch_existing :
      (e : CacheEntry)
      → find b fc.entries ≡ some e
      → (c' : Cache) × (fetch_block f b block c ≡ ok c')
        × Filling remote c c'
        × (full_at c' f b ≡ true)
  fetch_existing e there =
      let old : find_entry c f b ≡ some e = find_entry-file c f b fc known ∙ there in
      let (e', run, ok_block, state, kept, whole, bytes) =
        entry_fetch_lem c.block_size block e v.positive (v.blocks f b e old) fetched.0 in
      let (c', set, st) = set_entry-Stored c f b fc e e' v known there ok_block kept in
      let (filling, full) =
        Filling-Stored remote c c' f b e' st whole
          (same_state e e' state ∙ sym (dirty_here c f b e old))
          (λ x inner.
            from_server (view c f b x) (byte_at e' x) x
              (bytes x
                ∙ ap (λ (a : Option ℕ). or_else a (get_elem? block x))
                    (sym (view_at c f b x e old)))
              inner) in
      (c', fetch_block_found e e' c' there run set, filling, full)

  fetch_new :
      find b fc.entries ≡ none
      → (c' : Cache) × (fetch_block f b block c ≡ ok c')
        × Filling remote c c'
        × (full_at c' f b ≡ true)
  fetch_new absent =
      let e : CacheEntry = empty_entry c.block_size c.next_node in
      let nowhere : find_entry c f b ≡ none = find_entry-file c f b fc known ∙ absent in
      let (c₁, made, st) = new_entry-Stored c f b fc v known absent in
      let (e', run, ok_block, state, kept, whole, bytes) =
        entry_fetch_lem c.block_size block e v.positive
          (empty_entry-IsBlock c.block_size c.next_node) fetched.0 in
      let (fc₁, known₁) = Stored-find f st known in
      let here : same_place f b f b ≡ true = ground (arith, str_eq_iff f f) in
      let there : find b fc₁.entries ≡ some e =
        sym (find_entry-file c₁ f b fc₁ known₁) ∙ st.now f b ∙ rw here refl in
      let (c', set, st') =
        set_entry-Stored c₁ f b fc₁ e e' st.valid known₁ there (rw st.same_size ok_block) kept in
      let (filling, full) =
        Filling-Stored remote c c' f b e' (Stored-trans st st') whole
          (same_state e e' state
            ∙ new_clean c.block_size c.next_node
            ∙ sym (dirty_nowhere c f b nowhere))
          (λ x inner.
            from_server (view c f b x) (byte_at e' x) x
              (bytes x
                ∙ rw (byte_at-empty_entry c.block_size c.next_node x, view_absent c f b x nowhere)
                    refl)
              inner) in
      (c', fetch_block_made e e' c₁ c' absent made run set, filling, full)

  -- A block of the server's bytes fills the block of the cache.
  pub fetch_block_lem :
      (c' : Cache) × (fetch_block f b block c ≡ ok c')
      × Filling remote c c'
      × (full_at c' f b ≡ true)
  fetch_block_lem = elim (Option-cases (find b fc.entries)) [
    | inl absent ↦ fetch_new absent
    | inr (e, there) ↦ fetch_existing e there
  ]

pub Filling-find :
    {remote : List ℕ → ℕ → ℕ} {c c' : Cache} {fc : FileCache} (g : List ℕ)
    → Filling remote c c'
    → find g c.file_map ≡ some fc
    → (fc' : FileCache) × (find g c'.file_map ≡ some fc')
Filling-find {remote} {c} {c'} g s h =
    let facts = s.same_facts g in
    elim (Option-cases (find g c'.file_map)) [
      | inl miss ↦ absurd (unfold file_facts in ground arith)
      | inr found ↦ found
    ]

-- What is fetched for some blocks is what is fetched for the first one, and for the others.
Holds-first :
    (remote : List ℕ → ℕ → ℕ) (f : List ℕ) (start size more : ℕ) (buf : List ℕ)
    → Holds remote f start (size + more) buf
    → Holds remote f start size (take size buf)
Holds-first remote f start size more buf (len, bytes) = (
  omega (arith, length-take size buf),
  λ i h.
      let inner : ltb i size ≡ true = ground arith in
      get_elem?-take size buf i ∙ rw inner (bytes i (omega arith)),
)

Holds-rest :
    (remote : List ℕ → ℕ → ℕ) (f : List ℕ) (start size more : ℕ) (buf : List ℕ)
    → Holds remote f start (size + more) buf
    → Holds remote f (start + size) more (drop size buf)
Holds-rest remote f start size more buf (len, bytes) = (
  omega (arith, length-drop size buf),
  λ i h.
      get_elem?-drop size buf i
      ∙ bytes (size + i) (omega arith)
      ∙ ap (λ (p : ℕ). some (remote f p)) (omega arith),
)

pub Holds-same :
    (remote : List ℕ → ℕ → ℕ) (f : List ℕ) {start start' n n' : ℕ} (buf : List ℕ)
    → Holds remote f start n buf
    → start ≡ start'
    → n ≡ n'
    → Holds remote f start' n' buf
Holds-same remote f {start} {start'} {n} {n'} buf h p q =
    subst (λ (m : ℕ). Holds remote f m n' buf) p (subst (λ (m : ℕ). Holds remote f start m buf) q h)

fill_blocks_more :
    (c c₁ c' : Cache) (f : List ℕ) (curr n : ℕ) (buf : List ℕ)
    → fetch_block f curr (take c.block_size buf) c ≡ ok c₁
    → fill_blocks f (curr + 1) n (drop c.block_size buf) c₁ ≡ ok c'
    → fill_blocks f curr (suc n) buf c ≡ ok c'
unfolding fill_blocks
fill_blocks_more c c₁ c' f curr n buf run more = rw run more

-- Blocks of the server's bytes fill the blocks of the cache, one after the other.
pub fill_blocks_lem :
    (remote : List ℕ → ℕ → ℕ) (n : ℕ) (c : Cache) (f : List ℕ) (curr : ℕ) (buf : List ℕ)
    (fc : FileCache)
    → IsValid c
    → find f c.file_map ≡ some fc
    → Holds remote f (curr * c.block_size) (n * c.block_size) buf
    → (c' : Cache) × (fill_blocks f curr n buf c ≡ ok c')
      × Filling remote c c'
      × ((k : ℕ) → curr ≤ k → k < curr + n → full_at c' f k ≡ true)
unfolding fill_blocks
fill_blocks_lem remote zero c f curr buf fc v known h =
    (c, refl, Filling-refl remote c v, λ k low high. absurd (omega arith))
fill_blocks_lem remote (suc n) c f curr buf fc v known h =
    let h' : Holds remote f (curr * c.block_size) (c.block_size + n * c.block_size) buf =
      Holds-same remote f buf h refl (grind arith) in
    let (c₁, run, s, full) =
      fetch_block_lem remote c f curr (take c.block_size buf) fc v known
        (Holds-first remote f (curr * c.block_size) c.block_size (n * c.block_size) buf h') in
    let (fc₁, known₁) = Filling-find f s known in
    let rest = Holds-rest remote f (curr * c.block_size) c.block_size (n * c.block_size) buf h' in
    let (c', more, t, fulls) =
      fill_blocks_lem remote n c₁ f (curr + 1) (drop c.block_size buf) fc₁ s.valid known₁ (
        Holds-same remote f (drop c.block_size buf) rest
          (omega (arith, ap (λ (m : ℕ). curr * m) s.same_size))
          (ap (λ (m : ℕ). n * m) (sym s.same_size))) in
    (
      c',
      fill_blocks_more c c₁ c' f curr n buf run more,
      Filling-trans s t,
      λ k low high. elim (Bool-cases (k == curr)) [
        | inl here ↦ t.stays_full f k (ap (full_at c₁ f) ((==_iff k curr).0 here) ∙ full)
        | inr other ↦ fulls k (ground arith) (omega arith)
      ],
    )
