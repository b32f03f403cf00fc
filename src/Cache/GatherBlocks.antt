-- ===== src/Cache/GatherBlocks.antt =====
-- The outer loop of `flushBlocks` in client_src/cache.cpp, over the blocks to flush.
use net_fs.Prelude.{
  ℕ, ◌+◌, ◌-◌, ◌*◌, ◌/◌, ◌%◌, ◌<◌, ◌≤◌, List, [], ◌∷◌, get_elem?_within, Option, none, some, ◌==◌,
  leb, ==_iff, str_eq, nat_eq, string_eq, ◌&&◌, ◌||◌, Bool, true, false, if◌then◌else◌, find,
  at-find, ok, ◌>>=◌, ◌≡◌, refl, sym, ap, subst, ◌∙◌, arith, Bool-cases, inl, inr, Option-cases,
}
use net_fs.Range.Sorted.{covers}
use net_fs.Cache.Entry.{CacheEntry}
use net_fs.Cache.Contents.{IsBlock, byte_at, or_else, covers-Within}
use net_fs.Cache.State.{Backend}
use net_fs.Cache.Span.{block_order}
use net_fs.Cache.Written.{place}
use net_fs.Cache.Flush.{Flushing, flush_ranges, gather}
use net_fs.Cache.Gather.{Stores, Ready, Reaches, pending}
use net_fs.Cache.Gathered.{with_ranges, flush_ranges_lem}

unfoldable pub contains : List ℕ → ℕ → Bool
contains [] k = false
contains (b ∷ bs) k = b == k || contains bs k

-- The valid byte of a file's entries at a position.
unfoldable pub entry_byte : ℕ → List (ℕ × CacheEntry) → ℕ → Option ℕ
entry_byte block_size entries pos = elim (find (pos / block_size) entries) [
  | none ↦ none
  | some e ↦ byte_at e (pos % block_size)
]

quotient : (b n pos : ℕ) → 0 < n → b * n ≤ pos → pos - b * n < n → b ≡ pos / n
quotient b n pos h low inner =
    let (whole, rest) = place n pos h in
    elim (block_order n b (pos / n)) [
      | inl (same, _) ↦ sym same
      | inr (inl (_, before)) ↦ absurd (omega arith)
      | inr (inr (_, after)) ↦ absurd (omega arith)
    ]

-- The bytes of the valid ranges of a block are its valid bytes.
block_bytes :
    (f : List ℕ) (block_size b : ℕ) (e : CacheEntry) (entries : List (ℕ × CacheEntry))
    (old : List ℕ → ℕ → Option ℕ) (g : List ℕ) (pos : ℕ)
    → 0 < block_size
    → IsBlock block_size e
    → find b entries ≡ some e
    → with_ranges f e (b * block_size) e.valid_ranges old g pos ≡ (
        if str_eq f g && b == pos / block_size
        then or_else (entry_byte block_size entries pos) (old g pos)
        else old g pos)
unfolding with_ranges entry_byte byte_at
block_bytes f block_size b e entries old g pos positive block there =
    elim (Bool-cases (b == pos / block_size)) [
      | inl here ↦
          let eb : b ≡ pos / block_size = (==_iff b (pos / block_size)).0 here in
          let there' : find (pos / block_size) entries ≡ some e =
            subst (λ (k : ℕ). find k entries ≡ some e) eb there in
          let base : b * block_size ≡ pos / block_size * block_size =
            ap (λ (k : ℕ). k * block_size) eb in
          let low : leb (b * block_size) pos ≡ true = ground arith in
          let inner : pos - b * block_size ≡ pos % block_size = omega arith in
          let value : entry_byte block_size entries pos ≡ byte_at e (pos % block_size) =
            rw (entry_byte, there') refl in
          elim (Bool-cases (covers e.valid_ranges (pos % block_size))) [
            | inl valid ↦
                let (v, byte) =
                  get_elem?_within e.content (pos % block_size)
                    (omega (arith, block.whole, block.within (pos % block_size) valid)) in
                rw (inner, low, here, value, valid, byte) refl
            | inr missing ↦ rw (inner, low, here, value, missing) (ground arith)
          ]
      | inr elsewhere ↦
          let outside : (leb (b * block_size) pos && covers e.valid_ranges (pos - b * block_size))
              ≡ false =
            (elim (Bool-cases (covers e.valid_ranges (pos - b * block_size))) [
              | inl valid ↦
                  let small : pos - b * block_size < block_size =
                    block.within (pos - b * block_size) valid in
                  elim (Bool-cases (leb (b * block_size) pos)) [
                    | inl low ↦
                        let q : b ≡ pos / block_size =
                          quotient b block_size pos positive (ground arith) small in
                        absurd (ground (arith, (==_iff b (pos / block_size)).1 q))
                    | inr high ↦ ground arith
                  ]
              | inr missing ↦ ground arith
            ]) in
          rw (outside, elsewhere) (ground arith)
    ]

-- The bytes of some blocks over those of before.
abbrev pub with_blocks :
    List ℕ → ℕ → List (ℕ × CacheEntry) → List ℕ → (List ℕ → ℕ → Option ℕ) → List ℕ → ℕ → Option ℕ
with_blocks f block_size entries blocks old g pos =
    if str_eq f g && contains blocks (pos / block_size)
    then or_else (entry_byte block_size entries pos) (old g pos)
    else old g pos

module _ {S : Type 0} (backend : Backend S) (bound : ℕ) (remote : S → List ℕ → ℕ → ℕ)
    (stores : Stores backend bound remote) (f : List ℕ) (block_size : ℕ)
    (entries : List (ℕ × CacheEntry)) (positive : 0 < block_size)
    (whole : (b : ℕ) (e : CacheEntry) → find b entries ≡ some e → IsBlock block_size e) where
  gather_go :
      (b : ℕ) (blocks : List ℕ) (e : CacheEntry) (fl fl₁ : Flushing S) (code : ℕ)
      → find b entries ≡ some e
      → flush_ranges backend f block_size b e e.valid_ranges fl ≡ ok (code, fl₁)
      → (code == 0) ≡ true
      → gather backend f block_size entries (b ∷ blocks) fl
        ≡ gather backend f block_size entries blocks fl₁
  unfolding gather
  gather_go b blocks e fl fl₁ code there run done =
      rw (at-find b entries there, ◌>>=◌, run, done) refl

  gather_stop :
      (b : ℕ) (blocks : List ℕ) (e : CacheEntry) (fl fl₁ : Flushing S) (code : ℕ)
      → find b entries ≡ some e
      → flush_ranges backend f block_size b e e.valid_ranges fl ≡ ok (code, fl₁)
      → (code == 0) ≡ false
      → gather backend f block_size entries (b ∷ blocks) fl ≡ ok (code, fl₁)
  unfolding gather
  gather_stop b blocks e fl fl₁ code there run failed =
      rw (at-find b entries there, ◌>>=◌, run, failed) refl

  blocks_step :
      (b : ℕ) (blocks : List ℕ) (e : CacheEntry) (old mid : List ℕ → ℕ → Option ℕ) (g : List ℕ)
      (pos : ℕ)
      → find b entries ≡ some e
      → mid g pos ≡ with_ranges f e (b * block_size) e.valid_ranges old g pos
      → with_blocks f block_size entries blocks mid g pos
        ≡ with_blocks f block_size entries (b ∷ blocks) old g pos
  unfolding contains
  blocks_step b blocks e old mid g pos there added =
      let same =
        added ∙ block_bytes f block_size b e entries old g pos positive (whole b e there) there in
      elim (Bool-cases (contains blocks (pos / block_size))) [
        | inl later ↦ elim (Option-cases (entry_byte block_size entries pos)) [
          | inl miss ↦ ground arith
          | inr (v, byte) ↦ ground arith
        ]
        | inr not_later ↦ ground arith
      ]

  gather_step :
      (b : ℕ) (blocks : List ℕ) (e : CacheEntry) (fl : Flushing S)
      → find b entries ≡ some e
      → Reaches backend bound remote f
          (flush_ranges backend f block_size b e e.valid_ranges fl)
          (with_ranges f e (b * block_size) e.valid_ranges (pending remote f fl))
      → ((fl₁ : Flushing S)
          → Ready bound fl₁
          → Reaches backend bound remote f
              (gather backend f block_size entries blocks fl₁)
              (with_blocks f block_size entries blocks (pending remote f fl₁)))
      → Reaches backend bound remote f
          (gather backend f block_size entries (b ∷ blocks) fl)
          (with_blocks f block_size entries (b ∷ blocks) (pending remote f fl))
  gather_step b blocks e fl here (code, fl₁, run, inl failed) next =
      (code, fl₁, gather_stop b blocks e fl fl₁ code here run (ground arith), inl failed)
  gather_step b blocks e fl here (code, fl₁, run, inr (done, ready, all)) next =
      let (code', fl', run', effect) = next fl₁ ready in
      (
        code',
        fl',
        gather_go b blocks e fl fl₁ code here run (ground arith) ∙ run',
        elim effect [
          | inl failed ↦ inl failed
          | inr (done', ready', all') ↦ inr (
            done',
            ready',
            λ g pos.
                all' g pos
                ∙ blocks_step b blocks e (pending remote f fl) (pending remote f fl₁) g pos here
                    (all g pos),
          )
        ],
      )

  -- The loop over the blocks adds their valid bytes to what is pending, unless a write-back fails.
  pub gather_lem :
      (blocks : List ℕ) (fl : Flushing S)
      → ((b : ℕ)
          → contains blocks b ≡ true
          → (e : CacheEntry) × (find b entries ≡ some e) × (b * block_size + block_size < bound))
      → Ready bound fl
      → Reaches backend bound remote f
          (gather backend f block_size entries blocks fl)
          (with_blocks f block_size entries blocks (pending remote f fl))
  unfolding contains
  gather_lem [] fl there ready =
      (0, fl, unfold gather in refl, inr (refl, ready, λ g pos. ground arith))
  gather_lem (b ∷ blocks) fl there ready =
      let (e, here, fits) = there b (ground (arith, ==_iff b b)) in
      let block = whole b e here in
      let within = covers-Within block_size 0 e.valid_ranges block.sorted block.within in
      gather_step b blocks e fl here
        (flush_ranges_lem backend bound remote stores f block_size b e (b * block_size)
          e.valid_ranges 0 fl refl fits block.whole block.sorted within ready)
        (λ fl₁ ready₁. gather_lem blocks fl₁ (λ k h. there k (ground arith)) ready₁)
