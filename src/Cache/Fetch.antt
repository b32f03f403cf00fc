-- ===== src/Cache/Fetch.antt =====
-- `Cache::cacheBlocks` of client_src/cache.cpp: the blocks that are missing, and fetching them.
use net_fs.Prelude.{
  ◌≢◌, ◌⊎◌, ℕ, zero, suc, ◌+◌, ◌-◌, ◌*◌, ◌<◌, ◌≤◌, ◌^◌, ◌>>=◌, List, [], ◌∷◌, replicate, leb, ltb,
  wrap64, some, ◌==◌, not, nat_eq, string_eq, ◌&&◌, ◌||◌, Bool, find, Result, ok, ◌≡◌, refl, ap,
  ◌∙◌, arith, Bool-cases, inl, inr, true, false,
}
use net_fs.Range.{Range}
use net_fs.Range.Merge.{From}
use net_fs.Range.Sorted.{IsSorted, covers, insert_range-IsSorted}
use net_fs.Range.Overlay.{Within}
use net_fs.Cache.Contents.{wrap64_small}
use net_fs.Cache.State.{FileCache, Cache, Backend}
use net_fs.Cache.Blocks.{is_full_block}
use net_fs.Cache.Valid.{IsValid}
use net_fs.Cache.ReadBlock.{full_at}
use net_fs.Cache.Fill.{Filling, Filling-refl, Filling-trans}
use net_fs.Cache.FetchBlock.{Holds, Holds-same, Filling-find, fill_blocks_lem}
use net_fs.Cache.Ops.{missing_blocks, fill_blocks, fetch_ranges}

-- What the code relies on in `content_ft`, for places below a bound: it answers with a code, and
-- without an error the buffer, which was all zeros, holds the file's bytes; behind the file's end
-- the bytes are zeros.
pub record Serves {S : Type 0} (backend : Backend S) (bound : ℕ) (remote : List ℕ → ℕ → ℕ)
    : Type 0 where
  pub within : bound ≤ 2 ^ 63
  pub replies :
      (f : List ℕ) (offset size : ℕ) (s : S)
      → offset + size < bound
      → (code : ℕ) × (filled : List ℕ) × (n : ℕ) × (s' : S) × (backend.content_ft f offset
            (replicate size 0)
            s
          ≡ ok (code, filled, n, s'))
        × ((code ≢ 0) ⊎ Holds remote f offset size filled)

-- A fetch for the file returned the error code, and left `s'` behind it.
abbrev pub FetchFailed : {S : Type 0} → Backend S → List ℕ → ℕ → S → Type 0
FetchFailed {S} backend f code s' =
    (code ≢ 0)
    × (offset size : ℕ) × (s : S) × (filled : List ℕ) × (n : ℕ) × (backend.content_ft f offset
          (replicate size 0) s
        ≡ ok (code, filled, n, s'))

pub without_error {ℓ} : {A : Type ℓ} {code : ℕ} → (code ≢ 0) ⊎ A → code ≡ 0 → A
without_error (inl failed) done = absurd (failed done)
without_error (inr result) done = result

-- A block that is full is not collected, and another one is.
miss_none :
    (old full : Bool) (x b n : ℕ)
    → (x ≡ b → full ≡ true)
    → (old || (leb (suc b) x && ltb x (suc b + n) && not full))
      ≡ (old || (leb b x && ltb x (b + suc n) && not full))
miss_none old full x b n h = elim (Bool-cases (x == b)) [
  | inl here ↦ let f = h (ground arith) in ground arith
  | inr other ↦ ground arith
]

miss_one :
    (now old full : Bool) (x b n : ℕ)
    → (x ≡ b → full ≡ false)
    → now ≡ (old || (leb b x && ltb x (b + 1)))
    → (now || (leb (suc b) x && ltb x (suc b + n) && not full))
      ≡ (old || (leb b x && ltb x (b + suc n) && not full))
miss_one now old full x b n h add = elim (Bool-cases (x == b)) [
  | inl here ↦ let f = h (ground arith) in ground arith
  | inr other ↦ ground arith
]

-- The first loop collects the blocks of its range that are not full, in sorted ranges.
pub missing_blocks_lem :
    (n : ℕ) (fc : FileCache) (c : Cache) (b : ℕ) (rs : List Range)
    → IsSorted rs
    → (rs' : List Range) × (missing_blocks fc c b n rs ≡ ok rs')
      × IsSorted rs'
      × ((x : ℕ)
          → covers rs' x
            ≡ (covers rs x || (leb b x && ltb x (b + n) && not (is_full_block fc x c))))
unfolding missing_blocks
missing_blocks_lem zero fc c b rs sorted = (rs, refl, sorted, λ x. ground arith)
missing_blocks_lem (suc n) fc c b rs sorted = elim (Bool-cases (is_full_block fc b c)) [
  | inl full ↦
      let (rs', run, sorted', covered) = missing_blocks_lem n fc c (suc b) rs sorted in
      (
        rs',
        rw full run,
        sorted',
        λ x.
            covered x
            ∙ miss_none (covers rs x) (is_full_block fc x c) x b n
                (λ e. ap (λ (k : ℕ). is_full_block fc k c) e ∙ full),
      )
  | inr partial ↦
      let (rs₁, add, sorted₁, covered₁) = insert_range-IsSorted b (b + 1) rs (omega arith) sorted in
      let (rs', run, sorted', covered) = missing_blocks_lem n fc c (suc b) rs₁ sorted₁ in
      (
        rs',
        rw (partial, add) run,
        sorted',
        λ x.
            covered x
            ∙ miss_one (covers rs₁ x) (covers rs x) (is_full_block fc x c) x b n
                (λ e. ap (λ (k : ℕ). is_full_block fc k c) e ∙ partial) (covered₁ x),
      )
]

-- The products of the code do not wrap around.
products :
    (a b top n : ℕ)
    → a < b
    → b ≤ top
    → top * n < 2 ^ 64
    → (wrap64 (a * n) ≡ a * n) × (wrap64 ((b - a) * n) ≡ (b - a) * n)
products a b top n h k small =
    let first : a * n ≤ top * n = grind arith in
    let second : (b - a) * n ≤ top * n = grind arith in
    (wrap64_small first small, wrap64_small second small)

below_top : (a b top n : ℕ) → a < b → b ≤ top → a * n + (b - a) * n ≤ top * n
below_top a b top n h k =
    let all : b * n ≤ top * n = grind arith in
    let split : (a + (b - a)) * n ≡ a * n + (b - a) * n = omega arith in
    let whole : (a + (b - a)) * n ≡ b * n = ap (λ (m : ℕ). m * n) (omega arith) in omega arith

module _ {S : Type 0} (backend : Backend S) (bound : ℕ) (remote : List ℕ → ℕ → ℕ)
    (serves : Serves backend bound remote) (f : List ℕ) where
  fetch_more :
      (rg : Range) (rs : List Range) (c c₁ : Cache) (filled : List ℕ) (n : ℕ) (s s₁ : S)
      (r : Result (ℕ × Cache × S))
      → backend.content_ft f
          (wrap64 (rg.start * c.block_size))
          (replicate (wrap64 ((rg.end - rg.start) * c.block_size)) 0)
          s
        ≡ ok (0, filled, n, s₁)
      → fill_blocks f rg.start (rg.end - rg.start) filled c ≡ ok c₁
      → fetch_ranges backend f rs c₁ s₁ ≡ r
      → fetch_ranges backend f (rg ∷ rs) c s ≡ r
  unfolding fetch_ranges
  fetch_more rg rs c c₁ filled n s s₁ r reply fill rest = rw (reply, fill) rest

  fetch_failed :
      (rg : Range) (rs : List Range) (c : Cache) (filled : List ℕ) (code n : ℕ) (s s₁ : S)
      → backend.content_ft f
          (wrap64 (rg.start * c.block_size))
          (replicate (wrap64 ((rg.end - rg.start) * c.block_size)) 0)
          s
        ≡ ok (code, filled, n, s₁)
      → (code == 0) ≡ false
      → fetch_ranges backend f (rg ∷ rs) c s ≡ ok (code, c, s₁)
  unfolding fetch_ranges
  fetch_failed rg rs c filled code n s s₁ reply failed = rw (reply, ◌>>=◌, failed) refl

  -- What is left after fetching the blocks of some ranges.
  abbrev pub Fetched : List Range → Cache → S → Type 0
  Fetched rs c s =
      (code : ℕ) × (c' : Cache) × (s' : S) × (fetch_ranges backend f rs c s ≡ ok (code, c', s'))
      × Filling remote c c'
      × ((code ≡ 0) ⊎ FetchFailed backend f code s')
      × (code ≡ 0 → (k : ℕ) → covers rs k ≡ true → full_at c' f k ≡ true)

  pub fetch_ranges_lem :
      (rs : List Range) (lo top : ℕ) (c : Cache) (s : S) (fc : FileCache)
      → IsValid c
      → find f c.file_map ≡ some fc
      → From lo rs
      → Within top rs
      → top * c.block_size < bound
      → Fetched rs c s
  unfolding fetch_ranges covers
  fetch_ranges_lem [] lo top c s fc v known sorted within small =
      (0, c, s, refl, Filling-refl remote c v, inl refl, λ e k h. absurd cc)
  fetch_ranges_lem (rg ∷ rs) lo top c s fc v known sorted within small =
      let (at_start, count) =
        products rg.start rg.end top c.block_size sorted.1 within.0
          (omega (arith, serves.within)) in
      let below = below_top rg.start rg.end top c.block_size sorted.1 within.0 in
      let (code, filled, n, s₁, reply, holds) =
        serves.replies f (wrap64 (rg.start * c.block_size))
          (wrap64 ((rg.end - rg.start) * c.block_size)) s (omega (arith, at_start, count, below)) in
      elim (Bool-cases (code == 0)) [
        | inl zero_code ↦
            let done : code ≡ 0 = ground arith in
            let holds' = Holds-same remote f filled (without_error holds done) at_start count in
            let (c₁, fill, first, fulls) =
              fill_blocks_lem remote (rg.end - rg.start) c f rg.start filled fc v known holds' in
            let (fc₁, known₁) = Filling-find f first known in
            let (code', c', s', rest, second, ending, fulls') =
              fetch_ranges_lem rs (rg.end + 1) top c₁ s₁ fc₁ first.valid known₁ sorted.2 within.1
                (rw first.same_size small) in
            (
              code',
              c',
              s',
              fetch_more rg rs c c₁ filled n s s₁ (ok (code', c', s'))
                  (reply ∙ ap (λ (m : ℕ). ok (m, filled, n, s₁)) done) fill rest,
              Filling-trans first second,
              ending,
              λ e k h. elim (Bool-cases (covers rs k)) [
                | inl later ↦ fulls' e k later
                | inr now ↦ second.stays_full f k (fulls k (ground arith) (ground arith))
              ],
            )
        | inr failed ↦ (
          code,
          c,
          s₁,
          fetch_failed rg rs c filled code n s s₁ reply failed,
          Filling-refl remote c v,
          inr (ground arith, _, _, s, filled, n, reply),
          λ e k h. absurd (ground arith),
        )
      ]
