-- ===== src/Cache/ReadSpan.antt =====
-- The part of `Cache::read` of client_src/cache.cpp behind its tests: a span that ends within the
-- file.
use native.Mathlib.Nat.{lt_of_mul-lt-mul_right}
use net_fs.Prelude.{
  ℕ, ◌+◌, ◌-◌, ◌*◌, ◌/◌, ◌<◌, ◌≤◌, ◌>>=◌, List, [], wrap64, some, ◌==◌, nat_eq, string_eq, find, ok,
  ◌≡◌, ◌⊎◌, refl, ap, sym, subst, ◌∙◌, arith, Bool-cases, inl, inr, true, false,
}
use net_fs.Cache.State.{FileCache, Cache, Backend}
use net_fs.Cache.Blocks.{block_number, block_offset, end_block}
use net_fs.Cache.Valid.{IsValid}
use net_fs.Cache.ReadBlock.{full_at}
use net_fs.Cache.ReadLoop.{Gave, AllFull, read_loop_lem}
use net_fs.Cache.Fill.{Filling-trans}
use net_fs.Cache.Fetch.{Serves, FetchFailed}
use net_fs.Cache.FetchBlocks.{cache_blocks_lem}
use net_fs.Cache.Written.{place}
use net_fs.Cache.Ops.{read_loop, cache_blocks, read_within}
use net_fs.Cache.Served.{Served, Bytes, Touched-Filling, Filling-Served, Gave-Bytes}

-- The blocks of a span lie between the block of its start and the one behind its end.
blocks_of_span :
    (size offset n k x : ℕ)
    → 0 < size
    → x < size
    → offset ≤ k * size + x
    → k * size + x < n
    → (offset / size ≤ k) × (k < (n - 1) / size + 1)
blocks_of_span size offset n k x pos h low high =
    let (at_first, in_first) = place size offset pos in
    let (at_last, in_last) = place size (n - 1) pos in
    let after : offset / size * size < (k + 1) * size = grind arith in
    let before : k * size < ((n - 1) / size + 1) * size = grind arith in
    let low' = lt_of_mul-lt-mul_right size after in
    let high' = lt_of_mul-lt-mul_right size before in (omega arith, high')

end_fits : (size n : ℕ) → 0 < size → 0 < n → ((n - 1) / size + 1) * size < n + size
end_fits size n pos h = let (at_last, in_last) = place size (n - 1) pos in grind arith

module _ {S : Type 0} (backend : Backend S) (bound : ℕ) (remote : List ℕ → ℕ → ℕ)
    (serves : Serves backend bound remote) (f : List ℕ) (offset size : ℕ) (c : Cache) (s : S)
    (fc : FileCache) (v : IsValid c) (known : find f c.file_map ≡ some fc) (some_bytes : 0 < size)
    (ends : offset + size ≤ fc.attr.size) (small : fc.attr.size + c.block_size < bound) where
  last_block : end_block c (wrap64 (offset + size)) ≡ (offset + size - 1) / c.block_size + 1
  unfolding end_block
  last_block =
      let whole : wrap64 (offset + size) ≡ offset + size = omega (arith, serves.within) in
      let not_zero : (offset + size == 0) ≡ false = ground arith in rw (whole, not_zero) refl

  within_run :
      (c₁ c' : Cache) (s' : S) (bytes : List ℕ)
      → cache_blocks backend f (block_number c offset) ((offset + size - 1) / c.block_size + 1) c s
        ≡ ok (0, c₁, s')
      → read_loop size f (block_number c₁ offset) (block_offset c₁ offset) size c₁ ≡ ok (bytes, c')
      → read_within backend f offset size c s ≡ ok (0, bytes, c', s')
  unfolding read_within
  within_run c₁ c' s' bytes fetch run = rw (last_block, fetch, ◌>>=◌, run) refl

  within_failed :
      (code : ℕ) (c₁ : Cache) (s' : S)
      → (code == 0) ≡ false
      → cache_blocks backend f (block_number c offset) ((offset + size - 1) / c.block_size + 1) c s
        ≡ ok (code, c₁, s')
      → read_within backend f offset size c s ≡ ok (code, [], c₁, s')
  unfolding read_within
  within_failed code c₁ s' failed fetch = rw (last_block, fetch, ◌>>=◌, failed) refl

  span_full :
      (c₁ : Cache)
      → c₁.block_size ≡ c.block_size
      → ((k : ℕ)
          → offset / c.block_size ≤ k
          → k < (offset + size - 1) / c.block_size + 1
          → full_at c₁ f k ≡ true)
      → AllFull c₁ f offset size
  span_full c₁ same fulls k x inner i =
      let i' = rw same at i in
      let (low, high) =
        blocks_of_span c.block_size offset (offset + size) k x v.positive (rw same at inner)
          (ground arith) (ground arith) in
      fulls k low high

  loop_read :
      (c₁ : Cache)
      → IsValid c₁
      → AllFull c₁ f offset size
      → (bytes : List ℕ) × (c' : Cache) × (read_loop size f
            (block_number c₁ offset)
            (block_offset c₁ offset)
            size
            c₁
          ≡ ok (bytes, c'))
        × Gave c₁ c' f offset size bytes
  loop_read c₁ v₁ full =
      let (at_offset, inner) = place c₁.block_size offset v₁.positive in
      let (bytes, c', run, gave) =
        read_loop_lem size c₁ f (block_number c₁ offset) (block_offset c₁ offset) size v₁ inner
          (omega arith) (subst {A = ℕ} (λ p. AllFull c₁ f p size) (sym at_offset) full) in
      (bytes, c', run, subst {A = ℕ} (λ p. Gave c₁ c' f p size bytes) at_offset gave)

  -- A span that ends within the file is read as a whole, or the code of a failed fetch is returned.
  pub read_within_lem :
      (code : ℕ) × (bytes : List ℕ) × (c' : Cache) × (s' : S) × (read_within backend f offset size c
          s
        ≡ ok (code, bytes, c', s'))
      × Served remote c c'
      × ((FetchFailed backend f code s' × (bytes ≡ []))
          ⊎ ((code ≡ 0) × Bytes remote c f offset size bytes))
  read_within_lem =
      let (code, c₁, s', fetch, filling, ending, fulls) =
        cache_blocks_lem backend bound remote serves f (offset / c.block_size)
          ((offset + size - 1) / c.block_size + 1) c s fc v known
          (λ e. omega (arith, e, some_bytes, ends))
          (omega (arith, end_fits c.block_size (offset + size) v.positive (omega arith))) in
      elim (Bool-cases (code == 0)) [
        | inl zero_code ↦
            let done : code ≡ 0 = ground arith in
            let full = span_full c₁ filling.same_size (fulls done) in
            let (bytes, c', run, gave) = loop_read c₁ filling.valid full in
            (
              0,
              bytes,
              c',
              s',
              within_run c₁ c' s' bytes (fetch ∙ ap (λ (n : ℕ). ok (n, c₁, s')) done) run,
              Filling-Served remote c c'
                  (Filling-trans filling (Touched-Filling remote gave.touched)) v.positive,
              inr (
                refl,
                Gave-Bytes remote c c₁ c' f offset size bytes v.positive filling full gave,
              ),
            )
        | inr failed ↦ (
          code,
          [],
          c₁,
          s',
          within_failed code c₁ s' failed fetch,
          Filling-Served remote c c₁ filling v.positive,
          inl (elim ending [ inl done ↦ absurd (ground arith) | inr refused ↦ refused ], refl),
        )
      ]
