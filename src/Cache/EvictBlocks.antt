-- ===== src/Cache/EvictBlocks.antt =====
-- `Cache::evictBlocks` of client_src/cache.cpp: all is written back, then the blocks that were used
-- least recently go.
use net_fs.Prelude.{
  ℕ, ◌-◌, ◌/◌, ◌%◌, min, List, none, some, ◌==◌, length, take, nat_eq, string_eq, Bool, true, false,
  if◌then◌else◌, ok, ◌>>=◌, ◌≡◌, ◌⊎◌, refl, ap, ◌∙◌, arith, Bool-cases, Option-cases, inl, inr,
}
use net_fs.Cache.State.{Cache, Backend}
use net_fs.Cache.Blocks.{is_some}
use net_fs.Cache.Valid.{IsValid, find_entry, view}
use net_fs.Cache.WriteBlock.{dirty_at}
use net_fs.Cache.Written.{cached_byte}
use net_fs.Cache.Flush.{flush_dirty_blocks, evict_loop, evict_blocks}
use net_fs.Cache.Gather.{Refused, Stores}
use net_fs.Cache.FlushBlocks.{Inside}
use net_fs.Cache.FlushAll.{InBounds}
use net_fs.Cache.FlushOut.{Kept, Flushed, flushed_byte, flush_dirty_blocks_lem}
use net_fs.Cache.Remove.{unless, Removed}
use net_fs.Cache.Evict.{unrecorded, evict_loop_lem}

-- What an eviction of up to `count` blocks leaves: the first nodes of the usage list, in their
-- order, and the blocks that these nodes are for; no block is dirty, and the server has what was.
pub record Evicts {S : Type 0} (remote : S → List ℕ → ℕ → ℕ) (count : ℕ) (c c' : Cache) (s s' : S)
    : Type 0 where
  pub valid : IsValid c'
  pub same_size : c'.block_size ≡ c.block_size
  pub list : c'.recent_list ≡ take (length c.recent_list - count) c.recent_list
  pub bytes :
      (g : List ℕ) (pos : ℕ)
      → cached_byte c' g pos
        ≡ (if is_some (find_entry c' g (pos / c.block_size)) then cached_byte c g pos else none)
  pub all_clean : (g : List ℕ) (k : ℕ) → dirty_at c' g k ≡ false
  pub stored :
      (g : List ℕ) (pos : ℕ)
      → Inside c g pos
      → some (remote s' g pos) ≡ flushed_byte remote (λ h. true) c s g pos

module _ {gone : List ℕ → ℕ → Bool} {c c' : Cache} (removed : Removed gone c c') where
  pub Removed-view : (g : List ℕ) (k x : ℕ) → view c' g k x ≡ unless (gone g k) (view c g k x)
  unfolding view
  Removed-view g k x =
      let now = removed.now g k in
      elim (Bool-cases (gone g k)) [ inl lost ↦ ground arith | inr kept ↦ ground arith ]

  pub Removed-cached_byte :
      (g : List ℕ) (pos : ℕ)
      → cached_byte c' g pos ≡ unless (gone g (pos / c.block_size)) (cached_byte c g pos)
  unfolding cached_byte
  Removed-cached_byte g pos =
      ap (λ (n : ℕ). view c' g (pos / n) (pos % n)) removed.same_size
      ∙ Removed-view g (pos / c.block_size) (pos % c.block_size)

  pub Removed-dirty_at :
      (g : List ℕ) (k : ℕ) → dirty_at c' g k ≡ (if gone g k then false else dirty_at c g k)
  unfolding dirty_at
  Removed-dirty_at g k =
      let now = removed.now g k in
      elim (Bool-cases (gone g k)) [ inl lost ↦ ground arith | inr kept ↦ ground arith ]

  pub Removed-present :
      (g : List ℕ) (pos : ℕ)
      → cached_byte c' g pos
        ≡ (if is_some (find_entry c' g (pos / c.block_size)) then cached_byte c g pos else none)
  unfolding cached_byte view
  Removed-present g pos =
      let now = removed.now g (pos / c.block_size) in
      let byte = Removed-cached_byte g pos in
      elim (Option-cases (find_entry c' g (pos / c.block_size))) [
        | inl miss ↦ elim (Bool-cases (gone g (pos / c.block_size))) [
          | inl lost ↦ byte ∙ rw (lost, miss) refl
          | inr kept ↦
              let absent : find_entry c g (pos / c.block_size) ≡ none = ground arith in
              let no_byte : cached_byte c g pos ≡ none = rw (cached_byte, view, absent) refl in
              byte ∙ rw (kept, miss) no_byte
        ]
        | inr (e, there) ↦ elim (Bool-cases (gone g (pos / c.block_size))) [
          | inl lost ↦ absurd (ground arith)
          | inr kept ↦ byte ∙ rw (kept, there) refl
        ]
      ]

module _ {S : Type 0} (backend : Backend S) (bound : ℕ) (remote : S → List ℕ → ℕ → ℕ)
    (stores : Stores backend bound remote) (count : ℕ) (c : Cache) (s : S) (v : IsValid c)
    (bounds : InBounds bound c) where
  evict_failed :
      (code : ℕ) (c' : Cache) (s' : S)
      → flush_dirty_blocks backend c s ≡ ok (code, c', s')
      → (code == 0) ≡ false
      → evict_blocks backend count c s ≡ ok (code, c', s')
  unfolding evict_blocks
  evict_failed code c' s' run failed = rw (run, ◌>>=◌, failed) refl

  evict_run :
      (code : ℕ) (c₁ c' : Cache) (s' : S)
      → flush_dirty_blocks backend c s ≡ ok (code, c₁, s')
      → (code == 0) ≡ true
      → evict_loop (min (length c.recent_list) count) c₁ ≡ ok c'
      → evict_blocks backend count c s ≡ ok (0, c', s')
  unfolding evict_blocks
  evict_run code c₁ c' s' run done loop = rw (run, ◌>>=◌, done, loop) refl

  evicted :
      (c₁ : Cache) (s' : S)
      → Flushed remote (λ g. true) c c₁ s s'
      → (c' : Cache) × (evict_loop (min (length c.recent_list) count) c₁ ≡ ok c')
        × Evicts remote count c c' s s'
  evicted c₁ s' fl =
      let n : ℕ = min (length c.recent_list) count in
      let same_length : length c₁.recent_list ≡ length c.recent_list =
        ap length fl.kept.same_list in
      let (c', loop, list, removed) = evict_loop_lem n c₁ fl.kept.valid (omega arith) in
      let left : length c₁.recent_list - n ≡ length c.recent_list - count = omega arith in
      (
        c',
        loop,
        record {
          valid = removed.valid;
          same_size = removed.same_size ∙ fl.kept.same_size;
          list =
              list
              ∙ ap (λ (m : ℕ). take m c₁.recent_list) left
              ∙ ap (take (length c.recent_list - count)) fl.kept.same_list;
          bytes = λ g pos.
              let before = fl.kept.bytes g pos in
              Removed-present removed g pos ∙ rw (before, fl.kept.same_size) refl;
          all_clean = λ g k.
              let now = Removed-dirty_at removed g k in
              let before = fl.dirt g k in
              elim (Bool-cases (unrecorded c₁ c'.recent_list g k)) [
                | inl lost ↦ now ∙ rw lost refl
                | inr still ↦ now ∙ rw still before
              ];
          stored = fl.stored;
        },
      )

  -- `evictBlocks` returns. If a write-back of the dirty blocks fails, the error of that last call
  -- comes back and the cache has all its bytes and its usage list. Otherwise the server has all
  -- the dirty bytes, and exactly `count` blocks, or all of them if there are fewer, are gone from
  -- the end of the list.
  pub evict_blocks_lem :
      (code : ℕ) × (c' : Cache) × (s' : S) × (evict_blocks backend count c s ≡ ok (code, c', s'))
      × ((Refused backend code s' × Kept c c') ⊎ ((code ≡ 0) × Evicts remote count c c' s s'))
  evict_blocks_lem =
      let (code, c₁, s', run, effect) =
        flush_dirty_blocks_lem backend bound remote stores c s v bounds in
      elim effect [
        | inl (failed, kept) ↦
            (code, c₁, s', evict_failed code c₁ s' run (ground arith), inl (failed, kept))
        | inr (done, fl) ↦
            let (c', loop, ev) = evicted c₁ s' fl in
            (0, c', s', evict_run code c₁ c' s' run (ground arith) loop, inr (refl, ev))
      ]
