-- ===== src/Cache/FetchBlocks.antt =====
-- `Cache::cacheBlocks` of client_src/cache.cpp as a whole.
use net_fs.Prelude.{
  ℕ, ◌-◌, ◌*◌, ◌<◌, ◌≤◌, ◌>>=◌, List, [], length, some, ◌==◌, nat_eq, string_eq, Bool, find,
  at-find, Result, ok, ◌≡◌, ◌≢◌, ◌⊎◌, refl, ◌∙◌, arith, Bool-cases, inl, inr, true, false,
}
use net_fs.Range.{Range}
use net_fs.Range.Sorted.{covers}
use net_fs.Range.Overlay.{Within}
use net_fs.Cache.Contents.{covers-Within}
use net_fs.Cache.State.{FileCache, Cache, Backend}
use net_fs.Cache.Blocks.{is_full_block, is_some}
use net_fs.Cache.Valid.{IsValid, find_entry, view}
use net_fs.Cache.Store.{file_facts}
use net_fs.Cache.WriteBlock.{dirty_at}
use net_fs.Cache.ReadBlock.{full_at}
use net_fs.Cache.Fill.{Filling, Filling-trans}
use net_fs.Cache.Fetch.{Serves, FetchFailed, missing_blocks_lem, fetch_ranges_lem}
use net_fs.Cache.Ops.{missing_blocks, fetch_ranges, cache_blocks}

-- The note on the last read is no part of what the cache holds.
noted :
    (remote : List ℕ → ℕ → ℕ) (c : Cache) (hit : Bool)
    → IsValid c
    → Filling remote c (record c { last_read_hit = hit })
unfolding file_facts dirty_at full_at is_full_block view find_entry
noted remote c hit v = record {
  valid = record {
    positive = v.positive;
    small = v.small;
    blocks = v.blocks;
    recorded = v.recorded;
    used = v.used;
    fresh = v.fresh;
    distinct = v.distinct;
  };
  same_size = refl;
  same_facts = λ g. refl;
  same_dirt = λ g k. refl;
  stays_full = λ g k h. h;
  kept = λ g k x h. inl refl;
}

full_at-known :
    (c : Cache) (f : List ℕ) (k : ℕ) (fc : FileCache)
    → find f c.file_map ≡ some fc
    → full_at c f k ≡ is_full_block fc k c
unfolding full_at
full_at-known c f k fc h = ground arith

module _ {S : Type 0} (backend : Backend S) (bound : ℕ) (remote : List ℕ → ℕ → ℕ)
    (serves : Serves backend bound remote) (f : List ℕ) (first last : ℕ) (c : Cache) (s : S)
    (fc : FileCache) (v : IsValid c) (known : find f c.file_map ≡ some fc) where
  cache_blocks_run :
      (rs : List Range) (r : Result (ℕ × Cache × S))
      → fc.attr.size ≢ 0
      → missing_blocks fc c first (last - first) [] ≡ ok rs
      → fetch_ranges backend f rs (record c { last_read_hit = length rs == 0 }) s ≡ r
      → cache_blocks backend f first last c s ≡ r
  unfolding cache_blocks
  cache_blocks_run rs r some_size missing run =
      let not_empty : (fc.attr.size == 0) ≡ false = ground arith in
      rw (known, is_some, at-find f c.file_map known, ◌>>=◌, not_empty, missing) run

  -- `cacheBlocks` of a file that is not empty returns the code of a failed fetch, or 0, and then
  -- all blocks of its range are full. Either way it only fills gaps, with the server's bytes.
  pub cache_blocks_lem :
      fc.attr.size ≢ 0
      → last * c.block_size < bound
      → (code : ℕ) × (c' : Cache) × (s' : S) × (cache_blocks backend f first last c s
          ≡ ok (code, c', s'))
        × Filling remote c c'
        × ((code ≡ 0) ⊎ FetchFailed backend f code s')
        × (code ≡ 0 → (k : ℕ) → first ≤ k → k < last → full_at c' f k ≡ true)
  unfolding covers
  cache_blocks_lem some_size small =
      let (rs, missing, sorted, covered) = missing_blocks_lem (last - first) fc c first [] tt in
      let within : Within last rs =
        covers-Within last 0 rs sorted (λ x h. ground (arith, covered x)) in
      let note = noted remote c (length rs == 0) v in
      let (code, c', s', run, s, ending, fulls) =
        fetch_ranges_lem backend bound remote serves f rs 0 last
          (record c { last_read_hit = length rs == 0 }) _ fc note.valid known sorted within small in
      (
        code,
        c',
        s',
        cache_blocks_run rs (ok (code, c', s')) some_size missing run,
        Filling-trans note s,
        ending,
        λ e k low high. elim (Bool-cases (is_full_block fc k c)) [
          | inl before ↦
              s.stays_full f k (note.stays_full f k (full_at-known c f k fc known ∙ before))
          | inr missed ↦ fulls e k (covered k ∙ ground arith)
        ],
      )
