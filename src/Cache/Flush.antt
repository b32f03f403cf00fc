-- ===== src/Cache/Flush.antt =====
-- Writing dirty blocks back: `flush`, `flushBlocks`, `flushDirtyBlocks` and `evictBlocks` of
-- client_src/cache.cpp. An error code of 0 stands for success, as in the code.
use net_fs.Prelude.{
  ℕ, zero, suc, ◌+◌, ◌-◌, ◌*◌, min, List, [], ◌∷◌, ◌++◌, length, take, drop, Bool, true, false, leb,
  ltb, ◌==◌, wrap64, none, some, nat_eq, string_eq, find, put, at, Result, ok, err, bad_access,
  assert, ◌>>=◌, ◌>>◌, if◌then◌else◌,
}
use net_fs.Time.{FileTime}
use net_fs.Range.{Range, insert_range}
use net_fs.Cache.Entry.{CacheEntry, entry_clean, is_dirty}
use net_fs.Cache.State.{Use, FileCache, Cache, Backend}
use net_fs.Cache.Blocks.{set_file, delete_entry}

dirty_in : List (ℕ × CacheEntry) → ℕ
dirty_in [] = 0
dirty_in ((_, e) ∷ entries) = dirty_in entries + (if is_dirty e then 1 else 0)

-- `Cache::countDirtyBlocks`
unfoldable pub count_dirty_blocks : List (List ℕ × FileCache) → ℕ
unfolding dirty_in
count_dirty_blocks [] = 0
count_dirty_blocks ((_, fc) ∷ files) = dirty_in fc.entries + count_dirty_blocks files

-- `std::sort`
unfoldable pub insert_number : ℕ → List ℕ → List ℕ
insert_number n [] = n ∷ []
insert_number n (m ∷ ms) = if leb n m then n ∷ m ∷ ms else m ∷ insert_number n ms

unfoldable pub sort : List ℕ → List ℕ
unfolding insert_number
sort [] = []
sort (n ∷ ns) = insert_number n (sort ns)

-- The variables of the loop of `flushBlocks`, with the fields of the file that the callback
-- takes by reference.
pub record Flushing (S : Type 0) : Type 0 where
  pub flush_range : List Range
  pub gathered : List ℕ
  pub time : FileTime
  pub stale : Bool
  pub behind : S

module _ {S : Type 0} (backend : Backend S) where
  -- The call of `_content_wb` for what was gathered; the range that it is for is the only one.
  unfoldable pub write_back : List ℕ → Flushing S → Result (ℕ × Flushing S)
  write_back filename fl = elim fl.flush_range [
    | [] ↦ err bad_access
    | r ∷ _ ↦ do
      assert (r.end - r.start == length fl.gathered)
      (code, time, stale, behind) ←
          backend.content_wb filename r.start fl.gathered fl.time fl.stale fl.behind
      ok (code, record fl { time = time; stale = stale; behind = behind })
  ]

  -- What follows the first test of a round: a range is started if there is none.
  unfoldable pub start_range : ℕ → ℕ → List ℕ → Flushing S → Result (Flushing S)
  start_range abs_start abs_end bytes fl =
      if length fl.flush_range == 0
      then (do
        ranges ← insert_range abs_start abs_end fl.flush_range
        assert (length fl.gathered == 0)
        ok (record fl { flush_range = ranges; gathered = fl.gathered ++ bytes }))
      else ok fl

  -- One round of the inner loop, for one valid range of the block `b`.
  unfoldable pub flush_round :
      List ℕ → ℕ → ℕ → CacheEntry → Range → Flushing S → Result (ℕ × Flushing S)
  flush_round filename block_size b entry rg fl =
      let abs_start : ℕ = wrap64 (rg.start + b * block_size) in
      let abs_end : ℕ = wrap64 (rg.end + b * block_size) in
      let bytes : List ℕ = take (rg.end - rg.start) (drop rg.start entry.content) in
      elim fl.flush_range [
        | r ∷ [] ↦
            if r.end == abs_start
            then (do
              ranges ← insert_range abs_start abs_end (r ∷ [])
              fl' ←
                  start_range abs_start abs_end bytes
                    (record fl { flush_range = ranges; gathered = fl.gathered ++ bytes })
              ok (0, fl'))
            else (do
              (code, fl') ← write_back filename fl
              if code == 0
                  then (do
                    fl'' ←
                        start_range abs_start abs_end bytes
                          (record fl' { flush_range = []; gathered = [] })
                    ok (0, fl''))
                  else ok (code, fl'))
        | other ↦ do fl' ← start_range abs_start abs_end bytes fl; ok (0, fl')
      ]

  unfoldable pub flush_ranges :
      List ℕ → ℕ → ℕ → CacheEntry → List Range → Flushing S → Result (ℕ × Flushing S)
  flush_ranges filename block_size b entry [] fl = ok (0, fl)
  flush_ranges filename block_size b entry (rg ∷ ranges) fl = do
    (code, fl') ← flush_round filename block_size b entry rg fl
    elim (code == 0) [
      | true ↦ flush_ranges filename block_size b entry ranges fl'
      | false ↦ ok (code, fl')
    ]

  -- The outer loop, over the blocks.
  unfoldable pub gather :
      List ℕ → ℕ → List (ℕ × CacheEntry) → List ℕ → Flushing S → Result (ℕ × Flushing S)
  gather filename block_size entries [] fl = ok (0, fl)
  gather filename block_size entries (b ∷ blocks) fl = do
    entry ← at b entries
    (code, fl') ← flush_ranges filename block_size b entry entry.valid_ranges fl
    elim (code == 0) [
      | true ↦ gather filename block_size entries blocks fl'
      | false ↦ ok (code, fl')
    ]

  -- The last write-back, after the loop.
  unfoldable pub write_rest : List ℕ → Flushing S → Result (ℕ × Flushing S)
  write_rest filename fl = do
    assert (leb (length fl.flush_range) 1)
    if length fl.flush_range == 1 then write_back filename fl else ok (0, fl)

-- The loop that marks the flushed blocks clean.
unfoldable pub clean_blocks : List ℕ → List (ℕ × CacheEntry) → Result (List (ℕ × CacheEntry))
clean_blocks [] entries = ok entries
clean_blocks (b ∷ blocks) entries = do
  entry ← at b entries
  clean_blocks blocks (put b (entry_clean entry) entries)

-- The blocks of the dirty entries of a file, as `flush` collects them.
unfoldable pub dirty_blocks : List (ℕ × CacheEntry) → List ℕ
dirty_blocks [] = []
dirty_blocks ((b, e) ∷ entries) =
    let rest = dirty_blocks entries in if is_dirty e then b ∷ rest else rest

-- `fblocks[filename].push_back(block_num)`
unfoldable pub push_block : List ℕ → ℕ → List (List ℕ × List ℕ) → List (List ℕ × List ℕ)
push_block filename b groups = elim (find filename groups) [
  | none ↦ put filename (b ∷ []) groups
  | some blocks ↦ put filename (blocks ++ b ∷ []) groups
]

-- The loop of `flushDirtyBlocks` over the usage list, from its tail: the rounds for what follows a
-- node come first.
unfoldable pub group_dirty : List (List ℕ × FileCache) → List Use → Result (List (List ℕ × List ℕ))
group_dirty files [] = ok []
group_dirty files (u ∷ us) = do
  groups ← group_dirty files us
  fc ← at u.entry_id.filename files
  entry ← at u.entry_id.block_num fc.entries
  ok (if is_dirty entry then push_block u.entry_id.filename u.entry_id.block_num groups else groups)

-- `_recent_list.back()`
unfoldable pub last_use : List Use → Result Use
last_use [] = err bad_access
last_use (u ∷ []) = ok u
last_use (u ∷ v ∷ us) = last_use (v ∷ us)

abbrev pub with_times : {S : Type 0} → FileCache → Flushing S → FileCache
with_times fc fl = record fc { attr = record fc.attr { time = fl.time }; stale = fl.stale }

-- The loop of `evictBlocks`, with `n` rounds left: `_recent_list.back()` goes.
unfoldable pub evict_loop : ℕ → Cache → Result Cache
evict_loop zero c = ok c
evict_loop (suc n) c = do
  u ← last_use c.recent_list
  c' ← delete_entry u.entry_id.filename u.entry_id.block_num c
  evict_loop n c'

module _ {S : Type 0} (backend : Backend S) where
  -- The end of `flushBlocks`, when all the content is written back.
  unfoldable pub finish_flush : List ℕ → List ℕ → FileCache → Cache → S → Result (ℕ × Cache × S)
  finish_flush filename blocks fc c s = do
    entries ← clean_blocks blocks fc.entries
    (code, attr, stale, s') ← backend.attr_wb filename fc.attr fc.stale s
    ok (code, set_file filename (record { stale = stale; attr = attr; entries = entries }) c, s')

  -- `Cache::flushBlocks`
  unfoldable pub flush_blocks : List ℕ → List ℕ → Cache → S → Result (ℕ × Cache × S)
  flush_blocks filename sorted_dblocks c s = do
    fc ← at filename c.file_map
    (code, fl) ← gather backend filename c.block_size fc.entries sorted_dblocks (record {
      flush_range = [];
      gathered = [];
      time = fc.attr.time;
      stale = fc.stale;
      behind = s;
    })
    if code == 0
        then (do
          (code', fl') ← write_rest backend filename fl
          if code' == 0
              then finish_flush filename sorted_dblocks (with_times fc fl') c fl'.behind
              else ok (code', set_file filename (with_times fc fl') c, fl'.behind))
        else ok (code, set_file filename (with_times fc fl) c, fl.behind)

  -- `Cache::flush`; what `flushBlocks` returns is not looked at
  unfoldable pub flush : List ℕ → Cache → S → Result (ℕ × Cache × S)
  flush filename c s = elim (find filename c.file_map) [
    | none ↦ ok (0, c, s)
    | some fc ↦
        if ltb 0 (length (dirty_blocks fc.entries))
        then (do
          (_, c', s') ← flush_blocks filename (sort (dirty_blocks fc.entries)) c s
          ok (0, c', s'))
        else ok (0, c, s)
  ]

  -- The second loop of `flushDirtyBlocks`, over the files with dirty blocks.
  unfoldable pub flush_groups : List (List ℕ × List ℕ) → Cache → S → Result (ℕ × Cache × S)
  flush_groups [] c s = ok (0, c, s)
  flush_groups ((filename, blocks) ∷ groups) c s = do
    (code, c', s') ← flush_blocks filename (sort blocks) c s
    elim (code == 0) [ true ↦ flush_groups groups c' s' | false ↦ ok (code, c', s') ]

  -- `Cache::flushDirtyBlocks`
  unfoldable pub flush_dirty_blocks : Cache → S → Result (ℕ × Cache × S)
  flush_dirty_blocks c s = do groups ← group_dirty c.file_map c.recent_list; flush_groups groups c s

  -- `Cache::evictBlocks`; the count is taken before the flush
  unfoldable pub evict_blocks : ℕ → Cache → S → Result (ℕ × Cache × S)
  evict_blocks count c s = do
    (code, c', s') ← flush_dirty_blocks c s
    if code == 0
        then (do c'' ← evict_loop (min (length c.recent_list) count) c'; ok (0, c'', s'))
        else ok (code, c', s')
