-- ===== src/Cache/Ops.antt =====
-- The operations that files call: `write`, `read`, `truncate`, `invalidate` and their parts in
-- client_src/cache.cpp. The loops of `write` and `read` take the number of bytes left as fuel.
use net_fs.Prelude.{
  ℕ, zero, suc, ◌+◌, ◌-◌, ◌*◌, ◌^◌, min, List, [], ◌∷◌, ◌++◌, length, take, drop, Bool, true, false,
  leb, ltb, ◌==◌, ◌||◌, wrap64, Option, none, some, nat_eq, string_eq, find, erase, at, Result, ok,
  err, no_fuel, assert, ◌>>=◌, ◌>>◌, if◌then◌else◌, replicate,
}
use net_fs.Time.{FileTime}
use net_fs.Range.{Range, insert_range}
use net_fs.Cache.Entry.{entry_fetch}
use net_fs.Cache.State.{FileCache, Cache, Backend}
use net_fs.Cache.Blocks.{
  set_file, set_entry, new_entry, write_block, read_block, is_full_block, delete_entry_beyond,
  block_number, block_offset, end_block, is_some,
}

-- `Cache::isStale`
unfoldable pub is_stale : List ℕ → Cache → Bool
is_stale filename c = elim (find filename c.file_map) [ none ↦ false | some fc ↦ fc.stale ]

-- `Cache::getFileTime`
unfoldable pub get_file_time : List ℕ → Cache → Option FileTime
get_file_time filename c = elim (find filename c.file_map) [
  | none ↦ none
  | some fc ↦ some fc.attr.time
]

-- `Cache::invalidate`
unfoldable pub invalidate : List ℕ → Cache → Result Cache
invalidate filename c = elim (find filename c.file_map) [
  | none ↦ ok c
  | some _ ↦ do
    c' ← delete_entry_beyond filename 0 c
    ok (record c' { file_map = erase filename c'.file_map })
]

-- The loop of `Cache::write`. `buf` is what is left of the caller's buffer.
unfoldable pub write_loop : ℕ → List ℕ → ℕ → ℕ → List ℕ → Cache → Result Cache
write_loop fuel filename curr_block bstart [] c = ok c
write_loop zero filename curr_block bstart (x ∷ buf) c = err no_fuel
write_loop (suc fuel) filename curr_block bstart (x ∷ buf) c =
    let bsize : ℕ = min (c.block_size - bstart) (length (x ∷ buf)) in
    do
      c' ← write_block filename curr_block bstart (take bsize (x ∷ buf)) c
      write_loop fuel filename (curr_block + 1) 0 (drop bsize (x ∷ buf)) c'

-- `attr.size = offset + size`, if that is more.
unfoldable pub grow : ℕ → FileCache → FileCache
grow end fc =
    if ltb fc.attr.size end then record fc { attr = record fc.attr { size = end } } else fc

-- The loop of `Cache::read`, with `left` bytes still to read: the bytes for the caller's buffer.
unfoldable pub read_loop : ℕ → List ℕ → ℕ → ℕ → ℕ → Cache → Result (List ℕ × Cache)
read_loop fuel filename curr_block bstart zero c = ok ([], c)
read_loop zero filename curr_block bstart (suc left) c = err no_fuel
read_loop (suc fuel) filename curr_block bstart (suc left) c =
    let bsize : ℕ = min (c.block_size - bstart) (suc left) in
    do
      (bytes, c') ← read_block filename curr_block bstart bsize c
      (rest, c'') ← read_loop fuel filename (curr_block + 1) 0 (suc left - bsize) c'
      ok (bytes ++ rest, c'')

-- The first loop of `cacheBlocks`, with `n` rounds left: the blocks that are not full.
unfoldable pub missing_blocks : FileCache → Cache → ℕ → ℕ → List Range → Result (List Range)
missing_blocks fc c b zero ranges = ok ranges
missing_blocks fc c b (suc n) ranges =
    if is_full_block fc b c
    then missing_blocks fc c (suc b) n ranges
    else (do ranges' ← insert_range b (b + 1) ranges; missing_blocks fc c (suc b) n ranges')

-- What the innermost loop of `cacheBlocks` does with one block.
unfoldable pub fetch_block : List ℕ → ℕ → List ℕ → Cache → Result Cache
fetch_block filename curr_block block c = do
  fc ← at filename c.file_map
  elim (find curr_block fc.entries) [
    | none ↦ do
      (entry, c') ← new_entry filename curr_block c
      entry' ← entry_fetch block entry
      set_entry filename curr_block entry' c'
    | some entry ↦ do entry' ← entry_fetch block entry; set_entry filename curr_block entry' c
  ]

-- The innermost loop of `cacheBlocks`, with `n` blocks left of what was fetched.
unfoldable pub fill_blocks : List ℕ → ℕ → ℕ → List ℕ → Cache → Result Cache
fill_blocks filename curr_block zero buf c = ok c
fill_blocks filename curr_block (suc n) buf c = do
  c' ← fetch_block filename curr_block (take c.block_size buf) c
  fill_blocks filename (curr_block + 1) n (drop c.block_size buf) c'

module _ {S : Type 0} (backend : Backend S) where
  -- `Cache::cacheFileAttr`
  unfoldable pub cache_file_attr : List ℕ → Cache → S → Result (ℕ × Cache × S)
  cache_file_attr filename c s = elim (find filename c.file_map) [
    | some _ ↦ ok (0, c, s)
    | none ↦ do
      (code, attr, s') ← backend.attr_ft filename s
      if code == 0
          then ok (0, set_file filename (record { stale = false; attr = attr; entries = [] }) c, s')
          else ok (code, c, s')
  ]

  -- `Cache::write`
  unfoldable pub write : List ℕ → ℕ → List ℕ → Cache → S → Result (ℕ × Cache × S)
  write filename offset buf c s = do
    (code, c₁, s') ← cache_file_attr filename c s
    if code == 0
        then (do
          fc ← at filename c₁.file_map
          c₂ ←
              write_loop (length buf) filename (block_number c₁ offset) (block_offset c₁ offset) buf
                (set_file filename (grow (wrap64 (offset + length buf)) fc) c₁)
          ok (0, c₂, s'))
        else ok (code, c₁, s')

  -- The write-back of a changed size in `Cache::truncate`.
  unfoldable pub resize : List ℕ → ℕ → Cache → S → Result (ℕ × Cache × S)
  resize filename fsize c s = do
    fc ← at filename c.file_map
    (code, attr, stale, s') ← backend.attr_wb filename (record fc.attr { size = fsize }) fc.stale s
    ok (code, set_file filename (record fc { attr = attr; stale = stale }) c, s')

  -- `Cache::truncate`
  unfoldable pub truncate : List ℕ → ℕ → Cache → S → Result (ℕ × Cache × S)
  truncate filename fsize c s = do
    (code, c₁, s') ← cache_file_attr filename c s
    if code == 0
        then (do
          fc ← at filename c₁.file_map
          if ltb fsize fc.attr.size
              then (do
                c₂ ← delete_entry_beyond filename (if fsize == 0 then 0 else end_block c₁ fsize) c₁
                resize filename fsize c₂ s')
              else if ltb fc.attr.size fsize
              then resize filename fsize c₁ s'
              else ok (0, c₁, s'))
        else ok (code, c₁, s')

  -- The second loop of `cacheBlocks`, over the ranges of blocks to fetch.
  unfoldable pub fetch_ranges : List ℕ → List Range → Cache → S → Result (ℕ × Cache × S)
  fetch_ranges filename [] c s = ok (0, c, s)
  fetch_ranges filename (rg ∷ ranges) c s = do
    (code, buf, read_size, s') ←
        backend.content_ft filename (wrap64 (rg.start * c.block_size))
          (replicate (wrap64 ((rg.end - rg.start) * c.block_size)) 0) s
    elim (code == 0) [
      | true ↦ do
        c' ← fill_blocks filename rg.start (rg.end - rg.start) buf c
        fetch_ranges filename ranges c' s'
      | false ↦ ok (code, c, s')
    ]

  -- `Cache::cacheBlocks`
  unfoldable pub cache_blocks : List ℕ → ℕ → ℕ → Cache → S → Result (ℕ × Cache × S)
  cache_blocks filename block_start block_end c s = do
    assert (is_some (find filename c.file_map))
    fc ← at filename c.file_map
    if fc.attr.size == 0 then ok (0, c, s) else (do
      ranges ← missing_blocks fc c block_start (block_end - block_start) []
      fetch_ranges filename ranges (record c { last_read_hit = length ranges == 0 }) s)

  -- The part of `Cache::read` after its tests, for a size that ends within the file.
  unfoldable pub read_within : List ℕ → ℕ → ℕ → Cache → S → Result (ℕ × List ℕ × Cache × S)
  read_within filename offset size c s = do
    (code, c₁, s') ←
        cache_blocks filename (block_number c offset) (end_block c (wrap64 (offset + size))) c s
    if code == 0
        then (do
          (bytes, c₂) ←
              read_loop size filename (block_number c₁ offset) (block_offset c₁ offset) size c₁
          ok (0, bytes, c₂, s'))
        else ok (code, [], c₁, s')

  -- `Cache::read`, whose offset is a signed number of 64 bits: the error code and the bytes for
  -- the caller's buffer, as many as `read_size` says.
  unfoldable pub read : List ℕ → ℕ → ℕ → Cache → S → Result (ℕ × List ℕ × Cache × S)
  read filename offset size c s = do
    (code, c₁, s') ← cache_file_attr filename c s
    if code == 0
        then (do
          fc ← at filename c₁.file_map
          assert (ltb offset (2 ^ 63))
          if leb fc.attr.size offset || size == 0
              then ok (0, [], c₁, s')
              else read_within filename offset
                  (if ltb fc.attr.size (wrap64 (offset + size))
                    then fc.attr.size - offset
                    else size)
                  c₁ s')
        else ok (code, [], c₁, s')
