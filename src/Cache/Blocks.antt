-- ===== src/Cache/Blocks.antt =====
-- The operations of `Cache` on single blocks and on the usage list, in client_src/cache.cpp.
use net_fs.Prelude.{
  ℕ, ◌+◌, ◌-◌, ◌/◌, ◌%◌, suc, List, [], ◌∷◌, ◌++◌, length, take, drop, Bool, true, false, leb, ◌==◌,
  ◌&&◌, wrap64, nat_eq, string_eq, Option, none, some, find, put, erase, at, Result, ok, err,
  assertion, bad_access, assert, ◌>>=◌, ◌>>◌, if◌then◌else◌,
}
use net_fs.Range.{Range}
use net_fs.Cache.Entry.{CacheEntry, empty_entry, entry_write}
use net_fs.Cache.State.{Use, FileCache, Cache}

abbrev pub block_number : Cache → ℕ → ℕ
block_number c offset = offset / c.block_size

abbrev pub block_offset : Cache → ℕ → ℕ
block_offset c offset = offset % c.block_size

unfoldable pub end_block : Cache → ℕ → ℕ
end_block c fsize = if fsize == 0 then 0 else block_number c (fsize - 1) + 1

abbrev pub is_some {ℓ} : {A : Type ℓ} → Option A → Bool
is_some none = false
is_some (some a) = true

abbrev pub is_none {ℓ} : {A : Type ℓ} → Option A → Bool
is_none none = true
is_none (some a) = false

-- A file's cache after a change made through a reference to it.
abbrev pub set_file : List ℕ → FileCache → Cache → Cache
set_file filename fc c = record c { file_map = put filename fc c.file_map }

-- `_recent_list.erase` at an iterator
unfoldable pub erase_use : ℕ → List Use → Result (List Use)
erase_use node [] = err bad_access
erase_use node (u ∷ us) = elim (u.node == node) [
  | true ↦ ok us
  | false ↦ do rest ← erase_use node us; ok (u ∷ rest)
]

unfoldable pub find_use : ℕ → List Use → Option Use
find_use node [] = none
find_use node (u ∷ us) = if u.node == node then some u else find_use node us

-- `Cache::newEntry`, at the end of the list, where every caller puts the new record. The entry that
-- it returns a reference to is the one that the new state holds.
unfoldable pub new_entry : List ℕ → ℕ → Cache → Result (CacheEntry × Cache)
unfolding empty_entry
new_entry filename block_num c = do
  fc ← at filename c.file_map
  assert (is_none (find block_num fc.entries))
  let entry = empty_entry c.block_size c.next_node
  let fc' = record fc { entries = put block_num entry fc.entries }
  ok (
    entry,
    record c {
      file_map = put filename fc' c.file_map;
      recent_list =
          c.recent_list
          ++ record {
            node = c.next_node;
            entry_id = record { filename = filename; block_num = block_num };
          }
            ∷ [];
      next_node = suc c.next_node;
    },
  )

-- The entry that a caller got a reference to, changed.
unfoldable pub set_entry : List ℕ → ℕ → CacheEntry → Cache → Result Cache
set_entry filename block_num e c = do
  fc ← at filename c.file_map
  ok (set_file filename (record fc { entries = put block_num e fc.entries }) c)

-- `Cache::writeBlock`
unfoldable pub write_block : List ℕ → ℕ → ℕ → List ℕ → Cache → Result Cache
unfolding new_entry set_entry
write_block filename block_num offset buf c = do
  assert (leb (wrap64 (offset + length buf)) c.block_size)
  fc ← at filename c.file_map
  elim (find block_num fc.entries) [
    | none ↦ do
      (entry, c') ← new_entry filename block_num c
      entry' ← entry_write offset buf entry
      set_entry filename block_num entry' c'
    | some entry ↦ do entry' ← entry_write offset buf entry; set_entry filename block_num entry' c
  ]

-- `Cache::deleteEntry`
unfoldable pub delete_entry : List ℕ → ℕ → Cache → Result Cache
unfolding erase_use
delete_entry filename block_num c = do
  fc ← at filename c.file_map
  elim (find block_num fc.entries) [
    | none ↦ err assertion
    | some entry ↦ do
      recent ← erase_use entry.use_record c.recent_list
      ok (record (set_file filename (record fc { entries = erase block_num fc.entries }) c) {
        recent_list = recent;
      })
  ]

-- The loop of `deleteEntryBeyond` over the entries of a file.
unfoldable pub drop_beyond :
    ℕ → List (ℕ × CacheEntry) → List Use → Result (List (ℕ × CacheEntry) × List Use)
unfolding erase_use
drop_beyond block_bound [] recent = ok ([], recent)
drop_beyond block_bound ((b, entry) ∷ entries) recent = elim (leb block_bound b) [
  | true ↦ do recent' ← erase_use entry.use_record recent; drop_beyond block_bound entries recent'
  | false ↦ do
    (kept, recent') ← drop_beyond block_bound entries recent
    ok ((b, entry) ∷ kept, recent')
]

-- `Cache::deleteEntryBeyond`
unfoldable pub delete_entry_beyond : List ℕ → ℕ → Cache → Result Cache
unfolding drop_beyond
delete_entry_beyond filename block_bound c = do
  assert (is_some (find filename c.file_map))
  fc ← at filename c.file_map
  (entries, recent) ← drop_beyond block_bound fc.entries c.recent_list
  ok (record (set_file filename (record fc { entries = entries }) c) { recent_list = recent })

-- `Cache::moveToHead`
unfoldable pub move_to_head : ℕ → Cache → Result Cache
unfolding erase_use find_use
move_to_head node c = elim (find_use node c.recent_list) [
  | none ↦ err bad_access
  | some u ↦ do rest ← erase_use node c.recent_list; ok (record c { recent_list = u ∷ rest })
]

unfoldable pub full_ranges : ℕ → List Range → Bool
full_ranges block_size (r ∷ []) = r.start == 0 && r.end == block_size
full_ranges block_size ranges = false

-- `Cache::isFullBlock`
unfoldable pub is_full_block : FileCache → ℕ → Cache → Bool
unfolding full_ranges
is_full_block fc block_num c = elim (find block_num fc.entries) [
  | none ↦ false
  | some entry ↦ full_ranges c.block_size entry.valid_ranges
]

-- `Cache::readBlock`: the bytes that go to the caller's buffer.
unfoldable pub read_block : List ℕ → ℕ → ℕ → ℕ → Cache → Result (List ℕ × Cache)
unfolding is_full_block move_to_head
read_block filename block_num offset size c = do
  assert (is_some (find filename c.file_map))
  assert (leb (wrap64 (offset + size)) c.block_size)
  fc ← at filename c.file_map
  entry ← at block_num fc.entries
  assert (is_full_block fc block_num c)
  c' ← move_to_head entry.use_record c
  ok (take size (drop offset entry.content), c')
