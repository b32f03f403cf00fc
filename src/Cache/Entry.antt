-- ===== src/Cache/Entry.antt =====
-- `CacheEntry` of client_src/cache.hpp: one block of a file, with the parts of it that are valid.
use net_fs.Prelude.{
  Bool, true, false, ℕ, ◌+◌, List, [], ◌++◌, length, take, drop, leb, ◌==◌, wrap64, Result, ok,
  assert, ◌>>=◌, ◌>>◌, replicate,
}
use net_fs.Range.{Range, insert_range, overlay}

-- The enumeration `CacheEntry::State`.
pub data State : Type 0 where
  clean dirty : State

-- `use_record` is the node of the usage list that the iterator stands on.
pub record CacheEntry : Type 0 where
  pub state : State
  pub content : List ℕ
  pub valid_ranges : List Range
  pub use_record : ℕ

-- The constructor.
unfoldable pub empty_entry : ℕ → ℕ → CacheEntry
empty_entry block_size use_record = record {
  state = clean;
  content = replicate block_size 0;
  valid_ranges = [];
  use_record = use_record;
}

abbrev pub entry_size : CacheEntry → ℕ
entry_size e = length e.content

-- `std::copy(buf, buf + size, &_data[offset])`
unfoldable pub copy_into : ℕ → List ℕ → List ℕ → List ℕ
copy_into offset buf content = take offset content ++ (buf ++ drop (offset + length buf) content)

-- `CacheEntry::write`
unfoldable pub entry_write : ℕ → List ℕ → CacheEntry → Result CacheEntry
unfolding copy_into
entry_write offset buf e = do
  assert (leb (wrap64 (offset + length buf)) (entry_size e))
  ranges ← insert_range offset (wrap64 (offset + length buf)) e.valid_ranges
  ok (record e { content = copy_into offset buf e.content; valid_ranges = ranges; state = dirty })

-- `CacheEntry::fetch`: what is valid in the entry is laid over what was fetched.
unfoldable pub entry_fetch : List ℕ → CacheEntry → Result CacheEntry
entry_fetch fetched e = do
  assert (length fetched == entry_size e)
  filled ← overlay e.content e.valid_ranges fetched
  ranges ← insert_range 0 (entry_size e) e.valid_ranges
  ok (record e { content = filled; valid_ranges = ranges })

-- `CacheEntry::clean`
unfoldable pub entry_clean : CacheEntry → CacheEntry
entry_clean e = record e { state = clean }

abbrev pub is_dirty : CacheEntry → Bool
is_dirty e = elim e.state [ dirty ↦ true | clean ↦ false ]
