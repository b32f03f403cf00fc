-- ===== src/Cache/FlushTests.antt =====
-- Tests of flushing and evicting in client_src/cache.cpp, and their theorems at concrete inputs.
use net_fs.Prelude.{
  ◌^◌, ℕ, ◌-◌, List, [], ◌∷◌, Option, none, some, get_elem?, get_elem?_within, length, take, str_eq,
  string_eq, nat_eq, ◌&&◌, true, false, if◌then◌else◌, find, put, at, Unique, Result, ok, err, ◌≡◌,
  ◌⊎◌, refl, sym, subst, ◌∙◌, arith, Bool-cases, inl, inr,
}
use net_fs.Range.{insert_range}
use net_fs.Cache.Entry.{CacheEntry, dirty, entry_clean, empty_entry, entry_write, copy_into}
use net_fs.Cache.State.{FileAttr, FileCache, Cache, Backend}
use net_fs.Cache.Blocks.{write_block, new_entry, set_entry, find_use}
use net_fs.Cache.Valid.{IsValid, find_entry, use_of}
use net_fs.Cache.WriteBlock.{write_block_lem}
use net_fs.Cache.Span.{in_span}
use net_fs.Cache.Flush.{
  flush, flush_blocks, flush_dirty_blocks, evict_blocks, evict_loop, dirty_blocks, sort, gather,
  write_rest, write_back, clean_blocks, finish_flush, flush_ranges, flush_round, start_range,
  insert_number,
}
use net_fs.Cache.Ops.{invalidate}
use net_fs.Cache.Gather.{Refused, Stores}
use net_fs.Cache.FlushAll.{InBounds}
use net_fs.Cache.FlushOut.{Kept, Flushed, FlushOf, flush_lem, flush_dirty_blocks_lem}
use net_fs.Cache.EvictBlocks.{Evicts, evict_blocks_lem}
use net_fs.Cache.Evict.{unrecorded, evict_loop_lem}
use net_fs.Cache.Remove.{Removed}
use net_fs.Cache.Keyed.{Keyed}
use net_fs.Cache.Invalidate.{Invalidated, invalidate_lem}

abbrev pub name : List ℕ
name = b'a' ∷ []

abbrev pub attr : FileAttr
attr = record {
  size = 8;
  mode = 33188;
  time = record {
    atime = record { time_sec = 1; time_nsec = 0 };
    ctime = record { time_sec = 1; time_nsec = 0 };
    mtime = record { time_sec = 1; time_nsec = 0 };
  };
}

abbrev pub empty_file : FileCache
empty_file = record { stale = false; attr = attr; entries = [] }

abbrev pub known_file : Cache
known_file = record {
  file_map = (name, empty_file) ∷ [];
  recent_list = [];
  next_node = 0;
  block_size = 4;
  last_read_hit = false;
}

no_entry : (f : List ℕ) (b : ℕ) → find_entry known_file f b ≡ none
unfolding find_entry find
no_entry f b = ground arith

known_file-IsValid : IsValid known_file
unfolding find_use
known_file-IsValid = record {
  positive = omega arith;
  small = omega arith;
  blocks = λ f b e h. absurd (ground (arith, no_entry f b));
  recorded = λ f b e h. absurd (ground (arith, no_entry f b));
  used = λ n u h. absurd cc;
  fresh = λ n u h. absurd cc;
  distinct = tt;
}

-- The block 1 of the file, with two bytes written.
abbrev block : CacheEntry
block = record {
  state = dirty;
  content = 0 ∷ 7 ∷ 8 ∷ 0 ∷ [];
  valid_ranges = record { start = 1; end = 3 } ∷ [];
  use_record = 0;
}

abbrev written_file : FileCache
written_file = record { stale = false; attr = attr; entries = (1, block) ∷ [] }

abbrev pub written : Cache
written = record {
  file_map = (name, written_file) ∷ [];
  recent_list = use_of name 1 0 ∷ [];
  next_node = 1;
  block_size = 4;
  last_read_hit = false;
}

written_run : write_block name 1 1 (7 ∷ 8 ∷ []) known_file ≡ ok written
unfolding write_block find str_eq at new_entry put empty_entry entry_write insert_range copy_into
    set_entry
written_run = refl

known : find name known_file.file_map ≡ some empty_file
unfolding find str_eq
known = refl

written-IsValid : IsValid written
written-IsValid =
    let (c', run, wrote) =
      write_block_lem known_file name 1 1 (7 ∷ 8 ∷ []) empty_file known_file-IsValid known
        (omega arith) (omega arith) in
    let same : ok c' ≡ ok written = sym run ∙ written_run in
    let same' : c' ≡ written = cc in subst IsValid same' wrote.valid

written-InBounds : InBounds (2 ^ 64) written
unfolding find_entry find
written-InBounds g k e h = ground arith

written-Keyed : Keyed written
unfolding find Unique
written-Keyed g fc h = elim (Bool-cases (str_eq name g)) [
  | inl here ↦
      let same : written_file ≡ fc = ground arith in
      subst (λ (d : FileCache). Unique d.entries) same (refl, tt)
  | inr other ↦ absurd (ground arith)
]

-- A server that is its files.
abbrev pub Files : Type 0
Files = List ℕ → ℕ → ℕ

abbrev or_zero : Option ℕ → ℕ
or_zero none = 0
or_zero (some b) = b

abbrev stored : List ℕ → ℕ → List ℕ → Files → Files
stored f offset buf s = λ g pos.
    if str_eq f g && in_span offset (length buf) pos
    then or_zero (get_elem? buf (pos - offset))
    else s g pos

abbrev pub storage : Backend Files
storage = record {
  content_wb = λ f offset buf time stale s. ok (0, time, stale, stored f offset buf s);
  attr_wb = λ f a stale s. ok (0, a, stale, s);
  content_ft = λ f offset buf s. ok (0, buf, length buf, s);
  attr_ft = λ f s. ok (0, attr, s);
}

abbrev files_of : Files → List ℕ → ℕ → ℕ
files_of s = s

storage-Stores : Stores storage (2 ^ 64) files_of
storage-Stores = record {
  within = omega arith;
  writes = λ f offset buf time stale s some_bytes below. (
    0,
    time,
    stale,
    stored f offset buf s,
    refl,
    inr (λ g pos. written_byte f offset buf s g pos),
  );
  resizes = λ f a stale s. (0, a, stale, s, refl, λ g pos h. refl);
}
  where
    written_byte :
        (f : List ℕ) (offset : ℕ) (buf : List ℕ) (s : Files) (g : List ℕ) (pos : ℕ)
        → some (stored f offset buf s g pos) ≡ (
            if str_eq f g && in_span offset (length buf) pos
            then get_elem? buf (pos - offset)
            else some (s g pos))
    written_byte f offset buf s g pos =
        elim (Bool-cases (str_eq f g && in_span offset (length buf) pos)) [
          | inl inner ↦
              let (b, byte) = get_elem?_within buf (pos - offset) (ground arith) in
              rw (inner, byte) refl
          | inr outer ↦ rw outer refl
        ]

abbrev pub blank : Files
blank f pos = 0

flush_lem_example :
    FlushOf storage
      (2 ^ 64)
      files_of
      storage-Stores
      written
      blank
      written-IsValid
      written-InBounds
      name
flush_lem_example =
    flush_lem storage (2 ^ 64) files_of storage-Stores written blank written-IsValid
      written-InBounds name written-Keyed

flush_dirty_blocks_lem_example :
    (code : ℕ) × (c' : Cache) × (s' : Files) × (flush_dirty_blocks storage written blank
      ≡ ok (code, c', s'))
    × ((Refused storage code s' × Kept written c')
        ⊎ ((code ≡ 0) × Flushed files_of (λ g. true) written c' blank s'))
flush_dirty_blocks_lem_example =
    flush_dirty_blocks_lem storage (2 ^ 64) files_of storage-Stores written blank written-IsValid
      written-InBounds

evict_blocks_lem_example :
    (code : ℕ) × (c' : Cache) × (s' : Files) × (evict_blocks storage 3 written blank
      ≡ ok (code, c', s'))
    × ((Refused storage code s' × Kept written c')
        ⊎ ((code ≡ 0) × Evicts files_of 3 written c' blank s'))
evict_blocks_lem_example =
    evict_blocks_lem storage (2 ^ 64) files_of storage-Stores 3 written blank written-IsValid
      written-InBounds

evict_loop_lem_example :
    (c' : Cache) × (evict_loop 1 written ≡ ok c')
    × (c'.recent_list ≡ take (length written.recent_list - 1) written.recent_list)
    × Removed (unrecorded written c'.recent_list) written c'
evict_loop_lem_example = evict_loop_lem 1 written written-IsValid (omega arith)

invalidate_lem_example :
    (c' : Cache) × (invalidate name written ≡ ok c') × Invalidated name written c'
invalidate_lem_example = invalidate_lem name written written-IsValid written-Keyed

-- What a flush leaves on the server.
abbrev server_after : Result (ℕ × Cache × Files) → Files
server_after (ok (_, _, s)) = s
server_after (err e) = blank

flushed_bytes :
    server_after (flush storage name written blank) name 5
      ∷ server_after (flush storage name written blank) name 6
      ∷ server_after (flush storage name written blank) name 7
      ∷ []
    ≡ 7 ∷ 8 ∷ 0 ∷ []
unfolding flush find str_eq dirty_blocks sort insert_number flush_blocks at gather flush_ranges
    flush_round start_range insert_range write_rest write_back finish_flush clean_blocks put
    entry_clean
flushed_bytes = refl
