-- ===== src/Cache/Tests.antt =====
-- Tests of the block cache of client_src/cache.cpp, and its theorems at concrete inputs.
use net_fs.Prelude.{
  inr, replicate, length-replicate, ◌+◌, ap, ◌∙◌, sym, ◌%◌, ◌^◌, zero, suc, ◌<◌, ℕ, suc, ◌-◌, ◌∷◌,
  List, [], none, str_eq, put, at, some, if◌then◌else◌, ◌&&◌, leb, ltb, length, get_elem?, Result,
  ok, err, Bool, false, ◌≡◌, ◌≢◌, ◌⊎◌, refl, arith, find, string_eq, nat_eq,
}
use net_fs.Range.{insert_range, overlay}
use net_fs.Cache.Entry.{CacheEntry, dirty, empty_entry, copy_into, entry_write, entry_fetch}
use net_fs.Cache.Contents.{
  IsBlock, byte_at, or_else, empty_entry-IsBlock, entry_write_lem, entry_fetch_lem,
}
use net_fs.Cache.State.{FileCache, FileAttr, Cache, Backend}
use net_fs.Cache.Blocks.{
  erase_use, find_use, write_block, end_block, is_full_block, move_to_head, new_entry, read_block,
  set_entry,
}
use net_fs.Cache.Valid.{IsValid, find_entry}
use net_fs.Cache.Store.{file_facts}
use net_fs.Cache.WriteBlock.{Wrote, write_block_lem}
use net_fs.Cache.Ops.{
  cache_file_attr, write, read, write_loop, grow, read_within, cache_blocks, missing_blocks,
  fetch_ranges, fill_blocks, fetch_block, read_loop,
}
use net_fs.Cache.Fetch.{Serves}
use net_fs.Cache.ReadOut.{Ends, read_lem}
use net_fs.Cache.ReadWrite.{ReadsBack, read-write}
use net_fs.Cache.Written.{Written, grown, write_lem}

-- Two bytes written into a new block of four.
entry_write_lem_example :
    (e' : CacheEntry) × (entry_write 1 (7 ∷ 8 ∷ []) (empty_entry 4 0) ≡ ok e')
    × IsBlock 4 e'
    × (e'.state ≡ dirty)
    × (e'.use_record ≡ (empty_entry 4 0).use_record)
    × ((x : ℕ)
        → byte_at e' x ≡ (
            if leb 1 x && ltb x 3
            then get_elem? (7 ∷ 8 ∷ []) (x - 1)
            else byte_at (empty_entry 4 0) x))
entry_write_lem_example =
    entry_write_lem 4 1 (7 ∷ 8 ∷ []) (empty_entry 4 0) (omega arith) (empty_entry-IsBlock 4 0)
      (omega arith) (omega arith)

entry_fetch_lem_example :
    (e' : CacheEntry) × (entry_fetch (1 ∷ 2 ∷ 3 ∷ 4 ∷ []) (empty_entry 4 0) ≡ ok e')
    × IsBlock 4 e'
    × (e'.state ≡ (empty_entry 4 0).state)
    × (e'.use_record ≡ (empty_entry 4 0).use_record)
    × (e'.valid_ranges ≡ record { start = 0; end = 4 } ∷ [])
    × ((x : ℕ)
        → byte_at e' x ≡ or_else (byte_at (empty_entry 4 0) x) (get_elem? (1 ∷ 2 ∷ 3 ∷ 4 ∷ []) x))
entry_fetch_lem_example =
    entry_fetch_lem 4 (1 ∷ 2 ∷ 3 ∷ 4 ∷ []) (empty_entry 4 0) (omega arith) (empty_entry-IsBlock 4 0)
      refl

abbrev name : List ℕ
name = b'a' ∷ []

abbrev attr : FileAttr
attr = record {
  size = 4;
  mode = 33188;
  time = record {
    atime = record { time_sec = 1; time_nsec = 0 };
    ctime = record { time_sec = 1; time_nsec = 0 };
    mtime = record { time_sec = 1; time_nsec = 0 };
  };
}

-- The bytes of the file on the server.
abbrev remote : List ℕ → ℕ → ℕ
remote f pos = (10 + pos) % 256

unfoldable filled : List ℕ → ℕ → ℕ → List ℕ
filled f start zero = []
filled f start (suc n) = remote f start ∷ filled f (suc start) n

length-filled : (f : List ℕ) (start n : ℕ) → length (filled f start n) ≡ n
unfolding filled
length-filled f start zero = refl
length-filled f start (suc n) = ap suc (length-filled f (suc start) n)

get_elem?-filled :
    (f : List ℕ) (start n i : ℕ)
    → i < n
    → get_elem? (filled f start n) i ≡ some (remote f (start + i))
unfolding filled
get_elem?-filled f start zero i h = absurd (omega arith)
get_elem?-filled f start (suc n) zero h = ap (λ (p : ℕ). some (remote f p)) (omega arith)
get_elem?-filled f start (suc n) (suc i) h =
    get_elem?-filled f (suc start) n i (omega arith)
    ∙ ap (λ (p : ℕ). some (remote f p)) (omega arith)

-- A server that answers every request; what stands behind is a count of the calls.
abbrev server : Backend ℕ
server = record {
  content_wb = λ f offset buf time stale s. ok (0, time, stale, suc s);
  attr_wb = λ f a stale s. ok (0, a, stale, suc s);
  content_ft = λ f offset buf s. ok (0, filled f offset (length buf), length buf, suc s);
  attr_ft = λ f s. ok (0, attr, suc s);
}

server-Serves : Serves server (2 ^ 63) remote
server-Serves = record {
  within = omega arith;
  replies = λ f offset size s below.
      let len : length (replicate size 0) ≡ size = length-replicate size 0 in
      (
        0,
        filled f offset (length (replicate size 0)),
        length (replicate size 0),
        suc s,
        refl,
        inr (length-filled f offset _ ∙ len, λ i h. get_elem?-filled f offset _ i (omega arith)),
      );
}

abbrev empty_cache : Cache
empty_cache = record {
  file_map = [];
  recent_list = [];
  next_node = 0;
  block_size = 4;
  last_read_hit = false;
}

abbrev known_file : Cache
known_file = record empty_cache {
  file_map = (name, record { stale = false; attr = attr; entries = [] }) ∷ [];
}

no_entry : (f : List ℕ) (b : ℕ) → find_entry known_file f b ≡ none
unfolding find_entry find
no_entry f b = ground arith

known_file-IsValid : IsValid known_file
unfolding find_use
known_file-IsValid = record {
  positive = omega arith;
  small = omega arith;
  blocks = λ f b e h. absurd (ground (arith, no_entry f b));
  recorded = λ f b e h. absurd (ground (arith, no_entry f b));
  used = λ n u h. absurd cc;
  fresh = λ n u h. absurd cc;
  distinct = tt;
}

empty_cache-IsValid : IsValid empty_cache
unfolding find_use find_entry find
empty_cache-IsValid = record {
  positive = omega arith;
  small = omega arith;
  blocks = λ f b e h. absurd cc;
  recorded = λ f b e h. absurd cc;
  used = λ n u h. absurd cc;
  fresh = λ n u h. absurd cc;
  distinct = tt;
}

found : find name known_file.file_map ≡ some (record { stale = false; attr = attr; entries = [] })
unfolding find str_eq
found = refl

write_block_lem_example :
    (c' : Cache) × (write_block name 3 1 (7 ∷ 8 ∷ []) known_file ≡ ok c')
    × Wrote known_file c' name 3 1 (7 ∷ 8 ∷ [])
write_block_lem_example =
    write_block_lem known_file name 3 1 (7 ∷ 8 ∷ [])
      (record { stale = false; attr = attr; entries = [] }) known_file-IsValid found (omega arith)
      (omega arith)

attr_fetched : cache_file_attr server name empty_cache 0 ≡ ok (0, known_file, 1)
unfolding cache_file_attr find put
attr_fetched = refl

-- Two bytes that lie in two blocks.
write_lem_example :
    ((◌≢◌ {A = ℕ} 0 0) × (write server name 3 (7 ∷ 8 ∷ []) empty_cache 0 ≡ ok (0, empty_cache, 1)))
    ⊎ ((◌≡◌ {A = ℕ} 0 0)
        × (c' : Cache) × (write server name 3 (7 ∷ 8 ∷ []) empty_cache 0 ≡ ok (0, c', 1))
        × Written empty_cache c' name 3 (7 ∷ 8 ∷ [])
        × (facts : FileAttr × Bool) × (file_facts known_file name ≡ some facts)
        × (file_facts c' name ≡ some (grown 5 facts)))
write_lem_example =
    write_lem server name 3 (7 ∷ 8 ∷ []) empty_cache 0 0 known_file 1 empty_cache-IsValid
      (omega arith) attr_fetched

-- What is read after that write: the written byte over those that the server has.
abbrev read_bytes_of : {S : Type 0} → Result (ℕ × List ℕ × Cache × S) → List ℕ
read_bytes_of (ok (_, bytes, _, _)) = bytes
read_bytes_of (err e) = []

abbrev state_of : Result (ℕ × Cache × ℕ) → Cache
state_of (ok (_, c, _)) = c
state_of (err e) = empty_cache

read_back :
    read_bytes_of
      (read server name 1 9 (state_of (write server name 3 (7 ∷ 8 ∷ []) empty_cache 0)) 1)
    ≡ 11 ∷ 12 ∷ 7 ∷ 8 ∷ []
unfolding read write filled cache_file_attr find at put str_eq write_loop write_block grow
    entry_write insert_range read_within cache_blocks missing_blocks end_block is_full_block
    fetch_ranges fill_blocks fetch_block erase_use find_use move_to_head new_entry read_block
    set_entry copy_into empty_entry entry_fetch read_loop overlay
read_back = refl

file_found : (fc : FileCache) → find name known_file.file_map ≡ some fc → fc.attr.size + 4 < 2 ^ 63
file_found fc h =
    let same : record { stale = false; attr = attr; entries = [] } ≡ fc =
      (let e = sym found ∙ h in cc) in
    let size : 4 ≡ fc.attr.size = ap (λ (d : FileCache). d.attr.size) same in omega arith

read_lem_example :
    ((◌≢◌ {A = ℕ} 0 0) × (read server name 1 9 empty_cache 0 ≡ ok (0, [], empty_cache, 1)))
    ⊎ ((◌≡◌ {A = ℕ} 0 0)
        × (fc : FileCache) × (find name known_file.file_map ≡ some fc)
        × Ends server (2 ^ 63) remote server-Serves name 1 9 empty_cache 0 fc)
read_lem_example =
    read_lem server (2 ^ 63) remote server-Serves name 1 9 empty_cache 0 0 known_file 1
      empty_cache-IsValid (omega arith) (omega arith) attr_fetched file_found

known_facts : file_facts known_file name ≡ some (attr, false)
unfolding file_facts find str_eq
known_facts = refl

read-write_example :
    (c' : Cache) × (write server name 3 (7 ∷ 8 ∷ []) empty_cache 0 ≡ ok (0, c', 1))
    × ReadsBack server name 3 (7 ∷ 8 ∷ []) c' 1
read-write_example =
    read-write server (2 ^ 63) remote server-Serves name 3 (7 ∷ 8 ∷ []) empty_cache known_file 0 1
      attr false empty_cache-IsValid attr_fetched known_facts (omega arith)
