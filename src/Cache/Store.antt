-- ===== src/Cache/Store.antt =====
-- What a change of one entry leaves of the cache: the parts that `writeBlock` and `cacheBlocks` of
-- client_src/cache.cpp share.
use net_fs.Prelude.{
  ℕ, suc, List, [], ◌∷◌, ◌++◌, Option, none, some, str_eq, str_eq_iff, nat_eq, string_eq, Bool,
  if◌then◌else◌, find, put, at-find, find-put, ok, ◌≡◌, refl, ◌∙◌, arith, Bool-cases, inl, inr,
}
use net_fs.Cache.Entry.{CacheEntry, empty_entry}
use net_fs.Cache.Contents.{IsBlock, empty_entry-IsBlock}
use net_fs.Cache.State.{FileAttr, FileCache, Cache}
use net_fs.Cache.Blocks.{set_file, set_entry, new_entry}
use net_fs.Cache.Valid.{IsValid, find_entry, same_place, use_of, replaced-IsValid, added-IsValid}

-- A file's size, mode, times and stale mark.
unfoldable pub file_facts : Cache → List ℕ → Option (FileAttr × Bool)
file_facts c f = elim (find f c.file_map) [ none ↦ none | some fc ↦ some (fc.attr, fc.stale) ]

pub find_entry-file :
    (c : Cache) (f : List ℕ) (b : ℕ) (fc : FileCache)
    → find f c.file_map ≡ some fc
    → find_entry c f b ≡ find b fc.entries
unfolding find_entry
find_entry-file c f b fc h = ground arith

-- What changes in the cache when one entry of a file is put in place.
pub record Stored (c c' : Cache) (f : List ℕ) (b : ℕ) (e : CacheEntry) : Type 0 where
  pub valid : IsValid c'
  pub same_size : c'.block_size ≡ c.block_size
  pub same_facts : (g : List ℕ) → file_facts c' g ≡ file_facts c g
  pub now :
      (g : List ℕ) (k : ℕ)
      → find_entry c' g k ≡ (if same_place f b g k then some e else find_entry c g k)

module _ (c : Cache) (f : List ℕ) (b : ℕ) (fc : FileCache) (e : CacheEntry)
    (known : find f c.file_map ≡ some fc) where
  abbrev put_entry : FileCache
  put_entry = record fc { entries = put b e fc.entries }

  put_entry-find_entry :
      (c' : Cache)
      → c'.file_map ≡ put f put_entry c.file_map
      → (g : List ℕ) (k : ℕ)
      → find_entry c' g k ≡ (if same_place f b g k then some e else find_entry c g k)
  unfolding find_entry
  put_entry-find_entry c' h g k =
      let at_file = find-put f g put_entry c.file_map in
      let at_block = find-put b k e fc.entries in
      elim (Bool-cases (str_eq f g)) [
        | inl same ↦
            let ef : f ≡ g = (str_eq_iff f g).0 same in
            let known' : find g c.file_map ≡ some fc = rw (← ef) known in
            ground (arith, at_file, at_block, known', h)
        | inr other ↦ ground (arith, at_file, h)
      ]

  put_entry-file_facts :
      (c' : Cache)
      → c'.file_map ≡ put f put_entry c.file_map
      → (g : List ℕ) → file_facts c' g ≡ file_facts c g
  unfolding file_facts
  put_entry-file_facts c' h g =
      let at_file = find-put f g put_entry c.file_map in
      elim (Bool-cases (str_eq f g)) [
        | inl same ↦
            let ef : f ≡ g = (str_eq_iff f g).0 same in
            let known' : find g c.file_map ≡ some fc = rw (← ef) known in
            ground (arith, at_file, known', h)
        | inr other ↦ ground (arith, at_file, h)
      ]

-- An entry of the cache, changed.
pub set_entry-Stored :
    (c : Cache) (f : List ℕ) (b : ℕ) (fc : FileCache) (e e' : CacheEntry)
    → IsValid c
    → find f c.file_map ≡ some fc
    → find b fc.entries ≡ some e
    → IsBlock c.block_size e'
    → e'.use_record ≡ e.use_record
    → (c' : Cache) × (set_entry f b e' c ≡ ok c') × Stored c c' f b e'
unfolding set_entry
set_entry-Stored c f b fc e e' v known there block kept =
    let c' : Cache = set_file f (record fc { entries = put b e' fc.entries }) c in
    let now = put_entry-find_entry c f b fc e' known c' refl in
    (
      c',
      rw (at-find f c.file_map known) refl,
      record {
        valid =
            replaced-IsValid c c' f b e e' v (find_entry-file c f b fc known ∙ there) refl refl refl
              now block kept;
        same_size = refl;
        same_facts = put_entry-file_facts c f b fc e' known c' refl;
        now = now;
      },
    )

-- A new entry, with its record at the end of the usage list.
pub new_entry-Stored :
    (c : Cache) (f : List ℕ) (b : ℕ) (fc : FileCache)
    → IsValid c
    → find f c.file_map ≡ some fc
    → find b fc.entries ≡ none
    → (c' : Cache) × (new_entry f b c ≡ ok (empty_entry c.block_size c.next_node, c'))
      × Stored c c' f b (empty_entry c.block_size c.next_node)
unfolding new_entry
new_entry-Stored c f b fc v known absent =
    let e : CacheEntry = empty_entry c.block_size c.next_node in
    let c' : Cache = record c {
      file_map = put f (record fc { entries = put b e fc.entries }) c.file_map;
      recent_list = c.recent_list ++ use_of f b c.next_node ∷ [];
      next_node = suc c.next_node;
    } in
    let now = put_entry-find_entry c f b fc e known c' refl in
    (
      c',
      rw (at-find f c.file_map known, absent) refl,
      record {
        valid =
            added-IsValid c c' f b e v (find_entry-file c f b fc known ∙ absent) refl refl refl now
              (empty_entry-IsBlock c.block_size c.next_node) refl;
        same_size = refl;
        same_facts = put_entry-file_facts c f b fc e known c' refl;
        now = now;
      },
    )
