-- ===== src/Cache/ReachTests.antt =====
-- A run of client_src/cache.hpp from its constructor: a file asked for and written, and then cut.
use net_fs.Prelude.{
  ℕ, [], ◌∷◌, nat_eq, string_eq, find, at, put, str_eq, some, ok, ◌≡◌, ◌≢◌, ◌⊎◌, refl, arith,
}
use net_fs.Range.{insert_range}
use net_fs.Cache.Entry.{entry_write, empty_entry, copy_into}
use net_fs.Cache.State.{FileCache}
use net_fs.Cache.Blocks.{
  write_block, new_entry, set_entry, find_use, delete_entry_beyond, drop_beyond, erase_use,
  end_block,
}
use net_fs.Cache.Ops.{cache_file_attr, write, write_loop, grow, truncate, resize}
use net_fs.Cache.Sound.{IsSound}
use net_fs.Cache.FlushTests.{name, storage, blank, attr, empty_file, known_file, written}
use net_fs.Cache.Truncate.{Replies, Truncated, truncate_lem}
use net_fs.Cache.Reach.{new_cache, Reached, start, next, asked, wrote, Reached-IsSound}

attr_known : cache_file_attr storage name (new_cache 4) blank ≡ ok (0, known_file, blank)
unfolding new_cache cache_file_attr find put
attr_known = refl

two_written : write storage name 5 (7 ∷ 8 ∷ []) known_file blank ≡ ok (0, written, blank)
unfolding write cache_file_attr find at put str_eq write_loop write_block grow entry_write
    insert_range find_use new_entry set_entry copy_into empty_entry
two_written = refl

written-Reached : Reached storage 4 written blank
written-Reached = next (next start (asked name attr_known)) (wrote name 5 (7 ∷ 8 ∷ []) two_written)

Reached-IsSound_example : IsSound written
Reached-IsSound_example =
    Reached-IsSound storage 4 written blank (omega arith) (omega arith) written-Reached

written_known : cache_file_attr storage name written blank ≡ ok (0, written, blank)
unfolding cache_file_attr find str_eq
written_known = refl

abbrev storage_replies : Replies storage
storage_replies =
    λ f a stale s. record { code = 0; attr = a; now_stale = stale; behind = s; run = refl }

truncate_lem_example :
    ((◌≢◌ {A = ℕ} 0 0) × (truncate storage name 4 written blank ≡ ok (0, written, blank)))
    ⊎ ((◌≡◌ {A = ℕ} 0 0)
        × (fc : FileCache) × (find name written.file_map ≡ some fc)
        × (((fc.attr.size ≡ 4) × (truncate storage name 4 written blank ≡ ok (0, written, blank)))
            ⊎ ((fc.attr.size ≢ 4)
                × Truncated storage storage_replies name 4 written blank written blank fc)))
truncate_lem_example =
    truncate_lem storage storage_replies name 4 written blank 0 written blank
      (Reached-IsSound storage 4 written blank (omega arith) (omega arith) written-Reached)
      written_known

-- The block with the written bytes starts where the file ends now.
last_block_cut :
    truncate storage name 4 written blank
    ≡ ok (
      0,
      record known_file {
        file_map = (name, record empty_file { attr = record attr { size = 4 } }) ∷ [];
        next_node = 1;
      },
      blank,
    )
unfolding truncate cache_file_attr find at put str_eq delete_entry_beyond drop_beyond erase_use
    end_block resize
last_block_cut = refl
