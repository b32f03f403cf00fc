-- ===== src/NetFs/CheckTests.antt =====
-- Tests of what client_src/netfs.cpp keeps in the cache and drops, and the theorems on it at
-- concrete inputs.
use net_fs.Prelude.{
  ℕ, suc, List, [], ◌∷◌, none, false, find, at, put, erase, str_eq, nat_eq, string_eq, ok, err,
  assertion, ◌≡◌, ◌≢◌, ◌⊎◌, refl, arith,
}
use net_fs.Time.{FileTime, file_time_eq, file_time_ne, time_spec_eq}
use net_fs.Msg
use net_fs.Cache.State.{FileAttr, Cache}
use net_fs.Cache.Blocks.{delete_entry_beyond, drop_beyond}
use net_fs.Cache.Ops.{is_stale, get_file_time, invalidate}
use net_fs.Cache.Sound.{IsSound}
use net_fs.Cache.SoundOps.{new_file-IsSound}
use net_fs.Cache.Reach.{new_cache, new_cache-IsSound}
use net_fs.NetFs.State.{Peer, NetFs, exchange, as_access}
use net_fs.NetFs.Ops.{access, stat, unlink, rename, with_cache, drop_if_changed}
use net_fs.NetFs.Checking.{UpToDate, KeptIf, access_lem, stat_lem}
use net_fs.NetFs.Dropping.{GoneIf, BothGone, unlink_lem, rename_lem}

abbrev pub name : List ℕ
name = 97 ∷ []

abbrev other : List ℕ
other = 98 ∷ []

abbrev pub early : FileTime
early = record {
  atime = record { time_sec = 1; time_nsec = 0 };
  ctime = record { time_sec = 2; time_nsec = 0 };
  mtime = record { time_sec = 3; time_nsec = 0 };
}

abbrev late : FileTime
late = record early { mtime = record { time_sec = 4; time_nsec = 0 } }

abbrev pub attr : FileAttr
attr = record { size = 3; mode = 33188; time = early }

abbrev known : Cache
known = record {
  file_map = (name, record { stale = false; attr = attr; entries = [] }) ∷ [];
  recent_list = [];
  next_node = 0;
  block_size = 4;
  last_read_hit = false;
}

known-IsSound : IsSound known
unfolding new_cache find put
known-IsSound =
    new_file-IsSound (new_cache 4) name attr (new_cache-IsSound 4 (omega arith) (omega arith)) refl

abbrev mounted : NetFs ℕ
mounted = record {
  link = record { msg_id = 4; behind = 0 };
  cache = known;
  max_cache_entry = 8;
  evict_count = 2;
  flush_interval = 16;
  write_op_count = 0;
}

-- A server on which files were changed, and whose state counts the messages.
abbrev server : Peer ℕ
server (Msg.access m) p = ok (Msg.access_resp (record { id = m.id; error = 0; time = late }), suc p)
server (Msg.stat m) p = ok (
  Msg.stat_resp
      (record { id = m.id; error = 2; stat = record { size = 0; mode = 0; time = early } }),
  suc p,
)
server (Msg.unlink m) p = ok (Msg.unlink_resp (record { id = m.id; error = 0 }), suc p)
server (Msg.rename m) p = ok (Msg.rename_resp (record { id = m.id; error = 0 }), suc p)
server msg p = err assertion

abbrev after : Cache → NetFs ℕ
after c = with_cache mounted c (record { msg_id = 5; behind = 1 })

-- A changed file is dropped.
access_drops : access server name mounted ≡ ok (0, after (record known { file_map = [] }))
unfolding access exchange as_access drop_if_changed is_stale get_file_time file_time_ne file_time_eq
    time_spec_eq invalidate delete_entry_beyond drop_beyond find at erase put str_eq
access_drops = refl

access_lem_example :
    (c' : Cache) × (access server name mounted ≡ ok (0, after c'))
    × KeptIf ((◌≡◌ {A = ℕ} 0 0) × UpToDate known name late) name known c'
access_lem_example =
    access_lem server name mounted 1 known-IsSound (record { id = 4; error = 0; time = late }) refl
      refl

stat_lem_example :
    (c' : Cache) × (stat server name mounted ≡ ok (2, none, after c'))
    × KeptIf ((◌≡◌ {A = ℕ} 2 0) × UpToDate known name early) name known c'
stat_lem_example =
    stat_lem server name mounted 1 known-IsSound
      (record { id = 4; error = 2; stat = record { size = 0; mode = 0; time = early } }) refl refl

unlink_lem_example :
    (c' : Cache) × (unlink server name mounted ≡ ok (0, after c')) × GoneIf 0 name known c'
unlink_lem_example =
    unlink_lem server name mounted 1 known-IsSound (record { id = 4; error = 0 }) refl refl

rename_lem_example :
    (c' : Cache) × (rename server name other 0 mounted ≡ ok (0, after c'))
    × (((◌≡◌ {A = ℕ} 0 0) × BothGone name other known c') ⊎ ((◌≢◌ {A = ℕ} 0 0) × (c' ≡ known)))
rename_lem_example =
    rename_lem server name mounted 1 known-IsSound other 0 (record { id = 4; error = 0 }) refl refl
