-- ===== src/NetFs/Tests.antt =====
-- Tests of the operations in client_src/netfs.cpp, and their theorems at concrete inputs.
use net_fs.Prelude.{
  Bool, ◌↔◌, ℕ, suc, ◌^◌, ◌+◌, List, [], ◌∷◌, take, drop, length-take, get_elem?, get_elem?-take,
  get_elem?-drop, ltb, true, false, ok, err, assertion, ◌≡◌, refl, ap, ◌∙◌, arith, inr, string_eq,
  nat_eq,
}
use net_fs.Msg.{Msg, read, read_resp, mkdir_resp, write, write_resp, truncate, truncate_resp}
use net_fs.Cache.Fetch.{Serves}
use net_fs.NetFs.State.{Peer, NetFs, exchange, as_mkdir}
use net_fs.NetFs.Remote.{callbacks, do_write, do_write_attr}
use net_fs.Time.{FileTime}
use net_fs.Cache.State.{FileAttr}
use net_fs.NetFs.Serving.{byte_or_zero, ReadsFile, callbacks-Serves}
use net_fs.NetFs.Staleness.{Undisturbed, do_write_lem, do_write_attr_lem}
use net_fs.NetFs.Ops.{mkdir}

abbrev file_bytes : List ℕ
file_bytes = 72 ∷ 105 ∷ 33 ∷ []

abbrev remote : List ℕ → ℕ → ℕ
remote f pos = byte_or_zero (get_elem? file_bytes pos)

abbrev early : FileTime
early = record {
  atime = record { time_sec = 1; time_nsec = 0 };
  ctime = record { time_sec = 2; time_nsec = 0 };
  mtime = record { time_sec = 3; time_nsec = 0 };
}

abbrev late : FileTime
late = record early { mtime = record { time_sec = 4; time_nsec = 0 } }

-- A server on which every file has these bytes, and that changes no size and creates no directory.
abbrev server : Peer ℕ
server (read m) p = ok (
  read_resp (record { id = m.id; error = 0; content = take m.size (drop m.offset file_bytes) }),
  suc p,
)
server (write m) p = ok (
  write_resp (record { id = m.id; error = 0; before_change = early; after_change = late }),
  suc p,
)
server (truncate m) p = ok (
  truncate_resp (record { id = m.id; error = 13; before_change = early; after_change = late }),
  suc p,
)
server (Msg.mkdir m) p = ok (mkdir_resp (record { id = m.id; error = 13 }), suc p)
server msg p = err assertion

server-ReadsFile : ReadsFile server (2 ^ 63) remote
server-ReadsFile = record {
  within = omega arith;
  answers = λ m p below. (
    record { id = m.id; error = 0; content = take m.size (drop m.offset file_bytes) },
    suc p,
    refl,
    omega (arith, length-take m.size (drop m.offset file_bytes)),
    inr (λ i h.
        let inner : ltb i m.size ≡ true = ground arith in
        ap byte_or_zero {y = get_elem? file_bytes (m.offset + i)} (
          get_elem?-take m.size (drop m.offset file_bytes) i
          ∙ rw inner (get_elem?-drop m.offset file_bytes i))),
  );
}

callbacks-Serves_example : Serves (callbacks server) (2 ^ 63) remote
callbacks-Serves_example = callbacks-Serves server (2 ^ 63) remote server-ReadsFile

abbrev mounted : NetFs ℕ
mounted = record {
  link = record { msg_id = 4; behind = 0 };
  cache = record {
    file_map = [];
    recent_list = [];
    next_node = 0;
    block_size = 4;
    last_read_hit = false;
  };
  max_cache_entry = 8;
  evict_count = 2;
  flush_interval = 16;
  write_op_count = 0;
}

-- The error code of the server is passed on, and the next message has the next id.
mkdir_refused :
    mkdir server (97 ∷ []) 493 mounted
    ≡ ok (13, record mounted { link = record { msg_id = 5; behind = 1 } })
unfolding mkdir exchange as_mkdir
mkdir_refused = refl

-- The file was changed between the cached times and the write.
do_write_lem_example :
    (time : FileTime) × (stale' : Bool) × (do_write server
        (97 ∷ [])
        2
        (7 ∷ [])
        late
        false
        mounted.link
      ≡ ok (0, time, stale', record { msg_id = 5; behind = 1 }))
    × (time ≡ late)
    × ((stale' ≡ false) ↔ Undisturbed false 0 early late)
do_write_lem_example =
    do_write_lem server (97 ∷ []) false mounted.link 1 2 (7 ∷ []) late
      (record { id = 4; error = 0; before_change = early; after_change = late }) refl refl

abbrev attr : FileAttr
attr = record { size = 3; mode = 33188; time = early }

do_write_attr_lem_example :
    (attr' : FileAttr) × (stale' : Bool) × (do_write_attr server (97 ∷ []) attr false mounted.link
      ≡ ok (13, attr', stale', record { msg_id = 5; behind = 1 }))
    × (attr' ≡ attr)
    × ((stale' ≡ false) ↔ Undisturbed false 13 early early)
do_write_attr_lem_example =
    do_write_attr_lem server (97 ∷ []) false mounted.link 1 attr
      (record { id = 4; error = 13; before_change = early; after_change = late }) refl refl
