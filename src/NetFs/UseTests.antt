-- ===== src/NetFs/UseTests.antt =====
-- A run of the operations in client_src/netfs.cpp: a file of a new mount is written.
use net_fs.Prelude.{
  ℕ, suc, [], ◌∷◌, false, find, at, put, str_eq, nat_eq, string_eq, ok, err, assertion, ◌≡◌, refl,
  arith,
}
use net_fs.Range.{insert_range}
use net_fs.Msg
use net_fs.Cache.Entry.{dirty, entry_write, empty_entry, copy_into}
use net_fs.Cache.Blocks.{write_block, new_entry, set_entry, find_use}
use net_fs.Cache.Ops.{cache_file_attr, write_loop, grow}
use net_fs.Cache.Ops
use net_fs.Cache.Reach.{new_cache}
use net_fs.NetFs.State.{Peer, NetFs, exchange, as_stat}
use net_fs.NetFs.Remote.{do_read_attr, callbacks}
use net_fs.NetFs.Ops.{write, evict, count_write}
use net_fs.NetFs.Sound.{SoundFs}
use net_fs.NetFs.Reach.{fresh, after, wrote, Used-SoundFs}
use net_fs.NetFs.CheckTests.{name, early, attr}

abbrev mounted : NetFs ℕ
mounted = record {
  link = record { msg_id = 4; behind = 0 };
  cache = new_cache 4;
  max_cache_entry = 8;
  evict_count = 2;
  flush_interval = 16;
  write_op_count = 0;
}

-- A server on which every file has three bytes, and whose state counts the messages.
abbrev server : Peer ℕ
server (Msg.stat m) p = ok (
  Msg.stat_resp
      (record { id = m.id; error = 0; stat = record { size = 3; mode = 33188; time = early } }),
  suc p,
)
server msg p = err assertion

-- The attributes are asked for, and the byte waits in the cache.
abbrev written : NetFs ℕ
written = record mounted {
  link = record { msg_id = 5; behind = 1 };
  write_op_count = 1;
  cache = record {
    file_map =
        (
          name,
          record {
            stale = false;
            attr = attr;
            entries =
                (
                  0,
                  record {
                    state = dirty;
                    content = 0 ∷ 7 ∷ 0 ∷ 0 ∷ [];
                    valid_ranges = record { start = 1; end = 2 } ∷ [];
                    use_record = 0;
                  },
                )
                ∷ [];
          },
        )
        ∷ [];
    recent_list = record { node = 0; entry_id = record { filename = name; block_num = 0 } } ∷ [];
    next_node = 1;
    block_size = 4;
    last_read_hit = false;
  };
}

one_written : write server name 1 (7 ∷ []) mounted ≡ ok (0, written)
unfolding write new_cache Ops.write cache_file_attr do_read_attr exchange as_stat find at put str_eq
    write_loop write_block grow entry_write insert_range find_use new_entry set_entry copy_into
    empty_entry evict count_write callbacks
one_written = refl

Used-SoundFs_example : SoundFs written
Used-SoundFs_example =
    Used-SoundFs server 4 written (omega arith) (omega arith)
      (after (fresh {fs = mounted} refl) (wrote name 1 (7 ∷ []) 0 one_written))
