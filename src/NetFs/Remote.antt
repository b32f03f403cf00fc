-- ===== src/NetFs/Remote.antt =====
-- The four callbacks of the cache in client_src/netfs.cpp: `do_write`, `do_read`, `do_read_attr`
-- and `do_write_attr`.
use net_fs.Prelude.{
  ℕ, List, ◌++◌, length, drop, leb, ◌==◌, ◌%◌, ◌^◌, Bool, true, if◌then◌else◌, Result, ok, assert,
  ◌>>=◌, ◌>>◌,
}
use net_fs.Time.{FileTime, file_time_ne}
use net_fs.Msg.{read, write, stat, truncate}
use net_fs.Cache.State.{FileAttr, Backend}
use net_fs.NetFs.State.{Peer, Link, exchange, as_read, as_write, as_stat, as_truncate}

-- Whether the time before a change is another than the cached one, or the file was stale before.
abbrev pub marked : FileTime → FileTime → Bool → Bool
marked before cached stale = if file_time_ne before cached then true else stale

-- What an attribute argument holds that was not assigned; no caller looks at it.
abbrev unset_attr : FileAttr
unset_attr = record {
  size = 0;
  mode = 0;
  time = record {
    atime = record { time_sec = 0; time_nsec = 0 };
    ctime = record { time_sec = 0; time_nsec = 0 };
    mtime = record { time_sec = 0; time_nsec = 0 };
  };
}

module _ {P : Type 0} (peer : Peer P) where
  -- `NetFS::do_write`
  unfoldable pub do_write :
      List ℕ → ℕ → List ℕ → FileTime → Bool → Link P → Result (ℕ × FileTime × Bool × Link P)
  do_write filename offset buf cached_time stale link = do
    (id, resp, link') ←
        exchange peer
          (λ id. write (record { id = id; filename = filename; offset = offset; content = buf }))
          link
    r ← as_write resp
    assert (r.id == id)
    if r.error == 0
        then ok (0, r.after_change, marked r.before_change cached_time stale, link')
        else ok (r.error, cached_time, true, link')

  -- `NetFS::do_read`; the id of the response is not looked at. `read_size` is 0 where it is not
  -- assigned.
  unfoldable pub do_read : List ℕ → ℕ → List ℕ → Link P → Result (ℕ × List ℕ × ℕ × Link P)
  do_read filename offset buf link = do
    (id, resp, link') ←
        exchange peer
          (λ id. read (record { id = id; filename = filename; offset = offset; size = length buf }))
          link
    r ← as_read resp
    assert (leb (length r.content) (length buf))
    if r.error == 0
        then ok (0, r.content ++ drop (length r.content) buf, length r.content, link')
        else ok (r.error, buf, 0, link')

  -- `NetFS::do_read_attr`; `mode_t` has 32 bits
  unfoldable pub do_read_attr : List ℕ → Link P → Result (ℕ × FileAttr × Link P)
  do_read_attr filename link = do
    (id, resp, link') ← exchange peer (λ id. stat (record { id = id; filename = filename })) link
    r ← as_stat resp
    assert (r.id == id)
    if r.error == 0
        then ok (
          0,
          record { size = r.stat.size; mode = r.stat.mode % 2 ^ 32; time = r.stat.time },
          link',
        )
        else ok (r.error, unset_attr, link')

  -- `NetFS::do_write_attr`
  unfoldable pub do_write_attr :
      List ℕ → FileAttr → Bool → Link P → Result (ℕ × FileAttr × Bool × Link P)
  do_write_attr filename attr stale link = do
    (id, resp, link') ←
        exchange peer (λ id. truncate (record { id = id; filename = filename; offset = attr.size }))
          link
    r ← as_truncate resp
    assert (r.id == id)
    if r.error == 0
        then ok (
          0,
          record attr { time = r.after_change },
          marked r.before_change attr.time stale,
          link',
        )
        else ok (r.error, attr, true, link')

  -- The callbacks that the constructor binds.
  unfoldable pub callbacks : Backend (Link P)
  callbacks = record {
    content_wb = do_write;
    attr_wb = do_write_attr;
    content_ft = do_read;
    attr_ft = do_read_attr;
  }
