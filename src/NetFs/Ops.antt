-- ===== src/NetFs/Ops.antt =====
-- The public operations of `NetFS` in client_src/netfs.cpp. Each returns its error code and what it
-- leaves in the arguments that it takes by reference.
use net_fs.Prelude.{
  ℕ, List, ◌+◌, length, leb, ltb, ◌==◌, Option, none, some, if◌then◌else◌, Result, ok, assert,
  ◌>>=◌, ◌>>◌,
}
use net_fs.Time.{FileTime, file_time_ne}
use net_fs.Msg
use net_fs.Msg.Statfs.{FsStat}
use net_fs.Cache.State.{FileAttr, Cache}
use net_fs.Cache.Ops.{is_stale, get_file_time, invalidate}
use net_fs.Cache.Ops
use net_fs.Cache.Flush.{evict_blocks, flush_dirty_blocks}
use net_fs.Cache.Flush
use net_fs.NetFs.State.{
  Peer, Link, NetFs, exchange, as_access, as_create, as_statfs, as_readdir, as_unlink, as_rmdir,
  as_mkdir, as_rename,
}
use net_fs.NetFs.Remote.{do_read_attr, callbacks}

abbrev pub with_cache : {P : Type 0} → NetFs P → Cache → Link P → NetFs P
with_cache fs cache link = record fs { cache = cache; link = link }

-- The checks of `access` and `stat`: a file goes from the cache if it was found stale, or if the
-- server has another time for it.
unfoldable pub drop_if_changed : List ℕ → FileTime → Cache → Result Cache
drop_if_changed filename time cache =
    if is_stale filename cache
    then invalidate filename cache
    else (elim (get_file_time filename cache) [
      | none ↦ ok cache
      | some cached_time ↦
          if file_time_ne cached_time time then invalidate filename cache else ok cache
    ])

module _ {P : Type 0} (peer : Peer P) where
  -- `NetFS::access`
  unfoldable pub access : List ℕ → NetFs P → Result (ℕ × NetFs P)
  access filename fs = do
    (id, resp, link) ←
        exchange peer (λ id. Msg.access (record { id = id; filename = filename })) fs.link
    r ← as_access resp
    assert (r.id == id)
    cache ←
        if r.error == 0
        then drop_if_changed filename r.time fs.cache
        else invalidate filename fs.cache
    ok (r.error, with_cache fs cache link)

  -- `NetFS::create`
  unfoldable pub create : List ℕ → NetFs P → Result (ℕ × NetFs P)
  create filename fs = do
    (id, resp, link) ←
        exchange peer (λ id. Msg.create (record { id = id; filename = filename })) fs.link
    r ← as_create resp
    assert (r.id == id)
    ok (r.error, record fs { link = link })

  -- `NetFS::stat`; the buffer's fields are those of the attributes, and it is left as it is on an
  -- error.
  unfoldable pub stat : List ℕ → NetFs P → Result (ℕ × Option FileAttr × NetFs P)
  stat filename fs = do
    (code, attr, link) ← do_read_attr peer filename fs.link
    if code == 0
        then (do
          cache ← drop_if_changed filename attr.time fs.cache
          ok (0, some attr, with_cache fs cache link))
        else (do cache ← invalidate filename fs.cache; ok (code, none, with_cache fs cache link))

  -- `NetFS::statfs`
  unfoldable pub statfs : NetFs P → Result (ℕ × Option FsStat × NetFs P)
  statfs fs = do
    (id, resp, link) ← exchange peer (λ id. Msg.statfs (record { id = id })) fs.link
    r ← as_statfs resp
    assert (r.id == id)
    if r.error == 0
        then ok (0, some r.stat, record fs { link = link })
        else ok (r.error, none, record fs { link = link })

  -- `NetFS::readdir`
  unfoldable pub readdir : List ℕ → NetFs P → Result (ℕ × Option (List (List ℕ)) × NetFs P)
  readdir filename fs = do
    (id, resp, link) ←
        exchange peer (λ id. Msg.readdir (record { id = id; filename = filename })) fs.link
    r ← as_readdir resp
    assert (r.id == id)
    if r.error == 0
        then ok (0, some r.dir_names, record fs { link = link })
        else ok (r.error, none, record fs { link = link })

  -- `NetFS::evict`
  unfoldable pub evict : NetFs P → Result (ℕ × NetFs P)
  evict fs =
      if ltb fs.max_cache_entry (length fs.cache.recent_list)
      then (do
        (code, cache, link) ← evict_blocks (callbacks peer) fs.evict_count fs.cache fs.link
        ok (code, with_cache fs cache link))
      else ok (0, fs)

  -- `NetFS::read`
  unfoldable pub read : List ℕ → ℕ → ℕ → NetFs P → Result (ℕ × List ℕ × NetFs P)
  read filename offset size fs = do
    (code, bytes, cache, link) ← Ops.read (callbacks peer) filename offset size fs.cache fs.link
    if code == 0
        then (do (code', fs') ← evict (with_cache fs cache link); ok (code', bytes, fs'))
        else ok (code, bytes, with_cache fs cache link)

  -- The end of `write`: after so many writes the dirty blocks are flushed, and what that returns is
  -- not looked at.
  unfoldable pub count_write : NetFs P → Result (NetFs P)
  count_write fs =
      if leb fs.flush_interval (fs.write_op_count + 1)
      then (do
        (_, cache, link) ← flush_dirty_blocks (callbacks peer) fs.cache fs.link
        ok (with_cache (record fs { write_op_count = 0 }) cache link))
      else ok (record fs { write_op_count = fs.write_op_count + 1 })

  -- `NetFS::write`
  unfoldable pub write : List ℕ → ℕ → List ℕ → NetFs P → Result (ℕ × NetFs P)
  write filename offset buf fs = do
    (code, cache, link) ← Ops.write (callbacks peer) filename offset buf fs.cache fs.link
    if code == 0
        then (do
          (code', fs') ← evict (with_cache fs cache link)
          if code' == 0 then (do fs'' ← count_write fs'; ok (0, fs'')) else ok (code', fs'))
        else ok (code, with_cache fs cache link)

  -- `NetFS::truncate`
  unfoldable pub truncate : List ℕ → ℕ → NetFs P → Result (ℕ × NetFs P)
  truncate filename offset fs = do
    (code, cache, link) ← Ops.truncate (callbacks peer) filename offset fs.cache fs.link
    ok (code, with_cache fs cache link)

  -- `NetFS::flush`
  unfoldable pub flush : List ℕ → NetFs P → Result (ℕ × NetFs P)
  flush filename fs = do
    (code, cache, link) ← Flush.flush (callbacks peer) filename fs.cache fs.link
    ok (code, with_cache fs cache link)

  -- `NetFS::unlink`
  unfoldable pub unlink : List ℕ → NetFs P → Result (ℕ × NetFs P)
  unlink filename fs = do
    (id, resp, link) ←
        exchange peer (λ id. Msg.unlink (record { id = id; filename = filename })) fs.link
    r ← as_unlink resp
    assert (r.id == id)
    cache ← if r.error == 0 then invalidate filename fs.cache else ok fs.cache
    ok (r.error, with_cache fs cache link)

  -- `NetFS::rmdir`
  unfoldable pub rmdir : List ℕ → NetFs P → Result (ℕ × NetFs P)
  rmdir filename fs = do
    (id, resp, link) ←
        exchange peer (λ id. Msg.rmdir (record { id = id; filename = filename })) fs.link
    r ← as_rmdir resp
    assert (r.id == id)
    cache ← if r.error == 0 then invalidate filename fs.cache else ok fs.cache
    ok (r.error, with_cache fs cache link)

  -- `NetFS::mkdir`
  unfoldable pub mkdir : List ℕ → ℕ → NetFs P → Result (ℕ × NetFs P)
  mkdir filename mode fs = do
    (id, resp, link) ←
        exchange peer (λ id. Msg.mkdir (record { id = id; filename = filename; mode = mode }))
          fs.link
    r ← as_mkdir resp
    assert (r.id == id)
    ok (r.error, record fs { link = link })

  -- `NetFS::rename`
  unfoldable pub rename : List ℕ → List ℕ → ℕ → NetFs P → Result (ℕ × NetFs P)
  rename from to flags fs = do
    (id, resp, link) ←
        exchange peer (λ id. Msg.rename (record { id = id; from = from; to = to; flags = flags }))
          fs.link
    r ← as_rename resp
    assert (r.id == id)
    cache ←
        if r.error == 0
        then (do cache' ← invalidate from fs.cache; invalidate to cache')
        else ok fs.cache
    ok (r.error, with_cache fs cache link)
