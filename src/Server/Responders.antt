-- ===== src/Server/Responders.antt =====
-- The responders of server_src/msg_response.cpp, the table of them, and one round of the loop of
-- `run` in server_src/StorageServerConnection.cpp. The file operations of server_src/fileop.hpp are
-- an interface: each returns its errno and what it leaves in the arguments that it takes by
-- reference.
use net_fs.Prelude.{
  ℕ, ◌-◌, List, ◌++◌, length, take, ltb, replicate, Result, ok, err, out_of_range, length_error,
  assert, ◌^◌, true, false, ◌>>=◌, ◌>>◌,
}
use net_fs.Time.{TimeSpec, FileTime}
use net_fs.Msg.{
  Msg, access, access_resp, statfs, statfs_resp, create, create_resp, stat, stat_resp, readdir,
  readdir_resp, read, read_resp, write, write_resp, truncate, truncate_resp, unlink, unlink_resp,
  rmdir, rmdir_resp, mkdir, mkdir_resp, rename, rename_resp, serialize_msg, unserialize_msg,
}
use net_fs.Msg.Access.{MsgAccess}
use net_fs.Msg.Create.{MsgCreate}
use net_fs.Msg.Stat.{MsgStat, Stat}
use net_fs.Msg.Statfs.{MsgStatfs, FsStat}
use net_fs.Msg.Readdir.{MsgReaddir}
use net_fs.Msg.Read.{MsgRead}
use net_fs.Msg.Write.{MsgWrite}
use net_fs.Msg.Truncate.{MsgTruncate}
use net_fs.Msg.Unlink.{MsgUnlink}
use net_fs.Msg.Rmdir.{MsgRmdir}
use net_fs.Msg.Mkdir.{MsgMkdir}
use net_fs.Msg.Rename.{MsgRename}

-- The fields of `struct stat` that are used.
pub record StatBuf : Type 0 where
  pub st_size : ℕ
  pub st_mode : ℕ
  pub st_atim : TimeSpec
  pub st_mtim : TimeSpec
  pub st_ctim : TimeSpec

unfoldable pub make_file_time : StatBuf → FileTime
make_file_time st = record { atime = st.st_atim; ctime = st.st_ctim; mtime = st.st_mtim }

pub record FileOp (S : Type 0) : Type 0 where
  pub op_access : List ℕ → S → ℕ × FileTime × S
  pub op_creat : List ℕ → S → ℕ × S
  pub op_stat : List ℕ → S → ℕ × StatBuf × S
  pub op_statfs : S → ℕ × FsStat × S
  pub op_readdir : List ℕ → S → ℕ × List (List ℕ) × S
  -- the third argument is the buffer; it and the count of bytes read are left
  pub op_read : List ℕ → ℕ → List ℕ → S → ℕ × List ℕ × ℕ × S
  pub op_write : List ℕ → ℕ → List ℕ → S → ℕ × FileTime × FileTime × S
  pub op_truncate : List ℕ → ℕ → S → ℕ × FileTime × FileTime × S
  pub op_unlink : List ℕ → S → ℕ × S
  pub op_rmdir : List ℕ → S → ℕ × S
  pub op_mkdir : List ℕ → ℕ → S → ℕ × S
  pub op_rename : List ℕ → List ℕ → ℕ → S → ℕ × S

-- `std::vector::resize`
unfoldable pub resize : ℕ → List ℕ → List ℕ
resize n bytes = take n bytes ++ replicate (n - length bytes) 0

module _ {S : Type 0} (op : FileOp S) where
  unfoldable pub respond_access : MsgAccess → S → Result (Msg × S)
  respond_access m s =
      let (error, time, s') = op.op_access m.filename s in
      ok (access_resp (record { id = m.id; error = error; time = time }), s')

  unfoldable pub respond_create : MsgCreate → S → Result (Msg × S)
  respond_create m s =
      let (error, s') = op.op_creat m.filename s in
      ok (create_resp (record { id = m.id; error = error }), s')

  unfoldable pub respond_stat : MsgStat → S → Result (Msg × S)
  respond_stat m s =
      let (error, stbuf, s') = op.op_stat m.filename s in
      let stat' : Stat = record {
        size = stbuf.st_size;
        mode = stbuf.st_mode;
        time = make_file_time stbuf;
      } in
      ok (stat_resp (record { id = m.id; error = error; stat = stat' }), s')

  unfoldable pub respond_statfs : MsgStatfs → S → Result (Msg × S)
  respond_statfs m s =
      let (error, stat', s') = op.op_statfs s in
      ok (statfs_resp (record { id = m.id; error = error; stat = stat' }), s')

  unfoldable pub respond_readdir : MsgReaddir → S → Result (Msg × S)
  respond_readdir m s =
      let (error, names, s') = op.op_readdir m.filename s in
      ok (readdir_resp (record { id = m.id; error = error; dir_names = names }), s')

  -- The size is a signed number of 64 bits; as the size of a `std::vector` it throws if it is
  -- negative.
  unfoldable pub respond_read : MsgRead → S → Result (Msg × S)
  respond_read m s = elim (ltb m.size (2 ^ 63)) [
    | false ↦ err length_error
    | true ↦
        let (error, bytes, read_size, s') = op.op_read m.filename m.offset (replicate m.size 0) s in
        ok (read_resp (record { id = m.id; error = error; content = resize read_size bytes }), s')
  ]

  unfoldable pub respond_write : MsgWrite → S → Result (Msg × S)
  respond_write m s = do
    assert (ltb 0 (length m.content))
    let (error, before, after, s') = op.op_write m.filename m.offset m.content s
    ok (
      write_resp
          (record { id = m.id; error = error; before_change = before; after_change = after }),
      s',
    )

  unfoldable pub respond_truncate : MsgTruncate → S → Result (Msg × S)
  respond_truncate m s =
      let (error, before, after, s') = op.op_truncate m.filename m.offset s in
      ok (
        truncate_resp
            (record { id = m.id; error = error; before_change = before; after_change = after }),
        s',
      )

  unfoldable pub respond_unlink : MsgUnlink → S → Result (Msg × S)
  respond_unlink m s =
      let (error, s') = op.op_unlink m.filename s in
      ok (unlink_resp (record { id = m.id; error = error }), s')

  unfoldable pub respond_rmdir : MsgRmdir → S → Result (Msg × S)
  respond_rmdir m s =
      let (error, s') = op.op_rmdir m.filename s in
      ok (rmdir_resp (record { id = m.id; error = error }), s')

  unfoldable pub respond_mkdir : MsgMkdir → S → Result (Msg × S)
  respond_mkdir m s =
      let (error, s') = op.op_mkdir m.filename m.mode s in
      ok (mkdir_resp (record { id = m.id; error = error }), s')

  unfoldable pub respond_rename : MsgRename → S → Result (Msg × S)
  respond_rename m s =
      let (error, s') = op.op_rename m.from m.to m.flags s in
      ok (rename_resp (record { id = m.id; error = error }), s')

  -- `responder_map.at` of the message's type, and the responder that it holds. The table has no
  -- entry for a response.
  unfoldable pub respond : Msg → S → Result (Msg × S)
  respond (access m) s = respond_access m s
  respond (create m) s = respond_create m s
  respond (statfs m) s = respond_statfs m s
  respond (stat m) s = respond_stat m s
  respond (readdir m) s = respond_readdir m s
  respond (read m) s = respond_read m s
  respond (write m) s = respond_write m s
  respond (truncate m) s = respond_truncate m s
  respond (unlink m) s = respond_unlink m s
  respond (rmdir m) s = respond_rmdir m s
  respond (mkdir m) s = respond_mkdir m s
  respond (rename m) s = respond_rename m s
  respond msg s = err out_of_range

  -- One round of the loop: what is sent, what is left of the stream, and the new state.
  unfoldable pub serve : List ℕ → S → Result (List ℕ × List ℕ × S)
  serve received s = do
    (msg, rest) ← unserialize_msg received
    (resp, s') ← respond msg s
    ok (serialize_msg resp, rest, s')
