-- ===== src/NetFs/State.antt =====
-- The state of `NetFS` in client_src/netfs.hpp, and the exchange of messages in
-- client_src/netfs.cpp.
use net_fs.Prelude.{ℕ, Result, ok, err, assertion, ◌>>=◌, ◌+◌, ◌%◌, ◌^◌}
use net_fs.Msg.{
  Msg, access_resp, create_resp, stat_resp, statfs_resp, readdir_resp, read_resp, write_resp,
  truncate_resp, unlink_resp, rmdir_resp, mkdir_resp, rename_resp,
}
use net_fs.Msg.Access.{MsgAccessResp}
use net_fs.Msg.Create.{MsgCreateResp}
use net_fs.Msg.Stat.{MsgStatResp}
use net_fs.Msg.Statfs.{MsgStatfsResp}
use net_fs.Msg.Readdir.{MsgReaddirResp}
use net_fs.Msg.Read.{MsgReadResp}
use net_fs.Msg.Write.{MsgWriteResp}
use net_fs.Msg.Truncate.{MsgTruncateResp}
use net_fs.Msg.Unlink.{MsgUnlinkResp}
use net_fs.Msg.Rmdir.{MsgRmdirResp}
use net_fs.Msg.Mkdir.{MsgMkdirResp}
use net_fs.Msg.Rename.{MsgRenameResp}
use net_fs.Cache.State.{Cache}

-- The other side of the connection: what it answers to a message, over its own state.
abbrev pub Peer : Type 0 → Type 0
Peer P = Msg → P → Result (Msg × P)

pub record Link (P : Type 0) : Type 0 where
  pub msg_id : ℕ
  pub behind : P

pub record NetFs (P : Type 0) : Type 0 where
  pub link : Link P
  pub cache : Cache
  pub max_cache_entry : ℕ
  pub evict_count : ℕ
  pub flush_interval : ℕ
  pub write_op_count : ℕ

-- `sendMsg` of a message with the next id, and `recvMsg`. The id that was used is passed on. It is
-- taken to wrap around as a 32-bit number.
unfoldable pub exchange : {P : Type 0} → Peer P → (ℕ → Msg) → Link P → Result (ℕ × Msg × Link P)
exchange peer make link = do
  (resp, behind) ← peer (make link.msg_id) link.behind
  ok (link.msg_id, resp, record { msg_id = (link.msg_id + 1) % 2 ^ 32; behind = behind })

-- The link after an exchange that left `p` behind it.
abbrev pub next_link : {P : Type 0} → Link P → P → Link P
next_link link p = record { msg_id = (link.msg_id + 1) % 2 ^ 32; behind = p }

-- `dynamic_cast` to the response that is due, and the assertion that it is one.
unfoldable pub as_access : Msg → Result MsgAccessResp
as_access (access_resp r) = ok r
as_access msg = err assertion

unfoldable pub as_create : Msg → Result MsgCreateResp
as_create (create_resp r) = ok r
as_create msg = err assertion

unfoldable pub as_stat : Msg → Result MsgStatResp
as_stat (stat_resp r) = ok r
as_stat msg = err assertion

unfoldable pub as_statfs : Msg → Result MsgStatfsResp
as_statfs (statfs_resp r) = ok r
as_statfs msg = err assertion

unfoldable pub as_readdir : Msg → Result MsgReaddirResp
as_readdir (readdir_resp r) = ok r
as_readdir msg = err assertion

unfoldable pub as_read : Msg → Result MsgReadResp
as_read (read_resp r) = ok r
as_read msg = err assertion

unfoldable pub as_write : Msg → Result MsgWriteResp
as_write (write_resp r) = ok r
as_write msg = err assertion

unfoldable pub as_truncate : Msg → Result MsgTruncateResp
as_truncate (truncate_resp r) = ok r
as_truncate msg = err assertion

unfoldable pub as_unlink : Msg → Result MsgUnlinkResp
as_unlink (unlink_resp r) = ok r
as_unlink msg = err assertion

unfoldable pub as_rmdir : Msg → Result MsgRmdirResp
as_rmdir (rmdir_resp r) = ok r
as_rmdir msg = err assertion

unfoldable pub as_mkdir : Msg → Result MsgMkdirResp
as_mkdir (mkdir_resp r) = ok r
as_mkdir msg = err assertion

unfoldable pub as_rename : Msg → Result MsgRenameResp
as_rename (rename_resp r) = ok r
as_rename msg = err assertion
