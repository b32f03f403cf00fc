-- ===== src/Msg.antt =====
-- common/msg_base.hpp, common/msg.hpp and common/msg.cpp: the messages of the protocol, how one is
-- written to a stream, and how the type at its front selects its reader. There is one module below
-- for each of the other message headers of common/.
pub mod Access
pub mod Statfs
pub mod Create
pub mod Stat
pub mod Readdir
pub mod Read
pub mod Write
pub mod Truncate
pub mod Unlink
pub mod Rmdir
pub mod Mkdir
pub mod Rename
mod Kinds
pub mod Codec
pub mod Stream
use net_fs.Prelude.{ℕ, List, [], ◌∷◌, ◌++◌, err, out_of_range, ◌==◌, true, false}
use net_fs.Serial.{Reader, pure, ◌>>=◌, serialize_pod, unserialize_pod}
use Access.{
  MsgAccess, serialize_access, unserialize_access, MsgAccessResp, serialize_access_resp,
  unserialize_access_resp,
}
use Statfs.{
  MsgStatfs, serialize_statfs, unserialize_statfs, MsgStatfsResp, serialize_statfs_resp,
  unserialize_statfs_resp,
}
use Create.{
  MsgCreate, serialize_create, unserialize_create, MsgCreateResp, serialize_create_resp,
  unserialize_create_resp,
}
use Stat.{
  MsgStat, serialize_stat, unserialize_stat, MsgStatResp, serialize_stat_resp,
  unserialize_stat_resp,
}
use Readdir.{
  MsgReaddir, serialize_readdir, unserialize_readdir, MsgReaddirResp, serialize_readdir_resp,
  unserialize_readdir_resp,
}
use Read.{
  MsgRead, serialize_read, unserialize_read, MsgReadResp, serialize_read_resp,
  unserialize_read_resp,
}
use Write.{
  MsgWrite, serialize_write, unserialize_write, MsgWriteResp, serialize_write_resp,
  unserialize_write_resp,
}
use Truncate.{
  MsgTruncate, serialize_truncate, unserialize_truncate, MsgTruncateResp, serialize_truncate_resp,
  unserialize_truncate_resp,
}
use Unlink.{
  MsgUnlink, serialize_unlink, unserialize_unlink, MsgUnlinkResp, serialize_unlink_resp,
  unserialize_unlink_resp,
}
use Rmdir.{
  MsgRmdir, serialize_rmdir, unserialize_rmdir, MsgRmdirResp, serialize_rmdir_resp,
  unserialize_rmdir_resp,
}
use Mkdir.{
  MsgMkdir, serialize_mkdir, unserialize_mkdir, MsgMkdirResp, serialize_mkdir_resp,
  unserialize_mkdir_resp,
}
use Rename.{
  MsgRename, serialize_rename, unserialize_rename, MsgRenameResp, serialize_rename_resp,
  unserialize_rename_resp,
}

pub data Msg : Type 0 where
  access : MsgAccess → Msg
  access_resp : MsgAccessResp → Msg
  statfs : MsgStatfs → Msg
  statfs_resp : MsgStatfsResp → Msg
  create : MsgCreate → Msg
  create_resp : MsgCreateResp → Msg
  stat : MsgStat → Msg
  stat_resp : MsgStatResp → Msg
  readdir : MsgReaddir → Msg
  readdir_resp : MsgReaddirResp → Msg
  read : MsgRead → Msg
  read_resp : MsgReadResp → Msg
  write : MsgWrite → Msg
  write_resp : MsgWriteResp → Msg
  truncate : MsgTruncate → Msg
  truncate_resp : MsgTruncateResp → Msg
  unlink : MsgUnlink → Msg
  unlink_resp : MsgUnlinkResp → Msg
  rmdir : MsgRmdir → Msg
  rmdir_resp : MsgRmdirResp → Msg
  mkdir : MsgMkdir → Msg
  mkdir_resp : MsgMkdirResp → Msg
  rename : MsgRename → Msg
  rename_resp : MsgRenameResp → Msg

-- The field `type`, a value of the enumeration `Msg::Type`.
unfoldable pub msg_type : Msg → ℕ
msg_type (access _) = 0
msg_type (access_resp _) = 1
msg_type (statfs _) = 2
msg_type (statfs_resp _) = 3
msg_type (create _) = 4
msg_type (create_resp _) = 5
msg_type (stat _) = 6
msg_type (stat_resp _) = 7
msg_type (readdir _) = 8
msg_type (readdir_resp _) = 9
msg_type (read _) = 10
msg_type (read_resp _) = 11
msg_type (write _) = 12
msg_type (write_resp _) = 13
msg_type (truncate _) = 14
msg_type (truncate_resp _) = 15
msg_type (unlink _) = 16
msg_type (unlink_resp _) = 17
msg_type (rmdir _) = 18
msg_type (rmdir_resp _) = 19
msg_type (mkdir _) = 20
msg_type (mkdir_resp _) = 21
msg_type (rename _) = 22
msg_type (rename_resp _) = 23

-- The virtual function `serializeBody`.
unfoldable pub serialize_body : Msg → List ℕ
serialize_body (access m) = serialize_access m
serialize_body (access_resp m) = serialize_access_resp m
serialize_body (statfs m) = serialize_statfs m
serialize_body (statfs_resp m) = serialize_statfs_resp m
serialize_body (create m) = serialize_create m
serialize_body (create_resp m) = serialize_create_resp m
serialize_body (stat m) = serialize_stat m
serialize_body (stat_resp m) = serialize_stat_resp m
serialize_body (readdir m) = serialize_readdir m
serialize_body (readdir_resp m) = serialize_readdir_resp m
serialize_body (read m) = serialize_read m
serialize_body (read_resp m) = serialize_read_resp m
serialize_body (write m) = serialize_write m
serialize_body (write_resp m) = serialize_write_resp m
serialize_body (truncate m) = serialize_truncate m
serialize_body (truncate_resp m) = serialize_truncate_resp m
serialize_body (unlink m) = serialize_unlink m
serialize_body (unlink_resp m) = serialize_unlink_resp m
serialize_body (rmdir m) = serialize_rmdir m
serialize_body (rmdir_resp m) = serialize_rmdir_resp m
serialize_body (mkdir m) = serialize_mkdir m
serialize_body (mkdir_resp m) = serialize_mkdir_resp m
serialize_body (rename m) = serialize_rename m
serialize_body (rename_resp m) = serialize_rename_resp m

-- `Msg::serialize`, and `serializeMsg`, which calls it
unfoldable pub serialize_msg : Msg → List ℕ
serialize_msg msg = serialize_pod 4 (msg_type msg) ++ serialize_body msg

unfoldable pub unserializor_lookup : List (ℕ × Reader Msg)
unserializor_lookup =
    (0, do m ← unserialize_access; pure (access m))
    ∷ (1, do m ← unserialize_access_resp; pure (access_resp m))
    ∷ (2, do m ← unserialize_statfs; pure (statfs m))
    ∷ (3, do m ← unserialize_statfs_resp; pure (statfs_resp m))
    ∷ (4, do m ← unserialize_create; pure (create m))
    ∷ (5, do m ← unserialize_create_resp; pure (create_resp m))
    ∷ (6, do m ← unserialize_stat; pure (stat m))
    ∷ (7, do m ← unserialize_stat_resp; pure (stat_resp m))
    ∷ (8, do m ← unserialize_readdir; pure (readdir m))
    ∷ (9, do m ← unserialize_readdir_resp; pure (readdir_resp m))
    ∷ (10, do m ← unserialize_read; pure (read m))
    ∷ (11, do m ← unserialize_read_resp; pure (read_resp m))
    ∷ (12, do m ← unserialize_write; pure (write m))
    ∷ (13, do m ← unserialize_write_resp; pure (write_resp m))
    ∷ (14, do m ← unserialize_truncate; pure (truncate m))
    ∷ (15, do m ← unserialize_truncate_resp; pure (truncate_resp m))
    ∷ (16, do m ← unserialize_unlink; pure (unlink m))
    ∷ (17, do m ← unserialize_unlink_resp; pure (unlink_resp m))
    ∷ (18, do m ← unserialize_rmdir; pure (rmdir m))
    ∷ (19, do m ← unserialize_rmdir_resp; pure (rmdir_resp m))
    ∷ (20, do m ← unserialize_mkdir; pure (mkdir m))
    ∷ (21, do m ← unserialize_mkdir_resp; pure (mkdir_resp m))
    ∷ (22, do m ← unserialize_rename; pure (rename m))
    ∷ (23, do m ← unserialize_rename_resp; pure (rename_resp m))
    ∷ []

-- `at` of the table, which throws for a type that it does not hold
unfoldable pub at : ℕ → List (ℕ × Reader Msg) → Reader Msg
at type [] s = err out_of_range
at type ((t, creator) ∷ table) s = elim (t == type) [ true ↦ creator s | false ↦ at type table s ]

unfoldable pub unserialize_msg : Reader Msg
unfolding unserializor_lookup at
unserialize_msg = do type ← unserialize_pod 4; at type unserializor_lookup
