-- ===== src/Msg/Kinds.antt =====
-- The values of `Msg::Type` (common/msg_base.hpp), each the type of one kind of message.
use net_fs.Prelude.{◌<◌, ◌^◌, ◌≡◌, refl, arith}
use net_fs.Msg.{
  Msg, msg_type, access, access_resp, statfs, statfs_resp, create, create_resp, stat, stat_resp,
  readdir, readdir_resp, read, read_resp, write, write_resp, truncate, truncate_resp, unlink,
  unlink_resp, rmdir, rmdir_resp, mkdir, mkdir_resp, rename, rename_resp,
}
use net_fs.Msg.Access.{MsgAccess, MsgAccessResp}
use net_fs.Msg.Statfs.{MsgStatfs, MsgStatfsResp}
use net_fs.Msg.Create.{MsgCreate, MsgCreateResp}
use net_fs.Msg.Stat.{MsgStat, MsgStatResp}
use net_fs.Msg.Readdir.{MsgReaddir, MsgReaddirResp}
use net_fs.Msg.Read.{MsgRead, MsgReadResp}
use net_fs.Msg.Write.{MsgWrite, MsgWriteResp}
use net_fs.Msg.Truncate.{MsgTruncate, MsgTruncateResp}
use net_fs.Msg.Unlink.{MsgUnlink, MsgUnlinkResp}
use net_fs.Msg.Rmdir.{MsgRmdir, MsgRmdirResp}
use net_fs.Msg.Mkdir.{MsgMkdir, MsgMkdirResp}
use net_fs.Msg.Rename.{MsgRename, MsgRenameResp}

pub access_of_type : (m : Msg) → msg_type m ≡ 0 → (x : MsgAccess) × (m ≡ access x)
unfolding msg_type
access_of_type (access x) h = (x, refl)
access_of_type _ h = absurd (omega arith)

pub access_resp_of_type : (m : Msg) → msg_type m ≡ 1 → (x : MsgAccessResp) × (m ≡ access_resp x)
unfolding msg_type
access_resp_of_type (access_resp x) h = (x, refl)
access_resp_of_type _ h = absurd (omega arith)

pub statfs_of_type : (m : Msg) → msg_type m ≡ 2 → (x : MsgStatfs) × (m ≡ statfs x)
unfolding msg_type
statfs_of_type (statfs x) h = (x, refl)
statfs_of_type _ h = absurd (omega arith)

pub statfs_resp_of_type : (m : Msg) → msg_type m ≡ 3 → (x : MsgStatfsResp) × (m ≡ statfs_resp x)
unfolding msg_type
statfs_resp_of_type (statfs_resp x) h = (x, refl)
statfs_resp_of_type _ h = absurd (omega arith)

pub create_of_type : (m : Msg) → msg_type m ≡ 4 → (x : MsgCreate) × (m ≡ create x)
unfolding msg_type
create_of_type (create x) h = (x, refl)
create_of_type _ h = absurd (omega arith)

pub create_resp_of_type : (m : Msg) → msg_type m ≡ 5 → (x : MsgCreateResp) × (m ≡ create_resp x)
unfolding msg_type
create_resp_of_type (create_resp x) h = (x, refl)
create_resp_of_type _ h = absurd (omega arith)

pub stat_of_type : (m : Msg) → msg_type m ≡ 6 → (x : MsgStat) × (m ≡ stat x)
unfolding msg_type
stat_of_type (stat x) h = (x, refl)
stat_of_type _ h = absurd (omega arith)

pub stat_resp_of_type : (m : Msg) → msg_type m ≡ 7 → (x : MsgStatResp) × (m ≡ stat_resp x)
unfolding msg_type
stat_resp_of_type (stat_resp x) h = (x, refl)
stat_resp_of_type _ h = absurd (omega arith)

pub readdir_of_type : (m : Msg) → msg_type m ≡ 8 → (x : MsgReaddir) × (m ≡ readdir x)
unfolding msg_type
readdir_of_type (readdir x) h = (x, refl)
readdir_of_type _ h = absurd (omega arith)

pub readdir_resp_of_type : (m : Msg) → msg_type m ≡ 9 → (x : MsgReaddirResp) × (m ≡ readdir_resp x)
unfolding msg_type
readdir_resp_of_type (readdir_resp x) h = (x, refl)
readdir_resp_of_type _ h = absurd (omega arith)

pub read_of_type : (m : Msg) → msg_type m ≡ 10 → (x : MsgRead) × (m ≡ read x)
unfolding msg_type
read_of_type (read x) h = (x, refl)
read_of_type _ h = absurd (omega arith)

pub read_resp_of_type : (m : Msg) → msg_type m ≡ 11 → (x : MsgReadResp) × (m ≡ read_resp x)
unfolding msg_type
read_resp_of_type (read_resp x) h = (x, refl)
read_resp_of_type _ h = absurd (omega arith)

pub write_of_type : (m : Msg) → msg_type m ≡ 12 → (x : MsgWrite) × (m ≡ write x)
unfolding msg_type
write_of_type (write x) h = (x, refl)
write_of_type _ h = absurd (omega arith)

pub write_resp_of_type : (m : Msg) → msg_type m ≡ 13 → (x : MsgWriteResp) × (m ≡ write_resp x)
unfolding msg_type
write_resp_of_type (write_resp x) h = (x, refl)
write_resp_of_type _ h = absurd (omega arith)

pub truncate_of_type : (m : Msg) → msg_type m ≡ 14 → (x : MsgTruncate) × (m ≡ truncate x)
unfolding msg_type
truncate_of_type (truncate x) h = (x, refl)
truncate_of_type _ h = absurd (omega arith)

pub truncate_resp_of_type :
    (m : Msg) → msg_type m ≡ 15 → (x : MsgTruncateResp) × (m ≡ truncate_resp x)
unfolding msg_type
truncate_resp_of_type (truncate_resp x) h = (x, refl)
truncate_resp_of_type _ h = absurd (omega arith)

pub unlink_of_type : (m : Msg) → msg_type m ≡ 16 → (x : MsgUnlink) × (m ≡ unlink x)
unfolding msg_type
unlink_of_type (unlink x) h = (x, refl)
unlink_of_type _ h = absurd (omega arith)

pub unlink_resp_of_type : (m : Msg) → msg_type m ≡ 17 → (x : MsgUnlinkResp) × (m ≡ unlink_resp x)
unfolding msg_type
unlink_resp_of_type (unlink_resp x) h = (x, refl)
unlink_resp_of_type _ h = absurd (omega arith)

pub rmdir_of_type : (m : Msg) → msg_type m ≡ 18 → (x : MsgRmdir) × (m ≡ rmdir x)
unfolding msg_type
rmdir_of_type (rmdir x) h = (x, refl)
rmdir_of_type _ h = absurd (omega arith)

pub rmdir_resp_of_type : (m : Msg) → msg_type m ≡ 19 → (x : MsgRmdirResp) × (m ≡ rmdir_resp x)
unfolding msg_type
rmdir_resp_of_type (rmdir_resp x) h = (x, refl)
rmdir_resp_of_type _ h = absurd (omega arith)

pub mkdir_of_type : (m : Msg) → msg_type m ≡ 20 → (x : MsgMkdir) × (m ≡ mkdir x)
unfolding msg_type
mkdir_of_type (mkdir x) h = (x, refl)
mkdir_of_type _ h = absurd (omega arith)

pub mkdir_resp_of_type : (m : Msg) → msg_type m ≡ 21 → (x : MsgMkdirResp) × (m ≡ mkdir_resp x)
unfolding msg_type
mkdir_resp_of_type (mkdir_resp x) h = (x, refl)
mkdir_resp_of_type _ h = absurd (omega arith)

pub rename_of_type : (m : Msg) → msg_type m ≡ 22 → (x : MsgRename) × (m ≡ rename x)
unfolding msg_type
rename_of_type (rename x) h = (x, refl)
rename_of_type _ h = absurd (omega arith)

pub rename_resp_of_type : (m : Msg) → msg_type m ≡ 23 → (x : MsgRenameResp) × (m ≡ rename_resp x)
unfolding msg_type
rename_resp_of_type (rename_resp x) h = (x, refl)
rename_resp_of_type _ h = absurd (omega arith)

pub type_bound : (m : Msg) → msg_type m < 2 ^ 32
unfolding msg_type
type_bound (access _) = omega arith
type_bound (access_resp _) = omega arith
type_bound (statfs _) = omega arith
type_bound (statfs_resp _) = omega arith
type_bound (create _) = omega arith
type_bound (create_resp _) = omega arith
type_bound (stat _) = omega arith
type_bound (stat_resp _) = omega arith
type_bound (readdir _) = omega arith
type_bound (readdir_resp _) = omega arith
type_bound (read _) = omega arith
type_bound (read_resp _) = omega arith
type_bound (write _) = omega arith
type_bound (write_resp _) = omega arith
type_bound (truncate _) = omega arith
type_bound (truncate_resp _) = omega arith
type_bound (unlink _) = omega arith
type_bound (unlink_resp _) = omega arith
type_bound (rmdir _) = omega arith
type_bound (rmdir_resp _) = omega arith
type_bound (mkdir _) = omega arith
type_bound (mkdir_resp _) = omega arith
type_bound (rename _) = omega arith
type_bound (rename_resp _) = omega arith
