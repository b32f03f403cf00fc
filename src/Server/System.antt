-- ===== src/Server/System.antt =====
-- The system calls that server_src/fileop.cpp makes, as a parameter. A call that fails returns -1
-- and leaves its reason in `errno`, which is part of the state `S` of the system.
use net_fs.Prelude.{ℕ, List, Bool, Option}
use net_fs.Msg.Statfs.{FsStat}
use net_fs.Server.Responders.{StatBuf}

-- The flags that `open` is called with: `O_RDONLY`; `O_WRONLY | O_CREAT`; those and `O_TRUNC`.
pub data OpenFlags : Type 0 where
  rdonly wronly_creat wronly_creat_trunc : OpenFlags

-- The fields of `struct statvfs` that are used.
pub record StatVfs : Type 0 where
  pub f_bsize : ℕ
  pub f_frsize : ℕ
  pub f_blocks : ℕ
  pub f_bfree : ℕ
  pub f_bavail : ℕ
  pub f_files : ℕ
  pub f_ffree : ℕ
  pub f_namemax : ℕ

-- A Boolean says whether a call succeeded; `none` stands for a call that failed.
pub record SystemCalls (S : Type 0) : Type 0 where
  pub errno : S → ℕ
  pub set_errno : ℕ → S → S
  pub sys_access : List ℕ → S → Bool × S
  pub sys_open : List ℕ → OpenFlags → ℕ → S → Option ℕ × S
  pub sys_close : ℕ → S → S
  pub sys_stat : List ℕ → S → Option StatBuf × S
  pub sys_statvfs : List ℕ → S → Option StatVfs × S
  pub sys_opendir : List ℕ → S → Option ℕ × S
  -- the name of the next entry, or `none` after the last one or on an error
  pub sys_readdir : ℕ → S → Option (List ℕ) × S
  -- how many entries the stream can still give
  pub dir_bound : ℕ → S → ℕ
  pub sys_closedir : ℕ → S → S
  -- the position from the start of the file
  pub sys_lseek : ℕ → ℕ → S → Option ℕ × S
  -- the bytes that are put into a buffer of the given size; what is beyond its end is cut off
  pub sys_read : ℕ → ℕ → S → Option (List ℕ) × S
  pub sys_write : ℕ → List ℕ → S → Option ℕ × S
  pub sys_truncate : List ℕ → ℕ → S → Bool × S
  pub sys_unlink : List ℕ → S → Bool × S
  pub sys_rmdir : List ℕ → S → Bool × S
  pub sys_mkdir : List ℕ → ℕ → S → Bool × S
  pub sys_rename : List ℕ → List ℕ → S → Bool × S

-- `makeFsStat` of common/msg_statfs.cpp
unfoldable pub make_fs_stat : StatVfs → FsStat
make_fs_stat st = record {
  bsize = st.f_bsize;
  frsize = st.f_frsize;
  blocks = st.f_blocks;
  bfree = st.f_bfree;
  bavail = st.f_bavail;
  files = st.f_files;
  ffree = st.f_ffree;
  namemax = st.f_namemax;
}
