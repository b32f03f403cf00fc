-- ===== src/Server/StoreTests.antt =====
-- Writes and truncations over a server that is its files, for server_src/msg_response.cpp, and over
-- a system that is, for server_src/fileop.cpp.
use net_fs.Prelude.{
  ℕ, ◌-◌, ◌^◌, ◌<◌, List, [], ◌∷◌, ◌++◌, Option, none, some, length, get_elem?, get_elem?_within,
  leb, str_eq, ◌&&◌, true, false, if◌then◌else◌, ◌≡◌, ◌⊎◌, refl, sym, ap, ◌∙◌, arith, Bool-cases,
  inl, inr,
}
use net_fs.Cache.Span.{in_span}
use net_fs.Cache.Gather.{Stores}
use net_fs.NetFs.State.{Link}
use net_fs.NetFs.Remote.{callbacks}
use net_fs.Server.Responders.{FileOp, respond}
use net_fs.Server.Storing.{WritesDisk, respond-Stores}
use net_fs.Server.System.{SystemCalls}
use net_fs.Server.FileOps.{file_op}
use net_fs.Server.FileWriting.{SetsErrno}
use net_fs.Server.FileStoring.{StoresFiles, file_op-WritesDisk}
use net_fs.Server.FileTests.{stbuf, fs_stat}
use net_fs.Server.Tests.{time}

abbrev Files : Type 0
Files = List ℕ → ℕ → ℕ

abbrev or_zero : Option ℕ → ℕ
or_zero none = 0
or_zero (some b) = b

abbrev stored : List ℕ → ℕ → List ℕ → Files → Files
stored f offset buf s = λ g pos.
    if str_eq f g && in_span offset (length buf) pos
    then or_zero (get_elem? buf (pos - offset))
    else s g pos

-- From the new size on, zeros.
abbrev shortened : List ℕ → ℕ → Files → Files
shortened f size s = λ g pos. if str_eq f g && leb size pos then 0 else s g pos

abbrev files_op : FileOp Files
files_op = record {
  op_access = λ f s. (0, time, s);
  op_creat = λ f s. (0, s);
  op_stat = λ f s. (
    0,
    record {
      st_size = 8;
      st_mode = 33188;
      st_atim = time.atime;
      st_mtim = time.mtime;
      st_ctim = time.ctime;
    },
    s,
  );
  op_statfs = λ s. (
    13,
    record {
      bsize = 0;
      frsize = 0;
      blocks = 0;
      bfree = 0;
      bavail = 0;
      files = 0;
      ffree = 0;
      namemax = 0;
    },
    s,
  );
  op_readdir = λ f s. (0, [], s);
  op_read = λ f offset buf s. (13, buf, 0, s);
  op_write = λ f offset buf s. (0, time, time, stored f offset buf s);
  op_truncate = λ f size s. (0, time, time, shortened f size s);
  op_unlink = λ f s. (13, s);
  op_rmdir = λ f s. (13, s);
  op_mkdir = λ f mode s. (13, s);
  op_rename = λ from to flags s. (13, s);
}

written_byte :
    (f : List ℕ) (offset : ℕ) (buf : List ℕ) (s : Files) (g : List ℕ) (pos : ℕ)
    → some (stored f offset buf s g pos) ≡ (
        if str_eq f g && in_span offset (length buf) pos
        then get_elem? buf (pos - offset)
        else some (s g pos))
written_byte f offset buf s g pos =
    elim (Bool-cases (str_eq f g && in_span offset (length buf) pos)) [
      | inl here ↦
          let (b, there) = get_elem?_within buf (pos - offset) (ground arith) in
          rw (here, there) refl
      | inr elsewhere ↦ rw elsewhere refl
    ]

shortened_byte :
    (f : List ℕ) (size : ℕ) (s : Files) (g : List ℕ) (pos : ℕ)
    → (str_eq f g ≡ false) ⊎ (pos < size)
    → shortened f size s g pos ≡ s g pos
shortened_byte f size s g pos (inl other) = rw other refl
shortened_byte f size s g pos (inr inner) = ground arith

files_op-WritesDisk : WritesDisk files_op (2 ^ 64) (λ s. s)
files_op-WritesDisk = record {
  within = omega arith;
  writes = λ f offset buf s some_bytes below. inr (written_byte f offset buf s);
  truncates = shortened_byte;
}

respond-Stores_example :
    Stores (callbacks (respond files_op)) (2 ^ 64) (λ (link : Link Files). link.behind)
respond-Stores_example = respond-Stores files_op (2 ^ 64) (λ s. s) files_op-WritesDisk

record Opened : Type 0 where
  files : Files
  path : List ℕ
  position : ℕ

-- A system that writes all the bytes that it is given, and on which no call fails.
abbrev system : SystemCalls Opened
system = record {
  errno = λ s. 0;
  set_errno = λ e s. s;
  sys_access = λ f s. (true, s);
  sys_open = λ f flags mode s. (some 3, record s { path = f; position = 0 });
  sys_close = λ fd s. s;
  sys_stat = λ f s. (some stbuf, s);
  sys_statvfs = λ f s. (none, s);
  sys_opendir = λ f s. (none, s);
  sys_readdir = λ dir s. (none, s);
  dir_bound = λ dir s. 0;
  sys_closedir = λ dir s. s;
  sys_lseek = λ fd offset s. (some offset, record s { position = offset });
  sys_read = λ fd n s. (none, s);
  sys_write =
      λ fd buf s. (some (length buf), record s { files = stored s.path s.position buf s.files });
  sys_truncate = λ f n s. (true, record s { files = shortened f n s.files });
  sys_unlink = λ f s. (true, s);
  sys_rmdir = λ f s. (true, s);
  sys_mkdir = λ f mode s. (true, s);
  sys_rename = λ from to s. (true, s);
}

asked_for : {a b : ℕ} → some a ≡ some b → b ≡ a
asked_for h = cc

system-SetsErrno : SetsErrno system
system-SetsErrno = record {
  stat_fails = λ path s h. absurd (cc);
  open_fails = λ path flags mode s h. absurd (cc);
  seek_fails = λ fd offset s h. absurd (cc);
  seeks = λ fd offset pos s h. asked_for h;
  write_fails = λ fd buf s h. absurd (cc);
}

system-StoresFiles : StoresFiles system (λ s. s.files)
system-StoresFiles = record {
  At = λ s fd path pos. (s.path ≡ path) × (s.position ≡ pos);
  stat_keeps = λ path s g pos. refl;
  open_keeps = λ path fd s s₁ h g pos. ap (λ (t : Option ℕ × Opened). t.1.files g pos) (sym h);
  seek_stands = λ path offset fd at s s₁ s₂ h k. (
    (
      ap (λ (t : Option ℕ × Opened). t.1.path) (sym k)
          ∙ ap (λ (t : Option ℕ × Opened). t.1.path) (sym h),
      ap (λ (t : Option ℕ × Opened). t.1.position) (sym k),
    ),
    λ g pos. ap (λ (t : Option ℕ × Opened). t.1.files g pos) (sym k),
  );
  close_keeps = λ fd s g pos. refl;
  puts = λ path fd offset n buf s s₁ stands h enough g pos.
      let moved : s₁.files ≡ stored s.path s.position buf s.files =
        ap (λ (t : Option ℕ × Opened). t.1.files) (sym h) in
      let there : stored s.path s.position buf s.files ≡ stored path offset buf s.files =
        λ i. stored (stands.0 i) (stands.1 i) buf s.files in
      ap (λ (files : Files). some (files g pos)) (moved ∙ there)
      ∙ written_byte path offset buf s.files g pos;
  cuts = λ path size s. shortened_byte path size s.files;
}

abbrev root : List ℕ
root = b'.' ∷ b'/' ∷ []

file_op-WritesDisk_example :
    WritesDisk
      (file_op system root time stbuf fs_stat)
      (2 ^ 31)
      (λ (s : Opened) f. s.files (root ++ f))
file_op-WritesDisk_example =
    file_op-WritesDisk system root time stbuf fs_stat (λ s. s.files) system-SetsErrno
      system-StoresFiles
