-- ===== src/Server/FileOps.antt =====
-- `FileOp` of server_src/fileop.cpp: the file operations of the server, over its system calls.
-- `time₀`, `stat₀` and `fs₀` are what the arguments that are taken by reference hold before.
use net_fs.Prelude.{
  ℕ, zero, suc, ◌-◌, List, [], ◌∷◌, ◌++◌, length, take, drop, ltb, leb, ◌%◌, ◌^◌, ◌==◌, Bool, true,
  false, Option, none, some, if◌then◌else◌,
}
use net_fs.Time.{FileTime}
use net_fs.Msg.Statfs.{FsStat}
use net_fs.Server.Responders.{StatBuf, make_file_time, FileOp}
use net_fs.Server.System.{rdonly, wronly_creat, wronly_creat_trunc, SystemCalls, make_fs_stat}

-- `err < 0` for the `int` that the result of `lseek` is put into, of which it keeps the lower 32
-- bits.
abbrev pub is_negative : Option ℕ → Bool
is_negative none = true
is_negative (some pos) = leb (2 ^ 31) (pos % 2 ^ 32)

module _ {S : Type 0} (sys : SystemCalls S) where
  -- `loadTime`
  unfoldable pub load_time : List ℕ → S → Option FileTime × S
  load_time fname s =
      let (found, s₁) = sys.sys_stat fname s in
      elim found [ none ↦ (none, s₁) | some stbuf ↦ (some (make_file_time stbuf), s₁) ]

  -- What a call without a value is turned into: `errno` if it failed, 0 otherwise.
  unfoldable pub errno_or_zero : Bool × S → ℕ × S
  errno_or_zero (done, s) = if done then (0, s) else (sys.errno s, s)

  -- The loop of `FileOp::readdir`, with at most `fuel` entries left.
  unfoldable pub readdir_loop : ℕ → ℕ → S → List (List ℕ) × S
  readdir_loop zero dir s = ([], s)
  readdir_loop (suc fuel) dir s =
      let (ent, s₁) = sys.sys_readdir dir s in
      elim ent [
        | none ↦ ([], s₁)
        | some name ↦ let (names, s₂) = readdir_loop fuel dir s₁ in (name ∷ names, s₂)
      ]

  -- The loop of `FileOp::read`, with `left` bytes to read: whether the last call succeeded, and the
  -- bytes read. A round reads a byte at least, so `fuel` of `left` is enough.
  unfoldable pub pread_loop : ℕ → ℕ → ℕ → S → Bool × List ℕ × S
  pread_loop zero fd left s = (true, [], s)
  pread_loop (suc fuel) fd left s =
      if left == 0
      then (true, [], s)
      else (let (got, s₁) = sys.sys_read fd left s in
          elim got [
            | none ↦ (false, [], s₁)
            | some bytes ↦ elim (take left bytes) [
              | [] ↦ (true, [], s₁)
              | b ∷ bs ↦
                  let (done, rest, s₂) = pread_loop fuel fd (left - length (b ∷ bs)) s₁ in
                  (done, (b ∷ bs) ++ rest, s₂)
            ]
          ])

module _ {S : Type 0} (sys : SystemCalls S) (root : List ℕ) where
  -- `FileOp::access`
  unfoldable pub file_access : FileTime → List ℕ → S → ℕ × FileTime × S
  unfolding load_time
  file_access time₀ fpath s =
      let (allowed, s₁) = sys.sys_access (root ++ fpath) s in
      elim allowed [
        | false ↦ (sys.errno s₁, time₀, s₁)
        | true ↦
            let (time, s₂) = load_time sys (root ++ fpath) s₁ in
            elim time [ none ↦ (sys.errno s₂, time₀, s₂) | some t ↦ (0, t, s₂) ]
      ]

  -- `FileOp::creat`
  unfoldable pub file_creat : List ℕ → S → ℕ × S
  file_creat fpath s =
      let (fd, s₁) = sys.sys_open (root ++ fpath) wronly_creat_trunc 511 s in
      elim fd [ none ↦ (sys.errno s₁, s₁) | some d ↦ (0, sys.sys_close d s₁) ]

  -- `FileOp::stat`
  unfoldable pub file_stat : StatBuf → List ℕ → S → ℕ × StatBuf × S
  file_stat stat₀ fpath s =
      let (found, s₁) = sys.sys_stat (root ++ fpath) s in
      elim found [ none ↦ (sys.errno s₁, stat₀, s₁) | some stbuf ↦ (0, stbuf, s₁) ]

  -- `FileOp::statfs`
  unfoldable pub file_statfs : FsStat → S → ℕ × FsStat × S
  file_statfs fs₀ s =
      let (found, s₁) = sys.sys_statvfs root s in
      elim found [ none ↦ (sys.errno s₁, fs₀, s₁) | some stbuf ↦ (0, make_fs_stat stbuf, s₁) ]

  -- `FileOp::readdir`
  unfoldable pub file_readdir : List ℕ → S → ℕ × List (List ℕ) × S
  unfolding readdir_loop
  file_readdir fpath s =
      let (dirs, s₁) = sys.sys_opendir (root ++ fpath) s in
      elim dirs [
        | none ↦ (sys.errno s₁, [], s₁)
        | some dir ↦
            let s₂ : S = sys.set_errno 0 s₁ in
            let (names, s₃) = readdir_loop sys (suc (sys.dir_bound dir s₂)) dir s₂ in
            let s₄ : S = sys.sys_closedir dir s₃ in (sys.errno s₄, names, s₄)
      ]

  -- `FileOp::read`. The third argument is the buffer; it and the count of bytes read are left.
  unfoldable pub file_read : List ℕ → ℕ → List ℕ → S → ℕ × List ℕ × ℕ × S
  unfolding pread_loop
  file_read fpath offset buf s =
      let (fd, s₁) = sys.sys_open (root ++ fpath) rdonly 0 s in
      elim fd [
        | none ↦ (sys.errno s₁, buf, 0, s₁)
        | some d ↦
            let (sought, s₂) = sys.sys_lseek d offset s₁ in
            elim (is_negative sought) [
              | true ↦ let s₃ : S = sys.sys_close d s₂ in (sys.errno s₃, buf, 0, s₃)
              | false ↦
                  let (done, bytes, s₃) = pread_loop sys (length buf) d (length buf) s₂ in
                  let s₄ : S = sys.sys_close d s₃ in
                  (
                    if done then 0 else sys.errno s₄,
                    bytes ++ drop (length bytes) buf,
                    length bytes,
                    s₄,
                  )
            ]
      ]

  -- The end of `FileOp::write`, after the call of `write`; 122 is `EDQUOT`.
  unfoldable pub written_result :
      FileTime → List ℕ → ℕ → FileTime → Option ℕ → S → ℕ × FileTime × FileTime × S
  unfolding load_time
  written_result after₀ fpath size before written s = elim written [
    | none ↦ (sys.errno s, before, after₀, s)
    | some n ↦
        if ltb n size
        then (122, before, after₀, s)
        else (let (after, s₁) = load_time sys (root ++ fpath) s in
            elim after [ none ↦ (sys.errno s₁, before, after₀, s₁) | some t ↦ (0, before, t, s₁) ])
  ]

  -- `FileOp::write`
  unfoldable pub file_write : FileTime → List ℕ → ℕ → List ℕ → S → ℕ × FileTime × FileTime × S
  unfolding load_time written_result
  file_write time₀ fpath offset buf s =
      let (before, s₁) = load_time sys (root ++ fpath) s in
      elim before [
        | none ↦ (sys.errno s₁, time₀, time₀, s₁)
        | some before_change ↦
            let (fd, s₂) = sys.sys_open (root ++ fpath) wronly_creat 502 s₁ in
            elim fd [
              | none ↦ (sys.errno s₂, before_change, time₀, s₂)
              | some d ↦
                  let (sought, s₃) = sys.sys_lseek d offset s₂ in
                  elim (is_negative sought) [
                    | true ↦
                        let s₄ : S = sys.sys_close d s₃ in (sys.errno s₄, before_change, time₀, s₄)
                    | false ↦
                        let (written, s₄) = sys.sys_write d buf s₃ in
                        written_result time₀ fpath (length buf) before_change written
                          (sys.sys_close d s₄)
                  ]
            ]
      ]

  -- `FileOp::truncate`
  unfoldable pub file_truncate : FileTime → List ℕ → ℕ → S → ℕ × FileTime × FileTime × S
  unfolding load_time
  file_truncate time₀ fpath offset s =
      let (before, s₁) = load_time sys (root ++ fpath) s in
      elim before [
        | none ↦ (sys.errno s₁, time₀, time₀, s₁)
        | some before_change ↦
            let (done, s₂) = sys.sys_truncate (root ++ fpath) offset s₁ in
            elim done [
              | false ↦ (sys.errno s₂, before_change, time₀, s₂)
              | true ↦
                  let (after, s₃) = load_time sys (root ++ fpath) s₂ in
                  elim after [
                    | none ↦ (sys.errno s₃, before_change, time₀, s₃)
                    | some t ↦ (0, before_change, t, s₃)
                  ]
            ]
      ]

  -- `FileOp`, made with the root of its files
  unfoldable pub file_op : FileTime → StatBuf → FsStat → FileOp S
  unfolding errno_or_zero file_access file_creat file_stat file_statfs file_readdir file_read
      file_write file_truncate
  file_op time₀ stat₀ fs₀ = record {
    op_access = file_access time₀;
    op_creat = file_creat;
    op_stat = file_stat stat₀;
    op_statfs = file_statfs fs₀;
    op_readdir = file_readdir;
    op_read = file_read;
    op_write = file_write time₀;
    op_truncate = file_truncate time₀;
    op_unlink = λ fpath s. errno_or_zero sys (sys.sys_unlink (root ++ fpath) s);
    op_rmdir = λ fpath s. errno_or_zero sys (sys.sys_rmdir (root ++ fpath) s);
    op_mkdir = λ fpath mode s. errno_or_zero sys (sys.sys_mkdir (root ++ fpath) mode s);
    op_rename = λ from to flags s. errno_or_zero sys (sys.sys_rename (root ++ from) (root ++ to) s);
  }
