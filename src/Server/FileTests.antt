-- ===== src/Server/FileTests.antt =====
-- Tests of server_src/fileop.cpp and of the loops of server_src/StorageServerConnection.cpp, and
-- their theorems at concrete inputs.
use net_fs.Prelude.{
  ◌^◌, ℕ, ◌+◌, ◌<◌, List, [], ◌∷◌, ◌++◌, length, take, drop, get_elem?, get_elem?-take,
  get_elem?-drop, get_elem?_within, get_elem?_beyond, length-take, length-drop, ltb, true, Option,
  none, some, ◌≡◌, ◌⊎◌, inl, inr, refl, sym, ap, subst, ◌∙◌, arith, Bool-cases,
}
use net_fs.Time.{FileTime}
use net_fs.Msg.Statfs.{FsStat}
use net_fs.NetFs.Serving.{byte_or_zero}
use net_fs.Server.Responders.{StatBuf, make_file_time}
use net_fs.Server.Reading.{ReadsDisk}
use net_fs.Server.System.{SystemCalls}
use net_fs.Server.FileOps.{
  readdir_loop, load_time, written_result, file_write, file_readdir, file_read, pread_loop, file_op,
}
use net_fs.Server.PreadLoop.{ReadsFiles}
use net_fs.Server.FileReading.{file_op-ReadsDisk}
use net_fs.Server.FileWriting.{SetsErrno, WriteSteps, file_write_lem}
use net_fs.Server.Listing.{ReadToEnd, ListsEntries, file_readdir_lem}

abbrev time : FileTime
time = record {
  atime = record { time_sec = 1; time_nsec = 0 };
  ctime = record { time_sec = 2; time_nsec = 0 };
  mtime = record { time_sec = 3; time_nsec = 0 };
}

abbrev pub stbuf : StatBuf
stbuf = record {
  st_size = 3;
  st_mode = 33188;
  st_atim = time.atime;
  st_mtim = time.mtime;
  st_ctim = time.ctime;
}

abbrev pub fs_stat : FsStat
fs_stat = record {
  bsize = 0;
  frsize = 0;
  blocks = 0;
  bfree = 0;
  bavail = 0;
  files = 0;
  ffree = 0;
  namemax = 0;
}

abbrev file_bytes : List ℕ
file_bytes = 72 ∷ 105 ∷ 33 ∷ []

abbrev remote : List ℕ → ℕ → ℕ
remote f pos = byte_or_zero (get_elem? file_bytes pos)

record Disk : Type 0 where
  errno : ℕ
  position : ℕ
  listing : List (List ℕ)

abbrev next_name : Disk → Option (List ℕ) × Disk
next_name s = elim s.listing [ [] ↦ (none, s) | n ∷ ns ↦ (some n, record s { listing = ns }) ]

-- A system on which every file has the same bytes and every call succeeds.
abbrev system : SystemCalls Disk
system = record {
  errno = λ s. s.errno;
  set_errno = λ e s. record s { errno = e };
  sys_access = λ f s. (true, s);
  sys_open = λ f flags mode s. (some 3, record s { position = 0 });
  sys_close = λ fd s. s;
  sys_stat = λ f s. (some stbuf, s);
  sys_statvfs = λ f s. (none, s);
  sys_opendir = λ f s. (some 4, record s { listing = (b'a' ∷ []) ∷ (b'b' ∷ []) ∷ [] });
  sys_readdir = λ dir s. next_name s;
  dir_bound = λ dir s. length s.listing;
  sys_closedir = λ dir s. s;
  sys_lseek = λ fd offset s. (some offset, record s { position = offset });
  sys_read = λ fd n s. (
    some (drop s.position file_bytes),
    record s { position = s.position + length (take n (drop s.position file_bytes)) },
  );
  sys_write = λ fd buf s. (some (length buf), s);
  sys_truncate = λ f n s. (true, s);
  sys_unlink = λ f s. (true, s);
  sys_rmdir = λ f s. (true, s);
  sys_mkdir = λ f mode s. (true, s);
  sys_rename = λ from to s. (true, s);
}

abbrev bytes_or_none : Option (List ℕ) → List ℕ
bytes_or_none none = []
bytes_or_none (some bytes) = bytes

value_there :
    (pos n i : ℕ)
    → i < length (take n (drop pos file_bytes))
    → get_elem? (take n (drop pos file_bytes)) i ≡ some (remote [] (pos + i))
value_there pos n i h =
    let cut = get_elem?-take n (drop pos file_bytes) i in
    let moved = get_elem?-drop pos file_bytes i in
    let (b, there) = get_elem?_within (take n (drop pos file_bytes)) i h in
    let inner : ltb i n ≡ true = ground (arith, length-take n (drop pos file_bytes)) in
    let same : get_elem? (take n (drop pos file_bytes)) i ≡ get_elem? file_bytes (pos + i) =
      cut ∙ rw inner moved in
    let here : get_elem? file_bytes (pos + i) ≡ some b = sym same ∙ there in
    same ∙ here ∙ ap (λ (o : Option ℕ). some (byte_or_zero o)) (sym here)

progress_there :
    (pos n : ℕ)
    → 0 < n
    → (0 < length (take n (drop pos file_bytes))) ⊎ ((i : ℕ) → remote [] (pos + i) ≡ 0)
progress_there pos n h = elim (Bool-cases (ltb pos (length file_bytes))) [
  | inl inner ↦
      inl (ground (arith, length-take n (drop pos file_bytes), length-drop pos file_bytes))
  | inr beyond ↦
      inr (λ i. ap byte_or_zero {y = none} (get_elem?_beyond file_bytes (pos + i) (ground arith)))
]

sought_at : {a b : ℕ} → some a ≡ some b → b ≡ a
sought_at h = cc

system-ReadsFiles : ReadsFiles system remote
system-ReadsFiles = record {
  At = λ s fd path pos. s.position ≡ pos;
  open_fails = λ path s s₁ h. absurd (let e = ap (λ (t : Option ℕ × Disk). t.0) h in cc);
  seeks = λ path offset fd s s₁ s₂ h pos k. (
    sought_at (ap (λ (t : Option ℕ × Disk). t.0) k),
    sym (ap (λ (t : Option ℕ × Disk). t.1.position) k),
  );
  seek_fails = λ fd offset s s₁ h. absurd (let e = ap (λ (t : Option ℕ × Disk). t.0) h in cc);
  read_fails = λ fd n s s₁ h. absurd (let e = ap (λ (t : Option (List ℕ) × Disk). t.0) h in cc);
  gives = λ path fd pos n bytes s s₁ some_asked at_pos h.
      let same : drop pos file_bytes ≡ bytes =
        ap (λ (p : ℕ). drop p file_bytes) (sym at_pos)
        ∙ ap (λ (t : Option (List ℕ) × Disk). bytes_or_none t.0) h in
      let moved = ap (λ (t : Option (List ℕ) × Disk). t.1.position) h in
      (
        sym moved
            ∙ ap (λ (p : ℕ). p + length (take n (drop p file_bytes))) at_pos
            ∙ ap (λ xs. pos + length (take n xs)) same,
        subst
            (λ xs.
              (i : ℕ)
              → i < length (take n xs)
              → get_elem? (take n xs) i ≡ some (remote path (pos + i)))
            same (value_there pos n),
        subst (λ xs. (0 < length (take n xs)) ⊎ ((i : ℕ) → remote path (pos + i) ≡ 0)) same
            (progress_there pos n some_asked),
      );
}

system-SetsErrno : SetsErrno system
system-SetsErrno = record {
  stat_fails = λ path s h. absurd (cc);
  open_fails = λ path flags mode s h. absurd (cc);
  seek_fails = λ fd offset s h. absurd (cc);
  seeks = λ fd offset pos s h. sought_at h;
  write_fails = λ fd buf s h. absurd (cc);
}

next_name_lem :
    (s : Disk) (name : List ℕ) (names : List (List ℕ))
    → s.listing ≡ name ∷ names
    → ((next_name s).0 ≡ some name) × ((next_name s).1.listing ≡ names)
next_name_lem s name names h = (rw h refl, rw h refl)

next_name_end : (s : Disk) → s.listing ≡ [] → (next_name s).0 ≡ none
next_name_end s h = rw h refl

system-ListsEntries : ListsEntries system
system-ListsEntries = record {
  entries = λ dir s. s.listing;
  bounded = λ dir s. omega arith;
  ends = λ dir s h. next_name_end s h;
  goes_on = λ dir s name names h. next_name_lem s name names h;
}

abbrev fresh : Disk
fresh = record { errno = 0; position = 0; listing = [] }

abbrev root : List ℕ
root = b'.' ∷ b'/' ∷ []

file_op-ReadsDisk_example :
    ReadsDisk (file_op system root time stbuf fs_stat) (2 ^ 31) (λ f. remote (root ++ f))
file_op-ReadsDisk_example =
    file_op-ReadsDisk system root time stbuf fs_stat remote system-ReadsFiles

file_written :
    file_write system root time (b'a' ∷ []) 2 (7 ∷ 8 ∷ []) fresh
    ≡ (0, make_file_time stbuf, make_file_time stbuf, record fresh { position = 2 })
unfolding file_write load_time written_result make_file_time
file_written = refl

file_write_lem_example :
    WriteSteps system
      (root ++ b'a' ∷ [])
      2
      (7 ∷ 8 ∷ [])
      fresh
      (make_file_time stbuf)
      (make_file_time stbuf)
      (record fresh { position = 2 })
file_write_lem_example =
    file_write_lem system system-SetsErrno root time (b'a' ∷ []) 2 (7 ∷ 8 ∷ []) fresh
      (make_file_time stbuf) (make_file_time stbuf) (record fresh { position = 2 }) (omega arith)
      file_written

file_readdir_lem_example :
    (s₂ : Disk) × ReadToEnd system 4 (record fresh { listing = (b'a' ∷ []) ∷ (b'b' ∷ []) ∷ [] }) s₂
    × (file_readdir system root [] fresh ≡ (
      s₂.errno,
      system-ListsEntries.entries 4 (record fresh { listing = (b'a' ∷ []) ∷ (b'b' ∷ []) ∷ [] }),
      s₂,
    ))
file_readdir_lem_example =
    file_readdir_lem system system-ListsEntries root [] 4 fresh
      (record fresh { listing = (b'a' ∷ []) ∷ (b'b' ∷ []) ∷ [] }) refl

-- A read that goes beyond the end of the file.
bytes_read :
    file_read system root [] 1 (0 ∷ 0 ∷ 0 ∷ 0 ∷ []) fresh
    ≡ (0, 105 ∷ 33 ∷ 0 ∷ 0 ∷ [], 2, record fresh { position = 3 })
unfolding file_read pread_loop
bytes_read = refl

names_read :
    file_readdir system root [] fresh
    ≡ (0, (b'a' ∷ []) ∷ (b'b' ∷ []) ∷ [], record fresh { listing = [] })
unfolding file_readdir readdir_loop
names_read = refl
