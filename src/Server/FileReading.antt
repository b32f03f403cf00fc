-- ===== src/Server/FileReading.antt =====
-- `FileOp::read` of server_src/fileop.cpp, over system calls that do what they document.
use net_fs.Prelude.{
  ℕ, ◌%◌, ◌^◌, ◌+◌, ◌<◌, ◌≤◌, List, [], ◌∷◌, ◌++◌, length, take, drop, replicate, Bool, false,
  Option, none, some, if◌then◌else◌, get_elem?, length-append, length-drop, length-replicate, ◌≡◌,
  ◌≢◌, ◌⊎◌, inl, inr, refl, ap, ◌∙◌, arith, Option-cases,
}
use net_fs.Time.{FileTime}
use net_fs.Msg.Statfs.{FsStat}
use net_fs.NetFs.Serving.{byte_or_zero}
use net_fs.Server.Responders.{StatBuf}
use net_fs.Server.Reading.{ReadsDisk}
use net_fs.Server.System.{rdonly, SystemCalls}
use net_fs.Server.FileOps.{pread_loop, is_negative, file_read, file_op}
use net_fs.Server.PreadLoop.{ReadsFiles, pread_loop-LoopEnds}

take-length_append {ℓ} : {A : Type ℓ} (xs ys : List A) → take (length xs) (xs ++ ys) ≡ xs
take-length_append [] ys = refl
take-length_append (x ∷ xs) ys = ap (λ zs. x ∷ zs) (take-length_append xs ys)

module _ {S : Type 0} (sys : SystemCalls S) (root : List ℕ) (remote : List ℕ → ℕ → ℕ)
    (laws : ReadsFiles sys remote) (f : List ℕ) (offset : ℕ) (buf : List ℕ) (s : S)
    (signed : offset % 2 ^ 32 < 2 ^ 31) where
  -- What `FileOp::read` comes to: no more than the buffer takes is read, and the buffer keeps its
  -- size; an error code, or the bytes of the file.
  abbrev ReadEnds : Type 0
  ReadEnds =
      (error : ℕ) × (bytes : List ℕ) × (n : ℕ) × (s' : S) × (file_read sys root f offset buf s
        ≡ (error, bytes, n, s'))
      × (n ≤ length buf)
      × (length bytes ≡ length buf)
      × ((error ≢ 0)
          ⊎ ((i : ℕ)
              → i < length buf
              → byte_or_zero (get_elem? (take n bytes) i) ≡ remote (root ++ f) (offset + i)))

  read_not_opened :
      (s₁ : S)
      → sys.sys_open (root ++ f) rdonly 0 s ≡ (none, s₁)
      → file_read sys root f offset buf s ≡ (sys.errno s₁, buf, 0, s₁)
  unfolding file_read
  read_not_opened s₁ run =
      let missing = ap (λ (t : Option ℕ × S). t.0) run in
      let after = ap (λ (t : Option ℕ × S). t.1) run in rw (file_read, missing, after) refl

  read_not_sought :
      (fd : ℕ) (s₁ s₂ : S)
      → sys.sys_open (root ++ f) rdonly 0 s ≡ (some fd, s₁)
      → sys.sys_lseek fd offset s₁ ≡ (none, s₂)
      → file_read sys root f offset buf s
        ≡ (sys.errno (sys.sys_close fd s₂), buf, 0, sys.sys_close fd s₂)
  unfolding file_read
  read_not_sought fd s₁ s₂ run run' =
      let opened = ap (λ (t : Option ℕ × S). t.0) run in
      let after = ap (λ (t : Option ℕ × S). t.1) run in
      let refused = ap (λ (t : Option ℕ × S). t.0) run' in
      let after' = ap (λ (t : Option ℕ × S). t.1) run' in
      rw (file_read, opened, after, refused, after, after') refl

  read_looped :
      (fd pos : ℕ) (s₁ s₂ s₃ : S) (done : Bool) (bytes : List ℕ)
      → sys.sys_open (root ++ f) rdonly 0 s ≡ (some fd, s₁)
      → sys.sys_lseek fd offset s₁ ≡ (some pos, s₂)
      → is_negative (some pos) ≡ false
      → pread_loop sys (length buf) fd (length buf) s₂ ≡ (done, bytes, s₃)
      → file_read sys root f offset buf s ≡ (
        if done then 0 else sys.errno (sys.sys_close fd s₃),
        bytes ++ drop (length bytes) buf,
        length bytes,
        sys.sys_close fd s₃,
      )
  unfolding file_read
  read_looped fd pos s₁ s₂ s₃ done bytes run run' passes loop =
      let opened = ap (λ (t : Option ℕ × S). t.0) run in
      let after = ap (λ (t : Option ℕ × S). t.1) run in
      let sought = ap (λ (t : Option ℕ × S). t.0) run' in
      let after' = ap (λ (t : Option ℕ × S). t.1) run' in
      rw (file_read, opened, after, sought, passes, after, after', loop) refl

  read_after_open :
      (fd : ℕ) (s₁ : S) → sys.sys_open (root ++ f) rdonly 0 s ≡ (some fd, s₁) → ReadEnds
  read_after_open fd s₁ run = elim (Option-cases (sys.sys_lseek fd offset s₁).0) [
    | inl refused ↦
        let run' : sys.sys_lseek fd offset s₁ ≡ (none, (sys.sys_lseek fd offset s₁).1) =
          λ i. (refused i, (sys.sys_lseek fd offset s₁).1) in
        (
          _,
          buf,
          0,
          _,
          read_not_sought fd s₁ _ run run',
          omega arith,
          refl,
          inl (laws.seek_fails fd offset s₁ _ run'),
        )
    | inr (pos, sought) ↦
        let run' : sys.sys_lseek fd offset s₁ ≡ (some pos, (sys.sys_lseek fd offset s₁).1) =
          λ i. (sought i, (sys.sys_lseek fd offset s₁).1) in
        let (at_offset, stands) = laws.seeks (root ++ f) offset fd s s₁ _ run pos run' in
        let passes : is_negative (some pos) ≡ false = rw at_offset (ground arith) in
        let (done, bytes, s₃, loop, size, effect) =
          pread_loop-LoopEnds sys remote laws (root ++ f) (length buf) fd offset (length buf) _
            (omega arith) stands in
        (
          _,
          bytes ++ drop (length bytes) buf,
          length bytes,
          _,
          read_looped fd pos s₁ _ s₃ done bytes run run' passes loop,
          size,
          omega (
            arith,
            length-append bytes (drop (length bytes) buf),
            length-drop (length bytes) buf,
          ),
          elim effect [
            | inl (failed, reason) ↦ inl (rw failed reason)
            | inr (_, values) ↦ inr (λ i h.
                ap (λ xs. byte_or_zero (get_elem? xs i))
                  (take-length_append bytes (drop (length bytes) buf))
                ∙ values i h)
          ],
        )
  ]

  file_read-ReadEnds : ReadEnds
  file_read-ReadEnds = elim (Option-cases (sys.sys_open (root ++ f) rdonly 0 s).0) [
    | inl missing ↦
        let run : sys.sys_open (root ++ f) rdonly 0 s
            ≡ (none, (sys.sys_open (root ++ f) rdonly 0 s).1) =
          λ i. (missing i, (sys.sys_open (root ++ f) rdonly 0 s).1) in
        (
          _,
          buf,
          0,
          _,
          read_not_opened _ run,
          omega arith,
          refl,
          inl (laws.open_fails (root ++ f) s _ run),
        )
    | inr (fd, opened) ↦
        read_after_open fd _ (λ i. (opened i, (sys.sys_open (root ++ f) rdonly 0 s).1))
  ]

-- Over system calls that do what they document, `FileOp::read` reads as its callers rely on, for
-- places below 2^31. From there on the position that `lseek` returns may be negative as an `int`.
pub file_op-ReadsDisk :
    {S : Type 0} (sys : SystemCalls S) (root : List ℕ) (time₀ : FileTime) (stat₀ : StatBuf)
    (fs₀ : FsStat) (remote : List ℕ → ℕ → ℕ)
    → ReadsFiles sys remote
    → ReadsDisk (file_op sys root time₀ stat₀ fs₀) (2 ^ 31) (λ f. remote (root ++ f))
unfolding file_op
file_op-ReadsDisk sys root time₀ stat₀ fs₀ remote laws = record {
  within = omega arith;
  reads = λ f offset size s below.
      let len : length (replicate size 0) ≡ size = length-replicate size 0 in
      let (error, bytes, n, s', run, bound, same, values) =
        file_read-ReadEnds sys root remote laws f offset (replicate size 0) s (omega arith) in
      (
        error,
        bytes,
        n,
        s',
        run,
        omega arith,
        same ∙ len,
        elim values [
          | inl failed ↦ inl failed
          | inr given ↦ inr (λ i h. given i (omega (arith, len)))
        ],
      );
}
