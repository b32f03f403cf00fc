-- ===== src/Server/FileStoring.antt =====
-- `FileOp::write` and `FileOp::truncate` of server_src/fileop.cpp, over system calls that do what
-- they document.
use net_fs.Prelude.{
  ℕ, ◌-◌, ◌^◌, ◌<◌, ◌≤◌, List, [], ◌∷◌, ◌++◌, length, get_elem?, true, false, Option, some, ◌==◌,
  ==_iff, str_eq, ◌&&◌, if◌then◌else◌, ◌≡◌, ◌⊎◌, inl, inr, refl, sym, ap, ◌∙◌, arith, Bool-cases,
  Option-cases,
}
use net_fs.Time.{FileTime}
use net_fs.Msg.Statfs.{FsStat}
use net_fs.Cache.Span.{in_span}
use net_fs.Server.Responders.{StatBuf}
use net_fs.Server.Storing.{WritesDisk}
use net_fs.Server.System.{wronly_creat, SystemCalls}
use net_fs.Server.FileOps.{load_time, file_write, file_truncate, file_op}
use net_fs.Server.FileWriting.{SetsErrno, WriteSteps, file_write_lem}

-- What the calls document, for the bytes `remote` of the files, zeros behind their ends: only
-- `write` and `truncate` change them, a write at the position of the descriptor. `At s fd path pos`
-- says that a descriptor stands at a position of a file.
pub record StoresFiles {S : Type 0} (sys : SystemCalls S) (remote : S → List ℕ → ℕ → ℕ)
    : Type 1 where
  pub At : S → ℕ → List ℕ → ℕ → Type 0
  pub stat_keeps :
      (path : List ℕ) (s : S) (g : List ℕ) (pos : ℕ)
      → remote (sys.sys_stat path s).1 g pos ≡ remote s g pos
  pub open_keeps :
      (path : List ℕ) (fd : ℕ) (s s₁ : S)
      → sys.sys_open path wronly_creat 502 s ≡ (some fd, s₁)
      → (g : List ℕ) (pos : ℕ) → remote s₁ g pos ≡ remote s g pos
  pub seek_stands :
      (path : List ℕ) (offset fd at : ℕ) (s s₁ s₂ : S)
      → sys.sys_open path wronly_creat 502 s ≡ (some fd, s₁)
      → sys.sys_lseek fd offset s₁ ≡ (some at, s₂)
      → At s₂ fd path offset × ((g : List ℕ) (pos : ℕ) → remote s₂ g pos ≡ remote s₁ g pos)
  pub close_keeps :
      (fd : ℕ) (s : S) (g : List ℕ) (pos : ℕ) → remote (sys.sys_close fd s) g pos ≡ remote s g pos
  -- a call that takes all the bytes puts them into the file
  pub puts :
      (path : List ℕ) (fd offset n : ℕ) (buf : List ℕ) (s s₁ : S)
      → At s fd path offset
      → sys.sys_write fd buf s ≡ (some n, s₁)
      → length buf ≤ n
      → (g : List ℕ) (pos : ℕ)
      → some (remote s₁ g pos) ≡ (
          if str_eq path g && in_span offset (length buf) pos
          then get_elem? buf (pos - offset)
          else some (remote s g pos))
  pub cuts :
      (path : List ℕ) (size : ℕ) (s : S) (g : List ℕ) (pos : ℕ)
      → (str_eq path g ≡ false) ⊎ (pos < size)
      → remote (sys.sys_truncate path size s).1 g pos ≡ remote s g pos

-- Two files below one root.
str_eq-append : (root f g : List ℕ) → str_eq (root ++ f) (root ++ g) ≡ str_eq f g
unfolding str_eq
str_eq-append [] f g = refl
str_eq-append (x ∷ root) f g =
    let same : (x == x) ≡ true = ground arith in rw same (str_eq-append root f g)

module _ {S : Type 0} (sys : SystemCalls S) (remote : S → List ℕ → ℕ → ℕ)
    (laws : StoresFiles sys remote) where
  load_time_keeps :
      (path : List ℕ) (s : S) (g : List ℕ) (pos : ℕ)
      → remote (load_time sys path s).1 g pos ≡ remote s g pos
  unfolding load_time
  load_time_keeps path s g pos = elim (Option-cases (sys.sys_stat path s).0) [
    | inl missing ↦ rw (load_time, missing) (laws.stat_keeps path s g pos)
    | inr (st, found) ↦ rw (load_time, found) (laws.stat_keeps path s g pos)
  ]

  loaded_keeps :
      (path : List ℕ) (t : FileTime) (s s₁ : S)
      → load_time sys path s ≡ (some t, s₁)
      → (g : List ℕ) (pos : ℕ) → remote s₁ g pos ≡ remote s g pos
  loaded_keeps path t s s₁ run g pos =
      ap (λ (r : Option FileTime × S). remote r.1 g pos) (sym run) ∙ load_time_keeps path s g pos

  -- The bytes after a write that went through all its steps.
  steps_store :
      (path : List ℕ) (offset : ℕ) (buf : List ℕ) (s s' : S) (before after : FileTime)
      → WriteSteps sys path offset buf s before after s'
      → (g : List ℕ) (pos : ℕ)
      → some (remote s' g pos) ≡ (
          if str_eq path g && in_span offset (length buf) pos
          then get_elem? buf (pos - offset)
          else some (remote s g pos))
  steps_store path offset buf s s' before after w g pos =
      let (stands, sought) = laws.seek_stands path offset w.fd offset _ _ _ w.opened w.sought in
      let kept : remote w.s₃ g pos ≡ remote s g pos =
        sought g pos
        ∙ laws.open_keeps path w.fd _ _ w.opened g pos
        ∙ loaded_keeps path before s w.s₁ w.read_before g pos in
      let last : remote s' g pos ≡ remote w.s₄ g pos =
        loaded_keeps path after _ s' w.read_after g pos ∙ laws.close_keeps w.fd w.s₄ g pos in
      ap (λ (b : ℕ). some b) last
      ∙ laws.puts path w.fd offset w.written buf w.s₃ w.s₄ stands w.wrote w.all_of_it g pos
      ∙ ap
          (λ (b : ℕ).
            if str_eq path g && in_span offset (length buf) pos
            then get_elem? buf (pos - offset)
            else some b)
          kept

  file_truncate_keeps :
      (root f : List ℕ) (time₀ : FileTime) (size : ℕ) (s : S) (g : List ℕ) (pos : ℕ)
      → (str_eq (root ++ f) g ≡ false) ⊎ (pos < size)
      → remote (file_truncate sys root time₀ f size s).3 g pos ≡ remote s g pos
  unfolding file_truncate
  file_truncate_keeps root f time₀ size s g pos outside =
      let s₁ : S = (load_time sys (root ++ f) s).1 in
      let s₂ : S = (sys.sys_truncate (root ++ f) size s₁).1 in
      let first = load_time_keeps (root ++ f) s g pos in
      let cut = laws.cuts (root ++ f) size s₁ g pos outside in
      let last = load_time_keeps (root ++ f) s₂ g pos in
      elim (Option-cases (load_time sys (root ++ f) s).0) [
        | inl missing ↦ rw (file_truncate, missing) first
        | inr (b, found) ↦ elim (Bool-cases (sys.sys_truncate (root ++ f) size s₁).0) [
          | inr refused ↦ rw (file_truncate, found, refused) (cut ∙ first)
          | inl done ↦ elim (Option-cases (load_time sys (root ++ f) s₂).0) [
            | inl missing ↦ rw (file_truncate, found, done, missing) (last ∙ cut ∙ first)
            | inr (t, again) ↦ rw (file_truncate, found, done, again) (last ∙ cut ∙ first)
          ]
        ]
      ]

-- Over system calls that do what they document, `FileOp::write` and `FileOp::truncate` store as
-- their callers rely on, for places below 2^31. From there on the position that `lseek` returns may
-- be negative as an `int`.
pub file_op-WritesDisk :
    {S : Type 0} (sys : SystemCalls S) (root : List ℕ) (time₀ : FileTime) (stat₀ : StatBuf)
    (fs₀ : FsStat) (remote : S → List ℕ → ℕ → ℕ)
    → SetsErrno sys
    → StoresFiles sys remote
    → WritesDisk (file_op sys root time₀ stat₀ fs₀) (2 ^ 31) (λ s f. remote s (root ++ f))
unfolding file_op
file_op-WritesDisk {S} sys root time₀ stat₀ fs₀ remote errors laws = record {
  within = omega arith;
  writes = λ f offset buf s some_bytes below.
      let (error, before, after, s') = file_write sys root time₀ f offset buf s in
      elim (Bool-cases (error == 0)) [
        | inr failed ↦ inl (ground arith)
        | inl done ↦ inr (λ g pos.
            let success : file_write sys root time₀ f offset buf s ≡ (0, before, after, s') =
              λ i. ((==_iff error 0).0 done i, before, after, s') in
            let w =
              file_write_lem sys errors root time₀ f offset buf s before after s' (omega arith)
                success in
            let same = str_eq-append root f g in
            rw same at (
              steps_store sys remote laws (root ++ f) offset buf s s' before after w (root ++ g)
                pos))
      ];
  truncates = λ f size s g pos outside.
      let same = str_eq-append root f g in
      let outside' : (str_eq (root ++ f) (root ++ g) ≡ false) ⊎ (pos < size) = (elim outside [
        | inl other ↦ inl (same ∙ other)
        | inr inner ↦ inr inner
      ]) in
      file_truncate_keeps sys remote laws root f time₀ size s (root ++ g) pos outside';
}
