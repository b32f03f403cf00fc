-- ===== src/Server/FileWriting.antt =====
-- `FileOp::write` of server_src/fileop.cpp: what is so when it reports a success.
use net_fs.Prelude.{
  ℕ, ◌%◌, ◌^◌, ◌<◌, ◌≤◌, List, ◌++◌, length, ltb, false, Option, none, some, ◌≡◌, ◌≢◌, inl, inr,
  refl, sym, ap, ◌∙◌, arith, Bool-cases, Option-cases,
}
use net_fs.Time.{FileTime}
use net_fs.Server.System.{wronly_creat, OpenFlags, SystemCalls}
use net_fs.Server.FileOps.{is_negative, load_time, written_result, file_write}

-- A call that fails leaves a reason other than 0 in `errno`, and closing a descriptor keeps it.
pub record SetsErrno {S : Type 0} (sys : SystemCalls S) : Type 0 where
  pub stat_fails :
      (path : List ℕ) (s : S)
      → (sys.sys_stat path s).0 ≡ none
      → sys.errno (sys.sys_stat path s).1 ≢ 0
  pub open_fails :
      (path : List ℕ) (flags : OpenFlags) (mode : ℕ) (s : S)
      → (sys.sys_open path flags mode s).0 ≡ none
      → sys.errno (sys.sys_open path flags mode s).1 ≢ 0
  pub seek_fails :
      (fd offset : ℕ) (s : S)
      → (sys.sys_lseek fd offset s).0 ≡ none
      → sys.errno (sys.sys_close fd (sys.sys_lseek fd offset s).1) ≢ 0
  -- the position that is asked for is the one that is returned
  pub seeks : (fd offset pos : ℕ) (s : S) → (sys.sys_lseek fd offset s).0 ≡ some pos → pos ≡ offset
  pub write_fails :
      (fd : ℕ) (buf : List ℕ) (s : S)
      → (sys.sys_write fd buf s).0 ≡ none
      → sys.errno (sys.sys_close fd (sys.sys_write fd buf s).1) ≢ 0

-- The calls of a write that succeeds: the times are read, the file is opened, the place is found,
-- all the bytes are written by one call, the descriptor is closed and the times are read again.
pub record WriteSteps {S : Type 0} (sys : SystemCalls S) (path : List ℕ) (offset : ℕ) (buf : List ℕ)
    (s : S) (before after : FileTime) (s' : S) : Type 0 where
  pub s₁ : S
  pub s₂ : S
  pub s₃ : S
  pub s₄ : S
  pub fd : ℕ
  pub written : ℕ
  pub read_before : load_time sys path s ≡ (some before, s₁)
  pub opened : sys.sys_open path wronly_creat 502 s₁ ≡ (some fd, s₂)
  pub sought : sys.sys_lseek fd offset s₂ ≡ (some offset, s₃)
  pub wrote : sys.sys_write fd buf s₃ ≡ (some written, s₄)
  pub all_of_it : length buf ≤ written
  pub read_after : load_time sys path (sys.sys_close fd s₄) ≡ (some after, s')

load_time_fails :
    {S : Type 0} (sys : SystemCalls S)
    → SetsErrno sys
    → (path : List ℕ) (s : S) → (load_time sys path s).0 ≡ none
    → sys.errno (load_time sys path s).1 ≢ 0
unfolding load_time
load_time_fails sys laws path s h = elim (Option-cases (sys.sys_stat path s).0) [
  | inl missing ↦ rw (load_time, missing) (laws.stat_fails path s missing)
  | inr (st, found) ↦ absurd (ground arith)
]

module _ {S : Type 0} (sys : SystemCalls S) (laws : SetsErrno sys) (root : List ℕ)
    (time₀ : FileTime) (f : List ℕ) (offset : ℕ) (buf : List ℕ) (s : S) where
  abbrev path : List ℕ
  path = root ++ f

  abbrev times : Option FileTime × S
  times = load_time sys path s

  abbrev opening : Option ℕ × S
  opening = sys.sys_open path wronly_creat 502 times.1

  abbrev seeking : ℕ → Option ℕ × S
  seeking fd = sys.sys_lseek fd offset opening.1

  abbrev writing : ℕ → Option ℕ × S
  writing fd = sys.sys_write fd buf (seeking fd).1

  no_time : times.0 ≡ none → (file_write sys root time₀ f offset buf s).0 ≡ sys.errno times.1
  unfolding file_write
  no_time e = rw (file_write, e) refl

  not_opened :
      (b : FileTime)
      → times.0 ≡ some b
      → opening.0 ≡ none
      → (file_write sys root time₀ f offset buf s).0 ≡ sys.errno opening.1
  unfolding file_write
  not_opened b e₁ e₂ = rw (file_write, e₁, e₂) refl

  not_sought :
      (b : FileTime) (fd : ℕ)
      → times.0 ≡ some b
      → opening.0 ≡ some fd
      → (seeking fd).0 ≡ none
      → (file_write sys root time₀ f offset buf s).0 ≡ sys.errno (sys.sys_close fd (seeking fd).1)
  unfolding file_write
  not_sought b fd e₁ e₂ e₃ = rw (file_write, e₁, e₂, e₃) refl

  written_at :
      (b : FileTime) (fd : ℕ)
      → times.0 ≡ some b
      → opening.0 ≡ some fd
      → (seeking fd).0 ≡ some offset
      → is_negative (some offset) ≡ false
      → file_write sys root time₀ f offset buf s
        ≡ written_result sys root time₀ f
            (length buf)
            b
            (writing fd).0
            (sys.sys_close fd (writing fd).1)
  unfolding file_write
  written_at b fd e₁ e₂ e₃ passes = rw (file_write, e₁, e₂, e₃, passes) refl

  module _ (before after : FileTime) (s' : S) (signed : offset % 2 ^ 32 < 2 ^ 31)
      (success : file_write sys root time₀ f offset buf s ≡ (0, before, after, s')) where
    code_zero : (file_write sys root time₀ f offset buf s).0 ≡ 0
    code_zero = ap (λ (t : ℕ × FileTime × FileTime × S). t.0) success

    -- The end of the write, from what `write` returns on.
    result_steps :
        (b : FileTime) (fd n : ℕ) (s₅ : S)
        → (writing fd).0 ≡ some n
        → written_result sys root time₀ f (length buf) b (some n) s₅ ≡ (0, before, after, s')
        → (b ≡ before) × (length buf ≤ n) × (load_time sys path s₅ ≡ (some after, s'))
    unfolding written_result
    result_steps b fd n s₅ e h = elim (Bool-cases (ltb n (length buf))) [
      | inl short ↦
          let same : ◌≡◌ {A = ℕ} 122 0 =
            ap (λ (t : ℕ × FileTime × FileTime × S). t.0) (rw (written_result, short) at h) in
          absurd (omega (arith, same))
      | inr enough ↦ elim (Option-cases (load_time sys path s₅).0) [
        | inl missing ↦
            let same : sys.errno (load_time sys path s₅).1 ≡ 0 =
              ap (λ (t : ℕ × FileTime × FileTime × S). t.0)
                (rw (written_result, enough, missing) at h) in
            absurd (load_time_fails sys laws path s₅ missing same)
        | inr (t, found) ↦
            let h' : (0, b, t, (load_time sys path s₅).1) ≡ (0, before, after, s') =
              rw (written_result, enough, found) at h in
            let same_time : t ≡ after = ap (λ (t : ℕ × FileTime × FileTime × S). t.2) h' in
            let same_state : (load_time sys path s₅).1 ≡ s' =
              ap (λ (t : ℕ × FileTime × FileTime × S). t.3) h' in
            (
              ap (λ (t : ℕ × FileTime × FileTime × S). t.1) h',
              ground arith,
              λ i. ((found ∙ ap some same_time) i, same_state i),
            )
      ]
    ]

    sought_steps :
        (b : FileTime) (fd : ℕ)
        → times.0 ≡ some b
        → opening.0 ≡ some fd
        → (seeking fd).0 ≡ some offset
        → WriteSteps sys path offset buf s before after s'
    sought_steps b fd e₁ e₂ e₃ =
        let result = sym (written_at b fd e₁ e₂ e₃ (ground arith)) ∙ success in
        elim (Option-cases (writing fd).0) [
          | inl failed ↦
              let same = ap (λ (t : ℕ × FileTime × FileTime × S). t.0) (rw failed at result) in
              absurd (laws.write_fails fd buf (seeking fd).1 failed (unfold written_result in same))
          | inr (n, e₄) ↦
              let (same, enough, loaded) =
                result_steps b fd n (sys.sys_close fd (writing fd).1) e₄ (rw e₄ at result) in
              record {
                s₁ = times.1;
                s₂ = opening.1;
                s₃ = (seeking fd).1;
                s₄ = (writing fd).1;
                fd = fd;
                written = n;
                read_before = λ i. ((e₁ ∙ ap some same) i, times.1);
                opened = λ i. (e₂ i, opening.1);
                sought = λ i. (e₃ i, (seeking fd).1);
                wrote = λ i. (e₄ i, (writing fd).1);
                all_of_it = enough;
                read_after = loaded;
              }
        ]

    -- At a place whose lower 32 bits are no negative `int`, `FileOp::write` reports a success
    -- only if every call succeeds, one call of `write` takes all the bytes, and the times are
    -- those before and after it.
    pub file_write_lem : WriteSteps sys path offset buf s before after s'
    file_write_lem = elim (Option-cases times.0) [
      | inl missing ↦
          absurd (load_time_fails sys laws path s missing (sym (no_time missing) ∙ code_zero))
      | inr (b, e₁) ↦ elim (Option-cases opening.0) [
        | inl missing ↦ absurd (
            laws.open_fails path wronly_creat 502 times.1 missing
              (sym (not_opened b e₁ missing) ∙ code_zero))
        | inr (fd, e₂) ↦ elim (Option-cases (seeking fd).0) [
          | inr (pos, found) ↦
              sought_steps b fd e₁ e₂ (found ∙ ap some (laws.seeks fd offset pos opening.1 found))
          | inl refused ↦ absurd (
              laws.seek_fails fd offset opening.1 refused
                (sym (not_sought b fd e₁ e₂ refused) ∙ code_zero))
        ]
      ]
    ]
