-- ===== src/Server/PreadLoop.antt =====
-- The loop of `FileOp::read` in server_src/fileop.cpp, over system calls that do what they
-- document.
use net_fs.Prelude.{
  ℕ, zero, suc, ◌-◌, ◌+◌, ◌<◌, ◌≤◌, List, [], ◌∷◌, ◌++◌, length, take, ltb, ◌==◌, Bool, true, false,
  Option, none, some, get_elem?, get_elem?-append, length-append, length-take, ◌≡◌, ◌≢◌, ◌⊎◌, inl,
  inr, refl, sym, ap, ◌∙◌, arith, Bool-cases, Option-cases,
}
use net_fs.NetFs.Serving.{byte_or_zero}
use net_fs.Server.System.{rdonly, SystemCalls}
use net_fs.Server.FileOps.{pread_loop}

-- What `open`, `lseek`, `read` and `close` document, for files with the bytes `remote`, zeros
-- behind their ends. `At s fd path pos` says that a descriptor stands at a position of a file.
pub record ReadsFiles {S : Type 0} (sys : SystemCalls S) (remote : List ℕ → ℕ → ℕ) : Type 1 where
  pub At : S → ℕ → List ℕ → ℕ → Type 0
  pub open_fails :
      (path : List ℕ) (s s₁ : S) → sys.sys_open path rdonly 0 s ≡ (none, s₁) → sys.errno s₁ ≢ 0
  pub seeks :
      (path : List ℕ) (offset fd : ℕ) (s s₁ s₂ : S)
      → sys.sys_open path rdonly 0 s ≡ (some fd, s₁)
      → (pos : ℕ) → sys.sys_lseek fd offset s₁ ≡ (some pos, s₂)
      → (pos ≡ offset) × At s₂ fd path offset
  -- closing a descriptor leaves the reason of the call before
  pub seek_fails :
      (fd offset : ℕ) (s s₁ : S)
      → sys.sys_lseek fd offset s ≡ (none, s₁)
      → sys.errno (sys.sys_close fd s₁) ≢ 0
  pub read_fails :
      (fd n : ℕ) (s s₁ : S) → sys.sys_read fd n s ≡ (none, s₁) → sys.errno (sys.sys_close fd s₁) ≢ 0
  -- some bytes from the position on, as many as the call likes; none only at the end of the file
  pub gives :
      (path : List ℕ) (fd pos n : ℕ) (bytes : List ℕ) (s s₁ : S)
      → 0 < n
      → At s fd path pos
      → sys.sys_read fd n s ≡ (some bytes, s₁)
      → At s₁ fd path (pos + length (take n bytes))
        × ((i : ℕ)
            → i < length (take n bytes)
            → get_elem? (take n bytes) i ≡ some (remote path (pos + i)))
        × ((0 < length (take n bytes)) ⊎ ((i : ℕ) → remote path (pos + i) ≡ 0))

List-cases {ℓ} : {A : Type ℓ} (xs : List A) → (xs ≡ []) ⊎ ((b : A) × (bs : List A) × (xs ≡ b ∷ bs))
List-cases [] = inl refl
List-cases (x ∷ xs) = inr (x, xs, refl)

-- What the loop comes to: the descriptor is read up to the end of the buffer or of the file, or a
-- call fails.
abbrev pub LoopEnds :
    {S : Type 0} → SystemCalls S → (List ℕ → ℕ → ℕ) → List ℕ → ℕ → ℕ → ℕ → ℕ → S → Type 0
LoopEnds {S} sys remote path fuel fd pos left s =
    (done : Bool) × (bytes : List ℕ) × (s' : S) × (pread_loop sys fuel fd left s
      ≡ (done, bytes, s'))
    × (length bytes ≤ left)
    × (((done ≡ false) × (sys.errno (sys.sys_close fd s') ≢ 0))
        ⊎ ((done ≡ true)
            × ((i : ℕ) → i < left → byte_or_zero (get_elem? bytes i) ≡ remote path (pos + i))))

module _ {S : Type 0} (sys : SystemCalls S) (remote : List ℕ → ℕ → ℕ) (laws : ReadsFiles sys remote)
    (path : List ℕ) where
  loop_stop :
      (fuel fd left : ℕ) (s s₁ : S)
      → (left == 0) ≡ false
      → sys.sys_read fd left s ≡ (none, s₁)
      → pread_loop sys (suc fuel) fd left s ≡ (false, [], s₁)
  unfolding pread_loop
  loop_stop fuel fd left s s₁ more run =
      let got = ap (λ (t : Option (List ℕ) × S). t.0) run in
      let after = ap (λ (t : Option (List ℕ) × S). t.1) run in rw (more, got, after) refl

  loop_end :
      (fuel fd left : ℕ) (bytes : List ℕ) (s s₁ : S)
      → (left == 0) ≡ false
      → sys.sys_read fd left s ≡ (some bytes, s₁)
      → take left bytes ≡ []
      → pread_loop sys (suc fuel) fd left s ≡ (true, [], s₁)
  unfolding pread_loop
  loop_end fuel fd left bytes s s₁ more run empty =
      let got = ap (λ (t : Option (List ℕ) × S). t.0) run in
      let after = ap (λ (t : Option (List ℕ) × S). t.1) run in rw (more, got, empty, after) refl

  abbrev joined : ℕ → List ℕ → Bool × List ℕ × S → Bool × List ℕ × S
  joined b bs (done, rest, s) = (done, (b ∷ bs) ++ rest, s)

  loop_go :
      (fuel fd left b : ℕ) (bytes bs rest : List ℕ) (done : Bool) (s s₁ s₂ : S)
      → (left == 0) ≡ false
      → sys.sys_read fd left s ≡ (some bytes, s₁)
      → take left bytes ≡ b ∷ bs
      → pread_loop sys fuel fd (left - length (b ∷ bs)) s₁ ≡ (done, rest, s₂)
      → pread_loop sys (suc fuel) fd left s ≡ (done, (b ∷ bs) ++ rest, s₂)
  unfolding pread_loop
  loop_go fuel fd left b bytes bs rest done s s₁ s₂ more run some_bytes run' =
      let got = ap (λ (t : Option (List ℕ) × S). t.0) run in
      let after = ap (λ (t : Option (List ℕ) × S). t.1) run in
      let step : pread_loop sys (suc fuel) fd left s
          ≡ joined b bs (pread_loop sys fuel fd (left - length (b ∷ bs)) s₁) =
        rw (more, got, some_bytes, after) refl in
      step ∙ ap (joined b bs) run'

  round_byte :
      (pos left : ℕ) (first rest : List ℕ) (i : ℕ)
      → ((k : ℕ) → k < length first → get_elem? first k ≡ some (remote path (pos + k)))
      → ((k : ℕ)
          → k < left - length first
          → byte_or_zero (get_elem? rest k) ≡ remote path (pos + length first + k))
      → i < left
      → byte_or_zero (get_elem? (first ++ rest) i) ≡ remote path (pos + i)
  round_byte pos left first rest i early late h =
      let split = get_elem?-append first rest i in
      elim (Bool-cases (ltb i (length first))) [
        | inl inner ↦
            ap byte_or_zero {y = some (remote path (pos + i))}
              (split ∙ rw inner (early i (ground arith)))
        | inr beyond ↦
            let place : pos + length first + (i - length first) ≡ pos + i = ground arith in
            ap byte_or_zero {y = get_elem? rest (i - length first)} (split ∙ rw beyond refl)
            ∙ late (i - length first) (ground arith)
            ∙ ap (λ (n : ℕ). remote path n) place
      ]

  loop_idle :
      (fuel fd left : ℕ) (s : S)
      → (left == 0) ≡ true
      → pread_loop sys (suc fuel) fd left s ≡ (true, [], s)
  unfolding pread_loop
  loop_idle fuel fd left s idle = rw idle refl

  -- A round that reads, and the rounds after it.
  loop_round :
      (fuel fd pos left : ℕ) (bytes : List ℕ) (s s₁ : S)
      → left ≤ suc fuel
      → (left == 0) ≡ false
      → laws.At s fd path pos
      → sys.sys_read fd left s ≡ (some bytes, s₁)
      → ((n : ℕ) (s₂ : S)
          → left - length (take left bytes) ≤ fuel
          → laws.At s₂ fd path n
          → LoopEnds sys remote path fuel fd n (left - length (take left bytes)) s₂)
      → LoopEnds sys remote path (suc fuel) fd pos left s
  loop_round fuel fd pos left bytes s s₁ bound more at_pos run next =
      let (at₁, values, progress) =
        laws.gives path fd pos left bytes s s₁ (ground arith) at_pos run in
      elim (List-cases (take left bytes)) [
        | inl empty ↦ (
          true,
          [],
          s₁,
          loop_end fuel fd left bytes s s₁ more run empty,
          omega arith,
          elim progress [
            | inl some_bytes ↦ absurd (omega (arith, ap length empty))
            | inr ended ↦ inr (refl, λ i h. sym (ended i))
          ],
        )
        | inr (b, bs, some_bytes) ↦
            let len : length (take left bytes) ≡ length (b ∷ bs) = ap length some_bytes in
            let (done, rest, s₂, run', size, effect) =
              next (pos + length (take left bytes)) s₁ (omega arith) at₁ in
            let run'' = ap (λ (n : ℕ). pread_loop sys fuel fd (left - n) s₁) (sym len) ∙ run' in
            (
              done,
              (b ∷ bs) ++ rest,
              s₂,
              loop_go fuel fd left b bytes bs rest done s s₁ s₂ more run some_bytes run'',
              omega (arith, length-append (b ∷ bs) rest, length-take left bytes),
              elim effect [
                | inl failed ↦ inl failed
                | inr (ok_done, later) ↦ inr (
                  ok_done,
                  λ i h.
                      round_byte pos left (b ∷ bs) rest i
                        (λ k l. ap (λ xs. get_elem? xs k) (sym some_bytes) ∙ values k (omega arith))
                        (λ k l.
                          ap (λ (n : ℕ). byte_or_zero (get_elem? rest k)) len
                          ∙ later k (omega arith)
                          ∙ ap (λ (n : ℕ). remote path (pos + n + k)) len)
                        h,
                )
              ],
            )
      ]

  pub pread_loop-LoopEnds :
      (fuel fd pos left : ℕ) (s : S)
      → left ≤ fuel
      → laws.At s fd path pos
      → LoopEnds sys remote path fuel fd pos left s
  pread_loop-LoopEnds zero fd pos left s bound at_pos =
      (true, [], s, unfold pread_loop in refl, omega arith, inr (refl, λ i h. absurd (omega arith)))
  pread_loop-LoopEnds (suc fuel) fd pos left s bound at_pos = elim (Bool-cases (left == 0)) [
    | inl empty ↦ (
      true,
      [],
      s,
      loop_idle fuel fd left s empty,
      omega arith,
      inr (refl, λ i h. absurd (ground arith)),
    )
    | inr more ↦ elim (Option-cases (sys.sys_read fd left s).0) [
      | inl failed ↦
          let run : sys.sys_read fd left s ≡ (none, (sys.sys_read fd left s).1) =
            λ i. (failed i, (sys.sys_read fd left s).1) in
          (
            false,
            [],
            _,
            loop_stop fuel fd left s _ more run,
            omega arith,
            inl (refl, laws.read_fails fd left s _ run),
          )
      | inr (bytes, got) ↦
          let run : sys.sys_read fd left s ≡ (some bytes, (sys.sys_read fd left s).1) =
            λ i. (got i, (sys.sys_read fd left s).1) in
          loop_round fuel fd pos left bytes s _ bound more at_pos run
            (λ n s₁ h at₁. pread_loop-LoopEnds fuel fd n (left - length (take left bytes)) s₁ h at₁)
    ]
  ]
