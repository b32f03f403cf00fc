-- ===== src/Server/Listing.antt =====
-- `FileOp::readdir` of server_src/fileop.cpp, over a directory stream that gives its entries in
-- turn.
use net_fs.Prelude.{
  ℕ, zero, suc, ◌<◌, ◌≤◌, List, [], ◌∷◌, ◌++◌, length, Option, none, some, ◌≡◌, refl, ap, ◌∙◌,
  arith,
}
use net_fs.Server.System.{SystemCalls}
use net_fs.Server.FileOps.{readdir_loop, file_readdir}

-- What `readdir` documents: the entries come one after the other and the stream then ends, and
-- there are no more of them than the bound says.
pub record ListsEntries {S : Type 0} (sys : SystemCalls S) : Type 0 where
  pub entries : ℕ → S → List (List ℕ)
  pub bounded : (dir : ℕ) (s : S) → length (entries dir s) ≤ sys.dir_bound dir s
  pub ends : (dir : ℕ) (s : S) → entries dir s ≡ [] → (sys.sys_readdir dir s).0 ≡ none
  pub goes_on :
      (dir : ℕ) (s : S) (name : List ℕ) (names : List (List ℕ))
      → entries dir s ≡ name ∷ names
      → ((sys.sys_readdir dir s).0 ≡ some name) × (entries dir (sys.sys_readdir dir s).1 ≡ names)

-- The system after calls of `readdir` on a stream, up to the one that gives no entry.
pub data ReadToEnd {S : Type 0} (sys : SystemCalls S) (dir : ℕ) : S → S → Type 0 where
  at_end : {s s₁ : S} → sys.sys_readdir dir s ≡ (none, s₁) → ReadToEnd sys dir s s₁
  one_more :
      {s s₁ s₂ : S} {name : List ℕ}
      → sys.sys_readdir dir s ≡ (some name, s₁)
      → ReadToEnd sys dir s₁ s₂
      → ReadToEnd sys dir s s₂

module _ {S : Type 0} (sys : SystemCalls S) (laws : ListsEntries sys) where
  loop_end :
      (fuel dir : ℕ) (s : S)
      → (sys.sys_readdir dir s).0 ≡ none
      → readdir_loop sys (suc fuel) dir s ≡ ([], (sys.sys_readdir dir s).1)
  unfolding readdir_loop
  loop_end fuel dir s e = rw (readdir_loop, e) refl

  abbrev named : List ℕ → List (List ℕ) × S → List (List ℕ) × S
  named name (names, s) = (name ∷ names, s)

  loop_go :
      (fuel dir : ℕ) (s : S) (name : List ℕ)
      → (sys.sys_readdir dir s).0 ≡ some name
      → readdir_loop sys (suc fuel) dir s
        ≡ named name (readdir_loop sys fuel dir (sys.sys_readdir dir s).1)
  unfolding readdir_loop
  loop_go fuel dir s name e = rw (readdir_loop, e) refl

  readdir_loop_lem :
      (names : List (List ℕ)) (fuel dir : ℕ) (s : S)
      → laws.entries dir s ≡ names
      → length names < fuel
      → (s' : S) × (readdir_loop sys fuel dir s ≡ (names, s')) × ReadToEnd sys dir s s'
  readdir_loop_lem names zero dir s h bound = absurd (omega arith)
  readdir_loop_lem [] (suc fuel) dir s h bound = (
    _,
    loop_end fuel dir s (laws.ends dir s h),
    at_end (λ i. (laws.ends dir s h i, (sys.sys_readdir dir s).1)),
  )
  readdir_loop_lem (name ∷ names) (suc fuel) dir s h bound =
      let (here, later) = laws.goes_on dir s name names h in
      let (s', run, to_end) =
        readdir_loop_lem names fuel dir (sys.sys_readdir dir s).1 later (omega arith) in
      (
        s',
        loop_go fuel dir s name here ∙ ap (named name) run,
        one_more (λ i. (here i, (sys.sys_readdir dir s).1)) to_end,
      )

  -- `FileOp::readdir` of a directory that can be opened gives all its entries in their order, with
  -- the `errno` that is left after the stream is closed; the stream is read to its end from an
  -- `errno` of 0, and then closed.
  pub file_readdir_lem :
      (root f : List ℕ) (dir : ℕ) (s s₁ : S)
      → sys.sys_opendir (root ++ f) s ≡ (some dir, s₁)
      → (s₂ : S) × ReadToEnd sys dir (sys.set_errno 0 s₁) s₂
        × (file_readdir sys root f s ≡ (
          sys.errno (sys.sys_closedir dir s₂),
          laws.entries dir (sys.set_errno 0 s₁),
          sys.sys_closedir dir s₂,
        ))
  unfolding file_readdir
  file_readdir_lem root f dir s s₁ run =
      let s₂ : S = sys.set_errno 0 s₁ in
      let opened = ap (λ (t : Option ℕ × S). t.0) run in
      let after = ap (λ (t : Option ℕ × S). t.1) run in
      let (s₃, loop, to_end) =
        readdir_loop_lem (laws.entries dir s₂) (suc (sys.dir_bound dir s₂)) dir s₂ refl
          (omega (arith, laws.bounded dir s₂)) in
      (s₃, to_end, rw (file_readdir, opened, after, loop) refl)
