-- ===== src/Cache/Files.antt =====
-- What a change of a file's attributes, or a new file without blocks, leaves of the cache:
-- `cacheFileAttr` and the size that `Cache::write` sets, in client_src/cache.cpp.
use net_fs.Prelude.{
  ℕ, Error, List, [], none, some, ◌==◌, str_eq, str_eq_iff, nat_eq, string_eq, find, find-put,
  Result, ok, err, ◌≡◌, ◌≢◌, refl, ap, sym, subst, ◌∙◌, arith, Bool-cases, Option-cases, inl, inr,
  false, ◌⊎◌,
}
use net_fs.Cache.State.{FileAttr, FileCache, Cache, Backend}
use net_fs.Cache.Blocks.{set_file}
use net_fs.Cache.Valid.{IsValid, find_entry, view}
use net_fs.Cache.Store.{file_facts}
use net_fs.Cache.WriteBlock.{dirty_at}
use net_fs.Cache.Ops.{cache_file_attr}

-- Two caches with the same blocks and usage list.
pub record SameBlocks (c c' : Cache) : Type 0 where
  pub same_entry : (g : List ℕ) (k : ℕ) → find_entry c' g k ≡ find_entry c g k
  pub same_size : c'.block_size ≡ c.block_size
  pub same_list : c'.recent_list ≡ c.recent_list
  pub same_next : c'.next_node ≡ c.next_node

pub SameBlocks-IsValid : {c c' : Cache} → SameBlocks c c' → IsValid c → IsValid c'
SameBlocks-IsValid {c} {c'} s v = record {
  positive = omega (arith, v.positive, s.same_size);
  small = omega (arith, v.small, s.same_size);
  blocks = λ f b e h. rw s.same_size (v.blocks f b e (sym (s.same_entry f b) ∙ h));
  recorded = λ f b e h. rw s.same_list (v.recorded f b e (sym (s.same_entry f b) ∙ h));
  used = λ n u h.
      let (e, found, there) = v.used n u (rw s.same_list at h) in
      (e, s.same_entry u.entry_id.filename u.entry_id.block_num ∙ found, there);
  fresh = λ n u h. rw s.same_next (v.fresh n u (rw s.same_list at h));
  distinct = rw s.same_list v.distinct;
}

pub SameBlocks-view :
    {c c' : Cache} → SameBlocks c c' → (g : List ℕ) (k x : ℕ) → view c' g k x ≡ view c g k x
unfolding view
SameBlocks-view s g k x = ground (arith, s.same_entry g k)

pub SameBlocks-dirty_at :
    {c c' : Cache} → SameBlocks c c' → (g : List ℕ) (k : ℕ) → dirty_at c' g k ≡ dirty_at c g k
unfolding dirty_at
SameBlocks-dirty_at s g k = ground (arith, s.same_entry g k)

-- A file with other attributes and the same blocks.
pub set_file-SameBlocks :
    (c : Cache) (f : List ℕ) (fc fc' : FileCache)
    → find f c.file_map ≡ some fc
    → fc'.entries ≡ fc.entries
    → SameBlocks c (set_file f fc' c)
unfolding find_entry
set_file-SameBlocks c f fc fc' known same = record {
  same_entry = λ g k.
      let at_file = find-put f g fc' c.file_map in
      elim (Bool-cases (str_eq f g)) [
        | inl here ↦
            let known' : find g c.file_map ≡ some fc =
              subst (λ h. find h c.file_map ≡ some fc) ((str_eq_iff f g).0 here) known in
            ground (arith, at_file, known')
        | inr other ↦ ground (arith, at_file)
      ];
  same_size = refl;
  same_list = refl;
  same_next = refl;
}

new_file_entry :
    (c : Cache) (f : List ℕ) (fc : FileCache)
    → find f c.file_map ≡ none
    → fc.entries ≡ []
    → (g : List ℕ) (k : ℕ) → find_entry (set_file f fc c) g k ≡ find_entry c g k
unfolding find_entry
new_file_entry c f fc unknown empty g k =
    let at_file = find-put f g fc c.file_map in
    let nothing : find k fc.entries ≡ none = rw empty (unfold find in refl) in
    elim (Bool-cases (str_eq f g)) [
      | inl here ↦
          let unknown' : find g c.file_map ≡ none =
            subst (λ h. find h c.file_map ≡ none) ((str_eq_iff f g).0 here) unknown in
          ground (arith, at_file, unknown', nothing)
      | inr other ↦ ground (arith, at_file)
    ]

-- A file that the cache did not know, without blocks.
pub new_file-SameBlocks :
    (c : Cache) (f : List ℕ) (fc : FileCache)
    → find f c.file_map ≡ none
    → fc.entries ≡ []
    → SameBlocks c (set_file f fc c)
new_file-SameBlocks c f fc unknown empty = record {
  same_entry = new_file_entry c f fc unknown empty;
  same_size = refl;
  same_list = refl;
  same_next = refl;
}

-- What `cacheFileAttr` leaves when it succeeds: the file is known, and nothing else has changed.
pub record Known (c c' : Cache) (f : List ℕ) : Type 0 where
  pub same : SameBlocks c c'
  pub file : FileCache
  pub found : find f c'.file_map ≡ some file
  pub other_facts : (g : List ℕ) → str_eq f g ≡ false → file_facts c' g ≡ file_facts c g

Result-cases : {A : Type 0} (r : Result A) → ((e : Error) × (r ≡ err e)) ⊎ ((a : A) × (r ≡ ok a))
Result-cases (err e) = inl (e, refl)
Result-cases (ok a) = inr (a, refl)

pub set_file-other_facts :
    (c : Cache) (f g : List ℕ) (fc : FileCache)
    → str_eq f g ≡ false
    → file_facts (set_file f fc c) g ≡ file_facts c g
unfolding file_facts
set_file-other_facts c f g fc other = ground (arith, find-put f g fc c.file_map)

SameBlocks-refl : (c : Cache) → SameBlocks c c
SameBlocks-refl c = record {
  same_entry = λ g k. refl;
  same_size = refl;
  same_list = refl;
  same_next = refl;
}

ok-inj : {A : Type 0} {a b : A} → ok a ≡ ok b → a ≡ b
ok-inj h = cc

pub SameBlocks-trans : {c d e : Cache} → SameBlocks c d → SameBlocks d e → SameBlocks c e
SameBlocks-trans s t = record {
  same_entry = λ g k. t.same_entry g k ∙ s.same_entry g k;
  same_size = t.same_size ∙ s.same_size;
  same_list = t.same_list ∙ s.same_list;
  same_next = t.same_next ∙ s.same_next;
}

module _ {S : Type 0} (backend : Backend S) (f : List ℕ) (c : Cache) (s : S) where
  pub run_known :
      (fc : FileCache) → find f c.file_map ≡ some fc → cache_file_attr backend f c s ≡ ok (0, c, s)
  unfolding cache_file_attr
  run_known fc there = ground arith

  pub run_asked :
      (attr : FileAttr) (s' : S)
      → find f c.file_map ≡ none
      → backend.attr_ft f s ≡ ok (0, attr, s')
      → cache_file_attr backend f c s
        ≡ ok (0, set_file f (record { stale = false; attr = attr; entries = [] }) c, s')
  unfolding cache_file_attr
  run_asked attr s' absent reply = ground arith

  pub run_refused :
      (code : ℕ) (attr : FileAttr) (s' : S)
      → find f c.file_map ≡ none
      → backend.attr_ft f s ≡ ok (code, attr, s')
      → (code == 0) ≡ false
      → cache_file_attr backend f c s ≡ ok (code, c, s')
  unfolding cache_file_attr
  run_refused code attr s' absent reply failed = ground arith

  pub run_stopped :
      (e : Error)
      → find f c.file_map ≡ none
      → backend.attr_ft f s ≡ err e
      → cache_file_attr backend f c s ≡ err e
  unfolding cache_file_attr
  run_stopped e absent reply = ground arith

  Known-new :
      (attr : FileAttr)
      → find f c.file_map ≡ none
      → Known c (set_file f (record { stale = false; attr = attr; entries = [] }) c) f
  Known-new attr absent =
      let fc : FileCache = record { stale = false; attr = attr; entries = [] } in
      record {
        same = new_file-SameBlocks c f fc absent refl;
        file = fc;
        found = find-put f f fc c.file_map ∙ rw ((str_eq_iff f f).1 refl) refl;
        other_facts = λ g other. set_file-other_facts c f g fc other;
      }

  asked_result :
      (attr : FileAttr) (code code' : ℕ) (c' : Cache) (s' s'' : S)
      → find f c.file_map ≡ none
      → backend.attr_ft f s ≡ ok (code', attr, s'')
      → cache_file_attr backend f c s ≡ ok (code, c', s')
      → ((code ≡ 0) × Known c c' f) ⊎ ((code ≢ 0) × (c' ≡ c))
  asked_result attr code code' c' s' s'' absent reply h = elim (Bool-cases (code' == 0)) [
    | inl zero_code ↦
        let zero' : code' ≡ 0 = ground arith in
        let reply' : backend.attr_ft f s ≡ ok (0, attr, s'') =
          reply ∙ ap (λ n. ok (n, attr, s'')) zero' in
        let eq = ok-inj (sym (run_asked attr s'' absent reply') ∙ h) in
        inl (
          sym (ap (λ (t : ℕ × Cache × S). t.0) eq),
          subst (λ d. Known c d f) (ap (λ (t : ℕ × Cache × S). t.1) eq) (Known-new attr absent),
        )
    | inr failed ↦
        let eq = ok-inj (sym (run_refused code' attr s'' absent reply failed) ∙ h) in
        let same : code' ≡ code = ap (λ (t : ℕ × Cache × S). t.0) eq in
        inr (ground (arith, same), sym (ap (λ (t : ℕ × Cache × S). t.1) eq))
  ]

  -- `cacheFileAttr` for a file that the cache knows does nothing; for another it asks for the
  -- attributes. An error code is passed on and nothing in the cache changes; without one the file
  -- is known afterwards, and the cached bytes are the same as before.
  pub cache_file_attr_lem :
      (code : ℕ) (c' : Cache) (s' : S)
      → cache_file_attr backend f c s ≡ ok (code, c', s')
      → ((code ≡ 0) × Known c c' f) ⊎ ((code ≢ 0) × (c' ≡ c))
  cache_file_attr_lem code c' s' h = elim (Option-cases (find f c.file_map)) [
    | inr (fc, there) ↦
        let eq = ok-inj (sym (run_known fc there) ∙ h) in
        let same : c ≡ c' = ap (λ (t : ℕ × Cache × S). t.1) eq in
        inl (
          sym (ap (λ (t : ℕ × Cache × S). t.0) eq),
          record {
            same = subst (λ d. SameBlocks c d) same (SameBlocks-refl c);
            file = fc;
            found = ap (λ (d : Cache). find f d.file_map) (sym same) ∙ there;
            other_facts = λ g other. ap (λ d. file_facts d g) (sym same);
          },
        )
    | inl absent ↦ elim (Result-cases (backend.attr_ft f s)) [
      | inl (e, reply) ↦ absurd (let stop = sym (run_stopped e absent reply) ∙ h in cc)
      | inr ((code', attr, s''), reply) ↦ asked_result attr code code' c' s' s'' absent reply h
    ]
  ]
