-- ===== src/Cache/WriteBlock.antt =====
-- `Cache::writeBlock` of client_src/cache.cpp.
use net_fs.Prelude.{
  ℕ, ◌+◌, ◌-◌, ◌<◌, ◌≤◌, ◌^◌, ◌>>=◌, List, length, get_elem?, leb, ltb, none, some, str_eq_iff,
  nat_eq, string_eq, ◌&&◌, ◌||◌, Bool, if◌then◌else◌, find, at-find, ok, ◌≡◌, refl, ap₂, sym, ◌∙◌,
  arith, Bool-cases, Option-cases, inl, inr, true, false,
}
use net_fs.Cache.Entry.{CacheEntry, empty_entry, entry_write, is_dirty, dirty}
use net_fs.Cache.Contents.{
  byte_at, empty_entry-IsBlock, byte_at-empty_entry, entry_write_lem, wrap64_small,
}
use net_fs.Cache.State.{FileCache, Cache}
use net_fs.Cache.Blocks.{set_entry, new_entry, write_block}
use net_fs.Cache.Valid.{IsValid, find_entry, view, same_place, same_place_iff}
use net_fs.Cache.Store.{Stored, file_facts, find_entry-file, set_entry-Stored, new_entry-Stored}

-- Whether a block is in the cache and dirty.
unfoldable pub dirty_at : Cache → List ℕ → ℕ → Bool
dirty_at c f b = elim (find_entry c f b) [ none ↦ false | some e ↦ is_dirty e ]

-- The cache `c'` is `c` with `buf` written into a block of a file, at `offset`.
pub record Wrote (c c' : Cache) (f : List ℕ) (b offset : ℕ) (buf : List ℕ) : Type 0 where
  pub valid : IsValid c'
  pub same_size : c'.block_size ≡ c.block_size
  pub same_facts : (g : List ℕ) → file_facts c' g ≡ file_facts c g
  pub bytes :
      (g : List ℕ) (k x : ℕ)
      → view c' g k x ≡ (
          if same_place f b g k && (leb offset x && ltb x (offset + length buf))
          then get_elem? buf (x - offset)
          else view c g k x)
  pub dirt : (g : List ℕ) (k : ℕ) → dirty_at c' g k ≡ (same_place f b g k || dirty_at c g k)

-- A file that the cache knows is known after an entry is put in place.
pub Stored-find :
    {c c' : Cache} {f : List ℕ} {b : ℕ} {e : CacheEntry} (g : List ℕ) {fc : FileCache}
    → Stored c c' f b e
    → find g c.file_map ≡ some fc
    → (fc' : FileCache) × (find g c'.file_map ≡ some fc')
Stored-find {c} {c'} g st h =
    let facts = st.same_facts g in
    elim (Option-cases (find g c'.file_map)) [
      | inl miss ↦ absurd (unfold file_facts in ground arith)
      | inr found ↦ found
    ]

le→leb : {n m : ℕ} → n ≤ m → leb n m ≡ true
le→leb h = ground arith

pub view_stored :
    (c : Cache) (g : List ℕ) (k : ℕ) (e : CacheEntry) (x : ℕ)
    → find_entry c g k ≡ some e
    → view c g k x ≡ byte_at e x
unfolding view
view_stored c g k e x h = ground arith

pub view_absent : (c : Cache) (g : List ℕ) (k x : ℕ) → find_entry c g k ≡ none → view c g k x ≡ none
unfolding view
view_absent c g k x h = ground arith

pub view_same :
    (c c' : Cache) (g : List ℕ) (k x : ℕ)
    → find_entry c' g k ≡ find_entry c g k
    → view c' g k x ≡ view c g k x
unfolding view
view_same c c' g k x h = ground arith

dirty_stored :
    (c : Cache) (g : List ℕ) (k : ℕ) (e : CacheEntry)
    → find_entry c g k ≡ some e
    → e.state ≡ dirty
    → dirty_at c g k ≡ true
unfolding dirty_at
dirty_stored c g k e h d = ground arith

pub dirty_same :
    (c c' : Cache) (g : List ℕ) (k : ℕ)
    → find_entry c' g k ≡ find_entry c g k
    → dirty_at c' g k ≡ dirty_at c g k
unfolding dirty_at
dirty_same c c' g k h = ground arith

-- What an entry that is put in place does to the bytes and to the dirty blocks.
Wrote-Stored :
    (c c' : Cache) (f : List ℕ) (b offset : ℕ) (buf : List ℕ) (e : CacheEntry)
    → Stored c c' f b e
    → e.state ≡ dirty
    → ((x : ℕ)
        → byte_at e x ≡ (
            if leb offset x && ltb x (offset + length buf)
            then get_elem? buf (x - offset)
            else view c f b x))
    → Wrote c c' f b offset buf
Wrote-Stored c c' f b offset buf e st is_dirty bytes = record {
  valid = st.valid;
  same_size = st.same_size;
  same_facts = st.same_facts;
  bytes = λ g k x.
      let now = st.now g k in
      let there = bytes x in
      elim (Bool-cases (same_place f b g k)) [
        | inl same ↦
            let (ef, eb) = same_place_iff f b g k same in
            let there' : byte_at e x ≡ (
                if leb offset x && ltb x (offset + length buf)
                then get_elem? buf (x - offset)
                else view c g k x) =
              there
              ∙ ap₂
                  (λ h n.
                    if leb offset x && ltb x (offset + length buf)
                    then get_elem? buf (x - offset)
                    else view c h n x)
                  ef eb in
            view_stored c' g k e x (now ∙ rw same refl) ∙ there' ∙ rw same refl
        | inr other ↦ view_same c c' g k x (now ∙ rw other refl) ∙ rw other refl
      ];
  dirt = λ g k.
      let now = st.now g k in
      elim (Bool-cases (same_place f b g k)) [
        | inl same ↦ dirty_stored c' g k e (now ∙ rw same refl) is_dirty ∙ rw same refl
        | inr other ↦ dirty_same c c' g k (now ∙ rw other refl) ∙ rw other refl
      ];
}

pub Stored-trans :
    {c c' c'' : Cache} {f : List ℕ} {b : ℕ} {e e' : CacheEntry}
    → Stored c c' f b e
    → Stored c' c'' f b e'
    → Stored c c'' f b e'
Stored-trans s t = record {
  valid = t.valid;
  same_size = t.same_size ∙ s.same_size;
  same_facts = λ g. t.same_facts g ∙ s.same_facts g;
  now = λ g k. ground (arith, s.now g k, t.now g k);
}

module _ (c : Cache) (f : List ℕ) (b offset : ℕ) (buf : List ℕ) (fc : FileCache) (v : IsValid c)
    (known : find f c.file_map ≡ some fc) (some_bytes : 0 < length buf)
    (fits : offset + length buf ≤ c.block_size) where
  write_block_found :
      (e e' : CacheEntry) (c' : Cache)
      → c.block_size < 2 ^ 64
      → find b fc.entries ≡ some e
      → entry_write offset buf e ≡ ok e'
      → set_entry f b e' c ≡ ok c'
      → write_block f b offset buf c ≡ ok c'
  unfolding write_block
  write_block_found e e' c' small there run set =
      rw (wrap64_small fits small, le→leb fits, at-find f c.file_map known, ◌>>=◌, there, run) set

  write_block_made :
      (e e' : CacheEntry) (c₁ c' : Cache)
      → c.block_size < 2 ^ 64
      → find b fc.entries ≡ none
      → new_entry f b c ≡ ok (e, c₁)
      → entry_write offset buf e ≡ ok e'
      → set_entry f b e' c₁ ≡ ok c'
      → write_block f b offset buf c ≡ ok c'
  unfolding write_block
  write_block_made e e' c₁ c' small absent made run set =
      rw
        (wrap64_small fits small, le→leb fits, at-find f c.file_map known, ◌>>=◌, absent, made, run)
        set

  write_existing :
      (e : CacheEntry)
      → find b fc.entries ≡ some e
      → (c' : Cache) × (write_block f b offset buf c ≡ ok c') × Wrote c c' f b offset buf
  write_existing e there =
      let old : find_entry c f b ≡ some e = find_entry-file c f b fc known ∙ there in
      let (e', run, block, is_dirty', kept, bytes) =
        entry_write_lem c.block_size offset buf e v.small (v.blocks f b e old) some_bytes fits in
      let (c', set, st) = set_entry-Stored c f b fc e e' v known there block kept in
      (
        c',
        write_block_found e e' c' v.small there run set,
        Wrote-Stored c c' f b offset buf e' st is_dirty'
            (λ x. bytes x ∙ rw (view_stored c f b e x old) refl),
      )

  write_new :
      find b fc.entries ≡ none
      → (c' : Cache) × (write_block f b offset buf c ≡ ok c') × Wrote c c' f b offset buf
  write_new absent =
      let e : CacheEntry = empty_entry c.block_size c.next_node in
      let (c₁, made, st) = new_entry-Stored c f b fc v known absent in
      let (e', run, block, is_dirty', kept, bytes) =
        entry_write_lem c.block_size offset buf e v.small
          (empty_entry-IsBlock c.block_size c.next_node) some_bytes fits in
      let (fc₁, known₁) = Stored-find f st known in
      let here : same_place f b f b ≡ true = ground (arith, str_eq_iff f f) in
      let there : find b fc₁.entries ≡ some e =
        sym (find_entry-file c₁ f b fc₁ known₁) ∙ st.now f b ∙ rw here refl in
      let (c', set, st') =
        set_entry-Stored c₁ f b fc₁ e e' st.valid known₁ there (rw st.same_size block) kept in
      (
        c',
        write_block_made e e' c₁ c' v.small absent made run set,
        Wrote-Stored c c' f b offset buf e' (Stored-trans st st') is_dirty' (λ x.
            bytes x
            ∙ rw
                (
                  byte_at-empty_entry c.block_size c.next_node x,
                  view_absent c f b x (find_entry-file c f b fc known ∙ absent),
                )
                refl),
      )

  -- Bytes that fit into a block are written into it, in a new entry or in the one that is there.
  -- The cache stays valid, and no other byte, file or dirty block changes.
  pub write_block_lem :
      (c' : Cache) × (write_block f b offset buf c ≡ ok c') × Wrote c c' f b offset buf
  write_block_lem = elim (Option-cases (find b fc.entries)) [
    | inl absent ↦ write_new absent
    | inr (e, there) ↦ write_existing e there
  ]
