-- ===== src/Cache/ReadBlock.antt =====
-- `Cache::readBlock` and `moveToHead` of client_src/cache.cpp.
use net_fs.Prelude.{
  ℕ, ◌+◌, ◌-◌, ◌<◌, ◌≤◌, ◌^◌, ◌>>=◌, List, [], ◌∷◌, length, take, drop, get_elem?, leb, ltb, none,
  some, ◌==◌, ==_iff, nat_eq, string_eq, Bool, find, at-find, ok, ◌≡◌, refl, ap, ap₂, sym, subst,
  ◌∙◌, arith, Bool-cases, Option-cases, inl, inr, true, false, length-take, length-drop,
  get_elem?-take, get_elem?-drop, get_elem?_beyond,
}
use net_fs.Range.{Range}
use net_fs.Range.Sorted.{covers}
use net_fs.Cache.Entry.{CacheEntry}
use net_fs.Cache.Contents.{IsBlock, byte_at, wrap64_small}
use net_fs.Cache.State.{Use, FileCache, Cache}
use net_fs.Cache.Blocks.{
  erase_use, find_use, move_to_head, read_block, is_full_block, full_ranges, is_some,
}
use net_fs.Cache.Usage.{Distinct, erase_use_lem, find_use-node}
use net_fs.Cache.Valid.{IsValid, find_entry, view}
use net_fs.Cache.Store.{find_entry-file}

-- The cache `c'` is `c` but for the order of the usage list and the note on the last read.
pub record Touched (c c' : Cache) : Type 0 where
  pub valid : IsValid c'
  pub same_map : c'.file_map ≡ c.file_map
  pub same_size : c'.block_size ≡ c.block_size

-- A usage list with the same nodes keeps the cache valid.
same_uses-IsValid :
    (c : Cache) (us : List Use)
    → IsValid c
    → Distinct us
    → ((m : ℕ) → find_use m us ≡ find_use m c.recent_list)
    → IsValid (record c { recent_list = us })
unfolding find_entry
same_uses-IsValid c us v distinct same = record {
  positive = v.positive;
  small = v.small;
  blocks = v.blocks;
  recorded = λ f b e h. same e.use_record ∙ v.recorded f b e h;
  used = λ n u h. v.used n u (sym (same n) ∙ h);
  fresh = λ n u h. v.fresh n u (sym (same n) ∙ h);
  distinct = distinct;
}

move_to_head_run :
    (c : Cache) (node : ℕ) (u : Use) (rest : List Use)
    → find_use node c.recent_list ≡ some u
    → erase_use node c.recent_list ≡ ok rest
    → move_to_head node c ≡ ok (record c { recent_list = u ∷ rest })
unfolding move_to_head
move_to_head_run c node u rest there run = ground arith

-- An entry's record is moved to the head of the usage list; nothing else changes.
pub move_to_head_lem :
    (c : Cache) (node : ℕ) (u : Use)
    → IsValid c
    → find_use node c.recent_list ≡ some u
    → (rest : List Use) × (move_to_head node c ≡ ok (record c { recent_list = u ∷ rest }))
      × Touched c (record c { recent_list = u ∷ rest })
unfolding find_use
move_to_head_lem c node u v there =
    let at_node : u.node ≡ node = find_use-node node c.recent_list u there in
    let (rest, run, distinct, found, len) = erase_use_lem node c.recent_list u v.distinct there in
    let alone : find_use u.node rest ≡ none = ground (arith, found u.node) in
    let same : (m : ℕ) → find_use m (u ∷ rest) ≡ find_use m c.recent_list = λ m.
      elim (Bool-cases (node == m)) [
        | inl here ↦
            let same_node : node ≡ m = (==_iff node m).0 here in
            let there' : find_use m c.recent_list ≡ some u =
              subst (λ (n : ℕ). find_use n c.recent_list ≡ some u) same_node there in
            ground (arith, there', at_node)
        | inr other ↦ ground (arith, found m, at_node)
      ] in
    (
      rest,
      move_to_head_run c node u rest there run,
      record {
        valid = same_uses-IsValid c (u ∷ rest) v (alone, distinct) same;
        same_map = refl;
        same_size = refl;
      },
    )

le→leb : {n m : ℕ} → n ≤ m → leb n m ≡ true
le→leb h = ground arith

-- Whether a block is in the cache and valid as a whole.
unfoldable pub full_at : Cache → List ℕ → ℕ → Bool
full_at c f b = elim (find f c.file_map) [ none ↦ false | some fc ↦ is_full_block fc b c ]

pub full_ranges_iff :
    (n : ℕ) (rs : List Range) → full_ranges n rs ≡ true → rs ≡ record { start = 0; end = n } ∷ []
unfolding full_ranges
full_ranges_iff n [] h = absurd cc
full_ranges_iff n (r ∷ []) h =
    let first : r.start ≡ 0 = ground arith in
    let last : r.end ≡ n = ground arith in
    let one : r ≡ record { start = 0; end = n } =
      ap₂ (λ (a b : ℕ). record { start = a; end = b }) first last in
    ap (λ (q : Range). q ∷ []) one
full_ranges_iff n (r ∷ q ∷ rs) h = absurd cc

-- What a full block is.
pub full_at-entry :
    (c : Cache) (f : List ℕ) (b : ℕ)
    → full_at c f b ≡ true
    → (fc : FileCache) × (find f c.file_map ≡ some fc)
      × (is_full_block fc b c ≡ true)
      × (e : CacheEntry) × (find b fc.entries ≡ some e)
      × (e.valid_ranges ≡ record { start = 0; end = c.block_size } ∷ [])
unfolding full_at is_full_block
full_at-entry c f b h = elim (Option-cases (find f c.file_map)) [
  | inl miss ↦ absurd (ground arith)
  | inr (fc, known) ↦ elim (Option-cases (find b fc.entries)) [
    | inl absent ↦ absurd (ground arith)
    | inr (e, there) ↦
        let full : full_ranges c.block_size e.valid_ranges ≡ true = ground arith in
        (fc, known, ground arith, e, there, full_ranges_iff c.block_size e.valid_ranges full)
  ]
]

pub full_byte :
    (n : ℕ) (e : CacheEntry) (x : ℕ)
    → IsBlock n e
    → e.valid_ranges ≡ record { start = 0; end = n } ∷ []
    → byte_at e x ≡ get_elem? e.content x
unfolding byte_at covers
full_byte n e x block full = elim (Bool-cases (ltb x n)) [
  | inl inner ↦
      let covered : covers e.valid_ranges x ≡ true = rw full (unfold covers in ground arith) in
      rw covered refl
  | inr beyond ↦
      let past : n ≤ x = ground arith in
      let out = get_elem?_beyond e.content x (omega (arith, block.whole)) in ground (arith, out)
]

pub view_at :
    (c : Cache) (f : List ℕ) (b x : ℕ) (e : CacheEntry)
    → find_entry c f b ≡ some e
    → view c f b x ≡ byte_at e x
unfolding view
view_at c f b x e h = ground arith

module _ (c : Cache) (f : List ℕ) (b offset size : ℕ) where
  read_block_run :
      (fc : FileCache) (e : CacheEntry) (c' : Cache)
      → c.block_size < 2 ^ 64
      → offset + size ≤ c.block_size
      → find f c.file_map ≡ some fc
      → find b fc.entries ≡ some e
      → is_full_block fc b c ≡ true
      → move_to_head e.use_record c ≡ ok c'
      → read_block f b offset size c ≡ ok (take size (drop offset e.content), c')
  unfolding read_block
  read_block_run fc e c' small fits known there full moved =
      rw
        (
          known,
          is_some,
          wrap64_small fits small,
          le→leb fits,
          at-find f c.file_map known,
          ◌>>=◌,
          at-find b fc.entries there,
          full,
          moved,
        )
        refl

  -- A read of a place in a full block succeeds, gives the bytes that the cache holds, and changes
  -- only the order of the usage list.
  pub read_block_lem :
      IsValid c
      → offset + size ≤ c.block_size
      → full_at c f b ≡ true
      → (bytes : List ℕ) × (c' : Cache) × (read_block f b offset size c ≡ ok (bytes, c'))
        × Touched c c'
        × (length bytes ≡ size)
        × ((x : ℕ) → offset ≤ x → x < offset + size → (get_elem? bytes (x - offset) ≡ view c f b x))
  read_block_lem v fits full =
      let (fc, known, is_full, e, there, one) = full_at-entry c f b full in
      let at_place : find_entry c f b ≡ some e = find_entry-file c f b fc known ∙ there in
      let block = v.blocks f b e at_place in
      let whole = block.whole in
      let (rest, moved, touched) =
        move_to_head_lem c e.use_record _ v (v.recorded f b e at_place) in
      (
        take size (drop offset e.content),
        _,
        read_block_run fc e _ v.small fits known there is_full moved,
        touched,
        omega (arith, length-take size (drop offset e.content), length-drop offset e.content),
        λ x low high.
            let taken = get_elem?-take size (drop offset e.content) (x - offset) in
            let dropped = get_elem?-drop offset e.content (x - offset) in
            let byte = full_byte c.block_size e x block one in
            let same : offset + (x - offset) ≡ x = omega arith in
            let seen : view c f b x ≡ byte_at e x = view_at c f b x e at_place in
            let inner : ltb (x - offset) size ≡ true = ground arith in
            taken ∙ rw inner refl ∙ dropped ∙ ap (get_elem? e.content) same ∙ sym (seen ∙ byte),
      )
