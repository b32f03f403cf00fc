-- ===== src/Cache/Cut.antt =====
-- The blocks that `Cache::truncate` of client_src/cache.cpp deletes, in terms of sizes of the file.
use net_fs.Prelude.{
  ℕ, ◌+◌, ◌-◌, ◌*◌, ◌/◌, ◌<◌, ◌≤◌, List, some, ◌==◌, leb, ltb, str_eq, str_eq_iff, nat_eq,
  string_eq, ◌&&◌, Bool, true, false, if◌then◌else◌, find, find-put, ok, ◌≡◌, refl, ap, ◌∙◌, arith,
  Bool-cases, inl, inr,
}
use net_fs.Cache.State.{FileCache, Cache}
use net_fs.Cache.Blocks.{set_file, delete_entry_beyond, end_block}
use net_fs.Cache.Valid.{find_entry}
use net_fs.Cache.Store.{file_facts}
use net_fs.Cache.Span.{blocks_apart}
use net_fs.Cache.Files.{Known, set_file-SameBlocks, set_file-other_facts}
use net_fs.Cache.Remove.{unless}
use net_fs.Cache.Beyond.{delete_entry_beyond_lem}
use net_fs.Cache.Sound.{IsSound}
use net_fs.Cache.SoundOps.{set_file-IsSound}

-- Whether a block starts behind the new end of the file that shrinks.
abbrev pub is_cut : (f : List ℕ) (old size block_size : ℕ) (g : List ℕ) (k : ℕ) → Bool
is_cut f old size block_size g k = ltb size old && (str_eq f g && leb size (k * block_size))

-- The cache `c'` is `c` without the blocks of the file that start at `size` or later, if `size` is
-- less than the old one.
pub record Cut (f : List ℕ) (old size : ℕ) (c c' : Cache) : Type 0 where
  pub sound : IsSound c'
  pub same_size : c'.block_size ≡ c.block_size
  pub other_facts : (g : List ℕ) → str_eq f g ≡ false → file_facts c' g ≡ file_facts c g
  pub now :
      (g : List ℕ) (k : ℕ)
      → find_entry c' g k ≡ unless (is_cut f old size c.block_size g k) (find_entry c g k)

pub uncut-Cut :
    (f : List ℕ) (old size : ℕ) (c : Cache) → IsSound c → ltb size old ≡ false → Cut f old size c c
uncut-Cut f old size c s h = record {
  sound = s;
  same_size = refl;
  other_facts = λ g other. refl;
  now = λ g k. rw h refl;
}

abbrev pub cut_bound : Cache → ℕ → ℕ
cut_bound c size = if size == 0 then 0 else end_block c size

-- A block is from the bound on exactly if it starts behind the end.
cut_bound_lem :
    (c : Cache) (size k : ℕ)
    → 0 < c.block_size
    → leb (cut_bound c size) k ≡ leb size (k * c.block_size)
unfolding end_block
cut_bound_lem c size k h = elim (Bool-cases (size == 0)) [
  | inl nothing ↦ ground arith
  | inr something ↦
      let last : ℕ = (size - 1) / c.block_size in
      let low : last * c.block_size ≤ size - 1 = omega arith in
      let high : size - 1 < last * c.block_size + c.block_size = omega arith in
      elim (Bool-cases (leb (last + 1) k)) [
        | inl from ↦
            let apart : last * c.block_size + c.block_size ≤ k * c.block_size =
              blocks_apart c.block_size last k (ground arith) in
            let behind : leb size (k * c.block_size) ≡ true = ground arith in
            rw (something, from, behind) refl
        | inr below ↦
            let under : k * c.block_size ≤ last * c.block_size = grind arith in
            let before : leb size (k * c.block_size) ≡ false = ground arith in
            rw (something, below, before) refl
      ]
]

pub shrunk-Cut :
    (f : List ℕ) (size : ℕ) (c : Cache) (fc : FileCache)
    → IsSound c
    → find f c.file_map ≡ some fc
    → ltb size fc.attr.size ≡ true
    → (c' : Cache) × (fc' : FileCache) × (delete_entry_beyond f (cut_bound c size) c ≡ ok c')
      × Cut f fc.attr.size size c c'
      × (find f c'.file_map ≡ some fc')
      × (fc'.attr ≡ fc.attr)
      × (fc'.stale ≡ fc.stale)
unfolding file_facts
shrunk-Cut f size c fc s known less =
    let (c', fc', run, removed, keyed, map, attr, stale) =
      delete_entry_beyond_lem c f (cut_bound c size) fc s.valid s.keyed known in
    (
      c',
      fc',
      run,
      record {
        sound = record { valid = removed.valid; keyed = keyed };
        same_size = removed.same_size;
        other_facts = λ g other. ground (arith, find-put f g fc' c.file_map);
        now = λ g k. removed.now g k ∙ rw (cut_bound_lem c size k s.valid.positive, less) refl;
      },
      ap (λ m. find f m) map ∙ find-put f f fc' c.file_map ∙ rw ((str_eq_iff f f).1 refl) refl,
      attr,
      stale,
    )

-- Other attributes for the file.
pub Cut-attr :
    (f : List ℕ) (old size : ℕ) (c c' : Cache) (fc fc' : FileCache)
    → Cut f old size c c'
    → find f c'.file_map ≡ some fc
    → fc'.entries ≡ fc.entries
    → Cut f old size c (set_file f fc' c')
Cut-attr f old size c c' fc fc' cut known same =
    let blocks = set_file-SameBlocks c' f fc fc' known same in
    record {
      sound = set_file-IsSound c' f fc fc' cut.sound known same;
      same_size = cut.same_size;
      other_facts = λ g other. set_file-other_facts c' f g fc' other ∙ cut.other_facts g other;
      now = λ g k. blocks.same_entry g k ∙ cut.now g k;
    }

-- A cut after the attributes of the file are there.
pub Known-Cut :
    (f : List ℕ) (old size : ℕ) (c c₁ c' : Cache)
    → Known c c₁ f
    → Cut f old size c₁ c'
    → Cut f old size c c'
Known-Cut f old size c c₁ c' k cut = record {
  sound = cut.sound;
  same_size = cut.same_size ∙ k.same.same_size;
  other_facts = λ g other. cut.other_facts g other ∙ k.other_facts g other;
  now = λ g b.
      cut.now g b
      ∙ ap (unless (is_cut f old size c₁.block_size g b)) (k.same.same_entry g b)
      ∙ ap (λ (n : ℕ). unless (is_cut f old size n g b) (find_entry c g b)) k.same.same_size;
}
