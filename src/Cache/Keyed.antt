-- ===== src/Cache/Keyed.antt =====
-- The maps of `FileCache` in client_src/cache.hpp hold no block twice.
use net_fs.Prelude.{
  ℕ, List, [], ◌∷◌, Option, none, some, ◌==◌, ==_iff, Bool, false, nat_eq, string_eq, find, put,
  erase, find-put, find-erase, str_eq, Unique, ◌≡◌, refl, subst, arith, Bool-cases, inl, inr,
}
use net_fs.Cache.Entry.{CacheEntry, is_dirty}
use net_fs.Cache.State.{FileCache, Cache}
use net_fs.Cache.Flush.{dirty_blocks}
use net_fs.Cache.GatherBlocks.{contains}

abbrev pub Keyed : Cache → Type 0
Keyed c = (g : List ℕ) (fc : FileCache) → find g c.file_map ≡ some fc → Unique fc.entries

-- Whether the entry of a block is there and dirty.
abbrev pub is_dirty_entry : Option CacheEntry → Bool
is_dirty_entry none = false
is_dirty_entry (some e) = is_dirty e

-- The blocks that `flush` collects are the dirty ones.
pub dirty_blocks_lem :
    (entries : List (ℕ × CacheEntry)) (k : ℕ)
    → Unique entries
    → contains (dirty_blocks entries) k ≡ is_dirty_entry (find k entries)
unfolding dirty_blocks contains find Unique
dirty_blocks_lem [] k u = refl
dirty_blocks_lem ((b, e) ∷ entries) k u =
    let rest = dirty_blocks_lem entries k u.1 in
    elim (Bool-cases (b == k)) [
      | inl here ↦
          let absent : find k entries ≡ none =
            subst (λ (n : ℕ). find n entries ≡ none) ((==_iff b k).0 here) u.0 in
          ground arith
      | inr other ↦ ground arith
    ]

-- A file put into the map, its blocks without repetition.
pub put-Keyed :
    (c c' : Cache) (f : List ℕ) (fc' : FileCache)
    → c'.file_map ≡ put f fc' c.file_map
    → Unique fc'.entries
    → Keyed c
    → Keyed c'
put-Keyed c c' f fc' h unique keyed g fc found =
    let now : find g (put f fc' c.file_map) ≡ some fc = subst (λ m. find g m ≡ some fc) h found in
    let at_file = find-put f g fc' c.file_map in
    elim (Bool-cases (str_eq f g)) [
      | inl here ↦
          let same : fc' ≡ fc = ground arith in
          subst (λ (d : FileCache). Unique d.entries) same unique
      | inr other ↦ keyed g fc (ground arith)
    ]

pub erase-Keyed :
    (c c' : Cache) (f : List ℕ) → c'.file_map ≡ erase f c.file_map → Keyed c → Keyed c'
erase-Keyed c c' f h keyed g fc found =
    let now : find g (erase f c.file_map) ≡ some fc = subst (λ m. find g m ≡ some fc) h found in
    let at_file = find-erase f g c.file_map in
    elim (Bool-cases (str_eq f g)) [
      | inl here ↦ absurd (ground arith)
      | inr other ↦ keyed g fc (ground arith)
    ]
