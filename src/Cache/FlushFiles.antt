-- ===== src/Cache/FlushFiles.antt =====
-- `Cache::flushDirtyBlocks` of client_src/cache.cpp: the dirty blocks, by their files.
use net_fs.Prelude.{
  ℕ, List, [], ◌∷◌, ◌++◌, none, some, ◌==◌, ==_iff, str_eq, str_eq_iff, nat_eq, string_eq, ◌||◌,
  Bool, true, false, if◌then◌else◌, find, at-find, find-put, Unique, put-Unique, ok, ◌>>=◌, ◌≡◌,
  ◌⊎◌, refl, sym, ap, subst, ◌∙◌, arith, Bool-cases, Option-cases, inl, inr,
}
use net_fs.Cache.Entry.{CacheEntry, is_dirty}
use net_fs.Cache.State.{Use, FileCache, Cache}
use net_fs.Cache.Blocks.{find_use}
use net_fs.Cache.Usage.{Distinct}
use net_fs.Cache.Valid.{find_entry, same_place, same_place_iff}
use net_fs.Cache.Store.{find_entry-file}
use net_fs.Cache.WriteBlock.{dirty_at}
use net_fs.Cache.Flush.{sort, insert_number, push_block, group_dirty}
use net_fs.Cache.GatherBlocks.{contains}

contains-insert_number :
    (n : ℕ) (ns : List ℕ) (k : ℕ) → contains (insert_number n ns) k ≡ (n == k || contains ns k)
unfolding insert_number contains
contains-insert_number n [] k = refl
contains-insert_number n (m ∷ ms) k = ground (arith, contains-insert_number n ms k)

-- Sorting the blocks of a file keeps them all.
pub contains-sort : (ns : List ℕ) (k : ℕ) → contains (sort ns) k ≡ contains ns k
unfolding sort contains
contains-sort [] k = refl
contains-sort (n ∷ ns) k =
    contains-insert_number n (sort ns) k ∙ ap (λ b. n == k || b) (contains-sort ns k)

contains-append : (ns : List ℕ) (n k : ℕ) → contains (ns ++ n ∷ []) k ≡ (n == k || contains ns k)
unfolding contains
contains-append [] n k = refl
contains-append (m ∷ ms) n k = ground (arith, contains-append ms n k)

-- Whether a block is in one of the groups.
unfoldable pub in_groups : List (List ℕ × List ℕ) → List ℕ → ℕ → Bool
in_groups groups g k = elim (find g groups) [ none ↦ false | some blocks ↦ contains blocks k ]

in_groups-push_block :
    (f : List ℕ) (b : ℕ) (groups : List (List ℕ × List ℕ)) (g : List ℕ) (k : ℕ)
    → in_groups (push_block f b groups) g k ≡ (same_place f b g k || in_groups groups g k)
unfolding in_groups push_block contains
in_groups-push_block f b groups g k = elim (Bool-cases (str_eq f g)) [
  | inl here ↦
      let ef : f ≡ g = (str_eq_iff f g).0 here in
      elim (Option-cases (find f groups)) [
        | inl miss ↦
            let miss' : find g groups ≡ none = subst (λ h. find h groups ≡ none) ef miss in
            ground (arith, find-put f g (b ∷ []) groups)
        | inr (blocks, there) ↦
            let there' : find g groups ≡ some blocks =
              subst (λ h. find h groups ≡ some blocks) ef there in
            ground (arith, find-put f g (blocks ++ b ∷ []) groups, contains-append blocks b k)
      ]
  | inr other ↦ elim (Option-cases (find f groups)) [
    | inl miss ↦ ground (arith, find-put f g (b ∷ []) groups)
    | inr (blocks, there) ↦ ground (arith, find-put f g (blocks ++ b ∷ []) groups)
  ]
]

push_block-Unique :
    (f : List ℕ) (b : ℕ) (groups : List (List ℕ × List ℕ))
    → Unique groups
    → Unique (push_block f b groups)
unfolding push_block
push_block-Unique f b groups u = elim (Option-cases (find f groups)) [
  | inl miss ↦ rw (push_block, miss) (put-Unique f (b ∷ []) groups u)
  | inr (blocks, there) ↦ rw (push_block, there) (put-Unique f (blocks ++ b ∷ []) groups u)
]

push_block-some_block :
    (f : List ℕ) (b : ℕ) (groups : List (List ℕ × List ℕ))
    → ((g : List ℕ) (blocks : List ℕ)
        → find g groups ≡ some blocks
        → (k : ℕ) × (contains blocks k ≡ true))
    → (g : List ℕ) (blocks : List ℕ) → find g (push_block f b groups) ≡ some blocks
    → (k : ℕ) × (contains blocks k ≡ true)
unfolding push_block in_groups
push_block-some_block f b groups before g blocks h = elim (Bool-cases (str_eq f g)) [
  | inl here ↦
      let pushed : in_groups (push_block f b groups) g b ≡ true =
        in_groups-push_block f b groups g b ∙ ground (arith, ==_iff b b) in
      let same : in_groups (push_block f b groups) g b ≡ contains blocks b =
        rw (in_groups, h) refl in
      (b, sym same ∙ pushed)
  | inr other ↦ elim (Option-cases (find f groups)) [
    | inl miss ↦ before g blocks (ground (arith, find-put f g (b ∷ []) groups))
    | inr (bs, there) ↦ before g blocks (ground (arith, find-put f g (bs ++ b ∷ []) groups))
  ]
]

group_run :
    (files : List (List ℕ × FileCache)) (u : Use) (us : List Use) (groups : List (List ℕ × List ℕ))
    (fc : FileCache) (e : CacheEntry)
    → group_dirty files us ≡ ok groups
    → find u.entry_id.filename files ≡ some fc
    → find u.entry_id.block_num fc.entries ≡ some e
    → group_dirty files (u ∷ us)
      ≡ ok (
          if is_dirty e then push_block u.entry_id.filename u.entry_id.block_num groups else groups)
unfolding group_dirty
group_run files u us groups fc e run file there =
    rw
      (
        run,
        ◌>>=◌,
        at-find u.entry_id.filename files file,
        ◌>>=◌,
        at-find u.entry_id.block_num fc.entries there,
      )
      refl

pub file_of_entry :
    (c : Cache) (g : List ℕ) (k : ℕ) (e : CacheEntry)
    → find_entry c g k ≡ some e
    → (fc : FileCache) × (find g c.file_map ≡ some fc) × (find k fc.entries ≡ some e)
file_of_entry c g k e h = elim (Option-cases (find g c.file_map)) [
  | inl miss ↦ absurd (unfold find_entry in ground arith)
  | inr (fc, known) ↦ (fc, known, sym (find_entry-file c g k fc known) ∙ h)
]

-- The dirty blocks of some nodes, by their files.
pub record Groups (c : Cache) (us : List Use) (groups : List (List ℕ × List ℕ)) : Type 0 where
  pub unique : Unique groups
  pub sound : (g : List ℕ) (k : ℕ) → in_groups groups g k ≡ true → dirty_at c g k ≡ true
  pub some_block :
      (g : List ℕ) (blocks : List ℕ)
      → find g groups ≡ some blocks
      → (k : ℕ) × (contains blocks k ≡ true)
  pub complete :
      (n : ℕ) (u : Use)
      → find_use n us ≡ some u
      → dirty_at c u.entry_id.filename u.entry_id.block_num ≡ true
      → in_groups groups u.entry_id.filename u.entry_id.block_num ≡ true

here_again : (f : List ℕ) (b : ℕ) → same_place f b f b ≡ true
here_again f b = ground (arith, str_eq_iff f f)

use_cases :
    (u : Use) (us : List Use) (n : ℕ) (w : Use)
    → find_use n (u ∷ us) ≡ some w
    → (u ≡ w) ⊎ (find_use n us ≡ some w)
unfolding find_use
use_cases u us n w h = elim (Bool-cases (u.node == n)) [
  | inl here ↦ inl (ground arith)
  | inr other ↦ inr (ground arith)
]

module _ (c : Cache) (u : Use) (us : List Use) (groups : List (List ℕ × List ℕ)) (e : CacheEntry)
    (gs : Groups c us groups)
    (found : find_entry c u.entry_id.filename u.entry_id.block_num ≡ some e) where
  pushed :
      is_dirty e ≡ true
      → Groups c (u ∷ us) (push_block u.entry_id.filename u.entry_id.block_num groups)
  unfolding dirty_at
  pushed dirty_entry =
      let f : List ℕ = u.entry_id.filename in
      let b : ℕ = u.entry_id.block_num in
      let is_dirty_here : dirty_at c f b ≡ true = rw (dirty_at, found) dirty_entry in
      record {
        unique = push_block-Unique f b groups gs.unique;
        sound = λ g k h.
            let now = in_groups-push_block f b groups g k in
            elim (Bool-cases (same_place f b g k)) [
              | inl same ↦
                  let (ef, eb) = same_place_iff f b g k same in
                  subst (λ h. dirty_at c h k ≡ true) ef
                    (subst (λ (m : ℕ). dirty_at c f m ≡ true) eb is_dirty_here)
              | inr other ↦ gs.sound g k (ground arith)
            ];
        some_block = push_block-some_block f b groups gs.some_block;
        complete = λ n w h d.
            in_groups-push_block f b groups w.entry_id.filename w.entry_id.block_num
            ∙ (elim (use_cases u us n w h) [
              | inl same ↦
                  subst
                    (λ (z : Use).
                      (same_place f b z.entry_id.filename z.entry_id.block_num
                        || in_groups groups z.entry_id.filename z.entry_id.block_num)
                      ≡ true)
                    same (rw (here_again f b) refl)
              | inr rest ↦ let already = gs.complete n w rest d in ground arith
            ]);
      }

  passed : is_dirty e ≡ false → Groups c (u ∷ us) groups
  unfolding dirty_at
  passed clean_entry =
      let is_clean : dirty_at c u.entry_id.filename u.entry_id.block_num ≡ false =
        rw (dirty_at, found) clean_entry in
      record {
        unique = gs.unique;
        sound = gs.sound;
        some_block = gs.some_block;
        complete = λ n w h d. elim (use_cases u us n w h) [
          | inl same ↦
              let clean' : dirty_at c w.entry_id.filename w.entry_id.block_num ≡ false =
                subst (λ (z : Use). dirty_at c z.entry_id.filename z.entry_id.block_num ≡ false)
                  same is_clean in
              absurd (ground arith)
          | inr rest ↦ gs.complete n w rest d
        ];
      }

-- The blocks of a list of nodes, grouped: all of them that are dirty, and no others.
pub group_dirty_lem :
    (c : Cache) (us : List Use)
    → Distinct us
    → ((n : ℕ) (u : Use)
        → find_use n us ≡ some u
        → (e : CacheEntry) × (find_entry c u.entry_id.filename u.entry_id.block_num ≡ some e))
    → (groups : List (List ℕ × List ℕ)) × (group_dirty c.file_map us ≡ ok groups)
      × Groups c us groups
unfolding find_use
group_dirty_lem c [] distinct there = (
  [],
  unfold group_dirty in refl,
  record {
    unique = unfold Unique in tt;
    sound = λ g k h. absurd (unfold in_groups in unfold find in ground arith);
    some_block = λ g blocks h. absurd (unfold find in ground arith);
    complete = λ n u h. absurd (cc);
  },
)
group_dirty_lem c (u ∷ us) distinct there =
    let (groups, run, gs) =
      group_dirty_lem c us distinct.1 (λ n w h. there n w (ground (arith, distinct.0))) in
    let (e, found) = there u.node u (ground (arith, ==_iff u.node u.node)) in
    let (fc, file, at_block) = file_of_entry c u.entry_id.filename u.entry_id.block_num e found in
    let run' = group_run c.file_map u us groups fc e run file at_block in
    elim (Bool-cases (is_dirty e)) [
      | inl yes_dirty ↦ (_, run' ∙ rw yes_dirty refl, pushed c u us groups e gs found yes_dirty)
      | inr not_dirty ↦ (_, run' ∙ rw not_dirty refl, passed c u us groups e gs found not_dirty)
    ]
