-- ===== src/Cache/Remove.antt =====
-- What `deleteEntry` and `evictBlocks` of client_src/cache.cpp leave of the cache: entries that go
-- together with their records in the usage list.
use net_fs.Prelude.{
  ℕ, List, Option, none, some, ◌==◌, ==_iff, str_eq, str_eq_iff, nat_eq, string_eq, Bool,
  if◌then◌else◌, find, put, erase, at-find, find-put, find-erase, ok, ◌>>=◌, ◌≡◌, refl, sym, ap,
  subst, ◌∙◌, arith, Bool-cases, Option-cases, inl, inr, true, false, suc, length,
}
use net_fs.Cache.Entry.{CacheEntry}
use net_fs.Cache.State.{Use, FileCache, Cache}
use net_fs.Cache.Blocks.{erase_use, find_use, set_file, delete_entry}
use net_fs.Cache.Usage.{Distinct, erase_use_lem}
use net_fs.Cache.Valid.{IsValid, find_entry, same_place, same_place_iff, use_of}
use net_fs.Cache.Store.{find_entry-file}

-- What is found after some places are gone.
abbrev pub unless {ℓ} : {A : Type ℓ} → Bool → Option A → Option A
unless b o = if b then none else o

abbrev pub kept_use : (List ℕ → ℕ → Bool) → Option Use → Option Use
kept_use gone none = none
kept_use gone (some u) = unless (gone u.entry_id.filename u.entry_id.block_num) (some u)

-- The cache `c'` is `c` without the entries at the places that are `gone`.
pub record Removed (gone : List ℕ → ℕ → Bool) (c c' : Cache) : Type 0 where
  pub valid : IsValid c'
  pub same_size : c'.block_size ≡ c.block_size
  pub now : (g : List ℕ) (k : ℕ) → find_entry c' g k ≡ unless (gone g k) (find_entry c g k)

-- Entries that go together with their records leave the cache valid.
module _ (gone : List ℕ → ℕ → Bool) (c c' : Cache) (v : IsValid c)
    (same_size : c'.block_size ≡ c.block_size) (same_next : c'.next_node ≡ c.next_node)
    (now : (g : List ℕ) (k : ℕ) → find_entry c' g k ≡ unless (gone g k) (find_entry c g k))
    (uses : (n : ℕ) → find_use n c'.recent_list ≡ kept_use gone (find_use n c.recent_list))
    (distinct : Distinct c'.recent_list) where
  was_there :
      (g : List ℕ) (k : ℕ) (e : CacheEntry)
      → find_entry c' g k ≡ some e
      → (find_entry c g k ≡ some e) × (gone g k ≡ false)
  was_there g k e h =
      let n = now g k in
      elim (Bool-cases (gone g k)) [
        | inl lost ↦ absurd (ground arith)
        | inr kept ↦ (ground arith, kept)
      ]

  use_was_there :
      (n : ℕ) (u : Use)
      → find_use n c'.recent_list ≡ some u
      → (find_use n c.recent_list ≡ some u)
        × (gone u.entry_id.filename u.entry_id.block_num ≡ false)
  use_was_there n u h = elim (Option-cases (find_use n c.recent_list)) [
    | inl miss ↦ let e = uses n in absurd (ground arith)
    | inr (w, hit) ↦
        let e : find_use n c'.recent_list ≡ kept_use gone (some w) =
          uses n ∙ ap (kept_use gone) hit in
        elim (Bool-cases (gone w.entry_id.filename w.entry_id.block_num)) [
          | inl lost ↦ absurd (ground arith)
          | inr kept ↦
              let same : w ≡ u = ground arith in
              (
                hit ∙ ap some same,
                subst (λ (z : Use). gone z.entry_id.filename z.entry_id.block_num ≡ false) same
                    kept,
              )
        ]
  ]

  pub removed-IsValid : IsValid c'
  removed-IsValid = record {
    positive = omega (arith, v.positive);
    small = rw same_size v.small;
    blocks = λ g k e h. rw same_size (v.blocks g k e (was_there g k e h).0);
    recorded = λ g k e h.
        let (old, kept) = was_there g k e h in
        uses e.use_record ∙ ap (kept_use gone) (v.recorded g k e old) ∙ rw kept refl;
    used = λ n u h.
        let (old, kept) = use_was_there n u h in
        let (e, found, there) = v.used n u old in
        (e, now u.entry_id.filename u.entry_id.block_num ∙ rw (kept, found) refl, there);
    fresh = λ n u h. rw same_next (v.fresh n u (use_was_there n u h).0);
    distinct = distinct;
  }

-- One entry less in a file.
module _ (c : Cache) (f : List ℕ) (b : ℕ) (fc : FileCache)
    (known : find f c.file_map ≡ some fc) where
  abbrev without : FileCache
  without = record fc { entries = erase b fc.entries }

  erase-find_entry :
      (c' : Cache)
      → c'.file_map ≡ put f without c.file_map
      → (g : List ℕ) (k : ℕ) → find_entry c' g k ≡ unless (same_place f b g k) (find_entry c g k)
  unfolding find_entry
  erase-find_entry c' h g k =
      let at_file = find-put f g without c.file_map in
      let at_block = find-erase b k fc.entries in
      elim (Bool-cases (str_eq f g)) [
        | inl same ↦
            let ef : f ≡ g = (str_eq_iff f g).0 same in
            let known' : find g c.file_map ≡ some fc = rw (← ef) known in
            ground (arith, at_file, at_block, known', h)
        | inr other ↦ ground (arith, at_file, h)
      ]

delete_entry_run :
    (c : Cache) (f : List ℕ) (b : ℕ) (fc : FileCache) (e : CacheEntry) (rest : List Use)
    → find f c.file_map ≡ some fc
    → find b fc.entries ≡ some e
    → erase_use e.use_record c.recent_list ≡ ok rest
    → delete_entry f b c
      ≡ ok (record (set_file f (record fc { entries = erase b fc.entries }) c) {
        recent_list = rest;
      })
unfolding delete_entry
delete_entry_run c f b fc e rest known there run =
    rw (at-find f c.file_map known, ◌>>=◌, there, run) refl

-- The record at a node is the one of the entry that points at it.
place_of_node :
    (c : Cache) (f : List ℕ) (b : ℕ) (e : CacheEntry) (n : ℕ) (u : Use)
    → IsValid c
    → find_entry c f b ≡ some e
    → find_use n c.recent_list ≡ some u
    → same_place f b u.entry_id.filename u.entry_id.block_num ≡ (e.use_record == n)
place_of_node c f b e n u v there hit =
    let (d, found, at_n) = v.used n u hit in
    elim (Bool-cases (same_place f b u.entry_id.filename u.entry_id.block_num)) [
      | inl same ↦
          let (ef, eb) = same_place_iff f b u.entry_id.filename u.entry_id.block_num same in
          let again : find_entry c f b ≡ some d = rw (ef, eb) found in
          let same_entry : e ≡ d = cc in
          let node : e.use_record ≡ n = ap (λ (x : CacheEntry). x.use_record) same_entry ∙ at_n in
          same ∙ sym ((==_iff e.use_record n).1 node)
      | inr other ↦ elim (Bool-cases (e.use_record == n)) [
        | inl node ↦
            let en : e.use_record ≡ n = (==_iff e.use_record n).0 node in
            let again : find_use n c.recent_list ≡ some (use_of f b e.use_record) =
              subst (λ (m : ℕ). find_use m c.recent_list ≡ some (use_of f b e.use_record)) en
                (v.recorded f b e there) in
            let same_use : use_of f b e.use_record ≡ u = cc in
            let here : same_place f b f b ≡ true = ground (arith, str_eq_iff f f) in
            absurd (
              let x =
                subst (λ (z : Use). same_place f b z.entry_id.filename z.entry_id.block_num ≡ true)
                  same_use here in
              ground arith)
        | inr nowhere ↦ other ∙ sym nowhere
      ]
    ]

-- An entry of a valid cache can be deleted. It goes together with its record, and no other entry
-- does.
pub delete_entry_lem :
    (c : Cache) (f : List ℕ) (b : ℕ) (e : CacheEntry)
    → IsValid c
    → find_entry c f b ≡ some e
    → (c' : Cache) × (delete_entry f b c ≡ ok c')
      × Removed (same_place f b) c c'
      × (erase_use e.use_record c.recent_list ≡ ok c'.recent_list)
      × (suc (length c'.recent_list) ≡ length c.recent_list)
delete_entry_lem c f b e v there = elim (Option-cases (find f c.file_map)) [
  | inl miss ↦ absurd (unfold find_entry in ground arith)
  | inr (fc, known) ↦
      let at_block : find b fc.entries ≡ some e = sym (find_entry-file c f b fc known) ∙ there in
      let (rest, run, distinct, found, len) =
        erase_use_lem e.use_record c.recent_list (use_of f b e.use_record) v.distinct
          (v.recorded f b e there) in
      let c' : Cache = record (set_file f (record fc { entries = erase b fc.entries }) c) {
        recent_list = rest;
      } in
      let now = erase-find_entry c f b fc known c' refl in
      let uses : (n : ℕ) → find_use n rest ≡ kept_use (same_place f b) (find_use n c.recent_list) =
        λ n. elim (Option-cases (find_use n c.recent_list)) [
          | inl miss ↦ ground (arith, found n)
          | inr (u, hit) ↦
              let place = place_of_node c f b e n u v there hit in found n ∙ rw (← place, hit) refl
        ] in
      (
        c',
        delete_entry_run c f b fc e rest known at_block run,
        record {
          valid = removed-IsValid (same_place f b) c c' v refl refl now uses distinct;
          same_size = refl;
          now = now;
        },
        run,
        len,
      )
]
