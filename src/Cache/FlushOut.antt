-- ===== src/Cache/FlushOut.antt =====
-- `Cache::flush`, `flushDirtyBlocks` and `evictBlocks` of client_src/cache.cpp as a whole.
use net_fs.Prelude.{
  ℕ, ◌/◌, List, [], ◌∷◌, Option, some, ltb, length, str_eq, str_eq_iff, nat_eq, string_eq, ◌&&◌,
  Bool, true, false, if◌then◌else◌, find, ok, ◌≡◌, ◌⊎◌, refl, sym, ap, subst, ◌∙◌, arith,
  Bool-cases, Option-cases, inl, inr,
}
use net_fs.Cache.Entry.{CacheEntry}
use net_fs.Cache.Contents.{or_else}
use net_fs.Cache.State.{FileCache, Cache, Backend}
use net_fs.Cache.Valid.{IsValid, find_entry}
use net_fs.Cache.Store.{find_entry-file}
use net_fs.Cache.WriteBlock.{dirty_at}
use net_fs.Cache.Files.{SameBlocks}
use net_fs.Cache.Written.{cached_byte}
use net_fs.Cache.Flush.{sort, dirty_blocks, flush_blocks, flush_dirty_blocks, flush}
use net_fs.Cache.Gather.{Refused, Stores}
use net_fs.Cache.GatherBlocks.{contains}
use net_fs.Cache.Cleans.{Cleans, Cleans-IsValid, Cleans-dirty_at, SameBlocks-Cleans}
use net_fs.Cache.FlushBlocks.{Inside, HasStored, flush_blocks_lem}
use net_fs.Cache.CleanBlocks.{in_file}
use net_fs.Cache.FlushFiles.{in_groups, contains-sort, Groups, group_dirty_lem}
use net_fs.Cache.FlushAll.{InBounds, Cleans-cached_byte, flush_groups_lem}
use net_fs.Cache.Keyed.{Keyed, dirty_blocks_lem}

-- The cache `c'` is valid and has the bytes and the usage list of `c`.
pub record Kept (c c' : Cache) : Type 0 where
  pub valid : IsValid c'
  pub same_size : c'.block_size ≡ c.block_size
  pub same_list : c'.recent_list ≡ c.recent_list
  pub bytes : (g : List ℕ) (pos : ℕ) → cached_byte c' g pos ≡ cached_byte c g pos

-- What the server has at a position after the dirty blocks of the flushed files are stored.
abbrev pub flushed_byte :
    {S : Type 0} → (S → List ℕ → ℕ → ℕ) → (List ℕ → Bool) → Cache → S → List ℕ → ℕ → Option ℕ
flushed_byte remote flushed c s g pos =
    if flushed g && dirty_at c g (pos / c.block_size)
    then or_else (cached_byte c g pos) (some (remote s g pos))
    else some (remote s g pos)

-- The dirty blocks of the flushed files are on the server and clean; all bytes are still cached.
pub record Flushed {S : Type 0} (remote : S → List ℕ → ℕ → ℕ) (flushed : List ℕ → Bool)
    (c c' : Cache) (s s' : S) : Type 0 where
  pub kept : Kept c c'
  pub dirt : (g : List ℕ) (k : ℕ) → dirty_at c' g k ≡ (if flushed g then false else dirty_at c g k)
  pub stored :
      (g : List ℕ) (pos : ℕ)
      → Inside c g pos
      → some (remote s' g pos) ≡ flushed_byte remote flushed c s g pos

Cleans-Kept :
    {marked : List ℕ → ℕ → Bool} {c c' : Cache} → IsValid c → Cleans marked c c' → Kept c c'
Cleans-Kept v cleans = record {
  valid = Cleans-IsValid cleans v;
  same_size = cleans.same_size;
  same_list = cleans.same_list;
  bytes = Cleans-cached_byte cleans;
}

Cleans-Flushed :
    {S : Type 0} {remote : S → List ℕ → ℕ → ℕ} {marked : List ℕ → ℕ → Bool} {files : List ℕ → Bool}
    {c c' : Cache} {s s' : S} (flushed : List ℕ → Bool)
    → IsValid c
    → ((g : List ℕ) (k : ℕ) → marked g k ≡ (flushed g && dirty_at c g k))
    → Cleans marked c c'
    → HasStored remote files marked c s s'
    → Flushed remote flushed c c' s s'
Cleans-Flushed {c = c} flushed v same cleans stored = record {
  kept = Cleans-Kept v cleans;
  dirt = λ g k.
      let now = Cleans-dirty_at cleans g k in
      let mark = same g k in
      elim (Bool-cases (flushed g)) [
        | inl yes_flushed ↦ elim (Bool-cases (dirty_at c g k)) [
          | inl was_dirty ↦ ground arith
          | inr was_clean ↦ ground arith
        ]
        | inr not_flushed ↦ ground arith
      ];
  stored = λ g pos inside. stored g pos (inr inside) ∙ rw (same g (pos / c.block_size)) refl;
}

SameBlocks-Kept : {c c' : Cache} → IsValid c → SameBlocks c c' → Kept c c'
SameBlocks-Kept v same = Cleans-Kept v (SameBlocks-Cleans same)

empty_contains : (ns : List ℕ) (k : ℕ) → length ns ≡ 0 → contains ns k ≡ false
unfolding contains
empty_contains [] k h = refl
empty_contains (n ∷ ns) k h = absurd (omega arith)

module _ {S : Type 0} (backend : Backend S) (bound : ℕ) (remote : S → List ℕ → ℕ → ℕ)
    (stores : Stores backend bound remote) (c : Cache) (s : S) (v : IsValid c)
    (bounds : InBounds bound c) where
  dirty_there :
      (g : List ℕ) (k : ℕ) → dirty_at c g k ≡ true → (e : CacheEntry) × (find_entry c g k ≡ some e)
  dirty_there g k h = elim (Option-cases (find_entry c g k)) [
    | inl miss ↦ absurd (unfold dirty_at in ground arith)
    | inr found ↦ found
  ]

  grouped_dirt :
      (groups : List (List ℕ × List ℕ))
      → Groups c c.recent_list groups
      → (g : List ℕ) (k : ℕ) → in_groups groups g k ≡ dirty_at c g k
  unfolding dirty_at
  grouped_dirt groups gs g k = elim (Bool-cases (in_groups groups g k)) [
    | inl is_in ↦ is_in ∙ sym (gs.sound g k is_in)
    | inr is_out ↦ elim (Bool-cases (dirty_at c g k)) [
      | inr is_clean ↦ is_out ∙ sym is_clean
      | inl dirty_here ↦ elim (Option-cases (find_entry c g k)) [
        | inl miss ↦ absurd (ground arith)
        | inr (e, there) ↦
            let again = gs.complete e.use_record _ (v.recorded g k e there) dirty_here in
            absurd (ground arith)
      ]
    ]
  ]

  -- Writing all dirty blocks back returns. After an error, which is that of the last call of a
  -- callback that writes back, the cache has all its bytes; without one no block is dirty, and
  -- the server has all the bytes that were.
  pub flush_dirty_blocks_lem :
      (code : ℕ) × (c' : Cache) × (s' : S) × (flush_dirty_blocks backend c s ≡ ok (code, c', s'))
      × ((Refused backend code s' × Kept c c')
          ⊎ ((code ≡ 0) × Flushed remote (λ g. true) c c' s s'))
  unfolding flush_dirty_blocks
  flush_dirty_blocks_lem =
      let (groups, run, gs) =
        group_dirty_lem c c.recent_list v.distinct
          (λ n u h. let (e, there, _) = v.used n u h in (e, there)) in
      let same = grouped_dirt groups gs in
      let (code, c', s', run', v', effect) =
        flush_groups_lem backend bound remote stores groups c s v bounds gs.unique gs.some_block
          (λ g k h. dirty_there g k (gs.sound g k h)) in
      (
        code,
        c',
        s',
        rw run run',
        elim effect [
          | inl (failed, _, cleans) ↦ inl (failed, Cleans-Kept v cleans)
          | inr (done, cleans, stored) ↦ inr (done, Cleans-Flushed (λ g. true) v same cleans stored)
        ],
      )

  nothing_dirty :
      (f : List ℕ) → ((k : ℕ) → dirty_at c f k ≡ false) → Flushed remote (str_eq f) c c s s
  nothing_dirty f clean =
      let none_here : (g : List ℕ) (k : ℕ) → (str_eq f g && dirty_at c g k) ≡ false = λ g k.
        elim (Bool-cases (str_eq f g)) [
          | inl here ↦
              let clean' : dirty_at c g k ≡ false =
                subst (λ h. dirty_at c h k ≡ false) ((str_eq_iff f g).0 here) (clean k) in
              ground arith
          | inr other ↦ ground arith
        ] in
      record {
        kept = record { valid = v; same_size = refl; same_list = refl; bytes = λ g pos. refl };
        dirt = λ g k. let n = none_here g k in ground arith;
        stored = λ g pos inside. rw (none_here g (pos / c.block_size)) refl;
      }

  flush_idle :
      (f : List ℕ) (fc : FileCache)
      → find f c.file_map ≡ some fc
      → ltb 0 (length (dirty_blocks fc.entries)) ≡ false
      → flush backend f c s ≡ ok (0, c, s)
  unfolding flush
  flush_idle f fc known idle = rw (flush, known, idle) refl

  flush_run :
      (f : List ℕ) (fc : FileCache) (code : ℕ) (c' : Cache) (s' : S)
      → find f c.file_map ≡ some fc
      → ltb 0 (length (dirty_blocks fc.entries)) ≡ true
      → flush_blocks backend f (sort (dirty_blocks fc.entries)) c s ≡ ok (code, c', s')
      → flush backend f c s ≡ ok (0, c', s')
  unfolding flush
  flush_run f fc code c' s' known busy run = rw (flush, known, busy, run) refl

  file_dirt :
      (f : List ℕ) (fc : FileCache)
      → Keyed c
      → find f c.file_map ≡ some fc
      → (k : ℕ) → contains (dirty_blocks fc.entries) k ≡ dirty_at c f k
  unfolding dirty_at
  file_dirt f fc keyed known k =
      let same = find_entry-file c f k fc known in
      dirty_blocks_lem fc.entries k (keyed f fc known) ∙ (elim (Option-cases (find k fc.entries)) [
        | inl miss ↦ ground arith
        | inr (e, there) ↦ ground arith
      ])

  -- What a flush of one file comes to: the error of the write-back is dropped, and the blocks are
  -- as before; or the file's blocks are clean and the server has the dirty bytes.
  abbrev pub FlushOf : List ℕ → Type 0
  FlushOf f =
      (c' : Cache) × (s' : S) × (flush backend f c s ≡ ok (0, c', s'))
      × (((code : ℕ) × (blocks : List ℕ) × Refused backend code s'
            × (flush_blocks backend f blocks c s ≡ ok (code, c', s'))
            × Kept c c'
            × SameBlocks c c')
          ⊎ Flushed remote (str_eq f) c c' s s')

  flush_busy :
      (f : List ℕ) (fc : FileCache)
      → Keyed c
      → find f c.file_map ≡ some fc
      → ltb 0 (length (dirty_blocks fc.entries)) ≡ true
      → FlushOf f
  flush_busy f fc keyed known busy =
      let blocks : List ℕ = sort (dirty_blocks fc.entries) in
      let dirt = file_dirt f fc keyed known in
      let marks : (g : List ℕ) (k : ℕ) → in_file f blocks g k ≡ (str_eq f g && dirty_at c g k) =
        λ g k. elim (Bool-cases (str_eq f g)) [
          | inl here ↦
              let moved : dirty_at c f k ≡ dirty_at c g k =
                ap (λ h. dirty_at c h k) ((str_eq_iff f g).0 here) in
              let member = contains-sort (dirty_blocks fc.entries) k ∙ dirt k ∙ moved in
              rw (here, member) refl
          | inr other ↦ rw other refl
        ] in
      let (code, c', s', run, v', ending, facts, effect) =
        flush_blocks_lem backend bound remote stores f c fc blocks s v known (λ b h.
          let was_dirty = sym (dirt b) ∙ sym (contains-sort (dirty_blocks fc.entries) b) ∙ h in
          let (e, there) = dirty_there f b was_dirty in
          (e, sym (find_entry-file c f b fc known) ∙ there, bounds f b e there)) in
      (
        c',
        s',
        flush_run f fc code c' s' known busy run,
        elim effect [
          | inl (failed, same) ↦
              let refused : Refused backend code s' = (elim ending [
                | inl done ↦ absurd (failed done)
                | inr refused ↦ refused
              ]) in
              inl (code, blocks, refused, run, SameBlocks-Kept v same, same)
          | inr (cleans, stored) ↦ inr (Cleans-Flushed (str_eq f) v marks cleans stored)
        ],
      )

  -- `Cache::flush` returns 0. The cache is valid and keeps its bytes; no block of the file is
  -- dirty and the server has the bytes that were, unless the last call of a callback that writes
  -- back returned an error.
  pub flush_lem : (f : List ℕ) → Keyed c → FlushOf f
  unfolding dirty_at
  flush_lem f keyed = elim (Option-cases (find f c.file_map)) [
    | inl miss ↦ (
      c,
      s,
      unfold flush in rw (flush, miss) refl,
      inr (nothing_dirty f (λ k. unfold find_entry in ground arith)),
    )
    | inr (fc, known) ↦ elim (Bool-cases (ltb 0 (length (dirty_blocks fc.entries)))) [
      | inl busy ↦ flush_busy f fc keyed known busy
      | inr idle ↦ (
        c,
        s,
        flush_idle f fc known idle,
        inr (
            nothing_dirty f (λ k.
              sym (file_dirt f fc keyed known k)
              ∙ empty_contains (dirty_blocks fc.entries) k (ground arith))),
      )
    ]
  ]
