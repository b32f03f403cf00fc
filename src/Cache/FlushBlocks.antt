-- ===== src/Cache/FlushBlocks.antt =====
-- `Cache::flushBlocks` of client_src/cache.cpp: what is written back and what is marked clean.
use net_fs.Prelude.{
  ℕ, ◌+◌, ◌*◌, ◌/◌, ◌<◌, List, [], some, ◌==◌, ==_iff, str_eq, str_eq_iff, nat_eq, string_eq, Bool,
  true, false, if◌then◌else◌, find, at-find, ok, ◌>>=◌, ◌≡◌, ◌≢◌, ◌⊎◌, refl, ap, subst, ◌∙◌, arith,
  Bool-cases, inl, inr,
}
use net_fs.Cache.Entry.{CacheEntry}
use net_fs.Cache.Contents.{or_else}
use net_fs.Cache.State.{FileAttr, FileCache, Cache, Backend}
use net_fs.Cache.Blocks.{set_file}
use net_fs.Cache.Valid.{IsValid, view}
use net_fs.Cache.Store.{file_facts, find_entry-file}
use net_fs.Cache.Files.{SameBlocks, set_file-SameBlocks, set_file-other_facts}
use net_fs.Cache.Written.{cached_byte}
use net_fs.Cache.Flush.{
  Flushing, gather, write_rest, clean_blocks, with_times, finish_flush, flush_blocks,
}
use net_fs.Cache.Gather.{Refused, attr_call, Stores, Ready, Reaches, pending, write_back_lem}
use net_fs.Cache.Cleans.{Cleans, Cleans-IsValid}
use net_fs.Cache.Files.{SameBlocks-IsValid}
use net_fs.Cache.GatherBlocks.{contains, entry_byte, with_blocks, gather_lem}
use net_fs.Cache.CleanBlocks.{in_file, clean_blocks_lem, clean_file}

-- Whether a position is within a file, as far as the cache knows its size.
abbrev pub Inside : Cache → List ℕ → ℕ → Type 0
Inside c g pos = (fc : FileCache) → find g c.file_map ≡ some fc → pos < fc.attr.size

-- The server has the valid bytes of the marked blocks, and what it had before elsewhere. In the
-- files that are flushed this is said of the positions within their sizes.
abbrev pub HasStored :
    {S : Type 0}
    → (S → List ℕ → ℕ → ℕ)
    → (List ℕ → Bool)
    → (List ℕ → ℕ → Bool)
    → Cache
    → S
    → S
    → Type 0
HasStored remote flushed marked c s s' =
    (g : List ℕ) (pos : ℕ)
    → (flushed g ≡ false) ⊎ Inside c g pos
    → some (remote s' g pos) ≡ (
        if marked g (pos / c.block_size)
        then or_else (cached_byte c g pos) (some (remote s g pos))
        else some (remote s g pos))

module _ {S : Type 0} (backend : Backend S) (bound : ℕ) (remote : S → List ℕ → ℕ → ℕ)
    (stores : Stores backend bound remote) (f : List ℕ) where
  -- The last write-back: without an error nothing is pending any more.
  write_rest_lem :
      (fl : Flushing S)
      → Ready bound fl
      → (code : ℕ) × (fl' : Flushing S) × (write_rest backend f fl ≡ ok (code, fl'))
        × (Refused backend code fl'.behind
            ⊎ ((code ≡ 0)
                × ((g : List ℕ) (pos : ℕ)
                    → some (remote fl'.behind g pos) ≡ pending remote f fl g pos)))
  unfolding write_rest pending
  write_rest_lem fl (inl (none_left, empty)) =
      (0, fl, rw none_left refl, inr (refl, λ g pos. rw none_left refl))
  write_rest_lem fl (inr (r, one, order, below, size)) =
      let (code, time, stale, s', run, called, effect) =
        write_back_lem backend bound remote stores f fl r one order below size in
      let run' = rw one at run in
      (
        code,
        record fl { time = time; stale = stale; behind = s' },
        rw one run',
        elim effect [
          | inl failed ↦ inl (failed, called)
          | inr stored ↦ elim (Bool-cases (code == 0)) [
            | inl done ↦ inr ((==_iff code 0).0 done, stored)
            | inr failed ↦ inl ((λ e. ground arith), called)
          ]
        ],
      )

  module _ (c : Cache) (fc : FileCache) (blocks : List ℕ) (s : S) (v : IsValid c)
      (known : find f c.file_map ≡ some fc)
      (there : (b : ℕ)
        → contains blocks b ≡ true
        → (e : CacheEntry) × (find b fc.entries ≡ some e)
          × (b * c.block_size + c.block_size < bound)) where
    abbrev start_flush : Flushing S
    start_flush = record {
      flush_range = [];
      gathered = [];
      time = fc.attr.time;
      stale = fc.stale;
      behind = s;
    }

    gather_failed :
        (fl : Flushing S) (code : ℕ)
        → gather backend f c.block_size fc.entries blocks start_flush ≡ ok (code, fl)
        → (code == 0) ≡ false
        → flush_blocks backend f blocks c s ≡ ok (code, set_file f (with_times fc fl) c, fl.behind)
    unfolding flush_blocks
    gather_failed fl code run failed =
        rw (at-find f c.file_map known, ◌>>=◌, run, ◌>>=◌, failed) refl

    rest_failed :
        (fl fl' : Flushing S) (code code' : ℕ)
        → gather backend f c.block_size fc.entries blocks start_flush ≡ ok (code, fl)
        → (code == 0) ≡ true
        → write_rest backend f fl ≡ ok (code', fl')
        → (code' == 0) ≡ false
        → flush_blocks backend f blocks c s
          ≡ ok (code', set_file f (with_times fc fl') c, fl'.behind)
    unfolding flush_blocks
    rest_failed fl fl' code code' run done run' failed =
        rw (at-find f c.file_map known, ◌>>=◌, run, ◌>>=◌, done, run', ◌>>=◌, failed) refl

    flush_done :
        (fl fl' : Flushing S) (code code' : ℕ) (entries : List (ℕ × CacheEntry)) (code'' : ℕ)
        (attr : FileAttr) (stale : Bool) (s' : S)
        → gather backend f c.block_size fc.entries blocks start_flush ≡ ok (code, fl)
        → (code == 0) ≡ true
        → write_rest backend f fl ≡ ok (code', fl')
        → (code' == 0) ≡ true
        → clean_blocks blocks fc.entries ≡ ok entries
        → backend.attr_wb f (record fc.attr { time = fl'.time }) fl'.stale fl'.behind
          ≡ ok (code'', attr, stale, s')
        → flush_blocks backend f blocks c s
          ≡ ok (code'', set_file f (record { stale = stale; attr = attr; entries = entries }) c, s')
    unfolding flush_blocks finish_flush
    flush_done fl fl' code code' entries code'' attr stale s' run done run' done' clean wb =
        rw
          (
            at-find f c.file_map known,
            ◌>>=◌,
            run,
            ◌>>=◌,
            done,
            run',
            ◌>>=◌,
            done',
            clean,
            ◌>>=◌,
            wb,
          )
          refl

    -- What the server has at a place of the file when all is written back.
    stored_place :
        (fl₁ : Flushing S) (s₁ s' : S) (size : ℕ)
        → size ≡ fc.attr.size
        → ((g : List ℕ) (pos : ℕ)
            → pending remote f fl₁ g pos
              ≡ with_blocks f c.block_size fc.entries blocks (pending remote f start_flush) g pos)
        → ((g : List ℕ) (pos : ℕ) → some (remote s₁ g pos) ≡ pending remote f fl₁ g pos)
        → ((g : List ℕ) (pos : ℕ)
            → (str_eq f g ≡ false) ⊎ (pos < size)
            → remote s' g pos ≡ remote s₁ g pos)
        → HasStored remote (str_eq f) (in_file f blocks) c s s'
    unfolding cached_byte view entry_byte pending
    stored_place fl₁ s₁ s' size same_size gathered written kept g pos inside =
        let all = written g pos ∙ gathered g pos in
        elim (Bool-cases (str_eq f g)) [
          | inl here ↦
              let known' : find g c.file_map ≡ some fc =
                subst (λ h. find h c.file_map ≡ some fc) ((str_eq_iff f g).0 here) known in
              let same = find_entry-file c g (pos / c.block_size) fc known' in
              let byte : entry_byte c.block_size fc.entries pos ≡ cached_byte c g pos =
                rw (cached_byte, view, same) refl in
              let within : pos < fc.attr.size = (elim inside [
                | inl other ↦ absurd (ground arith)
                | inr inner ↦ inner fc known'
              ]) in
              ap some (kept g pos (inr (omega arith))) ∙ all ∙ rw (byte, here) refl
          | inr other ↦ ap some (kept g pos (inl other)) ∙ all ∙ rw other refl
        ]

    -- The flush returns. Either an error comes back and the file's blocks are as they were, or they
    -- are clean and the server has all their valid bytes.
    abbrev pub FlushEnds : Type 0
    FlushEnds =
        (code : ℕ) × (c' : Cache) × (s' : S) × (flush_blocks backend f blocks c s
          ≡ ok (code, c', s'))
        × IsValid c'
        × ((code ≡ 0) ⊎ Refused backend code s')
        × ((g : List ℕ) → str_eq f g ≡ false → file_facts c' g ≡ file_facts c g)
        × (((code ≢ 0) × SameBlocks c c')
            ⊎ (Cleans (in_file f blocks) c c'
                × HasStored remote (str_eq f) (in_file f blocks) c s s'))

    ends_early :
        (fl : Flushing S) (code : ℕ)
        → flush_blocks backend f blocks c s ≡ ok (code, set_file f (with_times fc fl) c, fl.behind)
        → Refused backend code fl.behind
        → FlushEnds
    ends_early fl code run failed =
        let same = set_file-SameBlocks c f fc (with_times fc fl) known refl in
        (
          code,
          set_file f (with_times fc fl) c,
          fl.behind,
          run,
          SameBlocks-IsValid same v,
          inr failed,
          λ g other. set_file-other_facts c f g (with_times fc fl) other,
          inl (failed.0, same),
        )

    ends_well :
        (fl fl' : Flushing S) (code code' : ℕ)
        → gather backend f c.block_size fc.entries blocks start_flush ≡ ok (code, fl)
        → code ≡ 0
        → ((g : List ℕ) (pos : ℕ)
            → pending remote f fl g pos
              ≡ with_blocks f c.block_size fc.entries blocks (pending remote f start_flush) g pos)
        → write_rest backend f fl ≡ ok (code', fl')
        → code' ≡ 0
        → ((g : List ℕ) (pos : ℕ) → some (remote fl'.behind g pos) ≡ pending remote f fl g pos)
        → FlushEnds
    ends_well fl fl' code code' run done gathered run' done' written =
        let (entries, clean, found) =
          clean_blocks_lem blocks fc.entries (λ b h. let (e, here, _) = there b h in (e, here)) in
        let (code'', attr, stale, s', wb, kept) =
          stores.resizes f (record fc.attr { time = fl'.time }) fl'.stale fl'.behind in
        let fc' : FileCache = record { stale = stale; attr = attr; entries = entries } in
        let cleans = clean_file f c fc fc' blocks known found in
        (
          code'',
          set_file f fc' c,
          s',
          flush_done fl fl' code code' entries code'' attr stale s' run (ground arith) run'
              (ground arith) clean wb,
          Cleans-IsValid cleans v,
          elim (Bool-cases (code'' == 0)) [
            | inl no_error ↦ inl ((==_iff code'' 0).0 no_error)
            | inr refused ↦ inr (
              (λ e. ground arith),
              attr_call f (record fc.attr { time = fl'.time }) fl'.stale fl'.behind attr stale wb,
            )
          ],
          λ g other. set_file-other_facts c f g fc' other,
          inr (cleans, stored_place fl fl'.behind s' fc.attr.size refl gathered written kept),
        )

    after_gather :
        Reaches backend bound remote f
          (gather backend f c.block_size fc.entries blocks start_flush)
          (with_blocks f c.block_size fc.entries blocks (pending remote f start_flush))
        → FlushEnds
    after_gather (code, fl, run, inl failed) =
        ends_early fl code (gather_failed fl code run (ground arith)) failed
    after_gather (code, fl, run, inr (done, ready, gathered)) =
        let (code', fl', run', effect) = write_rest_lem fl ready in
        elim effect [
          | inl failed ↦
              ends_early fl' code'
                (rest_failed fl fl' code code' run (ground arith) run' (ground arith)) failed
          | inr (done', written) ↦ ends_well fl fl' code code' run done gathered run' done' written
        ]

    pub flush_blocks_lem : FlushEnds
    flush_blocks_lem = after_gather (
        gather_lem backend bound remote stores f c.block_size fc.entries v.positive
          (λ b e h. v.blocks f b e (find_entry-file c f b fc known ∙ h)) blocks start_flush there
          (inl (refl, refl)))
