-- ===== src/Cache/Gather.antt =====
-- The rounds of the loop of `flushBlocks` in client_src/cache.cpp: what is gathered and what is
-- written back, seen from the server's side.
use net_fs.Prelude.{
  ℕ, ◌+◌, ◌-◌, ◌*◌, ◌^◌, ◌<◌, ◌≤◌, List, [], ◌∷◌, ◌++◌, length, take, drop, get_elem?, Option, some,
  ◌==◌, ==_iff, str_eq, ◌&&◌, Bool, true, false, if◌then◌else◌, wrap64, Result, ok, ◌≡◌, ◌≢◌, ◌⊎◌,
  refl, ap, subst, ◌∙◌, arith, inl, inr,
}
use net_fs.Time.{FileTime}
use net_fs.Range.{Range, insert_range}
use net_fs.Range.Sorted.{covers, insert_range-IsSorted}
use net_fs.Range.Canonical.{IsSorted-canonical}
use net_fs.Cache.Entry.{CacheEntry}
use net_fs.Cache.State.{FileAttr, Backend}
use net_fs.Cache.Span.{in_span}
use net_fs.Cache.Flush.{Flushing, write_back, start_range, flush_round}

-- The server stores what is written back below a bound: without an error, the bytes handed over,
-- of which there are some, are its bytes at their places. A write-back of attributes leaves what
-- is within the file's size, also if it fails.
pub record Stores {S : Type 0} (backend : Backend S) (bound : ℕ) (remote : S → List ℕ → ℕ → ℕ)
    : Type 0 where
  pub within : bound ≤ 2 ^ 64
  pub writes :
      (f : List ℕ) (offset : ℕ) (buf : List ℕ) (time : FileTime) (stale : Bool) (s : S)
      → 0 < length buf
      → offset + length buf < bound
      → (code : ℕ) × (time' : FileTime) × (stale' : Bool) × (s' : S) × (backend.content_wb f offset
            buf time stale s
          ≡ ok (code, time', stale', s'))
        × ((code ≢ 0)
            ⊎ ((g : List ℕ) (pos : ℕ)
                → some (remote s' g pos) ≡ (
                    if str_eq f g && in_span offset (length buf) pos
                    then get_elem? buf (pos - offset)
                    else some (remote s g pos))))
  pub resizes :
      (f : List ℕ) (attr : FileAttr) (stale : Bool) (s : S)
      → (code : ℕ) × (attr' : FileAttr) × (stale' : Bool) × (s' : S) × (backend.attr_wb f attr stale
            s
          ≡ ok (code, attr', stale', s'))
        × ((g : List ℕ) (pos : ℕ)
            → (str_eq f g ≡ false) ⊎ (pos < attr.size)
            → remote s' g pos ≡ remote s g pos)

-- A call of a callback for write-back returned the code, and left `s'` behind it.
pub data WroteBack {S : Type 0} (backend : Backend S) (code : ℕ) (s' : S) : Type 0 where
  content_call :
      (f : List ℕ) (offset : ℕ) (buf : List ℕ) (time : FileTime) (stale : Bool) (s : S)
      (time' : FileTime) (stale' : Bool)
      → backend.content_wb f offset buf time stale s ≡ ok (code, time', stale', s')
      → WroteBack backend code s'
  attr_call :
      (f : List ℕ) (attr : FileAttr) (stale : Bool) (s : S) (attr' : FileAttr) (stale' : Bool)
      → backend.attr_wb f attr stale s ≡ ok (code, attr', stale', s')
      → WroteBack backend code s'

-- A write-back returned the error code, as the last call of a callback.
abbrev pub Refused : {S : Type 0} → Backend S → ℕ → S → Type 0
Refused backend code s' = (code ≢ 0) × WroteBack backend code s'

-- The range is the only one and ends below the bound, and its bytes are the gathered ones.
abbrev pub Ready : {S : Type 0} → ℕ → Flushing S → Type 0
Ready bound fl =
    ((fl.flush_range ≡ []) × (fl.gathered ≡ []))
    ⊎ ((r : Range) × (fl.flush_range ≡ r ∷ [])
        × (r.start < r.end)
        × (r.end < bound)
        × (r.end - r.start ≡ length fl.gathered))

-- What the server has at a place once the gathered bytes are written back.
unfoldable pub pending :
    {S : Type 0} → (S → List ℕ → ℕ → ℕ) → List ℕ → Flushing S → List ℕ → ℕ → Option ℕ
pending remote f fl g pos = elim fl.flush_range [
  | [] ↦ some (remote fl.behind g pos)
  | r ∷ _ ↦
      if str_eq f g && in_span r.start (length fl.gathered) pos
      then get_elem? fl.gathered (pos - r.start)
      else some (remote fl.behind g pos)
]

-- The run returns; without an error, the variables are ready and what is pending is the target.
abbrev pub Reaches :
    {S : Type 0}
    → Backend S
    → ℕ
    → (S → List ℕ → ℕ → ℕ)
    → List ℕ
    → Result (ℕ × Flushing S)
    → (List ℕ → ℕ → Option ℕ)
    → Type 0
Reaches {S} backend bound remote f run target =
    (code : ℕ) × (fl' : Flushing S) × (run ≡ ok (code, fl'))
    × (Refused backend code fl'.behind
        ⊎ ((code ≡ 0)
            × Ready bound fl'
            × ((g : List ℕ) (pos : ℕ) → pending remote f fl' g pos ≡ target g pos)))

-- A range put into an empty list, and one put into a list with a range that it follows.
insert_first :
    (start end : ℕ)
    → start < end
    → insert_range start end [] ≡ ok (record { start = start; end = end } ∷ [])
unfolding covers
insert_first start end h =
    let one : List Range = record { start = start; end = end } ∷ [] in
    let (after, run, sorted, covered) = insert_range-IsSorted start end [] h tt in
    let same : after ≡ one =
      IsSorted-canonical after one sorted (omega arith, h, tt) (λ x. ground (arith, covered x)) in
    run ∙ ap ok same

insert_next :
    (r : Range) (end : ℕ)
    → r.start < r.end
    → r.end < end
    → insert_range r.end end (r ∷ []) ≡ ok (record { start = r.start; end = end } ∷ [])
unfolding covers
insert_next r end h k =
    let one : List Range = record { start = r.start; end = end } ∷ [] in
    let (after, run, sorted, covered) =
      insert_range-IsSorted r.end end (r ∷ []) k (omega arith, h, tt) in
    let same : after ≡ one =
      IsSorted-canonical after one sorted (omega arith, omega arith, tt)
        (λ x. ground (arith, covered x)) in
    run ∙ ap ok same

module _ {S : Type 0} (backend : Backend S) (bound : ℕ) (remote : S → List ℕ → ℕ → ℕ)
    (stores : Stores backend bound remote) (f : List ℕ) where
  write_back_run :
      (fl : Flushing S) (r : Range) (code : ℕ) (time : FileTime) (stale : Bool) (s' : S)
      → fl.flush_range ≡ r ∷ []
      → (r.end - r.start == length fl.gathered) ≡ true
      → backend.content_wb f r.start fl.gathered fl.time fl.stale fl.behind
        ≡ ok (code, time, stale, s')
      → write_back backend f fl ≡ ok (code, record fl { time = time; stale = stale; behind = s' })
  unfolding write_back
  write_back_run fl r code time stale s' one len run = rw (one, len, run) refl

  -- The write-back of what is gathered passes its assertion; without an error, the server then has
  -- what was pending.
  pub write_back_lem :
      (fl : Flushing S) (r : Range)
      → fl.flush_range ≡ r ∷ []
      → r.start < r.end
      → r.end < bound
      → r.end - r.start ≡ length fl.gathered
      → (code : ℕ) × (time : FileTime) × (stale : Bool) × (s' : S) × (write_back backend f fl
          ≡ ok (code, record fl { time = time; stale = stale; behind = s' }))
        × WroteBack backend code s'
        × ((code ≢ 0)
            ⊎ ((g : List ℕ) (pos : ℕ) → some (remote s' g pos) ≡ pending remote f fl g pos))
  unfolding pending
  write_back_lem fl r one order below len =
      let (code, time, stale, s', run, effect) =
        stores.writes f r.start fl.gathered fl.time fl.stale fl.behind (omega arith)
          (omega arith) in
      (
        code,
        time,
        stale,
        s',
        write_back_run fl r code time stale s' one
            ((==_iff (r.end - r.start) (length fl.gathered)).1 len) run,
        content_call f r.start fl.gathered fl.time fl.stale fl.behind time stale run,
        elim effect [
          | inl failed ↦ inl failed
          | inr stored ↦ inr (λ g pos. stored g pos ∙ rw one refl)
        ],
      )

  -- What a round does to what is pending: the bytes of a range are added.
  pub record Added (fl fl' : Flushing S) (start : ℕ) (bytes : List ℕ) : Type 0 where
    pub ready : Ready bound fl'
    pub adds :
        (g : List ℕ) (pos : ℕ)
        → pending remote f fl' g pos ≡ (
            if str_eq f g && in_span start (length bytes) pos
            then get_elem? bytes (pos - start)
            else pending remote f fl g pos)

  module _ (block_size b : ℕ) (entry : CacheEntry) (rg : Range) (start end : ℕ)
      (at_start : wrap64 (rg.start + b * block_size) ≡ start)
      (at_end : wrap64 (rg.end + b * block_size) ≡ end) where
    abbrev pub bytes_of : List ℕ
    bytes_of = take (rg.end - rg.start) (drop rg.start entry.content)

    pub round_first :
        (fl : Flushing S)
        → fl.flush_range ≡ []
        → fl.gathered ≡ []
        → start < end
        → flush_round backend f block_size b entry rg fl
          ≡ ok (
            0,
            record fl {
              flush_range = record { start = start; end = end } ∷ [];
              gathered = bytes_of;
            },
          )
    unfolding flush_round start_range
    round_first fl none_yet empty h =
        rw (none_yet, at_start, at_end, insert_first start end h, empty) refl

    pub round_next :
        (fl : Flushing S) (r : Range)
        → fl.flush_range ≡ r ∷ []
        → r.start < r.end
        → r.end ≡ start
        → start < end
        → flush_round backend f block_size b entry rg fl
          ≡ ok (
            0,
            record fl {
              flush_range = record { start = r.start; end = end } ∷ [];
              gathered = fl.gathered ++ bytes_of;
            },
          )
    unfolding flush_round start_range
    round_next fl r one h meets k =
        let test : (r.end == start) ≡ true = (==_iff r.end start).1 meets in
        let run : insert_range start end (r ∷ [])
            ≡ ok (record { start = r.start; end = end } ∷ []) =
          subst
            (λ (n : ℕ).
              insert_range n end (r ∷ []) ≡ ok (record { start = r.start; end = end } ∷ []))
            meets (insert_next r end h (omega arith)) in
        rw (one, at_start, at_end, test, run) refl

    pub round_apart :
        (fl fl₁ : Flushing S) (r : Range)
        → fl.flush_range ≡ r ∷ []
        → (r.end == start) ≡ false
        → start < end
        → write_back backend f fl ≡ ok (0, fl₁)
        → flush_round backend f block_size b entry rg fl
          ≡ ok (
            0,
            record fl₁ {
              flush_range = record { start = start; end = end } ∷ [];
              gathered = bytes_of;
            },
          )
    unfolding flush_round start_range
    round_apart fl fl₁ r one test h run =
        let run' = rw one at run in
        rw (one, at_start, at_end, test, run', insert_first start end h) refl

    pub round_failed :
        (fl fl₁ : Flushing S) (r : Range) (code : ℕ)
        → fl.flush_range ≡ r ∷ []
        → (r.end == start) ≡ false
        → (code == 0) ≡ false
        → write_back backend f fl ≡ ok (code, fl₁)
        → flush_round backend f block_size b entry rg fl ≡ ok (code, fl₁)
    unfolding flush_round start_range
    round_failed fl fl₁ r code one test failed run =
        let run' = rw one at run in rw (one, at_start, test, run', failed) refl
