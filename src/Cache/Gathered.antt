-- ===== src/Cache/Gathered.antt =====
-- A round of the loop of `flushBlocks` in client_src/cache.cpp, and its inner loop over the valid
-- ranges of a block.
use net_fs.Prelude.{
  ℕ, ◌+◌, ◌-◌, ◌*◌, ◌<◌, ◌≤◌, List, [], ◌∷◌, length, take, drop, get_elem?, get_elem?-append,
  get_elem?-take, get_elem?-drop, length-take, length-drop, length-append, Option, none, ◌==◌, leb,
  ltb, ==_iff, str_eq, ◌&&◌, true, false, if◌then◌else◌, wrap64, ok, ◌>>=◌, ◌≡◌, ◌⊎◌, refl, sym, ap,
  ◌∙◌, arith, Bool-cases, inl, inr,
}
use net_fs.Range.{Range}
use net_fs.Range.Sorted.{covers}
use net_fs.Range.Merge.{From}
use net_fs.Range.Overlay.{Within}
use net_fs.Cache.Entry.{CacheEntry}
use net_fs.Cache.State.{Backend}
use net_fs.Cache.Span.{in_span}
use net_fs.Cache.Flush.{Flushing, flush_round, flush_ranges}
use net_fs.Cache.Gather.{
  Refused, Stores, Ready, Reaches, pending, Added, write_back_lem, round_first, round_next,
  round_apart, round_failed,
}

-- The bytes of the ranges of a block that starts at `base`, over those of before.
unfoldable pub with_ranges :
    List ℕ → CacheEntry → ℕ → List Range → (List ℕ → ℕ → Option ℕ) → List ℕ → ℕ → Option ℕ
with_ranges f entry base ranges old g pos =
    if str_eq f g && (leb base pos && covers ranges (pos - base))
    then get_elem? entry.content (pos - base)
    else old g pos

module _ {S : Type 0} (backend : Backend S) (bound : ℕ) (remote : S → List ℕ → ℕ → ℕ)
    (stores : Stores backend bound remote) (f : List ℕ) (block_size b : ℕ)
    (entry : CacheEntry) where
  -- One round adds the bytes of the range to what is pending, unless a write-back fails.
  flush_round_lem :
      (rg : Range) (start end : ℕ) (bytes : List ℕ) (fl : Flushing S)
      → wrap64 (rg.start + b * block_size) ≡ start
      → wrap64 (rg.end + b * block_size) ≡ end
      → take (rg.end - rg.start) (drop rg.start entry.content) ≡ bytes
      → start < end
      → end - start ≡ length bytes
      → end < bound
      → Ready bound fl
      → (code : ℕ) × (fl' : Flushing S) × (flush_round backend f block_size b entry rg fl
          ≡ ok (code, fl'))
        × (Refused backend code fl'.behind
            ⊎ ((code ≡ 0) × Added backend bound remote stores f fl fl' start bytes))
  unfolding pending
  flush_round_lem rg start end bytes fl at_start at_end is_bytes h len below
        (inl (none_yet, empty)) =
      (
        0,
        _,
        round_first backend bound remote stores f block_size b entry rg start end at_start at_end fl
            none_yet empty h,
        inr (
          refl,
          record {
            ready = inr (_, refl, h, below, len ∙ ap length (sym is_bytes));
            adds = λ g pos. rw (is_bytes, none_yet) refl;
          },
        ),
      )
  flush_round_lem rg start end bytes fl at_start at_end is_bytes h len below
        (inr (r, one, order, low, size)) =
      elim (Bool-cases (r.end == start)) [
        | inl meets ↦
            let e : r.end ≡ start = (==_iff r.end start).0 meets in
            (
              0,
              _,
              round_next backend bound remote stores f block_size b entry rg start end at_start
                  at_end fl r one order e h,
              inr (
                refl,
                record {
                  ready = inr (
                    _,
                    refl,
                    omega arith,
                    below,
                    rw is_bytes (omega (arith, length-append fl.gathered bytes)),
                  );
                  adds = λ g pos.
                      rw (is_bytes, one)
                        (ground (
                          arith,
                          length-append fl.gathered bytes,
                          get_elem?-append fl.gathered bytes (pos - r.start),
                        ));
                },
              ),
            )
        | inr apart ↦
            let (code, time, stale, s', run, called, effect) =
              write_back_lem backend bound remote stores f fl r one order low size in
            elim (Bool-cases (code == 0)) [
              | inl done ↦
                  let none_failed : code ≡ 0 = (==_iff code 0).0 done in
                  let fl₁ : Flushing S = record fl { time = time; stale = stale; behind = s' } in
                  (
                    0,
                    _,
                    round_apart backend bound remote stores f block_size b entry rg start end
                        at_start at_end fl fl₁ r one apart h
                        (run ∙ ap (λ (n : ℕ). ok (n, fl₁)) none_failed),
                    elim effect [
                      | inl failed ↦ absurd (failed none_failed)
                      | inr stored ↦ inr (
                        refl,
                        record {
                          ready = inr (_, refl, h, below, len ∙ ap length (sym is_bytes));
                          adds = λ g pos. rw is_bytes (
                              ap
                                (λ (o : Option ℕ).
                                  if str_eq f g && in_span start (length bytes) pos
                                  then get_elem? bytes (pos - start)
                                  else o)
                                (stored g pos));
                        },
                      )
                    ],
                  )
              | inr failed ↦ (
                code,
                record fl { time = time; stale = stale; behind = s' },
                round_failed backend bound remote stores f block_size b entry rg start end at_start
                    at_end fl (record fl { time = time; stale = stale; behind = s' }) r code one
                    apart failed run,
                inl ((λ e. ground arith), called),
              )
            ]
      ]

  ranges_step :
      (base : ℕ) (rg : Range) (rs : List Range) (bytes : List ℕ) (old mid : List ℕ → ℕ → Option ℕ)
      (g : List ℕ) (pos : ℕ)
      → rg.start < rg.end
      → rg.end ≤ length entry.content
      → take (rg.end - rg.start) (drop rg.start entry.content) ≡ bytes
      → mid g pos ≡ (
          if str_eq f g && in_span (rg.start + base) (length bytes) pos
          then get_elem? bytes (pos - (rg.start + base))
          else old g pos)
      → with_ranges f entry base rs mid g pos ≡ with_ranges f entry base (rg ∷ rs) old g pos
  unfolding with_ranges covers
  ranges_step base rg rs bytes old mid g pos order fits is_bytes added =
      let len : length bytes ≡ rg.end - rg.start = omega (
        arith,
        ap length is_bytes,
        length-take (rg.end - rg.start) (drop rg.start entry.content),
        length-drop rg.start entry.content,
      ) in
      let cut =
        get_elem?-take (rg.end - rg.start) (drop rg.start entry.content)
          (pos - (rg.start + base)) in
      let moved = get_elem?-drop rg.start entry.content (pos - (rg.start + base)) in
      let value : get_elem? bytes (pos - (rg.start + base)) ≡ (
          if ltb (pos - (rg.start + base)) (rg.end - rg.start)
          then get_elem? entry.content (rg.start + (pos - (rg.start + base)))
          else none) =
        ap (λ xs. get_elem? xs (pos - (rg.start + base))) (sym is_bytes)
        ∙ ground (arith, cut, moved) in
      elim (Bool-cases (leb base pos && covers rs (pos - base))) [
        | inl later ↦ ground arith
        | inr not_later ↦ elim (Bool-cases (leb (rg.start + base) pos && ltb pos (rg.end + base))) [
          | inl here ↦
              let at : rg.start + (pos - (rg.start + base)) ≡ pos - base = ground arith in
              let value' =
                value
                ∙ ap
                    (λ (n : ℕ).
                      if ltb (pos - (rg.start + base)) (rg.end - rg.start)
                      then get_elem? entry.content n
                      else none)
                    at in
              ground arith
          | inr elsewhere ↦ ground arith
        ]
      ]

  ranges_go :
      (rg : Range) (rs : List Range) (fl fl₁ : Flushing S) (code : ℕ)
      → flush_round backend f block_size b entry rg fl ≡ ok (code, fl₁)
      → (code == 0) ≡ true
      → flush_ranges backend f block_size b entry (rg ∷ rs) fl
        ≡ flush_ranges backend f block_size b entry rs fl₁
  unfolding flush_ranges
  ranges_go rg rs fl fl₁ code run done = rw (run, ◌>>=◌, done) refl

  ranges_stop :
      (rg : Range) (rs : List Range) (fl fl₁ : Flushing S) (code : ℕ)
      → flush_round backend f block_size b entry rg fl ≡ ok (code, fl₁)
      → (code == 0) ≡ false
      → flush_ranges backend f block_size b entry (rg ∷ rs) fl ≡ ok (code, fl₁)
  unfolding flush_ranges
  ranges_stop rg rs fl fl₁ code run failed = rw (run, ◌>>=◌, failed) refl

  ranges_next :
      (base : ℕ) (rg : Range) (rs : List Range) (bytes : List ℕ) (fl : Flushing S)
      → rg.start < rg.end
      → rg.end ≤ length entry.content
      → take (rg.end - rg.start) (drop rg.start entry.content) ≡ bytes
      → (code : ℕ) × (fl₁ : Flushing S) × (flush_round backend f block_size b entry rg fl
          ≡ ok (code, fl₁))
        × (Refused backend code fl₁.behind
            ⊎ ((code ≡ 0) × Added backend bound remote stores f fl fl₁ (rg.start + base) bytes))
      → ((fl₁ : Flushing S)
          → Ready bound fl₁
          → Reaches backend bound remote f
              (flush_ranges backend f block_size b entry rs fl₁)
              (with_ranges f entry base rs (pending remote f fl₁)))
      → Reaches backend bound remote f
          (flush_ranges backend f block_size b entry (rg ∷ rs) fl)
          (with_ranges f entry base (rg ∷ rs) (pending remote f fl))
  ranges_next base rg rs bytes fl order fits is_bytes (code, fl₁, run, inl failed) next =
      (code, fl₁, ranges_stop rg rs fl fl₁ code run (ground arith), inl failed)
  ranges_next base rg rs bytes fl order fits is_bytes (code, fl₁, run, inr (done, added)) next =
      let (code', fl', run', effect) = next fl₁ added.ready in
      (
        code',
        fl',
        ranges_go rg rs fl fl₁ code run (ground arith) ∙ run',
        elim effect [
          | inl failed ↦ inl failed
          | inr (done', ready, all) ↦ inr (
            done',
            ready,
            λ g pos.
                all g pos
                ∙ ranges_step base rg rs bytes (pending remote f fl) (pending remote f fl₁) g pos
                    order fits is_bytes (added.adds g pos),
          )
        ],
      )

  -- The inner loop adds the valid bytes of the block to what is pending, unless a write-back fails.
  pub flush_ranges_lem :
      (base : ℕ) (ranges : List Range) (lo : ℕ) (fl : Flushing S)
      → b * block_size ≡ base
      → base + block_size < bound
      → length entry.content ≡ block_size
      → From lo ranges
      → Within block_size ranges
      → Ready bound fl
      → Reaches backend bound remote f
          (flush_ranges backend f block_size b entry ranges fl)
          (with_ranges f entry base ranges (pending remote f fl))
  unfolding with_ranges covers
  flush_ranges_lem base [] lo fl at_base fits whole order within ready =
      (0, fl, unfold flush_ranges in refl, inr (refl, ready, λ g pos. ground arith))
  flush_ranges_lem base (rg ∷ rs) lo fl at_base fits whole order within ready =
      let bytes : List ℕ = take (rg.end - rg.start) (drop rg.start entry.content) in
      let len = length-take (rg.end - rg.start) (drop rg.start entry.content) in
      let len' = length-drop rg.start entry.content in
      ranges_next base rg rs bytes fl order.1 (omega arith) refl
        (flush_round_lem rg (rg.start + base) (rg.end + base) bytes fl
          (omega (arith, stores.within)) (omega (arith, stores.within)) refl (omega arith)
          (omega arith) (omega arith) ready)
        (λ fl₁ ready₁.
          flush_ranges_lem base rs (rg.end + 1) fl₁ at_base fits whole order.2 within.1 ready₁)
