-- ===== src/NetFs/Staleness.antt =====
-- How `do_write` and `do_write_attr` of client_src/netfs.cpp find out that another client has
-- changed a file.
use net_fs.Prelude.{
  ℕ, List, ◌==◌, ==_iff, Bool, true, false, if◌then◌else◌, ok, ◌>>=◌, ◌≡◌, ◌↔◌, refl, ap, sym,
  arith, Bool-cases, inl, inr,
}
use net_fs.Time.{FileTime, file_time_eq, file_time_ne, file_time_eq_iff}
use net_fs.Msg.{write, write_resp, truncate, truncate_resp}
use net_fs.Msg.Write.{MsgWriteResp}
use net_fs.Msg.Truncate.{MsgTruncateResp}
use net_fs.Cache.State.{FileAttr}
use net_fs.NetFs.State.{Peer, Link, exchange, next_link, as_write, as_truncate}
use net_fs.NetFs.Remote.{do_write, do_write_attr, marked}

-- Nothing speaks for a change by another client: the file was not stale, the request succeeded, and
-- before it the file had the modification and change times that were cached.
abbrev pub Undisturbed : Bool → ℕ → FileTime → FileTime → Type 0
Undisturbed stale error before cached =
    (stale ≡ false) × (error ≡ 0) × (before.mtime ≡ cached.mtime) × (before.ctime ≡ cached.ctime)

marked_iff :
    (before cached : FileTime) (stale : Bool)
    → (marked before cached stale ≡ false)
      ↔ ((stale ≡ false) × (before.mtime ≡ cached.mtime) × (before.ctime ≡ cached.ctime))
unfolding file_time_ne
marked_iff before cached stale =
    let same = file_time_eq_iff before cached in
    elim (Bool-cases (file_time_eq before cached)) [
      | inl equal ↦ let (m, c) = same.0 equal in (λ h. (ground arith, m, c), λ h. ground arith)
      | inr other ↦
          (λ h. absurd (ground arith), λ h. absurd (let e = same.1 (h.1, h.2) in ground arith))
    ]

-- The stale mark after a request.
abbrev mark_after : ℕ → FileTime → FileTime → Bool → Bool
mark_after error before cached stale = if error == 0 then marked before cached stale else true

mark_after-Undisturbed :
    (error : ℕ) (before cached : FileTime) (stale : Bool)
    → (mark_after error before cached stale ≡ false) ↔ Undisturbed stale error before cached
mark_after-Undisturbed error before cached stale =
    let same = marked_iff before cached stale in
    elim (Bool-cases (error == 0)) [
      | inl zero_code ↦
          let done : error ≡ 0 = (==_iff error 0).0 zero_code in
          (
            λ h. let (s, m, c) = same.0 (rw zero_code at h) in (s, done, m, c),
            λ (s, e, m, c). rw zero_code (same.1 (s, m, c)),
          )
      | inr failed ↦ (λ h. absurd (ground arith), λ (s, e, m, c). absurd (ground arith))
    ]

module _ {P : Type 0} (peer : Peer P) (f : List ℕ) (stale : Bool) (link : Link P) (p : P) where
  -- When the server answers with a response to the message, `do_write` returns its error code; the
  -- file is then not stale exactly if it was not stale before, the write succeeded, and the times
  -- of modification and change before it were the cached ones. The cached times become those after
  -- the write if it succeeded, and stay otherwise.
  pub do_write_lem :
      (offset : ℕ) (buf : List ℕ) (cached : FileTime) (r : MsgWriteResp)
      → peer
          (write (record { id = link.msg_id; filename = f; offset = offset; content = buf }))
          link.behind
        ≡ ok (write_resp r, p)
      → r.id ≡ link.msg_id
      → (time : FileTime) × (stale' : Bool) × (do_write peer f offset buf cached stale link
          ≡ ok (r.error, time, stale', next_link link p))
        × (time ≡ (if r.error == 0 then r.after_change else cached))
        × ((stale' ≡ false) ↔ Undisturbed stale r.error r.before_change cached)
  unfolding do_write exchange as_write
  do_write_lem offset buf cached r reply same_id =
      let passes : (r.id == link.msg_id) ≡ true = ground arith in
      (
        (if r.error == 0 then r.after_change else cached),
        mark_after r.error r.before_change cached stale,
        elim (Bool-cases (r.error == 0)) [
          | inl zero_code ↦
              let done : r.error ≡ 0 = (==_iff r.error 0).0 zero_code in
              rw (reply, ◌>>=◌, passes, zero_code)
                (ap
                  (λ (n : ℕ).
                    ok (n, r.after_change, marked r.before_change cached stale, next_link link p))
                  (sym done))
          | inr failed ↦ rw (reply, ◌>>=◌, passes, failed) refl
        ],
        refl,
        mark_after-Undisturbed r.error r.before_change cached stale,
      )

  -- `do_write_attr` finds out in the same way, from the times in the response to its request; of
  -- the attributes it changes the times alone.
  pub do_write_attr_lem :
      (attr : FileAttr) (r : MsgTruncateResp)
      → peer (truncate (record { id = link.msg_id; filename = f; offset = attr.size })) link.behind
        ≡ ok (truncate_resp r, p)
      → r.id ≡ link.msg_id
      → (attr' : FileAttr) × (stale' : Bool) × (do_write_attr peer f attr stale link
          ≡ ok (r.error, attr', stale', next_link link p))
        × (attr' ≡ record attr { time = if r.error == 0 then r.after_change else attr.time })
        × ((stale' ≡ false) ↔ Undisturbed stale r.error r.before_change attr.time)
  unfolding do_write_attr exchange as_truncate
  do_write_attr_lem attr r reply same_id =
      let passes : (r.id == link.msg_id) ≡ true = ground arith in
      (
        record attr { time = if r.error == 0 then r.after_change else attr.time },
        mark_after r.error r.before_change attr.time stale,
        elim (Bool-cases (r.error == 0)) [
          | inl zero_code ↦
              let done : r.error ≡ 0 = (==_iff r.error 0).0 zero_code in
              rw (reply, ◌>>=◌, passes, zero_code)
                (ap
                  (λ (n : ℕ). ok (
                    n,
                    record attr { time = r.after_change },
                    marked r.before_change attr.time stale,
                    next_link link p,
                  ))
                  (sym done))
          | inr failed ↦ rw (reply, ◌>>=◌, passes, failed) refl
        ],
        refl,
        mark_after-Undisturbed r.error r.before_change attr.time stale,
      )
