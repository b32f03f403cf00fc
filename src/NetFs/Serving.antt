-- ===== src/NetFs/Serving.antt =====
-- `do_read` of client_src/netfs.cpp as the callback for content of the cache.
use net_fs.Prelude.{
  ℕ, zero, suc, List, ◌++◌, ◌+◌, ◌-◌, ◌%◌, ◌^◌, ◌<◌, ◌≤◌, length, drop, replicate, length-replicate,
  length-append, length-drop, get_elem?, get_elem?-append, get_elem?-drop, get_elem?_within,
  get_elem?_beyond, leb, ltb, ◌==◌, true, false, Option, none, some, ok, ◌>>=◌, ◌≡◌, ◌≢◌, ◌⊎◌, inl,
  inr, refl, ap, ◌∙◌, arith, Bool-cases,
}
use net_fs.Msg.{read, read_resp}
use net_fs.Msg.Read.{MsgRead, MsgReadResp}
use net_fs.Cache.Fetch.{Serves, without_error}
use net_fs.NetFs.State.{Peer, Link, exchange, as_read}
use net_fs.NetFs.Remote.{do_read, callbacks}

-- The byte at an index, or zero behind the end.
abbrev pub byte_or_zero : Option ℕ → ℕ
byte_or_zero none = 0
byte_or_zero (some b) = b

-- The other side answers a request to read below a bound with a response to it, which has no more
-- bytes than were asked for, also with an error; without one they are those of the file, and what
-- it leaves out is zero.
pub record ReadsFile {P : Type 0} (peer : Peer P) (bound : ℕ) (remote : List ℕ → ℕ → ℕ)
    : Type 0 where
  pub within : bound ≤ 2 ^ 63
  pub answers :
      (m : MsgRead) (p : P)
      → m.offset + m.size < bound
      → (r : MsgReadResp) × (p' : P) × (peer (read m) p ≡ ok (read_resp r, p'))
        × (length r.content ≤ m.size)
        × ((r.error ≢ 0)
            ⊎ ((i : ℕ)
                → i < m.size
                → byte_or_zero (get_elem? r.content i) ≡ remote m.filename (m.offset + i)))

abbrev zeros : ℕ → List ℕ
zeros n = replicate n 0

get_elem?-zeros : (n i : ℕ) → i < n → get_elem? (zeros n) i ≡ some 0
get_elem?-zeros zero i h = absurd (omega arith)
get_elem?-zeros (suc n) zero h = refl
get_elem?-zeros (suc n) (suc i) h = get_elem?-zeros n i (omega arith)

-- Bytes put over the front of zeros.
over_zeros :
    (bytes : List ℕ) (n i : ℕ)
    → i < n
    → get_elem? (bytes ++ drop (length bytes) (zeros n)) i ≡ some (byte_or_zero (get_elem? bytes i))
over_zeros bytes n i h =
    let both = get_elem?-append bytes (drop (length bytes) (zeros n)) i in
    elim (Bool-cases (ltb i (length bytes))) [
      | inl inner ↦
          let (b, there) = get_elem?_within bytes i (ground arith) in both ∙ rw (inner, there) refl
      | inr beyond ↦
          let past = get_elem?-drop (length bytes) (zeros n) (i - length bytes) in
          let place : length bytes + (i - length bytes) ≡ i = ground arith in
          let nothing = get_elem?_beyond bytes i (ground arith) in
          both
          ∙ rw (beyond, nothing) (past ∙ ap (get_elem? (zeros n)) place ∙ get_elem?-zeros n i h)
    ]

module _ {P : Type 0} (peer : Peer P) (f : List ℕ) (offset : ℕ) (buf : List ℕ) (link : Link P)
    (r : MsgReadResp) (p : P)
    (reply : peer
        (read (record { id = link.msg_id; filename = f; offset = offset; size = length buf }))
        link.behind
      ≡ ok (read_resp r, p))
    (bound : length r.content ≤ length buf) where
  abbrev next : Link P
  next = record { msg_id = (link.msg_id + 1) % 2 ^ 32; behind = p }

  passes : leb (length r.content) (length buf) ≡ true
  passes = ground arith

  do_read_ok :
      r.error ≡ 0
      → do_read peer f offset buf link
        ≡ ok (0, r.content ++ drop (length r.content) buf, length r.content, next)
  unfolding do_read exchange as_read
  do_read_ok e =
      let done : (r.error == 0) ≡ true = ground arith in rw (reply, ◌>>=◌, passes, done) refl

  do_read_error : r.error ≢ 0 → do_read peer f offset buf link ≡ ok (r.error, buf, 0, next)
  unfolding do_read exchange as_read
  do_read_error e =
      let failed : (r.error == 0) ≡ false = ground arith in rw (reply, ◌>>=◌, passes, failed) refl

-- With a server that answers requests to read below a bound, the callbacks of the client serve
-- the cache below it as its reads need it: `read_lem` and `read-write` of the cache hold for
-- them.
pub callbacks-Serves :
    {P : Type 0} (peer : Peer P) (bound : ℕ) (remote : List ℕ → ℕ → ℕ)
    → ReadsFile peer bound remote
    → Serves (callbacks peer) bound remote
unfolding callbacks
callbacks-Serves {P} peer bound remote file = record {
  within = file.within;
  replies = λ f offset size link below.
      let m : MsgRead = record {
        id = link.msg_id;
        filename = f;
        offset = offset;
        size = length (zeros size);
      } in
      let len : length (zeros size) ≡ size = length-replicate size 0 in
      let (r, p, reply, no_more, bytes) = file.answers m link.behind (omega (arith, len)) in
      elim (Bool-cases (r.error == 0)) [
        | inl done ↦ (
          0,
          r.content ++ drop (length r.content) (zeros size),
          length r.content,
          next peer f offset (zeros size) link r p reply no_more,
          do_read_ok peer f offset (zeros size) link r p reply no_more (ground arith),
          inr (
            omega (
              arith,
              length-append r.content (drop (length r.content) (zeros size)),
              length-drop (length r.content) (zeros size),
            ),
            λ i h.
                over_zeros r.content size i h
                ∙ ap (λ (b : ℕ). some b)
                    (without_error bytes (ground arith) i (omega (arith, len))),
          ),
        )
        | inr failed ↦ (
          r.error,
          zeros size,
          0,
          next peer f offset (zeros size) link r p reply no_more,
          do_read_error peer f offset (zeros size) link r p reply no_more (ground arith),
          inl (ground arith),
        )
      ];
}
