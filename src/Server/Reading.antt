-- ===== src/Server/Reading.antt =====
-- The server of server_src/msg_response.cpp as the other side of `do_read` in client_src/netfs.cpp.
use net_fs.Prelude.{
  ℕ, List, [], ◌++◌, ◌+◌, ◌-◌, ◌<◌, ◌≤◌, ◌^◌, true, length, take, replicate, length-take,
  length-append, get_elem?, get_elem?-append, get_elem?_beyond, ltb, ok, ◌≡◌, ◌≢◌, ◌⊎◌, inl, inr,
  refl, ap, sym, ◌∙◌, arith, Bool-cases,
}
use net_fs.Msg.{read, read_resp}
use net_fs.Msg.Read.{MsgRead}
use net_fs.Cache.Fetch.{Serves}
use net_fs.NetFs.Remote.{callbacks}
use net_fs.NetFs.Serving.{byte_or_zero, ReadsFile, callbacks-Serves}
use net_fs.Server.Responders.{FileOp, resize, respond, respond_read}

-- What `FileOp::read` promises below a bound: it reads no more than was asked for into a buffer
-- that keeps its size, and without an error the bytes are those of the file; what is left out is
-- zero.
pub record ReadsDisk {S : Type 0} (op : FileOp S) (bound : ℕ) (remote : List ℕ → ℕ → ℕ)
    : Type 0 where
  pub within : bound ≤ 2 ^ 63
  pub reads :
      (f : List ℕ) (offset size : ℕ) (s : S)
      → offset + size < bound
      → (error : ℕ) × (bytes : List ℕ) × (n : ℕ) × (s' : S) × (op.op_read f offset
            (replicate size 0)
            s
          ≡ (error, bytes, n, s'))
        × (n ≤ size)
        × (length bytes ≡ size)
        × ((error ≢ 0)
            ⊎ ((i : ℕ)
                → i < size
                → byte_or_zero (get_elem? (take n bytes) i) ≡ remote f (offset + i)))

get_elem?-append_nil : (xs : List ℕ) (i : ℕ) → get_elem? (xs ++ []) i ≡ get_elem? xs i
get_elem?-append_nil xs i = elim (Bool-cases (ltb i (length xs))) [
  | inl inner ↦ get_elem?-append xs [] i ∙ rw inner refl
  | inr beyond ↦
      let past = get_elem?_beyond xs i (ground arith) in
      get_elem?-append xs [] i ∙ rw beyond (sym past)
]

-- A buffer that is cut to what was read.
resize_shorter : (n : ℕ) (bytes : List ℕ) → n ≤ length bytes → resize n bytes ≡ take n bytes ++ []
unfolding resize
resize_shorter n bytes h =
    let none_left : n - length bytes ≡ 0 = omega arith in
    ap (λ (k : ℕ). take n bytes ++ replicate k 0) none_left

respond-read_run :
    {S : Type 0} (op : FileOp S) (m : MsgRead) (s : S) (error n : ℕ) (bytes : List ℕ) (s' : S)
    → m.size < 2 ^ 63
    → op.op_read m.filename m.offset (replicate m.size 0) s ≡ (error, bytes, n, s')
    → respond op (read m) s
      ≡ ok (read_resp (record { id = m.id; error = error; content = resize n bytes }), s')
unfolding respond respond_read
respond-read_run op m s error n bytes s' small h =
    let fits : ltb m.size (2 ^ 63) ≡ true = ground arith in rw (respond_read, fits, h) refl

respond-ReadsFile :
    {S : Type 0} (op : FileOp S) (bound : ℕ) (remote : List ℕ → ℕ → ℕ)
    → ReadsDisk op bound remote
    → ReadsFile (respond op) bound remote
respond-ReadsFile op bound remote disk = record {
  within = disk.within;
  answers = λ m s below.
      let (error, bytes, n, s', run, no_more, len, values) =
        disk.reads m.filename m.offset m.size s below in
      let cut = resize_shorter n bytes (omega arith) in
      let size : length (resize n bytes) ≡ length (take n bytes ++ []) = ap length cut in
      (
        record { id = m.id; error = error; content = resize n bytes },
        s',
        respond-read_run op m s error n bytes s' (omega (arith, disk.within)) run,
        omega (arith, size, length-append (take n bytes) [], length-take n bytes),
        elim values [
          | inl failed ↦ inl failed
          | inr given ↦ inr (λ i h.
              ap byte_or_zero
                (ap (λ (xs : List ℕ). get_elem? xs i) cut ∙ get_elem?-append_nil (take n bytes) i)
              ∙ given i h)
        ],
      );
}

-- When the file operations of the server read as they promise below a bound, the client's
-- callbacks over the server's responders serve the cache below it as its reads need it.
pub respond-Serves :
    {S : Type 0} (op : FileOp S) (bound : ℕ) (remote : List ℕ → ℕ → ℕ)
    → ReadsDisk op bound remote
    → Serves (callbacks (respond op)) bound remote
respond-Serves op bound remote disk =
    callbacks-Serves (respond op) bound remote (respond-ReadsFile op bound remote disk)
