-- ===== src/Server/Tests.antt =====
-- Tests of the responders of server_src/msg_response.cpp, and their theorems at concrete inputs.
use net_fs.Prelude.{
  length, List, ◌+◌, ◌<◌, take, drop, replicate, length-replicate, length-take, length-drop,
  length-append, get_elem?, get_elem?-take, get_elem?-drop, get_elem?-append, get_elem?_beyond, ltb,
  Bool-cases, inl, inr, ap, sym, ◌∙◌, ℕ, suc, ◌^◌, [], ◌∷◌, ◌++◌, true, false, err, ◌≡◌, ◌⊎◌, refl,
  arith,
}
use net_fs.Msg.{Msg, write}
use net_fs.Time.{FileTime}
use net_fs.Server.Responders.{FileOp, resize, respond}
use net_fs.Cache.Fetch.{Serves}
use net_fs.NetFs.Remote.{callbacks}
use net_fs.NetFs.Serving.{byte_or_zero}
use net_fs.Server.Reading.{ReadsDisk, respond-Serves}
use net_fs.Server.Answers.{Answer, is_request, refusal, respond_lem}

abbrev pub time : FileTime
time = record {
  atime = record { time_sec = 1; time_nsec = 0 };
  ctime = record { time_sec = 2; time_nsec = 0 };
  mtime = record { time_sec = 3; time_nsec = 0 };
}

-- A file system on which nothing is allowed.
abbrev pub refusing : FileOp ℕ
refusing = record {
  op_access = λ f s. (13, time, suc s);
  op_creat = λ f s. (13, suc s);
  op_stat = λ f s. (
    13,
    record {
      st_size = 0;
      st_mode = 0;
      st_atim = time.atime;
      st_mtim = time.mtime;
      st_ctim = time.ctime;
    },
    suc s,
  );
  op_statfs = λ s. (
    13,
    record {
      bsize = 0;
      frsize = 0;
      blocks = 0;
      bfree = 0;
      bavail = 0;
      files = 0;
      ffree = 0;
      namemax = 0;
    },
    suc s,
  );
  op_readdir = λ f s. (13, [], suc s);
  op_read = λ f offset buf s. (13, buf, 0, suc s);
  op_write = λ f offset buf s. (13, time, time, suc s);
  op_truncate = λ f offset s. (13, time, time, suc s);
  op_unlink = λ f s. (13, suc s);
  op_rmdir = λ f s. (13, suc s);
  op_mkdir = λ f mode s. (13, suc s);
  op_rename = λ from to flags s. (13, suc s);
}

abbrev request : Msg
request = write (record { id = 7; filename = b'a' ∷ []; offset = 2; content = 1 ∷ [] })

respond_lem_example :
    ((is_request request ≡ true) × Answer refusing request 0)
    ⊎ ((is_request request ≡ false) × (respond refusing request 0 ≡ err (refusal request)))
respond_lem_example = respond_lem refusing request 0

resized : resize 3 (5 ∷ []) ≡ 5 ∷ 0 ∷ 0 ∷ []
unfolding resize
resized = refl

abbrev file_bytes : List ℕ
file_bytes = 72 ∷ 105 ∷ 33 ∷ []

abbrev remote : List ℕ → ℕ → ℕ
remote f pos = byte_or_zero (get_elem? file_bytes pos)

abbrev there : ℕ → ℕ → List ℕ
there offset size = take size (drop offset file_bytes)

-- A file system on which every file has these bytes and nothing else is allowed.
abbrev disk : FileOp ℕ
disk = record refusing {
  op_read = λ f offset buf s.
      let bytes : List ℕ = there offset (length buf) in
      (0, bytes ++ drop (length bytes) buf, length bytes, suc s);
}

taken : (xs ys : List ℕ) (i : ℕ) → get_elem? (take (length xs) (xs ++ ys)) i ≡ get_elem? xs i
taken xs ys i =
    let both = get_elem?-append xs ys i in
    let cut = get_elem?-take (length xs) (xs ++ ys) i in
    elim (Bool-cases (ltb i (length xs))) [
      | inl inner ↦ cut ∙ rw inner (both ∙ rw inner refl)
      | inr beyond ↦ let past = get_elem?_beyond xs i (ground arith) in cut ∙ rw beyond (sym past)
    ]

byte_there :
    (offset size i : ℕ)
    → i < size
    → get_elem? (there offset size) i ≡ get_elem? file_bytes (offset + i)
byte_there offset size i h =
    let inner : ltb i size ≡ true = ground arith in
    get_elem?-take size (drop offset file_bytes) i ∙ rw inner (get_elem?-drop offset file_bytes i)

disk-ReadsDisk : ReadsDisk disk (2 ^ 63) remote
disk-ReadsDisk = record {
  within = omega arith;
  reads = λ f offset size s below.
      let zeros : List ℕ = replicate size 0 in
      let len : length zeros ≡ size = length-replicate size 0 in
      let bytes : List ℕ = there offset (length zeros) in
      let count = length-take (length zeros) (drop offset file_bytes) in
      (
        0,
        bytes ++ drop (length bytes) zeros,
        length bytes,
        suc s,
        refl,
        omega (arith, len, count),
        omega (
          arith,
          len,
          count,
          length-append bytes (drop (length bytes) zeros),
          length-drop (length bytes) zeros,
        ),
        inr (λ i h. ap byte_or_zero {y = get_elem? file_bytes (offset + i)} (
            taken bytes (drop (length bytes) zeros) i
            ∙ byte_there offset (length zeros) i (omega (arith, len)))),
      );
}

respond-Serves_example : Serves (callbacks (respond disk)) (2 ^ 63) remote
respond-Serves_example = respond-Serves disk (2 ^ 63) remote disk-ReadsDisk
