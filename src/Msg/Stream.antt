-- ===== src/Msg/Stream.antt =====
-- Messages on a stream: `serializeMsg` and `unserializeMsg` of common/msg.cpp, at both ends.
use net_fs.Prelude.{
  ℕ, ◌<◌, ◌≤◌, ◌^◌, List, [], ◌∷◌, ◌++◌, ok, err, end_of_stream, out_of_range, ◌≡◌, refl, sym, ap,
  ◌∙◌, arith, false,
}
use net_fs.Serial.{Reader, serialize_pod, unserialize_pod}
use net_fs.Serial.Codec.{AreBytes, bind_ok}
use net_fs.Serial.Laws.{pod-IsCodec}
use net_fs.Msg.{Msg, serialize_msg, unserialize_msg, unserializor_lookup, at}
use net_fs.Msg.Codec.{FitsMsg, msg-IsCodec, has}

-- Every message whose fields fit their types is read back from the bytes that are written for it,
-- and the reader leaves whatever follows on the stream.
pub unserialize_msg-serialize_msg :
    (m : Msg) (rest : List ℕ) → FitsMsg m → unserialize_msg (serialize_msg m ++ rest) ≡ ok (m, rest)
unserialize_msg-serialize_msg m rest f = msg-IsCodec.round_trip m f rest

-- Bytes are read as a message only if they begin with exactly the bytes that are written for it;
-- the message that is read has fields that fit their types.
pub serialize_msg-unserialize_msg :
    (s : List ℕ) (m : Msg) (rest : List ℕ)
    → AreBytes s
    → unserialize_msg s ≡ ok (m, rest)
    → FitsMsg m × (s ≡ serialize_msg m ++ rest)
serialize_msg-unserialize_msg s m rest a h =
    let (f, e, _) = msg-IsCodec.exact s m rest a h in (f, e)

-- A message of which the last byte or more is missing is never read as another message: the reader
-- runs into the end of the stream.
pub unserialize_msg-cut_short :
    (m : Msg) (p : List ℕ) (b : ℕ) (q : List ℕ)
    → FitsMsg m
    → serialize_msg m ≡ p ++ b ∷ q
    → unserialize_msg p ≡ err end_of_stream
unserialize_msg-cut_short m p b q f h = msg-IsCodec.cut_short m f p b q h

at_absent :
    (type : ℕ) (table : List (ℕ × Reader Msg)) (s : List ℕ)
    → has type table ≡ false
    → at type table s ≡ err out_of_range
unfolding at
at_absent type [] s h = refl
at_absent type ((t, creator) ∷ table) s h = ground (arith, at_absent type table s)

-- A type from 24 up is in no enumerator's place: reading it stops with the exception of `at`.
pub unserialize_msg-unknown :
    (type : ℕ) (rest : List ℕ)
    → 24 ≤ type
    → type < 2 ^ 32
    → unserialize_msg (serialize_pod 4 type ++ rest) ≡ err out_of_range
unfolding unserialize_msg
unserialize_msg-unknown type rest h k =
    bind_ok (unserialize_pod 4) (λ t. at t unserializor_lookup) _ rest type
      ((pod-IsCodec 4).round_trip type k rest)
    ∙ at_absent type unserializor_lookup rest (unfold unserializor_lookup in ground arith)

-- Where one message ends is determined: two messages that begin the same bytes are the same, and so
-- is what follows them.
pub serialize_msg-injective :
    (m m' : Msg) (rest rest' : List ℕ)
    → FitsMsg m
    → FitsMsg m'
    → serialize_msg m ++ rest ≡ serialize_msg m' ++ rest'
    → (m ≡ m') × (rest ≡ rest')
serialize_msg-injective m m' rest rest' f f' h =
    let same =
      sym (unserialize_msg-serialize_msg m rest f)
      ∙ ap unserialize_msg h
      ∙ unserialize_msg-serialize_msg m' rest' f' in
    (cc, cc)
