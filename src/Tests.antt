-- ===== src/Tests.antt =====
-- Tests of the definitions, and the theorems at concrete inputs.
use net_fs.Prelude.{
  ℕ, List, [], ◌∷◌, ◌++◌, ok, err, end_of_stream, out_of_range, ◌≡◌, refl, arith, ◌↔◌, true, leb,
  ltb, ◌&&◌, ◌||◌, if◌then◌else◌, get_elem?, length,
}
use net_fs.Range.{Range, insert_range, overlay}
use net_fs.Range.Sorted.{IsSorted, covers, insert_range-IsSorted}
use net_fs.Range.Overlay.{overlay_lem}
use net_fs.Serial.{serialize_pod, unserialize_pod, serialize_string, unserialize_string}
use net_fs.Time.{FileTime, file_time_eq, file_time_eq_iff}
use net_fs.Msg.{Msg, rename, msg_type, serialize_body, serialize_msg, unserialize_msg}
use net_fs.Msg.Rename.{serialize_rename, unserialize_rename}
use net_fs.Msg.Codec.{FitsMsg}
use net_fs.Msg.Stream.{
  unserialize_msg-serialize_msg, serialize_msg-unserialize_msg, unserialize_msg-cut_short,
  serialize_msg-injective, unserialize_msg-unknown,
}

-- The ranges of `TEST(range, overlap1)` in utest_src/range.cpp before its last insertion.
abbrev ranges : List Range
ranges =
    record { start = 5; end = 8 }
    ∷ record { start = 10; end = 20 }
    ∷ record { start = 30; end = 50 }
    ∷ record { start = 100; end = 200 }
    ∷ []

overlap1 :
    insert_range 20 30 ranges
    ≡ ok (
        record { start = 5; end = 8 }
        ∷ record { start = 10; end = 50 }
        ∷ record { start = 100; end = 200 }
        ∷ [])
unfolding insert_range
overlap1 = refl

overlap3 : insert_range 1 1000 ranges ≡ ok (record { start = 1; end = 1000 } ∷ [])
unfolding insert_range
overlap3 = refl

overlap4 :
    insert_range 200 205 ranges
    ≡ ok (
        record { start = 5; end = 8 }
        ∷ record { start = 10; end = 20 }
        ∷ record { start = 30; end = 50 }
        ∷ record { start = 100; end = 205 }
        ∷ [])
unfolding insert_range
overlap4 = refl

ranges-IsSorted : IsSorted ranges
ranges-IsSorted = omega arith

insert_range-IsSorted_example :
    (after : List Range) × (insert_range 20 30 ranges ≡ ok after)
    × IsSorted after
    × ((x : ℕ) → covers after x ≡ (covers ranges x || (leb 20 x && ltb x 30)))
insert_range-IsSorted_example = insert_range-IsSorted 20 30 ranges (omega arith) ranges-IsSorted

abbrev two_ranges : List Range
two_ranges = record { start = 0; end = 1 } ∷ record { start = 2; end = 3 } ∷ []

overlay_lem_example :
    (out : List ℕ) × (overlay (1 ∷ 2 ∷ 3 ∷ []) two_ranges (7 ∷ 8 ∷ 9 ∷ []) ≡ ok out)
    × (length out ≡ 3)
    × ((x : ℕ)
        → get_elem? out x ≡ (
            if covers two_ranges x
            then get_elem? (1 ∷ 2 ∷ 3 ∷ []) x
            else get_elem? (7 ∷ 8 ∷ 9 ∷ []) x))
overlay_lem_example = overlay_lem (1 ∷ 2 ∷ 3 ∷ []) two_ranges (7 ∷ 8 ∷ 9 ∷ []) (omega arith) refl

overlay_two : overlay (1 ∷ 2 ∷ 3 ∷ []) two_ranges (7 ∷ 8 ∷ 9 ∷ []) ≡ ok (1 ∷ 8 ∷ 3 ∷ [])
unfolding overlay
overlay_two = refl

abbrev early : FileTime
early = record {
  atime = record { time_sec = 1; time_nsec = 0 };
  ctime = record { time_sec = 2; time_nsec = 0 };
  mtime = record { time_sec = 3; time_nsec = 0 };
}

abbrev accessed : FileTime
accessed = record early { atime = record { time_sec = 9; time_nsec = 0 } }

file_time_eq_iff_example :
    (file_time_eq early accessed ≡ true)
    ↔ ((early.mtime ≡ accessed.mtime) × (early.ctime ≡ accessed.ctime))
file_time_eq_iff_example = file_time_eq_iff early accessed

abbrev move : Msg
move = rename (record { id = 7; from = b'a' ∷ []; to = b'b' ∷ b'c' ∷ []; flags = 1 })

abbrev move_bytes : List ℕ
move_bytes =
    22 ∷ 0 ∷ 0 ∷ 0 ∷ 7 ∷ 0 ∷ 0 ∷ 0 ∷ 1 ∷ 0 ∷ 0 ∷ 0 ∷ 97 ∷ 2 ∷ 0 ∷ 0 ∷ 0 ∷ 98 ∷ 99 ∷ 1 ∷ 0 ∷ 0 ∷ 0
    ∷ []

move_on_stream : serialize_msg move ≡ move_bytes
unfolding serialize_msg msg_type serialize_body serialize_rename serialize_pod serialize_string
move_on_stream = refl

move_read : unserialize_msg move_bytes ≡ ok (move, [])
unfolding unserialize_msg unserialize_rename unserialize_pod unserialize_string
move_read = refl

move_fits : FitsMsg move
move_fits = omega arith

unserialize_msg-serialize_msg_example :
    unserialize_msg (serialize_msg move ++ 5 ∷ 6 ∷ []) ≡ ok (move, 5 ∷ 6 ∷ [])
unserialize_msg-serialize_msg_example = unserialize_msg-serialize_msg move (5 ∷ 6 ∷ []) move_fits

serialize_msg-unserialize_msg_example : FitsMsg move × (move_bytes ≡ serialize_msg move ++ [])
serialize_msg-unserialize_msg_example =
    serialize_msg-unserialize_msg move_bytes move [] (omega arith) move_read

unserialize_msg-cut_short_example : unserialize_msg (22 ∷ 0 ∷ 0 ∷ 0 ∷ 7 ∷ []) ≡ err end_of_stream
unserialize_msg-cut_short_example =
    unserialize_msg-cut_short move (22 ∷ 0 ∷ 0 ∷ 0 ∷ 7 ∷ []) 0
      (0 ∷ 0 ∷ 1 ∷ 0 ∷ 0 ∷ 0 ∷ 97 ∷ 2 ∷ 0 ∷ 0 ∷ 0 ∷ 98 ∷ 99 ∷ 1 ∷ 0 ∷ 0 ∷ 0 ∷ []) move_fits
      move_on_stream

serialize_msg-injective_example : (move ≡ move) × (◌≡◌ {A = List ℕ} (1 ∷ []) (1 ∷ []))
serialize_msg-injective_example =
    serialize_msg-injective move move (1 ∷ []) (1 ∷ []) move_fits move_fits refl

unserialize_msg-unknown_example : unserialize_msg (serialize_pod 4 24 ++ 0 ∷ []) ≡ err out_of_range
unserialize_msg-unknown_example = unserialize_msg-unknown 24 (0 ∷ []) (omega arith) (omega arith)
