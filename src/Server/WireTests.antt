-- ===== src/Server/WireTests.antt =====
-- Tests of the loops of server_src/StorageServerConnection.cpp, and their theorems at concrete
-- inputs.
use net_fs.Prelude.{ℕ, List, [], ◌∷◌, ◌++◌, length, take, Result, ok, ◌<◌, ◌≤◌, ◌≡◌, refl, arith}
use net_fs.Msg.{Msg, access, mkdir}
use net_fs.Server.Connection.{Socket, int_of, receive_loop, unserial_reader, serial_writer}
use net_fs.Server.Transfer.{Carries, unserial_reader_lem, serial_writer_lem}

record Wire : Type 0 where
  coming : List ℕ
  gone : List ℕ

abbrev next_byte : Wire → Result (List ℕ × Wire)
next_byte s = elim s.coming [ [] ↦ ok ([], s) | x ∷ xs ↦ ok (x ∷ [], record s { coming = xs }) ]

abbrev take_byte : List ℕ → Wire → Result (ℕ × Wire)
take_byte [] s = ok (0, s)
take_byte (x ∷ xs) s = ok (1, record s { gone = s.gone ++ x ∷ [] })

-- A socket that takes and gives one byte at a time.
abbrev slow : Socket Wire
slow = record { receive_bytes = λ n s. next_byte s; send_bytes = take_byte }

received_byte :
    (coming gone : List ℕ) (n : ℕ)
    → 0 < n
    → 0 < length coming
    → (bytes : List ℕ) × (s' : Wire) × (next_byte (record { coming = coming; gone = gone })
        ≡ ok (bytes, s'))
      × (0 < length bytes)
      × (length bytes ≤ n)
      × (coming ≡ bytes ++ s'.coming)
      × (s'.gone ≡ gone)
received_byte [] gone n h k = absurd (omega arith)
received_byte (x ∷ xs) gone n h k =
    (x ∷ [], record { coming = xs; gone = gone }, refl, omega arith, omega arith, refl, refl)

sent_byte :
    (buf : List ℕ) (s : Wire)
    → 0 < length buf
    → (n : ℕ) × (s' : Wire) × (take_byte buf s ≡ ok (n, s'))
      × (0 < n)
      × (n ≤ length buf)
      × (s'.gone ≡ s.gone ++ take n buf)
      × (s'.coming ≡ s.coming)
sent_byte [] s h = absurd (omega arith)
sent_byte (x ∷ xs) s h =
    (1, record s { gone = s.gone ++ x ∷ [] }, refl, omega arith, omega arith, refl, refl)

abbrev slow_carries : Carries slow
slow_carries = record {
  incoming = λ s. s.coming;
  outgoing = λ s. s.gone;
  receives = λ n s h k. received_byte s.coming s.gone n h k;
  sends = sent_byte;
}

abbrev wire : Wire
wire = record { coming = 1 ∷ 2 ∷ 3 ∷ []; gone = [] }

bytes_received : unserial_reader slow 2 wire ≡ ok (1 ∷ 2 ∷ [], record wire { coming = 3 ∷ [] })
unfolding unserial_reader receive_loop int_of
bytes_received = refl

unserial_reader_lem_example :
    (s' : Wire) × (unserial_reader slow 2 wire ≡ ok (1 ∷ 2 ∷ [], s'))
    × (s'.coming ≡ 3 ∷ [])
    × (s'.gone ≡ [])
unserial_reader_lem_example =
    unserial_reader_lem slow slow_carries 2 wire (omega arith) (omega arith)

serial_writer_lem_example :
    (s' : Wire) × (serial_writer slow (7 ∷ 8 ∷ []) wire ≡ ok s')
    × (s'.gone ≡ 7 ∷ 8 ∷ [])
    × (s'.coming ≡ 1 ∷ 2 ∷ 3 ∷ [])
serial_writer_lem_example = serial_writer_lem slow slow_carries (7 ∷ 8 ∷ []) wire (omega arith)

abbrev requests : List Msg
requests =
    access (record { id = 1; filename = b'a' ∷ [] })
    ∷ mkdir (record { id = 2; filename = b'b' ∷ []; mode = 511 })
    ∷ []
