-- ===== src/Server/Connection.antt =====
-- `run` of server_src/StorageServerConnection.cpp: the loops that receive and send the bytes of a
-- message over the socket, which is a parameter, and the loop over the requests of a client.
use net_fs.Prelude.{
  ℕ, zero, suc, ◌-◌, ◌%◌, ◌^◌, List, [], ◌++◌, length, take, drop, leb, ltb, ◌==◌, true, false,
  Error, Result, ok, err, end_of_stream, no_fuel, send_failed, assert, ◌>>=◌, ◌>>◌, if◌then◌else◌,
}
use net_fs.Server.Responders.{FileOp, serve}

-- `receiveBytes` gives some bytes, at most as many as it is asked for, or none at the end of the
-- connection; `sendBytes` takes some bytes off the front and says how many, with 0 for a failure.
pub record Socket (S : Type 0) : Type 0 where
  pub receive_bytes : ℕ → S → Result (List ℕ × S)
  pub send_bytes : List ℕ → S → Result (ℕ × S)

-- `(int)size`, where the loops do nothing with a negative number
unfoldable pub int_of : ℕ → ℕ
int_of size = if ltb (size % 2 ^ 32) (2 ^ 31) then size % 2 ^ 32 else 0

module _ {S : Type 0} (socket : Socket S) where
  -- The loop of `unserial_reader`, with `left` bytes to receive: the bytes for the buffer. A round
  -- receives a byte at least, so `fuel` of `left` is enough.
  unfoldable pub receive_loop : ℕ → ℕ → S → Result (List ℕ × S)
  receive_loop fuel zero s = ok ([], s)
  receive_loop zero (suc left) s = err no_fuel
  receive_loop (suc fuel) (suc left) s = do
    (bytes, s₁) ← socket.receive_bytes (suc left) s
    elim (length bytes == 0) [
      | true ↦ err end_of_stream
      | false ↦ do
        assert (leb (length bytes) (suc left))
        (rest, s₂) ← receive_loop fuel (suc left - length bytes) s₁
        ok (bytes ++ rest, s₂)
    ]

  -- `unserial_reader`
  unfoldable pub unserial_reader : ℕ → S → Result (List ℕ × S)
  unfolding receive_loop int_of
  unserial_reader size s = receive_loop (int_of size) (int_of size) s

  -- The loop of `serial_writer`, with `left` bytes to send of what is left of the buffer.
  unfoldable pub send_loop : ℕ → ℕ → List ℕ → S → Result S
  send_loop fuel zero buf s = ok s
  send_loop zero (suc left) buf s = err no_fuel
  send_loop (suc fuel) (suc left) buf s = do
    (sent, s₁) ← socket.send_bytes (take (suc left) buf) s
    elim (sent == 0) [
      | true ↦ err send_failed
      | false ↦ do assert (leb sent (suc left)); send_loop fuel (suc left - sent) (drop sent buf) s₁
    ]

  -- `serial_writer`
  unfoldable pub serial_writer : List ℕ → S → Result S
  unfolding send_loop int_of
  serial_writer buf s = send_loop (int_of (length buf)) (int_of (length buf)) buf s

-- The loop over the requests, for at most `fuel` of them: what is sent, what ends the connection,
-- and the state that is left.
unfoldable pub run_rounds : {S : Type 0} → FileOp S → ℕ → List ℕ → S → List ℕ × Error × S
run_rounds op zero received s = ([], no_fuel, s)
run_rounds op (suc fuel) received s = elim (serve op received s) [
  | err stop ↦ ([], stop, s)
  | ok (sent, rest, s₁) ↦
      let (more, stop, s₂) = run_rounds op fuel rest s₁ in (sent ++ more, stop, s₂)
]
