-- ===== src/Server/Transfer.antt =====
-- The loops of server_src/StorageServerConnection.cpp over the socket transfer all the bytes.
use net_fs.Prelude.{
  ℕ, zero, suc, ◌-◌, ◌%◌, ◌<◌, ◌≤◌, ◌^◌, List, [], ◌∷◌, ◌++◌, append_assoc, append-nil, length,
  take, drop, length-append, length-drop, leb, ltb, ◌==◌, true, false, ok, ◌>>=◌, ◌≡◌, refl, sym,
  ap, ◌∙◌, arith,
}
use net_fs.Server.Connection.{
  Socket, int_of, receive_loop, unserial_reader, send_loop, serial_writer,
}

-- What the socket documents. `incoming` are the bytes that the client still sends, `outgoing` those
-- that it was sent.
pub record Carries {S : Type 0} (socket : Socket S) : Type 0 where
  pub incoming : S → List ℕ
  pub outgoing : S → List ℕ
  pub receives :
      (n : ℕ) (s : S)
      → 0 < n
      → 0 < length (incoming s)
      → (bytes : List ℕ) × (s' : S) × (socket.receive_bytes n s ≡ ok (bytes, s'))
        × (0 < length bytes)
        × (length bytes ≤ n)
        × (incoming s ≡ bytes ++ incoming s')
        × (outgoing s' ≡ outgoing s)
  pub sends :
      (buf : List ℕ) (s : S)
      → 0 < length buf
      → (n : ℕ) × (s' : S) × (socket.send_bytes buf s ≡ ok (n, s'))
        × (0 < n)
        × (n ≤ length buf)
        × (outgoing s' ≡ outgoing s ++ take n buf)
        × (incoming s' ≡ incoming s)

take-append_more {ℓ} :
    {A : Type ℓ} (xs ys : List A) (n : ℕ)
    → length xs ≤ n
    → take n (xs ++ ys) ≡ xs ++ take (n - length xs) ys
take-append_more [] ys n h = ap (λ (m : ℕ). take m ys) (omega arith)
take-append_more (x ∷ xs) ys zero h = absurd (omega arith)
take-append_more (x ∷ xs) ys (suc n) h =
    ap (λ zs. x ∷ zs)
      (take-append_more xs ys n (omega arith) ∙ ap (λ (m : ℕ). xs ++ take m ys) (omega arith))

drop-append_more {ℓ} :
    {A : Type ℓ} (xs ys : List A) (n : ℕ)
    → length xs ≤ n
    → drop n (xs ++ ys) ≡ drop (n - length xs) ys
drop-append_more [] ys n h = ap (λ (m : ℕ). drop m ys) (omega arith)
drop-append_more (x ∷ xs) ys zero h = absurd (omega arith)
drop-append_more (x ∷ xs) ys (suc n) h =
    drop-append_more xs ys n (omega arith) ∙ ap (λ (m : ℕ). drop m ys) (omega arith)

take-append_drop {ℓ} : {A : Type ℓ} (n : ℕ) (xs : List A) → take n xs ++ drop n xs ≡ xs
take-append_drop zero xs = refl
take-append_drop (suc n) [] = refl
take-append_drop (suc n) (x ∷ xs) = ap (λ zs. x ∷ zs) (take-append_drop n xs)

take-length {ℓ} : {A : Type ℓ} (xs : List A) → take (length xs) xs ≡ xs
take-length [] = refl
take-length (x ∷ xs) = ap (λ zs. x ∷ zs) (take-length xs)

module _ {S : Type 0} (socket : Socket S) (laws : Carries socket) where
  receive_go :
      (fuel left : ℕ) (bytes rest : List ℕ) (s s₁ s₂ : S)
      → socket.receive_bytes (suc left) s ≡ ok (bytes, s₁)
      → (length bytes == 0) ≡ false
      → leb (length bytes) (suc left) ≡ true
      → receive_loop socket fuel (suc left - length bytes) s₁ ≡ ok (rest, s₂)
      → receive_loop socket (suc fuel) (suc left) s ≡ ok (bytes ++ rest, s₂)
  unfolding receive_loop
  receive_go fuel left bytes rest s s₁ s₂ run some_bytes fits run' =
      rw (receive_loop, run, ◌>>=◌, some_bytes, fits, run') refl

  -- The loop of the reader gives the next bytes of the client, however they come in.
  receive_loop_lem :
      (fuel left : ℕ) (s : S)
      → left ≤ fuel
      → left ≤ length (laws.incoming s)
      → (s' : S) × (receive_loop socket fuel left s ≡ ok (take left (laws.incoming s), s'))
        × (laws.incoming s' ≡ drop left (laws.incoming s))
        × (laws.outgoing s' ≡ laws.outgoing s)
  receive_loop_lem fuel zero s enough there = (s, unfold receive_loop in refl, refl, refl)
  receive_loop_lem zero (suc left) s enough there = absurd (omega arith)
  receive_loop_lem (suc fuel) (suc left) s enough there =
      let (bytes, s₁, run, some_bytes, fits, came, same) =
        laws.receives (suc left) s (omega arith) (omega arith) in
      let total = ap length came in
      let split = length-append bytes (laws.incoming s₁) in
      let (s', run', later, same') =
        receive_loop_lem fuel (suc left - length bytes) s₁ (omega arith) (omega arith) in
      let first : take (suc left) (laws.incoming s)
          ≡ bytes ++ take (suc left - length bytes) (laws.incoming s₁) =
        ap (take (suc left)) came ∙ take-append_more bytes (laws.incoming s₁) (suc left) fits in
      let others : drop (suc left) (laws.incoming s)
          ≡ drop (suc left - length bytes) (laws.incoming s₁) =
        ap (drop (suc left)) came ∙ drop-append_more bytes (laws.incoming s₁) (suc left) fits in
      (
        s',
        receive_go fuel left bytes _ s s₁ s' run (ground arith) (ground arith) run'
            ∙ ap (λ xs. ok (xs, s')) (sym first),
        later ∙ sym others,
        same' ∙ same,
      )

  send_go :
      (fuel left n : ℕ) (buf : List ℕ) (s s₁ : S)
      → socket.send_bytes (take (suc left) buf) s ≡ ok (n, s₁)
      → (n == 0) ≡ false
      → leb n (suc left) ≡ true
      → send_loop socket (suc fuel) (suc left) buf s
        ≡ send_loop socket fuel (suc left - n) (drop n buf) s₁
  unfolding send_loop
  send_go fuel left n buf s s₁ run some_bytes fits =
      rw (send_loop, run, ◌>>=◌, some_bytes, fits) refl

  send_loop_lem :
      (fuel left : ℕ) (buf : List ℕ) (s : S)
      → left ≤ fuel
      → length buf ≡ left
      → (s' : S) × (send_loop socket fuel left buf s ≡ ok s')
        × (laws.outgoing s' ≡ laws.outgoing s ++ buf)
        × (laws.incoming s' ≡ laws.incoming s)
  send_loop_lem fuel zero [] s enough len =
      (s, unfold send_loop in refl, sym (append-nil (laws.outgoing s)), refl)
  send_loop_lem fuel zero (x ∷ buf) s enough len = absurd (omega arith)
  send_loop_lem zero (suc left) buf s enough len = absurd (omega arith)
  send_loop_lem (suc fuel) (suc left) buf s enough len =
      let (n, s₁, run, some_bytes, fits, gone, same) = laws.sends buf s (omega arith) in
      let whole : take (suc left) buf ≡ buf =
        ap (λ (m : ℕ). take m buf) (sym len) ∙ take-length buf in
      let run₀ = ap (λ xs. socket.send_bytes xs s) whole ∙ run in
      let (s', run', all, same') =
        send_loop_lem fuel (suc left - n) (drop n buf) s₁ (omega arith)
          (length-drop n buf ∙ omega arith) in
      (
        s',
        send_go fuel left n buf s s₁ run₀ (ground arith) (ground arith) ∙ run',
        all
            ∙ ap (λ xs. xs ++ drop n buf) gone
            ∙ append_assoc (laws.outgoing s) (take n buf) (drop n buf)
            ∙ ap (λ xs. laws.outgoing s ++ xs) (take-append_drop n buf),
        same' ∙ same,
      )

  small_int : (size : ℕ) → size < 2 ^ 31 → int_of size ≡ size
  unfolding int_of
  small_int size h =
      let whole : size % 2 ^ 32 ≡ size = omega arith in
      let small : ltb size (2 ^ 31) ≡ true = ground arith in rw (whole, small) refl

  -- A reader of a message that asks for fewer than 2^31 bytes gets the next ones of the client,
  -- however the socket cuts them up, and nothing beyond them is taken.
  pub unserial_reader_lem :
      (size : ℕ) (s : S)
      → size < 2 ^ 31
      → size ≤ length (laws.incoming s)
      → (s' : S) × (unserial_reader socket size s ≡ ok (take size (laws.incoming s), s'))
        × (laws.incoming s' ≡ drop size (laws.incoming s))
        × (laws.outgoing s' ≡ laws.outgoing s)
  unserial_reader_lem size s small there =
      let (s', run, came, same) = receive_loop_lem size size s (omega arith) there in
      (s', unfold unserial_reader in rw (small_int size small) run, came, same)

  -- A writer of fewer than 2^31 bytes sends them all, however many the socket takes at a time.
  pub serial_writer_lem :
      (buf : List ℕ) (s : S)
      → length buf < 2 ^ 31
      → (s' : S) × (serial_writer socket buf s ≡ ok s')
        × (laws.outgoing s' ≡ laws.outgoing s ++ buf)
        × (laws.incoming s' ≡ laws.incoming s)
  serial_writer_lem buf s small =
      let (s', run, gone, same) =
        send_loop_lem (length buf) (length buf) buf s (omega arith) refl in
      (s', unfold serial_writer in rw (small_int (length buf) small) run, gone, same)
