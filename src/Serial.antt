-- ===== src/Serial.antt =====
-- common/serial.hpp and common/serial.cpp. A writer is the bytes that it hands to the stream, in
-- order. A reader takes bytes from the front of what the stream holds; it stops with
-- `end_of_stream` where the stream's own reader throws. A byte is a number below 256. An integer of
-- `w` bytes is its bit pattern, a number below 256 ^ w, also where its C++ type is signed; the
-- machine is little-endian.
pub mod Codec
mod Bytes
pub mod Laws
pub mod Vectors
use net_fs.Prelude.{
  ℕ, zero, suc, ◌+◌, ◌*◌, ◌/◌, ◌%◌, ◌^◌, List, [], ◌∷◌, ◌++◌, ltb, if◌then◌else◌, Result, ok, err,
  end_of_stream, length,
}

abbrev pub Reader : Type 0 → Type 0
Reader A = List ℕ → Result (A × List ℕ)

abbrev pub pure : {A : Type 0} → A → Reader A
pure a s = ok (a, s)

infixl 5 ◌>>=◌
abbrev pub ◌>>=◌ : {A B : Type 0} → Reader A → (A → Reader B) → Reader B
◌>>=◌ r k s = elim (r s) [ ok (a, s') ↦ k a s' | err e ↦ err e ]

-- `sr(buf, size)`
unfoldable pub read_bytes : ℕ → Reader (List ℕ)
read_bytes zero s = ok ([], s)
read_bytes (suc n) [] = err end_of_stream
read_bytes (suc n) (b ∷ s) = (do bs ← read_bytes n; pure (b ∷ bs)) s

-- The `w` bytes of an integer in memory, and back.
unfoldable pub bytes_of : ℕ → ℕ → List ℕ
bytes_of zero v = []
bytes_of (suc w) v = (v % 256) ∷ bytes_of w (v / 256)

unfoldable pub of_bytes : List ℕ → ℕ
of_bytes [] = 0
of_bytes (b ∷ bs) = b + 256 * of_bytes bs

-- `serializePod<T>` for an integer type of `w` bytes.
unfoldable pub serialize_pod : ℕ → ℕ → List ℕ
unfolding bytes_of
serialize_pod w val = bytes_of w val

unfoldable pub unserialize_pod : ℕ → Reader ℕ
unfolding read_bytes of_bytes
unserialize_pod w = do bs ← read_bytes w; pure (of_bytes bs)

unfoldable pub serialize_string : List ℕ → List ℕ
unfolding serialize_pod
serialize_string str =
    serialize_pod 4 (length str % 2 ^ 32) ++ (if ltb 0 (length str) then str else [])

unfoldable pub unserialize_string : Reader (List ℕ)
unfolding unserialize_pod
unserialize_string = do
  str_size ← unserialize_pod 4
  if ltb 0 str_size then read_bytes str_size else pure []

unfoldable pub serialize_elements : {A : Type 0} → (A → List ℕ) → List A → List ℕ
serialize_elements f [] = []
serialize_elements f (x ∷ xs) = f x ++ serialize_elements f xs

unfoldable pub serialize_vector : {A : Type 0} → (A → List ℕ) → List A → List ℕ
unfolding serialize_pod serialize_elements
serialize_vector serial_element vec =
    serialize_pod 8 (length vec % 2 ^ 64) ++ serialize_elements serial_element vec

-- The loop of `unserializeVector`, with `n` elements left.
unfoldable pub unserialize_elements : {A : Type 0} → Reader A → ℕ → Reader (List A)
unserialize_elements r zero = pure []
unserialize_elements r (suc n) = do x ← r; xs ← unserialize_elements r n; pure (x ∷ xs)

unfoldable pub unserialize_vector : {A : Type 0} → Reader A → Reader (List A)
unfolding unserialize_pod unserialize_elements
unserialize_vector unserial_element = do
  size ← unserialize_pod 8
  unserialize_elements unserial_element size

unfoldable pub serialize_vector_char : List ℕ → List ℕ
unfolding serialize_pod
serialize_vector_char vec =
    serialize_pod 8 (length vec % 2 ^ 64) ++ (if ltb 0 (length vec) then vec else [])

unfoldable pub unserialize_vector_char : Reader (List ℕ)
unfolding unserialize_pod
unserialize_vector_char = do
  size ← unserialize_pod 8
  if ltb 0 size then read_bytes size else pure []
