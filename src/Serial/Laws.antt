-- ===== src/Serial/Laws.antt =====
-- Strings and vectors: `serializeString`, `serializeVector`, `serializeVectorChar` and their
-- readers in common/serial.hpp and common/serial.cpp.
use native.Mathlib.Nat.{mod-eq_of_lt}
use net_fs.Prelude.{
  ℕ, zero, suc, ◌%◌, ◌^◌, ◌<◌, List, [], ◌∷◌, ◌++◌, ok, length, ◌≡◌, refl, ap, sym, ◌∙◌, arith,
  length-append, subst, lt→ltb, ltb, if◌then◌else◌, ◌↔◌,
}
use net_fs.Serial.{
  Reader, pure, ◌>>=◌, read_bytes, serialize_pod, unserialize_pod, serialize_string,
  unserialize_string, serialize_vector_char, unserialize_vector_char,
}
use net_fs.Serial.Codec.{AreBytes, IsCodec, IsCodec-seq, IsCodec-conv}
use net_fs.Serial.Bytes.{pod-IsCodec, read_bytes-append, read_bytes-short, read_bytes-exact}
pub use net_fs.Serial.Bytes.{pod-IsCodec}

contents_written : (s : List ℕ) → (if ltb 0 (length s) then s else []) ≡ s
contents_written [] = refl
contents_written (b ∷ s) = ground arith

contents_read :
    (n : ℕ) (s : List ℕ)
    → (let r : Reader (List ℕ) = if ltb 0 n then read_bytes n else pure [] in r s) ≡ read_bytes n s
contents_read zero s = unfold read_bytes in refl
contents_read (suc n) s = rw (lt→ltb 0 (suc n) (omega arith)) refl

-- `n` bytes of a string of which `n` is known.
read_bytes-IsCodec : (n : ℕ) → IsCodec (λ s. AreBytes s × (length s ≡ n)) (λ s. s) (read_bytes n)
read_bytes-IsCodec n = record {
  round_trip = λ s h rest.
      subst (λ k. read_bytes k (s ++ rest) ≡ ok (s, rest)) h.1 (read_bytes-append s rest);
  exact = λ s bs rest a h.
      let (len, e, abs, arest) = read_bytes-exact n s bs rest a h in ((abs, len), e, arest);
  cut_short = λ s h p b q e.
      read_bytes-short n p (omega (arith, h.1, ap length e, length-append p (b ∷ q)));
}

-- The conditions on a string or a vector of bytes that is sent with a length of `w` bytes.
abbrev FitsSized : ℕ → List ℕ → Type 0
FitsSized w s = AreBytes s × (length s < 256 ^ w)

FitsSized-iff :
    (w n : ℕ)
    → n < 256 ^ w
    → (s : List ℕ) → (FitsSized w s × (length s % 256 ^ w ≡ n)) ↔ (AreBytes s × (length s ≡ n))
FitsSized-iff w n h s = (
  λ f. (f.0.0, sym (mod-eq_of_lt f.0.1) ∙ f.1),
  λ f. ((f.0, rw f.1 h), mod-eq_of_lt (rw f.1 h) ∙ f.1),
)

sized-IsCodec :
    (w : ℕ)
    → IsCodec
        (FitsSized w)
        (λ s. serialize_pod w (length s % 256 ^ w) ++ (if ltb 0 (length s) then s else []))
        (unserialize_pod w >>= λ n. if ltb 0 n then read_bytes n else pure [])
sized-IsCodec w =
    IsCodec-seq (λ s. length s % 256 ^ w) (λ s f. rw (mod-eq_of_lt f.1) f.1) (pod-IsCodec w)
      λ n h.
        IsCodec-conv (FitsSized-iff w n h) contents_written (contents_read n) (read_bytes-IsCodec n)

-- A string of fewer than 2 ^ 32 bytes.
abbrev pub FitsString : List ℕ → Type 0
FitsString s = AreBytes s × (length s < 2 ^ 32)

pub string-IsCodec : IsCodec FitsString serialize_string unserialize_string
unfolding serialize_string unserialize_string
string-IsCodec = sized-IsCodec 4

-- A vector of fewer than 2 ^ 64 bytes.
abbrev pub FitsVectorChar : List ℕ → Type 0
FitsVectorChar s = AreBytes s × (length s < 2 ^ 64)

pub vector_char-IsCodec : IsCodec FitsVectorChar serialize_vector_char unserialize_vector_char
unfolding serialize_vector_char unserialize_vector_char
vector_char-IsCodec = sized-IsCodec 8
