-- ===== src/Serial/Bytes.antt =====
-- The bytes of an integer in memory, and reading a given number of bytes: `serializePod` and
-- `unserializePod` of common/serial.hpp.
use native.Mathlib.Nat.{pow-suc}
use net_fs.Prelude.{
  ℕ, zero, suc, ◌+◌, ◌*◌, ◌/◌, ◌%◌, ◌^◌, ◌<◌, List, [], ◌∷◌, ◌++◌, ok, err, end_of_stream, length,
  ◌≡◌, refl, ap, ◌∙◌, arith, length-append, subst,
}
use net_fs.Serial.{pure, ◌>>=◌, read_bytes, bytes_of, of_bytes, serialize_pod, unserialize_pod}
use net_fs.Serial.Codec.{AreBytes, IsCodec, bind-eq-ok, bind_ok, bind_err}

pub length-bytes_of : (w v : ℕ) → length (bytes_of w v) ≡ w
unfolding bytes_of
length-bytes_of zero v = refl
length-bytes_of (suc w) v = ap suc (length-bytes_of w (v / 256))

pub bytes_of-AreBytes : (w v : ℕ) → AreBytes (bytes_of w v)
unfolding bytes_of
bytes_of-AreBytes zero v = tt
bytes_of-AreBytes (suc w) v = (omega arith, bytes_of-AreBytes w (v / 256))

of_bytes-bytes_of : (w v : ℕ) → v < 256 ^ w → of_bytes (bytes_of w v) ≡ v
unfolding bytes_of of_bytes
of_bytes-bytes_of zero v h = omega arith
of_bytes-bytes_of (suc w) v h =
    omega (arith, of_bytes-bytes_of w (v / 256) (omega (arith, pow-suc 256 w)))

of_bytes-lt : (bs : List ℕ) → AreBytes bs → of_bytes bs < 256 ^ length bs
unfolding of_bytes
of_bytes-lt [] h = omega arith
of_bytes-lt (b ∷ bs) h = omega (arith, of_bytes-lt bs h.1, pow-suc 256 (length bs))

bytes_of-of_bytes : (bs : List ℕ) → AreBytes bs → bytes_of (length bs) (of_bytes bs) ≡ bs
unfolding bytes_of of_bytes
bytes_of-of_bytes [] h = refl
bytes_of-of_bytes (b ∷ bs) h =
    let low : (b + 256 * of_bytes bs) % 256 ≡ b = omega arith in
    let high : (b + 256 * of_bytes bs) / 256 ≡ of_bytes bs = omega arith in
    rw (low, high, bytes_of-of_bytes bs h.1) refl

pub read_bytes-append : (bs rest : List ℕ) → read_bytes (length bs) (bs ++ rest) ≡ ok (bs, rest)
unfolding read_bytes
read_bytes-append [] rest = refl
read_bytes-append (b ∷ bs) rest = rw (read_bytes-append bs rest, ◌>>=◌) refl

pub read_bytes-short : (n : ℕ) (s : List ℕ) → length s < n → read_bytes n s ≡ err end_of_stream
unfolding read_bytes
read_bytes-short zero s h = absurd (omega arith)
read_bytes-short (suc n) [] h = refl
read_bytes-short (suc n) (b ∷ s) h = rw (read_bytes-short n s (omega arith), ◌>>=◌) refl

pub read_bytes-exact :
    (n : ℕ) (s bs rest : List ℕ)
    → AreBytes s
    → read_bytes n s ≡ ok (bs, rest)
    → (length bs ≡ n) × (s ≡ bs ++ rest) × AreBytes bs × AreBytes rest
unfolding read_bytes
read_bytes-exact zero s bs rest a h =
    let none_read : ◌≡◌ {A = List ℕ} [] bs = cc in
    let all_left : s ≡ rest = cc in
    (
      rw (← none_read) refl,
      rw (← none_read) all_left,
      subst AreBytes none_read tt,
      subst AreBytes all_left a,
    )
read_bytes-exact (suc n) [] bs rest a h = absurd (cc)
read_bytes-exact (suc n) (b ∷ s) bs rest a h =
    let (bs', s', p, q) = bind-eq-ok (read_bytes n) (λ bs. pure (b ∷ bs)) s h in
    let (len, e, abs, arest) = read_bytes-exact n s bs' s' a.1 p in
    let same : b ∷ bs' ≡ bs = cc in
    let left : s' ≡ rest = cc in
    (
      rw (← same) (ap suc len),
      rw (← same, ← left) (ap (◌∷◌ b) e),
      subst AreBytes same (a.0, abs),
      subst AreBytes left arest,
    )

pod_exact :
    (w : ℕ) (s : List ℕ) (v : ℕ) (rest : List ℕ)
    → AreBytes s
    → unserialize_pod w s ≡ ok (v, rest)
    → (v < 256 ^ w) × (s ≡ serialize_pod w v ++ rest) × AreBytes rest
unfolding unserialize_pod serialize_pod
pod_exact w s v rest a h =
    let (bs, s', p, q) = bind-eq-ok (read_bytes w) (λ bs. pure (of_bytes bs)) s h in
    let (len, e, abs, arest) = read_bytes-exact w s bs s' a p in
    let value : of_bytes bs ≡ v = cc in
    let left : s' ≡ rest = cc in
    (
      rw (← value, ← len) (of_bytes-lt bs abs),
      rw (← value, ← left, ← len, bytes_of-of_bytes bs abs) e,
      subst AreBytes left arest,
    )

-- An integer of `w` bytes.
pub pod-IsCodec : (w : ℕ) → IsCodec (λ v. v < 256 ^ w) (serialize_pod w) (unserialize_pod w)
unfolding unserialize_pod serialize_pod
pod-IsCodec w = record {
  round_trip = λ v h rest.
      bind_ok (read_bytes w) (λ bs. pure (of_bytes bs)) _ rest (bytes_of w v)
        (subst (λ n. read_bytes n (bytes_of w v ++ rest) ≡ ok (bytes_of w v, rest))
          (length-bytes_of w v) (read_bytes-append (bytes_of w v) rest))
      ∙ rw (of_bytes-bytes_of w v h) refl;
  exact = pod_exact w;
  cut_short = λ v h p b q e.
      bind_err (read_bytes w) (λ bs. pure (of_bytes bs)) p
        (read_bytes-short w p
          (omega (arith, length-bytes_of w v, ap length e, length-append p (b ∷ q))));
}
