-- ===== src/Serial/Vectors.antt =====
-- `serializeVector` and `unserializeVector` of common/serial.hpp, for any element.
use native.Mathlib.Nat.{mod-eq_of_lt}
use net_fs.Prelude.{
  ℕ, zero, suc, ◌%◌, ◌^◌, ◌<◌, List, [], ◌∷◌, ◌++◌, ok, err, end_of_stream, length, ◌≡◌, refl, ap,
  sym, ◌∙◌, subst, append_assoc, inl, inr,
}
use net_fs.Serial.{
  Reader, pure, ◌>>=◌, serialize_elements, unserialize_elements, serialize_vector,
  unserialize_vector,
}
use net_fs.Serial.Codec.{
  AreBytes, IsCodec, IsCodec-seq, IsCodec-conv, bind-eq-ok, bind_ok, bind_err, split_prefix,
}
use net_fs.Serial.Laws.{pod-IsCodec}

abbrev pub All : {A : Type 0} → (A → Type 0) → List A → Type 0
All P [] = Unit
All P (x ∷ xs) = P x × All P xs

module _ {A : Type 0} {Fits : A → Type 0} {write : A → List ℕ} {read : Reader A}
    (c : IsCodec Fits write read) where
  abbrev after_first : ℕ → A → Reader (List A)
  after_first n x = do xs ← unserialize_elements read n; pure (x ∷ xs)

  elements_round_trip :
      (xs : List A)
      → All Fits xs
      → (rest : List ℕ)
      → unserialize_elements read (length xs) (serialize_elements write xs ++ rest) ≡ ok (xs, rest)
  unfolding serialize_elements unserialize_elements
  elements_round_trip [] f rest = refl
  elements_round_trip (x ∷ xs) f rest =
      let tail = elements_round_trip xs f.1 rest in
      rw append_assoc (
        bind_ok read (after_first (length xs)) _ (serialize_elements write xs ++ rest) x
          (c.round_trip x f.0 (serialize_elements write xs ++ rest))
        ∙ bind_ok (unserialize_elements read (length xs)) (λ ys. pure (x ∷ ys)) _ rest xs tail)

  elements_exact :
      (n : ℕ) (s : List ℕ) (xs : List A) (rest : List ℕ)
      → AreBytes s
      → unserialize_elements read n s ≡ ok (xs, rest)
      → (All Fits xs × (length xs ≡ n)) × (s ≡ serialize_elements write xs ++ rest) × AreBytes rest
  unfolding serialize_elements unserialize_elements
  elements_exact zero s xs rest a h =
      let none_read : ◌≡◌ {A = List A} [] xs = cc in
      let left : s ≡ rest = cc in
      (
        subst (λ ys. All Fits ys × (length ys ≡ 0)) none_read (tt, refl),
        subst (λ ys. s ≡ serialize_elements write ys ++ rest) none_read left,
        subst AreBytes left a,
      )
  elements_exact (suc n) s xs rest a h =
      let (x, s', p, q) = bind-eq-ok read (after_first n) s h in
      let (ys, s'', p', q') = bind-eq-ok (unserialize_elements read n) (λ ys. pure (x ∷ ys)) s' q in
      let (fx, e, a') = c.exact s x s' a p in
      let (fys, e', a'') = elements_exact n s' ys s'' a' p' in
      let same : x ∷ ys ≡ xs = cc in
      let left : s'' ≡ rest = cc in
      (
        subst (λ zs. All Fits zs × (length zs ≡ suc n)) same ((fx, fys.0), ap suc fys.1),
        subst (λ zs. s ≡ serialize_elements write zs ++ rest) same
            (rw (append_assoc, ← left, ← e') e),
        subst AreBytes left a'',
      )

  elements_cut_short :
      (xs : List A)
      → All Fits xs
      → (p : List ℕ) (b : ℕ) (q : List ℕ) → serialize_elements write xs ≡ p ++ b ∷ q
      → unserialize_elements read (length xs) p ≡ err end_of_stream
  unfolding serialize_elements unserialize_elements
  elements_cut_short [] f [] b q e = absurd (cc)
  elements_cut_short [] f (z ∷ p) b q e = absurd (cc)
  elements_cut_short (x ∷ xs) f p b q e =
      let ih = elements_cut_short xs f.1 in
      elim (split_prefix (write x) (serialize_elements write xs) p b q e) [
        | inl (c', q', e') ↦
            bind_err read (after_first (length xs)) p (c.cut_short x f.0 p c' q' e')
        | inr (p', e', e'') ↦ rw e' (
            bind_ok read (after_first (length xs)) _ p' x (c.round_trip x f.0 p')
            ∙ bind_err (unserialize_elements read (length xs)) (λ ys. pure (x ∷ ys)) p'
                (ih p' b q e''))
      ]

  elements-IsCodec :
      (n : ℕ)
      → IsCodec
          (λ xs. All Fits xs × (length xs ≡ n))
          (serialize_elements write)
          (unserialize_elements read n)
  elements-IsCodec n = record {
    round_trip = λ xs f rest.
        subst
          (λ k. unserialize_elements read k (serialize_elements write xs ++ rest) ≡ ok (xs, rest))
          f.1 (elements_round_trip xs f.0 rest);
    exact = elements_exact n;
    cut_short = λ xs f p b q e.
        subst (λ k. unserialize_elements read k p ≡ err end_of_stream) f.1
          (elements_cut_short xs f.0 p b q e);
  }

  -- A vector of fewer than 2 ^ 64 elements.
  pub vector-IsCodec :
      IsCodec
        (λ xs. All Fits xs × (length xs < 2 ^ 64))
        (serialize_vector write)
        (unserialize_vector read)
  unfolding serialize_vector unserialize_vector
  vector-IsCodec =
      IsCodec-seq (λ xs. length xs % 2 ^ 64) (λ xs f. rw (mod-eq_of_lt f.1) f.1) (pod-IsCodec 8)
        λ n h.
          IsCodec-conv
            (λ xs. (
              λ f. (f.0.0, sym (mod-eq_of_lt f.0.1) ∙ f.1),
              λ f. ((f.0, rw f.1 h), mod-eq_of_lt (rw f.1 h) ∙ f.1),
            ))
            (λ xs. refl) (λ s. refl) (elements-IsCodec n)
