-- ===== src/Serial/Codec.antt =====
-- What makes a writer and a reader fit each other, and how to build such pairs field by field.
use net_fs.Prelude.{
  ℕ, ◌<◌, List, [], ◌∷◌, ◌++◌, Result, ok, err, end_of_stream, ◌≡◌, refl, sym, subst, ◌∙◌, ◌⊎◌, ◌↔◌,
  inl, inr, append_assoc, append-nil,
}
use net_fs.Serial.{Reader, pure, ◌>>=◌}

abbrev pub AreBytes : List ℕ → Type 0
AreBytes [] = Unit
AreBytes (b ∷ s) = (b < 256) × AreBytes s

-- `Fits a`: the value `a` can be sent.
-- `round_trip`: what was written is read back, and nothing beyond it is taken.
-- `exact`: bytes that are read as a value are those that are written for it.
-- `cut_short`: bytes that break off before the end of a value are refused.
pub record IsCodec {A : Type 0} (Fits : A → Type 0) (write : A → List ℕ) (read : Reader A)
    : Type 0 where
  pub round_trip : (a : A) → Fits a → (rest : List ℕ) → read (write a ++ rest) ≡ ok (a, rest)
  pub exact :
      (s : List ℕ) (a : A) (rest : List ℕ)
      → AreBytes s
      → read s ≡ ok (a, rest)
      → Fits a × (s ≡ write a ++ rest) × AreBytes rest
  pub cut_short :
      (a : A)
      → Fits a
      → (p : List ℕ) (b : ℕ) (q : List ℕ) → write a ≡ p ++ b ∷ q
      → read p ≡ err end_of_stream

-- A proper prefix of `xs ++ ys` ends in `xs` or in `ys`.
pub split_prefix :
    (xs ys p : List ℕ) (b : ℕ) (q : List ℕ)
    → xs ++ ys ≡ p ++ b ∷ q
    → ((c : ℕ) × (q' : List ℕ) × (xs ≡ p ++ c ∷ q'))
      ⊎ ((p' : List ℕ) × (p ≡ xs ++ p') × (ys ≡ p' ++ b ∷ q))
split_prefix [] ys p b q h = inr (p, refl, h)
split_prefix (x ∷ xs) ys [] b q h = inl (x, xs, refl)
split_prefix (x ∷ xs) ys (z ∷ p) b q h = elim (split_prefix xs ys p b q (cc)) [
  | inl (c, q', e) ↦ inl (c, q', cc)
  | inr (p', e, e') ↦ inr (p', cc, e')
]

pub bind-eq-ok :
    {A B : Type 0} (r : Reader A) (k : A → Reader B) (s : List ℕ) {b : B} {rest : List ℕ}
    → (r >>= k) s ≡ ok (b, rest)
    → (a : A) × (s' : List ℕ) × (r s ≡ ok (a, s')) × (k a s' ≡ ok (b, rest))
bind-eq-ok {A} r k s {b} {rest} h = go (r s) refl h
  where
    go :
        (o : Result (A × List ℕ))
        → r s ≡ o
        → (elim o [ ok (a, s') ↦ k a s' | err e ↦ err e ]) ≡ ok (b, rest)
        → (a : A) × (s' : List ℕ) × (r s ≡ ok (a, s')) × (k a s' ≡ ok (b, rest))
    go (ok (a, s')) e h = (a, s', e, h)
    go (err x) e h = cc

-- What a block does with what its first reader returned.
pub bind_ok :
    {A B : Type 0} (r : Reader A) (k : A → Reader B) (s s' : List ℕ) (a : A)
    → r s ≡ ok (a, s')
    → (r >>= k) s ≡ k a s'
bind_ok r k s s' a h = rw (h, ◌>>=◌) refl

pub bind_err :
    {A B : Type 0} (r : Reader A) (k : A → Reader B) (s : List ℕ)
    → r s ≡ err end_of_stream
    → (r >>= k) s ≡ err end_of_stream
bind_err r k s h = rw (h, ◌>>=◌) refl

-- The last step of a reader: the fields that were read determine the value.
pub IsCodec-pure :
    {A : Type 0} {Fits : A → Type 0} (a : A)
    → Fits a
    → ((x : A) → Fits x → x ≡ a)
    → IsCodec Fits (λ _. []) (pure a)
IsCodec-pure {A} {Fits} a fits unique = record {
  round_trip = λ x f rest. rw (unique x f) refl;
  exact = λ s x rest bytes h.
      let e : ◌≡◌ {A = Result (A × List ℕ)} (ok (a, s)) (ok (x, rest)) = h in
      let same : a ≡ x = cc in
      let left : s ≡ rest = cc in (subst Fits same fits, left, subst AreBytes left bytes);
  cut_short = λ x f p b q e. absurd (append-ne-nil p b q (sym e));
}
  where
    append-ne-nil : (p : List ℕ) (b : ℕ) (q : List ℕ) → ◌≡◌ {A = List ℕ} (p ++ b ∷ q) [] → ⊥
    append-ne-nil [] b q e = cc
    append-ne-nil (x ∷ p) b q e = cc

-- One more field: its writer comes first, and its reader hands it to the rest of the block.
module _ {A B : Type 0} {First : A → Type 0} {Fits : B → Type 0} {write : A → List ℕ}
    {read : Reader A} (field : B → A) {rest_of : B → List ℕ} {k : A → Reader B}
    (fits_first : (m : B) → Fits m → First (field m)) (first : IsCodec First write read)
    (others : (a : A) → First a → IsCodec (λ m. Fits m × (field m ≡ a)) rest_of (k a)) where
  seq_round_trip :
      (m : B)
      → Fits m
      → (rest : List ℕ) → (read >>= k) ((write (field m) ++ rest_of m) ++ rest) ≡ ok (m, rest)
  seq_round_trip m f rest = rw append_assoc (
      bind_ok read k _ (rest_of m ++ rest) (field m)
        (first.round_trip (field m) (fits_first m f) (rest_of m ++ rest))
      ∙ (others (field m) (fits_first m f)).round_trip m (f, refl) rest)

  seq_exact :
      (s : List ℕ) (m : B) (rest : List ℕ)
      → AreBytes s
      → (read >>= k) s ≡ ok (m, rest)
      → Fits m × (s ≡ (write (field m) ++ rest_of m) ++ rest) × AreBytes rest
  seq_exact s m rest bytes h =
      let (a, s', p, q) = bind-eq-ok read k s h in
      let (fa, e, bytes') = first.exact s a s' bytes p in
      let (fm, e', bytes'') = (others a fa).exact s' m rest bytes' q in
      (fm.0, rw (append_assoc, fm.1, ← e') e, bytes'')

  seq_cut_short :
      (m : B)
      → Fits m
      → (p : List ℕ) (b : ℕ) (q : List ℕ) → write (field m) ++ rest_of m ≡ p ++ b ∷ q
      → (read >>= k) p ≡ err end_of_stream
  seq_cut_short m f p b q e = elim (split_prefix (write (field m)) (rest_of m) p b q e) [
    | inl (c, q', e') ↦ bind_err read k p (first.cut_short (field m) (fits_first m f) p c q' e')
    | inr (p', e', e'') ↦ rw e' (
        bind_ok read k _ p' (field m) (first.round_trip (field m) (fits_first m f) p')
        ∙ (others (field m) (fits_first m f)).cut_short m (f, refl) p' b q e'')
  ]

  pub IsCodec-seq : IsCodec Fits (λ m. write (field m) ++ rest_of m) (read >>= k)
  IsCodec-seq = record { round_trip = seq_round_trip; exact = seq_exact; cut_short = seq_cut_short }

-- The same codec, with its writer, its reader and its condition written in another way.
pub IsCodec-conv :
    {A : Type 0} {Fits Fits' : A → Type 0} {write write' : A → List ℕ} {read read' : Reader A}
    → ((a : A) → Fits' a ↔ Fits a)
    → ((a : A) → write' a ≡ write a)
    → ((s : List ℕ) → read' s ≡ read s)
    → IsCodec Fits write read
    → IsCodec Fits' write' read'
IsCodec-conv f w r c = record {
  round_trip = λ a h rest. rw (w a, r) (c.round_trip a ((f a).0 h) rest);
  exact = λ s a rest bytes h.
      let (fits, e, bytes') = c.exact s a rest bytes (sym (r s) ∙ h) in
      ((f a).1 fits, rw (w a) e, bytes');
  cut_short = λ a h p b q e. r p ∙ c.cut_short a ((f a).0 h) p b q (sym (w a) ∙ e);
}

-- The last field of a value: its reader hands it to the constructor.
pub IsCodec-last :
    {A B : Type 0} {First : A → Type 0} {Fits : B → Type 0} {write : A → List ℕ} {read : Reader A}
    (field : B → A) (build : A → B)
    → ((m : B) → Fits m → First (field m))
    → IsCodec First write read
    → ((a : A) → First a → Fits (build a) × (field (build a) ≡ a))
    → ((a : A) → First a → (m : B) → Fits m → field m ≡ a → m ≡ build a)
    → IsCodec Fits (λ m. write (field m)) (do a ← read; pure (build a))
IsCodec-last {Fits = Fits} {write = write} field build fits_first first fits unique =
    IsCodec-conv (λ m. (λ f. f, λ f. f)) (λ m. sym (append-nil (write (field m)))) (λ s. refl)
      (IsCodec-seq field fits_first first
        λ a fa. IsCodec-pure (build a) (fits a fa) (λ m f. unique a fa m f.0 f.1))
