-- ===== src/Time.antt =====
-- common/time.hpp and common/time.cpp: the time stamps of a file, how they are compared and sent.
-- A time stamp's fields are 64-bit patterns. The packed struct is sent as its fields in their
-- order.
use net_fs.Prelude.{ℕ, ◌<◌, ◌^◌, List, ◌++◌, Bool, true, not, ◌&&◌, ◌==◌, ◌≡◌, refl, arith, ◌↔◌}
use net_fs.Serial.{Reader, pure, ◌>>=◌, serialize_pod, unserialize_pod}
use net_fs.Serial.Codec.{IsCodec, IsCodec-seq, IsCodec-last}
use net_fs.Serial.Laws.{pod-IsCodec}

pub record TimeSpec : Type 0 where
  pub time_sec : ℕ
  pub time_nsec : ℕ

pub record FileTime : Type 0 where
  pub atime : TimeSpec
  pub ctime : TimeSpec
  pub mtime : TimeSpec

-- `operator==` and `operator!=` of `TimeSpec`
unfoldable pub time_spec_eq : TimeSpec → TimeSpec → Bool
time_spec_eq t₁ t₂ = t₁.time_sec == t₂.time_sec && t₁.time_nsec == t₂.time_nsec

pub time_spec_ne : TimeSpec → TimeSpec → Bool
time_spec_ne t₁ t₂ = not (time_spec_eq t₁ t₂)

-- `operator==` and `operator!=` of `FileTime`, which leave the access time out
unfoldable pub file_time_eq : FileTime → FileTime → Bool
unfolding time_spec_eq
file_time_eq t₁ t₂ = time_spec_eq t₁.mtime t₂.mtime && time_spec_eq t₁.ctime t₂.ctime

unfoldable pub file_time_ne : FileTime → FileTime → Bool
unfolding file_time_eq
file_time_ne t₁ t₂ = not (file_time_eq t₁ t₂)

-- Two time stamps compare equal exactly when a file's content and status changed at the same times.
pub file_time_eq_iff :
    (t₁ t₂ : FileTime)
    → (file_time_eq t₁ t₂ ≡ true) ↔ ((t₁.mtime ≡ t₂.mtime) × (t₁.ctime ≡ t₂.ctime))
unfolding file_time_eq
file_time_eq_iff t₁ t₂ = (λ h. (ground arith, ground arith), λ h. ground arith)

unfoldable pub serialize_time_spec : TimeSpec → List ℕ
unfolding serialize_pod
serialize_time_spec t = serialize_pod 8 t.time_sec ++ serialize_pod 8 t.time_nsec

unfoldable pub unserialize_time_spec : Reader TimeSpec
unfolding unserialize_pod
unserialize_time_spec = do
  sec ← unserialize_pod 8
  nsec ← unserialize_pod 8
  pure (record { time_sec = sec; time_nsec = nsec })

unfoldable pub serialize_file_time : FileTime → List ℕ
unfolding serialize_time_spec
serialize_file_time t =
    serialize_time_spec t.atime ++ (serialize_time_spec t.ctime ++ serialize_time_spec t.mtime)

unfoldable pub unserialize_file_time : Reader FileTime
unfolding unserialize_time_spec
unserialize_file_time = do
  atime ← unserialize_time_spec
  ctime ← unserialize_time_spec
  mtime ← unserialize_time_spec
  pure (record { atime = atime; ctime = ctime; mtime = mtime })

abbrev pub FitsTimeSpec : TimeSpec → Type 0
FitsTimeSpec t = (t.time_sec < 2 ^ 64) × (t.time_nsec < 2 ^ 64)

abbrev pub FitsFileTime : FileTime → Type 0
FitsFileTime t = FitsTimeSpec t.atime × FitsTimeSpec t.ctime × FitsTimeSpec t.mtime

pub time_spec-IsCodec : IsCodec FitsTimeSpec serialize_time_spec unserialize_time_spec
unfolding serialize_time_spec unserialize_time_spec
time_spec-IsCodec =
    IsCodec-seq (λ t. t.time_sec) (λ t f. f.0) (pod-IsCodec 8)
      λ sec fits_sec.
        IsCodec-last (λ t. t.time_nsec) (λ nsec. record { time_sec = sec; time_nsec = nsec })
          (λ t f. f.0.1) (pod-IsCodec 8) (λ nsec fits_nsec. (((fits_sec, fits_nsec), refl), refl))
          (λ nsec _ t f e. λ i. record { time_sec = f.1 i; time_nsec = e i })

pub file_time-IsCodec : IsCodec FitsFileTime serialize_file_time unserialize_file_time
unfolding serialize_file_time unserialize_file_time
file_time-IsCodec =
    IsCodec-seq (λ t. t.atime) (λ t f. f.0) time_spec-IsCodec
      λ atime fits_a.
        IsCodec-seq (λ t. t.ctime) (λ t f. f.0.1) time_spec-IsCodec
          λ ctime fits_c.
            IsCodec-last (λ t. t.mtime)
              (λ mtime. record { atime = atime; ctime = ctime; mtime = mtime }) (λ t f. f.0.0.2)
              time_spec-IsCodec (λ mtime fits_m. ((((fits_a, fits_c, fits_m), refl), refl), refl))
              (λ mtime _ t f e. λ i. record { atime = f.0.1 i; ctime = f.1 i; mtime = e i })
