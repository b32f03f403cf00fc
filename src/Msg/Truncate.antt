-- ===== src/Msg/Truncate.antt =====
-- common/msg_truncate.hpp: the request and the response, their bodies on the stream, and their
-- codecs.
use net_fs.Prelude.{ℕ, ◌<◌, ◌^◌, List, ◌++◌, refl}
use net_fs.Serial.{
  Reader, pure, ◌>>=◌, serialize_pod, unserialize_pod, serialize_string, unserialize_string,
}
use net_fs.Serial.Codec.{IsCodec, IsCodec-seq, IsCodec-last}
use net_fs.Serial.Laws.{pod-IsCodec, string-IsCodec, FitsString}
use net_fs.Time.{
  FileTime, FitsFileTime, serialize_file_time, unserialize_file_time, file_time-IsCodec,
}

pub record MsgTruncate : Type 0 where
  pub id : ℕ
  pub filename : List ℕ
  pub offset : ℕ

unfoldable pub serialize_truncate : MsgTruncate → List ℕ
serialize_truncate m =
    serialize_pod 4 m.id ++ (serialize_string m.filename ++ serialize_pod 8 m.offset)

unfoldable pub unserialize_truncate : Reader MsgTruncate
unserialize_truncate = do
  id ← unserialize_pod 4
  filename ← unserialize_string
  offset ← unserialize_pod 8
  pure (record { id = id; filename = filename; offset = offset })

abbrev pub FitsTruncate : MsgTruncate → Type 0
FitsTruncate m = (m.id < 2 ^ 32) × (FitsString m.filename) × (m.offset < 2 ^ 64)

pub truncate-IsCodec : IsCodec FitsTruncate serialize_truncate unserialize_truncate
unfolding serialize_truncate unserialize_truncate
truncate-IsCodec =
    IsCodec-seq (λ m. m.id) (λ m f. f.0) (pod-IsCodec 4)
      λ id fits_id.
        IsCodec-seq (λ m. m.filename) (λ m f. f.0.1) string-IsCodec
          λ filename fits_filename.
            IsCodec-last (λ m. m.offset)
              (λ offset. record { id = id; filename = filename; offset = offset }) (λ m f. f.0.0.2)
              (pod-IsCodec 8)
              (λ offset fits_offset. ((((fits_id, fits_filename, fits_offset), refl), refl), refl))
              (λ offset _ m f e. λ i. record { id = f.0.1 i; filename = f.1 i; offset = e i })

pub record MsgTruncateResp : Type 0 where
  pub id : ℕ
  pub error : ℕ
  pub before_change : FileTime
  pub after_change : FileTime

unfoldable pub serialize_truncate_resp : MsgTruncateResp → List ℕ
serialize_truncate_resp m =
    serialize_pod 4 m.id
    ++ (serialize_pod 4 m.error
        ++ (serialize_file_time m.before_change ++ serialize_file_time m.after_change))

unfoldable pub unserialize_truncate_resp : Reader MsgTruncateResp
unserialize_truncate_resp = do
  id ← unserialize_pod 4
  error ← unserialize_pod 4
  before_change ← unserialize_file_time
  after_change ← unserialize_file_time
  pure (record {
    id = id;
    error = error;
    before_change = before_change;
    after_change = after_change;
  })

abbrev pub FitsTruncateResp : MsgTruncateResp → Type 0
FitsTruncateResp m =
    (m.id < 2 ^ 32)
    × (m.error < 2 ^ 32)
    × (FitsFileTime m.before_change)
    × (FitsFileTime m.after_change)

pub truncate_resp-IsCodec :
    IsCodec FitsTruncateResp serialize_truncate_resp unserialize_truncate_resp
unfolding serialize_truncate_resp unserialize_truncate_resp
truncate_resp-IsCodec =
    IsCodec-seq (λ m. m.id) (λ m f. f.0) (pod-IsCodec 4)
      λ id fits_id.
        IsCodec-seq (λ m. m.error) (λ m f. f.0.1) (pod-IsCodec 4)
          λ error fits_error.
            IsCodec-seq (λ m. m.before_change) (λ m f. f.0.0.2) file_time-IsCodec
              λ before_change fits_before_change.
                IsCodec-last (λ m. m.after_change)
                  (λ after_change. record {
                    id = id;
                    error = error;
                    before_change = before_change;
                    after_change = after_change;
                  })
                  (λ m f. f.0.0.0.3) file_time-IsCodec
                  (λ after_change fits_after_change. (
                    (
                      (((fits_id, fits_error, fits_before_change, fits_after_change), refl), refl),
                      refl,
                    ),
                    refl,
                  ))
                  (λ after_change _ m f e. λ i. record {
                    id = f.0.0.1 i;
                    error = f.0.1 i;
                    before_change = f.1 i;
                    after_change = e i;
                  })
