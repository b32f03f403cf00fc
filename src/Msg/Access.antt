-- ===== src/Msg/Access.antt =====
-- common/msg_access.hpp: the request and the response, their bodies on the stream, and their
-- codecs.
use net_fs.Prelude.{ℕ, ◌<◌, ◌^◌, List, ◌++◌, refl}
use net_fs.Serial.{
  Reader, pure, ◌>>=◌, serialize_pod, unserialize_pod, serialize_string, unserialize_string,
}
use net_fs.Serial.Codec.{IsCodec, IsCodec-seq, IsCodec-last}
use net_fs.Serial.Laws.{pod-IsCodec, string-IsCodec, FitsString}
use net_fs.Time.{
  FileTime, FitsFileTime, serialize_file_time, unserialize_file_time, file_time-IsCodec,
}

pub record MsgAccess : Type 0 where
  pub id : ℕ
  pub filename : List ℕ

unfoldable pub serialize_access : MsgAccess → List ℕ
serialize_access m = serialize_pod 4 m.id ++ serialize_string m.filename

unfoldable pub unserialize_access : Reader MsgAccess
unserialize_access = do
  id ← unserialize_pod 4
  filename ← unserialize_string
  pure (record { id = id; filename = filename })

abbrev pub FitsAccess : MsgAccess → Type 0
FitsAccess m = (m.id < 2 ^ 32) × (FitsString m.filename)

pub access-IsCodec : IsCodec FitsAccess serialize_access unserialize_access
unfolding serialize_access unserialize_access
access-IsCodec =
    IsCodec-seq (λ m. m.id) (λ m f. f.0) (pod-IsCodec 4)
      λ id fits_id.
        IsCodec-last (λ m. m.filename) (λ filename. record { id = id; filename = filename })
          (λ m f. f.0.1) string-IsCodec
          (λ filename fits_filename. (((fits_id, fits_filename), refl), refl))
          (λ filename _ m f e. λ i. record { id = f.1 i; filename = e i })

pub record MsgAccessResp : Type 0 where
  pub id : ℕ
  pub error : ℕ
  pub time : FileTime

unfoldable pub serialize_access_resp : MsgAccessResp → List ℕ
serialize_access_resp m =
    serialize_pod 4 m.id ++ (serialize_pod 4 m.error ++ serialize_file_time m.time)

unfoldable pub unserialize_access_resp : Reader MsgAccessResp
unserialize_access_resp = do
  id ← unserialize_pod 4
  error ← unserialize_pod 4
  time ← unserialize_file_time
  pure (record { id = id; error = error; time = time })

abbrev pub FitsAccessResp : MsgAccessResp → Type 0
FitsAccessResp m = (m.id < 2 ^ 32) × (m.error < 2 ^ 32) × (FitsFileTime m.time)

pub access_resp-IsCodec : IsCodec FitsAccessResp serialize_access_resp unserialize_access_resp
unfolding serialize_access_resp unserialize_access_resp
access_resp-IsCodec =
    IsCodec-seq (λ m. m.id) (λ m f. f.0) (pod-IsCodec 4)
      λ id fits_id.
        IsCodec-seq (λ m. m.error) (λ m f. f.0.1) (pod-IsCodec 4)
          λ error fits_error.
            IsCodec-last (λ m. m.time) (λ time. record { id = id; error = error; time = time })
              (λ m f. f.0.0.2) file_time-IsCodec
              (λ time fits_time. ((((fits_id, fits_error, fits_time), refl), refl), refl))
              (λ time _ m f e. λ i. record { id = f.0.1 i; error = f.1 i; time = e i })
