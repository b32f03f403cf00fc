-- ===== src/Msg/Mkdir.antt =====
-- common/msg_mkdir.hpp: the request and the response, their bodies on the stream, and their codecs.
use net_fs.Prelude.{ℕ, ◌<◌, ◌^◌, List, ◌++◌, refl}
use net_fs.Serial.{
  Reader, pure, ◌>>=◌, serialize_pod, unserialize_pod, serialize_string, unserialize_string,
}
use net_fs.Serial.Codec.{IsCodec, IsCodec-seq, IsCodec-last}
use net_fs.Serial.Laws.{pod-IsCodec, string-IsCodec, FitsString}

pub record MsgMkdir : Type 0 where
  pub id : ℕ
  pub filename : List ℕ
  pub mode : ℕ

unfoldable pub serialize_mkdir : MsgMkdir → List ℕ
serialize_mkdir m = serialize_pod 4 m.id ++ (serialize_string m.filename ++ serialize_pod 4 m.mode)

unfoldable pub unserialize_mkdir : Reader MsgMkdir
unserialize_mkdir = do
  id ← unserialize_pod 4
  filename ← unserialize_string
  mode ← unserialize_pod 4
  pure (record { id = id; filename = filename; mode = mode })

abbrev pub FitsMkdir : MsgMkdir → Type 0
FitsMkdir m = (m.id < 2 ^ 32) × (FitsString m.filename) × (m.mode < 2 ^ 32)

pub mkdir-IsCodec : IsCodec FitsMkdir serialize_mkdir unserialize_mkdir
unfolding serialize_mkdir unserialize_mkdir
mkdir-IsCodec =
    IsCodec-seq (λ m. m.id) (λ m f. f.0) (pod-IsCodec 4)
      λ id fits_id.
        IsCodec-seq (λ m. m.filename) (λ m f. f.0.1) string-IsCodec
          λ filename fits_filename.
            IsCodec-last (λ m. m.mode)
              (λ mode. record { id = id; filename = filename; mode = mode }) (λ m f. f.0.0.2)
              (pod-IsCodec 4)
              (λ mode fits_mode. ((((fits_id, fits_filename, fits_mode), refl), refl), refl))
              (λ mode _ m f e. λ i. record { id = f.0.1 i; filename = f.1 i; mode = e i })

pub record MsgMkdirResp : Type 0 where
  pub id : ℕ
  pub error : ℕ

unfoldable pub serialize_mkdir_resp : MsgMkdirResp → List ℕ
serialize_mkdir_resp m = serialize_pod 4 m.id ++ serialize_pod 4 m.error

unfoldable pub unserialize_mkdir_resp : Reader MsgMkdirResp
unserialize_mkdir_resp = do
  id ← unserialize_pod 4
  error ← unserialize_pod 4
  pure (record { id = id; error = error })

abbrev pub FitsMkdirResp : MsgMkdirResp → Type 0
FitsMkdirResp m = (m.id < 2 ^ 32) × (m.error < 2 ^ 32)

pub mkdir_resp-IsCodec : IsCodec FitsMkdirResp serialize_mkdir_resp unserialize_mkdir_resp
unfolding serialize_mkdir_resp unserialize_mkdir_resp
mkdir_resp-IsCodec =
    IsCodec-seq (λ m. m.id) (λ m f. f.0) (pod-IsCodec 4)
      λ id fits_id.
        IsCodec-last (λ m. m.error) (λ error. record { id = id; error = error }) (λ m f. f.0.1)
          (pod-IsCodec 4) (λ error fits_error. (((fits_id, fits_error), refl), refl))
          (λ error _ m f e. λ i. record { id = f.1 i; error = e i })
