-- ===== src/Msg/Create.antt =====
-- common/msg_create.hpp: the request and the response, their bodies on the stream, and their
-- codecs.
use net_fs.Prelude.{ℕ, ◌<◌, ◌^◌, List, ◌++◌, refl}
use net_fs.Serial.{
  Reader, pure, ◌>>=◌, serialize_pod, unserialize_pod, serialize_string, unserialize_string,
}
use net_fs.Serial.Codec.{IsCodec, IsCodec-seq, IsCodec-last}
use net_fs.Serial.Laws.{pod-IsCodec, string-IsCodec, FitsString}

pub record MsgCreate : Type 0 where
  pub id : ℕ
  pub filename : List ℕ

unfoldable pub serialize_create : MsgCreate → List ℕ
serialize_create m = serialize_pod 4 m.id ++ serialize_string m.filename

unfoldable pub unserialize_create : Reader MsgCreate
unserialize_create = do
  id ← unserialize_pod 4
  filename ← unserialize_string
  pure (record { id = id; filename = filename })

abbrev pub FitsCreate : MsgCreate → Type 0
FitsCreate m = (m.id < 2 ^ 32) × (FitsString m.filename)

pub create-IsCodec : IsCodec FitsCreate serialize_create unserialize_create
unfolding serialize_create unserialize_create
create-IsCodec =
    IsCodec-seq (λ m. m.id) (λ m f. f.0) (pod-IsCodec 4)
      λ id fits_id.
        IsCodec-last (λ m. m.filename) (λ filename. record { id = id; filename = filename })
          (λ m f. f.0.1) string-IsCodec
          (λ filename fits_filename. (((fits_id, fits_filename), refl), refl))
          (λ filename _ m f e. λ i. record { id = f.1 i; filename = e i })

pub record MsgCreateResp : Type 0 where
  pub id : ℕ
  pub error : ℕ

unfoldable pub serialize_create_resp : MsgCreateResp → List ℕ
serialize_create_resp m = serialize_pod 4 m.id ++ serialize_pod 4 m.error

unfoldable pub unserialize_create_resp : Reader MsgCreateResp
unserialize_create_resp = do
  id ← unserialize_pod 4
  error ← unserialize_pod 4
  pure (record { id = id; error = error })

abbrev pub FitsCreateResp : MsgCreateResp → Type 0
FitsCreateResp m = (m.id < 2 ^ 32) × (m.error < 2 ^ 32)

pub create_resp-IsCodec : IsCodec FitsCreateResp serialize_create_resp unserialize_create_resp
unfolding serialize_create_resp unserialize_create_resp
create_resp-IsCodec =
    IsCodec-seq (λ m. m.id) (λ m f. f.0) (pod-IsCodec 4)
      λ id fits_id.
        IsCodec-last (λ m. m.error) (λ error. record { id = id; error = error }) (λ m f. f.0.1)
          (pod-IsCodec 4) (λ error fits_error. (((fits_id, fits_error), refl), refl))
          (λ error _ m f e. λ i. record { id = f.1 i; error = e i })
