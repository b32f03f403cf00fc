-- ===== src/Msg/Unlink.antt =====
-- common/msg_unlink.hpp: the request and the response, their bodies on the stream, and their
-- codecs.
use net_fs.Prelude.{ℕ, ◌<◌, ◌^◌, List, ◌++◌, refl}
use net_fs.Serial.{
  Reader, pure, ◌>>=◌, serialize_pod, unserialize_pod, serialize_string, unserialize_string,
}
use net_fs.Serial.Codec.{IsCodec, IsCodec-seq, IsCodec-last}
use net_fs.Serial.Laws.{pod-IsCodec, string-IsCodec, FitsString}

pub record MsgUnlink : Type 0 where
  pub id : ℕ
  pub filename : List ℕ

unfoldable pub serialize_unlink : MsgUnlink → List ℕ
serialize_unlink m = serialize_pod 4 m.id ++ serialize_string m.filename

unfoldable pub unserialize_unlink : Reader MsgUnlink
unserialize_unlink = do
  id ← unserialize_pod 4
  filename ← unserialize_string
  pure (record { id = id; filename = filename })

abbrev pub FitsUnlink : MsgUnlink → Type 0
FitsUnlink m = (m.id < 2 ^ 32) × (FitsString m.filename)

pub unlink-IsCodec : IsCodec FitsUnlink serialize_unlink unserialize_unlink
unfolding serialize_unlink unserialize_unlink
unlink-IsCodec =
    IsCodec-seq (λ m. m.id) (λ m f. f.0) (pod-IsCodec 4)
      λ id fits_id.
        IsCodec-last (λ m. m.filename) (λ filename. record { id = id; filename = filename })
          (λ m f. f.0.1) string-IsCodec
          (λ filename fits_filename. (((fits_id, fits_filename), refl), refl))
          (λ filename _ m f e. λ i. record { id = f.1 i; filename = e i })

pub record MsgUnlinkResp : Type 0 where
  pub id : ℕ
  pub error : ℕ

unfoldable pub serialize_unlink_resp : MsgUnlinkResp → List ℕ
serialize_unlink_resp m = serialize_pod 4 m.id ++ serialize_pod 4 m.error

unfoldable pub unserialize_unlink_resp : Reader MsgUnlinkResp
unserialize_unlink_resp = do
  id ← unserialize_pod 4
  error ← unserialize_pod 4
  pure (record { id = id; error = error })

abbrev pub FitsUnlinkResp : MsgUnlinkResp → Type 0
FitsUnlinkResp m = (m.id < 2 ^ 32) × (m.error < 2 ^ 32)

pub unlink_resp-IsCodec : IsCodec FitsUnlinkResp serialize_unlink_resp unserialize_unlink_resp
unfolding serialize_unlink_resp unserialize_unlink_resp
unlink_resp-IsCodec =
    IsCodec-seq (λ m. m.id) (λ m f. f.0) (pod-IsCodec 4)
      λ id fits_id.
        IsCodec-last (λ m. m.error) (λ error. record { id = id; error = error }) (λ m f. f.0.1)
          (pod-IsCodec 4) (λ error fits_error. (((fits_id, fits_error), refl), refl))
          (λ error _ m f e. λ i. record { id = f.1 i; error = e i })
