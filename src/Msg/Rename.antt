-- ===== src/Msg/Rename.antt =====
-- common/msg_rename.hpp: the request and the response, their bodies on the stream, and their
-- codecs.
use net_fs.Prelude.{ℕ, ◌<◌, ◌^◌, List, ◌++◌, refl}
use net_fs.Serial.{
  Reader, pure, ◌>>=◌, serialize_pod, unserialize_pod, serialize_string, unserialize_string,
}
use net_fs.Serial.Codec.{IsCodec, IsCodec-seq, IsCodec-last}
use net_fs.Serial.Laws.{pod-IsCodec, string-IsCodec, FitsString}

pub record MsgRename : Type 0 where
  pub id : ℕ
  pub from : List ℕ
  pub to : List ℕ
  pub flags : ℕ

unfoldable pub serialize_rename : MsgRename → List ℕ
serialize_rename m =
    serialize_pod 4 m.id
    ++ (serialize_string m.from ++ (serialize_string m.to ++ serialize_pod 4 m.flags))

unfoldable pub unserialize_rename : Reader MsgRename
unserialize_rename = do
  id ← unserialize_pod 4
  from ← unserialize_string
  to ← unserialize_string
  flags ← unserialize_pod 4
  pure (record { id = id; from = from; to = to; flags = flags })

abbrev pub FitsRename : MsgRename → Type 0
FitsRename m = (m.id < 2 ^ 32) × (FitsString m.from) × (FitsString m.to) × (m.flags < 2 ^ 32)

pub rename-IsCodec : IsCodec FitsRename serialize_rename unserialize_rename
unfolding serialize_rename unserialize_rename
rename-IsCodec =
    IsCodec-seq (λ m. m.id) (λ m f. f.0) (pod-IsCodec 4)
      λ id fits_id.
        IsCodec-seq (λ m. m.from) (λ m f. f.0.1) string-IsCodec
          λ from fits_from.
            IsCodec-seq (λ m. m.to) (λ m f. f.0.0.2) string-IsCodec
              λ to fits_to.
                IsCodec-last (λ m. m.flags)
                  (λ flags. record { id = id; from = from; to = to; flags = flags })
                  (λ m f. f.0.0.0.3) (pod-IsCodec 4)
                  (λ flags fits_flags.
                    (((((fits_id, fits_from, fits_to, fits_flags), refl), refl), refl), refl))
                  (λ flags _ m f e.
                    λ i. record { id = f.0.0.1 i; from = f.0.1 i; to = f.1 i; flags = e i })

pub record MsgRenameResp : Type 0 where
  pub id : ℕ
  pub error : ℕ

unfoldable pub serialize_rename_resp : MsgRenameResp → List ℕ
serialize_rename_resp m = serialize_pod 4 m.id ++ serialize_pod 4 m.error

unfoldable pub unserialize_rename_resp : Reader MsgRenameResp
unserialize_rename_resp = do
  id ← unserialize_pod 4
  error ← unserialize_pod 4
  pure (record { id = id; error = error })

abbrev pub FitsRenameResp : MsgRenameResp → Type 0
FitsRenameResp m = (m.id < 2 ^ 32) × (m.error < 2 ^ 32)

pub rename_resp-IsCodec : IsCodec FitsRenameResp serialize_rename_resp unserialize_rename_resp
unfolding serialize_rename_resp unserialize_rename_resp
rename_resp-IsCodec =
    IsCodec-seq (λ m. m.id) (λ m f. f.0) (pod-IsCodec 4)
      λ id fits_id.
        IsCodec-last (λ m. m.error) (λ error. record { id = id; error = error }) (λ m f. f.0.1)
          (pod-IsCodec 4) (λ error fits_error. (((fits_id, fits_error), refl), refl))
          (λ error _ m f e. λ i. record { id = f.1 i; error = e i })
