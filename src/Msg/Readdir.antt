-- ===== src/Msg/Readdir.antt =====
-- common/msg_readdir.hpp: the request and the response, their bodies on the stream, and their
-- codecs.
use net_fs.Prelude.{ℕ, ◌<◌, ◌^◌, List, ◌++◌, refl, length}
use net_fs.Serial.{
  Reader, pure, ◌>>=◌, serialize_pod, unserialize_pod, serialize_string, unserialize_string,
  serialize_vector, unserialize_vector,
}
use net_fs.Serial.Codec.{IsCodec, IsCodec-seq, IsCodec-last}
use net_fs.Serial.Laws.{pod-IsCodec, string-IsCodec, FitsString}
use net_fs.Serial.Vectors.{All, vector-IsCodec}

pub record MsgReaddir : Type 0 where
  pub id : ℕ
  pub filename : List ℕ

unfoldable pub serialize_readdir : MsgReaddir → List ℕ
serialize_readdir m = serialize_pod 4 m.id ++ serialize_string m.filename

unfoldable pub unserialize_readdir : Reader MsgReaddir
unserialize_readdir = do
  id ← unserialize_pod 4
  filename ← unserialize_string
  pure (record { id = id; filename = filename })

abbrev pub FitsReaddir : MsgReaddir → Type 0
FitsReaddir m = (m.id < 2 ^ 32) × (FitsString m.filename)

pub readdir-IsCodec : IsCodec FitsReaddir serialize_readdir unserialize_readdir
unfolding serialize_readdir unserialize_readdir
readdir-IsCodec =
    IsCodec-seq (λ m. m.id) (λ m f. f.0) (pod-IsCodec 4)
      λ id fits_id.
        IsCodec-last (λ m. m.filename) (λ filename. record { id = id; filename = filename })
          (λ m f. f.0.1) string-IsCodec
          (λ filename fits_filename. (((fits_id, fits_filename), refl), refl))
          (λ filename _ m f e. λ i. record { id = f.1 i; filename = e i })

pub record MsgReaddirResp : Type 0 where
  pub id : ℕ
  pub error : ℕ
  pub dir_names : List (List ℕ)

unfoldable pub serialize_readdir_resp : MsgReaddirResp → List ℕ
serialize_readdir_resp m =
    serialize_pod 4 m.id
    ++ (serialize_pod 4 m.error ++ serialize_vector serialize_string m.dir_names)

unfoldable pub unserialize_readdir_resp : Reader MsgReaddirResp
unserialize_readdir_resp = do
  id ← unserialize_pod 4
  error ← unserialize_pod 4
  dir_names ← unserialize_vector unserialize_string
  pure (record { id = id; error = error; dir_names = dir_names })

abbrev pub FitsReaddirResp : MsgReaddirResp → Type 0
FitsReaddirResp m =
    (m.id < 2 ^ 32)
    × (m.error < 2 ^ 32)
    × (All FitsString m.dir_names × (length m.dir_names < 2 ^ 64))

pub readdir_resp-IsCodec : IsCodec FitsReaddirResp serialize_readdir_resp unserialize_readdir_resp
unfolding serialize_readdir_resp unserialize_readdir_resp
readdir_resp-IsCodec =
    IsCodec-seq (λ m. m.id) (λ m f. f.0) (pod-IsCodec 4)
      λ id fits_id.
        IsCodec-seq (λ m. m.error) (λ m f. f.0.1) (pod-IsCodec 4)
          λ error fits_error.
            IsCodec-last (λ m. m.dir_names)
              (λ dir_names. record { id = id; error = error; dir_names = dir_names })
              (λ m f. f.0.0.2) (vector-IsCodec string-IsCodec)
              (λ dir_names fits_dir_names.
                ((((fits_id, fits_error, fits_dir_names), refl), refl), refl))
              (λ dir_names _ m f e. λ i. record { id = f.0.1 i; error = f.1 i; dir_names = e i })
