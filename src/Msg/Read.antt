-- ===== src/Msg/Read.antt =====
-- common/msg_read.hpp: the request and the response, their bodies on the stream, and their codecs.
use net_fs.Prelude.{ℕ, ◌<◌, ◌^◌, List, ◌++◌, refl}
use net_fs.Serial.{
  Reader, pure, ◌>>=◌, serialize_pod, unserialize_pod, serialize_string, unserialize_string,
  serialize_vector_char, unserialize_vector_char,
}
use net_fs.Serial.Codec.{IsCodec, IsCodec-seq, IsCodec-last}
use net_fs.Serial.Laws.{
  pod-IsCodec, string-IsCodec, vector_char-IsCodec, FitsString, FitsVectorChar,
}

pub record MsgRead : Type 0 where
  pub id : ℕ
  pub filename : List ℕ
  pub offset : ℕ
  pub size : ℕ

unfoldable pub serialize_read : MsgRead → List ℕ
serialize_read m =
    serialize_pod 4 m.id
    ++ (serialize_string m.filename ++ (serialize_pod 8 m.offset ++ serialize_pod 8 m.size))

unfoldable pub unserialize_read : Reader MsgRead
unserialize_read = do
  id ← unserialize_pod 4
  filename ← unserialize_string
  offset ← unserialize_pod 8
  size ← unserialize_pod 8
  pure (record { id = id; filename = filename; offset = offset; size = size })

abbrev pub FitsRead : MsgRead → Type 0
FitsRead m = (m.id < 2 ^ 32) × (FitsString m.filename) × (m.offset < 2 ^ 64) × (m.size < 2 ^ 64)

pub read-IsCodec : IsCodec FitsRead serialize_read unserialize_read
unfolding serialize_read unserialize_read
read-IsCodec =
    IsCodec-seq (λ m. m.id) (λ m f. f.0) (pod-IsCodec 4)
      λ id fits_id.
        IsCodec-seq (λ m. m.filename) (λ m f. f.0.1) string-IsCodec
          λ filename fits_filename.
            IsCodec-seq (λ m. m.offset) (λ m f. f.0.0.2) (pod-IsCodec 8)
              λ offset fits_offset.
                IsCodec-last (λ m. m.size)
                  (λ size. record { id = id; filename = filename; offset = offset; size = size })
                  (λ m f. f.0.0.0.3) (pod-IsCodec 8)
                  (λ size fits_size. (
                    ((((fits_id, fits_filename, fits_offset, fits_size), refl), refl), refl),
                    refl,
                  ))
                  (λ size _ m f e.
                    λ i. record { id = f.0.0.1 i; filename = f.0.1 i; offset = f.1 i; size = e i })

pub record MsgReadResp : Type 0 where
  pub id : ℕ
  pub error : ℕ
  pub content : List ℕ

unfoldable pub serialize_read_resp : MsgReadResp → List ℕ
serialize_read_resp m =
    serialize_pod 4 m.id ++ (serialize_pod 4 m.error ++ serialize_vector_char m.content)

unfoldable pub unserialize_read_resp : Reader MsgReadResp
unserialize_read_resp = do
  id ← unserialize_pod 4
  error ← unserialize_pod 4
  content ← unserialize_vector_char
  pure (record { id = id; error = error; content = content })

abbrev pub FitsReadResp : MsgReadResp → Type 0
FitsReadResp m = (m.id < 2 ^ 32) × (m.error < 2 ^ 32) × (FitsVectorChar m.content)

pub read_resp-IsCodec : IsCodec FitsReadResp serialize_read_resp unserialize_read_resp
unfolding serialize_read_resp unserialize_read_resp
read_resp-IsCodec =
    IsCodec-seq (λ m. m.id) (λ m f. f.0) (pod-IsCodec 4)
      λ id fits_id.
        IsCodec-seq (λ m. m.error) (λ m f. f.0.1) (pod-IsCodec 4)
          λ error fits_error.
            IsCodec-last (λ m. m.content)
              (λ content. record { id = id; error = error; content = content }) (λ m f. f.0.0.2)
              vector_char-IsCodec
              (λ content fits_content. ((((fits_id, fits_error, fits_content), refl), refl), refl))
              (λ content _ m f e. λ i. record { id = f.0.1 i; error = f.1 i; content = e i })
