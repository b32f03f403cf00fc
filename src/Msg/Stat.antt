-- ===== src/Msg/Stat.antt =====
-- common/msg_stat.hpp: the request and the response, their bodies on the stream, and their codecs.
use net_fs.Prelude.{ℕ, ◌<◌, ◌^◌, List, ◌++◌, refl}
use net_fs.Serial.{
  Reader, pure, ◌>>=◌, serialize_pod, unserialize_pod, serialize_string, unserialize_string,
}
use net_fs.Serial.Codec.{IsCodec, IsCodec-seq, IsCodec-last}
use net_fs.Serial.Laws.{pod-IsCodec, string-IsCodec, FitsString}
use net_fs.Time.{
  FileTime, FitsFileTime, serialize_file_time, unserialize_file_time, file_time-IsCodec,
}

-- The packed struct `MsgStatResp::Stat`, sent as its fields in their order.
pub record Stat : Type 0 where
  pub size : ℕ
  pub mode : ℕ
  pub time : FileTime

unfoldable pub serialize_stat_struct : Stat → List ℕ
serialize_stat_struct m =
    serialize_pod 8 m.size ++ (serialize_pod 8 m.mode ++ serialize_file_time m.time)

unfoldable pub unserialize_stat_struct : Reader Stat
unserialize_stat_struct = do
  size ← unserialize_pod 8
  mode ← unserialize_pod 8
  time ← unserialize_file_time
  pure (record { size = size; mode = mode; time = time })

abbrev pub FitsStatStruct : Stat → Type 0
FitsStatStruct m = (m.size < 2 ^ 64) × (m.mode < 2 ^ 64) × (FitsFileTime m.time)

pub stat_struct-IsCodec : IsCodec FitsStatStruct serialize_stat_struct unserialize_stat_struct
unfolding serialize_stat_struct unserialize_stat_struct
stat_struct-IsCodec =
    IsCodec-seq (λ m. m.size) (λ m f. f.0) (pod-IsCodec 8)
      λ size fits_size.
        IsCodec-seq (λ m. m.mode) (λ m f. f.0.1) (pod-IsCodec 8)
          λ mode fits_mode.
            IsCodec-last (λ m. m.time) (λ time. record { size = size; mode = mode; time = time })
              (λ m f. f.0.0.2) file_time-IsCodec
              (λ time fits_time. ((((fits_size, fits_mode, fits_time), refl), refl), refl))
              (λ time _ m f e. λ i. record { size = f.0.1 i; mode = f.1 i; time = e i })

pub record MsgStat : Type 0 where
  pub id : ℕ
  pub filename : List ℕ

unfoldable pub serialize_stat : MsgStat → List ℕ
serialize_stat m = serialize_pod 4 m.id ++ serialize_string m.filename

unfoldable pub unserialize_stat : Reader MsgStat
unserialize_stat = do
  id ← unserialize_pod 4
  filename ← unserialize_string
  pure (record { id = id; filename = filename })

abbrev pub FitsStat : MsgStat → Type 0
FitsStat m = (m.id < 2 ^ 32) × (FitsString m.filename)

pub stat-IsCodec : IsCodec FitsStat serialize_stat unserialize_stat
unfolding serialize_stat unserialize_stat
stat-IsCodec =
    IsCodec-seq (λ m. m.id) (λ m f. f.0) (pod-IsCodec 4)
      λ id fits_id.
        IsCodec-last (λ m. m.filename) (λ filename. record { id = id; filename = filename })
          (λ m f. f.0.1) string-IsCodec
          (λ filename fits_filename. (((fits_id, fits_filename), refl), refl))
          (λ filename _ m f e. λ i. record { id = f.1 i; filename = e i })

pub record MsgStatResp : Type 0 where
  pub id : ℕ
  pub error : ℕ
  pub stat : Stat

unfoldable pub serialize_stat_resp : MsgStatResp → List ℕ
serialize_stat_resp m =
    serialize_pod 4 m.id ++ (serialize_pod 4 m.error ++ serialize_stat_struct m.stat)

unfoldable pub unserialize_stat_resp : Reader MsgStatResp
unserialize_stat_resp = do
  id ← unserialize_pod 4
  error ← unserialize_pod 4
  stat ← unserialize_stat_struct
  pure (record { id = id; error = error; stat = stat })

abbrev pub FitsStatResp : MsgStatResp → Type 0
FitsStatResp m = (m.id < 2 ^ 32) × (m.error < 2 ^ 32) × (FitsStatStruct m.stat)

pub stat_resp-IsCodec : IsCodec FitsStatResp serialize_stat_resp unserialize_stat_resp
unfolding serialize_stat_resp unserialize_stat_resp
stat_resp-IsCodec =
    IsCodec-seq (λ m. m.id) (λ m f. f.0) (pod-IsCodec 4)
      λ id fits_id.
        IsCodec-seq (λ m. m.error) (λ m f. f.0.1) (pod-IsCodec 4)
          λ error fits_error.
            IsCodec-last (λ m. m.stat) (λ stat. record { id = id; error = error; stat = stat })
              (λ m f. f.0.0.2) stat_struct-IsCodec
              (λ stat fits_stat. ((((fits_id, fits_error, fits_stat), refl), refl), refl))
              (λ stat _ m f e. λ i. record { id = f.0.1 i; error = f.1 i; stat = e i })
