-- ===== src/Msg/Statfs.antt =====
-- common/msg_statfs.hpp: the request and the response, their bodies on the stream, and their
-- codecs.
use net_fs.Prelude.{ℕ, ◌<◌, ◌^◌, List, ◌++◌, refl}
use net_fs.Serial.{Reader, pure, ◌>>=◌, serialize_pod, unserialize_pod}
use net_fs.Serial.Codec.{IsCodec, IsCodec-seq, IsCodec-last}
use net_fs.Serial.Laws.{pod-IsCodec}

-- The packed struct `FsStat`, sent as its fields in their order.
pub record FsStat : Type 0 where
  pub bsize : ℕ
  pub frsize : ℕ
  pub blocks : ℕ
  pub bfree : ℕ
  pub bavail : ℕ
  pub files : ℕ
  pub ffree : ℕ
  pub namemax : ℕ

unfoldable pub serialize_fs_stat : FsStat → List ℕ
serialize_fs_stat m =
    serialize_pod 8 m.bsize
    ++ (serialize_pod 8 m.frsize
        ++ (serialize_pod 8 m.blocks
            ++ (serialize_pod 8 m.bfree
                ++ (serialize_pod 8 m.bavail
                    ++ (serialize_pod 8 m.files
                        ++ (serialize_pod 8 m.ffree ++ serialize_pod 8 m.namemax))))))

unfoldable pub unserialize_fs_stat : Reader FsStat
unserialize_fs_stat = do
  bsize ← unserialize_pod 8
  frsize ← unserialize_pod 8
  blocks ← unserialize_pod 8
  bfree ← unserialize_pod 8
  bavail ← unserialize_pod 8
  files ← unserialize_pod 8
  ffree ← unserialize_pod 8
  namemax ← unserialize_pod 8
  pure (record {
    bsize = bsize;
    frsize = frsize;
    blocks = blocks;
    bfree = bfree;
    bavail = bavail;
    files = files;
    ffree = ffree;
    namemax = namemax;
  })

abbrev pub FitsFsStat : FsStat → Type 0
FitsFsStat m =
    (m.bsize < 2 ^ 64)
    × (m.frsize < 2 ^ 64)
    × (m.blocks < 2 ^ 64)
    × (m.bfree < 2 ^ 64)
    × (m.bavail < 2 ^ 64)
    × (m.files < 2 ^ 64)
    × (m.ffree < 2 ^ 64)
    × (m.namemax < 2 ^ 64)

pub fs_stat-IsCodec : IsCodec FitsFsStat serialize_fs_stat unserialize_fs_stat
unfolding serialize_fs_stat unserialize_fs_stat
fs_stat-IsCodec =
    IsCodec-seq (λ m. m.bsize) (λ m f. f.0) (pod-IsCodec 8)
      λ bsize fits_bsize.
        IsCodec-seq (λ m. m.frsize) (λ m f. f.0.1) (pod-IsCodec 8)
          λ frsize fits_frsize.
            IsCodec-seq (λ m. m.blocks) (λ m f. f.0.0.2) (pod-IsCodec 8)
              λ blocks fits_blocks.
                IsCodec-seq (λ m. m.bfree) (λ m f. f.0.0.0.3) (pod-IsCodec 8)
                  λ bfree fits_bfree.
                    IsCodec-seq (λ m. m.bavail) (λ m f. f.0.0.0.0.4) (pod-IsCodec 8)
                      λ bavail fits_bavail.
                        IsCodec-seq (λ m. m.files) (λ m f. f.0.0.0.0.0.5) (pod-IsCodec 8)
                          λ files fits_files.
                            IsCodec-seq (λ m. m.ffree) (λ m f. f.0.0.0.0.0.0.6) (pod-IsCodec 8)
                              λ ffree fits_ffree.
                                IsCodec-last (λ m. m.namemax)
                                  (λ namemax. record {
                                    bsize = bsize;
                                    frsize = frsize;
                                    blocks = blocks;
                                    bfree = bfree;
                                    bavail = bavail;
                                    files = files;
                                    ffree = ffree;
                                    namemax = namemax;
                                  })
                                  (λ m f. f.0.0.0.0.0.0.0.7) (pod-IsCodec 8)
                                  (λ namemax fits_namemax. (
                                    (
                                      (
                                        (
                                          (
                                            (
                                              (
                                                (
                                                  (
                                                    fits_bsize, fits_frsize, fits_blocks,
                                                    fits_bfree, fits_bavail, fits_files, fits_ffree,
                                                    fits_namemax,
                                                  ),
                                                  refl,
                                                ),
                                                refl,
                                              ),
                                              refl,
                                            ),
                                            refl,
                                          ),
                                          refl,
                                        ),
                                        refl,
                                      ),
                                      refl,
                                    ),
                                    refl,
                                  ))
                                  (λ namemax _ m f e. λ i. record {
                                    bsize = f.0.0.0.0.0.0.1 i;
                                    frsize = f.0.0.0.0.0.1 i;
                                    blocks = f.0.0.0.0.1 i;
                                    bfree = f.0.0.0.1 i;
                                    bavail = f.0.0.1 i;
                                    files = f.0.1 i;
                                    ffree = f.1 i;
                                    namemax = e i;
                                  })

pub record MsgStatfs : Type 0 where
  pub id : ℕ

unfoldable pub serialize_statfs : MsgStatfs → List ℕ
serialize_statfs m = serialize_pod 4 m.id

unfoldable pub unserialize_statfs : Reader MsgStatfs
unserialize_statfs = do id ← unserialize_pod 4; pure (record { id = id })

abbrev pub FitsStatfs : MsgStatfs → Type 0
FitsStatfs m = m.id < 2 ^ 32

pub statfs-IsCodec : IsCodec FitsStatfs serialize_statfs unserialize_statfs
unfolding serialize_statfs unserialize_statfs
statfs-IsCodec =
    IsCodec-last (λ m. m.id) (λ id. record { id = id }) (λ m f. f) (pod-IsCodec 4)
      (λ id fits_id. (fits_id, refl)) (λ id _ m f e. λ i. record { id = e i })

pub record MsgStatfsResp : Type 0 where
  pub id : ℕ
  pub error : ℕ
  pub stat : FsStat

unfoldable pub serialize_statfs_resp : MsgStatfsResp → List ℕ
serialize_statfs_resp m =
    serialize_pod 4 m.id ++ (serialize_pod 4 m.error ++ serialize_fs_stat m.stat)

unfoldable pub unserialize_statfs_resp : Reader MsgStatfsResp
unserialize_statfs_resp = do
  id ← unserialize_pod 4
  error ← unserialize_pod 4
  stat ← unserialize_fs_stat
  pure (record { id = id; error = error; stat = stat })

abbrev pub FitsStatfsResp : MsgStatfsResp → Type 0
FitsStatfsResp m = (m.id < 2 ^ 32) × (m.error < 2 ^ 32) × (FitsFsStat m.stat)

pub statfs_resp-IsCodec : IsCodec FitsStatfsResp serialize_statfs_resp unserialize_statfs_resp
unfolding serialize_statfs_resp unserialize_statfs_resp
statfs_resp-IsCodec =
    IsCodec-seq (λ m. m.id) (λ m f. f.0) (pod-IsCodec 4)
      λ id fits_id.
        IsCodec-seq (λ m. m.error) (λ m f. f.0.1) (pod-IsCodec 4)
          λ error fits_error.
            IsCodec-last (λ m. m.stat) (λ stat. record { id = id; error = error; stat = stat })
              (λ m f. f.0.0.2) fs_stat-IsCodec
              (λ stat fits_stat. ((((fits_id, fits_error, fits_stat), refl), refl), refl))
              (λ stat _ m f e. λ i. record { id = f.0.1 i; error = f.1 i; stat = e i })
