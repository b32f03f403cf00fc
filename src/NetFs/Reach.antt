-- ===== src/NetFs/Reach.antt =====
-- What the operations of client_src/netfs.hpp can make of a `NetFS` whose cache is new. A run that
-- an assertion stops makes no step.
use net_fs.Prelude.{
  ℕ, List, Option, ◌==◌, ◌<◌, ◌^◌, ok, >>=-eq-ok, ◌≡◌, sym, subst, Bool-cases, inl, inr,
}
use net_fs.Msg
use net_fs.Msg.Statfs.{FsStat}
use net_fs.Cache.State.{FileAttr}
use net_fs.Cache.Sound.{IsSound, assert-eq-ok}
use net_fs.Cache.Reach.{new_cache, new_cache-IsSound}
use net_fs.NetFs.State.{Peer, NetFs, exchange, as_create, as_statfs, as_readdir, as_mkdir}
use net_fs.NetFs.Ops.{
  access, create, stat, statfs, readdir, read, write, truncate, flush, unlink, rmdir, mkdir, rename,
}
use net_fs.NetFs.Sound.{
  SoundFs, same_fs, same_fs_with, access-SoundFs, stat-SoundFs, read-SoundFs, write-SoundFs,
  truncate-SoundFs, flush-SoundFs,
}
use net_fs.NetFs.SoundDrops.{unlink-SoundFs, rmdir-SoundFs, rename-SoundFs}

module _ {P : Type 0} (peer : Peer P) where
  create-SoundFs :
      (f : List ℕ) (fs fs' : NetFs P) (code : ℕ)
      → SoundFs fs
      → create peer f fs ≡ ok (code, fs')
      → SoundFs fs'
  unfolding create
  create-SoundFs f fs fs' code sound h =
      let ((id, resp, link), _, h₁) =
        >>=-eq-ok (exchange peer (λ id. Msg.create (record { id = id; filename = f })) fs.link) _
          h in
      let (r, _, h₂) = >>=-eq-ok (as_create resp) _ h₁ in
      let (_, h₃) = assert-eq-ok (r.id == id) _ h₂ in same_fs h₃ sound

  statfs-SoundFs :
      (fs fs' : NetFs P) (code : ℕ) (found : Option FsStat)
      → SoundFs fs
      → statfs peer fs ≡ ok (code, found, fs')
      → SoundFs fs'
  unfolding statfs
  statfs-SoundFs fs fs' code found sound h =
      let ((id, resp, link), _, h₁) =
        >>=-eq-ok (exchange peer (λ id. Msg.statfs (record { id = id })) fs.link) _ h in
      let (r, _, h₂) = >>=-eq-ok (as_statfs resp) _ h₁ in
      let (_, h₃) = assert-eq-ok (r.id == id) _ h₂ in
      elim (Bool-cases (r.error == 0)) [
        | inl done ↦ same_fs_with (rw done at h₃) sound
        | inr failed ↦ same_fs_with (rw failed at h₃) sound
      ]

  readdir-SoundFs :
      (f : List ℕ) (fs fs' : NetFs P) (code : ℕ) (names : Option (List (List ℕ)))
      → SoundFs fs
      → readdir peer f fs ≡ ok (code, names, fs')
      → SoundFs fs'
  unfolding readdir
  readdir-SoundFs f fs fs' code names sound h =
      let ((id, resp, link), _, h₁) =
        >>=-eq-ok (exchange peer (λ id. Msg.readdir (record { id = id; filename = f })) fs.link) _
          h in
      let (r, _, h₂) = >>=-eq-ok (as_readdir resp) _ h₁ in
      let (_, h₃) = assert-eq-ok (r.id == id) _ h₂ in
      elim (Bool-cases (r.error == 0)) [
        | inl done ↦ same_fs_with (rw done at h₃) sound
        | inr failed ↦ same_fs_with (rw failed at h₃) sound
      ]

  mkdir-SoundFs :
      (f : List ℕ) (mode : ℕ) (fs fs' : NetFs P) (code : ℕ)
      → SoundFs fs
      → mkdir peer f mode fs ≡ ok (code, fs')
      → SoundFs fs'
  unfolding mkdir
  mkdir-SoundFs f mode fs fs' code sound h =
      let ((id, resp, link), _, h₁) =
        >>=-eq-ok
          (exchange peer (λ id. Msg.mkdir (record { id = id; filename = f; mode = mode })) fs.link)
          _ h in
      let (r, _, h₂) = >>=-eq-ok (as_mkdir resp) _ h₁ in
      let (_, h₃) = assert-eq-ok (r.id == id) _ h₂ in same_fs h₃ sound

  -- One operation of the file system, which returned.
  pub data FsStep (fs fs' : NetFs P) : Type 0 where
    accessed : (f : List ℕ) (code : ℕ) → access peer f fs ≡ ok (code, fs') → FsStep fs fs'
    created : (f : List ℕ) (code : ℕ) → create peer f fs ≡ ok (code, fs') → FsStep fs fs'
    asked :
        (f : List ℕ) (code : ℕ) (found : Option FileAttr)
        → stat peer f fs ≡ ok (code, found, fs')
        → FsStep fs fs'
    asked_fs :
        (code : ℕ) (found : Option FsStat) → statfs peer fs ≡ ok (code, found, fs') → FsStep fs fs'
    listed :
        (f : List ℕ) (code : ℕ) (names : Option (List (List ℕ)))
        → readdir peer f fs ≡ ok (code, names, fs')
        → FsStep fs fs'
    has_read :
        (f : List ℕ) (offset size code : ℕ) (bytes : List ℕ)
        → read peer f offset size fs ≡ ok (code, bytes, fs')
        → FsStep fs fs'
    wrote :
        (f : List ℕ) (offset : ℕ) (buf : List ℕ) (code : ℕ)
        → write peer f offset buf fs ≡ ok (code, fs')
        → FsStep fs fs'
    truncated :
        (f : List ℕ) (size code : ℕ) → truncate peer f size fs ≡ ok (code, fs') → FsStep fs fs'
    flushed : (f : List ℕ) (code : ℕ) → flush peer f fs ≡ ok (code, fs') → FsStep fs fs'
    unlinked : (f : List ℕ) (code : ℕ) → unlink peer f fs ≡ ok (code, fs') → FsStep fs fs'
    rmdir_done : (f : List ℕ) (code : ℕ) → rmdir peer f fs ≡ ok (code, fs') → FsStep fs fs'
    mkdir_done :
        (f : List ℕ) (mode code : ℕ) → mkdir peer f mode fs ≡ ok (code, fs') → FsStep fs fs'
    renamed :
        (f to : List ℕ) (flags code : ℕ)
        → rename peer f to flags fs ≡ ok (code, fs')
        → FsStep fs fs'
    -- another client, or the server itself, changes what stands behind the connection
    changed : fs'.cache ≡ fs.cache → FsStep fs fs'

  FsStep-SoundFs : (fs fs' : NetFs P) → FsStep fs fs' → SoundFs fs → SoundFs fs'
  FsStep-SoundFs fs fs' (accessed f code h) sound = access-SoundFs peer f fs fs' code sound h
  FsStep-SoundFs fs fs' (created f code h) sound = create-SoundFs f fs fs' code sound h
  FsStep-SoundFs fs fs' (asked f code found h) sound = stat-SoundFs peer f fs fs' code sound h
  FsStep-SoundFs fs fs' (asked_fs code found h) sound = statfs-SoundFs fs fs' code found sound h
  FsStep-SoundFs fs fs' (listed f code names h) sound = readdir-SoundFs f fs fs' code names sound h
  FsStep-SoundFs fs fs' (has_read f offset size code bytes h) sound =
      read-SoundFs peer f offset size fs fs' code sound h
  FsStep-SoundFs fs fs' (wrote f offset buf code h) sound =
      write-SoundFs peer f offset buf fs fs' code sound h
  FsStep-SoundFs fs fs' (truncated f size code h) sound =
      truncate-SoundFs peer f size fs fs' code sound h
  FsStep-SoundFs fs fs' (flushed f code h) sound = flush-SoundFs peer f fs fs' code sound h
  FsStep-SoundFs fs fs' (unlinked f code h) sound = unlink-SoundFs peer f fs fs' code sound h
  FsStep-SoundFs fs fs' (rmdir_done f code h) sound = rmdir-SoundFs peer f fs fs' code sound h
  FsStep-SoundFs fs fs' (mkdir_done f mode code h) sound = mkdir-SoundFs f mode fs fs' code sound h
  FsStep-SoundFs fs fs' (renamed f to flags code h) sound =
      rename-SoundFs peer f to flags fs fs' code sound h
  FsStep-SoundFs fs fs' (changed same) sound = subst IsSound (sym same) sound

  pub data Used (block_size : ℕ) : NetFs P → Type 0 where
    fresh : {fs : NetFs P} → fs.cache ≡ new_cache block_size → Used block_size fs
    after : {fs fs' : NetFs P} → Used block_size fs → FsStep fs fs' → Used block_size fs'

  -- The cache of a file system that was used from a new cache on, whose block size is positive and
  -- fits a `size_t`, is sound after any operations in any order, whatever the server answers and
  -- whatever other clients do in between, also after operations that returned an error.
  pub Used-SoundFs :
      (block_size : ℕ) (fs : NetFs P)
      → 0 < block_size
      → block_size < 2 ^ 64
      → Used block_size fs
      → SoundFs fs
  Used-SoundFs block_size fs positive small (fresh new) =
      subst IsSound (sym new) (new_cache-IsSound block_size positive small)
  Used-SoundFs block_size fs positive small (after used step) =
      FsStep-SoundFs _ fs step (Used-SoundFs block_size _ positive small used)
