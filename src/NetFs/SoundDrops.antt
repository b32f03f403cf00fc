-- ===== src/NetFs/SoundDrops.antt =====
-- `unlink`, `rmdir` and `rename` of client_src/netfs.cpp, and the invariant of the cache.
use net_fs.Prelude.{
  ℕ, List, ◌==◌, Bool, true, false, if◌then◌else◌, ok, ◌>>=◌, >>=-eq-ok, ◌≡◌, Bool-cases, inl, inr,
}
use net_fs.Msg
use net_fs.Cache.State.{Cache}
use net_fs.Cache.Ops.{invalidate}
use net_fs.Cache.Sound.{IsSound, assert-eq-ok}
use net_fs.Cache.SoundOps.{invalidate-IsSound}
use net_fs.NetFs.State.{Peer, NetFs, exchange, as_unlink, as_rmdir, as_rename}
use net_fs.NetFs.Ops.{unlink, rmdir, rename}
use net_fs.NetFs.Sound.{SoundFs, same_fs, same_cache}

-- The file goes if a test says so, or the cache stays.
maybe_dropped :
    (f : List ℕ) (b : Bool) (c c' : Cache)
    → IsSound c
    → (if b then invalidate f c else ok c) ≡ ok c'
    → IsSound c'
maybe_dropped f true c c' sound h = invalidate-IsSound f c c' sound h
maybe_dropped f false c c' sound h = same_cache h sound

module _ {P : Type 0} (peer : Peer P) where
  pub unlink-SoundFs :
      (f : List ℕ) (fs fs' : NetFs P) (code : ℕ)
      → SoundFs fs
      → unlink peer f fs ≡ ok (code, fs')
      → SoundFs fs'
  unfolding unlink
  unlink-SoundFs f fs fs' code sound h =
      let ((id, resp, link), _, h₁) =
        >>=-eq-ok (exchange peer (λ id. Msg.unlink (record { id = id; filename = f })) fs.link) _
          h in
      let (r, _, h₂) = >>=-eq-ok (as_unlink resp) _ h₁ in
      let (_, h₃) = assert-eq-ok (r.id == id) _ h₂ in
      let (c', run, h₄) =
        >>=-eq-ok (if r.error == 0 then invalidate f fs.cache else ok fs.cache) _ h₃ in
      same_fs h₄ (maybe_dropped f (r.error == 0) fs.cache c' sound run)

  pub rmdir-SoundFs :
      (f : List ℕ) (fs fs' : NetFs P) (code : ℕ)
      → SoundFs fs
      → rmdir peer f fs ≡ ok (code, fs')
      → SoundFs fs'
  unfolding rmdir
  rmdir-SoundFs f fs fs' code sound h =
      let ((id, resp, link), _, h₁) =
        >>=-eq-ok (exchange peer (λ id. Msg.rmdir (record { id = id; filename = f })) fs.link) _
          h in
      let (r, _, h₂) = >>=-eq-ok (as_rmdir resp) _ h₁ in
      let (_, h₃) = assert-eq-ok (r.id == id) _ h₂ in
      let (c', run, h₄) =
        >>=-eq-ok (if r.error == 0 then invalidate f fs.cache else ok fs.cache) _ h₃ in
      same_fs h₄ (maybe_dropped f (r.error == 0) fs.cache c' sound run)

  pub rename-SoundFs :
      (f to : List ℕ) (flags : ℕ) (fs fs' : NetFs P) (code : ℕ)
      → SoundFs fs
      → rename peer f to flags fs ≡ ok (code, fs')
      → SoundFs fs'
  unfolding rename
  rename-SoundFs f to flags fs fs' code sound h =
      let ((id, resp, link), _, h₁) =
        >>=-eq-ok
          (exchange peer (λ id. Msg.rename (record { id = id; from = f; to = to; flags = flags }))
            fs.link)
          _ h in
      let (r, _, h₂) = >>=-eq-ok (as_rename resp) _ h₁ in
      let (_, h₃) = assert-eq-ok (r.id == id) _ h₂ in
      let (c', run, h₄) =
        >>=-eq-ok
          (if r.error == 0 then (do c₁ ← invalidate f fs.cache; invalidate to c₁) else ok fs.cache)
          _ h₃ in
      same_fs h₄ (elim (Bool-cases (r.error == 0)) [
        | inl done ↦
            let (c₁, first, second) = >>=-eq-ok (invalidate f fs.cache) _ (rw done at run) in
            invalidate-IsSound to c₁ c' (invalidate-IsSound f fs.cache c₁ sound first) second
        | inr failed ↦ same_cache (rw failed at run) sound
      ])
