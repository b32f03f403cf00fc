-- ===== src/NetFs/Sound.antt =====
-- The operations of `NetFS` in client_src/netfs.cpp that use the cache, and its invariant.
use net_fs.Prelude.{
  ℕ, List, Option, ◌==◌, leb, ltb, length, ◌+◌, if◌then◌else◌, Result, ok, >>=-eq-ok, ◌≡◌, refl, ap,
  subst, Bool-cases, Option-cases, inl, inr,
}
use net_fs.Time.{FileTime, file_time_ne}
use net_fs.Msg
use net_fs.Cache.State.{FileAttr, Cache}
use net_fs.Cache.Ops
use net_fs.Cache.Ops.{is_stale, get_file_time, invalidate}
use net_fs.Cache.Flush
use net_fs.Cache.Flush.{evict_blocks, flush_dirty_blocks}
use net_fs.Cache.Sound.{IsSound, assert-eq-ok, same_result}
use net_fs.Cache.SoundOps.{invalidate-IsSound}
use net_fs.Cache.SoundCalls.{read-IsSound, write-IsSound, truncate-IsSound}
use net_fs.Cache.SoundFlush.{flush-IsSound, flush_dirty_blocks-IsSound, evict_blocks-IsSound}
use net_fs.NetFs.State.{Peer, NetFs, exchange, as_access}
use net_fs.NetFs.Remote.{do_read_attr, callbacks}
use net_fs.NetFs.Ops.{
  with_cache, drop_if_changed, access, stat, evict, read, count_write, write, truncate, flush,
}

abbrev pub SoundFs : {P : Type 0} → NetFs P → Type 0
SoundFs fs = IsSound fs.cache

pub same_fs :
    {P : Type 0} {code code' : ℕ} {fs fs' : NetFs P}
    → ◌≡◌ {A = Result (ℕ × NetFs P)} (ok (code, fs)) (ok (code', fs'))
    → SoundFs fs
    → SoundFs fs'
same_fs {P} {code} {code'} {fs} {fs'} h sound =
    subst (λ (n : NetFs P). SoundFs n)
      (ap (λ (t : ℕ × NetFs P). t.1) (same_result {A = ℕ × NetFs P} {r = ok (code, fs)} refl h))
      sound

pub same_fs_with :
    {P A : Type 0} {code code' : ℕ} {a a' : A} {fs fs' : NetFs P}
    → ◌≡◌ {A = Result (ℕ × A × NetFs P)} (ok (code, a, fs)) (ok (code', a', fs'))
    → SoundFs fs
    → SoundFs fs'
same_fs_with {P} {A} {code} {code'} {a} {a'} {fs} {fs'} h sound =
    subst (λ (n : NetFs P). SoundFs n)
      (ap (λ (t : ℕ × A × NetFs P). t.2)
        (same_result {A = ℕ × A × NetFs P} {r = ok (code, a, fs)} refl h))
      sound

pub same_cache : {c c' : Cache} → ◌≡◌ {A = Result Cache} (ok c) (ok c') → IsSound c → IsSound c'
same_cache {c} {c'} h sound = subst IsSound (same_result {r = ok c} refl h) sound

drop_if_changed-IsSound :
    (f : List ℕ) (time : FileTime) (c c' : Cache)
    → IsSound c
    → drop_if_changed f time c ≡ ok c'
    → IsSound c'
unfolding drop_if_changed
drop_if_changed-IsSound f time c c' sound h = elim (Bool-cases (is_stale f c)) [
  | inl stale ↦ invalidate-IsSound f c c' sound (rw stale at h)
  | inr fresh ↦ elim (Option-cases (get_file_time f c)) [
    | inl miss ↦ same_cache (rw (fresh, drop_if_changed, miss) at h) sound
    | inr (cached, there) ↦ elim (Bool-cases (file_time_ne cached time)) [
      | inl differ ↦
          invalidate-IsSound f c c' sound (rw (fresh, drop_if_changed, there, differ) at h)
      | inr same ↦ same_cache (rw (fresh, drop_if_changed, there, same) at h) sound
    ]
  ]
]

module _ {P : Type 0} (peer : Peer P) where
  pub access-SoundFs :
      (f : List ℕ) (fs fs' : NetFs P) (code : ℕ)
      → SoundFs fs
      → access peer f fs ≡ ok (code, fs')
      → SoundFs fs'
  unfolding access
  access-SoundFs f fs fs' code sound h =
      let ((id, resp, link), _, h₁) =
        >>=-eq-ok (exchange peer (λ id. Msg.access (record { id = id; filename = f })) fs.link) _
          h in
      let (r, _, h₂) = >>=-eq-ok (as_access resp) _ h₁ in
      let (_, h₃) = assert-eq-ok (r.id == id) _ h₂ in
      let (c', run, h₄) =
        >>=-eq-ok
          (if r.error == 0 then drop_if_changed f r.time fs.cache else invalidate f fs.cache) _
          h₃ in
      same_fs h₄ (elim (Bool-cases (r.error == 0)) [
        | inl done ↦ drop_if_changed-IsSound f r.time fs.cache c' sound (rw done at run)
        | inr failed ↦ invalidate-IsSound f fs.cache c' sound (rw failed at run)
      ])

  pub stat-SoundFs :
      (f : List ℕ) (fs fs' : NetFs P) (code : ℕ) {found : Option FileAttr}
      → SoundFs fs
      → stat peer f fs ≡ ok (code, found, fs')
      → SoundFs fs'
  unfolding stat
  stat-SoundFs f fs fs' code sound h =
      let ((code₁, attr, link), _, h₁) = >>=-eq-ok (do_read_attr peer f fs.link) _ h in
      elim (Bool-cases (code₁ == 0)) [
        | inl done ↦
            let (c', run, h₂) =
              >>=-eq-ok (drop_if_changed f attr.time fs.cache) _ (rw done at h₁) in
            same_fs_with h₂ (drop_if_changed-IsSound f attr.time fs.cache c' sound run)
        | inr failed ↦
            let (c', run, h₂) = >>=-eq-ok (invalidate f fs.cache) _ (rw failed at h₁) in
            same_fs_with h₂ (invalidate-IsSound f fs.cache c' sound run)
      ]

  evict-SoundFs :
      (fs fs' : NetFs P) (code : ℕ) → SoundFs fs → evict peer fs ≡ ok (code, fs') → SoundFs fs'
  unfolding evict
  evict-SoundFs fs fs' code sound h =
      elim (Bool-cases (ltb fs.max_cache_entry (length fs.cache.recent_list))) [
        | inl full ↦
            let ((code₁, c', link), run, h₁) =
              >>=-eq-ok (evict_blocks (callbacks peer) fs.evict_count fs.cache fs.link) _
                (rw full at h) in
            same_fs h₁ (
              evict_blocks-IsSound (callbacks peer) fs.evict_count fs.cache c' fs.link link code₁
                sound run)
        | inr room ↦ same_fs (rw room at h) sound
      ]

  pub read-SoundFs :
      (f : List ℕ) (offset size : ℕ) (fs fs' : NetFs P) (code : ℕ) {bytes : List ℕ}
      → SoundFs fs
      → read peer f offset size fs ≡ ok (code, bytes, fs')
      → SoundFs fs'
  unfolding read
  read-SoundFs f offset size fs fs' code sound h =
      let ((code₁, given, c₁, link), run, h₁) =
        >>=-eq-ok (Ops.read (callbacks peer) f offset size fs.cache fs.link) _ h in
      let sound₁ =
        read-IsSound (callbacks peer) f offset size fs.cache c₁ fs.link link code₁ given sound
          run in
      elim (Bool-cases (code₁ == 0)) [
        | inl done ↦
            let ((code₂, fs₂), run₂, h₂) =
              >>=-eq-ok (evict peer (with_cache fs c₁ link)) _ (rw done at h₁) in
            same_fs_with h₂ (evict-SoundFs (with_cache fs c₁ link) fs₂ code₂ sound₁ run₂)
        | inr failed ↦ same_fs_with (rw failed at h₁) sound₁
      ]

  count_write-SoundFs : (fs fs' : NetFs P) → SoundFs fs → count_write peer fs ≡ ok fs' → SoundFs fs'
  unfolding count_write
  count_write-SoundFs fs fs' sound h =
      elim (Bool-cases (leb fs.flush_interval (fs.write_op_count + 1))) [
        | inl due ↦
            let ((code, c', link), run, h₁) =
              >>=-eq-ok (flush_dirty_blocks (callbacks peer) fs.cache fs.link) _ (rw due at h) in
            subst (λ (n : NetFs P). SoundFs n)
              (same_result {r = ok (with_cache (record fs { write_op_count = 0 }) c' link)} refl h₁)
              (flush_dirty_blocks-IsSound (callbacks peer) fs.cache c' fs.link link code sound run)
        | inr early ↦
            subst (λ (n : NetFs P). SoundFs n)
              (same_result {r = ok (record fs { write_op_count = fs.write_op_count + 1 })} refl
                (rw early at h))
              sound
      ]

  pub write-SoundFs :
      (f : List ℕ) (offset : ℕ) (buf : List ℕ) (fs fs' : NetFs P) (code : ℕ)
      → SoundFs fs
      → write peer f offset buf fs ≡ ok (code, fs')
      → SoundFs fs'
  unfolding write
  write-SoundFs f offset buf fs fs' code sound h =
      let ((code₁, c₁, link), run, h₁) =
        >>=-eq-ok (Ops.write (callbacks peer) f offset buf fs.cache fs.link) _ h in
      let sound₁ =
        write-IsSound (callbacks peer) f offset buf fs.cache c₁ fs.link link code₁ sound run in
      elim (Bool-cases (code₁ == 0)) [
        | inr failed ↦ same_fs (rw failed at h₁) sound₁
        | inl done ↦
            let ((code₂, fs₂), run₂, h₂) =
              >>=-eq-ok (evict peer (with_cache fs c₁ link)) _ (rw done at h₁) in
            let sound₂ = evict-SoundFs (with_cache fs c₁ link) fs₂ code₂ sound₁ run₂ in
            elim (Bool-cases (code₂ == 0)) [
              | inr failed ↦ same_fs (rw failed at h₂) sound₂
              | inl done' ↦
                  let (fs₃, run₃, h₃) = >>=-eq-ok (count_write peer fs₂) _ (rw done' at h₂) in
                  same_fs h₃ (count_write-SoundFs fs₂ fs₃ sound₂ run₃)
            ]
      ]

  pub truncate-SoundFs :
      (f : List ℕ) (size : ℕ) (fs fs' : NetFs P) (code : ℕ)
      → SoundFs fs
      → truncate peer f size fs ≡ ok (code, fs')
      → SoundFs fs'
  unfolding truncate
  truncate-SoundFs f size fs fs' code sound h =
      let ((code₁, c', link), run, h₁) =
        >>=-eq-ok (Ops.truncate (callbacks peer) f size fs.cache fs.link) _ h in
      same_fs h₁ (truncate-IsSound (callbacks peer) f size fs.cache c' fs.link link code₁ sound run)

  pub flush-SoundFs :
      (f : List ℕ) (fs fs' : NetFs P) (code : ℕ)
      → SoundFs fs
      → flush peer f fs ≡ ok (code, fs')
      → SoundFs fs'
  unfolding flush
  flush-SoundFs f fs fs' code sound h =
      let ((code₁, c', link), run, h₁) =
        >>=-eq-ok (Flush.flush (callbacks peer) f fs.cache fs.link) _ h in
      same_fs h₁ (flush-IsSound (callbacks peer) f fs.cache c' fs.link link code₁ sound run)
