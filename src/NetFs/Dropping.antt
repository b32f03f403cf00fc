-- ===== src/NetFs/Dropping.antt =====
-- What `unlink`, `rmdir` and `rename` of client_src/netfs.cpp leave in the cache.
use net_fs.Prelude.{
  ℕ, List, none, ◌==◌, ==_iff, str_eq, nat_eq, string_eq, ◌||◌, true, if◌then◌else◌, ok, ◌>>=◌, ◌≡◌,
  ◌≢◌, ◌⊎◌, refl, subst, ◌∙◌, arith, Bool-cases, inl, inr, str_eq_iff,
}
use net_fs.Msg
use net_fs.Msg.Unlink.{MsgUnlinkResp}
use net_fs.Msg.Rmdir.{MsgRmdirResp}
use net_fs.Msg.Rename.{MsgRenameResp}
use net_fs.Cache.State.{Cache}
use net_fs.Cache.Valid.{find_entry}
use net_fs.Cache.Store.{file_facts}
use net_fs.Cache.Remove.{unless}
use net_fs.Cache.Ops.{invalidate}
use net_fs.Cache.Sound.{IsSound}
use net_fs.Cache.Invalidate.{Invalidated, invalidate_lem}
use net_fs.NetFs.State.{Peer, NetFs, exchange, next_link, as_unlink, as_rmdir, as_rename}
use net_fs.NetFs.Ops.{with_cache, unlink, rmdir, rename}

-- The cache has forgotten the file if the server removed it, and is as it was otherwise.
abbrev pub GoneIf : ℕ → List ℕ → Cache → Cache → Type 0
GoneIf error f c c' = ((error ≡ 0) × Invalidated f c c') ⊎ ((error ≢ 0) × (c' ≡ c))

module _ (f : List ℕ) (error : ℕ) (c : Cache) (sound : IsSound c) where
  dropped :
      (c' : Cache) × ((if error == 0 then invalidate f c else ok c) ≡ ok c') × GoneIf error f c c'
  dropped = elim (Bool-cases (error == 0)) [
    | inl done ↦
        let (c', run, gone) = invalidate_lem f c sound.valid sound.keyed in
        (c', rw done run, inl ((==_iff error 0).0 done, gone))
    | inr failed ↦ (c, rw failed refl, inr (ground arith, refl))
  ]

-- The cache `c'` is `c` without two files.
pub record BothGone (f g : List ℕ) (c c' : Cache) : Type 0 where
  pub sound : IsSound c'
  pub facts : (h : List ℕ) → file_facts c' h ≡ unless (str_eq f h || str_eq g h) (file_facts c h)
  pub now :
      (h : List ℕ) (k : ℕ)
      → find_entry c' h k ≡ unless (str_eq f h || str_eq g h) (find_entry c h k)

Invalidated-facts :
    (f : List ℕ) (c c' : Cache)
    → Invalidated f c c'
    → (h : List ℕ) → file_facts c' h ≡ unless (str_eq f h) (file_facts c h)
Invalidated-facts f c c' gone h = elim (Bool-cases (str_eq f h)) [
  | inl here ↦
      subst (λ g. file_facts c' g ≡ none) ((str_eq_iff f h).0 here) gone.unknown ∙ rw here refl
  | inr other ↦ gone.other_facts h other ∙ rw other refl
]

Invalidated-BothGone :
    (f g : List ℕ) (c c₁ c' : Cache) → Invalidated f c c₁ → Invalidated g c₁ c' → BothGone f g c c'
Invalidated-BothGone f g c c₁ c' first second = record {
  sound = record { valid = second.valid; keyed = second.keyed };
  facts = λ h. ground (arith, Invalidated-facts f c c₁ first h, Invalidated-facts g c₁ c' second h);
  now = λ h k. ground (arith, first.now h k, second.now h k);
}

module _ {P : Type 0} (peer : Peer P) (f : List ℕ) (fs : NetFs P) (p : P)
    (sound : IsSound fs.cache) where
  -- `NetFS::unlink` on a sound cache, when the server answers with a response to the message: its
  -- error code is returned, and no assertion fails. Without an error the cache has forgotten the
  -- file and nothing else; otherwise it is as it was.
  pub unlink_lem :
      (r : MsgUnlinkResp)
      → peer (Msg.unlink (record { id = fs.link.msg_id; filename = f })) fs.link.behind
        ≡ ok (Msg.unlink_resp r, p)
      → r.id ≡ fs.link.msg_id
      → (c' : Cache) × (unlink peer f fs ≡ ok (r.error, with_cache fs c' (next_link fs.link p)))
        × GoneIf r.error f fs.cache c'
  unfolding unlink exchange as_unlink
  unlink_lem r reply same_id =
      let passes : (r.id == fs.link.msg_id) ≡ true = ground arith in
      let (c', run, gone) = dropped f r.error fs.cache sound in
      (c', rw (reply, ◌>>=◌, passes, run) refl, gone)

  -- `NetFS::rmdir` in the same way.
  pub rmdir_lem :
      (r : MsgRmdirResp)
      → peer (Msg.rmdir (record { id = fs.link.msg_id; filename = f })) fs.link.behind
        ≡ ok (Msg.rmdir_resp r, p)
      → r.id ≡ fs.link.msg_id
      → (c' : Cache) × (rmdir peer f fs ≡ ok (r.error, with_cache fs c' (next_link fs.link p)))
        × GoneIf r.error f fs.cache c'
  unfolding rmdir exchange as_rmdir
  rmdir_lem r reply same_id =
      let passes : (r.id == fs.link.msg_id) ≡ true = ground arith in
      let (c', run, gone) = dropped f r.error fs.cache sound in
      (c', rw (reply, ◌>>=◌, passes, run) refl, gone)

  module _ (to : List ℕ) (flags : ℕ) (r : MsgRenameResp)
      (reply : peer
          (Msg.rename (record { id = fs.link.msg_id; from = f; to = to; flags = flags }))
          fs.link.behind
        ≡ ok (Msg.rename_resp r, p))
      (same_id : r.id ≡ fs.link.msg_id) where
    rename_run :
        (c' : Cache)
        → (if r.error == 0 then (do c₁ ← invalidate f fs.cache; invalidate to c₁) else ok fs.cache)
          ≡ ok c'
        → rename peer f to flags fs ≡ ok (r.error, with_cache fs c' (next_link fs.link p))
    unfolding rename exchange as_rename
    rename_run c' run =
        let passes : (r.id == fs.link.msg_id) ≡ true = ground arith in
        rw (reply, ◌>>=◌, passes, run) refl

    -- `NetFS::rename` on a sound cache, when the server answers with a response to the message: its
    -- error code is returned, and no assertion fails. Without an error the cache has forgotten both
    -- files, also where they are one, and nothing else; otherwise it is as it was.
    pub rename_lem :
        (c' : Cache) × (rename peer f to flags fs
          ≡ ok (r.error, with_cache fs c' (next_link fs.link p)))
        × (((r.error ≡ 0) × BothGone f to fs.cache c') ⊎ ((r.error ≢ 0) × (c' ≡ fs.cache)))
    rename_lem = elim (Bool-cases (r.error == 0)) [
      | inl done ↦
          let (c₁, run, gone) = invalidate_lem f fs.cache sound.valid sound.keyed in
          let (c', run', gone') = invalidate_lem to c₁ gone.valid gone.keyed in
          (
            c',
            rename_run c' (rw (done, run) run'),
            inl ((==_iff r.error 0).0 done, Invalidated-BothGone f to fs.cache c₁ c' gone gone'),
          )
      | inr failed ↦ (fs.cache, rename_run fs.cache (rw failed refl), inr (ground arith, refl))
    ]
