-- ===== src/NetFs/Checking.antt =====
-- How `access` and `stat` of client_src/netfs.cpp keep what is cached of a file or drop it.
use net_fs.Prelude.{
  ℕ, ◌%◌, ◌^◌, List, Option, none, some, ◌==◌, ==_iff, nat_eq, string_eq, Bool, true, false,
  if◌then◌else◌, find, ok, ◌>>=◌, ◌≡◌, ◌⊎◌, refl, sym, ap, ◌∙◌, arith, Bool-cases, Option-cases,
  inl, inr,
}
use net_fs.Time.{FileTime, file_time_eq, file_time_ne, file_time_eq_iff}
use net_fs.Msg
use net_fs.Msg.Access.{MsgAccessResp}
use net_fs.Msg.Stat.{MsgStatResp}
use net_fs.Cache.State.{FileAttr, FileCache, Cache}
use net_fs.Cache.Ops.{is_stale, get_file_time, invalidate}
use net_fs.Cache.Store.{file_facts}
use net_fs.Cache.Sound.{IsSound}
use net_fs.Cache.Invalidate.{Invalidated, invalidate_lem, invalidate_unknown}
use net_fs.NetFs.State.{Peer, NetFs, exchange, next_link, as_access, as_stat}
use net_fs.NetFs.Remote.{do_read_attr}
use net_fs.NetFs.Ops.{drop_if_changed, with_cache, access, stat}

-- The cached attributes of a file are not stale, and have the times of modification and change that
-- the server gives.
abbrev pub UpToDate : Cache → List ℕ → FileTime → Type 0
UpToDate c f time =
    (attr : FileAttr) × (file_facts c f ≡ some (attr, false))
    × (attr.time.mtime ≡ time.mtime)
    × (attr.time.ctime ≡ time.ctime)

-- The cache is as it was if `keeps` holds, and has forgotten the file otherwise.
abbrev pub KeptIf : Type 0 → List ℕ → Cache → Cache → Type 0
KeptIf keeps f c c' = (keeps × (c' ≡ c)) ⊎ ((¬ keeps) × Invalidated f c c')

fresh_of :
    (a b : FileAttr) (stale : Bool)
    → ◌≡◌ {A = Option (FileAttr × Bool)} (some (a, stale)) (some (b, false))
    → stale ≡ false
fresh_of a b stale h = cc

module _ (f : List ℕ) (time : FileTime) (c : Cache) (sound : IsSound c) where
  known_facts :
      (fc : FileCache) → find f c.file_map ≡ some fc → file_facts c f ≡ some (fc.attr, fc.stale)
  unfolding file_facts
  known_facts fc known = ground arith

  unknown-outdated : find f c.file_map ≡ none → ¬ UpToDate c f time
  unfolding file_facts
  unknown-outdated miss (attr, facts, _, _) = absurd (ground arith)

  stale-outdated :
      (fc : FileCache) → find f c.file_map ≡ some fc → fc.stale ≡ true → ¬ UpToDate c f time
  stale-outdated fc known stale (attr, facts, _, _) =
      let fresh = fresh_of fc.attr attr fc.stale (sym (known_facts fc known) ∙ facts) in
      let clash : true ≡ false = sym stale ∙ fresh in absurd cc

  unknown_stale : find f c.file_map ≡ none → is_stale f c ≡ false
  unfolding is_stale
  unknown_stale miss = ground (arith, miss)

  unknown_time : find f c.file_map ≡ none → get_file_time f c ≡ none
  unfolding get_file_time
  unknown_time miss = ground (arith, miss)

  drops_unknown : find f c.file_map ≡ none → drop_if_changed f time c ≡ ok c
  unfolding drop_if_changed
  drops_unknown miss = rw (unknown_stale miss, drop_if_changed, unknown_time miss) refl

  module _ (fc : FileCache) (known : find f c.file_map ≡ some fc) where
    known_stale : is_stale f c ≡ fc.stale
    unfolding is_stale
    known_stale = ground (arith, known)

    known_time : get_file_time f c ≡ some fc.attr.time
    unfolding get_file_time
    known_time = ground (arith, known)

    drops_stale : fc.stale ≡ true → drop_if_changed f time c ≡ invalidate f c
    unfolding drop_if_changed
    drops_stale stale = rw (known_stale, stale) refl

    drops_changed :
        fc.stale ≡ false
        → file_time_ne fc.attr.time time ≡ true
        → drop_if_changed f time c ≡ invalidate f c
    unfolding drop_if_changed
    drops_changed fresh differ = rw (known_stale, fresh, drop_if_changed, known_time, differ) refl

    keeps_same :
        fc.stale ≡ false → file_time_ne fc.attr.time time ≡ false → drop_if_changed f time c ≡ ok c
    unfolding drop_if_changed
    keeps_same fresh same = rw (known_stale, fresh, drop_if_changed, known_time, same) refl

  dropped :
      drop_if_changed f time c ≡ invalidate f c
      → (¬ UpToDate c f time)
      → (c' : Cache) × (drop_if_changed f time c ≡ ok c') × KeptIf (UpToDate c f time) f c c'
  dropped run outdated =
      let (c', gone, done) = invalidate_lem f c sound.valid sound.keyed in
      (c', run ∙ gone, inr (outdated, done))

  -- Exactly what is up to date is kept.
  pub drop_if_changed_lem :
      (c' : Cache) × (drop_if_changed f time c ≡ ok c') × KeptIf (UpToDate c f time) f c c'
  unfolding file_time_ne
  drop_if_changed_lem = elim (Option-cases (find f c.file_map)) [
    | inl miss ↦
        dropped (drops_unknown miss ∙ sym (invalidate_unknown f c miss)) (unknown-outdated miss)
    | inr (fc, known) ↦ elim (Bool-cases fc.stale) [
      | inl stale ↦ dropped (drops_stale fc known stale) (stale-outdated fc known stale)
      | inr fresh ↦
          let times = file_time_eq_iff fc.attr.time time in
          elim (Bool-cases (file_time_eq fc.attr.time time)) [
            | inl same ↦
                let (mtime, ctime) = times.0 same in
                let facts : file_facts c f ≡ some (fc.attr, false) =
                  known_facts fc known ∙ ap (λ (b : Bool). some (fc.attr, b)) fresh in
                (
                  c,
                  keeps_same fc known fresh (ground arith),
                  inl ((fc.attr, facts, mtime, ctime), refl),
                )
            | inr differ ↦
                dropped (drops_changed fc known fresh (ground arith))
                  (λ (attr, facts, mtime, ctime).
                    let both : some (fc.attr, fc.stale) ≡ some (attr, false) =
                      sym (known_facts fc known) ∙ facts in
                    let attrs : fc.attr ≡ attr = ground arith in
                    let equal = times.1 (
                      ap (λ (a : FileAttr). a.time.mtime) attrs ∙ mtime,
                      ap (λ (a : FileAttr). a.time.ctime) attrs ∙ ctime,
                    ) in
                    absurd cc)
          ]
    ]
  ]

module _ {P : Type 0} (peer : Peer P) (f : List ℕ) (fs : NetFs P) (p : P)
    (sound : IsSound fs.cache) where
  access_run :
      (r : MsgAccessResp) (c' : Cache)
      → peer (Msg.access (record { id = fs.link.msg_id; filename = f })) fs.link.behind
        ≡ ok (Msg.access_resp r, p)
      → r.id ≡ fs.link.msg_id
      → (if r.error == 0 then drop_if_changed f r.time fs.cache else invalidate f fs.cache) ≡ ok c'
      → access peer f fs ≡ ok (r.error, with_cache fs c' (next_link fs.link p))
  unfolding access exchange as_access
  access_run r c' reply same_id run =
      let passes : (r.id == fs.link.msg_id) ≡ true = ground arith in
      rw (reply, ◌>>=◌, passes, run) refl

  -- When the server answers with a response to the message, `NetFS::access` on a sound cache
  -- returns its error code and fails no assertion. The cache is as it was exactly if there is no
  -- error and the cached attributes are not stale and have the times of modification and change of
  -- the response; otherwise it has forgotten the file, and nothing else has changed.
  pub access_lem :
      (r : MsgAccessResp)
      → peer (Msg.access (record { id = fs.link.msg_id; filename = f })) fs.link.behind
        ≡ ok (Msg.access_resp r, p)
      → r.id ≡ fs.link.msg_id
      → (c' : Cache) × (access peer f fs ≡ ok (r.error, with_cache fs c' (next_link fs.link p)))
        × KeptIf ((r.error ≡ 0) × UpToDate fs.cache f r.time) f fs.cache c'
  access_lem r reply same_id = elim (Bool-cases (r.error == 0)) [
    | inl done ↦
        let (c', run, kept) = drop_if_changed_lem f r.time fs.cache sound in
        let no_error : r.error ≡ 0 = (==_iff r.error 0).0 done in
        (
          c',
          access_run r c' reply same_id (rw done run),
          elim kept [
            | inl (fresh, same) ↦ inl ((no_error, fresh), same)
            | inr (outdated, gone) ↦ inr (λ (_, fresh). outdated fresh, gone)
          ],
        )
    | inr failed ↦
        let (c', run, gone) = invalidate_lem f fs.cache sound.valid sound.keyed in
        (
          c',
          access_run r c' reply same_id (rw failed run),
          inr (λ (no_error, _). absurd (ground arith), gone),
        )
  ]

  -- The attributes in a response; `mode_t` has 32 bits.
  abbrev pub given_attr : MsgStatResp → FileAttr
  given_attr r = record { size = r.stat.size; mode = r.stat.mode % 2 ^ 32; time = r.stat.time }

  module _ (r : MsgStatResp)
      (reply : peer (Msg.stat (record { id = fs.link.msg_id; filename = f })) fs.link.behind
        ≡ ok (Msg.stat_resp r, p))
      (same_id : r.id ≡ fs.link.msg_id) where
    stat_found :
        (c' : Cache)
        → (r.error == 0) ≡ true
        → drop_if_changed f r.stat.time fs.cache ≡ ok c'
        → stat peer f fs ≡ ok (0, some (given_attr r), with_cache fs c' (next_link fs.link p))
    unfolding stat do_read_attr exchange as_stat
    stat_found c' done run =
        let passes : (r.id == fs.link.msg_id) ≡ true = ground arith in
        rw (reply, ◌>>=◌, passes, done, run) refl

    stat_failed :
        (c' : Cache)
        → (r.error == 0) ≡ false
        → invalidate f fs.cache ≡ ok c'
        → stat peer f fs ≡ ok (r.error, none, with_cache fs c' (next_link fs.link p))
    unfolding stat do_read_attr exchange as_stat
    stat_failed c' failed run =
        let passes : (r.id == fs.link.msg_id) ≡ true = ground arith in
        rw (reply, ◌>>=◌, passes, failed, ◌>>=◌, failed, run) refl

    -- `NetFS::stat` on a sound cache, when the server answers with a response to the message: it
    -- returns the error code of the response, and without an error its attributes, the mode cut
    -- to 32 bits; the cache is kept, or forgets the file, as by `access`.
    pub stat_lem :
        (c' : Cache) × (stat peer f fs
          ≡ ok (
            r.error,
            (if r.error == 0 then some (given_attr r) else none),
            with_cache fs c' (next_link fs.link p),
          ))
        × KeptIf ((r.error ≡ 0) × UpToDate fs.cache f r.stat.time) f fs.cache c'
    stat_lem = elim (Bool-cases (r.error == 0)) [
      | inl done ↦
          let (c', run, kept) = drop_if_changed_lem f r.stat.time fs.cache sound in
          let no_error : r.error ≡ 0 = (==_iff r.error 0).0 done in
          (
            c',
            rw (done, no_error) (stat_found c' done run),
            elim kept [
              | inl (fresh, same) ↦ inl ((no_error, fresh), same)
              | inr (outdated, gone) ↦ inr (λ (_, fresh). outdated fresh, gone)
            ],
          )
      | inr failed ↦
          let (c', run, gone) = invalidate_lem f fs.cache sound.valid sound.keyed in
          (
            c',
            rw failed (stat_failed c' failed run),
            inr (λ (no_error, _). absurd (ground arith), gone),
          )
    ]
