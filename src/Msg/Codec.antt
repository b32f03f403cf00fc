-- ===== src/Msg/Codec.antt =====
-- The codec of whole messages: what `serializeMsg` writes, `unserializeMsg` of common/msg.cpp
-- reads.
use net_fs.Prelude.{
  ℕ, List, [], ◌∷◌, ◌++◌, ◌≡◌, refl, ap, sym, subst, ◌∙◌, arith, ◌↔◌, Bool-cases, inl, inr, ==_iff,
  ◌==◌, true, false, Bool, ◌||◌,
}
use mathlib.Core.Bool.{false≢true}
use net_fs.Serial.{Reader, pure, ◌>>=◌}
use net_fs.Serial.Codec.{
  IsCodec, IsCodec-seq, IsCodec-conv, AreBytes, bind-eq-ok, bind_ok, bind_err,
}
use net_fs.Serial.Laws.{pod-IsCodec}
use net_fs.Msg.Kinds.{
  type_bound, access_of_type, access_resp_of_type, statfs_of_type, statfs_resp_of_type,
  create_of_type, create_resp_of_type, stat_of_type, stat_resp_of_type, readdir_of_type,
  readdir_resp_of_type, read_of_type, read_resp_of_type, write_of_type, write_resp_of_type,
  truncate_of_type, truncate_resp_of_type, unlink_of_type, unlink_resp_of_type, rmdir_of_type,
  rmdir_resp_of_type, mkdir_of_type, mkdir_resp_of_type, rename_of_type, rename_resp_of_type,
}
use net_fs.Msg.{
  Msg, msg_type, serialize_body, serialize_msg, unserialize_msg, unserializor_lookup, at, access,
  access_resp, statfs, statfs_resp, create, create_resp, stat, stat_resp, readdir, readdir_resp,
  read, read_resp, write, write_resp, truncate, truncate_resp, unlink, unlink_resp, rmdir,
  rmdir_resp, mkdir, mkdir_resp, rename, rename_resp,
}
use net_fs.Msg.Access.{FitsAccess, access-IsCodec, FitsAccessResp, access_resp-IsCodec}
use net_fs.Msg.Statfs.{FitsStatfs, statfs-IsCodec, FitsStatfsResp, statfs_resp-IsCodec}
use net_fs.Msg.Create.{FitsCreate, create-IsCodec, FitsCreateResp, create_resp-IsCodec}
use net_fs.Msg.Stat.{FitsStat, stat-IsCodec, FitsStatResp, stat_resp-IsCodec}
use net_fs.Msg.Readdir.{FitsReaddir, readdir-IsCodec, FitsReaddirResp, readdir_resp-IsCodec}
use net_fs.Msg.Read.{FitsRead, read-IsCodec, FitsReadResp, read_resp-IsCodec}
use net_fs.Msg.Write.{FitsWrite, write-IsCodec, FitsWriteResp, write_resp-IsCodec}
use net_fs.Msg.Truncate.{FitsTruncate, truncate-IsCodec, FitsTruncateResp, truncate_resp-IsCodec}
use net_fs.Msg.Unlink.{FitsUnlink, unlink-IsCodec, FitsUnlinkResp, unlink_resp-IsCodec}
use net_fs.Msg.Rmdir.{FitsRmdir, rmdir-IsCodec, FitsRmdirResp, rmdir_resp-IsCodec}
use net_fs.Msg.Mkdir.{FitsMkdir, mkdir-IsCodec, FitsMkdirResp, mkdir_resp-IsCodec}
use net_fs.Msg.Rename.{FitsRename, rename-IsCodec, FitsRenameResp, rename_resp-IsCodec}

-- The messages whose fields fit their types: numbers below 2 ^ 32 or 2 ^ 64, strings of fewer than
-- 2 ^ 32 bytes, vectors of fewer than 2 ^ 64 elements.
abbrev pub FitsMsg : Msg → Type 0
FitsMsg (access m) = FitsAccess m
FitsMsg (access_resp m) = FitsAccessResp m
FitsMsg (statfs m) = FitsStatfs m
FitsMsg (statfs_resp m) = FitsStatfsResp m
FitsMsg (create m) = FitsCreate m
FitsMsg (create_resp m) = FitsCreateResp m
FitsMsg (stat m) = FitsStat m
FitsMsg (stat_resp m) = FitsStatResp m
FitsMsg (readdir m) = FitsReaddir m
FitsMsg (readdir_resp m) = FitsReaddirResp m
FitsMsg (read m) = FitsRead m
FitsMsg (read_resp m) = FitsReadResp m
FitsMsg (write m) = FitsWrite m
FitsMsg (write_resp m) = FitsWriteResp m
FitsMsg (truncate m) = FitsTruncate m
FitsMsg (truncate_resp m) = FitsTruncateResp m
FitsMsg (unlink m) = FitsUnlink m
FitsMsg (unlink_resp m) = FitsUnlinkResp m
FitsMsg (rmdir m) = FitsRmdir m
FitsMsg (rmdir_resp m) = FitsRmdirResp m
FitsMsg (mkdir m) = FitsMkdir m
FitsMsg (mkdir_resp m) = FitsMkdirResp m
FitsMsg (rename m) = FitsRename m
FitsMsg (rename_resp m) = FitsRenameResp m

-- The reader of one type of message, from the codec of its body.
module _ {R : Type 0} {Fits : R → Type 0} {write : R → List ℕ} {read : Reader R} (type : ℕ)
    (build : R → Msg) (c : IsCodec Fits write read)
    (same_body : (x : R) → serialize_body (build x) ≡ write x)
    (same_type : (x : R) → msg_type (build x) ≡ type) (fits : (x : R) → Fits x ↔ FitsMsg (build x))
    (only : (m : Msg) → msg_type m ≡ type → (x : R) × (m ≡ build x)) where
  creator-IsCodec :
      IsCodec (λ m. FitsMsg m × (msg_type m ≡ type)) serialize_body (do x ← read; pure (build x))
  creator-IsCodec = record {
    round_trip = λ m f rest.
        let (x, e) = only m f.1 in
        rw (e, same_body x)
          (bind_ok read (λ y. pure (build y)) _ rest x
            (c.round_trip x ((fits x).1 (subst FitsMsg e f.0)) rest));
    exact = λ s m rest a h.
        let (x, s', p, q) = bind-eq-ok read (λ y. pure (build y)) s h in
        let (fx, e, a') = c.exact s x s' a p in
        let same : build x ≡ m = cc in
        let left : s' ≡ rest = cc in
        (
          (subst FitsMsg same ((fits x).0 fx), ap msg_type (sym same) ∙ same_type x),
          e
              ∙ ap (λ t. write x ++ t) left
              ∙ ap (λ t. t ++ rest) (sym (same_body x) ∙ ap serialize_body same),
          subst AreBytes left a',
        );
    cut_short = λ m f p b q h.
        let (x, e) = only m f.1 in
        bind_err read (λ y. pure (build y)) p
          (c.cut_short x ((fits x).1 (subst FitsMsg e f.0)) p b q
            (sym (same_body x) ∙ ap serialize_body (sym e) ∙ h));
  }

-- Every entry of a table is the codec of its type.
abbrev Creators : List (ℕ × Reader Msg) → Type 0
Creators [] = Unit
Creators ((t, creator) ∷ table) =
    IsCodec (λ m. FitsMsg m × (msg_type m ≡ t)) serialize_body creator × Creators table

abbrev pub has : ℕ → List (ℕ × Reader Msg) → Bool
has type [] = false
has type ((t, _) ∷ table) = t == type || has type table

at_hit :
    (type t : ℕ) (creator : Reader Msg) (table : List (ℕ × Reader Msg)) (s : List ℕ)
    → (t == type) ≡ true
    → at type ((t, creator) ∷ table) s ≡ creator s
unfolding at
at_hit type t creator table s h = ground arith

at_miss :
    (type t : ℕ) (creator : Reader Msg) (table : List (ℕ × Reader Msg)) (s : List ℕ)
    → (t == type) ≡ false
    → at type ((t, creator) ∷ table) s ≡ at type table s
unfolding at
at_miss type t creator table s h = ground arith

-- The lookup in a table that holds every type that a message can have.
at-IsCodec :
    (type : ℕ) (table : List (ℕ × Reader Msg))
    → Creators table
    → ((m : Msg) → msg_type m ≡ type → has type table ≡ true)
    → IsCodec (λ m. FitsMsg m × (msg_type m ≡ type)) serialize_body (at type table)
at-IsCodec type [] c known = record {
  round_trip = λ m f rest. absurd (false≢true (known m f.1));
  exact = λ s m rest a h. unfold at in absurd (cc);
  cut_short = λ m f p b q h. absurd (false≢true (known m f.1));
}
at-IsCodec type ((t, creator) ∷ table) c known =
    let ih = at-IsCodec type table c.1 in
    elim (Bool-cases (t == type)) [
      | inl hit ↦
          let e : t ≡ type = (==_iff t type).0 hit in
          IsCodec-conv (λ m. (λ f. (f.0, f.1 ∙ sym e), λ f. (f.0, f.1 ∙ e))) (λ m. refl)
            (λ s. at_hit type t creator table s hit) c.0
      | inr miss ↦
          IsCodec-conv (λ m. (λ f. f, λ f. f)) (λ m. refl)
            (λ s. at_miss type t creator table s miss) (ih (λ m h. ground (arith, known m h)))
    ]

type_known : (m : Msg) → has (msg_type m) unserializor_lookup ≡ true
unfolding msg_type unserializor_lookup
type_known (access _) = refl
type_known (access_resp _) = refl
type_known (statfs _) = refl
type_known (statfs_resp _) = refl
type_known (create _) = refl
type_known (create_resp _) = refl
type_known (stat _) = refl
type_known (stat_resp _) = refl
type_known (readdir _) = refl
type_known (readdir_resp _) = refl
type_known (read _) = refl
type_known (read_resp _) = refl
type_known (write _) = refl
type_known (write_resp _) = refl
type_known (truncate _) = refl
type_known (truncate_resp _) = refl
type_known (unlink _) = refl
type_known (unlink_resp _) = refl
type_known (rmdir _) = refl
type_known (rmdir_resp _) = refl
type_known (mkdir _) = refl
type_known (mkdir_resp _) = refl
type_known (rename _) = refl
type_known (rename_resp _) = refl

creators : Creators unserializor_lookup
unfolding unserializor_lookup serialize_body msg_type
creators = (
  creator-IsCodec 0 access access-IsCodec (λ x. refl) (λ x. refl) (λ x. (λ f. f, λ f. f))
      access_of_type,
  (
    creator-IsCodec 1 access_resp access_resp-IsCodec (λ x. refl) (λ x. refl)
        (λ x. (λ f. f, λ f. f)) access_resp_of_type,
    (
      creator-IsCodec 2 statfs statfs-IsCodec (λ x. refl) (λ x. refl) (λ x. (λ f. f, λ f. f))
          statfs_of_type,
      (
        creator-IsCodec 3 statfs_resp statfs_resp-IsCodec (λ x. refl) (λ x. refl)
            (λ x. (λ f. f, λ f. f)) statfs_resp_of_type,
        (
          creator-IsCodec 4 create create-IsCodec (λ x. refl) (λ x. refl) (λ x. (λ f. f, λ f. f))
              create_of_type,
          (
            creator-IsCodec 5 create_resp create_resp-IsCodec (λ x. refl) (λ x. refl)
                (λ x. (λ f. f, λ f. f)) create_resp_of_type,
            (
              creator-IsCodec 6 stat stat-IsCodec (λ x. refl) (λ x. refl) (λ x. (λ f. f, λ f. f))
                  stat_of_type,
              (
                creator-IsCodec 7 stat_resp stat_resp-IsCodec (λ x. refl) (λ x. refl)
                    (λ x. (λ f. f, λ f. f)) stat_resp_of_type,
                (
                  creator-IsCodec 8 readdir readdir-IsCodec (λ x. refl) (λ x. refl)
                      (λ x. (λ f. f, λ f. f)) readdir_of_type,
                  (
                    creator-IsCodec 9 readdir_resp readdir_resp-IsCodec (λ x. refl) (λ x. refl)
                        (λ x. (λ f. f, λ f. f)) readdir_resp_of_type,
                    (
                      creator-IsCodec 10 read read-IsCodec (λ x. refl) (λ x. refl)
                          (λ x. (λ f. f, λ f. f)) read_of_type,
                      (
                        creator-IsCodec 11 read_resp read_resp-IsCodec (λ x. refl) (λ x. refl)
                            (λ x. (λ f. f, λ f. f)) read_resp_of_type,
                        (
                          creator-IsCodec 12 write write-IsCodec (λ x. refl) (λ x. refl)
                              (λ x. (λ f. f, λ f. f)) write_of_type,
                          (
                            creator-IsCodec 13 write_resp write_resp-IsCodec (λ x. refl) (λ x. refl)
                                (λ x. (λ f. f, λ f. f)) write_resp_of_type,
                            (
                              creator-IsCodec 14 truncate truncate-IsCodec (λ x. refl) (λ x. refl)
                                  (λ x. (λ f. f, λ f. f)) truncate_of_type,
                              (
                                creator-IsCodec 15 truncate_resp truncate_resp-IsCodec (λ x. refl)
                                    (λ x. refl) (λ x. (λ f. f, λ f. f)) truncate_resp_of_type,
                                (
                                  creator-IsCodec 16 unlink unlink-IsCodec (λ x. refl) (λ x. refl)
                                      (λ x. (λ f. f, λ f. f)) unlink_of_type,
                                  (
                                    creator-IsCodec 17 unlink_resp unlink_resp-IsCodec (λ x. refl)
                                        (λ x. refl) (λ x. (λ f. f, λ f. f)) unlink_resp_of_type,
                                    (
                                      creator-IsCodec 18 rmdir rmdir-IsCodec (λ x. refl) (λ x. refl)
                                          (λ x. (λ f. f, λ f. f)) rmdir_of_type,
                                      (
                                        creator-IsCodec 19 rmdir_resp rmdir_resp-IsCodec (λ x. refl)
                                            (λ x. refl) (λ x. (λ f. f, λ f. f)) rmdir_resp_of_type,
                                        (
                                          creator-IsCodec 20 mkdir mkdir-IsCodec (λ x. refl)
                                              (λ x. refl) (λ x. (λ f. f, λ f. f)) mkdir_of_type,
                                          (
                                            creator-IsCodec 21 mkdir_resp mkdir_resp-IsCodec
                                                (λ x. refl) (λ x. refl) (λ x. (λ f. f, λ f. f))
                                                mkdir_resp_of_type,
                                            (
                                              creator-IsCodec 22 rename rename-IsCodec (λ x. refl)
                                                  (λ x. refl) (λ x. (λ f. f, λ f. f))
                                                  rename_of_type,
                                              (
                                                creator-IsCodec 23 rename_resp rename_resp-IsCodec
                                                    (λ x. refl) (λ x. refl) (λ x. (λ f. f, λ f. f))
                                                    rename_resp_of_type,
                                                (tt),
                                              ),
                                            ),
                                          ),
                                        ),
                                      ),
                                    ),
                                  ),
                                ),
                              ),
                            ),
                          ),
                        ),
                      ),
                    ),
                  ),
                ),
              ),
            ),
          ),
        ),
      ),
    ),
  ),
)

-- The type of a message and then its body.
pub msg-IsCodec : IsCodec FitsMsg serialize_msg unserialize_msg
unfolding serialize_msg unserialize_msg
msg-IsCodec =
    IsCodec-seq msg_type (λ m f. type_bound m) (pod-IsCodec 4)
      λ type h. at-IsCodec type unserializor_lookup creators (λ m e. rw (← e) (type_known m))
