-- ===== src/Server/Answers.antt =====
-- What the responders of server_src/msg_response.cpp answer, and a round of the server's loop.
use net_fs.Prelude.{
  ℕ, suc, length, ltb, Bool, true, false, ok, err, out_of_range, assertion, length_error, Error,
  ◌^◌, replicate, ◌≡◌, ◌⊎◌, inl, inr, refl, Bool-cases,
}
use net_fs.Msg.{
  Msg, access, access_resp, statfs, statfs_resp, create, create_resp, stat, stat_resp, readdir,
  readdir_resp, read, read_resp, write, write_resp, truncate, truncate_resp, unlink, unlink_resp,
  rmdir, rmdir_resp, mkdir, mkdir_resp, rename, rename_resp, msg_type,
}
use net_fs.Msg.Read.{MsgRead}
use net_fs.Msg.Write.{MsgWrite}
use net_fs.Server.Responders.{
  FileOp, resize, respond, respond_access, respond_create, respond_stat, respond_statfs,
  respond_readdir, respond_read, respond_write, respond_truncate, respond_unlink, respond_rmdir,
  respond_mkdir, respond_rename,
}

-- `Msg::id`
unfoldable pub msg_id : Msg → ℕ
msg_id (access m) = m.id
msg_id (access_resp m) = m.id
msg_id (create m) = m.id
msg_id (create_resp m) = m.id
msg_id (stat m) = m.id
msg_id (stat_resp m) = m.id
msg_id (statfs m) = m.id
msg_id (statfs_resp m) = m.id
msg_id (readdir m) = m.id
msg_id (readdir_resp m) = m.id
msg_id (read m) = m.id
msg_id (read_resp m) = m.id
msg_id (write m) = m.id
msg_id (write_resp m) = m.id
msg_id (truncate m) = m.id
msg_id (truncate_resp m) = m.id
msg_id (unlink m) = m.id
msg_id (unlink_resp m) = m.id
msg_id (rmdir m) = m.id
msg_id (rmdir_resp m) = m.id
msg_id (mkdir m) = m.id
msg_id (mkdir_resp m) = m.id
msg_id (rename m) = m.id
msg_id (rename_resp m) = m.id

-- The requests that have a responder which is content with them.
unfoldable pub is_request : Msg → Bool
is_request (access m) = true
is_request (create m) = true
is_request (stat m) = true
is_request (statfs m) = true
is_request (readdir m) = true
is_request (read m) = ltb m.size (2 ^ 63)
is_request (write m) = ltb 0 (length m.content)
is_request (truncate m) = true
is_request (unlink m) = true
is_request (rmdir m) = true
is_request (mkdir m) = true
is_request (rename m) = true
is_request msg = false

-- What stops the server at a message that is no such request: a responder that is not content with
-- it, or none that is there.
unfoldable pub refusal : Msg → Error
refusal (read m) = length_error
refusal (write m) = assertion
refusal msg = out_of_range

module _ {S : Type 0} (op : FileOp S) where
  -- The answer to a message: a response of the kind that is due, with the message's id.
  abbrev pub Answer : Msg → S → Type 0
  Answer msg s =
      (resp : Msg) × (s' : S) × (respond op msg s ≡ ok (resp, s'))
      × (msg_type resp ≡ suc (msg_type msg))
      × (msg_id resp ≡ msg_id msg)

  respond_write-Answer :
      (m : MsgWrite) (s : S) → ltb 0 (length m.content) ≡ true → Answer (write m) s
  unfolding respond respond_write msg_type msg_id
  respond_write-Answer m s some_bytes =
      let (error, before, after, s') = op.op_write m.filename m.offset m.content s in
      (
        write_resp
            (record { id = m.id; error = error; before_change = before; after_change = after }),
        s',
        rw some_bytes refl,
        refl,
        refl,
      )

  respond_read-Answer : (m : MsgRead) (s : S) → ltb m.size (2 ^ 63) ≡ true → Answer (read m) s
  unfolding respond respond_read msg_type msg_id
  respond_read-Answer m s fits =
      let (error, bytes, n, s') = op.op_read m.filename m.offset (replicate m.size 0) s in
      (
        read_resp (record { id = m.id; error = error; content = resize n bytes }),
        s',
        rw (respond_read, fits) refl,
        refl,
        refl,
      )

  -- Whatever the file operations do, each request is answered with a response of its kind and its
  -- id, except that a write of no bytes fails an assertion and a read whose size is negative as a
  -- signed number throws `length_error`; a response has no responder and throws `out_of_range`.
  pub respond_lem :
      (msg : Msg) (s : S)
      → ((is_request msg ≡ true) × Answer msg s)
        ⊎ ((is_request msg ≡ false) × (respond op msg s ≡ err (refusal msg)))
  unfolding is_request refusal respond respond_access respond_create respond_stat respond_statfs
      respond_readdir respond_read respond_write respond_truncate respond_unlink respond_rmdir
      respond_mkdir respond_rename msg_type msg_id
  respond_lem (access m) s = inl (refl, (_, _, refl, refl, refl))
  respond_lem (access_resp m) s = inr (refl, refl)
  respond_lem (create m) s = inl (refl, (_, _, refl, refl, refl))
  respond_lem (create_resp m) s = inr (refl, refl)
  respond_lem (stat m) s = inl (refl, (_, _, refl, refl, refl))
  respond_lem (stat_resp m) s = inr (refl, refl)
  respond_lem (statfs m) s = inl (refl, (_, _, refl, refl, refl))
  respond_lem (statfs_resp m) s = inr (refl, refl)
  respond_lem (readdir m) s = inl (refl, (_, _, refl, refl, refl))
  respond_lem (readdir_resp m) s = inr (refl, refl)
  respond_lem (read m) s = elim (Bool-cases (ltb m.size (2 ^ 63))) [
    | inl fits ↦ inl (fits, respond_read-Answer m s fits)
    | inr negative ↦ inr (negative, rw (respond_read, negative) refl)
  ]
  respond_lem (read_resp m) s = inr (refl, refl)
  respond_lem (write m) s = elim (Bool-cases (ltb 0 (length m.content))) [
    | inl some_bytes ↦ inl (some_bytes, respond_write-Answer m s some_bytes)
    | inr none_left ↦ inr (none_left, rw none_left refl)
  ]
  respond_lem (write_resp m) s = inr (refl, refl)
  respond_lem (truncate m) s = inl (refl, (_, _, refl, refl, refl))
  respond_lem (truncate_resp m) s = inr (refl, refl)
  respond_lem (unlink m) s = inl (refl, (_, _, refl, refl, refl))
  respond_lem (unlink_resp m) s = inr (refl, refl)
  respond_lem (rmdir m) s = inl (refl, (_, _, refl, refl, refl))
  respond_lem (rmdir_resp m) s = inr (refl, refl)
  respond_lem (mkdir m) s = inl (refl, (_, _, refl, refl, refl))
  respond_lem (mkdir_resp m) s = inr (refl, refl)
  respond_lem (rename m) s = inl (refl, (_, _, refl, refl, refl))
  respond_lem (rename_resp m) s = inr (refl, refl)
