-- ===== src/Server/Storing.antt =====
-- The server of server_src/msg_response.cpp as the other side of `do_write` and `do_write_attr` in
-- client_src/netfs.cpp.
use net_fs.Prelude.{
  ℕ, ◌+◌, ◌-◌, ◌^◌, ◌<◌, ◌≤◌, List, length, get_elem?, ltb, some, str_eq, ◌&&◌, true, false,
  if◌then◌else◌, ok, ◌≡◌, ◌≢◌, ◌⊎◌, refl, arith,
}
use net_fs.Msg.{write, write_resp, truncate, truncate_resp}
use net_fs.Msg.Write.{MsgWrite}
use net_fs.Msg.Truncate.{MsgTruncate}
use net_fs.Cache.Span.{in_span}
use net_fs.Cache.Gather.{Stores}
use net_fs.NetFs.Remote.{callbacks}
use net_fs.NetFs.Staleness.{do_write_lem, do_write_attr_lem}
use net_fs.Server.Responders.{FileOp, respond, respond_write, respond_truncate}

-- What `FileOp::write` and `FileOp::truncate` promise below a bound: without an error some bytes
-- that are written are those of the file at their places and the others stay; truncating leaves
-- what is within the new size, and the other files.
pub record WritesDisk {S : Type 0} (op : FileOp S) (bound : ℕ) (remote : S → List ℕ → ℕ → ℕ)
    : Type 0 where
  pub within : bound ≤ 2 ^ 64
  pub writes :
      (f : List ℕ) (offset : ℕ) (buf : List ℕ) (s : S)
      → 0 < length buf
      → offset + length buf < bound
      → ((op.op_write f offset buf s).0 ≢ 0)
        ⊎ ((g : List ℕ) (pos : ℕ)
            → some (remote (op.op_write f offset buf s).3 g pos) ≡ (
                if str_eq f g && in_span offset (length buf) pos
                then get_elem? buf (pos - offset)
                else some (remote s g pos)))
  pub truncates :
      (f : List ℕ) (size : ℕ) (s : S) (g : List ℕ) (pos : ℕ)
      → (str_eq f g ≡ false) ⊎ (pos < size)
      → remote (op.op_truncate f size s).3 g pos ≡ remote s g pos

module _ {S : Type 0} (op : FileOp S) where
  respond-write_run :
      (m : MsgWrite) (s : S)
      → 0 < length m.content
      → respond op (write m) s
        ≡ ok (
          write_resp (record {
            id = m.id;
            error = (op.op_write m.filename m.offset m.content s).0;
            before_change = (op.op_write m.filename m.offset m.content s).1;
            after_change = (op.op_write m.filename m.offset m.content s).2;
          }),
          (op.op_write m.filename m.offset m.content s).3,
        )
  unfolding respond respond_write
  respond-write_run m s h =
      let some_bytes : ltb 0 (length m.content) ≡ true = ground arith in rw some_bytes refl

  respond-truncate_run :
      (m : MsgTruncate) (s : S)
      → respond op (truncate m) s
        ≡ ok (
          truncate_resp (record {
            id = m.id;
            error = (op.op_truncate m.filename m.offset s).0;
            before_change = (op.op_truncate m.filename m.offset s).1;
            after_change = (op.op_truncate m.filename m.offset s).2;
          }),
          (op.op_truncate m.filename m.offset s).3,
        )
  unfolding respond respond_truncate
  respond-truncate_run m s = refl

-- When the file operations of the server write and truncate as they promise below a bound, the
-- client's callbacks over the server's responders store what the cache writes back below it as it
-- needs it, on the files of the server.
pub respond-Stores :
    {S : Type 0} (op : FileOp S) (bound : ℕ) (remote : S → List ℕ → ℕ → ℕ)
    → WritesDisk op bound remote
    → Stores (callbacks (respond op)) bound (λ link. remote link.behind)
unfolding callbacks
respond-Stores op bound remote disk = record {
  within = disk.within;
  writes = λ f offset buf time stale link some_bytes below.
      let m : MsgWrite = record {
        id = link.msg_id;
        filename = f;
        offset = offset;
        content = buf;
      } in
      let (time', stale', run, _, _) =
        do_write_lem (respond op) f stale link _ offset buf time _
          (respond-write_run op m link.behind some_bytes) refl in
      (_, time', stale', _, run, disk.writes f offset buf link.behind some_bytes below);
  resizes = λ f attr stale link.
      let m : MsgTruncate = record { id = link.msg_id; filename = f; offset = attr.size } in
      let (attr', stale', run, _, _) =
        do_write_attr_lem (respond op) f stale link _ attr _ (respond-truncate_run op m link.behind)
          refl in
      (_, attr', stale', _, run, disk.truncates f attr.size link.behind);
}
