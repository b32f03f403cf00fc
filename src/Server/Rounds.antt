-- ===== src/Server/Rounds.antt =====
-- The loop of `run` in server_src/StorageServerConnection.cpp over all the requests of a client.
use net_fs.Prelude.{ℕ, suc, List, [], ◌∷◌, ◌++◌, Error, ok, ◌≡◌, true}
use net_fs.Msg.{Msg, msg_type, serialize_msg}
use net_fs.Msg.Codec.{FitsMsg}
use net_fs.Server.Responders.{FileOp, respond}
use net_fs.Server.Answers.{is_request, msg_id}

-- The bytes of some messages, one after the other.
unfoldable pub serialize_all : List Msg → List ℕ
serialize_all [] = []
serialize_all (msg ∷ msgs) = serialize_msg msg ++ serialize_all msgs

-- Every message is a request whose fields fit their widths.
abbrev pub AllRequests : List Msg → Type 0
AllRequests [] = Unit
AllRequests (msg ∷ msgs) = FitsMsg msg × (is_request msg ≡ true) × AllRequests msgs

-- The server goes from a state to another by answering messages in turn.
pub data Answered {S : Type 0} (op : FileOp S) : S → List Msg → List Msg → S → Type 0 where
  done : {s : S} → Answered op s [] [] s
  answer :
      {s s₁ s₂ : S} {msg resp : Msg} {msgs resps : List Msg}
      → respond op msg s ≡ ok (resp, s₁)
      → msg_type resp ≡ suc (msg_type msg)
      → msg_id resp ≡ msg_id msg
      → Answered op s₁ msgs resps s₂
      → Answered op s (msg ∷ msgs) (resp ∷ resps) s₂

module _ {S : Type 0} (op : FileOp S) where
  abbrev sent_first : List ℕ → List ℕ × Error × S → List ℕ × Error × S
  sent_first sent (more, stop, s) = (sent ++ more, stop, s)
