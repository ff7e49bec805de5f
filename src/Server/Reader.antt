-- ===== src/Server/Reader.antt =====
-- `read_body` of server/client-connection.cpp and of client/server-connection.cpp: the messages read are
-- collected by their message id until the last one of a body has come.
use tec.Base.{ℕ, Bool, true, false, none, some, List, [], ◌∷◌, ◌++◌, ◌==◌, if◌then◌else◌}
use tec.Base.Maps.{Map, find, insert, erase}
use tec.Net.MessageType
use tec.Net.Message.{Message}
use tec.Net.In
use tec.Net.In.{MessageIn, push_message, decode_messages}

-- What a message leads to: it is kept, or the body is complete and handled, or the sequence of its
-- messages is invalid, which is logged. The client handles SYNC messages apart.
pub data Outcome : Type 0 where
  kept : Outcome
  complete : MessageIn → Outcome
  invalid : Outcome
  synced : Message → Outcome

-- The object that the message is pushed to: the one collected under its id, or a new one.
abbrev pub collected : ℕ → Map MessageIn → MessageIn
collected id m = elim (find id m) [ none ↦ In.new | some s ↦ s ]

-- `read_messages.erase(message_iter)`, where there is an iterator.
abbrev pub dropped : ℕ → Map MessageIn → Map MessageIn
dropped id m = elim (find id m) [ none ↦ m | some s ↦ erase id m ]

abbrev pub outcome : MessageIn × Bool → Outcome
outcome (s, true) = complete s
outcome (s, false) = invalid

-- `ClientConnection::read_body`, behind the read: `read_messages` after it, and the outcome.
unfoldable pub receive : Message → Map MessageIn → Map MessageIn × Outcome
receive msg m =
    let s : MessageIn = push_message msg (collected msg.message_id m) in
    if msg.message_type == MessageType.multi_part
    then (insert msg.message_id s m, kept)
    else (dropped msg.message_id m, outcome (decode_messages s))

-- `ServerConnection::read_body`
unfoldable pub receive_client : Message → Map MessageIn → Map MessageIn × Outcome
receive_client msg m =
    if msg.message_type == MessageType.sync then (m, synced msg) else receive msg m

-- The bodies completed with an id, in order.
abbrev pub completed : ℕ → ℕ → Outcome → List MessageIn
completed k id kept = []
completed k id (complete s) = if id == k then s ∷ [] else []
completed k id invalid = []
completed k id (synced msg) = []

unfoldable pub receive_all : ℕ → List Message → Map MessageIn → List MessageIn × Map MessageIn
receive_all k [] m = ([], m)
receive_all k (msg ∷ ms) m =
    let (m', o) = receive msg m in
    let (bodies, m'') = receive_all k ms m' in (completed k msg.message_id o ++ bodies, m'')

-- The messages with an id.
unfoldable pub with_id : ℕ → List Message → List Message
with_id k [] = []
with_id k (msg ∷ ms) = if msg.message_id == k then msg ∷ with_id k ms else with_id k ms
