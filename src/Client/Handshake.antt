-- ===== src/Client/Handshake.antt =====
-- The client's and the server's side of joining the world: client/server-connection.cpp against
-- `OnJoinWorld` of server/client-connection.cpp, with the messages between them.
use tec.Base.{
  ℕ, suc, ◌+◌, ◌^◌, ◌<◌, ◌≡◌, ◌≢◌, refl, sym, ap, ◌∙◌, Bool, true, Option, none, some, List, [],
  ◌∷◌, length, arith,
}
use tec.Base.Maps.{find}
use tec.Net.MessageType
use tec.Net.Out
use tec.Net.Out.{MessageOut, get_messages, from_buffer}
use tec.Net.In
use tec.Net.In.{MessageIn, reset, decode_messages, to_string}
use tec.Net.Stream.{read_messages}
use tec.Net.RoundTrip.{round_trip}
use tec.Net.RoundTrip.Received.{wires, gather}
use tec.GameState.{GameStateUpdate, Wire}
use tec.Server.World.{from_string}
use tec.Server.Process.{Peer, Action, on_join_world, write}
use tec.Client.Link.{
  Handler, Link, Reply, on_client_id, handlers_of, run_handler, run_handlers, dispatch,
}

-- `ToString` with that fuel, where it returns.
abbrev pub text_of : ℕ → MessageIn → List ℕ
text_of fuel m = elim (to_string fuel m) [ none ↦ [] | some (m', body) ↦ body ]

-- The messages among the actions that are written to the connection itself.
abbrev pub written_to : {C K : Type 0} → List (Action C K) → List MessageOut
written_to [] = []
written_to (write o ∷ rest) = o ∷ written_to rest
written_to (other ∷ rest) = written_to rest

-- What `OnJoinWorld` does for a connection with a user.
module _ {U C K : Type 0} (parse_commands : MessageIn → C) (last_state_id : C → Option ℕ)
    (command_id : C → ℕ) (parse_chat_command : MessageIn → K) (username : MessageIn → ℕ)
    (authenticate : ℕ → Option U) (script : ℕ → Bool → Bool × Bool) (id : ℕ) (to_text : ℕ → List ℕ)
    (timestamp : ℕ) where
  join_lem :
      (peer : Peer U) (u : U)
      → peer.user ≡ some u
      → let (peer', actions) =
          on_join_world parse_commands last_state_id command_id parse_chat_command username
            authenticate script id to_text timestamp peer in
        (peer'.entity_id ≡ id)
        × (written_to actions ≡ from_string (to_text id) (Out.new MessageType.client_id) ∷ [])
  unfolding on_join_world
  join_lem peer u known = rw known (refl, refl)

from_string-made :
    (body : List ℕ) (o o' : MessageOut) → from_buffer body o ≡ some o' → from_string body o ≡ o'
from_string-made body o o' made = rw (from_string, made) refl

-- The message that carries a text, and what the other side makes of it.
pub carried :
    (t : ℕ) (body : List ℕ)
    → body ≢ []
    → t ≢ MessageType.multi_part
    → t < 2 ^ 32
    → (s : MessageIn) × (let o : MessageOut = from_string body (Out.new t) in
        let got = read_messages (suc (length (wires (get_messages o)))) (wires (get_messages o)) in
        (decode_messages (gather got In.new) ≡ (s, true))
        × (s.message_type ≡ t)
        × (text_of (suc (length got + length body)) (reset s) ≡ body))
unfolding Out.new
carried t body some_byte whole small =
    let (o, s, s', made, (count, decoded, type, back)) =
      round_trip t 0 body some_byte whole small (omega arith) in
    let same : from_string body (Out.new t) ≡ o = from_string-made body (Out.new t) o made in
    (s, rw same (decoded, type, rw (text_of, back) refl))

module _ {X P O V E PM OM VM : Type 0} (wire : Wire P O V PM OM VM)
    (parse_update : MessageIn → GameStateUpdate PM OM VM) (parse_entity : MessageIn → E)
    (atoi : List ℕ → ℕ) (call : X → MessageIn → Link X → Link X × List (Reply P O V E))
    (to_text : ℕ → List ℕ) where
  handlers_type :
      (t : ℕ) (hs : List (Handler X)) (link : Link X)
      → t ≡ MessageType.client_id
      → find MessageType.client_id link.message_handlers ≡ some hs
      → handlers_of t link.message_handlers ≡ hs
  unfolding handlers_of
  handlers_type t hs link type only = rw (type, handlers_of, only) refl

  -- The handler of CLIENT_ID, called for a decoded message.
  dispatch-client_id :
      (text : MessageIn → List ℕ) (m : MessageIn) (link : Link X)
      → m.message_type ≡ MessageType.client_id
      → find MessageType.client_id link.message_handlers ≡ some (on_client_id ∷ [])
      → (dispatch wire parse_update parse_entity text atoi call m link).0.client_id
        ≡ atoi (text (reset m))
  unfolding dispatch run_handlers run_handler
  dispatch-client_id text m link type only =
      rw (handlers_type m.message_type (on_client_id ∷ []) link type only) refl

  -- The id that the server has given to the entity of a user who joins the world reaches the client: what
  -- `OnJoinWorld` writes to the connection is one CLIENT_ID message, and the client that reads the bytes
  -- of it, collects and decodes them and calls the handlers of its constructor has that id
  -- then, provided that `atoi` reads the text of the id back and the text is not empty.
  pub joined :
      {U C K : Type 0} (parse_commands : MessageIn → C) (last_state_id : C → Option ℕ)
      (command_id : C → ℕ) (parse_chat_command : MessageIn → K) (username : MessageIn → ℕ)
      (authenticate : ℕ → Option U) (script : ℕ → Bool → Bool × Bool) (id timestamp : ℕ)
      (peer : Peer U) (u : U) (link : Link X)
      → peer.user ≡ some u
      → atoi (to_text id) ≡ id
      → to_text id ≢ []
      → find MessageType.client_id link.message_handlers ≡ some (on_client_id ∷ [])
      → let (peer', actions) =
          on_join_world parse_commands last_state_id command_id parse_chat_command username
            authenticate script id to_text timestamp peer in
        (o : MessageOut) × (s : MessageIn) × (written_to actions ≡ o ∷ [])
        × (let got =
              read_messages (suc (length (wires (get_messages o)))) (wires (get_messages o)) in
            (decode_messages (gather got In.new) ≡ (s, true))
            × ((dispatch wire parse_update parse_entity
                  (text_of (suc (length got + length (to_text id))))
                  atoi
                  call
                  s
                  link).0.client_id
                ≡ peer'.entity_id))
  joined parse_commands last_state_id command_id parse_chat_command username authenticate script id
        timestamp peer u link known reads some_text only =
      let (entity, writes) =
        join_lem parse_commands last_state_id command_id parse_chat_command username authenticate
          script id to_text timestamp peer u known in
      let (s, (decoded, type, body)) =
        carried MessageType.client_id (to_text id) some_text (omega arith) (omega arith) in
      (
        from_string (to_text id) (Out.new MessageType.client_id),
        s,
        writes,
        (decoded, dispatch-client_id _ s link type only ∙ ap atoi body ∙ reads ∙ sym entity),
      )
