-- ===== src/Client/Link.antt =====
-- client/server-connection.cpp, `ServerConnection`: connecting and disconnecting, `Send` with the write
-- queue of Server.Writer, and the handlers of the messages. The socket is a flag; what ends an
-- asynchronous operation is an event. The parsers of the protocol buffers, `ToString` and `atoi` are
-- parameters.
mod Tests
use tec.Base.{
  ℕ, Bool, true, false, ◌||◌, length, ltb, Option, none, some, List, [], ◌∷◌, ◌++◌, if◌then◌else◌,
}
use tec.Base.Maps.{Map, find, insert}
use tec.Net.MessageType
use tec.Net.Message.{Message}
use tec.Net.Out
use tec.Net.Out.{MessageOut}
use tec.Net.In.{MessageIn, reset}
use tec.GameState.{GameState, GameStateUpdate, Wire}
use tec.Client.{game_state_update_handler}
use tec.Server.Writer.{Writer, queue_message, queue_write, on_write}
use tec.Server.World.{from_string}
use tec.Server.Process.{short_message}

-- The handlers: those of the constructor, and others by their name.
pub data Handler (X : Type 0) : Type 0 where
  on_game_state_update : Handler X
  on_chat_message : Handler X
  on_client_id : Handler X
  on_client_leave : Handler X
  on_entity_create : Handler X
  on_entity_destroy : Handler X
  on_world_sent : Handler X
  on_authenticated : Handler X
  other_handler : X → Handler X

-- `in_flight`: whether the end of an `asio::async_write` is still to come, as `do_write` begins it.
pub record Link (X : Type 0) : Type 0 where
  pub writer : Writer
  pub in_flight : Bool
  pub socket_open : Bool
  pub run_sync : Bool
  pub client_id : ℕ
  pub last_received_state_id : ℕ
  pub message_handlers : Map (List (Handler X))

-- Whether `do_write` was called on the way from one state of the writer to another.
abbrev pub begun : Writer → Writer → Bool
begun before after = ltb (length before.started) (length after.started)

-- The last endpoint of IPv4.
unfoldable pub last_v4 : {A : Type 0} → Option A → List (Bool × A) → Option A
last_v4 found [] = found
last_v4 found ((v4, endpoint) ∷ rest) = last_v4 (if v4 then some endpoint else found) rest

module _ {X : Type 0} where
  -- `Disconnect`: the write queue stays as it is.
  unfoldable pub disconnect : Link X → Link X
  disconnect s = record s { run_sync = false; socket_open = false; client_id = 0 }

  -- `Send(MessagePool::ptr_type)` and `Send(MessageOut&)`
  unfoldable pub send_message : Message → Link X → Link X
  send_message m s = record s {
    in_flight = s.in_flight || begun s.writer (queue_message m s.writer);
    writer = queue_message m s.writer;
  }

  unfoldable pub send : MessageOut → Link X → Link X
  send o s = record s {
    in_flight = s.in_flight || begun s.writer (queue_write o s.writer);
    writer = queue_write o s.writer;
  }

  -- The handler of `do_write` after a success.
  unfoldable pub on_written : Link X → Link X
  on_written s =
      let w : Writer = on_write s.writer in
      if s.in_flight then record s { writer = w; in_flight = begun s.writer w } else s

  -- The handler of `do_write` after an error: it throws, and `StartDispatch` disconnects.
  unfoldable pub on_write_error : Link X → Link X
  on_write_error s = if s.in_flight then disconnect (record s { in_flight = false }) else s

  -- `Stop`, of the connection alone.
  unfoldable pub stop : Link X → Link X
  stop s = record s { socket_open = false; run_sync = false }

  -- `SendChatMessage`
  unfoldable pub send_chat_message : List ℕ → Link X → Link X
  send_chat_message text s =
      if s.socket_open then send (from_string text (Out.new MessageType.chat_message)) s else s

  -- `Connect`, given what the resolver returns, each with whether it is an address of IPv4, or `none` if
  -- it throws: the endpoint to which it begins to connect, if any.
  unfoldable pub connect : {A : Type 0} → Option (List (Bool × A)) → Link X → Link X × Option A
  connect resolved s =
      (disconnect s, elim resolved [ none ↦ none | some results ↦ last_v4 none results ])

  -- The handler of `async_connect` after a success, and what `StartSync` sets.
  unfoldable pub on_connected : Link X → Link X
  on_connected s = record s { socket_open = true; run_sync = true }

  unfoldable pub handlers_of : ℕ → Map (List (Handler X)) → List (Handler X)
  handlers_of t handlers = elim (find t handlers) [ none ↦ [] | some hs ↦ hs ]

  -- `RegisterMessageHandler`
  unfoldable pub register_message_handler : ℕ → Handler X → Link X → Link X
  register_message_handler t h s = record s {
    message_handlers = insert t (handlers_of t s.message_handlers ++ (h ∷ [])) s.message_handlers;
  }

  -- The handlers that the constructor registers.
  unfoldable pub register_defaults : Link X → Link X
  register_defaults s = register_message_handler MessageType.authenticated on_authenticated (
      register_message_handler MessageType.world_sent on_world_sent (
        register_message_handler MessageType.entity_destroy on_entity_destroy (
          register_message_handler MessageType.entity_create on_entity_create (
            register_message_handler MessageType.client_leave on_client_leave (
              register_message_handler MessageType.client_id on_client_id (
                register_message_handler MessageType.chat_message on_chat_message (
                  register_message_handler MessageType.game_state_update on_game_state_update
                    s)))))))

-- What happens to a connection; `Connect` changes what `Disconnect` does.
pub data LinkEvent : Type 0 where
  sends_message : Message → LinkEvent
  sends : MessageOut → LinkEvent
  write_ends : LinkEvent
  write_fails : LinkEvent
  connects : LinkEvent
  connected : LinkEvent
  disconnects : LinkEvent
  stops : LinkEvent
  chats : List ℕ → LinkEvent

module _ {X : Type 0} where
  unfoldable pub link_step : LinkEvent → Link X → Link X
  link_step (sends_message m) s = send_message m s
  link_step (sends o) s = send o s
  link_step write_ends s = on_written s
  link_step write_fails s = on_write_error s
  link_step connects s = disconnect s
  link_step connected s = on_connected s
  link_step disconnects s = disconnect s
  link_step stops s = stop s
  link_step (chats text) s = send_chat_message text s

  unfoldable pub link_run : List LinkEvent → Link X → Link X
  link_run [] s = s
  link_run (e ∷ es) s = link_run es (link_step e s)

-- What a handler does besides: an event that is emitted, a line that is logged.
pub data Reply (P O V E : Type 0) : Type 0 where
  new_game_state : GameState P O V → Reply P O V E
  log_text : List ℕ → Reply P O V E
  entity_destroyed : ℕ → Reply P O V E
  entity_created : E → Reply P O V E

module _ {X P O V E PM OM VM : Type 0} (wire : Wire P O V PM OM VM)
    (parse_update : MessageIn → GameStateUpdate PM OM VM) (parse_entity : MessageIn → E)
    (text : MessageIn → List ℕ) (atoi : List ℕ → ℕ)
    (call : X → MessageIn → Link X → Link X × List (Reply P O V E)) where
  -- The handlers.
  unfoldable pub run_handler : Handler X → MessageIn → Link X → Link X × List (Reply P O V E)
  run_handler on_game_state_update m s =
      let (id, state) = game_state_update_handler wire (parse_update m) s.last_received_state_id in
      let replies : List (Reply P O V E) = elim state [
        | none ↦ []
        | some g ↦ new_game_state g ∷ []
      ] in
      (record s { last_received_state_id = id }, replies)
  run_handler on_chat_message m s = (s, log_text (text m) ∷ [])
  run_handler on_client_id m s = (record s { client_id = atoi (text m) }, [])
  run_handler on_client_leave m s = (s, entity_destroyed (atoi (text m)) ∷ [])
  run_handler on_entity_create m s = (s, entity_created (parse_entity m) ∷ [])
  run_handler on_entity_destroy m s = (s, entity_destroyed (atoi (text m)) ∷ [])
  run_handler on_world_sent m s =
      (send (from_string (111 ∷ 107 ∷ []) (Out.new MessageType.client_ready_to_receive)) s, [])
  run_handler on_authenticated m s = (send_message (short_message MessageType.client_join 1) s, [])
  run_handler (other_handler x) m s = call x m s

  unfoldable pub run_handlers :
      List (Handler X) → MessageIn → Link X → Link X × List (Reply P O V E)
  run_handlers [] m s = (s, [])
  run_handlers (h ∷ hs) m s =
      let (s', replies) = run_handler h (reset m) s in
      let (s'', rest) = run_handlers hs m s' in (s'', replies ++ rest)

  -- The call of the handlers for a message that was decoded, in `read_body`.
  unfoldable pub dispatch : MessageIn → Link X → Link X × List (Reply P O V E)
  dispatch m s = run_handlers (handlers_of m.message_type s.message_handlers) m s
