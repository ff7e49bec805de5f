-- ===== src/Client/Link/Tests.antt =====
-- Tests of the client's connection (client/server-connection.cpp), with numbers for what is parsed.
use tec.Base.{
  ℕ, suc, ◌+◌, ◌-◌, ◌≡◌, ◌≢◌, refl, Bool, true, false, Option, none, some, List, [], ◌∷◌, ◌++◌,
  length, replicate,
}
use tec.Base.Maps.{find, insert}
use tec.Net.MessageType
use tec.Net.Message.{Message}
use tec.Net.Out.{MessageOut, get_messages}
use tec.Net.In
use tec.Net.In.{MessageIn, decode_messages}
use tec.Net.Stream.{read_messages}
use tec.Net.RoundTrip.Received.{wires, gather}
use tec.GameState.{GameStateUpdate, Wire}
use tec.Server.Process.{Peer, on_join_world}
use tec.Client.Link.{
  Link, Reply, on_client_id, sends_message, write_ends, write_fails, connects, connected, dispatch,
  handlers_of, register_defaults, register_message_handler, link_run,
}
use tec.Client.Queue.{send_all, write_fails-started, send_all-written}
use tec.Client.Handshake.{text_of, written_to, joined}

abbrev small : ℕ → Message
small t = record {
  header = replicate 16 0;
  body = replicate 1024 0;
  body_length = 1;
  sequence_number = 0;
  message_type = t;
  message_id = 0;
}

-- One message is being written.
abbrev busy : Link ℕ
busy = record {
  writer = record {
    write_msg_queue = small MessageType.sync ∷ [];
    written = [];
    started = some (small MessageType.sync) ∷ [];
  };
  in_flight = true;
  socket_open = true;
  run_sync = true;
  client_id = 0;
  last_received_state_id = 0;
  message_handlers = (MessageType.client_id, on_client_id ∷ []) ∷ [];
}

write_fails-started_example :
    let s : Link ℕ =
      link_run
        (write_fails ∷ connects ∷ connected ∷ sends_message (small MessageType.client_join) ∷ [])
        busy in
    s.writer.started ≡ busy.writer.started
write_fails-started_example =
    write_fails-started (connects ∷ connected ∷ sends_message (small MessageType.client_join) ∷ [])
      busy refl refl

send_all-written_example :
    let waiting : List Message =
      busy.writer.write_msg_queue ++ (small MessageType.client_join ∷ []) in
    let s : Link ℕ =
      link_run
        (replicate (length waiting) write_ends)
        (send_all (small MessageType.client_join ∷ []) busy) in
    (s.writer.write_msg_queue ≡ []) × (s.writer.written ≡ busy.writer.written ++ waiting)
send_all-written_example = send_all-written (small MessageType.client_join ∷ []) busy refl

registered :
    handlers_of MessageType.client_id (register_defaults busy).message_handlers
    ≡ on_client_id ∷ on_client_id ∷ []
unfolding handlers_of register_defaults register_message_handler find insert
registered = refl

abbrev plain : Wire ℕ ℕ ℕ ℕ ℕ ℕ
plain = record {
  write_position = λ v. v;
  read_position = λ v. v;
  write_orientation = λ v. v;
  read_orientation = λ v. v;
  write_velocity = λ v. v;
  read_velocity = λ v. v;
}

abbrev update : MessageIn → GameStateUpdate ℕ ℕ ℕ
update m = record { state_id = 0; command_id = 0; timestamp = 0; entities = [] }

abbrev number : MessageIn → ℕ
number m = 0

abbrev call : ℕ → MessageIn → Link ℕ → Link ℕ × List (Reply ℕ ℕ ℕ ℕ)
call x m s = (s, [])

abbrev digit : ℕ → List ℕ
digit n = (48 + n) ∷ []

abbrev atoi : List ℕ → ℕ
atoi [] = 0
atoi (c ∷ s) = c - 48

abbrev same : ℕ → ℕ
same n = n

abbrev unknown : ℕ → Option ℕ
unknown n = none

abbrev decide : ℕ → Bool → Bool × Bool
decide n known = (false, known)

abbrev peer : Peer ℕ
peer = record {
  user = some 1;
  entity_id = 0;
  last_confirmed_state_id = 0;
  last_recv_command_id = 0;
  ready_to_recv_states = false;
}

cons_nil : {c : ℕ} {s : List ℕ} → (c ∷ s) ≢ []
cons_nil e = cc

digit_some : digit 7 ≢ []
digit_some = cons_nil

handled : find MessageType.client_id busy.message_handlers ≡ some (on_client_id ∷ [])
unfolding find
handled = refl

joined_example :
    let (peer', actions) =
      on_join_world number unknown same number number unknown decide 7 digit 0 peer in
    (o : MessageOut) × (s : MessageIn) × (written_to actions ≡ o ∷ [])
    × (let got = read_messages (suc (length (wires (get_messages o)))) (wires (get_messages o)) in
        (decode_messages (gather got In.new) ≡ (s, true))
        × ((dispatch plain update number
              (text_of (suc (length got + length (digit 7))))
              atoi
              call
              s
              busy).0.client_id
            ≡ peer'.entity_id))
joined_example =
    joined plain update number atoi call digit number unknown same number number unknown decide 7 0
      peer 1 busy refl refl digit_some handled
