-- ===== src/Server/Tests.antt =====
-- Tests of the server's part of a connection (server/client-connection.cpp, server/server.cpp).
use tec.Base.{
  ◌+◌, ◌≢◌, Bool, Option, if◌then◌else◌, ◌==◌, ℕ, ◌≡◌, refl, arith, true, false, none, some, List,
  [], ◌∷◌, ◌++◌, replicate,
}
use tec.Base.Newest.{newest}
use tec.Base.Maps.{find}
use tec.GameState.{GameState}
use tec.Net.MessageType
use tec.Net.Message.{Message}
use tec.Net.Out
use tec.Net.Out.{MessageOut}
use tec.Net.In
use tec.Net.In.{MessageIn}
use tec.Net.In.Decode.{IsBody, final_type}
use tec.Net.RoundTrip.Received.{gather}
use tec.Server.Reader.{receive_all, with_id}
use tec.Server.Reassembly.{reassembly}
use tec.Server.Writer.{
  Writer, Turn, message, write_ends, write_fails, turns, queued, IsOrderly, turns-IsOrderly,
}
use tec.Server.World.{Client, Server}
use tec.Server.Process.{Peer, process_message, process_message-user}
use tec.Server.World.Recent.{deliver_all, saved, deliver_all-newest}

abbrev fragment : ℕ → ℕ → ℕ → Message
fragment id t number = record {
  header = replicate 16 0;
  body = replicate 1024 7;
  body_length = 2;
  sequence_number = number;
  message_type = t;
  message_id = id;
}

-- The two messages of body 7, with one of body 8 between them.
abbrev mixed : List Message
mixed =
    fragment 7 MessageType.multi_part 0
    ∷ fragment 8 MessageType.login 0
    ∷ fragment 7 MessageType.chat_message 1
    ∷ []

mixed-IsBody : IsBody 0 (with_id 7 mixed)
unfolding with_id
mixed-IsBody = (refl, refl, (refl, λ e. omega (arith, e)))

reassembly_example :
    ((receive_all 7 mixed []).0
      ≡ record (gather (with_id 7 mixed) In.new) { message_type = final_type (with_id 7 mixed) }
        ∷ [])
    × (find 7 (receive_all 7 mixed []).1 ≡ none)
reassembly_example = reassembly 7 mixed [] (unfold find in refl) mixed-IsBody

abbrev idle : Writer
idle = record { write_msg_queue = []; written = []; started = [] }

abbrev script : List Turn
script =
    message (fragment 1 MessageType.sync 0)
    ∷ message (fragment 2 MessageType.sync 0)
    ∷ write_ends
    ∷ write_fails
    ∷ message (fragment 3 MessageType.sync 0)
    ∷ []

turns-IsOrderly_example :
    IsOrderly (turns script idle)
    × ((turns script idle).written ++ (turns script idle).write_msg_queue ≡ queued script)
turns-IsOrderly_example =
    turns-IsOrderly true script idle (refl, omega arith, (refl, omega arith, tt))
      (record { one_at_a_time = refl })

abbrev no_changes : GameState ℕ ℕ ℕ
no_changes = record {
  positions = [];
  orientations = [];
  velocities = [];
  state_id = 0;
  command_id = 0;
  timestamp = 0;
}

abbrev client_of : ℕ → Client ℕ ℕ ℕ
client_of id = record { user = some id; writer = idle; state_changes_since_confirmed = no_changes }

abbrev server : Server ℕ ℕ ℕ ℕ
server = record {
  greeting_msg = Out.new MessageType.chat_message;
  entities = [];
  clients = (1, client_of 10) ∷ (2, client_of 20) ∷ [];
  recent_msgs = [];
  destroyed = [];
}

abbrev chats : List (MessageOut × tec.Base.Bool)
chats = (Out.new MessageType.chat_message, true) ∷ (Out.new MessageType.client_join, false) ∷ []

deliver_all-newest_example : (deliver_all chats server).recent_msgs ≡ newest 100 (saved chats)
deliver_all-newest_example = deliver_all-newest chats server (omega arith)

abbrev unserialized : ℕ → MessageOut → MessageOut
unserialized e o = o

abbrev digit : ℕ → List ℕ
digit n = (48 + n) ∷ []

-- A login with the name 5; only the name 5 is known, and the script decides as the list does.
abbrev login : MessageIn
login = record {
  message_type = MessageType.login;
  message_id = 0;
  payload_read = 0;
  read_offset = 0;
  message_list = [];
  read_index = [];
}

abbrev peer : Peer ℕ
peer = record {
  user = none;
  entity_id = 0;
  last_confirmed_state_id = 0;
  last_recv_command_id = 0;
  ready_to_recv_states = false;
}

abbrev name_of : MessageIn → ℕ
name_of msg = 5

abbrev confirmed : ℕ → Option ℕ
confirmed n = none

abbrev number : ℕ → ℕ
number n = n

abbrev known_user : ℕ → Option ℕ
known_user n = if n == 5 then some 1 else none

abbrev decide : ℕ → Bool → Bool × Bool
decide n known = (false, known)

process_message-user_example :
    (MessageType.login ≢ MessageType.login
      → (process_message name_of confirmed number name_of name_of known_user decide 9 digit 0 login
          peer).0.user
        ≡ none)
    × (MessageType.login ≡ MessageType.login
        → (process_message name_of confirmed number name_of name_of known_user decide 9 digit 0
            login peer).0.user
          ≡ some 1)
process_message-user_example =
    process_message-user name_of confirmed number name_of name_of known_user decide 9 digit 0 login
      peer
