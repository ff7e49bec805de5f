-- ===== src/Client/Tests.antt =====
-- Tests of the client's pings (client/server-connection.cpp).
use tec.Base.{ℕ, ◌/◌, ◌≤◌, ◌≡◌, refl, arith, List, [], ◌∷◌, ◌++◌, length, replicate}
use tec.Base.Newest.{newest}
use tec.Net.MessageType
use tec.Net.Message.{Message}
use tec.Client.{Pings, ping_history_size, total, sync_all}
use tec.Client.History.{halves, sync_all-newest}

abbrev sync_message : Message
sync_message = record {
  header = replicate 16 0;
  body = replicate 1024 1;
  body_length = 8;
  sequence_number = 0;
  message_type = MessageType.sync;
  message_id = 0;
}

abbrev messages : List (ℕ × Message)
messages = (30, sync_message) ∷ (40, sync_message) ∷ []

abbrev pings : Pings
pings = record { recent_pings = 10 ∷ []; average_ping = 1; estimated_server_time = 0 }

sync_all-newest_example :
    ((sync_all messages pings).recent_pings
      ≡ newest ping_history_size ((10 ∷ []) ++ halves messages))
    × (length (sync_all messages pings).recent_pings ≤ ping_history_size)
    × ((sync_all messages pings).average_ping
        ≡ total (sync_all messages pings).recent_pings / ping_history_size)
sync_all-newest_example = sync_all-newest messages pings (omega arith) (unfold total in refl)
