-- ===== src/Client.antt =====
-- client/server-connection.cpp, `ServerConnection`: what the client makes of SYNC messages and of state
-- updates. (The collection of its messages is `receive_client` of Server.Reader, its write queue
-- that of Server.Writer.) Times are in milliseconds.
pub mod Link
pub mod Queue
pub mod Handshake
pub mod History
mod Tests
use tec.Base.{
  ℕ, ◌+◌, ◌/◌, ◌%◌, ◌^◌, Option, none, some, List, [], ◌∷◌, ◌++◌, length, take, leb, if◌then◌else◌,
}
use tec.Net.Message.{Message, decode_64}
use tec.GameState.{GameState, GameStateUpdate, Wire, new, take_in}

abbrev pub ping_history_size : ℕ
ping_history_size = 10

pub record Pings : Type 0 where
  pub recent_pings : List ℕ
  pub average_ping : ℕ
  -- In `ServerStats`, a `uint64_t`.
  pub estimated_server_time : ℕ

unfoldable pub total : List ℕ → ℕ
total [] = 0
total (ping ∷ pings) = ping + total pings

abbrev pub pop_front : List ℕ → List ℕ
pop_front [] = []
pop_front (ping ∷ pings) = pings

-- `SyncHandler`, given the time since `sync_start`, which is not negative. The time of the server is copied from the body, the
-- lowest byte first.
unfoldable pub sync_handler : ℕ → Message → Pings → Pings
sync_handler round_trip message p =
    let server_time : ℕ =
      if leb 8 message.body_length
      then decode_64 (take 8 message.body)
      else p.estimated_server_time in
    let recent : List ℕ =
      (if leb ping_history_size (length p.recent_pings)
        then pop_front p.recent_pings
        else p.recent_pings)
      ++ (round_trip / 2 ∷ []) in
    let average : ℕ = total recent / ping_history_size in
    record {
      recent_pings = recent;
      average_ping = average;
      estimated_server_time = (server_time + average) % 2 ^ 64;
    }

unfoldable pub sync_all : List (ℕ × Message) → Pings → Pings
sync_all [] p = p
sync_all ((round_trip, message) ∷ ms) p = sync_all ms (sync_handler round_trip message p)

-- `GameStateUpdateHandler`: `last_received_state_id` after it, and the state that is emitted.
unfoldable pub game_state_update_handler :
    {P O V A B C : Type 0}
    → Wire P O V A B C
    → GameStateUpdate A B C
    → ℕ
    → ℕ × Option (GameState P O V)
game_state_update_handler wire gsu last_received_state_id =
    if leb gsu.state_id last_received_state_id
    then (last_received_state_id, none)
    else (gsu.state_id, some (take_in wire gsu new))
