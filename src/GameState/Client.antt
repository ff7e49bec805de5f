-- ===== src/GameState/Client.antt =====
-- client/client-game-state-queue.cpp, `ClientGameStateQueue`: the states that come from the server, and
-- the client's predictions. Vectors and the arithmetic on them are parameters, as are the values
-- that a `Position`, an `Orientation` and a `Velocity` are constructed with.
pub mod Predictions
pub mod Interpolate
pub mod Blended
pub mod Dropped
pub mod Advanced
mod Tests
use tec.Base.{
  ℕ, ◌+◌, ◌-◌, ◌%◌, ◌^◌, Option, none, some, List, [], ◌∷◌, ◌++◌, set, get_elem?, ltb, leb, ◌==◌,
  if◌then◌else◌,
}
use tec.Base.Maps.{Map, find, insert, has}
use tec.GameState.{GameState, Entity, Wire, new, on_created, on_destroyed}

-- The part of `ServerStats` that the queue uses.
pub record ServerStats (X : Type 0) : Type 0 where
  pub server_position : X
  pub server_position_next : X
  pub client_position : X
  pub client_velocity : X
  pub current_acked_id : ℕ
  pub current_command_id : ℕ

pub record StateQueue (X O V : Type 0) : Type 0 where
  pub server_states_array : List (GameState X O V)
  pub server_state_array_index : ℕ
  pub base_state : GameState X O V
  pub interpolated_state : GameState X O V
  pub server_states : List (GameState X O V)
  pub last_server_state_id : ℕ
  pub command_id : ℕ
  pub client_id : ℕ
  pub predictions : Map (GameState X O V)
  pub stats : ServerStats X

abbrev pub server_states_array_size : ℕ
server_states_array_size = 5

-- `operator[]` of a map: the value, and the map, with a new entry if the key was missing.
unfoldable pub entry : {A : Type 0} → ℕ → A → Map A → A × Map A
entry k d m = elim (find k m) [ none ↦ (d, insert k d m) | some a ↦ (a, m) ]

module _ {X O V : Type 0} (origin : X) (still : V) (linear : V → X) (minus : X → X → X) where
  -- The position and velocity differences for the acknowledged command.
  abbrev pub difference : ℕ → X → GameState X O V → GameState X O V → X × X
  difference client_id state_pos new_state prediction = (
    minus state_pos (entry client_id origin prediction.positions).0,
    minus (linear (entry client_id still new_state.velocities).0)
        (linear (entry client_id still prediction.velocities).0),
  )

  -- The loop over the predictions: those that stay, and the differences.
  unfoldable pub check_loop :
      ℕ → ℕ → X → GameState X O V → Map (GameState X O V) → X × X → Map (GameState X O V) × (X × X)
  check_loop ack client_id state_pos new_state [] diffs = ([], diffs)
  check_loop ack client_id state_pos new_state ((id, prediction) ∷ rest) diffs =
      let diffs' : X × X =
        if leb id ack
        then (if id == ack then difference client_id state_pos new_state prediction else diffs)
        else diffs in
      let (kept, found) = check_loop ack client_id state_pos new_state rest diffs' in
      if leb id ack then (kept, found) else ((id, prediction) ∷ kept, found)

  -- `CheckPredictionResult`: the queue and the new state after it. The two `operator[]` on the new
  -- state may add entries to it; that of the velocities only runs for an acknowledged prediction.
  unfoldable pub check_prediction_result :
      GameState X O V → StateQueue X O V → GameState X O V × StateQueue X O V
  check_prediction_result new_state q =
      let (next, positions) = entry q.client_id origin new_state.positions in
      let (predictions, diffs) =
        check_loop new_state.command_id q.client_id q.stats.server_position_next new_state
          q.predictions (origin, origin) in
      if q.client_id == 0 then (new_state, q) else (
        record new_state {
          positions = positions;
          velocities =
              if has new_state.command_id q.predictions
              then (entry q.client_id still new_state.velocities).1
              else new_state.velocities;
        },
        record q {
          predictions = predictions;
          stats = record q.stats {
            current_acked_id = new_state.command_id;
            server_position = q.stats.server_position_next;
            server_position_next = next;
            client_position = diffs.0;
            client_velocity = diffs.1;
          };
        },
      )

  -- `QueueServerState`, and `On` of a `NewGameStateEvent`.
  unfoldable pub queue_server_state : GameState X O V → StateQueue X O V → StateQueue X O V
  queue_server_state new_state q =
      let seen : StateQueue X O V = record q {
        server_states_array =
            set q.server_states_array (q.server_state_array_index % server_states_array_size)
              new_state;
        server_state_array_index = q.server_state_array_index + 1;
        last_server_state_id = new_state.state_id;
      } in
      let (checked, q') = check_prediction_result new_state seen in
      if ltb q.last_server_state_id new_state.state_id
      then record q' { server_states = q'.server_states ++ (checked ∷ []) }
      else q

  unfoldable pub queue_all : List (GameState X O V) → StateQueue X O V → StateQueue X O V
  queue_all [] q = q
  queue_all (s ∷ ss) q = queue_all ss (queue_server_state s q)

module _ {X O V : Type 0} (origin : X) (upright : O) (still : V) (nudged : X → X → X) where
  -- `UpdatePredictions`: the prediction that is kept for the current command, unless there is one.
  unfoldable pub update_predictions : GameState X O V → StateQueue X O V → StateQueue X O V
  update_predictions new_state q =
      let predict_state : GameState X O V = record new {
        positions =
            insert q.client_id
              (nudged (entry q.client_id origin new_state.positions).0 q.stats.client_position) [];
        velocities = insert q.client_id (entry q.client_id still new_state.velocities).0 [];
        orientations = insert q.client_id (entry q.client_id upright new_state.orientations).0 [];
      } in
      if q.client_id == 0 then q else record q {
        stats = record q.stats { current_command_id = q.command_id };
        predictions =
            if has q.command_id q.predictions
            then q.predictions
            else insert q.command_id predict_state q.predictions;
      }

module _ {X O V A B C : Type 0} (wire : Wire X O V A B C) where
  -- `On(eid, EntityCreated)`
  unfoldable pub on_entity_created : Entity A B C → StateQueue X O V → StateQueue X O V
  on_entity_created e q = record q {
    interpolated_state = on_created wire e q.interpolated_state;
    base_state = on_created wire e q.base_state;
  }

module _ {X O V : Type 0} where
  -- `On(eid, EntityDestroyed)`
  unfoldable pub on_entity_destroyed : ℕ → StateQueue X O V → StateQueue X O V
  on_entity_destroyed id q = record q {
    interpolated_state = on_destroyed id q.interpolated_state;
    base_state = on_destroyed id q.base_state;
  }

  -- `GetGameState`: the difference of the two `int`s is taken as an `unsigned int`.
  unfoldable pub get_game_state : ℕ → StateQueue X O V → Option (GameState X O V)
  get_game_state offset q =
      get_elem? q.server_states_array
        ((q.server_state_array_index + (2 ^ 32 - offset)) % 2 ^ 32 % server_states_array_size)
