-- ===== src/GameState/Tests.antt =====
-- Tests of states and their updates (common/game-state.hpp, client/client-game-state-queue.cpp), with
-- numbers for the values.
use tec.Base.{
  ℕ, ◌-◌, ◌<◌, ◌≤◌, ◌≡◌, refl, arith, not, ◌&&◌, leb, ◌==◌, if◌then◌else◌, none, some, [], ◌∷◌,
}
use tec.Base.Maps.{Unique, has, find}
use tec.Components.{Vec3, Orientation, Velocity}
use tec.GameState.{GameState, new, component_wire, take_in, prepare_update}
use tec.GameState.Update.{where_has, map_found, take_in-prepare_update}
use tec.GameState.Client.{StateQueue, queue_server_state, queue_all, get_game_state}
use tec.GameState.Client.Predictions.{Increasing, queue_server_state-lem, queue_all-Increasing}

-- Entity 3 with a position and a velocity, entity 5 with an orientation alone.
abbrev changes : GameState ℕ ℕ ℕ
changes = record {
  positions = (3, 30) ∷ [];
  orientations = (5, 50) ∷ [];
  velocities = (3, 33) ∷ [];
  state_id = 8;
  command_id = 2;
  timestamp = 900;
}

abbrev vector : ℕ → Vec3 ℕ
vector n = record { x = n; y = n; z = n }

abbrev turned : ℕ → Orientation ℕ
turned n = record { value = record { w = n; x = n; y = n; z = n }; rotation = vector n }

abbrev moving : ℕ → Velocity ℕ
moving n = record { linear = vector n; angular = vector n }

-- Entity 3 with all three values, entity 5 with an orientation alone.
abbrev moved : GameState (Vec3 ℕ) (Orientation ℕ) (Velocity ℕ)
moved = record {
  positions = (3, vector 30) ∷ [];
  orientations = (3, turned 31) ∷ (5, turned 50) ∷ [];
  velocities = (3, moving 33) ∷ [];
  state_id = 8;
  command_id = 2;
  timestamp = 900;
}

moved-Unique : Unique moved.positions
unfolding has find
moved-Unique = (refl, tt)

take_in-prepare_update_example :
    let wire = component_wire 0 (λ i j k. 1) (λ q. q) (vector 0) (turned 7) (moving 0) in
    let t : GameState (Vec3 ℕ) (Orientation ℕ) (Velocity ℕ) =
      take_in wire (prepare_update wire 2 8 900 moved) new in
    (find 3 t.positions ≡ find 3 moved.positions)
    × (find 3 t.orientations
        ≡ where_has 3 moved.positions (
            map_found
              (λ o. record { value = o.value; rotation = vector 7 })
              (find 3 moved.orientations)))
    × (find 3 t.velocities ≡ where_has 3 moved.positions (find 3 moved.velocities))
    × (t.state_id ≡ 8)
    × (t.command_id ≡ 2)
    × (t.timestamp ≡ 900)
take_in-prepare_update_example =
    take_in-prepare_update 0 (λ i j k. 1) (λ q. q) (vector 0) (turned 7) (moving 0) 3 2 8 900 moved
      moved-Unique

-- A queue that has taken state 6, with predictions for two commands of entity 3.
abbrev waiting : StateQueue ℕ ℕ ℕ
waiting = record {
  server_states_array = changes ∷ changes ∷ changes ∷ changes ∷ changes ∷ [];
  server_state_array_index = 4;
  base_state = changes;
  interpolated_state = changes;
  server_states = record changes { state_id = 6 } ∷ [];
  last_server_state_id = 6;
  command_id = 3;
  client_id = 3;
  predictions = (2, changes) ∷ (3, changes) ∷ [];
  stats = record {
    server_position = 0;
    server_position_next = 0;
    client_position = 0;
    client_velocity = 0;
    current_acked_id = 0;
    current_command_id = 0;
  };
}

abbrev linear : ℕ → ℕ
linear v = v

abbrev minus : ℕ → ℕ → ℕ
minus a b = a - b

queue_server_state-lem_example :
    let q' : StateQueue ℕ ℕ ℕ = queue_server_state 0 0 linear minus changes waiting in
    (8 ≤ 6 → q' ≡ waiting)
    × (6 < 8
        → (get_game_state 1 q' ≡ some changes)
          × (find 2 q'.predictions
              ≡ (if not (3 == 0) && leb 2 2 then none else find 2 waiting.predictions)))
queue_server_state-lem_example =
    queue_server_state-lem 0 0 linear minus 2 changes waiting refl (omega arith)

queue_all-Increasing_example :
    let q' : StateQueue ℕ ℕ ℕ = queue_all 0 0 linear minus (changes ∷ changes ∷ []) waiting in
    Increasing 0 q'.last_server_state_id q'.server_states
queue_all-Increasing_example =
    queue_all-Increasing 0 0 linear minus 0 (changes ∷ changes ∷ []) waiting (omega arith)
