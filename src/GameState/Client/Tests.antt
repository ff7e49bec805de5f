-- ===== src/GameState/Client/Tests.antt =====
-- Tests of `Interpolate` (client/client-game-state-queue.cpp), with numbers for values and times: the rate
-- is 10, and a share of the time is that time.
use tec.Base.{ℕ, ◌+◌, ◌-◌, ◌≡◌, refl, true, false, [], ◌∷◌, ltb, leb}
use tec.Base.Maps.{Unique, has, find}
use tec.GameState.{GameState}
use tec.GameState.Client.{StateQueue}
use tec.GameState.Client.Interpolate.{Blend, Interpolated, interpolate}
use tec.GameState.Client.Blended.{Between, interpolate-Between}
use tec.GameState.Client.Dropped.{Dropped}
use tec.GameState.Client.Advanced.{Rebased, interpolate-Rebased}

abbrev blend : Blend ℕ ℕ ℕ ℕ ℕ
blend = record {
  add = λ t d. t + d;
  take_rate = λ t. t - 10;
  reached = λ t. leb 10 t;
  percent = λ t n. t;
  positive = λ p. ltb 0 p;
  lerp = λ p b a. b + p;
  lerp_velocity = λ p b a. b + p;
  slerp = λ p o b a. b + p;
}

abbrev shown : GameState ℕ ℕ ℕ
shown = record {
  positions = (3, 30) ∷ [];
  orientations = (5, 50) ∷ [];
  velocities = (3, 33) ∷ [];
  state_id = 6;
  command_id = 2;
  timestamp = 900;
}

abbrev next : GameState ℕ ℕ ℕ
next = record {
  positions = (3, 40) ∷ (4, 44) ∷ [];
  orientations = (5, 55) ∷ [];
  velocities = (4, 4) ∷ [];
  state_id = 8;
  command_id = 3;
  timestamp = 950;
}

abbrev waiting : Interpolated ℕ ℕ ℕ ℕ
waiting = record {
  queue = record {
    server_states_array = shown ∷ shown ∷ shown ∷ shown ∷ shown ∷ [];
    server_state_array_index = 4;
    base_state = shown;
    interpolated_state = shown;
    server_states = next ∷ shown ∷ [];
    last_server_state_id = 8;
    command_id = 3;
    client_id = 3;
    predictions = (3, shown) ∷ [];
    stats = record {
      server_position = 0;
      server_position_next = 0;
      client_position = 0;
      client_velocity = 0;
      current_acked_id = 0;
      current_command_id = 0;
    };
  };
  interpolation_accumulator = 4;
  server_state_count = 0;
  last_state_time = 0;
}

positions-Unique : Unique next.positions
unfolding has find
positions-Unique = (refl, (refl, tt))

velocities-Unique : Unique next.velocities
unfolding has find
velocities-Unique = (refl, tt)

orientations-Unique : Unique next.orientations
unfolding has find
orientations-Unique = (refl, tt)

interpolate-Between_example :
    let q : StateQueue ℕ ℕ ℕ = (interpolate blend 0 0 0 77 3 waiting).queue in
    (q ≡ record waiting.queue { interpolated_state = q.interpolated_state })
    × (ltb 0 7 ≡ false → q.interpolated_state ≡ shown)
    × (ltb 0 7 ≡ true → Between blend 0 7 shown next shown q.interpolated_state 3)
interpolate-Between_example =
    interpolate-Between blend 0 0 0 77 3 waiting next (shown ∷ []) 3 refl refl positions-Unique
      velocities-Unique orientations-Unique

interpolate-Rebased_example :
    let i : Interpolated ℕ ℕ ℕ ℕ = interpolate blend 0 0 0 77 8 waiting in
    Rebased 0 0 waiting.queue next shown i.queue.base_state 3
    × Rebased 0 0 waiting.queue next shown i.queue.interpolated_state 3
    × Dropped blend
        (shown ∷ [])
        i.queue.server_states
        (blend.take_rate (waiting.interpolation_accumulator + 8))
        i.interpolation_accumulator
interpolate-Rebased_example =
    interpolate-Rebased blend 0 0 0 77 8 waiting next (shown ∷ []) 3 refl refl positions-Unique
      velocities-Unique orientations-Unique
