-- ===== src/GameState/Client/Interpolate.antt =====
-- `Interpolate` of client/client-game-state-queue.cpp. The arithmetic of `double` and `float`, and the
-- interpolation of two values, are parameters. `dangling` is what a read of the state id finds through
-- the reference to a state that was popped.
use tec.Base.{
  ℕ, ◌+◌, ◌-◌, ◌%◌, ◌^◌, Bool, Option, none, some, List, [], ◌∷◌, length, ◌==◌, if◌then◌else◌,
}
use tec.Base.Maps.{Map, find, insert}
use tec.GameState.{GameState}
use tec.GameState.Client.{StateQueue, entry}

-- What is computed with the accumulated time D, the percentage L and the values.
pub record Blend (X O V D L : Type 0) : Type 0 where
  pub add : D → D → D
  -- One interpolation rate less, and whether there is one.
  pub take_rate : D → D
  pub reached : D → Bool
  -- The share of the time for a number of states, and whether it is above 0.
  pub percent : D → ℕ → L
  pub positive : L → Bool
  pub lerp : L → X → X → X
  pub lerp_velocity : L → V → V → V
  -- The value between two orientations, with the rotation of a third one, which is first.
  pub slerp : L → O → O → O → O

-- The queue with the fields that only `Interpolate` uses.
pub record Interpolated (X O V D : Type 0) : Type 0 where
  pub queue : StateQueue X O V
  pub interpolation_accumulator : D
  pub server_state_count : ℕ
  pub last_state_time : ℕ

-- The loops that copy the entries of a map into another one.
unfoldable pub insert_all : {A : Type 0} → Map A → Map A → Map A
insert_all [] m = m
insert_all ((k, a) ∷ rest) m = insert_all rest (insert k a m)

-- The loops that interpolate: `mix` is given the entry that is there, if any, and the two values.
module _ {A : Type 0} (mix : Option A → A → A → A) where
  unfoldable pub blend_one : ℕ → A → Option A → Map A → Map A
  blend_one k a none m = insert k a m
  blend_one k a (some b) m = insert k (mix (find k m) b a) m

  unfoldable pub blend_all : Map A → Map A → Map A → Map A
  blend_all base [] m = m
  blend_all base ((k, a) ∷ rest) m = blend_all base rest (blend_one k a (find k base) m)

module _ {X O V : Type 0} where
  -- The copies from a state of the server.
  unfoldable pub copy_state : GameState X O V → GameState X O V → GameState X O V
  copy_state to_state s = record s {
    positions = insert_all to_state.positions s.positions;
    velocities = insert_all to_state.velocities s.velocities;
    orientations = insert_all to_state.orientations s.orientations;
  }

module _ {X O V : Type 0} (origin : X) (still : V) where
  -- The position and the velocity of the client's entity, from a prediction.
  unfoldable pub copy_prediction : ℕ → GameState X O V → GameState X O V → GameState X O V
  copy_prediction client_id prediction s = record s {
    positions = insert client_id (entry client_id origin prediction.positions).0 s.positions;
    velocities = insert client_id (entry client_id still prediction.velocities).0 s.velocities;
  }

  unfoldable pub copy_found : Option (GameState X O V) → StateQueue X O V → StateQueue X O V
  copy_found none q = q
  copy_found (some prediction) q = record q {
    base_state = copy_prediction q.client_id prediction q.base_state;
    interpolated_state = copy_prediction q.client_id prediction q.interpolated_state;
    predictions =
        insert q.command_id
          (record prediction {
            positions = (entry q.client_id origin prediction.positions).1;
            velocities = (entry q.client_id still prediction.velocities).1;
          })
          q.predictions;
  }

  -- The part of `Interpolate` before its `while`.
  unfoldable pub rebase : GameState X O V → StateQueue X O V → StateQueue X O V
  rebase to_state q =
      let copied : StateQueue X O V = record q {
        base_state = copy_state to_state q.base_state;
        interpolated_state = copy_state to_state q.interpolated_state;
      } in
      if q.client_id == 0 then copied else copy_found (find q.command_id q.predictions) copied

module _ {X O V D L : Type 0} (blend : Blend X O V D L) (dangling : ℕ) where
  -- The `while`: the states that are left, the id of the base state and the accumulated time. `seen`
  -- is what `to_state.state_id` reads.
  unfoldable pub drop_states : List (GameState X O V) → ℕ → ℕ → D → List (GameState X O V) × (ℕ × D)
  drop_states [] seen base_id time = ([], (base_id, time))
  drop_states (s ∷ ss) seen base_id time =
      let rest : List (GameState X O V) × (ℕ × D) =
        drop_states ss dangling seen (blend.take_rate time) in
      if blend.reached time then rest else (s ∷ ss, (base_id, time))

-- The part of `Interpolate` between two states.
module _ {X O V D L : Type 0} (blend : Blend X O V D L) (upright : O) where
  abbrev pub or_upright : Option O → O
  or_upright none = upright
  or_upright (some o) = o

  unfoldable pub blend_state :
      L → GameState X O V → GameState X O V → GameState X O V → GameState X O V
  blend_state percent base to_state s = record s {
    positions =
        blend_all (λ old b a. blend.lerp percent b a) base.positions to_state.positions s.positions;
    velocities =
        blend_all (λ old b a. blend.lerp_velocity percent b a) base.velocities to_state.velocities
          s.velocities;
    orientations =
        blend_all (λ old b a. blend.slerp percent (or_upright old) b a) base.orientations
          to_state.orientations s.orientations;
  }

  unfoldable pub between : D → GameState X O V → StateQueue X O V → StateQueue X O V
  between time to_state q =
      let percent : L =
        blend.percent time ((to_state.state_id + (2 ^ 64 - q.base_state.state_id)) % 2 ^ 64) in
      if blend.positive percent
      then record q {
        interpolated_state = blend_state percent q.base_state to_state q.interpolated_state;
      }
      else q

-- The part of `Interpolate` that goes on to the next state.
module _ {X O V D L : Type 0} (blend : Blend X O V D L) (origin : X) (still : V)
    (dangling : ℕ) where
  unfoldable pub advance : D → GameState X O V → Interpolated X O V D → Interpolated X O V D
  advance time to_state i =
      let q : StateQueue X O V = rebase origin still to_state i.queue in
      let (states, (base_id, left)) =
        drop_states blend dangling q.server_states to_state.state_id q.base_state.state_id time in
      record i {
        queue = record q {
          server_states = states;
          base_state = record q.base_state { state_id = base_id };
        };
        interpolation_accumulator = left;
      }

-- `Interpolate`
module _ {X O V D L : Type 0} (blend : Blend X O V D L) (origin : X) (upright : O) (still : V)
    (dangling : ℕ) where
  unfoldable pub interpolate : D → Interpolated X O V D → Interpolated X O V D
  interpolate delta i =
      let counted : Interpolated X O V D = record i {
        server_state_count = length i.queue.server_states;
      } in
      elim i.queue.server_states [
        | [] ↦ counted
        | to_state ∷ rest ↦
            let time : D = blend.add i.interpolation_accumulator delta in
            let timed : Interpolated X O V D = record counted {
              interpolation_accumulator = time;
              last_state_time = to_state.timestamp;
            } in
            if blend.reached time
            then advance blend origin still dangling time to_state timed
            else record timed { queue = between blend upright time to_state i.queue }
      ]
