-- ===== src/GameState.antt =====
-- common/game-state.hpp: the states of the entities' components, and how they go into a state update
-- and come out of it. The values of positions, orientations and velocities are parameters: that
-- a value is written into a component and read back, number for number, is not modelled. An
-- `unordered_map` is held in the order of its keys.
pub mod Update
pub mod Changes
pub mod Client
mod Tests
use tec.Base.{ℕ, Option, none, some, List, [], ◌∷◌, ◌++◌}
use tec.Base.Maps.{Map, find, insert, erase}
use tec.Components.{
  Vec3, Quat, Orientation, Velocity, VecMessage, QuatMessage, VelocityMessage, vec_out, vec_in,
  velocity_out, velocity_in, orientation_out, orientation_in,
}

pub record GameState (P O V : Type 0) : Type 0 where
  pub positions : Map P
  pub orientations : Map O
  pub velocities : Map V
  pub state_id : ℕ
  pub command_id : ℕ
  pub timestamp : ℕ

-- `proto::Component`, with the cases that a state takes up: a position, an orientation or a velocity
-- as a message.
pub data Component (P O V : Type 0) : Type 0 where
  position : P → Component P O V
  orientation : O → Component P O V
  velocity : V → Component P O V
  other : Component P O V

-- `proto::Entity`
pub record Entity (P O V : Type 0) : Type 0 where
  pub id : ℕ
  pub components : List (Component P O V)

-- `proto::GameStateUpdate`
pub record GameStateUpdate (P O V : Type 0) : Type 0 where
  pub state_id : ℕ
  pub command_id : ℕ
  pub timestamp : ℕ
  pub entities : List (Entity P O V)

-- `Out` of the values, and `In` into a new value.
pub record Wire (P O V A B C : Type 0) : Type 0 where
  pub write_position : P → A
  pub read_position : A → P
  pub write_orientation : O → B
  pub read_orientation : B → O
  pub write_velocity : V → C
  pub read_velocity : C → V

-- The values that a `Position`, an `Orientation` and a `Velocity` are constructed with, and the
-- arithmetic of `Orientation::In`.
module _ {F : Type 0} (zero : F) (real_part : F → F → F → F) (normalize : Quat F → Quat F)
    (origin : Vec3 F) (upright : Orientation F) (still : Velocity F) where
  unfoldable pub component_wire :
      Wire (Vec3 F) (Orientation F) (Velocity F) (VecMessage F) (QuatMessage F) (VelocityMessage F)
  component_wire = record {
    write_position = vec_out;
    read_position = λ m. vec_in m origin;
    write_orientation = orientation_out;
    read_orientation = λ m. orientation_in zero real_part normalize m upright;
    write_velocity = velocity_out;
    read_velocity = λ m. velocity_in m still;
  }

abbrev pub insert_found : {A : Type 0} → ℕ → Option A → Map A → Map A
insert_found id none m = m
insert_found id (some a) m = insert id a m

module _ {P O V : Type 0} where
  -- A state as it is constructed.
  unfoldable pub new : GameState P O V
  new = record {
    positions = [];
    orientations = [];
    velocities = [];
    state_id = 0;
    command_id = 0;
    timestamp = 0;
  }

module _ {P O V A B C : Type 0} (wire : Wire P O V A B C) where
  -- The body of the loop over the components, by `component_case()`.
  unfoldable pub add_component : ℕ → Component A B C → GameState P O V → GameState P O V
  add_component id (position p) s = record s {
    positions = insert id (wire.read_position p) s.positions;
  }
  add_component id (orientation o) s = record s {
    orientations = insert id (wire.read_orientation o) s.orientations;
  }
  add_component id (velocity v) s = record s {
    velocities = insert id (wire.read_velocity v) s.velocities;
  }
  add_component id other s = s

  unfoldable pub add_components : ℕ → List (Component A B C) → GameState P O V → GameState P O V
  add_components id [] s = s
  add_components id (c ∷ cs) s = add_components id cs (add_component id c s)

  unfoldable pub add_entities : List (Entity A B C) → GameState P O V → GameState P O V
  add_entities [] s = s
  add_entities (e ∷ es) s = add_entities es (add_components e.id e.components s)

  -- `In`
  unfoldable pub take_in : GameStateUpdate A B C → GameState P O V → GameState P O V
  take_in gsu s =
      add_entities gsu.entities (record s {
        state_id = gsu.state_id;
        command_id = gsu.command_id;
        timestamp = gsu.timestamp;
      })

  abbrev pub orientation_component : Option O → List (Component A B C)
  orientation_component none = []
  orientation_component (some o) = orientation (wire.write_orientation o) ∷ []

  abbrev pub velocity_component : Option V → List (Component A B C)
  velocity_component none = []
  velocity_component (some v) = velocity (wire.write_velocity v) ∷ []

  -- The body of the loop of `Out` over the positions.
  abbrev pub entity_out : GameState P O V → ℕ → P → Entity A B C
  entity_out s id p = record {
    id = id;
    components =
        position (wire.write_position p)
        ∷ (orientation_component (find id s.orientations)
            ++ velocity_component (find id s.velocities));
  }

  unfoldable pub entities_out : GameState P O V → Map P → List (Entity A B C)
  entities_out s [] = []
  entities_out s ((id, p) ∷ ps) = entity_out s id p ∷ entities_out s ps

  -- `Out`: the command id is left unset, which reads as 0.
  unfoldable pub out : GameState P O V → GameStateUpdate A B C
  out s = record {
    state_id = s.state_id;
    command_id = 0;
    timestamp = s.timestamp;
    entities = entities_out s s.positions;
  }

  -- `ClientConnection::PrepareGameStateUpdateMessage`, up to its serialization.
  unfoldable pub prepare_update : ℕ → ℕ → ℕ → GameState P O V → GameStateUpdate A B C
  prepare_update last_recv_command_id current_state_id current_timestamp changes = record {
    state_id = current_state_id;
    command_id = last_recv_command_id;
    timestamp = current_timestamp;
    entities = entities_out changes changes.positions;
  }

  -- `On(eid, EntityCreated)` of the server's and of the client's queue: what it does to one state.
  unfoldable pub on_created : Entity A B C → GameState P O V → GameState P O V
  on_created e s = add_components e.id e.components s

module _ {P O V : Type 0} where
  -- `On(eid, EntityDestroyed)` of both, and `ClientConnection::OnOtherLeaveWorld`.
  unfoldable pub on_destroyed : ℕ → GameState P O V → GameState P O V
  on_destroyed id s = record s {
    positions = erase id s.positions;
    orientations = erase id s.orientations;
    velocities = erase id s.velocities;
  }

  -- `ClientConnection::UpdateGameState`: its loop over the positions of the full state.
  unfoldable pub update_changes : GameState P O V → Map P → GameState P O V → GameState P O V
  update_changes full [] s = s
  update_changes full ((id, p) ∷ ps) s = update_changes full ps (record s {
    positions = insert_found id (find id full.positions) s.positions;
    orientations = insert_found id (find id full.orientations) s.orientations;
    velocities = insert_found id (find id full.velocities) s.velocities;
  })

  unfoldable pub update_game_state : GameState P O V → GameState P O V → GameState P O V
  update_game_state full s = update_changes full full.positions s
