-- ===== src/Simulation.antt =====
-- common/simulation.hpp and common/simulation.cpp: what a frame of the simulation does with the queued
-- events, the controllers and the results of the physics. A controller is known by its address. The
-- physics, what is computed on the state by controllers, and the virtual computers, which run
-- beside it and share none of this, are parameters or left out.
pub mod Frames
pub mod Routing
pub mod Results
pub mod Focus
mod Tests
use tec.Base.{ℕ, ◌%◌, ◌^◌, ◌≡◌, Bool, none, some, List, [], ◌∷◌, ◌++◌, ◌==◌, if◌then◌else◌}
use tec.Base.Maps.{find, insert, has}
use tec.GameState.{GameState}
use tec.Controller.{KeyboardEvent, MouseButtonEvent, MouseButton, EventList}

-- What the simulation uses of a `Controller`: C is the controller, M the client's commands, S what an
-- update reads and changes. Commands do not change whose controller it is.
pub record Controls (C M E S : Type 0) : Type 0 where
  pub entity_id : C → ℕ
  pub update : E → S → C → S × C
  pub apply_client_commands : M → C → C
  pub set_focus : Bool → Bool → C → C
  pub clear_focus : Bool → Bool → C → C
  pub same_entity : (m : M) (c : C) → entity_id (apply_client_commands m c) ≡ entity_id c

pub record Simulation (C F : Type 0) : Type 0 where
  pub event_list : EventList F
  pub controllers : List (ℕ × C)

-- The events that wait in the queues when a frame starts, the oldest first; a focus event has its
-- `keyboard` and its `mouse`.
pub record Pending (C M F : Type 0) : Type 0 where
  pub keyboard : List KeyboardEvent
  pub mouse_buttons : List MouseButtonEvent
  pub mouse_moves : List (F × F)
  pub mouse_clicks : List MouseButton
  pub client_commands : List M
  pub added : List (ℕ × C)
  pub removed : List ℕ
  pub captured : List (Bool × Bool)
  pub blurred : List (Bool × Bool)

-- `list::remove`
unfoldable pub remove_address : {C : Type 0} → ℕ → List (ℕ × C) → List (ℕ × C)
remove_address p [] = []
remove_address p ((q, c) ∷ cs) =
    if q == p then remove_address p cs else (q, c) ∷ remove_address p cs

-- A loop over the controllers.
unfoldable pub each_controller : {C : Type 0} → (C → C) → List (ℕ × C) → List (ℕ × C)
each_controller f [] = []
each_controller f ((p, c) ∷ cs) = (p, f c) ∷ each_controller f cs

-- What `ProcessEventQueue` makes of a handler.
unfoldable pub process : {A S : Type 0} → (A → S → S) → List A → S → S
process on [] s = s
process on (a ∷ rest) s = process on rest (on a s)

abbrev pub no_events : {F : Type 0} → EventList F
no_events = record {
  keyboard_events = [];
  mouse_button_events = [];
  mouse_move_events = [];
  mouse_click_events = [];
}

module _ {C F : Type 0} where
  -- `On` of the events that are kept for the controllers.
  unfoldable pub on_keyboard : KeyboardEvent → Simulation C F → Simulation C F
  on_keyboard e s = record s {
    event_list = record s.event_list { keyboard_events = s.event_list.keyboard_events ++ (e ∷ []) };
  }

  unfoldable pub on_mouse_button : MouseButtonEvent → Simulation C F → Simulation C F
  on_mouse_button e s = record s {
    event_list = record s.event_list {
      mouse_button_events = s.event_list.mouse_button_events ++ (e ∷ []);
    };
  }

  unfoldable pub on_mouse_move : F × F → Simulation C F → Simulation C F
  on_mouse_move e s = record s {
    event_list = record s.event_list {
      mouse_move_events = s.event_list.mouse_move_events ++ (e ∷ []);
    };
  }

  unfoldable pub on_mouse_click : MouseButton → Simulation C F → Simulation C F
  on_mouse_click e s = record s {
    event_list = record s.event_list {
      mouse_click_events = s.event_list.mouse_click_events ++ (e ∷ []);
    };
  }

  -- `AddController` and `RemoveController`, and the two handlers that call them.
  unfoldable pub add_controller : ℕ × C → Simulation C F → Simulation C F
  add_controller c s = record s { controllers = s.controllers ++ (c ∷ []) }

  unfoldable pub remove_controller : ℕ → Simulation C F → Simulation C F
  remove_controller p s = record s { controllers = remove_address p s.controllers }

module _ {C M F S : Type 0} (controls : Controls C M (EventList F) S) (command_id : M → ℕ) where
  -- `On(FocusCapturedEvent)` and `On(FocusBlurEvent)`
  unfoldable pub on_captured : Bool × Bool → Simulation C F → Simulation C F
  on_captured (keyboard, mouse) s = record s {
    controllers = each_controller (controls.clear_focus keyboard mouse) s.controllers;
  }

  unfoldable pub on_blur : Bool × Bool → Simulation C F → Simulation C F
  on_blur (keyboard, mouse) s = record s {
    controllers = each_controller (controls.set_focus keyboard mouse) s.controllers;
  }

  -- The body of the loop of `On(ClientCommandsEvent)`: the entity's id is cast to an `unsigned int`.
  unfoldable pub command : M → C → C
  command m c =
      if controls.entity_id c % 2 ^ 32 == command_id m
      then controls.apply_client_commands m c
      else c

  -- `On(ClientCommandsEvent)`
  unfoldable pub on_client_commands : M → Simulation C F → Simulation C F
  on_client_commands m s = record s { controllers = each_controller (command m) s.controllers }

  -- `Simulate`: its calls of `ProcessEventQueue`, in order, in three parts.
  unfoldable pub receive_input : Pending C M F → Simulation C F → Simulation C F
  receive_input p s = process on_mouse_click p.mouse_clicks (
      process on_mouse_move p.mouse_moves
        (process on_mouse_button p.mouse_buttons (process on_keyboard p.keyboard s)))

  unfoldable pub receive_controllers : Pending C M F → Simulation C F → Simulation C F
  receive_controllers p s =
      process remove_controller p.removed
        (process add_controller p.added (process on_client_commands p.client_commands s))

  unfoldable pub receive_focus : Pending C M F → Simulation C F → Simulation C F
  receive_focus p s = process on_blur p.blurred (process on_captured p.captured s)

  unfoldable pub receive : Pending C M F → Simulation C F → Simulation C F
  receive p s = receive_focus p (receive_controllers p (receive_input p s))

  -- `Simulate`: the loop over the controllers.
  unfoldable pub update_controllers : EventList F → List (ℕ × C) → S → S × List (ℕ × C)
  update_controllers events [] state = (state, [])
  update_controllers events ((p, c) ∷ cs) state =
      let (state', c') = controls.update events state c in
      let (state'', cs') = update_controllers events cs state' in (state'', (p, c') ∷ cs')

  -- `Simulate`, up to the copy of the state: the state and the simulation after it.
  unfoldable pub simulate : Pending C M F → S → Simulation C F → S × Simulation C F
  simulate p state s =
      let s' : Simulation C F = receive p s in
      let (state', controllers) = update_controllers s'.event_list s'.controllers state in
      (state', record { event_list = no_events; controllers = controllers })

-- `Simulate`, from the copy of the state on.
module _ {P O V : Type 0} (get_position : ℕ → P) (get_orientation : ℕ → O) where
  -- The body of the loop over the results of the physics; `interpolated` is the state that the
  -- physics left.
  unfoldable pub take_result : GameState P O V → ℕ → GameState P O V → GameState P O V
  take_result interpolated id client = record client {
    positions =
        if has id interpolated.positions
        then insert id (get_position id) client.positions
        else client.positions;
    orientations =
        if has id interpolated.orientations
        then insert id (get_orientation id) client.orientations
        else client.orientations;
    velocities = elim (find id interpolated.velocities) [
      | none ↦ client.velocities
      | some v ↦ insert id v client.velocities
    ];
  }

  unfoldable pub take_results : GameState P O V → List ℕ → GameState P O V → GameState P O V
  take_results interpolated [] client = client
  take_results interpolated (id ∷ ids) client =
      take_results interpolated ids (take_result interpolated id client)

  -- The physics returns the ids of the entities that it moved, and the state after it.
  unfoldable pub simulate_physics :
      (GameState P O V → List ℕ × GameState P O V) → GameState P O V → GameState P O V
  simulate_physics physics state =
      let (ids, interpolated) = physics state in take_results interpolated ids state
