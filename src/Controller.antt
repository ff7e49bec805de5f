-- ===== src/Controller.antt =====
-- common/controllers/fps-controller.hpp and common/controllers/fps-controller.cpp: what a controller
-- makes of keys, mouse buttons and client commands; `Controller.Update` has `Update`. A key is its
-- number, `float` a parameter.

pub mod Update
pub mod Keys
pub mod Commands
pub mod Tests
use tec.Base.{
  ℕ, Bool, true, false, not, ◌&&◌, ◌||◌, Option, none, some, List, [], ◌∷◌, ◌==◌, if◌then◌else◌,
}
use tec.Components.{Quat, Orientation, get_or_default}

-- common/events.hpp
pub data KeyAction : Type 0 where
  key_down : KeyAction
  key_up : KeyAction
  key_repeat : KeyAction
  key_char : KeyAction

pub record KeyboardEvent : Type 0 where
  pub key : ℕ
  pub action : KeyAction
  pub mods : ℕ

pub data MouseButtonAction : Type 0 where
  down : MouseButtonAction
  up : MouseButtonAction

pub data MouseButton : Type 0 where
  left : MouseButton
  right : MouseButton
  middle : MouseButton

pub record MouseButtonEvent : Type 0 where
  pub action : MouseButtonAction
  pub button : MouseButton

-- `EventList`, with the changes of the mouse's place as they are cast to `float`, and of the clicks
-- the button alone.
pub record EventList (F : Type 0) : Type 0 where
  pub keyboard_events : List KeyboardEvent
  pub mouse_button_events : List MouseButtonEvent
  pub mouse_move_events : List (F × F)
  pub mouse_click_events : List MouseButton

pub record FpsController (F : Type 0) : Type 0 where
  pub entity_id : ℕ
  pub keyboard_focus : Bool
  pub mouse_focus : Bool
  pub forward : Bool
  pub backward : Bool
  pub right_strafe : Bool
  pub left_strafe : Bool
  pub current_delta : F
  pub mouse_look : Bool
  pub orientation : Orientation F
  pub key_a_first : Bool
  pub key_w_first : Bool
  pub key_w_down : Bool
  pub key_a_down : Bool
  pub key_s_down : Bool
  pub key_d_down : Bool

-- `'A'`, `'D'`, `'S'` and `'W'`
abbrev pub key_a : ℕ
key_a = 65

abbrev pub key_d : ℕ
key_d = 68

abbrev pub key_s : ℕ
key_s = 83

abbrev pub key_w : ℕ
key_w = 87

-- `proto::MovementCommand` and the parts of `proto::ClientCommands` that a controller uses.
pub record MovementCommand : Type 0 where
  pub forward : Option Bool
  pub backward : Option Bool
  pub left_strafe : Option Bool
  pub right_strafe : Option Bool

pub record ClientCommands (F : Type 0) : Type 0 where
  pub id : ℕ
  pub movement : Option MovementCommand
  pub orientation : Option (Quat F)

module _ {F : Type 0} where
  -- A controller as it is constructed, for an entity.
  unfoldable pub new : F → Orientation F → ℕ → FpsController F
  new zero upright id = record {
    entity_id = id;
    keyboard_focus = true;
    mouse_focus = true;
    forward = false;
    backward = false;
    right_strafe = false;
    left_strafe = false;
    current_delta = zero;
    mouse_look = false;
    orientation = upright;
    key_a_first = false;
    key_w_first = false;
    key_w_down = false;
    key_a_down = false;
    key_s_down = false;
    key_d_down = false;
  }

  -- The cases of `Handle(KeyboardEvent)` for a key that is pressed or repeated, and released.
  unfoldable pub press : ℕ → FpsController F → FpsController F
  press key c =
      if key == key_a
      then record c { key_a_first = not c.key_d_down || c.key_a_first; key_a_down = true }
      else if key == key_d
      then record c { key_d_down = true }
      else if key == key_w
      then record c { key_w_first = not c.key_s_down || c.key_w_first; key_w_down = true }
      else if key == key_s
      then record c { key_s_down = true }
      else c

  unfoldable pub release : ℕ → FpsController F → FpsController F
  release key c =
      if key == key_a
      then record c { key_a_down = false; key_a_first = false }
      else if key == key_d
      then record c { key_d_down = false }
      else if key == key_w
      then record c { key_w_down = false; key_w_first = false }
      else if key == key_s
      then record c { key_s_down = false }
      else c

  -- `Handle(KeyboardEvent)`
  unfoldable pub handle_key : KeyboardEvent → FpsController F → FpsController F
  handle_key e c = elim e.action [
    | key_down ↦ press e.key c
    | key_repeat ↦ press e.key c
    | key_up ↦ release e.key c
    | key_char ↦ c
  ]

  unfoldable pub handle_keys : List KeyboardEvent → FpsController F → FpsController F
  handle_keys [] c = c
  handle_keys (e ∷ es) c = handle_keys es (handle_key e c)

  -- `Handle(MouseBtnEvent)`
  unfoldable pub handle_button : MouseButtonEvent → FpsController F → FpsController F
  handle_button e c = elim e.action [
    | up ↦ c
    | down ↦ elim e.button [
      | left ↦ c
      | middle ↦ c
      | right ↦ record c { mouse_look = not c.mouse_look }
    ]
  ]

  unfoldable pub handle_buttons : List MouseButtonEvent → FpsController F → FpsController F
  handle_buttons [] c = c
  handle_buttons (e ∷ es) c = handle_buttons es (handle_button e c)

  -- `SetFocus` and `ClearFocus` of `Controller`.
  unfoldable pub set_focus : Bool → Bool → FpsController F → FpsController F
  set_focus keyboard mouse c = record c {
    keyboard_focus = keyboard || c.keyboard_focus;
    mouse_focus = mouse || c.mouse_focus;
  }

  unfoldable pub clear_focus : Bool → Bool → FpsController F → FpsController F
  clear_focus keyboard mouse c = record c {
    keyboard_focus = c.keyboard_focus && not keyboard;
    mouse_focus = c.mouse_focus && not mouse;
  }

  -- `GetClientCommands`: the commands, and the controller with its directions reset.
  unfoldable pub get_client_commands : FpsController F → ClientCommands F × FpsController F
  get_client_commands c = (
    record {
      id = c.entity_id;
      movement = some (record {
        forward = some c.forward;
        backward = some (not c.forward && c.backward);
        left_strafe = some c.left_strafe;
        right_strafe = some (not c.left_strafe && c.right_strafe);
      });
      orientation = some c.orientation.value;
    },
    record c { forward = false; backward = false; left_strafe = false; right_strafe = false },
  )

  -- `ApplyClientCommands`
  unfoldable pub apply_movement : Option MovementCommand → FpsController F → FpsController F
  apply_movement none c = record c {
    forward = false;
    backward = false;
    left_strafe = false;
    right_strafe = false;
  }
  apply_movement (some m) c = record c {
    forward = get_or_default m.forward false;
    backward = get_or_default m.backward false;
    left_strafe = get_or_default m.left_strafe false;
    right_strafe = get_or_default m.right_strafe false;
  }

  unfoldable pub apply_orientation : Option (Quat F) → FpsController F → FpsController F
  apply_orientation none c = c
  apply_orientation (some q) c = record c { orientation = record c.orientation { value = q } }

  unfoldable pub apply_client_commands : ClientCommands F → FpsController F → FpsController F
  apply_client_commands m c = apply_orientation m.orientation (apply_movement m.movement c)
