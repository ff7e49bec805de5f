-- ===== src/Simulation/Focus.antt =====
-- The focus of the controllers (common/simulation.cpp, common/controllers/fps-controller.hpp).
use tec.Base.{ℕ, ◌≡◌, refl, ◌∙◌, Bool, true, false, not, ◌&&◌, ◌||◌, List, [], ◌∷◌, arith}
use tec.GameState.{GameState}
use tec.Components.{Orientation, Velocity}
use tec.Controller.{
  EventList, FpsController, ClientCommands, set_focus, clear_focus, apply_client_commands,
  apply_movement, apply_orientation,
}
use tec.Controller.Update.{Look, update}
use tec.Simulation.{
  Controls, Simulation, Pending, process, each_controller, on_captured, on_blur, receive_focus,
}

module _ {F : Type 0} where
  pub apply_client_commands-entity_id :
      (m : ClientCommands F) (c : FpsController F)
      → (apply_client_commands m c).entity_id ≡ c.entity_id
  unfolding apply_client_commands apply_movement apply_orientation
  apply_client_commands-entity_id m c = ground arith

-- `FPSController` as a `Controller`. What an update changes is the state with the pitch.
unfoldable pub fps_controls :
    {P F : Type 0}
    → Look F
    → Orientation F
    → Velocity F
    → F
    → Controls
        (FpsController F)
        (ClientCommands F)
        (EventList F)
        (GameState P (Orientation F) (Velocity F) × F)
fps_controls look upright resting delta = record {
  entity_id = λ c. c.entity_id;
  update = λ events s c.
      let (state, (c', pitch)) = update look upright resting delta events s.0 (c, s.1) in
      ((state, pitch), c');
  apply_client_commands = apply_client_commands;
  set_focus = set_focus;
  clear_focus = clear_focus;
  same_entity = apply_client_commands-entity_id;
}

-- Whether one of the events is about the keyboard, or about the mouse.
abbrev pub any_keyboard : List (Bool × Bool) → Bool
any_keyboard [] = false
any_keyboard ((keyboard, mouse) ∷ es) = keyboard || any_keyboard es

abbrev pub any_mouse : List (Bool × Bool) → Bool
any_mouse [] = false
any_mouse ((keyboard, mouse) ∷ es) = mouse || any_mouse es

and-not-or : (a k x : Bool) → (a && not k) && not x ≡ a && not (k || x)
and-not-or false k x = refl
and-not-or true true x = refl
and-not-or true false x = refl

or-and-or : (x a k : Bool) → x || ((k || a) && true) ≡ (k || x) || (a && true)
or-and-or x a k = ground arith

and_true : (a : Bool) → a && true ≡ a
and_true a = ground arith

module _ {F : Type 0} where
  -- The focus that a frame's events leave a controller.
  abbrev pub refocus : List (Bool × Bool) → List (Bool × Bool) → FpsController F → FpsController F
  refocus captured blurred c = record c {
    keyboard_focus = any_keyboard blurred || (c.keyboard_focus && not (any_keyboard captured));
    mouse_focus = any_mouse blurred || (c.mouse_focus && not (any_mouse captured));
  }

  refocus-captured :
      (keyboard mouse : Bool) (captured blurred : List (Bool × Bool)) (c : FpsController F)
      → refocus captured blurred (clear_focus keyboard mouse c)
        ≡ refocus ((keyboard, mouse) ∷ captured) blurred c
  unfolding clear_focus
  refocus-captured keyboard mouse captured blurred c =
      rw
        (
          and-not-or c.keyboard_focus keyboard (any_keyboard captured),
          and-not-or c.mouse_focus mouse (any_mouse captured),
        )
        refl

  refocus-blur :
      (keyboard mouse : Bool) (blurred : List (Bool × Bool)) (c : FpsController F)
      → refocus [] blurred (set_focus keyboard mouse c) ≡ refocus [] ((keyboard, mouse) ∷ blurred) c
  unfolding set_focus
  refocus-blur keyboard mouse blurred c =
      rw
        (
          or-and-or (any_keyboard blurred) c.keyboard_focus keyboard,
          or-and-or (any_mouse blurred) c.mouse_focus mouse,
        )
        refl

  each_controller-refocus :
      (f : FpsController F → FpsController F) (before after : FpsController F → FpsController F)
      (cs : List (ℕ × FpsController F))
      → ((c : FpsController F) → after (f c) ≡ before c)
      → each_controller after (each_controller f cs) ≡ each_controller before cs
  unfolding each_controller
  each_controller-refocus f before after [] same = refl
  each_controller-refocus f before after ((p, c) ∷ cs) same =
      rw (same c, each_controller-refocus f before after cs same) refl

  refocus-nil : (c : FpsController F) → refocus [] [] c ≡ c
  refocus-nil c = rw (and_true c.keyboard_focus, and_true c.mouse_focus) refl

  each_controller-nil : (cs : List (ℕ × FpsController F)) → each_controller (refocus [] []) cs ≡ cs
  unfolding each_controller
  each_controller-nil [] = refl
  each_controller-nil ((p, c) ∷ cs) = rw (refocus-nil c, each_controller-nil cs) refl

module _ (P : Type 0) {F : Type 0} (look : Look F) (upright : Orientation F) (resting : Velocity F)
    (delta : F) (command_id : ClientCommands F → ℕ) where
  abbrev pub controls :
      Controls
        (FpsController F)
        (ClientCommands F)
        (EventList F)
        (GameState P (Orientation F) (Velocity F) × F)
  controls = fps_controls look upright resting delta

  process-on_blur :
      (blurred : List (Bool × Bool)) (s : Simulation (FpsController F) F)
      → (process (on_blur controls command_id) blurred s).controllers
        ≡ each_controller (refocus [] blurred) s.controllers
  unfolding process on_blur fps_controls
  process-on_blur [] s = rw (each_controller-nil s.controllers) refl
  process-on_blur ((keyboard, mouse) ∷ es) s =
      process-on_blur es (on_blur controls command_id (keyboard, mouse) s)
      ∙ each_controller-refocus (set_focus keyboard mouse) (refocus [] ((keyboard, mouse) ∷ es))
          (refocus [] es) s.controllers (refocus-blur keyboard mouse es)

  process-on_captured :
      (captured blurred : List (Bool × Bool)) (s : Simulation (FpsController F) F)
      → (process
          (on_blur controls command_id)
          blurred
          (process (on_captured controls command_id) captured s)).controllers
        ≡ each_controller (refocus captured blurred) s.controllers
  unfolding process on_captured fps_controls
  process-on_captured [] blurred s = process-on_blur blurred s
  process-on_captured ((keyboard, mouse) ∷ es) blurred s =
      process-on_captured es blurred (on_captured controls command_id (keyboard, mouse) s)
      ∙ each_controller-refocus (clear_focus keyboard mouse)
          (refocus ((keyboard, mouse) ∷ es) blurred) (refocus es blurred) s.controllers
          (refocus-captured keyboard mouse es blurred)

  -- After the focus events of a frame every controller has the focus of the keyboard if one of them was
  -- a blur of the keyboard, whenever in the frame it came; otherwise if it had it and none of them
  -- captured it. The same holds of the mouse, and nothing else of a controller changes.
  pub receive_focus-refocus :
      (p : Pending (FpsController F) (ClientCommands F) F) (s : Simulation (FpsController F) F)
      → (receive_focus controls command_id p s).controllers
        ≡ each_controller (refocus p.captured p.blurred) s.controllers
  unfolding receive_focus
  receive_focus-refocus p s = process-on_captured p.captured p.blurred s
