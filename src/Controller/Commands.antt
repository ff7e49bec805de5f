-- ===== src/Controller/Commands.antt =====
-- A client's controller and the server's one of the same user
-- (common/controllers/fps-controller.cpp).
use tec.Base.{◌≡◌, refl, ap, ◌∙◌, Bool, true, false, ◌||◌, Option, none, some, List, [], ◌∷◌, arith}
use tec.GameState.{GameState}
use tec.Components.{Quat, Orientation, Velocity}
use tec.Controller.{
  KeyboardEvent, MouseButtonEvent, EventList, FpsController, MovementCommand, ClientCommands,
  handle_key, handle_keys, press, release, handle_button, handle_buttons, get_client_commands,
  apply_client_commands, apply_movement, apply_orientation,
}
use tec.Controller.Update.{
  Look, choose, choose_forward, choose_strafe, listen, prepare, proceed, update, update_orientation,
}

module _ {F : Type 0} where
  -- The commands that a client's controller returns after it chose its directions, applied to a
  -- controller of which no key is down, make that one choose the same directions; and the client's
  -- controller then starts over with no direction.
  pub choose-apply :
      (c s : FpsController F)
      → s.key_w_down ≡ false
      → s.key_s_down ≡ false
      → s.key_a_down ≡ false
      → s.key_d_down ≡ false
      → let (c', directions) = choose c in
        let (commands, c'') = get_client_commands c' in
        ((choose (apply_client_commands commands s)).1 ≡ directions)
        × (c''.forward || c''.backward || c''.left_strafe || c''.right_strafe ≡ false)
  unfolding choose choose_forward choose_strafe get_client_commands apply_client_commands
      apply_movement apply_orientation
  choose-apply c s nw ns na nd = ground arith

  -- A controller with another orientation.
  abbrev facing : Orientation F → FpsController F → FpsController F
  facing o c = record c { orientation = o }

  handle_key-facing :
      (o : Orientation F) (e : KeyboardEvent) (c : FpsController F)
      → handle_key e (facing o c) ≡ facing o (handle_key e c)
  unfolding handle_key press release
  handle_key-facing o e c = ground arith

  handle_keys-facing :
      (o : Orientation F) (es : List KeyboardEvent) (c : FpsController F)
      → handle_keys es (facing o c) ≡ facing o (handle_keys es c)
  unfolding handle_keys
  handle_keys-facing o [] c = refl
  handle_keys-facing o (e ∷ es) c =
      rw (handle_key-facing o e c) (handle_keys-facing o es (handle_key e c))

  handle_button-facing :
      (o : Orientation F) (e : MouseButtonEvent) (c : FpsController F)
      → handle_button e (facing o c) ≡ facing o (handle_button e c)
  unfolding handle_button
  handle_button-facing o e c = ground arith

  handle_buttons-facing :
      (o : Orientation F) (es : List MouseButtonEvent) (c : FpsController F)
      → handle_buttons es (facing o c) ≡ facing o (handle_buttons es c)
  unfolding handle_buttons
  handle_buttons-facing o [] c = refl
  handle_buttons-facing o (e ∷ es) c =
      rw (handle_button-facing o e c) (handle_buttons-facing o es (handle_button e c))

  handle_key-mouse_focus :
      (e : KeyboardEvent) (c : FpsController F) → (handle_key e c).mouse_focus ≡ c.mouse_focus
  unfolding handle_key press release
  handle_key-mouse_focus e c = ground arith

  handle_keys-mouse_focus :
      (es : List KeyboardEvent) (c : FpsController F)
      → (handle_keys es c).mouse_focus ≡ c.mouse_focus
  unfolding handle_keys
  handle_keys-mouse_focus [] c = refl
  handle_keys-mouse_focus (e ∷ es) c =
      handle_keys-mouse_focus es (handle_key e c) ∙ handle_key-mouse_focus e c

  handle_buttons-mouse_focus :
      (es : List MouseButtonEvent) (c : FpsController F)
      → (handle_buttons es c).mouse_focus ≡ c.mouse_focus
  unfolding handle_buttons handle_button
  handle_buttons-mouse_focus [] c = refl
  handle_buttons-mouse_focus (e ∷ es) c =
      handle_buttons-mouse_focus es (handle_button e c) ∙ ground arith

  apply_movement-mouse_focus :
      (m : Option MovementCommand) (c : FpsController F)
      → (apply_movement m c).mouse_focus ≡ c.mouse_focus
  unfolding apply_movement
  apply_movement-mouse_focus none c = refl
  apply_movement-mouse_focus (some m) c = refl

  listen-mouse_focus :
      (focus : Bool) (es : List KeyboardEvent) (c : FpsController F)
      → (listen focus es c).mouse_focus ≡ c.mouse_focus
  unfolding listen
  listen-mouse_focus true es c = handle_keys-mouse_focus es c
  listen-mouse_focus false es c = refl

  listen-facing :
      (o : Orientation F) (focus : Bool) (es : List KeyboardEvent) (c : FpsController F)
      → listen focus es (facing o c) ≡ facing o (listen focus es c)
  unfolding listen
  listen-facing o true es c = handle_keys-facing o es c
  listen-facing o false es c = refl

  prepare-mouse_focus :
      (delta : F) (events : EventList F) (c : FpsController F)
      → (prepare delta events c).mouse_focus ≡ c.mouse_focus
  unfolding prepare
  prepare-mouse_focus delta events c =
      let timed : FpsController F = record c { current_delta = delta } in
      handle_buttons-mouse_focus events.mouse_button_events
        (listen c.keyboard_focus events.keyboard_events timed)
      ∙ listen-mouse_focus c.keyboard_focus events.keyboard_events timed

  prepare-facing :
      (delta : F) (events : EventList F) (o : Orientation F) (c : FpsController F)
      → prepare delta events (facing o c) ≡ facing o (prepare delta events c)
  unfolding prepare
  prepare-facing delta events o c =
      let timed : FpsController F = record c { current_delta = delta } in
      ap (handle_buttons events.mouse_button_events)
        (listen-facing o c.keyboard_focus events.keyboard_events timed)
      ∙ handle_buttons-facing o events.mouse_button_events
          (listen c.keyboard_focus events.keyboard_events timed)

module _ {P F : Type 0} (look : Look F) (upright : Orientation F) (resting : Velocity F) where
  proceed-facing :
      (moves : List (F × F)) (state : GameState P (Orientation F) (Velocity F)) (o : Orientation F)
      (c : FpsController F) (pitch : F)
      → c.mouse_focus ≡ true
      → proceed look upright resting moves state (facing o c, pitch)
        ≡ proceed look upright resting moves state (c, pitch)
  unfolding proceed update_orientation
  proceed-facing moves state o c pitch focused = rw focused refl

  update-facing :
      (delta : F) (events : EventList F) (state : GameState P (Orientation F) (Velocity F))
      (o : Orientation F) (c : FpsController F) (pitch : F)
      → c.mouse_focus ≡ true
      → update look upright resting delta events state (facing o c, pitch)
        ≡ update look upright resting delta events state (c, pitch)
  unfolding update
  update-facing delta events state o c pitch focused = rw (prepare-facing delta events o c) (
      proceed-facing events.mouse_move_events state o (prepare delta events c) pitch
        (prepare-mouse_focus delta events c ∙ focused))

  -- While a controller has the focus of the mouse, the
  -- orientation that a client sends has no effect: an update after the commands gives the same state,
  -- controller and pitch as it does after the commands without the orientation.
  pub update-apply :
      (delta : F) (events : EventList F) (state : GameState P (Orientation F) (Velocity F))
      (commands : ClientCommands F) (s : FpsController F) (pitch : F)
      → s.mouse_focus ≡ true
      → update look upright resting delta events state (apply_client_commands commands s, pitch)
        ≡ update look upright resting delta events state
            (apply_client_commands (record commands { orientation = none }) s, pitch)
  unfolding apply_client_commands apply_orientation apply_movement
  update-apply delta events state commands s pitch focused = applied commands.orientation
    where
      moved : FpsController F
      moved = apply_movement commands.movement s

      kept : moved.mouse_focus ≡ true
      kept = apply_movement-mouse_focus commands.movement s ∙ focused

      applied :
          (o : Option (Quat F))
          → update look upright resting delta events state (apply_orientation o moved, pitch)
            ≡ update look upright resting delta events state (moved, pitch)
      applied none = refl
      applied (some q) =
          update-facing delta events state (record moved.orientation { value = q }) moved pitch kept
