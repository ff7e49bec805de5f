-- ===== src/Controller/Tests.antt =====
-- Tests of controllers (common/controllers/fps-controller.cpp), with numbers for floats.
use mathlib.Core.List.{reverse}
use tec.Base.{ℕ, ◌+◌, ◌*◌, ◌≡◌, refl, true, false, ◌||◌, none, some, List, [], ◌∷◌, ltb}
use tec.GameState.{GameState}
use tec.Components.{Vec3, Orientation, Velocity}
use tec.Controller.{
  KeyAction, KeyboardEvent, EventList, FpsController, ClientCommands, key_down, key_up, key_a,
  key_d, key_s, key_w, new, press, release, handle_key, handle_keys, get_client_commands,
  apply_client_commands,
}
use tec.Controller.Update.{
  Direction, Look, negative, still, positive, choose, choose_forward, choose_strafe, update,
}
use tec.Controller.Keys.{held, leads, toward, handle_keys-choose}
use tec.Controller.Commands.{choose-apply, update-apply}

abbrev nowhere : Vec3 ℕ
nowhere = record { x = 0; y = 0; z = 0 }

abbrev pub upright : Orientation ℕ
upright = record { value = record { w = 1; x = 0; y = 0; z = 0 }; rotation = nowhere }

abbrev pub resting : Velocity ℕ
resting = record { linear = nowhere; angular = nowhere }

abbrev key : KeyAction → ℕ → KeyboardEvent
key action k = record { key = k; action = action; mods = 0 }

abbrev speed : Direction → ℕ
speed negative = 1
speed still = 0
speed positive = 2

abbrev pub look : Look ℕ
look = record {
  zero = 0;
  tilt = λ pitch change_y. pitch + change_y;
  above = λ pitch. ltb 90 pitch;
  below = λ pitch. false;
  highest = 90;
  lowest = 0;
  rotation_speed = λ delta. 8 * delta;
  matters = λ change. ltb 0 change;
  turn =
      λ change rate q. record { value = record q { y = q.y + change * rate }; rotation = nowhere };
  nod =
      λ change rate q. record { value = record q { x = q.x + change * rate }; rotation = nowhere };
  heading = λ q forward strafe. record { x = speed strafe; y = q.w; z = speed forward };
}

-- W after S, then S released: W is held, but does not lead.
abbrev stuck : List KeyboardEvent
stuck = key key_up key_s ∷ key key_down key_w ∷ key key_down key_s ∷ []

stuck-choose : (choose (handle_keys (reverse stuck) (new 0 upright 7))).1 ≡ (still, still)
unfolding choose choose_forward choose_strafe handle_keys handle_key press release new
stuck-choose = refl

stuck-held : held key_w stuck ≡ true
stuck-held = refl

handle_keys-choose_example : (choose (handle_keys (reverse stuck) (new 0 upright 7))).1 ≡ (
  toward (leads key_w key_s stuck) (held key_s stuck),
  toward (leads key_a key_d stuck) (held key_d stuck),
)
handle_keys-choose_example = handle_keys-choose 0 upright 7 stuck

abbrev running : FpsController ℕ
running = record (new 0 upright 7) { key_s_down = true; key_a_down = true; key_a_first = true }

abbrev replayed : FpsController ℕ
replayed = new 0 upright 7

replayed-keys :
    (replayed.key_w_down ≡ false)
    × (replayed.key_s_down ≡ false)
    × (replayed.key_a_down ≡ false)
    × (replayed.key_d_down ≡ false)
unfolding new
replayed-keys = (refl, refl, refl, refl)

choose-apply_example :
    let (c', directions) = choose running in
    let (commands, c'') = get_client_commands c' in
    ((choose (apply_client_commands commands replayed)).1 ≡ directions)
    × (c''.forward || c''.backward || c''.left_strafe || c''.right_strafe ≡ false)
choose-apply_example =
    choose-apply running replayed replayed-keys.0 replayed-keys.1 replayed-keys.2 replayed-keys.3

abbrev turned : ClientCommands ℕ
turned = record {
  id = 7;
  movement = none;
  orientation = some (record { w = 5; x = 6; y = 7; z = 8 });
}

abbrev standing : GameState ℕ (Orientation ℕ) (Velocity ℕ)
standing = record {
  positions = (7, 1) ∷ [];
  orientations = (7, upright) ∷ [];
  velocities = [];
  state_id = 1;
  command_id = 0;
  timestamp = 0;
}

abbrev idle : EventList ℕ
idle = record {
  keyboard_events = [];
  mouse_button_events = [];
  mouse_move_events = [];
  mouse_click_events = [];
}

replayed-mouse_focus : replayed.mouse_focus ≡ true
unfolding new
replayed-mouse_focus = refl

update-apply_example :
    update look upright resting 1 idle standing (apply_client_commands turned replayed, 0)
    ≡ update look upright resting 1 idle standing
        (apply_client_commands (record turned { orientation = none }) replayed, 0)
update-apply_example =
    update-apply look upright resting 1 idle standing turned replayed 0 replayed-mouse_focus
