-- ===== src/Controller/Update.antt =====
-- `FPSController::Update` and `Handle(MouseMoveEvent)` of common/controllers/fps-controller.cpp. `float`
-- and the geometry are parameters. The static variable `pitch` of the mouse handler, which all
-- controllers share, is passed in and out.
use tec.Base.{Bool, true, ◌&&◌, ◌||◌, List, [], ◌∷◌, if◌then◌else◌}
use tec.Base.Maps.{insert, has}
use tec.GameState.{GameState}
use tec.GameState.Client.{entry}
use tec.Components.{Vec3, Quat, Orientation, Velocity}
use tec.Controller.{KeyboardEvent, EventList, FpsController, handle_keys, handle_buttons}

-- `forward_direction` and `strafe_direction`: -1, 0 or 1.
pub data Direction : Type 0 where
  negative : Direction
  still : Direction
  positive : Direction

module _ {F : Type 0} where
  -- What `Update` makes of keys and directions: the controller after it, the forward direction and
  -- the direction to the side.
  unfoldable pub choose_forward : FpsController F → FpsController F × Direction
  choose_forward c =
      if (c.key_w_down && c.key_w_first) || c.forward
      then (record c { forward = true }, negative)
      else if c.key_s_down || c.backward
      then (record c { backward = true }, positive)
      else (c, still)

  unfoldable pub choose_strafe : FpsController F → FpsController F × Direction
  choose_strafe c =
      if (c.key_a_down && c.key_a_first) || c.left_strafe
      then (record c { left_strafe = true }, negative)
      else if c.key_d_down || c.right_strafe
      then (record c { right_strafe = true }, positive)
      else (c, still)

  unfoldable pub choose : FpsController F → FpsController F × (Direction × Direction)
  choose c =
      let (c', forward) = choose_forward c in
      let (c'', strafe) = choose_strafe c' in (c'', (forward, strafe))

  -- The keyboard events, under the test of `keyboard_focus`.
  unfoldable pub listen : Bool → List KeyboardEvent → FpsController F → FpsController F
  listen focus es c = if focus then handle_keys es c else c

  -- The part of `Update` before the mouse moves: the time, the keys and the buttons.
  unfoldable pub prepare : F → EventList F → FpsController F → FpsController F
  prepare delta commands c =
      handle_buttons commands.mouse_button_events
        (listen c.keyboard_focus commands.keyboard_events (record c { current_delta = delta }))

-- The numbers and the geometry that the mouse handler and `Update` use.
pub record Look (F : Type 0) : Type 0 where
  pub zero : F
  -- `pitch + change_y / 5`
  pub tilt : F → F → F
  -- `pitch > 90` and `pitch < -120`
  pub above : F → Bool
  pub below : F → Bool
  pub highest : F
  pub lowest : F
  -- `-8 * current_delta`
  pub rotation_speed : F → F
  -- `abs(change) > FLT_EPSILON`
  pub matters : F → Bool
  -- The orientation about the vertical axis, and about that to the right, by a change at a speed.
  pub turn : F → F → Quat F → Orientation F
  pub nod : F → F → Quat F → Orientation F
  -- `orientation.value * vec3(5 * strafe, 0, 7.5 * forward)`
  pub heading : Quat F → Direction → Direction → Vec3 F

module _ {F : Type 0} (look : Look F) where
  -- The change up or down, and the pitch, that are left by the two limits.
  unfoldable pub limit_high : F × F → F × F
  limit_high (change_y, pitch) =
      if look.above pitch then (look.zero, look.highest) else (change_y, pitch)

  unfoldable pub limit_low : F × F → F × F
  limit_low (change_y, pitch) =
      if look.below pitch then (look.zero, look.lowest) else (change_y, pitch)

  unfoldable pub looked : F → F → F → Orientation F → Orientation F
  looked change_x change_y speed o =
      let turned : Orientation F =
        if look.matters change_x then look.turn change_x speed o.value else o in
      if look.matters change_y then look.nod change_y speed turned.value else turned

  -- `Handle(MouseMoveEvent)`: the controller and the pitch after it.
  unfoldable pub handle_move : F × F → FpsController F × F → FpsController F × F
  handle_move (change_x, change_y) (c, pitch) =
      let (dy, pitch') = limit_low (limit_high (change_y, look.tilt pitch change_y)) in
      if c.mouse_look
      then (
        record c {
          orientation = looked change_x dy (look.rotation_speed c.current_delta) c.orientation;
        },
        pitch',
      )
      else (c, pitch)

  unfoldable pub handle_moves : List (F × F) → FpsController F × F → FpsController F × F
  handle_moves [] s = s
  handle_moves (e ∷ es) s = handle_moves es (handle_move e s)

-- `upright` and `resting` are what `operator[]` of a map constructs for a missing key. `operator[]`
-- has put an entry into the orientations when the code looks whether there is one.
module _ {P F : Type 0} (look : Look F) (upright : Orientation F) (resting : Velocity F) where
  -- The part of `Update` under `mouse_focus`.
  unfoldable pub update_orientation :
      List (F × F)
      → GameState P (Orientation F) (Velocity F)
      → FpsController F × F
      → GameState P (Orientation F) (Velocity F) × (FpsController F × F)
  update_orientation moves state (c, pitch) =
      let (o, orientations) = entry c.entity_id upright state.orientations in
      let (c', pitch') = handle_moves look moves (record c { orientation = o }, pitch) in
      (
        record state {
          orientations =
              if has c.entity_id orientations
              then insert c.entity_id c'.orientation orientations
              else orientations;
        },
        (c', pitch'),
      )

  -- The part of `Update` from there on: the state, the controller and the pitch after it.
  unfoldable pub proceed :
      List (F × F)
      → GameState P (Orientation F) (Velocity F)
      → FpsController F × F
      → GameState P (Orientation F) (Velocity F) × (FpsController F × F)
  proceed moves state (c, pitch) =
      let (state', (c', pitch')) =
        if c.mouse_focus then update_orientation moves state (c, pitch) else (state, (c, pitch)) in
      let (c'', (forward, strafe)) = choose c' in
      let (old, velocities) = entry c.entity_id resting state'.velocities in
      (
        record state' {
          velocities =
              insert c.entity_id
                (record old { linear = look.heading c''.orientation.value forward strafe })
                velocities;
        },
        (c'', pitch'),
      )

  -- `Update`
  unfoldable pub update :
      F
      → EventList F
      → GameState P (Orientation F) (Velocity F)
      → FpsController F × F
      → GameState P (Orientation F) (Velocity F) × (FpsController F × F)
  update delta commands state (c, pitch) =
      proceed commands.mouse_move_events state (prepare delta commands c, pitch)
