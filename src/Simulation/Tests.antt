-- ===== src/Simulation/Tests.antt =====
-- Tests of the frames of the simulation (common/simulation.cpp), with numbers for floats.
use tec.Base.{ℕ, ◌≡◌, refl, true, false, ◌&&◌, none, some, List, [], ◌∷◌, or_else, if◌then◌else◌}
use tec.Base.Maps.{has, find}
use tec.GameState.{GameState}
use tec.Components.{Orientation, Velocity}
use tec.Controller.{EventList, FpsController, ClientCommands, key_down, key_w, left, new}
use tec.Controller.Tests.{upright, resting, look}
use tec.Simulation.{
  Controls, Simulation, Pending, no_events, process, each_controller, on_client_commands,
  receive_focus, simulate_physics,
}
use tec.Simulation.Frames.{simulate_all, given, simulate_all-given}
use tec.Simulation.Routing.{obey, process-on_client_commands}
use tec.Simulation.Results.{member, simulate_physics-find}
use tec.Simulation.Focus.{refocus, controls, receive_focus-refocus}

abbrev steered : ClientCommands ℕ → ℕ
steered m = m.id

abbrev fps :
    Controls
      (FpsController ℕ)
      (ClientCommands ℕ)
      (EventList ℕ)
      (GameState ℕ (Orientation ℕ) (Velocity ℕ) × ℕ)
fps = controls ℕ look upright resting 1 steered

abbrev two : Simulation (FpsController ℕ) ℕ
two = record {
  event_list = no_events;
  controllers = (100, new 0 upright 7) ∷ (200, new 0 upright 8) ∷ [];
}

abbrev stop : ClientCommands ℕ
stop = record { id = 8; movement = none; orientation = none }

abbrev frame : Pending (FpsController ℕ) (ClientCommands ℕ) ℕ
frame = record {
  keyboard = record { key = key_w; action = key_down; mods = 0 } ∷ [];
  mouse_buttons = [];
  mouse_moves = (1, 2) ∷ [];
  mouse_clicks = left ∷ [];
  client_commands = stop ∷ [];
  added = [];
  removed = 100 ∷ [];
  captured = (true, false) ∷ [];
  blurred = (true, false) ∷ [];
}

abbrev standing : GameState ℕ (Orientation ℕ) (Velocity ℕ)
standing = record {
  positions = (7, 1) ∷ (8, 2) ∷ [];
  orientations = (7, upright) ∷ [];
  velocities = (7, resting) ∷ [];
  state_id = 1;
  command_id = 0;
  timestamp = 0;
}

simulate_all-given_example :
    (simulate_all fps steered (frame ∷ frame ∷ []) ((standing, 0), []) two).0.1
    ≡ given fps steered (frame ∷ frame ∷ []) ((standing, 0), []) two
simulate_all-given_example =
    simulate_all-given fps steered (frame ∷ frame ∷ []) ((standing, 0), []) two refl

process-on_client_commands_example :
    (process (on_client_commands fps steered) (stop ∷ stop ∷ []) two).controllers
    ≡ each_controller (obey fps steered (stop ∷ stop ∷ [])) two.controllers
process-on_client_commands_example = process-on_client_commands fps steered (stop ∷ stop ∷ []) two

receive_focus-refocus_example :
    (receive_focus fps steered frame two).controllers
    ≡ each_controller (refocus frame.captured frame.blurred) two.controllers
receive_focus-refocus_example = receive_focus-refocus ℕ look upright resting 1 steered frame two

abbrev fall :
    GameState ℕ (Orientation ℕ) (Velocity ℕ) → List ℕ × GameState ℕ (Orientation ℕ) (Velocity ℕ)
fall state = (7 ∷ [], record state { velocities = [] })

simulate_physics-find_example :
    let (ids, interpolated) = fall standing in
    let client : GameState ℕ (Orientation ℕ) (Velocity ℕ) =
      simulate_physics (λ id. 50) (λ id. upright) fall standing in
    (find 7 client.positions ≡ (
      if member 7 ids && has 7 interpolated.positions then some 50 else find 7 standing.positions))
    × (find 7 client.orientations ≡ (
        if member 7 ids && has 7 interpolated.orientations
        then some upright
        else find 7 standing.orientations))
    × (find 7 client.velocities ≡ (
        if member 7 ids
        then or_else (find 7 interpolated.velocities) (find 7 standing.velocities)
        else find 7 standing.velocities))
    × (client.state_id ≡ standing.state_id)
    × (client.command_id ≡ standing.command_id)
    × (client.timestamp ≡ standing.timestamp)
simulate_physics-find_example = simulate_physics-find (λ id. 50) (λ id. upright) 7 fall standing
