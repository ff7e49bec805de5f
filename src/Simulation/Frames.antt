-- ===== src/Simulation/Frames.antt =====
-- Which events the controllers are given, frame after frame (common/simulation.cpp).
use tec.Base.{
  ℕ, ◌≡◌, refl, ap, ◌∙◌, List, [], ◌∷◌, ◌++◌, sym, length, replicate, append-nil, append_assoc,
}
use tec.Controller.{EventList, KeyboardEvent, MouseButtonEvent, MouseButton}
use tec.Simulation.{
  Controls, Simulation, Pending, process, no_events, on_keyboard, on_mouse_button, on_mouse_move,
  on_mouse_click, add_controller, remove_controller, on_captured, on_blur, on_client_commands,
  receive_input, receive_controllers, receive_focus, receive, update_controllers, simulate,
}

-- The events of the keyboard and the mouse that wait when a frame starts.
abbrev pub input_of : {C M F : Type 0} → Pending C M F → EventList F
input_of p = record {
  keyboard_events = p.keyboard;
  mouse_button_events = p.mouse_buttons;
  mouse_move_events = p.mouse_moves;
  mouse_click_events = p.mouse_clicks;
}

-- A handler that leaves the list of events alone does so over a whole queue.
process-event_list :
    {A C F : Type 0} (on : A → Simulation C F → Simulation C F) (es : List A) (s : Simulation C F)
    → ((a : A) (t : Simulation C F) → (on a t).event_list ≡ t.event_list)
    → (process on es s).event_list ≡ s.event_list
unfolding process
process-event_list on [] s same = refl
process-event_list on (e ∷ es) s same = process-event_list on es (on e s) same ∙ same e s

module _ {C F : Type 0} where
  process-on_keyboard :
      (es : List KeyboardEvent) (s : Simulation C F)
      → process on_keyboard es s ≡ record s {
        event_list = record s.event_list { keyboard_events = s.event_list.keyboard_events ++ es };
      }
  unfolding process on_keyboard
  process-on_keyboard [] s = rw (append-nil s.event_list.keyboard_events) refl
  process-on_keyboard (e ∷ es) s =
      process-on_keyboard es (on_keyboard e s)
      ∙ rw (append_assoc s.event_list.keyboard_events (e ∷ []) es) refl

  process-on_mouse_button :
      (es : List MouseButtonEvent) (s : Simulation C F)
      → process on_mouse_button es s ≡ record s {
        event_list = record s.event_list {
          mouse_button_events = s.event_list.mouse_button_events ++ es;
        };
      }
  unfolding process on_mouse_button
  process-on_mouse_button [] s = rw (append-nil s.event_list.mouse_button_events) refl
  process-on_mouse_button (e ∷ es) s =
      process-on_mouse_button es (on_mouse_button e s)
      ∙ rw (append_assoc s.event_list.mouse_button_events (e ∷ []) es) refl

  process-on_mouse_move :
      (es : List (F × F)) (s : Simulation C F)
      → process on_mouse_move es s ≡ record s {
        event_list = record s.event_list {
          mouse_move_events = s.event_list.mouse_move_events ++ es;
        };
      }
  unfolding process on_mouse_move
  process-on_mouse_move [] s = rw (append-nil s.event_list.mouse_move_events) refl
  process-on_mouse_move (e ∷ es) s =
      process-on_mouse_move es (on_mouse_move e s)
      ∙ rw (append_assoc s.event_list.mouse_move_events (e ∷ []) es) refl

  process-on_mouse_click :
      (es : List MouseButton) (s : Simulation C F)
      → process on_mouse_click es s ≡ record s {
        event_list = record s.event_list {
          mouse_click_events = s.event_list.mouse_click_events ++ es;
        };
      }
  unfolding process on_mouse_click
  process-on_mouse_click [] s = rw (append-nil s.event_list.mouse_click_events) refl
  process-on_mouse_click (e ∷ es) s =
      process-on_mouse_click es (on_mouse_click e s)
      ∙ rw (append_assoc s.event_list.mouse_click_events (e ∷ []) es) refl

module _ {C M F S : Type 0} (controls : Controls C M (EventList F) S) (command_id : M → ℕ) where
  receive_input-event_list :
      (p : Pending C M F) (s : Simulation C F)
      → s.event_list ≡ no_events
      → (receive_input controls command_id p s).event_list ≡ input_of p
  unfolding receive_input
  receive_input-event_list p s fresh =
      rw
        (
          process-on_keyboard p.keyboard s,
          process-on_mouse_button p.mouse_buttons _,
          process-on_mouse_move p.mouse_moves _,
          process-on_mouse_click p.mouse_clicks _,
          fresh,
        )
        refl

  receive_controllers-event_list :
      (p : Pending C M F) (s : Simulation C F)
      → (receive_controllers controls command_id p s).event_list ≡ s.event_list
  unfolding receive_controllers on_client_commands add_controller remove_controller
  receive_controllers-event_list p s =
      process-event_list remove_controller p.removed _ (λ a t. refl)
      ∙ process-event_list add_controller p.added _ (λ a t. refl)
      ∙ process-event_list (on_client_commands controls command_id) p.client_commands s
          (λ a t. refl)

  receive_focus-event_list :
      (p : Pending C M F) (s : Simulation C F)
      → (receive_focus controls command_id p s).event_list ≡ s.event_list
  unfolding receive_focus on_captured on_blur
  receive_focus-event_list p s =
      process-event_list (on_blur controls command_id) p.blurred _ (λ a t. refl)
      ∙ process-event_list (on_captured controls command_id) p.captured s (λ a t. refl)

  receive-event_list :
      (p : Pending C M F) (s : Simulation C F)
      → s.event_list ≡ no_events
      → (receive controls command_id p s).event_list ≡ input_of p
  unfolding receive
  receive-event_list p s fresh =
      receive_focus-event_list p _
      ∙ receive_controllers-event_list p _
      ∙ receive_input-event_list p s fresh

-- The controllers with a record of the events that each update of one of them is given.
unfoldable pub logged : {C M E S : Type 0} → Controls C M E S → Controls C M E (S × List E)
logged controls = record {
  entity_id = controls.entity_id;
  update = λ e s c. let (state, c') = controls.update e s.0 c in ((state, s.1 ++ (e ∷ [])), c');
  apply_client_commands = controls.apply_client_commands;
  set_focus = controls.set_focus;
  clear_focus = controls.clear_focus;
  same_entity = controls.same_entity;
}

module _ {C M F S : Type 0} (controls : Controls C M (EventList F) S) (command_id : M → ℕ) where
  update_controllers-logged :
      (e : EventList F) (cs : List (ℕ × C)) (state : S × List (EventList F))
      → (update_controllers (logged controls) command_id e cs state).0.1
        ≡ state.1 ++ replicate (length cs) e
  unfolding update_controllers logged
  update_controllers-logged e [] state = sym (append-nil state.1)
  update_controllers-logged e ((p, c) ∷ cs) state =
      let (next, c') = controls.update e state.0 c in
      update_controllers-logged e cs (next, state.1 ++ (e ∷ []))
      ∙ append_assoc state.1 (e ∷ []) (replicate (length cs) e)

  -- Frame after frame.
  abbrev pub simulate_all :
      List (Pending C M F)
      → S × List (EventList F)
      → Simulation C F
      → (S × List (EventList F)) × Simulation C F
  simulate_all [] state s = (state, s)
  simulate_all (p ∷ ps) state s =
      let (state', s') = simulate (logged controls) command_id p state s in
      simulate_all ps state' s'

  -- For each frame its own input, as many times as there are controllers when they are updated.
  abbrev pub given :
      List (Pending C M F) → S × List (EventList F) → Simulation C F → List (EventList F)
  given [] state s = []
  given (p ∷ ps) state s =
      let (state', s') = simulate (logged controls) command_id p state s in
      replicate (length (receive (logged controls) command_id p s).controllers) (input_of p)
      ++ given ps state' s'

  -- Over any sequence of frames, from a simulation that holds no events: each update of a controller is
  -- given the keyboard and mouse events that waited when its frame started, in the order in which
  -- they came, and none of an earlier frame; and in a frame there are as many updates as controllers.
  pub simulate_all-given :
      (ps : List (Pending C M F)) (state : S × List (EventList F)) (s : Simulation C F)
      → s.event_list ≡ no_events
      → (simulate_all ps state s).0.1 ≡ state.1 ++ given ps state s
  unfolding simulate
  simulate_all-given [] state s fresh = sym (append-nil state.1)
  simulate_all-given (p ∷ ps) state s fresh =
      let s' : Simulation C F = receive (logged controls) command_id p s in
      let events : s'.event_list ≡ input_of p =
        receive-event_list (logged controls) command_id p s fresh in
      let (state', later) = simulate (logged controls) command_id p state s in
      let now : state'.1 ≡ state.1 ++ replicate (length s'.controllers) (input_of p) =
        update_controllers-logged s'.event_list s'.controllers state
        ∙ ap (λ e. state.1 ++ replicate (length s'.controllers) e) events in
      simulate_all-given ps state' later refl
      ∙ ap (λ t. t ++ given ps state' later) now
      ∙ append_assoc state.1 (replicate (length s'.controllers) (input_of p))
          (given ps state' later)
