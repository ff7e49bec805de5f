-- ===== src/VComputer/Tests.antt =====
-- Tests of the focus of the keyboards (common/vcomputer-system.cpp).
use tec.Base.{ℕ, ◌≡◌, refl, none, some, List, [], ◌∷◌}
use tec.Base.Maps.{find, insert, has}
use tec.Controller.{KeyboardEvent, key_down, left}
use tec.VComputer.{
  Computers, nobody, Keys, change, send_key, special, special_key, focused, release_focus,
  press_key, key_event, on_keyboard, on_click, attach_devices, attach_keyboard, FocusInput,
  key_input, click_input, created_input, input_step, input_run,
}
use tec.VComputer.Focus.{only, IsFocused, input_run-IsFocused}

abbrev key_codes : Keys
key_codes = record {
  glfw_key_escape = 256;
  glfw_key_backspace = 259;
  glfw_key_tab = 258;
  glfw_key_insert = 260;
  glfw_key_delete = 261;
  glfw_key_right = 262;
  glfw_key_left = 263;
  glfw_key_down = 264;
  glfw_key_up = 265;
  glfw_key_enter = 257;
  glfw_key_kp_enter = 335;
  glfw_key_left_shift = 340;
  glfw_key_right_shift = 344;
  glfw_key_left_control = 341;
  glfw_key_right_control = 345;
  glfw_key_left_alt = 342;
  glfw_key_right_alt = 346;
  key_esc = 1;
  key_backspace = 2;
  key_tab = 3;
  key_insert = 4;
  key_delete = 5;
  key_arrow_right = 6;
  key_arrow_left = 7;
  key_arrow_down = 8;
  key_arrow_up = 9;
  key_shift = 10;
  key_control = 11;
  key_alt = 12;
  scan_enter = 90;
}

abbrev pressed : ℕ → KeyboardEvent
pressed k = record { action = key_down; key = k; mods = 1 }

abbrev empty : Computers
empty = record { keyboards = []; active_entity = 0; emitted = [] }

abbrev inputs : List FocusInput
inputs =
    created_input 7 (none ∷ some (5 ∷ 3 ∷ []) ∷ [])
    ∷ created_input 9 (some (3 ∷ []) ∷ [])
    ∷ click_input 7 left
    ∷ click_input 9 left
    ∷ key_input (pressed 65)
    ∷ key_input (pressed 257)
    ∷ []

-- Only the second keyboard has the focus and is sent the keys.
focus_moves : focused (input_run key_codes inputs empty).keyboards none ≡ some 9
unfolding input_run input_step on_keyboard on_click attach_devices attach_keyboard focused change
    send_key special special_key key_event press_key find insert has release_focus
focus_moves = refl

-- Escape takes the focus from it.
focus_ends :
    (on_keyboard key_codes (pressed 256) (input_run key_codes inputs empty)).active_entity ≡ nobody
unfolding input_run input_step on_keyboard on_click attach_devices attach_keyboard focused change
    send_key special special_key key_event press_key find insert has release_focus
focus_ends = refl

empty-IsFocused : IsFocused empty
unfolding IsFocused only
empty-IsFocused = refl

input_run-IsFocused_example : IsFocused (input_run key_codes inputs empty)
input_run-IsFocused_example = input_run-IsFocused key_codes inputs empty empty-IsFocused
