-- ===== src/VComputer.antt =====
-- common/vcomputer-system.cpp, `VComputerSystem`: which keyboard has the focus, and what is sent to it. The
-- keyboards are found by the id of their entity. The codes of the keys, and of what the virtual
-- keyboard is sent for them, are parameters.
pub mod Focus
mod Tests
use tec.Base.{
  ℕ, ◌-◌, ◌^◌, ◌%◌, Bool, true, false, ◌||◌, Option, none, some, List, [], ◌∷◌, ◌++◌, ◌==◌,
  if◌then◌else◌,
}
use tec.Base.Maps.{Map, find, insert, has}
use tec.Controller.{
  KeyboardEvent, MouseButton, key_down, key_up, key_repeat, key_char, left, right, middle,
}

-- `ComputerKeyboard`; `sent` records the arguments of `SendKeyEvent`.
pub record Keyboard : Type 0 where
  pub has_focus : Bool
  pub modifiers_state : ℕ
  pub last_keycode : ℕ
  pub has_device : Bool
  pub sent : List (ℕ × ℕ × ℕ)

pub data FocusEvent : Type 0 where
  captured : ℕ → FocusEvent
  blurred : ℕ → FocusEvent

pub record Computers : Type 0 where
  pub keyboards : Map Keyboard
  pub active_entity : ℕ
  pub emitted : List FocusEvent

-- The id -1 of no entity.
abbrev pub nobody : ℕ
nobody = 2 ^ 64 - 1

-- The codes of GLFW for the keys, and those of `gkeyboard`.
pub record Keys : Type 0 where
  pub glfw_key_escape : ℕ
  pub glfw_key_backspace : ℕ
  pub glfw_key_tab : ℕ
  pub glfw_key_insert : ℕ
  pub glfw_key_delete : ℕ
  pub glfw_key_right : ℕ
  pub glfw_key_left : ℕ
  pub glfw_key_down : ℕ
  pub glfw_key_up : ℕ
  pub glfw_key_enter : ℕ
  pub glfw_key_kp_enter : ℕ
  pub glfw_key_left_shift : ℕ
  pub glfw_key_right_shift : ℕ
  pub glfw_key_left_control : ℕ
  pub glfw_key_right_control : ℕ
  pub glfw_key_left_alt : ℕ
  pub glfw_key_right_alt : ℕ
  pub key_esc : ℕ
  pub key_backspace : ℕ
  pub key_tab : ℕ
  pub key_insert : ℕ
  pub key_delete : ℕ
  pub key_arrow_right : ℕ
  pub key_arrow_left : ℕ
  pub key_arrow_down : ℕ
  pub key_arrow_up : ℕ
  pub key_shift : ℕ
  pub key_control : ℕ
  pub key_alt : ℕ
  pub scan_enter : ℕ

-- The `switch` but escape: the scan code and the code that are sent for a key, if it has a case.
unfoldable pub special : Keys → ℕ → Option (ℕ × ℕ)
special keys key =
    if key == keys.glfw_key_backspace
    then some (key, keys.key_backspace)
    else if key == keys.glfw_key_tab
    then some (key, keys.key_tab)
    else if key == keys.glfw_key_insert
    then some (key, keys.key_insert)
    else if key == keys.glfw_key_delete
    then some (key, keys.key_delete)
    else if key == keys.glfw_key_right
    then some (key, keys.key_arrow_right)
    else if key == keys.glfw_key_left
    then some (key, keys.key_arrow_left)
    else if key == keys.glfw_key_down
    then some (key, keys.key_arrow_down)
    else if key == keys.glfw_key_up
    then some (key, keys.key_arrow_up)
    else if (key == keys.glfw_key_enter) || (key == keys.glfw_key_kp_enter)
    then some (keys.scan_enter, keys.key_shift)
    else if (key == keys.glfw_key_left_shift) || (key == keys.glfw_key_right_shift)
    then some (key, keys.key_shift)
    else if (key == keys.glfw_key_left_control) || (key == keys.glfw_key_right_control)
    then some (key, keys.key_control)
    else if (key == keys.glfw_key_left_alt) || (key == keys.glfw_key_right_alt)
    then some (key, keys.key_alt)
    else none

-- The entry of a key, changed.
unfoldable pub change : ℕ → (Keyboard → Keyboard) → Map Keyboard → Map Keyboard
change id f [] = []
change id f ((k, b) ∷ bs) =
    let rest = change id f bs in if k == id then (k, f b) ∷ rest else (k, b) ∷ rest

-- `SendKeyEvent`, its arguments cast to a word and to bytes.
unfoldable pub send_key : ℕ → ℕ → ℕ → Keyboard → Keyboard
send_key scan code mods b = record b {
  sent = b.sent ++ ((scan % 2 ^ 16, code % 2 ^ 8, mods % 2 ^ 8) ∷ []);
}

-- The cases of the `switch` but escape, and its default.
unfoldable pub special_key : Option (ℕ × ℕ) → KeyboardEvent → Keyboard → Keyboard
special_key (some (scan, code)) e b = send_key scan code e.mods b
special_key none e b = record b { last_keycode = e.key }

-- The last keyboard that has the focus.
unfoldable pub focused : Map Keyboard → Option ℕ → Option ℕ
focused [] found = found
focused ((k, b) ∷ bs) found = focused bs (if b.has_focus then some k else found)

abbrev pub unfocus : Keyboard → Keyboard
unfocus b = record b { has_focus = false }

abbrev pub focus : Keyboard → Keyboard
focus b = record b { has_focus = true }

-- The end of the case of escape.
unfoldable pub release_focus : ℕ → Computers → Computers
release_focus id s =
    if has s.active_entity s.keyboards
    then record {
      keyboards =
          change s.active_entity unfocus
            (change id (λ b. record b { modifiers_state = 0 }) s.keyboards);
      active_entity = nobody;
      emitted = s.emitted ++ (blurred s.active_entity ∷ []);
    }
    else s

module _ (keys : Keys) where
  -- The cases of a key that is pressed or repeated.
  unfoldable pub press_key : ℕ → KeyboardEvent → Computers → Computers
  press_key id e s =
      let pressed : Map Keyboard =
        change id (λ b. record b { modifiers_state = e.mods }) s.keyboards in
      if e.key == keys.glfw_key_escape
      then release_focus id
          (record s { keyboards = change id (send_key e.key keys.key_esc e.mods) pressed })
      else record s { keyboards = change id (special_key (special keys e.key) e) pressed }

  unfoldable pub key_event : ℕ → KeyboardEvent → Computers → Computers
  key_event id e s = elim e.action [
    | key_down ↦ press_key id e s
    | key_repeat ↦ press_key id e s
    | key_up ↦ record s {
      keyboards = change id (λ b. record b { modifiers_state = e.mods }) s.keyboards;
    }
    | key_char ↦ record s {
      keyboards = change id (λ b. send_key b.last_keycode e.key b.modifiers_state b) s.keyboards;
    }
  ]

  -- `On(KeyboardEvent)`
  unfoldable pub on_keyboard : KeyboardEvent → Computers → Computers
  on_keyboard e s = elim (focused s.keyboards none) [
    | none ↦ s
    | some id ↦ elim (find id s.keyboards) [
      | none ↦ s
      | some b ↦ if b.has_device then key_event id e s else s
    ]
  ]

-- `On(MouseClickEvent)` of an entity.
unfoldable pub on_click : ℕ → MouseButton → Computers → Computers
on_click id button s =
    let cleared : Map Keyboard =
      if s.active_entity == id then s.keyboards else change s.active_entity unfocus s.keyboards in
    let clicked : Computers =
      if has id s.keyboards
      then record {
        keyboards = change id focus cleared;
        active_entity = id;
        emitted = s.emitted ++ (captured id ∷ []);
      }
      else record s { keyboards = cleared } in
    elim button [ left ↦ clicked | right ↦ s | middle ↦ s ]

-- A keyboard as it is made.
abbrev pub fresh_keyboard : Keyboard
fresh_keyboard = record {
  has_focus = false;
  modifiers_state = 0;
  last_keycode = 0;
  has_device = true;
  sent = [];
}

-- The loop over the devices of a computer, given by their types, of which 3 is the keyboard.
unfoldable pub attach_devices : ℕ → List ℕ → Map Keyboard → Map Keyboard
attach_devices id [] keyboards = keyboards
attach_devices id (dev_type ∷ types) keyboards =
    attach_devices id types
      (if dev_type == 3 then insert id fresh_keyboard keyboards else keyboards)

-- `On(EntityCreated)`, less the map of the computers. Of a component that is a computer the types of
-- its devices are given.
unfoldable pub attach_keyboard : ℕ → List (Option (List ℕ)) → Map Keyboard → Map Keyboard
attach_keyboard id [] keyboards = keyboards
attach_keyboard id (none ∷ components) keyboards = attach_keyboard id components keyboards
attach_keyboard id (some types ∷ components) keyboards =
    attach_keyboard id components (attach_devices id types keyboards)

-- What happens to the focus.
pub data FocusInput : Type 0 where
  key_input : KeyboardEvent → FocusInput
  click_input : ℕ → MouseButton → FocusInput
  created_input : ℕ → List (Option (List ℕ)) → FocusInput

module _ (keys : Keys) where
  unfoldable pub input_step : FocusInput → Computers → Computers
  input_step (key_input e) s = on_keyboard keys e s
  input_step (click_input id button) s = on_click id button s
  input_step (created_input id components) s = record s {
    keyboards = attach_keyboard id components s.keyboards;
  }

  unfoldable pub input_run : List FocusInput → Computers → Computers
  input_run [] s = s
  input_run (i ∷ is) s = input_run is (input_step i s)
