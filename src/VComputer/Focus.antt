-- ===== src/VComputer/Focus.antt =====
-- At most one keyboard has the focus (common/vcomputer-system.cpp, `VComputerSystem`).
use tec.Base.{
  ℕ, ◌≡◌, refl, ◌∙◌, Bool, true, false, not, ◌&&◌, ◌||◌, Option, none, some, List, [], ◌∷◌, ◌==◌,
  if◌then◌else◌, arith,
}
use tec.Base.Maps.{Map, find, insert, has}
use tec.Controller.{
  KeyboardEvent, MouseButton, key_down, key_up, key_repeat, key_char, left, right, middle,
}
use tec.VComputer.{
  Keyboard, Computers, nobody, Keys, change, send_key, focused, unfocus, focus, release_focus,
  special, special_key, press_key, key_event, on_keyboard, on_click, fresh_keyboard, attach_devices,
  attach_keyboard, FocusInput, key_input, click_input, created_input, input_step, input_run,
}

-- Whether no keyboard but that of the entity has the focus.
unfoldable pub only : ℕ → Map Keyboard → Bool
only a [] = true
only a ((k, b) ∷ bs) = (not b.has_focus || (k == a)) && only a bs

unfoldable pub IsFocused : Computers → Type 0
IsFocused s = only s.active_entity s.keyboards ≡ true

only-change :
    (a id : ℕ) (f : Keyboard → Keyboard) (bs : Map Keyboard)
    → ((b : Keyboard) → (f b).has_focus ≡ b.has_focus)
    → only a (change id f bs) ≡ only a bs
unfolding only change
only-change a id f [] same = refl
only-change a id f ((k, b) ∷ bs) same = ground (arith, same b, only-change a id f bs same)

only-unfocus :
    (a c : ℕ) (bs : Map Keyboard) → only a bs ≡ true → only c (change a unfocus bs) ≡ true
unfolding only change
only-unfocus a c [] ok = refl
only-unfocus a c ((k, b) ∷ bs) ok = ground (arith, only-unfocus a c bs)

only-focus : (a : ℕ) (bs : Map Keyboard) → only a bs ≡ true → only a (change a focus bs) ≡ true
unfolding only change
only-focus a [] ok = refl
only-focus a ((k, b) ∷ bs) ok = ground (arith, only-focus a bs)

only-insert :
    (a id : ℕ) (bs : Map Keyboard) → only a bs ≡ true → only a (insert id fresh_keyboard bs) ≡ true
unfolding only insert
only-insert a id [] ok = refl
only-insert a id ((k, b) ∷ bs) ok = ground (arith, only-insert a id bs)

if-IsFocused :
    (test : Bool) (s t : Computers) → IsFocused s → IsFocused t → IsFocused (if test then s else t)
if-IsFocused true s t ok ok' = ok
if-IsFocused false s t ok ok' = ok'

release_focus-IsFocused : (id : ℕ) (s : Computers) → IsFocused s → IsFocused (release_focus id s)
unfolding IsFocused release_focus
release_focus-IsFocused id s ok =
    if-IsFocused (has s.active_entity s.keyboards) _ s
      (only-unfocus s.active_entity nobody
        (change id (λ b. record b { modifiers_state = 0 }) s.keyboards)
        (only-change s.active_entity id (λ b. record b { modifiers_state = 0 }) s.keyboards
            (λ b. refl)
          ∙ ok))
      ok

send_key-has_focus :
    (scan code mods : ℕ) (b : Keyboard) → (send_key scan code mods b).has_focus ≡ b.has_focus
unfolding send_key
send_key-has_focus scan code mods b = refl

special_key-has_focus :
    (o : Option (ℕ × ℕ)) (e : KeyboardEvent) (b : Keyboard)
    → (special_key o e b).has_focus ≡ b.has_focus
unfolding special_key
special_key-has_focus none e b = refl
special_key-has_focus (some (scan, code)) e b = send_key-has_focus scan code e.mods b

-- A change of a keyboard that leaves the focus alone.
change-IsFocused :
    (id : ℕ) (f : Keyboard → Keyboard) (s : Computers)
    → ((b : Keyboard) → (f b).has_focus ≡ b.has_focus)
    → IsFocused s
    → IsFocused (record s { keyboards = change id f s.keyboards })
unfolding IsFocused
change-IsFocused id f s same ok = only-change s.active_entity id f s.keyboards same ∙ ok

module _ (keys : Keys) where
  press_key-IsFocused :
      (id : ℕ) (e : KeyboardEvent) (s : Computers) → IsFocused s → IsFocused (press_key keys id e s)
  unfolding press_key
  press_key-IsFocused id e s ok =
      let s' : Computers = record s {
        keyboards = change id (λ b. record b { modifiers_state = e.mods }) s.keyboards;
      } in
      let ok' : IsFocused s' = change-IsFocused id _ s (λ b. refl) ok in
      if-IsFocused (e.key == keys.glfw_key_escape) _ _
        (release_focus-IsFocused id _
          (change-IsFocused id _ s' (send_key-has_focus e.key keys.key_esc e.mods) ok'))
        (change-IsFocused id _ s' (special_key-has_focus (special keys e.key) e) ok')

  key_event-IsFocused :
      (id : ℕ) (e : KeyboardEvent) (s : Computers) → IsFocused s → IsFocused (key_event keys id e s)
  unfolding key_event
  key_event-IsFocused id e s ok =
      elim e.action as (λ action. IsFocused (key_event keys id (record e { action = action }) s)) [
        | key_down ↦ press_key-IsFocused id (record e { action = key_down }) s ok
        | key_repeat ↦ press_key-IsFocused id (record e { action = key_repeat }) s ok
        | key_up ↦ change-IsFocused id (λ b. record b { modifiers_state = e.mods }) s (λ b. refl) ok
        | key_char ↦
            change-IsFocused id (λ b. send_key b.last_keycode e.key b.modifiers_state b) s
              (λ b. send_key-has_focus b.last_keycode e.key b.modifiers_state b) ok
      ]

  keyboard_event-IsFocused :
      (e : KeyboardEvent) (s : Computers) (o : Option ℕ)
      → IsFocused s
      → IsFocused (elim o [
        | none ↦ s
        | some id ↦ elim (find id s.keyboards) [
          | none ↦ s
          | some b ↦ if b.has_device then key_event keys id e s else s
        ]
      ])
  keyboard_event-IsFocused e s none ok = ok
  keyboard_event-IsFocused e s (some id) ok =
      elim (find id s.keyboards)
        as (λ o.
          IsFocused
            (elim o [ none ↦ s | some b ↦ if b.has_device then key_event keys id e s else s ])) [
              | none ↦ ok
              | some b ↦ if-IsFocused b.has_device _ s (key_event-IsFocused id e s ok) ok
            ]

  on_keyboard-IsFocused :
      (e : KeyboardEvent) (s : Computers) → IsFocused s → IsFocused (on_keyboard keys e s)
  unfolding on_keyboard
  on_keyboard-IsFocused e s ok = keyboard_event-IsFocused e s (focused s.keyboards none) ok

only-cleared :
    (same : Bool) (a c : ℕ) (bs : Map Keyboard)
    → only a bs ≡ true
    → (same ≡ true → only c bs ≡ true)
    → only c (if same then bs else change a unfocus bs) ≡ true
only-cleared true a c bs ok here = here refl
only-cleared false a c bs ok here = only-unfocus a c bs ok

only-same : (a c : ℕ) (bs : Map Keyboard) → only a bs ≡ true → (a == c) ≡ true → only c bs ≡ true
only-same a c bs ok same = ground arith

on_click-IsFocused :
    (id : ℕ) (button : MouseButton) (s : Computers) → IsFocused s → IsFocused (on_click id button s)
unfolding IsFocused on_click
on_click-IsFocused id left s ok =
    if-IsFocused (has id s.keyboards) _ _
      (only-focus id _ (
        only-cleared (s.active_entity == id) s.active_entity id s.keyboards ok
          (only-same s.active_entity id s.keyboards ok)))
      (only-cleared (s.active_entity == id) s.active_entity s.active_entity s.keyboards ok
        (λ same. ok))
on_click-IsFocused id right s ok = ok
on_click-IsFocused id middle s ok = ok

only-if-insert :
    (test : Bool) (a id : ℕ) (bs : Map Keyboard)
    → only a bs ≡ true
    → only a (if test then insert id fresh_keyboard bs else bs) ≡ true
only-if-insert true a id bs ok = only-insert a id bs ok
only-if-insert false a id bs ok = ok

only-attach_devices :
    (a id : ℕ) (types : List ℕ) (bs : Map Keyboard)
    → only a bs ≡ true
    → only a (attach_devices id types bs) ≡ true
unfolding attach_devices
only-attach_devices a id [] bs ok = ok
only-attach_devices a id (dev_type ∷ types) bs ok =
    only-attach_devices a id types _ (only-if-insert (dev_type == 3) a id bs ok)

only-attach_keyboard :
    (a id : ℕ) (components : List (Option (List ℕ))) (bs : Map Keyboard)
    → only a bs ≡ true
    → only a (attach_keyboard id components bs) ≡ true
unfolding attach_keyboard
only-attach_keyboard a id [] bs ok = ok
only-attach_keyboard a id (none ∷ components) bs ok = only-attach_keyboard a id components bs ok
only-attach_keyboard a id (some types ∷ components) bs ok =
    only-attach_keyboard a id components _ (only-attach_devices a id types bs ok)

module _ (keys : Keys) where
  input_step-IsFocused :
      (i : FocusInput) (s : Computers) → IsFocused s → IsFocused (input_step keys i s)
  unfolding input_step IsFocused
  input_step-IsFocused (key_input e) s ok = on_keyboard-IsFocused keys e s ok
  input_step-IsFocused (click_input id button) s ok = on_click-IsFocused id button s ok
  input_step-IsFocused (created_input id components) s ok =
      only-attach_keyboard s.active_entity id components s.keyboards ok

  -- From a state in which no keyboard but that of the active entity has the focus, this holds after
  -- any keys, clicks and new entities.
  pub input_run-IsFocused :
      (is : List FocusInput) (s : Computers) → IsFocused s → IsFocused (input_run keys is s)
  unfolding input_run
  input_run-IsFocused [] s ok = ok
  input_run-IsFocused (i ∷ is) s ok =
      input_run-IsFocused is (input_step keys i s) (input_step-IsFocused i s ok)
