-- ===== src/Controller/Keys.antt =====
-- Which way the keys move a controller (common/controllers/fps-controller.cpp).
use mathlib.Core.List.{reverse, reverse-cons}
use tec.Base.{
  ℕ, ◌≡◌, refl, Bool, true, false, not, ◌||◌, List, [], ◌∷◌, ◌++◌, ◌==◌, if◌then◌else◌, arith,
}
use tec.Controller.{
  KeyAction, KeyboardEvent, FpsController, handle_key, handle_keys, press, release, key_down,
  key_up, key_repeat, key_char, key_a, key_d, key_s, key_w, new,
}
use tec.Controller.Update.{
  Direction, choose, choose_forward, choose_strafe, negative, still, positive,
}
use tec.Components.{Orientation}

-- The events that there were, the newest first.
-- What the events say of a key: whether it is down, by the newest event about it.
abbrev pub pressed : KeyAction → Bool → Bool
pressed key_down before = true
pressed key_repeat before = true
pressed key_up before = false
pressed key_char before = before

abbrev pub held : ℕ → List KeyboardEvent → Bool
held k [] = false
held k (e ∷ past) = if e.key == k then pressed e.action (held k past) else held k past

-- Whether a key leads another one: since its newest release there was an event that pressed or
-- repeated it while the other one was not held.
abbrev pub claims : KeyAction → Bool → Bool → Bool
claims key_down other before = not other || before
claims key_repeat other before = not other || before
claims key_up other before = false
claims key_char other before = before

abbrev pub leads : ℕ → ℕ → List KeyboardEvent → Bool
leads k other [] = false
leads k other (e ∷ past) =
    if e.key == k
    then claims e.action (held other past) (leads k other past)
    else leads k other past

abbrev pub toward : Bool → Bool → Direction
toward true back = negative
toward false true = positive
toward false false = still

record Follows {F : Type 0} (past : List KeyboardEvent) (c : FpsController F) : Type 0 where
  w_down : c.key_w_down ≡ held key_w past
  s_down : c.key_s_down ≡ held key_s past
  a_down : c.key_a_down ≡ held key_a past
  d_down : c.key_d_down ≡ held key_d past
  w_first : c.key_w_first ≡ leads key_w key_s past
  a_first : c.key_a_first ≡ leads key_a key_d past

leads-held :
    (k other : ℕ) (past : List KeyboardEvent) → leads k other past ≡ true → held k past ≡ true
leads-held k other [] h = h
leads-held k other (e ∷ past) h = ground (arith, leads-held k other past)

module _ {F : Type 0} where
  handle_key-Follows :
      (e : KeyboardEvent) (past : List KeyboardEvent) (c : FpsController F)
      → Follows past c
      → Follows (e ∷ past) (handle_key e c)
  unfolding handle_key press release
  handle_key-Follows e past c f = ground (arith, f)

  handle_keys-append :
      (es ds : List KeyboardEvent) (c : FpsController F)
      → handle_keys (es ++ ds) c ≡ handle_keys ds (handle_keys es c)
  unfolding handle_keys
  handle_keys-append [] ds c = refl
  handle_keys-append (e ∷ es) ds c = handle_keys-append es ds (handle_key e c)

  handle_keys-last :
      (e : KeyboardEvent) (past : List KeyboardEvent) (c : FpsController F)
      → handle_keys (reverse (e ∷ past)) c ≡ handle_key e (handle_keys (reverse past) c)
  unfolding handle_keys
  handle_keys-last e past c =
      rw (reverse-cons e past, handle_keys-append (reverse past) (e ∷ []) c) refl

  handle_keys-none : (c : FpsController F) → handle_keys [] c ≡ c
  unfolding handle_keys
  handle_keys-none c = refl

  handle_keys-Follows :
      (past : List KeyboardEvent) (c : FpsController F)
      → Follows [] c
      → Follows past (handle_keys (reverse past) c)
  handle_keys-Follows [] c f = rw (handle_keys-none c) f
  handle_keys-Follows (e ∷ past) c f =
      rw (handle_keys-last e past c)
        (handle_key-Follows e past (handle_keys (reverse past) c) (handle_keys-Follows past c f))

  handle_key-still :
      (e : KeyboardEvent) (c : FpsController F)
      → let c' : FpsController F = handle_key e c in
        (c'.forward ≡ c.forward)
        × (c'.backward ≡ c.backward)
        × (c'.left_strafe ≡ c.left_strafe)
        × (c'.right_strafe ≡ c.right_strafe)
  unfolding handle_key press release
  handle_key-still e c = ground arith

  handle_keys-still :
      (es : List KeyboardEvent) (c : FpsController F)
      → let c' : FpsController F = handle_keys es c in
        (c'.forward ≡ c.forward)
        × (c'.backward ≡ c.backward)
        × (c'.left_strafe ≡ c.left_strafe)
        × (c'.right_strafe ≡ c.right_strafe)
  unfolding handle_keys
  handle_keys-still [] c = (refl, refl, refl, refl)
  handle_keys-still (e ∷ es) c =
      ground (arith, handle_key-still e c, handle_keys-still es (handle_key e c))

  choose-lem :
      (past : List KeyboardEvent) (c : FpsController F)
      → Follows past c
      → c.forward ≡ false
      → c.backward ≡ false
      → c.left_strafe ≡ false
      → c.right_strafe ≡ false
      → (choose c).1 ≡ (
        toward (leads key_w key_s past) (held key_s past),
        toward (leads key_a key_d past) (held key_d past),
      )
  unfolding choose choose_forward choose_strafe
  choose-lem past c f nf nb nl nr =
      ground (arith, f, leads-held key_w key_s past, leads-held key_a key_d past)

-- A new controller that is given any keyboard events, the last one first in `past`: it moves forward
-- if W leads S, that is, if since W was last released W was pressed or repeated while S was not held;
-- otherwise back if S is held, and not at all if not, even if W is. In the same way it moves to
-- the left if A leads D, otherwise to the right if D is held.
pub handle_keys-choose :
    {F : Type 0} (zero : F) (upright : Orientation F) (id : ℕ) (past : List KeyboardEvent)
    → (choose (handle_keys (reverse past) (new zero upright id))).1 ≡ (
      toward (leads key_w key_s past) (held key_s past),
      toward (leads key_a key_d past) (held key_d past),
    )
unfolding new
handle_keys-choose {F} zero upright id past =
    let c : FpsController F = new zero upright id in
    let (nf, nb, nl, nr) = handle_keys-still (reverse past) c in
    choose-lem past (handle_keys (reverse past) c) (handle_keys-Follows past c start) nf nb nl nr
  where
    start : Follows [] (new zero upright id)
    start = record {
      w_down = refl;
      s_down = refl;
      a_down = refl;
      d_down = refl;
      w_first = refl;
      a_first = refl;
    }
