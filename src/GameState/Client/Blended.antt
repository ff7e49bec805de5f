-- ===== src/GameState/Client/Blended.antt =====
-- What `Interpolate` of client/client-game-state-queue.cpp leaves in the states.
use native.Mathlib.Decide.{ℕ_discrete}
use tec.Base.{
  ℕ, ◌+◌, ◌-◌, ◌%◌, ◌^◌, ◌≡◌, refl, sym, ap, ◌∙◌, true, false, Option, none, some, List, [], ◌∷◌,
  ◌==◌, if◌then◌else◌, arith, Bool-cases, Option-cases, inl, inr, or_else,
}
use tec.Base.Maps.{Map, Unique, find, insert, has, find-insert, is_some}
use tec.GameState.{GameState}
use tec.GameState.Client.{StateQueue}
use tec.GameState.Client.Interpolate.{
  Blend, Interpolated, insert_all, blend_one, blend_all, or_upright, blend_state, between,
  interpolate,
}

pub find-insert_all :
    {A : Type 0} (e : ℕ) (xs m : Map A)
    → Unique xs
    → find e (insert_all xs m) ≡ or_else (find e xs) (find e m)
unfolding insert_all find has
find-insert_all e [] m u = refl
find-insert_all e ((k, a) ∷ rest) m (fresh, u) =
    find-insert_all e rest (insert k a m) u ∙ ground (arith, fresh, find-insert e k a m)

-- What a loop that interpolates leaves under a key, by what the state of the server, the base state and
-- the interpolated state have there.
abbrev pub blended {ℓ} :
    {A : Type ℓ} → (Option A → A → A → A) → Option A → Option A → Option A → Option A
blended mix none base old = old
blended mix (some a) none old = some a
blended mix (some a) (some b) old = some (mix old b a)

find-none : {A : Type 0} (k : ℕ) (m : Map A) → has k m ≡ false → find k m ≡ none
unfolding has
find-none k m h = elim (Option-cases (find k m)) [
  | inl gone ↦ gone
  | inr (a, there) ↦ absurd (cc (h, ap is_some there))
]

find-blend_one :
    {A : Type 0} (mix : Option A → A → A → A) (e k : ℕ) (a : A) (b : Option A) (m : Map A)
    → find e (blend_one mix k a b m)
      ≡ (if k == e then blended mix (some a) b (find k m) else find e m)
unfolding blend_one
find-blend_one mix e k a none m = find-insert e k a m
find-blend_one mix e k a (some b) m = find-insert e k (mix (find k m) b a) m

find-blend_all :
    {A : Type 0} (mix : Option A → A → A → A) (e : ℕ) (base xs m : Map A)
    → Unique xs
    → find e (blend_all mix base xs m) ≡ blended mix (find e xs) (find e base) (find e m)
unfolding blend_all find has
find-blend_all mix e base [] m u = refl
find-blend_all mix e base ((k, a) ∷ rest) m (fresh, u) =
    find-blend_all mix e base rest (blend_one mix k a (find k base) m) u ∙ elim (ℕ_discrete k e) [
      | yes same ↦
          let gone : find e rest ≡ none = rw (sym same) (find-none k rest fresh) in
          rw (same, gone, find-blend_one mix e e a (find e base) m) (ground arith)
      | no other ↦ rw (find-blend_one mix e k a (find k base) m) (ground (arith, other))
    ]

module _ {X O V D L : Type 0} (blend : Blend X O V D L) (upright : O) where
  -- What `Interpolate` makes of the state that is shown, between the base state and the next one.
  pub record Between (percent : L) (base to_state old new : GameState X O V) (e : ℕ) : Type 0 where
    pub positions :
        find e new.positions
        ≡ blended
            (λ o b a. blend.lerp percent b a)
            (find e to_state.positions)
            (find e base.positions)
            (find e old.positions)
    pub velocities :
        find e new.velocities
        ≡ blended
            (λ o b a. blend.lerp_velocity percent b a)
            (find e to_state.velocities)
            (find e base.velocities)
            (find e old.velocities)
    pub orientations :
        find e new.orientations
        ≡ blended
            (λ o b a. blend.slerp percent (or_upright blend upright o) b a)
            (find e to_state.orientations)
            (find e base.orientations)
            (find e old.orientations)

  blend_state-Between :
      (percent : L) (base to_state old : GameState X O V) (e : ℕ)
      → Unique to_state.positions
      → Unique to_state.velocities
      → Unique to_state.orientations
      → Between percent base to_state old (blend_state blend upright percent base to_state old) e
  unfolding blend_state
  blend_state-Between percent base to_state old e up uv uo = record {
    positions = find-blend_all _ e base.positions to_state.positions old.positions up;
    velocities = find-blend_all _ e base.velocities to_state.velocities old.velocities uv;
    orientations = find-blend_all _ e base.orientations to_state.orientations old.orientations uo;
  }

  between-Between :
      (time : D) (to_state : GameState X O V) (q : StateQueue X O V) (e : ℕ)
      → Unique to_state.positions
      → Unique to_state.velocities
      → Unique to_state.orientations
      → let percent : L =
          blend.percent time ((to_state.state_id + (2 ^ 64 - q.base_state.state_id)) % 2 ^ 64) in
        let q' : StateQueue X O V = between blend upright time to_state q in
        (q' ≡ record q { interpolated_state = q'.interpolated_state })
        × (blend.positive percent ≡ false → q'.interpolated_state ≡ q.interpolated_state)
        × (blend.positive percent ≡ true
            → Between percent q.base_state to_state q.interpolated_state q'.interpolated_state e)
  unfolding between
  between-Between time to_state q e up uv uo =
      let percent : L =
        blend.percent time ((to_state.state_id + (2 ^ 64 - q.base_state.state_id)) % 2 ^ 64) in
      elim (Bool-cases (blend.positive percent)) [
        | inl some_time ↦ rw some_time (
          refl,
          λ no. absurd (cc no),
          λ h. blend_state-Between percent q.base_state to_state q.interpolated_state e up uv uo,
        )
        | inr no_time ↦ rw no_time (refl, λ h. refl, λ no. absurd (cc no))
      ]

module _ {X O V D L : Type 0} (blend : Blend X O V D L) (origin : X) (upright : O) (still : V)
    (dangling : ℕ) where
  interpolate-next :
      (delta : D) (i : Interpolated X O V D) (to_state : GameState X O V)
      (rest : List (GameState X O V))
      → i.queue.server_states ≡ to_state ∷ rest
      → blend.reached (blend.add i.interpolation_accumulator delta) ≡ false
      → (interpolate blend origin upright still dangling delta i).queue
        ≡ between blend upright (blend.add i.interpolation_accumulator delta) to_state i.queue
  unfolding interpolate
  interpolate-next delta i to_state rest next early = rw (next, early) refl

  -- Until one interpolation rate of time has been accumulated, only the state that is shown changes, and
  -- it only if the share of the time is above 0: every entity of the next state is then
  -- shown between the base state and the next one, in position, velocity and orientation, or as in
  -- the next one where the base state has nothing of it, and all that the next state lacks stays.
  pub interpolate-Between :
      (delta : D) (i : Interpolated X O V D) (to_state : GameState X O V)
      (rest : List (GameState X O V)) (e : ℕ)
      → i.queue.server_states ≡ to_state ∷ rest
      → blend.reached (blend.add i.interpolation_accumulator delta) ≡ false
      → Unique to_state.positions
      → Unique to_state.velocities
      → Unique to_state.orientations
      → let time : D = blend.add i.interpolation_accumulator delta in
        let percent : L =
          blend.percent time
            ((to_state.state_id + (2 ^ 64 - i.queue.base_state.state_id)) % 2 ^ 64) in
        let q : StateQueue X O V =
          (interpolate blend origin upright still dangling delta i).queue in
        (q ≡ record i.queue { interpolated_state = q.interpolated_state })
        × (blend.positive percent ≡ false → q.interpolated_state ≡ i.queue.interpolated_state)
        × (blend.positive percent ≡ true
            → Between blend upright percent i.queue.base_state to_state i.queue.interpolated_state
                q.interpolated_state e)
  interpolate-Between delta i to_state rest e next early up uv uo =
      rw (interpolate-next delta i to_state rest next early) (
        between-Between blend upright (blend.add i.interpolation_accumulator delta) to_state i.queue
          e up uv uo)
