-- ===== src/GameState/Client/Advanced.antt =====
-- How `Interpolate` of client/client-game-state-queue.cpp goes on to the next state.
use tec.Base.{
  ℕ, ◌≡◌, refl, ap, ◌∙◌, true, not, ◌&&◌, Option, none, some, List, ◌∷◌, length, ◌==◌,
  if◌then◌else◌, Bool-cases, Option-cases, inl, inr, or_else,
}
use tec.Base.Maps.{Unique, find, find-insert}
use tec.GameState.{GameState}
use tec.GameState.Client.{StateQueue, entry}
use tec.GameState.Client.Interpolate.{
  Blend, Interpolated, insert_all, copy_state, copy_prediction, copy_found, rebase, advance,
  interpolate,
}
use tec.GameState.Client.Blended.{find-insert_all}
use tec.GameState.Client.Dropped.{Dropped, drop_states-front}

module _ {X O V : Type 0} (origin : X) (still : V) where
  -- What a state has of an entity once the next state was copied into it, and the prediction for the
  -- client's entity over that.
  abbrev pub predicted {ℓ} :
      {A : Type ℓ} → ℕ → Option (GameState X O V) → (GameState X O V → A) → ℕ → Option A → Option A
  predicted client_id none value e copied = copied
  predicted client_id (some p) value e copied =
      if not (client_id == 0) && client_id == e then some (value p) else copied

  pub record Rebased (q : StateQueue X O V) (to_state old new : GameState X O V) (e : ℕ)
      : Type 0 where
    pub positions :
        find e new.positions
        ≡ predicted q.client_id
            (find q.command_id q.predictions)
            (λ p. (entry q.client_id origin p.positions).0)
            e
            (or_else (find e to_state.positions) (find e old.positions))
    pub velocities :
        find e new.velocities
        ≡ predicted q.client_id
            (find q.command_id q.predictions)
            (λ p. (entry q.client_id still p.velocities).0)
            e
            (or_else (find e to_state.velocities) (find e old.velocities))
    pub orientations :
        find e new.orientations ≡ or_else (find e to_state.orientations) (find e old.orientations)

  -- What `rebase` makes of the base state and of the state that is shown.
  abbrev rebased :
      ℕ → Option (GameState X O V) → GameState X O V → GameState X O V → GameState X O V
  rebased client_id none to_state s = copy_state to_state s
  rebased client_id (some p) to_state s =
      if client_id == 0
      then copy_state to_state s
      else copy_prediction origin still client_id p (copy_state to_state s)

  rebase-rebased :
      (to_state : GameState X O V) (q : StateQueue X O V)
      → let q' : StateQueue X O V = rebase origin still to_state q in
        let p : Option (GameState X O V) = find q.command_id q.predictions in
        (q'.base_state ≡ rebased q.client_id p to_state q.base_state)
        × (q'.interpolated_state ≡ rebased q.client_id p to_state q.interpolated_state)
        × (q'.server_states ≡ q.server_states)
  unfolding rebase copy_found
  rebase-rebased to_state q = elim (Bool-cases (q.client_id == 0)) [
    | inl nobody ↦ elim (Option-cases (find q.command_id q.predictions)) [
      | inl gone ↦ rw (nobody, gone) (refl, refl, refl)
      | inr (p, there) ↦ rw (nobody, there) (rw nobody refl, rw nobody refl, refl)
    ]
    | inr somebody ↦ elim (Option-cases (find q.command_id q.predictions)) [
      | inl gone ↦ rw (somebody, gone) (refl, refl, refl)
      | inr (p, there) ↦ rw (somebody, there) (rw somebody refl, rw somebody refl, refl)
    ]
  ]

  rebased-positions :
      (client_id : ℕ) (p : Option (GameState X O V)) (to_state s : GameState X O V) (e : ℕ)
      → Unique to_state.positions
      → find e (rebased client_id p to_state s).positions
        ≡ predicted client_id p
            (λ t. (entry client_id origin t.positions).0)
            e
            (or_else (find e to_state.positions) (find e s.positions))
  unfolding copy_state copy_prediction
  rebased-positions client_id none to_state s e u =
      find-insert_all e to_state.positions s.positions u
  rebased-positions client_id (some p) to_state s e u = elim (Bool-cases (client_id == 0)) [
    | inl nobody ↦ rw nobody (find-insert_all e to_state.positions s.positions u)
    | inr somebody ↦
        rw
          (
            somebody,
            find-insert e client_id (entry client_id origin p.positions).0
                (insert_all to_state.positions s.positions),
            find-insert_all e to_state.positions s.positions u,
          )
          refl
  ]

  rebased-velocities :
      (client_id : ℕ) (p : Option (GameState X O V)) (to_state s : GameState X O V) (e : ℕ)
      → Unique to_state.velocities
      → find e (rebased client_id p to_state s).velocities
        ≡ predicted client_id p
            (λ t. (entry client_id still t.velocities).0)
            e
            (or_else (find e to_state.velocities) (find e s.velocities))
  unfolding copy_state copy_prediction
  rebased-velocities client_id none to_state s e u =
      find-insert_all e to_state.velocities s.velocities u
  rebased-velocities client_id (some p) to_state s e u = elim (Bool-cases (client_id == 0)) [
    | inl nobody ↦ rw nobody (find-insert_all e to_state.velocities s.velocities u)
    | inr somebody ↦
        rw
          (
            somebody,
            find-insert e client_id (entry client_id still p.velocities).0
                (insert_all to_state.velocities s.velocities),
            find-insert_all e to_state.velocities s.velocities u,
          )
          refl
  ]

  rebased-orientations :
      (client_id : ℕ) (p : Option (GameState X O V)) (to_state s : GameState X O V) (e : ℕ)
      → Unique to_state.orientations
      → find e (rebased client_id p to_state s).orientations
        ≡ or_else (find e to_state.orientations) (find e s.orientations)
  unfolding copy_state copy_prediction
  rebased-orientations client_id none to_state s e u =
      find-insert_all e to_state.orientations s.orientations u
  rebased-orientations client_id (some p) to_state s e u = elim (Bool-cases (client_id == 0)) [
    | inl nobody ↦ rw nobody (find-insert_all e to_state.orientations s.orientations u)
    | inr somebody ↦ rw somebody (find-insert_all e to_state.orientations s.orientations u)
  ]

  rebased-Rebased :
      (q : StateQueue X O V) (to_state s : GameState X O V) (e : ℕ)
      → Unique to_state.positions
      → Unique to_state.velocities
      → Unique to_state.orientations
      → Rebased q to_state s (rebased q.client_id (find q.command_id q.predictions) to_state s) e
  rebased-Rebased q to_state s e up uv uo = record {
    positions = rebased-positions q.client_id _ to_state s e up;
    velocities = rebased-velocities q.client_id _ to_state s e uv;
    orientations = rebased-orientations q.client_id _ to_state s e uo;
  }

  -- The id of a state is of no account.
  Rebased-id :
      (q : StateQueue X O V) (to_state s new : GameState X O V) (e id : ℕ)
      → new ≡ rebased q.client_id (find q.command_id q.predictions) to_state s
      → Unique to_state.positions
      → Unique to_state.velocities
      → Unique to_state.orientations
      → Rebased q to_state s (record new { state_id = id }) e
  Rebased-id q to_state s new e id same up uv uo =
      let r = rebased-Rebased q to_state s e up uv uo in
      record {
        positions = ap (λ t. find e t.positions) same ∙ r.positions;
        velocities = ap (λ t. find e t.velocities) same ∙ r.velocities;
        orientations = ap (λ t. find e t.orientations) same ∙ r.orientations;
      }

module _ {X O V D L : Type 0} (blend : Blend X O V D L) (origin : X) (still : V)
    (dangling : ℕ) where
  advance-Rebased :
      (time : D) (i : Interpolated X O V D) (to_state : GameState X O V)
      (rest : List (GameState X O V)) (e : ℕ)
      → i.queue.server_states ≡ to_state ∷ rest
      → blend.reached time ≡ true
      → Unique to_state.positions
      → Unique to_state.velocities
      → Unique to_state.orientations
      → let i' : Interpolated X O V D = advance blend origin still dangling time to_state i in
        Rebased origin still i.queue to_state i.queue.base_state i'.queue.base_state e
        × Rebased origin still i.queue to_state i.queue.interpolated_state
            i'.queue.interpolated_state e
        × Dropped blend rest i'.queue.server_states
            (blend.take_rate time)
            i'.interpolation_accumulator
  unfolding advance
  advance-Rebased time i to_state rest e next due up uv uo =
      let (base, shown, states) = rebase-rebased origin still to_state i.queue in
      let q : StateQueue X O V = rebase origin still to_state i.queue in
      let dropped =
        drop_states-front blend dangling to_state rest q.server_states to_state.state_id
          q.base_state.state_id time (states ∙ next) due in
      (
        Rebased-id origin still i.queue to_state i.queue.base_state q.base_state e _ base up uv uo,
        Rebased-id origin still i.queue to_state i.queue.interpolated_state q.interpolated_state e
            q.interpolated_state.state_id shown up uv uo,
        dropped,
      )

module _ {X O V D L : Type 0} (blend : Blend X O V D L) (origin : X) (upright : O) (still : V)
    (dangling : ℕ) where
  interpolate-advance :
      (delta : D) (i : Interpolated X O V D) (to_state : GameState X O V)
      (rest : List (GameState X O V))
      → i.queue.server_states ≡ to_state ∷ rest
      → blend.reached (blend.add i.interpolation_accumulator delta) ≡ true
      → interpolate blend origin upright still dangling delta i
        ≡ advance blend origin still dangling
            (blend.add i.interpolation_accumulator delta)
            to_state
            (record i {
              server_state_count = length i.queue.server_states;
              interpolation_accumulator = blend.add i.interpolation_accumulator delta;
              last_state_time = to_state.timestamp;
            })
  unfolding interpolate
  interpolate-advance delta i to_state rest next due = rw (next, due) refl

  -- Once an interpolation rate of time has been accumulated, the base state and the state that is shown
  -- both take over what the next state has, and what they have besides stays; for the client's
  -- entity a prediction for the current command, if there is one, gives position and velocity
  -- instead. The next state is dropped for one rate of the time, and then one state behind it after
  -- another, while there is a rate of time for it, which is taken off; no state or less than a
  -- rate of time is left.
  pub interpolate-Rebased :
      (delta : D) (i : Interpolated X O V D) (to_state : GameState X O V)
      (rest : List (GameState X O V)) (e : ℕ)
      → i.queue.server_states ≡ to_state ∷ rest
      → blend.reached (blend.add i.interpolation_accumulator delta) ≡ true
      → Unique to_state.positions
      → Unique to_state.velocities
      → Unique to_state.orientations
      → let i' : Interpolated X O V D = interpolate blend origin upright still dangling delta i in
        Rebased origin still i.queue to_state i.queue.base_state i'.queue.base_state e
        × Rebased origin still i.queue to_state i.queue.interpolated_state
            i'.queue.interpolated_state e
        × Dropped blend rest i'.queue.server_states
            (blend.take_rate (blend.add i.interpolation_accumulator delta))
            i'.interpolation_accumulator
  interpolate-Rebased delta i to_state rest e next due up uv uo =
      rw (interpolate-advance delta i to_state rest next due) (
        advance-Rebased blend origin still dangling (blend.add i.interpolation_accumulator delta)
          (record i {
            server_state_count = length i.queue.server_states;
            interpolation_accumulator = blend.add i.interpolation_accumulator delta;
            last_state_time = to_state.timestamp;
          })
          to_state rest e next due up uv uo)
