-- ===== src/Simulation/Results.antt =====
-- The state that a frame hands to the client, after the physics (common/simulation.cpp).
use native.Mathlib.Decide.{ℕ_discrete}
use tec.Base.{
  ℕ, ◌≡◌, refl, ◌∙◌, Bool, false, ◌&&◌, ◌||◌, Option, none, some, List, [], ◌∷◌, ◌==◌,
  if◌then◌else◌, arith, or_else,
}
use tec.Base.Maps.{Map, find, insert, has, find-insert}
use tec.GameState.{GameState}
use tec.Simulation.{take_result, take_results, simulate_physics}

abbrev pub member : ℕ → List ℕ → Bool
member id [] = false
member id (j ∷ ids) = (j == id) || member id ids

insert-found :
    {V : Type 0} (e id : ℕ) (o : Option V) (m : Map V)
    → let m' : Map V = elim o [ none ↦ m | some v ↦ insert id v m ] in
      find e m' ≡ (if id == e then or_else o (find e m) else find e m)
insert-found e id none m = ground arith
insert-found e id (some v) m = ground (arith, find-insert e id v m)

module _ {P O V : Type 0} (get_position : ℕ → P) (get_orientation : ℕ → O) where
  taken-positions :
      (e : ℕ) (interpolated : GameState P O V) (ids : List ℕ) (client : GameState P O V)
      → find e (take_results get_position get_orientation interpolated ids client).positions ≡ (
          if member e ids && has e interpolated.positions
          then some (get_position e)
          else find e client.positions)
  unfolding take_results take_result
  taken-positions e interpolated [] client = refl
  taken-positions e interpolated (id ∷ ids) client =
      taken-positions e interpolated ids
        (take_result get_position get_orientation interpolated id client)
      ∙ ground (arith, find-insert e id (get_position id) client.positions)

  taken-orientations :
      (e : ℕ) (interpolated : GameState P O V) (ids : List ℕ) (client : GameState P O V)
      → find e (take_results get_position get_orientation interpolated ids client).orientations ≡ (
          if member e ids && has e interpolated.orientations
          then some (get_orientation e)
          else find e client.orientations)
  unfolding take_results take_result
  taken-orientations e interpolated [] client = refl
  taken-orientations e interpolated (id ∷ ids) client =
      taken-orientations e interpolated ids
        (take_result get_position get_orientation interpolated id client)
      ∙ ground (arith, find-insert e id (get_orientation id) client.orientations)

  taken-velocities :
      (e : ℕ) (interpolated : GameState P O V) (ids : List ℕ) (client : GameState P O V)
      → find e (take_results get_position get_orientation interpolated ids client).velocities ≡ (
          if member e ids
          then or_else (find e interpolated.velocities) (find e client.velocities)
          else find e client.velocities)
  unfolding take_results take_result
  taken-velocities e interpolated [] client = refl
  taken-velocities e interpolated (id ∷ ids) client =
      taken-velocities e interpolated ids
        (take_result get_position get_orientation interpolated id client)
      ∙ (rw (insert-found e id (find id interpolated.velocities) client.velocities)
          (elim (ℕ_discrete id e) [
            | yes same ↦ rw same (ground arith)
            | no other ↦ ground (arith, other)
          ]))

  taken-ids :
      (interpolated : GameState P O V) (ids : List ℕ) (client : GameState P O V)
      → let client' : GameState P O V =
          take_results get_position get_orientation interpolated ids client in
        (client'.state_id ≡ client.state_id)
        × (client'.command_id ≡ client.command_id)
        × (client'.timestamp ≡ client.timestamp)
  unfolding take_results take_result
  taken-ids interpolated [] client = (refl, refl, refl)
  taken-ids interpolated (id ∷ ids) client =
      taken-ids interpolated ids (take_result get_position get_orientation interpolated id client)

  -- Of an entity that the physics moved and that has a position, or an orientation, in the state that
  -- the physics leaves, the client is given the physics' own one, and the velocity is that of the state
  -- that the physics leaves, where it has one. Everything else, the ids and the time of the state too, is
  -- as it was before the physics.
  pub simulate_physics-find :
      (e : ℕ) (physics : GameState P O V → List ℕ × GameState P O V) (state : GameState P O V)
      → let (ids, interpolated) = physics state in
        let client : GameState P O V =
          simulate_physics get_position get_orientation physics state in
        (find e client.positions ≡ (
          if member e ids && has e interpolated.positions
          then some (get_position e)
          else find e state.positions))
        × (find e client.orientations ≡ (
            if member e ids && has e interpolated.orientations
            then some (get_orientation e)
            else find e state.orientations))
        × (find e client.velocities ≡ (
            if member e ids
            then or_else (find e interpolated.velocities) (find e state.velocities)
            else find e state.velocities))
        × (client.state_id ≡ state.state_id)
        × (client.command_id ≡ state.command_id)
        × (client.timestamp ≡ state.timestamp)
  unfolding simulate_physics
  simulate_physics-find e physics state =
      let (ids, interpolated) = physics state in
      let (state_id, command_id, timestamp) = taken-ids interpolated ids state in
      (
        taken-positions e interpolated ids state,
        taken-orientations e interpolated ids state,
        taken-velocities e interpolated ids state,
        state_id,
        command_id,
        timestamp,
      )
