-- ===== src/Simulation/Routing.antt =====
-- To whom the commands of the clients go (common/simulation.cpp).
use tec.Base.{
  ℕ, ◌%◌, ◌^◌, ◌≡◌, refl, ap, ◌∙◌, List, [], ◌∷◌, ◌==◌, if◌then◌else◌, Bool-cases, inl, inr,
}
use tec.Controller.{EventList}
use tec.Simulation.{Controls, Simulation, process, each_controller, command, on_client_commands}

module _ {C M F S : Type 0} (controls : Controls C M (EventList F) S) (command_id : M → ℕ) where
  -- Those commands of a queue that name an entity, by the lowest 32 bits of its id.
  abbrev pub own : ℕ → List M → List M
  own id [] = []
  own id (m ∷ ms) = if id % 2 ^ 32 == command_id m then m ∷ own id ms else own id ms

  abbrev pub apply_all : List M → C → C
  apply_all [] c = c
  apply_all (m ∷ ms) c = apply_all ms (controls.apply_client_commands m c)

  abbrev pub obey : List M → C → C
  obey ms c = apply_all (own (controls.entity_id c) ms) c

  obey-command :
      (m : M) (ms : List M) (c : C) → obey ms (command controls command_id m c) ≡ obey (m ∷ ms) c
  unfolding command
  obey-command m ms c = elim (Bool-cases (controls.entity_id c % 2 ^ 32 == command_id m)) [
    | inl mine ↦ rw (mine, controls.same_entity m c) refl
    | inr other ↦ rw other refl
  ]

  each_controller-obey :
      (m : M) (ms : List M) (cs : List (ℕ × C))
      → each_controller (obey ms) (each_controller (command controls command_id m) cs)
        ≡ each_controller (obey (m ∷ ms)) cs
  unfolding each_controller
  each_controller-obey m ms [] = refl
  each_controller-obey m ms ((p, c) ∷ cs) =
      rw (obey-command m ms c, each_controller-obey m ms cs) refl

  each_controller-nil : (cs : List (ℕ × C)) → each_controller (obey []) cs ≡ cs
  unfolding each_controller
  each_controller-nil [] = refl
  each_controller-nil ((p, c) ∷ cs) = ap (λ rest. (p, c) ∷ rest) (each_controller-nil cs)

  -- Of a queue of client commands each controller is given those that name its entity by the lowest 32
  -- bits of the entity's id, in their order, and no others; no controller is lost, and none is
  -- moved to another place.
  pub process-on_client_commands :
      (ms : List M) (s : Simulation C F)
      → (process (on_client_commands controls command_id) ms s).controllers
        ≡ each_controller (obey ms) s.controllers
  unfolding process on_client_commands
  process-on_client_commands [] s = rw (each_controller-nil s.controllers) refl
  process-on_client_commands (m ∷ ms) s =
      process-on_client_commands ms (on_client_commands controls command_id m s)
      ∙ each_controller-obey m ms s.controllers
