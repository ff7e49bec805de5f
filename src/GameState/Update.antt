-- ===== src/GameState/Update.antt =====
-- What a state update carries from one `GameState` to another (common/game-state.hpp,
-- server/client-connection.cpp).
use tec.Base.{
  or_else, ℕ, ◌≡◌, refl, ap, ◌∙◌, Bool, true, false, Option, none, some, [], ◌∷◌, ◌++◌, ◌==◌,
  if◌then◌else◌, arith, Bool-cases, inl, inr,
}
use tec.Base.Maps.{Map, find, insert, has, is_some, Unique, find-insert}
use tec.Components.{
  Vec3, Quat, Orientation, Velocity, VecMessage, QuatMessage, VelocityMessage, vec_out, vec_in,
  velocity_out, velocity_in, orientation_out, orientation_in,
}
use tec.GameState.{
  GameState, position, new, add_component, add_components, add_entities, take_in,
  orientation_component, velocity_component, Wire, component_wire, entity_out, entities_out,
  prepare_update, insert_found,
}

-- What a map gives for the keys of another one.
abbrev pub where_has : {A B : Type 0} → ℕ → Map B → Option A → Option A
where_has k ps a = if has k ps then a else none

or_else-if :
    {A : Type 0} (k id : ℕ) (o : Option A) (m : Map A)
    → find k (insert_found id o m) ≡ (if id == k then or_else o (find k m) else find k m)
or_else-if k id none m = elim (Bool-cases (id == k)) [
  | inl same ↦ rw same refl
  | inr other ↦ rw other refl
]
or_else-if k id (some a) m = find-insert k id a m

has→find : {A : Type 0} (k : ℕ) (m : Map A) → has k m ≡ false → find k m ≡ none
unfolding has
has→find k m h = missing (find k m) h
  where
    missing : {A : Type 0} (o : Option A) → is_some o ≡ false → o ≡ none
    missing none h = refl
    missing (some a) h = cc h

-- What is there, changed.
abbrev pub map_found : {A B : Type 0} → (A → B) → Option A → Option B
map_found f none = none
map_found f (some a) = some (f a)

positions_step :
    {A : Type 0} (f : A → A) (k id : ℕ) (p : A) (ps m : Map A)
    → has id ps ≡ false
    → or_else (map_found f (find k ps)) (find k (insert id (f p) m))
      ≡ or_else (map_found f (if id == k then some p else find k ps)) (find k m)
positions_step f k id p ps m h = elim (Bool-cases (id == k)) [
  | inl same ↦
      let e : k ≡ id = ground (arith, same) in
      let gone : find k ps ≡ none = ap (λ i. find i ps) e ∙ has→find id ps h in
      rw (find-insert k id (f p) m, gone, same) refl
  | inr other ↦ rw (find-insert k id (f p) m, other) refl
]

absorb :
    {A : Type 0} (b : Bool) (x y : Option A)
    → or_else (if b then x else none) (or_else x y) ≡ or_else x y
absorb true none y = refl
absorb true (some a) y = refl
absorb false x y = refl

pub parts_step :
    {A B : Type 0} (k id : ℕ) (p : B) (ps : Map B) (source : ℕ → Option A) (m : Map A)
    → or_else (where_has k ps (source k)) (find k (insert_found id (source id) m))
      ≡ or_else
          (if is_some (if id == k then some p else find k ps) then source k else none)
          (find k m)
unfolding has
parts_step k id p ps source m = elim (Bool-cases (id == k)) [
  | inl same ↦
      let e : id ≡ k = ground (arith, same) in
      rw (or_else-if k id (source id) m, same)
        (ap (λ i. or_else (where_has k ps (source k)) (or_else (source i) (find k m))) e
          ∙ absorb (has k ps) (source k) (find k m))
  | inr other ↦ rw (or_else-if k id (source id) m, other) refl
]

-- The state once the components of an entity were taken in.
module _ {P O V A B C : Type 0} (wire : Wire P O V A B C) (id : ℕ) (p : P)
    (t : GameState P O V) where
  components_in :
      (o : Option O) (v : Option V)
      → add_components wire id
          (position (wire.write_position p)
            ∷ (orientation_component wire o ++ velocity_component wire v))
          t
        ≡ record t {
          positions = insert id (wire.read_position (wire.write_position p)) t.positions;
          orientations =
              insert_found id
                (map_found (λ x. wire.read_orientation (wire.write_orientation x)) o)
                t.orientations;
          velocities =
              insert_found id
                (map_found (λ x. wire.read_velocity (wire.write_velocity x)) v)
                t.velocities;
        }
  unfolding add_components add_component
  components_in none none = refl
  components_in (some o) none = refl
  components_in none (some v) = refl
  components_in (some o) (some v) = refl

module _ {P O V A B C : Type 0} (wire : Wire P O V A B C) (s : GameState P O V) where
  -- The values of an entity, once they were written and read.
  abbrev position_over : Option P → Option P
  position_over o = map_found (λ p. wire.read_position (wire.write_position p)) o

  abbrev orientation_over : ℕ → Option O
  orientation_over k =
      map_found (λ o. wire.read_orientation (wire.write_orientation o)) (find k s.orientations)

  abbrev velocity_over : ℕ → Option V
  velocity_over k =
      map_found (λ v. wire.read_velocity (wire.write_velocity v)) (find k s.velocities)

  -- What the entities of a list of positions leave of a state.
  entities_in :
      (k : ℕ) (ps : Map P) (t : GameState P O V)
      → Unique ps
      → let t' : GameState P O V = add_entities wire (entities_out wire s ps) t in
        (find k t'.positions ≡ or_else (position_over (find k ps)) (find k t.positions))
        × (find k t'.orientations
            ≡ or_else (where_has k ps (orientation_over k)) (find k t.orientations))
        × (find k t'.velocities ≡ or_else (where_has k ps (velocity_over k)) (find k t.velocities))
        × (t'.state_id ≡ t.state_id)
        × (t'.command_id ≡ t.command_id)
        × (t'.timestamp ≡ t.timestamp)
  unfolding add_entities entities_out find has
  entities_in k [] t u = (refl, refl, refl, refl, refl, refl)
  entities_in k ((id, p) ∷ ps) t u =
      let one = components_in wire id p t (find id s.orientations) (find id s.velocities) in
      let (a, b, c, d, e, f) =
        entities_in k ps (add_components wire id (entity_out wire s id p).components t) u.1 in
      (
        a
            ∙ ap (λ r. or_else (position_over (find k ps)) (find k r.positions)) one
            ∙ positions_step (λ p. wire.read_position (wire.write_position p)) k id p ps t.positions
                u.0,
        b
            ∙ ap (λ r. or_else (where_has k ps (orientation_over k)) (find k r.orientations)) one
            ∙ parts_step k id p ps orientation_over t.orientations,
        c
            ∙ ap (λ r. or_else (where_has k ps (velocity_over k)) (find k r.velocities)) one
            ∙ parts_step k id p ps velocity_over t.velocities,
        d ∙ ap (λ r. r.state_id) one,
        e ∙ ap (λ r. r.command_id) one,
        f ∙ ap (λ r. r.timestamp) one,
      )

-- A value that is written and read.
module _ {F : Type 0} (zero : F) (real_part : F → F → F → F) (normalize : Quat F → Quat F)
    (origin : Vec3 F) (upright : Orientation F) (still : Velocity F) where
  abbrev wired :
      Wire (Vec3 F) (Orientation F) (Velocity F) (VecMessage F) (QuatMessage F) (VelocityMessage F)
  wired = component_wire zero real_part normalize origin upright still

  position_over-same : (o : Option (Vec3 F)) → position_over wired new o ≡ o
  unfolding component_wire vec_in vec_out
  position_over-same none = refl
  position_over-same (some p) = refl

  -- What a client that takes a state update into a new state has then, if the server made it of its
  -- changes for this client: their positions, and the orientations and velocities of the entities
  -- with a position, no others; and the ids and the time that the server gave. Of an orientation the
  -- value is that of the server, but the rotation is that of a new orientation.
  pub take_in-prepare_update :
      (k command_id state_id timestamp : ℕ)
      (changes : GameState (Vec3 F) (Orientation F) (Velocity F))
      → Unique changes.positions
      → let wire = component_wire zero real_part normalize origin upright still in
        let t : GameState (Vec3 F) (Orientation F) (Velocity F) =
          take_in wire (prepare_update wire command_id state_id timestamp changes) new in
        (find k t.positions ≡ find k changes.positions)
        × (find k t.orientations
            ≡ where_has k changes.positions (
                map_found
                  (λ o. record { value = o.value; rotation = upright.rotation })
                  (find k changes.orientations)))
        × (find k t.velocities ≡ where_has k changes.positions (find k changes.velocities))
        × (t.state_id ≡ state_id)
        × (t.command_id ≡ command_id)
        × (t.timestamp ≡ timestamp)
  unfolding take_in prepare_update new find component_wire vec_in vec_out velocity_in velocity_out
      orientation_in orientation_out
  take_in-prepare_update k command_id state_id timestamp changes u =
      let (a, b, c, d, e, f) =
        entities_in wired changes k changes.positions
          (record new { state_id = state_id; command_id = command_id; timestamp = timestamp }) u in
      (
        a
            ∙ or_else_none (position_over wired changes (find k changes.positions))
            ∙ position_over-same (find k changes.positions),
        b ∙ or_else_none (where_has k changes.positions (orientation_over wired changes k)),
        c
            ∙ or_else_none (where_has k changes.positions (velocity_over wired changes k))
            ∙ ap (where_has k changes.positions) (map_found-same (find k changes.velocities)),
        d,
        e,
        f,
      )
    where
      or_else_none : {A : Type 0} (o : Option A) → or_else o none ≡ o
      or_else_none none = refl
      or_else_none (some a) = refl

      map_found-same :
          (o : Option (Velocity F)) → map_found (λ v. velocity_in (velocity_out v) still) o ≡ o
      map_found-same none = refl
      map_found-same (some v) = refl
