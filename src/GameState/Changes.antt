-- ===== src/GameState/Changes.antt =====
-- What `UpdateGameState` of server/client-connection.cpp leaves of the changes for a client.
use tec.Base.{or_else, ℕ, ◌≡◌, refl, ap, ◌∙◌, Option, none, some, [], ◌∷◌, if◌then◌else◌}
use tec.Base.Maps.{Map, find, has, is_some}
use tec.GameState.{GameState, update_changes, update_game_state, insert_found}
use tec.GameState.Update.{where_has, parts_step}

module _ {P O V : Type 0} (k : ℕ) (full : GameState P O V) where
  changes_lem :
      (ps : Map P) (s : GameState P O V)
      → (find k (update_changes full ps s).positions
          ≡ or_else (where_has k ps (find k full.positions)) (find k s.positions))
        × (find k (update_changes full ps s).orientations
            ≡ or_else (where_has k ps (find k full.orientations)) (find k s.orientations))
        × (find k (update_changes full ps s).velocities
            ≡ or_else (where_has k ps (find k full.velocities)) (find k s.velocities))
  unfolding update_changes find has
  changes_lem [] s = (refl, refl, refl)
  changes_lem ((id, p) ∷ ps) s =
      let (a, b, c) = changes_lem ps (record s {
        positions = insert_found id (find id full.positions) s.positions;
        orientations = insert_found id (find id full.orientations) s.orientations;
        velocities = insert_found id (find id full.velocities) s.velocities;
      }) in
      (
        a ∙ parts_step k id p ps (λ i. find i full.positions) s.positions,
        b ∙ parts_step k id p ps (λ i. find i full.orientations) s.orientations,
        c ∙ parts_step k id p ps (λ i. find i full.velocities) s.velocities,
      )

-- `UpdateGameState` takes over into the changes for a client every position of the full state, and the
-- orientation and velocity of every entity with a position there; all else stays as it was.
pub update_game_state-find :
    {P O V : Type 0} (k : ℕ) (full s : GameState P O V)
    → (find k (update_game_state full s).positions
        ≡ or_else (find k full.positions) (find k s.positions))
      × (find k (update_game_state full s).orientations
          ≡ or_else (where_has k full.positions (find k full.orientations)) (find k s.orientations))
      × (find k (update_game_state full s).velocities
          ≡ or_else (where_has k full.positions (find k full.velocities)) (find k s.velocities))
unfolding update_game_state has find
update_game_state-find k full s =
    let (a, b, c) = changes_lem k full full.positions s in
    (a ∙ ap (λ o. or_else o (find k s.positions)) (itself (find k full.positions)), b, c)
  where
    itself : {A : Type 0} (o : Option A) → (if is_some o then o else none) ≡ o
    itself none = refl
    itself (some a) = refl
