-- ===== src/Users/SaveGame/Saved.antt =====
-- A save game that is saved and loaded again (server/save-game.cpp, server/user/user.cpp).
use tec.Base.{
  ◌≡◌, refl, ap, ◌∙◌, true, not, ◌||◌, Option, some, List, [], ◌∷◌, map, Bool-cases, Option-cases,
  inl, inr,
}
use tec.Components.{Vec3, Quat, Orientation, vec_out, vec_in, orientation_out, orientation_in}
use tec.Users.{User, load_users}
use tec.Users.Laws.{load_users-append}
use tec.Users.SaveGame.{
  EntityData, SaveMessage, Files, SaveGame, update_entity_data, user_out, save_users, component_in,
  components_in, user_in, load_world, load, write_save, save_game,
}

module _ {F : Type 0} (found : User (EntityData F) → Option (Vec3 F) × Option (Orientation F))
    (zero : F) (real_part : F → F → F → F) (normalize : Quat F → Quat F)
    (fresh : EntityData F) where
  -- A user as it comes back: with the position and the orientation of its entity, but with the rotation of
  -- a new user.
  abbrev pub kept : User (EntityData F) → User (EntityData F)
  kept u =
      let u' : User (EntityData F) = update_entity_data found u in
      record u' {
        entity_data = record u'.entity_data {
          orientation = record u'.entity_data.orientation { rotation = fresh.orientation.rotation };
        };
      }

  user_in-user_out :
      (u : User (EntityData F)) → user_in zero real_part normalize fresh (user_out found u) ≡ kept u
  unfolding user_in user_out components_in component_in vec_in vec_out orientation_in
      orientation_out update_entity_data
  user_in-user_out u = refl

  users_back :
      (us : List (User (EntityData F)))
      → map (user_in zero real_part normalize fresh) (save_users found us) ≡ map kept us
  unfolding save_users
  users_back [] = refl
  users_back (u ∷ us) = rw (user_in-user_out u, users_back us) refl

module _ {F P T S W E : Type 0} (files : Files F P T S W E) where
  -- What `Save` has done where it returned true.
  write_save-true :
      (m : SaveMessage F W) (filepath : P) (disk disk' : S)
      → write_save files m filepath disk ≡ (disk', true)
      → (text : T) × (files.print m ≡ some text) × (files.write filepath text disk ≡ some disk')
  unfolding write_save
  write_save-true m filepath disk disk' done = elim (Option-cases (files.print m)) [
    | inl gone ↦ absurd (cc (ap (λ r. r.1) (rw (write_save, gone) at done)))
    | inr (text, printed) ↦ elim (Option-cases (files.write filepath text disk)) [
      | inl gone ↦ absurd (cc (ap (λ r. r.1) (rw (write_save, printed, gone) at done)))
      | inr (d, wrote) ↦
          (text, printed, wrote ∙ ap (λ r. some r.0) (rw (write_save, printed, wrote) at done))
    ]
  ]

module _ {F P T S W E : Type 0} (files : Files F P T S W E)
    (found : User (EntityData F) → Option (Vec3 F) × Option (Orientation F)) (zero : F)
    (real_part : F → F → F → F) (normalize : Quat F → Quat F) (fresh : EntityData F) where
  load-parsed :
      (filepath : P) (disk : S) (t : SaveGame F P W) (m : SaveMessage F W)
      → files.exists disk filepath ≡ true
      → files.parse (files.read disk filepath) t.save ≡ (m, true)
      → load files found zero real_part normalize fresh filepath disk t ≡ (
        record {
          save = m;
          filepath = filepath;
          user_list = load_users (map (user_in zero real_part normalize fresh) m.users) t.user_list;
        },
        (load_world files disk m.entity_file_list, true),
      )
  unfolding load
  load-parsed filepath disk t m there parsed = rw (there, parsed) refl

  -- Where `Save` has returned true, provided that files keep what is written and JSON reads back: a save
  -- game without users that loads the file returns true and has the users that were saved, with
  -- their names, the positions of their entities and the orientations, but with the rotation of a
  -- new user; and it creates the same entities of the world.
  pub load-save_game :
      (filepath : P) (disk disk' : S) (s s' t : SaveGame F P W)
      → ((m old : SaveMessage F W) (text : T)
          → files.print m ≡ some text
          → files.parse text old ≡ (m, true))
      → ((path : P) (text : T) (before after : S)
          → files.write path text before ≡ some after
          → (files.read after path ≡ text) × (files.exists after path ≡ true))
      → save_game files found zero real_part normalize fresh filepath disk s ≡ (s', (disk', true))
      → t.user_list ≡ []
      → let (t', (entities, ok)) =
          load files found zero real_part normalize fresh filepath disk' t in
        (ok ≡ true)
        × (t'.user_list ≡ map (kept found zero real_part normalize fresh) s.user_list)
        × (entities ≡ load_world files disk' s.save.entity_file_list)
  unfolding save_game
  load-save_game filepath disk disk' s s' t reads_back keeps saved nobody =
      elim (Bool-cases (not (files.is_valid filepath) || not (files.exists disk filepath))) [
        | inl refused ↦ absurd (cc (ap (λ r. r.1.1) (rw refused at saved)))
        | inr usable ↦
            let m : SaveMessage F W = record s.save { users = save_users found s.user_list } in
            let (text, printed, wrote) =
              write_save-true files m filepath disk disk' (ap (λ r. r.1) (rw usable at saved)) in
            let (same, there) = keeps filepath text disk disk' wrote in
            rw (load-parsed filepath disk' t m there (rw same (reads_back m t.save text printed))) (
              refl,
              load_users-append _ t.user_list
                  ∙ rw nobody (users_back found zero real_part normalize fresh s.user_list),
              refl,
            )
      ]
