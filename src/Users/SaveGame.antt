-- ===== src/Users/SaveGame.antt =====
-- `SaveGame` of server/save-game.cpp, with `User::In`, `Out` and `UpdateEntityData` of
-- server/user/user.cpp. Paths, texts, files and the conversion between messages and JSON are
-- parameters, and so is the message of the world but for the names of its files.
pub mod Saved
mod Tests
use tec.Base.{
  ℕ, Bool, true, false, not, ◌&&◌, ◌||◌, Option, none, some, List, [], ◌∷◌, ◌++◌, map,
  if◌then◌else◌,
}
use tec.Components.{
  Vec3, Quat, Orientation, VecMessage, QuatMessage, vec_out, vec_in, orientation_out,
  orientation_in,
}
use tec.Users.{User, load_users}

pub record EntityData (F : Type 0) : Type 0 where
  pub position : Vec3 F
  pub orientation : Orientation F

-- `proto::Component`, with the cases that a user's data has.
pub data ComponentState (F : Type 0) : Type 0 where
  position_state : VecMessage F → ComponentState F
  orientation_state : QuatMessage F → ComponentState F
  other_state : ComponentState F

-- `proto::User` and `proto::SaveGame`; W is the name of an entity's file.
pub record UserMessage (F : Type 0) : Type 0 where
  pub id : ℕ
  pub username : ℕ
  pub component_states : List (ComponentState F)

pub record SaveMessage (F W : Type 0) : Type 0 where
  pub users : List (UserMessage F)
  pub entity_file_list : List W

-- `found` is what `Entity::GetList` finds of a user's entity.
module _ {F : Type 0} (found : User (EntityData F) → Option (Vec3 F) × Option (Orientation F)) where
  abbrev pub or_old {ℓ} : {A : Type ℓ} → Option A → A → A
  or_old none a = a
  or_old (some b) a = b

  -- `UpdateEntityData`
  unfoldable pub update_entity_data : User (EntityData F) → User (EntityData F)
  update_entity_data u =
      let (position, orientation) = found u in
      record u {
        entity_data = record {
          position = or_old position u.entity_data.position;
          orientation = or_old orientation u.entity_data.orientation;
        };
      }

  -- `User::Out`, into a new message.
  unfoldable pub user_out : User (EntityData F) → UserMessage F
  user_out u =
      let u' : User (EntityData F) = update_entity_data u in
      record {
        id = u.user_id;
        username = u.username;
        component_states =
            position_state (vec_out u'.entity_data.position)
            ∷ orientation_state (orientation_out u'.entity_data.orientation)
            ∷ [];
      }

  -- `SaveUsers`: each user is copied, so the update is of the copy.
  unfoldable pub save_users : List (User (EntityData F)) → List (UserMessage F)
  save_users us = map user_out us

-- `zero`, `real_part` and `normalize` are those of `Orientation::In`, `fresh` what a new user has.
module _ {F : Type 0} (zero : F) (real_part : F → F → F → F) (normalize : Quat F → Quat F)
    (fresh : EntityData F) where
  -- The body of the loop of `User::In`.
  unfoldable pub component_in : ComponentState F → EntityData F → EntityData F
  component_in (position_state m) d = record d { position = vec_in m d.position }
  component_in (orientation_state m) d = record d {
    orientation = orientation_in zero real_part normalize m d.orientation;
  }
  component_in other_state d = d

  unfoldable pub components_in : List (ComponentState F) → EntityData F → EntityData F
  components_in [] d = d
  components_in (c ∷ cs) d = components_in cs (component_in c d)

  -- `User::In`, of a new user.
  unfoldable pub user_in : UserMessage F → User (EntityData F)
  user_in m = record {
    user_id = m.id;
    username = m.username;
    entity_data = components_in m.component_states fresh;
  }

-- What a save game asks of files and of the JSON library: T is a text, S the state of the files. `write`
-- is `none` where `SaveFromString` returns false or throws.
pub record Files (F P T S W E : Type 0) : Type 0 where
  pub is_valid : P → Bool
  pub exists : S → P → Bool
  pub read : S → P → T
  pub write : P → T → S → Option S
  -- `JsonStringToMessage` over the message that there is, and whether its status is ok.
  pub parse : T → SaveMessage F W → SaveMessage F W × Bool
  pub print : SaveMessage F W → Option T
  -- `Path::assets / name`, and an entity's message.
  pub entity_path : W → P
  pub parse_entity : T → Option E

pub record SaveGame (F P W : Type 0) : Type 0 where
  pub save : SaveMessage F W
  pub filepath : P
  pub user_list : List (User (EntityData F))

module _ {F P T S W E : Type 0} (files : Files F P T S W E) where
  -- `LoadWorld`: the entities for which `EntityCreated` is emitted.
  unfoldable pub load_entity : S → W → List E
  load_entity disk name =
      let there : Bool =
        files.is_valid (files.entity_path name) && files.exists disk (files.entity_path name) in
      let parsed : List E = elim (files.parse_entity (files.read disk (files.entity_path name))) [
        | none ↦ []
        | some e ↦ e ∷ []
      ] in
      if there then parsed else []

  unfoldable pub load_world : S → List W → List E
  load_world disk [] = []
  load_world disk (name ∷ names) = load_entity disk name ++ load_world disk names

  -- What `Save` writes, and what it returns.
  unfoldable pub write_save : SaveMessage F W → P → S → S × Bool
  write_save save filepath disk = elim (files.print save) [
    | none ↦ (disk, false)
    | some text ↦ elim (files.write filepath text disk) [
      | none ↦ (disk, false)
      | some disk' ↦ (disk', true)
    ]
  ]

module _ {F P T S W E : Type 0} (files : Files F P T S W E)
    (found : User (EntityData F) → Option (Vec3 F) × Option (Orientation F)) (zero : F)
    (real_part : F → F → F → F) (normalize : Quat F → Quat F) (fresh : EntityData F) where
  -- `Load`: the save game after it, the entities that are created, and what it returns.
  unfoldable pub load : P → S → SaveGame F P W → SaveGame F P W × (List E × Bool)
  load filepath disk s =
      let opened : SaveGame F P W = record s { filepath = filepath } in
      let (save, ok) = files.parse (files.read disk filepath) s.save in
      if not (files.exists disk filepath)
      then (opened, ([], false))
      else if not ok
      then (record opened { save = save }, ([], false))
      else (
        record opened {
          save = save;
          user_list =
              load_users (map (user_in zero real_part normalize fresh) save.users) s.user_list;
        },
        (load_world files disk save.entity_file_list, true),
      )

  -- `Reload`
  unfoldable pub reload : S → SaveGame F P W → SaveGame F P W × (List E × Bool)
  reload disk s = load s.filepath disk s

  -- `Save`: the save game and the files after it, and what it returns.
  unfoldable pub save_game : P → S → SaveGame F P W → SaveGame F P W × (S × Bool)
  save_game filepath disk s =
      let saved : SaveGame F P W = record s {
        filepath = filepath;
        save = record s.save { users = save_users found s.user_list };
      } in
      if not (files.is_valid filepath) || not (files.exists disk filepath)
      then (s, (disk, false))
      else (saved, write_save files saved.save filepath disk)
