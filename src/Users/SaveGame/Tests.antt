-- ===== src/Users/SaveGame/Tests.antt =====
-- Tests of save games (server/save-game.cpp), with numbers for floats and one file, whose text is the
-- message itself.
use tec.Base.{ℕ, ◌+◌, ◌≡◌, refl, ap, sym, true, Option, none, some, [], ◌∷◌, map}
use tec.Base.Maps.{is_some}
use tec.Components.{Vec3, Quat, Orientation}
use tec.Users.{User}
use tec.Users.SaveGame.{
  EntityData, SaveMessage, Files, SaveGame, load_world, load, save_game, write_save, save_users,
}
use tec.Users.SaveGame.Saved.{kept, load-save_game}

abbrev Text : Type 0
Text = SaveMessage ℕ ℕ

abbrev no_save : Text
no_save = record { users = []; entity_file_list = [] }

abbrev or_no_save : Option Text → Text
or_no_save none = no_save
or_no_save (some text) = text

abbrev files : Files ℕ ℕ Text (Option Text) ℕ ℕ
files = record {
  is_valid = λ p. true;
  exists = λ d p. is_some d;
  read = λ d p. or_no_save d;
  write = λ p text d. some (some text);
  parse = λ text old. (text, true);
  print = λ m. some m;
  entity_path = λ w. w;
  parse_entity = λ text. some 4;
}

abbrev origin : Vec3 ℕ
origin = record { x = 0; y = 0; z = 0 }

abbrev fresh : EntityData ℕ
fresh = record {
  position = origin;
  orientation = record { value = record { w = 1; x = 0; y = 0; z = 0 }; rotation = origin };
}

abbrev user : User (EntityData ℕ)
user = record { user_id = 3; username = 5; entity_data = fresh }

-- The entity of the user has moved.
abbrev found : User (EntityData ℕ) → Option (Vec3 ℕ) × Option (Orientation ℕ)
found u = (some (record { x = 7; y = 8; z = 9 }), none)

abbrev game : SaveGame ℕ ℕ ℕ
game = record {
  save = record { users = []; entity_file_list = 2 ∷ [] };
  filepath = 1;
  user_list = user ∷ [];
}

abbrev empty_game : SaveGame ℕ ℕ ℕ
empty_game = record { save = no_save; filepath = 0; user_list = [] }

abbrev written : Text
written = record { users = save_users found (user ∷ []); entity_file_list = 2 ∷ [] }

abbrev real_part : ℕ → ℕ → ℕ → ℕ
real_part i j k = i + j + k

abbrev same : Quat ℕ → Quat ℕ
same q = q

some_eq : {A : Type 0} {a b : A} → some a ≡ some b → a ≡ b
some_eq e = cc

reads_back : (m old text : Text) → files.print m ≡ some text → files.parse text old ≡ (m, true)
reads_back m old text e = ap (λ t. (t, true)) (sym (some_eq e))

keeps :
    (path : ℕ) (text : Text) (before after : Option Text)
    → files.write path text before ≡ some after
    → (files.read after path ≡ text) × (files.exists after path ≡ true)
keeps path text before after e =
    let it : after ≡ some text = sym (some_eq e) in (ap or_no_save it, ap is_some it)

saved :
    save_game files found 0 real_part same fresh 1 (some no_save) game
    ≡ (record game { save = written }, (some written, true))
unfolding save_game write_save
saved = refl

load-save_game_example :
    let (t', (entities, ok)) =
      load files found 0 real_part same fresh 1 (some written) empty_game in
    (ok ≡ true)
    × (t'.user_list ≡ map (kept found 0 real_part same fresh) (user ∷ []))
    × (entities ≡ load_world files (some written) (2 ∷ []))
load-save_game_example =
    load-save_game files found 0 real_part same fresh 1 (some no_save) (some written) game
      (record game { save = written }) empty_game reads_back keeps saved refl
