-- ===== src/Users/Tests.antt =====
-- Tests of lists of users (server/save-game.cpp).
use tec.Base.{ℕ, ◌+◌, List, [], ◌∷◌}
use tec.Users.{User}

abbrev user_of : ℕ → User ℕ
user_of id = record { user_id = id; username = id + 100; entity_data = 0 }

abbrev users : List (User ℕ)
users = user_of 1 ∷ user_of 2 ∷ []
