-- ===== src/Users.antt =====
-- server/save-game.cpp and server/save-game.hpp, `UserList`, and server/system/user-authenticator.hpp. A
-- user id and a user name are numbers, which stand for texts: they are only compared. A pointer to
-- a user of the list is the user.
pub mod Laws
pub mod SaveGame
mod Tests
use tec.Base.{ℕ, Bool, true, false, Option, none, some, List, [], ◌∷◌, ◌++◌, ◌==◌, if◌then◌else◌}

-- `User`: its credentials, and the rest as a parameter.
pub record User (D : Type 0) : Type 0 where
  pub user_id : ℕ
  pub username : ℕ
  pub entity_data : D

module _ {D : Type 0} where
  -- `std::find_if`
  unfoldable pub find_if : (User D → Bool) → List (User D) → Option (User D)
  find_if p [] = none
  find_if p (u ∷ us) = if p u then some u else find_if p us

  -- `list::erase` of the place that `std::find_if` finds.
  unfoldable pub erase_first : (User D → Bool) → List (User D) → List (User D)
  erase_first p [] = []
  erase_first p (u ∷ us) = if p u then us else u ∷ erase_first p us

  abbrev pub has_id : ℕ → User D → Bool
  has_id id u = u.user_id == id

  -- `AddUser`
  unfoldable pub add_user : User D → List (User D) → List (User D)
  add_user u us = us ++ (u ∷ [])

  -- `GetUser`
  unfoldable pub get_user : ℕ → List (User D) → Option (User D)
  get_user id us = find_if (has_id id) us

  -- `CreateUser`, with what a new `User` has: the list after it and the user returned.
  unfoldable pub create_user : D → ℕ → List (User D) → List (User D) × Option (User D)
  create_user fresh id us =
      let after = add_user (record { user_id = id; username = 0; entity_data = fresh }) us in
      (after, get_user id after)

  -- `HasUser`
  unfoldable pub has_user : ℕ → List (User D) → Bool
  has_user id us = elim (find_if (has_id id) us) [ none ↦ false | some u ↦ true ]

  -- `RemoveUser`
  unfoldable pub remove_user : ℕ → List (User D) → List (User D) × Bool
  remove_user id us = elim (find_if (has_id id) us) [
    | none ↦ (us, false)
    | some u ↦ (erase_first (has_id id) us, true)
  ]

  -- `Authenticate`, with the list for a data source. No password is compared.
  unfoldable pub authenticate : ℕ → List (User D) → Option (User D)
  authenticate username us = find_if (λ u. u.username == username) us

  -- `LoadUsers`: the users of the save file, read, are added to the list.
  unfoldable pub load_users : List (User D) → List (User D) → List (User D)
  load_users [] us = us
  load_users (u ∷ saved) us = load_users saved (add_user u us)
