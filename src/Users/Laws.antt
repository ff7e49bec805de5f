-- ===== src/Users/Laws.antt =====
-- What a list of users holds after its operations (server/save-game.cpp).
use mathlib.Core.Option.{none-ne-some}
use tec.Base.{
  or_else, ℕ, suc, ◌≡◌, refl, ap, sym, ◌∙◌, Bool, false, none, some, List, [], ◌∷◌, ◌++◌, length,
  ◌==◌, if◌then◌else◌, arith, Bool-cases, Option-cases, inl, inr, append_assoc, append-nil,
}
use tec.Users.{
  User, find_if, erase_first, has_id, add_user, get_user, has_user, remove_user, load_users,
}

module _ {D : Type 0} where
  find_if-append :
      (p : User D → Bool) (us vs : List (User D))
      → find_if p (us ++ vs) ≡ or_else (find_if p us) (find_if p vs)
  unfolding find_if
  find_if-append p [] vs = refl
  find_if-append p (u ∷ us) vs = elim (Bool-cases (p u)) [
    | inl hit ↦ rw hit refl
    | inr miss ↦ rw miss (find_if-append p us vs)
  ]

  -- A user of another id is still found when one was erased.
  find_if-erase_first :
      (j k : ℕ) (us : List (User D))
      → (k == j) ≡ false
      → find_if (has_id j) (erase_first (has_id k) us) ≡ find_if (has_id j) us
  unfolding find_if erase_first
  find_if-erase_first j k [] h = refl
  find_if-erase_first j k (u ∷ us) h = elim (Bool-cases (u.user_id == k)) [
    | inl hit ↦ let miss : (u.user_id == j) ≡ false = ground (arith, hit, h) in rw (hit, miss) refl
    | inr other ↦
        rw other (ap (λ r. if u.user_id == j then some u else r) (find_if-erase_first j k us h))
  ]

  found_alone :
      (p : User D → Bool) (u : User D) → find_if p (u ∷ []) ≡ (if p u then some u else none)
  unfolding find_if
  found_alone p u = refl

  length-erase_first :
      (p : User D → Bool) (us : List (User D)) (v : User D)
      → find_if p us ≡ some v
      → suc (length (erase_first p us)) ≡ length us
  unfolding find_if erase_first
  length-erase_first p [] v h = absurd (none-ne-some v h)
  length-erase_first p (u ∷ us) v h = elim (Bool-cases (p u)) [
    | inl hit ↦ rw hit refl
    | inr miss ↦ rw miss (ap suc (length-erase_first p us v (rw miss at h)))
  ]

  -- A user that is added is found under its id if none was before, and the one of before otherwise;
  -- removing an id tells whether there was a user with it, takes one user off the list just then,
  -- and changes nothing for any other id.
  pub add_user-remove_user :
      (j k : ℕ) (u : User D) (us : List (User D))
      → (get_user j (add_user u us)
          ≡ or_else (get_user j us) (if u.user_id == j then some u else none))
        × ((remove_user k us).1 ≡ has_user k us)
        × ((if (remove_user k us).1
              then suc (length (remove_user k us).0)
              else length (remove_user k us).0)
            ≡ length us)
        × ((k == j) ≡ false → get_user j (remove_user k us).0 ≡ get_user j us)
  unfolding get_user add_user remove_user has_user
  add_user-remove_user j k u us =
      let added : get_user j (add_user u us)
          ≡ or_else (get_user j us) (if u.user_id == j then some u else none) =
        find_if-append (has_id j) us (u ∷ [])
        ∙ ap (or_else (find_if (has_id j) us)) (found_alone (has_id j) u) in
      elim (Option-cases (find_if (has_id k) us)) [
        | inl missing ↦ (
          added,
          rw (remove_user, has_user, missing) refl,
          rw (remove_user, missing) refl,
          λ h. rw (remove_user, missing) refl,
        )
        | inr (v, there) ↦ (
          added,
          rw (remove_user, has_user, there) refl,
          rw (remove_user, there) (length-erase_first (has_id k) us v there),
          λ h. rw (remove_user, there) (find_if-erase_first j k us h),
        )
      ]

  pub load_users-append : (saved us : List (User D)) → load_users saved us ≡ us ++ saved
  unfolding load_users add_user
  load_users-append [] us = sym (append-nil us)
  load_users-append (u ∷ saved) us =
      load_users-append saved (us ++ (u ∷ [])) ∙ append_assoc us (u ∷ []) saved

  -- Loading users again, as `Reload` does, puts a second copy of every user into the list.
  pub load_users-twice :
      (saved us : List (User D)) → load_users saved (load_users saved us) ≡ (us ++ saved) ++ saved
  load_users-twice saved us =
      load_users-append saved (load_users saved us)
      ∙ ap (λ t. t ++ saved) (load_users-append saved us)
