-- ===== src/Multiton/Keys.antt =====
-- What `Multiton<ID_T, T>` of common/multiton.hpp holds, and what `Keys` says that it holds.
use tec.Multiton.{Multiton, get, has_id, set, remove}
use tec.Base.Maps.{has, find-insert, find-erase}
use tec.Base.{ℕ, ◌≡◌, refl, true, false, ◌==◌, if◌then◌else◌, Bool-cases, inl, inr}

-- Behind `Set` or `Remove` of an ID, `Get` and `Has` tell of that ID what was set, or that there is
-- nothing, and of every other ID what they told before.
pub get-set-remove :
    {T : Type 0} (j k : ℕ) (v : T) (m : Multiton T)
    → (get j (set k v m) ≡ (if k == j then v else get j m))
      × (has_id j (set k v m) ≡ (if k == j then true else has_id j m))
      × (get j (remove k m) ≡ (if k == j then m.default_value else get j m))
      × (has_id j (remove k m) ≡ (if k == j then false else has_id j m))
unfolding get has_id set remove has
get-set-remove j k v m = elim (Bool-cases (k == j)) [
  | inl same ↦
      rw (get, has_id, find-insert j k v m.instances, find-erase j k m.instances, same)
        (refl, refl, refl, refl)
  | inr other ↦
      rw (get, has_id, find-insert j k v m.instances, find-erase j k m.instances, other)
        (refl, refl, refl, refl)
]
