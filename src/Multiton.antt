-- ===== src/Multiton.antt =====
-- common/multiton.hpp: the static state of `Multiton<ID_T, T>`, with numbers for IDs.
mod Keys
mod Tests
use tec.Base.{ℕ, Bool, none, some, List, [], ◌∷◌, length, ◌==◌, if◌then◌else◌}
use tec.Base.Maps.{Map, find, insert, erase, has}

pub record Multiton (T : Type 0) : Type 0 where
  pub instances : Map T
  pub default_value : T
  -- The static vector inside `Keys`.
  pub cached_keys : List ℕ

unfoldable pub ids : {T : Type 0} → Map T → List ℕ
ids [] = []
ids ((id, instance_of) ∷ rest) = id ∷ ids rest

module _ {T : Type 0} where
  -- `Get`
  unfoldable pub get : ℕ → Multiton T → T
  get id m = elim (find id m.instances) [ none ↦ m.default_value | some instance_of ↦ instance_of ]

  -- `Has`
  unfoldable pub has_id : ℕ → Multiton T → Bool
  has_id id m = has id m.instances

  -- `Set`
  unfoldable pub set : ℕ → T → Multiton T → Multiton T
  set id instance_of m = record m { instances = insert id instance_of m.instances }

  -- `Remove`
  unfoldable pub remove : ℕ → Multiton T → Multiton T
  remove id m = record m { instances = erase id m.instances }

  -- `Size`
  unfoldable pub size : Multiton T → ℕ
  size m = length m.instances

  -- `Keys`: the cache is renewed where its length is not the number of instances.
  unfoldable pub keys : Multiton T → List ℕ × Multiton T
  keys m =
      if length m.cached_keys == length m.instances
      then (m.cached_keys, m)
      else (ids m.instances, record m { cached_keys = ids m.instances })
