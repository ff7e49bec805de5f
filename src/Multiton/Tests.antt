-- ===== src/Multiton/Tests.antt =====
-- Tests of `Multiton<ID_T, T>` (common/multiton.hpp).
use tec.Multiton.{Multiton}
use tec.Base.{ℕ, [], ◌∷◌}

-- The instances 3 and 5.
abbrev two : Multiton ℕ
two = record { instances = (3, 30) ∷ (5, 50) ∷ []; default_value = 0; cached_keys = [] }
