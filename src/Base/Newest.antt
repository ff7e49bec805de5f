-- ===== src/Base/Newest.antt =====
-- The last entries of a list, as a container keeps them that drops its oldest entries.
use Prim.Native.Nat.{ℕ, zero, suc, ◌+◌, ◌-◌, ◌<◌}
use mathlib.Core.Path.{◌≡◌, ap, sym, ◌∙◌}
use mathlib.Core.Logic.{inl, inr}
use mathlib.Core.List.{List, [], ◌∷◌, ◌++◌}
use native.Mathlib.Omega.{arith}
use tec.Base.Tests.{ltb, ltb→lt, Bool-cases}
use tec.Base.Lists.{length, drop, drop_none, drop-drop, drop-append_le, length-append}

module _ {A : Type 0} (n : ℕ) where
  -- The last n entries, or all if there are fewer.
  abbrev pub newest : List A → List A
  newest xs = drop (length xs - n) xs

module _ {A : Type 0} where
  pub length-drop : (k : ℕ) (xs : List A) → length (drop k xs) ≡ length xs - k
  length-drop zero xs = omega arith
  length-drop (suc k) [] = omega arith
  length-drop (suc k) (x ∷ xs) = omega (arith, length-drop k xs)

  pub newest-append : (n : ℕ) (xs ys : List A) → newest n (newest n xs ++ ys) ≡ newest n (xs ++ ys)
  newest-append n xs ys = elim (Bool-cases (ltb n (length xs))) [
    | inr few ↦ ap (λ t. newest n (t ++ ys)) (drop_none (length xs - n) xs (ground (arith, few)))
    | inl many ↦
        let more : n < length xs = ltb→lt n (length xs) many in
        let a : ℕ = length xs - n in
        let whole : drop a xs ++ ys ≡ drop a (xs ++ ys) =
          sym (drop-append_le a xs ys (omega arith)) in
        let count : length (drop a xs ++ ys) - n ≡ length ys =
          omega (arith, length-append (drop a xs) ys, length-drop a xs) in
        let total : length (xs ++ ys) - n ≡ a + length ys = omega (arith, length-append xs ys) in
        ap (λ k. drop k (drop a xs ++ ys)) count
        ∙ ap (drop (length ys)) whole
        ∙ drop-drop (length ys) a (xs ++ ys)
        ∙ ap (λ k. drop k (xs ++ ys)) (sym total)
  ]
