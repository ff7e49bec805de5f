-- ===== src/FilePath/Reading.antt =====
-- What the text of a normalized path is read as (common/filesystem.cpp).
use mathlib.Core.List.{map}
use tec.FilePath.Text.{slash, backslash}
use tec.FilePath.{getline_all, join, to_slash, slash_if, ends_with, starts_with_slash}
use tec.FilePath.Segments.{length_filled}
use tec.FilePath.Normal.{
  Kept, map-to_slash_id, getline_all-join, getline_all-slash, ends_with-append, join-Kept,
}
use tec.Base.{
  ℕ, Bool, true, false, ◌&&◌, List, [], ◌∷◌, ◌++◌, length, ◌≡◌, ◌≢◌, refl, ap, ◌∙◌, arith, All,
  All-append, ◌<◌, length-append, ltb, append-nil,
}

-- Whether the text has a separator at its end besides the one at its start.
abbrev pub leads : List ℕ → Bool
leads path = ltb 1 (length path) && ends_with slash path

-- The elements as they are read: behind a first separator stands an empty one.
abbrev pub slash_if_element : Bool → List (List ℕ) → List (List ℕ)
slash_if_element true xs = [] ∷ xs
slash_if_element false xs = xs

pub ends_with_last : (c : ℕ) (s : List ℕ) → ends_with c (s ++ (c ∷ [])) ≡ true
ends_with_last c s = ends_with-append c s (c ∷ []) (λ e. omega (arith, ap length e)) ∙ ground arith

module _ (absolute : Bool) (x : List ℕ) (xs : List (List ℕ)) (h : All Kept (x ∷ xs)) where
  filled : 0 < length (join (x ∷ xs))
  filled = length_filled (join (x ∷ xs)) (join-Kept x xs h).0

  leads-true : leads ((slash_if absolute ++ join (x ∷ xs)) ++ (slash ∷ [])) ≡ true
  leads-true = rw (ends_with_last slash (slash_if absolute ++ join (x ∷ xs))) (
      ground (
        arith,
        length-append (slash_if absolute ++ join (x ∷ xs)) (slash ∷ []),
        length-append (slash_if absolute) (join (x ∷ xs)),
        filled,
      ))

  leads-false : leads ((slash_if absolute ++ join (x ∷ xs)) ++ []) ≡ false
  leads-false =
      let unended : ends_with slash ((slash_if absolute ++ join (x ∷ xs)) ++ []) ≡ false =
        ap (ends_with slash) (append-nil (slash_if absolute ++ join (x ∷ xs)))
        ∙ ends_with-append slash (slash_if absolute) (join (x ∷ xs)) (join-Kept x xs h).0
        ∙ (join-Kept x xs h).2 in
      ap (λ b. ltb 1 (length ((slash_if absolute ++ join (x ∷ xs)) ++ [])) && b) unended
      ∙ ground arith

  no_backslash :
      (leadslash : Bool)
      → All (λ c. c ≢ backslash) ((slash_if absolute ++ join (x ∷ xs)) ++ slash_if leadslash)
  no_backslash leadslash =
      All-append (λ c. c ≢ backslash) (slash_if absolute ++ join (x ∷ xs)) (slash_if leadslash)
        (All-append (λ c. c ≢ backslash) (slash_if absolute) (join (x ∷ xs)) (separator absolute)
          (join-Kept x xs h).3)
        (separator leadslash)
    where
      separator : (b : Bool) → All (λ c. c ≢ backslash) (slash_if b)
      separator true = (λ q. omega (arith, q), tt)
      separator false = tt

-- What the text of a rebuilt path is read as.
pub reads :
    (absolute leadslash : Bool) (x : List ℕ) (xs : List (List ℕ))
    → All Kept (x ∷ xs)
    → let path = (slash_if absolute ++ join (x ∷ xs)) ++ slash_if leadslash in
      (map to_slash path ≡ path)
      × (starts_with_slash path ≡ absolute)
      × (leads path ≡ leadslash)
      × (getline_all [] path ≡ slash_if_element absolute (x ∷ xs))
reads absolute leadslash x xs h = (
  map-to_slash_id _ (no_backslash absolute x xs h leadslash),
  starts absolute,
  ends leadslash,
  elements absolute,
)
  where
    starts :
        (absolute : Bool)
        → starts_with_slash ((slash_if absolute ++ join (x ∷ xs)) ++ slash_if leadslash) ≡ absolute
    starts true = refl
    starts false = (join-Kept x xs h).1 (slash_if leadslash)

    ends :
        (leadslash : Bool)
        → leads ((slash_if absolute ++ join (x ∷ xs)) ++ slash_if leadslash) ≡ leadslash
    ends true = leads-true absolute x xs h
    ends false = leads-false absolute x xs h

    elements :
        (absolute : Bool)
        → getline_all [] ((slash_if absolute ++ join (x ∷ xs)) ++ slash_if leadslash)
          ≡ slash_if_element absolute (x ∷ xs)
    elements true =
        getline_all-slash [] (join (x ∷ xs) ++ slash_if leadslash)
        ∙ ap (λ r. [] ∷ r) (getline_all-join x xs leadslash h)
    elements false = getline_all-join x xs leadslash h
