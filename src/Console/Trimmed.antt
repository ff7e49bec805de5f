-- ===== src/Console/Trimmed.antt =====
-- How a line that is entered into the console is cut (client/gui/console.cpp).
use tec.Base.{ℕ, zero, suc, ◌≡◌, refl, ◌∙◌, Bool, true, not, ◌&&◌, List, [], ◌∷◌, ◌++◌, ◌==◌, arith}
use tec.FilePath.Text.{space}
use tec.Console.{trim, split_command}

abbrev pub spaceless : List ℕ → Bool
spaceless [] = true
spaceless (c ∷ s) = not (c == space) && spaceless s

abbrev pub spaces : ℕ → List ℕ
spaces zero = []
spaces (suc k) = space ∷ spaces k

trim-spaces : (k : ℕ) → trim (spaces k) ≡ []
unfolding trim
trim-spaces zero = refl
trim-spaces (suc k) = rw (trim-spaces k) refl

-- Spaces at the end of a text are of no account.
trim-append_spaces : (s : List ℕ) (k : ℕ) → trim (s ++ spaces k) ≡ trim s
unfolding trim
trim-append_spaces [] k = trim-spaces k
trim-append_spaces (c ∷ s) k = rw (trim-append_spaces s k) refl

trim-word : (s : List ℕ) → spaceless s ≡ true → trim s ≡ s
unfolding trim
trim-word [] h = refl
trim-word (c ∷ []) h = ground (arith, h)
trim-word (c ∷ d ∷ s) h = rw (trim-word (d ∷ s) (ground (arith, h))) refl

-- What is before a text that trims to a text that is not empty.
trim-append : (s r : List ℕ) (d : ℕ) (t : List ℕ) → trim r ≡ d ∷ t → trim (s ++ r) ≡ s ++ (d ∷ t)
unfolding trim
trim-append [] r d t h = h
trim-append (c ∷ []) r d t h = rw h refl
trim-append (c ∷ e ∷ s) r d t h = rw (trim-append (e ∷ s) r d t h) refl

split_command-word : (s : List ℕ) → spaceless s ≡ true → split_command s ≡ (s, [])
unfolding split_command
split_command-word [] h = refl
split_command-word (c ∷ s) h = ground (arith, h, split_command-word s)

split_command-args :
    (s args : List ℕ) → spaceless s ≡ true → split_command (s ++ (space ∷ args)) ≡ (s, args)
unfolding split_command
split_command-args [] args h = refl
split_command-args (c ∷ s) args h = ground (arith, h, split_command-args s args)

-- A command with arguments, and the spaces that may follow.
abbrev pub line : List ℕ → List ℕ → ℕ → List ℕ
line name args k = name ++ (space ∷ (args ++ spaces k))

pub trim-line :
    (first : ℕ) (rest args : List ℕ) (k : ℕ)
    → spaceless (first ∷ rest) ≡ true
    → trim args ≡ args
    → (r : List ℕ) × (trim (line (first ∷ rest) args k) ≡ first ∷ r)
      × (split_command (first ∷ r) ≡ (first ∷ rest, args))
unfolding trim
trim-line first rest [] k word trimmed = (
  rest,
  trim-append_spaces (first ∷ rest) (suc k) ∙ trim-word (first ∷ rest) word,
  split_command-word (first ∷ rest) word,
)
trim-line first rest (d ∷ t) k word trimmed =
    let inner : trim ((d ∷ t) ++ spaces k) ≡ d ∷ t = trim-append_spaces (d ∷ t) k ∙ trimmed in
    let after : trim (space ∷ ((d ∷ t) ++ spaces k)) ≡ space ∷ d ∷ t = rw inner refl in
    (
      rest ++ (space ∷ d ∷ t),
      trim-append (first ∷ rest) (space ∷ ((d ∷ t) ++ spaces k)) space (d ∷ t) after,
      split_command-args (first ∷ rest) (d ∷ t) word,
    )
