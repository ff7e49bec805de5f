-- ===== src/FilePath/Segments.antt =====
-- The elements of a path of common/filesystem.cpp, once dots and spaces are off their ends.
use mathlib.Core.List.{reverse, reverse-reverse, reverse-cons}
use tec.FilePath.Text.{slash, backslash, dot, space}
use tec.FilePath.{strip, strip_reversed, dots}
use tec.Base.{
  ℕ, ◌||◌, List, [], ◌∷◌, length, ◌≡◌, ◌≢◌, refl, ap, ◌∙◌, inl, inr, arith, All, All-append, ◌==◌,
  Bool-cases, ◌≤◌, ◌<◌, length-append,
}

-- No separator of either kind.
abbrev pub Plain : ℕ → Type 0
Plain c = (c ≢ slash) × (c ≢ backslash)

-- An element that a normalized path may hold anywhere.
pub record IsElement (s : List ℕ) : Type 0 where
  pub filled : s ≢ []
  pub plain : All Plain s
  pub not_dot : s ≢ dot ∷ []
  pub not_up : s ≢ dots
  pub stripped : strip s ≡ s

module _ {A : Type 0} (P : A → Type 0) where
  pub All-reverse : (s : List A) → All P s → All P (reverse s)
  All-reverse [] h = tt
  All-reverse (c ∷ s) h =
      rw (reverse-cons c s) (All-append P (reverse s) (c ∷ []) (All-reverse s h.1) (h.0, tt))

module _ (P : ℕ → Type 0) where
  All-strip_reversed : (s : List ℕ) → All P s → All P (strip_reversed s)
  unfolding strip_reversed
  All-strip_reversed [] h = h
  All-strip_reversed (a ∷ []) h = h
  All-strip_reversed (a ∷ b ∷ []) h = h
  All-strip_reversed (a ∷ b ∷ c ∷ s) h = elim (Bool-cases (a == dot || a == space)) [
    | inl off ↦ rw off (All-strip_reversed (b ∷ c ∷ s) h.1)
    | inr on ↦ rw on h
  ]

  All-strip : (s : List ℕ) → All P s → All P (strip s)
  unfolding strip
  All-strip s h =
      All-reverse P (strip_reversed (reverse s))
        (All-strip_reversed (reverse s) (All-reverse P s h))

strip_reversed_idem : (s : List ℕ) → strip_reversed (strip_reversed s) ≡ strip_reversed s
unfolding strip_reversed
strip_reversed_idem [] = refl
strip_reversed_idem (a ∷ []) = refl
strip_reversed_idem (a ∷ b ∷ []) = refl
strip_reversed_idem (a ∷ b ∷ c ∷ s) = elim (Bool-cases (a == dot || a == space)) [
  | inl off ↦ rw off (strip_reversed_idem (b ∷ c ∷ s))
  | inr on ↦ rw (on, on)
]

pub strip_idem : (s : List ℕ) → strip (strip s) ≡ strip s
unfolding strip
strip_idem s = rw (reverse-reverse (strip_reversed (reverse s)), strip_reversed_idem (reverse s))

-- Stripping leaves two characters at least of what had as many, and shorter texts alone.
length-strip_reversed :
    (s : List ℕ)
    → (1 < length s → 1 < length (strip_reversed s)) × (length s ≤ 1 → strip_reversed s ≡ s)
unfolding strip_reversed
length-strip_reversed [] = (λ h. omega arith, λ h. refl)
length-strip_reversed (a ∷ []) = (λ h. omega arith, λ h. refl)
length-strip_reversed (a ∷ b ∷ []) = (λ h. omega arith, λ h. refl)
length-strip_reversed (a ∷ b ∷ c ∷ s) = elim (Bool-cases (a == dot || a == space)) [
  | inl off ↦
      rw off (λ h. (length-strip_reversed (b ∷ c ∷ s)).0 (omega arith), λ h. absurd (omega arith))
  | inr on ↦ rw on (λ h. h, λ h. refl)
]

length-reverse : (s : List ℕ) → length (reverse s) ≡ length s
length-reverse [] = refl
length-reverse (c ∷ s) =
    omega
      (arith, ap length (reverse-cons c s), length-append (reverse s) (c ∷ []), length-reverse s)

length-strip : (s : List ℕ) → (1 < length s → 1 < length (strip s)) × (length s ≤ 1 → strip s ≡ s)
unfolding strip
length-strip s = (
  λ h. omega (
    arith,
    length-reverse (strip_reversed (reverse s)),
    length-reverse s,
    (length-strip_reversed (reverse s)).0 (omega (arith, length-reverse s)),
  ),
  λ h.
      ap reverse ((length-strip_reversed (reverse s)).1 (omega (arith, length-reverse s)))
      ∙ reverse-reverse s,
)

pub length_filled : (s : List ℕ) → s ≢ [] → 0 < length s
length_filled [] n = absurd (n refl)
length_filled (c ∷ s) n = omega arith

strip_ne : (s : List ℕ) → s ≢ [] → s ≢ dot ∷ [] → (strip s ≢ []) × (strip s ≢ dot ∷ [])
strip_ne [] n d = absurd (n refl)
strip_ne (c ∷ []) n d = rw ((length-strip (c ∷ [])).1 (omega arith)) (n, d)
strip_ne (c ∷ b ∷ s) n d =
    let long : 1 < length (strip (c ∷ b ∷ s)) = (length-strip (c ∷ b ∷ s)).0 (omega arith) in
    (λ e. omega (arith, ap length e), λ e. omega (arith, ap length e))

-- The elements that a round of the loop pushes.
pub strip-IsElement :
    (s : List ℕ) → s ≢ [] → s ≢ dot ∷ [] → strip s ≢ dots → All Plain s → IsElement (strip s)
strip-IsElement s n d u p = record {
  filled = (strip_ne s n d).0;
  plain = All-strip Plain s p;
  not_dot = (strip_ne s n d).1;
  not_up = u;
  stripped = strip_idem s;
}
