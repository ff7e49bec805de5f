-- ===== src/FilePath/Stack.antt =====
-- The elements that the loop of `NormalizePath` keeps (common/filesystem.cpp).
use mathlib.Core.List.{reverse, reverse-cons}
use tec.FilePath.Text.{dot, same_text, same_text_refl, same_text-ne}
use tec.FilePath.{strip, strip_reversed, dots, go_up, visit, visit_all}
use tec.Base.{
  ℕ, Bool, true, false, ◌||◌, List, [], ◌∷◌, ◌++◌, length, ◌≡◌, ◌≢◌, refl, ap, ◌⊎◌, inl, inr, arith,
  All, ◌==◌, Bool-cases,
}
use tec.FilePath.Segments.{Plain, IsElement, strip-IsElement}

-- The elements kept so far, the last one first: only a relative path may begin with "..".
abbrev pub IsStack : Bool → List (List ℕ) → Type 0
IsStack absolute [] = Unit
IsStack absolute (s ∷ []) = IsElement s ⊎ ((absolute ≡ false) × (s ≡ dots))
IsStack absolute (s ∷ t ∷ ss) = IsElement s × IsStack absolute (t ∷ ss)

push-IsStack :
    (absolute : Bool) (s : List ℕ) (ss : List (List ℕ))
    → IsElement s
    → IsStack absolute ss
    → IsStack absolute (s ∷ ss)
push-IsStack absolute s [] e h = inl e
push-IsStack absolute s (t ∷ ss) e h = (e, h)

pop-IsStack :
    (absolute : Bool) (s : List ℕ) (ss : List (List ℕ))
    → IsStack absolute (s ∷ ss)
    → IsStack absolute ss
pop-IsStack absolute s [] h = tt
pop-IsStack absolute s (t ∷ ss) h = h.1

ne_of_length : (s : List ℕ) → (length s == 0) ≡ false → s ≢ []
ne_of_length [] h = cc
ne_of_length (c ∷ s) h = λ e. omega (arith, ap length e)

ne_of_text : (s t : List ℕ) → same_text s t ≡ false → s ≢ t
ne_of_text s t h = λ e. cc (h, ap (same_text s) e, same_text_refl s)

or_false : (a b : Bool) → (a || b) ≡ false → (a ≡ false) × (b ≡ false)
or_false true b h = cc
or_false false b h = (refl, h)

visit-IsStack :
    (absolute : Bool) (ss : List (List ℕ)) (s : List ℕ)
    → All Plain s
    → IsStack absolute ss
    → IsStack absolute (visit absolute ss s)
unfolding visit
visit-IsStack absolute ss s p h = elim (Bool-cases (length s == 0 || same_text s (dot ∷ []))) [
  | inl skip ↦ rw skip h
  | inr keep ↦ elim (Bool-cases (same_text (strip s) dots)) [
    | inl up ↦ rw (keep, up) (above absolute ss h)
    | inr down ↦
        rw (keep, down)
          (push-IsStack absolute (strip s) ss
            (strip-IsElement s (ne_of_length s (or_false _ _ keep).0)
              (ne_of_text s (dot ∷ []) (or_false _ _ keep).1) (ne_of_text (strip s) dots down) p)
            h)
  ]
]
  where
    above :
        (absolute : Bool) (ss : List (List ℕ))
        → IsStack absolute ss
        → IsStack absolute (go_up absolute ss)
    above true [] h = tt
    above false [] h = inr (refl, refl)
    above absolute (x ∷ ss) h = pop-IsStack absolute x ss h

pub visit_all-IsStack :
    (absolute : Bool) (ss : List (List ℕ)) (elements : List (List ℕ))
    → All (All Plain) elements
    → IsStack absolute ss
    → IsStack absolute (visit_all absolute ss elements)
unfolding visit_all
visit_all-IsStack absolute ss [] p h = h
visit_all-IsStack absolute ss (s ∷ elements) p h =
    visit_all-IsStack absolute (visit absolute ss s) elements p.1
      (visit-IsStack absolute ss s p.0 h)

pub visit_all-append :
    (absolute : Bool) (ss xs ys : List (List ℕ))
    → visit_all absolute ss (xs ++ ys) ≡ visit_all absolute (visit_all absolute ss xs) ys
unfolding visit_all
visit_all-append absolute ss [] ys = refl
visit_all-append absolute ss (x ∷ xs) ys = visit_all-append absolute (visit absolute ss x) xs ys

pub visit-IsElement :
    (absolute : Bool) (ss : List (List ℕ)) (s : List ℕ) → IsElement s → visit absolute ss s ≡ s ∷ ss
unfolding visit
visit-IsElement absolute ss s e = rw (
  some_text s e.filled,
  same_text-ne s (dot ∷ []) e.not_dot,
  e.stripped,
  same_text-ne s dots e.not_up,
)
  where
    some_text : (s : List ℕ) → s ≢ [] → (length s == 0) ≡ false
    some_text [] n = absurd (n refl)
    some_text (c ∷ s) n = ground arith

relative : visit_all false [] (reverse (dots ∷ [])) ≡ dots ∷ []
unfolding visit_all visit strip strip_reversed same_text
relative = refl

-- Going through the elements that were kept keeps them.
pub visit_all-reverse :
    (absolute : Bool) (ss : List (List ℕ))
    → IsStack absolute ss
    → visit_all absolute [] (reverse ss) ≡ ss
visit_all-reverse absolute [] h = unfold visit_all in refl
visit_all-reverse absolute (s ∷ []) (inl e) = unfold visit_all in visit-IsElement absolute [] s e
visit_all-reverse absolute (s ∷ []) (inr (a, e)) = rw (a, e) (relative)
visit_all-reverse absolute (s ∷ t ∷ ss) h =
    rw
      (
        reverse-cons s (t ∷ ss),
        visit_all-append absolute [] (reverse (t ∷ ss)) (s ∷ []),
        visit_all-reverse absolute (t ∷ ss) h.1,
      )
      (unfold visit_all in visit-IsElement absolute (t ∷ ss) s h.0)
