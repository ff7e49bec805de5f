-- ===== src/FilePath/Normal.antt =====
-- `NormalizePath` of common/filesystem.cpp, taken apart and put together: what the text that `rebuild`
-- makes is read as.
use mathlib.Core.List.{map}
use tec.FilePath.Text.{slash, backslash, dot}
use tec.FilePath.{getline_all, join, to_slash, slash_if, ends_with, starts_with_slash}
use tec.FilePath.Segments.{Plain}
use tec.FilePath.Stack.{IsStack}
use tec.Base.{
  ℕ, Bool, true, false, List, [], ◌∷◌, ◌++◌, length, ◌≡◌, ◌≢◌, refl, ap, ◌∙◌, inl, inr, arith, All,
  All-append, ◌==◌, Bool-cases, length-append, append-nil, append_assoc,
}

-- What every element of a normalized path is.
abbrev pub Kept : List ℕ → Type 0
Kept s = (s ≢ []) × All Plain s

pub Kept-stack : (absolute : Bool) (ss : List (List ℕ)) → IsStack absolute ss → All Kept ss
Kept-stack absolute [] h = tt
Kept-stack absolute (s ∷ []) (inl e) = ((e.filled, e.plain), tt)
Kept-stack absolute (s ∷ []) (inr (a, e)) =
    rw e ((λ q. omega (arith, ap length q), (no_slash, (no_slash, tt))), tt)
  where
    no_slash : Plain dot
    no_slash = (λ q. omega (arith, q), λ q. omega (arith, q))
Kept-stack absolute (s ∷ t ∷ ss) h = ((h.0.filled, h.0.plain), Kept-stack absolute (t ∷ ss) h.1)

-- The texts between the separators hold none.
pub getline_all-Plain :
    (begun text : List ℕ)
    → All Plain begun
    → All (λ c. c ≢ backslash) text
    → All (All Plain) (getline_all begun text)
unfolding getline_all
getline_all-Plain begun [] b h = ground (arith, b)
getline_all-Plain begun (c ∷ s) b h = elim (Bool-cases (c == slash)) [
  | inl e ↦ rw e (b, getline_all-Plain [] s tt h.1)
  | inr e ↦ rw e (
      getline_all-Plain (begun ++ (c ∷ [])) s
        (All-append Plain begun (c ∷ []) b ((ground (arith, e), h.0), tt)) h.1)
]

pub map-to_slash : (text : List ℕ) → All (λ c. c ≢ backslash) (map to_slash text)
map-to_slash [] = tt
map-to_slash (c ∷ s) = (ground arith, map-to_slash s)

pub map-to_slash_id : (text : List ℕ) → All (λ c. c ≢ backslash) text → map to_slash text ≡ text
map-to_slash_id [] h = refl
map-to_slash_id (c ∷ s) h = rw (map-to_slash_id s h.1) (ground (arith, h.0))

-- A text up to a separator.
getline_all-append :
    (begun s t : List ℕ) → All Plain s → getline_all begun (s ++ t) ≡ getline_all (begun ++ s) t
unfolding getline_all
getline_all-append begun [] t h = rw (append-nil begun) refl
getline_all-append begun (c ∷ s) t h = elim (Bool-cases (c == slash)) [
  | inl e ↦ absurd (h.0.0 (ground (arith, e)))
  | inr e ↦ rw e (
      getline_all-append (begun ++ (c ∷ [])) s t h.1
      ∙ ap (λ b. getline_all b t) (append_assoc begun (c ∷ []) s))
]

pub getline_all-slash :
    (begun t : List ℕ) → getline_all begun (slash ∷ t) ≡ begun ∷ getline_all [] t
unfolding getline_all
getline_all-slash begun t = refl

getline_all-end :
    (x : List ℕ) (leadslash : Bool) → Kept x → getline_all x (slash_if leadslash) ≡ x ∷ []
unfolding getline_all
getline_all-end [] leadslash h = absurd (h.0 refl)
getline_all-end (c ∷ x) true h = refl
getline_all-end (c ∷ x) false h = ground arith

-- The text that `rebuild` makes is cut into the elements it was made of.
pub getline_all-join :
    (x : List ℕ) (xs : List (List ℕ)) (leadslash : Bool)
    → All Kept (x ∷ xs)
    → getline_all [] (join (x ∷ xs) ++ slash_if leadslash) ≡ x ∷ xs
unfolding join
getline_all-join x [] leadslash h =
    getline_all-append [] x (slash_if leadslash) h.0.1 ∙ getline_all-end x leadslash h.0
getline_all-join x (y ∷ xs) leadslash h =
    ap (getline_all []) (append_assoc x (slash ∷ join (y ∷ xs)) (slash_if leadslash))
    ∙ getline_all-append [] x (slash ∷ (join (y ∷ xs) ++ slash_if leadslash)) h.0.1
    ∙ getline_all-slash x (join (y ∷ xs) ++ slash_if leadslash)
    ∙ ap (λ r. x ∷ r) (getline_all-join y xs leadslash h.1)

pub starts_with_slash-append : (s t : List ℕ) → Kept s → starts_with_slash (s ++ t) ≡ false
starts_with_slash-append [] t h = absurd (h.0 refl)
starts_with_slash-append (c ∷ s) t h = ground (arith, h.1.0.0)

pub ends_with-append : (c : ℕ) (s t : List ℕ) → t ≢ [] → ends_with c (s ++ t) ≡ ends_with c t
ends_with-append c s [] n = absurd (n refl)
ends_with-append c [] (d ∷ t) n = refl
ends_with-append c (b ∷ []) (d ∷ t) n = refl
ends_with-append c (b ∷ a ∷ s) (d ∷ t) n = ends_with-append c (a ∷ s) (d ∷ t) n

pub ends_with-Plain : (s : List ℕ) → All Plain s → ends_with slash s ≡ false
ends_with-Plain [] h = refl
ends_with-Plain (c ∷ []) h = ground (arith, h.0.0)
ends_with-Plain (c ∷ d ∷ s) h = ends_with-Plain (d ∷ s) h.1

join-filled : (x : List ℕ) (xs : List (List ℕ)) → Kept x → join (x ∷ xs) ≢ []
unfolding join
join-filled x [] h = h.0
join-filled x (y ∷ xs) h = λ e. omega (arith, ap length e, length-append x (slash ∷ join (y ∷ xs)))

no_backslash : (s : List ℕ) → All Plain s → All (λ c. c ≢ backslash) s
no_backslash [] h = tt
no_backslash (c ∷ s) h = (h.0.1, no_backslash s h.1)

-- The text begins and ends with characters of elements.
pub join-Kept :
    (x : List ℕ) (xs : List (List ℕ))
    → All Kept (x ∷ xs)
    → (join (x ∷ xs) ≢ [])
      × ((t : List ℕ) → starts_with_slash (join (x ∷ xs) ++ t) ≡ false)
      × (ends_with slash (join (x ∷ xs)) ≡ false)
      × All (λ c. c ≢ backslash) (join (x ∷ xs))
unfolding join
join-Kept x [] h =
    (h.0.0, λ t. starts_with_slash-append x t h.0, ends_with-Plain x h.0.1, no_backslash x h.0.1)
join-Kept x (y ∷ xs) h =
    let (n, s, e, b) = join-Kept y xs h.1 in
    (
      join-filled x (y ∷ xs) h.0,
      λ t.
          ap starts_with_slash (append_assoc x (slash ∷ join (y ∷ xs)) t)
          ∙ starts_with_slash-append x (slash ∷ (join (y ∷ xs) ++ t)) h.0,
      ends_with-append slash x (slash ∷ join (y ∷ xs)) (λ e. omega (arith, ap length e))
          ∙ ends_with-append slash (slash ∷ []) (join (y ∷ xs)) n
          ∙ e,
      All-append (λ c. c ≢ backslash) x (slash ∷ join (y ∷ xs)) (no_backslash x h.0.1)
          ((λ q. omega (arith, q)), b),
    )
