-- ===== src/FilePath/Idempotent.antt =====
-- `NormalizePath` of common/filesystem.cpp: what a normalized path is, and that it is normal.
use mathlib.Core.List.{reverse, map}
use tec.FilePath.Text.{same_text, slash, dot, any, is_special, star}
use tec.FilePath.{
  FilePath, visit, visit_all, getline_all, join, to_slash, slash_if, ends_with, flag, rebuild,
  normalize, starts_with_slash,
}
use tec.FilePath.Segments.{All-reverse, length_filled}
use tec.FilePath.Stack.{IsStack, visit_all-IsStack, visit_all-reverse}
use tec.FilePath.Normal.{Kept, Kept-stack, getline_all-Plain, map-to_slash, join-Kept}
use tec.FilePath.Reading.{leads, slash_if_element, ends_with_last, reads}
use tec.Base.{
  ℕ, Bool, true, false, not, ◌||◌, List, [], ◌∷◌, ◌++◌, length, ◌≡◌, ◌≢◌, refl, sym, ap, ◌∙◌, ◌⊎◌,
  inl, inr, arith, All, ◌==◌, if◌then◌else◌, Bool-cases, length-append,
}

flag_idem : (text device : List ℕ) → flag text (flag text device) ≡ flag text device
unfolding flag
flag_idem text device = elim (Bool-cases (any is_special text)) [
  | inr clean ↦ rw clean refl
  | inl has ↦ elim (Bool-cases (length device == 0 || not (ends_with star device))) [
    | inr kept ↦ rw (has, kept, kept) refl
    | inl marked ↦ rw (has, marked, ends_with_last star device) (after device)
  ]
]
  where
    after :
        (device : List ℕ)
        → (if length (device ++ (star ∷ [])) == 0 || false
            then device ++ (star ∷ []) ++ (star ∷ [])
            else device ++ (star ∷ []))
          ≡ device ++ (star ∷ [])
    after [] = refl
    after (c ∷ device) = ground arith

nothing :
    (absolute leadslash : Bool) (device : List ℕ)
    → normalize (rebuild absolute leadslash device []) ≡ rebuild absolute leadslash device []
unfolding normalize rebuild getline_all visit_all visit same_text
nothing true leadslash device = refl
nothing false true device = refl
nothing false false device = refl

visit_all-element :
    (absolute : Bool) (xs : List (List ℕ))
    → visit_all absolute [] (slash_if_element absolute xs) ≡ visit_all absolute [] xs
unfolding visit_all visit
visit_all-element true xs = refl
visit_all-element false xs = refl

something :
    (absolute leadslash : Bool) (device x : List ℕ) (xs : List (List ℕ))
    → All Kept (x ∷ xs)
    → reverse (visit_all absolute [] (x ∷ xs)) ≡ x ∷ xs
    → normalize (rebuild absolute leadslash device (x ∷ xs))
      ≡ rebuild absolute leadslash device (x ∷ xs)
unfolding normalize rebuild
something absolute leadslash device x xs h again =
    let (text, starts, ends, elements) = reads absolute leadslash x xs h in
    let long : (length ((slash_if absolute ++ join (x ∷ xs)) ++ slash_if leadslash) == 0) ≡ false =
      ground (
        arith,
        length-append (slash_if absolute ++ join (x ∷ xs)) (slash_if leadslash),
        length-append (slash_if absolute) (join (x ∷ xs)),
        length_filled (join (x ∷ xs)) (join-Kept x xs h).0,
      ) in
    rw (long, text, starts, ends, elements, visit_all-element absolute (x ∷ xs), again)
      (ap
        (λ d. record {
          device = d;
          path = (slash_if absolute ++ join (x ∷ xs)) ++ slash_if leadslash;
        })
        (flag_idem (slash_if absolute ++ join (x ∷ xs)) device))

length_0 : (s : List ℕ) → s ≢ [] → (length s == 0) ≡ false
length_0 [] n = absurd (n refl)
length_0 (c ∷ s) n = ground arith

-- The elements that are left of a path, the last one first.
abbrev pub kept : FilePath → List (List ℕ)
kept p =
    visit_all (starts_with_slash (map to_slash p.path)) [] (getline_all [] (map to_slash p.path))

kept-IsStack : (p : FilePath) → IsStack (starts_with_slash (map to_slash p.path)) (kept p)
kept-IsStack p =
    visit_all-IsStack (starts_with_slash (map to_slash p.path)) []
      (getline_all [] (map to_slash p.path))
      (getline_all-Plain [] (map to_slash p.path) tt (map-to_slash p.path)) tt

normalize-rebuild :
    (p : FilePath)
    → p.path ≢ []
    → normalize p
      ≡ rebuild
          (starts_with_slash (map to_slash p.path))
          (leads (map to_slash p.path))
          p.device
          (reverse (kept p))
unfolding normalize
normalize-rebuild p n = rw (length_0 p.path n) refl

-- A text that reads as the elements, with a separator at its start and at its end or without.
abbrev pub ReadsAs : Bool → Bool → List (List ℕ) → List ℕ → Type 0
ReadsAs absolute leadslash [] path =
    path ≡ (if absolute then slash ∷ [] else dot ∷ slash_if leadslash)
ReadsAs absolute leadslash (x ∷ xs) path =
    (map to_slash path ≡ path)
    × (starts_with_slash path ≡ absolute)
    × (leads path ≡ leadslash)
    × (getline_all [] path ≡ slash_if_element absolute (x ∷ xs))

rebuild-ReadsAs :
    (absolute leadslash : Bool) (device : List ℕ) (xs : List (List ℕ))
    → All Kept xs
    → ReadsAs absolute leadslash xs (rebuild absolute leadslash device xs).path
unfolding rebuild
rebuild-ReadsAs absolute leadslash device [] h = refl
rebuild-ReadsAs absolute leadslash device (x ∷ xs) h = reads absolute leadslash x xs h

-- The elements that `NormalizePath` is left with, of a path that is not empty, hold no separator; none
-- is empty or ".", and only a relative path has a "..", as its first one; and going through them again leaves them. The path
-- that it makes holds no backslash and reads as these elements, with a separator in front if the
-- path had one in front, and one at the end if it had one there; where no element is left, it is "/",
-- or ".", or "./" for a relative path with a separator at its end.
pub normalize-IsStack :
    (p : FilePath)
    → p.path ≢ []
    → IsStack (starts_with_slash (map to_slash p.path)) (kept p)
      × (visit_all (starts_with_slash (map to_slash p.path)) [] (reverse (kept p)) ≡ kept p)
      × ReadsAs
          (starts_with_slash (map to_slash p.path))
          (leads (map to_slash p.path))
          (reverse (kept p))
          (normalize p).path
normalize-IsStack p n =
    let absolute = starts_with_slash (map to_slash p.path) in
    let stack : IsStack absolute (kept p) = kept-IsStack p in
    let shape : ReadsAs absolute (leads (map to_slash p.path)) (reverse (kept p))
        (rebuild absolute (leads (map to_slash p.path)) p.device (reverse (kept p))).path =
      rebuild-ReadsAs absolute (leads (map to_slash p.path)) p.device (reverse (kept p))
        (All-reverse Kept (kept p) (Kept-stack absolute (kept p) stack)) in
    (stack, visit_all-reverse absolute (kept p) stack, rw (normalize-rebuild p n) shape)

nil-cases : (s : List ℕ) → (s ≡ []) ⊎ (s ≢ [])
nil-cases [] = inl refl
nil-cases (c ∷ s) = inr (λ e. omega (arith, ap length e))

untouched : (p : FilePath) → p.path ≡ [] → normalize p ≡ p
unfolding normalize
untouched p e = rw e refl

-- Normalizing a path that is normalized changes nothing.
pub normalize_idem : (p : FilePath) → normalize (normalize p) ≡ normalize p
normalize_idem p = elim (nil-cases p.path) [
  | inl e ↦ let same : normalize p ≡ p = untouched p e in ap normalize same
  | inr n ↦
      let (stack, again, shape) = normalize-IsStack p n in
      let ss = kept p in
      let e = normalize-rebuild p n in
      let absolute = starts_with_slash (map to_slash p.path) in
      ap normalize e
      ∙ rebuilt absolute (leads (map to_slash p.path)) p.device (reverse ss)
          (All-reverse Kept ss (Kept-stack absolute ss stack)) (ap reverse again)
      ∙ sym e
]
  where
    rebuilt :
        (absolute leadslash : Bool) (device : List ℕ) (xs : List (List ℕ))
        → All Kept xs
        → reverse (visit_all absolute [] xs) ≡ xs
        → normalize (rebuild absolute leadslash device xs) ≡ rebuild absolute leadslash device xs
    rebuilt absolute leadslash device [] h again = nothing absolute leadslash device
    rebuilt absolute leadslash device (x ∷ xs) h again =
        something absolute leadslash device x xs h again
