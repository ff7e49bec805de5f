-- ===== src/FilePath/Names.antt =====
-- How the parts of a path make up the path (`FileName`, `FileStem`, `FileExtension` and `BasePath` of
-- common/filesystem.cpp).
use mathlib.Core.Option.{none-ne-some, some-injective}
use tec.Base.{
  ℕ, ◌+◌, ◌≡◌, ◌≢◌, refl, ap, sym, ◌∙◌, ◌⊎◌, inl, inr, false, none, some, List, [], ◌∷◌, ◌++◌,
  length, take, ◌==◌, arith, Bool-cases, All, take-length, length-append,
}
use tec.FilePath.Text.{slash, dot}
use tec.FilePath.{FilePath, ends_with}
use tec.FilePath.Parts.{
  split_last, after_last, file_name, file_stem, file_extension, end_of, base_path,
}

abbrev pub Without : ℕ → List ℕ → Type 0
Without c = All (λ d. d ≢ c)

-- What `split_last` finds.
split_last-lem :
    (c : ℕ) (s : List ℕ)
    → ((split_last c s ≡ none) × Without c s)
      ⊎ ((before after : List ℕ) × (split_last c s ≡ some (before, after))
          × (s ≡ before ++ (c ∷ after))
          × Without c after)
unfolding split_last
split_last-lem c [] = inl (refl, tt)
split_last-lem c (d ∷ s) = elim (split_last-lem c s) [
  | inl (missing, without) ↦ elim (Bool-cases (d == c)) [
    | inl same ↦
        inr ([], s, rw (missing, same) refl, ap (λ e. e ∷ s) (ground (arith, same)), without)
    | inr other ↦ inl (rw (missing, other) refl, (ground (arith, other), without))
  ]
  | inr (before, after, there, e, without) ↦
      inr (d ∷ before, after, rw there refl, ap (λ t. d ∷ t) e, without)
]

file_name_lem :
    (p : FilePath)
    → Without slash (file_name p)
      × ((p.path ≡ file_name p) ⊎ ((before : List ℕ) × (p.path ≡ before ++ (slash ∷ file_name p))))
unfolding file_name
file_name_lem p = elim (split_last-lem slash p.path) [
  | inl (missing, without) ↦ rw (file_name, missing) (without, inl refl)
  | inr (before, after, there, e, without) ↦ rw (file_name, there) (without, inr (before, e))
]

stem_lem :
    (p : FilePath)
    → ((file_name p ≡ file_stem p ++ (dot ∷ file_extension p)) × Without dot (file_extension p))
      ⊎ (Without dot (file_name p) × (file_stem p ≡ []) × (file_extension p ≡ []))
unfolding file_stem file_extension
stem_lem p = elim (split_last-lem dot (file_name p)) [
  | inl (missing, without) ↦
      inr (without, rw (file_stem, missing) refl, rw (file_extension, missing) refl)
  | inr (before, after, there, e, without) ↦
      rw (file_stem, file_extension, there) (inl (e, without))
]

-- The name of a file holds no separator. The path is the name alone, or a text, a separator and the
-- name. The name is the stem, a dot and the extension, which holds no dot; or it holds no dot, and
-- then stem and extension are empty.
pub file_name-parts :
    (p : FilePath)
    → Without slash (file_name p)
      × ((p.path ≡ file_name p) ⊎ ((before : List ℕ) × (p.path ≡ before ++ (slash ∷ file_name p))))
      × (((file_name p ≡ file_stem p ++ (dot ∷ file_extension p)) × Without dot (file_extension p))
          ⊎ (Without dot (file_name p) × (file_stem p ≡ []) × (file_extension p ≡ [])))
file_name-parts p = let (without, placed) = file_name_lem p in (without, placed, stem_lem p)

-- The base path of a path with a separator behind its start is what stands before the last separator,
-- with the same device: base path, separator and file name are the path.
pub base_path-file_name :
    (p : FilePath) (c : ℕ) (before after : List ℕ)
    → split_last slash p.path ≡ some (c ∷ before, after)
    → ((base_path p).device ≡ p.device) × ((base_path p).path ++ (slash ∷ file_name p) ≡ p.path)
unfolding base_path file_name
base_path-file_name p c before after h =
    let filled : (length p.path == 0) ≡ false = elim (split_last-lem slash p.path) [
      | inl (missing, _) ↦ absurd (none-ne-some (c ∷ before, after) (sym missing ∙ h))
      | inr (b, a, there, e, _) ↦ ground (arith, ap length e, length-append b (slash ∷ a))
    ] in
    let cut : take (end_of p + 1) p.path ≡ p.path = elim (Bool-cases (ends_with slash p.path)) [
      | inl slashed ↦ take-length (end_of p + 1) p.path (rw slashed (ground (arith, filled)))
      | inr open_end ↦ take-length (end_of p + 1) p.path (rw open_end (omega arith))
    ] in
    let base : base_path p ≡ record { device = p.device; path = c ∷ before } =
      rw (base_path, filled, cut, h) refl in
    let name : file_name p ≡ after = ap (after_last p.path) h in
    (
      ap (λ q. q.device) base,
      ap (λ q. q.path ++ (slash ∷ file_name p)) base
          ∙ ap (λ n. (c ∷ before) ++ (slash ∷ n)) name
          ∙ rejoined,
    )
  where
    rejoined : (c ∷ before) ++ (slash ∷ after) ≡ p.path
    rejoined = elim (split_last-lem slash p.path) [
      | inl (missing, _) ↦ absurd (none-ne-some (c ∷ before, after) (sym missing ∙ h))
      | inr (b, a, there, e, _) ↦
          let same : (c ∷ before, after) ≡ (b, a) =
            some-injective (c ∷ before, after) (b, a) (sym h ∙ there) in
          ap (λ r. r.0 ++ (slash ∷ r.1)) same ∙ sym e
    ]
