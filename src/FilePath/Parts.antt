-- ===== src/FilePath/Parts.antt =====
-- common/filesystem.cpp and common/filesystem.hpp, class `Path`: the parts of a path, and paths put
-- together. An exception is `none`.
use tec.Base.{
  ℕ, ◌+◌, ◌-◌, Bool, true, false, not, ◌&&◌, ◌||◌, Option, none, some, List, [], ◌∷◌, ◌++◌, length,
  take, drop, ltb, leb, ◌==◌, if◌then◌else◌,
}
use tec.FilePath.Text.{slash, dot, star, same_text}
use tec.FilePath.{
  FilePath, empty_path, starts_with_slash, ends_with, getline_all, normalize, of_text,
}

-- A text around the last place of a character.
unfoldable pub split_last : ℕ → List ℕ → Option (List ℕ × List ℕ)
split_last c [] = none
split_last c (d ∷ s) = elim (split_last c s) [
  | none ↦ if d == c then some ([], s) else none
  | some (before, after) ↦ some (d ∷ before, after)
]

abbrev pub after_last : List ℕ → Option (List ℕ × List ℕ) → List ℕ
after_last s none = s
after_last s (some (before, after)) = after

-- `FileName`
unfoldable pub file_name : FilePath → List ℕ
file_name p = after_last p.path (split_last slash p.path)

-- `FileStem`
unfoldable pub file_stem : FilePath → List ℕ
file_stem p = elim (split_last dot (file_name p)) [ none ↦ [] | some (before, after) ↦ before ]

-- `FileExtension`
unfoldable pub file_extension : FilePath → List ℕ
file_extension p = elim (split_last dot (file_name p)) [ none ↦ [] | some (before, after) ↦ after ]

abbrev pub base_of : FilePath → Option (List ℕ × List ℕ) → FilePath
base_of p none = record { device = []; path = dot ∷ [] }
base_of p (some ([], after)) = record { device = p.device; path = take 1 p.path }
base_of p (some (c ∷ before, after)) = record { device = p.device; path = c ∷ before }

-- `len` of `BasePath`
abbrev pub end_of : FilePath → ℕ
end_of p = if ends_with slash p.path then length p.path - 1 else length p.path

-- `BasePath`: `find_last_of` looks at the characters up to index `len`.
unfoldable pub base_path : FilePath → FilePath
base_path p =
    if length p.path == 0
    then empty_path
    else base_of p (split_last slash (take (end_of p + 1) p.path))

-- `isAbsolutePath`
unfoldable pub is_absolute_path : FilePath → Bool
is_absolute_path p = starts_with_slash p.path

-- `Relative`
unfoldable pub relative : FilePath → FilePath
relative p = if is_absolute_path p then record { device = []; path = drop 1 p.path } else p

-- `toString`
unfoldable pub to_string : FilePath → List ℕ
to_string p = p.device ++ p.path

-- `empty`
unfoldable pub empty : FilePath → Bool
empty p = length p.device == 0 && length p.path == 0

-- `operator bool`
unfoldable pub is_valid : FilePath → Bool
is_valid p = not (length p.path == 0) && not (not (length p.device == 0) && ends_with star p.device)

-- `operator/=`. (The front of an empty text is the 0 behind it.)
unfoldable pub append : FilePath → FilePath → Option FilePath
append p rhs =
    let apart : List ℕ =
      if empty rhs || not (starts_with_slash rhs.path) then slash ∷ rhs.path else rhs.path in
    if length p.path == 0
    then some (normalize (record { device = rhs.device; path = p.path ++ apart }))
    else if not (length rhs.device == 0)
    then none
    else some (
        normalize
          (record p { path = p.path ++ (if ends_with slash p.path then rhs.path else apart) }))

-- `operator/=` of a text.
abbrev pub append_text : Option FilePath → List ℕ → Option FilePath
append_text none s = none
append_text (some p) s = append p (of_text s)

-- The loop of `Subpath`, over the elements that `getline` reads.
unfoldable pub subpath_loop : ℕ → ℕ → ℕ → List (List ℕ) → Option FilePath → Option FilePath
subpath_loop begin end count [] ret = ret
subpath_loop begin end count (s ∷ ss) ret =
    let ret' : Option FilePath =
      if count == begin && ltb 0 begin
      then some (of_text s)
      else if leb begin count && ltb count end
      then append_text ret s
      else ret in
    let more = subpath_loop begin end (count + 1) ss ret' in if ltb count end then more else ret

-- `Subpath`
unfoldable pub subpath : ℕ → ℕ → FilePath → Option FilePath
subpath begin end p =
    let root : FilePath = record {
      device = p.device;
      path = if is_absolute_path p then slash ∷ [] else [];
    } in
    subpath_loop begin end 0 (getline_all [] p.path)
      (some (if begin == 0 then root else empty_path))

-- The loop of `SubpathFrom`: whether the needle was found and whether the next element is the first.
unfoldable pub subpath_from_loop :
    List ℕ → Bool → Bool → Bool → List (List ℕ) → Option FilePath → Option FilePath
subpath_from_loop needle include found first [] ret = ret
subpath_from_loop needle include found first (s ∷ ss) ret =
    let hit = same_text s needle in
    let ret' : Option FilePath =
      if found
      then (if first then some (of_text s) else append_text ret s)
      else if hit && include
      then some (of_text s)
      else ret in
    let first' = if found then false else if hit && include then false else first in
    subpath_from_loop needle include (found || hit) first' ss ret'

-- `SubpathFrom`
unfoldable pub subpath_from : List ℕ → Bool → FilePath → Option FilePath
subpath_from needle include p =
    subpath_from_loop needle include false true (getline_all [] p.path) (some empty_path)
