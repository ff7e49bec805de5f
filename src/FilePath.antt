-- ===== src/FilePath.antt =====
-- common/filesystem.hpp and common/filesystem.cpp, class `Path`: the textual part. A text is the list of
-- its bytes. Paths here are the Unix ones (`GetNativePath` is below in `Open`).
pub mod Text
pub mod Segments
pub mod Stack
pub mod Normal
pub mod Reading
pub mod Idempotent
pub mod Parts
pub mod Names
pub mod Open
pub mod Modes
pub mod Tests
use tec.FilePath.Text.{
  slash, backslash, dot, space, star, colon, is_letter, is_special, last?, any, same_text,
}
use tec.Base.{
  ℕ, ◌+◌, Bool, true, false, not, ◌&&◌, ◌||◌, Option, none, some, List, [], ◌∷◌, ◌++◌, length, take,
  drop, ltb, ◌==◌, if◌then◌else◌,
}
use mathlib.Core.List.{reverse, map}

pub record FilePath : Type 0 where
  pub device : List ℕ
  pub path : List ℕ

-- `Path::Path()`
unfoldable pub empty_path : FilePath
empty_path = record { device = []; path = [] }

-- Where the match of `^[a-zA-Z]+:` ends, if there is one.
unfoldable pub device_end : ℕ → List ℕ → Option ℕ
device_end n [] = none
device_end n (c ∷ s) =
    let rest = device_end (n + 1) s in
    if is_letter c then rest else if c == colon && ltb 0 n then some (n + 1) else none

abbrev pub starts_with_slash : List ℕ → Bool
starts_with_slash [] = false
starts_with_slash (c ∷ s) = c == slash

-- The path behind a device: made absolute.
unfoldable pub after_device : List ℕ → List ℕ
after_device rest = if starts_with_slash rest then rest else slash ∷ rest

-- `SetDevice`
unfoldable pub set_device : FilePath → FilePath
set_device p = elim (device_end 0 p.path) [
  | none ↦ p
  | some n ↦ record { device = take n p.path; path = after_device (drop n p.path) }
]

-- The texts that `std::getline` reads with '/' for a delimiter, from the one begun on.
unfoldable pub getline_all : List ℕ → List ℕ → List (List ℕ)
getline_all begun [] = if length begun == 0 then [] else begun ∷ []
getline_all begun (c ∷ s) =
    let next = begun ∷ getline_all [] s in
    let more = getline_all (begun ++ (c ∷ [])) s in if c == slash then next else more

-- The loop that takes dots and spaces off the end, over the reversed element.
unfoldable pub strip_reversed : List ℕ → List ℕ
strip_reversed [] = []
strip_reversed (a ∷ []) = a ∷ []
strip_reversed (a ∷ b ∷ []) = a ∷ b ∷ []
strip_reversed (a ∷ b ∷ c ∷ s) =
    if a == dot || a == space then strip_reversed (b ∷ c ∷ s) else a ∷ b ∷ c ∷ s

unfoldable pub strip : List ℕ → List ℕ
strip s = reverse (strip_reversed (reverse s))

abbrev pub dots : List ℕ
dots = dot ∷ dot ∷ []

-- An element "..".
abbrev pub go_up : Bool → List (List ℕ) → List (List ℕ)
go_up absolute [] = if absolute then [] else dots ∷ []
go_up absolute (x ∷ xs) = xs

-- One round of the loop over the elements. `npath` is held back to front.
unfoldable pub visit : Bool → List (List ℕ) → List ℕ → List (List ℕ)
visit absolute npath s =
    if length s == 0 || same_text s (dot ∷ [])
    then npath
    else if same_text (strip s) dots
    then go_up absolute npath
    else strip s ∷ npath

unfoldable pub visit_all : Bool → List (List ℕ) → List (List ℕ) → List (List ℕ)
visit_all absolute npath [] = npath
visit_all absolute npath (s ∷ ss) = visit_all absolute (visit absolute npath s) ss

-- The elements with '/' between them.
unfoldable pub join : List (List ℕ) → List ℕ
join [] = []
join (x ∷ []) = x
join (x ∷ y ∷ xs) = x ++ (slash ∷ join (y ∷ xs))

abbrev pub to_slash : ℕ → ℕ
to_slash c = if c == backslash then slash else c

abbrev pub slash_if : Bool → List ℕ
slash_if true = slash ∷ []
slash_if false = []

abbrev pub ends_with : ℕ → List ℕ → Bool
ends_with c s = elim (last? s) [ none ↦ false | some d ↦ d == c ]

-- Marks a path with forbidden characters as invalid.
unfoldable pub flag : List ℕ → List ℕ → List ℕ
flag text device =
    if any is_special text
    then (if length device == 0 || not (ends_with star device)
        then device ++ (star ∷ [])
        else device)
    else device

-- `NormalizePath`: the path put together again from its elements (`npath` in order).
unfoldable pub rebuild : Bool → Bool → List ℕ → List (List ℕ) → FilePath
rebuild absolute leadslash device [] = record {
  device = device;
  path = if absolute then slash ∷ [] else dot ∷ slash_if leadslash;
}
rebuild absolute leadslash device (x ∷ xs) =
    let text = slash_if absolute ++ join (x ∷ xs) in
    record { device = flag text device; path = text ++ slash_if leadslash }

unfoldable pub normalize : FilePath → FilePath
normalize p =
    let path = map to_slash p.path in
    let absolute = starts_with_slash path in
    let leadslash = ltb 1 (length path) && ends_with slash path in
    if length p.path == 0
    then p
    else rebuild absolute leadslash p.device (reverse (visit_all absolute [] (getline_all [] path)))

-- The constructors and assignments from a text.
unfoldable pub of_text : List ℕ → FilePath
of_text text = normalize (set_device (record { device = []; path = text }))
