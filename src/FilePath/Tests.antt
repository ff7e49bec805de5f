-- ===== src/FilePath/Tests.antt =====
-- Tests of paths (common/filesystem.cpp).
use mathlib.Core.List.{reverse, map}
use tec.Base.{Bool, true, false, ◌≡◌, refl, ap, arith, ℕ, List, [], ◌∷◌, length}
use tec.FilePath.{FilePath, normalize, starts_with_slash, to_slash, visit_all}
use tec.FilePath.Open.{
  failed, invalid_flags, no_assets, Flags, file_exists, file_mode, stream_mode, get_native_path,
}
use tec.FilePath.Modes.{file_emptied, stream_emptied, emptied}
use tec.FilePath.Parts.{is_valid}
use tec.FilePath.Stack.{IsStack}
use tec.FilePath.Reading.{leads}
use tec.FilePath.Idempotent.{kept, ReadsAs, normalize-IsStack, normalize_idem}

-- "usr\./x/../../../y", relative and with no device.
abbrev relative : FilePath
relative = record {
  device = [];
  path = 117 ∷ 92 ∷ 46 ∷ 47 ∷ 120 ∷ 47 ∷ 46 ∷ 46 ∷ 47 ∷ 46 ∷ 46 ∷ 47 ∷ 46 ∷ 46 ∷ 47 ∷ 121 ∷ [];
}

normalize-IsStack_example :
    IsStack (starts_with_slash (map to_slash relative.path)) (kept relative)
    × (visit_all (starts_with_slash (map to_slash relative.path)) [] (reverse (kept relative))
        ≡ kept relative)
    × ReadsAs
        (starts_with_slash (map to_slash relative.path))
        (leads (map to_slash relative.path))
        (reverse (kept relative))
        (normalize relative).path
normalize-IsStack_example = normalize-IsStack relative (λ e. omega (arith, ap length e))

normalize_idem_example : normalize (normalize relative) ≡ normalize relative
normalize_idem_example = normalize_idem relative

-- "a/b.c"
abbrev file : FilePath
file = record { device = []; path = 97 ∷ 47 ∷ 98 ∷ 46 ∷ 99 ∷ [] }

abbrev writing : Flags
writing = record { readwrite = true; create = false; append_to = false }

abbrev every_file : List ℕ → Bool
every_file n = true

emptied_example :
    (file_emptied (file_mode (failed no_assets) every_file writing file) ≡ false)
    × (stream_emptied (stream_mode (failed no_assets) every_file writing file) ≡ true)
    × (true ≡ false
        → false ≡ true
        → (file_mode (failed no_assets) every_file writing file ≡ failed invalid_flags)
          × (stream_mode (failed no_assets) every_file writing file ≡ failed invalid_flags))
emptied_example =
    emptied (failed no_assets) every_file writing file
      (unfold file_exists get_native_path is_valid in refl)
