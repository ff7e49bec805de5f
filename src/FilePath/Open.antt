-- ===== src/FilePath/Open.antt =====
-- common/filesystem.cpp, class `Path`: the native path, the assets and the modes in which files are
-- opened, on Unix. What is asked of the operating system is a parameter. An exception is a `Failure`.
use tec.Base.{
  ℕ, Bool, true, false, not, ◌||◌, Option, none, some, List, [], ◌∷◌, ◌++◌, length, ltb,
  if◌then◌else◌,
}
use tec.FilePath.Text.{same_text}
use tec.FilePath.{FilePath, of_text}
use tec.FilePath.Parts.{is_valid, append, append_text, base_path, empty}

pub data Failure : Type 0 where
  invalid_path : Failure
  device_not_available : Failure
  append_invalid : Failure
  no_assets : Failure
  not_created : Failure
  invalid_flags : Failure
  no_file : Failure

pub data Result {ℓ} (A : Type ℓ) : Type ℓ where
  ok : A → Result A
  failed : Failure → Result A

abbrev pub then_do {ℓ κ} : {A : Type ℓ} {B : Type κ} → Result A → (A → Result B) → Result B
then_do (ok a) f = f a
then_do (failed e) f = failed e

-- "assets:"
abbrev pub assets_device : List ℕ
assets_device = 97 ∷ 115 ∷ 115 ∷ 101 ∷ 116 ∷ 115 ∷ 58 ∷ []

-- The end of `GetNativePath`: no devices on Unix.
abbrev pub without_device : FilePath → Result (List ℕ)
without_device p = if ltb 0 (length p.device) then failed device_not_available else ok p.path

abbrev pub joined : Option FilePath → Result (List ℕ)
joined none = failed append_invalid
joined (some p) = without_device p

-- `GetNativePath`, given what `GetAssetsBasePath` does.
unfoldable pub get_native_path : Result FilePath → FilePath → Result (List ℕ)
get_native_path assets p =
    if not (is_valid p)
    then failed invalid_path
    else if ltb 2 (length p.device)
    then (if same_text p.device assets_device
        then then_do assets (λ base. joined (append base (of_text p.path)))
        else failed device_not_available)
    else without_device p

-- `PATH_OPEN_FLAGS`
pub record Flags : Type 0 where
  pub readwrite : Bool
  pub create : Bool
  pub append_to : Bool

-- `mode_str` of `OpenFile`, less its "b".
pub data Mode : Type 0 where
  r : Mode
  r_plus : Mode
  w_plus : Mode
  a_plus : Mode

module _ (assets : Result FilePath) (readable : List ℕ → Bool) where
  -- `FileExists`
  unfoldable pub file_exists : FilePath → Result Bool
  file_exists p = then_do (get_native_path assets p) (λ n. ok (readable n))

  -- The mode of `OpenFile`, and whether it goes to the end of the file.
  unfoldable pub file_mode : Flags → FilePath → Result (Mode × Bool)
  file_mode flags p =
      let writing : Result (Mode × Bool) =
        if flags.create
        then ok (if flags.append_to then a_plus else w_plus, false)
        else then_do (file_exists p)
            (λ exists. if exists then ok (r_plus, flags.append_to) else failed not_created) in
      if flags.readwrite
      then writing
      else if flags.create || flags.append_to
      then failed invalid_flags
      else ok (r, false)

  -- `OpenFile`: the native path that is opened, in which mode, and whether at its end. `opens` says
  -- whether `fopen` succeeds.
  unfoldable pub open_file :
      (List ℕ → Mode → Bool) → Flags → FilePath → Result (List ℕ × (Mode × Bool))
  open_file opens flags p =
      if not (is_valid p)
      then failed invalid_path
      else then_do (file_mode flags p) (λ mode.
        then_do (get_native_path assets p)
          (λ n. if opens n mode.0 then ok (n, mode) else failed no_file))

-- The mode of a `std::fstream`, less `binary`.
pub record StreamMode : Type 0 where
  pub input : Bool
  pub output : Bool
  pub app : Bool
  pub ate : Bool

module _ (assets : Result FilePath) (readable : List ℕ → Bool) where
  -- The mode of `OpenStream`.
  unfoldable pub stream_mode : Flags → FilePath → Result StreamMode
  stream_mode flags p =
      let writing : Result StreamMode =
        ok
          (record { input = false; output = true; app = flags.append_to; ate = flags.append_to }) in
      if flags.readwrite
      then (if flags.create
          then writing
          else then_do (file_exists assets readable p)
              (λ exists. if exists then writing else failed not_created))
      else if flags.create || flags.append_to
      then failed invalid_flags
      else then_do (file_exists assets readable p) (λ exists.
        if exists
        then ok (record { input = true; output = false; app = false; ate = false })
        else failed no_file)

  -- `OpenStream`: the native path and the mode.
  unfoldable pub open_stream : Flags → FilePath → Result (List ℕ × StreamMode)
  open_stream flags p =
      if not (is_valid p)
      then failed invalid_path
      else then_do (stream_mode flags p)
          (λ mode. then_do (get_native_path assets p) (λ n. ok (n, mode)))

-- The directories that `LocateAssets` probes, in order; `none` where it would throw.
abbrev pub probes : FilePath → FilePath → List ℕ → List (Option FilePath)
probes working_dir program_path app_name =
    append_text (some working_dir) assets_dir
    ∷ append_text (some program) assets_dir
    ∷ append_text (some (base_path program)) share_assets_dir
    ∷ append_text (append_text (append_text (some (base_path program)) share_dir) app_name)
        assets_dir
    ∷ append_text (some (base_path (base_path program))) assets_dir
    ∷ []
  where
    program : FilePath
    program = base_path program_path

    -- "assets/"
    assets_dir : List ℕ
    assets_dir = 97 ∷ 115 ∷ 115 ∷ 101 ∷ 116 ∷ 115 ∷ 47 ∷ []

    -- "share"
    share_dir : List ℕ
    share_dir = 115 ∷ 104 ∷ 97 ∷ 114 ∷ 101 ∷ []

    -- "share/assets/"
    share_assets_dir : List ℕ
    share_assets_dir = share_dir ++ (47 ∷ assets_dir)

-- `LocateAssets` over the probes: the first directory that exists, if there is one.
unfoldable pub locate : (FilePath → Bool) → List (Option FilePath) → Result (Option FilePath)
locate dir_exists [] = ok none
locate dir_exists (none ∷ ps) = failed append_invalid
locate dir_exists (some p ∷ ps) =
    let rest = locate dir_exists ps in if dir_exists p then ok (some p) else rest

-- `GetAssetsBasePath`, from the cached `assets_base`: its value after the call, which is what the call
-- returns.
unfoldable pub get_assets_base_path :
    (FilePath → Bool) → List (Option FilePath) → FilePath → Result FilePath
get_assets_base_path dir_exists ps assets_base =
    if not (empty assets_base)
    then ok assets_base
    else then_do (locate dir_exists ps) (λ found. elim found [
      | none ↦ failed no_assets
      | some p ↦ if empty p then failed no_assets else ok p
    ])
