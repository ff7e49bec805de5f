-- ===== src/FilePath/Modes.antt =====
-- What opening a file does to it (`OpenFile` and `OpenStream` of common/filesystem.cpp).
use tec.Base.{ℕ, Bool, true, false, not, ◌&&◌, ◌||◌, List, ◌≡◌, refl}
use tec.FilePath.{FilePath}
use tec.FilePath.Open.{
  Result, ok, failed, invalid_flags, Flags, Mode, r, r_plus, w_plus, a_plus, StreamMode,
  file_exists, file_mode, stream_mode,
}

-- A file that exists is emptied: `fopen` with "w", a `std::fstream` with `out` and neither `in` nor `app`.
abbrev pub file_emptied : Result (Mode × Bool) → Bool
file_emptied (ok (w_plus, seek)) = true
file_emptied (ok (r, seek)) = false
file_emptied (ok (r_plus, seek)) = false
file_emptied (ok (a_plus, seek)) = false
file_emptied (failed e) = false

abbrev pub stream_emptied : Result StreamMode → Bool
stream_emptied (ok m) = m.output && not m.input && not m.app
stream_emptied (failed e) = false

module _ (assets : Result FilePath) (readable : List ℕ → Bool) where
  -- Of a file that exists, `OpenFile` empties it just when it is to be written and created and not to be
  -- appended to, but `OpenStream` whenever it is to be written and not to be appended to, also if it
  -- is not to be created. Both refuse to create or append what is only read.
  pub emptied :
      (flags : Flags) (p : FilePath)
      → file_exists assets readable p ≡ ok true
      → (file_emptied (file_mode assets readable flags p)
          ≡ (flags.readwrite && flags.create && not flags.append_to))
        × (stream_emptied (stream_mode assets readable flags p)
            ≡ (flags.readwrite && not flags.append_to))
        × (flags.readwrite ≡ false
            → (flags.create || flags.append_to) ≡ true
            → (file_mode assets readable flags p ≡ failed invalid_flags)
              × (stream_mode assets readable flags p ≡ failed invalid_flags))
  unfolding file_mode stream_mode
  emptied flags p h = by_flags flags.readwrite flags.create flags.append_to
    where
      by_flags :
          (w c a : Bool)
          → let f : Flags = record { readwrite = w; create = c; append_to = a } in
            (file_emptied (file_mode assets readable f p) ≡ (w && c && not a))
            × (stream_emptied (stream_mode assets readable f p) ≡ (w && not a))
            × (w ≡ false
                → (c || a) ≡ true
                → (file_mode assets readable f p ≡ failed invalid_flags)
                  × (stream_mode assets readable f p ≡ failed invalid_flags))
      by_flags true true true = (refl, refl, λ e. cc e)
      by_flags true true false = (refl, refl, λ e. cc e)
      by_flags true false true = rw (file_mode, stream_mode, h) (refl, refl, λ e. cc e)
      by_flags true false false = rw (file_mode, stream_mode, h) (refl, refl, λ e. cc e)
      by_flags false true a = (refl, refl, λ e k. (refl, refl))
      by_flags false false true = (refl, refl, λ e k. (refl, refl))
      by_flags false false false = rw (file_mode, stream_mode, h) (refl, refl, λ e k. cc k)
