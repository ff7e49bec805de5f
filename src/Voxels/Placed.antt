-- ===== src/Voxels/Placed.antt =====
-- What the voxels are after edits (client/voxel-volume.cpp, `VoxelVolume`).
use tec.Base.{
  ℕ, ◌≡◌, refl, ◌+◌, ◌*◌, ◌^◌, ◌/◌, ◌%◌, List, [], ◌∷◌, Bool, true, false, not, ◌&&◌, ◌==◌,
  if◌then◌else◌, arith,
}
use tec.Base.Maps.{Map, insert, erase, has, find-insert, find-erase}
use tec.Voxels.{
  VoxelVolume, voxel_index, coordinates, add_voxel, remove_voxel, Edit, add, remove, edit, edit_all,
}

-- The index keeps the three coordinates, which `UpdateMesh` reads back.
pub coordinates-voxel_index :
    (y x z : ℕ) → coordinates (voxel_index y x z) ≡ (y % 2 ^ 16, x % 2 ^ 16, z % 2 ^ 16)
unfolding coordinates voxel_index
coordinates-voxel_index y x z =
    let index : ℕ = y % 2 ^ 16 * 2 ^ 32 + x % 2 ^ 16 * 2 ^ 16 + z % 2 ^ 16 in
    let row : index / 2 ^ 32 % 2 ^ 16 ≡ y % 2 ^ 16 = omega arith in
    let column : index / 2 ^ 16 % 2 ^ 16 ≡ x % 2 ^ 16 = omega arith in
    let slice : index % 2 ^ 16 ≡ z % 2 ^ 16 = omega arith in rw (row, column, slice) refl

-- Whether two triples are the same `std::int16_t`s.
abbrev pub same_place : ℕ → ℕ → ℕ → ℕ → ℕ → ℕ → Bool
same_place y x z y' x' z' =
    (y % 2 ^ 16 == y' % 2 ^ 16) && (x % 2 ^ 16 == x' % 2 ^ 16) && (z % 2 ^ 16 == z' % 2 ^ 16)

-- Whether a voxel stands at a place after edits, from whether it stood there: what the last edit
-- of the place says.
abbrev pub placed : List Edit → ℕ → ℕ → ℕ → Bool → Bool
placed [] y x z there = there
placed (add y' x' z' ∷ es) y x z there =
    placed es y x z (if same_place y' x' z' y x z then true else there)
placed (remove y' x' z' ∷ es) y x z there =
    placed es y x z (if same_place y' x' z' y x z then false else there)

same-index :
    (y x z y' x' z' : ℕ) → (voxel_index y x z == voxel_index y' x' z') ≡ same_place y x z y' x' z'
unfolding voxel_index
same-index y x z y' x' z' = ground arith

module _ {V : Type 0} where
  has-insert :
      (j k : ℕ) (v : V) (m : Map V)
      → has j (if not (has k m) then insert k v m else m) ≡ (if k == j then true else has j m)
  unfolding has
  has-insert j k v m = ground (arith, find-insert j k v m)

  has-erase :
      (j k : ℕ) (m : Map V)
      → has j (if has k m then erase k m else m) ≡ (if k == j then false else has j m)
  unfolding has
  has-erase j k m = ground (arith, find-erase j k m)

module _ {F : Type 0} (zero_color : F) where
  -- After any calls of `AddVoxel` and `RemoveVoxel` a voxel stands at a place if the last call for that
  -- place, its coordinates taken modulo 2^16, was `AddVoxel`, or there was none and it stood there
  -- before.
  pub edit_all-placed :
      (es : List Edit) (v : VoxelVolume F) (y x z : ℕ)
      → has (voxel_index y x z) (edit_all zero_color es v).voxels
        ≡ placed es y x z (has (voxel_index y x z) v.voxels)
  unfolding edit_all edit add_voxel remove_voxel
  edit_all-placed [] v y x z = refl
  edit_all-placed (add y' x' z' ∷ es) v y x z =
      rw
        (
          edit_all-placed es (add_voxel zero_color y' x' z' v) y x z,
          has-insert (voxel_index y x z) (voxel_index y' x' z')
              (record { color = (zero_color, zero_color, zero_color) }) v.voxels,
          same-index y' x' z' y x z,
        )
        refl
  edit_all-placed (remove y' x' z' ∷ es) v y x z =
      rw
        (
          edit_all-placed es (remove_voxel y' x' z' v) y x z,
          has-erase (voxel_index y x z) (voxel_index y' x' z') v.voxels,
          same-index y' x' z' y x z,
        )
        refl
