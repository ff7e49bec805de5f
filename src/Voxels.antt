-- ===== src/Voxels.antt =====
-- client/voxel-volume.cpp: which voxels a `VoxelVolume` has. An `std::int16_t` is given by a number
-- that is equal to it modulo 2^16.
pub mod Placed
mod Tests
use tec.Base.{ℕ, ◌+◌, ◌*◌, ◌^◌, ◌/◌, ◌%◌, List, [], ◌∷◌, ◌++◌, not, if◌then◌else◌}
use tec.Base.Maps.{Map, insert, erase, has}

-- `Voxel`, with its three colors.
pub record Voxel (F : Type 0) : Type 0 where
  pub color : F × F × F

pub record VoxelVolume (F : Type 0) : Type 0 where
  pub voxels : Map (Voxel F)
  pub changed_queue : List ℕ

-- The index of a voxel.
unfoldable pub voxel_index : ℕ → ℕ → ℕ → ℕ
voxel_index y x z = y % 2 ^ 16 * 2 ^ 32 + x % 2 ^ 16 * 2 ^ 16 + z % 2 ^ 16

-- The coordinates that `UpdateMesh` reads from an index.
unfoldable pub coordinates : ℕ → ℕ × ℕ × ℕ
coordinates index = (index / 2 ^ 32 % 2 ^ 16, index / 2 ^ 16 % 2 ^ 16, index % 2 ^ 16)

module _ {F : Type 0} where
  -- `AddVoxel`. The zero is that of the colors.
  unfoldable pub add_voxel : F → ℕ → ℕ → ℕ → VoxelVolume F → VoxelVolume F
  add_voxel zero_color y x z v =
      let index : ℕ = voxel_index y x z in
      record {
        voxels =
            if not (has index v.voxels)
            then insert index (record { color = (zero_color, zero_color, zero_color) }) v.voxels
            else v.voxels;
        changed_queue = v.changed_queue ++ (index ∷ []);
      }

  -- `RemoveVoxel`
  unfoldable pub remove_voxel : ℕ → ℕ → ℕ → VoxelVolume F → VoxelVolume F
  remove_voxel y x z v =
      let index : ℕ = voxel_index y x z in
      record {
        voxels = if has index v.voxels then erase index v.voxels else v.voxels;
        changed_queue = v.changed_queue ++ (index ∷ []);
      }

-- A call of one of the two.
pub data Edit : Type 0 where
  add : ℕ → ℕ → ℕ → Edit
  remove : ℕ → ℕ → ℕ → Edit

module _ {F : Type 0} (zero_color : F) where
  unfoldable pub edit : Edit → VoxelVolume F → VoxelVolume F
  edit (add y x z) v = add_voxel zero_color y x z v
  edit (remove y x z) v = remove_voxel y x z v

  unfoldable pub edit_all : List Edit → VoxelVolume F → VoxelVolume F
  edit_all [] v = v
  edit_all (e ∷ es) v = edit_all es (edit e v)
