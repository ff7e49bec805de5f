-- ===== src/Voxels/Tests.antt =====
-- Tests of the voxels (client/voxel-volume.cpp), with numbers for floats.
use tec.Base.{ℕ, ◌≡◌, refl, ◌-◌, ◌^◌, true, List, [], ◌∷◌}
use tec.Base.Maps.{find, insert, erase, has}
use tec.Voxels.{
  VoxelVolume, voxel_index, coordinates, add_voxel, remove_voxel, Edit, add, remove, edit, edit_all,
}
use tec.Voxels.Placed.{coordinates-voxel_index, edit_all-placed}

abbrev no_voxels : VoxelVolume ℕ
no_voxels = record { voxels = []; changed_queue = [] }

-- The row -1 is a place of its own.
abbrev edits : List Edit
edits = add (2 ^ 16 - 1) 0 1 ∷ add 0 0 1 ∷ remove 0 0 1 ∷ []

edits_leave : has (voxel_index (2 ^ 16 - 1) 0 1) (edit_all 0 edits no_voxels).voxels ≡ true
unfolding edit_all edit add_voxel remove_voxel voxel_index has find insert erase
edits_leave = refl

edit_all-placed_example :
    has (voxel_index (2 ^ 16 - 1) 0 1) (edit_all 0 edits no_voxels).voxels ≡ true
unfolding has find
edit_all-placed_example = edit_all-placed 0 edits no_voxels (2 ^ 16 - 1) 0 1

coordinates-voxel_index_example : coordinates (voxel_index (2 ^ 16 - 1) 0 1) ≡ (2 ^ 16 - 1, 0, 1)
coordinates-voxel_index_example = coordinates-voxel_index (2 ^ 16 - 1) 0 1
