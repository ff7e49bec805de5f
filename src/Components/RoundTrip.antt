-- ===== src/Components/RoundTrip.antt =====
-- Components written and read again (common/components/transforms.cpp,
-- common/components/velocity.hpp).
use tec.Base.{◌≡◌, refl}
use tec.Components.{
  Vec3, Quat, Orientation, Velocity, vec_out, vec_in, velocity_out, velocity_in, orientation_out,
  orientation_in, rotate, oriented_rotate,
}

-- A position, a scale or a velocity that is written and then read over any other one is the one
-- that was written. An orientation comes back with its value, but with the rotation of the one that it
-- is read over; so a rotation after it starts from there, where an oriented rotation
-- goes on from the value that was written.
pub in-out :
    {F : Type 0} (zero : F) (real_part : F → F → F → F) (normalize : Quat F → Quat F)
    (plus : Vec3 F → Vec3 F → Vec3 F) (of_euler : Vec3 F → Quat F)
    (change : Vec3 F → Quat F → Quat F) (v w amount : Vec3 F) (a b : Velocity F)
    (o p : Orientation F)
    → let read : Orientation F = orientation_in zero real_part normalize (orientation_out o) p in
      (vec_in (vec_out v) w ≡ v)
      × (velocity_in (velocity_out a) b ≡ a)
      × (read ≡ record { value = o.value; rotation = p.rotation })
      × (rotate plus of_euler normalize change amount read
          ≡ rotate plus of_euler normalize change amount p)
      × ((oriented_rotate plus of_euler normalize change amount read).value
          ≡ (oriented_rotate plus of_euler normalize change amount o).value)
unfolding vec_out vec_in velocity_out velocity_in orientation_out orientation_in rotate
    oriented_rotate
in-out zero real_part normalize plus of_euler change v w amount a b o p =
    (refl, refl, refl, refl, refl)
