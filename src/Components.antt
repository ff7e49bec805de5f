-- ===== src/Components.antt =====
-- common/components/transforms.cpp and common/components/velocity.hpp: the values of an entity's
-- components, and how each is written into its message and read from it. `float` and what is
-- computed with it are parameters. An optional field is an `Option`; a getter returns the field's
-- default where it is not set.
pub mod RoundTrip
use tec.Base.{Option, none, some}

pub record Vec3 (F : Type 0) : Type 0 where
  pub x : F
  pub y : F
  pub z : F

pub record Quat (F : Type 0) : Type 0 where
  pub w : F
  pub x : F
  pub y : F
  pub z : F

pub record Orientation (F : Type 0) : Type 0 where
  pub value : Quat F
  pub rotation : Vec3 F

pub record Velocity (F : Type 0) : Type 0 where
  pub linear : Vec3 F
  pub angular : Vec3 F

-- The messages, as components.proto declares them; those of a position and of a scale have the
-- same fields.
pub record VecMessage (F : Type 0) : Type 0 where
  pub x : Option F
  pub y : Option F
  pub z : Option F

pub record QuatMessage (F : Type 0) : Type 0 where
  pub i : Option F
  pub j : Option F
  pub k : Option F
  pub r : Option F

pub record VelocityMessage (F : Type 0) : Type 0 where
  pub linear_x : Option F
  pub linear_y : Option F
  pub linear_z : Option F
  pub angular_x : Option F
  pub angular_y : Option F
  pub angular_z : Option F

-- A getter of an optional field.
abbrev pub get_or_default {ℓ} : {A : Type ℓ} → Option A → A → A
get_or_default none d = d
get_or_default (some a) d = a

module _ {F : Type 0} where
  -- `Position::Out` and `Scale::Out`: the fields that they set.
  unfoldable pub vec_out : Vec3 F → VecMessage F
  vec_out v = record { x = some v.x; y = some v.y; z = some v.z }

  -- `Position::In` and `Scale::In`: a field that is not set keeps the old value.
  unfoldable pub vec_in : VecMessage F → Vec3 F → Vec3 F
  vec_in m v = record {
    x = get_or_default m.x v.x;
    y = get_or_default m.y v.y;
    z = get_or_default m.z v.z;
  }

  -- `Velocity::Out`
  unfoldable pub velocity_out : Velocity F → VelocityMessage F
  velocity_out v = record {
    linear_x = some v.linear.x;
    linear_y = some v.linear.y;
    linear_z = some v.linear.z;
    angular_x = some v.angular.x;
    angular_y = some v.angular.y;
    angular_z = some v.angular.z;
  }

  -- `Velocity::In`
  unfoldable pub velocity_in : VelocityMessage F → Velocity F → Velocity F
  velocity_in m v = record {
    linear = record {
      x = get_or_default m.linear_x v.linear.x;
      y = get_or_default m.linear_y v.linear.y;
      z = get_or_default m.linear_z v.linear.z;
    };
    angular = record {
      x = get_or_default m.angular_x v.angular.x;
      y = get_or_default m.angular_y v.angular.y;
      z = get_or_default m.angular_z v.angular.z;
    };
  }

  -- `Orientation::Out`: the rotation is not written.
  unfoldable pub orientation_out : Orientation F → QuatMessage F
  orientation_out o = record {
    i = some o.value.x;
    j = some o.value.y;
    k = some o.value.z;
    r = some o.value.w;
  }

-- `zero` is the default of `i`, `j` and `k`; `real_part` computes `sqrtf(1 - (i*i + j*j + k*k))`.
module _ {F : Type 0} (zero : F) (real_part : F → F → F → F) (normalize : Quat F → Quat F) where
  -- `Orientation::In`: the rotation keeps its old value.
  unfoldable pub orientation_in : QuatMessage F → Orientation F → Orientation F
  orientation_in m o =
      let i : F = get_or_default m.i zero in
      let j : F = get_or_default m.j zero in
      let k : F = get_or_default m.k zero in
      elim m.r [
        | some r ↦ record o { value = record { w = r; x = i; y = j; z = k } }
        | none ↦ record o {
          value = normalize (record { w = real_part i j k; x = i; y = j; z = k });
        }
      ]

-- The arithmetic of rotations: the sum of vectors, `glm::quat(euler)`, and `normalize(change * value)`
-- for the change about the three axes of `value`.
module _ {F : Type 0} (plus : Vec3 F → Vec3 F → Vec3 F) (of_euler : Vec3 F → Quat F)
    (normalize : Quat F → Quat F) (change : Vec3 F → Quat F → Quat F) where
  -- `Position::Translate(amount)`
  unfoldable pub translate : Vec3 F → Vec3 F → Vec3 F
  translate amount v = plus v amount

  -- `Orientation::Rotate`
  unfoldable pub rotate : Vec3 F → Orientation F → Orientation F
  rotate amount o =
      let rotation : Vec3 F = plus o.rotation amount in
      record { value = normalize (of_euler rotation); rotation = rotation }

  -- `Orientation::OrientedRotate`
  unfoldable pub oriented_rotate : Vec3 F → Orientation F → Orientation F
  oriented_rotate amount o = record {
    value = normalize (change amount o.value);
    rotation = plus o.rotation amount;
  }
