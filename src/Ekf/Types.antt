-- ===== src/Ekf/Types.antt =====
-- Vectors, quaternions, the filter's state and the inputs of its functions
-- (src/modules/EKF/python/ekf_derivation.py).
use infinity_autopilot.Prelude.{ℕ, zero, suc}
use infinity_autopilot.Ring.{Ops}

pub record V3 (S : Type 0) : Type 0 where
  pub x : S
  pub y : S
  pub z : S

-- In the order of SymForce's storage: (x, y, z, w).
pub record Quaternion (S : Type 0) : Type 0 where
  pub x : S
  pub y : S
  pub z : S
  pub w : S

-- `State`, and the values of the same shape that the derivation builds.
pub record State (S : Type 0) : Type 0 where
  pub quat_nominal : Quaternion S
  pub vel : V3 S
  pub pos : V3 S
  pub gyro_bias : V3 S
  pub accel_bias : V3 S

-- `state_error`: the deviation of each part of the state.
pub record StateError (S : Type 0) : Type 0 where
  pub theta : V3 S
  pub vel : V3 S
  pub pos : V3 S
  pub gyro_bias : V3 S
  pub accel_bias : V3 S

pub record Noise (S : Type 0) : Type 0 where
  pub accel : V3 S
  pub gyro : V3 S

-- The arguments of `predict_covariance`, the state and the covariance as indexed arrays.
pub record Prediction (S : Type 0) : Type 0 where
  pub state : ℕ → S
  pub p : ℕ → ℕ → S
  pub accel : V3 S
  pub accel_var : V3 S
  pub gyro : V3 S
  pub gyro_var : S
  pub dt : S

module _ {S : Type 0} where
  abbrev pub vector : S → S → S → V3 S
  vector a b c = record { x = a; y = b; z = c }

  abbrev pub quaternion : V3 S → S → Quaternion S
  quaternion v w = record { x = v.x; y = v.y; z = v.z; w = w }

  -- `v[i]` for i < 3.
  abbrev pub component : V3 S → ℕ → S
  component v zero = v.x
  component v (suc zero) = v.y
  component v (suc (suc n)) = v.z

  -- `to_storage()` of an error state, entry by entry.
  abbrev pub storage : StateError S → ℕ → S
  storage e zero = e.theta.x
  storage e (suc zero) = e.theta.y
  storage e (suc (suc zero)) = e.theta.z
  storage e (suc (suc (suc zero))) = e.vel.x
  storage e (suc (suc (suc (suc zero)))) = e.vel.y
  storage e (suc (suc (suc (suc (suc zero))))) = e.vel.z
  storage e (suc (suc (suc (suc (suc (suc n)))))) = tail n
    where
      tail : ℕ → S
      tail zero = e.pos.x
      tail (suc zero) = e.pos.y
      tail (suc (suc zero)) = e.pos.z
      tail (suc (suc (suc n))) = biases n
        where
          biases : ℕ → S
          biases zero = e.gyro_bias.x
          biases (suc zero) = e.gyro_bias.y
          biases (suc (suc zero)) = e.gyro_bias.z
          biases (suc (suc (suc zero))) = e.accel_bias.x
          biases (suc (suc (suc (suc zero)))) = e.accel_bias.y
          biases (suc (suc (suc (suc (suc n))))) = e.accel_bias.z

module _ {S : Type 0} (o : Ops S) where
  infixl 65 ◌+◌ ◌-◌
  infixl 70 ◌*◌
  open o use {◌+◌, ◌-◌, ◌*◌}

  abbrev pub vector_add : V3 S → V3 S → V3 S
  vector_add u v = vector (u.x + v.x) (u.y + v.y) (u.z + v.z)

  abbrev pub vector_sub : V3 S → V3 S → V3 S
  vector_sub u v = vector (u.x - v.x) (u.y - v.y) (u.z - v.z)

  abbrev pub vector_scale : V3 S → S → V3 S
  vector_scale v s = vector (v.x * s) (v.y * s) (v.z * s)
