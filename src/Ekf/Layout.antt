-- ===== src/Ekf/Layout.antt =====
-- The layout of the flat state and error vectors: `BuildTangentStateIndex` of
-- src/modules/EKF/python/ekf_derivation.py and the `Data()` member that `build_state_struct` of
-- src/modules/EKF/python/code_generation.py writes.
use infinity_autopilot.Prelude.{
  ℕ, zero, suc, ◌+◌, ◌-◌, ◌≡◌, ◌↔◌, ap, sym, ◌∙◌, List, [], ◌∷◌, if◌then◌else◌, ltb, arith,
}
use infinity_autopilot.Ekf.Types.{State, component}
use infinity_autopilot.Ekf.Derivation.{vstate_to_state}

-- The types of the parts of a state, with the dimensions that SymForce gives them. `other` is any
-- type that the generator of the header does not know, by its dimensions.
pub data Kind : Type 0 where
  rot3 m31 m21 m11 : Kind
  other : ℕ → ℕ → Kind

abbrev pub storage_dim : Kind → ℕ
storage_dim rot3 = 4
storage_dim m31 = 3
storage_dim m21 = 2
storage_dim m11 = 1
storage_dim (other storage tangent) = storage

abbrev pub tangent_dim : Kind → ℕ
tangent_dim rot3 = 3
tangent_dim m31 = 3
tangent_dim m21 = 2
tangent_dim m11 = 1
tangent_dim (other storage tangent) = tangent

pub record IdxDof : Type 0 where
  pub idx : ℕ
  pub dof : ℕ

-- The loop over the state's keys, from the index that is reached.
unfoldable pub index_from : ℕ → List Kind → List IdxDof
index_from idx [] = []
index_from idx (k ∷ ks) =
    record { idx = idx; dof = tangent_dim k } ∷ index_from (idx + tangent_dim k) ks

unfoldable pub build_tangent_state_index : List Kind → List IdxDof
unfolding index_from
build_tangent_state_index = index_from 0

abbrev pub total_tangent_dim : List Kind → ℕ
total_tangent_dim [] = 0
total_tangent_dim (k ∷ ks) = tangent_dim k + total_tangent_dim ks

-- How many of the ranges hold the place i.
abbrev pub holders : ℕ → List IdxDof → ℕ
holders i [] = 0
holders i (r ∷ rs) =
    (if ltb i r.idx then 0 else if ltb i (r.idx + r.dof) then 1 else 0) + holders i rs

holders-index_from :
    (i idx : ℕ) (ks : List Kind)
    → holders i (index_from idx ks)
      ≡ (if ltb i idx then 0 else if ltb i (idx + total_tangent_dim ks) then 1 else 0)
unfolding index_from
holders-index_from i idx [] = ground arith
holders-index_from i idx (k ∷ ks) = ground (arith, holders-index_from i (idx + tangent_dim k) ks)

-- Every place of the error vector lies in the range of exactly one part of the state, and the
-- ranges reach no further.
pub build_tangent_state_index_tiles :
    (ks : List Kind) (i : ℕ)
    → holders i (build_tangent_state_index ks) ≡ (if ltb i (total_tangent_dim ks) then 1 else 0)
unfolding build_tangent_state_index
build_tangent_state_index_tiles ks i = ground (arith, holders-index_from i 0 ks)

-- `State`'s parts in order.
abbrev pub state_kinds : List Kind
state_kinds = rot3 ∷ m31 ∷ m31 ∷ m31 ∷ m31 ∷ []

-- The vector that the generated `StateSample::Data()` fills: the quaternion as (x, y, z, w).
unfoldable pub state_data : {K : Type 0} → State K → ℕ → K
state_data s zero = s.quat_nominal.x
state_data s (suc zero) = s.quat_nominal.y
state_data s (suc (suc zero)) = s.quat_nominal.z
state_data s (suc (suc (suc zero))) = s.quat_nominal.w
state_data s (suc (suc (suc (suc n)))) =
    if ltb n 3
    then component s.vel n
    else if ltb n 6
    then component s.pos (n - 3)
    else if ltb n 9
    then component s.gyro_bias (n - 6)
    else component s.accel_bias (n - 9)

-- Reading the vector that `StateSample::Data()` fills as the filter's functions read it gives the
-- state back exactly when the four components of its quaternion are equal.
pub vstate_to_state-state_data :
    {K : Type 0} (s : State K)
    → (vstate_to_state (state_data s) ≡ s) ↔ (
        (s.quat_nominal.x ≡ s.quat_nominal.y)
        × (s.quat_nominal.y ≡ s.quat_nominal.z)
        × (s.quat_nominal.z ≡ s.quat_nominal.w))
unfolding state_data
vstate_to_state-state_data s = (
  λ e. (
    sym (ap (λ t. t.quat_nominal.x) e),
    sym (ap (λ t. t.quat_nominal.y) e),
    sym (ap (λ t. t.quat_nominal.z) e),
  ),
  λ (a, b, c). λ i. record {
    quat_nominal = record { x = sym a i; y = sym b i; z = sym c i; w = (a ∙ b ∙ c) i };
    vel = s.vel;
    pos = s.pos;
    gyro_bias = s.gyro_bias;
    accel_bias = s.accel_bias;
  },
)
