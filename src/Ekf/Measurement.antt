-- ===== src/Ekf/Measurement.antt =====
-- The measurement models of the derivation and their Jacobians
-- (src/modules/EKF/python/ekf_derivation.py).
use infinity_autopilot.Prelude.{ℕ, zero, suc, ◌+◌, not, ◌&&◌, ltb, ◌==◌, if◌then◌else◌, List}
use infinity_autopilot.Ring.Expr.{Expr, syntax}
use infinity_autopilot.Ekf.Types.{V3, Quaternion, vector, vector_sub}
use infinity_autopilot.Ekf.Tabulate.{tabulate}
use infinity_autopilot.Ekf.Symforce.{Symforce}
use infinity_autopilot.Ekf.Derivation.{vstate_to_state, prediction_symbols}

-- What a vector measurement returns: the innovation, its variance, and the three rows of H.
pub record Update3 (S : Type 0) : Type 0 where
  pub innov : V3 S
  pub innov_var : V3 S
  pub hx : List S
  pub hy : List S
  pub hz : List S

-- What a scalar measurement returns.
pub record Update1 (S : Type 0) : Type 0 where
  pub innov : S
  pub innov_var : S
  pub h : List S

-- The symbol that stands at place k of the storage of `vstate_to_state`.
abbrev pub state_symbol : ℕ → ℕ
state_symbol zero = 1
state_symbol (suc zero) = 2
state_symbol (suc (suc zero)) = 3
state_symbol (suc (suc (suc zero))) = 0
state_symbol (suc (suc (suc (suc k)))) = 4 + k

abbrev pub p_symbol : ℕ → ℕ
p_symbol b = 70 + b

abbrev pub p_symbols : Quaternion Expr
p_symbols = record { x = Expr.var 70; y = Expr.var 71; z = Expr.var 72; w = Expr.var 73 }

abbrev pub state_quat : Quaternion Expr
state_quat = (vstate_to_state prediction_symbols.state).quat_nominal

abbrev pub quat_storage : {S : Type 0} → Quaternion S → ℕ → S
quat_storage q zero = q.x
quat_storage q (suc zero) = q.y
quat_storage q (suc (suc zero)) = q.z
quat_storage q (suc (suc (suc n))) = q.w

abbrev pub meas_symbols : V3 Expr
meas_symbols = vector (Expr.var 80) (Expr.var 81) (Expr.var 82)

abbrev pub mag_ref_symbols : V3 Expr
mag_ref_symbols = vector (Expr.var 83) (Expr.var 84) (Expr.var 85)

abbrev pub variance_symbol : Expr
variance_symbol = Expr.var 86

module _ (sf : Symforce) where
  open sf use {rotations_of, diff, mat_mul}

  -- The Jacobian of p * q with respect to p.
  abbrev pub q_r : ℕ → ℕ → Expr
  q_r a b = diff (p_symbol b) (quat_storage (rotations_of.quat_mul p_symbols state_quat) a)

  abbrev pub three_of_four : ℕ → ℕ → Expr
  three_of_four a b = if a == b then Expr.lit 1 else Expr.lit 0

  -- From the error to the state: a 16 × 15 matrix.
  unfoldable pub dx_derror : ℕ → ℕ → Expr
  dx_derror k j =
      if ltb k 4
      then (if ltb j 3
          then mat_mul 4 (λ a b. Expr.mul (q_r a b) Expr.half) three_of_four k j
          else Expr.lit 0)
      else if not (ltb j 3) && (k == j + 1)
      then Expr.lit 1
      else Expr.lit 0

  unfoldable pub jacobian_chain_rule : Expr → ℕ → Expr
  jacobian_chain_rule expr = mat_mul 16 (λ _ k. diff (state_symbol k) expr) dx_derror 0

  -- `(H * P * H.T + R)[0,0]`.
  unfoldable pub variance_of : (ℕ → Expr) → Expr
  variance_of h =
      Expr.add (mat_mul 15 (mat_mul 15 (λ _ k. h k) prediction_symbols.p) (λ k _. h k) 0 0)
        variance_symbol

  -- What the five functions share: an innovation and a predicted measurement.
  abbrev pub update3 : V3 Expr → Update3 Expr
  update3 pred =
      let hx = jacobian_chain_rule pred.x in
      let hy = jacobian_chain_rule pred.y in
      let hz = jacobian_chain_rule pred.z in
      record {
        innov = vector_sub syntax pred meas_symbols;
        innov_var = vector (variance_of hx) (variance_of hy) (variance_of hz);
        hx = tabulate 15 hx;
        hy = tabulate 15 hy;
        hz = tabulate 15 hz;
      }

  abbrev pub update1 : Expr → Update1 Expr
  update1 pred =
      let h = jacobian_chain_rule pred in
      record { innov = Expr.sub pred meas_symbols.x; innov_var = variance_of h; h = tabulate 15 h }

  unfoldable pub compute_gps_pos_innov_var_and_h : Update3 Expr
  compute_gps_pos_innov_var_and_h = update3 (vstate_to_state prediction_symbols.state).pos

  unfoldable pub compute_gps_vel_innov_var_and_h : Update3 Expr
  compute_gps_vel_innov_var_and_h = update3 (vstate_to_state prediction_symbols.state).vel

  -- The reference field, turned into the frame of the body.
  unfoldable pub compute_mag_innov_var_and_h : Update3 Expr
  compute_mag_innov_var_and_h =
      update3 (rotations_of.rotate (rotations_of.inverse state_quat) mag_ref_symbols)

  unfoldable pub compute_baro_innov_var_and_h : Update1 Expr
  compute_baro_innov_var_and_h = update1 (Expr.neg (vstate_to_state prediction_symbols.state).pos.z)

  unfoldable pub compute_lidar_innov_var_and_h : Update1 Expr
  compute_lidar_innov_var_and_h =
      update1 (Expr.neg (vstate_to_state prediction_symbols.state).pos.z)
