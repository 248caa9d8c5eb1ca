-- ===== src/Ekf/Derivation.antt =====
-- The derivation of the filter (src/modules/EKF/python/ekf_derivation.py).
use infinity_autopilot.Prelude.{ℕ, ◌+◌, ◌*◌, Bool, not, ◌&&◌, ltb, ◌==◌, if◌then◌else◌}
use infinity_autopilot.Ring.{Ops}
use infinity_autopilot.Ring.Expr.{Expr, syntax}
use infinity_autopilot.Ekf.Types.{
  V3, State, StateError, Noise, Prediction, vector, quaternion, component, storage, vector_add,
  vector_sub, vector_scale,
}
use infinity_autopilot.Ekf.Symforce.{Rotations, Symforce}

-- `State.from_storage`: the quaternion first, in SymForce's order, then the vectors.
abbrev pub from_storage : {S : Type 0} → (ℕ → S) → State S
from_storage v = record {
  quat_nominal = record { x = v 0; y = v 1; z = v 2; w = v 3 };
  vel = vector (v 4) (v 5) (v 6);
  pos = vector (v 7) (v 8) (v 9);
  gyro_bias = vector (v 10) (v 11) (v 12);
  accel_bias = vector (v 13) (v 14) (v 15);
}

-- The flat vector holds the quaternion as (w, x, y, z).
abbrev pub vstate_to_state : {S : Type 0} → (ℕ → S) → State S
vstate_to_state v =
    let state = from_storage v in
    let q = state.quat_nominal in
    record state { quat_nominal = quaternion (vector q.y q.z q.w) q.x }

module _ {S : Type 0} (o : Ops S) (rt : Rotations S) where
  infixl 65 ◌⊕◌ ◌⊖◌
  infixl 70 ◌⊗◌
  open o use {lit, half, ◌+◌ as ◌⊕◌, ◌-◌ as ◌⊖◌, ◌*◌ as ◌⊗◌}
  open rt use {quat_mul, conj, rotate}

  -- The state that deviates from the nominal one by the error, with a small rotation.
  abbrev pub true_state : State S → StateError S → State S
  true_state state e = record {
    quat_nominal = quat_mul (quaternion (vector_scale o e.theta half) (lit 1)) state.quat_nominal;
    vel = vector_add o state.vel e.vel;
    pos = vector_add o state.pos e.pos;
    gyro_bias = vector_add o state.gyro_bias e.gyro_bias;
    accel_bias = vector_add o state.accel_bias e.accel_bias;
  }

  -- One step of the kinematics under an acceleration and an angular rate.
  abbrev pub propagate : State S → V3 S → V3 S → S → S → State S
  propagate state accel gyro g dt = record state {
    quat_nominal =
        quat_mul state.quat_nominal
          (quaternion (vector_scale o (vector_scale o gyro dt) half) (lit 1));
    vel = vector_add o state.vel (
        vector_scale o (vector_add o (rotate state.quat_nominal accel) (vector (lit 0) (lit 0) g))
          dt);
    pos = vector_add o state.pos (vector_scale o state.vel dt);
  }

  -- `state_error_pred` before its simplification: true minus nominal.
  abbrev pub predicted_error : Prediction S → S → StateError S → Noise S → StateError S
  predicted_error m g e noise =
      let state = vstate_to_state m.state in
      let state_t = true_state state e in
      let pred_t =
        propagate state_t (vector_sub o (vector_sub o m.accel state_t.accel_bias) noise.accel)
          (vector_sub o (vector_sub o m.gyro state_t.gyro_bias) noise.gyro) g m.dt in
      let pred =
        propagate state (vector_sub o m.accel state.accel_bias)
          (vector_sub o m.gyro state.gyro_bias) g m.dt in
      let delta_q = quat_mul pred_t.quat_nominal (conj pred.quat_nominal) in
      record {
        theta = vector (lit 2 ⊗ delta_q.x) (lit 2 ⊗ delta_q.y) (lit 2 ⊗ delta_q.z);
        vel = vector_sub o pred_t.vel pred.vel;
        pos = vector_sub o pred_t.pos pred.pos;
        gyro_bias = vector_sub o pred_t.gyro_bias pred.gyro_bias;
        accel_bias = vector_sub o pred_t.accel_bias pred.accel_bias;
      }

-- The symbols of the derivation: the state is 0 to 15, the error 20 to 34, the noise 40 to 45.
abbrev pub error_symbol : ℕ → ℕ
error_symbol j = 20 + j

abbrev pub noise_symbol : ℕ → ℕ
noise_symbol j = 40 + j

abbrev pub dt_symbol : ℕ
dt_symbol = 60

abbrev pub is_error : ℕ → Bool
is_error u = not (ltb u 20) && ltb u 35

abbrev pub is_noise : ℕ → Bool
is_noise u = not (ltb u 40) && ltb u 46

abbrev vector_at : ℕ → V3 Expr
vector_at n = vector (Expr.var n) (Expr.var (n + 1)) (Expr.var (n + 2))

abbrev pub prediction_symbols : Prediction Expr
prediction_symbols = record {
  state = λ i. Expr.var i;
  p = λ i j. Expr.var (100 + (15 * i + j));
  accel = vector_at 50;
  accel_var = vector_at 53;
  gyro = vector_at 56;
  gyro_var = Expr.var 59;
  dt = Expr.var dt_symbol;
}

abbrev pub error_symbols : StateError Expr
error_symbols = record {
  theta = vector_at 20;
  vel = vector_at 23;
  pos = vector_at 26;
  gyro_bias = vector_at 29;
  accel_bias = vector_at 32;
}

abbrev pub noise_symbols : Noise Expr
noise_symbols = record { accel = vector_at 40; gyro = vector_at 43 }

abbrev pub var_u : {S : Type 0} → Ops S → Prediction S → ℕ → ℕ → S
var_u o m i j =
    if i == j then (if ltb i 3 then component m.accel_var i else m.gyro_var) else o.lit 0

module _ (sf : Symforce) where
  open sf use {rotations_of, diff, subs_zero, drop_square, subs_unit, mat_mul, mat_add}

  -- Terms in dt² are dropped from the rotation error, and a unit quaternion is assumed.
  abbrev pub simplify_theta : Expr → Expr
  simplify_theta e =
      subs_unit (vstate_to_state prediction_symbols.state).quat_nominal (drop_square dt_symbol e)

  unfoldable pub state_error_pred : StateError Expr
  state_error_pred =
      let e =
        predicted_error syntax rotations_of prediction_symbols (Expr.var 61) error_symbols
          noise_symbols in
      record e {
        theta =
            vector (simplify_theta e.theta.x) (simplify_theta e.theta.y) (simplify_theta e.theta.z);
      }

  abbrev linearise : Expr → Expr
  linearise e = subs_zero is_noise (subs_zero is_error e)

  -- The Jacobians with respect to the error and to the noise.
  unfoldable pub jacobian_a : ℕ → ℕ → Expr
  jacobian_a i j = linearise (diff (error_symbol j) (storage state_error_pred i))

  unfoldable pub jacobian_g : ℕ → ℕ → Expr
  jacobian_g i j = linearise (diff (noise_symbol j) (storage state_error_pred i))

  -- Only the upper triangle is kept.
  unfoldable pub predict_covariance : ℕ → ℕ → Expr
  predict_covariance i j =
      if ltb j i
      then Expr.lit 0
      else mat_add (mat_mul 15 (mat_mul 15 jacobian_a prediction_symbols.p) (λ k l. jacobian_a l k))
          (mat_mul 6 (mat_mul 6 jacobian_g (var_u syntax prediction_symbols))
            (λ k l. jacobian_g l k))
          i j
