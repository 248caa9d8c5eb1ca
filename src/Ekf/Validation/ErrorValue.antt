-- ===== src/Ekf/Validation/ErrorValue.antt =====
-- The error after one step over values, and the symbols from which it is composed.
use infinity_autopilot.Prelude.{ℕ, zero, suc, ◌≡◌, refl}
use infinity_autopilot.Ring.{Ops}
use infinity_autopilot.Ring.Expr.{Expr, syntax}
use infinity_autopilot.Ring.Dual.{Dual, dual}
use infinity_autopilot.Ring.Solver.{eval}
use infinity_autopilot.Ekf.Types.{
  V3, Quaternion, State, StateError, Noise, Prediction, vector, quaternion, storage, vector_add,
  vector_sub, vector_scale,
}
use infinity_autopilot.Ekf.Symforce.{rotations, eval_vector, expanded}
use infinity_autopilot.Ekf.Derivation.{
  vstate_to_state, predicted_error, prediction_symbols, error_symbols, noise_symbols, dt_symbol,
}

module _ {K : Type 0} (o : Ops K) (σ : ℕ → K) where
  abbrev pub eval_error : StateError Expr → StateError K
  eval_error e = record {
    theta = eval_vector o σ e.theta;
    vel = eval_vector o σ e.vel;
    pos = eval_vector o σ e.pos;
    gyro_bias = eval_vector o σ e.gyro_bias;
    accel_bias = eval_vector o σ e.accel_bias;
  }

  abbrev eval_noise : Noise Expr → Noise K
  eval_noise n = record { accel = eval_vector o σ n.accel; gyro = eval_vector o σ n.gyro }

  abbrev pub eval_prediction : Prediction Expr → Prediction K
  eval_prediction m = record {
    state = λ i. eval o σ (m.state i);
    p = λ i j. eval o σ (m.p i j);
    accel = eval_vector o σ m.accel;
    accel_var = eval_vector o σ m.accel_var;
    gyro = eval_vector o σ m.gyro;
    gyro_var = eval o σ m.gyro_var;
    dt = eval o σ m.dt;
  }

  -- The error after one step, over values.
  abbrev pub error_value : StateError K
  error_value =
      predicted_error o (rotations o) (eval_prediction prediction_symbols) (σ 61)
        (eval_error error_symbols) (eval_noise noise_symbols)

  pub eval-storage :
      (e : StateError Expr) (i : ℕ) → eval o σ (storage e i) ≡ storage (eval_error e) i
  eval-storage e zero = refl
  eval-storage e (suc zero) = refl
  eval-storage e (suc (suc zero)) = refl
  eval-storage e (suc (suc (suc zero))) = refl
  eval-storage e (suc (suc (suc (suc zero)))) = refl
  eval-storage e (suc (suc (suc (suc (suc zero))))) = refl
  eval-storage e (suc (suc (suc (suc (suc (suc zero)))))) = refl
  eval-storage e (suc (suc (suc (suc (suc (suc (suc zero))))))) = refl
  eval-storage e (suc (suc (suc (suc (suc (suc (suc (suc zero)))))))) = refl
  eval-storage e (suc (suc (suc (suc (suc (suc (suc (suc (suc zero))))))))) = refl
  eval-storage e (suc (suc (suc (suc (suc (suc (suc (suc (suc (suc zero)))))))))) = refl
  eval-storage e (suc (suc (suc (suc (suc (suc (suc (suc (suc (suc (suc zero))))))))))) = refl
  eval-storage e (suc (suc (suc (suc (suc (suc (suc (suc (suc (suc (suc (suc zero)))))))))))) = refl
  eval-storage e
        (suc (suc (suc (suc (suc (suc (suc (suc (suc (suc (suc (suc (suc zero))))))))))))) =
      refl
  eval-storage e
        (suc (suc (suc (suc (suc (suc (suc (suc (suc (suc (suc (suc (suc (suc n)))))))))))))) =
      refl

-- `predicted_error`, from the change of attitude and the two accelerations in the world frame.
module _ {S : Type 0} (o : Ops S) where
  abbrev pub error_of : Prediction S → S → StateError S → Quaternion S → V3 S → V3 S → StateError S
  error_of m g e delta_q turned_t turned =
      let state = vstate_to_state m.state in
      let vel_t = vector_add o state.vel e.vel in
      let gravity = vector (o.lit 0) (o.lit 0) g in
      record {
        theta =
            vector (o.◌*◌ (o.lit 2) delta_q.x) (o.◌*◌ (o.lit 2) delta_q.y)
              (o.◌*◌ (o.lit 2) delta_q.z);
        vel =
            vector_sub o (vector_add o vel_t (vector_scale o (vector_add o turned_t gravity) m.dt))
              (vector_add o state.vel (vector_scale o (vector_add o turned gravity) m.dt));
        pos =
            vector_sub o (vector_add o (vector_add o state.pos e.pos) (vector_scale o vel_t m.dt))
              (vector_add o state.pos (vector_scale o state.vel m.dt));
        gyro_bias = vector_sub o (vector_add o state.gyro_bias e.gyro_bias) state.gyro_bias;
        accel_bias = vector_sub o (vector_add o state.accel_bias e.accel_bias) state.accel_bias;
      }

module _ {K : Type 0} (o : Ops K) (σ : ℕ → K) where
  abbrev pub linear_part : Dual K → K
  linear_part d = o.◌+◌ d.re (o.◌*◌ (σ dt_symbol) d.eps)

  -- The error after one step with the terms in dt² dropped from the rotation.
  abbrev pub simplified_value : StateError K
  simplified_value =
      let theta = (error_value (dual o) (expanded o dt_symbol σ)).theta in
      record (error_value o σ) {
        theta = vector (linear_part theta.x) (linear_part theta.y) (linear_part theta.z);
      }

-- The rotations and forces that the derivation composes.
abbrev pub attitude : Quaternion Expr
attitude = (vstate_to_state prediction_symbols.state).quat_nominal

abbrev pub small_turn : Quaternion Expr
small_turn = quaternion (vector_scale syntax error_symbols.theta Expr.half) (Expr.lit 1)

abbrev turn_by : V3 Expr → Quaternion Expr
turn_by rate =
    quaternion (vector_scale syntax (vector_scale syntax rate prediction_symbols.dt) Expr.half)
      (Expr.lit 1)

abbrev pub nominal : State Expr
nominal = vstate_to_state prediction_symbols.state

-- A measurement, less the true bias and the noise.
abbrev pub deviating : V3 Expr → V3 Expr → V3 Expr → V3 Expr → V3 Expr
deviating v bias error noise =
    vector_sub syntax (vector_sub syntax v (vector_add syntax bias error)) noise

abbrev pub turn : Quaternion Expr
turn = turn_by (vector_sub syntax prediction_symbols.gyro nominal.gyro_bias)

abbrev pub turn_t : Quaternion Expr
turn_t =
    turn_by (
      deviating prediction_symbols.gyro nominal.gyro_bias error_symbols.gyro_bias
        noise_symbols.gyro)

abbrev pub pull : V3 Expr
pull = vector_sub syntax prediction_symbols.accel nominal.accel_bias

abbrev pub pull_t : V3 Expr
pull_t =
    deviating prediction_symbols.accel nominal.accel_bias error_symbols.accel_bias
      noise_symbols.accel
