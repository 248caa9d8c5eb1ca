-- ===== src/Ekf/Validation/PredictedError.antt =====
-- The values of the derivation's predicted error.
use infinity_autopilot.Prelude.{ℕ, ◌≡◌, refl, ap, ap₂, ◌∙◌}
use infinity_autopilot.Ring.{Ops, IsRing}
use infinity_autopilot.Ring.Expr.{Expr, syntax}
use infinity_autopilot.Ring.Dual.{dual, dual-IsRing}
use infinity_autopilot.Ring.Solver.{eval}
use infinity_autopilot.Ekf.Types.{V3, Quaternion, StateError, vector, vector_add, vector_sub}
use infinity_autopilot.Ekf.Symforce.{
  Symforce, IsSymforce, hamilton, conjugate, rotation, square_norm, eval_quat, eval_vector,
  expanded, IsQuadratic,
}
use infinity_autopilot.Ekf.Validation.Quadratic.{
  turning_slope, difference, polynomial, difference-turning,
}
use infinity_autopilot.Ekf.Derivation.{
  predicted_error, prediction_symbols, error_symbols, noise_symbols, dt_symbol, state_error_pred,
  simplify_theta,
}
use infinity_autopilot.Ekf.Validation.ErrorValue.{
  eval_error, eval_prediction, error_value, error_of, linear_part, simplified_value, attitude,
  small_turn, nominal, deviating, turn, turn_t, pull, pull_t,
}

module _ {sf : Symforce} (law : IsSymforce sf) where
  open law use {
    quat_mul_lem, conj_lem, rotate_lem, diff_lem, subs_zero_lem, drop_square_lem, subs_unit_lem,
  }
  open sf use {rotations_of}

  eval-delta_q :
      {K : Type 0} {o : Ops K} (r : IsRing o) (σ : ℕ → K) (theta q turn_t turn : Quaternion Expr)
      → eval_quat o σ (
          rotations_of.quat_mul
            (rotations_of.quat_mul (rotations_of.quat_mul theta q) turn_t)
            (rotations_of.conj (rotations_of.quat_mul q turn)))
        ≡ hamilton o
            (hamilton o (hamilton o (eval_quat o σ theta) (eval_quat o σ q)) (eval_quat o σ turn_t))
            (conjugate o (hamilton o (eval_quat o σ q) (eval_quat o σ turn)))
  eval-delta_q {o} r σ theta q turn_t turn =
      quat_mul_lem r σ _ _
      ∙ ap₂ (hamilton o)
          (quat_mul_lem r σ _ _
            ∙ ap (λ p. hamilton o p (eval_quat o σ turn_t)) (quat_mul_lem r σ theta q))
          (conj_lem r σ _ ∙ ap (conjugate o) (quat_mul_lem r σ q turn))

  eval-turned :
      {K : Type 0} {o : Ops K} (r : IsRing o) (σ : ℕ → K) (theta q : Quaternion Expr) (v : V3 Expr)
      → eval_vector o σ (rotations_of.rotate (rotations_of.quat_mul theta q) v)
        ≡ rotation o (hamilton o (eval_quat o σ theta) (eval_quat o σ q)) (eval_vector o σ v)
  eval-turned {o} r σ theta q v =
      rotate_lem r σ _ v ∙ ap (λ p. rotation o p (eval_vector o σ v)) (quat_mul_lem r σ theta q)

  -- `state_error_pred` before its simplification.
  abbrev raw : StateError Expr
  raw =
      predicted_error syntax rotations_of prediction_symbols (Expr.var 61) error_symbols
        noise_symbols

  eval-raw :
      {K : Type 0} {o : Ops K} (r : IsRing o) (σ : ℕ → K) → eval_error o σ raw ≡ error_value o σ
  eval-raw {K} {o} r σ =
      ap
        (λ q.
          part q
            (eval_vector o σ
              (rotations_of.rotate (rotations_of.quat_mul small_turn attitude) pull_t))
            (eval_vector o σ (rotations_of.rotate attitude pull)))
        (eval-delta_q r σ small_turn attitude turn_t turn)
      ∙ ap₂ (part delta) (eval-turned r σ small_turn attitude pull_t) (rotate_lem r σ attitude pull)
    where
      delta : Quaternion K
      delta =
          hamilton o
            (hamilton o (hamilton o (eval_quat o σ small_turn) (eval_quat o σ attitude))
              (eval_quat o σ turn_t))
            (conjugate o (hamilton o (eval_quat o σ attitude) (eval_quat o σ turn)))

      part : Quaternion K → V3 K → V3 K → StateError K
      part =
          error_of o (eval_prediction o σ prediction_symbols) (σ 61) (eval_error o σ error_symbols)

  -- The coefficients of the rotation error, as a polynomial in dt.
  abbrev start : Quaternion Expr
  start = hamilton syntax small_turn attitude

  abbrev rate_t : V3 Expr
  rate_t =
      deviating prediction_symbols.gyro nominal.gyro_bias error_symbols.gyro_bias noise_symbols.gyro

  abbrev rate : V3 Expr
  rate = vector_sub syntax prediction_symbols.gyro nominal.gyro_bias

  abbrev slope_t : Quaternion Expr
  slope_t = hamilton syntax start (turning_slope syntax rate_t)

  abbrev slope : Quaternion Expr
  slope = hamilton syntax attitude (turning_slope syntax rate)

  abbrev constants : V3 Expr
  constants = difference syntax start attitude

  abbrev linears : V3 Expr
  linears = vector_add syntax (difference syntax start slope) (difference syntax slope_t attitude)

  abbrev squares : V3 Expr
  squares = difference syntax slope_t slope

  eval-theta :
      {K : Type 0} {o : Ops K} (r : IsRing o) (ρ : ℕ → K)
      → eval_vector o ρ raw.theta
        ≡ polynomial o
            (eval_vector o ρ constants)
            (eval_vector o ρ linears)
            (eval_vector o ρ squares)
            (ρ dt_symbol)
  eval-theta {o} r ρ =
      ap (λ e. e.theta) (eval-raw r ρ)
      ∙ difference-turning r (eval_quat o ρ start) (eval_quat o ρ attitude) (eval_vector o ρ rate_t)
          (eval_vector o ρ rate) (ρ dt_symbol)

  theta_x-IsQuadratic : IsQuadratic dt_symbol raw.theta.x
  theta_x-IsQuadratic = record {
    constant = constants.x;
    linear = linears.x;
    square = squares.x;
    value_lem = λ r ρ. ap (λ v. v.x) (eval-theta r ρ);
    steady_lem = λ r ρ x. (refl, refl, refl);
  }

  theta_y-IsQuadratic : IsQuadratic dt_symbol raw.theta.y
  theta_y-IsQuadratic = record {
    constant = constants.y;
    linear = linears.y;
    square = squares.y;
    value_lem = λ r ρ. ap (λ v. v.y) (eval-theta r ρ);
    steady_lem = λ r ρ x. (refl, refl, refl);
  }

  theta_z-IsQuadratic : IsQuadratic dt_symbol raw.theta.z
  theta_z-IsQuadratic = record {
    constant = constants.z;
    linear = linears.z;
    square = squares.z;
    value_lem = λ r ρ. ap (λ v. v.z) (eval-theta r ρ);
    steady_lem = λ r ρ x. (refl, refl, refl);
  }

  -- Over values: terms in dt² are dropped from the rotation error.
  eval-simplify_theta :
      {K : Type 0} {o : Ops K} (r : IsRing o) (σ : ℕ → K) (e : Expr)
      → IsQuadratic dt_symbol e
      → square_norm o (eval_quat o σ attitude) ≡ o.lit 1
      → eval o σ (simplify_theta sf e) ≡ linear_part o σ (eval (dual o) (expanded o dt_symbol σ) e)
  eval-simplify_theta r σ e quadratic unit =
      subs_unit_lem r σ attitude _ unit ∙ drop_square_lem r σ dt_symbol e quadratic

  pub eval-state_error_pred :
      {K : Type 0} {o : Ops K} (r : IsRing o) (σ : ℕ → K)
      → square_norm o (eval_quat o σ attitude) ≡ o.lit 1
      → eval_error o σ (state_error_pred sf) ≡ simplified_value o σ
  unfolding state_error_pred
  eval-state_error_pred {K} {o} r σ unit =
      ap {B = StateError K} (λ t. record raw_value { theta = t }) theta
      ∙ ap {B = StateError K} with_theta (eval-raw r σ)
    where
      raw_value : StateError K
      raw_value = eval_error o σ raw

      with_theta : StateError K → StateError K
      with_theta e = record e { theta = (simplified_value o σ).theta }

      theta : eval_vector o σ (state_error_pred sf).theta ≡ (simplified_value o σ).theta
      theta =
          (λ i.
            vector (eval-simplify_theta r σ raw.theta.x theta_x-IsQuadratic unit i)
              (eval-simplify_theta r σ raw.theta.y theta_y-IsQuadratic unit i)
              (eval-simplify_theta r σ raw.theta.z theta_z-IsQuadratic unit i))
          ∙ ap
              (λ e.
                vector (linear_part o σ e.theta.x) (linear_part o σ e.theta.y)
                  (linear_part o σ e.theta.z))
              (eval-raw (dual-IsRing r) (expanded o dt_symbol σ))
