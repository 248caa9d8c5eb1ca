-- ===== src/Ekf/Validation/Prediction.antt =====
-- The generated `predict_covariance` computes the derived covariance.
use infinity_autopilot.Prelude.{
  ◌>>=◌, ℕ, zero, suc, ◌+◌, ◌*◌, ◌<◌, ◌==◌, arith, ◌≡◌, refl, sym, ap, ap₂, ◌∙◌, ltb, Bool-cases,
  inl, inr, some,
}
use infinity_autopilot.Ring.{Ops, IsRing}
use infinity_autopilot.Ring.Expr.{Expr, syntax}
use infinity_autopilot.Ring.Solver.{eval}
use infinity_autopilot.Ekf.Types.{Prediction, V3, component}
use infinity_autopilot.Ekf.Symforce.{Symforce, IsSymforce, square_norm, eval_vector, sum}
use infinity_autopilot.Ekf.Derivation
use infinity_autopilot.Ekf.Derivation.{
  vstate_to_state, prediction_symbols, var_u, jacobian_a, jacobian_g,
}
use infinity_autopilot.Ekf.Tabulate.{
  columns, columns_congr, sum_congr, upper_covariance, upper_covariance_congr,
}
use infinity_autopilot.Ekf.Generated.Arrays.{NdArray, Matrix, as_column, as_vector, as_covariance}
use infinity_autopilot.Ekf.Generated.PredictCovariance.{predict_covariance, columns_of}
use infinity_autopilot.Ekf.Generated.PredictCovariance.Motion.{motion}
use infinity_autopilot.Ekf.Validation.Columns.{prediction_values}
use infinity_autopilot.Ekf.Validation.Covariance.{columns_of-motion}
use infinity_autopilot.Ekf.Validation.Jacobian.{eval-jacobian_a, eval-jacobian_g}
use infinity_autopilot.Ekf.Validation.Entries.{values_a-terms_a, values_g-terms_g}

eval-component :
    {K : Type 0} (o : Ops K) (ρ : ℕ → K) (v : V3 Expr) (i : ℕ)
    → eval o ρ (component v i) ≡ component (eval_vector o ρ v) i
eval-component o ρ v zero = refl
eval-component o ρ v (suc zero) = refl
eval-component o ρ v (suc (suc n)) = refl

module _ {K : Type 0} {o : Ops K} (r : IsRing o) {sf : Symforce} (law : IsSymforce sf) where
  open law use {mat_mul_lem, mat_add_lem}

  eval-sandwich :
      (ρ : ℕ → K) (n : ℕ) (a m : ℕ → ℕ → Expr) (i j : ℕ)
      → eval o ρ (sf.mat_mul n (sf.mat_mul n a m) (λ k l. a l k) i j)
        ≡ sum o n (λ k.
          o.◌*◌ (sum o n (λ l. o.◌*◌ (eval o ρ (a i l)) (eval o ρ (m l k)))) (eval o ρ (a j k)))
  eval-sandwich ρ n a m i j =
      mat_mul_lem r ρ n (sf.mat_mul n a m) (λ k l. a l k) i j
      ∙ sum_congr o n (λ k l. ap (λ s. o.◌*◌ s (eval o ρ (a j k))) (mat_mul_lem r ρ n a m i k))

  module _ (m : Prediction K) (g : K) where
    abbrev ρ : ℕ → K
    ρ = prediction_values m g

    eval-p : (k l : ℕ) → k < 15 → l < 15 → ρ (100 + (15 * k + l)) ≡ m.p k l
    eval-p k l hk hl = ground arith

    eval-var_u :
        (k l : ℕ) → k < 6 → l < 6 → eval o ρ (var_u syntax prediction_symbols k l) ≡ var_u o m k l
    eval-var_u k l hk hl = elim (Bool-cases (k == l)) [
      | inl e ↦ rw e (elim (Bool-cases (ltb k 3)) [
        | inl f ↦ rw f (eval-component o ρ (prediction_symbols.accel_var) k)
        | inr f ↦ rw f
      ])
      | inr e ↦ rw e
    ]

    eval-predict_covariance :
        (i j : ℕ)
        → eval o ρ (Derivation.predict_covariance sf i j)
          ≡ upper_covariance o
              (λ k l. eval o ρ (jacobian_a sf k l))
              (λ k l. eval o ρ (prediction_symbols.p k l))
              (λ k l. eval o ρ (jacobian_g sf k l))
              (λ k l. eval o ρ (var_u syntax prediction_symbols k l))
              i
              j
    unfolding Derivation.predict_covariance
    eval-predict_covariance i j = elim (Bool-cases (ltb j i)) [
      | inl e ↦ rw e
      | inr e ↦ rw e (
          mat_add_lem r ρ _ _ i j
          ∙ ap₂ o.◌+◌ (eval-sandwich ρ 15 (jacobian_a sf) prediction_symbols.p i j)
              (eval-sandwich ρ 6 (jacobian_g sf) (var_u syntax prediction_symbols) i j))
    ]

    columns_of-derivation :
        square_norm o (vstate_to_state m.state).quat_nominal ≡ o.lit 1
        → columns_of o m (motion o m)
          ≡ columns 15 (λ i j. eval o ρ (Derivation.predict_covariance sf i j))
    columns_of-derivation unit =
        columns_of-motion r m
        ∙ upper_covariance_congr o
            (λ i j li lj. sym (eval-jacobian_a law r ρ unit i j ∙ values_a-terms_a r m g i j li lj))
            (λ i j li lj. sym (eval-p i j li lj))
            (λ i j li lj. sym (eval-jacobian_g law r ρ unit i j ∙ values_g-terms_g r m g i j li lj))
            (λ i j li lj. sym (eval-var_u i j li lj))
        ∙ columns_congr 15 (λ i j li lj. sym (eval-predict_covariance i j))

    -- For arrays of the accepted shapes and a unit quaternion, the generated `predict_covariance`
    -- returns, entry by entry, the value of the covariance that the derivation derives, for every
    -- SymForce with the documented behaviour, every gravity and every commutative ring with a half.
    pub predict_covariance-derived :
        (state accel accel_var gyro : NdArray K) (p : Matrix K)
        → as_column 16 state ≡ some m.state
        → as_vector accel ≡ some m.accel
        → as_vector accel_var ≡ some m.accel_var
        → as_vector gyro ≡ some m.gyro
        → as_covariance p ≡ some m.p
        → square_norm o (vstate_to_state m.state).quat_nominal ≡ o.lit 1
        → predict_covariance o state p accel accel_var gyro m.gyro_var m.dt
          ≡ some (
              columns 15
                (λ i j. eval o (prediction_values m g) (Derivation.predict_covariance sf i j)))
    unfolding predict_covariance
    predict_covariance-derived state accel accel_var gyro p es ea ev eg ep unit =
        rw (es, ea, ev, eg, ep, ◌>>=◌) (ap some (columns_of-derivation unit))
