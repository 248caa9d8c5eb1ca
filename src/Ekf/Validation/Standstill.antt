-- ===== src/Ekf/Validation/Standstill.antt =====
-- The generated `predict_covariance` over an interval of length zero.
use infinity_autopilot.Prelude.{
  ℕ, ◌<◌, ◌+◌, ◌*◌, ◌≡◌, refl, ap, ◌∙◌, if◌then◌else◌, ltb, ◌==◌, some, ◌>>=◌, arith,
}
use infinity_autopilot.Ring.{Ops, IsRing}
use infinity_autopilot.Ring.Expr.{syntax}
use infinity_autopilot.Ring.Solver.{agree_all, solve_all}
use infinity_autopilot.Ekf.Types.{Prediction}
use infinity_autopilot.Ekf.Symforce.{square_norm}
use infinity_autopilot.Ekf.Derivation.{vstate_to_state, prediction_symbols, var_u}
use infinity_autopilot.Ekf.Tabulate.{
  tabulate, columns, tabulate_injective, columns_congr, upper_covariance, upper_covariance_congr,
}
use infinity_autopilot.Ekf.Generated.Arrays.{NdArray, Matrix, as_column, as_vector, as_covariance}
use infinity_autopilot.Ekf.Generated.PredictCovariance.{columns_of, predict_covariance}
use infinity_autopilot.Ekf.Generated.PredictCovariance.Motion.{motion}
use infinity_autopilot.Ekf.Validation.Transition.{transition_a, transition_g}
use infinity_autopilot.Ekf.Validation.Columns.{prediction_values}
use infinity_autopilot.Ekf.Validation.Covariance.{columns_of-motion}
use infinity_autopilot.Ekf.Validation.Entries.{flat, flat_injective_15, flat_injective_6}

module _ {K : Type 0} (o : Ops K) where
  open o use {lit}

  abbrev still : Prediction K → Prediction K
  still m = record m { dt = lit 0 }

  abbrev still_a : Prediction K → ℕ → ℕ → K
  still_a m = transition_a o (lit 0) (motion o (still m))

  abbrev still_g : Prediction K → ℕ → ℕ → K
  still_g m = transition_g o (lit 0) (motion o (still m))

  -- A diagonal, with x for the rotation error.
  abbrev diagonal : K → ℕ → ℕ → K
  diagonal x i j = if i == j then (if ltb i 3 then x else lit 1) else lit 0

  abbrev zeros : ℕ → ℕ → K
  zeros i j = lit 0

  abbrev norm_of : Prediction K → K
  norm_of m = square_norm o (vstate_to_state m.state).quat_nominal

  abbrev pub upper : (ℕ → ℕ → K) → ℕ → ℕ → K
  upper p i j = if ltb j i then lit 0 else p i j

module _ {K : Type 0} {o : Ops K} (r : IsRing o) (m : Prediction K) where
  abbrev ρ : ℕ → K
  ρ = prediction_values m (o.lit 0)

  table_a : tabulate 225 (flat 15 (still_a o m)) ≡ tabulate 225 (flat 15 (diagonal o (norm_of o m)))
  unfolding motion agree_all
  table_a =
      solve_all r ρ (tabulate 225 (flat 15 (still_a syntax prediction_symbols)))
        (tabulate 225 (flat 15 (diagonal syntax (norm_of syntax prediction_symbols)))) refl

  table_g : tabulate 90 (flat 6 (still_g o m)) ≡ tabulate 90 (flat 6 (zeros o))
  unfolding motion agree_all
  table_g =
      solve_all r ρ (tabulate 90 (flat 6 (still_g syntax prediction_symbols)))
        (tabulate 90 (flat 6 (zeros syntax))) refl

  abbrev unchanged : {S : Type 0} → Ops S → Prediction S → ℕ → ℕ → S
  unchanged s n = upper_covariance s (diagonal s (s.lit 1)) n.p (zeros s) (var_u s n)

  table_p : tabulate 225 (flat 15 (unchanged o m)) ≡ tabulate 225 (flat 15 (upper o m.p))
  unfolding agree_all
  table_p =
      solve_all r ρ (tabulate 225 (flat 15 (unchanged syntax prediction_symbols)))
        (tabulate 225 (flat 15 (upper syntax prediction_symbols.p))) refl

  place-15 :
      (f h : ℕ → ℕ → K)
      → tabulate 225 (flat 15 f) ≡ tabulate 225 (flat 15 h)
      → (i j : ℕ) → i < 15
      → j < 15
      → f i j ≡ h i j
  place-15 f h e i j li lj =
      flat_injective_15 f h i j lj
        (tabulate_injective 225 (flat 15 f) (flat 15 h) e (15 * i + j) (omega arith))

  columns_of-still :
      norm_of o m ≡ o.lit 1
      → columns_of o (still o m) (motion o (still o m)) ≡ columns 15 (upper o m.p)
  columns_of-still unit =
      columns_of-motion r (still o m)
      ∙ upper_covariance_congr o {p = m.p} {v = var_u o m}
          (λ i j li lj.
            place-15 (still_a o m) (diagonal o (norm_of o m)) table_a i j li lj
            ∙ ap (λ x. diagonal o x i j) unit)
          (λ i j li lj. refl)
          (λ i j li lj. flat_injective_6 (still_g o m) (zeros o) i j lj (
            tabulate_injective 90 (flat 6 (still_g o m)) (flat 6 (zeros o)) table_g (6 * i + j)
              (omega arith)))
          (λ i j li lj. refl)
      ∙ columns_congr 15 (place-15 (unchanged o m) (upper o m.p) table_p)

  -- Over an interval of length zero, for arrays of the accepted shapes and a unit quaternion, the
  -- generated `predict_covariance` returns the upper triangle of P and zeros below it, in every
  -- commutative ring with a half.
  pub predict_covariance-still :
      (state accel accel_var gyro : NdArray K) (p : Matrix K)
      → as_column 16 state ≡ some m.state
      → as_vector accel ≡ some m.accel
      → as_vector accel_var ≡ some m.accel_var
      → as_vector gyro ≡ some m.gyro
      → as_covariance p ≡ some m.p
      → norm_of o m ≡ o.lit 1
      → predict_covariance o state p accel accel_var gyro m.gyro_var (o.lit 0)
        ≡ some (columns 15 (upper o m.p))
  unfolding predict_covariance
  predict_covariance-still state accel accel_var gyro p es ea ev eg ep unit =
      rw (es, ea, ev, eg, ep, ◌>>=◌) (ap some (columns_of-still unit))
