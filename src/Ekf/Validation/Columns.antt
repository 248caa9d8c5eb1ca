-- ===== src/Ekf/Validation/Columns.antt =====
-- Each column of the generated covariance is the upper triangle of A P Aᵀ + G V Gᵀ.
use infinity_autopilot.Prelude.{
  ℕ, ◌+◌, ◌-◌, ◌*◌, ◌/◌, ◌%◌, ◌≡◌, refl, List, ltb, ◌==◌, if◌then◌else◌,
}
use infinity_autopilot.Ring.{Ops, IsRing}
use infinity_autopilot.Ring.Expr.{Expr, syntax}
use infinity_autopilot.Ring.Solver.{agree_all, solve_all}
use infinity_autopilot.Ekf.Types.{Prediction, component}
use infinity_autopilot.Ekf.Derivation.{prediction_symbols, var_u}
use infinity_autopilot.Ekf.Tabulate.{tabulate, upper_covariance}
use infinity_autopilot.Ekf.Generated.PredictCovariance.Motion.{Motion}
use infinity_autopilot.Ekf.Generated.PredictCovariance.Rows.{Rows, rows}
use infinity_autopilot.Ekf.Generated.PredictCovariance.Attitude.{
  column_0, column_1, column_2, column_3,
}
use infinity_autopilot.Ekf.Generated.PredictCovariance.Velocity.{column_4, column_5}
use infinity_autopilot.Ekf.Generated.PredictCovariance.Position.{
  column_6, column_7, column_8, column_9, column_10,
}
use infinity_autopilot.Ekf.Generated.PredictCovariance.Bias.{
  column_11, column_12, column_13, column_14,
}
use infinity_autopilot.Ekf.Validation.Transition.{Basis, motion_of, transition_a, transition_g}

abbrev symbolic_basis : Basis Expr
symbolic_basis = record {
  norm = Expr.var 400;
  bias = λ i j. Expr.var (410 + (3 * i + j));
  rotation = λ i j. Expr.var (420 + (3 * i + j));
  lever = λ i. Expr.var (430 + i);
}

module _ {K : Type 0} where
  abbrev pub prediction_values : Prediction K → K → ℕ → K
  prediction_values m g u =
      if ltb u 50
      then m.state u
      else if ltb u 53
      then component m.accel (u - 50)
      else if ltb u 56
      then component m.accel_var (u - 53)
      else if ltb u 59
      then component m.gyro (u - 56)
      else if u == 59
      then m.gyro_var
      else if u == 60
      then m.dt
      else if u == 61
      then g
      else m.p ((u - 100) / 15) ((u - 100) % 15)

  abbrev basis_values : Prediction K → Basis K → ℕ → K
  basis_values m b u =
      if ltb u 400
      then prediction_values m m.dt u
      else if ltb u 410
      then b.norm
      else if ltb u 420
      then b.bias ((u - 410) / 3) ((u - 410) % 3)
      else if ltb u 430
      then b.rotation ((u - 420) / 3) ((u - 420) % 3)
      else b.lever (u - 430)

module _ {K : Type 0} (o : Ops K) where
  abbrev pub step_motion : Prediction K → Basis K → Motion K
  step_motion m = motion_of o m.dt m.gyro_var m.accel_var

  abbrev pub step_covariance : Prediction K → Basis K → ℕ → ℕ → K
  step_covariance m b =
      upper_covariance o (transition_a o m.dt (step_motion m b)) m.p
        (transition_g o m.dt (step_motion m b)) (var_u o m)

abbrev s : Motion Expr
s = step_motion syntax prediction_symbols symbolic_basis

abbrev symbolic_rows : Rows Expr
symbolic_rows = rows syntax prediction_symbols s

abbrev symbolic_column : ℕ → List Expr
symbolic_column j = tabulate 15 (λ i. step_covariance syntax prediction_symbols symbolic_basis i j)

module _ {K : Type 0} {o : Ops K} (r : IsRing o) (m : Prediction K) (b : Basis K) where
  abbrev t : Motion K
  t = step_motion o m b

  pub column-0_lem : column_0 o m t (rows o m t) ≡ tabulate 15 (λ i. step_covariance o m b i 0)
  unfolding column_0 rows agree_all
  column-0_lem =
      solve_all r (basis_values m b) (column_0 syntax prediction_symbols s symbolic_rows)
        (symbolic_column 0) refl

  pub column-1_lem : column_1 o m t (rows o m t) ≡ tabulate 15 (λ i. step_covariance o m b i 1)
  unfolding column_1 rows agree_all
  column-1_lem =
      solve_all r (basis_values m b) (column_1 syntax prediction_symbols s symbolic_rows)
        (symbolic_column 1) refl

  pub column-2_lem : column_2 o m t (rows o m t) ≡ tabulate 15 (λ i. step_covariance o m b i 2)
  unfolding column_2 rows agree_all
  column-2_lem =
      solve_all r (basis_values m b) (column_2 syntax prediction_symbols s symbolic_rows)
        (symbolic_column 2) refl

  pub column-3_lem : column_3 o m t (rows o m t) ≡ tabulate 15 (λ i. step_covariance o m b i 3)
  unfolding column_3 rows agree_all
  column-3_lem =
      solve_all r (basis_values m b) (column_3 syntax prediction_symbols s symbolic_rows)
        (symbolic_column 3) refl

  pub column-4_lem : column_4 o m t (rows o m t) ≡ tabulate 15 (λ i. step_covariance o m b i 4)
  unfolding column_4 rows agree_all
  column-4_lem =
      solve_all r (basis_values m b) (column_4 syntax prediction_symbols s symbolic_rows)
        (symbolic_column 4) refl

  pub column-5_lem : column_5 o m t (rows o m t) ≡ tabulate 15 (λ i. step_covariance o m b i 5)
  unfolding column_5 rows agree_all
  column-5_lem =
      solve_all r (basis_values m b) (column_5 syntax prediction_symbols s symbolic_rows)
        (symbolic_column 5) refl

  pub column-6_lem : column_6 o m t (rows o m t) ≡ tabulate 15 (λ i. step_covariance o m b i 6)
  unfolding column_6 rows agree_all
  column-6_lem =
      solve_all r (basis_values m b) (column_6 syntax prediction_symbols s symbolic_rows)
        (symbolic_column 6) refl

  pub column-7_lem : column_7 o m t (rows o m t) ≡ tabulate 15 (λ i. step_covariance o m b i 7)
  unfolding column_7 rows agree_all
  column-7_lem =
      solve_all r (basis_values m b) (column_7 syntax prediction_symbols s symbolic_rows)
        (symbolic_column 7) refl

  pub column-8_lem : column_8 o m t (rows o m t) ≡ tabulate 15 (λ i. step_covariance o m b i 8)
  unfolding column_8 rows agree_all
  column-8_lem =
      solve_all r (basis_values m b) (column_8 syntax prediction_symbols s symbolic_rows)
        (symbolic_column 8) refl

  pub column-9_lem : column_9 o m t (rows o m t) ≡ tabulate 15 (λ i. step_covariance o m b i 9)
  unfolding column_9 rows agree_all
  column-9_lem =
      solve_all r (basis_values m b) (column_9 syntax prediction_symbols s symbolic_rows)
        (symbolic_column 9) refl

  pub column-10_lem : column_10 o m t (rows o m t) ≡ tabulate 15 (λ i. step_covariance o m b i 10)
  unfolding column_10 rows agree_all
  column-10_lem =
      solve_all r (basis_values m b) (column_10 syntax prediction_symbols s symbolic_rows)
        (symbolic_column 10) refl

  pub column-11_lem : column_11 o m t (rows o m t) ≡ tabulate 15 (λ i. step_covariance o m b i 11)
  unfolding column_11 rows agree_all
  column-11_lem =
      solve_all r (basis_values m b) (column_11 syntax prediction_symbols s symbolic_rows)
        (symbolic_column 11) refl

  pub column-12_lem : column_12 o m t (rows o m t) ≡ tabulate 15 (λ i. step_covariance o m b i 12)
  unfolding column_12 rows agree_all
  column-12_lem =
      solve_all r (basis_values m b) (column_12 syntax prediction_symbols s symbolic_rows)
        (symbolic_column 12) refl

  pub column-13_lem : column_13 o m t (rows o m t) ≡ tabulate 15 (λ i. step_covariance o m b i 13)
  unfolding column_13 rows agree_all
  column-13_lem =
      solve_all r (basis_values m b) (column_13 syntax prediction_symbols s symbolic_rows)
        (symbolic_column 13) refl

  pub column-14_lem : column_14 o m t (rows o m t) ≡ tabulate 15 (λ i. step_covariance o m b i 14)
  unfolding column_14 rows agree_all
  column-14_lem =
      solve_all r (basis_values m b) (column_14 syntax prediction_symbols s symbolic_rows)
        (symbolic_column 14) refl
