-- ===== src/Ekf/Validation/Sensors.antt =====
-- The generated measurement functions compute the derived updates.
use infinity_autopilot.Prelude.{◌>>=◌, ℕ, ◌≡◌, refl, sym, ap, ◌∙◌, some}
use infinity_autopilot.Ring.{Ops, IsRing}
use infinity_autopilot.Ring.Expr.{Expr, syntax}
use infinity_autopilot.Ring.Dual.{dual}
use infinity_autopilot.Ring.Solver.{eval, agree_all}
use infinity_autopilot.Ekf.Derivation.{vstate_to_state, prediction_symbols}
use infinity_autopilot.Ekf.Symforce.{Symforce, IsSymforce, eval_vector}
use infinity_autopilot.Ekf.Measurement.{Update1, Update3, state_quat}
use infinity_autopilot.Ekf.Measurement
use infinity_autopilot.Ekf.Generated.Arrays.{NdArray, as_column, as_vector}
use infinity_autopilot.Ekf.Generated.GpsPos.{gps_pos_terms, compute_gps_pos_innov_var_and_h}
use infinity_autopilot.Ekf.Generated.GpsVel.{gps_vel_terms, compute_gps_vel_innov_var_and_h}
use infinity_autopilot.Ekf.Generated.Baro.{baro_terms, compute_baro_innov_var_and_h}
use infinity_autopilot.Ekf.Generated.Lidar.{lidar_terms, compute_lidar_innov_var_and_h}
use infinity_autopilot.Ekf.Validation.Updates.{
  Measured, measured_values, measured_symbols, eval_update3, eval_update1, update3_value,
  update1_value, eval-update3, eval-update1, solve_update3, solve_update1,
}

abbrev symbols : ℕ → Expr
symbols = measured_values measured_symbols

module _ {K : Type 0} {o : Ops K} (r : IsRing o) {sf : Symforce} (law : IsSymforce sf)
    (m : Measured K) where
  abbrev ρ : ℕ → K
  ρ = measured_values m

  eval-gps_pos :
      eval_update3 o ρ (Measurement.compute_gps_pos_innov_var_and_h sf)
      ≡ gps_pos_terms o m.state m.p m.meas m.r
  unfolding Measurement.compute_gps_pos_innov_var_and_h gps_pos_terms agree_all
  eval-gps_pos =
      eval-update3 law r ρ (vstate_to_state prediction_symbols.state).pos
        (eval_vector o ρ (vstate_to_state prediction_symbols.state).pos)
        (λ σ. eval_vector (dual o) σ (vstate_to_state prediction_symbols.state).pos) refl
        (λ σ. refl)
      ∙ solve_update3 r ρ
          (update3_value syntax symbols
            (eval_vector syntax symbols (vstate_to_state prediction_symbols.state).pos)
            (λ σ. eval_vector (dual syntax) σ (vstate_to_state prediction_symbols.state).pos))
          (gps_pos_terms syntax measured_symbols.state measured_symbols.p measured_symbols.meas
            measured_symbols.r)
          refl refl refl refl refl

  -- For arrays of the accepted shapes the generated `compute_gps_pos_innov_var_and_h` returns
  -- the values of the innovation, of the variances H P Hᵀ + R and of the rows of H that the
  -- derivation derives for a GPS position, for every SymForce with the
  -- documented behaviour and every commutative ring with a half.
  pub compute_gps_pos_innov_var_and_h-derived :
      (state meas : NdArray K)
      → as_column 16 state ≡ some m.state
      → as_vector meas ≡ some m.meas
      → compute_gps_pos_innov_var_and_h o state m.p meas m.r
        ≡ some (eval_update3 o ρ (Measurement.compute_gps_pos_innov_var_and_h sf))
  unfolding compute_gps_pos_innov_var_and_h
  compute_gps_pos_innov_var_and_h-derived state meas es em =
      rw (es, em, ◌>>=◌) (ap some (sym eval-gps_pos))

  eval-gps_vel :
      eval_update3 o ρ (Measurement.compute_gps_vel_innov_var_and_h sf)
      ≡ gps_vel_terms o m.state m.p m.meas m.r
  unfolding Measurement.compute_gps_vel_innov_var_and_h gps_vel_terms agree_all
  eval-gps_vel =
      eval-update3 law r ρ (vstate_to_state prediction_symbols.state).vel
        (eval_vector o ρ (vstate_to_state prediction_symbols.state).vel)
        (λ σ. eval_vector (dual o) σ (vstate_to_state prediction_symbols.state).vel) refl
        (λ σ. refl)
      ∙ solve_update3 r ρ
          (update3_value syntax symbols
            (eval_vector syntax symbols (vstate_to_state prediction_symbols.state).vel)
            (λ σ. eval_vector (dual syntax) σ (vstate_to_state prediction_symbols.state).vel))
          (gps_vel_terms syntax measured_symbols.state measured_symbols.p measured_symbols.meas
            measured_symbols.r)
          refl refl refl refl refl

  -- For arrays of the accepted shapes the generated `compute_gps_vel_innov_var_and_h` returns
  -- the values of the innovation, of the variances H P Hᵀ + R and of the rows of H that the
  -- derivation derives for a GPS velocity, for every SymForce with the
  -- documented behaviour and every commutative ring with a half.
  pub compute_gps_vel_innov_var_and_h-derived :
      (state meas : NdArray K)
      → as_column 16 state ≡ some m.state
      → as_vector meas ≡ some m.meas
      → compute_gps_vel_innov_var_and_h o state m.p meas m.r
        ≡ some (eval_update3 o ρ (Measurement.compute_gps_vel_innov_var_and_h sf))
  unfolding compute_gps_vel_innov_var_and_h
  compute_gps_vel_innov_var_and_h-derived state meas es em =
      rw (es, em, ◌>>=◌) (ap some (sym eval-gps_vel))

  eval-baro :
      eval_update1 o ρ (Measurement.compute_baro_innov_var_and_h sf)
      ≡ baro_terms o m.state m.p m.meas.x m.r
  unfolding Measurement.compute_baro_innov_var_and_h baro_terms agree_all
  eval-baro =
      eval-update1 law r ρ (Expr.neg (vstate_to_state prediction_symbols.state).pos.z)
        (eval o ρ (Expr.neg (vstate_to_state prediction_symbols.state).pos.z))
        (λ σ. eval (dual o) σ (Expr.neg (vstate_to_state prediction_symbols.state).pos.z)) refl
        (λ σ. refl)
      ∙ solve_update1 r ρ
          (update1_value syntax symbols
            (eval syntax symbols (Expr.neg (vstate_to_state prediction_symbols.state).pos.z))
            (λ σ. eval (dual syntax) σ (Expr.neg (vstate_to_state prediction_symbols.state).pos.z)))
          (baro_terms syntax measured_symbols.state measured_symbols.p measured_symbols.meas.x
            measured_symbols.r)
          refl refl refl

  -- For a state of the accepted shape the generated `compute_baro_innov_var_and_h` returns
  -- the values of the innovation, of the variance H P Hᵀ + R and of the row H that the derivation
  -- derives for the barometer, for every SymForce with the documented behaviour and every commutative
  -- ring with a half.
  pub compute_baro_innov_var_and_h-derived :
      (state : NdArray K)
      → as_column 16 state ≡ some m.state
      → compute_baro_innov_var_and_h o state m.p m.meas.x m.r
        ≡ some (eval_update1 o ρ (Measurement.compute_baro_innov_var_and_h sf))
  unfolding compute_baro_innov_var_and_h
  compute_baro_innov_var_and_h-derived state es = rw (es, ◌>>=◌) (ap some (sym eval-baro))

  eval-lidar :
      eval_update1 o ρ (Measurement.compute_lidar_innov_var_and_h sf)
      ≡ lidar_terms o m.state m.p m.meas.x m.r
  unfolding Measurement.compute_lidar_innov_var_and_h lidar_terms agree_all
  eval-lidar =
      eval-update1 law r ρ (Expr.neg (vstate_to_state prediction_symbols.state).pos.z)
        (eval o ρ (Expr.neg (vstate_to_state prediction_symbols.state).pos.z))
        (λ σ. eval (dual o) σ (Expr.neg (vstate_to_state prediction_symbols.state).pos.z)) refl
        (λ σ. refl)
      ∙ solve_update1 r ρ
          (update1_value syntax symbols
            (eval syntax symbols (Expr.neg (vstate_to_state prediction_symbols.state).pos.z))
            (λ σ. eval (dual syntax) σ (Expr.neg (vstate_to_state prediction_symbols.state).pos.z)))
          (lidar_terms syntax measured_symbols.state measured_symbols.p measured_symbols.meas.x
            measured_symbols.r)
          refl refl refl

  -- For a state of the accepted shape the generated `compute_lidar_innov_var_and_h` returns
  -- the values of the innovation, of the variance H P Hᵀ + R and of the row H that the derivation
  -- derives for the lidar, for every SymForce with the documented behaviour and every commutative
  -- ring with a half.
  pub compute_lidar_innov_var_and_h-derived :
      (state : NdArray K)
      → as_column 16 state ≡ some m.state
      → compute_lidar_innov_var_and_h o state m.p m.meas.x m.r
        ≡ some (eval_update1 o ρ (Measurement.compute_lidar_innov_var_and_h sf))
  unfolding compute_lidar_innov_var_and_h
  compute_lidar_innov_var_and_h-derived state es = rw (es, ◌>>=◌) (ap some (sym eval-lidar))
