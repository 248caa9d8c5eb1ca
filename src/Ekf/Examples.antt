-- ===== src/Ekf/Examples.antt =====
-- Tests of the filter's model, and its theorems at concrete inputs over the integers modulo 3.
use infinity_autopilot.Prelude.{
  ℕ, ◌+◌, ◌*◌, ◌==◌, ◌≡◌, ◌⊎◌, ◌↔◌, refl, inl, List, [], ◌∷◌, none, some, if◌then◌else◌, arith,
}
use infinity_autopilot.Ring.Mod3.{Z3, z0, z1, z2, mod3, mod3-IsRing}
use infinity_autopilot.Ring.Solver.{eval}
use infinity_autopilot.Ekf.Types.{V3, Prediction, State, vector}
use infinity_autopilot.Ekf.Symforce.Reference.{reference, reference-IsSymforce}
use infinity_autopilot.Ekf.Derivation
use infinity_autopilot.Ekf.Derivation.{vstate_to_state}
use infinity_autopilot.Ekf.Measurement
use infinity_autopilot.Ekf.Tabulate.{columns}
use infinity_autopilot.Ekf.Generated.Arrays.{NdArray, Matrix}
use infinity_autopilot.Ekf.Generated.PredictCovariance.{predict_covariance}
use infinity_autopilot.Ekf.Generated.GpsPos.{compute_gps_pos_innov_var_and_h}
use infinity_autopilot.Ekf.Generated.GpsVel.{compute_gps_vel_innov_var_and_h}
use infinity_autopilot.Ekf.Generated.Mag.{compute_mag_innov_var_and_h}
use infinity_autopilot.Ekf.Generated.Baro.{compute_baro_innov_var_and_h}
use infinity_autopilot.Ekf.Generated.Lidar.{compute_lidar_innov_var_and_h}
use infinity_autopilot.Ekf.Layout.{
  state_kinds, build_tangent_state_index, build_tangent_state_index_tiles, holders, state_data,
  vstate_to_state-state_data,
}
use infinity_autopilot.Ekf.Validation.Columns.{prediction_values}
use infinity_autopilot.Ekf.Validation.Updates.{
  Measured, measured_values, eval_update3, eval_update1,
}
use infinity_autopilot.Ekf.Validation.Standstill.{upper, predict_covariance-still}
use infinity_autopilot.Ekf.Validation.Prediction.{predict_covariance-derived}
use infinity_autopilot.Ekf.Validation.Shapes.{predict_covariance-none}
use infinity_autopilot.Ekf.Validation.Sensors.{
  compute_gps_pos_innov_var_and_h-derived, compute_gps_vel_innov_var_and_h-derived,
  compute_baro_innov_var_and_h-derived, compute_lidar_innov_var_and_h-derived,
}
use infinity_autopilot.Ekf.Validation.Mag.{compute_mag_innov_var_and_h-derived}

-- A quaternion of square norm 4, which is 1 modulo 3, and other entries that vary.
abbrev sample_state : ℕ → Z3
sample_state i = if i == 5 then z2 else z1

abbrev sample_p : ℕ → ℕ → Z3
sample_p i j = mod3.lit (i + 2 * j + i * j)

abbrev sample_matrix : Matrix Z3
sample_matrix = record { rows = 15; columns = 15; entry = sample_p }

abbrev sample_vector : V3 Z3
sample_vector = vector z1 z2 z0

abbrev step : Prediction Z3
step = record {
  state = sample_state;
  p = sample_p;
  accel = sample_vector;
  accel_var = vector z2 z2 z1;
  gyro = vector z0 z1 z1;
  gyro_var = z2;
  dt = z2;
}

abbrev measured : Measured Z3
measured = record {
  state = sample_state;
  p = sample_p;
  meas = sample_vector;
  mag_ref = vector z1 z0 z2;
  r = z1;
}

abbrev state_array : NdArray Z3
state_array = record { shape = 16 ∷ 1 ∷ []; item = sample_state }

abbrev array3 : Z3 → Z3 → Z3 → NdArray Z3
array3 a b c = record { shape = 3 ∷ []; item = λ i. if i == 0 then a else if i == 1 then b else c }

predict_covariance-derived_example :
    predict_covariance mod3 state_array sample_matrix
      (array3 z1 z2 z0)
      (array3 z2 z2 z1)
      (array3 z0 z1 z1)
      z2
      z2
    ≡ some (
        columns 15 (λ i j.
          eval mod3 (prediction_values step z1) (Derivation.predict_covariance reference i j)))
predict_covariance-derived_example =
    predict_covariance-derived mod3-IsRing reference-IsSymforce step z1 state_array
      (array3 z1 z2 z0) (array3 z2 z2 z1) (array3 z0 z1 z1) sample_matrix refl refl refl refl refl
      refl

predict_covariance-still_example :
    predict_covariance mod3 state_array sample_matrix
      (array3 z1 z2 z0)
      (array3 z2 z2 z1)
      (array3 z0 z1 z1)
      z2
      z0
    ≡ some (columns 15 (upper mod3 sample_p))
predict_covariance-still_example =
    predict_covariance-still mod3-IsRing step state_array (array3 z1 z2 z0) (array3 z2 z2 z1)
      (array3 z0 z1 z1) sample_matrix refl refl refl refl refl refl

predict_covariance-none_example :
    predict_covariance mod3
      (array3 z0 z1 z2)
      sample_matrix
      (array3 z1 z2 z0)
      (array3 z2 z2 z1)
      (array3 z0 z1 z1)
      z2
      z2
    ≡ none
predict_covariance-none_example =
    (predict_covariance-none mod3 (array3 z0 z1 z2) (array3 z1 z2 z0) (array3 z2 z2 z1)
        (array3 z0 z1 z1) sample_matrix z2 z2).1
      (inl not_a_state)
  where
    not_a_state :
        ¬ ((◌≡◌ {A = List ℕ} (3 ∷ []) (16 ∷ [])) ⊎ (◌≡◌ {A = List ℕ} (3 ∷ []) (16 ∷ 1 ∷ [])))
    not_a_state = ground arith

compute_gps_pos_innov_var_and_h-derived_example :
    compute_gps_pos_innov_var_and_h mod3 state_array sample_p (array3 z1 z2 z0) z1
    ≡ some (
        eval_update3 mod3
          (measured_values measured)
          (Measurement.compute_gps_pos_innov_var_and_h reference))
compute_gps_pos_innov_var_and_h-derived_example =
    compute_gps_pos_innov_var_and_h-derived mod3-IsRing reference-IsSymforce measured state_array
      (array3 z1 z2 z0) refl refl

compute_gps_vel_innov_var_and_h-derived_example :
    compute_gps_vel_innov_var_and_h mod3 state_array sample_p (array3 z1 z2 z0) z1
    ≡ some (
        eval_update3 mod3
          (measured_values measured)
          (Measurement.compute_gps_vel_innov_var_and_h reference))
compute_gps_vel_innov_var_and_h-derived_example =
    compute_gps_vel_innov_var_and_h-derived mod3-IsRing reference-IsSymforce measured state_array
      (array3 z1 z2 z0) refl refl

compute_mag_innov_var_and_h-derived_example :
    compute_mag_innov_var_and_h mod3 state_array sample_p (array3 z1 z2 z0) (array3 z1 z0 z2) z1
    ≡ some (
        eval_update3 mod3
          (measured_values measured)
          (Measurement.compute_mag_innov_var_and_h reference))
compute_mag_innov_var_and_h-derived_example =
    compute_mag_innov_var_and_h-derived mod3-IsRing reference-IsSymforce measured state_array
      (array3 z1 z2 z0) (array3 z1 z0 z2) refl refl refl

compute_baro_innov_var_and_h-derived_example :
    compute_baro_innov_var_and_h mod3 state_array sample_p z1 z1
    ≡ some (
        eval_update1 mod3
          (measured_values measured)
          (Measurement.compute_baro_innov_var_and_h reference))
compute_baro_innov_var_and_h-derived_example =
    compute_baro_innov_var_and_h-derived mod3-IsRing reference-IsSymforce measured state_array refl

compute_lidar_innov_var_and_h-derived_example :
    compute_lidar_innov_var_and_h mod3 state_array sample_p z1 z1
    ≡ some (
        eval_update1 mod3
          (measured_values measured)
          (Measurement.compute_lidar_innov_var_and_h reference))
compute_lidar_innov_var_and_h-derived_example =
    compute_lidar_innov_var_and_h-derived mod3-IsRing reference-IsSymforce measured state_array refl

build_tangent_state_index_tiles_example : holders 14 (build_tangent_state_index state_kinds) ≡ 1
build_tangent_state_index_tiles_example = build_tangent_state_index_tiles state_kinds 14

-- The identity attitude is not read back: its quaternion has unequal components.
abbrev level : State Z3
level = record {
  quat_nominal = record { x = z0; y = z0; z = z0; w = z1 };
  vel = sample_vector;
  pos = sample_vector;
  gyro_bias = sample_vector;
  accel_bias = sample_vector;
}

vstate_to_state-state_data_example :
    (vstate_to_state (state_data level) ≡ level)
    ↔ ((◌≡◌ {A = Z3} z0 z0) × (◌≡◌ {A = Z3} z0 z0) × (◌≡◌ {A = Z3} z0 z1))
vstate_to_state-state_data_example = vstate_to_state-state_data level

level_misread : ¬ (vstate_to_state (state_data level) ≡ level)
level_misread e = cc (vstate_to_state-state_data_example.0 e).2
