-- ===== src/Ekf/Generated/PredictCovariance.antt =====
-- The generated `predict_covariance` (src/modules/EKF/python/generated/predict_covariance.py).
-- Its intermediate terms stand in two records, those that do not read the covariance first.
use infinity_autopilot.Prelude.{◌>>=◌, ℕ, List, [], ◌∷◌, Option, some}
use infinity_autopilot.Ring.{Ops}
use infinity_autopilot.Ekf.Types.{Prediction}
use infinity_autopilot.Ekf.Generated.Arrays.{NdArray, Matrix, as_column, as_vector, as_covariance}
pub mod Motion
pub mod Rows
pub mod Attitude
pub mod Velocity
pub mod Position
pub mod Bias
use Motion.{motion}
use Rows.{rows}
use Attitude.{column_0, column_1, column_2, column_3}
use Velocity.{column_4, column_5}
use Position.{column_6, column_7, column_8, column_9, column_10}
use Bias.{column_11, column_12, column_13, column_14}

module _ {K : Type 0} (o : Ops K) where
  -- The columns of `_res`, from the terms.
  abbrev pub columns_of : Prediction K → Motion.Motion K → List (List K)
  columns_of m t =
      let r = rows o m t in
      column_0 o m t r
      ∷ column_1 o m t r
      ∷ column_2 o m t r
      ∷ column_3 o m t r
      ∷ column_4 o m t r
      ∷ column_5 o m t r
      ∷ column_6 o m t r
      ∷ column_7 o m t r
      ∷ column_8 o m t r
      ∷ column_9 o m t r
      ∷ column_10 o m t r
      ∷ column_11 o m t r
      ∷ column_12 o m t r
      ∷ column_13 o m t r
      ∷ column_14 o m t r
      ∷ []

  unfoldable pub predict_covariance :
      NdArray K → Matrix K → NdArray K → NdArray K → NdArray K → K → K → Option (List (List K))
  predict_covariance state p accel accel_var gyro gyro_var dt = do
    state ← as_column 16 state
    accel ← as_vector accel
    accel_var ← as_vector accel_var
    gyro ← as_vector gyro
    p ← as_covariance p
    let m : Prediction K = record {
      state = state;
      p = p;
      accel = accel;
      accel_var = accel_var;
      gyro = gyro;
      gyro_var = gyro_var;
      dt = dt;
    }
    some (columns_of m (motion o m))
