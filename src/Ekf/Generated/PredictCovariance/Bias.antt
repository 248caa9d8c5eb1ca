-- ===== src/Ekf/Generated/PredictCovariance/Bias.antt =====
-- The columns for the last gyroscope bias and the accelerometer biases
-- (src/modules/EKF/python/generated/predict_covariance.py).
use infinity_autopilot.Prelude.{List, [], ◌∷◌}
use infinity_autopilot.Ring.{Ops}
use infinity_autopilot.Ekf.Types.{Prediction}
use infinity_autopilot.Ekf.Generated.PredictCovariance.Motion.{Motion}
use infinity_autopilot.Ekf.Generated.PredictCovariance.Rows.{Rows}

module _ {K : Type 0} (o : Ops K) (m : Prediction K) (t : Motion K) (r : Rows K) where
  infixl 65 ◌+◌ ◌-◌
  infixl 70 ◌*◌
  open o use {lit, ◌+◌, ◌-◌, ◌*◌}
  open m use {p, dt}
  open t use {
    tmp55, tmp59, tmp69, tmp75, tmp80, tmp102, tmp104, tmp107, tmp110, tmp113, tmp128, tmp129,
    tmp130, tmp131, tmp133,
  }
  open r use {
    tmp26, tmp41, tmp52, tmp53, tmp56, tmp76, tmp82, tmp83, tmp84, tmp86, tmp87, tmp88, tmp96,
    tmp97, tmp99, tmp123, tmp125, tmp126, tmp140, tmp141, tmp142,
  }

  unfoldable pub column_11 : List K
  column_11 =
      tmp26
      ∷ tmp41
      ∷ tmp52
      ∷ (p 1 11 * tmp75
          - p 12 11 * tmp80
          - p 13 11 * tmp59
          - p 14 11 * tmp55
          + p 2 11 * tmp69
          + p 3 11)
      ∷ (p 0 11 * tmp110
          - p 12 11 * tmp102
          - p 13 11 * tmp113
          - p 14 11 * tmp107
          + p 2 11 * tmp104
          + p 4 11)
      ∷ (p 0 11 * tmp131
          + p 1 11 * tmp129
          - p 12 11 * tmp128
          - p 13 11 * tmp130
          - p 14 11 * tmp133
          + p 5 11)
      ∷ (p 3 11 * dt + p 6 11)
      ∷ (p 4 11 * dt + p 7 11)
      ∷ (p 5 11 * dt + p 8 11)
      ∷ (p 9 11)
      ∷ (p 10 11)
      ∷ (p 11 11)
      ∷ (lit 0)
      ∷ (lit 0)
      ∷ (lit 0)
      ∷ []

  unfoldable pub column_12 : List K
  column_12 =
      tmp76
      ∷ tmp84
      ∷ tmp86
      ∷ tmp99
      ∷ tmp125
      ∷ tmp142
      ∷ (p 3 12 * dt + p 6 12)
      ∷ (p 4 12 * dt + p 7 12)
      ∷ (p 5 12 * dt + p 8 12)
      ∷ (p 9 12)
      ∷ (p 10 12)
      ∷ (p 11 12)
      ∷ (p 12 12)
      ∷ (lit 0)
      ∷ (lit 0)
      ∷ []

  unfoldable pub column_13 : List K
  column_13 =
      tmp56
      ∷ tmp83
      ∷ tmp87
      ∷ tmp97
      ∷ tmp123
      ∷ tmp141
      ∷ (p 3 13 * dt + p 6 13)
      ∷ (p 4 13 * dt + p 7 13)
      ∷ (p 5 13 * dt + p 8 13)
      ∷ (p 9 13)
      ∷ (p 10 13)
      ∷ (p 11 13)
      ∷ (p 12 13)
      ∷ (p 13 13)
      ∷ (lit 0)
      ∷ []

  unfoldable pub column_14 : List K
  column_14 =
      tmp53
      ∷ tmp82
      ∷ tmp88
      ∷ tmp96
      ∷ tmp126
      ∷ tmp140
      ∷ (p 3 14 * dt + p 6 14)
      ∷ (p 4 14 * dt + p 7 14)
      ∷ (p 5 14 * dt + p 8 14)
      ∷ (p 9 14)
      ∷ (p 10 14)
      ∷ (p 11 14)
      ∷ (p 12 14)
      ∷ (p 13 14)
      ∷ (p 14 14)
      ∷ []
