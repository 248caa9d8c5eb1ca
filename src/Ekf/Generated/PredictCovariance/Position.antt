-- ===== src/Ekf/Generated/PredictCovariance/Position.antt =====
-- The columns for the position errors and two gyroscope biases
-- (src/modules/EKF/python/generated/predict_covariance.py).
use infinity_autopilot.Prelude.{List, [], ◌∷◌}
use infinity_autopilot.Ring.{Ops}
use infinity_autopilot.Ekf.Types.{Prediction}
use infinity_autopilot.Ekf.Generated.PredictCovariance.Motion.{Motion}
use infinity_autopilot.Ekf.Generated.PredictCovariance.Rows.{Rows}

module _ {K : Type 0} (o : Ops K) (m : Prediction K) (t : Motion K) (r : Rows K) where
  infixl 65 ◌+◌ ◌-◌
  infixl 70 ◌*◌
  open o use {lit, ◌+◌, ◌-◌, ◌*◌}
  open m use {p, dt}
  open t use {
    tmp8, tmp15, tmp20, tmp23, tmp29, tmp34, tmp36, tmp43, tmp44, tmp45, tmp55, tmp59, tmp69, tmp75,
    tmp80, tmp102, tmp104, tmp107, tmp110, tmp113, tmp128, tmp129, tmp130, tmp131, tmp133,
  }
  open r use {
    tmp24, tmp27, tmp38, tmp40, tmp49, tmp51, tmp81, tmp85, tmp90, tmp100, tmp114, tmp116, tmp118,
    tmp122, tmp127, tmp134, tmp135, tmp136, tmp138, tmp139, tmp143,
  }

  unfoldable pub column_6 : List K
  column_6 =
      (p 0 6 * tmp23 + p 10 6 * tmp15 + p 11 6 * tmp20 + p 9 6 * tmp8 + tmp81 * dt)
      ∷ (p 1 6 * tmp23 + p 10 6 * tmp36 + p 11 6 * tmp34 + p 9 6 * tmp29 + tmp85 * dt)
      ∷ (p 10 6 * tmp44 + p 11 6 * tmp45 + p 2 6 * tmp23 + p 9 6 * tmp43 + tmp90 * dt)
      ∷ (p 1 6 * tmp75
          - p 12 6 * tmp80
          - p 13 6 * tmp59
          - p 14 6 * tmp55
          + p 2 6 * tmp69
          + p 3 6
          + tmp100 * dt)
      ∷ (p 0 6 * tmp110
          - p 12 6 * tmp102
          - p 13 6 * tmp113
          - p 14 6 * tmp107
          + p 2 6 * tmp104
          + p 4 6
          + dt
            * (p 0 3 * tmp110
                - p 12 3 * tmp102
                - p 13 3 * tmp113
                - p 14 3 * tmp107
                + p 2 3 * tmp104
                + p 4 3))
      ∷ (p 0 6 * tmp131
          + p 1 6 * tmp129
          - p 12 6 * tmp128
          - p 13 6 * tmp130
          - p 14 6 * tmp133
          + p 5 6
          + dt
            * (p 0 3 * tmp131
                + p 1 3 * tmp129
                - p 12 3 * tmp128
                - p 13 3 * tmp130
                - p 14 3 * tmp133
                + p 5 3))
      ∷ (p 3 6 * dt + p 6 6 + dt * (p 3 3 * dt + p 6 3))
      ∷ (lit 0)
      ∷ (lit 0)
      ∷ (lit 0)
      ∷ (lit 0)
      ∷ (lit 0)
      ∷ (lit 0)
      ∷ (lit 0)
      ∷ (lit 0)
      ∷ []

  unfoldable pub column_7 : List K
  column_7 =
      (p 0 7 * tmp23 + p 10 7 * tmp15 + p 11 7 * tmp20 + p 9 7 * tmp8 + tmp114 * dt)
      ∷ (p 1 7 * tmp23 + p 10 7 * tmp36 + p 11 7 * tmp34 + p 9 7 * tmp29 + tmp116 * dt)
      ∷ (p 10 7 * tmp44 + p 11 7 * tmp45 + p 2 7 * tmp23 + p 9 7 * tmp43 + tmp118 * dt)
      ∷ (p 1 7 * tmp75
          - p 12 7 * tmp80
          - p 13 7 * tmp59
          - p 14 7 * tmp55
          + p 2 7 * tmp69
          + p 3 7
          + tmp122 * dt)
      ∷ (p 0 7 * tmp110
          - p 12 7 * tmp102
          - p 13 7 * tmp113
          - p 14 7 * tmp107
          + p 2 7 * tmp104
          + p 4 7
          + tmp127 * dt)
      ∷ (p 0 7 * tmp131
          + p 1 7 * tmp129
          - p 12 7 * tmp128
          - p 13 7 * tmp130
          - p 14 7 * tmp133
          + p 5 7
          + dt
            * (p 0 4 * tmp131
                + p 1 4 * tmp129
                - p 12 4 * tmp128
                - p 13 4 * tmp130
                - p 14 4 * tmp133
                + p 5 4))
      ∷ (p 3 7 * dt + p 6 7 + dt * (p 3 4 * dt + p 6 4))
      ∷ (p 4 7 * dt + p 7 7 + dt * (p 4 4 * dt + p 7 4))
      ∷ (lit 0)
      ∷ (lit 0)
      ∷ (lit 0)
      ∷ (lit 0)
      ∷ (lit 0)
      ∷ (lit 0)
      ∷ (lit 0)
      ∷ []

  unfoldable pub column_8 : List K
  column_8 =
      (p 0 8 * tmp23 + p 10 8 * tmp15 + p 11 8 * tmp20 + p 9 8 * tmp8 + tmp134 * dt)
      ∷ (p 1 8 * tmp23 + p 10 8 * tmp36 + p 11 8 * tmp34 + p 9 8 * tmp29 + tmp135 * dt)
      ∷ (p 10 8 * tmp44 + p 11 8 * tmp45 + p 2 8 * tmp23 + p 9 8 * tmp43 + tmp136 * dt)
      ∷ (p 1 8 * tmp75
          - p 12 8 * tmp80
          - p 13 8 * tmp59
          - p 14 8 * tmp55
          + p 2 8 * tmp69
          + p 3 8
          + tmp138 * dt)
      ∷ (p 0 8 * tmp110
          - p 12 8 * tmp102
          - p 13 8 * tmp113
          - p 14 8 * tmp107
          + p 2 8 * tmp104
          + p 4 8
          + tmp139 * dt)
      ∷ (p 0 8 * tmp131
          + p 1 8 * tmp129
          - p 12 8 * tmp128
          - p 13 8 * tmp130
          - p 14 8 * tmp133
          + p 5 8
          + tmp143 * dt)
      ∷ (p 3 8 * dt + p 6 8 + dt * (p 3 5 * dt + p 6 5))
      ∷ (p 4 8 * dt + p 7 8 + dt * (p 4 5 * dt + p 7 5))
      ∷ (p 5 8 * dt + p 8 8 + dt * (p 5 5 * dt + p 8 5))
      ∷ (lit 0)
      ∷ (lit 0)
      ∷ (lit 0)
      ∷ (lit 0)
      ∷ (lit 0)
      ∷ (lit 0)
      ∷ []

  unfoldable pub column_9 : List K
  column_9 =
      tmp24
      ∷ tmp38
      ∷ tmp49
      ∷ (p 1 9 * tmp75 - p 12 9 * tmp80 - p 13 9 * tmp59 - p 14 9 * tmp55 + p 2 9 * tmp69 + p 3 9)
      ∷ (p 0 9 * tmp110
          - p 12 9 * tmp102
          - p 13 9 * tmp113
          - p 14 9 * tmp107
          + p 2 9 * tmp104
          + p 4 9)
      ∷ (p 0 9 * tmp131
          + p 1 9 * tmp129
          - p 12 9 * tmp128
          - p 13 9 * tmp130
          - p 14 9 * tmp133
          + p 5 9)
      ∷ (p 3 9 * dt + p 6 9)
      ∷ (p 4 9 * dt + p 7 9)
      ∷ (p 5 9 * dt + p 8 9)
      ∷ (p 9 9)
      ∷ (lit 0)
      ∷ (lit 0)
      ∷ (lit 0)
      ∷ (lit 0)
      ∷ (lit 0)
      ∷ []

  unfoldable pub column_10 : List K
  column_10 =
      tmp27
      ∷ tmp40
      ∷ tmp51
      ∷ (p 1 10 * tmp75
          - p 12 10 * tmp80
          - p 13 10 * tmp59
          - p 14 10 * tmp55
          + p 2 10 * tmp69
          + p 3 10)
      ∷ (p 0 10 * tmp110
          - p 12 10 * tmp102
          - p 13 10 * tmp113
          - p 14 10 * tmp107
          + p 2 10 * tmp104
          + p 4 10)
      ∷ (p 0 10 * tmp131
          + p 1 10 * tmp129
          - p 12 10 * tmp128
          - p 13 10 * tmp130
          - p 14 10 * tmp133
          + p 5 10)
      ∷ (p 3 10 * dt + p 6 10)
      ∷ (p 4 10 * dt + p 7 10)
      ∷ (p 5 10 * dt + p 8 10)
      ∷ (p 9 10)
      ∷ (p 10 10)
      ∷ (lit 0)
      ∷ (lit 0)
      ∷ (lit 0)
      ∷ (lit 0)
      ∷ []
