-- ===== src/Ekf/Generated/PredictCovariance/Velocity.antt =====
-- The columns for the other velocity errors
-- (src/modules/EKF/python/generated/predict_covariance.py).
use infinity_autopilot.Prelude.{List, [], ◌∷◌}
use infinity_autopilot.Ring.{Ops}
use infinity_autopilot.Ekf.Types.{Prediction}
use infinity_autopilot.Ekf.Generated.PredictCovariance.Motion.{Motion}
use infinity_autopilot.Ekf.Generated.PredictCovariance.Rows.{Rows}

module _ {K : Type 0} (o : Ops K) (m : Prediction K) (t : Motion K) (r : Rows K) where
  infixl 65 ◌+◌ ◌-◌
  infixl 70 ◌*◌
  open o use {lit, neg, ◌+◌, ◌-◌, ◌*◌}
  open m use {p}
  open t use {
    tmp58, tmp71, tmp72, tmp92, tmp93, tmp94, tmp101, tmp102, tmp104, tmp106, tmp107, tmp110,
    tmp112, tmp113, tmp119, tmp121, tmp128, tmp129, tmp130, tmp131, tmp132, tmp133, tmp137,
  }
  open r use {
    tmp25, tmp28, tmp39, tmp42, tmp48, tmp50, tmp53, tmp56, tmp76, tmp82, tmp83, tmp84, tmp86,
    tmp87, tmp88, tmp89, tmp95, tmp96, tmp97, tmp98, tmp99, tmp114, tmp115, tmp116, tmp117, tmp118,
    tmp120, tmp122, tmp123, tmp124, tmp125, tmp126, tmp127, tmp134, tmp135, tmp136, tmp138, tmp139,
    tmp140, tmp141, tmp142, tmp143,
  }

  unfoldable pub column_4 : List K
  column_4 =
      (neg tmp102 * tmp76
        + tmp104 * tmp42
        - tmp107 * tmp53
        + tmp110 * tmp25
        - tmp113 * tmp56
        + tmp114)
      ∷ (neg tmp102 * tmp84
          + tmp104 * tmp48
          - tmp107 * tmp82
          + tmp110 * tmp115
          - tmp113 * tmp83
          + tmp116)
      ∷ (neg tmp102 * tmp86
          + tmp104 * tmp50
          - tmp107 * tmp88
          + tmp110 * tmp117
          - tmp113 * tmp87
          + tmp118)
      ∷ (tmp101 * tmp119
          - tmp102 * tmp99
          + tmp104 * tmp95
          + tmp106 * tmp121
          - tmp107 * tmp96
          + tmp110 * tmp120
          + tmp112 * tmp58 * tmp92
          - tmp113 * tmp97
          + tmp122)
      ∷ (tmp101 * tmp101 * tmp94
          - tmp102 * tmp125
          + tmp104
            * (p 0 2 * tmp110
                - p 12 2 * tmp102
                - p 13 2 * tmp113
                - p 14 2 * tmp107
                + p 2 2 * tmp104
                + p 4 2)
          + tmp106 * tmp106 * tmp93
          - tmp107 * tmp126
          + tmp110 * tmp124
          + tmp112 * tmp112 * tmp92
          - tmp113 * tmp123
          + tmp127)
      ∷ (lit 0)
      ∷ (lit 0)
      ∷ (lit 0)
      ∷ (lit 0)
      ∷ (lit 0)
      ∷ (lit 0)
      ∷ (lit 0)
      ∷ (lit 0)
      ∷ (lit 0)
      ∷ (lit 0)
      ∷ []

  unfoldable pub column_5 : List K
  column_5 =
      (neg tmp128 * tmp76
        + tmp129 * tmp28
        - tmp130 * tmp56
        + tmp131 * tmp25
        - tmp133 * tmp53
        + tmp134)
      ∷ (tmp115 * tmp131
          - tmp128 * tmp84
          + tmp129 * tmp39
          - tmp130 * tmp83
          - tmp133 * tmp82
          + tmp135)
      ∷ (tmp117 * tmp131
          - tmp128 * tmp86
          + tmp129 * tmp89
          - tmp130 * tmp87
          - tmp133 * tmp88
          + tmp136)
      ∷ (tmp119 * tmp71
          + tmp120 * tmp131
          + tmp121 * tmp132
          - tmp128 * tmp99
          + tmp129 * tmp98
          - tmp130 * tmp97
          - tmp133 * tmp96
          + tmp137 * tmp58
          + tmp138)
      ∷ (tmp101 * tmp71 * tmp94
          + tmp106 * tmp132 * tmp93
          + tmp112 * tmp137
          - tmp123 * tmp130
          + tmp124 * tmp131
          - tmp125 * tmp128
          - tmp126 * tmp133
          + tmp129
            * (p 0 1 * tmp110
                - p 12 1 * tmp102
                - p 13 1 * tmp113
                - p 14 1 * tmp107
                + p 2 1 * tmp104
                + p 4 1)
          + tmp139)
      ∷ (neg tmp128 * tmp142
          + tmp129
            * (p 0 1 * tmp131
                + p 1 1 * tmp129
                - p 12 1 * tmp128
                - p 13 1 * tmp130
                - p 14 1 * tmp133
                + p 5 1)
          - tmp130 * tmp141
          + tmp131
            * (p 0 0 * tmp131
                + p 1 0 * tmp129
                - p 12 0 * tmp128
                - p 13 0 * tmp130
                - p 14 0 * tmp133
                + p 5 0)
          + tmp132 * tmp132 * tmp93
          - tmp133 * tmp140
          + tmp143
          + tmp71 * tmp71 * tmp94
          + tmp72 * tmp72 * tmp92)
      ∷ (lit 0)
      ∷ (lit 0)
      ∷ (lit 0)
      ∷ (lit 0)
      ∷ (lit 0)
      ∷ (lit 0)
      ∷ (lit 0)
      ∷ (lit 0)
      ∷ (lit 0)
      ∷ []
