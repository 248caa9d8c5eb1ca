-- ===== src/Ekf/Generated/PredictCovariance/Attitude.antt =====
-- The columns of the result for the rotation errors and one velocity error
-- (src/modules/EKF/python/generated/predict_covariance.py).
use infinity_autopilot.Prelude.{List, [], ◌∷◌}
use infinity_autopilot.Ring.{Ops}
use infinity_autopilot.Ekf.Types.{Prediction}
use infinity_autopilot.Ekf.Generated.PredictCovariance.Motion.{Motion}
use infinity_autopilot.Ekf.Generated.PredictCovariance.Rows.{Rows}

module _ {K : Type 0} (o : Ops K) (m : Prediction K) (t : Motion K) (r : Rows K) where
  infixl 65 ◌+◌ ◌-◌
  infixl 70 ◌*◌
  open o use {lit, ◌+◌, ◌-◌, ◌*◌}
  open m use {gyro_var}
  open t use {
    tmp8, tmp15, tmp20, tmp23, tmp29, tmp34, tmp36, tmp37, tmp43, tmp44, tmp45, tmp46, tmp47, tmp54,
    tmp55, tmp58, tmp59, tmp69, tmp75, tmp79, tmp80, tmp92, tmp93, tmp94,
  }
  open r use {
    tmp24, tmp25, tmp26, tmp27, tmp28, tmp38, tmp39, tmp40, tmp41, tmp42, tmp48, tmp49, tmp50,
    tmp51, tmp52, tmp53, tmp56, tmp76, tmp81, tmp82, tmp83, tmp84, tmp85, tmp86, tmp87, tmp88,
    tmp89, tmp90, tmp95, tmp96, tmp97, tmp98, tmp99, tmp100,
  }

  unfoldable pub column_0 : List K
  column_0 =
      (tmp15 * tmp15 * gyro_var
        + tmp15 * tmp27
        + tmp20 * tmp20 * gyro_var
        + tmp20 * tmp26
        + tmp23 * tmp25
        + tmp24 * tmp8
        + tmp8 * tmp8 * gyro_var)
      ∷ (lit 0)
      ∷ (lit 0)
      ∷ (lit 0)
      ∷ (lit 0)
      ∷ (lit 0)
      ∷ (lit 0)
      ∷ (lit 0)
      ∷ (lit 0)
      ∷ (lit 0)
      ∷ (lit 0)
      ∷ (lit 0)
      ∷ (lit 0)
      ∷ (lit 0)
      ∷ (lit 0)
      ∷ []

  unfoldable pub column_1 : List K
  column_1 =
      (tmp15 * tmp37
        + tmp20 * tmp34 * gyro_var
        + tmp23 * tmp28
        + tmp24 * tmp29
        + tmp26 * tmp34
        + tmp27 * tmp36
        + tmp29 * tmp8 * gyro_var)
      ∷ (tmp23 * tmp39
          + tmp29 * tmp29 * gyro_var
          + tmp29 * tmp38
          + tmp34 * tmp34 * gyro_var
          + tmp34 * tmp41
          + tmp36 * tmp36 * gyro_var
          + tmp36 * tmp40)
      ∷ (lit 0)
      ∷ (lit 0)
      ∷ (lit 0)
      ∷ (lit 0)
      ∷ (lit 0)
      ∷ (lit 0)
      ∷ (lit 0)
      ∷ (lit 0)
      ∷ (lit 0)
      ∷ (lit 0)
      ∷ (lit 0)
      ∷ (lit 0)
      ∷ (lit 0)
      ∷ []

  unfoldable pub column_2 : List K
  column_2 =
      (tmp15 * tmp44 * gyro_var
        + tmp20 * tmp47
        + tmp23 * tmp42
        + tmp24 * tmp43
        + tmp26 * tmp45
        + tmp27 * tmp44
        + tmp46 * tmp8)
      ∷ (tmp23 * tmp48
          + tmp29 * tmp46
          + tmp34 * tmp47
          + tmp37 * tmp44
          + tmp38 * tmp43
          + tmp40 * tmp44
          + tmp41 * tmp45)
      ∷ (tmp23 * tmp50
          + tmp43 * tmp43 * gyro_var
          + tmp43 * tmp49
          + tmp44 * tmp44 * gyro_var
          + tmp44 * tmp51
          + tmp45 * tmp45 * gyro_var
          + tmp45 * tmp52)
      ∷ (lit 0)
      ∷ (lit 0)
      ∷ (lit 0)
      ∷ (lit 0)
      ∷ (lit 0)
      ∷ (lit 0)
      ∷ (lit 0)
      ∷ (lit 0)
      ∷ (lit 0)
      ∷ (lit 0)
      ∷ (lit 0)
      ∷ (lit 0)
      ∷ []

  unfoldable pub column_3 : List K
  column_3 =
      (tmp28 * tmp75 + tmp42 * tmp69 - tmp53 * tmp55 - tmp56 * tmp59 - tmp76 * tmp80 + tmp81)
      ∷ (tmp39 * tmp75 + tmp48 * tmp69 - tmp55 * tmp82 - tmp59 * tmp83 - tmp80 * tmp84 + tmp85)
      ∷ (tmp50 * tmp69 - tmp55 * tmp88 - tmp59 * tmp87 + tmp75 * tmp89 - tmp80 * tmp86 + tmp90)
      ∷ (tmp100
          + tmp54 * tmp54 * tmp93
          - tmp55 * tmp96
          + tmp58 * tmp58 * tmp92
          - tmp59 * tmp97
          + tmp69 * tmp95
          + tmp75 * tmp98
          + tmp79 * tmp79 * tmp94
          - tmp80 * tmp99)
      ∷ (lit 0)
      ∷ (lit 0)
      ∷ (lit 0)
      ∷ (lit 0)
      ∷ (lit 0)
      ∷ (lit 0)
      ∷ (lit 0)
      ∷ (lit 0)
      ∷ (lit 0)
      ∷ (lit 0)
      ∷ (lit 0)
      ∷ []
