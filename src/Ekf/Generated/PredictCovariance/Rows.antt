-- ===== src/Ekf/Generated/PredictCovariance/Rows.antt =====
-- The intermediate terms of `predict_covariance` that read the covariance
-- (src/modules/EKF/python/generated/predict_covariance.py).
use infinity_autopilot.Ring.{Ops}
use infinity_autopilot.Ekf.Types.{Prediction}
use infinity_autopilot.Ekf.Generated.PredictCovariance.Motion.{Motion}

pub record Rows (K : Type 0) : Type 0 where
  pub tmp24 : K
  pub tmp25 : K
  pub tmp26 : K
  pub tmp27 : K
  pub tmp28 : K
  pub tmp38 : K
  pub tmp39 : K
  pub tmp40 : K
  pub tmp41 : K
  pub tmp42 : K
  pub tmp48 : K
  pub tmp49 : K
  pub tmp50 : K
  pub tmp51 : K
  pub tmp52 : K
  pub tmp53 : K
  pub tmp56 : K
  pub tmp76 : K
  pub tmp81 : K
  pub tmp82 : K
  pub tmp83 : K
  pub tmp84 : K
  pub tmp85 : K
  pub tmp86 : K
  pub tmp87 : K
  pub tmp88 : K
  pub tmp89 : K
  pub tmp90 : K
  pub tmp95 : K
  pub tmp96 : K
  pub tmp97 : K
  pub tmp98 : K
  pub tmp99 : K
  pub tmp100 : K
  pub tmp114 : K
  pub tmp115 : K
  pub tmp116 : K
  pub tmp117 : K
  pub tmp118 : K
  pub tmp120 : K
  pub tmp122 : K
  pub tmp123 : K
  pub tmp124 : K
  pub tmp125 : K
  pub tmp126 : K
  pub tmp127 : K
  pub tmp134 : K
  pub tmp135 : K
  pub tmp136 : K
  pub tmp138 : K
  pub tmp139 : K
  pub tmp140 : K
  pub tmp141 : K
  pub tmp142 : K
  pub tmp143 : K

module _ {K : Type 0} (o : Ops K) (m : Prediction K) (t : Motion K) where
  infixl 65 ◌+◌ ◌-◌
  infixl 70 ◌*◌
  open o use {◌+◌, ◌-◌, ◌*◌}
  open m use {p}
  open t use {
    tmp8, tmp15, tmp20, tmp23, tmp29, tmp34, tmp36, tmp43, tmp44, tmp45, tmp55, tmp59, tmp69, tmp75,
    tmp80, tmp102, tmp104, tmp107, tmp110, tmp113, tmp128, tmp129, tmp130, tmp131, tmp133,
  }

  unfoldable pub rows : Rows K
  rows =
      let tmp24 = p 0 9 * tmp23 + p 10 9 * tmp15 + p 11 9 * tmp20 + p 9 9 * tmp8 in
      let tmp25 = p 0 0 * tmp23 + p 10 0 * tmp15 + p 11 0 * tmp20 + p 9 0 * tmp8 in
      let tmp26 = p 0 11 * tmp23 + p 10 11 * tmp15 + p 11 11 * tmp20 + p 9 11 * tmp8 in
      let tmp27 = p 0 10 * tmp23 + p 10 10 * tmp15 + p 11 10 * tmp20 + p 9 10 * tmp8 in
      let tmp28 = p 0 1 * tmp23 + p 10 1 * tmp15 + p 11 1 * tmp20 + p 9 1 * tmp8 in
      let tmp38 = p 1 9 * tmp23 + p 10 9 * tmp36 + p 11 9 * tmp34 + p 9 9 * tmp29 in
      let tmp39 = p 1 1 * tmp23 + p 10 1 * tmp36 + p 11 1 * tmp34 + p 9 1 * tmp29 in
      let tmp40 = p 1 10 * tmp23 + p 10 10 * tmp36 + p 11 10 * tmp34 + p 9 10 * tmp29 in
      let tmp41 = p 1 11 * tmp23 + p 10 11 * tmp36 + p 11 11 * tmp34 + p 9 11 * tmp29 in
      let tmp42 = p 0 2 * tmp23 + p 10 2 * tmp15 + p 11 2 * tmp20 + p 9 2 * tmp8 in
      let tmp48 = p 1 2 * tmp23 + p 10 2 * tmp36 + p 11 2 * tmp34 + p 9 2 * tmp29 in
      let tmp49 = p 10 9 * tmp44 + p 11 9 * tmp45 + p 2 9 * tmp23 + p 9 9 * tmp43 in
      let tmp50 = p 10 2 * tmp44 + p 11 2 * tmp45 + p 2 2 * tmp23 + p 9 2 * tmp43 in
      let tmp51 = p 10 10 * tmp44 + p 11 10 * tmp45 + p 2 10 * tmp23 + p 9 10 * tmp43 in
      let tmp52 = p 10 11 * tmp44 + p 11 11 * tmp45 + p 2 11 * tmp23 + p 9 11 * tmp43 in
      let tmp53 = p 0 14 * tmp23 + p 10 14 * tmp15 + p 11 14 * tmp20 + p 9 14 * tmp8 in
      let tmp56 = p 0 13 * tmp23 + p 10 13 * tmp15 + p 11 13 * tmp20 + p 9 13 * tmp8 in
      let tmp76 = p 0 12 * tmp23 + p 10 12 * tmp15 + p 11 12 * tmp20 + p 9 12 * tmp8 in
      let tmp81 = p 0 3 * tmp23 + p 10 3 * tmp15 + p 11 3 * tmp20 + p 9 3 * tmp8 in
      let tmp82 = p 1 14 * tmp23 + p 10 14 * tmp36 + p 11 14 * tmp34 + p 9 14 * tmp29 in
      let tmp83 = p 1 13 * tmp23 + p 10 13 * tmp36 + p 11 13 * tmp34 + p 9 13 * tmp29 in
      let tmp84 = p 1 12 * tmp23 + p 10 12 * tmp36 + p 11 12 * tmp34 + p 9 12 * tmp29 in
      let tmp85 = p 1 3 * tmp23 + p 10 3 * tmp36 + p 11 3 * tmp34 + p 9 3 * tmp29 in
      let tmp86 = p 10 12 * tmp44 + p 11 12 * tmp45 + p 2 12 * tmp23 + p 9 12 * tmp43 in
      let tmp87 = p 10 13 * tmp44 + p 11 13 * tmp45 + p 2 13 * tmp23 + p 9 13 * tmp43 in
      let tmp88 = p 10 14 * tmp44 + p 11 14 * tmp45 + p 2 14 * tmp23 + p 9 14 * tmp43 in
      let tmp89 = p 10 1 * tmp44 + p 11 1 * tmp45 + p 2 1 * tmp23 + p 9 1 * tmp43 in
      let tmp90 = p 10 3 * tmp44 + p 11 3 * tmp45 + p 2 3 * tmp23 + p 9 3 * tmp43 in
      let tmp95 =
        p 1 2 * tmp75 - p 12 2 * tmp80 - p 13 2 * tmp59 - p 14 2 * tmp55 + p 2 2 * tmp69 + p 3 2 in
      let tmp96 =
        p 1 14 * tmp75
        - p 12 14 * tmp80
        - p 13 14 * tmp59
        - p 14 14 * tmp55
        + p 2 14 * tmp69
        + p 3 14 in
      let tmp97 =
        p 1 13 * tmp75
        - p 12 13 * tmp80
        - p 13 13 * tmp59
        - p 14 13 * tmp55
        + p 2 13 * tmp69
        + p 3 13 in
      let tmp98 =
        p 1 1 * tmp75 - p 12 1 * tmp80 - p 13 1 * tmp59 - p 14 1 * tmp55 + p 2 1 * tmp69 + p 3 1 in
      let tmp99 =
        p 1 12 * tmp75
        - p 12 12 * tmp80
        - p 13 12 * tmp59
        - p 14 12 * tmp55
        + p 2 12 * tmp69
        + p 3 12 in
      let tmp100 =
        p 1 3 * tmp75 - p 12 3 * tmp80 - p 13 3 * tmp59 - p 14 3 * tmp55 + p 2 3 * tmp69 + p 3 3 in
      let tmp114 = p 0 4 * tmp23 + p 10 4 * tmp15 + p 11 4 * tmp20 + p 9 4 * tmp8 in
      let tmp115 = p 1 0 * tmp23 + p 10 0 * tmp36 + p 11 0 * tmp34 + p 9 0 * tmp29 in
      let tmp116 = p 1 4 * tmp23 + p 10 4 * tmp36 + p 11 4 * tmp34 + p 9 4 * tmp29 in
      let tmp117 = p 10 0 * tmp44 + p 11 0 * tmp45 + p 2 0 * tmp23 + p 9 0 * tmp43 in
      let tmp118 = p 10 4 * tmp44 + p 11 4 * tmp45 + p 2 4 * tmp23 + p 9 4 * tmp43 in
      let tmp120 =
        p 1 0 * tmp75 - p 12 0 * tmp80 - p 13 0 * tmp59 - p 14 0 * tmp55 + p 2 0 * tmp69 + p 3 0 in
      let tmp122 =
        p 1 4 * tmp75 - p 12 4 * tmp80 - p 13 4 * tmp59 - p 14 4 * tmp55 + p 2 4 * tmp69 + p 3 4 in
      let tmp123 =
        p 0 13 * tmp110
        - p 12 13 * tmp102
        - p 13 13 * tmp113
        - p 14 13 * tmp107
        + p 2 13 * tmp104
        + p 4 13 in
      let tmp124 =
        p 0 0 * tmp110
        - p 12 0 * tmp102
        - p 13 0 * tmp113
        - p 14 0 * tmp107
        + p 2 0 * tmp104
        + p 4 0 in
      let tmp125 =
        p 0 12 * tmp110
        - p 12 12 * tmp102
        - p 13 12 * tmp113
        - p 14 12 * tmp107
        + p 2 12 * tmp104
        + p 4 12 in
      let tmp126 =
        p 0 14 * tmp110
        - p 12 14 * tmp102
        - p 13 14 * tmp113
        - p 14 14 * tmp107
        + p 2 14 * tmp104
        + p 4 14 in
      let tmp127 =
        p 0 4 * tmp110
        - p 12 4 * tmp102
        - p 13 4 * tmp113
        - p 14 4 * tmp107
        + p 2 4 * tmp104
        + p 4 4 in
      let tmp134 = p 0 5 * tmp23 + p 10 5 * tmp15 + p 11 5 * tmp20 + p 9 5 * tmp8 in
      let tmp135 = p 1 5 * tmp23 + p 10 5 * tmp36 + p 11 5 * tmp34 + p 9 5 * tmp29 in
      let tmp136 = p 10 5 * tmp44 + p 11 5 * tmp45 + p 2 5 * tmp23 + p 9 5 * tmp43 in
      let tmp138 =
        p 1 5 * tmp75 - p 12 5 * tmp80 - p 13 5 * tmp59 - p 14 5 * tmp55 + p 2 5 * tmp69 + p 3 5 in
      let tmp139 =
        p 0 5 * tmp110
        - p 12 5 * tmp102
        - p 13 5 * tmp113
        - p 14 5 * tmp107
        + p 2 5 * tmp104
        + p 4 5 in
      let tmp140 =
        p 0 14 * tmp131
        + p 1 14 * tmp129
        - p 12 14 * tmp128
        - p 13 14 * tmp130
        - p 14 14 * tmp133
        + p 5 14 in
      let tmp141 =
        p 0 13 * tmp131
        + p 1 13 * tmp129
        - p 12 13 * tmp128
        - p 13 13 * tmp130
        - p 14 13 * tmp133
        + p 5 13 in
      let tmp142 =
        p 0 12 * tmp131
        + p 1 12 * tmp129
        - p 12 12 * tmp128
        - p 13 12 * tmp130
        - p 14 12 * tmp133
        + p 5 12 in
      let tmp143 =
        p 0 5 * tmp131
        + p 1 5 * tmp129
        - p 12 5 * tmp128
        - p 13 5 * tmp130
        - p 14 5 * tmp133
        + p 5 5 in
      record {
        tmp24 = tmp24;
        tmp25 = tmp25;
        tmp26 = tmp26;
        tmp27 = tmp27;
        tmp28 = tmp28;
        tmp38 = tmp38;
        tmp39 = tmp39;
        tmp40 = tmp40;
        tmp41 = tmp41;
        tmp42 = tmp42;
        tmp48 = tmp48;
        tmp49 = tmp49;
        tmp50 = tmp50;
        tmp51 = tmp51;
        tmp52 = tmp52;
        tmp53 = tmp53;
        tmp56 = tmp56;
        tmp76 = tmp76;
        tmp81 = tmp81;
        tmp82 = tmp82;
        tmp83 = tmp83;
        tmp84 = tmp84;
        tmp85 = tmp85;
        tmp86 = tmp86;
        tmp87 = tmp87;
        tmp88 = tmp88;
        tmp89 = tmp89;
        tmp90 = tmp90;
        tmp95 = tmp95;
        tmp96 = tmp96;
        tmp97 = tmp97;
        tmp98 = tmp98;
        tmp99 = tmp99;
        tmp100 = tmp100;
        tmp114 = tmp114;
        tmp115 = tmp115;
        tmp116 = tmp116;
        tmp117 = tmp117;
        tmp118 = tmp118;
        tmp120 = tmp120;
        tmp122 = tmp122;
        tmp123 = tmp123;
        tmp124 = tmp124;
        tmp125 = tmp125;
        tmp126 = tmp126;
        tmp127 = tmp127;
        tmp134 = tmp134;
        tmp135 = tmp135;
        tmp136 = tmp136;
        tmp138 = tmp138;
        tmp139 = tmp139;
        tmp140 = tmp140;
        tmp141 = tmp141;
        tmp142 = tmp142;
        tmp143 = tmp143;
      }
