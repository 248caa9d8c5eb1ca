-- ===== src/Ekf/Generated/PredictCovariance/Motion.antt =====
-- The intermediate terms of `predict_covariance` that do not read the covariance
-- (src/modules/EKF/python/generated/predict_covariance.py).
use infinity_autopilot.Ring.{Ops}
use infinity_autopilot.Ekf.Types.{Prediction}

pub record Motion (K : Type 0) : Type 0 where
  pub tmp8 : K
  pub tmp15 : K
  pub tmp20 : K
  pub tmp23 : K
  pub tmp29 : K
  pub tmp34 : K
  pub tmp36 : K
  pub tmp37 : K
  pub tmp43 : K
  pub tmp44 : K
  pub tmp45 : K
  pub tmp46 : K
  pub tmp47 : K
  pub tmp54 : K
  pub tmp55 : K
  pub tmp58 : K
  pub tmp59 : K
  pub tmp69 : K
  pub tmp71 : K
  pub tmp72 : K
  pub tmp75 : K
  pub tmp79 : K
  pub tmp80 : K
  pub tmp92 : K
  pub tmp93 : K
  pub tmp94 : K
  pub tmp101 : K
  pub tmp102 : K
  pub tmp104 : K
  pub tmp106 : K
  pub tmp107 : K
  pub tmp110 : K
  pub tmp112 : K
  pub tmp113 : K
  pub tmp119 : K
  pub tmp121 : K
  pub tmp128 : K
  pub tmp129 : K
  pub tmp130 : K
  pub tmp131 : K
  pub tmp132 : K
  pub tmp133 : K
  pub tmp137 : K

module _ {K : Type 0} (o : Ops K) (m : Prediction K) where
  infixl 65 ◌+◌ ◌-◌
  infixl 70 ◌*◌
  open o use {lit, neg, ◌+◌, ◌-◌, ◌*◌}
  open m use {state, accel, accel_var, gyro_var, dt}

  unfoldable pub motion : Motion K
  motion =
      let tmp0 = state 3 * state 3 in
      let tmp1 = tmp0 * dt in
      let tmp2 = state 0 * state 0 in
      let tmp3 = neg tmp2 * dt in
      let tmp4 = state 2 * state 2 in
      let tmp5 = tmp4 * dt in
      let tmp6 = state 1 * state 1 in
      let tmp7 = tmp6 * dt in
      let tmp8 = tmp1 + tmp3 + tmp5 - tmp7 in
      let tmp9 = lit 2 * state 1 in
      let tmp10 = tmp9 * state 2 in
      let tmp11 = neg tmp10 * dt in
      let tmp12 = lit 2 * state 0 in
      let tmp13 = tmp12 * state 3 in
      let tmp14 = tmp13 * dt in
      let tmp15 = tmp11 + tmp14 in
      let tmp16 = tmp9 * state 3 in
      let tmp17 = neg tmp16 * dt in
      let tmp18 = tmp12 * state 2 in
      let tmp19 = tmp18 * dt in
      let tmp20 = tmp17 - tmp19 in
      let tmp21 = tmp0 + tmp4 in
      let tmp22 = tmp2 + tmp6 in
      let tmp23 = tmp21 + tmp22 in
      let tmp29 = tmp11 - tmp14 in
      let tmp30 = lit 2 * state 2 * state 3 in
      let tmp31 = neg tmp30 * dt in
      let tmp32 = tmp12 * state 1 in
      let tmp33 = tmp32 * dt in
      let tmp34 = tmp31 + tmp33 in
      let tmp35 = tmp3 + tmp7 in
      let tmp36 = tmp1 + tmp35 - tmp5 in
      let tmp37 = tmp36 * gyro_var in
      let tmp43 = tmp17 + tmp19 in
      let tmp44 = tmp31 - tmp33 in
      let tmp45 = neg tmp1 + tmp35 + tmp5 in
      let tmp46 = tmp43 * gyro_var in
      let tmp47 = tmp45 * gyro_var in
      let tmp54 = tmp16 + tmp18 in
      let tmp55 = tmp54 * dt in
      let tmp57 = neg tmp13 in
      let tmp58 = tmp10 + tmp57 in
      let tmp59 = tmp58 * dt in
      let tmp60 = neg tmp10 in
      let tmp61 = accel.x - state 13 in
      let tmp62 = neg tmp30 in
      let tmp63 = accel.z - state 15 in
      let tmp64 = neg tmp4 in
      let tmp65 = tmp0 + tmp64 in
      let tmp66 = neg tmp2 in
      let tmp67 = tmp6 + tmp66 in
      let tmp68 = accel.y - state 14 in
      let tmp69 =
        dt * (tmp61 * (tmp57 + tmp60) + tmp63 * (tmp32 + tmp62) + tmp68 * (tmp65 + tmp67)) in
      let tmp70 = neg tmp18 in
      let tmp71 = tmp16 + tmp70 in
      let tmp72 = tmp30 + tmp32 in
      let tmp73 = neg tmp6 in
      let tmp74 = tmp2 + tmp73 in
      let tmp75 = dt * (tmp61 * tmp71 + tmp63 * (tmp65 + tmp74) + tmp68 * tmp72) in
      let tmp77 = neg (lit 2) * tmp4 in
      let tmp78 = lit 1 - lit 2 * tmp0 in
      let tmp79 = tmp77 + tmp78 in
      let tmp80 = tmp79 * dt in
      let tmp91 = dt * dt in
      let tmp92 = tmp91 * accel_var.y in
      let tmp93 = tmp91 * accel_var.z in
      let tmp94 = tmp91 * accel_var.x in
      let tmp101 = tmp10 + tmp13 in
      let tmp102 = tmp101 * dt in
      let tmp103 = neg tmp0 in
      let tmp104 = dt * (tmp54 * tmp63 + tmp58 * tmp68 + tmp61 * (tmp103 + tmp22 + tmp64)) in
      let tmp105 = neg tmp32 in
      let tmp106 = tmp105 + tmp30 in
      let tmp107 = tmp106 * dt in
      let tmp108 = neg tmp16 in
      let tmp109 = tmp103 + tmp4 in
      let tmp110 =
        dt * (tmp61 * (tmp108 + tmp18) + tmp63 * (tmp109 + tmp67) + tmp68 * (tmp105 + tmp62)) in
      let tmp111 = neg (lit 2) * tmp6 in
      let tmp112 = tmp111 + tmp78 in
      let tmp113 = tmp112 * dt in
      let tmp119 = tmp79 * tmp94 in
      let tmp121 = tmp54 * tmp93 in
      let tmp128 = tmp71 * dt in
      let tmp129 =
        dt
        * (tmp61 * (tmp21 + tmp66 + tmp73) + tmp63 * (tmp108 + tmp70) + tmp68 * (tmp13 + tmp60)) in
      let tmp130 = tmp72 * dt in
      let tmp131 = dt * (tmp101 * tmp61 + tmp106 * tmp63 + tmp68 * (tmp109 + tmp74)) in
      let tmp132 = tmp111 + tmp77 + lit 1 in
      let tmp133 = tmp132 * dt in
      let tmp137 = tmp72 * tmp92 in
      record {
        tmp8 = tmp8;
        tmp15 = tmp15;
        tmp20 = tmp20;
        tmp23 = tmp23;
        tmp29 = tmp29;
        tmp34 = tmp34;
        tmp36 = tmp36;
        tmp37 = tmp37;
        tmp43 = tmp43;
        tmp44 = tmp44;
        tmp45 = tmp45;
        tmp46 = tmp46;
        tmp47 = tmp47;
        tmp54 = tmp54;
        tmp55 = tmp55;
        tmp58 = tmp58;
        tmp59 = tmp59;
        tmp69 = tmp69;
        tmp71 = tmp71;
        tmp72 = tmp72;
        tmp75 = tmp75;
        tmp79 = tmp79;
        tmp80 = tmp80;
        tmp92 = tmp92;
        tmp93 = tmp93;
        tmp94 = tmp94;
        tmp101 = tmp101;
        tmp102 = tmp102;
        tmp104 = tmp104;
        tmp106 = tmp106;
        tmp107 = tmp107;
        tmp110 = tmp110;
        tmp112 = tmp112;
        tmp113 = tmp113;
        tmp119 = tmp119;
        tmp121 = tmp121;
        tmp128 = tmp128;
        tmp129 = tmp129;
        tmp130 = tmp130;
        tmp131 = tmp131;
        tmp132 = tmp132;
        tmp133 = tmp133;
        tmp137 = tmp137;
      }
