-- ===== src/Ekf/Generated/Mag.antt =====
-- The generated `compute_mag_innov_var_and_h`
-- (src/modules/EKF/python/generated/compute_mag_innov_var_and_h.py).
use infinity_autopilot.Prelude.{◌>>=◌, ℕ, [], ◌∷◌, Option, some}
use infinity_autopilot.Ring.{Ops}
use infinity_autopilot.Ekf.Types.{V3, vector}
use infinity_autopilot.Ekf.Measurement.{Update3}
use infinity_autopilot.Ekf.Generated.Arrays.{NdArray, as_column, as_vector}

module _ {K : Type 0} (o : Ops K) where
  infixl 65 ◌+◌ ◌-◌
  infixl 70 ◌*◌
  open o use {lit, half, neg, ◌+◌, ◌-◌, ◌*◌}

  -- From the intermediate terms on.
  unfoldable pub mag_terms : (ℕ → K) → (ℕ → ℕ → K) → V3 K → V3 K → K → Update3 K
  mag_terms state p meas mag_ref r =
      let tmp0 = neg (lit 2) * (state 2 * state 2) in
      let tmp1 = lit 1 - lit 2 * (state 3 * state 3) in
      let tmp2 = lit 2 * state 1 in
      let tmp3 = tmp2 * state 2 in
      let tmp4 = lit 2 * state 0 * state 3 in
      let tmp5 = tmp2 * state 3 in
      let tmp6 = lit 2 * state 2 in
      let tmp7 = tmp6 * state 0 in
      let tmp8 = neg (lit 2) * (state 1 * state 1) in
      let tmp9 = tmp6 * state 3 in
      let tmp10 = tmp2 * state 0 in
      let tmp11 = lit 4 * mag_ref.x in
      let tmp12 = lit 2 * mag_ref.z in
      let tmp13 = tmp12 * state 0 in
      let tmp14 = mag_ref.y * state 1 in
      let tmp15 = lit 2 * tmp14 in
      let tmp16 = neg tmp11 * state 2 - tmp13 + tmp15 in
      let tmp17 = half * tmp16 in
      let tmp18 = tmp2 * mag_ref.z in
      let tmp19 = lit 2 * mag_ref.y in
      let tmp20 = tmp19 * state 0 in
      let tmp21 = neg tmp11 * state 3 + tmp18 + tmp20 in
      let tmp22 = half * state 0 in
      let tmp23 = tmp12 * state 2 in
      let tmp24 = tmp19 * state 3 in
      let tmp25 = neg half * tmp23 + half * tmp24 in
      let tmp26 = tmp12 * state 3 in
      let tmp27 = tmp19 * state 2 in
      let tmp28 = tmp26 + tmp27 in
      let tmp29 = half * tmp28 in
      let tmp30 = tmp17 * state 1 + tmp21 * tmp22 - tmp25 * state 3 - tmp29 * state 2 in
      let tmp31 = half * tmp21 in
      let tmp32 = neg tmp17 * state 3 + tmp22 * tmp28 - tmp25 * state 1 + tmp31 * state 2 in
      let tmp33 = tmp16 * tmp22 - tmp25 * state 2 + tmp29 * state 3 - tmp31 * state 1 in
      let tmp34 = lit 2 * mag_ref.x in
      let tmp35 = tmp34 * state 0 in
      let tmp36 = tmp23 - tmp35 - lit 4 * mag_ref.y * state 3 in
      let tmp37 = half * tmp36 in
      let tmp38 = tmp34 * state 2 in
      let tmp39 = tmp13 - lit 4 * tmp14 + tmp38 in
      let tmp40 = tmp34 * state 3 in
      let tmp41 = half * tmp18 - half * tmp40 in
      let tmp42 = tmp2 * mag_ref.x in
      let tmp43 = tmp26 + tmp42 in
      let tmp44 = half * tmp43 in
      let tmp45 = tmp22 * tmp39 + tmp37 * state 2 - tmp41 * state 1 - tmp44 * state 3 in
      let tmp46 = half * tmp39 in
      let tmp47 = tmp22 * tmp43 - tmp37 * state 1 - tmp41 * state 2 + tmp46 * state 3 in
      let tmp48 = tmp22 * tmp36 - tmp41 * state 3 + tmp44 * state 1 - tmp46 * state 2 in
      let tmp49 = lit 4 * mag_ref.z in
      let tmp50 = tmp24 + tmp35 - tmp49 * state 2 in
      let tmp51 = neg tmp20 + tmp40 - tmp49 * state 1 in
      let tmp52 = half * tmp51 in
      let tmp53 = neg half * tmp15 + half * tmp38 in
      let tmp54 = half * tmp27 + half * tmp42 in
      let tmp55 = tmp22 * tmp50 + tmp52 * state 3 - tmp53 * state 2 - tmp54 * state 1 in
      let tmp56 = half * tmp50 in
      let tmp57 = neg tmp52 * state 2 - tmp53 * state 3 + tmp54 * state 0 + tmp56 * state 1 in
      let tmp58 = tmp22 * tmp51 - tmp53 * state 1 + tmp54 * state 2 - tmp56 * state 3 in
      record {
        innov =
            vector
              (mag_ref.x * (tmp0 + tmp1)
                + mag_ref.y * (tmp3 + tmp4)
                + mag_ref.z * (tmp5 - tmp7)
                - meas.x)
              (mag_ref.x * (tmp3 - tmp4)
                + mag_ref.y * (tmp1 + tmp8)
                + mag_ref.z * (tmp10 + tmp9)
                - meas.y)
              (mag_ref.x * (tmp5 + tmp7)
                + mag_ref.y * (neg tmp10 + tmp9)
                + mag_ref.z * (tmp0 + tmp8 + lit 1)
                - meas.z);
        innov_var =
            vector
              (r
                + tmp30 * (p 0 2 * tmp32 + p 1 2 * tmp33 + p 2 2 * tmp30)
                + tmp32 * (p 0 0 * tmp32 + p 1 0 * tmp33 + p 2 0 * tmp30)
                + tmp33 * (p 0 1 * tmp32 + p 1 1 * tmp33 + p 2 1 * tmp30))
              (r
                + tmp45 * (p 0 0 * tmp45 + p 1 0 * tmp47 + p 2 0 * tmp48)
                + tmp47 * (p 0 1 * tmp45 + p 1 1 * tmp47 + p 2 1 * tmp48)
                + tmp48 * (p 0 2 * tmp45 + p 1 2 * tmp47 + p 2 2 * tmp48))
              (r
                + tmp55 * (p 0 1 * tmp58 + p 1 1 * tmp55 + p 2 1 * tmp57)
                + tmp57 * (p 0 2 * tmp58 + p 1 2 * tmp55 + p 2 2 * tmp57)
                + tmp58 * (p 0 0 * tmp58 + p 1 0 * tmp55 + p 2 0 * tmp57));
        hx =
            tmp32
            ∷ tmp33
            ∷ tmp30
            ∷ lit 0
            ∷ lit 0
            ∷ lit 0
            ∷ lit 0
            ∷ lit 0
            ∷ lit 0
            ∷ lit 0
            ∷ lit 0
            ∷ lit 0
            ∷ lit 0
            ∷ lit 0
            ∷ lit 0
            ∷ [];
        hy =
            tmp45
            ∷ tmp47
            ∷ tmp48
            ∷ lit 0
            ∷ lit 0
            ∷ lit 0
            ∷ lit 0
            ∷ lit 0
            ∷ lit 0
            ∷ lit 0
            ∷ lit 0
            ∷ lit 0
            ∷ lit 0
            ∷ lit 0
            ∷ lit 0
            ∷ [];
        hz =
            tmp58
            ∷ tmp55
            ∷ tmp57
            ∷ lit 0
            ∷ lit 0
            ∷ lit 0
            ∷ lit 0
            ∷ lit 0
            ∷ lit 0
            ∷ lit 0
            ∷ lit 0
            ∷ lit 0
            ∷ lit 0
            ∷ lit 0
            ∷ lit 0
            ∷ [];
      }

  unfoldable pub compute_mag_innov_var_and_h :
      NdArray K → (ℕ → ℕ → K) → NdArray K → NdArray K → K → Option (Update3 K)
  compute_mag_innov_var_and_h state p meas mag_ref r = do
    state ← as_column 16 state
    meas ← as_vector meas
    mag_ref ← as_vector mag_ref
    some (mag_terms state p meas mag_ref r)
