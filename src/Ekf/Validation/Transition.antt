-- ===== src/Ekf/Validation/Transition.antt =====
-- The transition matrices A and G, as the intermediate terms of the generated code hold them.
use infinity_autopilot.Prelude.{ℕ, zero, suc, List, [], ◌∷◌}
use infinity_autopilot.Ring.{Ops}
use infinity_autopilot.Ekf.Types.{V3}
use infinity_autopilot.Ekf.Generated.PredictCovariance.Motion.{Motion}

-- The terms from which the others follow: |q|², the rotation matrix times dt in two forms, and the
-- velocity's dependence on the rotation error.
pub record Basis (K : Type 0) : Type 0 where
  pub norm : K
  pub bias : ℕ → ℕ → K
  pub rotation : ℕ → ℕ → K
  pub lever : ℕ → K

module _ {K : Type 0} (o : Ops K) (dt gyro_var : K) (accel_var : V3 K) where
  infixl 70 ◌*◌
  open o use {◌*◌}

  abbrev pub motion_of : Basis K → Motion K
  motion_of b = record {
    tmp8 = b.bias 0 0;
    tmp15 = b.bias 0 1;
    tmp20 = b.bias 0 2;
    tmp23 = b.norm;
    tmp29 = b.bias 1 0;
    tmp34 = b.bias 1 2;
    tmp36 = b.bias 1 1;
    tmp37 = b.bias 1 1 * gyro_var;
    tmp43 = b.bias 2 0;
    tmp44 = b.bias 2 1;
    tmp45 = b.bias 2 2;
    tmp46 = b.bias 2 0 * gyro_var;
    tmp47 = b.bias 2 2 * gyro_var;
    tmp54 = b.rotation 0 2;
    tmp55 = b.rotation 0 2 * dt;
    tmp58 = b.rotation 0 1;
    tmp59 = b.rotation 0 1 * dt;
    tmp69 = b.lever 1;
    tmp71 = b.rotation 2 0;
    tmp72 = b.rotation 2 1;
    tmp75 = b.lever 0;
    tmp79 = b.rotation 0 0;
    tmp80 = b.rotation 0 0 * dt;
    tmp92 = dt * dt * accel_var.y;
    tmp93 = dt * dt * accel_var.z;
    tmp94 = dt * dt * accel_var.x;
    tmp101 = b.rotation 1 0;
    tmp102 = b.rotation 1 0 * dt;
    tmp104 = b.lever 3;
    tmp106 = b.rotation 1 2;
    tmp107 = b.rotation 1 2 * dt;
    tmp110 = b.lever 2;
    tmp112 = b.rotation 1 1;
    tmp113 = b.rotation 1 1 * dt;
    tmp119 = b.rotation 0 0 * (dt * dt * accel_var.x);
    tmp121 = b.rotation 0 2 * (dt * dt * accel_var.z);
    tmp128 = b.rotation 2 0 * dt;
    tmp129 = b.lever 5;
    tmp130 = b.rotation 2 1 * dt;
    tmp131 = b.lever 4;
    tmp132 = b.rotation 2 2;
    tmp133 = b.rotation 2 2 * dt;
    tmp137 = b.rotation 2 1 * (dt * dt * accel_var.y);
  }

module _ {K : Type 0} (o : Ops K) where
  abbrev pub entry : List (List K) → ℕ → ℕ → K
  entry [] i j = o.lit 0
  entry (row ∷ rows) zero j = item row j
    where
      item : List K → ℕ → K
      item [] j = o.lit 0
      item (x ∷ xs) zero = x
      item (x ∷ xs) (suc j) = item xs j
  entry (row ∷ rows) (suc i) j = entry rows i j

module _ {K : Type 0} (o : Ops K) (dt : K) (t : Motion K) where
  open o use {lit, neg}
  open t use {
    tmp8, tmp15, tmp20, tmp23, tmp29, tmp34, tmp36, tmp43, tmp44, tmp45, tmp55, tmp59, tmp69, tmp75,
    tmp80, tmp102, tmp104, tmp107, tmp110, tmp113, tmp128, tmp129, tmp130, tmp131, tmp133,
  }

  abbrev z : K
  z = lit 0

  abbrev i : K
  i = lit 1

  -- Rows and columns: rotation, velocity, position, gyroscope bias, accelerometer bias.
  abbrev pub transition_a : ℕ → ℕ → K
  transition_a = entry o (
      (tmp23 ∷ z ∷ z ∷ z ∷ z ∷ z ∷ z ∷ z ∷ z ∷ tmp8 ∷ tmp15 ∷ tmp20 ∷ z ∷ z ∷ z ∷ [])
      ∷ (z ∷ tmp23 ∷ z ∷ z ∷ z ∷ z ∷ z ∷ z ∷ z ∷ tmp29 ∷ tmp36 ∷ tmp34 ∷ z ∷ z ∷ z ∷ [])
      ∷ (z ∷ z ∷ tmp23 ∷ z ∷ z ∷ z ∷ z ∷ z ∷ z ∷ tmp43 ∷ tmp44 ∷ tmp45 ∷ z ∷ z ∷ z ∷ [])
      ∷ (z
          ∷ tmp75
          ∷ tmp69
          ∷ i
          ∷ z
          ∷ z
          ∷ z
          ∷ z
          ∷ z
          ∷ z
          ∷ z
          ∷ z
          ∷ neg tmp80
          ∷ neg tmp59
          ∷ neg tmp55
          ∷ [])
      ∷ (tmp110
          ∷ z
          ∷ tmp104
          ∷ z
          ∷ i
          ∷ z
          ∷ z
          ∷ z
          ∷ z
          ∷ z
          ∷ z
          ∷ z
          ∷ neg tmp102
          ∷ neg tmp113
          ∷ neg tmp107
          ∷ [])
      ∷ (tmp131
          ∷ tmp129
          ∷ z
          ∷ z
          ∷ z
          ∷ i
          ∷ z
          ∷ z
          ∷ z
          ∷ z
          ∷ z
          ∷ z
          ∷ neg tmp128
          ∷ neg tmp130
          ∷ neg tmp133
          ∷ [])
      ∷ (z ∷ z ∷ z ∷ dt ∷ z ∷ z ∷ i ∷ [])
      ∷ (z ∷ z ∷ z ∷ z ∷ dt ∷ z ∷ z ∷ i ∷ [])
      ∷ (z ∷ z ∷ z ∷ z ∷ z ∷ dt ∷ z ∷ z ∷ i ∷ [])
      ∷ (z ∷ z ∷ z ∷ z ∷ z ∷ z ∷ z ∷ z ∷ z ∷ i ∷ [])
      ∷ (z ∷ z ∷ z ∷ z ∷ z ∷ z ∷ z ∷ z ∷ z ∷ z ∷ i ∷ [])
      ∷ (z ∷ z ∷ z ∷ z ∷ z ∷ z ∷ z ∷ z ∷ z ∷ z ∷ z ∷ i ∷ [])
      ∷ (z ∷ z ∷ z ∷ z ∷ z ∷ z ∷ z ∷ z ∷ z ∷ z ∷ z ∷ z ∷ i ∷ [])
      ∷ (z ∷ z ∷ z ∷ z ∷ z ∷ z ∷ z ∷ z ∷ z ∷ z ∷ z ∷ z ∷ z ∷ i ∷ [])
      ∷ (z ∷ z ∷ z ∷ z ∷ z ∷ z ∷ z ∷ z ∷ z ∷ z ∷ z ∷ z ∷ z ∷ z ∷ i ∷ [])
      ∷ [])

  -- Columns: accelerometer noise, gyroscope noise.
  abbrev pub transition_g : ℕ → ℕ → K
  transition_g = entry o (
      (z ∷ z ∷ z ∷ tmp8 ∷ tmp15 ∷ tmp20 ∷ [])
      ∷ (z ∷ z ∷ z ∷ tmp29 ∷ tmp36 ∷ tmp34 ∷ [])
      ∷ (z ∷ z ∷ z ∷ tmp43 ∷ tmp44 ∷ tmp45 ∷ [])
      ∷ (neg tmp80 ∷ neg tmp59 ∷ neg tmp55 ∷ [])
      ∷ (neg tmp102 ∷ neg tmp113 ∷ neg tmp107 ∷ [])
      ∷ (neg tmp128 ∷ neg tmp130 ∷ neg tmp133 ∷ [])
      ∷ [])
