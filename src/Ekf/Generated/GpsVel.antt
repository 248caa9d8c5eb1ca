-- ===== src/Ekf/Generated/GpsVel.antt =====
-- The generated `compute_gps_vel_innov_var_and_h`
-- (src/modules/EKF/python/generated/compute_gps_vel_innov_var_and_h.py).
use infinity_autopilot.Prelude.{◌>>=◌, ℕ, [], ◌∷◌, Option, some}
use infinity_autopilot.Ring.{Ops}
use infinity_autopilot.Ekf.Types.{V3, vector}
use infinity_autopilot.Ekf.Measurement.{Update3}
use infinity_autopilot.Ekf.Generated.Arrays.{NdArray, as_column, as_vector}

module _ {K : Type 0} (o : Ops K) where
  infixl 65 ◌+◌
  open o use {lit, neg, ◌+◌}

  -- From the intermediate terms on.
  unfoldable pub gps_vel_terms : (ℕ → K) → (ℕ → ℕ → K) → V3 K → K → Update3 K
  gps_vel_terms state p meas r = record {
    innov = vector (neg meas.x + state 4) (neg meas.y + state 5) (neg meas.z + state 6);
    innov_var = vector (p 3 3 + r) (p 4 4 + r) (p 5 5 + r);
    hx =
        lit 0
        ∷ lit 0
        ∷ lit 0
        ∷ lit 1
        ∷ lit 0
        ∷ lit 0
        ∷ lit 0
        ∷ lit 0
        ∷ lit 0
        ∷ lit 0
        ∷ lit 0
        ∷ lit 0
        ∷ lit 0
        ∷ lit 0
        ∷ lit 0
        ∷ [];
    hy =
        lit 0
        ∷ lit 0
        ∷ lit 0
        ∷ lit 0
        ∷ lit 1
        ∷ lit 0
        ∷ lit 0
        ∷ lit 0
        ∷ lit 0
        ∷ lit 0
        ∷ lit 0
        ∷ lit 0
        ∷ lit 0
        ∷ lit 0
        ∷ lit 0
        ∷ [];
    hz =
        lit 0
        ∷ lit 0
        ∷ lit 0
        ∷ lit 0
        ∷ lit 0
        ∷ lit 1
        ∷ lit 0
        ∷ lit 0
        ∷ lit 0
        ∷ lit 0
        ∷ lit 0
        ∷ lit 0
        ∷ lit 0
        ∷ lit 0
        ∷ lit 0
        ∷ [];
  }

  unfoldable pub compute_gps_vel_innov_var_and_h :
      NdArray K → (ℕ → ℕ → K) → NdArray K → K → Option (Update3 K)
  compute_gps_vel_innov_var_and_h state p meas r = do
    state ← as_column 16 state
    meas ← as_vector meas
    some (gps_vel_terms state p meas r)
