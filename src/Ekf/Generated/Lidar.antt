-- ===== src/Ekf/Generated/Lidar.antt =====
-- The generated `compute_lidar_innov_var_and_h`
-- (src/modules/EKF/python/generated/compute_lidar_innov_var_and_h.py).
use infinity_autopilot.Prelude.{◌>>=◌, ℕ, [], ◌∷◌, Option, some}
use infinity_autopilot.Ring.{Ops}
use infinity_autopilot.Ekf.Measurement.{Update1}
use infinity_autopilot.Ekf.Generated.Arrays.{NdArray, as_column}

module _ {K : Type 0} (o : Ops K) where
  infixl 65 ◌+◌ ◌-◌
  open o use {lit, neg, ◌+◌, ◌-◌}

  -- From the intermediate terms on.
  unfoldable pub lidar_terms : (ℕ → K) → (ℕ → ℕ → K) → K → K → Update1 K
  lidar_terms state p meas r = record {
    innov = neg meas - state 9;
    innov_var = p 8 8 + r;
    h =
        lit 0
        ∷ lit 0
        ∷ lit 0
        ∷ lit 0
        ∷ lit 0
        ∷ lit 0
        ∷ lit 0
        ∷ lit 0
        ∷ neg (lit 1)
        ∷ lit 0
        ∷ lit 0
        ∷ lit 0
        ∷ lit 0
        ∷ lit 0
        ∷ lit 0
        ∷ [];
  }

  unfoldable pub compute_lidar_innov_var_and_h :
      NdArray K → (ℕ → ℕ → K) → K → K → Option (Update1 K)
  compute_lidar_innov_var_and_h state p meas r = do
    state ← as_column 16 state
    some (lidar_terms state p meas r)
