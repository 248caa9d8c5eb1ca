-- ===== src/Ekf/Validation/Covariance.antt =====
-- The generated `predict_covariance` against the matrices that its own terms stand for.
use infinity_autopilot.Prelude.{◌≡◌, refl, ap, ap₂, ◌∙◌, [], ◌∷◌}
use infinity_autopilot.Ring.{Ops, IsRing}
use infinity_autopilot.Ekf.Types.{Prediction}
use infinity_autopilot.Ekf.Derivation.{var_u}
use infinity_autopilot.Ekf.Tabulate.{columns, upper_covariance}
use infinity_autopilot.Ekf.Generated.PredictCovariance.{columns_of}
use infinity_autopilot.Ekf.Generated.PredictCovariance.Motion.{Motion, motion}
use infinity_autopilot.Ekf.Validation.Transition.{Basis, entry, transition_a, transition_g}
use infinity_autopilot.Ekf.Validation.Columns.{
  step_motion, step_covariance, column-0_lem, column-1_lem, column-2_lem, column-3_lem,
  column-4_lem, column-5_lem, column-6_lem, column-7_lem, column-8_lem, column-9_lem, column-10_lem,
  column-11_lem, column-12_lem, column-13_lem, column-14_lem,
}

module _ {K : Type 0} (o : Ops K) where
  abbrev pub basis_of : Motion K → Basis K
  basis_of t = record {
    norm = t.tmp23;
    bias = entry o (
        (t.tmp8 ∷ t.tmp15 ∷ t.tmp20 ∷ [])
        ∷ (t.tmp29 ∷ t.tmp36 ∷ t.tmp34 ∷ [])
        ∷ (t.tmp43 ∷ t.tmp44 ∷ t.tmp45 ∷ [])
        ∷ []);
    rotation = entry o (
        (t.tmp79 ∷ t.tmp58 ∷ t.tmp54 ∷ [])
        ∷ (t.tmp101 ∷ t.tmp112 ∷ t.tmp106 ∷ [])
        ∷ (t.tmp71 ∷ t.tmp72 ∷ t.tmp132 ∷ [])
        ∷ []);
    lever = λ i.
        entry o ((t.tmp75 ∷ t.tmp69 ∷ t.tmp110 ∷ t.tmp104 ∷ t.tmp131 ∷ t.tmp129 ∷ []) ∷ []) 0 i;
  }

module _ {K : Type 0} {o : Ops K} (r : IsRing o) (m : Prediction K) where
  step_motion-motion : motion o m ≡ step_motion o m (basis_of o (motion o m))
  unfolding motion
  step_motion-motion = refl

  columns_of-step_motion :
      (b : Basis K) → columns_of o m (step_motion o m b) ≡ columns 15 (step_covariance o m b)
  columns_of-step_motion b = ap₂ ◌∷◌ (column-0_lem r m b) (
      ap₂ ◌∷◌ (column-1_lem r m b) (
        ap₂ ◌∷◌ (column-2_lem r m b) (
          ap₂ ◌∷◌ (column-3_lem r m b) (
            ap₂ ◌∷◌ (column-4_lem r m b) (
              ap₂ ◌∷◌ (column-5_lem r m b) (
                ap₂ ◌∷◌ (column-6_lem r m b) (
                  ap₂ ◌∷◌ (column-7_lem r m b) (
                    ap₂ ◌∷◌ (column-8_lem r m b) (
                      ap₂ ◌∷◌ (column-9_lem r m b) (
                        ap₂ ◌∷◌ (column-10_lem r m b) (
                          ap₂ ◌∷◌ (column-11_lem r m b) (
                            ap₂ ◌∷◌ (column-12_lem r m b) (
                              ap₂ ◌∷◌ (column-13_lem r m b)
                                (ap₂ ◌∷◌ (column-14_lem r m b) refl))))))))))))))

  pub columns_of-motion :
      columns_of o m (motion o m)
      ≡ columns 15 (
          upper_covariance o
            (transition_a o m.dt (motion o m))
            m.p
            (transition_g o m.dt (motion o m))
            (var_u o m))
  unfolding motion
  columns_of-motion =
      ap (columns_of o m) step_motion-motion ∙ columns_of-step_motion (basis_of o (motion o m))
