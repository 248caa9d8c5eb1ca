-- ===== src/Ekf/Validation/Mag.antt =====
-- The generated magnetometer update computes the derived one.
use infinity_autopilot.Prelude.{
  ◌>>=◌, ℕ, ◌-◌, ◌+◌, ◌*◌, ◌≡◌, refl, sym, ap, ap₂, ◌∙◌, some, ltb, if◌then◌else◌, List, [], ◌∷◌,
}
use infinity_autopilot.Ring.{Ops, IsRing}
use infinity_autopilot.Ring.Expr.{Expr, syntax}
use infinity_autopilot.Ring.Dual.{Dual, dual, dual-IsRing}
use infinity_autopilot.Ring.Solver.{agree, solve, agree_all, solve_all}
use infinity_autopilot.Ekf.Types.{V3, vector, component}
use infinity_autopilot.Ekf.Symforce.{
  Symforce, IsSymforce, rotation, conjugate, eval_quat, eval_vector,
}
use infinity_autopilot.Ekf.Tabulate.{tabulate, tabulate_injective, sum_congr}
use infinity_autopilot.Ekf.Measurement.{Update3, state_quat, mag_ref_symbols}
use infinity_autopilot.Ekf.Measurement
use infinity_autopilot.Ekf.Generated.Arrays.{NdArray, as_column, as_vector}
use infinity_autopilot.Ekf.Generated.Mag.{mag_terms, compute_mag_innov_var_and_h}
use infinity_autopilot.Ekf.Validation.Transition.{entry}
use infinity_autopilot.Ekf.Validation.ChainRule.{variance_value}
use infinity_autopilot.Ekf.Validation.Updates.{
  Measured, measured_values, measured_symbols, eval_update3, update3_value, slopes, eval-update3,
  solve_vector,
}

abbrev turned_field : {K : Type 0} → Ops K → (ℕ → K) → V3 K
turned_field o σ =
    rotation o (conjugate o (eval_quat o σ state_quat)) (eval_vector o σ mag_ref_symbols)

abbrev symbols : ℕ → Expr
symbols = measured_values measured_symbols

-- A row of H that is zero past its third entry.
abbrev sparse : {K : Type 0} → Ops K → V3 K → ℕ → K
sparse o h = entry o ((h.x ∷ h.y ∷ h.z ∷ []) ∷ []) 0

abbrev row_symbols : V3 Expr
row_symbols = vector (Expr.var 400) (Expr.var 401) (Expr.var 402)

abbrev row_values : {K : Type 0} → Measured K → V3 K → ℕ → K
row_values m h u = if ltb u 400 then measured_values m u else component h (u - 400)

-- The variance of a sparse row, summed over its entries in the order i, j, k.
module _ {K : Type 0} (o : Ops K) (m : Measured K) (h : V3 K) where
  infixl 65 ◌⊕◌
  infixl 70 ◌⊗◌
  open o use {◌+◌ as ◌⊕◌, ◌*◌ as ◌⊗◌}

  abbrev weighted : ℕ → K
  weighted n = component h n ⊗ (m.p 0 n ⊗ h.x ⊕ m.p 1 n ⊗ h.y ⊕ m.p 2 n ⊗ h.z)

  abbrev sparse_variance : ℕ → ℕ → ℕ → K
  sparse_variance i j k = m.r ⊕ weighted i ⊕ weighted j ⊕ weighted k

module _ {K : Type 0} {o : Ops K} (r : IsRing o) (m : Measured K) where
  infixl 65 ◌⊕◌
  infixl 70 ◌⊗◌
  open o use {◌+◌ as ◌⊕◌, ◌*◌ as ◌⊗◌}

  abbrev ρ : ℕ → K
  ρ = measured_values m

  abbrev generated : Update3 K
  generated = mag_terms o m.state m.p m.meas m.mag_ref m.r

  abbrev quoted : Update3 Expr
  quoted =
      mag_terms syntax measured_symbols.state measured_symbols.p measured_symbols.meas
        measured_symbols.mag_ref measured_symbols.r

  variance_congr :
      (f : ℕ → K) (h : V3 K)
      → tabulate 15 f ≡ tabulate 15 (sparse o h)
      → variance_value o ρ f ≡ variance_value o ρ (sparse o h)
  variance_congr f h e =
      let same = tabulate_injective 15 f (sparse o h) e in
      ap (λ t. t ⊕ m.r)
        (sum_congr o 15 (λ k l.
          ap₂ ◌⊗◌ (sum_congr o 15 (λ i li. ap (λ t. t ⊗ ρ (100 + (15 * i + k))) (same i li)))
            (same k l)))

  solve_variance :
      (h : V3 K)
      → (variance_value o ρ (sparse o h) ≡ sparse_variance o m h 2 0 1)
        × (variance_value o ρ (sparse o h) ≡ sparse_variance o m h 0 1 2)
        × (variance_value o ρ (sparse o h) ≡ sparse_variance o m h 1 2 0)
  unfolding agree
  solve_variance h =
      let row = variance_value syntax symbols (sparse syntax row_symbols) in
      let form = sparse_variance syntax measured_symbols row_symbols in
      (
        solve r (row_values m h) row (form 2 0 1) refl,
        solve r (row_values m h) row (form 0 1 2) refl,
        solve r (row_values m h) row (form 1 2 0) refl,
      )

  -- The rows of H.
  slopes-generated :
      (tabulate 15 (slopes o ρ (λ σ. (turned_field (dual o) σ).x)) ≡ generated.hx)
      × (tabulate 15 (slopes o ρ (λ σ. (turned_field (dual o) σ).y)) ≡ generated.hy)
      × (tabulate 15 (slopes o ρ (λ σ. (turned_field (dual o) σ).z)) ≡ generated.hz)
  unfolding mag_terms agree_all
  slopes-generated = (
    solve_all r ρ (tabulate 15 (slopes syntax symbols (λ σ. (turned_field (dual syntax) σ).x)))
        quoted.hx refl,
    solve_all r ρ (tabulate 15 (slopes syntax symbols (λ σ. (turned_field (dual syntax) σ).y)))
        quoted.hy refl,
    solve_all r ρ (tabulate 15 (slopes syntax symbols (λ σ. (turned_field (dual syntax) σ).z)))
        quoted.hz refl,
  )

  abbrev head3 : List K → V3 K
  head3 row = vector (entry o (row ∷ []) 0 0) (entry o (row ∷ []) 0 1) (entry o (row ∷ []) 0 2)

  mag_variance :
      let f = λ (part : V3 (Dual K) → Dual K).
        variance_value o ρ (slopes o ρ (λ σ. part (turned_field (dual o) σ))) in
      (f (λ v. v.x) ≡ generated.innov_var.x)
      × (f (λ v. v.y) ≡ generated.innov_var.y)
      × (f (λ v. v.z) ≡ generated.innov_var.z)
  unfolding mag_terms
  mag_variance = (
    variance_congr (slopes o ρ (λ σ. (turned_field (dual o) σ).x)) (head3 generated.hx)
          slopes-generated.0
        ∙ (solve_variance (head3 generated.hx)).0,
    variance_congr (slopes o ρ (λ σ. (turned_field (dual o) σ).y)) (head3 generated.hy)
          slopes-generated.1
        ∙ (solve_variance (head3 generated.hy)).1,
    variance_congr (slopes o ρ (λ σ. (turned_field (dual o) σ).z)) (head3 generated.hz)
          slopes-generated.2
        ∙ (solve_variance (head3 generated.hz)).2,
  )

  value-generated : update3_value o ρ (turned_field o ρ) (turned_field (dual o)) ≡ generated
  unfolding mag_terms agree_all
  value-generated = λ i. record {
    innov =
        solve_vector r ρ
          (update3_value syntax symbols (turned_field syntax symbols)
            (turned_field (dual syntax))).innov
          quoted.innov refl i;
    innov_var = vector (mag_variance.0 i) (mag_variance.1 i) (mag_variance.2 i);
    hx = slopes-generated.0 i;
    hy = slopes-generated.1 i;
    hz = slopes-generated.2 i;
  }

module _ {K : Type 0} {o : Ops K} (r : IsRing o) {sf : Symforce} (law : IsSymforce sf)
    (m : Measured K) where
  turned :
      {L : Type 0} {u : Ops L} (l : IsRing u) (σ : ℕ → L)
      → eval_vector u σ
          (sf.rotations_of.rotate (sf.rotations_of.inverse state_quat) mag_ref_symbols)
        ≡ turned_field u σ
  turned {u} l σ =
      law.rotate_lem l σ _ mag_ref_symbols
      ∙ ap (λ q. rotation u q (eval_vector u σ mag_ref_symbols)) (law.inverse_lem l σ state_quat)

  eval-mag :
      eval_update3 o (measured_values m) (Measurement.compute_mag_innov_var_and_h sf)
      ≡ mag_terms o m.state m.p m.meas m.mag_ref m.r
  unfolding Measurement.compute_mag_innov_var_and_h
  eval-mag =
      eval-update3 law r (measured_values m)
        (sf.rotations_of.rotate (sf.rotations_of.inverse state_quat) mag_ref_symbols)
        (turned_field o (measured_values m)) (turned_field (dual o)) (turned r (measured_values m))
        (turned (dual-IsRing r))
      ∙ value-generated r m

  -- For arrays of the accepted shapes the generated `compute_mag_innov_var_and_h` returns
  -- the values of the innovation, of the variances H P Hᵀ + R and of the rows of H that the
  -- derivation derives for the magnetometer, for every SymForce with the
  -- documented behaviour and every commutative ring with a half.
  pub compute_mag_innov_var_and_h-derived :
      (state meas mag_ref : NdArray K)
      → as_column 16 state ≡ some m.state
      → as_vector meas ≡ some m.meas
      → as_vector mag_ref ≡ some m.mag_ref
      → compute_mag_innov_var_and_h o state m.p meas mag_ref m.r
        ≡ some (eval_update3 o (measured_values m) (Measurement.compute_mag_innov_var_and_h sf))
  unfolding compute_mag_innov_var_and_h
  compute_mag_innov_var_and_h-derived state meas mag_ref es em ef =
      rw (es, em, ef, ◌>>=◌) (ap some (sym eval-mag))
