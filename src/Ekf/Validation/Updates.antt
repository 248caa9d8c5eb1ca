-- ===== src/Ekf/Validation/Updates.antt =====
-- The values of a derived measurement update, and equations between updates.
use infinity_autopilot.Prelude.{
  ℕ, ◌-◌, ◌/◌, ◌%◌, ◌≡◌, ap, ◌∙◌, fun_ext, true, ltb, ◌==◌, if◌then◌else◌, [], ◌∷◌, map,
}
use infinity_autopilot.Ring.{Ops, IsRing}
use infinity_autopilot.Ring.Expr.{Expr}
use infinity_autopilot.Ring.Dual.{Dual, dual}
use infinity_autopilot.Ring.Solver.{eval, agree, solve, agree_all, solve_all}
use infinity_autopilot.Ekf.Types.{V3, vector, vector_sub, component}
use infinity_autopilot.Ekf.Derivation.{prediction_symbols}
use infinity_autopilot.Ekf.Symforce.{Symforce, IsSymforce, eval_vector, seeded}
use infinity_autopilot.Ekf.Tabulate.{tabulate}
use infinity_autopilot.Ekf.Measurement.{
  Update1, Update3, update1, update3, state_symbol, meas_symbols, mag_ref_symbols, variance_symbol,
  jacobian_chain_rule, variance_of,
}
use infinity_autopilot.Ekf.Validation.Transition.{entry}
use infinity_autopilot.Ekf.Validation.ChainRule.{
  chain_value, variance_value, eval-jacobian_chain_rule, eval-variance_of,
}

-- The arguments of a measurement function.
pub record Measured (K : Type 0) : Type 0 where
  pub state : ℕ → K
  pub p : ℕ → ℕ → K
  pub meas : V3 K
  pub mag_ref : V3 K
  pub r : K

-- Values of the symbols of a measurement. Those below 80 that are no part of the state are free.
abbrev pub measured_values : {K : Type 0} → Measured K → ℕ → K
measured_values m u =
    if ltb u 80
    then m.state u
    else if ltb u 83
    then component m.meas (u - 80)
    else if ltb u 86
    then component m.mag_ref (u - 83)
    else if u == 86
    then m.r
    else m.p ((u - 100) / 15) ((u - 100) % 15)

abbrev pub measured_symbols : Measured Expr
measured_symbols = record {
  state = prediction_symbols.state;
  p = prediction_symbols.p;
  meas = meas_symbols;
  mag_ref = mag_ref_symbols;
  r = variance_symbol;
}

module _ {K : Type 0} (o : Ops K) (ρ : ℕ → K) where
  abbrev pub eval_update3 : Update3 Expr → Update3 K
  eval_update3 u = record {
    innov = eval_vector o ρ u.innov;
    innov_var = eval_vector o ρ u.innov_var;
    hx = map (eval o ρ) u.hx;
    hy = map (eval o ρ) u.hy;
    hz = map (eval o ρ) u.hz;
  }

  abbrev pub eval_update1 : Update1 Expr → Update1 K
  eval_update1 u = record {
    innov = eval o ρ u.innov;
    innov_var = eval o ρ u.innov_var;
    h = map (eval o ρ) u.h;
  }

  -- A predicted measurement, and its slopes along the state.
  abbrev assemble3 : V3 K → (ℕ → K) → (ℕ → K) → (ℕ → K) → Update3 K
  assemble3 pred hx hy hz = record {
    innov = vector_sub o pred (eval_vector o ρ meas_symbols);
    innov_var = vector (variance_value o ρ hx) (variance_value o ρ hy) (variance_value o ρ hz);
    hx = tabulate 15 hx;
    hy = tabulate 15 hy;
    hz = tabulate 15 hz;
  }

  abbrev assemble1 : K → (ℕ → K) → Update1 K
  assemble1 pred h = record {
    innov = o.◌-◌ pred (eval o ρ meas_symbols.x);
    innov_var = variance_value o ρ h;
    h = tabulate 15 h;
  }

  abbrev pub slopes : ((ℕ → Dual K) → Dual K) → ℕ → K
  slopes f = chain_value o ρ (λ k. (f (seeded o (state_symbol k) ρ)).eps)

  abbrev pub update3_value : V3 K → ((ℕ → Dual K) → V3 (Dual K)) → Update3 K
  update3_value pred f =
      assemble3 pred (slopes (λ σ. (f σ).x)) (slopes (λ σ. (f σ).y)) (slopes (λ σ. (f σ).z))

  abbrev pub update1_value : K → ((ℕ → Dual K) → Dual K) → Update1 K
  update1_value pred f = assemble1 pred (slopes f)

module _ {sf : Symforce} (law : IsSymforce sf) {K : Type 0} {o : Ops K} (r : IsRing o)
    (ρ : ℕ → K) where
  abbrev derived : Expr → ℕ → K
  derived e j = eval o ρ (jacobian_chain_rule sf e j)

  pub eval-update3 :
      (pred : V3 Expr) (value : V3 K) (f : (ℕ → Dual K) → V3 (Dual K))
      → eval_vector o ρ pred ≡ value
      → ((σ : ℕ → Dual K) → eval_vector (dual o) σ pred ≡ f σ)
      → eval_update3 o ρ (update3 sf pred) ≡ update3_value o ρ value f
  eval-update3 pred value f e slope =
      (λ i. record {
        innov = vector_sub o (e i) (eval_vector o ρ meas_symbols);
        innov_var = vector (var pred.x i) (var pred.y i) (var pred.z i);
        hx = tabulate 15 (derived pred.x);
        hy = tabulate 15 (derived pred.y);
        hz = tabulate 15 (derived pred.z);
      })
      ∙ (λ i. assemble3 o ρ value (x i) (y i) (z i))
    where
      var :
          (h : Expr)
          → eval o ρ (variance_of sf (jacobian_chain_rule sf h)) ≡ variance_value o ρ (derived h)
      var h = eval-variance_of law r ρ (jacobian_chain_rule sf h)

      x : derived pred.x ≡ slopes o ρ (λ σ. (f σ).x)
      x = fun_ext (eval-jacobian_chain_rule law r ρ _ pred.x (λ σ. ap (λ u. u.x) (slope σ)))

      y : derived pred.y ≡ slopes o ρ (λ σ. (f σ).y)
      y = fun_ext (eval-jacobian_chain_rule law r ρ _ pred.y (λ σ. ap (λ u. u.y) (slope σ)))

      z : derived pred.z ≡ slopes o ρ (λ σ. (f σ).z)
      z = fun_ext (eval-jacobian_chain_rule law r ρ _ pred.z (λ σ. ap (λ u. u.z) (slope σ)))

  pub eval-update1 :
      (pred : Expr) (value : K) (f : (ℕ → Dual K) → Dual K)
      → eval o ρ pred ≡ value
      → ((σ : ℕ → Dual K) → eval (dual o) σ pred ≡ f σ)
      → eval_update1 o ρ (update1 sf pred) ≡ update1_value o ρ value f
  eval-update1 pred value f e slope =
      (λ i. record {
        innov = o.◌-◌ (e i) (eval o ρ meas_symbols.x);
        innov_var = eval-variance_of law r ρ (jacobian_chain_rule sf pred) i;
        h = tabulate 15 (derived pred);
      })
      ∙ (λ i. assemble1 o ρ value (h i))
    where
      h : derived pred ≡ slopes o ρ f
      h = fun_ext (eval-jacobian_chain_rule law r ρ f pred slope)

module _ {K : Type 0} {o : Ops K} (r : IsRing o) (ρ : ℕ → K) where
  pub solve_vector :
      (u v : V3 Expr)
      → agree_all (u.x ∷ u.y ∷ u.z ∷ []) (v.x ∷ v.y ∷ v.z ∷ []) ≡ true
      → eval_vector o ρ u ≡ eval_vector o ρ v
  solve_vector u v h =
      ap (λ l. vector (entry o (l ∷ []) 0 0) (entry o (l ∷ []) 0 1) (entry o (l ∷ []) 0 2))
        (solve_all r ρ _ _ h)

  -- An equation between updates, field by field.
  pub solve_update3 :
      (u v : Update3 Expr)
      → agree_all (u.innov.x ∷ u.innov.y ∷ u.innov.z ∷ []) (v.innov.x ∷ v.innov.y ∷ v.innov.z ∷ [])
        ≡ true
      → agree_all
          (u.innov_var.x ∷ u.innov_var.y ∷ u.innov_var.z ∷ [])
          (v.innov_var.x ∷ v.innov_var.y ∷ v.innov_var.z ∷ [])
        ≡ true
      → agree_all u.hx v.hx ≡ true
      → agree_all u.hy v.hy ≡ true
      → agree_all u.hz v.hz ≡ true
      → eval_update3 o ρ u ≡ eval_update3 o ρ v
  solve_update3 u v a b c d e = λ i. record {
    innov = solve_vector u.innov v.innov a i;
    innov_var = solve_vector u.innov_var v.innov_var b i;
    hx = solve_all r ρ u.hx v.hx c i;
    hy = solve_all r ρ u.hy v.hy d i;
    hz = solve_all r ρ u.hz v.hz e i;
  }

  pub solve_update1 :
      (u v : Update1 Expr)
      → agree u.innov v.innov ≡ true
      → agree u.innov_var v.innov_var ≡ true
      → agree_all u.h v.h ≡ true
      → eval_update1 o ρ u ≡ eval_update1 o ρ v
  solve_update1 u v a b c = λ i. record {
    innov = solve r ρ u.innov v.innov a i;
    innov_var = solve r ρ u.innov_var v.innov_var b i;
    h = solve_all r ρ u.h v.h c i;
  }
