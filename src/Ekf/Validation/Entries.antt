-- ===== src/Ekf/Validation/Entries.antt =====
-- The Jacobians' values are the transition matrices that the generated terms stand for.
use infinity_autopilot.Prelude.{ℕ, ◌+◌, ◌*◌, ◌/◌, ◌%◌, ◌<◌, ◌≡◌, refl, arith}
use infinity_autopilot.Ring.{Ops, IsRing}
use infinity_autopilot.Ring.Expr.{Expr, syntax}
use infinity_autopilot.Ring.Solver.{agree_all, solve_all}
use infinity_autopilot.Ekf.Types.{Prediction}
use infinity_autopilot.Ekf.Derivation.{prediction_symbols, error_symbol, noise_symbol}
use infinity_autopilot.Ekf.Tabulate.{tabulate, tabulate_injective}
use infinity_autopilot.Ekf.Generated.PredictCovariance.Motion.{motion}
use infinity_autopilot.Ekf.Validation.Transition.{transition_a, transition_g}
use infinity_autopilot.Ekf.Validation.Columns.{prediction_values}
use infinity_autopilot.Ekf.Validation.Jacobian.{jacobian_value}

-- The entries of a matrix with n columns, in one row.
abbrev pub flat : {A : Type 0} → ℕ → (ℕ → ℕ → A) → ℕ → A
flat n f k = f (k / n) (k % n)

pub flat_injective_15 :
    {A : Type 0} (f h : ℕ → ℕ → A) (i j : ℕ)
    → j < 15
    → flat 15 f (15 * i + j) ≡ flat 15 h (15 * i + j)
    → f i j ≡ h i j
flat_injective_15 f h i j l e =
    let row : (15 * i + j) / 15 ≡ i = omega arith in
    let place : (15 * i + j) % 15 ≡ j = omega arith in rw (row, place) at e

pub flat_injective_6 :
    {A : Type 0} (f h : ℕ → ℕ → A) (i j : ℕ)
    → j < 6
    → flat 6 f (6 * i + j) ≡ flat 6 h (6 * i + j)
    → f i j ≡ h i j
flat_injective_6 f h i j l e =
    let row : (6 * i + j) / 6 ≡ i = omega arith in
    let place : (6 * i + j) % 6 ≡ j = omega arith in rw (row, place) at e

module _ {K : Type 0} (o : Ops K) (m : Prediction K) (g : K) where
  abbrev pub values_a : ℕ → ℕ → K
  values_a i j = jacobian_value o (error_symbol j) (prediction_values m g) i

  abbrev pub values_g : ℕ → ℕ → K
  values_g i j = jacobian_value o (noise_symbol j) (prediction_values m g) i

  abbrev pub terms_a : ℕ → ℕ → K
  terms_a = transition_a o m.dt (motion o m)

  abbrev pub terms_g : ℕ → ℕ → K
  terms_g = transition_g o m.dt (motion o m)

module _ {K : Type 0} {o : Ops K} (r : IsRing o) (m : Prediction K) (g : K) where
  table_a : tabulate 225 (flat 15 (values_a o m g)) ≡ tabulate 225 (flat 15 (terms_a o m g))
  unfolding motion agree_all
  table_a =
      solve_all r (prediction_values m g)
        (tabulate 225 (flat 15 (values_a syntax prediction_symbols (Expr.var 61))))
        (tabulate 225 (flat 15 (terms_a syntax prediction_symbols (Expr.var 61)))) refl

  table_g : tabulate 90 (flat 6 (values_g o m g)) ≡ tabulate 90 (flat 6 (terms_g o m g))
  unfolding motion agree_all
  table_g =
      solve_all r (prediction_values m g)
        (tabulate 90 (flat 6 (values_g syntax prediction_symbols (Expr.var 61))))
        (tabulate 90 (flat 6 (terms_g syntax prediction_symbols (Expr.var 61)))) refl

  pub values_a-terms_a : (i j : ℕ) → i < 15 → j < 15 → values_a o m g i j ≡ terms_a o m g i j
  values_a-terms_a i j li lj = flat_injective_15 (values_a o m g) (terms_a o m g) i j lj (
      tabulate_injective 225 (flat 15 (values_a o m g)) (flat 15 (terms_a o m g)) table_a
        (15 * i + j) (omega arith))

  pub values_g-terms_g : (i j : ℕ) → i < 15 → j < 6 → values_g o m g i j ≡ terms_g o m g i j
  values_g-terms_g i j li lj = flat_injective_6 (values_g o m g) (terms_g o m g) i j lj (
      tabulate_injective 90 (flat 6 (values_g o m g)) (flat 6 (terms_g o m g)) table_g (6 * i + j)
        (omega arith))
