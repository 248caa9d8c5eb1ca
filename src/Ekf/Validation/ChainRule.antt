-- ===== src/Ekf/Validation/ChainRule.antt =====
-- The value of the chain rule, for a predicted measurement with a known value.
use infinity_autopilot.Prelude.{
  ℕ, zero, suc, ◌+◌, ◌*◌, ◌≡◌, refl, ap, ap₂, ◌∙◌, Bool, true, false, not, ◌&&◌, ltb, ◌==◌,
  if◌then◌else◌, Bool-cases, inl, inr,
}
use infinity_autopilot.Ring.{Ops, IsRing}
use infinity_autopilot.Ring.Expr.{Expr}
use infinity_autopilot.Ring.Dual.{Dual, dual, dual-IsRing}
use infinity_autopilot.Ring.Solver.{eval}
use infinity_autopilot.Ekf.Types.{Quaternion}
use infinity_autopilot.Ekf.Derivation.{prediction_symbols}
use infinity_autopilot.Ekf.Symforce.{Symforce, IsSymforce, hamilton, eval_quat, seeded, sum}
use infinity_autopilot.Ekf.Tabulate.{sum_congr}
use infinity_autopilot.Ekf.Measurement.{
  state_symbol, p_symbol, p_symbols, state_quat, quat_storage, q_r, three_of_four, dx_derror,
  jacobian_chain_rule, variance_of, variance_symbol,
}

module _ {K : Type 0} (o : Ops K) (ρ : ℕ → K) where
  open o use {lit, half, ◌+◌ as ◌⊕◌, ◌*◌ as ◌⊗◌}

  abbrev pub q_r_value : ℕ → ℕ → K
  q_r_value a b =
      let σ = seeded o (p_symbol b) ρ in
      (quat_storage
        (hamilton (dual o) (eval_quat (dual o) σ p_symbols) (eval_quat (dual o) σ state_quat))
        a).eps

  abbrev pub dx_value : ℕ → ℕ → K
  dx_value k j =
      if ltb k 4
      then (if ltb j 3
          then sum o 4 (λ b. ◌⊗◌ (◌⊗◌ (q_r_value k b) half) (if b == j then lit 1 else lit 0))
          else lit 0)
      else if not (ltb j 3) && (k == j + 1)
      then lit 1
      else lit 0

  abbrev pub chain_value : (ℕ → K) → ℕ → K
  chain_value slopes j = sum o 16 (λ k. ◌⊗◌ (slopes k) (dx_value k j))

  abbrev pub variance_value : (ℕ → K) → K
  variance_value h =
      ◌⊕◌ (sum o 15 (λ k. ◌⊗◌ (sum o 15 (λ l. ◌⊗◌ (h l) (ρ (100 + (15 * l + k))))) (h k)))
        (eval o ρ variance_symbol)

module _ {sf : Symforce} (law : IsSymforce sf) {K : Type 0} {o : Ops K} (r : IsRing o)
    (ρ : ℕ → K) where
  open law use {quat_mul_lem, diff_lem, mat_mul_lem}

  eval-quat_storage :
      {L : Type 0} (u : Ops L) (σ : ℕ → L) (q : Quaternion Expr) (a : ℕ)
      → eval u σ (quat_storage q a) ≡ quat_storage (eval_quat u σ q) a
  eval-quat_storage u σ q zero = refl
  eval-quat_storage u σ q (suc zero) = refl
  eval-quat_storage u σ q (suc (suc zero)) = refl
  eval-quat_storage u σ q (suc (suc (suc n))) = refl

  eval-q_r : (a b : ℕ) → eval o ρ (q_r sf a b) ≡ q_r_value o ρ a b
  eval-q_r a b =
      diff_lem r ρ (p_symbol b) _
      ∙ ap (λ d. d.eps)
          (eval-quat_storage (dual o) (seeded o (p_symbol b) ρ) _ a
            ∙ ap (λ q. quat_storage q a)
                (quat_mul_lem (dual-IsRing r) (seeded o (p_symbol b) ρ) p_symbols state_quat))

  eval-if :
      (b : Bool)
      → eval o ρ (if b then Expr.lit 1 else Expr.lit 0) ≡ (if b then o.lit 1 else o.lit 0)
  eval-if true = refl
  eval-if false = refl

  eval-dx_derror : (k j : ℕ) → eval o ρ (dx_derror sf k j) ≡ dx_value o ρ k j
  unfolding dx_derror
  eval-dx_derror k j = elim (Bool-cases (ltb k 4)) [
    | inl e ↦ rw e (elim (Bool-cases (ltb j 3)) [
      | inl f ↦ rw f (
          mat_mul_lem r ρ 4 _ (three_of_four sf) k j
          ∙ sum_congr o 4
              (λ b l. ap₂ o.◌*◌ (ap (λ t. o.◌*◌ t o.half) (eval-q_r k b)) (eval-if (b == j))))
      | inr f ↦ rw f
    ])
    | inr e ↦ rw e (eval-if (not (ltb j 3) && (k == j + 1)))
  ]

  -- The Jacobian of a measurement with respect to the error.
  pub eval-jacobian_chain_rule :
      (h : (ℕ → Dual K) → Dual K) (e : Expr)
      → ((σ : ℕ → Dual K) → eval (dual o) σ e ≡ h σ)
      → (j : ℕ)
      → eval o ρ (jacobian_chain_rule sf e j)
        ≡ chain_value o ρ (λ k. (h (seeded o (state_symbol k) ρ)).eps) j
  unfolding jacobian_chain_rule
  eval-jacobian_chain_rule h e value j =
      mat_mul_lem r ρ 16 _ (dx_derror sf) 0 j
      ∙ sum_congr o 16 (λ k l.
        ap₂ o.◌*◌
          (diff_lem r ρ (state_symbol k) e ∙ ap (λ d. d.eps) (value (seeded o (state_symbol k) ρ)))
          (eval-dx_derror k j))

  pub eval-variance_of :
      (h : ℕ → Expr) → eval o ρ (variance_of sf h) ≡ variance_value o ρ (λ k. eval o ρ (h k))
  unfolding variance_of
  eval-variance_of h =
      ap (λ t. o.◌+◌ t (eval o ρ variance_symbol))
        (mat_mul_lem r ρ 15 _ (λ k _. h k) 0 0
          ∙ sum_congr o 15 (λ k l.
            ap (λ t. o.◌*◌ t (eval o ρ (h k)))
              (mat_mul_lem r ρ 15 (λ _ i. h i) prediction_symbols.p 0 k)))
