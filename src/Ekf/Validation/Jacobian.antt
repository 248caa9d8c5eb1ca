-- ===== src/Ekf/Validation/Jacobian.antt =====
-- The values of the derivation's Jacobians.
use infinity_autopilot.Prelude.{ℕ, ◌<◌, ◌≤◌, ◌≡◌, ap, ap₂, ◌∙◌, false, ◌==◌, if◌then◌else◌, arith}
use infinity_autopilot.Ring.{Ops, IsRing}
use infinity_autopilot.Ring.Dual.{pair, dual, dual-IsRing}
use infinity_autopilot.Ring.Laws.{mul-zero, zero-mul}
use infinity_autopilot.Ring.Solver.{eval}
use infinity_autopilot.Ekf.Types.{storage}
use infinity_autopilot.Ekf.Symforce.{Symforce, IsSymforce, square_norm, eval_quat, seeded, zeroed}
use infinity_autopilot.Ekf.Derivation.{
  error_symbol, noise_symbol, is_error, is_noise, state_error_pred, jacobian_a, jacobian_g,
}
use infinity_autopilot.Ekf.Validation.ErrorValue.{eval-storage, simplified_value, attitude}
use infinity_autopilot.Ekf.Validation.PredictedError.{eval-state_error_pred}

module _ {K : Type 0} (o : Ops K) where
  abbrev pub at_zero : (ℕ → K) → ℕ → K
  at_zero ρ = zeroed o is_error (zeroed o is_noise ρ)

  abbrev pub jacobian_value : ℕ → (ℕ → K) → ℕ → K
  jacobian_value v ρ i = (storage (simplified_value (dual o) (seeded o v (at_zero ρ))) i).eps

not_moved : (u v : ℕ) → u < 20 → 20 ≤ v → (u == v) ≡ false
not_moved u v h k = ground arith

module _ {K : Type 0} {o : Ops K} (r : IsRing o) (ρ : ℕ → K) where
  open o use {◌+◌ as ◌⊕◌, ◌*◌ as ◌⊗◌}

  -- The derivative of a square norm that does not move.
  still : (a : K) → ◌⊕◌ (◌⊗◌ a (o.lit 0)) (◌⊗◌ (o.lit 0) a) ≡ o.lit 0
  still a = rw (mul-zero r a, zero-mul r a) (r.zero-add (o.lit 0))

  unit_seeded :
      (v : ℕ)
      → 20 ≤ v
      → square_norm o (eval_quat o ρ attitude) ≡ o.lit 1
      → square_norm (dual o) (eval_quat (dual o) (seeded o v (at_zero o ρ)) attitude)
        ≡ (dual o).lit 1
  unit_seeded v h unit = ap₂ pair unit (
      (λ i.
        ◌⊕◌
          (◌⊕◌ (◌⊕◌ (moved 0 (seed 0 (omega arith) i)) (moved 1 (seed 1 (omega arith) i)))
            (moved 2 (seed 2 (omega arith) i)))
          (moved 3 (seed 3 (omega arith) i)))
      ∙ rw (still (ρ 0), still (ρ 1), still (ρ 2), still (ρ 3), r.zero-add, r.zero-add)
          (r.zero-add (o.lit 0)))
    where
      moved : ℕ → K → K
      moved u d = ◌⊕◌ (◌⊗◌ (ρ u) d) (◌⊗◌ d (ρ u))

      seed : (u : ℕ) → u < 20 → (if u == v then o.lit 1 else o.lit 0) ≡ o.lit 0
      seed u l = rw (not_moved u v l h)

module _ {sf : Symforce} (law : IsSymforce sf) where
  open law use {diff_lem, subs_zero_lem}

  eval-diff :
      {K : Type 0} {o : Ops K} (r : IsRing o) (ρ : ℕ → K) (v i : ℕ)
      → 20 ≤ v
      → square_norm o (eval_quat o ρ attitude) ≡ o.lit 1
      → eval o ρ (
          sf.subs_zero is_noise
            (sf.subs_zero is_error (sf.diff v (storage (state_error_pred sf) i))))
        ≡ jacobian_value o v ρ i
  eval-diff {o} r ρ v i h unit =
      subs_zero_lem r ρ is_noise _
      ∙ subs_zero_lem r (zeroed o is_noise ρ) is_error _
      ∙ diff_lem r (at_zero o ρ) v _
      ∙ ap (λ d. d.eps)
          (eval-storage (dual o) (seeded o v (at_zero o ρ)) (state_error_pred sf) i
            ∙ ap (λ e. storage e i)
                (eval-state_error_pred law (dual-IsRing r) (seeded o v (at_zero o ρ))
                  (unit_seeded r ρ v h unit)))

  pub eval-jacobian_a :
      {K : Type 0} {o : Ops K} (r : IsRing o) (ρ : ℕ → K)
      → square_norm o (eval_quat o ρ attitude) ≡ o.lit 1
      → (i j : ℕ) → eval o ρ (jacobian_a sf i j) ≡ jacobian_value o (error_symbol j) ρ i
  unfolding jacobian_a
  eval-jacobian_a r ρ unit i j = eval-diff r ρ (error_symbol j) i (omega arith) unit

  pub eval-jacobian_g :
      {K : Type 0} {o : Ops K} (r : IsRing o) (ρ : ℕ → K)
      → square_norm o (eval_quat o ρ attitude) ≡ o.lit 1
      → (i j : ℕ) → eval o ρ (jacobian_g sf i j) ≡ jacobian_value o (noise_symbol j) ρ i
  unfolding jacobian_g
  eval-jacobian_g r ρ unit i j = eval-diff r ρ (noise_symbol j) i (omega arith) unit
