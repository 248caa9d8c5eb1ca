-- ===== src/Ring/Solver.antt =====
-- Equations between polynomial expressions hold in every ring with a half, if their difference
-- normalises to zero. Code that runs over abstract operations is quoted by running it over
-- `syntax`, so that both sides of an equation between such code need no second text.
use infinity_autopilot.Prelude.{
  ℕ, ◌≡◌, refl, sym, ap, ap₂, ◌∙◌, inl, inr, Bool, true, false, ◌&&◌, List, [], ◌∷◌, map, ◌==◌,
  ==→≡, Bool-cases, arith,
}
use infinity_autopilot.Ring.{Ops, IsRing}
use infinity_autopilot.Ring.Poly.{negate, is_zero}
use infinity_autopilot.Ring.Expr.{Expr, norm}
use infinity_autopilot.Ring.Laws.{mul-one, add_left_cancel}
use infinity_autopilot.Ring.Sound.{
  value, value-add, value-negate, value-mul, value-is_zero, value_singleton,
}

module _ {K : Type 0} (o : Ops K) where
  open o use {lit, half, neg, ◌+◌ as ◌⊕◌, ◌-◌ as ◌⊖◌, ◌*◌ as ◌⊗◌}

  abbrev pub eval : (ℕ → K) → Expr → K
  eval ρ (Expr.var v) = ρ v
  eval ρ (Expr.lit n) = lit n
  eval ρ Expr.half = half
  eval ρ (Expr.neg e) = neg (eval ρ e)
  eval ρ (Expr.add e f) = ◌⊕◌ (eval ρ e) (eval ρ f)
  eval ρ (Expr.sub e f) = ◌⊖◌ (eval ρ e) (eval ρ f)
  eval ρ (Expr.mul e f) = ◌⊗◌ (eval ρ e) (eval ρ f)

and-cases : (a b : Bool) → (a && b) ≡ true → (a ≡ true) × (b ≡ true)
and-cases a b h = ground arith

unfoldable pub agree : Expr → Expr → Bool
unfolding norm is_zero
agree e f = is_zero (norm (Expr.sub e f))

unfoldable pub agree_all : List Expr → List Expr → Bool
unfolding agree
agree_all [] [] = true
agree_all [] (f ∷ fs) = false
agree_all (e ∷ es) [] = false
agree_all (e ∷ es) (f ∷ fs) = let rest = agree_all es fs in agree e f && rest

agree_all-cons :
    (e f : Expr) (es fs : List Expr)
    → agree_all (e ∷ es) (f ∷ fs) ≡ true
    → (agree e f ≡ true) × (agree_all es fs ≡ true)
unfolding agree_all
agree_all-cons e f es fs h = and-cases (agree e f) (agree_all es fs) h

module _ {K : Type 0} {o : Ops K} (r : IsRing o) (ρ : ℕ → K) where
  infixl 65 ◌⊕◌ ◌⊖◌
  infixl 70 ◌⊗◌
  open o use {lit, half, neg, ◌+◌ as ◌⊕◌, ◌-◌ as ◌⊖◌, ◌*◌ as ◌⊗◌}
  open r use {add_assoc, add_comm, zero-add, neg-add, sub_lem, one-mul}

  eval-norm : (e : Expr) → eval o ρ e ≡ value r ρ (norm e)
  unfolding norm
  eval-norm (Expr.var v) =
      sym (value_singleton r ρ 1 0 (v ∷ []) ∙ one-mul _ ∙ one-mul _ ∙ mul-one r (ρ v))
  eval-norm (Expr.lit n) = elim (Bool-cases (n == 0)) [
    | inl e ↦ rw e (ap lit (==→≡ n 0 e))
    | inr e ↦
        rw e (
          sym (value_singleton r ρ n 0 [] ∙ ap (◌⊗◌ (lit n)) (one-mul (lit 1)) ∙ mul-one r (lit n)))
  ]
  eval-norm Expr.half = sym (
      value_singleton r ρ 1 1 []
      ∙ one-mul _
      ∙ ap (λ s. s ⊗ lit 1) (mul-one r half)
      ∙ mul-one r half)
  eval-norm (Expr.neg e) = ap neg (eval-norm e) ∙ sym (value-negate r ρ (norm e))
  eval-norm (Expr.add e f) =
      ap₂ ◌⊕◌ (eval-norm e) (eval-norm f) ∙ sym (value-add r ρ (norm e) (norm f))
  eval-norm (Expr.sub e f) =
      sub_lem (eval o ρ e) (eval o ρ f)
      ∙ ap₂ (λ s t. s ⊕ neg t) (eval-norm e) (eval-norm f)
      ∙ ap (◌⊕◌ (value r ρ (norm e))) (sym (value-negate r ρ (norm f)))
      ∙ sym (value-add r ρ (norm e) (negate (norm f)))
  eval-norm (Expr.mul e f) =
      ap₂ ◌⊗◌ (eval-norm e) (eval-norm f) ∙ sym (value-mul r ρ (norm e) (norm f))

  eq_of_sub : (a b : K) → a ⊖ b ≡ lit 0 → a ≡ b
  eq_of_sub a b h =
      add_left_cancel r (neg b) a b (add_comm (neg b) a ∙ sym (sub_lem a b) ∙ h ∙ sym (neg-add b))

  pub solve : (e f : Expr) → agree e f ≡ true → eval o ρ e ≡ eval o ρ f
  unfolding agree
  solve e f h =
      eq_of_sub (eval o ρ e) (eval o ρ f)
        (eval-norm (Expr.sub e f) ∙ value-is_zero r ρ (norm (Expr.sub e f)) h)

  pub solve_all :
      (es fs : List Expr) → agree_all es fs ≡ true → map (eval o ρ) es ≡ map (eval o ρ) fs
  unfolding agree_all
  solve_all [] [] h = refl
  solve_all [] (f ∷ fs) h = cc
  solve_all (e ∷ es) [] h = cc
  solve_all (e ∷ es) (f ∷ fs) h =
      let (here, there) = agree_all-cons e f es fs h in
      ap₂ ◌∷◌ (solve e f here) (solve_all es fs there)
