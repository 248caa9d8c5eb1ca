-- ===== src/Ring/Sound.antt =====
-- The operations on polynomials are sound in every ring with a half.
use infinity_autopilot.Prelude.{
  ℕ, zero, suc, ◌+◌, ◌-◌, ◌*◌, ◌^◌, ◌≡◌, refl, sym, ap, ap₂, ◌∙◌, ◌≡⟨◌⟩◌, ◌∎, inl, inr, true, List,
  [], ◌∷◌, leb, Bool-cases, arith,
}
use native.Mathlib.Nat.{pow-suc}
use infinity_autopilot.Ring.{Ops, IsRing}
use infinity_autopilot.Ring.Poly.{
  Term, Poly, same_vars, same, insert, add, mul, negate, insert_var, merge_vars, times, scale,
  max_halves, lift_by, lift_to, all_cancel, is_zero,
}
use infinity_autopilot.Ring.Laws.{
  add-zero, mul-one, add-mul, add-neg, mul-zero, zero-mul, neg-mul, mul-neg, neg-neg,
  add_interchange, mul_interchange, neg-add_both, neg-zero, lit-add, lit-mul,
}

same_vars→≡ : (vs ws : List ℕ) → same_vars vs ws ≡ true → vs ≡ ws
unfolding same_vars
same_vars→≡ [] [] h = refl
same_vars→≡ [] (w ∷ ws) h = cc
same_vars→≡ (v ∷ vs) [] h = cc
same_vars→≡ (v ∷ vs) (w ∷ ws) h = ground (arith, same_vars→≡ vs ws)

same→≡ : (t u : Term) → same t u ≡ true → (t.halves ≡ u.halves) × (t.vars ≡ u.vars)
unfolding same
same→≡ t u h = ground (arith, same_vars→≡ t.vars u.vars)

all_cancel-cons :
    (t : Term) (p : Poly) → all_cancel (t ∷ p) ≡ true → (t.plus ≡ t.minus) × (all_cancel p ≡ true)
unfolding all_cancel
all_cancel-cons t p h = ground arith

module _ {K : Type 0} {o : Ops K} (r : IsRing o) (ρ : ℕ → K) where
  infixl 65 ◌⊕◌
  infixl 70 ◌⊗◌
  open o use {lit, half, neg, ◌+◌ as ◌⊕◌, ◌*◌ as ◌⊗◌}
  open r use {
    add_assoc, add_comm, zero-add, mul_assoc, mul_comm, one-mul, mul-add, lit-suc, half-add,
  }

  abbrev pub product : List ℕ → K
  product [] = lit 1
  product (v ∷ vs) = ρ v ⊗ product vs

  abbrev pub half_power : ℕ → K
  half_power zero = lit 1
  half_power (suc k) = half ⊗ half_power k

  abbrev pub coef : ℕ → ℕ → K
  coef a b = lit a ⊕ neg (lit b)

  abbrev pub term_value : Term → K
  term_value t = coef t.plus t.minus ⊗ (half_power t.halves ⊗ product t.vars)

  abbrev pub value : Poly → K
  value [] = lit 0
  value (t ∷ p) = term_value t ⊕ value p

  mul_left_comm : (a b c : K) → a ⊗ (b ⊗ c) ≡ b ⊗ (a ⊗ c)
  mul_left_comm a b c = rw (← mul_assoc a b c, mul_comm a b, mul_assoc b a c)

  coef-add : (a b c d : ℕ) → coef (a + c) (b + d) ≡ coef a b ⊕ coef c d
  coef-add a b c d =
      ap₂ ◌⊕◌ (lit-add r a c) (ap neg (lit-add r b d) ∙ neg-add_both r (lit b) (lit d))
      ∙ add_interchange r (lit a) (lit c) (neg (lit b)) (neg (lit d))

  coef_swap : (a b : ℕ) → coef b a ≡ neg (coef a b)
  coef_swap a b =
      add_comm (lit b) (neg (lit a))
      ∙ ap (◌⊕◌ (neg (lit a))) (sym (neg-neg r (lit b)))
      ∙ sym (neg-add_both r (lit a) (neg (lit b)))

  mul-coef : (x : K) (c d : ℕ) → x ⊗ coef c d ≡ x ⊗ lit c ⊕ neg (x ⊗ lit d)
  mul-coef x c d = rw (mul-add x (lit c) (neg (lit d)), mul-neg r x (lit d))

  coef-mul : (a b c d : ℕ) → coef (a * c + b * d) (a * d + b * c) ≡ coef a b ⊗ coef c d
  coef-mul a b c d =
      coef (a * c + b * d) (a * d + b * c)
      ≡⟨ coef-add (a * c) (a * d) (b * d) (b * c) ⟩ coef (a * c) (a * d) ⊕ coef (b * d) (b * c)
      ≡⟨ ap (◌⊕◌ (coef (a * c) (a * d))) (coef_swap (b * c) (b * d)) ⟩
        coef (a * c) (a * d) ⊕ neg (coef (b * c) (b * d))
      ≡⟨ ap₂ (λ s t. s ⊕ neg t) (part a) (part b) ⟩ lit a ⊗ coef c d ⊕ neg (lit b ⊗ coef c d)
      ≡⟨ ap (◌⊕◌ (lit a ⊗ coef c d)) (sym (neg-mul r (lit b) (coef c d))) ⟩
        lit a ⊗ coef c d ⊕ neg (lit b) ⊗ coef c d
      ≡⟨ sym (add-mul r (lit a) (neg (lit b)) (coef c d)) ⟩ coef a b ⊗ coef c d ∎
    where
      part : (m : ℕ) → coef (m * c) (m * d) ≡ lit m ⊗ coef c d
      part m = ap₂ (λ s t. s ⊕ neg t) (lit-mul r m c) (lit-mul r m d) ∙ sym (mul-coef (lit m) c d)

  product-insert_var : (v : ℕ) (ws : List ℕ) → product (insert_var v ws) ≡ ρ v ⊗ product ws
  unfolding insert_var
  product-insert_var v [] = refl
  product-insert_var v (w ∷ ws) = elim (Bool-cases (leb v w)) [
    | inl e ↦ rw e
    | inr e ↦ rw (e, product-insert_var v ws) (mul_left_comm (ρ w) (ρ v) (product ws))
  ]

  product-merge_vars : (vs ws : List ℕ) → product (merge_vars vs ws) ≡ product vs ⊗ product ws
  unfolding merge_vars
  product-merge_vars [] ws = sym (one-mul (product ws))
  product-merge_vars (v ∷ vs) ws =
      product-insert_var v (merge_vars vs ws)
      ∙ ap (◌⊗◌ (ρ v)) (product-merge_vars vs ws)
      ∙ sym (mul_assoc (ρ v) (product vs) (product ws))

  half_power-add : (j k : ℕ) → half_power (j + k) ≡ half_power j ⊗ half_power k
  half_power-add zero k =
      ap half_power {x = 0 + k} {y = k} (omega arith) ∙ sym (one-mul (half_power k))
  half_power-add (suc j) k =
      ap half_power {x = suc j + k} {y = suc (j + k)} (omega arith)
      ∙ ap (◌⊗◌ half) (half_power-add j k)
      ∙ sym (mul_assoc half (half_power j) (half_power k))

  term_value-times : (t u : Term) → term_value (times t u) ≡ term_value t ⊗ term_value u
  unfolding times
  term_value-times t u =
      ap₂ ◌⊗◌ (coef-mul t.plus t.minus u.plus u.minus) (
        ap₂ ◌⊗◌ (half_power-add t.halves u.halves) (product-merge_vars t.vars u.vars)
        ∙ mul_interchange r _ _ _ _)
      ∙ mul_interchange r _ _ _ _

  value-insert : (t : Term) (p : Poly) → value (insert t p) ≡ term_value t ⊕ value p
  unfolding insert
  value-insert t [] = refl
  value-insert t (u ∷ p) = elim (Bool-cases (same t u)) [
    | inl e ↦
        let (k, v) = same→≡ t u e in
        rw e (
          ap (λ s. s ⊕ value p)
            (ap (λ s. s ⊗ (half_power u.halves ⊗ product u.vars))
                (coef-add t.plus t.minus u.plus u.minus)
              ∙ add-mul r _ _ _
              ∙ ap (λ s. s ⊕ term_value u)
                  (ap₂ (λ h w. coef t.plus t.minus ⊗ (half_power h ⊗ product w)) (sym k) (sym v)))
          ∙ add_assoc _ _ _)
    | inr e ↦
        rw (e, value-insert t p)
          (sym (add_assoc _ _ _)
            ∙ ap (λ s. s ⊕ value p) (add_comm (term_value u) (term_value t))
            ∙ add_assoc _ _ _)
  ]

  pub value-add : (p q : Poly) → value (add p q) ≡ value p ⊕ value q
  unfolding add
  value-add [] q = sym (zero-add (value q))
  value-add (t ∷ p) q =
      value-insert t (add p q)
      ∙ ap (◌⊕◌ (term_value t)) (value-add p q)
      ∙ sym (add_assoc (term_value t) (value p) (value q))

  pub value-negate : (p : Poly) → value (negate p) ≡ neg (value p)
  unfolding negate
  value-negate [] = sym (neg-zero r)
  value-negate (t ∷ p) =
      ap₂ ◌⊕◌
        (ap (λ s. s ⊗ (half_power t.halves ⊗ product t.vars)) (coef_swap t.plus t.minus)
          ∙ neg-mul r _ _)
        (value-negate p)
      ∙ sym (neg-add_both r (term_value t) (value p))

  value-scale : (t : Term) (p : Poly) → value (scale t p) ≡ term_value t ⊗ value p
  unfolding scale
  value-scale t [] = sym (mul-zero r (term_value t))
  value-scale t (u ∷ p) =
      ap₂ ◌⊕◌ (term_value-times t u) (value-scale t p)
      ∙ sym (mul-add (term_value t) (term_value u) (value p))

  pub value-mul : (p q : Poly) → value (mul p q) ≡ value p ⊗ value q
  unfolding mul
  value-mul [] q = sym (zero-mul r (value q))
  value-mul (t ∷ p) q =
      value-add (scale t q) (mul p q)
      ∙ ap₂ ◌⊕◌ (value-scale t q) (value-mul p q)
      ∙ sym (add-mul r (term_value t) (value p) (value q))

  half-lit_two : half ⊗ lit 2 ≡ lit 1
  half-lit_two =
      ap (◌⊗◌ half) (lit-suc 1)
      ∙ mul-add half (lit 1) (lit 1)
      ∙ ap₂ ◌⊕◌ (mul-one r half) (mul-one r half)
      ∙ half-add

  half_power-lit : (j : ℕ) → lit (2 ^ j) ⊗ half_power j ≡ lit 1
  half_power-lit zero = one-mul (lit 1)
  half_power-lit (suc j) =
      lit (2 ^ suc j) ⊗ (half ⊗ half_power j)
      ≡⟨ ap (λ n. lit n ⊗ (half ⊗ half_power j)) (pow-suc 2 j) ⟩
        lit (2 ^ j * 2) ⊗ (half ⊗ half_power j)
      ≡⟨ ap (λ s. s ⊗ (half ⊗ half_power j)) (lit-mul r (2 ^ j) 2) ⟩
        (lit (2 ^ j) ⊗ lit 2) ⊗ (half ⊗ half_power j)
      ≡⟨ mul_interchange r (lit (2 ^ j)) (lit 2) half (half_power j) ⟩
        (lit (2 ^ j) ⊗ half) ⊗ (lit 2 ⊗ half_power j)
      ≡⟨ ap (λ s. s ⊗ (lit 2 ⊗ half_power j)) (mul_comm (lit (2 ^ j)) half) ⟩
        (half ⊗ lit (2 ^ j)) ⊗ (lit 2 ⊗ half_power j)
      ≡⟨ mul_interchange r half (lit (2 ^ j)) (lit 2) (half_power j) ⟩
        (half ⊗ lit 2) ⊗ (lit (2 ^ j) ⊗ half_power j)
      ≡⟨ ap₂ ◌⊗◌ half-lit_two (half_power-lit j) ⟩ lit 1 ⊗ lit 1
      ≡⟨ one-mul (lit 1) ⟩ lit 1 ∎

  term_value-lift_by : (j : ℕ) (t : Term) → term_value (lift_by j t) ≡ term_value t
  unfolding lift_by
  term_value-lift_by j t =
      ap₂ ◌⊗◌ scaled (
        ap (λ s. s ⊗ product t.vars) (half_power-add t.halves j ∙ mul_comm _ _)
        ∙ mul_assoc (half_power j) (half_power t.halves) (product t.vars))
      ∙ mul_assoc (coef t.plus t.minus) (lit (2 ^ j)) _
      ∙ ap (◌⊗◌ (coef t.plus t.minus)) (
          sym (mul_assoc (lit (2 ^ j)) (half_power j) _)
          ∙ ap (λ s. s ⊗ (half_power t.halves ⊗ product t.vars)) (half_power-lit j)
          ∙ one-mul _)
    where
      scaled : coef (t.plus * 2 ^ j) (t.minus * 2 ^ j) ≡ coef t.plus t.minus ⊗ lit (2 ^ j)
      scaled =
          ap₂ (λ s u. s ⊕ neg u) (lit-mul r t.plus (2 ^ j)) (lit-mul r t.minus (2 ^ j))
          ∙ ap (◌⊕◌ (lit t.plus ⊗ lit (2 ^ j))) (sym (neg-mul r (lit t.minus) (lit (2 ^ j))))
          ∙ sym (add-mul r (lit t.plus) (neg (lit t.minus)) (lit (2 ^ j)))

  value-lift_to : (k : ℕ) (p : Poly) → value (lift_to k p) ≡ value p
  unfolding lift_to
  value-lift_to k [] = refl
  value-lift_to k (t ∷ p) =
      value-insert (lift_by (k - t.halves) t) (lift_to k p)
      ∙ ap₂ ◌⊕◌ (term_value-lift_by (k - t.halves) t) (value-lift_to k p)

  value-all_cancel : (p : Poly) → all_cancel p ≡ true → value p ≡ lit 0
  unfolding all_cancel
  value-all_cancel [] h = refl
  value-all_cancel (t ∷ p) h =
      let (e, rest) = all_cancel-cons t p h in
      ap₂ ◌⊕◌
        (ap (λ s. s ⊗ (half_power t.halves ⊗ product t.vars))
            (ap (λ n. coef n t.minus) e ∙ add-neg r (lit t.minus))
          ∙ zero-mul r (half_power t.halves ⊗ product t.vars))
        (value-all_cancel p rest)
      ∙ zero-add (lit 0)

  pub value-is_zero : (p : Poly) → is_zero p ≡ true → value p ≡ lit 0
  unfolding is_zero
  value-is_zero p h = sym (value-lift_to (max_halves p 0) p) ∙ value-all_cancel _ h

  pub value_singleton :
      (n k : ℕ) (vs : List ℕ)
      → value (record { plus = n; minus = 0; halves = k; vars = vs } ∷ [])
        ≡ lit n ⊗ (half_power k ⊗ product vs)
  value_singleton n k vs =
      add-zero r _
      ∙ ap (λ s. s ⊗ (half_power k ⊗ product vs))
          (ap (◌⊕◌ (lit n)) (neg-zero r) ∙ add-zero r (lit n))
