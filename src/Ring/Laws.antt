-- ===== src/Ring/Laws.antt =====
-- Consequences of the ring laws, stated with `⊕` and `⊗` beside the operations of ℕ.
use infinity_autopilot.Prelude.{ℕ, zero, suc, ◌+◌, ◌*◌, ◌≡◌, sym, ap, ap₂, ◌∙◌, ◌≡⟨◌⟩◌, ◌∎, arith}
use infinity_autopilot.Ring.{Ops, IsRing}

module _ {K : Type 0} {o : Ops K} (r : IsRing o) where
  infixl 65 ◌⊕◌
  infixl 70 ◌⊗◌
  open o use {lit, half, neg, ◌+◌ as ◌⊕◌, ◌*◌ as ◌⊗◌}
  open r use {
    add_assoc, add_comm, zero-add, neg-add, mul_assoc, mul_comm, one-mul, mul-add, lit-suc,
  }

  pub add-zero : (a : K) → a ⊕ lit 0 ≡ a
  add-zero a = add_comm a (lit 0) ∙ zero-add a

  pub mul-one : (a : K) → a ⊗ lit 1 ≡ a
  mul-one a = mul_comm a (lit 1) ∙ one-mul a

  pub add-mul : (a b c : K) → (a ⊕ b) ⊗ c ≡ a ⊗ c ⊕ b ⊗ c
  add-mul a b c = rw (mul_comm (a ⊕ b) c, mul-add, mul_comm c a, mul_comm c b)

  pub add_left_cancel : (a b c : K) → a ⊕ b ≡ a ⊕ c → b ≡ c
  add_left_cancel a b c h =
      b
      ≡⟨ sym (zero-add b) ⟩ lit 0 ⊕ b
      ≡⟨ (rw (← neg-add a)) ⟩ (neg a ⊕ a) ⊕ b
      ≡⟨ add_assoc (neg a) a b ⟩ neg a ⊕ (a ⊕ b)
      ≡⟨ ap (◌⊕◌ (neg a)) h ⟩ neg a ⊕ (a ⊕ c)
      ≡⟨ sym (add_assoc (neg a) a c) ⟩ (neg a ⊕ a) ⊕ c
      ≡⟨ (rw (neg-add a)) ⟩ lit 0 ⊕ c
      ≡⟨ zero-add c ⟩ c ∎

  pub add-neg : (a : K) → a ⊕ neg a ≡ lit 0
  add-neg a = add_comm a (neg a) ∙ neg-add a

  pub mul-zero : (a : K) → a ⊗ lit 0 ≡ lit 0
  mul-zero a =
      add_left_cancel (a ⊗ lit 0) (a ⊗ lit 0) (lit 0)
        (sym (mul-add a (lit 0) (lit 0)) ∙ ap (◌⊗◌ a) (zero-add (lit 0)) ∙ sym (add-zero _))

  pub zero-mul : (a : K) → lit 0 ⊗ a ≡ lit 0
  zero-mul a = mul_comm (lit 0) a ∙ mul-zero a

  pub neg-eq_of_add : (a b : K) → a ⊕ b ≡ lit 0 → b ≡ neg a
  neg-eq_of_add a b h = add_left_cancel a b (neg a) (h ∙ sym (add-neg a))

  pub neg-mul : (a b : K) → neg a ⊗ b ≡ neg (a ⊗ b)
  neg-mul a b =
      neg-eq_of_add (a ⊗ b) (neg a ⊗ b)
        (sym (add-mul a (neg a) b) ∙ ap (λ t. t ⊗ b) (add-neg a) ∙ zero-mul b)

  pub mul-neg : (a b : K) → a ⊗ neg b ≡ neg (a ⊗ b)
  mul-neg a b = mul_comm a (neg b) ∙ neg-mul b a ∙ ap neg (mul_comm b a)

  pub neg-neg : (a : K) → neg (neg a) ≡ a
  neg-neg a = sym (neg-eq_of_add (neg a) a (neg-add a))

  pub add_interchange : (a b c d : K) → (a ⊕ b) ⊕ (c ⊕ d) ≡ (a ⊕ c) ⊕ (b ⊕ d)
  add_interchange a b c d =
      (a ⊕ b) ⊕ (c ⊕ d)
      ≡⟨ (simp add_assoc) ⟩ a ⊕ ((b ⊕ c) ⊕ d)
      ≡⟨ (rw (add_comm b c)) ⟩ a ⊕ ((c ⊕ b) ⊕ d)
      ≡⟨ (simp add_assoc) ⟩ (a ⊕ c) ⊕ (b ⊕ d) ∎

  pub mul_interchange : (a b c d : K) → (a ⊗ b) ⊗ (c ⊗ d) ≡ (a ⊗ c) ⊗ (b ⊗ d)
  mul_interchange a b c d =
      (a ⊗ b) ⊗ (c ⊗ d)
      ≡⟨ (simp mul_assoc) ⟩ a ⊗ ((b ⊗ c) ⊗ d)
      ≡⟨ (rw (mul_comm b c)) ⟩ a ⊗ ((c ⊗ b) ⊗ d)
      ≡⟨ (simp mul_assoc) ⟩ (a ⊗ c) ⊗ (b ⊗ d) ∎

  pub neg-add_both : (a b : K) → neg (a ⊕ b) ≡ neg a ⊕ neg b
  neg-add_both a b = sym (
      neg-eq_of_add (a ⊕ b) (neg a ⊕ neg b)
        (add_interchange a b (neg a) (neg b) ∙ ap₂ ◌⊕◌ (add-neg a) (add-neg b) ∙ zero-add (lit 0)))

  pub neg-zero : neg (lit 0) ≡ lit 0
  neg-zero = sym (neg-eq_of_add (lit 0) (lit 0) (zero-add (lit 0)))

  pub lit-add : (m n : ℕ) → lit (m + n) ≡ lit m ⊕ lit n
  lit-add zero n = ap lit {x = 0 + n} {y = n} (omega arith) ∙ sym (zero-add (lit n))
  lit-add (suc m) n =
      lit (suc m + n)
      ≡⟨ ap lit {x = suc m + n} {y = suc (m + n)} (omega arith) ⟩ lit (suc (m + n))
      ≡⟨ lit-suc (m + n) ⟩ lit (m + n) ⊕ lit 1
      ≡⟨ (rw (lit-add m n)) ⟩ (lit m ⊕ lit n) ⊕ lit 1
      ≡⟨ add_assoc (lit m) (lit n) (lit 1) ⟩ lit m ⊕ (lit n ⊕ lit 1)
      ≡⟨ (rw (add_comm (lit n) (lit 1))) ⟩ lit m ⊕ (lit 1 ⊕ lit n)
      ≡⟨ sym (add_assoc (lit m) (lit 1) (lit n)) ⟩ (lit m ⊕ lit 1) ⊕ lit n
      ≡⟨ (rw (lit-suc m)) ⟩ lit (suc m) ⊕ lit n ∎

  pub lit-mul : (m n : ℕ) → lit (m * n) ≡ lit m ⊗ lit n
  lit-mul zero n = ap lit {x = 0 * n} {y = 0} (omega arith) ∙ sym (zero-mul (lit n))
  lit-mul (suc m) n =
      lit (suc m * n)
      ≡⟨ ap lit {x = suc m * n} {y = m * n + n} (omega arith) ⟩ lit (m * n + n)
      ≡⟨ lit-add (m * n) n ⟩ lit (m * n) ⊕ lit n
      ≡⟨ ap₂ ◌⊕◌ (lit-mul m n) (sym (one-mul (lit n))) ⟩ lit m ⊗ lit n ⊕ lit 1 ⊗ lit n
      ≡⟨ sym (add-mul (lit m) (lit 1) (lit n)) ⟩ (lit m ⊕ lit 1) ⊗ lit n
      ≡⟨ (rw (lit-suc m)) ⟩ lit (suc m) ⊗ lit n ∎
