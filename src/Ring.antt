-- ===== src/Ring.antt =====
-- The arithmetic of the floating-point code, as operations on an abstract type of scalars.
-- Rounding is not modelled: the laws are those of a commutative ring with a half of one.
use infinity_autopilot.Prelude.{ℕ, suc, ◌≡◌}
pub mod Laws
pub mod Poly
pub mod Expr
pub mod Sound
pub mod Solver
pub mod Dual
pub mod Mod3

-- `lit n` is the Python literal `n`, and `half` the literal `1.0 / 2.0`.
pub record Ops (K : Type 0) : Type 0 where
  pub lit : ℕ → K
  pub half : K
  pub neg : K → K
  pub ◌+◌ : K → K → K
  pub ◌-◌ : K → K → K
  pub ◌*◌ : K → K → K

module _ {K : Type 0} (o : Ops K) where
  infixl 65 ◌+◌ ◌-◌
  infixl 70 ◌*◌
  open o use {lit, half, neg, ◌+◌, ◌-◌, ◌*◌}

  pub record IsRing : Type 0 where
    pub add_assoc : (a b c : K) → (a + b) + c ≡ a + (b + c)
    pub add_comm : (a b : K) → a + b ≡ b + a
    pub zero-add : (a : K) → lit 0 + a ≡ a
    pub neg-add : (a : K) → neg a + a ≡ lit 0
    pub sub_lem : (a b : K) → a - b ≡ a + neg b
    pub mul_assoc : (a b c : K) → (a * b) * c ≡ a * (b * c)
    pub mul_comm : (a b : K) → a * b ≡ b * a
    pub one-mul : (a : K) → lit 1 * a ≡ a
    pub mul-add : (a b c : K) → a * (b + c) ≡ a * b + a * c
    pub lit-suc : (n : ℕ) → lit (suc n) ≡ lit n + lit 1
    pub half-add : half + half ≡ lit 1
