-- ===== src/Ring/Dual.antt =====
-- Dual numbers a + b ε with ε² = 0: evaluation over them carries a derivative along.
use infinity_autopilot.Prelude.{ℕ, zero, suc, ◌≡◌, refl, sym, ap₂, true}
use infinity_autopilot.Ring.{Ops, IsRing}
use infinity_autopilot.Ring.Expr.{Expr}
use infinity_autopilot.Ring.Expr
use infinity_autopilot.Ring.Solver.{eval, agree, solve}

pub record Dual (K : Type 0) : Type 0 where
  pub re : K
  pub eps : K

module _ {K : Type 0} where
  abbrev pub pair : K → K → Dual K
  pair a b = record { re = a; eps = b }

  abbrev pub dual : Ops K → Ops (Dual K)
  dual o = record {
    lit = λ n. pair (o.lit n) (o.lit 0);
    half = pair o.half (o.lit 0);
    neg = λ a. pair (o.neg a.re) (o.neg a.eps);
    ◌+◌ = λ a b. pair (o.◌+◌ a.re b.re) (o.◌+◌ a.eps b.eps);
    ◌-◌ = λ a b. pair (o.◌-◌ a.re b.re) (o.◌-◌ a.eps b.eps);
    ◌*◌ = λ a b. pair (o.◌*◌ a.re b.re) (o.◌+◌ (o.◌*◌ a.re b.eps) (o.◌*◌ a.eps b.re));
  }

module _ {K : Type 0} {o : Ops K} (r : IsRing o) where
  -- The six components of three dual numbers, as the values of six variables.
  abbrev six : Dual K → Dual K → Dual K → ℕ → K
  six a b c zero = a.re
  six a b c (suc zero) = a.eps
  six a b c (suc (suc zero)) = b.re
  six a b c (suc (suc (suc zero))) = b.eps
  six a b c (suc (suc (suc (suc zero)))) = c.re
  six a b c (suc (suc (suc (suc (suc n))))) = c.eps

  abbrev x : Dual Expr
  x = pair (Expr.var 0) (Expr.var 1)

  abbrev y : Dual Expr
  y = pair (Expr.var 2) (Expr.var 3)

  abbrev z : Dual Expr
  z = pair (Expr.var 4) (Expr.var 5)

  by_parts :
      (a b c : Dual K) (e f : Dual Expr)
      → agree e.re f.re ≡ true
      → agree e.eps f.eps ≡ true
      → pair (eval o (six a b c) e.re) (eval o (six a b c) e.eps)
        ≡ pair (eval o (six a b c) f.re) (eval o (six a b c) f.eps)
  by_parts a b c e f h k = ap₂ pair (solve r (six a b c) _ _ h) (solve r (six a b c) _ _ k)

  abbrev s : Ops (Dual Expr)
  s = dual Expr.syntax

  pub dual-IsRing : IsRing (dual o)
  unfolding agree
  dual-IsRing = record {
    add_assoc = λ a b c. by_parts a b c (s.◌+◌ (s.◌+◌ x y) z) (s.◌+◌ x (s.◌+◌ y z)) refl refl;
    add_comm = λ a b. by_parts a b a (s.◌+◌ x y) (s.◌+◌ y x) refl refl;
    zero-add = λ a. by_parts a a a (s.◌+◌ (s.lit 0) x) x refl refl;
    neg-add = λ a. by_parts a a a (s.◌+◌ (s.neg x) x) (s.lit 0) refl refl;
    sub_lem = λ a b. by_parts a b a (s.◌-◌ x y) (s.◌+◌ x (s.neg y)) refl refl;
    mul_assoc = λ a b c. by_parts a b c (s.◌*◌ (s.◌*◌ x y) z) (s.◌*◌ x (s.◌*◌ y z)) refl refl;
    mul_comm = λ a b. by_parts a b a (s.◌*◌ x y) (s.◌*◌ y x) refl refl;
    one-mul = λ a. by_parts a a a (s.◌*◌ (s.lit 1) x) x refl refl;
    mul-add =
        λ a b c. by_parts a b c (s.◌*◌ x (s.◌+◌ y z)) (s.◌+◌ (s.◌*◌ x y) (s.◌*◌ x z)) refl refl;
    lit-suc = λ n. ap₂ pair (r.lit-suc n) (sym (r.zero-add (o.lit 0)));
    half-add = ap₂ pair r.half-add (r.zero-add (o.lit 0));
  }
