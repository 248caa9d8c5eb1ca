-- ===== src/Ring/Expr.antt =====
-- Polynomial expressions: the text of code that runs over abstract operations.
use infinity_autopilot.Prelude.{ℕ, [], ◌∷◌, if◌then◌else◌, ◌==◌}
use infinity_autopilot.Ring.{Ops}
use infinity_autopilot.Ring.Poly.{Poly, negate}
use infinity_autopilot.Ring.Poly

pub data Expr : Type 0 where
  var : ℕ → Expr
  lit : ℕ → Expr
  half : Expr
  neg : Expr → Expr
  add : Expr → Expr → Expr
  sub : Expr → Expr → Expr
  mul : Expr → Expr → Expr

-- Code over abstract operations runs on these and returns its own text.
abbrev pub syntax : Ops Expr
syntax = record {
  lit = Expr.lit;
  half = Expr.half;
  neg = Expr.neg;
  ◌+◌ = Expr.add;
  ◌-◌ = Expr.sub;
  ◌*◌ = Expr.mul;
}

unfoldable pub norm : Expr → Poly
unfolding negate Poly.add Poly.mul
norm (var v) = record { plus = 1; minus = 0; halves = 0; vars = v ∷ [] } ∷ []
norm (lit n) = if n == 0 then [] else record { plus = n; minus = 0; halves = 0; vars = [] } ∷ []
norm half = record { plus = 1; minus = 0; halves = 1; vars = [] } ∷ []
norm (neg e) = negate (norm e)
norm (add e f) = Poly.add (norm e) (norm f)
norm (sub e f) = Poly.add (norm e) (negate (norm f))
norm (mul e f) = Poly.mul (norm e) (norm f)
