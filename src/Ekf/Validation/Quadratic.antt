-- ===== src/Ekf/Validation/Quadratic.antt =====
-- The rotation error after one step is of degree two in dt.
use infinity_autopilot.Prelude.{ℕ, zero, suc, ◌+◌, ◌≡◌, refl, ap₂, ◌∙◌, List, [], ◌∷◌}
use infinity_autopilot.Ring.{Ops, IsRing}
use infinity_autopilot.Ring.Expr.{Expr, syntax}
use infinity_autopilot.Ring.Solver.{agree, solve}
use infinity_autopilot.Ekf.Types.{V3, Quaternion, vector, quaternion, vector_add, vector_scale}
use infinity_autopilot.Ekf.Symforce.{hamilton, conjugate}

module _ {S : Type 0} (o : Ops S) where
  infixl 65 ◌+◌
  infixl 70 ◌*◌
  open o use {lit, half, ◌+◌, ◌*◌}

  -- p + t q.
  abbrev shifted : Quaternion S → S → Quaternion S → Quaternion S
  shifted p t q = record {
    x = p.x + t * q.x;
    y = p.y + t * q.y;
    z = p.z + t * q.z;
    w = p.w + t * q.w;
  }

  -- The turn by the rate w for the time t, and its derivative.
  abbrev pub turning : V3 S → S → Quaternion S
  turning w t = quaternion (vector_scale o (vector_scale o w t) half) (lit 1)

  abbrev pub turning_slope : V3 S → Quaternion S
  turning_slope w = quaternion (vector_scale o w half) (lit 0)

  abbrev angle : Quaternion S → V3 S
  angle q = vector (lit 2 * q.x) (lit 2 * q.y) (lit 2 * q.z)

  abbrev pub difference : Quaternion S → Quaternion S → V3 S
  difference p q = angle (hamilton o p (conjugate o q))

  -- a + b t + c t².
  abbrev pub polynomial : V3 S → V3 S → V3 S → S → V3 S
  polynomial a b c t = vector_add o (vector_add o a (vector_scale o b t)) (vector_scale o c (t * t))

  abbrev nth : List S → ℕ → S
  nth [] i = lit 0
  nth (x ∷ xs) zero = x
  nth (x ∷ xs) (suc i) = nth xs i

abbrev quat_at : ℕ → Quaternion Expr
quat_at n = record {
  x = Expr.var n;
  y = Expr.var (n + 1);
  z = Expr.var (n + 2);
  w = Expr.var (n + 3);
}

module _ {K : Type 0} {o : Ops K} (r : IsRing o) where
  hamilton-turning :
      (s : Quaternion K) (w : V3 K) (t : K)
      → hamilton o s (turning o w t) ≡ shifted o s t (hamilton o s (turning_slope o w))
  unfolding agree
  hamilton-turning s w t = λ i. record {
    x = solve r ρ left.x right.x refl i;
    y = solve r ρ left.y right.y refl i;
    z = solve r ρ left.z right.z refl i;
    w = solve r ρ left.w right.w refl i;
  }
    where
      ρ : ℕ → K
      ρ = nth o (s.x ∷ s.y ∷ s.z ∷ s.w ∷ w.x ∷ w.y ∷ w.z ∷ t ∷ [])

      rate : V3 Expr
      rate = vector (Expr.var 4) (Expr.var 5) (Expr.var 6)

      left : Quaternion Expr
      left = hamilton syntax (quat_at 0) (turning syntax rate (Expr.var 7))

      right : Quaternion Expr
      right =
          shifted syntax (quat_at 0) (Expr.var 7)
            (hamilton syntax (quat_at 0) (turning_slope syntax rate))

  difference-shifted :
      (p q u v : Quaternion K) (t : K)
      → difference o (shifted o p t q) (shifted o u t v)
        ≡ polynomial o
            (difference o p u)
            (vector_add o (difference o p v) (difference o q u))
            (difference o q v)
            t
  unfolding agree
  difference-shifted p q u v t = λ i.
      vector (solve r ρ left.x right.x refl i) (solve r ρ left.y right.y refl i)
        (solve r ρ left.z right.z refl i)
    where
      ρ : ℕ → K
      ρ = nth o (
          t ∷ p.x ∷ p.y ∷ p.z ∷ p.w ∷ q.x ∷ q.y ∷ q.z ∷ q.w ∷ u.x ∷ u.y ∷ u.z ∷ u.w ∷ v.x ∷ v.y
          ∷ v.z ∷ v.w ∷ [])

      left : V3 Expr
      left =
          difference syntax (shifted syntax (quat_at 1) (Expr.var 0) (quat_at 5))
            (shifted syntax (quat_at 9) (Expr.var 0) (quat_at 13))

      right : V3 Expr
      right =
          polynomial syntax (difference syntax (quat_at 1) (quat_at 9))
            (vector_add syntax (difference syntax (quat_at 1) (quat_at 13))
              (difference syntax (quat_at 5) (quat_at 9)))
            (difference syntax (quat_at 5) (quat_at 13)) (Expr.var 0)

  -- Twice the vector part of the difference of two attitudes that turn.
  pub difference-turning :
      (p u : Quaternion K) (w w' : V3 K) (t : K)
      → difference o (hamilton o p (turning o w t)) (hamilton o u (turning o w' t))
        ≡ polynomial o
            (difference o p u)
            (vector_add o
              (difference o p (hamilton o u (turning_slope o w')))
              (difference o (hamilton o p (turning_slope o w)) u))
            (difference o (hamilton o p (turning_slope o w)) (hamilton o u (turning_slope o w')))
            t
  difference-turning p u w w' t =
      ap₂ (difference o) (hamilton-turning p w t) (hamilton-turning u w' t)
      ∙ difference-shifted p (hamilton o p (turning_slope o w)) u
          (hamilton o u (turning_slope o w')) t
