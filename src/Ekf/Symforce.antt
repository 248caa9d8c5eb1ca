-- ===== src/Ekf/Symforce.antt =====
-- What the derivation uses of SymForce, which is not part of the repository: its symbolic scalars
-- are expressions, and its operations on them are parameters with their documented behaviour, told
-- by the values of the expressions that they return.
use infinity_autopilot.Prelude.{ℕ, zero, suc, Bool, ◌≡◌, ◌==◌, if◌then◌else◌}
use infinity_autopilot.Ring.{Ops, IsRing}
use infinity_autopilot.Ring.Expr.{Expr}
use infinity_autopilot.Ring.Dual.{Dual, pair, dual}
use infinity_autopilot.Ring.Solver.{eval}
use infinity_autopilot.Ekf.Types.{V3, Quaternion, vector}
pub mod Reference

-- `Quaternion.__mul__`, `Quaternion.conj`, `Rot3.__mul__` at a vector, and `Rot3.inverse`.
pub record Rotations (S : Type 0) : Type 0 where
  pub quat_mul : Quaternion S → Quaternion S → Quaternion S
  pub conj : Quaternion S → Quaternion S
  pub inverse : Quaternion S → Quaternion S
  pub rotate : Quaternion S → V3 S → V3 S

-- Over values: Hamilton's product, and the rotation matrix of a unit quaternion, with a diagonal
-- such as 1 - 2 (y² + z²).
module _ {S : Type 0} (o : Ops S) where
  infixl 65 ◌+◌ ◌-◌
  infixl 70 ◌*◌
  open o use {lit, neg, ◌+◌, ◌-◌, ◌*◌}

  abbrev pub hamilton : Quaternion S → Quaternion S → Quaternion S
  hamilton p q = record {
    x = p.w * q.x + p.x * q.w + p.y * q.z - p.z * q.y;
    y = p.w * q.y - p.x * q.z + p.y * q.w + p.z * q.x;
    z = p.w * q.z + p.x * q.y - p.y * q.x + p.z * q.w;
    w = p.w * q.w - p.x * q.x - p.y * q.y - p.z * q.z;
  }

  abbrev pub conjugate : Quaternion S → Quaternion S
  conjugate q = record { x = neg q.x; y = neg q.y; z = neg q.z; w = q.w }

  abbrev pub rotation : Quaternion S → V3 S → V3 S
  rotation q v =
      vector
        ((lit 1 - lit 2 * (q.y * q.y + q.z * q.z)) * v.x
          + lit 2 * (q.x * q.y - q.w * q.z) * v.y
          + lit 2 * (q.x * q.z + q.w * q.y) * v.z)
        (lit 2 * (q.x * q.y + q.w * q.z) * v.x
          + (lit 1 - lit 2 * (q.x * q.x + q.z * q.z)) * v.y
          + lit 2 * (q.y * q.z - q.w * q.x) * v.z)
        (lit 2 * (q.x * q.z - q.w * q.y) * v.x
          + lit 2 * (q.y * q.z + q.w * q.x) * v.y
          + (lit 1 - lit 2 * (q.x * q.x + q.y * q.y)) * v.z)

  abbrev pub rotations : Rotations S
  rotations = record {
    quat_mul = hamilton;
    conj = conjugate;
    inverse = conjugate;
    rotate = rotation;
  }

  abbrev pub square_norm : Quaternion S → S
  square_norm q = q.w * q.w + q.x * q.x + q.y * q.y + q.z * q.z

  abbrev pub eval_quat : (ℕ → S) → Quaternion Expr → Quaternion S
  eval_quat ρ q = record { x = eval o ρ q.x; y = eval o ρ q.y; z = eval o ρ q.z; w = eval o ρ q.w }

  abbrev pub eval_vector : (ℕ → S) → V3 Expr → V3 S
  eval_vector ρ v = vector (eval o ρ v.x) (eval o ρ v.y) (eval o ρ v.z)

  abbrev pub sum : ℕ → (ℕ → S) → S
  sum zero f = lit 0
  sum (suc n) f = sum n f + f n

-- `diff v e` is ∂e/∂v, `subs_zero S e` is `e.subs` that maps the symbols of S to 0,
-- `drop_square v e` is `sp.expand(e).subs(v**2, 0)`, `subs_unit q e` is `sp.factor(e).subs(|q|², 1)`,
-- and `mat_mul n` and `mat_add` are the product, over an inner dimension n, and the sum of matrices.
pub record Symforce : Type 0 where
  pub rotations_of : Rotations Expr
  pub diff : ℕ → Expr → Expr
  pub subs_zero : (ℕ → Bool) → Expr → Expr
  pub drop_square : ℕ → Expr → Expr
  pub subs_unit : Quaternion Expr → Expr → Expr
  pub mat_mul : ℕ → (ℕ → ℕ → Expr) → (ℕ → ℕ → Expr) → ℕ → ℕ → Expr
  pub mat_add : (ℕ → ℕ → Expr) → (ℕ → ℕ → Expr) → ℕ → ℕ → Expr

module _ {K : Type 0} (o : Ops K) where
  -- The symbol v moves by ε, the others stay.
  abbrev pub seeded : ℕ → (ℕ → K) → ℕ → Dual K
  seeded v ρ u = pair (ρ u) (if u == v then o.lit 1 else o.lit 0)

  -- The symbol v becomes ε, so that the two parts are the coefficients of 1 and of v.
  abbrev pub expanded : ℕ → (ℕ → K) → ℕ → Dual K
  expanded v ρ u = if u == v then pair (o.lit 0) (o.lit 1) else pair (ρ u) (o.lit 0)

  abbrev pub zeroed : (ℕ → Bool) → (ℕ → K) → ℕ → K
  zeroed symbols ρ u = if symbols u then o.lit 0 else ρ u

-- The symbol v takes the value x.
abbrev pub moved : {K : Type 0} → ℕ → K → (ℕ → K) → ℕ → K
moved v x ρ u = if u == v then x else ρ u

-- An expression of degree two at most in the symbol v, with its coefficients, which do not depend
-- on v.
pub record IsQuadratic (v : ℕ) (e : Expr) : Type 1 where
  pub constant : Expr
  pub linear : Expr
  pub square : Expr
  pub value_lem :
      {K : Type 0} {o : Ops K} (r : IsRing o) (ρ : ℕ → K)
      → eval o ρ e
        ≡ o.◌+◌
            (o.◌+◌ (eval o ρ constant) (o.◌*◌ (eval o ρ linear) (ρ v)))
            (o.◌*◌ (eval o ρ square) (o.◌*◌ (ρ v) (ρ v)))
  pub steady_lem :
      {K : Type 0} {o : Ops K} (r : IsRing o) (ρ : ℕ → K) (x : K)
      → (eval o (moved v x ρ) constant ≡ eval o ρ constant)
        × (eval o (moved v x ρ) linear ≡ eval o ρ linear)
        × (eval o (moved v x ρ) square ≡ eval o ρ square)

-- The documented behaviour. A substitution of 1 for the square norm changes no value where the
-- square norm is 1; that of 0 for v² drops the square term of a quadratic expression.
pub record IsSymforce (sf : Symforce) : Type 1 where
  pub quat_mul_lem :
      {K : Type 0} {o : Ops K} (r : IsRing o) (ρ : ℕ → K) (p q : Quaternion Expr)
      → eval_quat o ρ (sf.rotations_of.quat_mul p q)
        ≡ hamilton o (eval_quat o ρ p) (eval_quat o ρ q)
  pub conj_lem :
      {K : Type 0} {o : Ops K} (r : IsRing o) (ρ : ℕ → K) (q : Quaternion Expr)
      → eval_quat o ρ (sf.rotations_of.conj q) ≡ conjugate o (eval_quat o ρ q)
  pub inverse_lem :
      {K : Type 0} {o : Ops K} (r : IsRing o) (ρ : ℕ → K) (q : Quaternion Expr)
      → eval_quat o ρ (sf.rotations_of.inverse q) ≡ conjugate o (eval_quat o ρ q)
  pub rotate_lem :
      {K : Type 0} {o : Ops K} (r : IsRing o) (ρ : ℕ → K) (q : Quaternion Expr) (v : V3 Expr)
      → eval_vector o ρ (sf.rotations_of.rotate q v)
        ≡ rotation o (eval_quat o ρ q) (eval_vector o ρ v)
  pub diff_lem :
      {K : Type 0} {o : Ops K} (r : IsRing o) (ρ : ℕ → K) (v : ℕ) (e : Expr)
      → eval o ρ (sf.diff v e) ≡ (eval (dual o) (seeded o v ρ) e).eps
  pub subs_zero_lem :
      {K : Type 0} {o : Ops K} (r : IsRing o) (ρ : ℕ → K) (symbols : ℕ → Bool) (e : Expr)
      → eval o ρ (sf.subs_zero symbols e) ≡ eval o (zeroed o symbols ρ) e
  pub drop_square_lem :
      {K : Type 0} {o : Ops K} (r : IsRing o) (ρ : ℕ → K) (v : ℕ) (e : Expr)
      → IsQuadratic v e
      → let d = eval (dual o) (expanded o v ρ) e in
        eval o ρ (sf.drop_square v e) ≡ o.◌+◌ d.re (o.◌*◌ (ρ v) d.eps)
  pub subs_unit_lem :
      {K : Type 0} {o : Ops K} (r : IsRing o) (ρ : ℕ → K) (q : Quaternion Expr) (e : Expr)
      → square_norm o (eval_quat o ρ q) ≡ o.lit 1
      → eval o ρ (sf.subs_unit q e) ≡ eval o ρ e
  pub mat_mul_lem :
      {K : Type 0} {o : Ops K} (r : IsRing o) (ρ : ℕ → K) (n : ℕ) (a b : ℕ → ℕ → Expr) (i j : ℕ)
      → eval o ρ (sf.mat_mul n a b i j) ≡ sum o n (λ k. o.◌*◌ (eval o ρ (a i k)) (eval o ρ (b k j)))
  pub mat_add_lem :
      {K : Type 0} {o : Ops K} (r : IsRing o) (ρ : ℕ → K) (a b : ℕ → ℕ → Expr) (i j : ℕ)
      → eval o ρ (sf.mat_add a b i j) ≡ o.◌+◌ (eval o ρ (a i j)) (eval o ρ (b i j))
