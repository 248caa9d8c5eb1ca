-- ===== src/Ekf/Symforce/Reference.antt =====
-- A SymForce that behaves as documented: symbolic derivatives and substitutions by recursion.
use infinity_autopilot.Prelude.{
  ℕ, zero, suc, ◌≡◌, refl, ap, ap₂, ◌∙◌, fun_ext, Bool, true, false, ◌==◌, if◌then◌else◌,
  Bool-cases, inl, inr,
}
use infinity_autopilot.Ring.{Ops}
use infinity_autopilot.Ring.Expr.{Expr, syntax}
use infinity_autopilot.Ring.Dual.{Dual, pair, dual}
use infinity_autopilot.Ring.Solver.{eval}
use infinity_autopilot.Ekf.Symforce.{Symforce, IsSymforce, rotations, sum, seeded, expanded}

abbrev substitute : (ℕ → Expr) → Expr → Expr
substitute f (Expr.var v) = f v
substitute f (Expr.lit n) = Expr.lit n
substitute f Expr.half = Expr.half
substitute f (Expr.neg e) = Expr.neg (substitute f e)
substitute f (Expr.add d e) = Expr.add (substitute f d) (substitute f e)
substitute f (Expr.sub d e) = Expr.sub (substitute f d) (substitute f e)
substitute f (Expr.mul d e) = Expr.mul (substitute f d) (substitute f e)

-- The value and the derivative, symbolically.
abbrev parts : (ℕ → Dual Expr) → Expr → Dual Expr
parts σ = eval (dual syntax) σ

abbrev eval_dual : {K : Type 0} → Ops K → (ℕ → K) → Dual Expr → Dual K
eval_dual o ρ d = pair (eval o ρ d.re) (eval o ρ d.eps)

eval-parts :
    {K : Type 0} (o : Ops K) (ρ : ℕ → K) (σ : ℕ → Dual Expr) (e : Expr)
    → eval_dual o ρ (parts σ e) ≡ eval (dual o) (λ u. eval_dual o ρ (σ u)) e
eval-parts o ρ σ (Expr.var v) = refl
eval-parts o ρ σ (Expr.lit n) = refl
eval-parts o ρ σ Expr.half = refl
eval-parts o ρ σ (Expr.neg e) = ap (dual o).neg (eval-parts o ρ σ e)
eval-parts o ρ σ (Expr.add d e) = ap₂ (dual o).◌+◌ (eval-parts o ρ σ d) (eval-parts o ρ σ e)
eval-parts o ρ σ (Expr.sub d e) = ap₂ (dual o).◌-◌ (eval-parts o ρ σ d) (eval-parts o ρ σ e)
eval-parts o ρ σ (Expr.mul d e) = ap₂ (dual o).◌*◌ (eval-parts o ρ σ d) (eval-parts o ρ σ e)

eval-substitute :
    {K : Type 0} (o : Ops K) (ρ : ℕ → K) (f : ℕ → Expr) (e : Expr)
    → eval o ρ (substitute f e) ≡ eval o (λ u. eval o ρ (f u)) e
eval-substitute o ρ f (Expr.var v) = refl
eval-substitute o ρ f (Expr.lit n) = refl
eval-substitute o ρ f Expr.half = refl
eval-substitute o ρ f (Expr.neg e) = ap o.neg (eval-substitute o ρ f e)
eval-substitute o ρ f (Expr.add d e) = ap₂ o.◌+◌ (eval-substitute o ρ f d) (eval-substitute o ρ f e)
eval-substitute o ρ f (Expr.sub d e) = ap₂ o.◌-◌ (eval-substitute o ρ f d) (eval-substitute o ρ f e)
eval-substitute o ρ f (Expr.mul d e) = ap₂ o.◌*◌ (eval-substitute o ρ f d) (eval-substitute o ρ f e)

abbrev seed_symbols : ℕ → ℕ → Dual Expr
seed_symbols v u = pair (Expr.var u) (if u == v then Expr.lit 1 else Expr.lit 0)

abbrev expand_symbols : ℕ → ℕ → Dual Expr
expand_symbols v u =
    if u == v then pair (Expr.lit 0) (Expr.lit 1) else pair (Expr.var u) (Expr.lit 0)

eval-seed :
    {K : Type 0} (o : Ops K) (ρ : ℕ → K) (v u : ℕ)
    → eval_dual o ρ (seed_symbols v u) ≡ seeded o v ρ u
eval-seed o ρ v u = elim (Bool-cases (u == v)) [ inl e ↦ rw e | inr e ↦ rw e ]

eval-expand :
    {K : Type 0} (o : Ops K) (ρ : ℕ → K) (v u : ℕ)
    → eval_dual o ρ (expand_symbols v u) ≡ expanded o v ρ u
eval-expand o ρ v u = elim (Bool-cases (u == v)) [ inl e ↦ rw e | inr e ↦ rw e ]

eval-zero :
    {K : Type 0} (o : Ops K) (ρ : ℕ → K) (b : Bool) (u : ℕ)
    → eval o ρ (if b then Expr.lit 0 else Expr.var u) ≡ (if b then o.lit 0 else ρ u)
eval-zero o ρ true u = refl
eval-zero o ρ false u = refl

abbrev pub reference : Symforce
reference = record {
  rotations_of = rotations syntax;
  diff = λ v e. (parts (seed_symbols v) e).eps;
  subs_zero = λ symbols. substitute (λ u. if symbols u then Expr.lit 0 else Expr.var u);
  drop_square = λ v e.
      Expr.add (parts (expand_symbols v) e).re
        (Expr.mul (Expr.var v) (parts (expand_symbols v) e).eps);
  subs_unit = λ q e. e;
  mat_mul = λ n a b i j. sum syntax n (λ k. Expr.mul (a i k) (b k j));
  mat_add = λ a b i j. Expr.add (a i j) (b i j);
}

eval-sum :
    {K : Type 0} (o : Ops K) (ρ : ℕ → K) (n : ℕ) (f : ℕ → Expr)
    → eval o ρ (sum syntax n f) ≡ sum o n (λ k. eval o ρ (f k))
eval-sum o ρ zero f = refl
eval-sum o ρ (suc n) f = ap (λ s. o.◌+◌ s (eval o ρ (f n))) (eval-sum o ρ n f)

pub reference-IsSymforce : IsSymforce reference
reference-IsSymforce = record {
  quat_mul_lem = λ r ρ p q. refl;
  conj_lem = λ r ρ q. refl;
  inverse_lem = λ r ρ q. refl;
  rotate_lem = λ r ρ q v. refl;
  diff_lem = λ {K} {o} r ρ v e.
      ap (λ d. d.eps)
        (eval-parts o ρ (seed_symbols v) e
          ∙ ap (λ σ. eval (dual o) σ e) (fun_ext (eval-seed o ρ v)));
  subs_zero_lem = λ {K} {o} r ρ symbols e.
      eval-substitute o ρ _ e ∙ ap (λ σ. eval o σ e) (fun_ext (λ u. eval-zero o ρ (symbols u) u));
  drop_square_lem = λ {K} {o} r ρ v e quadratic.
      ap (λ d. o.◌+◌ d.re (o.◌*◌ (ρ v) d.eps))
        (eval-parts o ρ (expand_symbols v) e
          ∙ ap (λ σ. eval (dual o) σ e) (fun_ext (eval-expand o ρ v)));
  subs_unit_lem = λ r ρ q e unit. refl;
  mat_mul_lem = λ {K} {o} r ρ n a b i j. eval-sum o ρ n _;
  mat_add_lem = λ r ρ a b i j. refl;
}
