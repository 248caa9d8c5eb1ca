-- ===== src/Ring/Poly.antt =====
-- Polynomials with dyadic coefficients, in a form that can be compared by evaluation.
use infinity_autopilot.Prelude.{
  ℕ, ◌+◌, ◌-◌, ◌*◌, ◌^◌, Bool, true, false, ◌&&◌, List, [], ◌∷◌, if◌then◌else◌, leb, ◌==◌,
}

-- (plus - minus) / 2 ^ halves times the product of the variables, which are sorted.
pub record Term : Type 0 where
  pub plus : ℕ
  pub minus : ℕ
  pub halves : ℕ
  pub vars : List ℕ

abbrev pub Poly : Type 0
Poly = List Term

unfoldable pub same_vars : List ℕ → List ℕ → Bool
same_vars [] [] = true
same_vars [] (w ∷ ws) = false
same_vars (v ∷ vs) [] = false
same_vars (v ∷ vs) (w ∷ ws) = let rest = same_vars vs ws in v == w && rest

unfoldable pub same : Term → Term → Bool
unfolding same_vars
same t u = t.halves == u.halves && same_vars t.vars u.vars

unfoldable pub insert : Term → Poly → Poly
unfolding same
insert t [] = t ∷ []
insert t (u ∷ p) =
    let rest = insert t p in
    if same t u
    then record u { plus = t.plus + u.plus; minus = t.minus + u.minus } ∷ p
    else u ∷ rest

unfoldable pub add : Poly → Poly → Poly
unfolding insert
add [] q = q
add (t ∷ p) q = insert t (add p q)

unfoldable pub negate : Poly → Poly
negate [] = []
negate (t ∷ p) = record t { plus = t.minus; minus = t.plus } ∷ negate p

unfoldable pub insert_var : ℕ → List ℕ → List ℕ
insert_var v [] = v ∷ []
insert_var v (w ∷ ws) = let rest = insert_var v ws in if leb v w then v ∷ w ∷ ws else w ∷ rest

unfoldable pub merge_vars : List ℕ → List ℕ → List ℕ
unfolding insert_var
merge_vars [] ws = ws
merge_vars (v ∷ vs) ws = insert_var v (merge_vars vs ws)

unfoldable pub times : Term → Term → Term
unfolding merge_vars
times t u = record {
  plus = t.plus * u.plus + t.minus * u.minus;
  minus = t.plus * u.minus + t.minus * u.plus;
  halves = t.halves + u.halves;
  vars = merge_vars t.vars u.vars;
}

unfoldable pub scale : Term → Poly → Poly
unfolding times
scale t [] = []
scale t (u ∷ p) = times t u ∷ scale t p

unfoldable pub mul : Poly → Poly → Poly
unfolding add scale
mul [] q = []
mul (t ∷ p) q = add (scale t q) (mul p q)

unfoldable pub max_halves : Poly → ℕ → ℕ
max_halves [] k = k
max_halves (t ∷ p) k = max_halves p (if leb t.halves k then k else t.halves)

-- The same term with `j` more halves.
unfoldable pub lift_by : ℕ → Term → Term
lift_by j t = record t { plus = t.plus * 2 ^ j; minus = t.minus * 2 ^ j; halves = t.halves + j }

unfoldable pub lift_to : ℕ → Poly → Poly
unfolding insert lift_by
lift_to k [] = []
lift_to k (t ∷ p) = insert (lift_by (k - t.halves) t) (lift_to k p)

unfoldable pub all_cancel : Poly → Bool
all_cancel [] = true
all_cancel (t ∷ p) = let rest = all_cancel p in t.plus == t.minus && rest

unfoldable pub is_zero : Poly → Bool
unfolding max_halves lift_to all_cancel
is_zero p = all_cancel (lift_to (max_halves p 0) p)
