-- ===== src/Bridge/Fractions.antt =====
-- A concrete stand-in for the numbers: non-negative fractions, with NaN for all others.
use infinity_autopilot.Prelude.{
  ℕ, ◌-◌, ◌*◌, ◌/◌, ◌^◌, ◌<◌, ◌≡◌, refl, Option, none, some, Bool, true, false, ltb, ◌==◌,
  if◌then◌else◌, arith,
}
use native.Mathlib.Nat.{lt_of_mul-lt-mul_right}
use infinity_autopilot.Bridge.Int.{ℤ, pos}
use infinity_autopilot.Bridge.Float.{Float, IsOrdered}

pub record Fraction : Type 0 where
  pub numerator : ℕ
  pub denominator : ℕ

abbrev pub fraction : ℕ → ℕ → Fraction
fraction n d = record { numerator = n; denominator = d }

abbrev on_both :
    (Fraction → Fraction → Fraction) → Option Fraction → Option Fraction → Option Fraction
on_both op none y = none
on_both op (some x) none = none
on_both op (some x) (some y) = some (op x y)

abbrev less : Option Fraction → Option Fraction → Bool
less none y = false
less (some x) none = false
less (some x) (some y) = ltb (x.numerator * y.denominator) (y.numerator * x.denominator)

abbrev pub is_some : Option Fraction → Bool
is_some none = false
is_some (some x) = true

abbrev truncate : Option Fraction → Option ℤ
truncate none = none
truncate (some x) = some (pos (x.numerator / x.denominator))

abbrev opposite : Option Fraction → Option Fraction
opposite none = none
opposite (some x) = if x.numerator == 0 then some x else none

abbrev times : Fraction → Fraction → Fraction
times x y = fraction (x.numerator * y.numerator) (x.denominator * y.denominator)

abbrev pub fractions : Float (Option Fraction)
fractions = record {
  decimal = λ n k. some (fraction n (10 ^ k));
  neg = opposite;
  ◌-◌ = on_both (λ x y.
      fraction (x.numerator * y.denominator - y.numerator * x.denominator)
        (x.denominator * y.denominator));
  ◌*◌ = on_both times;
  ◌/◌ = on_both (λ x y. fraction (x.numerator * y.denominator) (x.denominator * y.numerator));
  pow = λ x y. x;
  lt = less;
  is_finite = is_some;
  to_int = truncate;
  hypot = λ x y. x;
  atan2 = λ y x. y;
  degrees = λ x. x;
}

less-asym : (x y : Option Fraction) → less x y ≡ true → less y x ≡ false
less-asym none y h = cc h
less-asym (some x) none h = refl
less-asym (some x) (some y) h = ground arith

-- A factor common to both sides may go.
cancelled : (a b k : ℕ) → ltb (a * k) (b * k) ≡ true → ltb a b ≡ true
cancelled a b k h = let below : a < b = lt_of_mul-lt-mul_right k (ground arith) in ground arith

less-times :
    (x y m : Option Fraction)
    → less (on_both times x m) (on_both times y m) ≡ true
    → less x y ≡ true
less-times none y m h = cc h
less-times (some x) none none h = cc h
less-times (some x) none (some m) h = cc h
less-times (some x) (some y) none h = cc h
less-times (some x) (some y) (some m) h =
    cancelled (x.numerator * y.denominator) (y.numerator * x.denominator)
      (m.numerator * m.denominator) (grind (arith, h))

pub fractions-IsOrdered : IsOrdered fractions
fractions-IsOrdered = record {
  asym = less-asym;
  zero-lt-one = refl;
  lt_of_mul = λ x y m pos h. less-times x y m h;
}
