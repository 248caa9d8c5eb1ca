-- ===== src/Bridge/Float.antt =====
-- Python's floating-point numbers: what the bridge does with them is a parameter.
use infinity_autopilot.Prelude.{ℕ, ◌≡◌, ◌≢◌, Bool, true, false, Option, if◌then◌else◌}
use infinity_autopilot.Bridge.Int.{ℤ}

-- `decimal n k` is the literal n · 10⁻ᵏ. `to_int` is `int`, which raises an exception at an
-- infinity and at NaN. `F` holds all that the operations return, the complex powers of negative
-- numbers included.
pub record Float (F : Type 0) : Type 0 where
  pub decimal : ℕ → ℕ → F
  pub neg : F → F
  pub ◌-◌ : F → F → F
  pub ◌*◌ : F → F → F
  pub ◌/◌ : F → F → F
  pub pow : F → F → F
  pub lt : F → F → Bool
  pub is_finite : F → Bool
  pub to_int : F → Option ℤ
  pub hypot : F → F → F
  pub atan2 : F → F → F
  pub degrees : F → F

module _ {F : Type 0} (f : Float F) where
  open f use {lt}

  -- `min(a, b)` and `max(a, b)`: the first, unless the second is smaller, or greater.
  abbrev pub min : F → F → F
  min a b = if lt b a then b else a

  abbrev pub max : F → F → F
  max a b = if lt a b then b else a

-- What IEEE 754 says of the order and of a product with a positive number, NaN included. A product
-- is not reordered by rounding.
pub record IsOrdered {F : Type 0} (f : Float F) : Type 0 where
  pub asym : (x y : F) → f.lt x y ≡ true → f.lt y x ≡ false
  pub zero-lt-one : f.lt (f.decimal 0 1) (f.decimal 10 1) ≡ true
  pub lt_of_mul :
      (x y m : F)
      → f.lt (f.decimal 0 1) m ≡ true
      → f.lt (f.◌*◌ x m) (f.◌*◌ y m) ≡ true
      → f.lt x y ≡ true

-- Laws of the real numbers, for statements about the formulas without rounding.
pub record IsExact {F : Type 0} (f : Float F) : Type 0 where
  pub sub-sub : (x y : F) → f.◌-◌ x (f.◌-◌ x y) ≡ y
  pub mul-div : (x y : F) → x ≢ f.decimal 0 1 → f.◌/◌ (f.◌*◌ x y) x ≡ y
  pub div-mul-div :
      (x y z : F)
      → x ≢ f.decimal 0 1
      → y ≢ f.decimal 0 1
      → f.◌*◌ (f.◌/◌ x y) (f.◌/◌ (f.◌*◌ y z) x) ≡ z
  pub pow-pow :
      (x y z : F)
      → y ≢ f.decimal 0 1
      → z ≢ f.decimal 0 1
      → f.lt (f.decimal 0 1) x ≡ true
      → f.pow (f.pow x (f.◌/◌ y z)) (f.◌/◌ z y) ≡ x
