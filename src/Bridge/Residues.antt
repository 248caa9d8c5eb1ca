-- ===== src/Bridge/Residues.antt =====
-- The integers modulo 3 as numbers that meet the laws of the real ones: a literal is 0 or 1.
use infinity_autopilot.Prelude.{ℕ, zero, suc, refl, Bool, true, false, none, arith}
use infinity_autopilot.Ring.Mod3.{Z3, z0, z1, z2, mod3}
use infinity_autopilot.Bridge.Float.{Float, IsExact}

abbrev literal : ℕ → Z3
literal zero = z0
literal (suc n) = z1

abbrev positive : Z3 → Bool
positive z0 = false
positive z1 = true
positive z2 = true

abbrev above : Z3 → Z3 → Bool
above z0 y = positive y
above z1 y = false
above z2 y = false

abbrev pub residues : Float Z3
residues = record {
  decimal = λ n k. literal n;
  neg = mod3.neg;
  ◌-◌ = mod3.◌-◌;
  ◌*◌ = mod3.◌*◌;
  ◌/◌ = mod3.◌*◌;
  pow = λ x y. x;
  lt = above;
  is_finite = λ x. true;
  to_int = λ x. none;
  hypot = λ x y. x;
  atan2 = λ y x. y;
  degrees = λ x. x;
}

pub residues-IsExact : IsExact residues
residues-IsExact = record {
  sub-sub = λ x y. ground arith;
  mul-div = λ x y h. ground arith;
  div-mul-div = λ x y z h k. ground arith;
  pow-pow = λ x y z h k l. refl;
}
