-- ===== src/Ring/Mod3.antt =====
-- The integers modulo 3, a concrete ring with a half of one.
use infinity_autopilot.Prelude.{ℕ, zero, suc, ◌≡◌, refl, arith}
use infinity_autopilot.Ring.{Ops, IsRing}

pub data Z3 : Type 0 where
  z0 z1 z2 : Z3

abbrev next : Z3 → Z3
next z0 = z1
next z1 = z2
next z2 = z0

abbrev of_ℕ : ℕ → Z3
of_ℕ zero = z0
of_ℕ (suc n) = next (of_ℕ n)

abbrev opposite : Z3 → Z3
opposite z0 = z0
opposite z1 = z2
opposite z2 = z1

abbrev plus : Z3 → Z3 → Z3
plus z0 b = b
plus z1 b = next b
plus z2 b = next (next b)

abbrev times : Z3 → Z3 → Z3
times z0 b = z0
times z1 b = b
times z2 b = opposite b

abbrev pub mod3 : Ops Z3
mod3 = record {
  lit = of_ℕ;
  half = z2;
  neg = opposite;
  ◌+◌ = plus;
  ◌-◌ = λ a b. plus a (opposite b);
  ◌*◌ = times;
}

plus_assoc : (a b c : Z3) → plus (plus a b) c ≡ plus a (plus b c)
plus_assoc a b c = ground arith

plus_comm : (a b : Z3) → plus a b ≡ plus b a
plus_comm a b = ground arith

opposite-plus : (a : Z3) → plus (opposite a) a ≡ z0
opposite-plus a = ground arith

times_assoc : (a b c : Z3) → times (times a b) c ≡ times a (times b c)
times_assoc a b c = ground arith

times_comm : (a b : Z3) → times a b ≡ times b a
times_comm a b = ground arith

times-plus : (a b c : Z3) → times a (plus b c) ≡ plus (times a b) (times a c)
times-plus a b c = ground arith

pub mod3-IsRing : IsRing mod3
mod3-IsRing = record {
  add_assoc = plus_assoc;
  add_comm = plus_comm;
  zero-add = λ a. refl;
  neg-add = opposite-plus;
  sub_lem = λ a b. refl;
  mul_assoc = times_assoc;
  mul_comm = times_comm;
  one-mul = λ a. refl;
  mul-add = times-plus;
  lit-suc = λ n. plus_comm z1 (of_ℕ n);
  half-add = refl;
}
