-- ===== src/Bridge/Int.antt =====
-- Python's integers, as far as the bridge computes with them.
use infinity_autopilot.Prelude.{ℕ, ◌-◌, ◌%◌, Bool, false, ltb}

-- `negsuc n` is -(n + 1).
pub data ℤ : Type 0 where
  pos : ℕ → ℤ
  negsuc : ℕ → ℤ

-- `a % m` for a positive m, which is never negative.
infixl 70 ◌%ℤ◌
abbrev pub ◌%ℤ◌ : ℤ → ℕ → ℕ
pos n %ℤ m = n % m
negsuc n %ℤ m = m - 1 - n % m

-- Whether an integer fits into an unsigned word of the values below m.
abbrev pub fits : ℤ → ℕ → Bool
fits (pos n) m = ltb n m
fits (negsuc n) m = false
