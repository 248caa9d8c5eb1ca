-- ===== src/Ekf/Generated/Arrays.antt =====
-- The arrays that the generated functions take, and the test of their shape
-- (src/modules/EKF/python/generated).
use infinity_autopilot.Prelude.{
  ◌>>=◌, ℕ, Bool, true, false, ◌||◌, ◌&&◌, ◌==◌, if◌then◌else◌, leb, List, [], ◌∷◌, Option, none,
  some,
}
use infinity_autopilot.Ekf.Types.{V3, vector}

-- The entries are numbered in the order of storage, which a reshape keeps.
pub record NdArray (K : Type 0) : Type 0 where
  pub shape : List ℕ
  pub item : ℕ → K

-- A two-dimensional array.
pub record Matrix (K : Type 0) : Type 0 where
  pub rows : ℕ
  pub columns : ℕ
  pub entry : ℕ → ℕ → K

abbrev pub same_shape : List ℕ → List ℕ → Bool
same_shape [] [] = true
same_shape (a ∷ as') (b ∷ bs) = a == b && same_shape as' bs
same_shape _ _ = false

module _ {K : Type 0} where
  -- The test at the head of each generated function; `none` is the `IndexError`.
  abbrev pub as_column : ℕ → NdArray K → Option (ℕ → K)
  as_column n a =
      if same_shape a.shape (n ∷ []) || same_shape a.shape (n ∷ 1 ∷ []) then some a.item else none

  abbrev pub as_vector : NdArray K → Option (V3 K)
  as_vector a = do item ← as_column 3 a; some (vector (item 0) (item 1) (item 2))

  -- The entries of a covariance, all of which the code reads up to the last, `P[14, 14]`; `none` is
  -- numpy's `IndexError` at an entry that is not there.
  abbrev pub as_covariance : Matrix K → Option (ℕ → ℕ → K)
  as_covariance p = if leb 15 p.rows && leb 15 p.columns then some p.entry else none
