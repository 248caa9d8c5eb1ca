-- ===== src/Ekf/Validation/Shapes.antt =====
-- When the generated functions raise an `IndexError`: the tests of shape at their heads.
use infinity_autopilot.Prelude.{
  ◌>>=◌, ℕ, ◌≡◌, refl, ap, ◌⊎◌, inl, inr, ◌↔◌, true, false, Bool-cases, List, [], ◌∷◌, Option, none,
  some, arith, ◌&&◌, ◌≤◌, leb,
}
use infinity_autopilot.Ring.{Ops}
use infinity_autopilot.Ekf.Types.{vector}
use infinity_autopilot.Ekf.Generated.Arrays.{
  NdArray, Matrix, same_shape, as_column, as_vector, as_covariance,
}
use infinity_autopilot.Ekf.Generated.PredictCovariance.{predict_covariance}

-- A flat array or a column of n entries.
abbrev pub IsColumn : {K : Type 0} → ℕ → NdArray K → Type 0
IsColumn n a = (a.shape ≡ n ∷ []) ⊎ (a.shape ≡ n ∷ 1 ∷ [])

same_shape→≡ : (s t : List ℕ) → same_shape s t ≡ true → s ≡ t
same_shape→≡ [] [] h = refl
same_shape→≡ [] (b ∷ bs) h = cc
same_shape→≡ (a ∷ as') [] h = cc
same_shape→≡ (a ∷ as') (b ∷ bs) h = ground (arith, same_shape→≡ as' bs)

same_shape_refl : (s : List ℕ) → same_shape s s ≡ true
same_shape_refl [] = refl
same_shape_refl (a ∷ as') = ground (arith, same_shape_refl as')

none≢some : {A : Type 0} {a : A} → some a ≡ none → ⊥
none≢some h = cc

-- Each array either has the shape and is read, or has not and is refused.
abbrev Decided : {K A : Type 0} → ℕ → NdArray K → Option A → Type 0
Decided {A} n a read =
    (IsColumn n a × (x : A) × (read ≡ some x)) ⊎ ((¬ IsColumn n a) × (read ≡ none))

column-cases : {K : Type 0} (n : ℕ) (a : NdArray K) → Decided n a (as_column n a)
column-cases n a = elim (Bool-cases (same_shape a.shape (n ∷ []))) [
  | inl flat ↦ inl (inl (same_shape→≡ _ _ flat), a.item, rw flat)
  | inr bent ↦ elim (Bool-cases (same_shape a.shape (n ∷ 1 ∷ []))) [
    | inl tall ↦ inl (inr (same_shape→≡ _ _ tall), a.item, rw (bent, tall))
    | inr other ↦ inr (λ c. refuted bent other c, rw (bent, other))
  ]
]
  where
    refuted :
        same_shape a.shape (n ∷ []) ≡ false
        → same_shape a.shape (n ∷ 1 ∷ []) ≡ false
        → IsColumn n a
        → ⊥
    refuted bent other (inl e) =
        cc (bent, ap (λ s. same_shape s (n ∷ [])) e, same_shape_refl (n ∷ []))
    refuted bent other (inr e) =
        cc (other, ap (λ s. same_shape s (n ∷ 1 ∷ [])) e, same_shape_refl (n ∷ 1 ∷ []))

vector-cases : {K : Type 0} (a : NdArray K) → Decided 3 a (as_vector a)
vector-cases a = elim (column-cases 3 a) [
  | inl (c, item, e) ↦ inl (c, vector (item 0) (item 1) (item 2), rw (e, ◌>>=◌))
  | inr (n, e) ↦ inr (n, rw (e, ◌>>=◌))
]

-- A matrix of 15 rows and 15 columns at least.
abbrev pub IsLarge : {K : Type 0} → Matrix K → Type 0
IsLarge p = (15 ≤ p.rows) × (15 ≤ p.columns)

covariance-cases :
    {K : Type 0} (p : Matrix K)
    → (IsLarge p × (as_covariance p ≡ some p.entry)) ⊎ ((¬ IsLarge p) × (as_covariance p ≡ none))
covariance-cases p = elim (Bool-cases (leb 15 p.rows && leb 15 p.columns)) [
  | inl e ↦ inl (ground (arith, e), rw e)
  | inr e ↦ inr (λ h. ground (arith, e, h), rw e)
]

module _ {K : Type 0} (o : Ops K) where
  -- For a two-dimensional P, the generated `predict_covariance` raises an `IndexError` exactly when
  -- the state is not of the shape (16,) or (16, 1), or one of the accelerometer's measurement, its
  -- variance and the gyroscope's measurement is not of the shape (3,) or (3, 1), or P has fewer
  -- than 15 rows or fewer than 15 columns.
  pub predict_covariance-none :
      (state accel accel_var gyro : NdArray K) (p : Matrix K) (gyro_var dt : K)
      → (predict_covariance o state p accel accel_var gyro gyro_var dt ≡ none) ↔ (
          (¬ IsColumn 16 state)
          ⊎ (¬ IsColumn 3 accel)
          ⊎ (¬ IsColumn 3 accel_var)
          ⊎ (¬ IsColumn 3 gyro)
          ⊎ (¬ IsLarge p))
  unfolding predict_covariance
  predict_covariance-none state accel accel_var gyro p gyro_var dt = elim (column-cases 16 state) [
    | inr (n, e) ↦ (λ _. inl n, λ _. rw (e, ◌>>=◌))
    | inl (c, x, e) ↦ elim (vector-cases accel) [
      | inr (n, f) ↦ (λ _. inr (inl n), λ _. rw (e, f, ◌>>=◌))
      | inl (d, y, f) ↦ elim (vector-cases accel_var) [
        | inr (n, g) ↦ (λ _. inr (inr (inl n)), λ _. rw (e, f, g, ◌>>=◌))
        | inl (k, z, g) ↦ elim (vector-cases gyro) [
          | inr (n, h) ↦ (λ _. inr (inr (inr (inl n))), λ _. rw (e, f, g, h, ◌>>=◌))
          | inl (l, w, h) ↦ elim (covariance-cases p) [
            | inr (n, q) ↦ (λ _. inr (inr (inr (inr n))), λ _. rw (e, f, g, h, q, ◌>>=◌))
            | inl (v, q) ↦ (
              λ r. absurd (none≢some (rw (e, f, g, h, q, ◌>>=◌) at r)),
              elim [
                | inl a ↦ absurd (a c)
                | inr (inl a) ↦ absurd (a d)
                | inr (inr (inl a)) ↦ absurd (a k)
                | inr (inr (inr (inl a))) ↦ absurd (a l)
                | inr (inr (inr (inr a))) ↦ absurd (a v)
              ],
            )
          ]
        ]
      ]
    ]
  ]
