-- ===== src/Ekf/Tabulate.antt =====
-- Matrices as functions of two indices, and the tables of their entries.
use infinity_autopilot.Prelude.{
  ℕ, zero, suc, ◌<◌, ◌≡◌, refl, ap₂, List, [], ◌∷◌, arith, ltb, if◌then◌else◌,
}
use infinity_autopilot.Ring.{Ops}
use infinity_autopilot.Ekf.Symforce.{sum}

-- The entries f 0 to f (n - 1).
abbrev pub tabulate : {A : Type 0} → ℕ → (ℕ → A) → List A
tabulate zero f = []
tabulate (suc n) f = f 0 ∷ tabulate n (λ k. f (suc k))

-- The columns of an n × n matrix.
abbrev pub columns : {A : Type 0} → ℕ → (ℕ → ℕ → A) → List (List A)
columns n f = tabulate n (λ j. tabulate n (λ i. f i j))

pub tabulate_congr :
    {A : Type 0} (n : ℕ) {f g : ℕ → A} → ((k : ℕ) → k < n → f k ≡ g k) → tabulate n f ≡ tabulate n g
tabulate_congr zero h = refl
tabulate_congr (suc n) h =
    ap₂ ◌∷◌ (h 0 (omega arith)) (tabulate_congr n (λ k l. h (suc k) (omega arith)))

pub head-eq : {A : Type 0} {x y : A} {xs ys : List A} → x ∷ xs ≡ y ∷ ys → x ≡ y
head-eq h = cc

pub tail-eq : {A : Type 0} {x y : A} {xs ys : List A} → x ∷ xs ≡ y ∷ ys → xs ≡ ys
tail-eq h = cc

pub tabulate_injective :
    {A : Type 0} (n : ℕ) (f g : ℕ → A) → tabulate n f ≡ tabulate n g → (k : ℕ) → k < n → f k ≡ g k
tabulate_injective zero f g h k l = absurd (omega arith)
tabulate_injective (suc n) f g h zero l = head-eq h
tabulate_injective (suc n) f g h (suc k) l =
    tabulate_injective n (λ i. f (suc i)) (λ i. g (suc i)) (tail-eq h) k (omega arith)

pub columns_congr :
    {A : Type 0} (n : ℕ) {f g : ℕ → ℕ → A}
    → ((i j : ℕ) → i < n → j < n → f i j ≡ g i j)
    → columns n f ≡ columns n g
columns_congr n h = tabulate_congr n λ j lj. tabulate_congr n λ i li. h i j li lj

pub columns_injective :
    {A : Type 0} (n : ℕ) (f g : ℕ → ℕ → A)
    → columns n f ≡ columns n g
    → (i j : ℕ) → i < n
    → j < n
    → f i j ≡ g i j
columns_injective n f g h i j li lj =
    tabulate_injective n (λ k. f k j) (λ k. g k j)
      (tabulate_injective n (λ l. tabulate n (λ k. f k l)) (λ l. tabulate n (λ k. g k l)) h j lj) i
      li

module _ {K : Type 0} (o : Ops K) where
  open o use {lit, ◌+◌ as ◌⊕◌, ◌*◌ as ◌⊗◌}

  pub sum_congr : (n : ℕ) {f g : ℕ → K} → ((k : ℕ) → k < n → f k ≡ g k) → sum o n f ≡ sum o n g
  sum_congr zero h = refl
  sum_congr (suc n) h = ap₂ ◌⊕◌ (sum_congr n (λ k l. h k (omega arith))) (h n (omega arith))

  -- Entry (i, j) of A M Aᵀ, where A has n columns.
  abbrev pub sandwich : ℕ → (ℕ → ℕ → K) → (ℕ → ℕ → K) → ℕ → ℕ → K
  sandwich n a m i j = sum o n (λ k. ◌⊗◌ (sum o n (λ l. ◌⊗◌ (a i l) (m l k))) (a j k))

  -- The upper triangle of A P Aᵀ + G V Gᵀ.
  abbrev pub upper_covariance : (ℕ → ℕ → K) → (ℕ → ℕ → K) → (ℕ → ℕ → K) → (ℕ → ℕ → K) → ℕ → ℕ → K
  upper_covariance a p g v i j =
      if ltb j i then lit 0 else ◌⊕◌ (sandwich 15 a p i j) (sandwich 6 g v i j)

  pub sandwich_congr :
      (n size : ℕ) {a b m l : ℕ → ℕ → K}
      → ((i j : ℕ) → i < size → j < n → a i j ≡ b i j)
      → ((i j : ℕ) → i < n → j < n → m i j ≡ l i j)
      → (i j : ℕ) → i < size
      → j < size
      → sandwich n a m i j ≡ sandwich n b l i j
  sandwich_congr n size ea em i j li lj =
      sum_congr n
        λ k lk. ap₂ ◌⊗◌ (sum_congr n (λ h lh. ap₂ ◌⊗◌ (ea i h li lh) (em h k lh lk))) (ea j k lj lk)

  pub upper_covariance_congr :
      {a b p q g h v w : ℕ → ℕ → K}
      → ((i j : ℕ) → i < 15 → j < 15 → a i j ≡ b i j)
      → ((i j : ℕ) → i < 15 → j < 15 → p i j ≡ q i j)
      → ((i j : ℕ) → i < 15 → j < 6 → g i j ≡ h i j)
      → ((i j : ℕ) → i < 6 → j < 6 → v i j ≡ w i j)
      → columns 15 (upper_covariance a p g v) ≡ columns 15 (upper_covariance b q h w)
  upper_covariance_congr ea ep eg ev = columns_congr 15 λ i j li lj.
      ap₂ (λ s t. if ltb j i then lit 0 else ◌⊕◌ s t) (sandwich_congr 15 15 ea ep i j li lj)
        (sandwich_congr 6 15 eg ev i j li lj)
