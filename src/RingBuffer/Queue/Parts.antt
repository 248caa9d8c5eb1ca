-- ===== src/RingBuffer/Queue/Parts.antt =====
-- Parts of what the array holds.
use infinity_autopilot.Prelude.{
  ℕ, zero, suc, ◌+◌, ◌-◌, ◌≤◌, ◌<◌, ◌≡◌, refl, ap, ap₂, ◌∙◌, List, [], ◌∷◌, ◌++◌, if◌then◌else◌,
  ltb, arith,
}
use infinity_autopilot.RingBuffer.{range}
use infinity_autopilot.RingBuffer.Queue.{wrapped, contents}

module _ {A : Type 0} where
  abbrev pub take : ℕ → List A → List A
  take zero xs = []
  take (suc n) [] = []
  take (suc n) (x ∷ xs) = x ∷ take n xs

  abbrev pub drop : ℕ → List A → List A
  drop zero xs = xs
  drop (suc n) [] = []
  drop (suc n) (x ∷ xs) = drop n xs

  pub take-nil : (n : ℕ) → take n [] ≡ []
  take-nil zero = refl
  take-nil (suc n) = refl

  pub drop-nil : (n : ℕ) → drop n [] ≡ []
  drop-nil zero = refl
  drop-nil (suc n) = refl

  pub range-contents :
      (buffer : ℕ → A) (size i n : ℕ) → i + n ≤ size → range buffer i n ≡ contents buffer size i n
  range-contents buffer size i zero h = refl
  range-contents buffer size i (suc zero) h = refl
  range-contents buffer size i (suc (suc n)) h =
      ap (λ l. buffer i ∷ l)
        (range-contents buffer size (suc i) (suc n) (omega arith)
          ∙ ap (λ j. contents buffer size j (suc n)) (ground arith))

  pub contents-split :
      (buffer : ℕ → A) (size i a b n : ℕ)
      → i < size
      → a ≤ size
      → n ≡ a + b
      → contents buffer size i n
        ≡ contents buffer size i a ++ contents buffer size (wrapped size (i + a)) b
  contents-split buffer size i zero b n hi ha e =
      ap₂ (contents buffer size) (ground arith) (omega arith)
  contents-split buffer size i (suc a) b zero hi ha e = absurd (omega arith)
  contents-split buffer size i (suc a) b (suc n) hi ha e =
      ap (λ l. buffer i ∷ l)
        (contents-split buffer size (wrapped size (suc i)) a b n (ground arith) (omega arith)
            (omega arith)
          ∙ ap (λ j. contents buffer size (wrapped size (suc i)) a ++ contents buffer size j b)
              (ground arith))

  pub take-contents :
      (buffer : ℕ → A) (size i len n k : ℕ)
      → k ≡ (if ltb len n then len else n)
      → take len (contents buffer size i n) ≡ contents buffer size i k
  take-contents buffer size i zero n zero e = refl
  take-contents buffer size i zero n (suc k) e = absurd (ground arith)
  take-contents buffer size i (suc len) zero zero e = refl
  take-contents buffer size i (suc len) zero (suc k) e = absurd (ground arith)
  take-contents buffer size i (suc len) (suc n) zero e = absurd (ground arith)
  take-contents buffer size i (suc len) (suc n) (suc k) e =
      ap (λ l. buffer i ∷ l)
        (take-contents buffer size (wrapped size (suc i)) len n k (ground arith))

  pub drop-contents :
      (buffer : ℕ → A) (size i len n k : ℕ)
      → k ≡ (if ltb len n then len else n)
      → i < size
      → k ≤ size
      → drop len (contents buffer size i n) ≡ contents buffer size (wrapped size (i + k)) (n - k)
  drop-contents buffer size i zero n zero e hi hk =
      ap₂ (contents buffer size) (ground arith) (omega arith)
  drop-contents buffer size i zero n (suc k) e hi hk = absurd (ground arith)
  drop-contents buffer size i (suc len) zero zero e hi hk = refl
  drop-contents buffer size i (suc len) zero (suc k) e hi hk = absurd (ground arith)
  drop-contents buffer size i (suc len) (suc n) zero e hi hk = absurd (ground arith)
  drop-contents buffer size i (suc len) (suc n) (suc k) e hi hk =
      drop-contents buffer size (wrapped size (suc i)) len n k (ground arith) (ground arith)
        (omega arith)
      ∙ ap₂ (contents buffer size) (ground arith) (omega arith)
