-- ===== src/RingBuffer/Queue.antt =====
-- The ring buffer as a queue.
use infinity_autopilot.Prelude.{
  ℕ, zero, suc, ◌+◌, ◌-◌, ◌%◌, ◌≤◌, ◌<◌, ◌≡◌, refl, ap, ap₂, sym, subst, ◌∙◌, List, [], ◌∷◌, ◌++◌,
  Option, none, some, ◌>>=◌, Bool, true, false, if◌then◌else◌, ltb, leb, ◌==◌, length, Bool-cases,
  inl, inr, arith,
}
use native.Mathlib.Nat.{mod-eq_of_lt, add-mod_right}
use infinity_autopilot.RingBuffer.{
  RingBuffer, word, minus, remainder, load, store, updated, pop, push,
}
pub mod Push
pub mod Pop
pub mod Parts
pub mod Drain
pub mod Copies
pub mod Batch
pub mod Undefined

-- The place after the last is the first.
abbrev pub wrapped : ℕ → ℕ → ℕ
wrapped size i = if ltb i size then i else i - size

remainder_lem : (i size : ℕ) → i < size + size → remainder i size ≡ some (wrapped size i)
remainder_lem i size h = elim (Bool-cases (ltb i size)) [
  | inl below ↦ by_mod i (mod-eq_of_lt (ground arith)) (ground arith)
  | inr above ↦
      by_mod (i - size)
        (ap (λ k. k % size) (omega (arith, above_le above))
          ∙ add-mod_right (i - size) size
          ∙ mod-eq_of_lt (omega (arith, above_le above)))
        (ground arith)
]
  where
    above_le : ltb i size ≡ false → size ≤ i
    above_le e = ground arith

    by_mod : (k : ℕ) → i % size ≡ k → k ≡ wrapped size i → remainder i size ≡ some (wrapped size i)
    by_mod k e f = elim (Bool-cases (size == 0)) [
      | inl z ↦ absurd (ground arith)
      | inr n ↦ rw n (ap some (e ∙ f))
    ]

word_lem : (n : ℕ) → n < 4294967296 → word n ≡ n
word_lem n h = omega arith

minus_lem : (a b : ℕ) → a < 4294967296 → b ≤ a → minus a b ≡ a - b
minus_lem a b h k = omega arith

next_lem :
    (i size : ℕ)
    → i < size
    → size ≤ 2147483648
    → remainder (word (i + 1)) size ≡ some (wrapped size (suc i))
next_lem i size h k =
    ap (λ n. remainder n size) (word_lem (i + 1) (omega arith) ∙ plus_one i)
    ∙ remainder_lem (suc i) size (omega arith)
  where
    plus_one : (i : ℕ) → i + 1 ≡ suc i
    plus_one i = omega arith

module _ {A : Type 0} where
  -- The elements from a place on, around the end.
  abbrev pub contents : (ℕ → A) → ℕ → ℕ → ℕ → List A
  contents buffer size i zero = []
  contents buffer size i (suc n) = buffer i ∷ contents buffer size (wrapped size (suc i)) n

  contents-snoc :
      (buffer : ℕ → A) (size i n : ℕ)
      → i < size
      → n < size
      → contents buffer size i (suc n)
        ≡ contents buffer size i n ++ buffer (wrapped size (i + n)) ∷ []
  contents-snoc buffer size i zero h k = ap (λ j. buffer j ∷ []) (ground arith)
  contents-snoc buffer size i (suc n) h k =
      ap (λ l. buffer i ∷ l)
        (contents-snoc buffer size (wrapped size (suc i)) n (ground arith) (omega arith)
          ∙ ap (λ j. contents buffer size (wrapped size (suc i)) n ++ buffer j ∷ []) (ground arith))

  -- A place outside the elements does not matter.
  contents-updated :
      (buffer : ℕ → A) (size i n j : ℕ) (x : A)
      → i < size
      → j < size
      → n < size
      → j ≡ wrapped size (i + n)
      → contents (updated buffer j x) size i n ≡ contents buffer size i n
  contents-updated buffer size i zero j x hi hj hn e = refl
  contents-updated buffer size i (suc n) j x hi hj hn e =
      ap₂ (λ y l. y ∷ l) (unchanged (ground arith))
        (contents-updated buffer size (wrapped size (suc i)) n j x (ground arith) hj (omega arith)
          (ground arith))
    where
      unchanged : (i == j) ≡ false → updated buffer j x i ≡ buffer i
      unchanged h = rw h refl

  -- The buffer holds the queue's elements.
  pub record Represents (r : RingBuffer A) (xs : List A) : Type 0 where
    pub array : ℕ → A
    pub buffer_lem : r.buffer ≡ some array
    pub tail-lt : r.tail < r.size
    pub count-le : r.count ≤ r.size
    pub head_lem : r.head ≡ wrapped r.size (r.tail + r.count)
    pub contents_lem : contents array r.size r.tail r.count ≡ xs

  updated-same : (buffer : ℕ → A) (i : ℕ) (x : A) → updated buffer i x i ≡ x
  updated-same buffer i x = rw (same i) refl
    where
      same : (i : ℕ) → (i == i) ≡ true
      same i = ground arith

  abbrev pub first : List A → Option A
  first [] = none
  first (x ∷ xs) = some x

  -- Without the first.
  abbrev pub behind : List A → List A
  behind [] = []
  behind (x ∷ xs) = xs

  contents-room :
      (buffer : ℕ → A) (size i n : ℕ) (x : A)
      → i < size
      → n < size
      → contents (updated buffer (wrapped size (i + n)) x) size i (suc n)
        ≡ contents buffer size i n ++ x ∷ []
  contents-room buffer size i n x hi hn =
      let j : ℕ = wrapped size (i + n) in
      contents-snoc (updated buffer j x) size i n hi hn
      ∙ ap₂ (λ l y. l ++ y ∷ []) (contents-updated buffer size i n j x hi (ground arith) hn refl)
          (updated-same buffer j x)

  contents-full :
      (buffer : ℕ → A) (size i m : ℕ) (x : A)
      → i < size
      → size ≡ suc m
      → contents (updated buffer i x) size (wrapped size (suc i)) (suc m)
        ≡ behind (contents buffer size i (suc m) ++ x ∷ [])
  contents-full buffer size i m x hi e =
      let i' : ℕ = wrapped size (suc i) in
      contents-snoc (updated buffer i x) size i' m (ground arith) (omega arith)
      ∙ ap₂ (λ l y. l ++ y ∷ [])
          (contents-updated buffer size i' m i x (ground arith) hi (omega arith) (ground arith))
          (ap (updated buffer i x) (ground arith) ∙ updated-same buffer i x)

  length-contents : (buffer : ℕ → A) (size i n : ℕ) → length (contents buffer size i n) ≡ n
  length-contents buffer size i zero = refl
  length-contents buffer size i (suc n) =
      ap suc (length-contents buffer size (wrapped size (suc i)) n)

  -- A full queue loses its first element.
  abbrev pub enqueue : ℕ → A → List A → List A
  enqueue size x xs = if length xs == size then behind (xs ++ x ∷ []) else xs ++ x ∷ []

  module _ (r : RingBuffer A) (xs : List A) (q : Represents r xs)
      (small : r.size ≤ 2147483648) where
    head-lt : ltb r.head r.size ≡ true
    head-lt = ground (arith, q.head_lem, q.tail-lt, q.count-le)

    length_lem : length xs ≡ r.count
    length_lem = ap length (sym q.contents_lem) ∙ length-contents q.array r.size r.tail r.count

    next_tail : remainder (word (r.tail + 1)) r.size ≡ some (wrapped r.size (suc r.tail))
    next_tail = next_lem r.tail r.size q.tail-lt small

    next_head : remainder (word (r.head + 1)) r.size ≡ some (wrapped r.size (suc r.head))
    next_head = next_lem r.head r.size (ground (arith, head-lt)) small

    zero_count : (r.count == 0) ≡ true → 0 ≡ r.count
    zero_count e = ground arith

    no_elements : (r.count == 0) ≡ true → [] ≡ xs
    no_elements e = ap (contents q.array r.size r.tail) (zero_count e) ∙ q.contents_lem
