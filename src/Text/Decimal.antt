-- ===== src/Text/Decimal.antt =====
-- `str` of a natural number, which the generators print.
use infinity_autopilot.Prelude.{
  leb, ◌&&◌, ap, ◌∙◌, ℕ, zero, suc, ◌+◌, ◌*◌, ◌-◌, ◌/◌, ◌%◌, ◌≤◌, ◌≡◌, refl, [], ◌∷◌, ◌++◌, Bool,
  true, false, if◌then◌else◌, ltb, Bool-cases, inl, inr, arith,
}
use infinity_autopilot.Text.{Text}

-- The fuel is the number itself, which has fewer digits.
abbrev pub digits : ℕ → ℕ → Text
digits zero n = (b'0' + n) ∷ []
digits (suc fuel) n =
    let front = digits fuel (n / 10) in
    if ltb n 10 then (b'0' + n) ∷ [] else front ++ (b'0' + n % 10) ∷ []

unfoldable pub decimal : ℕ → Text
decimal n = digits n n

-- The number that a text of digits stands for.
abbrev pub value_from : ℕ → Text → ℕ
value_from acc [] = acc
value_from acc (c ∷ s) = value_from (acc * 10 + (c - 48)) s

abbrev pub value : Text → ℕ
value = value_from 0

value_from-snoc :
    (acc : ℕ) (s : Text) (c : ℕ) → value_from acc (s ++ c ∷ []) ≡ value_from acc s * 10 + (c - 48)
value_from-snoc acc [] c = refl
value_from-snoc acc (d ∷ s) c = value_from-snoc (acc * 10 + (d - 48)) s c

small : (n fuel : ℕ) → n ≤ suc fuel → ltb n 10 ≡ false → n / 10 ≤ fuel
small n fuel h e = ground arith

value-digits : (fuel n : ℕ) → n ≤ fuel → value (digits fuel n) ≡ n
value-digits zero n h = omega arith
value-digits (suc fuel) n h = elim (Bool-cases (ltb n 10)) [
  | inl e ↦ rw e (omega arith)
  | inr e ↦
      rw
        (
          e,
          value_from-snoc 0 (digits fuel (n / 10)) (48 + n % 10),
          value-digits fuel (n / 10) (small n fuel h e),
        )
        (omega arith)
]

-- The decimal text of a number reads back as the number.
pub value-decimal : (n : ℕ) → value (decimal n) ≡ n
unfolding decimal
value-decimal n = value-digits n n (omega arith)

abbrev pub is_digit : ℕ → Bool
is_digit c = leb 48 c && leb c 57

abbrev pub AllDigits : Text → Type 0
AllDigits [] = Unit
AllDigits (c ∷ s) = (is_digit c ≡ true) × AllDigits s

AllDigits-++ : (s t : Text) → AllDigits s → AllDigits t → AllDigits (s ++ t)
AllDigits-++ [] t hs ht = ht
AllDigits-++ (c ∷ s) t hs ht = (hs.0, AllDigits-++ s t hs.1 ht)

digits-AllDigits : (fuel n : ℕ) → n ≤ fuel → AllDigits (digits fuel n)
digits-AllDigits zero n h = (ground arith, tt)
digits-AllDigits (suc fuel) n h = elim (Bool-cases (ltb n 10)) [
  | inl e ↦ rw e (ground arith, tt)
  | inr e ↦ rw e (
      AllDigits-++ (digits fuel (n / 10)) ((48 + n % 10) ∷ [])
        (digits-AllDigits fuel (n / 10) (small n fuel h e)) (ground arith, tt))
]

pub decimal-AllDigits : (n : ℕ) → AllDigits (decimal n)
unfolding decimal
decimal-AllDigits n = digits-AllDigits n n (omega arith)

-- The number that a text starts with, continuing one that is read, and what follows.
abbrev pub number : ℕ → Text → ℕ × Text
number acc [] = (acc, [])
number acc (c ∷ s) =
    let more = number (acc * 10 + (c - 48)) s in if is_digit c then more else (acc, c ∷ s)

number-digits :
    (acc : ℕ) (t : Text) (c : ℕ) (s : Text)
    → AllDigits t
    → is_digit c ≡ false
    → number acc (t ++ c ∷ s) ≡ (value_from acc t, c ∷ s)
number-digits acc [] c s ht hc = rw hc refl
number-digits acc (d ∷ t) c s ht hc =
    rw (ht.0, number-digits (acc * 10 + (d - 48)) t c s ht.1 hc) refl

-- A decimal number is read up to what is no digit.
pub number-decimal :
    (n c : ℕ) (s : Text) → is_digit c ≡ false → number 0 (decimal n ++ c ∷ s) ≡ (n, c ∷ s)
number-decimal n c s h =
    number-digits 0 (decimal n) c s (decimal-AllDigits n) h ∙ ap (λ m. (m, c ∷ s)) (value-decimal n)
