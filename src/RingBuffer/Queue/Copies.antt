-- ===== src/RingBuffer/Queue/Copies.antt =====
-- The array after the two copies of a batch.
use infinity_autopilot.Prelude.{
  ℕ, zero, suc, ◌+◌, ◌-◌, ◌≤◌, ◌<◌, ◌≡◌, refl, ap, ap₂, ◌∙◌, ◌∷◌, if◌then◌else◌, leb, arith,
}
use infinity_autopilot.RingBuffer.{range, written_range}
use infinity_autopilot.RingBuffer.Queue.{wrapped, contents}

module _ {A : Type 0} where
  pub contents-range :
      (f src : ℕ → A) (size i s n : ℕ)
      → i < size
      → n ≤ size
      → ((m : ℕ) → m < n → f (wrapped size (i + m)) ≡ src (s + m))
      → contents f size i n ≡ range src s n
  contents-range f src size i s zero hi hn h = refl
  contents-range f src size i s (suc n) hi hn h =
      ap₂ (λ x l. x ∷ l) (ap f (ground arith) ∙ h 0 (omega arith) ∙ ap src (omega arith))
        (contents-range f src size (wrapped size (suc i)) (suc s) n (ground arith) (omega arith)
          (λ m k. ap f (ground arith) ∙ h (suc m) (omega arith) ∙ ap src (omega arith)))

  pub contents_ext :
      (f g : ℕ → A) (size i n : ℕ)
      → i < size
      → n ≤ size
      → ((m : ℕ) → m < n → f (wrapped size (i + m)) ≡ g (wrapped size (i + m)))
      → contents f size i n ≡ contents g size i n
  contents_ext f g size i zero hi hn h = refl
  contents_ext f g size i (suc n) hi hn h =
      ap₂ (λ x l. x ∷ l) (ap f (ground arith) ∙ h 0 (omega arith) ∙ ap g (ground arith))
        (contents_ext f g size (wrapped size (suc i)) n (ground arith) (omega arith)
          (λ m k. ap f (ground arith) ∙ h (suc m) (omega arith) ∙ ap g (ground arith)))

  -- The array after both copies of a batch.
  abbrev pub around : (ℕ → A) → ℕ → ℕ → (ℕ → A) → ℕ → ℕ → A
  around f size head src len =
      written_range (written_range f head src (size - head)) 0 (λ j. src (size - head + j))
        (len - (size - head))

  abbrev pub batched : (ℕ → A) → ℕ → ℕ → (ℕ → A) → ℕ → ℕ → A
  batched f size head src len =
      if leb len (size - head) then written_range f head src len else around f size head src len

  pub batched-in :
      (f : ℕ → A) (size head : ℕ) (src : ℕ → A) (len m : ℕ)
      → head < size
      → len ≤ size
      → m < len
      → batched f size head src len (wrapped size (head + m)) ≡ src m
  batched-in f size head src len m hh hl hm = grind arith

  pub batched-out :
      (f : ℕ → A) (size tail count : ℕ) (src : ℕ → A) (len m : ℕ)
      → tail < size
      → count + len ≤ size
      → m < count
      → batched f size (wrapped size (tail + count)) src len (wrapped size (tail + m))
        ≡ f (wrapped size (tail + m))
  batched-out f size tail count src len m ht hl hm = grind arith
