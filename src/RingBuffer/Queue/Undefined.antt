-- ===== src/RingBuffer/Queue/Undefined.antt =====
-- Calls of the ring buffer whose behaviour is undefined.
use infinity_autopilot.Prelude.{
  ℕ, ◌+◌, ◌-◌, ◌%◌, ◌≤◌, ◌<◌, ◌≡◌, refl, ap, ◌∙◌, List, none, some, ◌>>=◌, Bool, true, false, ltb,
  leb, ◌==◌, Bool-cases, inl, inr, arith,
}
use infinity_autopilot.RingBuffer.{
  RingBuffer, word, minus, remainder, copy_in, counted, pop, push_batch, allocate, deallocate,
  reallocate,
}
use infinity_autopilot.RingBuffer.Queue.{minus_lem, Represents}

module _ {A : Type 0} (r : RingBuffer A) (xs : List A) (q : Represents r xs)
    (small : r.size ≤ 2147483648) (src : ℕ → A) (len : ℕ) (word_len : len < 4294967296) where
  remainder-some : (a : ℕ) → (t : ℕ) × (remainder a r.size ≡ some t)
  remainder-some a = elim (Bool-cases (r.size == 0)) [
    | inl e ↦ absurd (ground (arith, q.tail-lt))
    | inr e ↦ (a % r.size, rw e refl)
  ]

  copy_in-overrun :
      (r' : RingBuffer A)
      → r'.buffer ≡ some q.array
      → r'.size ≡ r.size
      → r'.head ≡ r.head
      → r.size + (r.size - r.head) < len
      → copy_in src len r' ≡ none
  copy_in-overrun r' eb es eh long =
      rw (es, eh, first_part, around, eb, all_places, second_part, other_range) refl
    where
      head_in : r.head < r.size
      head_in = ground (arith, q.head_lem, q.tail-lt, q.count-le)

      first_part : minus r.size r.head ≡ r.size - r.head
      first_part = minus_lem r.size r.head (omega (arith, small)) (omega (arith, head_in))

      around : leb len (r.size - r.head) ≡ false
      around = ground (arith, long)

      all_places : leb (r.head + (r.size - r.head)) r.size ≡ true
      all_places = ground (arith, head_in)

      second_part : minus len (r.size - r.head) ≡ len - (r.size - r.head)
      second_part = minus_lem len (r.size - r.head) word_len (omega (arith, long))

      other_range : leb (0 + (len - (r.size - r.head))) r.size ≡ false
      other_range = ground (arith, long)

  -- A batch that is longer than the places of the array and those from the head on together, and
  -- whose length fits a word, is written past the end of the array, whatever elements the buffer of
  -- at most 2³¹ places holds.
  pub push_batch-overrun : r.size + (r.size - r.head) < len → push_batch (some src) len r ≡ none
  unfolding push_batch
  push_batch-overrun long =
      let (tail, e) = remainder-some (word (r.tail + minus len (minus r.size r.count))) in
      rw (not_empty, no_room, e)
        (ap (λ o. o >>= counted len)
          (copy_in-overrun
            (record r { tail = tail; count = minus r.count (minus len (minus r.size r.count)) })
            q.buffer_lem refl refl long))
    where
      not_empty : (len == 0) ≡ false
      not_empty = ground (arith, long)

      no_room : ltb (minus r.size r.count) len ≡ true
      no_room =
          rw (minus_lem r.size r.count (omega (arith, small)) q.count-le) (ground (arith, long))

module _ {A : Type 0} (r : RingBuffer A) (xs : List A) (q : Represents r xs) (initial : A)
    (new_size : ℕ) where
  emptied : RingBuffer A
  emptied = record r { buffer = none; size = 0 }

  deallocate-emptied : deallocate r ≡ emptied
  unfolding emptied
  deallocate-emptied = rw q.buffer_lem refl

  pop-emptied : (n : ℕ) → (r.count == 0) ≡ false → pop (record emptied { size = n }) ≡ none
  unfolding pop emptied
  pop-emptied n e = rw e refl

  -- When `reallocate` finds no memory, the next `pop` on a buffer that held elements reads through the
  -- null pointer: the count of the elements is left as it was.
  pub pop-reallocate : (r.count == 0) ≡ false → pop (reallocate initial false new_size r).0 ≡ none
  unfolding reallocate allocate emptied
  pop-reallocate e =
      ap (λ d. pop (allocate initial false new_size d).0) deallocate-emptied
      ∙ by_size (new_size == 0) refl
    where
      by_size :
          (b : Bool) → (new_size == 0) ≡ b → pop (allocate initial false new_size emptied).0 ≡ none
      by_size true h = rw h (pop-emptied 0 e)
      by_size false h = rw h (pop-emptied 0 e)
