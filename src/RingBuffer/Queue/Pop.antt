-- ===== src/RingBuffer/Queue/Pop.antt =====
-- `pop` takes the first element off the queue.
use infinity_autopilot.Prelude.{
  suc, ◌-◌, ◌≤◌, ◌≡◌, refl, ap, sym, subst, ◌∙◌, List, ◌∷◌, none, some, true, false, ltb, ◌==◌,
  Bool-cases, inl, inr, arith,
}
use infinity_autopilot.RingBuffer.{RingBuffer, minus, pop}
use infinity_autopilot.RingBuffer.Queue.{
  wrapped, contents, Represents, behind, first, next_tail, no_elements,
}

module _ {A : Type 0} (r : RingBuffer A) (xs : List A) (q : Represents r xs)
    (small : r.size ≤ 2147483648) where
  popped : RingBuffer A
  popped = record r { tail = wrapped r.size (suc r.tail); count = r.count - 1 }

  some_count : (r.count == 0) ≡ false → r.count ≡ suc (r.count - 1)
  some_count e = ground arith

  contents_behind :
      (r.count == 0) ≡ false
      → xs ≡ q.array r.tail ∷ contents q.array r.size (wrapped r.size (suc r.tail)) (r.count - 1)
  contents_behind some_element =
      sym q.contents_lem ∙ ap (contents q.array r.size r.tail) (some_count some_element)

  tail_in : ltb r.tail r.size ≡ true
  tail_in = ground (arith, q.tail-lt)

  count_minus : (r.count == 0) ≡ false → minus r.count 1 ≡ r.count - 1
  count_minus e = ground (arith, q.count-le)

  pop-some : (r.count == 0) ≡ false → pop r ≡ some (popped, some (q.array r.tail))
  unfolding pop popped
  pop-some e = rw (e, q.buffer_lem, tail_in, next_tail r xs q small, count_minus e) refl

  popped-Represents : (r.count == 0) ≡ false → Represents popped (behind xs)
  unfolding popped
  popped-Represents e = record {
    array = q.array;
    buffer_lem = q.buffer_lem;
    tail-lt = ground (arith, q.tail-lt);
    count-le = omega (arith, q.count-le);
    head_lem = ground (arith, q.head_lem, q.tail-lt, q.count-le, e);
    contents_lem = sym (ap behind (contents_behind e));
  }

  pop-none : (r.count == 0) ≡ true → pop r ≡ some (r, none)
  unfolding pop
  pop-none e = rw e refl

  -- `pop` on a buffer of at most 2³¹ places takes the first element off the queue, or returns that
  -- there is none.
  pub pop-Represents :
      (r' : RingBuffer A) × (pop r ≡ some (r', first xs))
      × (r'.size ≡ r.size)
      × Represents r' (behind xs)
  unfolding popped
  pop-Represents = elim (Bool-cases (r.count == 0)) [
    | inl e ↦ (
      r,
      pop-none e ∙ ap (λ l. some (r, first l)) (no_elements r xs q small e),
      refl,
      subst (Represents r)
          (sym (no_elements r xs q small e) ∙ ap behind (no_elements r xs q small e)) q,
    )
    | inr e ↦ (
      popped,
      pop-some e ∙ ap (λ l. some (popped, first l)) (sym (contents_behind e)),
      refl,
      popped-Represents e,
    )
  ]
