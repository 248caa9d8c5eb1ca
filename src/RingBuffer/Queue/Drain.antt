-- ===== src/RingBuffer/Queue/Drain.antt =====
-- `drain` takes elements off the queue, `peek` leaves them.
use infinity_autopilot.Prelude.{
  ℕ, ◌+◌, ◌-◌, ◌≤◌, ◌≡◌, refl, ap, ap₂, sym, subst, ◌∙◌, List, [], ◌++◌, some, true, false, leb,
  ◌==◌, length, Bool-cases, inl, inr, arith,
}
use infinity_autopilot.RingBuffer.{
  RingBuffer, word, minus, remainder, copy_out, to_copy, drain, drain_all, peek,
}
use infinity_autopilot.RingBuffer.Queue.{
  wrapped, remainder_lem, word_lem, minus_lem, contents, Represents, length_lem, no_elements,
}
use infinity_autopilot.RingBuffer.Queue.Parts.{
  take, drop, take-nil, drop-nil, range-contents, contents-split, take-contents, drop-contents,
}

module _ {A : Type 0} (r : RingBuffer A) (xs : List A) (q : Represents r xs)
    (small : r.size ≤ 2147483648) where
  copy_out-contents : (k : ℕ) → k ≤ r.count → copy_out r k ≡ some (contents q.array r.size r.tail k)
  unfolding copy_out
  copy_out-contents k h = elim (Bool-cases (leb k (r.size - r.tail))) [
    | inl fits ↦
        rw (first_part, fits, q.buffer_lem, one_range fits)
          (ap some (range-contents q.array r.size r.tail k (ground arith)))
    | inr around ↦
        rw (first_part, around, q.buffer_lem, all_places, second_part around, other_range around)
          (ap some (
            ap₂ (λ a b. a ++ b)
              (range-contents q.array r.size r.tail (r.size - r.tail) (omega (arith, q.tail-lt)))
              (range-contents q.array r.size 0 (k - (r.size - r.tail)) (ground (arith, q.count-le)))
            ∙ ap
                (λ j.
                  contents q.array r.size r.tail (r.size - r.tail)
                  ++ contents q.array r.size j (k - (r.size - r.tail)))
                (ground (arith, q.tail-lt))
            ∙ sym (
                contents-split q.array r.size r.tail (r.size - r.tail) (k - (r.size - r.tail)) k
                  q.tail-lt (omega arith) (ground arith))))
  ]
    where
      first_part : minus r.size r.tail ≡ r.size - r.tail
      first_part = minus_lem r.size r.tail (omega (arith, small)) (omega (arith, q.tail-lt))

      one_range : leb k (r.size - r.tail) ≡ true → leb (r.tail + k) r.size ≡ true
      one_range e = ground (arith, q.tail-lt)

      all_places : leb (r.tail + (r.size - r.tail)) r.size ≡ true
      all_places = ground (arith, q.tail-lt)

      second_part :
          leb k (r.size - r.tail) ≡ false → minus k (r.size - r.tail) ≡ k - (r.size - r.tail)
      second_part e =
          minus_lem k (r.size - r.tail) (omega (arith, h, q.count-le, small)) (ground arith)

      other_range :
          leb k (r.size - r.tail) ≡ false → leb (0 + (k - (r.size - r.tail))) r.size ≡ true
      other_range e = ground (arith, q.count-le)

  module _ (len : ℕ) where
    copied : ℕ
    copied = to_copy len r

    copied-le : copied ≤ r.count
    unfolding copied
    copied-le = ground arith

    take_lem : contents q.array r.size r.tail copied ≡ take len xs
    unfolding copied
    take_lem =
        sym (take-contents q.array r.size r.tail len r.count (to_copy len r) refl)
        ∙ ap (take len) q.contents_lem

    drained : RingBuffer A
    drained = record r { tail = wrapped r.size (r.tail + copied); count = r.count - copied }

    drained_tail :
        remainder (word (r.tail + copied)) r.size ≡ some (wrapped r.size (r.tail + copied))
    drained_tail =
        ap (λ n. remainder n r.size)
          (word_lem (r.tail + copied) (omega (arith, copied-le, q.tail-lt, q.count-le, small)))
        ∙ remainder_lem (r.tail + copied) r.size (omega (arith, copied-le, q.tail-lt, q.count-le))

    drained-Represents : Represents drained (drop len xs)
    unfolding drained copied
    drained-Represents = record {
      array = q.array;
      buffer_lem = q.buffer_lem;
      tail-lt = ground (arith, q.tail-lt, copied-le, q.count-le);
      count-le = omega (arith, q.count-le);
      head_lem = ground (arith, q.head_lem, q.tail-lt, q.count-le, copied-le);
      contents_lem =
          sym (
            drop-contents q.array r.size r.tail len r.count (to_copy len r) refl q.tail-lt
              (omega (arith, copied-le, q.count-le)))
          ∙ ap (drop len) q.contents_lem;
    }

    drain-some :
        (r.count == 0) ≡ false → drain len r ≡ some (drained, contents q.array r.size r.tail copied)
    unfolding drain drained copied
    drain-some e =
        rw
          (
            e,
            copy_out-contents (to_copy len r) copied-le,
            drained_tail,
            minus_lem r.count (to_copy len r) (omega (arith, q.count-le, small)) copied-le,
          )
          refl

    drain-none : (r.count == 0) ≡ true → drain len r ≡ some (r, [])
    unfolding drain
    drain-none e = rw e refl

    nothing_taken : (r.count == 0) ≡ true → [] ≡ take len xs
    nothing_taken e = sym (take-nil len) ∙ ap (take len) (no_elements r xs q small e)

    all_left : (r.count == 0) ≡ true → Represents r (drop len xs)
    all_left e =
        subst (Represents r)
          (sym (no_elements r xs q small e)
            ∙ sym (drop-nil len)
            ∙ ap (drop len) (no_elements r xs q small e))
          q

    -- `drain` on a buffer of at most 2³¹ places takes the first `len` elements off the queue, or all
    -- if they are fewer.
    pub drain-Represents :
        (r' : RingBuffer A) × (drain len r ≡ some (r', take len xs))
        × (r'.size ≡ r.size)
        × Represents r' (drop len xs)
    unfolding drained
    drain-Represents = elim (Bool-cases (r.count == 0)) [
      | inl e ↦ (r, drain-none e ∙ ap (λ l. some (r, l)) (nothing_taken e), refl, all_left e)
      | inr e ↦
          (drained, drain-some e ∙ ap (λ l. some (drained, l)) take_lem, refl, drained-Represents)
    ]

    -- `peek` on a buffer of at most 2³¹ places shows what `drain` would take.
    pub peek-take : peek len r ≡ some (take len xs)
    unfolding peek copied
    peek-take = elim (Bool-cases (r.count == 0)) [
      | inl e ↦ rw e (ap some (nothing_taken e))
      | inr e ↦ rw e (copy_out-contents (to_copy len r) copied-le ∙ ap some take_lem)
    ]

    drain_all-drained :
        (r.count == 0) ≡ false
        → drain_all len r
          ≡ some (drained, contents q.array r.size r.tail copied, leb (length xs) len)
    unfolding drain_all drained copied
    drain_all-drained e =
        rw
          (
            e,
            copy_out-contents (to_copy len r) copied-le,
            drained_tail,
            minus_lem r.count (to_copy len r) (omega (arith, q.count-le, small)) copied-le,
            length_lem r xs q small,
          )
          (ap
            (λ b. some (
              record r {
                tail = wrapped r.size (r.tail + to_copy len r);
                count = r.count - to_copy len r;
              },
              contents q.array r.size r.tail (to_copy len r),
              b,
            ))
            flag)
      where
        flag : (r.count - to_copy len r == 0) ≡ leb r.count len
        flag = ground arith

    drain_all-none : (r.count == 0) ≡ true → drain_all len r ≡ some (r, [], true)
    unfolding drain_all
    drain_all-none e = rw e refl

    -- `drain_all` on a buffer of at most 2³¹ places takes the first `max_len` elements, or all, and
    -- returns whether these were all.
    pub drain_all-Represents :
        (r' : RingBuffer A) × (drain_all len r ≡ some (r', take len xs, leb (length xs) len))
        × (r'.size ≡ r.size)
        × Represents r' (drop len xs)
    unfolding drained
    drain_all-Represents = elim (Bool-cases (r.count == 0)) [
      | inl e ↦ (
        r,
        drain_all-none e
            ∙ ap₂ (λ l b. some (r, l, b)) (nothing_taken e)
                (ground (arith, length_lem r xs q small)),
        refl,
        all_left e,
      )
      | inr e ↦ (
        drained,
        drain_all-drained e ∙ ap (λ l. some (drained, l, leb (length xs) len)) take_lem,
        refl,
        drained-Represents,
      )
    ]
