-- ===== src/RingBuffer/Queue/Batch.antt =====
-- `push_batch` puts elements at the end of the queue.
use infinity_autopilot.Prelude.{
  ℕ, ◌+◌, ◌-◌, ◌≤◌, ◌<◌, ◌≡◌, refl, ap, ap₂, sym, subst, ◌∙◌, List, ◌++◌, some, true, false, ltb,
  leb, ◌==◌, length, append-nil, Bool-cases, inl, inr, arith,
}
use infinity_autopilot.RingBuffer.{
  RingBuffer, word, minus, remainder, range, advanced, copy_in, counted, push_batch,
}
use infinity_autopilot.RingBuffer.Queue.{
  wrapped, remainder_lem, word_lem, minus_lem, contents, Represents, head-lt, length_lem,
}
use infinity_autopilot.RingBuffer.Queue.Parts.{drop, contents-split, drop-contents}
use infinity_autopilot.RingBuffer.Queue.Copies.{
  contents-range, contents_ext, batched, batched-in, batched-out,
}

module _ {A : Type 0} (r : RingBuffer A) (xs : List A) (q : Represents r xs)
    (small : r.size ≤ 2147483648) (src : ℕ → A) (len : ℕ) (enough : len ≤ r.size) where
  -- How many elements are dropped.
  lost : ℕ
  lost = r.count + len - r.size

  lost_def : lost ≡ r.count + len - r.size
  unfolding lost
  lost_def = refl

  lost-le : lost ≤ r.count
  unfolding lost
  lost-le = omega (arith, enough)

  room : RingBuffer A
  room = record r { tail = wrapped r.size (r.tail + lost); count = r.count - lost }

  free_space : minus r.size r.count ≡ r.size - r.count
  free_space = minus_lem r.size r.count (omega (arith, small)) q.count-le

  lost_lem : ltb (r.size - r.count) len ≡ true → minus len (r.size - r.count) ≡ lost
  unfolding lost
  lost_lem e =
      minus_lem len (r.size - r.count) (omega (arith, enough, small)) (ground arith)
      ∙ ground (arith, q.count-le)

  lost_tail : remainder (word (r.tail + lost)) r.size ≡ some (wrapped r.size (r.tail + lost))
  lost_tail =
      ap (λ n. remainder n r.size)
        (word_lem (r.tail + lost) (omega (arith, lost-le, q.tail-lt, q.count-le, small)))
      ∙ remainder_lem (r.tail + lost) r.size (omega (arith, lost-le, q.tail-lt, q.count-le))

  fits : r.count - lost + len ≤ r.size
  fits = omega (arith, lost_def, q.count-le, enough)

  advanced-room : advanced len r ≡ some room
  unfolding room
  advanced-room = elim (Bool-cases (ltb (r.size - r.count) len)) [
    | inl e ↦
        rw
          (
            free_space,
            e,
            lost_lem e,
            lost_tail,
            minus_lem r.count lost (omega (arith, q.count-le, small)) lost-le,
          )
          refl
    | inr e ↦
        rw (free_space, e)
          (ap₂ (λ t c. some (record r { tail = t; count = c })) (same_tail e) (same_count e))
  ]
    where
      same_tail : ltb (r.size - r.count) len ≡ false → r.tail ≡ wrapped r.size (r.tail + lost)
      same_tail e = ground (arith, lost_def, q.tail-lt, q.count-le)

      same_count : ltb (r.size - r.count) len ≡ false → r.count ≡ r.count - lost
      same_count e = ground (arith, lost_def, q.count-le)

  stored : RingBuffer A
  stored = record room { buffer = some (batched q.array r.size r.head src len) }

  copy_in-stored : copy_in src len room ≡ some stored
  unfolding stored room
  copy_in-stored = elim (Bool-cases (leb len (r.size - r.head))) [
    | inl e ↦ rw (first_part, e, q.buffer_lem, one_range e) refl
    | inr e ↦ rw (first_part, e, q.buffer_lem, all_places, second_part e, other_range e) refl
  ]
    where
      head_in : r.head < r.size
      head_in = ground (arith, head-lt r xs q small)

      first_part : minus r.size r.head ≡ r.size - r.head
      first_part = minus_lem r.size r.head (omega (arith, small)) (omega (arith, head_in))

      one_range : leb len (r.size - r.head) ≡ true → leb (r.head + len) r.size ≡ true
      one_range e = ground (arith, head_in)

      all_places : leb (r.head + (r.size - r.head)) r.size ≡ true
      all_places = ground (arith, head_in)

      second_part :
          leb len (r.size - r.head) ≡ false → minus len (r.size - r.head) ≡ len - (r.size - r.head)
      second_part e = minus_lem len (r.size - r.head) (omega (arith, enough, small)) (ground arith)

      other_range :
          leb len (r.size - r.head) ≡ false → leb (0 + (len - (r.size - r.head))) r.size ≡ true
      other_range e = ground (arith, enough)

  finished : RingBuffer A
  finished = record stored { head = wrapped r.size (r.head + len); count = r.count - lost + len }

  counted-finished : counted len stored ≡ some finished
  unfolding finished stored room
  counted-finished =
      rw (finished_head, word_lem (r.count - lost + len) (omega (arith, fits, small))) refl
    where
      finished_head : remainder (word (r.head + len)) r.size ≡ some (wrapped r.size (r.head + len))
      finished_head =
          ap (λ n. remainder n r.size)
            (word_lem (r.head + len) (ground (arith, head-lt r xs q small, enough, small)))
          ∙ remainder_lem (r.head + len) r.size (ground (arith, head-lt r xs q small, enough))

  finished-Represents : Represents finished (drop lost xs ++ range src 0 len)
  unfolding finished stored room
  finished-Represents = record {
    array = batched q.array r.size r.head src len;
    buffer_lem = refl;
    tail-lt = ground (arith, q.tail-lt, lost-le, q.count-le);
    count-le = fits;
    head_lem = ground (arith, q.head_lem, q.tail-lt, q.count-le, lost-le, enough, fits);
    contents_lem =
        ap (λ h. contents (batched q.array r.size h src len) r.size tail' (r.count - lost + len))
          same_place
        ∙ contents-split array' r.size tail' (r.count - lost) len (r.count - lost + len) tail'_in
            (omega (arith, q.count-le)) refl
        ∙ ap₂ (λ a b. a ++ b) old_elements new_elements;
  }
    where
      tail' : ℕ
      tail' = wrapped r.size (r.tail + lost)

      tail'_in : tail' < r.size
      tail'_in = ground (arith, q.tail-lt, lost-le, q.count-le)

      head' : ℕ
      head' = wrapped r.size (tail' + (r.count - lost))

      same_place : r.head ≡ head'
      same_place = ground (arith, q.head_lem, q.tail-lt, q.count-le, lost-le)

      array' : ℕ → A
      array' = batched q.array r.size head' src len

      old_elements : contents array' r.size tail' (r.count - lost) ≡ drop lost xs
      old_elements =
          contents_ext array' q.array r.size tail' (r.count - lost) tail'_in
            (omega (arith, q.count-le))
            (λ m k. batched-out q.array r.size tail' (r.count - lost) src len m tail'_in fits k)
          ∙ sym (
              drop-contents q.array r.size r.tail lost r.count lost (ground (arith, lost-le))
                q.tail-lt (omega (arith, lost-le, q.count-le)))
          ∙ ap (drop lost) q.contents_lem

      new_elements : contents array' r.size head' len ≡ range src 0 len
      new_elements =
          contents-range array' src r.size head' 0 len (ground (arith, tail'_in, fits)) enough
            (λ m k.
              batched-in q.array r.size head' src len m (ground (arith, tail'_in, fits)) enough k
              ∙ ap src (omega arith))

  push_batch-finished : (len == 0) ≡ false → push_batch (some src) len r ≡ some finished
  unfolding push_batch
  push_batch-finished e = rw (e, advanced-room, copy_in-stored) counted-finished

  push_batch-none : (len == 0) ≡ true → push_batch (some src) len r ≡ some r
  unfolding push_batch
  push_batch-none e = rw e refl

  same_queue : (len == 0) ≡ true → xs ≡ drop lost xs ++ range src 0 len
  same_queue e = sym (append-nil xs) ∙ ap₂ (λ k n. drop k xs ++ range src 0 n) none_lost none_new
    where
      none_lost : 0 ≡ lost
      none_lost = ground (arith, lost_def, q.count-le)

      none_new : 0 ≡ len
      none_new = ground arith

  -- `push_batch` of at most as many elements as there are places, which are at most 2³¹, puts them at
  -- the end of the queue, and drops as many first elements as have no room.
  pub push_batch-Represents :
      (r' : RingBuffer A) × (push_batch (some src) len r ≡ some r')
      × (r'.size ≡ r.size)
      × Represents r' (drop (length xs + len - r.size) xs ++ range src 0 len)
  unfolding finished stored room lost
  push_batch-Represents = elim (Bool-cases (len == 0)) [
    | inl e ↦ (
      r,
      push_batch-none e,
      refl,
      rw (length_lem r xs q small) (subst (Represents r) (same_queue e) q),
    )
    | inr e ↦
        (finished, push_batch-finished e, refl, rw (length_lem r xs q small) finished-Represents)
  ]
