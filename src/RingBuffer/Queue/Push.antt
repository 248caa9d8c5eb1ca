-- ===== src/RingBuffer/Queue/Push.antt =====
-- `push` puts an element at the end of the queue.
use infinity_autopilot.Prelude.{
  suc, ◌+◌, ◌-◌, ◌≤◌, ◌≡◌, refl, ap, ap₂, sym, ◌∙◌, List, [], ◌∷◌, ◌++◌, some, true, false, ◌==◌,
  Bool-cases, inl, inr, arith,
}
use infinity_autopilot.RingBuffer.{RingBuffer, word, updated, push}
use infinity_autopilot.RingBuffer.Queue.{
  wrapped, contents, contents-room, contents-full, Represents, enqueue, behind, head-lt, length_lem,
  next_tail, next_head,
}

module _ {A : Type 0} (r : RingBuffer A) (xs : List A) (q : Represents r xs)
    (small : r.size ≤ 2147483648) where
  pushed_full : A → RingBuffer A
  pushed_full x = record r {
    buffer = some (updated q.array r.head x);
    head = wrapped r.size (suc r.head);
    tail = wrapped r.size (suc r.tail);
  }

  push-full : (x : A) → (r.count == r.size) ≡ true → push x r ≡ some (pushed_full x)
  unfolding push pushed_full
  push-full x full =
      rw (q.buffer_lem, head-lt r xs q small, next_head r xs q small, full, next_tail r xs q small)
        refl

  pushed_full-Represents :
      (x : A) → (r.count == r.size) ≡ true → Represents (pushed_full x) (behind (xs ++ x ∷ []))
  unfolding pushed_full
  pushed_full-Represents x full = record {
    array = updated q.array r.head x;
    buffer_lem = refl;
    tail-lt = ground (arith, q.tail-lt);
    count-le = q.count-le;
    head_lem = ground (arith, q.head_lem, q.tail-lt, full);
    contents_lem =
        ap₂ (λ h n. contents (updated q.array h x) r.size (wrapped r.size (suc r.tail)) n)
          (ground (arith, q.head_lem, q.tail-lt, full)) some_element
        ∙ contents-full q.array r.size r.tail (r.count - 1) x q.tail-lt
            (ground (arith, full, q.tail-lt))
        ∙ ap (λ l. behind (l ++ x ∷ []))
            (ap (contents q.array r.size r.tail) (sym some_element) ∙ q.contents_lem);
  }
    where
      some_element : r.count ≡ suc (r.count - 1)
      some_element = ground (arith, full, q.tail-lt)

  pushed_room : A → RingBuffer A
  pushed_room x = record r {
    buffer = some (updated q.array r.head x);
    head = wrapped r.size (suc r.head);
    count = suc r.count;
  }

  count_plus : (r.count == r.size) ≡ false → word (r.count + 1) ≡ suc r.count
  count_plus room = ground (arith, room, q.count-le)

  push-room : (x : A) → (r.count == r.size) ≡ false → push x r ≡ some (pushed_room x)
  unfolding push pushed_room
  push-room x room =
      rw (q.buffer_lem, head-lt r xs q small, next_head r xs q small, room, count_plus room) refl

  pushed_room-Represents :
      (x : A) → (r.count == r.size) ≡ false → Represents (pushed_room x) (xs ++ x ∷ [])
  unfolding pushed_room
  pushed_room-Represents x room = record {
    array = updated q.array r.head x;
    buffer_lem = refl;
    tail-lt = q.tail-lt;
    count-le = ground (arith, q.count-le, room);
    head_lem = ground (arith, q.head_lem, q.tail-lt, q.count-le, room);
    contents_lem =
        ap (λ h. contents (updated q.array h x) r.size r.tail (suc r.count)) q.head_lem
        ∙ contents-room q.array r.size r.tail r.count x q.tail-lt (ground (arith, q.count-le, room))
        ∙ ap (λ l. l ++ x ∷ []) q.contents_lem;
  }

  -- `push` on a buffer of at most 2³¹ places puts the element at the end of the queue, and drops the
  -- first if the buffer is full.
  pub push-Represents :
      (x : A)
      → (r' : RingBuffer A) × (push x r ≡ some r')
        × (r'.size ≡ r.size)
        × Represents r' (enqueue r.size x xs)
  unfolding pushed_full pushed_room
  push-Represents x = elim (Bool-cases (r.count == r.size)) [
    | inl full ↦ (
      pushed_full x,
      push-full x full,
      refl,
      rw (length_lem r xs q small, full) (pushed_full-Represents x full),
    )
    | inr room ↦ (
      pushed_room x,
      push-room x room,
      refl,
      rw (length_lem r xs q small, room) (pushed_room-Represents x room),
    )
  ]
