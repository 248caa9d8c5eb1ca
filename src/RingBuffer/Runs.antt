-- ===== src/RingBuffer/Runs.antt =====
-- Calls of a ring buffer, one after the other as its mutex orders them.
use infinity_autopilot.Prelude.{
  ℕ, ◌+◌, ◌-◌, ◌≤◌, ◌<◌, ◌≡◌, refl, ap, sym, subst, ◌∙◌, List, [], ◌∷◌, ◌++◌, Option, none, some,
  ◌>>=◌, Bool, true, false, leb, ◌==◌, length, arith,
}
use infinity_autopilot.RingBuffer.{
  RingBuffer, range, pop, push, drain, drain_all, peek, push_batch, reset, allocate, construct,
}
use infinity_autopilot.RingBuffer.Queue.{Represents, enqueue, behind, first}
use infinity_autopilot.RingBuffer.Queue.Push.{push-Represents}
use infinity_autopilot.RingBuffer.Queue.Pop.{pop-Represents}
use infinity_autopilot.RingBuffer.Queue.Parts.{take, drop}
use infinity_autopilot.RingBuffer.Queue.Drain.{drain-Represents, drain_all-Represents, peek-take}
use infinity_autopilot.RingBuffer.Queue.Batch.{push_batch-Represents}

pub data Call (A : Type 0) : Type 0 where
  call_push : A → Call A
  call_pop : Call A
  call_push_batch : Option (ℕ → A) → ℕ → Call A
  call_drain : ℕ → Call A
  call_drain_all : ℕ → Call A
  call_peek : ℕ → Call A
  call_reset : Call A

-- What a call returns: nothing, an element or none, or the elements copied, with a flag.
pub data Answer (A : Type 0) : Type 0 where
  nothing : Answer A
  element : Option A → Answer A
  copied : List A → Answer A
  copied_all : List A → Bool → Answer A

module _ {A : Type 0} (initial : A) where
  abbrev pub called : Call A → RingBuffer A → Option (RingBuffer A × Answer A)
  called (Call.call_push x) r = do r' ← push x r; some (r', nothing)
  called Call.call_pop r = do (r', out) ← pop r; some (r', element out)
  called (Call.call_push_batch src len) r = do r' ← push_batch src len r; some (r', nothing)
  called (Call.call_drain len) r = do (r', items) ← drain len r; some (r', copied items)
  called (Call.call_drain_all len) r = do
    (r', items, all) ← drain_all len r
    some (r', copied_all items all)
  called (Call.call_peek len) r = do items ← peek len r; some (r, copied items)
  called Call.call_reset r = some (reset initial r, nothing)

  abbrev pub run_calls : List (Call A) → RingBuffer A → Option (RingBuffer A × List (Answer A))
  run_calls [] r = some (r, [])
  run_calls (c ∷ cs) r = do
    (r', answer) ← called c r
    (r'', answers) ← run_calls cs r'
    some (r'', answer ∷ answers)

module _ {A : Type 0} (size : ℕ) where
  -- The calls of a bounded queue.
  abbrev pub queue_called : Call A → List A → List A × Answer A
  queue_called (Call.call_push x) xs = (enqueue size x xs, nothing)
  queue_called Call.call_pop xs = (behind xs, element (first xs))
  queue_called (Call.call_push_batch none len) xs = (xs, nothing)
  queue_called (Call.call_push_batch (some src) len) xs =
      (drop (length xs + len - size) xs ++ range src 0 len, nothing)
  queue_called (Call.call_drain len) xs = (drop len xs, copied (take len xs))
  queue_called (Call.call_drain_all len) xs =
      (drop len xs, copied_all (take len xs) (leb (length xs) len))
  queue_called (Call.call_peek len) xs = (xs, copied (take len xs))
  queue_called Call.call_reset xs = ([], nothing)

  abbrev pub run_queue : List (Call A) → List A → List A × List (Answer A)
  run_queue [] xs = (xs, [])
  run_queue (c ∷ cs) xs =
      let (xs', answer) = queue_called c xs in
      let (xs'', answers) = run_queue cs xs' in (xs'', answer ∷ answers)

  -- A batch is no longer than the buffer.
  abbrev pub Fits : Call A → Type 0
  Fits (Call.call_push x) = Unit
  Fits Call.call_pop = Unit
  Fits (Call.call_push_batch src len) = len ≤ size
  Fits (Call.call_drain len) = Unit
  Fits (Call.call_drain_all len) = Unit
  Fits (Call.call_peek len) = Unit
  Fits Call.call_reset = Unit

  abbrev pub AllFit : List (Call A) → Type 0
  AllFit [] = Unit
  AllFit (c ∷ cs) = Fits c × AllFit cs

module _ {A : Type 0} (initial : A) where
  -- The result of a call, with the queue that its buffer holds.
  abbrev Answered : Option (RingBuffer A × Answer A) → ℕ → List A × Answer A → Type 0
  Answered o size (xs, answer) =
      (r' : RingBuffer A) × (o ≡ some (r', answer)) × (r'.size ≡ size) × Represents r' xs

  reset-Represents :
      (r : RingBuffer A) (xs : List A)
      → Represents r xs
      → ((reset initial r).size ≡ r.size) × Represents (reset initial r) []
  unfolding reset
  reset-Represents r xs q = rw q.buffer_lem (
    refl,
    record {
      array = λ j. initial;
      buffer_lem = refl;
      tail-lt = omega (arith, q.tail-lt);
      count-le = omega arith;
      head_lem = ground (arith, q.tail-lt);
      contents_lem = refl;
    },
  )

  push_batch-null : (len : ℕ) (r : RingBuffer A) → push_batch none len r ≡ some r
  unfolding push_batch
  push_batch-null len r = refl

  called-Represents :
      (r : RingBuffer A) (xs : List A)
      → Represents r xs
      → r.size ≤ 2147483648
      → (c : Call A) → Fits r.size c
      → Answered (called initial c r) r.size (queue_called r.size c xs)
  called-Represents r xs q small (Call.call_push x) fits =
      let (r', e, s, q') = push-Represents r xs q small x in (r', rw e refl, s, q')
  called-Represents r xs q small Call.call_pop fits =
      let (r', e, s, q') = pop-Represents r xs q small in (r', rw e refl, s, q')
  called-Represents r xs q small (Call.call_push_batch none len) fits =
      (r, rw (push_batch-null len r) refl, refl, q)
  called-Represents r xs q small (Call.call_push_batch (some src) len) fits =
      let (r', e, s, q') = push_batch-Represents r xs q small src len fits in (r', rw e refl, s, q')
  called-Represents r xs q small (Call.call_drain len) fits =
      let (r', e, s, q') = drain-Represents r xs q small len in (r', rw e refl, s, q')
  called-Represents r xs q small (Call.call_drain_all len) fits =
      let (r', e, s, q') = drain_all-Represents r xs q small len in (r', rw e refl, s, q')
  called-Represents r xs q small (Call.call_peek len) fits =
      (r, rw (peek-take r xs q small len) refl, refl, q)
  called-Represents r xs q small Call.call_reset fits =
      let (s, q') = reset-Represents r xs q in (reset initial r, refl, s, q')

  run_calls-Represents :
      (size : ℕ) (r : RingBuffer A) (xs : List A)
      → Represents r xs
      → r.size ≡ size
      → size ≤ 2147483648
      → (cs : List (Call A)) → AllFit size cs
      → (r' : RingBuffer A) × (run_calls initial cs r ≡ some (r', (run_queue size cs xs).1))
        × Represents r' (run_queue size cs xs).0
  run_calls-Represents size r xs q e small [] fit = (r, refl, q)
  run_calls-Represents size r xs q e small (c ∷ cs) (fits, fit) =
      let (r', answer, e', q') =
        subst (λ n. Answered (called initial c r) n (queue_called n c xs)) e
          (called-Represents r xs q (omega (arith, e, small)) c
            (subst (λ n. Fits n c) (sym e) fits)) in
      let (r'', answers, q'') =
        run_calls-Represents size r' (queue_called size c xs).0 q' e' small cs fit in
      (r'', rw (answer, answers) refl, q'')

  fresh : ℕ → RingBuffer A
  fresh size = record { buffer = some (λ j. initial); size = size; head = 0; tail = 0; count = 0 }

  construct-fresh : (size : ℕ) → 0 < size → construct initial true size ≡ fresh size
  unfolding construct allocate reset fresh
  construct-fresh size h = rw (construct, not_zero size h) refl
    where
      not_zero : (size : ℕ) → 0 < size → (size == 0) ≡ false
      not_zero size h = ground arith

  fresh-Represents : (size : ℕ) → 0 < size → Represents (fresh size) []
  unfolding fresh
  fresh-Represents size h = record {
    array = λ j. initial;
    buffer_lem = refl;
    tail-lt = h;
    count-le = omega arith;
    head_lem = ground arith;
    contents_lem = refl;
  }

  -- A buffer that is constructed with at least one and at most 2³¹ places, for which memory is found,
  -- answers a series of calls of push, pop, push_batch, drain, drain_all, peek and reset, of which no
  -- batch is longer than the buffer, as a queue does that drops its first elements when it is full,
  -- and then holds the queue's elements; every such call is defined: none of them reads or writes
  -- outside the array.
  pub run_calls-construct :
      (size : ℕ) (cs : List (Call A))
      → 0 < size
      → size ≤ 2147483648
      → AllFit size cs
      → (r' : RingBuffer A) × (run_calls initial cs (construct initial true size)
          ≡ some (r', (run_queue size cs []).1))
        × Represents r' (run_queue size cs []).0
  unfolding fresh
  run_calls-construct size cs h small fit =
      let (r', e, q) =
        run_calls-Represents size (fresh size) [] (fresh-Represents size h) refl small cs fit in
      (r', ap (run_calls initial cs) (construct-fresh size h) ∙ e, q)
