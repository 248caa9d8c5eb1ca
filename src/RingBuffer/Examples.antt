-- ===== src/RingBuffer/Examples.antt =====
-- Tests of the ring buffer's model, and its theorems at concrete inputs.
use infinity_autopilot.Prelude.{ℕ, ◌+◌, ◌≡◌, refl, List, [], ◌∷◌, none, some, true, false, arith}
use infinity_autopilot.RingBuffer.{RingBuffer, pop, push_batch, reallocate, construct}
use infinity_autopilot.RingBuffer.Queue.{Represents}
use infinity_autopilot.RingBuffer.Queue.Undefined.{push_batch-overrun, pop-reallocate}
use infinity_autopilot.RingBuffer.Runs.{
  Call, call_push, call_pop, call_push_batch, call_drain, call_drain_all, call_peek, Answer,
  nothing, element, copied, copied_all, run_calls, run_calls-construct,
}

-- Around the end of four places, with elements that are dropped.
abbrev calls : List (Call ℕ)
calls =
    call_push 1
    ∷ call_push 2
    ∷ call_push 3
    ∷ call_pop
    ∷ call_push_batch (some (λ j. 10 + j)) 4
    ∷ call_peek 2
    ∷ call_drain 3
    ∷ call_push 7
    ∷ call_drain_all 9
    ∷ call_pop
    ∷ []

abbrev answers : List (Answer ℕ)
answers =
    nothing
    ∷ nothing
    ∷ nothing
    ∷ element (some 1)
    ∷ nothing
    ∷ copied (10 ∷ 11 ∷ [])
    ∷ copied (10 ∷ 11 ∷ 12 ∷ [])
    ∷ nothing
    ∷ copied_all (13 ∷ 7 ∷ []) true
    ∷ element none
    ∷ []

run_calls-construct_example :
    (r' : RingBuffer ℕ) × (run_calls 0 calls (construct 0 true 4) ≡ some (r', answers))
    × Represents r' []
run_calls-construct_example =
    run_calls-construct 0 4 calls (omega arith) (omega arith)
      (tt, (tt, (tt, (tt, (omega arith, (tt, (tt, (tt, (tt, (tt, tt))))))))))

-- Three elements in four places, from the third on.
abbrev around_end : RingBuffer ℕ
around_end = record { buffer = some (λ j. j); size = 4; head = 1; tail = 2; count = 3 }

around_end-Represents : Represents around_end (2 ∷ 3 ∷ 0 ∷ [])
around_end-Represents = record {
  array = λ j. j;
  buffer_lem = refl;
  tail-lt = omega arith;
  count-le = omega arith;
  head_lem = refl;
  contents_lem = refl;
}

push_batch-overrun_example : push_batch (some (λ j. j)) 8 around_end ≡ none
push_batch-overrun_example =
    push_batch-overrun around_end (2 ∷ 3 ∷ 0 ∷ []) around_end-Represents (omega arith) (λ j. j) 8
      (omega arith) (omega arith)

pop-reallocate_example : pop (reallocate 0 false 8 around_end).0 ≡ none
pop-reallocate_example = pop-reallocate around_end (2 ∷ 3 ∷ 0 ∷ []) around_end-Represents 0 8 refl
