-- ===== src/Bridge/Validation/Ending.antt =====
-- The receiving thread ends after an interrupt.
use infinity_autopilot.Prelude.{
  ℕ, ◌+◌, ◌-◌, ◌≤◌, ◌≡◌, refl, List, [], ◌∷◌, Option, none, some, Bool, true, false, if◌then◌else◌,
  arith,
}
use infinity_autopilot.Bridge.Float.{Float}
use infinity_autopilot.Bridge.Messages.{Action, Reply, quiet, send, raises}
use infinity_autopilot.Bridge.Threads.{
  Bridge, Event, Incoming, Place, after, handle, receive_step, step, run_from,
}

-- How many steps of its own the thread takes at most, once `_running` is false.
abbrev pub steps_left : {F : Type 0} → Place F → ℕ
steps_left Place.testing = 1
steps_left Place.receiving = 3
steps_left (Place.handling msg) = 2
steps_left Place.finished = 0
steps_left Place.crashed = 0

abbrev pub has_ended : {F : Type 0} → Place F → Bool
has_ended Place.testing = false
has_ended Place.receiving = false
has_ended (Place.handling msg) = false
has_ended Place.finished = true
has_ended Place.crashed = true

abbrev pub own_step : {F : Type 0} → Event F → ℕ
own_step (Event.imu now msg) = 0
own_step (Event.baro p) = 0
own_step (Event.mag v) = 0
own_step (Event.gps now msg) = 0
own_step (Event.lidar now msg) = 0
own_step (Event.receive m) = 1
own_step Event.interrupt = 0

-- The steps of the receiving thread among the events.
abbrev pub own_steps : {F : Type 0} → List (Event F) → ℕ
own_steps [] = 0
own_steps (e ∷ es) = own_step e + own_steps es

steps_left-le-three : {F : Type 0} (p : Place F) → steps_left p ≤ 3
steps_left-le-three Place.testing = omega arith
steps_left-le-three Place.receiving = omega arith
steps_left-le-three (Place.handling msg) = omega arith
steps_left-le-three Place.finished = omega arith
steps_left-le-three Place.crashed = omega arith

ended : {F : Type 0} (p : Place F) → steps_left p ≤ 0 → has_ended p ≡ true
ended Place.testing h = absurd (omega arith)
ended Place.receiving h = absurd (omega arith)
ended (Place.handling msg) h = absurd (omega arith)
ended Place.finished h = refl
ended Place.crashed h = refl

module _ {F : Type 0} (f : Float F) (gz : Bool) (accepts : Action F → Bool) where
  steps_left-after : (r : Reply F) → steps_left (after accepts r) ≤ 1
  steps_left-after quiet = omega arith
  steps_left-after (send a) = go (accepts a)
    where
      go : (b : Bool) → steps_left {F = F} (if b then Place.testing else Place.crashed) ≤ 1
      go true = omega arith
      go false = omega arith
  steps_left-after raises = omega arith

  receive_step-ending :
      (m : Option (Incoming F)) (p : Place F) (b : Bridge F)
      → b.running ≡ false
      → b.place ≡ p
      → (steps_left (receive_step f gz accepts m p b).place ≤ steps_left p - 1)
        × ((receive_step f gz accepts m p b).running ≡ false)
  unfolding receive_step
  receive_step-ending m Place.testing b h e = rw h (omega arith, refl)
  receive_step-ending none Place.receiving b h e = (omega arith, h)
  receive_step-ending (some msg) Place.receiving b h e = (omega arith, h)
  receive_step-ending m (Place.handling msg) b h e = (steps_left-after (handle f gz msg), h)
  receive_step-ending m Place.finished b h e = (rw e (omega arith), h)
  receive_step-ending m Place.crashed b h e = (rw e (omega arith), h)

  step-ending :
      (e : Event F) (b : Bridge F)
      → b.running ≡ false
      → (steps_left (step f gz accepts e b).place ≤ steps_left b.place - own_step e)
        × ((step f gz accepts e b).running ≡ false)
  unfolding step
  step-ending (Event.imu now msg) b h = (omega arith, h)
  step-ending (Event.baro p) b h = (omega arith, h)
  step-ending (Event.mag v) b h = (omega arith, h)
  step-ending (Event.gps now msg) b h = (omega arith, h)
  step-ending (Event.lidar now msg) b h = (omega arith, h)
  step-ending (Event.receive m) b h = receive_step-ending m b.place b h refl
  step-ending Event.interrupt b h = (omega arith, refl)

  run_from-ending :
      (b : Bridge F) (es : List (Event F))
      → b.running ≡ false
      → steps_left (run_from f gz accepts b es).place ≤ steps_left b.place - own_steps es
  unfolding run_from
  run_from-ending b [] h = omega arith
  run_from-ending b (e ∷ es) h =
      let (fewer, still) = step-ending e b h in
      omega (arith, fewer, run_from-ending (step f gz accepts e b) es still)

  -- Once `_running` is false the receiving thread ends: after any events among which are three
  -- steps of it, it stands behind its loop or has ended by an exception.
  pub run_from-has_ended :
      (b : Bridge F) (es : List (Event F))
      → b.running ≡ false
      → 3 ≤ own_steps es
      → has_ended (run_from f gz accepts b es).place ≡ true
  run_from-has_ended b es h k =
      ended (run_from f gz accepts b es).place
        (omega (arith, run_from-ending b es h, steps_left-le-three b.place))
