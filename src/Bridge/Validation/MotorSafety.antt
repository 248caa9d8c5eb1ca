-- ===== src/Bridge/Validation/MotorSafety.antt =====
-- Every command that the motors get during a run.
use infinity_autopilot.Prelude.{
  ◌≡◌, refl, List, [], ◌∷◌, ◌++◌, Option, none, some, Bool, true, length, Bool-cases, inl, inr,
}
use infinity_autopilot.Bridge.Int.{ℤ}
use infinity_autopilot.Bridge.Float.{Float, IsOrdered}
use infinity_autopilot.Bridge.Messages.{LaserScan, Action, Reply, quiet, send, raises}
use infinity_autopilot.Bridge.Sensors.{
  Cache, send_as, on_time, on_imu, on_baro, on_mag, on_gps, on_lidar, on_middle, send_hil_sensor,
}
use infinity_autopilot.Bridge.Motors.{num_motors, max_rads, send_motor_speeds}
use infinity_autopilot.Bridge.Threads.{
  Bridge, Event, Incoming, Place, delivered, handle, initial, receive_step, step, run_from, run,
}
use infinity_autopilot.Bridge.Validation.MotorBounds.{AllInRange, send_motor_speeds-InRange}

abbrev pub All {ℓ κ} : {A : Type ℓ} → (A → Type κ) → List A → Type κ
All P [] = Unit
All P (x ∷ xs) = P x × All P xs

All-++ : {A : Type 0} (P : A → Type 0) (xs ys : List A) → All P xs → All P ys → All P (xs ++ ys)
All-++ P [] ys hx hy = hy
All-++ P (x ∷ xs) ys hx hy = (hx.0, All-++ P xs ys hx.1 hy)

module _ {F : Type 0} (f : Float F) where
  -- A command for the motors has a speed for each, in the range. Other messages do as they are.
  abbrev pub IsSafe : Action F → Type 0
  IsSafe (Action.motor_speed speeds) = (length speeds ≡ num_motors) × AllInRange f speeds
  IsSafe (Action.hil_sensor m) = Unit
  IsSafe (Action.hil_gps m) = Unit
  IsSafe (Action.distance_sensor m) = Unit
  IsSafe (Action.heartbeat m) = Unit

  abbrev IsSafeReply : Reply F → Type 0
  IsSafeReply quiet = Unit
  IsSafeReply (send a) = IsSafe a
  IsSafeReply raises = Unit

  send_as-IsSafeReply :
      {M : Type 0} (kind : M → Action F) (o : Option M)
      → ((m : M) → IsSafe (kind m))
      → IsSafeReply (send_as kind o)
  send_as-IsSafeReply kind none h = tt
  send_as-IsSafeReply kind (some m) h = h m

  send_hil_sensor-IsSafeReply : (now : F) (c : Cache F) → IsSafeReply (send_hil_sensor f now c)
  unfolding send_hil_sensor
  send_hil_sensor-IsSafeReply now c = by_imu c.imu
    where
      by_imu : (imu : Option _) → IsSafeReply (send_hil_sensor f now (record c { imu = imu }))
      by_imu none = tt
      by_imu (some imu) = send_as-IsSafeReply Action.hil_sensor _ (λ m. tt)

  on_middle-IsSafeReply :
      (t_ms : ℤ) (middle : Option F) (msg : LaserScan F) → IsSafeReply (on_middle f t_ms middle msg)
  unfolding on_middle
  on_middle-IsSafeReply t_ms none msg = tt
  on_middle-IsSafeReply t_ms (some dist_m) msg = elim (Bool-cases (f.is_finite dist_m)) [
    | inl e ↦ rw e (send_as-IsSafeReply Action.distance_sensor _ (λ m. tt))
    | inr e ↦ rw e tt
  ]

  on_lidar-IsSafeReply : (now : F) (msg : LaserScan F) → IsSafeReply (on_lidar f now msg)
  unfolding on_lidar
  on_lidar-IsSafeReply now msg = by_ranges msg.ranges refl
    where
      by_time :
          (t : Option ℤ) (middle : Option F) (scan : LaserScan F)
          → IsSafeReply (on_time t (λ t_ms. on_middle f t_ms middle scan))
      by_time none middle scan = tt
      by_time (some t_ms) middle scan = on_middle-IsSafeReply t_ms middle scan

      by_ranges : (ranges : List F) → msg.ranges ≡ ranges → IsSafeReply (on_lidar f now msg)
      by_ranges [] e = rw e tt
      by_ranges (r ∷ rs) e = rw e (by_time _ _ _)

  module _ (law : IsOrdered f) (pos : f.lt (f.decimal 0 1) (max_rads f) ≡ true) (gz : Bool)
      (accepts : Action F → Bool) where
    handle-IsSafeReply : (msg : Incoming F) → IsSafeReply (handle f gz msg)
    unfolding handle
    handle-IsSafeReply (Incoming.hil_actuator_controls controls) =
        by_reply (send_motor_speeds f gz controls) refl
      where
        by_reply : (r : Reply F) → send_motor_speeds f gz controls ≡ r → IsSafeReply r
        by_reply quiet e = tt
        by_reply (send (Action.motor_speed speeds)) e =
            send_motor_speeds-InRange f law gz controls speeds pos e
        by_reply (send (Action.hil_sensor m)) e = tt
        by_reply (send (Action.hil_gps m)) e = tt
        by_reply (send (Action.distance_sensor m)) e = tt
        by_reply (send (Action.heartbeat m)) e = tt
        by_reply raises e = tt
    handle-IsSafeReply Incoming.heartbeat = tt

    delivered-AllSafe :
        (sent : List (Action F)) (r : Reply F)
        → All IsSafe sent
        → IsSafeReply r
        → All IsSafe (sent ++ delivered accepts r)
    delivered-AllSafe sent r safe h = All-++ IsSafe sent (delivered accepts r) safe (by_reply r h)
      where
        by_reply : (r : Reply F) → IsSafeReply r → All IsSafe (delivered accepts r)
        by_reply quiet h = tt
        by_reply (send a) h = elim (Bool-cases (accepts a)) [
          | inl e ↦ rw e (h, tt)
          | inr e ↦ rw e tt
        ]
        by_reply raises h = tt

    receive_step-AllSafe :
        (m : Option (Incoming F)) (p : Place F) (b : Bridge F)
        → All IsSafe b.sent
        → All IsSafe (receive_step f gz accepts m p b).sent
    unfolding receive_step
    receive_step-AllSafe m Place.testing b h = h
    receive_step-AllSafe none Place.receiving b h = h
    receive_step-AllSafe (some msg) Place.receiving b h = h
    receive_step-AllSafe m (Place.handling msg) b h =
        delivered-AllSafe b.sent (handle f gz msg) h (handle-IsSafeReply msg)
    receive_step-AllSafe m Place.finished b h = h
    receive_step-AllSafe m Place.crashed b h = h

    step-AllSafe :
        (e : Event F) (b : Bridge F) → All IsSafe b.sent → All IsSafe (step f gz accepts e b).sent
    unfolding step on_imu on_baro on_mag on_gps
    step-AllSafe (Event.imu now msg) b h =
        delivered-AllSafe b.sent _ h (send_hil_sensor-IsSafeReply now _)
    step-AllSafe (Event.baro pressure) b h = delivered-AllSafe b.sent quiet h tt
    step-AllSafe (Event.mag field_tesla) b h = delivered-AllSafe b.sent quiet h tt
    step-AllSafe (Event.gps now msg) b h =
        delivered-AllSafe b.sent _ h (send_as-IsSafeReply Action.hil_gps _ (λ m. tt))
    step-AllSafe (Event.lidar now msg) b h =
        delivered-AllSafe b.sent _ h (on_lidar-IsSafeReply now msg)
    step-AllSafe (Event.receive m) b h = receive_step-AllSafe m b.place b h
    step-AllSafe Event.interrupt b h = h

    run_from-AllSafe :
        (b : Bridge F) (es : List (Event F))
        → All IsSafe b.sent
        → All IsSafe (run_from f gz accepts b es).sent
    unfolding run_from
    run_from-AllSafe b [] h = h
    run_from-AllSafe b (e ∷ es) h = run_from-AllSafe (step f gz accepts e b) es (step-AllSafe e b h)

    -- For numbers ordered as IEEE 754 says, with a positive full speed, in every run, whatever is
    -- received and in whatever order, each command for the motors has four speeds, none of them
    -- below 0 or above full speed.
    pub run-AllSafe : (es : List (Event F)) → All IsSafe (run f gz accepts es).sent
    unfolding run
    run-AllSafe es = run_from-AllSafe (initial f) es tt
