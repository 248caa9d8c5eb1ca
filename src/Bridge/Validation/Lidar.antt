-- ===== src/Bridge/Validation/Lidar.antt =====
-- What is sent of the rangefinder's readings.
use infinity_autopilot.Prelude.{
  ◌/◌, ◌^◌, ◌≡◌, refl, ap, subst, ◌∙◌, List, [], ◌∷◌, ◌++◌, append-nil, Option, none, some, Bool,
  true, false, length, get_elem?, IfSome, Bool-cases, inl, inr, arith,
}
use infinity_autopilot.Bridge.Int.{ℤ, fits}
use infinity_autopilot.Bridge.Float.{Float}
use infinity_autopilot.Bridge.Messages.{LaserScan, DistanceSensor, Action, Reply, quiet, send}
use infinity_autopilot.Bridge.Sensors.{send_as, on_time, distance_message, on_middle, on_lidar}
use infinity_autopilot.Bridge.Threads.{Bridge, Event, delivered, step}

module _ {F : Type 0} (f : Float F) where
  infixl 70 ◌*◌
  open f use {decimal, ◌*◌, is_finite, to_int}

  -- Whether the message is that of a scan's middle reading: in centimetres, as are the limits, with
  -- the time in milliseconds.
  abbrev pub IsReading : F → LaserScan F → DistanceSensor F → Type 0
  IsReading now msg d =
      (dist_m : F) × (get_elem? msg.ranges (length msg.ranges / 2) ≡ some dist_m)
      × (is_finite dist_m ≡ true)
      × (to_int (now * decimal 1000 0) ≡ some d.time_boot_ms)
      × (to_int (dist_m * decimal 100 0) ≡ some d.current_distance)
      × (to_int (msg.range_min * decimal 100 0) ≡ some d.min_distance)
      × (to_int (msg.range_max * decimal 100 0) ≡ some d.max_distance)

  distance_message-fields :
      (t_ms : ℤ) (dist_m : F) (msg : LaserScan F)
      → IfSome
          (λ d.
            (t_ms ≡ d.time_boot_ms)
            × (to_int (dist_m * decimal 100 0) ≡ some d.current_distance)
            × (to_int (msg.range_min * decimal 100 0) ≡ some d.min_distance)
            × (to_int (msg.range_max * decimal 100 0) ≡ some d.max_distance))
          (distance_message f t_ms dist_m msg)
  unfolding distance_message
  distance_message-fields t_ms dist_m msg = ground arith

  distance_of : DistanceSensor F → Reply F → DistanceSensor F
  distance_of d (send (Action.distance_sensor d')) = d'
  distance_of d _ = d

  -- When the rangefinder's scan has a message handed over for packing, the scan has a reading in
  -- place ⌊n / 2⌋ of its n readings, which is finite, and the message's current, least and largest
  -- distances are the integer parts of 100 times that reading and the scan's limits, its time the
  -- integer part of 1000 times the clock's reading.
  pub on_lidar-IsReading :
      (now : F) (msg : LaserScan F) (d : DistanceSensor F)
      → on_lidar f now msg ≡ send (Action.distance_sensor d)
      → IsReading now msg d
  unfolding on_lidar on_middle distance_of
  on_lidar-IsReading now msg d = by_ranges msg.ranges refl
    where
      sent :
          (t_ms : ℤ) (dist_m : F) (o : Option (DistanceSensor F))
          → get_elem? msg.ranges (length msg.ranges / 2) ≡ some dist_m
          → is_finite dist_m ≡ true
          → to_int (now * decimal 1000 0) ≡ some t_ms
          → IfSome
              (λ d.
                (t_ms ≡ d.time_boot_ms)
                × (to_int (dist_m * decimal 100 0) ≡ some d.current_distance)
                × (to_int (msg.range_min * decimal 100 0) ≡ some d.min_distance)
                × (to_int (msg.range_max * decimal 100 0) ≡ some d.max_distance))
              o
          → send_as Action.distance_sensor o ≡ send (Action.distance_sensor d)
          → IsReading now msg d
      sent t_ms dist_m none middle finite clock h e = cc e
      sent t_ms dist_m (some d') middle finite clock (time, current, least, largest) e =
          subst (IsReading now msg) (ap (distance_of d) e)
            (dist_m, middle, finite, clock ∙ ap some time, current, least, largest)

      by_middle :
          (t_ms : ℤ) (middle : Option F)
          → get_elem? msg.ranges (length msg.ranges / 2) ≡ middle
          → to_int (now * decimal 1000 0) ≡ some t_ms
          → on_middle f t_ms middle msg ≡ send (Action.distance_sensor d)
          → IsReading now msg d
      by_middle t_ms none place clock e = cc e
      by_middle t_ms (some dist_m) place clock e = elim (Bool-cases (is_finite dist_m)) [
        | inl finite ↦
            sent t_ms dist_m _ place finite clock (distance_message-fields t_ms dist_m msg)
              (rw finite at e)
        | inr not-finite ↦ cc (rw not-finite at e)
      ]

      by_time :
          (t : Option ℤ) (middle : Option F)
          → get_elem? msg.ranges (length msg.ranges / 2) ≡ middle
          → to_int (now * decimal 1000 0) ≡ t
          → on_time t (λ t_ms. on_middle f t_ms middle msg) ≡ send (Action.distance_sensor d)
          → IsReading now msg d
      by_time none middle place clock e = cc e
      by_time (some t_ms) middle place clock e = by_middle t_ms middle place clock e

      by_ranges :
          (ranges : List F)
          → msg.ranges ≡ ranges
          → elim ranges [
            | [] ↦ quiet
            | r ∷ rs ↦
                on_time
                  (to_int (now * decimal 1000 0))
                  (λ t_ms. on_middle f t_ms (get_elem? (r ∷ rs) (length (r ∷ rs) / 2)) msg)
          ]
            ≡ send (Action.distance_sensor d)
          → IsReading now msg d
      by_ranges [] shape e = cc e
      by_ranges (r ∷ rs) shape e =
          by_time (to_int (now * decimal 1000 0)) _ (ap (λ l. get_elem? l (length l / 2)) shape)
            refl e

-- `distance_sensor_send` writes the time into an unsigned word of 32 bits.
pub record IsPacking {F : Type 0} (accepts : Action F → Bool) : Type 0 where
  pub time_boot_ms-fits :
      (d : DistanceSensor F)
      → accepts (Action.distance_sensor d) ≡ true
      → fits d.time_boot_ms (2 ^ 32) ≡ true

module _ {F : Type 0} (f : Float F) (gz : Bool) (accepts : Action F → Bool)
    (law : IsPacking accepts) where
  distance_message-time :
      (t_ms : ℤ) (dist_m : F) (msg : LaserScan F)
      → IfSome (λ d. d.time_boot_ms ≡ t_ms) (distance_message f t_ms dist_m msg)
  unfolding distance_message
  distance_message-time t_ms dist_m msg = ground arith

  send_as-late :
      (t_ms : ℤ) (o : Option (DistanceSensor F))
      → fits t_ms (2 ^ 32) ≡ false
      → IfSome (λ d. d.time_boot_ms ≡ t_ms) o
      → delivered accepts (send_as Action.distance_sensor o) ≡ []
  send_as-late t_ms none late h = refl
  send_as-late t_ms (some d) late h = elim (Bool-cases (accepts (Action.distance_sensor d))) [
    | inl e ↦ cc (law.time_boot_ms-fits d e, ap (λ t. fits t (2 ^ 32)) h, late)
    | inr e ↦ rw e refl
  ]

  on_lidar-late :
      (now : F) (msg : LaserScan F) (t_ms : ℤ)
      → f.to_int (f.◌*◌ now (f.decimal 1000 0)) ≡ some t_ms
      → fits t_ms (2 ^ 32) ≡ false
      → delivered accepts (on_lidar f now msg) ≡ []
  unfolding on_lidar on_middle
  on_lidar-late now msg t_ms clock late = by_ranges msg.ranges refl
    where
      by_middle :
          (scan : LaserScan F) (middle : Option F)
          → delivered accepts (on_middle f t_ms middle scan) ≡ []
      by_middle scan none = refl
      by_middle scan (some dist_m) = elim (Bool-cases (f.is_finite dist_m)) [
        | inl e ↦ rw e (send_as-late t_ms _ late (distance_message-time t_ms dist_m scan))
        | inr e ↦ rw e refl
      ]

      by_ranges :
          (ranges : List F) → msg.ranges ≡ ranges → delivered accepts (on_lidar f now msg) ≡ []
      by_ranges [] e = rw e refl
      by_ranges (r ∷ rs) e = rw (e, clock) (by_middle _ (get_elem? (r ∷ rs) (length (r ∷ rs) / 2)))

  -- Where the packing refuses a DISTANCE_SENSOR whose time does not fit into 32 bits, and the
  -- clock's reading in milliseconds does not, as the time since 1970 does not, no message of the
  -- rangefinder has anything sent.
  pub step-lidar_late :
      (now : F) (msg : LaserScan F) (t_ms : ℤ) (b : Bridge F)
      → f.to_int (f.◌*◌ now (f.decimal 1000 0)) ≡ some t_ms
      → fits t_ms (2 ^ 32) ≡ false
      → (step f gz accepts (Event.lidar now msg) b).sent ≡ b.sent
  unfolding step
  step-lidar_late now msg t_ms b clock late =
      ap (λ l. b.sent ++ l) (on_lidar-late now msg t_ms clock late) ∙ append-nil b.sent
