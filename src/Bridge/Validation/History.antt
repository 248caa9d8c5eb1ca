-- ===== src/Bridge/Validation/History.antt =====
-- The cache holds the latest messages, and an IMU's message is fused with them.
use infinity_autopilot.Prelude.{
  ◌≡◌, refl, ap, sym, ◌∙◌, List, [], ◌∷◌, ◌++◌, Option, none, some, Bool, true,
}
use infinity_autopilot.Ekf.Types.{V3}
use infinity_autopilot.Bridge.Int.{ℤ}
use infinity_autopilot.Bridge.Float.{Float}
use infinity_autopilot.Bridge.Messages.{Imu, Action}
use infinity_autopilot.Bridge.Sensors.{Cache, send_hil_sensor, on_imu, on_baro, on_mag}
use infinity_autopilot.Bridge.Threads.{
  Bridge, Event, Incoming, Place, receive_step, step, run_from, run, initial,
}
use infinity_autopilot.Bridge.Validation.SensorMessage.{sensor_message, fused-sensor_message}

-- The value that a later event gives, or else this.
abbrev pub or_else : {A : Type 0} → Option A → Option A → Option A
or_else (some x) y = some x
or_else none y = y

or_else_assoc : {A : Type 0} (x y z : Option A) → or_else (or_else x y) z ≡ or_else x (or_else y z)
or_else_assoc (some a) y z = refl
or_else_assoc none y z = refl

or_else-none : {A : Type 0} (x : Option A) → or_else x none ≡ x
or_else-none (some a) = refl
or_else-none none = refl

module _ {F : Type 0} where
  abbrev imu_of : Event F → Option (Imu F)
  imu_of (Event.imu now msg) = some msg
  imu_of (Event.baro p) = none
  imu_of (Event.mag b) = none
  imu_of (Event.gps now msg) = none
  imu_of (Event.lidar now msg) = none
  imu_of (Event.receive m) = none
  imu_of Event.interrupt = none

  abbrev baro_of : Event F → Option F
  baro_of (Event.imu now msg) = none
  baro_of (Event.baro p) = some p
  baro_of (Event.mag b) = none
  baro_of (Event.gps now msg) = none
  baro_of (Event.lidar now msg) = none
  baro_of (Event.receive m) = none
  baro_of Event.interrupt = none

  abbrev mag_of : Event F → Option (V3 F)
  mag_of (Event.imu now msg) = none
  mag_of (Event.baro p) = none
  mag_of (Event.mag b) = some b
  mag_of (Event.gps now msg) = none
  mag_of (Event.lidar now msg) = none
  mag_of (Event.receive m) = none
  mag_of Event.interrupt = none

  -- The last event that gives a value.
  abbrev pub last : {A : Type 0} → (Event F → Option A) → List (Event F) → Option A
  last of [] = none
  last of (e ∷ es) = or_else (last of es) (of e)

  abbrev pub last_imu : List (Event F) → Option (Imu F)
  last_imu = last imu_of

  abbrev pub last_baro : List (Event F) → Option F
  last_baro = last baro_of

  abbrev pub last_mag : List (Event F) → Option (V3 F)
  last_mag = last mag_of

  -- The cache after an event.
  abbrev renewed : Event F → Cache F → Cache F
  renewed e c = record {
    imu = or_else (imu_of e) c.imu;
    baro = or_else (baro_of e) c.baro;
    mag = or_else (mag_of e) c.mag;
  }

module _ {F : Type 0} (f : Float F) (gz : Bool) (accepts : Action F → Bool) where
  pub receive_step-cache :
      (m : Option (Incoming F)) (p : Place F) (b : Bridge F)
      → (receive_step f gz accepts m p b).cache ≡ b.cache
  unfolding receive_step
  receive_step-cache m Place.testing b = refl
  receive_step-cache none Place.receiving b = refl
  receive_step-cache (some msg) Place.receiving b = refl
  receive_step-cache m (Place.handling msg) b = refl
  receive_step-cache m Place.finished b = refl
  receive_step-cache m Place.crashed b = refl

  step-cache : (e : Event F) (b : Bridge F) → (step f gz accepts e b).cache ≡ renewed e b.cache
  unfolding step on_imu on_baro on_mag
  step-cache (Event.imu now msg) b = refl
  step-cache (Event.baro p) b = refl
  step-cache (Event.mag v) b = refl
  step-cache (Event.gps now msg) b = refl
  step-cache (Event.lidar now msg) b = refl
  step-cache (Event.receive m) b = receive_step-cache m b.place b
  step-cache Event.interrupt b = refl

  run_from-cache :
      (b : Bridge F) (es : List (Event F))
      → (run_from f gz accepts b es).cache ≡ record {
        imu = or_else (last_imu es) b.cache.imu;
        baro = or_else (last_baro es) b.cache.baro;
        mag = or_else (last_mag es) b.cache.mag;
      }
  unfolding run_from
  run_from-cache b [] = refl
  run_from-cache b (e ∷ es) =
      run_from-cache (step f gz accepts e b) es
      ∙ ap
          (λ (c : Cache F). record {
            imu = or_else (last_imu es) c.imu;
            baro = or_else (last_baro es) c.baro;
            mag = or_else (last_mag es) c.mag;
          })
          (step-cache e b)
      ∙ λ i. record {
        imu = sym (or_else_assoc (last_imu es) (imu_of e) b.cache.imu) i;
        baro = sym (or_else_assoc (last_baro es) (baro_of e) b.cache.baro) i;
        mag = sym (or_else_assoc (last_mag es) (mag_of e) b.cache.mag) i;
      }

  run_from-++ :
      (b : Bridge F) (es ds : List (Event F))
      → run_from f gz accepts b (es ++ ds) ≡ run_from f gz accepts (run_from f gz accepts b es) ds
  unfolding run_from
  run_from-++ b [] ds = refl
  run_from-++ b (e ∷ es) ds = run_from-++ (step f gz accepts e b) es ds

  -- After any events the cache holds the last message of each of the three sensors, or none.
  pub run-cache :
      (es : List (Event F))
      → (run f gz accepts es).cache
        ≡ record { imu = last_imu es; baro = last_baro es; mag = last_mag es }
  unfolding run
  run-cache es = run_from-cache (initial f) es ∙ λ i. record {
    imu = or_else-none (last_imu es) i;
    baro = or_else-none (last_baro es) i;
    mag = or_else-none (last_mag es) i;
  }

  run-snoc :
      (es : List (Event F)) (e : Event F)
      → run f gz accepts (es ++ e ∷ []) ≡ step f gz accepts e (run f gz accepts es)
  unfolding run run_from
  run-snoc es e = run_from-++ (initial f) es (e ∷ [])

  -- When, after any events, a message of the IMU comes, the clock's reading times 1000000 can be
  -- converted to an integer, and the packing accepts the message that follows, exactly one message is
  -- sent: a HIL_SENSOR with that integer as its time, the IMU's acceleration and rates, 10⁴ times the
  -- last field that came from the magnetometer, or (0.21, 0.01, -0.44) when none came, a hundredth of
  -- the last pressure that came from the barometer, or of 101325, the altitude of that pressure by
  -- the formula of the standard atmosphere, differential pressure 0, temperature 0 when a pressure
  -- came and 25 when none did, the fields updated as 8191 and the id 0.
  pub run-imu :
      (es : List (Event F)) (now : F) (msg : Imu F) (t_us : ℤ)
      → f.to_int (f.◌*◌ now (f.decimal 1000000 0)) ≡ some t_us
      → accepts (Action.hil_sensor (sensor_message f t_us msg (last_baro es) (last_mag es))) ≡ true
      → (run f gz accepts (es ++ Event.imu now msg ∷ [])).sent
        ≡ (run f gz accepts es).sent
          ++ Action.hil_sensor (sensor_message f t_us msg (last_baro es) (last_mag es)) ∷ []
  unfolding step on_imu send_hil_sensor
  run-imu es now msg t_us clock ok =
      ap (λ b. b.sent) (run-snoc es (Event.imu now msg))
      ∙ rw (clock, run-cache es, fused-sensor_message f t_us msg (last_baro es) (last_mag es), ok)
          refl
