-- ===== src/Bridge/Validation/HilSensors.antt =====
-- How many HIL_SENSOR messages a run sends.
use infinity_autopilot.Prelude.{
  ℕ, ◌+◌, ◌≡◌, refl, ap, sym, ◌∙◌, List, [], ◌∷◌, Option, none, some, ◌>>=◌, Bool, true, false,
  if◌then◌else◌, arith,
}
use infinity_autopilot.Ekf.Types.{V3}
use infinity_autopilot.Bridge.Int.{ℤ}
use infinity_autopilot.Bridge.Float.{Float}
use infinity_autopilot.Bridge.Messages.{HilSensor, Action}
use infinity_autopilot.Bridge.Sensors.{Cache, send_as, send_hil_sensor, on_imu, on_baro, on_mag}
use infinity_autopilot.Bridge.Threads.{
  Bridge, Event, Incoming, Place, echo, delivered, handle, step, run_from, run, initial,
}
use infinity_autopilot.Bridge.Validation.Counts.{
  is_hil_sensor, count, count-++, Uncounted, Uncounted-send, Uncounted-on_gps, Uncounted-on_lidar,
  Uncounted-motors, reply_at, reply, step-sent,
}
use infinity_autopilot.Bridge.Validation.History.{receive_step-cache}
use infinity_autopilot.Bridge.Validation.SensorMessage.{sensor_message, fused-sensor_message}

-- 1 where there is a time and a message at it that is accepted.
abbrev pub due : Option ℤ → (ℤ → Bool) → ℕ
due none ok = 0
due (some t_us) ok = if ok t_us then 1 else 0

module _ {F : Type 0} (f : Float F) (gz : Bool) (accepts : Action F → Bool) where
  hil_sensor-handle : (msg : Incoming F) → Uncounted is_hil_sensor accepts (handle f gz msg)
  unfolding handle
  hil_sensor-handle (Incoming.hil_actuator_controls controls) =
      Uncounted-motors is_hil_sensor accepts f (λ v. refl) gz controls
  hil_sensor-handle Incoming.heartbeat =
      Uncounted-send is_hil_sensor accepts (Action.heartbeat echo) refl

  hil_sensor-reply_at : (p : Place F) → Uncounted is_hil_sensor accepts (reply_at f gz accepts p)
  hil_sensor-reply_at Place.testing = refl
  hil_sensor-reply_at Place.receiving = refl
  hil_sensor-reply_at (Place.handling msg) = hil_sensor-handle msg
  hil_sensor-reply_at Place.finished = refl
  hil_sensor-reply_at Place.crashed = refl

  -- Of an event, with the last pressure and the last field before it.
  abbrev pub due_at : Event F → Option F → Option (V3 F) → ℕ
  due_at (Event.imu now msg) baro mag =
      due (f.to_int (f.◌*◌ now (f.decimal 1000000 0)))
        (λ t_us. accepts (Action.hil_sensor (sensor_message f t_us msg baro mag)))
  due_at (Event.baro p) baro mag = 0
  due_at (Event.mag v) baro mag = 0
  due_at (Event.gps now msg) baro mag = 0
  due_at (Event.lidar now msg) baro mag = 0
  due_at (Event.receive m) baro mag = 0
  due_at Event.interrupt baro mag = 0

  -- Of the events, with the pressure and the field that came last before them.
  abbrev pub due_from : Option F → Option (V3 F) → List (Event F) → ℕ
  due_from baro mag [] = 0
  due_from baro mag (Event.baro p ∷ es) = due_from (some p) mag es
  due_from baro mag (Event.mag v ∷ es) = due_from baro (some v) es
  due_from baro mag (e ∷ es) = due_at e baro mag + due_from baro mag es

  hil_sensor-imu :
      (t : Option ℤ) (m n : ℤ → HilSensor F)
      → ((t_us : ℤ) → m t_us ≡ n t_us)
      → count is_hil_sensor
          (delivered accepts (send_as Action.hil_sensor (t >>= λ t_us. some (m t_us))))
        ≡ due t (λ t_us. accepts (Action.hil_sensor (n t_us)))
  hil_sensor-imu none m n h = refl
  hil_sensor-imu (some t) m n h = rw (h t) (packed (accepts (Action.hil_sensor (n t))) (n t))
    where
      packed :
          (ok : Bool) (s : HilSensor F)
          → count is_hil_sensor (if ok then Action.hil_sensor s ∷ [] else [])
            ≡ (if ok then 1 else 0)
      packed true s = refl
      packed false s = refl

  hil_sensor-reply :
      (e : Event F) (b : Bridge F)
      → count is_hil_sensor (delivered accepts (reply f gz accepts e b))
        ≡ due_at e b.cache.baro b.cache.mag
  unfolding on_imu send_hil_sensor
  hil_sensor-reply (Event.imu now msg) b =
      hil_sensor-imu _ _ _ (λ t_us. fused-sensor_message f t_us msg b.cache.baro b.cache.mag)
  hil_sensor-reply (Event.baro p) b = refl
  hil_sensor-reply (Event.mag v) b = refl
  hil_sensor-reply (Event.gps now msg) b =
      Uncounted-on_gps is_hil_sensor accepts f (λ g. refl) now msg
  hil_sensor-reply (Event.lidar now msg) b =
      Uncounted-on_lidar is_hil_sensor accepts f (λ d. refl) now msg
  hil_sensor-reply (Event.receive m) b = hil_sensor-reply_at b.place
  hil_sensor-reply Event.interrupt b = refl

  due_from-step :
      (e : Event F) (es : List (Event F)) (b : Bridge F)
      → due_from b.cache.baro b.cache.mag (e ∷ es)
        ≡ due_at e b.cache.baro b.cache.mag
          + (let c = (step f gz accepts e b).cache in due_from c.baro c.mag es)
  unfolding step on_imu on_baro on_mag
  due_from-step (Event.imu now msg) es b = refl
  due_from-step (Event.baro p) es b = omega arith
  due_from-step (Event.mag v) es b = omega arith
  due_from-step (Event.gps now msg) es b = refl
  due_from-step (Event.lidar now msg) es b = refl
  due_from-step (Event.receive m) es b =
      ap (λ (c : Cache F). 0 + due_from c.baro c.mag es)
        (sym (receive_step-cache f gz accepts m b.place b))
  due_from-step Event.interrupt es b = refl

  count_hil_sensor-run_from :
      (b : Bridge F) (es : List (Event F))
      → count is_hil_sensor (run_from f gz accepts b es).sent
        ≡ count is_hil_sensor b.sent + due_from b.cache.baro b.cache.mag es
  unfolding run_from
  count_hil_sensor-run_from b [] = omega arith
  count_hil_sensor-run_from b (e ∷ es) = omega (
    arith,
    count_hil_sensor-run_from (step f gz accepts e b) es,
    ap (count is_hil_sensor) (step-sent f gz accepts e b),
    count-++ is_hil_sensor b.sent (delivered accepts (reply f gz accepts e b)),
    hil_sensor-reply e b,
    due_from-step e es b,
  )

  -- A run sends exactly one HIL_SENSOR for each message of the IMU at which the clock's reading can
  -- be converted and of which the packing accepts the HIL_SENSOR: the one with this message, the
  -- pressure and the field that came last before it. It sends none for any other event.
  pub count_hil_sensor-run :
      (es : List (Event F)) → count is_hil_sensor (run f gz accepts es).sent ≡ due_from none none es
  unfolding run
  count_hil_sensor-run es = count_hil_sensor-run_from (initial f) es ∙ omega arith
