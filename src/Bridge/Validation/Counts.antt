-- ===== src/Bridge/Validation/Counts.antt =====
-- How many messages of a kind a run sends.
use infinity_autopilot.Prelude.{
  ℕ, ◌+◌, ◌≡◌, refl, ap, sym, List, [], ◌∷◌, ◌++◌, append-nil, Option, none, some, Bool, true,
  false, if◌then◌else◌, get_elem?, length, ◌/◌, arith,
}
use infinity_autopilot.Bridge.Int.{ℤ}
use infinity_autopilot.Bridge.Float.{Float}
use infinity_autopilot.Bridge.Messages.{
  NavSat, LaserScan, HilGps, DistanceSensor, Action, Reply, quiet, send,
}
use infinity_autopilot.Bridge.Sensors.{
  send_as, gps_message, on_imu, on_baro, on_mag, on_gps, on_lidar, on_time, on_middle,
  distance_message,
}
use infinity_autopilot.Bridge.Motors.{publish, send_motor_speeds}
use infinity_autopilot.Bridge.Threads.{
  Bridge, Event, Incoming, Place, delivered, handle, receive_step, step, run_from,
}

module _ {F : Type 0} where
  abbrev pub is_hil_sensor : Action F → ℕ
  is_hil_sensor (Action.hil_sensor s) = 1
  is_hil_sensor (Action.hil_gps g) = 0
  is_hil_sensor (Action.distance_sensor d) = 0
  is_hil_sensor (Action.heartbeat h) = 0
  is_hil_sensor (Action.motor_speed v) = 0

  abbrev pub is_heartbeat : Action F → ℕ
  is_heartbeat (Action.hil_sensor s) = 0
  is_heartbeat (Action.hil_gps g) = 0
  is_heartbeat (Action.distance_sensor d) = 0
  is_heartbeat (Action.heartbeat h) = 1
  is_heartbeat (Action.motor_speed v) = 0

  abbrev pub count : (Action F → ℕ) → List (Action F) → ℕ
  count is [] = 0
  count is (a ∷ as') = is a + count is as'

  -- The sum over a run's events.
  abbrev pub total : (Event F → ℕ) → List (Event F) → ℕ
  total worth [] = 0
  total worth (e ∷ es) = worth e + total worth es

  pub count-++ :
      (is : Action F → ℕ) (xs ys : List (Action F))
      → count is (xs ++ ys) ≡ count is xs + count is ys
  count-++ is [] ys = omega arith
  count-++ is (x ∷ xs) ys = omega (arith, count-++ is xs ys)

  -- A computed message that is of another kind is not counted, whatever it is computed from.
  abbrev pub Uncounted : (Action F → ℕ) → (Action F → Bool) → Reply F → Type 0
  Uncounted is accepts r = count is (delivered accepts r) ≡ 0

  module _ (is : Action F → ℕ) (accepts : Action F → Bool) where
    pub Uncounted-send : (a : Action F) → is a ≡ 0 → Uncounted is accepts (send a)
    Uncounted-send a h = go (accepts a)
      where
        go : (b : Bool) → count is (if b then a ∷ [] else []) ≡ 0
        go true = omega (arith, h)
        go false = refl

    pub Uncounted-send_as :
        {M : Type 0} (kind : M → Action F) (r : Option M)
        → ((m : M) → is (kind m) ≡ 0)
        → Uncounted is accepts (send_as kind r)
    Uncounted-send_as kind none h = refl
    Uncounted-send_as kind (some m) h = Uncounted-send (kind m) (h m)

    module _ (f : Float F) where
      pub Uncounted-on_gps :
          ((g : HilGps) → is (Action.hil_gps g) ≡ 0)
          → (now : F) (msg : NavSat F) → Uncounted is accepts (on_gps f now msg)
      unfolding on_gps
      Uncounted-on_gps h now msg = Uncounted-send_as Action.hil_gps (gps_message f now msg) h

      Uncounted-on_middle :
          ((d : DistanceSensor F) → is (Action.distance_sensor d) ≡ 0)
          → (t : ℤ) (d : Option F) (msg : LaserScan F) → Uncounted is accepts (on_middle f t d msg)
      unfolding on_middle
      Uncounted-on_middle h t none msg = refl
      Uncounted-on_middle h t (some d) msg = go (f.is_finite d)
        where
          go :
              (b : Bool)
              → Uncounted is accepts
                  (if b then send_as Action.distance_sensor (distance_message f t d msg) else quiet)
          go true = Uncounted-send_as Action.distance_sensor (distance_message f t d msg) h
          go false = refl

      pub Uncounted-on_lidar :
          ((d : DistanceSensor F) → is (Action.distance_sensor d) ≡ 0)
          → (now : F) (msg : LaserScan F) → Uncounted is accepts (on_lidar f now msg)
      unfolding on_lidar
      Uncounted-on_lidar h now msg = go msg.ranges (f.to_int (f.◌*◌ now (f.decimal 1000 0)))
        where
          go :
              (rs : List F) (t : Option ℤ)
              → Uncounted is accepts (elim rs [
                | [] ↦ quiet
                | r ∷ rs ↦
                    on_time t
                      (λ t_ms. on_middle f t_ms (get_elem? (r ∷ rs) (length (r ∷ rs) / 2)) msg)
              ])
          go [] t = refl
          go (r ∷ rs) none = refl
          go (r ∷ rs) (some t) = Uncounted-on_middle h t _ msg

      pub Uncounted-motors :
          ((v : List F) → is (Action.motor_speed v) ≡ 0)
          → (gz : Bool) (controls : List F) → Uncounted is accepts (send_motor_speeds f gz controls)
      unfolding send_motor_speeds
      Uncounted-motors h gz controls = go gz _
        where
          go : (gz : Bool) (v : Option (List F)) → Uncounted is accepts (publish gz v)
          go gz none = refl
          go true (some v) = Uncounted-send _ (h v)
          go false (some v) = refl

module _ {F : Type 0} (f : Float F) (gz : Bool) (accepts : Action F → Bool) where
  -- What the thread's step replies.
  abbrev pub reply_at : Place F → Reply F
  reply_at Place.testing = quiet
  reply_at Place.receiving = quiet
  reply_at (Place.handling msg) = handle f gz msg
  reply_at Place.finished = quiet
  reply_at Place.crashed = quiet

  abbrev pub reply : Event F → Bridge F → Reply F
  reply (Event.imu now msg) b = (on_imu f now msg b.cache).1
  reply (Event.baro p) b = quiet
  reply (Event.mag v) b = quiet
  reply (Event.gps now msg) b = on_gps f now msg
  reply (Event.lidar now msg) b = on_lidar f now msg
  reply (Event.receive m) b = reply_at b.place
  reply Event.interrupt b = quiet

  receive_step-sent :
      (m : Option (Incoming F)) (p : Place F) (b : Bridge F)
      → (receive_step f gz accepts m p b).sent ≡ b.sent ++ delivered accepts (reply_at p)
  unfolding receive_step
  receive_step-sent m Place.testing b = sym (append-nil b.sent)
  receive_step-sent none Place.receiving b = sym (append-nil b.sent)
  receive_step-sent (some msg) Place.receiving b = sym (append-nil b.sent)
  receive_step-sent m (Place.handling msg) b = refl
  receive_step-sent m Place.finished b = sym (append-nil b.sent)
  receive_step-sent m Place.crashed b = sym (append-nil b.sent)

  pub step-sent :
      (e : Event F) (b : Bridge F)
      → (step f gz accepts e b).sent ≡ b.sent ++ delivered accepts (reply e b)
  unfolding step on_baro on_mag
  step-sent (Event.imu now msg) b = refl
  step-sent (Event.baro p) b = refl
  step-sent (Event.mag v) b = refl
  step-sent (Event.gps now msg) b = refl
  step-sent (Event.lidar now msg) b = refl
  step-sent (Event.receive m) b = receive_step-sent m b.place b
  step-sent Event.interrupt b = sym (append-nil b.sent)

  -- A run counts what each of its events counts.
  pub count-run_from :
      (is : Action F → ℕ) (worth : Event F → ℕ)
      → ((e : Event F) (b : Bridge F) → count is (delivered accepts (reply e b)) ≡ worth e)
      → (b : Bridge F) (es : List (Event F))
      → count is (run_from f gz accepts b es).sent ≡ count is b.sent + total worth es
  unfolding run_from
  count-run_from is worth h b [] = omega arith
  count-run_from is worth h b (e ∷ es) = omega (
    arith,
    count-run_from is worth h (step f gz accepts e b) es,
    ap (count is) (step-sent e b),
    count-++ is b.sent (delivered accepts (reply e b)),
    h e b,
  )
