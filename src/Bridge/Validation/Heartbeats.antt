-- ===== src/Bridge/Validation/Heartbeats.antt =====
-- A heartbeat is answered.
use infinity_autopilot.Prelude.{
  suc, ◌≡◌, refl, ap, sym, subst, ◌∙◌, List, [], ◌∷◌, ◌++◌, Option, some, Bool, true, arith,
}
use infinity_autopilot.Bridge.Float.{Float}
use infinity_autopilot.Bridge.Messages.{Action}
use infinity_autopilot.Bridge.Sensors.{send_hil_sensor, on_imu}
use infinity_autopilot.Bridge.Threads.{
  Bridge, Event, Incoming, Place, echo, delivered, handle, receive_step, step, run_from,
}
use infinity_autopilot.Bridge.Validation.Counts.{
  is_heartbeat, count, count-++, Uncounted, Uncounted-send_as, Uncounted-on_gps, Uncounted-on_lidar,
  reply, step-sent,
}

-- No step of the receiving thread.
abbrev pub NoReceive : {F : Type 0} → Event F → Type 0
NoReceive (Event.imu now msg) = Unit
NoReceive (Event.baro p) = Unit
NoReceive (Event.mag v) = Unit
NoReceive (Event.gps now msg) = Unit
NoReceive (Event.lidar now msg) = Unit
NoReceive (Event.receive m) = ⊥
NoReceive Event.interrupt = Unit

abbrev pub AllNoReceive : {F : Type 0} → List (Event F) → Type 0
AllNoReceive [] = Unit
AllNoReceive (e ∷ es) = NoReceive e × AllNoReceive es

module _ {F : Type 0} (f : Float F) (gz : Bool) (accepts : Action F → Bool) where
  step-place : (e : Event F) (b : Bridge F) → NoReceive e → (step f gz accepts e b).place ≡ b.place
  unfolding step
  step-place (Event.imu now msg) b h = refl
  step-place (Event.baro p) b h = refl
  step-place (Event.mag v) b h = refl
  step-place (Event.gps now msg) b h = refl
  step-place (Event.lidar now msg) b h = refl
  step-place (Event.receive m) b h = absurd h
  step-place Event.interrupt b h = refl

  heartbeat-reply :
      (e : Event F) (b : Bridge F)
      → NoReceive e
      → Uncounted is_heartbeat accepts (reply f gz accepts e b)
  unfolding on_imu send_hil_sensor
  heartbeat-reply (Event.imu now msg) b h =
      Uncounted-send_as is_heartbeat accepts Action.hil_sensor _ (λ s. refl)
  heartbeat-reply (Event.baro p) b h = refl
  heartbeat-reply (Event.mag v) b h = refl
  heartbeat-reply (Event.gps now msg) b h =
      Uncounted-on_gps is_heartbeat accepts f (λ g. refl) now msg
  heartbeat-reply (Event.lidar now msg) b h =
      Uncounted-on_lidar is_heartbeat accepts f (λ d. refl) now msg
  heartbeat-reply (Event.receive m) b h = absurd h
  heartbeat-reply Event.interrupt b h = refl

  heartbeat-step :
      (e : Event F) (b : Bridge F)
      → NoReceive e
      → count is_heartbeat (step f gz accepts e b).sent ≡ count is_heartbeat b.sent
  heartbeat-step e b h = omega (
    arith,
    ap (count is_heartbeat) (step-sent f gz accepts e b),
    count-++ is_heartbeat b.sent (delivered accepts (reply f gz accepts e b)),
    heartbeat-reply e b h,
  )

  -- At the thread's next step the message in hand is answered.
  answered :
      (b : Bridge F) (m : Option (Incoming F))
      → b.place ≡ Place.handling Incoming.heartbeat
      → accepts (Action.heartbeat echo) ≡ true
      → count is_heartbeat (step f gz accepts (Event.receive m) b).sent
        ≡ suc (count is_heartbeat b.sent)
  unfolding step receive_step handle
  answered b m e ok =
      subst
        (λ p.
          count is_heartbeat (receive_step f gz accepts m p b).sent
          ≡ suc (count is_heartbeat b.sent))
        (sym e) (rw ok (count-++ is_heartbeat b.sent _ ∙ omega arith))

  answered_later :
      (b : Bridge F) (es : List (Event F)) (m : Option (Incoming F))
      → b.place ≡ Place.handling Incoming.heartbeat
      → accepts (Action.heartbeat echo) ≡ true
      → AllNoReceive es
      → count is_heartbeat (run_from f gz accepts b (es ++ Event.receive m ∷ [])).sent
        ≡ suc (count is_heartbeat b.sent)
  unfolding run_from
  answered_later b [] m e ok h = answered b m e ok
  answered_later b (d ∷ es) m e ok h =
      answered_later (step f gz accepts d b) es m (step-place d b h.0 ∙ e) ok h.1
      ∙ ap suc (heartbeat-step d b h.0)

  -- When the receiving thread waits and a HEARTBEAT comes, then after any callbacks, and an
  -- interrupt or none, the thread's next step has sent exactly one HEARTBEAT more, if MAVLink's
  -- packing accepts it.
  pub heartbeat-echoed :
      (b : Bridge F) (es : List (Event F)) (m : Option (Incoming F))
      → b.place ≡ Place.receiving
      → accepts (Action.heartbeat echo) ≡ true
      → AllNoReceive es
      → count is_heartbeat
          (run_from f gz accepts b
            (Event.receive (some Incoming.heartbeat) ∷ es ++ Event.receive m ∷ [])).sent
        ≡ suc (count is_heartbeat b.sent)
  unfolding run_from step
  heartbeat-echoed b es m e ok h =
      answered_later (step f gz accepts (Event.receive (some Incoming.heartbeat)) b) es m
        (subst
          (λ p.
            (receive_step f gz accepts (some Incoming.heartbeat) p b).place
            ≡ Place.handling Incoming.heartbeat)
          (sym e) taken_place)
        ok h
      ∙ ap (λ n. suc n)
          (subst
            (λ p.
              count is_heartbeat (receive_step f gz accepts (some Incoming.heartbeat) p b).sent
              ≡ count is_heartbeat b.sent)
            (sym e) taken_sent)
    where
      taken_place :
          (receive_step f gz accepts (some Incoming.heartbeat) Place.receiving b).place
          ≡ Place.handling Incoming.heartbeat
      taken_place = unfold receive_step in refl

      taken_sent :
          count is_heartbeat
            (receive_step f gz accepts (some Incoming.heartbeat) Place.receiving b).sent
          ≡ count is_heartbeat b.sent
      taken_sent = unfold receive_step in refl
