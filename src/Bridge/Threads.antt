-- ===== src/Bridge/Threads.antt =====
-- The bridge at work: Gazebo's callbacks, which its transport makes one at a time, the thread of
-- `_mavlink_rx_loop` and the thread of `run`, interleaved as the events tell.
use infinity_autopilot.Prelude.{
  List, [], ◌∷◌, ◌++◌, Option, none, some, Bool, true, false, if◌then◌else◌,
}
use infinity_autopilot.Ekf.Types.{V3}
use infinity_autopilot.Bridge.Float.{Float}
use infinity_autopilot.Bridge.Messages.{
  Imu, NavSat, LaserScan, Enumerator, Heartbeat, Action, Reply, quiet, send, raises,
}
use infinity_autopilot.Bridge.Sensors.{Cache, no_cache, on_imu, on_baro, on_mag, on_gps, on_lidar}
use infinity_autopilot.Bridge.Motors.{send_motor_speeds}

-- What `recv_match` returns, where it is no timeout.
pub data Incoming (F : Type 0) : Type 0 where
  hil_actuator_controls : List F → Incoming F
  heartbeat : Incoming F

-- Where the receiving thread stands: before the loop's test, in `recv_match`, before the
-- handling of a message, behind the loop, or ended by an exception.
pub data Place (F : Type 0) : Type 0 where
  testing : Place F
  receiving : Place F
  handling : Incoming F → Place F
  finished : Place F
  crashed : Place F

pub record Bridge (F : Type 0) : Type 0 where
  pub cache : Cache F
  pub running : Bool
  pub place : Place F
  pub sent : List (Action F)

-- A callback with the reading of the clock, a step of the receiving thread with what
-- `recv_match` gives if it stands there, or the `KeyboardInterrupt` in `run`.
pub data Event (F : Type 0) : Type 0 where
  imu : F → Imu F → Event F
  baro : F → Event F
  mag : V3 F → Event F
  gps : F → NavSat F → Event F
  lidar : F → LaserScan F → Event F
  receive : Option (Incoming F) → Event F
  interrupt : Event F

abbrev pub echo : Heartbeat
echo = record {
  type = Enumerator.mav_type_generic;
  autopilot = Enumerator.mav_autopilot_invalid;
  base_mode = 0;
  custom_mode = 0;
  system_status = Enumerator.mav_state_active;
}

-- `accepts a` tells whether MAVLink's packing of the message raises no exception; a callback's
-- exception ends only the callback.
module _ {F : Type 0} (accepts : Action F → Bool) where
  abbrev pub delivered : Reply F → List (Action F)
  delivered quiet = []
  delivered (send a) = if accepts a then a ∷ [] else []
  delivered raises = []

  -- Where the receiving thread goes after handling.
  abbrev pub after : Reply F → Place F
  after quiet = Place.testing
  after (send a) = if accepts a then Place.testing else Place.crashed
  after raises = Place.crashed

  abbrev pub record_sent : Bridge F → Reply F → Bridge F
  record_sent b r = record b { sent = b.sent ++ delivered r }

  abbrev pub with_cache : Bridge F → Cache F × Reply F → Bridge F
  with_cache b (c, r) = record b { cache = c; sent = b.sent ++ delivered r }

module _ {F : Type 0} (f : Float F) where
  unfoldable pub handle : Bool → Incoming F → Reply F
  handle gz (Incoming.hil_actuator_controls controls) = send_motor_speeds f gz controls
  handle gz Incoming.heartbeat = send (Action.heartbeat echo)

  -- `__init__`, and `run` up to the start of the thread.
  abbrev pub initial : Bridge F
  initial = record { cache = no_cache f; running = true; place = Place.testing; sent = [] }

module _ {F : Type 0} (f : Float F) (gz : Bool) (accepts : Action F → Bool) where
  -- One step of `_mavlink_rx_loop`.
  unfoldable pub receive_step : Option (Incoming F) → Place F → Bridge F → Bridge F
  receive_step m Place.testing b = record b {
    place = if b.running then Place.receiving else Place.finished;
  }
  receive_step none Place.receiving b = record b { place = Place.testing }
  receive_step (some msg) Place.receiving b = record b { place = Place.handling msg }
  receive_step m (Place.handling msg) b = record b {
    place = after accepts (handle f gz msg);
    sent = b.sent ++ delivered accepts (handle f gz msg);
  }
  receive_step m Place.finished b = b
  receive_step m Place.crashed b = b

  unfoldable pub step : Event F → Bridge F → Bridge F
  step (Event.imu now msg) b = with_cache accepts b (on_imu f now msg b.cache)
  step (Event.baro pressure) b = with_cache accepts b (on_baro f pressure b.cache)
  step (Event.mag field_tesla) b = with_cache accepts b (on_mag f field_tesla b.cache)
  step (Event.gps now msg) b = record_sent accepts b (on_gps f now msg)
  step (Event.lidar now msg) b = record_sent accepts b (on_lidar f now msg)
  step (Event.receive m) b = receive_step m b.place b
  step Event.interrupt b = record b { running = false }

  unfoldable pub run_from : Bridge F → List (Event F) → Bridge F
  run_from b [] = b
  run_from b (e ∷ es) = run_from (step e b) es

  unfoldable pub run : List (Event F) → Bridge F
  run = run_from (initial f)
