-- ===== src/Bridge/Examples.antt =====
-- Tests of the bridge's model, and its theorems at concrete inputs.
use infinity_autopilot.Prelude.{
  ℕ, ◌<◌, ◌≡◌, ◌↔◌, refl, List, [], ◌∷◌, ◌++◌, Option, none, some, Bool, true, false, length, arith,
}
use infinity_autopilot.Ring.Mod3.{z2}
use infinity_autopilot.Ekf.Types.{V3, vector}
use infinity_autopilot.Bridge.Int.{pos, fits}
use infinity_autopilot.Bridge.Fractions.{Fraction, fraction, fractions, fractions-IsOrdered}
use infinity_autopilot.Bridge.Residues.{residues, residues-IsExact}
use infinity_autopilot.Bridge.Atmosphere.{
  altitude_to_pressure, pressure_to_altitude, pressure_to_altitude-altitude_to_pressure,
}
use infinity_autopilot.Bridge.Messages.{
  Imu, NavSat, LaserScan, HilGps, DistanceSensor, Action, send, raises,
}
use infinity_autopilot.Bridge.Sensors.{on_gps, on_lidar, gps_message, on_middle, distance_message}
use infinity_autopilot.Bridge.Motors.{num_motors, speeds_loop, send_motor_speeds}
use infinity_autopilot.Bridge.Threads.{Bridge, Event, Incoming, Place, initial, step, run_from, run}
use infinity_autopilot.Bridge.Validation.SensorMessage.{sensor_message}
use infinity_autopilot.Bridge.Validation.History.{run-cache, run-imu}
use infinity_autopilot.Bridge.Validation.Counts.{is_hil_sensor, is_heartbeat, count}
use infinity_autopilot.Bridge.Validation.HilSensors.{count_hil_sensor-run}
use infinity_autopilot.Bridge.Validation.Heartbeats.{heartbeat-echoed}
use infinity_autopilot.Bridge.Validation.Ending.{has_ended, run_from-has_ended}
use infinity_autopilot.Bridge.Validation.MotorBounds.{
  clamped_speed, send_motor_speeds-clamped, send_motor_speeds-raises,
}
use infinity_autopilot.Bridge.Validation.MotorSafety.{All, IsSafe, run-AllSafe}
use infinity_autopilot.Bridge.Validation.Course.{IsCourse, on_gps-IsCourse}
use infinity_autopilot.Bridge.Validation.Lidar.{
  IsPacking, IsReading, on_lidar-IsReading, step-lidar_late,
}

abbrev F : Type 0
F = Option Fraction

abbrev whole : ℕ → F
whole n = some (fraction n 1)

abbrev nan : F
nan = none

-- A packing that refuses what does not fit into the time of a DISTANCE_SENSOR.
abbrev packs : Action F → Bool
packs (Action.hil_sensor m) = true
packs (Action.hil_gps m) = true
packs (Action.distance_sensor m) = fits m.time_boot_ms 4294967296
packs (Action.heartbeat m) = true
packs (Action.motor_speed speeds) = true

packs-IsPacking : IsPacking packs
packs-IsPacking = record { time_boot_ms-fits = λ d h. h }

abbrev at_rest : Imu F
at_rest = record {
  linear_acceleration = vector (whole 0) (whole 0) (whole 10);
  angular_velocity = vector (whole 0) (whole 0) (whole 0);
}

abbrev field : V3 F
field = vector (whole 1) (whole 2) (whole 3)

abbrev fix : NavSat F
fix = record {
  latitude_deg = whole 45;
  longitude_deg = whole 9;
  altitude = whole 120;
  velocity_north = whole 3;
  velocity_east = whole 400;
  velocity_up = whole 0;
}

abbrev scan : LaserScan F
scan = record {
  ranges = whole 1 ∷ whole 2 ∷ whole 3 ∷ [];
  range_min = whole 0;
  range_max = whole 10;
}

abbrev half : F
half = some (fraction 5 10)

abbrev controls : List F
controls = half ∷ whole 2 ∷ nan ∷ whole 0 ∷ half ∷ []

abbrev events : List (Event F)
events =
    Event.imu (whole 1) at_rest
    ∷ Event.baro (whole 90000)
    ∷ Event.receive none
    ∷ Event.mag field
    ∷ Event.receive (some (Incoming.hil_actuator_controls controls))
    ∷ Event.gps (whole 2) fix
    ∷ Event.receive none
    ∷ Event.lidar (whole 2) scan
    ∷ []

-- The controls are clamped, and NaN becomes full speed.
commanded :
    send_motor_speeds fractions true controls
    ≡ send (
        Action.motor_speed (
          some (fraction 55000 100)
          ∷ some (fraction 110000 100)
          ∷ some (fraction 110000 100)
          ∷ some (fraction 0 100)
          ∷ []))
unfolding send_motor_speeds speeds_loop
commanded = refl

run-cache_example :
    (run fractions true packs events).cache
    ≡ record { imu = some at_rest; baro = some (whole 90000); mag = some field }
run-cache_example = run-cache fractions true packs events

run-imu_example :
    (run fractions true packs (events ++ Event.imu (whole 3) at_rest ∷ [])).sent
    ≡ (run fractions true packs events).sent
      ++ Action.hil_sensor
          (sensor_message fractions (pos 3000000) at_rest (some (whole 90000)) (some field))
        ∷ []
run-imu_example = run-imu fractions true packs events (whole 3) at_rest (pos 3000000) refl refl

count_hil_sensor-run_example : count is_hil_sensor (run fractions true packs events).sent ≡ 1
count_hil_sensor-run_example = count_hil_sensor-run fractions true packs events

abbrev waiting : Bridge F
waiting = record (initial fractions) { place = Place.receiving }

heartbeat-echoed_example :
    count is_heartbeat
      (run_from fractions true packs waiting (
        Event.receive (some Incoming.heartbeat)
        ∷ Event.imu (whole 1) at_rest
        ∷ Event.interrupt
        ∷ Event.receive none
        ∷ [])).sent
    ≡ 1
heartbeat-echoed_example =
    heartbeat-echoed fractions true packs waiting
      (Event.imu (whole 1) at_rest ∷ Event.interrupt ∷ []) none refl refl (tt, (tt, tt))

abbrev stopped : Bridge F
stopped = record (initial fractions) { running = false; place = Place.receiving }

run_from-has_ended_example :
    has_ended
      (run_from fractions true packs stopped (
        Event.receive (some Incoming.heartbeat)
        ∷ Event.baro (whole 90000)
        ∷ Event.receive none
        ∷ Event.receive none
        ∷ [])).place
    ≡ true
run_from-has_ended_example =
    run_from-has_ended fractions true packs stopped
      (Event.receive (some Incoming.heartbeat)
        ∷ Event.baro (whole 90000)
        ∷ Event.receive none
        ∷ Event.receive none
        ∷ [])
      refl (omega arith)

abbrev speeds : List F
speeds =
    clamped_speed fractions half
    ∷ clamped_speed fractions (whole 2)
    ∷ clamped_speed fractions nan
    ∷ clamped_speed fractions (whole 0)
    ∷ []

send_motor_speeds-clamped_example :
    send_motor_speeds fractions true controls ≡ send (Action.motor_speed speeds)
send_motor_speeds-clamped_example =
    send_motor_speeds-clamped fractions fractions-IsOrdered true half (whole 2) nan (whole 0)
      (half ∷ [])

send_motor_speeds-raises_example :
    (send_motor_speeds fractions true (half ∷ nan ∷ []) ≡ raises)
    ↔ (length (half ∷ nan ∷ []) < num_motors)
send_motor_speeds-raises_example = send_motor_speeds-raises fractions true (half ∷ nan ∷ [])

run-AllSafe_example : All (IsSafe fractions) (run fractions true packs events).sent
run-AllSafe_example = run-AllSafe fractions fractions-IsOrdered refl true packs events

abbrev fix_sent : HilGps
fix_sent = record {
  time_usec = pos 2000000;
  fix_type = 3;
  lat = pos 450000000;
  lon = pos 90000000;
  alt = pos 120000;
  eph = 30;
  epv = 50;
  vel = pos 300;
  vn = pos 300;
  ve = pos 40000;
  vd = pos 0;
  cog = 4000;
  satellites_visible = 12;
}

passed_on : on_gps fractions (whole 2) fix ≡ send (Action.hil_gps fix_sent)
unfolding on_gps gps_message
passed_on = refl

on_gps-IsCourse_example : IsCourse fractions fix fix_sent
on_gps-IsCourse_example = on_gps-IsCourse fractions (whole 2) fix fix_sent passed_on

abbrev distance_sent : DistanceSensor F
distance_sent = record {
  time_boot_ms = pos 2000;
  min_distance = pos 0;
  max_distance = pos 1000;
  current_distance = pos 200;
  kind = 0;
  id = 0;
  orientation = 25;
  covariance = 255;
  horizontal_fov = some (fraction 0 10);
  vertical_fov = some (fraction 0 10);
  quaternion = 0 ∷ 0 ∷ 0 ∷ 0 ∷ [];
  signal_quality = 0;
}

handed_over : on_lidar fractions (whole 2) scan ≡ send (Action.distance_sensor distance_sent)
unfolding on_lidar on_middle distance_message
handed_over = refl

on_lidar-IsReading_example : IsReading fractions (whole 2) scan distance_sent
on_lidar-IsReading_example = on_lidar-IsReading fractions (whole 2) scan distance_sent handed_over

-- In seconds since 1970.
abbrev today : F
today = whole 1770000000

step-lidar_late_example :
    (step fractions true packs (Event.lidar today scan) waiting).sent ≡ waiting.sent
step-lidar_late_example =
    step-lidar_late fractions true packs packs-IsPacking today scan (pos 1770000000000) waiting refl
      refl

pressure_to_altitude-altitude_to_pressure_example :
    pressure_to_altitude residues (altitude_to_pressure residues z2) ≡ z2
pressure_to_altitude-altitude_to_pressure_example =
    pressure_to_altitude-altitude_to_pressure residues residues-IsExact z2 (λ e. cc e) (λ e. cc e)
      (λ e. cc e) (λ e. cc e) (λ e. cc e) refl
