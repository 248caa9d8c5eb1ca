-- ===== src/Bridge/Validation/SensorMessage.antt =====
-- What a HIL_SENSOR message has to hold (`_send_hil_sensor` of
-- scripts/simulation/gazebo/infinity_gazebo_bridge.py), written out.
use infinity_autopilot.Prelude.{◌≡◌, refl, Option, none, some}
use infinity_autopilot.Ekf.Types.{V3, vector}
use infinity_autopilot.Bridge.Int.{ℤ}
use infinity_autopilot.Bridge.Float.{Float}
use infinity_autopilot.Bridge.Atmosphere.{pressure_to_altitude}
use infinity_autopilot.Bridge.Messages.{Imu, HilSensor}
use infinity_autopilot.Bridge.Sensors.{fused}

module _ {F : Type 0} (f : Float F) where
  infixl 65 ◌-◌
  infixl 70 ◌*◌ ◌/◌
  open f use {decimal, neg, ◌-◌, ◌*◌, ◌/◌, pow}

  -- In gauss: the magnetometer's field, which is in tesla, or (0.21, 0.01, -0.44).
  abbrev pub magnetic : Option (V3 F) → V3 F
  magnetic none = vector (decimal 21 2) (decimal 1 2) (neg (decimal 44 2))
  magnetic (some b) = vector (b.x * decimal 10000 0) (b.y * decimal 10000 0) (b.z * decimal 10000 0)

  -- In pascal: the barometer's pressure, or 101325.
  abbrev pub pascals : Option F → F
  pascals none = decimal 1013250 1
  pascals (some pressure) = pressure

  -- In degrees: 0 with the barometer's pressure, and 25 without.
  abbrev pub degrees : Option F → F
  degrees none = decimal 250 1
  degrees (some pressure) = decimal 0 0

  -- In metres: 288.15 / 0.0065 · (1 - (p / 101325) ^ (287.058 · 0.0065 / 9.80665)).
  abbrev pub metres : F → F
  metres p =
      decimal 28815 2
      / decimal 65 4
      * (decimal 1 0
          - pow (p / decimal 1013250 1) (decimal 287058 3 * decimal 65 4 / decimal 980665 5))

  -- The message at a time for a message of the IMU, a last pressure and a last field.
  abbrev pub sensor_message : ℤ → Imu F → Option F → Option (V3 F) → HilSensor F
  sensor_message t_us msg baro mag = record {
    time_usec = t_us;
    acc = msg.linear_acceleration;
    gyro = msg.angular_velocity;
    mag = magnetic mag;
    abs_pressure = pascals baro / decimal 1000 1;
    diff_pressure = decimal 0 1;
    pressure_alt = metres (pascals baro);
    temperature = degrees baro;
    fields_updated = 8191;
    id = 0;
  }

  pub fused-sensor_message :
      (t_us : ℤ) (msg : Imu F) (baro : Option F) (mag : Option (V3 F))
      → fused f t_us msg baro mag ≡ sensor_message t_us msg baro mag
  unfolding fused pressure_to_altitude
  fused-sensor_message t_us msg none none = refl
  fused-sensor_message t_us msg none (some b) = refl
  fused-sensor_message t_us msg (some p) none = refl
  fused-sensor_message t_us msg (some p) (some b) = refl
