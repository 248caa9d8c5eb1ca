-- ===== src/Bridge/Sensors.antt =====
-- The handlers of `SensorBridge` for Gazebo's messages, with the cache that they share. The reading
-- of `time.time()` is an argument.
use infinity_autopilot.Prelude.{
  ℕ, ◌/◌, [], ◌∷◌, Option, none, some, ◌>>=◌, if◌then◌else◌, length, get_elem?,
}
use infinity_autopilot.Ekf.Types.{V3, vector}
use infinity_autopilot.Bridge.Int.{ℤ, ◌%ℤ◌}
use infinity_autopilot.Bridge.Float.{Float}
use infinity_autopilot.Bridge.Atmosphere.{sea_level_p, pressure_to_altitude}
use infinity_autopilot.Bridge.Messages.{
  Imu, NavSat, LaserScan, HilSensor, DistanceSensor, HilGps, Action, Reply, quiet, send, raises,
}

-- `_imu`, `_baro` (the pressure of its message), `_mag` (the field of its message).
pub record Cache (F : Type 0) : Type 0 where
  pub imu : Option (Imu F)
  pub baro : Option F
  pub mag : Option (V3 F)

-- Send what is computed, where computing it raises no exception.
abbrev pub send_as : {F M : Type 0} → (M → Action F) → Option M → Reply F
send_as kind none = raises
send_as kind (some m) = send (kind m)

abbrev pub on_time : {F : Type 0} → Option ℤ → (ℤ → Reply F) → Reply F
on_time none next = raises
on_time (some t) next = next t

-- 0b1111111111111
abbrev pub all_fields : ℕ
all_fields = 8191

module _ {F : Type 0} (f : Float F) where
  infixl 70 ◌*◌ ◌/ᶠ◌
  open f use {decimal, neg, ◌*◌, ◌/◌ as ◌/ᶠ◌, is_finite, to_int, hypot, atan2, degrees}

  abbrev pub no_cache : Cache F
  no_cache = record { imu = none; baro = none; mag = none }

  -- From tesla to gauss, or a simulated field.
  abbrev pub field_gauss : Option (V3 F) → V3 F
  field_gauss (some b) =
      vector (b.x * decimal 10000 0) (b.y * decimal 10000 0) (b.z * decimal 10000 0)
  field_gauss none = vector (decimal 21 2) (decimal 1 2) (neg (decimal 44 2))

  -- The pressure and the temperature.
  abbrev pub air : Option F → F × F
  air (some pressure) = (pressure, decimal 0 0)
  air none = (sea_level_p f, decimal 250 1)

  -- The message that is sent for an IMU's, with what is cached of the others.
  unfoldable pub fused : ℤ → Imu F → Option F → Option (V3 F) → HilSensor F
  fused t_us imu baro mag =
      let (abs_pressure_pa, temperature) = air baro in
      record {
        time_usec = t_us;
        acc = imu.linear_acceleration;
        gyro = imu.angular_velocity;
        mag = field_gauss mag;
        abs_pressure = abs_pressure_pa /ᶠ decimal 1000 1;
        diff_pressure = decimal 0 1;
        pressure_alt = pressure_to_altitude f abs_pressure_pa;
        temperature = temperature;
        fields_updated = all_fields;
        id = 0;
      }

  unfoldable pub send_hil_sensor : F → Cache F → Reply F
  send_hil_sensor now c = elim c.imu [
    | none ↦ quiet
    | some imu ↦
        send_as Action.hil_sensor
          (do t_us ← to_int (now * decimal 1000000 0); some (fused t_us imu c.baro c.mag))
  ]

  unfoldable pub on_imu : F → Imu F → Cache F → Cache F × Reply F
  on_imu now msg c = let c' = record c { imu = some msg } in (c', send_hil_sensor now c')

  unfoldable pub on_baro : F → Cache F → Cache F × Reply F
  on_baro pressure c = (record c { baro = some pressure }, quiet)

  unfoldable pub on_mag : V3 F → Cache F → Cache F × Reply F
  on_mag field_tesla c = (record c { mag = some field_tesla }, quiet)

  abbrev pub course : NavSat F → F
  course msg = degrees (atan2 msg.velocity_east msg.velocity_north) * decimal 100 0

  unfoldable pub gps_message : F → NavSat F → Option HilGps
  gps_message now msg = do
    t_us ← to_int (now * decimal 1000000 0)
    lat ← to_int (msg.latitude_deg * decimal 10000000 0)
    lon ← to_int (msg.longitude_deg * decimal 10000000 0)
    alt ← to_int (msg.altitude * decimal 1000 0)
    vn ← to_int (msg.velocity_north * decimal 100 0)
    ve ← to_int (msg.velocity_east * decimal 100 0)
    vd ← to_int (neg msg.velocity_up * decimal 100 0)
    gs ← to_int (hypot msg.velocity_north msg.velocity_east * decimal 100 0)
    cog ← to_int (course msg)
    some (record {
      time_usec = t_us;
      fix_type = 3;
      lat = lat;
      lon = lon;
      alt = alt;
      eph = 30;
      epv = 50;
      vel = gs;
      vn = vn;
      ve = ve;
      vd = vd;
      cog = cog %ℤ 36000;
      satellites_visible = 12;
    })

  unfoldable pub on_gps : F → NavSat F → Reply F
  on_gps now msg = send_as Action.hil_gps (gps_message now msg)

  -- The message for the middle reading. `none` is an exception of `int`.
  unfoldable pub distance_message : ℤ → F → LaserScan F → Option (DistanceSensor F)
  distance_message t_ms dist_m msg = do
    dist_cm ← to_int (dist_m * decimal 100 0)
    min_cm ← to_int (msg.range_min * decimal 100 0)
    max_cm ← to_int (msg.range_max * decimal 100 0)
    some (record {
      time_boot_ms = t_ms;
      min_distance = min_cm;
      max_distance = max_cm;
      current_distance = dist_cm;
      kind = 0;
      id = 0;
      orientation = 25;
      covariance = 255;
      horizontal_fov = decimal 0 1;
      vertical_fov = decimal 0 1;
      quaternion = 0 ∷ 0 ∷ 0 ∷ 0 ∷ [];
      signal_quality = 0;
    })

  -- From the middle reading on, which is `none` where indexing would raise an `IndexError`.
  unfoldable pub on_middle : ℤ → Option F → LaserScan F → Reply F
  on_middle t_ms none msg = raises
  on_middle t_ms (some dist_m) msg =
      if is_finite dist_m
      then send_as Action.distance_sensor (distance_message t_ms dist_m msg)
      else quiet

  unfoldable pub on_lidar : F → LaserScan F → Reply F
  on_lidar now msg = elim msg.ranges [
    | [] ↦ quiet
    | r ∷ rs ↦
        on_time (to_int (now * decimal 1000 0))
          (λ t_ms. on_middle t_ms (get_elem? (r ∷ rs) (length (r ∷ rs) / 2)) msg)
  ]
