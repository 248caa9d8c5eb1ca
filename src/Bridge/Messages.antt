-- ===== src/Bridge/Messages.antt =====
-- The messages of Gazebo that the bridge reads, and those of MAVLink that it sends.
use infinity_autopilot.Prelude.{ℕ, List}
use infinity_autopilot.Ekf.Types.{V3}
use infinity_autopilot.Bridge.Int.{ℤ}

module _ (F : Type 0) where
  -- `IMU`.
  pub record Imu : Type 0 where
    pub linear_acceleration : V3 F
    pub angular_velocity : V3 F

  -- `NavSat`.
  pub record NavSat : Type 0 where
    pub latitude_deg : F
    pub longitude_deg : F
    pub altitude : F
    pub velocity_north : F
    pub velocity_east : F
    pub velocity_up : F

  -- `LaserScan`.
  pub record LaserScan : Type 0 where
    pub ranges : List F
    pub range_min : F
    pub range_max : F

  -- The arguments of `hil_sensor_send`.
  pub record HilSensor : Type 0 where
    pub time_usec : ℤ
    pub acc : V3 F
    pub gyro : V3 F
    pub mag : V3 F
    pub abs_pressure : F
    pub diff_pressure : F
    pub pressure_alt : F
    pub temperature : F
    pub fields_updated : ℕ
    pub id : ℕ

  -- The arguments of `distance_sensor_send` that are numbers.
  pub record DistanceSensor : Type 0 where
    pub time_boot_ms : ℤ
    pub min_distance : ℤ
    pub max_distance : ℤ
    pub current_distance : ℤ
    pub kind : ℕ
    pub id : ℕ
    pub orientation : ℕ
    pub covariance : ℕ
    pub horizontal_fov : F
    pub vertical_fov : F
    pub quaternion : List ℕ
    pub signal_quality : ℕ

-- The arguments of `hil_gps_send`.
pub record HilGps : Type 0 where
  pub time_usec : ℤ
  pub fix_type : ℕ
  pub lat : ℤ
  pub lon : ℤ
  pub alt : ℤ
  pub eph : ℕ
  pub epv : ℕ
  pub vel : ℤ
  pub vn : ℤ
  pub ve : ℤ
  pub vd : ℤ
  pub cog : ℕ
  pub satellites_visible : ℕ

-- `HEARTBEAT`, by the names of the enumerators.
pub data Enumerator : Type 0 where
  mav_type_generic mav_autopilot_invalid mav_state_active : Enumerator

pub record Heartbeat : Type 0 where
  pub type : Enumerator
  pub autopilot : Enumerator
  pub base_mode : ℕ
  pub custom_mode : ℕ
  pub system_status : Enumerator

-- What the bridge hands over: a message for MAVLink, or the speeds for Gazebo's motors.
pub data Action (F : Type 0) : Type 0 where
  hil_sensor : HilSensor F → Action F
  hil_gps : HilGps → Action F
  distance_sensor : DistanceSensor F → Action F
  heartbeat : Heartbeat → Action F
  motor_speed : List F → Action F

-- What a handler does: it returns without sending, it sends, or it raises an exception first.
pub data Reply (F : Type 0) : Type 0 where
  quiet : Reply F
  send : Action F → Reply F
  raises : Reply F
