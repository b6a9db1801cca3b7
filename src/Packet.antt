-- ===== src/Packet.antt =====
-- include/secure_telemetry_gateway/telemetry/telemetry_data.hpp: the unified telemetry packet. A
-- double and a float are of types that the model does not look into.
pub mod Names
use secure_ros2_gateway.Prelude.{
  ℕ, ◌%◌, ◌^◌, Bool, ◌||◌, List, [], ◌∷◌, Option, none, ◌==◌, if◌then◌else◌,
}
use secure_ros2_gateway.Prelude.Int.{ℤ, to_uint64}
use secure_ros2_gateway.Prelude.Text.{Text, text}

-- `enum class RobotState : uint8_t` can hold any byte; seven of them have names.
abbrev pub RobotState : Type 0
RobotState = ℕ

abbrev pub uninitialized : RobotState
uninitialized = 0

abbrev pub disarmed : RobotState
disarmed = 1

abbrev pub standby : RobotState
standby = 2

abbrev pub autonomous : RobotState
autonomous = 3

abbrev pub manual_remote : RobotState
manual_remote = 4

abbrev pub emergency_stop : RobotState
emergency_stop = 5

abbrev pub fault : RobotState
fault = 6

pub to_string : RobotState → Text
to_string state =
    if state == uninitialized
    then text "UNINITIALIZED"
    else if state == disarmed
    then text "DISARMED"
    else if state == standby
    then text "STANDBY"
    else if state == autonomous
    then text "AUTONOMOUS"
    else if state == manual_remote
    then text "MANUAL_REMOTE"
    else if state == emergency_stop
    then text "EMERGENCY_STOP"
    else if state == fault
    then text "FAULT"
    else text "UNKNOWN"

pub record HardwareMetrics (D F : Type 0) : Type 0 where
  pub cpu_utilization_pct : D
  pub ram_utilization_pct : D
  pub core_temperature_c : D
  pub battery_voltage_v : D
  pub battery_percentage : F
  pub active_fault_codes : ℕ

-- Arrays of doubles as tuples.
pub record KinematicData (D : Type 0) : Type 0 where
  pub position_xyz : D × D × D
  pub linear_velocity : D × D × D
  pub angular_velocity : D × D × D
  pub orientation_q : D × D × D × D

pub record TelemetryPacket (D F : Type 0) : Type 0 where
  pub sequence_number : ℕ
  pub timestamp_us : ℕ
  pub robot_id : Text
  pub current_state : RobotState
  pub hardware : HardwareMetrics D F
  pub kinematics : KinematicData D
  pub status_message : Option Text

-- `now_microseconds`: the cast of the clock's count.
pub now_microseconds : ℤ → ℕ
now_microseconds count = to_uint64 count

-- `less_than_ten` is the test `x < 10.0f` on a float.
unfoldable pub is_critical : {D F : Type 0} → (F → Bool) → TelemetryPacket D F → Bool
is_critical less_than_ten p =
    p.current_state == emergency_stop
    || p.current_state == fault
    || less_than_ten p.hardware.battery_percentage
