-- ===== src/Tests/Packet.antt =====
-- include/secure_telemetry_gateway/telemetry/telemetry_data.hpp at work.
use secure_ros2_gateway.Prelude.{ℕ, ◌≡◌, refl, true, none, ltb}
use secure_ros2_gateway.Prelude.Text.{text}
use secure_ros2_gateway.Packet.{TelemetryPacket, is_critical, fault}

abbrev packet : TelemetryPacket ℕ ℕ
packet = record {
  sequence_number = 4;
  timestamp_us = 90;
  robot_id = text "amr";
  current_state = fault;
  hardware = record {
    cpu_utilization_pct = 1;
    ram_utilization_pct = 1;
    core_temperature_c = 30;
    battery_voltage_v = 24;
    battery_percentage = 80;
    active_fault_codes = 2;
  };
  kinematics = record {
    position_xyz = (0, 0, 0);
    linear_velocity = (0, 0, 0);
    angular_velocity = (0, 0, 0);
    orientation_q = (1, 0, 0, 0);
  };
  status_message = none;
}

-- A packet with a fault is critical, whatever its battery.
fault_critical : is_critical (λ x. ltb x 10) packet ≡ true
unfolding is_critical
fault_critical = refl
