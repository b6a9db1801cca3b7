-- ===== src/Packet/Names.antt =====
-- The names of the states of include/secure_telemetry_gateway/telemetry/telemetry_data.hpp.
use secure_ros2_gateway.Prelude.{◌≤◌, ◌≡◌, ◌⊎◌, ◌↔◌, ◌||◌, arith, Bool}
use secure_ros2_gateway.Prelude.Text.{text, text_eq}
use secure_ros2_gateway.Packet.{RobotState, TelemetryPacket, to_string, is_critical}

-- Two states have the same name exactly when they are the same, or neither is one of the seven. A
-- packet is critical exactly when its state has the name of an emergency stop or of a fault, or its
-- battery is below ten percent.
pub to_string_lem :
    {D F : Type 0} (s t : RobotState) (less_than_ten : F → Bool) (p : TelemetryPacket D F)
    → ((to_string s ≡ to_string t) ↔ ((s ≡ t) ⊎ ((7 ≤ s) × (7 ≤ t))))
      × (is_critical less_than_ten p ≡ (
          text_eq (to_string p.current_state) (text "EMERGENCY_STOP")
          || text_eq (to_string p.current_state) (text "FAULT")
          || less_than_ten p.hardware.battery_percentage))
unfolding to_string is_critical text_eq
to_string_lem s t less_than_ten p = ((λ h. ground arith, λ h. ground arith), ground arith)
