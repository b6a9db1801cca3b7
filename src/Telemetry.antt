-- ===== src/Telemetry.antt =====
-- include/secure_telemetry_gateway/models/telemetry_data.hpp. A `double` is of a type `D` that the
-- model does not look into.
use secure_ros2_gateway.Prelude.{ℕ, List, []}
use secure_ros2_gateway.Prelude.Text.{Text}

pub record TelemetryData {ℓ} (D : Type ℓ) : Type ℓ where
  pub robot_id : Text
  pub sensor_type : Text
  pub timestamp_ns : ℕ
  pub sequence_id : ℕ
  pub payload_values : List (Text × D)

-- `models::TelemetryData data;`
abbrev pub default_data {ℓ} : {D : Type ℓ} → TelemetryData D
default_data = record {
  robot_id = [];
  sensor_type = [];
  timestamp_ns = 0;
  sequence_id = 0;
  payload_values = [];
}
