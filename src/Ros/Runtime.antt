-- ===== src/Ros/Runtime.antt =====
-- The libraries and the runtime that the node of src/ros/gateway_node.cpp stands on.
use secure_ros2_gateway.Prelude.{ℕ, List}
use secure_ros2_gateway.Prelude.Text.{Text}
use secure_ros2_gateway.Json.{Json}
use secure_ros2_gateway.Security.OpenSsl.{Evp}
use secure_ros2_gateway.Storage.Sqlite.{SqliteApi}
use secure_ros2_gateway.Storage.Payload.{Doubles}

pub record Platform : Type 1 where
  pub json : Json
  pub evp : Evp
  pub sqlite : SqliteApi
  -- `std::to_string` of a `double`, and the order in which an unordered map is walked.
  pub to_string : json.Double → Text
  pub walk : List (Text × json.Double) → List (Text × json.Double)
  -- A `double` literal with a whole value.
  pub double : ℕ → json.Double
  -- `static_cast<float>`
  pub Float : Type 0
  pub to_float : json.Double → Float

abbrev pub doubles : Platform → Doubles
doubles P = record { Double = P.json.Double; to_string = P.to_string; walk = P.walk }
