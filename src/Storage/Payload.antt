-- ===== src/Storage/Payload.antt =====
-- The JSON text of a payload, as insert_telemetry and insert_batch of
-- src/storage/storage_engine.cpp write it.
pub mod Format
pub mod Members
use secure_ros2_gateway.Prelude.{Bool, true, false, List, [], ◌∷◌, ◌++◌, if◌then◌else◌}
use secure_ros2_gateway.Prelude.Text.{Text, text}

-- `double`, `std::to_string` of it, and the order in which an unordered map is walked.
pub record Doubles : Type 1 where
  pub Double : Type 0
  pub to_string : Double → Text
  pub walk : List (Text × Double) → List (Text × Double)

module _ (F : Doubles) where
  unfoldable pub member : Text × F.Double → Text
  member (key, value) = text "\"" ++ key ++ text "\":" ++ F.to_string value

  -- The loop with its flag `first` and the text so far.
  unfoldable pub render : List (Text × F.Double) → Bool → Text → Text
  unfolding member
  render [] first json = json
  render (kv ∷ rest) first json =
      render rest false ((if first then json else json ++ text ",") ++ member kv)

  unfoldable pub payload_json : List (Text × F.Double) → Text
  payload_json payload = render (F.walk payload) true (text "{") ++ text "}"
