-- ===== src/Tests/Ingestion.antt =====
-- parse_and_validate and process_payload of src/ingestion/telemetry_ingestion_engine.cpp on
-- documents of the small JSON library.
use secure_ros2_gateway.Prelude.{ℕ, ◌≡◌, refl, [], ◌∷◌}
use secure_ros2_gateway.Prelude.Text.{Text, text, split_on, text_eq}
use secure_ros2_gateway.Prelude.Dict.{lookup, insert, NodupKeys}
use secure_ros2_gateway.Telemetry.{TelemetryData, default_data}
use secure_ros2_gateway.Json.{ok, raised, type_error}
use secure_ros2_gateway.Json.Toy.{small_json, small_json-IsJson, Value, fields, parse}
use secure_ros2_gateway.Queue.{Queue}
use secure_ros2_gateway.Ingestion.{success, parse_and_validate, sensor_category}
use secure_ros2_gateway.Ingestion.Payload.{load, last_number}
use secure_ros2_gateway.Ingestion.Record.{record_of}
use secure_ros2_gateway.Ingestion.Status.{
  Keeps, parse_and_validate_payload, parse_and_validate_ok, parse_and_validate_type_error,
}

abbrev good : Text
good = text "client_id=amr;battery=98;battery=97;note=ok;timestamp_ns=5"

abbrev good_value : Value
good_value = fields (
    (text "client_id", text "amr")
    ∷ (text "battery", text "98")
    ∷ (text "battery", text "97")
    ∷ (text "note", text "ok")
    ∷ (text "timestamp_ns", text "5")
    ∷ [])

abbrev good_record : TelemetryData ℕ
good_record = record {
  robot_id = text "amr";
  sensor_type = text "battery";
  timestamp_ns = 5;
  sequence_id = 0;
  payload_values = (text "battery", 97) ∷ (text "timestamp_ns", 5) ∷ [];
}

parse_good : parse good ≡ ok good_value
unfolding split_on
parse_good = refl

record_of_good : record_of small_json 3 good_value ≡ ok good_record
unfolding sensor_category load lookup insert text_eq
record_of_good = refl

-- A sequence number that is a text.
abbrev ill_typed : Text
ill_typed = text "robot_id=amr;sequence_id=one"

abbrev ill_typed_value : Value
ill_typed_value = fields ((text "robot_id", text "amr") ∷ (text "sequence_id", text "one") ∷ [])

parse_ill_typed : parse ill_typed ≡ ok ill_typed_value
unfolding split_on
parse_ill_typed = refl

record_of_ill_typed : record_of small_json 3 ill_typed_value ≡ raised type_error
unfolding lookup text_eq
record_of_ill_typed = refl

abbrev one_place : Queue (TelemetryData ℕ)
one_place = record { items = []; max_capacity = 1 }

parse_and_validate_type_error_example :
    ((parse_and_validate small_json 3 ill_typed good_record).0 ≡ raised type_error)
    × Keeps small_json good_record (parse_and_validate small_json 3 ill_typed good_record).1
parse_and_validate_type_error_example =
    parse_and_validate_type_error small_json small_json-IsJson 3 ill_typed good_record
      parse_ill_typed record_of_ill_typed

good_accepted : (parse_and_validate small_json 3 good default_data).0 ≡ ok success
good_accepted =
    rw
      (parse_and_validate_ok small_json small_json-IsJson 3 good default_data parse_good
        record_of_good)
      refl

parse_and_validate_payload_example :
    ((k : Text)
      → lookup k (parse_and_validate small_json 3 good default_data).1.payload_values
        ≡ last_number small_json k (small_json.items good_value))
    × NodupKeys (parse_and_validate small_json 3 good default_data).1.payload_values
parse_and_validate_payload_example =
    parse_and_validate_payload small_json small_json-IsJson 3 good default_data parse_good
      good_accepted
