-- ===== src/Ingestion.antt =====
-- src/ingestion/telemetry_ingestion_engine.cpp and its header. The clock of the host is an
-- argument, the nanoseconds since the epoch that `system_clock::now()` shows at the call.

pub mod Payload
pub mod Record
pub mod Status
use secure_ros2_gateway.Prelude.{
  ℕ, ◌%◌, ◌^◌, Bool, true, false, List, [], ◌∷◌, Option, none, some, if◌then◌else◌,
}
use secure_ros2_gateway.Prelude.Text.{Text, text}
use secure_ros2_gateway.Prelude.Dict.{insert}
use secure_ros2_gateway.Telemetry.{TelemetryData, default_data}
use secure_ros2_gateway.Json.{
  Json, Except, ok, raised, Exception, parse_error, type_error, out_of_range,
}
use secure_ros2_gateway.Queue.{Queue, push}

pub data IngestionStatus : Type 0 where
  success invalid_json_syntax missing_required_fields : IngestionStatus
  timestamp_out_of_bounds payload_exceeds_size_limit queue_full : IngestionStatus

-- Code that writes `out_data` as it goes, and may leave by an exception.
abbrev pub Writer {ℓ} : (D : Type 0) → Type ℓ → Type ℓ
Writer D A = TelemetryData D → Except A × TelemetryData D

abbrev pub resume {ℓ κ} :
    {D : Type 0} {A : Type ℓ} {B : Type κ}
    → Except A
    → (A → Writer D B)
    → TelemetryData D
    → Except B × TelemetryData D
resume (ok a) f out = f a out
resume (raised e) f out = (raised e, out)

infixl 5 ◌>>=◌ ◌>>◌
abbrev pub ◌>>=◌ {ℓ κ} :
    {D : Type 0} {A : Type ℓ} {B : Type κ} → Writer D A → (A → Writer D B) → Writer D B
m >>= f = λ out. resume (m out).0 f (m out).1

abbrev pub ◌>>◌ {ℓ} : {D : Type 0} {B : Type ℓ} → Writer D (Unit {0}) → Writer D B → Writer D B
m >> k = m >>= λ _. k

abbrev pub try {ℓ} : {D : Type 0} {A : Type ℓ} → Except A → Writer D A
try r out = (r, out)

abbrev pub write : {D : Type 0} → (TelemetryData D → TelemetryData D) → Writer D (Unit {0})
write f out = (ok tt, f out)

module _ (J : Json) where
  open J use {Value, Double, contains, index, is_number}

  -- `parsed[key].get<T>()`
  abbrev pub field {ℓ} : {A : Type ℓ} → (Value → Except A) → Value → Text → Except A
  field get v key = elim (index v key) [ ok w ↦ get w | raised e ↦ raised e ]

  pub read_robot_id : Value → Writer Double (Unit {0})
  read_robot_id parsed =
      if contains parsed (text "client_id")
      then (do
        id ← try (field J.get_string parsed (text "client_id"))
        write (λ out. record out { robot_id = id }))
      else if contains parsed (text "robot_id")
      then (do
        id ← try (field J.get_string parsed (text "robot_id"))
        write (λ out. record out { robot_id = id }))
      else write (λ out. record out { robot_id = text "unknown_robot" })

  pub read_sequence_id : Value → Writer Double (Unit {0})
  read_sequence_id parsed =
      if contains parsed (text "sequence_id")
      then (do
        n ← try (field J.get_uint64 parsed (text "sequence_id"))
        write (λ out. record out { sequence_id = n }))
      else write (λ out. record out { sequence_id = 0 })

  pub read_timestamp : ℕ → Value → Writer Double (Unit {0})
  read_timestamp now parsed =
      if contains parsed (text "timestamp_ns")
      then (do
        n ← try (field J.get_uint64 parsed (text "timestamp_ns"))
        write (λ out. record out { timestamp_ns = n }))
      else write (λ out. record out { timestamp_ns = now % 2 ^ 64 })

  -- The loop over `parsed.items()`.
  pub read_payload : List (Text × Value) → Writer Double (Unit {0})
  read_payload [] = write (λ out. out)
  read_payload ((key, value) ∷ rest) =
      let later = read_payload rest in
      if is_number value
      then (do
        d ← try (J.get_double value)
        write (λ out. record out { payload_values = insert key d out.payload_values })
        later)
      else later

  unfoldable pub sensor_category : Value → Text
  sensor_category parsed =
      if contains parsed (text "battery")
      then text "battery"
      else if contains parsed (text "temperature")
      then text "temperature"
      else if contains parsed (text "velocity_x")
      then text "velocity"
      else text "generic"

  -- The body of the `try` block.
  pub parse_fields : ℕ → Text → Writer Double IngestionStatus
  parse_fields now raw_json = do
    parsed ← try (J.parse raw_json)
    read_robot_id parsed
    read_sequence_id parsed
    read_timestamp now parsed
    write (λ out. record out { payload_values = [] })
    read_payload (J.items parsed)
    write (λ out. record out { sensor_type = sensor_category parsed })
    try (ok success)

  -- The handler: a parse error is a status, any other exception passes on.
  pub catch_parse_error : Except IngestionStatus → Except IngestionStatus
  catch_parse_error (ok status) = ok status
  catch_parse_error (raised parse_error) = ok invalid_json_syntax
  catch_parse_error (raised type_error) = raised type_error
  catch_parse_error (raised out_of_range) = raised out_of_range

  pub parse_and_validate : ℕ → Text → Writer Double IngestionStatus
  unfolding catch_parse_error
  parse_and_validate now raw_json out =
      let (r, out') = parse_fields now raw_json out in (catch_parse_error r, out')

  abbrev pub queue_parsed :
      Except IngestionStatus
      → TelemetryData Double
      → Queue (TelemetryData Double)
      → Except IngestionStatus × Queue (TelemetryData Double)
  queue_parsed (ok success) parsed target_queue =
      let (accepted, target_queue') = push parsed target_queue in
      (if accepted then ok success else ok queue_full, target_queue')
  queue_parsed status parsed target_queue = (status, target_queue)

  unfoldable pub process_payload :
      ℕ
      → Text
      → Queue (TelemetryData Double)
      → Except IngestionStatus × Queue (TelemetryData Double)
  process_payload now raw_json target_queue =
      let (status, parsed) = parse_and_validate now raw_json default_data in
      queue_parsed status parsed target_queue

-- `validate_field_bounds` checks nothing; nothing calls it.
pub validate_field_bounds {ℓ} : {D : Type ℓ} → TelemetryData D → Bool
validate_field_bounds out = true
