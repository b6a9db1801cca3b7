-- ===== src/Ingestion/Record.antt =====
-- The record that parse_and_validate makes of a document, and how each call ends.
use secure_ros2_gateway.Prelude.{ℕ, ◌%◌, ◌^◌, ◌≡◌, refl, List, [], arith, if◌then◌else◌, inl, inr}
use secure_ros2_gateway.Prelude.Text.{Text, text}
use secure_ros2_gateway.Telemetry.{TelemetryData}
use secure_ros2_gateway.Json.{Json, IsJson, Except, Except-cases, ok, raised}
use secure_ros2_gateway.Ingestion.{
  IngestionStatus, success, field, sensor_category, parse_fields, read_robot_id, read_sequence_id,
  read_timestamp,
}
use secure_ros2_gateway.Ingestion.Payload.{load, read_payload_lem}

module _ (J : Json) where
  open J use {Value, Double, contains}

  -- The first key that is there names the robot.
  abbrev pub robot_id_of : Value → Except Text
  robot_id_of v =
      if contains v (text "client_id")
      then field J J.get_string v (text "client_id")
      else if contains v (text "robot_id")
      then field J J.get_string v (text "robot_id")
      else ok (text "unknown_robot")

  abbrev pub number_or : Value → Text → ℕ → Except ℕ
  number_or v key default = if contains v key then field J J.get_uint64 v key else ok default

  abbrev pub record_with :
      Except Text
      → Except ℕ
      → Except ℕ
      → Text
      → List (Text × Double)
      → Except (TelemetryData Double)
  record_with (raised e) n t s m = raised e
  record_with (ok id) (raised e) t s m = raised e
  record_with (ok id) (ok n) (raised e) s m = raised e
  record_with (ok id) (ok n) (ok t) s m = ok (record {
    robot_id = id;
    sensor_type = s;
    timestamp_ns = t;
    sequence_id = n;
    payload_values = m;
  })

  -- The record of a document, or the exception of the first field that has the wrong type.
  abbrev pub record_of : ℕ → Value → Except (TelemetryData Double)
  record_of now v =
      record_with (robot_id_of v) (number_or v (text "sequence_id") 0)
        (number_or v (text "timestamp_ns") (now % 2 ^ 64)) (sensor_category J v)
        (load J (J.items v) [])

  -- Each reader writes its field, or throws and leaves `out_data` as it was.
  abbrev put {ℓ} :
      {A : Type ℓ}
      → Except A
      → (A → TelemetryData Double)
      → TelemetryData Double
      → Except (Unit {0}) × TelemetryData Double
  put (ok a) f out = (ok tt, f a)
  put (raised e) f out = (raised e, out)

  read_robot_id_lem :
      (v : Value) (out : TelemetryData Double)
      → read_robot_id J v out ≡ put (robot_id_of v) (λ id. record out { robot_id = id }) out
  unfolding read_robot_id
  read_robot_id_lem v out = ground arith

  read_sequence_id_lem :
      (v : Value) (out : TelemetryData Double)
      → read_sequence_id J v out
        ≡ put (number_or v (text "sequence_id") 0) (λ n. record out { sequence_id = n }) out
  unfolding read_sequence_id
  read_sequence_id_lem v out = ground arith

  read_timestamp_lem :
      (now : ℕ) (v : Value) (out : TelemetryData Double)
      → read_timestamp J now v out
        ≡ put
            (number_or v (text "timestamp_ns") (now % 2 ^ 64))
            (λ n. record out { timestamp_ns = n })
            out
  unfolding read_timestamp
  read_timestamp_lem now v out = ground arith

  -- How the `try` block ends: the fields that were read before a failing one stay written.
  abbrev pub outcome :
      Except Text
      → Except ℕ
      → Except ℕ
      → Text
      → List (Text × Double)
      → TelemetryData Double
      → Except IngestionStatus × TelemetryData Double
  outcome (raised e) n t s m out = (raised e, out)
  outcome (ok id) (raised e) t s m out = (raised e, record out { robot_id = id })
  outcome (ok id) (ok n) (raised e) s m out =
      (raised e, record out { robot_id = id; sequence_id = n })
  outcome (ok id) (ok n) (ok t) s m out = (
    ok success,
    record {
      robot_id = id;
      sensor_type = s;
      timestamp_ns = t;
      sequence_id = n;
      payload_values = m;
    },
  )

  abbrev pub outcome_of :
      ℕ → Value → TelemetryData Double → Except IngestionStatus × TelemetryData Double
  outcome_of now v =
      outcome (robot_id_of v) (number_or v (text "sequence_id") 0)
        (number_or v (text "timestamp_ns") (now % 2 ^ 64)) (sensor_category J v)
        (load J (J.items v) [])

  pub parse_fields_lem :
      IsJson J
      → (now : ℕ) (raw : Text) (out : TelemetryData Double) (v : Value) → J.parse raw ≡ ok v
      → parse_fields J now raw out ≡ outcome_of now v out
  unfolding parse_fields
  parse_fields_lem L now raw out v p = elim (Except-cases (robot_id_of v)) [
    | inr (e, a) ↦ rw (p, read_robot_id_lem, a) refl
    | inl (id, a) ↦ elim (Except-cases (number_or v (text "sequence_id") 0)) [
      | inr (e, b) ↦ rw (p, read_robot_id_lem, a, read_sequence_id_lem, b) refl
      | inl (n, b) ↦ elim (Except-cases (number_or v (text "timestamp_ns") (now % 2 ^ 64))) [
        | inr (e, c) ↦
            rw (p, read_robot_id_lem, a, read_sequence_id_lem, b, read_timestamp_lem, c) refl
        | inl (t, c) ↦
            rw (p, read_robot_id_lem, a, read_sequence_id_lem, b, read_timestamp_lem, c)
              (rw (read_payload_lem J L (J.items v) _) refl)
      ]
    ]
  ]

  record_with_parts :
      (id : Except Text) (n t : Except ℕ) (s : Text) (m : List (Text × Double))
      {d : TelemetryData Double}
      → record_with id n t s m ≡ ok d
      → (id ≡ ok d.robot_id)
        × (n ≡ ok d.sequence_id)
        × (t ≡ ok d.timestamp_ns)
        × (d.sensor_type ≡ s)
        × (d.payload_values ≡ m)
  record_with_parts (raised e) n t s m h = cc
  record_with_parts (ok id) (raised e) t s m h = cc
  record_with_parts (ok id) (ok n) (raised e) s m h = cc
  record_with_parts (ok id) (ok n) (ok t) s m h = ground arith

  -- The fields of the record of a document.
  pub record_of-parts :
      (now : ℕ) (v : Value) {d : TelemetryData Double}
      → record_of now v ≡ ok d
      → (robot_id_of v ≡ ok d.robot_id)
        × (number_or v (text "sequence_id") 0 ≡ ok d.sequence_id)
        × (number_or v (text "timestamp_ns") (now % 2 ^ 64) ≡ ok d.timestamp_ns)
        × (d.sensor_type ≡ sensor_category J v)
        × (d.payload_values ≡ load J (J.items v) [])
  record_of-parts now v h =
      record_with_parts (robot_id_of v) (number_or v (text "sequence_id") 0)
        (number_or v (text "timestamp_ns") (now % 2 ^ 64)) (sensor_category J v)
        (load J (J.items v) []) h
