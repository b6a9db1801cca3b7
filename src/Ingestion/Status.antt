-- ===== src/Ingestion/Status.antt =====
-- How parse_and_validate and process_payload end, on every document.
use secure_ros2_gateway.Prelude.{
  ℕ, ◌%◌, ◌^◌, ◌≢◌, ◌≡◌, refl, true, List, [], ◌∷◌, ◌++◌, arith, if◌then◌else◌, Bool-cases, inl,
  inr, leb,
}
use secure_ros2_gateway.Prelude.Text.{Text, text}
use secure_ros2_gateway.Prelude.Dict.{lookup, NodupKeys}
use secure_ros2_gateway.Telemetry.{TelemetryData, default_data}
use secure_ros2_gateway.Json.{
  Json, IsJson, Exception, Except, Except-cases, ok, raised, parse_error, type_error, out_of_range,
  Raises,
}
use secure_ros2_gateway.Queue.{Queue, push, size}
use secure_ros2_gateway.Ingestion.{
  success, invalid_json_syntax, queue_full, field, sensor_category, parse_fields,
  parse_and_validate, process_payload, catch_parse_error,
}
use secure_ros2_gateway.Ingestion.Payload.{load, last_number, lookup-load-nil, load-NodupKeys}
use secure_ros2_gateway.Ingestion.Record.{
  robot_id_of, number_or, record_with, record_of, outcome, parse_fields_lem,
}

module _ (J : Json) where
  open J use {Value, Double}

  outcome_ok :
      (id : Except Text) (n t : Except ℕ) (s : Text) (m : List (Text × Double))
      (out : TelemetryData Double) {d : TelemetryData Double}
      → record_with J id n t s m ≡ ok d
      → outcome J id n t s m out ≡ (ok success, d)
  outcome_ok (raised e) n t s m out h = cc
  outcome_ok (ok id) (raised e) t s m out h = cc
  outcome_ok (ok id) (ok n) (raised e) s m out h = cc
  outcome_ok (ok id) (ok n) (ok t) s m out h = ground arith

  record_with_payload :
      (id : Except Text) (n t : Except ℕ) (s : Text) (m : List (Text × Double))
      {d : TelemetryData Double}
      → record_with J id n t s m ≡ ok d
      → d.payload_values ≡ m
  record_with_payload (raised e) n t s m h = cc
  record_with_payload (ok id) (raised e) t s m h = cc
  record_with_payload (ok id) (ok n) (raised e) s m h = cc
  record_with_payload (ok id) (ok n) (ok t) s m h = ground arith

  -- What a call that throws leaves of the caller's record.
  abbrev pub Keeps : TelemetryData Double → TelemetryData Double → Type 0
  Keeps out out' =
      (out'.sensor_type ≡ out.sensor_type)
      × (out'.timestamp_ns ≡ out.timestamp_ns)
      × (out'.payload_values ≡ out.payload_values)

  outcome_raised :
      (id : Except Text) (n t : Except ℕ) (s : Text) (m : List (Text × Double))
      (out : TelemetryData Double) {e : Exception}
      → record_with J id n t s m ≡ raised e
      → ((outcome J id n t s m out).0 ≡ raised e) × Keeps out (outcome J id n t s m out).1
  outcome_raised (raised e) n t s m out h = (cc, (refl, refl, refl))
  outcome_raised (ok id) (raised e) t s m out h = (cc, (refl, refl, refl))
  outcome_raised (ok id) (ok n) (raised e) s m out h = (cc, (refl, refl, refl))
  outcome_raised (ok id) (ok n) (ok t) s m out h = cc

  module _ (L : IsJson J) where
    -- `parsed[key].get<T>()` on a key that is there throws what the conversion throws.
    field-Raises {ℓ} :
        {A : Type ℓ} (get : Value → Except A) (v : Value) (key : Text)
        → ((w : Value) → Raises type_error (get w))
        → J.contains v key ≡ true
        → Raises type_error (field J get v key)
    field-Raises get v key h c = let (w, e) = L.index_contained v key c in rw (e, Raises) (h w)

    robot_id_of-Raises : (v : Value) → Raises type_error (robot_id_of J v)
    robot_id_of-Raises v = elim (Bool-cases (J.contains v (text "client_id"))) [
      | inl c ↦ rw c (field-Raises J.get_string v (text "client_id") L.get_string_raises c)
      | inr no_client ↦ elim (Bool-cases (J.contains v (text "robot_id"))) [
        | inl c ↦
            rw (no_client, c) (field-Raises J.get_string v (text "robot_id") L.get_string_raises c)
        | inr no_robot ↦ rw (no_client, no_robot) tt
      ]
    ]

    number_or-Raises : (v : Value) (key : Text) (n : ℕ) → Raises type_error (number_or J v key n)
    number_or-Raises v key n = elim (Bool-cases (J.contains v key)) [
      | inl c ↦ rw c (field-Raises J.get_uint64 v key L.get_uint64_raises c)
      | inr c ↦ rw c tt
    ]

    record_with-Raises :
        (id : Except Text) (n t : Except ℕ) (s : Text) (m : List (Text × Double))
        → Raises type_error id
        → Raises type_error n
        → Raises type_error t
        → Raises type_error (record_with J id n t s m)
    record_with-Raises (raised e) n t s m a b c = a
    record_with-Raises (ok id) (raised e) t s m a b c = b
    record_with-Raises (ok id) (ok n) (raised e) s m a b c = c
    record_with-Raises (ok id) (ok n) (ok t) s m a b c = tt

    record_of-Raises : (now : ℕ) (v : Value) → Raises type_error (record_of J now v)
    record_of-Raises now v =
        record_with-Raises (robot_id_of J v) (number_or J v (text "sequence_id") 0)
          (number_or J v (text "timestamp_ns") (now % 2 ^ 64)) _ _ (robot_id_of-Raises v)
          (number_or-Raises v _ _) (number_or-Raises v _ _)

    -- A document with a syntax error is reported as a syntax error, and `out_data` keeps its
    -- fields.
    parse_and_validate_malformed :
        (now : ℕ) (raw : Text) (out : TelemetryData Double)
        → J.parse raw ≡ raised parse_error
        → parse_and_validate J now raw out ≡ (ok invalid_json_syntax, out)
    unfolding parse_and_validate parse_fields catch_parse_error
    parse_and_validate_malformed now raw out p = rw p refl

    -- A number out of range is no status: the parser's exception leaves the call, past its handler,
    -- and `out_data` keeps its fields.
    parse_and_validate_out_of_range :
        (now : ℕ) (raw : Text) (out : TelemetryData Double)
        → J.parse raw ≡ raised out_of_range
        → parse_and_validate J now raw out ≡ (raised out_of_range, out)
    unfolding parse_and_validate parse_fields catch_parse_error
    parse_and_validate_out_of_range now raw out p = rw p refl

    -- A document whose fields have the right types succeeds with the record that it describes,
    -- whatever `out_data` held.
    pub parse_and_validate_ok :
        (now : ℕ) (raw : Text) (out : TelemetryData Double) {v : Value} {d : TelemetryData Double}
        → J.parse raw ≡ ok v
        → record_of J now v ≡ ok d
        → parse_and_validate J now raw out ≡ (ok success, d)
    unfolding parse_and_validate catch_parse_error
    parse_and_validate_ok now raw out {v} {d} p r = rw (parse_fields_lem J L now raw out v p) (
        rw
          (outcome_ok (robot_id_of J v) (number_or J v (text "sequence_id") 0)
            (number_or J v (text "timestamp_ns") (now % 2 ^ 64)) _ _ out r)
          refl)

    -- A document that parses, with a field of the wrong type: the call does not return a status. A
    -- type error leaves it, past its handler, and of `out_data` at most the robot's name and the
    -- sequence number have changed.
    pub parse_and_validate_type_error :
        (now : ℕ) (raw : Text) (out : TelemetryData Double) {v : Value} {e : Exception}
        → J.parse raw ≡ ok v
        → record_of J now v ≡ raised e
        → ((parse_and_validate J now raw out).0 ≡ raised type_error)
          × Keeps out (parse_and_validate J now raw out).1
    unfolding parse_and_validate catch_parse_error
    parse_and_validate_type_error now raw out {v} {e} p r =
        let same : e ≡ type_error = rw r at (record_of-Raises now v) in
        let (a, b) =
          outcome_raised (robot_id_of J v) (number_or J v (text "sequence_id") 0)
            (number_or J v (text "timestamp_ns") (now % 2 ^ 64)) (sensor_category J v)
            (load J (J.items v) []) out r in
        rw (parse_fields_lem J L now raw out v p) (rw (a, same) refl, b)

    -- The payload of an accepted document: under each key the last number that the document has
    -- there, nothing under a key with no number, and no key twice.
    pub parse_and_validate_payload :
        (now : ℕ) (raw : Text) (out : TelemetryData Double) {v : Value}
        → J.parse raw ≡ ok v
        → (parse_and_validate J now raw out).0 ≡ ok success
        → ((k : Text)
            → lookup k (parse_and_validate J now raw out).1.payload_values
              ≡ last_number J k (J.items v))
          × NodupKeys (parse_and_validate J now raw out).1.payload_values
    parse_and_validate_payload now raw out {v} p h = elim (Except-cases (record_of J now v)) [
      | inl (d, r) ↦
          let m = record_with_payload (robot_id_of J v) _ _ _ (load J (J.items v) []) r in
          rw (parse_and_validate_ok now raw out p r)
            (rw m (λ k. lookup-load-nil J k (J.items v), load-NodupKeys J (J.items v) [] tt))
      | inr (e, r) ↦ cc ((parse_and_validate_type_error now raw out p r).0)
    ]

    -- A well-formed document on a queue: its record goes to the back, or, where the queue has no
    -- room, the status says so and the queue stays as it is.
    pub process_payload_ok :
        (now : ℕ) (raw : Text) (q : Queue (TelemetryData Double)) {v : Value}
        {d : TelemetryData Double}
        → J.parse raw ≡ ok v
        → record_of J now v ≡ ok d
        → process_payload J now raw q ≡ (
            if leb q.max_capacity (size q)
            then (ok queue_full, q)
            else (ok success, record q { items = q.items ++ d ∷ [] }))
    unfolding process_payload push size
    process_payload_ok now raw q p r =
        rw (parse_and_validate_ok now raw default_data p r) (ground arith)

    -- A call that does not end in success, whichever way it ends, leaves the queue as it was.
    pub process_payload_rejected :
        (now : ℕ) (raw : Text) (q : Queue (TelemetryData Double))
        → (process_payload J now raw q).0 ≢ ok success
        → (process_payload J now raw q).1 ≡ q
    unfolding process_payload push
    process_payload_rejected now raw q h = ground arith
