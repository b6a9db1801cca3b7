-- ===== src/Ros/Publish.antt =====
-- Which message src/ros/gateway_node.cpp publishes for the frame of a document that
-- src/ingestion/telemetry_ingestion_engine.cpp accepts.
use mathlib.Core.Option
use secure_ros2_gateway.Prelude.{
  ℕ, ◌≡◌, refl, inl, inr, Bool-cases, Option, none, some, if◌then◌else◌,
}
use secure_ros2_gateway.Prelude.Text.{Text, text, text_eq}
use secure_ros2_gateway.Json.{ok}
use secure_ros2_gateway.Ingestion.Payload.{last_number, lookup-load-nil}
use secure_ros2_gateway.Ingestion.Record.{record_of, record_of-parts}
use secure_ros2_gateway.Ingestion.{sensor_category}
use secure_ros2_gateway.Ros.Runtime.{Platform}
use secure_ros2_gateway.Ros.{Frame, Reading, percentage, degrees, linear_x, reading_of}

module _ (P : Platform) where
  open P use {to_float}
  open P.json use {Value, Double, contains, items}

  -- The number that a document holds under a key.
  abbrev number_at : Value → Text → Option Double
  number_at v key = last_number P.json key (items v)

  -- The first of the three keys that a document has decides.
  abbrev pub reading_of_document : Value → Option (Reading P)
  reading_of_document v =
      if contains v (text "battery")
      then some (percentage (Option.map to_float (number_at v (text "battery"))))
      else if contains v (text "temperature")
      then some (degrees (number_at v (text "temperature")))
      else if contains v (text "velocity_x")
      then some (linear_x (number_at v (text "velocity_x")))
      else none

  -- The frame of a document is published on the topic of the first of the keys `battery`,
  -- `temperature` and `velocity_x` that the document has, with the number that it has there, or
  -- the message's default where that is not a number; the frame of a document without these keys
  -- is not published.
  pub reading_of-record_of :
      (now : ℕ) (v : Value) (frame : Frame P)
      → record_of P.json now v ≡ ok frame
      → reading_of P frame ≡ reading_of_document v
  unfolding reading_of sensor_category text_eq
  reading_of-record_of now v frame h =
      let (_, _, _, s, m) = record_of-parts P.json now v h in
      rw (s, m, lookup-load-nil, lookup-load-nil, lookup-load-nil)
        (elim (Bool-cases (contains v (text "battery"))) [
          | inl b ↦ rw b refl
          | inr b ↦ elim (Bool-cases (contains v (text "temperature"))) [
            | inl t ↦ rw (b, t) refl
            | inr t ↦ elim (Bool-cases (contains v (text "velocity_x"))) [
              | inl x ↦ rw (b, t, x) refl
              | inr x ↦ rw (b, t, x) refl
            ]
          ]
        ])
