-- ===== src/UnitTests/StorageTest.antt =====
-- test/test_storage_engine.cpp: what becomes of its test on the storage engine.
use secure_ros2_gateway.Prelude.{
  ◌≡◌, refl, inl, inr, Bool, true, false, ◌&&◌, ◌==◌, List, [], ◌∷◌, none, if◌then◌else◌,
  Bool-cases,
}
use secure_ros2_gateway.Prelude.Text.{text, text_eq}
use secure_ros2_gateway.Telemetry.{TelemetryData, default_data}
use secure_ros2_gateway.Storage
use secure_ros2_gateway.Storage.{Engine, query_telemetry}
use secure_ros2_gateway.Storage.Sqlite.{SqliteApi}
use secure_ros2_gateway.Storage.Payload.{Doubles}
use secure_ros2_gateway.Storage.Lifecycle.{close_flags, close-close}

module _ (S : SqliteApi) (F : Doubles) where
  pub record Outcome : Type 0 where
    pub passed : Bool
    -- After TearDown and the destructor of the fixture.
    pub storage : Engine S F

  -- `voltage` is the double 24.5.
  abbrev pub data_of : F.Double → TelemetryData F.Double
  data_of voltage = record default_data {
    robot_id = text "amr_test_node";
    sensor_type = text "battery";
    timestamp_ns = 1700000000000000000;
    sequence_id = 42;
    payload_values = (text "voltage", voltage) ∷ [];
  }

  -- The assertion on the number of records, and the expectations on the first.
  abbrev expected : List (TelemetryData F.Double) → Bool
  expected (found ∷ []) = text_eq found.robot_id (text "amr_test_node") && found.sequence_id == 42
  expected _ = false

  -- TearDown, and then the destructor of the fixture.
  abbrev tear_down : Engine S F → Engine S F
  tear_down e = Storage.destroy S F (Storage.close S F e)

  abbrev body : F.Double → Engine S F → Outcome
  body voltage e =
      let (insert_ok, inserted) = Storage.insert_telemetry S F (data_of voltage) e in
      let (results, queried) = query_telemetry S F (text "amr_test_node") 10 inserted in
      record { passed = insert_ok && expected results; storage = tear_down queried }

  pub insert_and_query_telemetry : F.Double → S.World → Outcome
  insert_and_query_telemetry voltage world =
      let (ready, e) = Storage.init S F (Storage.new S F (text ":memory:") world) in
      if ready then body voltage e else record { passed = false; storage = tear_down e }

  torn_down : (e : Engine S F) → ((tear_down e).db ≡ none) × ((tear_down e).insert_stmt ≡ none)
  torn_down e =
      let (_, _, no_db, no_stmt) = close_flags S F e in rw (close-close S F e) (no_db, no_stmt)

  not_passed :
      (insert_ok : Bool) (e : Engine S F)
      → (insert_ok && expected (query_telemetry S F (text "amr_test_node") 10 e).0) ≡ false
  unfolding query_telemetry
  not_passed true e = refl
  not_passed false e = refl

  -- The test fails over every SQLite, whether the connection opens or not and whatever the insertion
  -- returns: the query finds no record. After TearDown no handle is left.
  pub insert_and_query_telemetry_fails :
      (voltage : F.Double) (world : S.World)
      → let outcome = insert_and_query_telemetry voltage world in
        (outcome.passed ≡ false)
        × (outcome.storage.db ≡ none)
        × (outcome.storage.insert_stmt ≡ none)
  unfolding insert_and_query_telemetry query_telemetry
  insert_and_query_telemetry_fails voltage world =
      let (ready, e) = Storage.init S F (Storage.new S F (text ":memory:") world) in
      elim (Bool-cases ready) [
        | inl ready ↦
            let (insert_ok, inserted) = Storage.insert_telemetry S F (data_of voltage) e in
            let (no_db, no_stmt) =
              torn_down (query_telemetry S F (text "amr_test_node") 10 inserted).1 in
            rw ready (not_passed insert_ok inserted, no_db, no_stmt)
        | inr failed ↦ let (no_db, no_stmt) = torn_down e in rw failed (refl, no_db, no_stmt)
      ]
