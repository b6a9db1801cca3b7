-- ===== src/Storage/Columns.antt =====
-- What the columns of a row of src/storage/storage_engine.cpp still tell of its frame.
use secure_ros2_gateway.Prelude.{
  ◌^◌, ◌-◌, ◌<◌, ◌≤◌, ◌≡◌, ◌↔◌, inl, inr, refl, ap, true, false, [], ◌∷◌, ◌++◌, none, arith, ◌==◌,
}
use secure_ros2_gateway.Prelude.Text.{Text}
use secure_ros2_gateway.Prelude.Int.{negsuc, to_int64, to_uint64, to_uint64-to_int64}
use secure_ros2_gateway.Prelude.{ℕ}
use secure_ros2_gateway.Telemetry.{TelemetryData}
use secure_ros2_gateway.Storage.{Engine, insert_telemetry}
use secure_ros2_gateway.Storage.Sqlite.{SqliteApi, IsSqlite, Row, c_str}
use secure_ros2_gateway.Storage.Payload.{Doubles}
use secure_ros2_gateway.Storage.Rows.{IsOpen, row_of}
use secure_ros2_gateway.Storage.Outcomes.{rest_of, insert_view}

-- A text without a NUL byte.
abbrev pub HasNoNul : Text → Type 0
HasNoNul [] = Unit
HasNoNul (b ∷ s) = ((b == 0) ≡ false) × HasNoNul s

c_str_whole : (s : Text) → HasNoNul s → c_str s ≡ s
unfolding c_str
c_str_whole [] h = refl
c_str_whole (b ∷ s) (e, h) = rw (e, c_str_whole s h) refl

-- A number of the upper half comes out as a negative one.
negative_half : (n : ℕ) → n < 2 ^ 64 → (2 ^ 63 ≤ n) ↔ ((k : ℕ) × (to_int64 n ≡ negsuc k))
unfolding to_int64
negative_half n h = (λ big. (2 ^ 64 - 1 - n, ground arith), λ (k, e). ground arith)

-- The parts of a frame that fit the columns: its numbers are those of a `uint64_t`, and its texts
-- have no NUL.
pub record Fits {D : Type 0} (frame : TelemetryData D) : Type 0 where
  pub timestamp_fits : frame.timestamp_ns < 2 ^ 64
  pub sequence_fits : frame.sequence_id < 2 ^ 64
  pub robot_fits : HasNoNul frame.robot_id
  pub sensor_fits : HasNoNul frame.sensor_type

-- What a row tells of a frame.
pub record Tells {D : Type 0} (row : Row) (frame : TelemetryData D) : Type 0 where
  pub robot : row.robot_id ≡ frame.robot_id
  pub sensor : row.sensor_type ≡ frame.sensor_type
  pub timestamp : to_uint64 row.timestamp_ns ≡ frame.timestamp_ns
  pub sequence : to_uint64 row.sequence_id ≡ frame.sequence_id
  -- As SQLite compares it, a time from 2^63 on lies before all others.
  pub negative : (2 ^ 63 ≤ frame.timestamp_ns) ↔ ((k : ℕ) × (row.timestamp_ns ≡ negsuc k))

row_of-Tells :
    (F : Doubles) (frame : TelemetryData F.Double) → Fits frame → Tells (row_of F frame) frame
row_of-Tells F frame f = record {
  robot = c_str_whole frame.robot_id f.robot_fits;
  sensor = c_str_whole frame.sensor_type f.sensor_fits;
  timestamp = to_uint64-to_int64 frame.timestamp_ns f.timestamp_fits;
  sequence = to_uint64-to_int64 frame.sequence_id f.sequence_fits;
  negative = negative_half frame.timestamp_ns f.timestamp_fits;
}

module _ (S : SqliteApi) (F : Doubles) (L : IsSqlite S) where
  open L use {view}

  -- When insert_telemetry returns true on an open engine outside a transaction, the table has one
  -- more row, at its end. If the numbers of the frame fit 64 bits and its texts have no NUL, that
  -- row gives back the robot, the sensor, and by a cast to uint64_t the two numbers; a timestamp
  -- from 2^63 on, and no other, is stored as a negative number.
  pub insert_telemetry-Tells :
      (db : S.Db) (st : S.Stmt) (frame : TelemetryData F.Double) (e : Engine S F)
      → IsOpen S F L db st e
      → (view e.world).pending ≡ none
      → Fits frame
      → (insert_telemetry S F frame e).0 ≡ true
      → (row : Row) × ((view (insert_telemetry S F frame e).1.world).committed
          ≡ (view e.world).committed ++ row ∷ [])
        × Tells row frame
  insert_telemetry-Tells db st frame e o quiet fits done =
      elim (insert_view S F L db st frame e _ o (rest_of _ quiet)) [
        | inl (_, v) ↦ (row_of F frame, ap (λ t. t.committed) v, row_of-Tells F frame fits)
        | inr (failed, _) ↦ cc
      ]
