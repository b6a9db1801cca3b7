-- ===== src/Tests/Storage.antt =====
-- The storage engine of src/storage/storage_engine.cpp over the database in memory.
use secure_ros2_gateway.Prelude.{
  ℕ, arith, ◌+◌, ◌%◌, ◌≡◌, refl, true, false, List, [], ◌∷◌, ◌++◌, map, some,
}
use secure_ros2_gateway.Prelude.Text.{text}
use secure_ros2_gateway.Telemetry.{TelemetryData}
use secure_ros2_gateway.Storage.Payload.{Doubles, payload_json, render}
use secure_ros2_gateway.Storage.Payload.Format.{merged_key, payload_json_ambiguous}
use secure_ros2_gateway.Storage.{
  ensure_initialized, insert_locked, write_row, Engine, new, init, insert_telemetry, insert_batch,
  close, purge_older_than,
}
use secure_ros2_gateway.Storage.Sqlite.{Row}
use secure_ros2_gateway.Storage.Toy.{Memory, empty_memory, memory_api, memory-IsSqlite}
use secure_ros2_gateway.Storage.Rows.{IsOpen, row_of}
use secure_ros2_gateway.Storage.History.{run_batches, run_batches-committed, run_batches_stuck}
use secure_ros2_gateway.Storage.Lifecycle.{close_final}
use secure_ros2_gateway.Storage.Columns.{Fits, Tells, insert_telemetry-Tells}
use secure_ros2_gateway.Storage.Opening.{Ends, init_first}

abbrev pub plain : Doubles
plain = record { Double = ℕ; to_string = λ n. (b'0' + n % 10) ∷ []; walk = λ kvs. kvs }

abbrev Open : Type 0
Open = Engine memory_api plain

abbrev pub opened : Memory → Open
opened m = record {
  db_path = text "t.db";
  db = some tt;
  insert_stmt = some tt;
  called_once = true;
  is_initialized = true;
  init_failed = false;
  world = m;
}

opened-IsOpen : (m : Memory) → IsOpen memory_api plain memory-IsSqlite tt tt (opened m)
unfolding memory-IsSqlite
opened-IsOpen m = record {
  has_db = refl;
  has_stmt = refl;
  ready = tt;
  called_once = refl;
  initialized = refl;
}

abbrev pub frame : TelemetryData ℕ
frame = record {
  robot_id = text "amr";
  sensor_type = text "battery";
  timestamp_ns = 5;
  sequence_id = 1;
  payload_values = (text "battery", 7) ∷ (text "load", 3) ∷ [];
}

-- A transaction that a failed COMMIT has left open.
abbrev stuck_memory : Memory
stuck_memory = record empty_memory { table = record { committed = []; pending = some [] } }

abbrev start : Open
start = opened empty_memory

abbrev stuck : Open
stuck = opened stuck_memory

abbrev committed : Open → List Row
committed e = e.world.table.committed

abbrev batches : List (List (TelemetryData ℕ))
batches = (frame ∷ []) ∷ (frame ∷ frame ∷ []) ∷ []

abbrev fresh : Open
fresh = new memory_api plain (text "t.db") empty_memory

init_first_example : Ends memory_api plain memory-IsSqlite (init memory_api plain fresh)
unfolding new
init_first_example = init_first memory_api plain memory-IsSqlite fresh refl refl

payload_json_ambiguous_example :
    payload_json plain ((merged_key plain (text "a") 7 (text "b"), 3) ∷ [])
    ≡ payload_json plain ((text "a", 7) ∷ (text "b", 3) ∷ [])
payload_json_ambiguous_example = payload_json_ambiguous plain (text "a") (text "b") 7 3 refl refl

frame_json : payload_json plain frame.payload_values ≡ text "{\"battery\":7,\"load\":3}"
unfolding payload_json render
frame_json = refl

start_inserts : (insert_telemetry memory_api plain frame start).0 ≡ true
unfolding insert_telemetry insert_locked write_row ensure_initialized
start_inserts = refl

frame-Fits : Fits frame
frame-Fits = record {
  timestamp_fits = omega arith;
  sequence_fits = omega arith;
  robot_fits = (refl, (refl, (refl, tt)));
  sensor_fits = (refl, (refl, (refl, (refl, (refl, (refl, (refl, tt)))))));
}

insert_telemetry-Tells_example :
    (row : Row) × (committed (insert_telemetry memory_api plain frame start).1 ≡ row ∷ [])
    × Tells row frame
unfolding memory-IsSqlite
insert_telemetry-Tells_example =
    insert_telemetry-Tells memory_api plain memory-IsSqlite tt tt frame start
      (opened-IsOpen empty_memory) refl frame-Fits start_inserts

run_batches-committed_example :
    let (frames, last) = run_batches memory_api plain batches start in
    last.world.table.committed ≡ start.world.table.committed ++ map (row_of plain) frames
unfolding memory-IsSqlite
run_batches-committed_example =
    run_batches-committed memory_api plain memory-IsSqlite tt tt batches start
      (opened-IsOpen empty_memory)

run_batches_stuck_example :
    ((run_batches memory_api plain batches stuck).0 ≡ [])
    × ((run_batches memory_api plain batches stuck).1.world.table ≡ stuck.world.table)
unfolding memory-IsSqlite
run_batches_stuck_example =
    run_batches_stuck memory_api plain memory-IsSqlite tt tt batches stuck []
      (opened-IsOpen stuck_memory) refl

close_final_example :
    (init memory_api plain (close memory_api plain start) ≡ (false, close memory_api plain start))
    × (insert_telemetry memory_api plain frame (close memory_api plain start)
        ≡ (false, close memory_api plain start))
    × (insert_batch memory_api plain [] (close memory_api plain start)
        ≡ (false, close memory_api plain start))
    × (purge_older_than memory_api plain 9 (close memory_api plain start)
        ≡ (false, close memory_api plain start))
close_final_example = close_final memory_api plain start frame [] 9 refl
