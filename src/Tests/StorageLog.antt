-- ===== src/Tests/StorageLog.antt =====
-- Calls of the storage engine of src/storage/storage_engine.cpp over the database in memory.
use secure_ros2_gateway.Prelude.{◌≡◌, List, [], ◌∷◌, ◌++◌}
use secure_ros2_gateway.Prelude.Text.{Text, text, text_eq}
use secure_ros2_gateway.Storage
use secure_ros2_gateway.Storage.{
  new, init, init_internal, open_database, configure, enable_wal_mode, create_schema,
  prepare_insert, ensure_initialized, insert_telemetry, insert_locked, write_row, write_rows,
  insert_batch, batch_locked, finish_batch, close, close_internal, query_telemetry,
  purge_older_than,
}
use secure_ros2_gateway.Storage.Toy.{empty_memory, memory_api, memory-IsSqlite}
use secure_ros2_gateway.Storage.Log.{
  Log, rows_of, Call, asks, closes, inserts, inserts_batch, purges, Allows, call_engine, call_all,
}
use secure_ros2_gateway.Storage.Log.Refines.{Begins, call_all-Allows}
use secure_ros2_gateway.Storage.Log.Grows.{stored_in, opened, NoneRefused, call_all-stored_in}
use secure_ros2_gateway.Tests.Storage.{plain, frame}

abbrev path : Text
path = text "t.db"

abbrev calls : List (Call plain)
calls =
    inserts frame
    ∷ asks
    ∷ inserts_batch (frame ∷ frame ∷ [])
    ∷ purges 9
    ∷ closes
    ∷ inserts frame
    ∷ []

call_all-Allows_example :
    (first : Log) × (last : Log) × Begins memory_api plain memory-IsSqlite
      (init memory_api plain (new memory_api plain path empty_memory))
      first
    × Allows plain
        (call_all plain memory_api calls
          (init memory_api plain (new memory_api plain path empty_memory)).1).0
        first
        last
    × ((call_all plain memory_api calls
          (init memory_api plain
            (new memory_api plain path empty_memory)).1).1.world.table.committed
        ≡ rows_of last)
unfolding memory-IsSqlite
call_all-Allows_example = call_all-Allows memory_api plain memory-IsSqlite path empty_memory calls

-- The first init of a new engine over the database in memory succeeds.
abbrev started : Storage.Engine memory_api plain
started = opened plain memory_api memory-IsSqlite path empty_memory

none_refused : NoneRefused plain (call_all plain memory_api calls started).0
unfolding new init init_internal open_database configure enable_wal_mode create_schema
    prepare_insert ensure_initialized write_row write_rows insert_locked insert_telemetry
    insert_batch batch_locked finish_batch call_engine call_all text_eq
none_refused = (λ r. r, (λ r. r, (λ r. r, (λ r. r, (λ r. r, (λ r. r, tt))))))

call_all-stored_in_example :
    (call_all plain memory_api calls started).1.world.table.committed
    ≡ started.world.table.committed ++ stored_in plain (call_all plain memory_api calls started).0
unfolding memory-IsSqlite
call_all-stored_in_example =
    call_all-stored_in plain memory_api memory-IsSqlite path empty_memory calls none_refused
