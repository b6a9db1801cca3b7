-- ===== src/Tests/StorageThreads.antt =====
-- Threads that share the storage engine of src/storage/storage_engine.cpp, over the database in
-- memory.
use secure_ros2_gateway.Prelude.{ℕ, ◌≡◌, inr, refl, List, [], ◌∷◌, ◌++◌, map}
use mathlib.Core.List.{Perm}
use secure_ros2_gateway.Prelude.Text.{text, text_eq}
use secure_ros2_gateway.Storage.{
  Engine, new, init, ensure_initialized, init_internal, open_database, configure, enable_wal_mode,
  create_schema, prepare_insert, insert_locked, batch_locked, finish_batch, write_rows, write_row,
}
use secure_ros2_gateway.Storage.Toy.{memory_api, memory-IsSqlite, empty_memory}
use secure_ros2_gateway.Storage.Log.{
  Log, rows_of, Call, inserts, inserts_batch, purges, Allows, call_all,
}
use secure_ros2_gateway.Storage.Log.Refines.{Begins}
use secure_ros2_gateway.Storage.Threads.{starting, run, turn, advance, after_check, run_locked}
use secure_ros2_gateway.Storage.Threads.Steps.{call_of}
use secure_ros2_gateway.Storage.Threads.Atomic.{run_atomic, run-Allows}
use secure_ros2_gateway.Storage.Threads.Stored.{results, run-stored_in}
use secure_ros2_gateway.Storage.Log.Grows.{stored_in, NoneRefused}
use secure_ros2_gateway.Storage.Log.Grows
use secure_ros2_gateway.Tests.Storage.{plain, frame, opened}

abbrev calls : List (Call plain)
calls = inserts frame ∷ inserts_batch (frame ∷ frame ∷ []) ∷ purges 9 ∷ []

-- The three threads take turns; the second ends first.
abbrev schedule : List ℕ
schedule = 0 ∷ 1 ∷ 2 ∷ 1 ∷ 0 ∷ 1 ∷ 2 ∷ 0 ∷ []

abbrev fresh : Engine memory_api plain
fresh = new memory_api plain (text "t.db") empty_memory

run_atomic_example :
    let (threads, last, ended) = run plain memory_api schedule (map starting calls) fresh in
    call_all plain memory_api
      (map (call_of memory_api plain) ended)
      (ensure_initialized memory_api plain fresh)
    ≡ (ended, ensure_initialized memory_api plain last)
unfolding new
run_atomic_example =
    run_atomic memory_api plain memory-IsSqlite schedule calls fresh (tt, (tt, (tt, tt))) (inr refl)

run-Allows_example :
    let (threads, last, ended) = run plain memory_api schedule (map starting calls) fresh in
    (begun : Log) × (end : Log) × Begins memory_api plain memory-IsSqlite
      (init memory_api plain fresh)
      begun
    × Allows plain ended begun end
    × ((ensure_initialized memory_api plain last).world.table.committed ≡ rows_of end)
unfolding memory-IsSqlite
run-Allows_example =
    run-Allows memory_api plain memory-IsSqlite schedule calls (text "t.db") empty_memory
      (tt, (tt, (tt, tt)))

none_refused :
    NoneRefused plain (results plain (run plain memory_api schedule (map starting calls) fresh).0)
unfolding new run turn advance after_check run_locked ensure_initialized init_internal open_database
    configure enable_wal_mode create_schema prepare_insert insert_locked batch_locked finish_batch
    write_rows write_row text_eq
none_refused = ((λ r. r), ((λ r. r), tt))

run-stored_in_example :
    let (threads, last, ended) = run plain memory_api schedule (map starting calls) fresh in
    Perm (ensure_initialized memory_api plain last).world.table.committed (
      (Grows.opened plain memory_api memory-IsSqlite
        (text "t.db")
        empty_memory).world.table.committed
      ++ stored_in plain (results plain threads))
unfolding memory-IsSqlite
run-stored_in_example =
    run-stored_in plain memory_api memory-IsSqlite schedule calls (text "t.db") empty_memory
      (tt, (tt, (tt, tt))) none_refused
