-- ===== src/Storage.antt =====
-- src/storage/storage_engine.cpp and its header. Each public method is a function of the engine's
-- state, which holds the state of SQLite and of the file system. Here a method runs as a whole;
-- Storage.Threads cuts it into the steps between which those of other threads can stand.
pub mod Sqlite
pub mod Payload
pub mod Rows
pub mod Batch
pub mod Insert
pub mod History
pub mod Lifecycle
pub mod Opening
pub mod Outcomes
pub mod Columns
pub mod Log
pub mod Threads
pub mod Toy
use secure_ros2_gateway.Prelude.{
  ℕ, Bool, true, false, not, ◌||◌, List, [], ◌∷◌, ◌++◌, Option, none, some, if◌then◌else◌, is_empty,
  ◌==◌,
}
use secure_ros2_gateway.Prelude.Text.{Text, text}
use secure_ros2_gateway.Prelude.State.{State, pure, ◌>>=◌, ◌>>◌, modify}
use secure_ros2_gateway.Prelude.Int.{to_int64}
use secure_ros2_gateway.Telemetry.{TelemetryData}
use Sqlite.{
  SqliteApi, Row, c_str, begin_sql, commit_sql, rollback_sql, wal_sql, synchronous_sql, schema_sql,
  insert_sql,
}
use Payload.{Doubles, payload_json}

module _ (S : SqliteApi) (F : Doubles) where
  pub record Engine : Type 0 where
    pub db_path : Text
    pub db : Option S.Db
    pub insert_stmt : Option S.Stmt
    -- `init_flag_`: whether `std::call_once` has run.
    pub called_once : Bool
    pub is_initialized : Bool
    pub init_failed : Bool
    -- SQLite, its files and the file system.
    pub world : S.World

  unfoldable pub new : Text → S.World → Engine
  new db_path world = record {
    db_path = db_path;
    db = none;
    insert_stmt = none;
    called_once = false;
    is_initialized = false;
    init_failed = false;
    world = world;
  }

  -- A call of SQLite.
  abbrev pub call {ℓ} : {A : Type ℓ} → (S.World → A × S.World) → State Engine A
  call f e = ((f e.world).0, record e { world = (f e.world).1 })

  abbrev pub act : (S.World → S.World) → State Engine (Unit {0})
  act f e = (tt, record e { world = f e.world })

  finalize_stmt : Engine → Engine
  finalize_stmt e = elim e.insert_stmt [
    | none ↦ e
    | some stmt ↦ record e { insert_stmt = none; world = S.finalize stmt e.world }
  ]

  close_db : Engine → Engine
  close_db e = elim e.db [ none ↦ e | some db ↦ record e { db = none; world = S.close db e.world } ]

  pub close_internal : Engine → Engine
  unfolding finalize_stmt close_db
  close_internal e = let e' = close_db (finalize_stmt e) in record e' { is_initialized = false }

  pub close : Engine → Engine
  close e = record (close_internal e) { init_failed = false }

  -- `~StorageEngine`
  abbrev pub destroy : Engine → Engine
  destroy e = close e

  abbrev pub exec : Text → State Engine Bool
  exec sql e = call (S.exec e.db sql) e

  unfoldable pub enable_wal_mode : State Engine Bool
  enable_wal_mode = do wal ← exec wal_sql; if wal then exec synchronous_sql else pure false

  unfoldable pub create_schema : State Engine Bool
  create_schema = exec schema_sql

  -- The error exits of init_internal.
  abbrev pub fail_init : State Engine Bool
  fail_init e = (false, close_internal (record e { init_failed = true }))

  unfoldable pub prepare_insert : State Engine Bool
  prepare_insert e =
      let ((rc, stmt), world) = S.prepare e.db insert_sql e.world in
      let e' = record e { insert_stmt = stmt; world = world } in
      if rc then (true, record e' { is_initialized = true }) else fail_init e'

  unfoldable pub configure : State Engine Bool
  configure = do
    wal ← enable_wal_mode
    schema ← if wal then create_schema else pure false
    if schema then prepare_insert else fail_init

  unfoldable pub open_database : State Engine Bool
  open_database e =
      let ((rc, db), world) = S.open_db e.db_path e.world in
      let e' = record e { db = db; world = world } in if rc then configure e' else fail_init e'

  unfoldable pub init_internal : State Engine Bool
  init_internal e =
      if e.is_initialized
      then (true, e)
      else open_database
          (record e { init_failed = false; world = S.create_parent_directories e.db_path e.world })

  -- `std::call_once` does not run the function again, whether or not it succeeded.
  unfoldable pub ensure_initialized : Engine → Engine
  ensure_initialized e =
      if e.called_once then e else (init_internal (record e { called_once = true })).1

  unfoldable pub init : State Engine Bool
  init e = let e' = ensure_initialized e in (e'.is_initialized, e')

  pub is_ready : Engine → Bool
  is_ready e = e.is_initialized

  -- One row: the part that insert_telemetry and insert_batch share.
  unfoldable pub write_row : TelemetryData F.Double → State Engine Bool
  write_row row e =
      (do
        act (S.reset stmt)
        act (S.clear_bindings stmt)
        act (S.bind_text stmt 1 (c_str row.robot_id))
        act (S.bind_text stmt 2 (c_str row.sensor_type))
        act (S.bind_int64 stmt 3 (to_int64 row.timestamp_ns))
        act (S.bind_int64 stmt 4 (to_int64 row.sequence_id))
        act (S.bind_text stmt 5 (c_str (payload_json F row.payload_values)))
        call (S.step stmt))
        e
    where
      stmt : Option S.Stmt
      stmt = e.insert_stmt

  -- The body under the lock. Another thread's call may stand between the check and the lock.
  unfoldable pub insert_locked : TelemetryData F.Double → State Engine Bool
  insert_locked row = write_row row

  unfoldable pub insert_telemetry : TelemetryData F.Double → State Engine Bool
  unfolding insert_locked
  insert_telemetry row e =
      let e' = ensure_initialized e in
      if e'.is_initialized then insert_locked row e' else (false, e')

  -- The loop over the batch: it stops at the first row that fails.
  unfoldable pub write_rows : List (TelemetryData F.Double) → State Engine Bool
  write_rows [] e = (true, e)
  write_rows (row ∷ rows) e =
      let (written, e') = write_row row e in
      let rest = write_rows rows e' in if written then rest else (false, e')

  -- COMMIT, or ROLLBACK with its result not looked at.
  unfoldable pub finish_batch : Bool → State Engine Bool
  finish_batch true = exec commit_sql
  finish_batch false = do rolled_back ← exec rollback_sql; pure false

  unfoldable pub batch_locked : List (TelemetryData F.Double) → State Engine Bool
  batch_locked batch = do
    begun ← exec begin_sql
    if begun then (write_rows batch >>= finish_batch) else pure false

  unfoldable pub insert_batch : List (TelemetryData F.Double) → State Engine Bool
  insert_batch batch e =
      let e' = ensure_initialized e in
      if e'.is_initialized
      then (if is_empty batch then (true, e') else batch_locked batch e')
      else (false, e')

  -- Stubs in the source: after the check, no row is read and none is deleted.
  unfoldable pub query_telemetry : Text → ℕ → State Engine (List (TelemetryData F.Double))
  query_telemetry robot_id limit e = ([], ensure_initialized e)

  pub purge_older_than : ℕ → State Engine Bool
  purge_older_than timestamp_ns e = let e' = ensure_initialized e in (e'.is_initialized, e')
