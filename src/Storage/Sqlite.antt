-- ===== src/Storage/Sqlite.antt =====
-- SQLite's C interface and std::filesystem, as far as storage_engine.cpp calls them, and what their
-- documents say of those calls. A world is the state of both.
use secure_ros2_gateway.Prelude.{
  ℕ, ◌≡◌, Bool, true, false, List, [], ◌∷◌, ◌++◌, Option, none, some, if◌then◌else◌, ◌==◌, ◌⊎◌, ◌≢◌,
  ◌≤◌,
}
use secure_ros2_gateway.Prelude.Text.{Text, text}
use secure_ros2_gateway.Prelude.Int.{ℤ}

-- What `s.c_str()` passes with length -1: the bytes before the first NUL.
unfoldable pub c_str : Text → Text
c_str [] = []
c_str (b ∷ s) = let rest = c_str s in if b == 0 then [] else b ∷ rest

abbrev pub begin_sql : Text
begin_sql = text "BEGIN TRANSACTION;"

abbrev pub commit_sql : Text
commit_sql = text "COMMIT;"

abbrev pub rollback_sql : Text
rollback_sql = text "ROLLBACK;"

abbrev pub wal_sql : Text
wal_sql = text "PRAGMA journal_mode=WAL;"

abbrev pub synchronous_sql : Text
synchronous_sql = text "PRAGMA synchronous=NORMAL;"

abbrev pub schema_sql : Text
schema_sql =
    text
      "CREATE TABLE IF NOT EXISTS telemetry_records (id INTEGER PRIMARY KEY AUTOINCREMENT,robot_id TEXT NOT NULL,sensor_type TEXT NOT NULL,timestamp_ns INTEGER NOT NULL,sequence_id INTEGER NOT NULL,payload_json TEXT NOT NULL,created_at DATETIME DEFAULT CURRENT_TIMESTAMP);CREATE INDEX IF NOT EXISTS idx_robot_timestamp ON telemetry_records(robot_id, timestamp_ns);"

abbrev pub insert_sql : Text
insert_sql =
    text
      "INSERT INTO telemetry_records (robot_id, sensor_type, timestamp_ns, sequence_id, payload_json) VALUES (?, ?, ?, ?, ?);"

-- A null handle is `none`. What a call does with one is an argument like the rest, of which IsSqlite
-- says nothing. A Boolean tells SQLITE_OK, or SQLITE_DONE of a step, from all else.
pub record SqliteApi : Type 1 where
  pub World : Type 0
  pub Db : Type 0
  pub Stmt : Type 0
  -- `std::filesystem::create_directories` of the parent path, if the path has one
  pub create_parent_directories : Text → World → World
  pub open_db : Text → World → (Bool × Option Db) × World
  pub exec : Option Db → Text → World → Bool × World
  pub prepare : Option Db → Text → World → (Bool × Option Stmt) × World
  pub reset : Option Stmt → World → World
  pub clear_bindings : Option Stmt → World → World
  pub bind_text : Option Stmt → ℕ → Text → World → World
  pub bind_int64 : Option Stmt → ℕ → ℤ → World → World
  pub step : Option Stmt → World → Bool × World
  pub finalize : Stmt → World → World
  pub close : Db → World → World

-- A record of the table telemetry_records, without what SQLite adds.
pub record Row : Type 0 where
  pub robot_id : Text
  pub sensor_type : Text
  pub timestamp_ns : ℤ
  pub sequence_id : ℤ
  pub payload_json : Text

-- The table: its committed rows, and the rows of an open transaction.
pub record Table : Type 0 where
  pub committed : List Row
  pub pending : Option (List Row)

abbrev pub begin_on : Table → Table
begin_on t = record t { pending = some [] }

abbrev add_to : Option (List Row) → Row → Table → Table
add_to none row t = record t { committed = t.committed ++ row ∷ [] }
add_to (some rows) row t = record t { pending = some (rows ++ row ∷ []) }

abbrev pub add_row : Row → Table → Table
add_row row t = add_to t.pending row t

abbrev commit_rows : Option (List Row) → Table → Table
commit_rows none t = t
commit_rows (some rows) t = record { committed = t.committed ++ rows; pending = none }

abbrev pub commit_on : Table → Table
commit_on t = commit_rows t.pending t

abbrev pub rollback_on : Table → Table
rollback_on t = record t { pending = none }

pub data Cell : Type 0 where
  text_cell : Text → Cell
  int_cell : ℤ → Cell

-- The statements that set a connection up.
abbrev pub IsSetup : Text → Type 0
IsSetup sql = (sql ≡ wal_sql) ⊎ (sql ≡ synchronous_sql) ⊎ (sql ≡ schema_sql)

-- The statements about a transaction.
abbrev pub IsTransaction : Text → Type 0
IsTransaction sql = (sql ≡ begin_sql) ⊎ (sql ≡ commit_sql) ⊎ (sql ≡ rollback_sql)

-- The parameters of the prepared insertion.
abbrev pub IsColumn : ℕ → Type 0
IsColumn i = (1 ≤ i) × (i ≤ 5)

-- SQLite's documents, for the statements that the engine runs on a database in a file: what the end
-- of a connection leaves there is not true of ":memory:". A call that fails inside a transaction may
-- end it.
pub record IsSqlite (S : SqliteApi) : Type 1 where
  pub view : S.World → Table
  -- The parameters of a statement; `none` is NULL.
  pub param : S.Stmt → S.World → ℕ → Option Cell
  -- A statement that has not been stepped since it was prepared or reset: to bind a parameter of
  -- any other is SQLITE_MISUSE.
  pub Reset : S.Stmt → S.World → Type 0
  -- An open connection with its prepared insertion, into a table as schema_sql makes it.
  pub Ready : S.Db → S.Stmt → S.World → Type 0
  -- An open connection.
  pub Connected : S.Db → S.World → Type 0
  pub open_done :
      (path : Text) (w : S.World)
      → (S.open_db path w).0.0 ≡ true
      → (db : S.Db) × ((S.open_db path w).0.1 ≡ some db) × Connected db (S.open_db path w).1
  pub connected_exec :
      (db : S.Db) (w : S.World) (sql : Text)
      → Connected db w
      → IsSetup sql
      → Connected db (S.exec (some db) sql w).1
  pub prepare_done :
      (db : S.Db) (w : S.World)
      → Connected db w
      → (S.prepare (some db) insert_sql w).0.0 ≡ true
      → (st : S.Stmt) × ((S.prepare (some db) insert_sql w).0.1 ≡ some st)
        × Ready db st (S.prepare (some db) insert_sql w).1
  -- A new connection is outside a transaction, and its setup does not begin one.
  pub open_quiet :
      (path : Text) (w : S.World)
      → (S.open_db path w).0.0 ≡ true
      → (view (S.open_db path w).1).pending ≡ none
  pub setup_quiet :
      (db : S.Db) (w : S.World) (sql : Text)
      → Connected db w
      → IsSetup sql
      → (view w).pending ≡ none
      → (view (S.exec (some db) sql w).1).pending ≡ none
  pub view_prepare :
      (db : S.Db) (w : S.World)
      → Connected db w
      → view (S.prepare (some db) insert_sql w).1 ≡ view w
  pub ready_exec :
      (db : S.Db) (st : S.Stmt) (w : S.World) (sql : Text)
      → Ready db st w
      → IsTransaction sql
      → Ready db st (S.exec (some db) sql w).1
  pub ready_step :
      (db : S.Db) (st : S.Stmt) (w : S.World) → Ready db st w → Ready db st (S.step (some st) w).1
  pub ready_reset :
      (db : S.Db) (st : S.Stmt) (w : S.World) → Ready db st w → Ready db st (S.reset (some st) w)
  pub ready_clear :
      (db : S.Db) (st : S.Stmt) (w : S.World)
      → Ready db st w
      → Ready db st (S.clear_bindings (some st) w)
  pub ready_bind_text :
      (db : S.Db) (st : S.Stmt) (w : S.World) (i : ℕ) (t : Text)
      → Ready db st w
      → Ready db st (S.bind_text (some st) i t w)
  pub ready_bind_int64 :
      (db : S.Db) (st : S.Stmt) (w : S.World) (i : ℕ) (n : ℤ)
      → Ready db st w
      → Ready db st (S.bind_int64 (some st) i n w)
  -- Only a step and the transaction statements touch the table.
  pub view_reset : (st : S.Stmt) (w : S.World) → view (S.reset (some st) w) ≡ view w
  pub view_clear : (st : S.Stmt) (w : S.World) → view (S.clear_bindings (some st) w) ≡ view w
  pub view_bind_text :
      (st : S.Stmt) (w : S.World) (i : ℕ) (t : Text) → view (S.bind_text (some st) i t w) ≡ view w
  pub view_bind_int64 :
      (st : S.Stmt) (w : S.World) (i : ℕ) (n : ℤ) → view (S.bind_int64 (some st) i n w) ≡ view w
  pub reset_done :
      (db : S.Db) (st : S.Stmt) (w : S.World) → Ready db st w → Reset st (S.reset (some st) w)
  pub reset_clear :
      (st : S.Stmt) (w : S.World) → Reset st w → Reset st (S.clear_bindings (some st) w)
  pub reset_bind_text :
      (st : S.Stmt) (w : S.World) (i : ℕ) (t : Text)
      → Reset st w
      → Reset st (S.bind_text (some st) i t w)
  pub reset_bind_int64 :
      (st : S.Stmt) (w : S.World) (i : ℕ) (n : ℤ)
      → Reset st w
      → Reset st (S.bind_int64 (some st) i n w)
  pub param_clear :
      (st : S.Stmt) (w : S.World) (j : ℕ) → param st (S.clear_bindings (some st) w) j ≡ none
  -- A call binds a parameter that is NULL, or it fails and leaves NULL there: the code reads none
  -- of the results.
  pub param_bind_text :
      (st : S.Stmt) (w : S.World) (i : ℕ) (t : Text)
      → Reset st w
      → param st w i ≡ none
      → (param st (S.bind_text (some st) i t w) i ≡ some (text_cell t))
        ⊎ (param st (S.bind_text (some st) i t w) i ≡ none)
  pub param_bind_int64 :
      (st : S.Stmt) (w : S.World) (i : ℕ) (n : ℤ)
      → Reset st w
      → param st w i ≡ none
      → (param st (S.bind_int64 (some st) i n w) i ≡ some (int_cell n))
        ⊎ (param st (S.bind_int64 (some st) i n w) i ≡ none)
  pub kept_bind_text :
      (st : S.Stmt) (w : S.World) (i j : ℕ) (t : Text)
      → (i == j) ≡ false
      → param st (S.bind_text (some st) i t w) j ≡ param st w j
  pub kept_bind_int64 :
      (st : S.Stmt) (w : S.World) (i j : ℕ) (n : ℤ)
      → (i == j) ≡ false
      → param st (S.bind_int64 (some st) i n w) j ≡ param st w j
  -- The columns are NOT NULL.
  pub not_null :
      (db : S.Db) (st : S.Stmt) (w : S.World) (i : ℕ)
      → Ready db st w
      → IsColumn i
      → (S.step (some st) w).0 ≡ true
      → param st w i ≢ none
  pub step_done :
      (db : S.Db) (st : S.Stmt) (w : S.World) (row : Row)
      → Ready db st w
      → param st w 1 ≡ some (text_cell row.robot_id)
      → param st w 2 ≡ some (text_cell row.sensor_type)
      → param st w 3 ≡ some (int_cell row.timestamp_ns)
      → param st w 4 ≡ some (int_cell row.sequence_id)
      → param st w 5 ≡ some (text_cell row.payload_json)
      → (S.step (some st) w).0 ≡ true
      → view (S.step (some st) w).1 ≡ add_row row (view w)
  pub step_failed :
      (db : S.Db) (st : S.Stmt) (w : S.World)
      → Ready db st w
      → (S.step (some st) w).0 ≡ false
      → (view (S.step (some st) w).1 ≡ view w)
        ⊎ (view (S.step (some st) w).1 ≡ rollback_on (view w))
  -- No transaction starts within a transaction.
  pub begin_done :
      (db : S.Db) (st : S.Stmt) (w : S.World)
      → Ready db st w
      → (S.exec (some db) begin_sql w).0 ≡ true
      → ((view w).pending ≡ none) × (view (S.exec (some db) begin_sql w).1 ≡ begin_on (view w))
  pub begin_failed :
      (db : S.Db) (st : S.Stmt) (w : S.World)
      → Ready db st w
      → (S.exec (some db) begin_sql w).0 ≡ false
      → view (S.exec (some db) begin_sql w).1 ≡ view w
  pub commit_done :
      (db : S.Db) (st : S.Stmt) (w : S.World)
      → Ready db st w
      → (S.exec (some db) commit_sql w).0 ≡ true
      → view (S.exec (some db) commit_sql w).1 ≡ commit_on (view w)
  pub commit_failed :
      (db : S.Db) (st : S.Stmt) (w : S.World)
      → Ready db st w
      → (S.exec (some db) commit_sql w).0 ≡ false
      → (view (S.exec (some db) commit_sql w).1 ≡ view w)
        ⊎ (view (S.exec (some db) commit_sql w).1 ≡ rollback_on (view w))
  pub rolled_back :
      (db : S.Db) (st : S.Stmt) (w : S.World)
      → Ready db st w
      → view (S.exec (some db) rollback_sql w).1 ≡ rollback_on (view w)
  -- The end of a connection whose statement has ended rolls an open transaction back.
  pub closed :
      (db : S.Db) (st : S.Stmt) (w : S.World)
      → Ready db st w
      → view (S.close db (S.finalize st w)) ≡ rollback_on (view w)
