-- ===== src/Storage/Log.antt =====
-- What a client of src/storage/storage_engine.cpp can see, as a log of rows that only grows: which
-- reply to each call of the class is possible, and what it does to the log. This is what the code
-- does. include/secure_telemetry_gateway/storage/storage_engine.hpp documents more: there a query
-- finds records and a purge deletes them, where the code finds and deletes nothing; and it has no
-- transaction that stays open after a failed COMMIT, whose later rows are reported as inserted and
-- are not committed (`torn`).
pub mod Calls
pub mod Refines
pub mod Grows
use secure_ros2_gateway.Prelude.{ℕ, ◌≡◌, ◌⊎◌, Bool, true, false, List, [], ◌∷◌, ◌++◌, map}
use secure_ros2_gateway.Prelude.Text.{Text}
use secure_ros2_gateway.Telemetry.{TelemetryData}
use secure_ros2_gateway.Storage
use secure_ros2_gateway.Storage.{Engine}
use secure_ros2_gateway.Storage.Sqlite.{SqliteApi, Row}
use secure_ros2_gateway.Storage.Payload.{Doubles}
use secure_ros2_gateway.Storage.Rows.{row_of}

-- The engine serves; it serves while a transaction that could not be committed is open, with the
-- rows of that transaction; or it is closed, or was never opened.
pub data Log : Type 0 where
  serving : List Row → Log
  torn : List Row → List Row → Log
  ended : List Row → Log

-- What the log holds for good.
abbrev pub rows_of : Log → List Row
rows_of (serving rows) = rows
rows_of (torn rows left) = rows
rows_of (ended rows) = rows

module _ (F : Doubles) where
  -- The public methods; `asks` is is_ready.
  pub data Call : Type 0 where
    inits asks closes : Call
    inserts : TelemetryData F.Double → Call
    inserts_batch : List (TelemetryData F.Double) → Call
    queries : Text → ℕ → Call
    purges : ℕ → Call

  pub data Reply : Type 0 where
    answers : Bool → Reply
    finds : List (TelemetryData F.Double) → Reply
    nothing : Reply

  -- `Allowed call log reply log'`: the call may be answered by the reply, and leave log'.
  abbrev pub Allowed : Call → Log → Reply → Log → Type 0
  Allowed inits (ended rows) reply log' = (reply ≡ answers false) × (log' ≡ ended rows)
  Allowed inits log reply log' = (reply ≡ answers true) × (log' ≡ log)
  Allowed asks (ended rows) reply log' = (reply ≡ answers false) × (log' ≡ ended rows)
  Allowed asks log reply log' = (reply ≡ answers true) × (log' ≡ log)
  Allowed closes log reply log' = (reply ≡ nothing) × (log' ≡ ended (rows_of log))
  Allowed (inserts frame) (serving rows) reply log' =
      ((reply ≡ answers true) × (log' ≡ serving (rows ++ row_of F frame ∷ [])))
      ⊎ ((reply ≡ answers false) × (log' ≡ serving rows))
  Allowed (inserts frame) (torn rows left) reply log' =
      ((reply ≡ answers true) × (log' ≡ torn rows (left ++ row_of F frame ∷ [])))
      ⊎ ((reply ≡ answers false) × ((log' ≡ torn rows left) ⊎ (log' ≡ serving rows)))
  Allowed (inserts frame) (ended rows) reply log' = (reply ≡ answers false) × (log' ≡ ended rows)
  Allowed (inserts_batch []) (ended rows) reply log' = (reply ≡ answers false) × (log' ≡ ended rows)
  Allowed (inserts_batch []) log reply log' = (reply ≡ answers true) × (log' ≡ log)
  Allowed (inserts_batch (frame ∷ frames)) (serving rows) reply log' =
      let new = map (row_of F) (frame ∷ frames) in
      ((reply ≡ answers true) × (log' ≡ serving (rows ++ new)))
      ⊎ ((reply ≡ answers false) × ((log' ≡ serving rows) ⊎ (log' ≡ torn rows new)))
  Allowed (inserts_batch (frame ∷ frames)) log reply log' = (reply ≡ answers false) × (log' ≡ log)
  Allowed (queries robot_id limit) log reply log' = (reply ≡ finds []) × (log' ≡ log)
  Allowed (purges timestamp) (ended rows) reply log' = (reply ≡ answers false) × (log' ≡ ended rows)
  Allowed (purges timestamp) log reply log' = (reply ≡ answers true) × (log' ≡ log)

  -- A history that a client can see: each call with its reply.
  abbrev pub Allows : List (Call × Reply) → Log → Log → Type 0
  Allows [] log last = last ≡ log
  Allows ((call, reply) ∷ history) log last =
      (log' : Log) × Allowed call log reply log' × Allows history log' last

  module _ (S : SqliteApi) where
    abbrev answer : Bool × Engine S F → Reply × Engine S F
    answer (b, e) = (answers b, e)

    abbrev find : List (TelemetryData F.Double) × Engine S F → Reply × Engine S F
    find (rows, e) = (finds rows, e)

    unfoldable pub call_engine : Call → Engine S F → Reply × Engine S F
    call_engine inits e = answer (Storage.init S F e)
    call_engine asks e = (answers (Storage.is_ready S F e), e)
    call_engine closes e = (nothing, Storage.close S F e)
    call_engine (inserts frame) e = answer (Storage.insert_telemetry S F frame e)
    call_engine (inserts_batch batch) e = answer (Storage.insert_batch S F batch e)
    call_engine (queries robot_id limit) e = find (Storage.query_telemetry S F robot_id limit e)
    call_engine (purges timestamp) e = answer (Storage.purge_older_than S F timestamp e)

    -- Calls one after the other.
    unfoldable pub call_all : List Call → Engine S F → List (Call × Reply) × Engine S F
    unfolding call_engine
    call_all [] e = ([], e)
    call_all (call ∷ calls) e =
        let (reply, e') = call_engine call e in
        let (history, last) = call_all calls e' in ((call, reply) ∷ history, last)
