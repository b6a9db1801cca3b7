-- ===== src/Storage/Insert.antt =====
-- insert_telemetry and insert_batch of src/storage/storage_engine.cpp on an open engine: what
-- reaches the table, and when.
use secure_ros2_gateway.Prelude.{
  ◌≡◌, ◌≢◌, ◌⊎◌, refl, sym, inl, inr, true, false, List, [], ◌∷◌, ◌++◌, none, some, arith, map,
  append-nil, if◌then◌else◌, Bool-cases,
}
use secure_ros2_gateway.Telemetry.{TelemetryData}
use secure_ros2_gateway.Storage.Sqlite.{SqliteApi, IsSqlite, Row, begin_sql}
use secure_ros2_gateway.Storage.Payload.{Doubles}
use secure_ros2_gateway.Storage.{
  Engine, write_row, batch_locked, insert_batch, insert_telemetry, insert_locked,
  ensure_initialized,
}
use secure_ros2_gateway.Storage.Rows.{
  row_of, IsOpen, write_row-IsOpen, write_row_done, write_row_failed,
}
use secure_ros2_gateway.Storage.Batch.{batch_locked-committed, batch_locked-IsOpen}

module _ (S : SqliteApi) (F : Doubles) (L : IsSqlite S) where
  open L use {view, Ready}

  module _ (db : S.Db) (st : S.Stmt) where
    -- On an open engine the checks pass, and the bodies under the lock run.
    pub ensure_open : (e : Engine S F) → IsOpen S F L db st e → ensure_initialized S F e ≡ e
    unfolding ensure_initialized
    ensure_open e o = simp o.called_once

    pub batch_open :
        (row : TelemetryData F.Double) (rows : List (TelemetryData F.Double)) (e : Engine S F)
        → IsOpen S F L db st e
        → insert_batch S F (row ∷ rows) e ≡ batch_locked S F (row ∷ rows) e
    unfolding insert_batch
    batch_open row rows e o = simp (ensure_open e o, o.initialized)

    pub insert_open :
        (row : TelemetryData F.Double) (e : Engine S F)
        → IsOpen S F L db st e
        → insert_telemetry S F row e ≡ write_row S F row e
    unfolding insert_telemetry
    insert_open row e o = simp (ensure_open e o, o.initialized)

    -- What a call does under the lock is what a whole call does.
    pub insert_locked-insert_telemetry :
        (row : TelemetryData F.Double) (e : Engine S F)
        → IsOpen S F L db st e
        → insert_locked S F row e ≡ insert_telemetry S F row e
    unfolding insert_locked
    insert_locked-insert_telemetry row e o = sym (insert_open row e o)

    pub batch_empty : (e : Engine S F) → IsOpen S F L db st e → insert_batch S F [] e ≡ (true, e)
    unfolding insert_batch
    batch_empty e o = simp (ensure_open e o, o.initialized)

    -- All or nothing: insert_batch returns true exactly when it has appended the rows of the whole
    -- batch to the table, in order; when it returns false the table is as before.
    pub insert_batch_atomic :
        (batch : List (TelemetryData F.Double)) (e : Engine S F)
        → IsOpen S F L db st e
        → (view (insert_batch S F batch e).1.world).committed ≡ (
            if (insert_batch S F batch e).0
            then (view e.world).committed ++ map (row_of F) batch
            else (view e.world).committed)
    insert_batch_atomic [] e o = rw (batch_empty e o) (sym (append-nil _))
    insert_batch_atomic (row ∷ rows) e o =
        rw (batch_open row rows e o) (batch_locked-committed S F L db st (row ∷ rows) e o)

    -- Outside a transaction, insert_telemetry returns true exactly when it has appended the frame's
    -- row to the table.
    pub insert_telemetry-committed :
        (row : TelemetryData F.Double) (e : Engine S F)
        → IsOpen S F L db st e
        → (view e.world).pending ≡ none
        → (view (insert_telemetry S F row e).1.world).committed ≡ (
            if (insert_telemetry S F row e).0
            then (view e.world).committed ++ row_of F row ∷ []
            else (view e.world).committed)
    insert_telemetry-committed row e o p =
        rw (insert_open row e o) (elim (Bool-cases (write_row S F row e).0) [
          | inl done ↦ rw done (rw (write_row_done S F L db st row e o done, p) refl)
          | inr failed ↦ rw failed (ground (arith, write_row_failed S F L db st row e o failed))
        ])

    -- While a transaction is open, as a failed COMMIT may leave it, a batch that is not empty is
    -- refused, and the table and the open transaction stay as they are.
    pub insert_batch_stuck :
        (batch : List (TelemetryData F.Double)) (e : Engine S F) (rows : List Row)
        → IsOpen S F L db st e
        → batch ≢ []
        → (view e.world).pending ≡ some rows
        → ((insert_batch S F batch e).0 ≡ false)
          × (view (insert_batch S F batch e).1.world ≡ view e.world)
    unfolding batch_locked
    insert_batch_stuck [] e rows o ne p = absurd (ne refl)
    insert_batch_stuck (row ∷ rest) e rows o ne p =
        rw (batch_open row rest e o, o.has_db)
          (elim (Bool-cases (S.exec (some db) begin_sql e.world).0) [
            | inl done ↦ cc ((L.begin_done db st e.world o.ready done).0)
            | inr failed ↦ rw failed (refl, L.begin_failed db st e.world o.ready failed)
          ])

    -- While a transaction is open, insert_telemetry does not reach the table, whatever it returns:
    -- it returns false, or its row has gone to the rows of the open transaction.
    pub insert_telemetry_pending :
        (row : TelemetryData F.Double) (e : Engine S F) (rows : List Row)
        → IsOpen S F L db st e
        → (view e.world).pending ≡ some rows
        → ((view (insert_telemetry S F row e).1.world).committed ≡ (view e.world).committed)
          × (((insert_telemetry S F row e).0 ≡ false)
              ⊎ ((view (insert_telemetry S F row e).1.world).pending
                  ≡ some (rows ++ row_of F row ∷ [])))
    insert_telemetry_pending row e rows o p =
        rw (insert_open row e o) (elim (Bool-cases (write_row S F row e).0) [
          | inl done ↦ rw (write_row_done S F L db st row e o done, p) (refl, inr refl)
          | inr failed ↦
              rw failed (ground (arith, write_row_failed S F L db st row e o failed), inl refl)
        ])

    -- No transaction is left open by a single insertion.
    pub insert_telemetry-pending :
        (row : TelemetryData F.Double) (e : Engine S F)
        → IsOpen S F L db st e
        → (view e.world).pending ≡ none
        → (view (insert_telemetry S F row e).1.world).pending ≡ none
    insert_telemetry-pending row e o p =
        rw (insert_open row e o) (elim (Bool-cases (write_row S F row e).0) [
          | inl done ↦ rw (write_row_done S F L db st row e o done, p) refl
          | inr failed ↦ ground (arith, write_row_failed S F L db st row e o failed)
        ])

    pub insert_telemetry-IsOpen :
        (row : TelemetryData F.Double) (e : Engine S F)
        → IsOpen S F L db st e
        → IsOpen S F L db st (insert_telemetry S F row e).1
    insert_telemetry-IsOpen row e o =
        rw (insert_open row e o) (write_row-IsOpen S F L db st row e o)

    pub insert_batch-IsOpen :
        (batch : List (TelemetryData F.Double)) (e : Engine S F)
        → IsOpen S F L db st e
        → IsOpen S F L db st (insert_batch S F batch e).1
    insert_batch-IsOpen [] e o = rw (batch_empty e o) o
    insert_batch-IsOpen (row ∷ rows) e o =
        rw (batch_open row rows e o) (batch_locked-IsOpen S F L db st (row ∷ rows) e o)
