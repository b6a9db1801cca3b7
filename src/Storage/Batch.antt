-- ===== src/Storage/Batch.antt =====
-- The transaction of insert_batch in src/storage/storage_engine.cpp, under the lock: its loop over
-- the rows, COMMIT and ROLLBACK.
use secure_ros2_gateway.Prelude.{
  ◌≡◌, refl, ◌∙◌, inl, inr, true, false, List, [], ◌∷◌, ◌++◌, some, arith, map, append_assoc,
  append-nil, if◌then◌else◌, Bool-cases,
}
use secure_ros2_gateway.Prelude.Text.{Text}
use secure_ros2_gateway.Telemetry.{TelemetryData}
use secure_ros2_gateway.Storage.Sqlite.{
  SqliteApi, IsSqlite, IsTransaction, Row, begin_sql, commit_sql, rollback_sql, begin_on,
}
use secure_ros2_gateway.Storage.Payload.{Doubles}
use secure_ros2_gateway.Storage.{Engine, write_row, exec, write_rows, finish_batch, batch_locked}
use secure_ros2_gateway.Storage.Rows.{
  row_of, IsOpen, write_row-IsOpen, write_row_done, write_row_failed,
}

module _ (S : SqliteApi) (F : Doubles) (L : IsSqlite S) where
  open L use {view, Ready}

  module _ (db : S.Db) (st : S.Stmt) where
    pub write_rows-IsOpen :
        (rows : List (TelemetryData F.Double)) (e : Engine S F)
        → IsOpen S F L db st e
        → IsOpen S F L db st (write_rows S F rows e).1
    unfolding write_rows
    write_rows-IsOpen [] e h = h
    write_rows-IsOpen (row ∷ rows) e h =
        let h' = write_row-IsOpen S F L db st row e h in
        let ih = write_rows-IsOpen rows (write_row S F row e).1 h' in
        elim (Bool-cases (write_row S F row e).0) [ inl t ↦ rw t ih | inr f ↦ rw f h' ]

    pub write_rows_done :
        (rows : List (TelemetryData F.Double)) (e : Engine S F) (stored before : List Row)
        → IsOpen S F L db st e
        → view e.world ≡ record { committed = stored; pending = some before }
        → (write_rows S F rows e).0 ≡ true
        → view (write_rows S F rows e).1.world
          ≡ record { committed = stored; pending = some (before ++ map (row_of F) rows) }
    unfolding write_rows
    write_rows_done [] e stored before h v t = rw (append-nil before) v
    write_rows_done (row ∷ rows) e stored before h v t = elim (Bool-cases (write_row S F row e).0) [
      | inl done ↦
          let h' = write_row-IsOpen S F L db st row e h in
          let one = write_row_done S F L db st row e h done in
          let v' = rw v at one in
          let ih =
            write_rows_done rows (write_row S F row e).1 stored (before ++ row_of F row ∷ []) h' v'
              (rw done at t) in
          rw done (rw append_assoc at ih)
      | inr failed ↦ cc (rw failed at t)
    ]

    -- A batch that stops early has committed nothing.
    pub write_rows_failed :
        (rows : List (TelemetryData F.Double)) (e : Engine S F) (stored before : List Row)
        → IsOpen S F L db st e
        → view e.world ≡ record { committed = stored; pending = some before }
        → (write_rows S F rows e).0 ≡ false
        → (view (write_rows S F rows e).1.world).committed ≡ stored
    unfolding write_rows
    write_rows_failed [] e stored before h v t = cc
    write_rows_failed (row ∷ rows) e stored before h v t =
        elim (Bool-cases (write_row S F row e).0) [
          | inl done ↦
              let h' = write_row-IsOpen S F L db st row e h in
              let one = write_row_done S F L db st row e h done in
              rw done (
                write_rows_failed rows (write_row S F row e).1 stored (before ++ row_of F row ∷ [])
                  h' (rw v at one) (rw done at t))
          | inr failed ↦ rw failed (ground (arith, write_row_failed S F L db st row e h failed))
        ]

    pub exec-IsOpen :
        (sql : Text) (e : Engine S F)
        → IsTransaction sql
        → IsOpen S F L db st e
        → IsOpen S F L db st (exec S F sql e).1
    exec-IsOpen sql e t h = record {
      has_db = h.has_db;
      has_stmt = h.has_stmt;
      ready = rw h.has_db (L.ready_exec db st e.world sql h.ready t);
      called_once = h.called_once;
      initialized = h.initialized;
    }

    -- COMMIT moves the open transaction's rows to the table, or none of them.
    commit_lem :
        (e : Engine S F) (stored rows : List Row)
        → IsOpen S F L db st e
        → view e.world ≡ record { committed = stored; pending = some rows }
        → (view (exec S F commit_sql e).1.world).committed
          ≡ (if (exec S F commit_sql e).0 then stored ++ rows else stored)
    commit_lem e stored rows h v =
        rw h.has_db (elim (Bool-cases (S.exec (some db) commit_sql e.world).0) [
          | inl done ↦ rw done (rw (L.commit_done db st e.world h.ready done, v) refl)
          | inr failed ↦ rw failed (ground (arith, L.commit_failed db st e.world h.ready failed))
        ])

    rollback_lem :
        (e : Engine S F)
        → IsOpen S F L db st e
        → (view (exec S F rollback_sql e).1.world).committed ≡ (view e.world).committed
    rollback_lem e h = rw h.has_db (rw (L.rolled_back db st e.world h.ready) refl)

    -- The transaction as a whole, under the lock.
    pub batch_locked-committed :
        (batch : List (TelemetryData F.Double)) (e : Engine S F)
        → IsOpen S F L db st e
        → (view (batch_locked S F batch e).1.world).committed ≡ (
            if (batch_locked S F batch e).0
            then (view e.world).committed ++ map (row_of F) batch
            else (view e.world).committed)
    unfolding batch_locked finish_batch
    batch_locked-committed batch e h =
        let begun = exec S F begin_sql e in
        let h1 = exec-IsOpen begin_sql e (inl refl) h in
        elim (Bool-cases (S.exec (some db) begin_sql e.world).0) [
          | inr failed ↦
              rw (h.has_db, failed) (rw (L.begin_failed db st e.world h.ready failed) refl)
          | inl done ↦
              let v1 : view begun.1.world ≡ begin_on (view e.world) =
                rw h.has_db (L.begin_done db st e.world h.ready done).1 in
              let ok : begun.0 ≡ true = rw h.has_db done in
              let h2 = write_rows-IsOpen batch begun.1 h1 in
              elim (Bool-cases (write_rows S F batch begun.1).0) [
                | inl all ↦
                    let v2 = write_rows_done batch begun.1 (view e.world).committed [] h1 v1 all in
                    rw (ok, all) (commit_lem (write_rows S F batch begun.1).1 _ _ h2 v2)
                | inr some_failed ↦
                    rw (ok, some_failed)
                      (rollback_lem (write_rows S F batch begun.1).1 h2
                        ∙ write_rows_failed batch begun.1 (view e.world).committed [] h1 v1
                            some_failed)
              ]
        ]

    pub batch_locked-IsOpen :
        (batch : List (TelemetryData F.Double)) (e : Engine S F)
        → IsOpen S F L db st e
        → IsOpen S F L db st (batch_locked S F batch e).1
    unfolding batch_locked finish_batch
    batch_locked-IsOpen batch e h =
        let h1 = exec-IsOpen begin_sql e (inl refl) h in
        let h2 = write_rows-IsOpen batch (exec S F begin_sql e).1 h1 in
        elim (Bool-cases (exec S F begin_sql e).0) [
          | inr failed ↦ rw failed h1
          | inl done ↦ elim (Bool-cases (write_rows S F batch (exec S F begin_sql e).1).0) [
            | inl all ↦ rw (done, all) (exec-IsOpen commit_sql _ (inr (inl refl)) h2)
            | inr some_failed ↦
                rw (done, some_failed) (exec-IsOpen rollback_sql _ (inr (inr refl)) h2)
          ]
        ]
