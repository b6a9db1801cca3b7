-- ===== src/Storage/Outcomes.antt =====
-- How the table and the open transaction stand after an insertion, and after a batch, of
-- src/storage/storage_engine.cpp on an open engine.
use secure_ros2_gateway.Prelude.{
  ◌≡◌, ◌⊎◌, refl, ap, ◌∙◌, inl, inr, true, false, List, [], ◌∷◌, ◌++◌, none, some, arith, map,
  Bool-cases,
}
use secure_ros2_gateway.Telemetry.{TelemetryData}
use secure_ros2_gateway.Storage.Sqlite.{
  SqliteApi, IsSqlite, Row, Table, begin_sql, commit_sql, rollback_sql, begin_on,
}
use secure_ros2_gateway.Storage.Payload.{Doubles}
use secure_ros2_gateway.Storage.{
  Engine, exec, write_row, write_rows, finish_batch, batch_locked, insert_telemetry, insert_batch,
}
use secure_ros2_gateway.Storage.Rows.{row_of, IsOpen, write_row_done, write_row_failed}
use secure_ros2_gateway.Storage.Batch.{
  write_rows-IsOpen, write_rows_done, write_rows_failed, exec-IsOpen,
}
use secure_ros2_gateway.Storage.Insert.{insert_open, batch_open}

-- Outside a transaction, and inside one.
abbrev pub at_rest : List Row → Table
at_rest rows = record { committed = rows; pending = none }

abbrev pub torn_by : List Row → List Row → Table
torn_by rows left = record { committed = rows; pending = some left }

pub rest_of : (t : Table) → t.pending ≡ none → t ≡ at_rest t.committed
rest_of t h = ap (λ p. record { committed = t.committed; pending = p }) h

module _ (S : SqliteApi) (F : Doubles) (L : IsSqlite S) where
  open L use {view}

  module _ (db : S.Db) (st : S.Stmt) where
    pub insert_view :
        (row : TelemetryData F.Double) (e : Engine S F) (rows : List Row)
        → IsOpen S F L db st e
        → view e.world ≡ at_rest rows
        → let r = insert_telemetry S F row e in
          ((r.0 ≡ true) × (view r.1.world ≡ at_rest (rows ++ row_of F row ∷ [])))
          ⊎ ((r.0 ≡ false) × (view r.1.world ≡ at_rest rows))
    insert_view row e rows o v =
        rw (insert_open S F L db st row e o) (elim (Bool-cases (write_row S F row e).0) [
          | inl done ↦ inl (done, rw (write_row_done S F L db st row e o done, v) refl)
          | inr failed ↦ inr (failed, ground (arith, write_row_failed S F L db st row e o failed))
        ])

    pub insert_torn_view :
        (row : TelemetryData F.Double) (e : Engine S F) (rows left : List Row)
        → IsOpen S F L db st e
        → view e.world ≡ torn_by rows left
        → let r = insert_telemetry S F row e in
          ((r.0 ≡ true) × (view r.1.world ≡ torn_by rows (left ++ row_of F row ∷ [])))
          ⊎ ((r.0 ≡ false)
              × ((view r.1.world ≡ torn_by rows left) ⊎ (view r.1.world ≡ at_rest rows)))
    insert_torn_view row e rows left o v =
        rw (insert_open S F L db st row e o) (elim (Bool-cases (write_row S F row e).0) [
          | inl done ↦ inl (done, rw (write_row_done S F L db st row e o done, v) refl)
          | inr failed ↦ inr (failed, ground (arith, write_row_failed S F L db st row e o failed))
        ])

    commit_view :
        (e : Engine S F) (rows new : List Row)
        → IsOpen S F L db st e
        → view e.world ≡ torn_by rows new
        → let r = exec S F commit_sql e in
          ((r.0 ≡ true) × (view r.1.world ≡ at_rest (rows ++ new)))
          ⊎ ((r.0 ≡ false)
              × ((view r.1.world ≡ at_rest rows) ⊎ (view r.1.world ≡ torn_by rows new)))
    commit_view e rows new o v =
        rw o.has_db (elim (Bool-cases (S.exec (some db) commit_sql e.world).0) [
          | inl done ↦ inl (done, rw (L.commit_done db st e.world o.ready done, v) refl)
          | inr failed ↦ inr (failed, ground (arith, L.commit_failed db st e.world o.ready failed))
        ])

    rollback_view :
        (e : Engine S F) (rows : List Row)
        → IsOpen S F L db st e
        → (view e.world).committed ≡ rows
        → view (exec S F rollback_sql e).1.world ≡ at_rest rows
    rollback_view e rows o v = rw o.has_db (L.rolled_back db st e.world o.ready ∙ ap at_rest v)

    batch_locked_view :
        (batch : List (TelemetryData F.Double)) (e : Engine S F) (rows : List Row)
        → IsOpen S F L db st e
        → view e.world ≡ at_rest rows
        → let r = batch_locked S F batch e in
          ((r.0 ≡ true) × (view r.1.world ≡ at_rest (rows ++ map (row_of F) batch)))
          ⊎ ((r.0 ≡ false)
              × ((view r.1.world ≡ at_rest rows)
                  ⊎ (view r.1.world ≡ torn_by rows (map (row_of F) batch))))
    unfolding batch_locked finish_batch
    batch_locked_view batch e rows o v =
        let begun = exec S F begin_sql e in
        let o1 = exec-IsOpen S F L db st begin_sql e (inl refl) o in
        elim (Bool-cases (S.exec (some db) begin_sql e.world).0) [
          | inr failed ↦
              rw (o.has_db, failed)
                (inr (refl, inl (L.begin_failed db st e.world o.ready failed ∙ v)))
          | inl done ↦
              let v1 : view begun.1.world ≡ torn_by rows [] =
                rw o.has_db ((L.begin_done db st e.world o.ready done).1 ∙ ap begin_on v) in
              let ok : begun.0 ≡ true = rw o.has_db done in
              let o2 = write_rows-IsOpen S F L db st batch begun.1 o1 in
              let written = (write_rows S F batch begun.1).1 in
              elim (Bool-cases (write_rows S F batch begun.1).0) [
                | inl all ↦
                    rw (ok, all)
                      (commit_view written rows (map (row_of F) batch) o2
                        (write_rows_done S F L db st batch begun.1 rows [] o1 v1 all))
                | inr some_failed ↦
                    rw (ok, some_failed)
                      (inr (
                        refl,
                        inl (
                            rollback_view written rows o2 (
                              write_rows_failed S F L db st batch begun.1 rows [] o1 v1
                                some_failed)),
                      ))
              ]
        ]

    pub insert_batch_view :
        (row : TelemetryData F.Double) (batch : List (TelemetryData F.Double)) (e : Engine S F)
        (rows : List Row)
        → IsOpen S F L db st e
        → view e.world ≡ at_rest rows
        → let new = map (row_of F) (row ∷ batch) in
          let r = insert_batch S F (row ∷ batch) e in
          ((r.0 ≡ true) × (view r.1.world ≡ at_rest (rows ++ new)))
          ⊎ ((r.0 ≡ false)
              × ((view r.1.world ≡ at_rest rows) ⊎ (view r.1.world ≡ torn_by rows new)))
    insert_batch_view row batch e rows o v =
        rw (batch_open S F L db st row batch e o) (batch_locked_view (row ∷ batch) e rows o v)
