-- ===== src/Storage/History.antt =====
-- Sequences of batches on one engine.
use secure_ros2_gateway.Prelude.{
  ◌≡◌, refl, ap, sym, ◌∙◌, inl, inr, List, [], ◌∷◌, ◌++◌, some, map, append_assoc, append-nil,
  map-append, if◌then◌else◌, Bool-cases,
}
use secure_ros2_gateway.Telemetry.{TelemetryData}
use secure_ros2_gateway.Storage.Sqlite.{SqliteApi, IsSqlite, Row}
use secure_ros2_gateway.Storage.Payload.{Doubles}
use secure_ros2_gateway.Storage.{Engine, insert_batch}
use secure_ros2_gateway.Storage.Rows.{row_of, IsOpen}
use secure_ros2_gateway.Storage.Insert.{
  insert_batch_atomic, insert_batch-IsOpen, insert_batch_stuck, batch_empty,
}

-- The frames of the batches that were reported stored, and the engine afterwards.
pub run_batches :
    (S : SqliteApi) (F : Doubles)
    → List (List (TelemetryData F.Double))
    → Engine S F
    → List (TelemetryData F.Double) × Engine S F
run_batches S F [] e = ([], e)
run_batches S F (batch ∷ batches) e =
    let (stored, e') = insert_batch S F batch e in
    let (frames, e'') = run_batches S F batches e' in
    (if stored then batch ++ frames else frames, e'')

module _ (S : SqliteApi) (F : Doubles) (L : IsSqlite S) where
  open L use {view}

  module _ (db : S.Db) (st : S.Stmt) where
    -- A batch is stored whole or not at all: over any sequence of batches on an open engine the
    -- table grows by the rows of the batches that were reported stored, in order, and by nothing
    -- else.
    pub run_batches-committed :
        (batches : List (List (TelemetryData F.Double))) (e : Engine S F)
        → IsOpen S F L db st e
        → (view (run_batches S F batches e).1.world).committed
          ≡ (view e.world).committed ++ map (row_of F) (run_batches S F batches e).0
    unfolding run_batches
    run_batches-committed [] e o = sym (append-nil _)
    run_batches-committed (batch ∷ batches) e o =
        let ih =
          run_batches-committed batches (insert_batch S F batch e).1
            (insert_batch-IsOpen S F L db st batch e o) in
        let one = insert_batch_atomic S F L db st batch e o in
        let later = (run_batches S F batches (insert_batch S F batch e).1).0 in
        elim (Bool-cases (insert_batch S F batch e).0) [
          | inl stored ↦
              ih
              ∙ rw stored (
                  rw (rw stored at one) (
                    append_assoc (view e.world).committed (map (row_of F) batch)
                      (map (row_of F) later)
                    ∙ ap (◌++◌ (view e.world).committed) (sym (map-append (row_of F) batch later))))
          | inr refused ↦ ih ∙ rw refused (rw (rw refused at one) refl)
        ]

    -- While a transaction is open on an open engine, as a failed COMMIT may leave it, no sequence
    -- of batches stores a frame: each batch that is not empty is refused, and the table and the
    -- open transaction stay as they are.
    pub run_batches_stuck :
        (batches : List (List (TelemetryData F.Double))) (e : Engine S F) (rows : List Row)
        → IsOpen S F L db st e
        → (view e.world).pending ≡ some rows
        → ((run_batches S F batches e).0 ≡ [])
          × (view (run_batches S F batches e).1.world ≡ view e.world)
    unfolding run_batches
    run_batches_stuck [] e rows o p = (refl, refl)
    run_batches_stuck ([] ∷ batches) e rows o p =
        rw (batch_empty S F L db st e o) (run_batches_stuck batches e rows o p)
    run_batches_stuck ((row ∷ rest) ∷ batches) e rows o p =
        let (refused, same) = insert_batch_stuck S F L db st (row ∷ rest) e rows o (λ h. cc) p in
        let o' = insert_batch-IsOpen S F L db st (row ∷ rest) e o in
        let ih =
          run_batches_stuck batches (insert_batch S F (row ∷ rest) e).1 rows o' (rw same p) in
        (rw refused ih.0, ih.1 ∙ same)
