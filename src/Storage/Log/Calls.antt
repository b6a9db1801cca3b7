-- ===== src/Storage/Log/Calls.antt =====
-- Each call of the storage engine of src/storage/storage_engine.cpp does what the log allows.
use secure_ros2_gateway.Prelude.{
  ◌≡◌, refl, ap, ◌∙◌, inl, inr, true, false, List, [], ◌∷◌, ◌++◌, none, ℕ, map,
}
use secure_ros2_gateway.Prelude.Text.{Text}
use secure_ros2_gateway.Telemetry.{TelemetryData}
use secure_ros2_gateway.Storage
use secure_ros2_gateway.Storage.{Engine}
use secure_ros2_gateway.Storage.Sqlite.{SqliteApi, IsSqlite, Row}
use secure_ros2_gateway.Storage.Payload.{Doubles}
use secure_ros2_gateway.Storage.Rows.{row_of, IsOpen}
use secure_ros2_gateway.Storage.Insert.{
  insert_telemetry-IsOpen, insert_batch-IsOpen, insert_batch_stuck, batch_empty,
}
use secure_ros2_gateway.Storage.Lifecycle.{
  once_used, close_open, close_flags, close_without_handles,
}
use secure_ros2_gateway.Storage.Outcomes.{
  at_rest, torn_by, insert_view, insert_torn_view, insert_batch_view,
}
use secure_ros2_gateway.Storage.Log.{
  Log, serving, torn, ended, Call, inits, asks, closes, inserts, inserts_batch, queries, purges,
  Reply, answers, Allowed, call_engine,
}

module _ (S : SqliteApi) (F : Doubles) (L : IsSqlite S) where
  open L use {view}

  -- An engine that no call opens again.
  pub record IsEnded (rows : List Row) (e : Engine S F) : Type 0 where
    pub once : e.called_once ≡ true
    pub off : e.is_initialized ≡ false
    pub no_db : e.db ≡ none
    pub no_stmt : e.insert_stmt ≡ none
    pub kept : (view e.world).committed ≡ rows

  abbrev pub Represents : Engine S F → Log → Type 0
  Represents e (serving rows) =
      (db : S.Db) × (st : S.Stmt) × IsOpen S F L db st e × (view e.world ≡ at_rest rows)
  Represents e (torn rows left) =
      (db : S.Db) × (st : S.Stmt) × IsOpen S F L db st e × (view e.world ≡ torn_by rows left)
  Represents e (ended rows) = IsEnded rows e

  -- What a call may do, and does.
  abbrev pub Refined : Call F → Log → Reply F × Engine S F → Type 0
  Refined call log (reply, e) = (log' : Log) × Allowed F call log reply log' × Represents e log'

  -- The check of a call on an engine whose flag is used up.
  check_once :
      (e : Engine S F)
      → e.called_once ≡ true
      → (Storage.init S F e ≡ (e.is_initialized, e))
        × ((ts : ℕ) → Storage.purge_older_than S F ts e ≡ (e.is_initialized, e))
        × ((id : Text) (limit : ℕ) → Storage.query_telemetry S F id limit e ≡ ([], e))
  unfolding Storage.init Storage.purge_older_than Storage.query_telemetry
  check_once e h =
      let same = once_used S F e h in (simp same, λ ts. simp same, λ id limit. simp same)

  ended_refuses :
      (e : Engine S F)
      → e.called_once ≡ true
      → e.is_initialized ≡ false
      → ((row : TelemetryData F.Double) → Storage.insert_telemetry S F row e ≡ (false, e))
        × ((batch : List (TelemetryData F.Double)) → Storage.insert_batch S F batch e ≡ (false, e))
  unfolding Storage.insert_telemetry Storage.insert_batch
  ended_refuses e h off =
      let same = once_used S F e h in (λ row. simp (same, off), λ batch. simp (same, off))

  ended-Refined :
      (call : Call F) (rows : List Row) (e : Engine S F)
      → IsEnded rows e
      → Refined call (ended rows) (call_engine F S call e)
  unfolding call_engine Storage.is_ready
  ended-Refined inits rows e x =
      let (same, _, _) = check_once e x.once in rw same (ended rows, (ap answers x.off, refl), x)
  ended-Refined asks rows e x = (ended rows, (ap answers x.off, refl), x)
  ended-Refined closes rows e x =
      let (world, no_db, no_stmt) = close_without_handles S F e x.no_db x.no_stmt in
      let (once, off, _, _) = close_flags S F e in
      (
        ended rows,
        (refl, refl),
        record {
          once = once ∙ x.once;
          off = off;
          no_db = no_db;
          no_stmt = no_stmt;
          kept = rw world x.kept;
        },
      )
  ended-Refined (inserts row) rows e x =
      rw ((ended_refuses e x.once x.off).0 row) (ended rows, (refl, refl), x)
  ended-Refined (inserts_batch []) rows e x =
      rw ((ended_refuses e x.once x.off).1 []) (ended rows, (refl, refl), x)
  ended-Refined (inserts_batch (row ∷ batch)) rows e x =
      rw ((ended_refuses e x.once x.off).1 (row ∷ batch)) (ended rows, (refl, refl), x)
  ended-Refined (queries id limit) rows e x =
      let (_, _, same) = check_once e x.once in rw (same id limit) (ended rows, (refl, refl), x)
  ended-Refined (purges ts) rows e x =
      let (_, same, _) = check_once e x.once in
      rw (same ts) (ended rows, (ap answers x.off, refl), x)

  module _ (db : S.Db) (st : S.Stmt) where
    closed-IsEnded :
        (rows : List Row) (e : Engine S F)
        → IsOpen S F L db st e
        → (view e.world).committed ≡ rows
        → IsEnded rows (Storage.close S F e)
    closed-IsEnded rows e o v =
        let (table, no_db, no_stmt, off) = close_open S F L db st e o in
        record {
          once = (close_flags S F e).0 ∙ o.called_once;
          off = off;
          no_db = no_db;
          no_stmt = no_stmt;
          kept = ap (λ t. t.committed) table ∙ v;
        }

    serving-Refined :
        (call : Call F) (rows : List Row) (e : Engine S F)
        → IsOpen S F L db st e
        → view e.world ≡ at_rest rows
        → Refined call (serving rows) (call_engine F S call e)
    unfolding call_engine Storage.is_ready
    serving-Refined inits rows e o v =
        let (same, _, _) = check_once e o.called_once in
        rw same (serving rows, (ap answers o.initialized, refl), (db, st, o, v))
    serving-Refined asks rows e o v =
        (serving rows, (ap answers o.initialized, refl), (db, st, o, v))
    serving-Refined closes rows e o v =
        (ended rows, (refl, refl), closed-IsEnded rows e o (ap (λ t. t.committed) v))
    serving-Refined (inserts row) rows e o v =
        let o' = insert_telemetry-IsOpen S F L db st row e o in
        elim (insert_view S F L db st row e rows o v) [
          | inl (done, v') ↦
              (serving (rows ++ row_of F row ∷ []), inl (ap answers done, refl), (db, st, o', v'))
          | inr (failed, v') ↦ (serving rows, inr (ap answers failed, refl), (db, st, o', v'))
        ]
    serving-Refined (inserts_batch []) rows e o v =
        rw (batch_empty S F L db st e o) (serving rows, (refl, refl), (db, st, o, v))
    serving-Refined (inserts_batch (row ∷ batch)) rows e o v =
        let o' = insert_batch-IsOpen S F L db st (row ∷ batch) e o in
        let new = map (row_of F) (row ∷ batch) in
        elim (insert_batch_view S F L db st row batch e rows o v) [
          | inl (done, v') ↦ (serving (rows ++ new), inl (ap answers done, refl), (db, st, o', v'))
          | inr (failed, inl v') ↦
              (serving rows, inr (ap answers failed, inl refl), (db, st, o', v'))
          | inr (failed, inr v') ↦
              (torn rows new, inr (ap answers failed, inr refl), (db, st, o', v'))
        ]
    serving-Refined (queries id limit) rows e o v =
        let (_, _, same) = check_once e o.called_once in
        rw (same id limit) (serving rows, (refl, refl), (db, st, o, v))
    serving-Refined (purges ts) rows e o v =
        let (_, same, _) = check_once e o.called_once in
        rw (same ts) (serving rows, (ap answers o.initialized, refl), (db, st, o, v))

    torn-Refined :
        (call : Call F) (rows left : List Row) (e : Engine S F)
        → IsOpen S F L db st e
        → view e.world ≡ torn_by rows left
        → Refined call (torn rows left) (call_engine F S call e)
    unfolding call_engine Storage.is_ready
    torn-Refined inits rows left e o v =
        let (same, _, _) = check_once e o.called_once in
        rw same (torn rows left, (ap answers o.initialized, refl), (db, st, o, v))
    torn-Refined asks rows left e o v =
        (torn rows left, (ap answers o.initialized, refl), (db, st, o, v))
    torn-Refined closes rows left e o v =
        (ended rows, (refl, refl), closed-IsEnded rows e o (ap (λ t. t.committed) v))
    torn-Refined (inserts row) rows left e o v =
        let o' = insert_telemetry-IsOpen S F L db st row e o in
        elim (insert_torn_view S F L db st row e rows left o v) [
          | inl (done, v') ↦
              (torn rows (left ++ row_of F row ∷ []), inl (ap answers done, refl), (db, st, o', v'))
          | inr (failed, inl v') ↦
              (torn rows left, inr (ap answers failed, inl refl), (db, st, o', v'))
          | inr (failed, inr v') ↦
              (serving rows, inr (ap answers failed, inr refl), (db, st, o', v'))
        ]
    torn-Refined (inserts_batch []) rows left e o v =
        rw (batch_empty S F L db st e o) (torn rows left, (refl, refl), (db, st, o, v))
    torn-Refined (inserts_batch (row ∷ batch)) rows left e o v =
        let o' = insert_batch-IsOpen S F L db st (row ∷ batch) e o in
        let (refused, same) =
          insert_batch_stuck S F L db st (row ∷ batch) e left o (λ h. cc) (ap (λ t. t.pending) v) in
        (torn rows left, (ap answers refused, refl), (db, st, o', same ∙ v))
    torn-Refined (queries id limit) rows left e o v =
        let (_, _, same) = check_once e o.called_once in
        rw (same id limit) (torn rows left, (refl, refl), (db, st, o, v))
    torn-Refined (purges ts) rows left e o v =
        let (_, same, _) = check_once e o.called_once in
        rw (same ts) (torn rows left, (ap answers o.initialized, refl), (db, st, o, v))

  pub call-Refined :
      (call : Call F) (log : Log) (e : Engine S F)
      → Represents e log
      → Refined call log (call_engine F S call e)
  call-Refined call (serving rows) e (db, st, o, v) = serving-Refined db st call rows e o v
  call-Refined call (torn rows left) e (db, st, o, v) = torn-Refined db st call rows left e o v
  call-Refined call (ended rows) e x = ended-Refined call rows e x
