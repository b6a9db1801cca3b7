-- ===== src/Storage/Lifecycle.antt =====
-- close of src/storage/storage_engine.cpp, and what a failed initialisation leaves.
use secure_ros2_gateway.Prelude.{ℕ, ◌≡◌, refl, ◌∙◌, true, false, List, none, arith}
use secure_ros2_gateway.Telemetry.{TelemetryData}
use secure_ros2_gateway.Storage.Sqlite.{SqliteApi, IsSqlite, rollback_on}
use secure_ros2_gateway.Storage.Payload.{Doubles}
use secure_ros2_gateway.Storage.{
  Engine, close_internal, close, fail_init, ensure_initialized, init, insert_batch,
  insert_telemetry, purge_older_than,
}
use secure_ros2_gateway.Storage.Rows.{IsOpen}

module _ (S : SqliteApi) (F : Doubles) where
  -- Once the flag is used up, no call initialises the engine again.
  pub once_used : (e : Engine S F) → e.called_once ≡ true → ensure_initialized S F e ≡ e
  unfolding ensure_initialized
  once_used e h = simp h

  pub close_flags :
      (e : Engine S F)
      → ((close S F e).called_once ≡ e.called_once)
        × ((close S F e).is_initialized ≡ false)
        × ((close S F e).db ≡ none)
        × ((close S F e).insert_stmt ≡ none)
  unfolding close close_internal
  close_flags e = ground arith

  -- Once an initialisation has been tried, `close` is final: after it init, the insertions and
  -- the purge fail, and none of them opens the database again or calls SQLite.
  pub close_final :
      (e : Engine S F) (row : TelemetryData F.Double) (batch : List (TelemetryData F.Double))
      (timestamp : ℕ)
      → e.called_once ≡ true
      → (init S F (close S F e) ≡ (false, close S F e))
        × (insert_telemetry S F row (close S F e) ≡ (false, close S F e))
        × (insert_batch S F batch (close S F e) ≡ (false, close S F e))
        × (purge_older_than S F timestamp (close S F e) ≡ (false, close S F e))
  unfolding init insert_telemetry insert_batch purge_older_than
  close_final e row batch timestamp h =
      let (once, off, _, _) = close_flags e in
      let same = once_used (close S F e) (once ∙ h) in
      (simp (same, off), simp (same, off), simp (same, off), simp (same, off))

  -- A second close changes nothing.
  pub close-close : (e : Engine S F) → close S F (close S F e) ≡ close S F e
  unfolding close close_internal
  close-close e = ground arith

  -- Closing an engine without handles does not call SQLite.
  pub close_without_handles :
      (e : Engine S F)
      → e.db ≡ none
      → e.insert_stmt ≡ none
      → ((close S F e).world ≡ e.world)
        × ((close S F e).db ≡ none)
        × ((close S F e).insert_stmt ≡ none)
  unfolding close close_internal
  close_without_handles e d s = ground arith

  close_internal_flags :
      (e : Engine S F)
      → ((close_internal S F e).called_once ≡ e.called_once)
        × ((close_internal S F e).is_initialized ≡ false)
        × ((close_internal S F e).init_failed ≡ e.init_failed)
        × ((close_internal S F e).db ≡ none)
        × ((close_internal S F e).insert_stmt ≡ none)
  unfolding close_internal
  close_internal_flags e = ground arith

  -- No handle is left behind, and the flag of std::call_once is used up.
  pub record IsFailed (e : Engine S F) : Type 0 where
    pub once : e.called_once ≡ true
    pub off : e.is_initialized ≡ false
    pub failed : e.init_failed ≡ true
    pub no_db : e.db ≡ none
    pub no_stmt : e.insert_stmt ≡ none

  pub fail_init_lem : (e : Engine S F) → e.called_once ≡ true → IsFailed (fail_init S F e).1
  fail_init_lem e once =
      let (same, off, failed, no_db, no_stmt) =
        close_internal_flags (record e { init_failed = true }) in
      record { once = same ∙ once; off = off; failed = failed; no_db = no_db; no_stmt = no_stmt }

  module _ (L : IsSqlite S) where
    -- Closing an open engine ends its transaction with nothing committed, and leaves no handle.
    pub close_open :
        (db : S.Db) (st : S.Stmt) (e : Engine S F)
        → IsOpen S F L db st e
        → (L.view (close S F e).world ≡ rollback_on (L.view e.world))
          × ((close S F e).db ≡ none)
          × ((close S F e).insert_stmt ≡ none)
          × ((close S F e).is_initialized ≡ false)
    unfolding close close_internal
    close_open db st e o =
        rw (o.has_stmt, o.has_db) (L.closed db st e.world o.ready, refl, refl, refl)
