-- ===== src/Storage/Threads/Bodies.antt =====
-- The bodies under the lock in src/storage/storage_engine.cpp leave the flags of the engine alone.
use secure_ros2_gateway.Prelude.{
  ◌≡◌, inl, inr, refl, ◌∙◌, Bool, true, false, Bool-cases, List, [], ◌∷◌,
}
use secure_ros2_gateway.Telemetry.{TelemetryData}
use secure_ros2_gateway.Storage.{Engine, exec, write_row, write_rows, finish_batch, batch_locked}
use secure_ros2_gateway.Storage.Sqlite.{SqliteApi, begin_sql}
use secure_ros2_gateway.Storage.Payload.{Doubles}

module _ (S : SqliteApi) (F : Doubles) where
  -- The flags stand as they were.
  pub record IsSame (e e' : Engine S F) : Type 0 where
    pub same_once : e'.called_once ≡ e.called_once
    pub same_flag : e'.is_initialized ≡ e.is_initialized

  pub write_row-IsSame :
      (row : TelemetryData F.Double) (e : Engine S F) → IsSame e (write_row S F row e).1
  unfolding write_row
  write_row-IsSame row e = record { same_once = refl; same_flag = refl }

  write_rows-IsSame :
      (rows : List (TelemetryData F.Double)) (e : Engine S F) → IsSame e (write_rows S F rows e).1
  unfolding write_rows
  write_rows-IsSame [] e = record { same_once = refl; same_flag = refl }
  write_rows-IsSame (row ∷ rows) e =
      let first = write_row-IsSame row e in
      let rest = write_rows-IsSame rows (write_row S F row e).1 in
      elim (Bool-cases (write_row S F row e).0) [
        | inl done ↦ rw done (record {
          same_once = rest.same_once ∙ first.same_once;
          same_flag = rest.same_flag ∙ first.same_flag;
        })
        | inr failed ↦ rw failed first
      ]

  finish_batch-IsSame : (done : Bool) (e : Engine S F) → IsSame e (finish_batch S F done e).1
  unfolding finish_batch
  finish_batch-IsSame true e = record { same_once = refl; same_flag = refl }
  finish_batch-IsSame false e = record { same_once = refl; same_flag = refl }

  pub batch_locked-IsSame :
      (batch : List (TelemetryData F.Double)) (e : Engine S F)
      → IsSame e (batch_locked S F batch e).1
  unfolding batch_locked
  batch_locked-IsSame batch e =
      let begun = (exec S F begin_sql e).1 in
      let (written, e') = write_rows S F batch begun in
      let rows = write_rows-IsSame batch begun in
      let end = finish_batch-IsSame written e' in
      elim (Bool-cases (S.exec e.db begin_sql e.world).0) [
        | inl done ↦ rw done (record {
          same_once = end.same_once ∙ rows.same_once;
          same_flag = end.same_flag ∙ rows.same_flag;
        })
        | inr failed ↦ rw failed (record { same_once = refl; same_flag = refl })
      ]
