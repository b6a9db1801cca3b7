-- ===== src/Storage/Rows.antt =====
-- One row on its way into the table: the parameters are bound to the right columns, and the step
-- adds that row or none.
use secure_ros2_gateway.Prelude.{
  ◌≡◌, ◌≢◌, refl, ap, ◌∙◌, ◌⊎◌, inl, inr, true, false, Option, none, some, arith,
}
use secure_ros2_gateway.Prelude.Int.{to_int64}
use secure_ros2_gateway.Telemetry.{TelemetryData}
use secure_ros2_gateway.Storage.Sqlite.{
  SqliteApi, IsSqlite, Row, Cell, text_cell, int_cell, c_str, add_row, rollback_on,
}
use secure_ros2_gateway.Storage.Payload.{Doubles, payload_json}
use secure_ros2_gateway.Storage.{Engine, write_row}

-- The row of a frame: texts up to their first NUL, numbers as signed 64-bit integers.
abbrev pub row_of : (F : Doubles) → TelemetryData F.Double → Row
row_of F row = record {
  robot_id = c_str row.robot_id;
  sensor_type = c_str row.sensor_type;
  timestamp_ns = to_int64 row.timestamp_ns;
  sequence_id = to_int64 row.sequence_id;
  payload_json = c_str (payload_json F row.payload_values);
}

-- A parameter that a call bound or left NULL, and that is not NULL.
bound_cell : {p : Option Cell} {c : Cell} → (p ≡ some c) ⊎ (p ≡ none) → p ≢ none → p ≡ some c
bound_cell (inl e) n = e
bound_cell (inr e) n = absurd (n e)

module _ (S : SqliteApi) (F : Doubles) (L : IsSqlite S) where
  open L use {view, param, Ready, Reset}

  -- An engine that init has opened.
  pub record IsOpen (db : S.Db) (st : S.Stmt) (e : Engine S F) : Type 0 where
    pub has_db : e.db ≡ some db
    pub has_stmt : e.insert_stmt ≡ some st
    pub ready : Ready db st e.world
    pub called_once : e.called_once ≡ true
    pub initialized : e.is_initialized ≡ true

  module _ (db : S.Db) (st : S.Stmt) (row : Row) where
    -- The world when all five parameters are bound.
    abbrev bound : S.World → S.World
    bound w =
        let w = S.clear_bindings (some st) (S.reset (some st) w) in
        let w = S.bind_text (some st) 1 row.robot_id w in
        let w = S.bind_text (some st) 2 row.sensor_type w in
        let w = S.bind_int64 (some st) 3 row.timestamp_ns w in
        let w = S.bind_int64 (some st) 4 row.sequence_id w in
        S.bind_text (some st) 5 row.payload_json w

    bound-Ready : (w : S.World) → Ready db st w → Ready db st (bound w)
    bound-Ready w r = L.ready_bind_text db st _ _ _ (
        L.ready_bind_int64 db st _ _ _ (
          L.ready_bind_int64 db st _ _ _ (
            L.ready_bind_text db st _ _ _
              (L.ready_bind_text db st _ _ _ (L.ready_clear db st _ (L.ready_reset db st w r))))))

    view-bound : (w : S.World) → view (bound w) ≡ view w
    view-bound w = simp (L.view_bind_text, L.view_bind_int64, L.view_clear, L.view_reset)

    -- The world when the first parameters are bound, up to the fourth.
    abbrev after0 : S.World → S.World
    after0 w = S.clear_bindings (some st) (S.reset (some st) w)

    abbrev after1 : S.World → S.World
    after1 w = S.bind_text (some st) 1 row.robot_id (after0 w)

    abbrev after2 : S.World → S.World
    after2 w = S.bind_text (some st) 2 row.sensor_type (after1 w)

    abbrev after3 : S.World → S.World
    after3 w = S.bind_int64 (some st) 3 row.timestamp_ns (after2 w)

    abbrev after4 : S.World → S.World
    after4 w = S.bind_int64 (some st) 4 row.sequence_id (after3 w)

    module _ (w : S.World) (r : Ready db st w) where
      reset0 : Reset st (after0 w)
      reset0 = L.reset_clear st _ (L.reset_done db st w r)

      reset1 : Reset st (after1 w)
      reset1 = L.reset_bind_text st _ 1 _ reset0

      reset2 : Reset st (after2 w)
      reset2 = L.reset_bind_text st _ 2 _ reset1

      reset3 : Reset st (after3 w)
      reset3 = L.reset_bind_int64 st _ 3 _ reset2

      reset4 : Reset st (after4 w)
      reset4 = L.reset_bind_int64 st _ 4 _ reset3

      module _ (h : (S.step (some st) (bound w)).0 ≡ true) where
        robot_id_bound : param st (bound w) 1 ≡ some (text_cell row.robot_id)
        robot_id_bound =
            bound_cell
              (rw kept
                (L.param_bind_text st (after0 w) 1 row.robot_id reset0 (L.param_clear st _ 1)))
              (L.not_null db st (bound w) 1 (bound-Ready w r) (omega arith, omega arith) h)
          where
            kept : param st (bound w) 1 ≡ param st (after1 w) 1
            kept = simp (L.kept_bind_text, L.kept_bind_int64)

        sensor_type_bound : param st (bound w) 2 ≡ some (text_cell row.sensor_type)
        sensor_type_bound =
            bound_cell
              (rw kept (
                L.param_bind_text st (after1 w) 2 row.sensor_type reset1
                  (simp (L.kept_bind_text, L.param_clear))))
              (L.not_null db st (bound w) 2 (bound-Ready w r) (omega arith, omega arith) h)
          where
            kept : param st (bound w) 2 ≡ param st (after2 w) 2
            kept = simp (L.kept_bind_text, L.kept_bind_int64)

        timestamp_ns_bound : param st (bound w) 3 ≡ some (int_cell row.timestamp_ns)
        timestamp_ns_bound =
            bound_cell
              (rw kept (
                L.param_bind_int64 st (after2 w) 3 row.timestamp_ns reset2
                  (simp (L.kept_bind_text, L.param_clear))))
              (L.not_null db st (bound w) 3 (bound-Ready w r) (omega arith, omega arith) h)
          where
            kept : param st (bound w) 3 ≡ param st (after3 w) 3
            kept = simp (L.kept_bind_text, L.kept_bind_int64)

        sequence_id_bound : param st (bound w) 4 ≡ some (int_cell row.sequence_id)
        sequence_id_bound =
            bound_cell
              (rw kept (
                L.param_bind_int64 st (after3 w) 4 row.sequence_id reset3
                  (simp (L.kept_bind_text, L.kept_bind_int64, L.param_clear))))
              (L.not_null db st (bound w) 4 (bound-Ready w r) (omega arith, omega arith) h)
          where
            kept : param st (bound w) 4 ≡ param st (after4 w) 4
            kept = simp L.kept_bind_text

        payload_json_bound : param st (bound w) 5 ≡ some (text_cell row.payload_json)
        payload_json_bound =
            bound_cell
              (L.param_bind_text st (after4 w) 5 row.payload_json reset4
                (simp (L.kept_bind_text, L.kept_bind_int64, L.param_clear)))
              (L.not_null db st (bound w) 5 (bound-Ready w r) (omega arith, omega arith) h)

    step-bound_done :
        (w : S.World)
        → Ready db st w
        → (S.step (some st) (bound w)).0 ≡ true
        → view (S.step (some st) (bound w)).1 ≡ add_row row (view w)
    step-bound_done w r h =
        L.step_done db st (bound w) row (bound-Ready w r) (robot_id_bound w r h)
          (sensor_type_bound w r h) (timestamp_ns_bound w r h) (sequence_id_bound w r h)
          (payload_json_bound w r h) h
        ∙ ap (add_row row) (view-bound w)

    step-bound_failed :
        (w : S.World)
        → Ready db st w
        → (S.step (some st) (bound w)).0 ≡ false
        → (view (S.step (some st) (bound w)).1 ≡ view w)
          ⊎ (view (S.step (some st) (bound w)).1 ≡ rollback_on (view w))
    step-bound_failed w r h =
        let e = view-bound w in
        let f = L.step_failed db st (bound w) (bound-Ready w r) h in rw e at f

  module _ (db : S.Db) (st : S.Stmt) (row : TelemetryData F.Double) (e : Engine S F)
      (h : IsOpen db st e) where
    -- The engine itself does not change; its world goes through the bindings and the step.
    write_row_lem : write_row S F row e ≡ (
      (S.step (some st) (bound db st (row_of F row) e.world)).0,
      record e { world = (S.step (some st) (bound db st (row_of F row) e.world)).1 },
    )
    unfolding write_row
    write_row_lem = rw h.has_stmt refl

    pub write_row-IsOpen : IsOpen db st (write_row S F row e).1
    write_row-IsOpen = rw write_row_lem (record {
      has_db = h.has_db;
      has_stmt = h.has_stmt;
      ready = L.ready_step db st _ (bound-Ready db st (row_of F row) e.world h.ready);
      called_once = h.called_once;
      initialized = h.initialized;
    })

    -- A step that is done adds exactly the frame's row, to the open transaction or to the table.
    pub write_row_done :
        (write_row S F row e).0 ≡ true
        → view (write_row S F row e).1.world ≡ add_row (row_of F row) (view e.world)
    write_row_done t =
        rw write_row_lem
          (step-bound_done db st (row_of F row) e.world h.ready (rw write_row_lem at t))

    pub write_row_failed :
        (write_row S F row e).0 ≡ false
        → (view (write_row S F row e).1.world ≡ view e.world)
          ⊎ (view (write_row S F row e).1.world ≡ rollback_on (view e.world))
    write_row_failed t =
        rw write_row_lem
          (step-bound_failed db st (row_of F row) e.world h.ready (rw write_row_lem at t))
