-- ===== src/Storage/Opening.antt =====
-- init of src/storage/storage_engine.cpp: how the first initialisation ends, and every later one.
use secure_ros2_gateway.Prelude.{
  ◌≡◌, refl, ap, ◌∙◌, ◌⊎◌, inl, inr, Bool, true, false, none, some, Bool-cases,
}
use secure_ros2_gateway.Prelude.Text.{Text}
use secure_ros2_gateway.Storage.Sqlite.{
  SqliteApi, IsSqlite, insert_sql, wal_sql, synchronous_sql, schema_sql, IsSetup,
}
use secure_ros2_gateway.Storage.Payload.{Doubles}
use secure_ros2_gateway.Storage.{
  Engine, exec, enable_wal_mode, create_schema, prepare_insert, configure, open_database,
  init_internal, ensure_initialized, init,
}
use secure_ros2_gateway.Storage.Rows.{IsOpen}
use secure_ros2_gateway.Storage.Lifecycle.{once_used, IsFailed, fail_init_lem}

module _ (S : SqliteApi) (F : Doubles) where
  module _ (L : IsSqlite S) where
    open L use {Connected, Ready}

    -- How a stage of init_internal ends, from an engine whose flag is used up.
    abbrev pub Ends : Bool × Engine S F → Type 0
    Ends (done, e) =
        ((done ≡ true)
          × (db : S.Db) × (st : S.Stmt) × IsOpen S F L db st e
          × ((L.view e.world).pending ≡ none))
        ⊎ ((done ≡ false) × IsFailed S F e)

    -- An engine while init_internal has its connection open.
    record IsLive (db : S.Db) (e : Engine S F) : Type 0 where
      once : e.called_once ≡ true
      has : e.db ≡ some db
      connected : Connected db e.world
      quiet : (L.view e.world).pending ≡ none

    prepare_insert-Ends : (db : S.Db) (e : Engine S F) → IsLive db e → Ends (prepare_insert S F e)
    unfolding prepare_insert
    prepare_insert-Ends db e v =
        let (r, w) = S.prepare e.db insert_sql e.world in
        let e' = record e { insert_stmt = r.1; world = w } in
        elim (Bool-cases (S.prepare e.db insert_sql e.world).0.0) [
          | inl done ↦
              let (st, has_stmt, ready) =
                L.prepare_done db e.world v.connected (rw v.has at done) in
              rw done (
                inl (
                  refl,
                  db,
                  st,
                  record {
                    has_db = v.has;
                    has_stmt = rw v.has has_stmt;
                    ready = rw v.has ready;
                    called_once = v.once;
                    initialized = refl;
                  },
                  rw v.has (ap (λ t. t.pending) (L.view_prepare db e.world v.connected) ∙ v.quiet),
                ))
          | inr failed ↦ rw failed (inr (refl, fail_init_lem S F e' v.once))
        ]

    exec-IsLive :
        (db : S.Db) (sql : Text) (e : Engine S F)
        → IsSetup sql
        → IsLive db e
        → IsLive db (exec S F sql e).1
    exec-IsLive db sql e s v = record {
      once = v.once;
      has = v.has;
      connected = rw v.has (L.connected_exec db e.world sql v.connected s);
      quiet = rw v.has (L.setup_quiet db e.world sql v.connected s v.quiet);
    }

    enable_wal_mode-IsLive :
        (db : S.Db) (e : Engine S F) → IsLive db e → IsLive db (enable_wal_mode S F e).1
    unfolding enable_wal_mode
    enable_wal_mode-IsLive db e v =
        let v1 = exec-IsLive db wal_sql e (inl refl) v in
        elim (Bool-cases (S.exec e.db wal_sql e.world).0) [
          | inl done ↦ rw done (exec-IsLive db synchronous_sql _ (inr (inl refl)) v1)
          | inr failed ↦ rw failed v1
        ]

    configure-Ends : (db : S.Db) (e : Engine S F) → IsLive db e → Ends (configure S F e)
    unfolding configure create_schema
    configure-Ends db e v =
        let v1 = enable_wal_mode-IsLive db e v in
        let e1 = (enable_wal_mode S F e).1 in
        elim (Bool-cases (enable_wal_mode S F e).0) [
          | inr failed ↦ rw failed (inr (refl, fail_init_lem S F e1 v1.once))
          | inl wal ↦ elim (Bool-cases (S.exec e1.db schema_sql e1.world).0) [
            | inr failed ↦
                rw (wal, failed) (inr (refl, fail_init_lem S F (exec S F schema_sql e1).1 v1.once))
            | inl schema ↦
                rw (wal, schema)
                  (prepare_insert-Ends db (exec S F schema_sql e1).1
                    (exec-IsLive db schema_sql e1 (inr (inr refl)) v1))
          ]
        ]

    open_database-Ends : (e : Engine S F) → e.called_once ≡ true → Ends (open_database S F e)
    unfolding open_database
    open_database-Ends e once =
        let (r, w) = S.open_db e.db_path e.world in
        let e' = record e { db = r.1; world = w } in
        elim (Bool-cases (S.open_db e.db_path e.world).0.0) [
          | inl done ↦
              let (db, has, connected) = L.open_done e.db_path e.world done in
              rw done (
                configure-Ends db e' (record {
                  once = once;
                  has = has;
                  connected = connected;
                  quiet = L.open_quiet e.db_path e.world done;
                }))
          | inr failed ↦ rw failed (inr (refl, fail_init_lem S F e' once))
        ]

    -- What init_internal starts from.
    abbrev started : Engine S F → Engine S F
    started e = record e {
      called_once = true;
      init_failed = false;
      world = S.create_parent_directories e.db_path e.world;
    }

    ensure_first :
        (e : Engine S F)
        → e.called_once ≡ false
        → e.is_initialized ≡ false
        → ensure_initialized S F e ≡ (open_database S F (started e)).1
    unfolding ensure_initialized init_internal
    ensure_first e fresh off = simp (fresh, off)

    -- The first init of an engine ends in one of two ways. It returns true, and the connection is
    -- open with its prepared insertion and outside a transaction; or it returns false, and no
    -- handle is left behind.
    pub init_first :
        (e : Engine S F) → e.called_once ≡ false → e.is_initialized ≡ false → Ends (init S F e)
    unfolding init
    init_first e fresh off =
        rw (ensure_first e fresh off) (elim (open_database-Ends (started e) refl) [
          | inl (_, db, st, o, q) ↦ inl (o.initialized, db, st, o, q)
          | inr (_, f) ↦ inr (f.off, f)
        ])

    pub ensure_once :
        (e : Engine S F)
        → e.called_once ≡ false
        → e.is_initialized ≡ false
        → (ensure_initialized S F e).called_once ≡ true
    ensure_once e fresh off =
        rw (ensure_first e fresh off) (elim (open_database-Ends (started e) refl) [
          | inl (_, db, st, o, _) ↦ o.called_once
          | inr (_, f) ↦ f.once
        ])

    -- Any later init repeats the answer of the first one and changes nothing: a failed
    -- initialisation is never tried again.
    pub init_again :
        (e : Engine S F)
        → e.called_once ≡ false
        → e.is_initialized ≡ false
        → init S F (init S F e).1 ≡ init S F e
    unfolding init
    init_again e fresh off =
        simp (once_used S F (ensure_initialized S F e) (ensure_once e fresh off))
