-- ===== src/Startup/Inserted.antt =====
-- What a run of src/main.cpp leaves in the table.
use secure_ros2_gateway.Prelude.{
  ℕ, suc, ◌+◌, ◌≤◌, ◌≡◌, ◌⊎◌, inl, inr, refl, ap, sym, ◌∙◌, Bool, true, false, List, [], ◌∷◌, ◌++◌,
  none, some, arith, length, replicate, append_assoc, append-nil, Bool-cases, map,
}
use secure_ros2_gateway.Telemetry.{TelemetryData}
use secure_ros2_gateway.Storage
use secure_ros2_gateway.Storage.{Engine, ensure_initialized}
use secure_ros2_gateway.Storage.Sqlite.{SqliteApi, IsSqlite, Row, rollback_on}
use secure_ros2_gateway.Storage.Payload.{Doubles}
use secure_ros2_gateway.Storage.Rows.{row_of}
use secure_ros2_gateway.Storage.Outcomes.{rest_of}
use secure_ros2_gateway.Storage.Lifecycle.{close_open, close_without_handles, once_used}
use secure_ros2_gateway.Storage.Opening.{init_first}
use secure_ros2_gateway.Storage.Log.{
  Log, serving, Call, inserts, Reply, answers, finds, nothing, Allows, call_all,
}
use secure_ros2_gateway.Storage.Log.Calls.{Represents}
use secure_ros2_gateway.Storage.Log.Refines.{call_all-Refined}
use secure_ros2_gateway.Storage.Threads.{Thread, starting, checking, locking, returned, run, Pool}
use secure_ros2_gateway.Storage.Threads.Steps.{call_of}
use secure_ros2_gateway.Storage.Threads.Atomic.{run_atomic, run_once}
use secure_ros2_gateway.Storage.Threads.Returns.{length-run}
use secure_ros2_gateway.Storage.Threads.Tally.{AllOf, run-AllMake, tally, sum_of, run-tally}
use secure_ros2_gateway.Startup.{
  sample_data, worker_thread_function, workers, main_program, Exit, db_path, join_all, all_returned,
}

one_more : (n : ℕ) → 1 + n ≡ suc n
one_more n = omega arith

no_more : (n : ℕ) → 0 + n ≡ n
no_more n = omega arith

module _ (F : Doubles) where
  abbrev wins : Reply F → ℕ
  wins (answers true) = 1
  wins (answers false) = 0
  wins (finds rows) = 0
  wins nothing = 0

  -- The number of threads whose insertion returned true.
  abbrev pub successes : List (Thread F) → ℕ
  successes = tally F wins

  wins_bound : (reply : Reply F) → wins reply ≤ 1
  wins_bound (answers true) = omega arith
  wins_bound (answers false) = omega arith
  wins_bound (finds rows) = omega arith
  wins_bound nothing = omega arith

  successes_bound : (ts : List (Thread F)) → successes ts ≤ length ts
  successes_bound [] = omega arith
  successes_bound (starting call ∷ ts) = omega (arith, successes_bound ts)
  successes_bound (checking call ∷ ts) = omega (arith, successes_bound ts)
  successes_bound (locking call ∷ ts) = omega (arith, successes_bound ts)
  successes_bound (returned call reply ∷ ts) = omega (arith, successes_bound ts, wins_bound reply)

  -- A log to which one frame is inserted again and again holds it once for each success.
  repeated :
      (frame : TelemetryData F.Double) (history : List (Call F × Reply F)) (rows : List Row)
      (last : Log)
      → AllOf F (inserts frame) history
      → Allows F history (serving rows) last
      → last ≡ serving (rows ++ replicate (sum_of F wins history) (row_of F frame))
  repeated frame [] rows last of allows = allows ∙ ap serving (sym (append-nil rows))
  repeated frame ((c, reply) ∷ history) rows last (same, of) (log', allowed, allows) =
      elim (rw same at allowed) [
        | inl (done, log) ↦
            let row = row_of F frame in
            rw (done, one_more (sum_of F wins history))
              (repeated frame history (rows ++ row ∷ []) last of (rw log at allows)
                ∙ ap serving (append_assoc rows (row ∷ []) (replicate (sum_of F wins history) row)))
        | inr (failed, log) ↦
            rw (failed, no_more (sum_of F wins history))
              (repeated frame history rows last of (rw log at allows))
      ]

module _ (S : SqliteApi) (F : Doubles) (L : IsSqlite S) where
  open L use {view}

  abbrev pub sample_row : Row
  sample_row = row_of F (sample_data S F)

  -- What the threads leave, by any schedule, of an engine that holds these rows.
  record HasRun (before : List Row) (pool : Pool F S) : Type 0 where
    serves : Represents S F L pool.1 (serving (before ++ replicate (successes F pool.0) sample_row))
    at_most : successes F pool.0 ≤ 4

  workers-HasRun :
      (schedule : List ℕ) (before : List Row) (e : Engine S F)
      → e.called_once ≡ true
      → Represents S F L e (serving before)
      → HasRun before (run F S schedule (workers S F) e)
  workers-HasRun schedule before e once r =
      let calls = replicate 4 (worker_thread_function S F) in
      let (threads, last, ended) = run F S schedule (workers S F) e in
      let same : ensure_initialized S F last ≡ last =
        once_used S F last (run_once S F L schedule calls e (tt, (tt, (tt, (tt, tt)))) once) in
      let eq : call_all F S (map (call_of S F) ended) e ≡ (ended, last) =
        rw (once_used S F e once, same) at
          (run_atomic S F L schedule calls e (tt, (tt, (tt, (tt, tt)))) (inl once)) in
      let of =
        (run-AllMake F S (worker_thread_function S F) schedule (workers S F) e
          (refl, (refl, (refl, (refl, tt))))).1 in
      let (log, allows, r') =
        call_all-Refined S F L (map (call_of S F) ended) (serving before) e r in
      let total : sum_of F (wins F) ended ≡ successes F threads =
        omega (arith, run-tally F (wins F) S schedule (workers S F) e) in
      let end : log ≡ serving (before ++ replicate (successes F threads) sample_row) =
        repeated F (sample_data S F) ended before log of (rw eq at allows)
        ∙ ap (λ n. serving (before ++ replicate n sample_row)) total in
      record {
        serves = rw end at (rw eq at r');
        at_most = omega (arith, successes_bound F threads, length-run F S schedule (workers S F) e);
      }

  -- How main ends, from the result of the initialisation.
  abbrev pub EndsWell : Bool × Engine S F → Exit S F → Type 0
  EndsWell (ready, e) x =
      (x.storage.db ≡ none)
      × (x.storage.insert_stmt ≡ none)
      × (((ready ≡ false) × (x.code ≡ 1))
          ⊎ ((ready ≡ true)
              × (x.code ≡ 0)
              × (all_returned S F x.threads ≡ true)
              × (successes F x.threads ≤ 4)
              × ((view x.storage.world).committed
                  ≡ (view e.world).committed ++ replicate (successes F x.threads) sample_row)))

  some_injective : {x y : Exit S F} → some x ≡ some y → x ≡ y
  some_injective h = cc

  join_all-EndsWell :
      (e : Engine S F) (pool : Pool F S) (x : Exit S F)
      → HasRun (view e.world).committed pool
      → join_all S F pool ≡ some x
      → EndsWell (true, e) x
  join_all-EndsWell e (threads, last, ended) x h j = elim (Bool-cases (all_returned S F threads)) [
    | inl all ↦
        let (db, st, o, v) = h.serves in
        let (table, no_db, no_stmt, _) = close_open S F L db st last o in
        rw (← some_injective (rw all at j)) (
          no_db,
          no_stmt,
          inr (refl, refl, all, h.at_most, ap (λ t. t.committed) (table ∙ ap rollback_on v)),
        )
    | inr some_run ↦ cc (rw some_run at j)
  ]

  -- How main ends, whatever the schedule of the steps of its threads. Exit code 1: the
  -- initialisation failed. Exit code 0: it did not, all four threads have returned, and beyond what
  -- the table held after the initialisation there is the sample, once for each of the threads whose
  -- insertion returned true. No handle is left in either case.
  pub main_program-EndsWell :
      (schedule : List ℕ) (world : S.World) (x : Exit S F)
      → main_program S F schedule world ≡ some x
      → EndsWell (Storage.init S F (Storage.new S F db_path world)) x
  unfolding main_program Storage.new
  main_program-EndsWell schedule world x h =
      let e = (Storage.init S F (Storage.new S F db_path world)).1 in
      elim (init_first S F L (Storage.new S F db_path world) refl refl) [
        | inl (ready, db, st, o, quiet) ↦
            let before = (view e.world).committed in
            rw ready (
              join_all-EndsWell e (run F S schedule (workers S F) e) x
                (workers-HasRun schedule before e o.called_once (db, st, o, rest_of _ quiet))
                (rw ready at h))
        | inr (failed, f) ↦
            let (_, no_db, no_stmt) = close_without_handles S F e f.no_db f.no_stmt in
            rw (failed, ← some_injective (rw failed at h)) (no_db, no_stmt, inl (refl, refl))
      ]
