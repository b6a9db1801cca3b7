-- ===== src/Storage/Threads.antt =====
-- Threads that call the engine of src/storage/storage_engine.cpp at the same time. A call has three
-- steps: std::call_once, which lets one thread initialise while the others wait; the load of
-- is_initialized_; and the body under db_mutex_. The steps of other threads may stand in between. A
-- step is a whole: call_once and the mutex are free between two steps, so that a thread never waits
-- here, and nothing is said of deadlock.
pub mod Bodies
pub mod Steps
pub mod Whole
pub mod Atomic
pub mod Race
pub mod Returns
pub mod Tally
pub mod Stored
use secure_ros2_gateway.Prelude.{ℕ, zero, suc, Bool, true, false, List, [], ◌∷◌, ◌++◌}
use secure_ros2_gateway.Storage
use secure_ros2_gateway.Storage.{Engine, ensure_initialized, is_ready, insert_locked, batch_locked}
use secure_ros2_gateway.Storage.Sqlite.{SqliteApi}
use secure_ros2_gateway.Storage.Payload.{Doubles}
use secure_ros2_gateway.Storage.Log.{
  Call, inits, asks, closes, inserts, inserts_batch, queries, purges, Reply, answers, finds,
  nothing,
}

module _ (F : Doubles) where
  -- A thread with its call: before call_once, before the load, before the mutex, and at the end.
  pub data Thread : Type 0 where
    starting checking locking : Call F → Thread
    returned : Call F → Reply F → Thread

  -- The reply of a call that finds the engine closed, or not opened.
  abbrev pub refusal : Call F → Reply F
  refusal (queries robot_id limit) = finds []
  refusal _ = answers false

  -- After the load of the flag. init returns it; insert_batch does not lock for an empty batch;
  -- is_ready and close do not come here.
  unfoldable pub after_check : Bool → Call F → Thread
  after_check is_initialized inits = returned inits (answers is_initialized)
  after_check false call = returned call (refusal call)
  after_check true (inserts_batch []) = returned (inserts_batch []) (answers true)
  after_check true call = locking call

  -- The call that a step ends, with its reply.
  abbrev pub ends_at : Thread → Thread → List (Call F × Reply F)
  ends_at (returned call reply) after = []
  ends_at before (returned call reply) = (call, reply) ∷ []
  ends_at before after = []

  module _ (S : SqliteApi) where
    abbrev pub answered : Call F → Bool × Engine S F → Thread × Engine S F
    answered call (result, e) = (returned call (answers result), e)

    -- The body under the lock. init and is_ready have none.
    unfoldable pub run_locked : Call F → Engine S F → Thread × Engine S F
    run_locked inits e = (returned inits (answers e.is_initialized), e)
    run_locked asks e = (returned asks (answers (is_ready S F e)), e)
    run_locked closes e = (returned closes nothing, Storage.close S F e)
    run_locked (inserts row) e = answered (inserts row) (insert_locked S F row e)
    run_locked (inserts_batch batch) e = answered (inserts_batch batch) (batch_locked S F batch e)
    run_locked (queries robot_id limit) e = (returned (queries robot_id limit) (finds []), e)
    run_locked (purges timestamp) e = (returned (purges timestamp) (answers true), e)

    -- One step of a thread. is_ready is its load of the flag, and close its body.
    unfoldable pub advance : Thread → Engine S F → Thread × Engine S F
    unfolding after_check run_locked
    advance (starting asks) e = (returned asks (answers (is_ready S F e)), e)
    advance (starting closes) e = run_locked closes e
    advance (starting call) e = (checking call, ensure_initialized S F e)
    advance (checking call) e = (after_check e.is_initialized call, e)
    advance (locking call) e = run_locked call e
    advance (returned call reply) e = (returned call reply, e)

    -- The threads, the engine, and the calls that have ended.
    abbrev pub Pool : Type 0
    Pool = List Thread × Engine S F × List (Call F × Reply F)

    -- A step of the i-th thread.
    unfoldable pub turn : ℕ → List Thread → Engine S F → Pool
    unfolding advance
    turn i [] e = ([], e, [])
    turn zero (t ∷ ts) e = let (t', e') = advance t e in (t' ∷ ts, e', ends_at t t')
    turn (suc i) (t ∷ ts) e = let (ts', e', ended) = turn i ts e in (t ∷ ts', e', ended)

    -- The steps that the scheduler gives, in its order; the calls stand in the order of their ends.
    unfoldable pub run : List ℕ → List Thread → Engine S F → Pool
    unfolding turn
    run [] ts e = (ts, e, [])
    run (i ∷ is) ts e =
        let (ts', e', ended) = turn i ts e in
        let (last_ts, last, later) = run is ts' e' in (last_ts, last, ended ++ later)
