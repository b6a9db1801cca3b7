-- ===== src/Storage/Threads/Whole.antt =====
-- A step of a thread that calls the engine of src/storage/storage_engine.cpp is a whole call, or
-- initialises the engine, or does nothing that others see.
use secure_ros2_gateway.Prelude.{◌≡◌, inl, inr, refl, Bool, true, false, Bool-cases, [], ◌∷◌}
use secure_ros2_gateway.Storage
use secure_ros2_gateway.Storage.{
  Engine, exec, is_ready, ensure_initialized, write_row, write_rows, finish_batch, batch_locked,
  insert_locked, insert_telemetry, insert_batch, query_telemetry, purge_older_than,
}
use secure_ros2_gateway.Storage.Sqlite.{SqliteApi, IsSqlite}
use secure_ros2_gateway.Storage.Payload.{Doubles}
use secure_ros2_gateway.Storage.Lifecycle.{once_used}
use secure_ros2_gateway.Storage.Opening.{ensure_once}
use secure_ros2_gateway.Storage.Log.{
  Call, inits, asks, closes, inserts, inserts_batch, queries, purges, call_engine, call_all,
}
use secure_ros2_gateway.Storage.Threads.Bodies.{write_row-IsSame, batch_locked-IsSame}
use secure_ros2_gateway.Storage.Threads.{
  Thread, starting, checking, locking, returned, after_check, run_locked, advance,
}
use secure_ros2_gateway.Storage.Threads.Steps.{
  Checks, Locks, Fits, IsWhole, same-Keeps, ends_call, unmoved, IsSound,
}

module _ (S : SqliteApi) (F : Doubles) where
  locking-IsWhole :
      (call : Call F) (e : Engine S F)
      → Locks S F call
      → e.called_once ≡ true
      → e.is_initialized ≡ true
      → let (t', e') = run_locked F S call e in IsWhole S F (locking call) e t' e'
  unfolding run_locked call_engine insert_telemetry insert_locked insert_batch query_telemetry
      purge_older_than
  locking-IsWhole inits e l once flag = absurd l
  locking-IsWhole asks e l once flag = absurd l
  locking-IsWhole closes e l once flag = absurd l
  locking-IsWhole (inserts row) e l once flag =
      ends_call S F (locking (inserts row)) (inserts row) _ e _ refl once
        (write_row-IsSame S F row e) (simp (once_used S F e once, flag))
  locking-IsWhole (inserts_batch []) e l once flag = absurd l
  locking-IsWhole (inserts_batch (row ∷ batch)) e l once flag =
      ends_call S F (locking (inserts_batch (row ∷ batch))) (inserts_batch (row ∷ batch)) _ e _ refl
        once (batch_locked-IsSame S F (row ∷ batch) e) (simp (once_used S F e once, flag))
  locking-IsWhole (queries id limit) e l once flag =
      ends_call S F (locking (queries id limit)) (queries id limit) _ e _ refl once (unmoved S F e)
        (simp (once_used S F e once))
  locking-IsWhole (purges ts) e l once flag =
      ends_call S F (locking (purges ts)) (purges ts) _ e _ refl once (unmoved S F e)
        (simp (once_used S F e once, flag))

  -- A thread that goes on to the mutex.
  goes_on :
      (call : Call F) (e : Engine S F)
      → Locks S F call
      → e.called_once ≡ true
      → e.is_initialized ≡ true
      → IsWhole S F (checking call) e (locking call) e
  unfolding call_all
  goes_on call e l once flag = record {
    fits = (l, once, flag);
    keeps = same-Keeps S F e e (unmoved S F e);
    known = inl once;
    whole = refl;
  }

  checking-IsWhole :
      (call : Call F) (e : Engine S F) (flag : Bool)
      → Checks S F call
      → e.called_once ≡ true
      → e.is_initialized ≡ flag
      → IsWhole S F (checking call) e (after_check F flag call) e
  unfolding after_check call_engine Storage.init insert_telemetry insert_batch query_telemetry
      purge_older_than
  checking-IsWhole inits e flag n once is =
      ends_call S F (checking inits) inits _ e e refl once (unmoved S F e)
        (simp (once_used S F e once, is))
  checking-IsWhole asks e flag n once is = absurd n
  checking-IsWhole closes e flag n once is = absurd n
  checking-IsWhole (inserts row) e true n once is = goes_on (inserts row) e tt once is
  checking-IsWhole (inserts row) e false n once is =
      ends_call S F (checking (inserts row)) (inserts row) _ e e refl once (unmoved S F e)
        (simp (once_used S F e once, is))
  checking-IsWhole (inserts_batch []) e true n once is =
      ends_call S F (checking (inserts_batch [])) (inserts_batch []) _ e e refl once (unmoved S F e)
        (simp (once_used S F e once, is))
  checking-IsWhole (inserts_batch (row ∷ batch)) e true n once is =
      goes_on (inserts_batch (row ∷ batch)) e tt once is
  checking-IsWhole (inserts_batch batch) e false n once is =
      ends_call S F (checking (inserts_batch batch)) (inserts_batch batch) _ e e refl once
        (unmoved S F e) (simp (once_used S F e once, is))
  checking-IsWhole (queries id limit) e true n once is = goes_on (queries id limit) e tt once is
  checking-IsWhole (queries id limit) e false n once is =
      ends_call S F (checking (queries id limit)) (queries id limit) _ e e refl once (unmoved S F e)
        (simp (once_used S F e once))
  checking-IsWhole (purges ts) e true n once is = goes_on (purges ts) e tt once is
  checking-IsWhole (purges ts) e false n once is =
      ends_call S F (checking (purges ts)) (purges ts) _ e e refl once (unmoved S F e)
        (simp (once_used S F e once, is))

  module _ (L : IsSqlite S) where
    ensured_once : (e : Engine S F) → IsSound S F e → (ensure_initialized S F e).called_once ≡ true
    ensured_once e sound = elim (Bool-cases e.called_once) [
      | inl once ↦ rw (once_used S F e once) once
      | inr fresh ↦ elim sound [ inl once ↦ cc | inr off ↦ ensure_once S F L e fresh off ]
    ]

    starts :
        (call : Call F) (e : Engine S F)
        → Checks S F call
        → IsSound S F e
        → IsWhole S F (starting call) e (checking call) (ensure_initialized S F e)
    unfolding call_all
    starts call e n sound =
        let once' = ensured_once e sound in
        record {
          fits = (n, once');
          keeps = record {
            keeps_once = λ once. once';
            keeps_flag = λ once flag. rw (once_used S F e once) flag;
          };
          known = inl once';
          whole = rw (once_used S F (ensure_initialized S F e) once') refl;
        }

    pub advance-IsWhole :
        (t : Thread F) (e : Engine S F)
        → Fits S F e t
        → IsSound S F e
        → let (t', e') = advance F S t e in IsWhole S F t e t' e'
    unfolding advance call_all call_engine
    advance-IsWhole (starting inits) e f sound = starts inits e f sound
    advance-IsWhole (starting asks) e f sound =
        ends_call S F (starting asks) asks _ e e refl f (unmoved S F e) refl
    advance-IsWhole (starting closes) e f sound = absurd f
    advance-IsWhole (starting (inserts row)) e f sound = starts (inserts row) e f sound
    advance-IsWhole (starting (inserts_batch batch)) e f sound =
        starts (inserts_batch batch) e f sound
    advance-IsWhole (starting (queries id limit)) e f sound = starts (queries id limit) e f sound
    advance-IsWhole (starting (purges ts)) e f sound = starts (purges ts) e f sound
    advance-IsWhole (checking call) e (n, once) sound =
        checking-IsWhole call e e.is_initialized n once refl
    advance-IsWhole (locking call) e (l, once, flag) sound = locking-IsWhole call e l once flag
    advance-IsWhole (returned call reply) e f sound = record {
      fits = tt;
      keeps = same-Keeps S F e e (unmoved S F e);
      known = inr refl;
      whole = refl;
    }
