-- ===== src/Storage/Threads/Steps.antt =====
-- One step of a thread that calls the engine of src/storage/storage_engine.cpp, while other threads
-- stand in calls of their own, but none in close.
use secure_ros2_gateway.Prelude.{◌≡◌, ◌⊎◌, inl, refl, ◌∙◌, true, false, List, [], ◌∷◌, map}
use secure_ros2_gateway.Storage.{Engine, ensure_initialized}
use secure_ros2_gateway.Storage.Sqlite.{SqliteApi}
use secure_ros2_gateway.Storage.Payload.{Doubles}
use secure_ros2_gateway.Storage.Lifecycle.{once_used}
use secure_ros2_gateway.Storage.Log.{
  Call, inits, asks, closes, inserts, inserts_batch, queries, purges, Reply, call_engine, call_all,
}
use secure_ros2_gateway.Storage.Threads.Bodies.{IsSame}
use secure_ros2_gateway.Storage.Threads.{Thread, starting, checking, locking, returned, ends_at}

module _ (S : SqliteApi) (F : Doubles) where
  -- The calls that threads may start: not close, and is_ready only where call_once has run.
  abbrev pub MayStart : Engine S F → Call F → Type 0
  MayStart e asks = e.called_once ≡ true
  MayStart e closes = ⊥
  MayStart e _ = Unit

  -- The calls that load the flag after call_once.
  abbrev pub Checks : Call F → Type 0
  Checks asks = ⊥
  Checks closes = ⊥
  Checks _ = Unit

  -- The calls that take the lock after the load of the flag.
  abbrev pub Locks : Call F → Type 0
  Locks inits = ⊥
  Locks asks = ⊥
  Locks closes = ⊥
  Locks (inserts_batch []) = ⊥
  Locks _ = Unit

  abbrev pub Fits : Engine S F → Thread F → Type 0
  Fits e (starting call) = MayStart e call
  Fits e (checking call) = Checks call × (e.called_once ≡ true)
  Fits e (locking call) = Locks call × (e.called_once ≡ true) × (e.is_initialized ≡ true)
  Fits e (returned call reply) = Unit

  -- What the step of one thread leaves to the others.
  pub record Keeps (e e' : Engine S F) : Type 0 where
    pub keeps_once : e.called_once ≡ true → e'.called_once ≡ true
    pub keeps_flag : e.called_once ≡ true → e.is_initialized ≡ true → e'.is_initialized ≡ true

  pub MayStart-Keeps :
      (e e' : Engine S F) (call : Call F) → Keeps e e' → MayStart e call → MayStart e' call
  MayStart-Keeps e e' inits k m = tt
  MayStart-Keeps e e' asks k m = k.keeps_once m
  MayStart-Keeps e e' closes k m = absurd m
  MayStart-Keeps e e' (inserts row) k m = tt
  MayStart-Keeps e e' (inserts_batch batch) k m = tt
  MayStart-Keeps e e' (queries id limit) k m = tt
  MayStart-Keeps e e' (purges ts) k m = tt

  pub Fits-Keeps : (e e' : Engine S F) (t : Thread F) → Keeps e e' → Fits e t → Fits e' t
  Fits-Keeps e e' (starting call) k f = MayStart-Keeps e e' call k f
  Fits-Keeps e e' (checking call) k (c, once) = (c, k.keeps_once once)
  Fits-Keeps e e' (locking call) k (locks, once, flag) =
      (locks, k.keeps_once once, k.keeps_flag once flag)
  Fits-Keeps e e' (returned call reply) k f = tt

  abbrev pub call_of : Call F × Reply F → Call F
  call_of (call, reply) = call

  -- A step that ends a call is the whole call, and any other step only initialises the engine.
  abbrev pub Whole : List (Call F × Reply F) → Engine S F → Engine S F → Type 0
  Whole ended e e' =
      call_all F S (map call_of ended) (ensure_initialized S F e)
      ≡ (ended, ensure_initialized S F e')

  -- What a step does.
  pub record IsWhole (t : Thread F) (e : Engine S F) (t' : Thread F) (e' : Engine S F)
      : Type 0 where
    pub fits : Fits e' t'
    pub keeps : Keeps e e'
    pub known : (e'.called_once ≡ true) ⊎ (e' ≡ e)
    pub whole : Whole (ends_at F t t') e e'

  pub same-Keeps : (e e' : Engine S F) → IsSame S F e e' → Keeps e e'
  same-Keeps e e' same = record {
    keeps_once = λ once. same.same_once ∙ once;
    keeps_flag = λ once flag. same.same_flag ∙ flag;
  }

  -- A call on an engine whose flag is used up.
  pub call-Whole :
      (call : Call F) (reply : Reply F) (e e' : Engine S F)
      → e.called_once ≡ true
      → IsSame S F e e'
      → call_engine F S call e ≡ (reply, e')
      → Whole ((call, reply) ∷ []) e e'
  unfolding call_all
  call-Whole call reply e e' once same eq =
      rw (once_used S F e once, once_used S F e' (same.same_once ∙ once), eq) refl

  -- The step that ends a call.
  pub ends_call :
      (t : Thread F) (call : Call F) (reply : Reply F) (e e' : Engine S F)
      → ends_at F t (returned call reply) ≡ (call, reply) ∷ []
      → e.called_once ≡ true
      → IsSame S F e e'
      → call_engine F S call e ≡ (reply, e')
      → IsWhole t e (returned call reply) e'
  ends_call t call reply e e' ends once same eq = record {
    fits = tt;
    keeps = same-Keeps e e' same;
    known = inl (same.same_once ∙ once);
    whole = rw ends (call-Whole call reply e e' once same eq);
  }

  pub unmoved : (e : Engine S F) → IsSame S F e e
  unmoved e = record { same_once = refl; same_flag = refl }

  -- The flag of an engine that call_once has not been through is false.
  abbrev pub IsSound : Engine S F → Type 0
  IsSound e = (e.called_once ≡ true) ⊎ (e.is_initialized ≡ false)
