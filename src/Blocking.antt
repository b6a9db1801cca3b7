-- ===== src/Blocking.antt =====
-- include/secure_telemetry_gateway/utils/concurrent_queue.hpp: the bounded queue whose calls wait.
-- What a call does when it holds the mutex is a function of the queue's fields; Blocking.Threads
-- adds the threads that wait.
pub mod Shutdown
pub mod Threads
use secure_ros2_gateway.Prelude.{
  ℕ, Bool, true, false, not, ◌&&◌, ◌||◌, List, [], ◌∷◌, ◌++◌, Option, none, some, length, is_empty,
  ltb, if◌then◌else◌,
}

pub record Shared {ℓ} (A : Type ℓ) : Type ℓ where
  pub max_capacity : ℕ
  pub items : List A
  pub shutdown_requested : Bool

-- A call waits on its condition variable, or returns.
pub data Outcome {ℓ} (A : Type ℓ) : Type ℓ where
  waits : Outcome A
  returns : A → Outcome A

module _ {ℓ} {A : Type ℓ} where
  unfoldable pub construct : ℕ → Shared A
  construct max_capacity = record {
    max_capacity = max_capacity;
    items = [];
    shutdown_requested = false;
  }

  -- The predicates of the two condition variables.
  pub not_full : Shared A → Bool
  not_full s = ltb (length s.items) s.max_capacity || s.shutdown_requested

  pub not_empty : Shared A → Bool
  not_empty s = not (is_empty s.items) || s.shutdown_requested

  -- From the test of the predicate to the end of the critical section.
  unfoldable pub push : A → Shared A → Outcome Bool × Shared A
  unfolding not_full
  push item s =
      if not (not_full s)
      then (waits, s)
      else if s.shutdown_requested
      then (returns false, s)
      else (returns true, record s { items = s.items ++ item ∷ [] })

  abbrev pub take_front : List A → Shared A → Option A × Shared A
  take_front [] s = (none, s)
  take_front (item ∷ rest) s = (some item, record s { items = rest })

  -- The part that pop and pop_for share: the predicate holds.
  pub take_item : Shared A → Option A × Shared A
  take_item s = if is_empty s.items && s.shutdown_requested then (none, s) else take_front s.items s

  pub pop : Shared A → Outcome (Option A) × Shared A
  unfolding not_empty take_item
  pop s =
      if not (not_empty s) then (waits, s) else let (item, s') = take_item s in (returns item, s')

  -- The same with a deadline: `expired` tells whether it has passed at the test.
  pub pop_for : Bool → Shared A → Outcome (Option A) × Shared A
  unfolding not_empty take_item
  pop_for expired s =
      if not (not_empty s)
      then (if expired then (returns none, s) else (waits, s))
      else let (item, s') = take_item s in (returns item, s')

  unfoldable pub shutdown : Shared A → Shared A
  shutdown s = record s { shutdown_requested = true }

  -- `~ConcurrentQueue`
  abbrev pub destroy : Shared A → Shared A
  unfolding shutdown
  destroy s = shutdown s

  pub size : Shared A → ℕ
  size s = length s.items

  pub empty : Shared A → Bool
  empty s = is_empty s.items
