-- ===== src/Queue.antt =====
-- include/secure_telemetry_gateway/containers/concurrent_queue.hpp: the bounded queue between the
-- subscriber callback and the worker thread. Each method holds `mutex_` from its first line to its
-- return, so a concurrent run is a sequence of whole calls. The front of `queue_` is the head.
pub mod History
use secure_ros2_gateway.Prelude.{
  ℕ, List, [], ◌∷◌, ◌++◌, Option, none, some, Bool, true, false, length, is_empty, leb,
  if◌then◌else◌,
}
use secure_ros2_gateway.Prelude.State.{State}

pub record Queue {ℓ} (A : Type ℓ) : Type ℓ where
  pub items : List A
  pub max_capacity : ℕ

module _ {ℓ} {A : Type ℓ} where
  unfoldable pub new : ℕ → Queue A
  new max_capacity = record { items = []; max_capacity = max_capacity }

  unfoldable pub push : A → State (Queue A) Bool
  push item q =
      if leb q.max_capacity (length q.items)
      then (false, q)
      else (true, record q { items = q.items ++ item ∷ [] })

  -- `std::optional<T> pop()`
  unfoldable pub pop : State (Queue A) (Option A)
  pop q = elim q.items [ [] ↦ (none, q) | x ∷ rest ↦ (some x, record q { items = rest }) ]

  -- `bool pop(T& item)`: the second component is what `item` holds on return.
  pub pop_into : A → State (Queue A) (Bool × A)
  pop_into item q = elim q.items [
    | [] ↦ ((false, item), q)
    | x ∷ rest ↦ ((true, x), record q { items = rest })
  ]

  unfoldable pub size : Queue A → ℕ
  size q = length q.items

  pub empty : Queue A → Bool
  empty q = is_empty q.items
