-- ===== src/Tests/Blocking.antt =====
-- The queue of include/secure_telemetry_gateway/utils/concurrent_queue.hpp at work.
use secure_ros2_gateway.Prelude.{
  ℕ, ◌≤◌, ◌≡◌, ◌⊎◌, refl, true, false, [], ◌∷◌, ◌++◌, none, some, arith, length,
}
use secure_ros2_gateway.Blocking.{Shared, waits, returns, construct, push, shutdown}
use secure_ros2_gateway.Blocking.Shutdown.{pop_results, shutdown_drains}
use secure_ros2_gateway.Blocking.Threads.{
  System, Reach, here, next, start, pushed, push_arrives, push_runs, notifies_popper,
  notifies_pushers, shuts_down,
}
use secure_ros2_gateway.Blocking.Threads.Ending.{
  Runs, stay, go, steps, steps_left, HasReturned, CanGoOn, shutdown_ends,
}
use secure_ros2_gateway.Blocking.Threads.Wakeups.{Reach-fifo, quiet_wait}

abbrev two_left : Shared ℕ
two_left = record { max_capacity = 2; items = 4 ∷ 5 ∷ []; shutdown_requested = false }

push_waits : push 6 two_left ≡ (waits, two_left)
unfolding push
push_waits = refl

shutdown_drains_example :
    (push 6 (shutdown two_left) ≡ (returns false, shutdown two_left))
    × (pop_results 3 (shutdown two_left) ≡ returns (some 4) ∷ returns (some 5) ∷ returns none ∷ [])
shutdown_drains_example = shutdown_drains 6 1 two_left

-- Two pushes come, the first fills the queue, the second waits, and the notification that the first
-- owes finds nobody.
abbrev one_waits : System ℕ
one_waits = record {
  shared = record { max_capacity = 1; items = 8 ∷ []; shutdown_requested = false };
  pushers = record { awake = 0; asleep = 1; notify_one = 0; notify_all = 0 };
  poppers = record { awake = 0; asleep = 0; notify_one = 0; notify_all = 0 };
  accepted = 8 ∷ [];
  delivered = [];
}

one_waits_reached : Reach 1 one_waits
unfolding start construct pushed push
one_waits_reached =
    next
      (next
        (next (next (next here (push_arrives refl)) (push_arrives refl))
          (push_runs 8 (omega arith) refl))
        (push_runs 9 (omega arith) refl))
      (notifies_popper (omega arith) refl)

Reach-fifo_example :
    (length one_waits.shared.items ≤ 1)
    × (one_waits.accepted ≡ one_waits.delivered ++ one_waits.shared.items)
Reach-fifo_example = Reach-fifo 1 one_waits_reached

quiet_wait_example :
    ((one_waits.poppers.asleep ≡ 0)
      ⊎ ((one_waits.shared.items ≡ []) × (one_waits.shared.shutdown_requested ≡ false)))
    × ((one_waits.pushers.asleep ≡ 0)
        ⊎ ((length one_waits.shared.items ≡ 1) × (one_waits.shared.shutdown_requested ≡ false)))
quiet_wait_example = quiet_wait 1 one_waits_reached (record {
  no_pusher = refl;
  no_popper = refl;
  none_for_pusher = refl;
  none_for_popper = refl;
  none_for_pushers = refl;
  none_for_poppers = refl;
})

-- Shutdown is requested, and its notify_all wakes the pusher that waits.
abbrev shut : System ℕ
shut = record {
  shared = record { max_capacity = 1; items = 8 ∷ []; shutdown_requested = true };
  pushers = record { awake = 0; asleep = 1; notify_one = 0; notify_all = 1 };
  poppers = record { awake = 0; asleep = 0; notify_one = 0; notify_all = 1 };
  accepted = 8 ∷ [];
  delivered = [];
}

abbrev woken : System ℕ
woken = record shut { pushers = record { awake = 1; asleep = 0; notify_one = 0; notify_all = 0 } }

shut_reached : Reach 1 shut
unfolding shutdown
shut_reached = next one_waits_reached (shuts_down refl)

abbrev wakes : Runs shut woken
wakes = go stay (notifies_pushers (omega arith) refl) tt

shutdown_ends_example : (steps wakes ≤ steps_left shut) × (HasReturned woken ⊎ CanGoOn woken)
shutdown_ends_example = shutdown_ends 1 9 shut_reached refl wakes
