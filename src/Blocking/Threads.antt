-- ===== src/Blocking/Threads.antt =====
-- The threads that call the queue of include/secure_telemetry_gateway/utils/concurrent_queue.hpp.
-- Between the critical sections a thread is about to test its predicate (awake), or waits on its
-- condition variable (asleep). A call that has left its critical section still owes a
-- notification. Threads of one kind differ in nothing that the others see, so they are counted.
pub mod Wakeups
pub mod Ending
use secure_ros2_gateway.Prelude.{
  ℕ, ◌+◌, ◌-◌, ◌<◌, ◌≡◌, Bool, true, false, List, [], ◌∷◌, ◌++◌, Option, none, some, leb,
  if◌then◌else◌,
}
use secure_ros2_gateway.Blocking.{
  Shared, Outcome, waits, returns, construct, push, pop, pop_for, shutdown,
}

pub record Threads : Type 0 where
  pub awake : ℕ
  pub asleep : ℕ
  -- `notify_one` and `notify_all` calls that are due on the condition variable that they wait on.
  pub notify_one : ℕ
  pub notify_all : ℕ

pub record System {ℓ} (A : Type ℓ) : Type ℓ where
  pub shared : Shared A
  pub pushers : Threads
  pub poppers : Threads
  -- What pushes have accepted and pops delivered so far.
  pub accepted : List A
  pub delivered : List A

abbrev pub idle : Threads
idle = record { awake = 0; asleep = 0; notify_one = 0; notify_all = 0 }

abbrev pub arrive : Threads → Threads
arrive t = record t { awake = t.awake + 1 }

abbrev pub leave : Threads → Threads
leave t = record t { awake = t.awake - 1 }

abbrev pub fall_asleep : Threads → Threads
fall_asleep t = record t { awake = t.awake - 1; asleep = t.asleep + 1 }

-- A timeout, a spurious wake-up, or a notification.
abbrev pub wake : Threads → Threads
wake t = record t { awake = t.awake + 1; asleep = t.asleep - 1 }

abbrev pub owe_one : Threads → Threads
owe_one t = record t { notify_one = t.notify_one + 1 }

abbrev pub owe_all : Threads → Threads
owe_all t = record t { notify_all = t.notify_all + 1 }

-- Without a waiting thread the notification is lost.
abbrev pub deliver_one : Threads → Threads
deliver_one t =
    let t' = record t { notify_one = t.notify_one - 1 } in if leb 1 t.asleep then wake t' else t'

abbrev pub deliver_all : Threads → Threads
deliver_all t = record t { awake = t.awake + t.asleep; asleep = 0; notify_all = t.notify_all - 1 }

module _ {ℓ} {A : Type ℓ} where
  -- How a push leaves the critical section, and how a pop does.
  unfoldable pub pushed : A → Outcome Bool × Shared A → System A → System A
  pushed item (waits, shared) s = record s { shared = shared; pushers = fall_asleep s.pushers }
  pushed item (returns false, shared) s = record s { shared = shared; pushers = leave s.pushers }
  pushed item (returns true, shared) s = record s {
    shared = shared;
    pushers = leave s.pushers;
    poppers = owe_one s.poppers;
    accepted = s.accepted ++ item ∷ [];
  }

  pub popped : Outcome (Option A) × Shared A → System A → System A
  popped (waits, shared) s = record s { shared = shared; poppers = fall_asleep s.poppers }
  popped (returns none, shared) s = record s { shared = shared; poppers = leave s.poppers }
  popped (returns (some item), shared) s = record s {
    shared = shared;
    pushers = owe_one s.pushers;
    poppers = leave s.poppers;
    delivered = s.delivered ++ item ∷ [];
  }

  pub data Step (s t : System A) : Type ℓ where
    push_arrives : t ≡ record s { pushers = arrive s.pushers } → Step s t
    pop_arrives : t ≡ record s { poppers = arrive s.poppers } → Step s t
    push_runs : (item : A) → 0 < s.pushers.awake → t ≡ pushed item (push item s.shared) s → Step s t
    pop_runs : 0 < s.poppers.awake → t ≡ popped (pop s.shared) s → Step s t
    pop_for_runs :
        (expired : Bool) → 0 < s.poppers.awake → t ≡ popped (pop_for expired s.shared) s → Step s t
    pusher_wakes : 0 < s.pushers.asleep → t ≡ record s { pushers = wake s.pushers } → Step s t
    popper_wakes : 0 < s.poppers.asleep → t ≡ record s { poppers = wake s.poppers } → Step s t
    notifies_pusher :
        0 < s.pushers.notify_one → t ≡ record s { pushers = deliver_one s.pushers } → Step s t
    notifies_popper :
        0 < s.poppers.notify_one → t ≡ record s { poppers = deliver_one s.poppers } → Step s t
    notifies_pushers :
        0 < s.pushers.notify_all → t ≡ record s { pushers = deliver_all s.pushers } → Step s t
    notifies_poppers :
        0 < s.poppers.notify_all → t ≡ record s { poppers = deliver_all s.poppers } → Step s t
    shuts_down :
        t ≡ record s {
          shared = shutdown s.shared;
          pushers = owe_all s.pushers;
          poppers = owe_all s.poppers;
        }
        → Step s t

  unfoldable pub start : ℕ → System A
  start max_capacity = record {
    shared = construct max_capacity;
    pushers = idle;
    poppers = idle;
    accepted = [];
    delivered = [];
  }

  -- What threads can do with a new queue.
  pub data Reach (max_capacity : ℕ) : System A → Type ℓ where
    here : Reach max_capacity (start max_capacity)
    next : {s t : System A} → Reach max_capacity s → Step s t → Reach max_capacity t
