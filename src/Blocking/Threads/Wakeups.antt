-- ===== src/Blocking/Threads/Wakeups.antt =====
-- No wake-up is lost in include/secure_telemetry_gateway/utils/concurrent_queue.hpp, and no item.
use secure_ros2_gateway.Prelude.{
  ℕ, zero, suc, ◌+◌, ◌≤◌, ◌<◌, ◌≡◌, ◌⊎◌, inl, inr, refl, Bool, true, false, List, [], ◌∷◌, ◌++◌,
  arith, length, length-append, append_assoc, append-nil,
}
use secure_ros2_gateway.Blocking.{Shared, construct, push, pop, pop_for, shutdown}
use secure_ros2_gateway.Blocking.Threads.{
  System, Step, Reach, here, next, start, pushed, popped, push_arrives, pop_arrives, push_runs,
  pop_runs, pop_for_runs, pusher_wakes, popper_wakes, notifies_pusher, notifies_popper,
  notifies_pushers, notifies_poppers, shuts_down,
}

pub zero_or_pos : (k : ℕ) → (k ≡ 0) ⊎ (0 < k)
zero_or_pos zero = inl refl
zero_or_pos (suc k) = inr (omega arith)

not_true : (b : Bool) → (b ≡ true → ⊥) → b ≡ false
not_true true h = absurd (h refl)
not_true false h = refl

module _ {ℓ} {A : Type ℓ} where
  pub record Inv (max_capacity : ℕ) (s : System A) : Type ℓ where
    pub capacity : s.shared.max_capacity ≡ max_capacity
    pub bounded : length s.shared.items ≤ max_capacity
    pub fifo : s.accepted ≡ s.delivered ++ s.shared.items
    -- Sleeping poppers: for each item, somebody is on the way to take it.
    pub to_pop :
        0 < s.poppers.asleep → length s.shared.items ≤ s.poppers.awake + s.poppers.notify_one
    -- Sleeping pushers: for each free place, somebody is on the way to fill it.
    pub to_push :
        s.shared.shutdown_requested ≡ false
        → 0 < s.pushers.asleep
        → max_capacity ≤ length s.shared.items + s.pushers.awake + s.pushers.notify_one
    pub poppers_told :
        s.shared.shutdown_requested ≡ true → 0 < s.poppers.asleep → 0 < s.poppers.notify_all
    pub pushers_told :
        s.shared.shutdown_requested ≡ true → 0 < s.pushers.asleep → 0 < s.pushers.notify_all

  Inv-start : (n : ℕ) → Inv n (start n)
  unfolding start construct
  Inv-start n = record {
    capacity = refl;
    bounded = omega arith;
    fifo = refl;
    to_pop = λ h. omega arith;
    to_push = λ e h. omega arith;
    poppers_told = λ e h. omega arith;
    pushers_told = λ e h. omega arith;
  }

  push-Inv :
      (n : ℕ) (item : A) (s : System A)
      → 0 < s.pushers.awake
      → Inv n s
      → Inv n (pushed item (push item s.shared) s)
  unfolding pushed push
  push-Inv n item s g h = ground (
    arith,
    length-append s.shared.items (item ∷ []),
    append_assoc s.delivered s.shared.items (item ∷ []),
  )

  pop_for-Inv :
      (n : ℕ) (expired : Bool) (items : List A) (s : System A)
      → s.shared.items ≡ items
      → 0 < s.poppers.awake
      → Inv n s
      → Inv n (popped (pop_for expired s.shared) s)
  unfolding popped pop_for
  pop_for-Inv n expired [] s e g h = ground (arith, append-nil s.delivered)
  pop_for-Inv n expired (item ∷ rest) s e g h =
      ground (arith, append_assoc s.delivered (item ∷ []) rest)

  -- A pop is a pop_for whose deadline never passes.
  pub pop-eq-pop_for : (s : Shared A) → pop s ≡ pop_for false s
  unfolding pop pop_for
  pop-eq-pop_for s = ground arith

  Step-Inv : (n : ℕ) {s t : System A} → Step s t → Inv n s → Inv n t
  unfolding shutdown
  Step-Inv n (push_arrives e) h = ground (arith, h)
  Step-Inv n (pop_arrives e) h = ground (arith, h)
  Step-Inv n {s} (push_runs item g e) h = rw e (push-Inv n item s g h)
  Step-Inv n {s} (pop_runs g e) h =
      rw (e, pop-eq-pop_for) (pop_for-Inv n false s.shared.items s refl g h)
  Step-Inv n {s} (pop_for_runs expired g e) h =
      rw e (pop_for-Inv n expired s.shared.items s refl g h)
  Step-Inv n (pusher_wakes g e) h = ground (arith, h)
  Step-Inv n (popper_wakes g e) h = ground (arith, h)
  Step-Inv n (notifies_pusher g e) h = ground (arith, h)
  Step-Inv n (notifies_popper g e) h = ground (arith, h)
  Step-Inv n (notifies_pushers g e) h = ground (arith, h)
  Step-Inv n (notifies_poppers g e) h = ground (arith, h)
  Step-Inv n (shuts_down e) h = ground (arith, h)

  Reach-Inv : (n : ℕ) {s : System A} → Reach n s → Inv n s
  Reach-Inv n here = Inv-start n
  Reach-Inv n (next r st) = Step-Inv n st (Reach-Inv n r)

  -- Whatever the threads do, from a new queue on: its size stays within its capacity, and what
  -- pushes have accepted is, in order, what pops have delivered followed by what is queued.
  pub Reach-fifo :
      (n : ℕ) {s : System A}
      → Reach n s
      → (length s.shared.items ≤ n) × (s.accepted ≡ s.delivered ++ s.shared.items)
  Reach-fifo n r = let h = Reach-Inv n r in (h.bounded, h.fifo)

  -- No thread runs, and no notification is due.
  pub record IsQuiet (s : System A) : Type 0 where
    pub no_pusher : s.pushers.awake ≡ 0
    pub no_popper : s.poppers.awake ≡ 0
    pub none_for_pusher : s.pushers.notify_one ≡ 0
    pub none_for_popper : s.poppers.notify_one ≡ 0
    pub none_for_pushers : s.pushers.notify_all ≡ 0
    pub none_for_poppers : s.poppers.notify_all ≡ 0

  no_items : (xs : List A) → length xs ≤ 0 → xs ≡ []
  no_items [] h = refl
  no_items (x ∷ xs) h = absurd (omega arith)

  -- No wake-up is lost: in a state that threads can reach from a new queue, when no thread runs
  -- and no notification is due, a pop sleeps only on an empty queue, a push sleeps only on a full
  -- one, and none of them sleeps once shutdown was requested.
  pub quiet_wait :
      (n : ℕ) {s : System A}
      → Reach n s
      → IsQuiet s
      → ((s.poppers.asleep ≡ 0) ⊎ ((s.shared.items ≡ []) × (s.shared.shutdown_requested ≡ false)))
        × ((s.pushers.asleep ≡ 0)
            ⊎ ((length s.shared.items ≡ n) × (s.shared.shutdown_requested ≡ false)))
  quiet_wait n {s} r q =
      let h = Reach-Inv n r in
      (
        elim (zero_or_pos s.poppers.asleep) [
          | inl none_sleeps ↦ inl none_sleeps
          | inr sleeps ↦ inr (
            no_items s.shared.items (omega (arith, h.to_pop sleeps)),
            not_true s.shared.shutdown_requested (λ e. omega (arith, h.poppers_told e sleeps)),
          )
        ],
        elim (zero_or_pos s.pushers.asleep) [
          | inl none_sleeps ↦ inl none_sleeps
          | inr sleeps ↦
              let up =
                not_true s.shared.shutdown_requested
                  (λ e. omega (arith, h.pushers_told e sleeps)) in
              inr (omega (arith, h.to_push up sleeps, h.bounded), up)
        ],
      )
