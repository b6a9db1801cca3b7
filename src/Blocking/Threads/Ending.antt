-- ===== src/Blocking/Threads/Ending.antt =====
-- After shutdown() of include/secure_telemetry_gateway/utils/concurrent_queue.hpp every call comes
-- to its end.
use secure_ros2_gateway.Prelude.{
  ℕ, ◌+◌, ◌*◌, ◌≤◌, ◌<◌, ◌≡◌, ◌⊎◌, inl, inr, refl, Bool, true, false, List, [], ◌∷◌, arith,
}
use secure_ros2_gateway.Blocking.{push, pop_for}
use secure_ros2_gateway.Blocking.Threads.{
  Threads, System, Step, Reach, next, pushed, popped, push_arrives, pop_arrives, push_runs,
  pop_runs, pop_for_runs, pusher_wakes, popper_wakes, notifies_pusher, notifies_popper,
  notifies_pushers, notifies_poppers, shuts_down,
}
use secure_ros2_gateway.Blocking.Threads.Wakeups.{zero_or_pos, IsQuiet, quiet_wait, pop-eq-pop_for}

-- How many steps threads can still take before they leave, at most.
abbrev weight : Threads → ℕ
weight t = 3 * t.asleep + 2 * t.awake + t.notify_one + t.notify_all

module _ {ℓ} {A : Type ℓ} where
  abbrev pub steps_left : System A → ℕ
  steps_left s = weight s.pushers + weight s.poppers

  -- A step of a call that has begun; a spurious wake-up or a timeout is one too.
  abbrev pub IsInside : {s t : System A} → Step s t → Type 0
  IsInside (push_arrives e) = ⊥
  IsInside (pop_arrives e) = ⊥
  IsInside (shuts_down e) = ⊥
  IsInside _ = Unit

  -- One that does not rest on a spurious wake-up or a timeout.
  abbrev pub IsDue : {s t : System A} → Step s t → Type 0
  IsDue (push_arrives e) = ⊥
  IsDue (pop_arrives e) = ⊥
  IsDue (shuts_down e) = ⊥
  IsDue (pusher_wakes g e) = ⊥
  IsDue (popper_wakes g e) = ⊥
  IsDue _ = Unit

  abbrev Down : System A → Type 0
  Down s = s.shared.shutdown_requested ≡ true

  -- A step after shutdown brings the threads closer to their end.
  record Closer (s t : System A) : Type 0 where
    down : Down t
    fewer : steps_left t < steps_left s

  push-Closer :
      (item : A) (s : System A)
      → Down s
      → 0 < s.pushers.awake
      → Closer s (pushed item (push item s.shared) s)
  unfolding pushed push
  push-Closer item s d g = ground arith

  pop_for-Closer :
      (expired : Bool) (items : List A) (s : System A)
      → s.shared.items ≡ items
      → Down s
      → 0 < s.poppers.awake
      → Closer s (popped (pop_for expired s.shared) s)
  unfolding popped pop_for
  pop_for-Closer expired [] s e d g = ground arith
  pop_for-Closer expired (item ∷ rest) s e d g = ground arith

  Step-Closer : {s t : System A} (st : Step s t) → IsInside st → Down s → Closer s t
  Step-Closer (push_arrives e) inside d = absurd inside
  Step-Closer (pop_arrives e) inside d = absurd inside
  Step-Closer (shuts_down e) inside d = absurd inside
  Step-Closer {s} (push_runs item g e) inside d = rw e (push-Closer item s d g)
  Step-Closer {s} (pop_runs g e) inside d =
      rw (e, pop-eq-pop_for) (pop_for-Closer false s.shared.items s refl d g)
  Step-Closer {s} (pop_for_runs expired g e) inside d =
      rw e (pop_for-Closer expired s.shared.items s refl d g)
  Step-Closer (pusher_wakes g e) inside d = ground arith
  Step-Closer (popper_wakes g e) inside d = ground arith
  Step-Closer (notifies_pusher g e) inside d = ground arith
  Step-Closer (notifies_popper g e) inside d = ground arith
  Step-Closer (notifies_pushers g e) inside d = ground arith
  Step-Closer (notifies_poppers g e) inside d = ground arith

  -- What the calls that have begun can do, with no new ones.
  pub data Runs (s : System A) : System A → Type ℓ where
    stay : Runs s s
    go : {t u : System A} → Runs s t → (st : Step t u) → IsInside st → Runs s u

  pub steps : {s t : System A} → Runs s t → ℕ
  steps stay = 0
  steps (go r st inside) = steps r + 1

  Runs-Reach : {n : ℕ} {s t : System A} → Reach n s → Runs s t → Reach n t
  Runs-Reach reached stay = reached
  Runs-Reach reached (go r st inside) = next (Runs-Reach reached r) st

  Runs-Down :
      {s t : System A} (r : Runs s t) → Down s → Down t × (steps r + steps_left t ≤ steps_left s)
  unfolding steps
  Runs-Down stay d = (d, omega arith)
  Runs-Down (go r st inside) d =
      let (down, sofar) = Runs-Down r d in
      let c = Step-Closer st inside down in (c.down, omega (arith, c.fewer, sofar))

  -- Every call has returned.
  pub record HasReturned (s : System A) : Type 0 where
    pub no_pusher : s.pushers.awake ≡ 0
    pub no_sleeping_pusher : s.pushers.asleep ≡ 0
    pub no_popper : s.poppers.awake ≡ 0
    pub no_sleeping_popper : s.poppers.asleep ≡ 0

  abbrev pub CanGoOn : System A → Type ℓ
  CanGoOn s = (t : System A) × (st : Step s t) × IsDue st

  -- In a state at rest after shutdown nobody sleeps.
  quiet-HasReturned : (n : ℕ) {s : System A} → Reach n s → Down s → IsQuiet s → HasReturned s
  quiet-HasReturned n {s} reached d q =
      let (pops, pushes) = quiet_wait n reached q in
      record {
        no_pusher = q.no_pusher;
        no_sleeping_pusher = elim pushes [ inl none_sleeps ↦ none_sleeps | inr (_, up) ↦ cc ];
        no_popper = q.no_popper;
        no_sleeping_popper = elim pops [ inl none_sleeps ↦ none_sleeps | inr (_, up) ↦ cc ];
      }

  returned_or_due :
      (n : ℕ) (item : A) {s : System A} → Reach n s → Down s → HasReturned s ⊎ CanGoOn s
  returned_or_due n item {s} reached d = elim (zero_or_pos s.pushers.awake) [
    | inr g ↦ inr (_, push_runs item g refl, tt)
    | inl a ↦ elim (zero_or_pos s.poppers.awake) [
      | inr g ↦ inr (_, pop_runs g refl, tt)
      | inl b ↦ elim (zero_or_pos s.pushers.notify_one) [
        | inr g ↦ inr (_, notifies_pusher g refl, tt)
        | inl c ↦ elim (zero_or_pos s.poppers.notify_one) [
          | inr g ↦ inr (_, notifies_popper g refl, tt)
          | inl e ↦ elim (zero_or_pos s.pushers.notify_all) [
            | inr g ↦ inr (_, notifies_pushers g refl, tt)
            | inl f ↦ elim (zero_or_pos s.poppers.notify_all) [
              | inr g ↦ inr (_, notifies_poppers g refl, tt)
              | inl h ↦ inl (
                  quiet-HasReturned n reached d (record {
                    no_pusher = a;
                    no_popper = b;
                    none_for_pusher = c;
                    none_for_popper = e;
                    none_for_pushers = f;
                    none_for_poppers = h;
                  }))
            ]
          ]
        ]
      ]
    ]
  ]

  -- After shutdown every call comes to its end. From a state that threads can reach, in which
  -- shutdown was requested, the calls that have begun take no more steps together than
  -- `steps_left` counts; and wherever they stand, either all of them have returned, or one of
  -- them can take a step that does not rest on a timeout or a spurious wake-up.
  pub shutdown_ends :
      (n : ℕ) (item : A) {s t : System A}
      → Reach n s
      → s.shared.shutdown_requested ≡ true
      → (r : Runs s t) → (steps r ≤ steps_left s) × (HasReturned t ⊎ CanGoOn t)
  shutdown_ends n item reached d r =
      let (down, bound) = Runs-Down r d in
      (omega (arith, bound), returned_or_due n item (Runs-Reach reached r) down)
