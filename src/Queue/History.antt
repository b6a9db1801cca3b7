-- ===== src/Queue/History.antt =====
-- Any interleaving of calls on the queue: the bound on its size, and first in, first out.
use secure_ros2_gateway.Prelude.{
  ◌≤◌, ◌≡◌, ◌⊎◌, inl, inr, refl, ap, ◌∙◌, sym, List, [], ◌∷◌, ◌++◌, Option, none, some, Bool, true,
  false, length-append, append_assoc, append-nil, arith,
}
use secure_ros2_gateway.Queue.{Queue, push, pop, pop_into, size, empty}

-- A call by some thread; `size` and `empty` change nothing.
pub data Call {ℓ} (A : Type ℓ) : Type ℓ where
  pushes : A → Call A
  pops : Call A
  pops_into : A → Call A

-- The items that pushes accepted and that pops delivered, in the order of the calls.
pub record Run {ℓ} (A : Type ℓ) : Type ℓ where
  pub accepted : List A
  pub delivered : List A
  pub queue : Queue A

module _ {ℓ} {A : Type ℓ} where
  abbrev pub one_if : Bool → A → List A
  one_if true a = a ∷ []
  one_if false a = []

  abbrev one_of : Option A → List A
  one_of none = []
  one_of (some a) = a ∷ []

  step : Call A → Queue A → Run A
  step (pushes a) q = record {
    accepted = one_if (push a q).0 a;
    delivered = [];
    queue = (push a q).1;
  }
  step pops q = record { accepted = []; delivered = one_of (pop q).0; queue = (pop q).1 }
  step (pops_into a) q = record {
    accepted = [];
    delivered = one_if (pop_into a q).0.0 (pop_into a q).0.1;
    queue = (pop_into a q).1;
  }

  pub run : List (Call A) → Queue A → Run A
  run [] q = record { accepted = []; delivered = []; queue = q }
  run (c ∷ cs) q =
      let now = step c q in
      let rest = run cs now.queue in
      record {
        accepted = now.accepted ++ rest.accepted;
        delivered = now.delivered ++ rest.delivered;
        queue = rest.queue;
      }

  abbrev pub IsBounded : Queue A → Type 0
  IsBounded q = size q ≤ q.max_capacity

  step_capacity : (c : Call A) (q : Queue A) → (step c q).queue.max_capacity ≡ q.max_capacity
  unfolding step push pop pop_into
  step_capacity (pushes a) q = ground arith
  step_capacity pops q = ground arith
  step_capacity (pops_into a) q = ground arith

  step-IsBounded : (c : Call A) (q : Queue A) → IsBounded q → IsBounded (step c q).queue
  unfolding step push pop pop_into size
  step-IsBounded (pushes a) q h = ground (arith, length-append q.items (a ∷ []))
  step-IsBounded pops q h = ground arith
  step-IsBounded (pops_into a) q h = ground arith

  -- No interleaving of calls makes a bounded queue exceed its capacity, and none changes the
  -- capacity.
  pub run-IsBounded :
      (cs : List (Call A)) (q : Queue A)
      → IsBounded q
      → IsBounded (run cs q).queue × ((run cs q).queue.max_capacity ≡ q.max_capacity)
  unfolding run
  run-IsBounded [] q h = (h, refl)
  run-IsBounded (c ∷ cs) q h =
      let (b, e) = run-IsBounded cs (step c q).queue (step-IsBounded c q h) in
      (b, e ∙ step_capacity c q)

  step_fifo :
      (c : Call A) (q : Queue A)
      → q.items ++ (step c q).accepted ≡ (step c q).delivered ++ (step c q).queue.items
  unfolding step push pop pop_into
  step_fifo (pushes a) q = ground (arith, append-nil q.items)
  step_fifo pops q = ground (arith, append-nil q.items)
  step_fifo (pops_into a) q = ground (arith, append-nil q.items)

  -- First in, first out, nothing lost and nothing twice: over any interleaving of calls, the items
  -- queued at the start followed by those accepted since are the items delivered followed by those
  -- still queued.
  pub run_fifo :
      (cs : List (Call A)) (q : Queue A)
      → q.items ++ (run cs q).accepted ≡ (run cs q).delivered ++ (run cs q).queue.items
  unfolding run
  run_fifo [] q = append-nil q.items
  run_fifo (c ∷ cs) q =
      let s = step c q in
      let r = run cs s.queue in
      sym (append_assoc q.items s.accepted r.accepted)
      ∙ ap (λ xs. xs ++ r.accepted) (step_fifo c q)
      ∙ append_assoc s.delivered s.queue.items r.accepted
      ∙ ap (◌++◌ s.delivered) (run_fifo cs s.queue)
      ∙ sym (append_assoc s.delivered r.delivered r.queue.items)

-- The two forms of `pop` agree: they succeed together, when the queue is not empty, hand out the
-- same item and leave the same queue, and a `pop(T&)` that fails leaves its argument as it was.
pub pop_into-pop {ℓ} :
    {A : Type ℓ} (a : A) (q : Queue A)
    → ((empty q ≡ true) × (pop q ≡ (none, q)) × (pop_into a q ≡ ((false, a), q)))
      ⊎ ((x : A) × (empty q ≡ false)
          × ((pop q).0 ≡ some x)
          × (pop_into a q ≡ ((true, x), (pop q).1)))
unfolding pop pop_into empty
pop_into-pop {A = A} a q = go q.items refl
  where
    go :
        (xs : List A)
        → q.items ≡ xs
        → ((empty q ≡ true) × (pop q ≡ (none, q)) × (pop_into a q ≡ ((false, a), q)))
          ⊎ ((x : A) × (empty q ≡ false)
              × ((pop q).0 ≡ some x)
              × (pop_into a q ≡ ((true, x), (pop q).1)))
    go [] e = inl (ground arith, ground arith, ground arith)
    go (x ∷ xs) e = inr (x, ground arith, ground arith, ground arith)
