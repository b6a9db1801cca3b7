-- ===== src/Blocking/Shutdown.antt =====
-- After shutdown() of include/secure_telemetry_gateway/utils/concurrent_queue.hpp.
use secure_ros2_gateway.Prelude.{
  ℕ, zero, suc, ◌+◌, ◌≡◌, refl, ap, true, false, List, [], ◌∷◌, ◌++◌, Option, none, some, arith,
  map, length, replicate,
}
use secure_ros2_gateway.Blocking.{Shared, Outcome, returns, push, pop, shutdown}

module _ {ℓ} {A : Type ℓ} where
  -- What a number of pops return, one after the other.
  abbrev pub pop_results : ℕ → Shared A → List (Outcome (Option A))
  pop_results zero s = []
  pop_results (suc n) s = (pop s).0 ∷ pop_results n (pop s).1

  abbrev down : ℕ → List A → Shared A
  down n items = record { max_capacity = n; items = items; shutdown_requested = true }

  drain :
      (c k n : ℕ) (items : List A)
      → c ≡ length items + k
      → pop_results c (down n items)
        ≡ map (λ item. returns (some item)) items ++ replicate k (returns none)
  unfolding pop
  drain zero zero n [] e = refl
  drain zero (suc k) n [] e = absurd (omega arith)
  drain (suc c) zero n [] e = absurd (omega arith)
  drain (suc c) (suc k) n [] e = ap (λ t. returns none ∷ t) (drain c k n [] (omega arith))
  drain zero k n (item ∷ items) e = absurd (omega arith)
  drain (suc c) k n (item ∷ items) e =
      ap (λ t. returns (some item) ∷ t) (drain c k n items (omega arith))

  -- Once shutdown was requested no call waits: a push is refused and changes nothing, and pops
  -- deliver what is left, in order, and then nothing, however many pops there are.
  pub shutdown_drains :
      (item : A) (k : ℕ) (s : Shared A)
      → (push item (shutdown s) ≡ (returns false, shutdown s))
        × (pop_results (length s.items + k) (shutdown s)
            ≡ map (λ item. returns (some item)) s.items ++ replicate k (returns none))
  unfolding push shutdown
  shutdown_drains item k s =
      (ground arith, drain (length s.items + k) k s.max_capacity s.items refl)
