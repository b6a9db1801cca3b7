-- ===== src/Tests/Queue.antt =====
-- The queue of include/secure_telemetry_gateway/containers/concurrent_queue.hpp at work.
use secure_ros2_gateway.Prelude.{ℕ, ◌≡◌, refl, false, List, [], ◌∷◌, ◌++◌, arith}
use secure_ros2_gateway.Queue.{Queue, push, size}
use secure_ros2_gateway.Queue.History.{
  Call, pushes, pops, pops_into, run, IsBounded, run-IsBounded, run_fifo,
}

abbrev calls : List (Call ℕ)
calls = pushes 7 ∷ pushes 8 ∷ pushes 9 ∷ pops ∷ pops_into 0 ∷ pops ∷ []

abbrev pair : Queue ℕ
pair = record { items = 4 ∷ 5 ∷ []; max_capacity = 2 }

push_to_full : push 6 pair ≡ (false, pair)
unfolding push
push_to_full = refl

run-IsBounded_example : IsBounded (run calls pair).queue × ((run calls pair).queue.max_capacity ≡ 2)
unfolding size
run-IsBounded_example = run-IsBounded calls pair (omega arith)

run_fifo_example :
    pair.items ++ (run calls pair).accepted
    ≡ (run calls pair).delivered ++ (run calls pair).queue.items
run_fifo_example = run_fifo calls pair
