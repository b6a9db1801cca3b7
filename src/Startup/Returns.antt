-- ===== src/Startup/Returns.antt =====
-- src/main.cpp comes to its end when each of its threads has had its steps, between which call_once
-- and the mutex are free.
use secure_ros2_gateway.Prelude.{
  ℕ, suc, ◌≡◌, ◌≤◌, ◌<◌, refl, true, List, [], ◌∷◌, some, arith, length, replicate, Bool-cases, inl,
  inr, get_elem?, get_elem?-replicate, turns_for,
}
use secure_ros2_gateway.Storage
use secure_ros2_gateway.Storage.{Engine}
use secure_ros2_gateway.Storage.Sqlite.{SqliteApi}
use secure_ros2_gateway.Storage.Payload.{Doubles}
use secure_ros2_gateway.Storage.Log.{Call, Reply}
use secure_ros2_gateway.Storage.Threads.{Thread, starting, checking, locking, returned, run}
use secure_ros2_gateway.Storage.Threads.Returns.{call_returns, length-run}
use secure_ros2_gateway.Startup.{
  worker_thread_function, main_program, Exit, db_path, workers, all_returned,
}

module _ (S : SqliteApi) (F : Doubles) where
  abbrev ReturnedAt : List (Thread F) → ℕ → Type 0
  ReturnedAt ts j =
      (call : Call F) × (reply : Reply F) × (get_elem? ts j ≡ some (returned call reply))

  all_returned_lem :
      (ts : List (Thread F))
      → ((j : ℕ) → j < length ts → ReturnedAt ts j)
      → all_returned S F ts ≡ true
  all_returned_lem [] each = refl
  all_returned_lem (returned call reply ∷ ts) each =
      all_returned_lem ts (λ j h. each (suc j) (omega (arith, h)))
  all_returned_lem (starting c ∷ ts) each = let (call, reply, at) = each 0 (omega arith) in cc
  all_returned_lem (checking c ∷ ts) each = let (call, reply, at) = each 0 (omega arith) in cc
  all_returned_lem (locking c ∷ ts) each = let (call, reply, at) = each 0 (omega arith) in cc

  -- The threads of a run that gives each of them three turns.
  all_four :
      (schedule : List ℕ) (e : Engine S F)
      → ((j : ℕ) → j < 4 → 3 ≤ turns_for j schedule)
      → all_returned S F (run F S schedule (workers S F) e).0 ≡ true
  all_four schedule e fair =
      let four = length-run F S schedule (workers S F) e in
      all_returned_lem (run F S schedule (workers S F) e).0 (λ j h.
        let less : j < 4 = omega (arith, h, four) in
        let (reply, at, _) =
          call_returns F S schedule (replicate 4 (worker_thread_function S F)) e j
            (worker_thread_function S F) (get_elem?-replicate 4 j _ less) (fair j less) in
        (worker_thread_function S F, reply, at))

  -- When the schedule gives each of the four threads three turns, in whatever order, main returns.
  pub main_program_returns :
      (schedule : List ℕ) (world : S.World)
      → ((j : ℕ) → j < 4 → 3 ≤ turns_for j schedule)
      → (x : Exit S F) × (main_program S F schedule world ≡ some x)
  unfolding main_program Storage.new
  main_program_returns schedule world fair =
      let ready_engine = Storage.init S F (Storage.new S F db_path world) in
      elim (Bool-cases ready_engine.0) [
        | inl ready ↦ rw (ready, all_four schedule ready_engine.1 fair) (_, refl)
        | inr failed ↦ rw failed (_, refl)
      ]
