-- ===== src/Tests/Startup.antt =====
-- src/main.cpp at work, over the database in memory.
use secure_ros2_gateway.Prelude.{ℕ, zero, suc, ◌≤◌, ◌<◌, List, [], ◌∷◌, arith, turns_for}
use secure_ros2_gateway.Storage
use secure_ros2_gateway.Storage.Toy.{empty_memory, memory_api, memory-IsSqlite}
use secure_ros2_gateway.Startup.{Exit, db_path}
use secure_ros2_gateway.Startup.Inserted.{EndsWell, main_program-EndsWell}
use secure_ros2_gateway.Startup.Returns.{main_program_returns}
use secure_ros2_gateway.Tests.Storage.{plain}

-- The second thread starts before the first one has inserted.
abbrev schedule : List ℕ
schedule = 0 ∷ 1 ∷ 0 ∷ 1 ∷ 0 ∷ 3 ∷ 1 ∷ 2 ∷ 3 ∷ 2 ∷ 3 ∷ 2 ∷ []

three_turns : (j : ℕ) → j < 4 → 3 ≤ turns_for j schedule
three_turns zero h = omega arith
three_turns (suc zero) h = omega arith
three_turns (suc (suc zero)) h = omega arith
three_turns (suc (suc (suc zero))) h = omega arith
three_turns (suc (suc (suc (suc j)))) h = absurd (omega (arith, h))

abbrev exit : Exit memory_api plain
exit = (main_program_returns memory_api plain schedule empty_memory three_turns).0

main_program-EndsWell_example :
    EndsWell memory_api plain memory-IsSqlite
      (Storage.init memory_api plain (Storage.new memory_api plain db_path empty_memory))
      exit
main_program-EndsWell_example =
    main_program-EndsWell memory_api plain memory-IsSqlite schedule empty_memory exit
      (main_program_returns memory_api plain schedule empty_memory three_turns).1
