-- ===== src/Tests/Logger.antt =====
-- src/utils/logger.cpp at work, where the log file cannot be opened.
use secure_ros2_gateway.Prelude.{
  ℕ, suc, ◌≡◌, ◌↔◌, refl, List, [], ◌∷◌, ◌++◌, true, none, some, replicate,
}
use secure_ros2_gateway.Logger.{Spdlog, State, info}
use secure_ros2_gateway.Prelude.Text.{text}
use secure_ros2_gateway.Logger.Messages.{Use, logs, flushes, use_all, Fails, use_all_faults}
use secure_ros2_gateway.Logger.Threads.{testing, reading, run}
use secure_ros2_gateway.Logger.Threads.Race.{round, inits, get_logger_race}

-- A world that counts calls.
abbrev no_files : Spdlog
no_files = record {
  World = ℕ;
  Sink = Unit {0};
  Logger = Unit {0};
  console_sink = λ w. (some tt, suc w);
  rotating_file_sink = λ path max_bytes max_files w. (none, suc w);
  make_logger = λ name console file. tt;
  register_logger = λ logger w. (true, suc w);
  flush = λ logger w. w;
  log = λ logger level message w. w;
}

abbrev before_use : State no_files
before_use = record { logger_instance = none; world = 0 }

abbrev uses : List Use
uses = flushes ∷ logs info (text "up") ∷ flushes ∷ []

use_all_faults_example :
    (use_all no_files uses before_use ≡ none)
    ↔ ((before_use.logger_instance ≡ none) × Fails no_files uses 0)
use_all_faults_example = use_all_faults no_files uses before_use

-- A world with a log file, whose state counts the loggers that were registered.
abbrev with_files : Spdlog
with_files = record no_files {
  Logger = ℕ;
  rotating_file_sink = λ path max_bytes max_files w. (some tt, w);
  make_logger = λ name console file. 7;
  register_logger = λ logger w. (true, suc w);
  flush = λ logger w. w;
  log = λ logger level message w. w;
}

abbrev made : State with_files
made = record { logger_instance = some 7; world = 1 }

abbrev unmade : State with_files
unmade = record { logger_instance = none; world = 0 }

abbrev schedule : List ℕ
schedule = 0 ∷ 2 ∷ 1 ∷ 2 ∷ 0 ∷ []

get_logger_race_example :
    run with_files (round 2 ++ round 2) (replicate 2 testing) unmade
    ≡ (replicate 2 reading, inits with_files 2 unmade)
get_logger_race_example = get_logger_race with_files 2 unmade refl
