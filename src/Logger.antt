-- ===== src/Logger.antt =====
-- src/utils/logger.cpp and the macros of its header: the shared logger, which is made on first use.
-- Colours, patterns and the level from which a message is written are not modelled.
pub mod Fallback
pub mod Threads
pub mod Messages
use secure_ros2_gateway.Prelude.{ℕ, ◌*◌, ◌%◌, ◌^◌, Bool, true, false, Option, none, some}
use secure_ros2_gateway.Prelude.Text.{Text, text}

-- The macros LOG_TRACE to LOG_CRITICAL.
pub data Level : Type 0 where
  trace debug info warn error critical : Level

-- spdlog, as far as the code calls it. `none` and `false` stand for an `spdlog_ex` that is thrown.
pub record Spdlog : Type 1 where
  pub World : Type 0
  pub Sink : Type 0
  pub Logger : Type 0
  pub console_sink : World → Option Sink × World
  pub rotating_file_sink : Text → ℕ → ℕ → World → Option Sink × World
  pub make_logger : Text → Sink → Sink → Logger
  pub register_logger : Logger → World → Bool × World
  pub flush : Logger → World → World
  pub log : Logger → Level → Text → World → World

module _ (L : Spdlog) where
  pub record State : Type 0 where
    pub logger_instance : Option L.Logger
    pub world : L.World

  -- The end of the `try` block: the instance is set before it is registered, so that an exception
  -- there leaves it set.
  abbrev set_logger : L.Logger → State → State
  set_logger logger s = record {
    logger_instance = some logger;
    world = (L.register_logger logger s.world).1;
  }

  abbrev with_file_sink : Text → L.Sink → Option L.Sink × L.World → State → State
  with_file_sink name console (none, world) s = record s { world = world }
  with_file_sink name console (some file, world) s =
      set_logger (L.make_logger name console file) (record s { world = world })

  abbrev with_console_sink : Text → Text → ℕ → ℕ → Option L.Sink × L.World → State → State
  with_console_sink name path max_bytes max_files (none, world) s = record s { world = world }
  with_console_sink name path max_bytes max_files (some console, world) s =
      with_file_sink name console (L.rotating_file_sink path max_bytes max_files world) s

  pub init : Text → Text → ℕ → ℕ → State → State
  init logger_name log_file_path max_file_size_mb max_files s =
      with_console_sink logger_name log_file_path (max_file_size_mb * 1024 * 1024 % 2 ^ 64)
        max_files (L.console_sink s.world) s

  -- With the default arguments of the header.
  pub default_init : State → State
  unfolding init
  default_init s = init (text "gateway") (text "logs/gateway.log") 10 5 s

  -- The pointer that it returns is null where it is `none`.
  pub get_logger : State → Option L.Logger × State
  unfolding default_init
  get_logger s = elim s.logger_instance [
    | some logger ↦ (some logger, s)
    | none ↦ let s' = default_init s in (s'.logger_instance, s')
  ]

  pub flush : State → State
  flush s = elim s.logger_instance [
    | some logger ↦ record s { world = L.flush logger s.world }
    | none ↦ s
  ]

  -- A macro: it follows the pointer that get_logger returns, and `none` stands for a null one.
  abbrev write_to : Level → Text → Option L.Logger × State → Option State
  write_to level message (none, s) = none
  write_to level message (some logger, s) =
      some (record s { world = L.log logger level message s.world })

  pub log_message : Level → Text → State → Option State
  unfolding get_logger
  log_message level message s = write_to level message (get_logger s)
