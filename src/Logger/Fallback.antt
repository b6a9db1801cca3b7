-- ===== src/Logger/Fallback.antt =====
-- When get_logger of src/utils/logger.cpp returns a null pointer.
use secure_ros2_gateway.Prelude.{◌≡◌, ◌⊎◌, ◌↔◌, none, arith}
use secure_ros2_gateway.Prelude.Text.{text}
use secure_ros2_gateway.Logger.{Spdlog, State, init, default_init, get_logger}

module _ (L : Spdlog) where
  -- get_logger returns a null pointer, which the logging macros dereference, exactly when there was
  -- no logger and one of the two sinks cannot be made: the handler of init swallows the exception.
  -- Once it has returned a logger, it returns the same one again and changes nothing.
  pub get_logger_lem :
      (s : State L)
      → let console = L.console_sink s.world in
        let file = L.rotating_file_sink (text "logs/gateway.log") 10485760 5 console.1 in
        (((get_logger L s).0 ≡ none)
          ↔ ((s.logger_instance ≡ none) × ((console.0 ≡ none) ⊎ (file.0 ≡ none))))
        × (((get_logger L s).0 ≡ none) ⊎ (get_logger L (get_logger L s).1 ≡ get_logger L s))
  unfolding get_logger default_init init
  get_logger_lem s = ((λ h. ground arith, λ h. ground arith), ground arith)
