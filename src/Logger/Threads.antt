-- ===== src/Logger/Threads.antt =====
-- Threads that call get_logger of src/utils/logger.cpp at the same time: it has no lock, so that
-- the steps of other threads may stand between its test, its call of init and its read.
pub mod Shared
pub mod Race
use secure_ros2_gateway.Prelude.{ℕ, zero, suc, List, [], ◌∷◌, Option, none, some}
use secure_ros2_gateway.Logger.{Spdlog, State, default_init}

module _ (L : Spdlog) where
  -- Where a call stands: before the test, before init, before the read of the pointer that it
  -- returns a reference to, and after it.
  pub data Caller : Type 0 where
    testing making reading : Caller
    got : Option L.Logger → Caller

  abbrev pub tested : Option L.Logger → Caller
  tested none = making
  tested (some logger) = reading

  pub step : Caller → State L → Caller × State L
  step testing s = (tested s.logger_instance, s)
  step making s = (reading, default_init L s)
  step reading s = (got s.logger_instance, s)
  step (got logger) s = (got logger, s)

  -- A step of the i-th caller.
  pub turn : ℕ → List Caller → State L → List Caller × State L
  unfolding step
  turn i [] s = ([], s)
  turn zero (c ∷ cs) s = let (c', s') = step c s in (c' ∷ cs, s')
  turn (suc i) (c ∷ cs) s = let (cs', s') = turn i cs s in (c ∷ cs', s')

  pub run : List ℕ → List Caller → State L → List Caller × State L
  unfolding turn
  run [] cs s = (cs, s)
  run (i ∷ is) cs s = let (cs', s') = turn i cs s in run is cs' s'
