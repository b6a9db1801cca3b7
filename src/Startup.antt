-- ===== src/Startup.antt =====
-- src/main.cpp: the startup program. Four threads insert the same frame into a storage engine that
-- main has initialised; main joins them, and the engine's destructor closes it.
pub mod Inserted
pub mod Returns
use secure_ros2_gateway.Prelude.{
  ℕ, ◌&&◌, Bool, true, false, List, [], ◌∷◌, Option, none, some, replicate, if◌then◌else◌,
}
use secure_ros2_gateway.Prelude.Text.{Text, text}
use secure_ros2_gateway.Telemetry.{TelemetryData, default_data}
use secure_ros2_gateway.Storage
use secure_ros2_gateway.Storage.{Engine}
use secure_ros2_gateway.Storage.Sqlite.{SqliteApi}
use secure_ros2_gateway.Storage.Payload.{Doubles}
use secure_ros2_gateway.Storage.Log.{Call, inserts}
use secure_ros2_gateway.Storage.Threads.{Thread, starting, checking, locking, returned, Pool, run}

abbrev pub db_path : Text
db_path = text "data/telemetry_history.db"

module _ (S : SqliteApi) (F : Doubles) where
  unfoldable pub sample_data : TelemetryData F.Double
  sample_data = record default_data {
    robot_id = text "robot_1";
    sensor_type = text "lidar";
    timestamp_ns = 1700000000000000000;
    sequence_id = 101;
  }

  -- The one call of a thread; what it prints when the call fails is not modelled.
  abbrev pub worker_thread_function : Call F
  worker_thread_function = inserts sample_data

  abbrev pub has_returned : Thread F → Bool
  has_returned (starting call) = false
  has_returned (checking call) = false
  has_returned (locking call) = false
  has_returned (returned call reply) = true

  abbrev pub all_returned : List (Thread F) → Bool
  all_returned [] = true
  all_returned (t ∷ ts) = has_returned t && all_returned ts

  abbrev pub workers : List (Thread F)
  workers = replicate 4 (starting worker_thread_function)

  pub record Exit : Type 0 where
    pub code : ℕ
    pub threads : List (Thread F)
    pub storage : Engine S F

  -- The joins wait until every thread has ended. The destructor of the engine closes it.
  abbrev pub join_all : Pool F S → Option Exit
  join_all (threads, storage, ended) =
      if all_returned threads
      then some (record { code = 0; threads = threads; storage = Storage.destroy S F storage })
      else none

  -- `none` while a thread still runs. The schedule gives the turns of the threads.
  pub main_program : List ℕ → S.World → Option Exit
  main_program schedule world =
      let (ready, storage) = Storage.init S F (Storage.new S F db_path world) in
      if ready
      then join_all (run F S schedule workers storage)
      else some (record { code = 1; threads = []; storage = Storage.destroy S F storage })
