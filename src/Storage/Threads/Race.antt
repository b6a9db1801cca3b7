-- ===== src/Storage/Threads/Race.antt =====
-- close of src/storage/storage_engine.cpp between the check and the lock of another thread's call.
-- What the body of that call then does, with a null statement, is not stated: SQLite's documents do
-- not say what sqlite3_clear_bindings does with one.
use secure_ros2_gateway.Storage
use secure_ros2_gateway.Storage.{ensure_initialized, write_row, insert_locked}
