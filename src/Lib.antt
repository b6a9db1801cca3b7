-- ===== src/Lib.antt =====
-- Secure ROS 2 telemetry gateway: what its C++ code does, and what is proved of it.
--
-- PARTS. A robot's packet reaches the node's callback (src/ros/gateway_node.cpp), which decrypts
-- it (src/security/security_engine.cpp), parses it (src/ingestion/telemetry_ingestion_engine.cpp)
-- and puts the record (include/secure_telemetry_gateway/models/telemetry_data.hpp) on a bounded
-- queue (include/secure_telemetry_gateway/containers/concurrent_queue.hpp). A worker thread takes
-- it from there, stores it by src/storage/storage_engine.cpp and publishes a ROS message.
--
-- FILES. Prelude holds what all parts share: tests on numbers, texts as lists of bytes,
-- dictionaries and their order, state passing, vectors with bounds, and 64-bit casts. Tests holds
-- concrete runs, and the theorems at inputs that meet their hypotheses. The other files, by part:
--
-- Queue is the bounded queue: push, pop, pop_into (bool pop(T&)), size and empty as functions of
-- its state; Queue.History runs any sequence of calls.
--
-- Telemetry is the record. Packet is the unified packet of
-- include/secure_telemetry_gateway/telemetry/telemetry_data.hpp, with the names of its states in
-- Packet.Names.
--
-- Ingestion is the ingestion engine: parse_and_validate as a writer of out_data that may leave by
-- an exception, split into the readers of its fields, and process_payload; Ingestion.Payload,
-- Record and Status prove how its calls end.
--
-- Security is the security engine: encrypt_aes_gcm and decrypt_aes_gcm as the sequence of
-- OpenSSL's calls, with their buffers; Security.Gcm proves what they do, and Security.Total what
-- holds on every input.
--
-- Storage is the storage engine: each method is a function of the engine's fields and of the
-- world that SQLite keeps; Storage.Sqlite holds the SQL texts, and Storage.Payload the JSON text
-- of a payload; Storage.Rows, Batch, Insert, History, Lifecycle, Opening, Outcomes, Columns,
-- Payload.Format and Payload.Members hold the proofs. Storage.Log says what a client of the
-- engine's code can see, as a log of rows and the replies possible to each call; Log.Calls and
-- Log.Refines show that the engine's fields and SQLite behave so, and Log.Grows what it comes to
-- for a client. It is not what include/secure_telemetry_gateway/storage/storage_engine.hpp
-- documents: a query finds nothing and a purge deletes nothing, and a failed COMMIT can leave a
-- transaction open. Storage.Threads cuts a call into the steps between which other threads can
-- stand; Threads.Bodies, Steps, Whole, Atomic, Returns, Race, Tally and Stored hold the proofs.
--
-- Ros is the node: its constructor, callback, worker and destructor; Ros.Incoming reads the JSON
-- envelope, and Ros.Reject, Worker, Publish, Pipeline and Stream hold the proofs; Worker.Stop is
-- about the destructor.
--
-- MockPublisher is src/mock_telemetry_publisher.cpp, with its proofs in MockPublisher.Accepted
-- for one sample, MockPublisher.Spin for a whole run and, for a generator that fails,
-- MockPublisher.Nonce.
--
-- Startup is the startup program (src/main.cpp), whose four threads take the steps of
-- Storage.Threads; Startup.Inserted and Startup.Returns hold the proofs.
--
-- Blocking is the other queue, include/secure_telemetry_gateway/utils/concurrent_queue.hpp, whose
-- calls wait: Blocking.Threads adds the threads, the condition variables and the notifications
-- that are due, and Shutdown, Threads.Wakeups and Threads.Ending the proofs.
--
-- Config is the configuration manager (src/utils/config_manager.cpp), with its proofs in
-- Config.Paths and Config.Loading. Logger is src/utils/logger.cpp with the macros of its header,
-- with its proofs in Logger.Fallback and Logger.Messages and, for threads that ask for the logger
-- at the same time, under Logger.Threads.
--
-- UnitTests holds the test programs test/test_storage_engine.cpp and
-- test/test_security_engine.cpp, and what becomes of them.
--
-- LIBRARIES. nlohmann::json (Json.Json), OpenSSL (Security.OpenSsl.Evp), SQLite and
-- std::filesystem (Storage.Sqlite.SqliteApi), yaml-cpp (Config.YamlCpp.Yaml), spdlog
-- (Logger.Spdlog), writing JSON (MockPublisher.Document.JsonWriter) and the rest of the runtime
-- (Ros.Runtime.Platform, Storage.Payload.Doubles) are records of operations that the definitions
-- take as parameters. What their manuals say is in IsJson, IsWriter, IsGcm and IsSqlite, which
-- the theorems that need it take as hypotheses; Json.Toy, MockPublisher.Toy, Security.Toy and
-- Storage.Toy show that it can hold. IsSqlite describes a database in a file: a parameter is
-- bound only on a statement that was reset since its last step, the code's calls to bind may fail
-- and then leave NULL, and a step that stores a row has no NULL among them. Of a call on a null
-- handle it says nothing. FillsBuffer (MockPublisher.Spin) says that RAND_bytes fills the buffer
-- that it is given, and WalksAll (Storage.Payload.Members) that an unordered map is walked
-- through each entry once. Of a double the model knows nothing. A failed allocation is not
-- modelled, but for EVP_CIPHER_CTX_new; nor are the log messages, quality of service and the
-- transport of ROS.
--
-- STATE AND THREADS. A method that holds its mutex throughout is one step. The worker's loop is
-- cut into phases at each call that shares state with another thread; a run is any sequence of
-- incoming messages, turns of the worker, the request to stop and the end of the destructor. A
-- vector of bytes is a list of numbers, and none stands for a write past its end. An unsigned
-- 64-bit number is a natural number, reduced where the code converts; lengths that OpenSSL takes
-- as an int are below 2 ^ 31 by hypothesis. No definition takes fuel: every loop is a recursion
-- on its list. A schedule of the startup program, of the threads that share a storage engine or
-- of those that ask for the logger is a list of thread numbers; in Blocking.Threads the threads
-- that wait are counted, not named. A step of Storage.Threads is a whole one: std::call_once and
-- db_mutex_ are free between two steps, so that a thread of it never waits, and deadlock is
-- outside the model; a run that gives a thread too few steps leaves its call unfinished.
--
-- NOT MODELLED. The launch test, the benchmark, the Python client, the launch and service files
-- and the dashboard are not part of the gateway's code.
pub mod Prelude
pub mod Queue
pub mod Blocking
pub mod Config
pub mod Startup
pub mod Logger
pub mod MockPublisher
pub mod Security
pub mod Telemetry
pub mod Packet
pub mod Json
pub mod Ingestion
pub mod Storage
pub mod Ros
pub mod Tests
pub mod UnitTests
