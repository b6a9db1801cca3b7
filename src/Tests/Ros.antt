-- ===== src/Tests/Ros.antt =====
-- The gateway node of src/ros/gateway_node.cpp over the small libraries.
use secure_ros2_gateway.Prelude.{
  ℕ, ◌+◌, ◌%◌, ◌≡◌, refl, inl, true, false, List, [], ◌∷◌, ◌++◌, map, none, some, arith, leb,
  if◌then◌else◌,
}
use secure_ros2_gateway.Prelude.Text.{Text, text, split_on, text_eq}
use secure_ros2_gateway.Prelude.Dict.{lookup, insert}
use secure_ros2_gateway.Json.{ok}
use secure_ros2_gateway.Json.Toy.{small_json, small_json-IsJson, Value, fields, parse}
use secure_ros2_gateway.Ingestion.{sensor_category}
use secure_ros2_gateway.Ingestion.Payload.{load}
use secure_ros2_gateway.Ingestion.Record.{record_of}
use secure_ros2_gateway.Queue.{size}
use secure_ros2_gateway.Security.Toy.{toy, blank}
use secure_ros2_gateway.Storage.{Engine}
use secure_ros2_gateway.Storage.Toy.{empty_memory, memory_api, memory-IsSqlite}
use secure_ros2_gateway.Storage.Rows.{IsOpen}
use secure_ros2_gateway.Ros.Runtime.{Platform, doubles}
use secure_ros2_gateway.Ros.Incoming.{Envelope}
use secure_ros2_gateway.Ros.{
  Frame, Node, testing, popping, Event, receives, works, stops, finishes, Overrides, construct, run,
  process_incoming_raw_payload, accept_plaintext,
}
use secure_ros2_gateway.Ros.Reject.{process_incoming_raw_payload_refuses, IsIdle, gateway-IsIdle}
use secure_ros2_gateway.Ros.Worker.{Progress, progress, content}
use secure_ros2_gateway.Ros.Worker.Order.{Follows, progress-Follows}
use secure_ros2_gateway.Ros.Worker.Table.{Serves, progress-Serves}
use secure_ros2_gateway.Ros.Worker.Drain.{IsDrained, turns, worker_drains}
use secure_ros2_gateway.Ros.Worker.Stop.{HasEnded, stop_ends}
use secure_ros2_gateway.Ros.Pipeline.{accept_plaintext_lem}
use secure_ros2_gateway.Ros.Stream.{Document, accept_all, readings_of, documents_served}
use secure_ros2_gateway.Storage.Log.{inserts, call_all}
use secure_ros2_gateway.Storage.Log.Grows.{stored_in}

abbrev small : Platform
small = record {
  json = small_json;
  evp = toy;
  sqlite = memory_api;
  to_string = λ n. (b'0' + n % 10) ∷ [];
  walk = λ kvs. kvs;
  double = λ n. n;
  Float = ℕ;
  to_float = λ n. n;
}

abbrev document : Text
document = text "client_id=amr;battery=98;timestamp_ns=5"

abbrev value : Value
value = fields (
    (text "client_id", text "amr")
    ∷ (text "battery", text "98")
    ∷ (text "timestamp_ns", text "5")
    ∷ [])

abbrev frame : Frame small
frame = record {
  robot_id = text "amr";
  sensor_type = text "battery";
  timestamp_ns = 5;
  sequence_id = 0;
  payload_values = (text "battery", 98) ∷ (text "timestamp_ns", 5) ∷ [];
}

parse_document : parse document ≡ ok value
unfolding split_on
parse_document = refl

record_of_document : record_of small_json 3 value ≡ ok frame
unfolding sensor_category load lookup insert text_eq
record_of_document = refl

abbrev opened : Engine memory_api (doubles small)
opened = record {
  db_path = text "t.db";
  db = some tt;
  insert_stmt = some tt;
  called_once = true;
  is_initialized = true;
  init_failed = false;
  world = empty_memory;
}

opened-IsOpen : IsOpen memory_api (doubles small) memory-IsSqlite tt tt opened
unfolding memory-IsSqlite
opened-IsOpen = record {
  has_db = refl;
  has_stmt = refl;
  ready = tt;
  called_once = refl;
  initialized = refl;
}

abbrev node_with : List (Frame small) → Node small
node_with frames = record {
  storage_engine = opened;
  telemetry_queue = record { items = frames; max_capacity = 1000 };
  running = true;
  phase = testing;
  published = [];
}

abbrev loaded : Node small
loaded = node_with (frame ∷ frame ∷ [])

abbrev events : List (Event small)
events =
    works 1 true
    ∷ works 2 true
    ∷ receives (some blank) 3 document
    ∷ works 4 true
    ∷ stops
    ∷ works 5 true
    ∷ works 6 true
    ∷ finishes
    ∷ []

abbrev no_overrides : Overrides small
no_overrides = record {
  db_path = none;
  max_rate_pps = none;
  burst_capacity = none;
  enable_encryption = none;
}

abbrev packet : Envelope
packet = record { client_id = text "amr"; ciphertext = document; iv = 1 ∷ []; tag = 2 ∷ [] }

process_incoming_raw_payload_refuses_example :
    process_incoming_raw_payload small (some blank) 3 packet loaded ≡ some (ok false, loaded)
process_incoming_raw_payload_refuses_example =
    process_incoming_raw_payload_refuses small (some blank) 3 packet loaded

gateway-IsIdle_example :
    (node : Node small) × (run small events (construct small no_overrides empty_memory) ≡ some node)
    × IsIdle small (construct small no_overrides empty_memory).storage_engine node
gateway-IsIdle_example = gateway-IsIdle small no_overrides empty_memory events

progress-Follows_example :
    (h : Progress small) × (progress small events loaded ≡ some h)
    × (run small events loaded ≡ some h.node)
    × Follows small loaded h
progress-Follows_example = progress-Follows small events loaded

progress-Serves_example :
    (h : Progress small) × (progress small events loaded ≡ some h)
    × Serves small memory-IsSqlite [] h.insertions h.node
unfolding memory-IsSqlite
progress-Serves_example =
    progress-Serves small memory-IsSqlite events loaded (inl (tt, tt, opened-IsOpen, refl))

worker_drains_example :
    (node : Node small) × (run small (turns small (1 ∷ 2 ∷ 3 ∷ 4 ∷ 5 ∷ 6 ∷ 7 ∷ 8 ∷ [])) loaded
      ≡ some node)
    × IsDrained small (frame ∷ frame ∷ []) loaded node
worker_drains_example =
    worker_drains small (1 ∷ 2 ∷ 3 ∷ 4 ∷ 5 ∷ 6 ∷ 7 ∷ 8 ∷ []) loaded (omega arith) refl refl

-- The destructor asks the worker to stop while it holds the frame that it has inserted.
abbrev last_turns : List (Event small)
last_turns = works 1 true ∷ works 2 true ∷ works 3 true ∷ works 4 true ∷ []

abbrev popping_node : Node small
popping_node = record loaded { phase = popping }

stop_ends_example :
    (last : Node small) × (run small (stops ∷ last_turns ++ finishes ∷ []) popping_node ≡ some last)
    × HasEnded small popping_node last
stop_ends_example = stop_ends small last_turns popping_node (omega arith)

accept_plaintext_lem_example : accept_plaintext small 3 document (node_with []) ≡ (
  ok true,
  record (node_with []) {
    telemetry_queue =
        if leb 1000 (size (node_with []).telemetry_queue)
        then (node_with []).telemetry_queue
        else record { items = frame ∷ []; max_capacity = 1000 };
  },
)
accept_plaintext_lem_example =
    accept_plaintext_lem small small_json-IsJson 3 document (node_with []) value frame
      parse_document record_of_document

abbrev stream : List (Document small)
stream =
    record { now = 3; source = document; value = value; frame = frame }
    ∷ record { now = 3; source = document; value = value; frame = frame }
    ∷ []

documents_served_example :
    (node' : Node small) × (run small
        (turns small (4 ∷ 5 ∷ 6 ∷ 7 ∷ 8 ∷ 9 ∷ 10 ∷ 11 ∷ []))
        (accept_all small stream (node_with []))
      ≡ some node')
    × (map (content small) node'.published ≡ readings_of small stream)
    × (node'.storage_engine.world.table.committed
        ≡ stored_in
            (doubles small)
            (call_all (doubles small) memory_api (inserts frame ∷ inserts frame ∷ []) opened).0)
    × (node'.telemetry_queue.items ≡ [])
    × (node'.phase ≡ testing)
unfolding memory-IsSqlite
documents_served_example =
    documents_served small memory-IsSqlite tt tt small_json-IsJson stream
      (4 ∷ 5 ∷ 6 ∷ 7 ∷ 8 ∷ 9 ∷ 10 ∷ 11 ∷ []) (node_with [])
      ((parse_document, record_of_document), ((parse_document, record_of_document), tt)) refl refl
      refl refl (omega arith) opened-IsOpen refl
