-- ===== src/Ros.antt =====
-- src/ros/gateway_node.cpp and include/secure_telemetry_gateway/ros/gateway_node.hpp: the node, its
-- subscriber callback and its worker thread. The worker is a state machine whose phases lie between
-- the calls that share state with the callback. `storage_engine_` is set by the constructor and
-- never reset, so the null tests on it pass.
pub mod Runtime
pub mod Incoming
pub mod Reject
pub mod Worker
pub mod Publish
pub mod Pipeline
pub mod Stream
use secure_ros2_gateway.Prelude.{
  ℕ, Bool, true, false, ◌&&◌, List, [], ◌∷◌, ◌++◌, Option, none, some, if◌then◌else◌,
}
use secure_ros2_gateway.Prelude.Text.{Text, text, text_eq}
use secure_ros2_gateway.Prelude.Dict.{lookup}
use secure_ros2_gateway.Prelude.Fault.{◌>>=◌}
use secure_ros2_gateway.Telemetry.{TelemetryData, default_data}
use mathlib.Core.Option
use secure_ros2_gateway.Json.{Except, ok, raised}
use secure_ros2_gateway.Queue
use secure_ros2_gateway.Queue.{Queue}
use secure_ros2_gateway.Ingestion.{IngestionStatus, success, parse_and_validate}
use secure_ros2_gateway.Security.{Decryption, check_rate_limit, decrypt_aes_gcm}
use secure_ros2_gateway.Storage
use secure_ros2_gateway.Storage.{Engine}
use Runtime.{Platform, doubles}
use Incoming.{Envelope, read_envelope}

-- PRE_SHARED_KEY
abbrev pub pre_shared_key : List ℕ
pre_shared_key =
    0x60 ∷ 0x3d ∷ 0xeb ∷ 0x10 ∷ 0x15 ∷ 0xca ∷ 0x71 ∷ 0xbe ∷ 0x2b ∷ 0x73 ∷ 0xae ∷ 0xf0 ∷ 0x85 ∷ 0x7d
    ∷ 0x77 ∷ 0x81 ∷ 0x1f ∷ 0x35 ∷ 0x2c ∷ 0x07 ∷ 0x3b ∷ 0x61 ∷ 0x08 ∷ 0xd7 ∷ 0x2d ∷ 0x98 ∷ 0x10
    ∷ 0xa3 ∷ 0x09 ∷ 0x14 ∷ 0xdf ∷ 0xf4 ∷ []

module _ (P : Platform) where
  open P use {Float, to_float, double}
  open P.json use {Value, Double, index}

  abbrev pub Frame : Type 0
  Frame = TelemetryData Double

  -- sensor_msgs::msg::BatteryState, sensor_msgs::msg::Temperature and
  -- geometry_msgs::msg::TwistStamped, with the one reading that the node may fill in; `none` is the
  -- message's own default.
  pub data Reading : Type 0 where
    percentage : Option Float → Reading
    degrees : Option Double → Reading
    linear_x : Option Double → Reading

  pub record Message : Type 0 where
    pub stamp : ℕ
    pub frame_id : Text
    pub reading : Reading

  -- Where the worker thread stands.
  pub data Phase : Type 0 where
    testing popping exited : Phase
    storing publishing : Frame → Phase

  pub record Node : Type 0 where
    pub storage_engine : Engine P.sqlite (doubles P)
    pub telemetry_queue : Queue Frame
    pub running : Bool
    pub phase : Phase
    -- The messages on the three topics, in the order of their publication.
    pub published : List Message

  -- The parameters that a launch file may set.
  pub record Overrides : Type 0 where
    pub db_path : Option Text
    pub max_rate_pps : Option Double
    pub burst_capacity : Option Double
    pub enable_encryption : Option Bool

  pub record Parameters : Type 0 where
    pub db_path : Text
    pub max_rate_pps : Double
    pub burst_capacity : Double
    pub enable_encryption : Bool

  abbrev or_default {ℓ} : {A : Type ℓ} → Option A → A → A
  or_default none default = default
  or_default (some a) default = a

  pub declare_node_parameters : Overrides → Parameters
  declare_node_parameters o = record {
    db_path = or_default o.db_path (text "data/telemetry_history.db");
    max_rate_pps = or_default o.max_rate_pps (double 500);
    burst_capacity = or_default o.burst_capacity (double 1000);
    enable_encryption = or_default o.enable_encryption true;
  }

  -- A failed initialisation of the storage is logged, and the node goes on.
  pub init_subsystems : Parameters → P.sqlite.World → Engine P.sqlite (doubles P)
  init_subsystems parameters world =
      (Storage.init P.sqlite (doubles P)
        (Storage.new P.sqlite (doubles P) parameters.db_path world)).1

  pub construct : Overrides → P.sqlite.World → Node
  construct overrides world = record {
    storage_engine = init_subsystems (declare_node_parameters overrides) world;
    telemetry_queue = Queue.new 1000;
    running = true;
    phase = testing;
    published = [];
  }

  -- The end of process_incoming_raw_payload: what becomes of a parsed record. The result of the
  -- push is not looked at.
  pub queue_parsed : Except IngestionStatus → Frame → Node → Except Bool × Node
  queue_parsed (ok success) telemetry_data node = (
    ok true,
    record node { telemetry_queue = (Queue.push telemetry_data node.telemetry_queue).1 },
  )
  queue_parsed (ok status) telemetry_data node = (ok false, node)
  queue_parsed (raised e) telemetry_data node = (raised e, node)

  pub accept_plaintext : ℕ → List ℕ → Node → Except Bool × Node
  unfolding queue_parsed
  accept_plaintext now plaintext_bytes node =
      let (status, telemetry_data) = parse_and_validate P.json now plaintext_bytes default_data in
      queue_parsed status telemetry_data node

  unfoldable pub after_decryption : ℕ → Node → Decryption → Except Bool × Node
  unfolding accept_plaintext
  after_decryption now node decryption =
      if decryption.ok then accept_plaintext now decryption.plaintext node else (ok false, node)

  -- The arguments of decrypt_aes_gcm stand as in the call: ciphertext, tag, key, IV. `none` is a
  -- write out of bounds.
  pub process_incoming_raw_payload :
      Option P.evp.Ctx → ℕ → Envelope → Node → Option (Except Bool × Node)
  unfolding after_decryption
  process_incoming_raw_payload ctx now e node =
      if check_rate_limit e.client_id (double 10) (double 20)
      then (decrypt_aes_gcm P.evp ctx e.ciphertext e.tag pre_shared_key e.iv [] >>= λ decryption.
          some (after_decryption now node decryption))
      else some (ok false, node)

  -- The callback: what it throws is logged, and so is dropped.
  pub receive : Option P.evp.Ctx → ℕ → Except Envelope → Node → Option Node
  receive ctx now (ok e) node =
      process_incoming_raw_payload ctx now e node >>= λ result. some result.1
  receive ctx now (raised x) node = some node

  pub raw_telemetry_callback : Option P.evp.Ctx → ℕ → Text → Node → Option Node
  unfolding receive
  raw_telemetry_callback ctx now msg node = receive ctx now (read_envelope P.json msg) node

  -- The `if` chain of publish_ros_messages; `none` publishes nothing.
  pub reading_of : Frame → Option Reading
  reading_of frame =
      if text_eq frame.sensor_type (text "battery")
      then some (percentage (Option.map to_float (lookup (text "battery") frame.payload_values)))
      else if text_eq frame.sensor_type (text "temperature")
      then some (degrees (lookup (text "temperature") frame.payload_values))
      else if text_eq frame.sensor_type (text "velocity")
      then some (linear_x (lookup (text "velocity_x") frame.payload_values))
      else none

  abbrev pub message_of : ℕ → Frame → Option Reading → List Message
  message_of now frame none = []
  message_of now frame (some reading) =
      record { stamp = now; frame_id = frame.robot_id; reading = reading } ∷ []

  pub publish_ros_messages : ℕ → Frame → Node → Node
  unfolding reading_of
  publish_ros_messages now frame node = record node {
    published = node.published ++ message_of now frame (reading_of frame);
  }

  -- The test of `while (running_ && rclcpp::ok())`.
  abbrev test : Bool → Node → Node
  test ros_ok node = record node { phase = if node.running && ros_ok then popping else exited }

  -- After an empty pop the thread sleeps, and goes back to its test.
  abbrev after_pop : Option Frame → Phase
  after_pop none = testing
  after_pop (some frame) = storing frame

  pub work : Phase → ℕ → Bool → Node → Node
  unfolding publish_ros_messages
  work testing now ros_ok node = test ros_ok node
  work popping now ros_ok node =
      let (data_opt, queue) = Queue.pop node.telemetry_queue in
      record node { telemetry_queue = queue; phase = after_pop data_opt }
  work (storing frame) now ros_ok node = record node {
    storage_engine = (Storage.insert_telemetry P.sqlite (doubles P) frame node.storage_engine).1;
    phase = publishing frame;
  }
  work (publishing frame) now ros_ok node = record (publish_ros_messages now frame node) {
    phase = testing;
  }
  work exited now ros_ok node = node

  pub worker_step : ℕ → Bool → Node → Node
  unfolding work
  worker_step now ros_ok node = work node.phase now ros_ok node

  -- The destructor up to its join, and after it.
  pub stop : Node → Node
  stop node = record node { running = false }

  abbrev close_after : Phase → Node → Node
  close_after exited node = record node {
    storage_engine = Storage.close P.sqlite (doubles P) node.storage_engine;
  }
  close_after _ node = node

  pub finish : Node → Node
  finish node = close_after node.phase node

  -- What happens to the node, one call at a time, in any order.
  pub data Event : Type 0 where
    receives : Option P.evp.Ctx → ℕ → Text → Event
    works : ℕ → Bool → Event
    stops finishes : Event

  pub step : Event → Node → Option Node
  unfolding raw_telemetry_callback worker_step stop finish
  step (receives ctx now msg) node = raw_telemetry_callback ctx now msg node
  step (works now ros_ok) node = some (worker_step now ros_ok node)
  step stops node = some (stop node)
  step finishes node = some (finish node)

  pub run : List Event → Node → Option Node
  run [] node = some node
  run (e ∷ es) node = step e node >>= run es
