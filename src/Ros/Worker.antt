-- ===== src/Ros/Worker.antt =====
-- The worker thread of src/ros/gateway_node.cpp over any sequence of events: what it takes from the
-- queue, hands to the storage engine and publishes, in which order.
pub mod Calls
pub mod Order
pub mod Table
pub mod Drain
pub mod Stop
use secure_ros2_gateway.Prelude.{ℕ, Bool, true, false, List, [], ◌∷◌, ◌++◌, Option, none, some, map}
use secure_ros2_gateway.Prelude.Text.{Text}
use secure_ros2_gateway.Prelude.Fault.{◌>>=◌}
use secure_ros2_gateway.Queue
use secure_ros2_gateway.Storage
use secure_ros2_gateway.Storage.Log.{Call, closes, inserts, Reply, answers, nothing}
use secure_ros2_gateway.Ros.Runtime.{Platform, doubles}
use secure_ros2_gateway.Ros.{
  Frame, Reading, reading_of, Message, Phase, testing, popping, exited, storing, publishing, Node,
  Event, receives, works, stops, finishes, step,
}

module _ (P : Platform) where
  -- What happened on the way: the frames taken from the queue, the insertions with their results,
  -- and the frames that publish_ros_messages has dealt with.
  pub record Progress : Type 0 where
    pub taken : List (Frame P)
    pub insertions : List (Frame P × Bool)
    pub handled : List (Frame P)
    -- The calls of the storage engine with their replies, as it would give them.
    pub calls : List (Call (doubles P) × Reply (doubles P))
    pub node : Node P

  abbrev one_of : Option (Frame P) → List (Frame P)
  one_of none = []
  one_of (some frame) = frame ∷ []

  abbrev pub taken_in : Phase P → Node P → List (Frame P)
  taken_in popping node = one_of (Queue.pop node.telemetry_queue).0
  taken_in _ node = []

  abbrev pub insertions_in : Phase P → Node P → List (Frame P × Bool)
  insertions_in (storing frame) node =
      (frame, (Storage.insert_telemetry P.sqlite (doubles P) frame node.storage_engine).0) ∷ []
  insertions_in _ node = []

  -- The call of the storage engine that a turn of the worker makes, and that of the destructor.
  abbrev pub calls_in : Phase P → Node P → List (Call (doubles P) × Reply (doubles P))
  calls_in (storing frame) node =
      (
        inserts frame,
        answers (Storage.insert_telemetry P.sqlite (doubles P) frame node.storage_engine).0,
      )
      ∷ []
  calls_in _ node = []

  abbrev pub close_calls : Phase P → List (Call (doubles P) × Reply (doubles P))
  close_calls exited = (closes, nothing) ∷ []
  close_calls _ = []

  abbrev pub calls_of : Event P → Node P → List (Call (doubles P) × Reply (doubles P))
  calls_of (works now ros_ok) node = calls_in node.phase node
  calls_of finishes node = close_calls node.phase
  calls_of _ node = []

  -- The insertions among the calls, with their results.
  abbrev pub inserted_by : List (Call (doubles P) × Reply (doubles P)) → List (Frame P × Bool)
  inserted_by [] = []
  inserted_by ((inserts frame, answers result) ∷ rest) = (frame, result) ∷ inserted_by rest
  inserted_by (_ ∷ rest) = inserted_by rest

  -- The frame that waits for its insertion, and the one that waits for its publication.
  abbrev pub to_store : Phase P → List (Frame P)
  to_store (storing frame) = frame ∷ []
  to_store _ = []

  abbrev pub to_publish : Phase P → List (Frame P)
  to_publish (publishing frame) = frame ∷ []
  to_publish _ = []

  -- Only a turn of the worker makes progress, by the phase that it starts in.
  abbrev pub in_turn {ℓ} : {A : Type ℓ} → (Phase P → List A) → Event P → Node P → List A
  in_turn f (works now ros_ok) node = f node.phase
  in_turn f _ node = []

  abbrev pub progress_of : Event P → Node P → Node P → Progress
  progress_of e node node' = record {
    taken = in_turn (λ p. taken_in p node) e node;
    insertions = in_turn (λ p. insertions_in p node) e node;
    handled = in_turn to_publish e node;
    calls = calls_of e node;
    node = node';
  }

  abbrev pub and_then : Progress → Progress → Progress
  and_then s r = record {
    taken = s.taken ++ r.taken;
    insertions = s.insertions ++ r.insertions;
    handled = s.handled ++ r.handled;
    calls = s.calls ++ r.calls;
    node = r.node;
  }

  abbrev pub no_progress : Node P → Progress
  no_progress node = record { taken = []; insertions = []; handled = []; calls = []; node = node }

  -- A run that keeps the record of its progress.
  pub progress : List (Event P) → Node P → Option Progress
  progress [] node = some (no_progress node)
  progress (e ∷ es) node = step P e node >>= λ node'.
      progress es node' >>= λ rest. some (and_then (progress_of e node node') rest)

  -- A message without the time of its publication.
  abbrev pub content : Message P → Text × Reading P
  content m = (m.frame_id, m.reading)

  abbrev pub content_of : Frame P → Option (Reading P) → List (Text × Reading P)
  content_of frame none = []
  content_of frame (some reading) = (frame.robot_id, reading) ∷ []

  unfoldable pub contents : List (Frame P) → List (Text × Reading P)
  contents [] = []
  contents (frame ∷ frames) = content_of frame (reading_of P frame) ++ contents frames

  -- The frames whose insertion succeeded.
  abbrev pub stored : List (Frame P × Bool) → List (Frame P)
  stored [] = []
  stored ((frame, true) ∷ rest) = frame ∷ stored rest
  stored ((frame, false) ∷ rest) = stored rest
