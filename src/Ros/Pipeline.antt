-- ===== src/Ros/Pipeline.antt =====
-- A decrypted document on its way through src/ros/gateway_node.cpp: onto the queue, into the table
-- and onto its topic.
use secure_ros2_gateway.Prelude.{
  ℕ, ◌<◌, ◌≡◌, refl, true, [], ◌∷◌, ◌++◌, none, some, leb, if◌then◌else◌, arith,
}
use secure_ros2_gateway.Prelude.Text.{Text}
use secure_ros2_gateway.Telemetry.{default_data}
use secure_ros2_gateway.Json.{IsJson, ok}
use secure_ros2_gateway.Ingestion.Record.{record_of}
use secure_ros2_gateway.Ingestion.Status.{parse_and_validate_ok}
use secure_ros2_gateway.Queue
use secure_ros2_gateway.Storage
use secure_ros2_gateway.Storage.Sqlite.{IsSqlite}
use secure_ros2_gateway.Storage.Rows.{row_of, IsOpen}
use secure_ros2_gateway.Storage.Insert.{insert_telemetry-committed}
use secure_ros2_gateway.Ros.Runtime.{Platform, doubles}
use secure_ros2_gateway.Ros.Publish.{reading_of_document, reading_of-record_of}
use secure_ros2_gateway.Ros.Worker.Drain.{turns, round, round_lem}
use secure_ros2_gateway.Ros.{Frame, message_of, testing, Node, queue_parsed, accept_plaintext, run}

module _ (P : Platform) (L : IsJson P.json) where
  open P.json use {Value, parse}

  -- A document whose fields have the right types is reported as accepted. Its frame goes to the
  -- back of the queue, or, where the queue is full, nowhere: the report is the same.
  pub accept_plaintext_lem :
      (now : ℕ) (document : Text) (node : Node P) (v : Value) (frame : Frame P)
      → parse document ≡ ok v
      → record_of P.json now v ≡ ok frame
      → let q = node.telemetry_queue in
        accept_plaintext P now document node ≡ (
          ok true,
          record node {
            telemetry_queue =
                if leb q.max_capacity (Queue.size q)
                then q
                else record q { items = q.items ++ frame ∷ [] };
          },
        )
  unfolding accept_plaintext queue_parsed Queue.push Queue.size
  accept_plaintext_lem now document node v frame p r =
      rw (parse_and_validate_ok P.json L now document default_data p r) (ground arith)

  module _ (D : IsSqlite P.sqlite) (db : P.sqlite.Db) (st : P.sqlite.Stmt) where
    open D use {view}

    -- From a node at rest, with an empty queue that has room and an open storage engine, a
    -- document whose fields have the right types needs one call and four turns of the worker: its
    -- row is then in the table, if the insertion returned true, and the message of its first
    -- reading, if it has one, is published.
    pub document_served :
        (now a b c d : ℕ) (document : Text) (node : Node P) (v : Value) (frame : Frame P)
        → parse document ≡ ok v
        → record_of P.json now v ≡ ok frame
        → node.phase ≡ testing
        → node.running ≡ true
        → node.telemetry_queue.items ≡ []
        → 0 < node.telemetry_queue.max_capacity
        → IsOpen P.sqlite (doubles P) D db st node.storage_engine
        → (view node.storage_engine.world).pending ≡ none
        → (node' : Node P) × (run P
              (turns P (a ∷ b ∷ c ∷ d ∷ []))
              (accept_plaintext P now document node).1
            ≡ some node')
          × (node'.published ≡ node.published ++ message_of P d frame (reading_of_document P v))
          × ((view node'.storage_engine.world).committed ≡ (
              if (Storage.insert_telemetry P.sqlite (doubles P) frame node.storage_engine).0
              then (view node.storage_engine.world).committed ++ row_of (doubles P) frame ∷ []
              else (view node.storage_engine.world).committed))
          × (node'.telemetry_queue.items ≡ [])
    unfolding run Queue.size
    document_served now a b c d document node v frame p r test up none_queued room o quiet =
        let queued : Node P = record node {
          telemetry_queue = record node.telemetry_queue { items = frame ∷ [] };
        } in
        let accepted : (accept_plaintext P now document node).1 ≡ queued =
          rw (accept_plaintext_lem now document node v frame p r) (rw none_queued (ground arith)) in
        (
          round P d frame [] queued,
          rw accepted (round_lem P a b c d [] queued frame [] test up refl),
          rw (reading_of-record_of P now v frame r) refl,
          insert_telemetry-committed P.sqlite (doubles P) D db st frame node.storage_engine o quiet,
          refl,
        )
