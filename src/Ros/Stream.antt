-- ===== src/Ros/Stream.antt =====
-- Decrypted documents on their way through src/ros/gateway_node.cpp, one after the other.
use secure_ros2_gateway.Prelude.{
  ℕ, suc, ◌+◌, ◌*◌, ◌<◌, ◌≤◌, ◌≡◌, refl, ap, sym, ◌∙◌, true, List, [], ◌∷◌, ◌++◌, map, length,
  length-append, some, none, arith, append_assoc, append-nil,
}
use secure_ros2_gateway.Prelude.Text.{Text}
use secure_ros2_gateway.Json.{IsJson, ok}
use secure_ros2_gateway.Ingestion.Record.{record_of}
use secure_ros2_gateway.Queue
use secure_ros2_gateway.Storage.{Engine}
use secure_ros2_gateway.Storage.Sqlite.{IsSqlite, Row}
use secure_ros2_gateway.Storage.Rows.{IsOpen}
use secure_ros2_gateway.Storage.Outcomes.{at_rest, rest_of}
use secure_ros2_gateway.Storage.Log.{inserts, serving, call_engine, call_all}
use secure_ros2_gateway.Storage.Log.Refines.{call_all-Refined, Represents-rows}
use secure_ros2_gateway.Storage.Log.Grows.{stored_in, NoneRefused, Allows-stored_in}
use secure_ros2_gateway.Ros.Runtime.{Platform, doubles}
use secure_ros2_gateway.Ros.Publish.{reading_of_document, reading_of-record_of}
use secure_ros2_gateway.Ros.Pipeline.{accept_plaintext_lem}
use secure_ros2_gateway.Ros.Worker.{content, content_of, contents}
use secure_ros2_gateway.Ros.Worker.Drain.{turns, drain, after_inserts}
use secure_ros2_gateway.Ros.{Frame, Reading, testing, Node, accept_plaintext, run}

module _ (P : Platform) where
  open P.json use {Value, parse}

  -- A document with the time at which it comes, its value and its frame.
  pub record Document : Type 0 where
    pub now : ℕ
    pub source : Text
    pub value : Value
    pub frame : Frame P

  -- It is well-formed, and its fields have the right types.
  abbrev pub IsTyped : Document → Type 0
  IsTyped d = (parse d.source ≡ ok d.value) × (record_of P.json d.now d.value ≡ ok d.frame)

  abbrev pub AreTyped : List Document → Type 0
  AreTyped [] = Unit
  AreTyped (d ∷ ds) = IsTyped d × AreTyped ds

  abbrev pub accept_all : List Document → Node P → Node P
  accept_all [] node = node
  accept_all (d ∷ ds) node = accept_all ds (accept_plaintext P d.now d.source node).1

  abbrev pub frames_of : List Document → List (Frame P)
  frames_of ds = map (λ d. d.frame) ds

  length-frames_of : (ds : List Document) → length (frames_of ds) ≡ length ds
  length-frames_of [] = refl
  length-frames_of (d ∷ ds) = ap suc (length-frames_of ds)

  -- The robot and the first reading of each document that has one.
  abbrev pub readings_of : List Document → List (Text × Reading P)
  readings_of [] = []
  readings_of (d ∷ ds) = content_of P d.frame (reading_of_document P d.value) ++ readings_of ds

  contents-frames_of :
      (ds : List Document) → AreTyped ds → contents P (frames_of ds) ≡ readings_of ds
  unfolding contents
  contents-frames_of [] typed = refl
  contents-frames_of (d ∷ ds) (typed, others) =
      rw (reading_of-record_of P d.now d.value d.frame typed.1, contents-frames_of ds others) refl

  -- The node with frames at the back of its queue.
  abbrev with_items : List (Frame P) → Node P → Node P
  with_items items node = record node {
    telemetry_queue = record node.telemetry_queue { items = items };
  }

  abbrev queued : List (Frame P) → Node P → Node P
  queued frames node = with_items (node.telemetry_queue.items ++ frames) node

  module _ (L : IsJson P.json) where
    accept_one :
        (d : Document) (node : Node P)
        → IsTyped d
        → length node.telemetry_queue.items < node.telemetry_queue.max_capacity
        → (accept_plaintext P d.now d.source node).1 ≡ queued (d.frame ∷ []) node
    unfolding Queue.size
    accept_one d node typed room =
        rw (accept_plaintext_lem P L d.now d.source node d.value d.frame typed.0 typed.1)
          (ground arith)

    accept_all_lem :
        (ds : List Document) (node : Node P)
        → AreTyped ds
        → length node.telemetry_queue.items + length ds ≤ node.telemetry_queue.max_capacity
        → accept_all ds node ≡ queued (frames_of ds) node
    accept_all_lem [] node typed room =
        ap (λ items. with_items items node) (sym (append-nil node.telemetry_queue.items))
    accept_all_lem (d ∷ ds) node (typed, others) room =
        let once = queued (d.frame ∷ []) node in
        ap (accept_all ds) (accept_one d node typed (omega (arith, room)))
        ∙ accept_all_lem ds once others
            (omega (arith, room, length-append node.telemetry_queue.items (d.frame ∷ [])))
        ∙ ap (λ items. with_items items node)
            (append_assoc node.telemetry_queue.items (d.frame ∷ []) (frames_of ds))

  -- A storage engine that takes insertions alone refuses no batch.
  none_refused :
      (frames : List (Frame P)) (e : Engine P.sqlite (doubles P))
      → NoneRefused (doubles P) (call_all (doubles P) P.sqlite (map inserts frames) e).0
  unfolding call_all call_engine
  none_refused [] e = tt
  none_refused (frame ∷ frames) e = (λ h. h, none_refused frames _)

  module _ (D : IsSqlite P.sqlite) (db : P.sqlite.Db) (st : P.sqlite.Stmt) where
    open D use {view}

    inserts_stored :
        (frames : List (Frame P)) (e : Engine P.sqlite (doubles P)) (rows : List Row)
        → IsOpen P.sqlite (doubles P) D db st e
        → view e.world ≡ at_rest rows
        → (view (after_inserts P frames e).world).committed
          ≡ rows ++ stored_in (doubles P) (call_all (doubles P) P.sqlite (map inserts frames) e).0
    inserts_stored frames e rows o v =
        let (last, allows, r) =
          call_all-Refined P.sqlite (doubles P) D (map inserts frames) (serving rows) e
            (db, st, o, v) in
        Represents-rows P.sqlite (doubles P) D _ last r
        ∙ Allows-stored_in (doubles P) _ (serving rows) last tt allows (none_refused frames e)

    -- Documents on their way through the node. A node is at rest, with an empty queue that has
    -- room for them and an open storage engine outside a transaction. Documents whose fields have
    -- the right types come one after the other; four turns of the worker for each of them then
    -- empty the queue. The messages published are those of the documents' first readings, in the
    -- order of the documents, and the table has grown by the rows of those insertions that
    -- returned true, in that order.
    pub documents_served :
        (L : IsJson P.json) (ds : List Document) (clocks : List ℕ) (node : Node P)
        → AreTyped ds
        → length clocks ≡ 4 * length ds
        → node.phase ≡ testing
        → node.running ≡ true
        → node.telemetry_queue.items ≡ []
        → length ds ≤ node.telemetry_queue.max_capacity
        → IsOpen P.sqlite (doubles P) D db st node.storage_engine
        → (view node.storage_engine.world).pending ≡ none
        → let calls = map inserts (frames_of ds) in
          (node' : Node P) × (run P (turns P clocks) (accept_all ds node) ≡ some node')
          × (map (content P) node'.published ≡ map (content P) node.published ++ readings_of ds)
          × ((view node'.storage_engine.world).committed
              ≡ (view node.storage_engine.world).committed
                ++ stored_in
                    (doubles P)
                    (call_all (doubles P) P.sqlite calls node.storage_engine).0)
          × (node'.telemetry_queue.items ≡ [])
          × (node'.phase ≡ testing)
    documents_served L ds clocks node typed enough test up none_queued room o quiet =
        let frames = frames_of ds in
        let full = queued frames node in
        let items : full.telemetry_queue.items ≡ frames = rw none_queued refl in
        let accepted =
          accept_all_lem L ds node typed (omega (arith, room, ap length none_queued)) in
        let (node', ran, done) =
          drain P frames clocks full (omega (arith, enough, length-frames_of ds)) test up items in
        (
          node',
          rw accepted ran,
          done.shown ∙ ap (λ t. map (content P) node.published ++ t) (contents-frames_of ds typed),
          rw done.inserted (inserts_stored frames node.storage_engine _ o (rest_of _ quiet)),
          done.empty,
          done.ready,
        )
