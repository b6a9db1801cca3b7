-- ===== src/Ros/Worker/Order.antt =====
-- First in, first out, from the queue of src/ros/gateway_node.cpp to the storage engine and the
-- topics, whatever else goes on.
use secure_ros2_gateway.Prelude.{
  ℕ, ◌≡◌, refl, ap, sym, ◌∙◌, Bool, true, false, List, [], ◌∷◌, ◌++◌, Option, none, some, arith,
  map, append_assoc, append-nil, map-append, if◌then◌else◌, ◌&&◌,
}
use secure_ros2_gateway.Queue
use secure_ros2_gateway.Storage.Log.{Call, Reply}
use secure_ros2_gateway.Ros.Runtime.{Platform, doubles}
use secure_ros2_gateway.Ros.Reject.{callback_idle}
use secure_ros2_gateway.Ros.{
  Frame, Reading, reading_of, message_of, publish_ros_messages, Phase, testing, popping, exited,
  storing, publishing, Node, Event, receives, works, stops, finishes, step, work, worker_step, stop,
  finish, close_after, run, after_pop,
}
use secure_ros2_gateway.Ros.Worker.{
  Progress, no_progress, progress_of, calls_in, close_calls, inserted_by, and_then, progress,
  taken_in, insertions_in, to_store, to_publish, content, content_of, contents, one_of,
}
use secure_ros2_gateway.Ros.Worker.Calls.{
  Asks, Asked, Asks-and_then, unasked, work-Asked, calls_in-inserted_by, close_after-Asked,
  close_calls-inserted_by,
}

-- Two stretches of a line of waiting things, one behind the other.
relay {ℓ} :
    {A : Type ℓ} (p q r a b c d : List A)
    → p ++ a ≡ b ++ q
    → q ++ c ≡ d ++ r
    → p ++ (a ++ c) ≡ (b ++ d) ++ r
relay p q r a b c d e f =
    sym (append_assoc p a c)
    ∙ ap (λ xs. xs ++ c) e
    ∙ append_assoc b q c
    ∙ ap (λ xs. b ++ xs) f
    ∙ sym (append_assoc b d r)

module _ (P : Platform) where
  abbrev first : Frame P × Bool → Frame P
  first i = i.0

  contents-append :
      (xs ys : List (Frame P)) → contents P (xs ++ ys) ≡ contents P xs ++ contents P ys
  unfolding contents
  contents-append [] ys = refl
  contents-append (x ∷ xs) ys =
      ap (λ t. content_of P x (reading_of P x) ++ t) (contents-append xs ys)
      ∙ sym (append_assoc (content_of P x (reading_of P x)) (contents P xs) (contents P ys))

  pub record Follows (node : Node P) (h : Progress P) : Type 0 where
    pub fifo : node.telemetry_queue.items ≡ h.taken ++ h.node.telemetry_queue.items
    pub inserted :
        to_store P node.phase ++ h.taken ≡ map first h.insertions ++ to_store P h.node.phase
    pub handed_on :
        to_publish P node.phase ++ map first h.insertions ≡ h.handled ++ to_publish P h.node.phase
    pub asks : Asks P node h
    pub shown :
        map (content P) h.node.published ≡ map (content P) node.published ++ contents P h.handled

  Follows-and_then :
      (node : Node P) (s r : Progress P)
      → Follows node s
      → Follows s.node r
      → Follows node (and_then P s r)
  Follows-and_then node s r f g = record {
    fifo = f.fifo ∙ ap (λ t. s.taken ++ t) g.fifo ∙ sym (append_assoc s.taken r.taken _);
    inserted = rw map-append (
        relay (to_store P node.phase) (to_store P s.node.phase) (to_store P r.node.phase) s.taken
          (map first s.insertions) r.taken (map first r.insertions) f.inserted g.inserted);
    handed_on = rw map-append (
        relay (to_publish P node.phase) (to_publish P s.node.phase) (to_publish P r.node.phase)
          (map first s.insertions) s.handled (map first r.insertions) r.handled f.handed_on
          g.handed_on);
    asks = Asks-and_then P node s r f.asks g.asks;
    shown =
        g.shown
        ∙ ap (λ t. t ++ contents P r.handled) f.shown
        ∙ append_assoc _ (contents P s.handled) (contents P r.handled)
        ∙ ap (λ t. map (content P) node.published ++ t) (sym (contents-append s.handled r.handled));
  }

  pub map-message_of :
      (now : ℕ) (frame : Frame P) (r : Option (Reading P))
      → map (content P) (message_of P now frame r) ≡ content_of P frame r
  map-message_of now frame none = refl
  map-message_of now frame (some reading) = refl

  test_phase :
      (b : Bool)
      → (to_store P (if b then popping else exited) ≡ [])
        × (to_publish P (if b then popping else exited) ≡ [])
  test_phase true = (refl, refl)
  test_phase false = (refl, refl)

  after_pop_phase :
      (o : Option (Frame P))
      → (to_store P (after_pop P o) ≡ one_of P o) × (to_publish P (after_pop P o) ≡ [])
  after_pop_phase none = (refl, refl)
  after_pop_phase (some frame) = (refl, refl)

  pop_items :
      (q : Queue.Queue (Frame P)) → q.items ≡ one_of P (Queue.pop q).0 ++ (Queue.pop q).1.items
  unfolding Queue.pop
  pop_items q = ground arith

  -- An event in which the worker does nothing. Only the destructor calls the engine then.
  quiet-Follows :
      (node node' : Node P) (calls : List (Call (doubles P) × Reply (doubles P)))
      → node'.telemetry_queue ≡ node.telemetry_queue
      → node'.phase ≡ node.phase
      → node'.published ≡ node.published
      → Asked P calls node.storage_engine node'.storage_engine
      → inserted_by P calls ≡ []
      → Follows node
          (record { taken = []; insertions = []; handled = []; calls = calls; node = node' })
  unfolding contents
  quiet-Follows node node' calls q p s a i = record {
    fifo = rw q;
    inserted = rw p (append-nil _);
    handed_on = rw p (append-nil _);
    asks = record { engine = a; among = i };
    shown = rw s (sym (append-nil _));
  }

  working :
      (p : Phase P) (now : ℕ) (ros_ok : Bool) (node : Node P)
      → Asks P node (record {
        taken = taken_in P p node;
        insertions = insertions_in P p node;
        handled = to_publish P p;
        calls = calls_in P p node;
        node = work P p now ros_ok node;
      })
  working p now ros_ok node = record {
    engine = work-Asked P p now ros_ok node;
    among = calls_in-inserted_by P p node;
  }

  work-Follows :
      (p : Phase P) (now : ℕ) (ros_ok : Bool) (node : Node P)
      → node.phase ≡ p
      → Follows node (record {
        taken = taken_in P p node;
        insertions = insertions_in P p node;
        handled = to_publish P p;
        calls = calls_in P p node;
        node = work P p now ros_ok node;
      })
  unfolding work publish_ros_messages contents
  work-Follows testing now ros_ok node e = record {
    asks = working testing now ros_ok node;
    fifo = refl;
    inserted = rw e (sym (test_phase (node.running && ros_ok)).0);
    handed_on = rw e (sym (test_phase (node.running && ros_ok)).1);
    shown = sym (append-nil _);
  }
  work-Follows popping now ros_ok node e = record {
    asks = working popping now ros_ok node;
    fifo = pop_items node.telemetry_queue;
    inserted = rw e (sym (after_pop_phase (Queue.pop node.telemetry_queue).0).0);
    handed_on = rw e (sym (after_pop_phase (Queue.pop node.telemetry_queue).0).1);
    shown = sym (append-nil _);
  }
  work-Follows (storing frame) now ros_ok node e = record {
    asks = working (storing frame) now ros_ok node;
    fifo = refl;
    inserted = rw e refl;
    handed_on = rw e refl;
    shown = sym (append-nil _);
  }
  work-Follows (publishing frame) now ros_ok node e = record {
    asks = working (publishing frame) now ros_ok node;
    fifo = refl;
    inserted = rw e refl;
    handed_on = rw e refl;
    shown =
        map-append (content P) node.published (message_of P now frame (reading_of P frame))
        ∙ ap (λ t. map (content P) node.published ++ t)
            (map-message_of now frame (reading_of P frame) ∙ sym (append-nil _));
  }
  work-Follows exited now ros_ok node e =
      quiet-Follows node node [] refl refl refl (unasked P node node refl) refl

  close_after_kept :
      (p : Phase P) (node : Node P)
      → ((close_after P p node).telemetry_queue ≡ node.telemetry_queue)
        × ((close_after P p node).phase ≡ node.phase)
        × ((close_after P p node).published ≡ node.published)
  close_after_kept exited node = (refl, refl, refl)
  close_after_kept _ node = (refl, refl, refl)

  pub step-Follows :
      (e : Event P) (node : Node P)
      → (node' : Node P) × (step P e node ≡ some node') × Follows node (progress_of P e node node')
  unfolding step worker_step stop finish
  step-Follows (receives ctx now msg) node = (
    node,
    callback_idle P ctx now msg node,
    quiet-Follows node node [] refl refl refl (unasked P node node refl) refl,
  )
  step-Follows (works now ros_ok) node =
      (worker_step P now ros_ok node, refl, work-Follows node.phase now ros_ok node refl)
  step-Follows stops node = (
    stop P node,
    refl,
    quiet-Follows node (stop P node) [] refl refl refl (unasked P node (stop P node) refl) refl,
  )
  step-Follows finishes node =
      let (q, p, s) = close_after_kept node.phase node in
      (
        finish P node,
        refl,
        quiet-Follows node (finish P node) (close_calls P node.phase) q p s
            (close_after-Asked P node.phase node) (close_calls-inserted_by P node.phase),
      )

  -- Over any sequence of events, from any node, no call faults, and the frames go through in
  -- order: those taken from the queue are its first ones; the storage engine at the end is what a
  -- list of calls, one after the other, makes of the one at the start, with the replies listed, and
  -- the insertions among those calls are of each frame taken, once and in that order, but for the
  -- one that waits for its insertion; each inserted frame is handed to publication in that order,
  -- whether its insertion returned true or not, but for the one that waits for it; and the messages
  -- published are those of the frames handed on.
  pub progress-Follows :
      (es : List (Event P)) (node : Node P)
      → (h : Progress P) × (progress P es node ≡ some h)
        × (run P es node ≡ some h.node)
        × Follows node h
  unfolding progress run
  progress-Follows [] node = (
    no_progress P node,
    refl,
    refl,
    quiet-Follows node node [] refl refl refl (unasked P node node refl) refl,
  )
  progress-Follows (e ∷ es) node =
      let (node', stepped, now) = step-Follows e node in
      let (rest, kept, ran, later) = progress-Follows es node' in
      (
        and_then P (progress_of P e node node') rest,
        rw (stepped, kept) refl,
        rw stepped ran,
        Follows-and_then node (progress_of P e node node') rest now later,
      )
