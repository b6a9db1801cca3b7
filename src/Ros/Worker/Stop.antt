-- ===== src/Ros/Worker/Stop.antt =====
-- The destructor of src/ros/gateway_node.cpp: its join does not wait for ever.
use secure_ros2_gateway.Prelude.{
  ℕ, ◌+◌, ◌-◌, ◌≤◌, ◌≡◌, ◌⊎◌, inl, inr, refl, ap, ◌∙◌, Bool, false, List, [], ◌∷◌, ◌++◌, none, some,
  arith,
}
use secure_ros2_gateway.Queue
use secure_ros2_gateway.Storage
use secure_ros2_gateway.Storage.Lifecycle.{close_flags}
use secure_ros2_gateway.Ros.Runtime.{Platform, doubles}
use secure_ros2_gateway.Ros.Reject.{callback_idle}
use secure_ros2_gateway.Ros.{
  Frame, publish_ros_messages, Phase, testing, popping, exited, storing, publishing, Node, Event,
  receives, works, stops, finishes, step, work, worker_step, stop, finish, close_after, run,
}

module _ (P : Platform) where
  abbrev pub turns_in : List (Event P) → ℕ
  turns_in [] = 0
  turns_in (works now ros_ok ∷ es) = 1 + turns_in es
  turns_in (_ ∷ es) = turns_in es

  -- The turns that the worker still needs once `running_` is false.
  abbrev pub turns_left : Phase P → ℕ
  turns_left popping = 4
  turns_left (storing frame) = 3
  turns_left (publishing frame) = 2
  turns_left testing = 1
  turns_left exited = 0

  -- What becomes of the queue: a worker that is about to pop takes the first frame, if there is one,
  -- and no other phase takes any.
  abbrev pub Leaves : Phase P → List (Frame P) → List (Frame P) → Type 0
  Leaves popping items rest =
      ((items ≡ []) × (rest ≡ [])) ⊎ ((frame : Frame P) × (items ≡ frame ∷ rest))
  Leaves _ items rest = rest ≡ items

  items_cases :
      (items : List (Frame P))
      → (items ≡ []) ⊎ ((frame : Frame P) × (rest : List (Frame P)) × (items ≡ frame ∷ rest))
  items_cases [] = inl refl
  items_cases (frame ∷ rest) = inr (frame, rest, refl)

  record Moves (node node' : Node P) (turns : ℕ) : Type 0 where
    stopped : node'.running ≡ false
    closer : turns_left node'.phase ≤ turns_left node.phase - turns
    leaves :
        (rest : List (Frame P))
        → Leaves node'.phase node'.telemetry_queue.items rest
        → Leaves node.phase node.telemetry_queue.items rest

  unmoved :
      (node node' : Node P)
      → node'.running ≡ false
      → node'.phase ≡ node.phase
      → node'.telemetry_queue ≡ node.telemetry_queue
      → Moves node node' 0
  unmoved node node' r p q = record {
    stopped = r;
    closer = rw p (omega arith);
    leaves = λ rest h. rw (p, q) at h;
  }

  pop_cases :
      (q : Queue.Queue (Frame P))
      → ((q.items ≡ []) × (Queue.pop q ≡ (none, q)))
        ⊎ ((frame : Frame P) × (rest : List (Frame P)) × (q.items ≡ frame ∷ rest)
            × (Queue.pop q ≡ (some frame, record q { items = rest })))
  unfolding Queue.pop
  pop_cases q = elim (items_cases q.items) [
    | inl e ↦ inl (e, ground arith)
    | inr (frame, rest, e) ↦ inr (frame, rest, e, ground arith)
  ]

  close_after_lem :
      (p : Phase P) (node : Node P)
      → ((close_after P p node).running ≡ node.running)
        × ((close_after P p node).phase ≡ node.phase)
        × ((close_after P p node).telemetry_queue ≡ node.telemetry_queue)
  close_after_lem exited node = (refl, refl, refl)
  close_after_lem _ node = (refl, refl, refl)

  work-Moves :
      (p : Phase P) (now : ℕ) (ros_ok : Bool) (node : Node P)
      → node.phase ≡ p
      → node.running ≡ false
      → Moves node (work P p now ros_ok node) 1
  unfolding work publish_ros_messages
  work-Moves testing now ros_ok node e r =
      let off : (work P testing now ros_ok node).phase ≡ exited = simp r in
      record {
        stopped = r;
        closer = rw (off, e) (omega arith);
        leaves = λ rest h. rw e (rw off at h);
      }
  work-Moves popping now ros_ok node e r = elim (pop_cases node.telemetry_queue) [
    | inl (empty, nothing) ↦ rw nothing (record {
      stopped = r;
      closer = rw e (omega arith);
      leaves = λ rest h. rw e (inl (empty, h ∙ empty));
    })
    | inr (frame, rest, items, taken) ↦ rw taken (record {
      stopped = r;
      closer = rw e (omega arith);
      leaves = λ left h. rw e (inr (frame, rw h items));
    })
  ]
  work-Moves exited now ros_ok node e r = record {
    stopped = r;
    closer = rw e (omega arith);
    leaves = λ rest h. h;
  }
  work-Moves (storing frame) now ros_ok node e r = record {
    stopped = r;
    closer = rw e (omega arith);
    leaves = λ rest h. rw e h;
  }
  work-Moves (publishing frame) now ros_ok node e r = record {
    stopped = r;
    closer = rw e (omega arith);
    leaves = λ rest h. rw e h;
  }

  abbrev turns_of : Event P → ℕ
  turns_of (works now ros_ok) = 1
  turns_of _ = 0

  step-Moves :
      (e : Event P) (node : Node P)
      → node.running ≡ false
      → (node' : Node P) × (step P e node ≡ some node') × Moves node node' (turns_of e)
  unfolding step worker_step stop finish
  step-Moves (receives ctx now msg) node r =
      (node, callback_idle P ctx now msg node, unmoved node node r refl refl)
  step-Moves (works now ros_ok) node r =
      (worker_step P now ros_ok node, refl, work-Moves node.phase now ros_ok node refl r)
  step-Moves stops node r = (stop P node, refl, unmoved node (stop P node) refl refl refl)
  step-Moves finishes node r =
      let (same, phase, queue) = close_after_lem node.phase node in
      (finish P node, refl, unmoved node (finish P node) (same ∙ r) phase queue)

  turns_in-cons : (e : Event P) (es : List (Event P)) → turns_in (e ∷ es) ≡ turns_of e + turns_in es
  turns_in-cons (receives ctx now msg) es = omega arith
  turns_in-cons (works now ros_ok) es = refl
  turns_in-cons stops es = omega arith
  turns_in-cons finishes es = omega arith

  run-Moves :
      (es : List (Event P)) (node : Node P)
      → node.running ≡ false
      → (node' : Node P) × ((fs : List (Event P)) → run P (es ++ fs) node ≡ run P fs node')
        × Moves node node' (turns_in es)
  unfolding run
  run-Moves [] node r = (node, λ fs. refl, unmoved node node r refl refl)
  run-Moves (e ∷ es) node r =
      let (node', stepped, m) = step-Moves e node r in
      let (last, ran, n) = run-Moves es node' m.stopped in
      (
        last,
        λ fs. rw stepped (ran fs),
        record {
          stopped = n.stopped;
          closer = omega (arith, m.closer, n.closer, turns_in-cons e es);
          leaves = λ rest h. m.leaves rest (n.leaves rest h);
        },
      )

  finish_exited :
      (node : Node P)
      → node.phase ≡ exited
      → finish P node
        ≡ record node { storage_engine = Storage.close P.sqlite (doubles P) node.storage_engine }
  unfolding finish
  finish_exited node e = simp e

  at_most_four : (p : Phase P) → turns_left p ≤ 4
  at_most_four testing = omega arith
  at_most_four popping = omega arith
  at_most_four exited = omega arith
  at_most_four (storing frame) = omega arith
  at_most_four (publishing frame) = omega arith

  none_left : (p : Phase P) → turns_left p ≤ 0 → p ≡ exited
  none_left testing h = absurd (omega arith)
  none_left popping h = absurd (omega arith)
  none_left exited h = refl
  none_left (storing frame) h = absurd (omega arith)
  none_left (publishing frame) h = absurd (omega arith)

  -- How a node ends.
  pub record HasEnded (node last : Node P) : Type 0 where
    pub joined : last.phase ≡ exited
    pub off : last.storage_engine.is_initialized ≡ false
    pub no_db : last.storage_engine.db ≡ none
    pub no_stmt : last.storage_engine.insert_stmt ≡ none
    pub queue_left : Leaves node.phase node.telemetry_queue.items last.telemetry_queue.items

  -- The destructor comes to its end: once it has cleared `running_`, four more turns of the worker
  -- are enough, whatever messages come in between; then the join returns, and the storage engine
  -- is closed with no handle left. Of the frames queued at that time the worker takes the first
  -- one, if there is one, when it is about to pop, and none otherwise; the others stay in the queue
  -- and are lost.
  pub stop_ends :
      (es : List (Event P)) (node : Node P)
      → 4 ≤ turns_in es
      → (last : Node P) × (run P (stops ∷ es ++ finishes ∷ []) node ≡ some last)
        × HasEnded node last
  unfolding run step stop
  stop_ends es node enough =
      let (idle, ran, m) = run-Moves es (stop P node) refl in
      let out = none_left idle.phase (omega (arith, m.closer, at_most_four node.phase)) in
      let (_, off, no_db, no_stmt) = close_flags P.sqlite (doubles P) idle.storage_engine in
      (
        record idle { storage_engine = Storage.close P.sqlite (doubles P) idle.storage_engine },
        ran (finishes ∷ []) ∙ ap some (finish_exited idle out),
        record {
          joined = out;
          off = off;
          no_db = no_db;
          no_stmt = no_stmt;
          queue_left = m.leaves idle.telemetry_queue.items (rw out refl);
        },
      )
