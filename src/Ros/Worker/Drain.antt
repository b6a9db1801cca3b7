-- ===== src/Ros/Worker/Drain.antt =====
-- The worker of src/ros/gateway_node.cpp empties its queue: how many turns it takes.
use secure_ros2_gateway.Prelude.{
  ℕ, ◌*◌, ◌≡◌, refl, ap, sym, ◌∙◌, true, List, [], ◌∷◌, ◌++◌, some, arith, map, append_assoc,
  append-nil, map-append, length,
}
use secure_ros2_gateway.Queue
use secure_ros2_gateway.Storage
use secure_ros2_gateway.Storage.{Engine}
use secure_ros2_gateway.Storage.Log.{inserts, call_engine, call_all}
use secure_ros2_gateway.Ros.Runtime.{Platform, doubles}
use secure_ros2_gateway.Ros.{
  Frame, reading_of, message_of, publish_ros_messages, testing, popping, storing, publishing, Node,
  Event, works, step, work, worker_step, run,
}
use secure_ros2_gateway.Ros.Worker.{content, contents}
use secure_ros2_gateway.Ros.Worker.Order.{map-message_of}

module _ (P : Platform) where
  -- Turns of the worker alone, at the times that the clock shows, while ROS is up.
  abbrev pub turns : List ℕ → List (Event P)
  turns clocks = map (λ now. works now true) clocks

  -- The node when the worker has gone once round its loop with the frame at the front.
  abbrev pub round : ℕ → Frame P → List (Frame P) → Node P → Node P
  round now frame rest node = record node {
    storage_engine = (Storage.insert_telemetry P.sqlite (doubles P) frame node.storage_engine).1;
    telemetry_queue = record node.telemetry_queue { items = rest };
    phase = testing;
    published = node.published ++ message_of P now frame (reading_of P frame);
  }

  testing_step :
      (now : ℕ) (node : Node P)
      → node.phase ≡ testing
      → node.running ≡ true
      → step P (works now true) node ≡ some (record node { phase = popping })
  unfolding step worker_step work
  testing_step now node p r = simp (p, r)

  pop_front :
      (q : Queue.Queue (Frame P)) (frame : Frame P) (rest : List (Frame P))
      → q.items ≡ frame ∷ rest
      → Queue.pop q ≡ (some frame, record q { items = rest })
  unfolding Queue.pop
  pop_front q frame rest e = ground (arith, e)

  popping_step :
      (now : ℕ) (node : Node P) (frame : Frame P) (rest : List (Frame P))
      → node.phase ≡ popping
      → node.telemetry_queue.items ≡ frame ∷ rest
      → step P (works now true) node
        ≡ some (record node {
          telemetry_queue = record node.telemetry_queue { items = rest };
          phase = storing frame;
        })
  unfolding step worker_step work
  popping_step now node frame rest p q =
      rw p (rw (pop_front node.telemetry_queue frame rest q) refl)

  storing_step :
      (now : ℕ) (node : Node P) (frame : Frame P)
      → node.phase ≡ storing frame
      → step P (works now true) node
        ≡ some (record node {
          storage_engine =
              (Storage.insert_telemetry P.sqlite (doubles P) frame node.storage_engine).1;
          phase = publishing frame;
        })
  unfolding step worker_step work
  storing_step now node frame p = rw p refl

  publishing_step :
      (now : ℕ) (node : Node P) (frame : Frame P)
      → node.phase ≡ publishing frame
      → step P (works now true) node
        ≡ some (record node {
          phase = testing;
          published = node.published ++ message_of P now frame (reading_of P frame);
        })
  unfolding step worker_step work publish_ros_messages
  publishing_step now node frame p = rw p refl

  -- Once round the loop takes four turns.
  pub round_lem :
      (a b c d : ℕ) (es : List (Event P)) (node : Node P) (frame : Frame P) (rest : List (Frame P))
      → node.phase ≡ testing
      → node.running ≡ true
      → node.telemetry_queue.items ≡ frame ∷ rest
      → run P (works a true ∷ works b true ∷ works c true ∷ works d true ∷ es) node
        ≡ run P es (round d frame rest node)
  unfolding run
  round_lem a b c d es node frame rest p r q =
      let n1 : Node P = record node { phase = popping } in
      let n2 : Node P = record n1 {
        telemetry_queue = record node.telemetry_queue { items = rest };
        phase = storing frame;
      } in
      let n3 : Node P = record n2 {
        storage_engine =
            (Storage.insert_telemetry P.sqlite (doubles P) frame node.storage_engine).1;
        phase = publishing frame;
      } in
      rw (testing_step a node p r) (
        rw (popping_step b n1 frame rest refl q)
          (rw (storing_step c n2 frame refl) (rw (publishing_step d n3 frame refl) refl)))

  -- The storage engine after insertions alone.
  abbrev pub after_inserts :
      List (Frame P) → Engine P.sqlite (doubles P) → Engine P.sqlite (doubles P)
  after_inserts frames e = (call_all (doubles P) P.sqlite (map inserts frames) e).1

  pub record IsDrained (frames : List (Frame P)) (node node' : Node P) : Type 0 where
    pub empty : node'.telemetry_queue.items ≡ []
    pub ready : node'.phase ≡ testing
    pub running : node'.running ≡ true
    pub inserted : node'.storage_engine ≡ after_inserts frames node.storage_engine
    pub shown :
        map (content P) node'.published ≡ map (content P) node.published ++ contents P frames

  pub drain :
      (frames : List (Frame P)) (clocks : List ℕ) (node : Node P)
      → length clocks ≡ 4 * length frames
      → node.phase ≡ testing
      → node.running ≡ true
      → node.telemetry_queue.items ≡ frames
      → (node' : Node P) × (run P (turns clocks) node ≡ some node') × IsDrained frames node node'
  unfolding run contents call_all call_engine
  drain [] [] node n p r q = (
    node,
    refl,
    record { empty = q; ready = p; running = r; inserted = refl; shown = sym (append-nil _) },
  )
  drain [] (a ∷ clocks) node n p r q = absurd (omega arith)
  drain (frame ∷ frames) (a ∷ b ∷ c ∷ d ∷ clocks) node n p r q =
      let once = round d frame frames node in
      let (node', ran, done) = drain frames clocks once (omega arith) refl r refl in
      (
        node',
        round_lem a b c d (turns clocks) node frame frames p r q ∙ ran,
        record {
          empty = done.empty;
          ready = done.ready;
          running = done.running;
          inserted = done.inserted;
          shown =
              done.shown
              ∙ ap (λ t. t ++ contents P frames)
                  (map-append (content P) node.published (message_of P d frame (reading_of P frame))
                    ∙ ap (λ t. map (content P) node.published ++ t)
                        (map-message_of P d frame (reading_of P frame)))
              ∙ append_assoc (map (content P) node.published) _ (contents P frames);
        },
      )
  drain (frame ∷ frames) _ node n p r q = absurd (omega arith)

  -- While the node runs, a worker at its test has emptied the queue after four turns for each
  -- frame in it, if nothing else happens in between: it has then handed all these frames to
  -- insert_telemetry and published their messages, in order, and is back at its test.
  pub worker_drains :
      (clocks : List ℕ) (node : Node P)
      → length clocks ≡ 4 * length node.telemetry_queue.items
      → node.phase ≡ testing
      → node.running ≡ true
      → (node' : Node P) × (run P (turns clocks) node ≡ some node')
        × IsDrained node.telemetry_queue.items node node'
  worker_drains clocks node n p r = drain node.telemetry_queue.items clocks node n p r refl
