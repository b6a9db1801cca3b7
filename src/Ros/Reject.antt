-- ===== src/Ros/Reject.antt =====
-- process_incoming_raw_payload of src/ros/gateway_node.cpp hands decrypt_aes_gcm its arguments in
-- the order of the documentation in security_engine.hpp, and the definition in
-- security_engine.cpp takes them in another order.
use secure_ros2_gateway.Prelude.{
  ℕ, ◌≡◌, ◌≢◌, refl, ◌⊎◌, inl, inr, Bool, true, false, ◌&&◌, if◌then◌else◌, List, [], ◌∷◌, Option,
  some, arith, length,
}
use secure_ros2_gateway.Prelude.Text.{Text}
use secure_ros2_gateway.Json.{Except, ok, raised}
use secure_ros2_gateway.Queue
use secure_ros2_gateway.Security.{check_rate_limit}
use secure_ros2_gateway.Security.Gcm.{decrypt_aes_gcm_guard}
use secure_ros2_gateway.Storage
use secure_ros2_gateway.Storage.{Engine}
use secure_ros2_gateway.Storage.Lifecycle.{close-close}
use secure_ros2_gateway.Ros.Runtime.{Platform, doubles}
use secure_ros2_gateway.Ros.Incoming.{Envelope, read_envelope}
use secure_ros2_gateway.Ros.{
  pre_shared_key, Phase, testing, popping, exited, storing, publishing, Node, Overrides, construct,
  work, close_after, process_incoming_raw_payload, receive, raw_telemetry_callback, worker_step,
  stop, finish, Event, receives, works, stops, finishes, step, run,
}

key-length : length pre_shared_key ≢ 12
key-length h = omega arith

module _ (P : Platform) where
  -- Every packet is refused, whoever sends it and whatever OpenSSL and the JSON library do: the
  -- 32 bytes of the key stand where an IV of 12 is wanted. Nothing of the node changes.
  pub process_incoming_raw_payload_refuses :
      (ctx : Option P.evp.Ctx) (now : ℕ) (e : Envelope) (node : Node P)
      → process_incoming_raw_payload P ctx now e node ≡ some (ok false, node)
  unfolding process_incoming_raw_payload check_rate_limit
  process_incoming_raw_payload_refuses ctx now e node =
      rw
        (decrypt_aes_gcm_guard P.evp ctx e.ciphertext e.tag pre_shared_key e.iv []
          (inr (inl key-length)))
        refl

  receive_lem :
      (ctx : Option P.evp.Ctx) (now : ℕ) (r : Except Envelope) (node : Node P)
      → receive P ctx now r node ≡ some node
  unfolding receive
  receive_lem ctx now (ok e) node = rw (process_incoming_raw_payload_refuses ctx now e node) refl
  receive_lem ctx now (raised x) node = refl

  pub callback_idle :
      (ctx : Option P.evp.Ctx) (now : ℕ) (msg : Text) (node : Node P)
      → raw_telemetry_callback P ctx now msg node ≡ some node
  unfolding raw_telemetry_callback
  callback_idle ctx now msg node = receive_lem ctx now (read_envelope P.json msg) node

  -- The worker holds no frame.
  abbrev pub Waits : Phase P → Type 0
  Waits (storing frame) = ⊥
  Waits (publishing frame) = ⊥
  Waits _ = Unit

  pub record IsIdle (engine : Engine P.sqlite (doubles P)) (node : Node P) : Type 0 where
    pub empty : node.telemetry_queue.items ≡ []
    pub silent : node.published ≡ []
    pub waits : Waits node.phase
    pub engine_kept :
        (node.storage_engine ≡ engine)
        ⊎ (node.storage_engine ≡ Storage.close P.sqlite (doubles P) engine)

  module _ (engine : Engine P.sqlite (doubles P)) where
    test-Waits : (b : Bool) → Waits (if b then popping else exited)
    test-Waits true = tt
    test-Waits false = tt

    work-IsIdle :
        (p : Phase P) (now : ℕ) (ros_ok : Bool) (node : Node P)
        → Waits p
        → IsIdle engine node
        → IsIdle engine (work P p now ros_ok node)
    unfolding work Queue.pop
    work-IsIdle testing now ros_ok node w h = record {
      empty = h.empty;
      silent = h.silent;
      waits = test-Waits (node.running && ros_ok);
      engine_kept = h.engine_kept;
    }
    work-IsIdle popping now ros_ok node w h = record {
      empty = ground (arith, h.empty);
      silent = h.silent;
      waits = rw h.empty tt;
      engine_kept = h.engine_kept;
    }
    work-IsIdle (storing frame) now ros_ok node w h = elim w [ ]
    work-IsIdle (publishing frame) now ros_ok node w h = elim w [ ]
    work-IsIdle exited now ros_ok node w h = h

    worker_step-IsIdle :
        (now : ℕ) (ros_ok : Bool) (node : Node P)
        → IsIdle engine node
        → IsIdle engine (worker_step P now ros_ok node)
    unfolding worker_step
    worker_step-IsIdle now ros_ok node h = work-IsIdle node.phase now ros_ok node h.waits h

    close_after-IsIdle :
        (p : Phase P) (node : Node P) → IsIdle engine node → IsIdle engine (close_after P p node)
    close_after-IsIdle exited node h = record {
      empty = h.empty;
      silent = h.silent;
      waits = h.waits;
      engine_kept = elim h.engine_kept [
        | inl same ↦ inr (rw same)
        | inr closed ↦ inr (rw closed (close-close P.sqlite (doubles P) engine))
      ];
    }
    close_after-IsIdle _ node h = h

    step-IsIdle :
        (e : Event P) (node : Node P)
        → IsIdle engine node
        → (node' : Node P) × (step P e node ≡ some node') × IsIdle engine node'
    unfolding step stop finish
    step-IsIdle (receives ctx now msg) node h = (node, callback_idle ctx now msg node, h)
    step-IsIdle (works now ros_ok) node h =
        (worker_step P now ros_ok node, refl, worker_step-IsIdle now ros_ok node h)
    step-IsIdle stops node h = (
      stop P node,
      refl,
      record { empty = h.empty; silent = h.silent; waits = h.waits; engine_kept = h.engine_kept },
    )
    step-IsIdle finishes node h = (finish P node, refl, close_after-IsIdle node.phase node h)

    run-IsIdle :
        (es : List (Event P)) (node : Node P)
        → IsIdle engine node
        → (node' : Node P) × (run P es node ≡ some node') × IsIdle engine node'
    unfolding run
    run-IsIdle [] node h = (node, refl, h)
    run-IsIdle (e ∷ es) node h =
        let (node', stepped, h') = step-IsIdle e node h in
        let (last, ran, h'') = run-IsIdle es node' h' in (last, rw stepped ran, h'')

  -- A gateway that has been constructed stores and publishes nothing: over any sequence of
  -- incoming messages, turns of the worker, requests to stop and ends of the destructor, no call
  -- faults, the queue stays empty, no message is published, and the storage engine is the one
  -- that the constructor left, or that one closed.
  pub gateway-IsIdle :
      (overrides : Overrides P) (world : P.sqlite.World) (es : List (Event P))
      → (node : Node P) × (run P es (construct P overrides world) ≡ some node)
        × IsIdle (construct P overrides world).storage_engine node
  unfolding construct Queue.new
  gateway-IsIdle overrides world es =
      run-IsIdle (construct P overrides world).storage_engine es (construct P overrides world)
        (record { empty = refl; silent = refl; waits = tt; engine_kept = inl refl })
