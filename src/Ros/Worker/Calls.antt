-- ===== src/Ros/Worker/Calls.antt =====
-- What the worker and the destructor of src/ros/gateway_node.cpp do to the storage engine: the calls
-- that the record of a run lists, with the replies of the engine itself.
use secure_ros2_gateway.Prelude.{◌≡◌, refl, ap, ℕ, Bool, List, [], ◌∷◌, ◌++◌, map, map-append}
use secure_ros2_gateway.Storage.Log.{Call, inserts, Reply, answers, call_engine, call_all}
use secure_ros2_gateway.Storage.{Engine}
use secure_ros2_gateway.Storage.Threads.Steps.{call_of}
use secure_ros2_gateway.Storage.Threads.Atomic.{call_all-append}
use secure_ros2_gateway.Ros.Runtime.{Platform, doubles}
use secure_ros2_gateway.Ros.{
  publish_ros_messages, Phase, testing, popping, exited, storing, publishing, Node, work,
  close_after,
}
use secure_ros2_gateway.Ros.Worker.{
  Progress, and_then, insertions_in, calls_in, close_calls, inserted_by,
}

module _ (P : Platform) where
  -- An engine that is asked the calls gives the replies, and becomes the other one.
  abbrev pub Asked :
      List (Call (doubles P) × Reply (doubles P))
      → Engine P.sqlite (doubles P)
      → Engine P.sqlite (doubles P)
      → Type 0
  Asked calls e e' =
      call_all (doubles P) P.sqlite (map (call_of P.sqlite (doubles P)) calls) e ≡ (calls, e')

  Asked-append :
      (xs ys : List (Call (doubles P) × Reply (doubles P))) (e e' e'' : Engine P.sqlite (doubles P))
      → Asked xs e e'
      → Asked ys e' e''
      → Asked (xs ++ ys) e e''
  Asked-append xs ys e e' e'' a b =
      rw
        (
          map-append (call_of P.sqlite (doubles P)) xs ys,
          call_all-append P.sqlite (doubles P) (map (call_of P.sqlite (doubles P)) xs)
              (map (call_of P.sqlite (doubles P)) ys),
          a,
          b,
        )
        refl

  -- The node's engine is what the listed calls, one after the other, make of the engine it had, and
  -- it gives the listed replies; the insertions are those among the calls.
  pub record Asks (node : Node P) (h : Progress P) : Type 0 where
    pub engine : Asked h.calls node.storage_engine h.node.storage_engine
    pub among : inserted_by P h.calls ≡ h.insertions

  inserted_by-append :
      (xs ys : List (Call (doubles P) × Reply (doubles P)))
      → inserted_by P (xs ++ ys) ≡ inserted_by P xs ++ inserted_by P ys
  inserted_by-append [] ys = refl
  inserted_by-append ((inserts frame, answers b) ∷ xs) ys =
      ap (λ t. (frame, b) ∷ t) (inserted_by-append xs ys)
  inserted_by-append (_ ∷ xs) ys = inserted_by-append xs ys

  pub Asks-and_then :
      (node : Node P) (s r : Progress P) → Asks node s → Asks s.node r → Asks node (and_then P s r)
  Asks-and_then node s r f g = record {
    engine = Asked-append s.calls r.calls _ _ _ f.engine g.engine;
    among = rw (inserted_by-append, f.among, g.among) refl;
  }

  -- Where the engine is not called.
  pub unasked :
      (node node' : Node P)
      → node'.storage_engine ≡ node.storage_engine
      → Asked [] node.storage_engine node'.storage_engine
  unfolding call_all
  unasked node node' same = rw same refl

  pub work-Asked :
      (p : Phase P) (now : ℕ) (ros_ok : Bool) (node : Node P)
      → Asked (calls_in P p node) node.storage_engine (work P p now ros_ok node).storage_engine
  unfolding work publish_ros_messages call_all call_engine
  work-Asked testing now ros_ok node = refl
  work-Asked popping now ros_ok node = refl
  work-Asked (storing frame) now ros_ok node = refl
  work-Asked (publishing frame) now ros_ok node = refl
  work-Asked exited now ros_ok node = refl

  pub calls_in-inserted_by :
      (p : Phase P) (node : Node P) → inserted_by P (calls_in P p node) ≡ insertions_in P p node
  calls_in-inserted_by (storing frame) node = refl
  calls_in-inserted_by _ node = refl

  pub close_after-Asked :
      (p : Phase P) (node : Node P)
      → Asked (close_calls P p) node.storage_engine (close_after P p node).storage_engine
  unfolding call_all call_engine
  close_after-Asked exited node = refl
  close_after-Asked _ node = refl

  pub close_calls-inserted_by : (p : Phase P) → inserted_by P (close_calls P p) ≡ []
  close_calls-inserted_by exited = refl
  close_calls-inserted_by _ = refl
