-- ===== src/Ros/Worker/Table.antt =====
-- What the worker of src/ros/gateway_node.cpp brings into the table, up to and past the end of the
-- node.
use secure_ros2_gateway.Prelude.{
  ℕ, ◌≡◌, refl, ap, sym, ◌∙◌, ◌⊎◌, inl, inr, Bool, true, false, List, [], ◌∷◌, ◌++◌, none, some,
  map, append_assoc, append-nil, map-append, if◌then◌else◌,
}
use secure_ros2_gateway.Storage.{Engine}
use secure_ros2_gateway.Storage.Sqlite.{IsSqlite, Row}
use secure_ros2_gateway.Storage.Rows.{row_of, IsOpen}
use secure_ros2_gateway.Storage.Insert.{
  insert_telemetry-committed, insert_telemetry-pending, insert_telemetry-IsOpen,
}
use secure_ros2_gateway.Storage.Lifecycle.{close_open, close_without_handles}
use secure_ros2_gateway.Ros.Runtime.{Platform, doubles}
use secure_ros2_gateway.Ros.Reject.{callback_idle}
use secure_ros2_gateway.Ros.{
  Frame, Phase, testing, popping, exited, storing, publishing, Node, publish_ros_messages, Event,
  receives, works, stops, finishes, step, work, worker_step, stop, finish, close_after,
}
use secure_ros2_gateway.Ros.Worker.{
  Progress, progress_of, and_then, progress, no_progress, insertions_in, stored,
}

module _ (P : Platform) (L : IsSqlite P.sqlite) where
  open L use {view}

  -- The storage engine is open outside a transaction, or the node is at its end and has closed it.
  abbrev pub InUse : Engine P.sqlite (doubles P) → Type 0
  InUse e =
      (db : P.sqlite.Db) × (st : P.sqlite.Stmt) × IsOpen P.sqlite (doubles P) L db st e
      × ((view e.world).pending ≡ none)

  abbrev pub Closed : Node P → Type 0
  Closed node =
      (node.phase ≡ exited)
      × (node.storage_engine.db ≡ none)
      × (node.storage_engine.insert_stmt ≡ none)

  abbrev pub rows : List (Frame P × Bool) → List Row
  rows insertions = map (row_of (doubles P)) (stored P insertions)

  abbrev committed : Node P → List Row
  committed node = (view node.storage_engine.world).committed

  -- The node still serves, and the insertions have brought their rows into the table.
  pub record Serves (before : List Row) (insertions : List (Frame P × Bool)) (node : Node P)
      : Type 0 where
    pub table : committed node ≡ before ++ rows insertions
    pub usable : InUse node.storage_engine ⊎ Closed node

  stored-append : (xs ys : List (Frame P × Bool)) → stored P (xs ++ ys) ≡ stored P xs ++ stored P ys
  stored-append [] ys = refl
  stored-append ((frame, true) ∷ xs) ys = ap (λ t. frame ∷ t) (stored-append xs ys)
  stored-append ((frame, false) ∷ xs) ys = stored-append xs ys

  rows-append : (xs ys : List (Frame P × Bool)) → rows (xs ++ ys) ≡ rows xs ++ rows ys
  rows-append xs ys = rw stored-append (map-append (row_of (doubles P)) (stored P xs) (stored P ys))

  rows_one :
      (frame : Frame P) (b : Bool) (before : List Row)
      → (if b then before ++ row_of (doubles P) frame ∷ [] else before)
        ≡ before ++ rows ((frame, b) ∷ [])
  rows_one frame true before = refl
  rows_one frame false before = sym (append-nil before)

  quiet-Serves :
      (node node' : Node P)
      → node'.storage_engine ≡ node.storage_engine
      → InUse node.storage_engine ⊎ Closed node
      → (node.phase ≡ exited → node'.phase ≡ exited)
      → Serves (committed node) [] node'
  quiet-Serves node node' same usable stays = record {
    table = rw same (sym (append-nil _));
    usable = elim usable [
      | inl opened ↦ inl (rw same opened)
      | inr (e, d, s) ↦ inr (stays e, rw same d, rw same s)
    ];
  }

  work-Serves :
      (p : Phase P) (now : ℕ) (ros_ok : Bool) (node : Node P)
      → node.phase ≡ p
      → InUse node.storage_engine ⊎ Closed node
      → Serves (committed node) (insertions_in P p node) (work P p now ros_ok node)
  unfolding work publish_ros_messages
  work-Serves testing now ros_ok node e u = quiet-Serves node _ refl u (λ h. cc)
  work-Serves popping now ros_ok node e u = quiet-Serves node _ refl u (λ h. cc)
  work-Serves (publishing frame) now ros_ok node e u = quiet-Serves node _ refl u (λ h. cc)
  work-Serves exited now ros_ok node e u = quiet-Serves node node refl u (λ h. h)
  work-Serves (storing frame) now ros_ok node e (inr (h, _, _)) = cc
  work-Serves (storing frame) now ros_ok node e (inl (db, st, o, p)) = record {
    table =
        insert_telemetry-committed P.sqlite (doubles P) L db st frame node.storage_engine o p
        ∙ rows_one frame _ (committed node);
    usable = inl (
      db,
      st,
      insert_telemetry-IsOpen P.sqlite (doubles P) L db st frame node.storage_engine o,
      insert_telemetry-pending P.sqlite (doubles P) L db st frame node.storage_engine o p,
    );
  }

  close_after-Serves :
      (p : Phase P) (node : Node P)
      → node.phase ≡ p
      → InUse node.storage_engine ⊎ Closed node
      → Serves (committed node) [] (close_after P p node)
  close_after-Serves exited node e (inl (db, st, o, p)) =
      let (v, d, s, _) = close_open P.sqlite (doubles P) L db st node.storage_engine o in
      record { table = ap (λ t. t.committed) v ∙ sym (append-nil _); usable = inr (e, d, s) }
  close_after-Serves exited node e (inr (h, d, s)) =
      let (w, d', s') = close_without_handles P.sqlite (doubles P) node.storage_engine d s in
      record {
        table = ap (λ x. (view x).committed) w ∙ sym (append-nil _);
        usable = inr (e, d', s');
      }
  close_after-Serves testing node e u = quiet-Serves node node refl u (λ h. h)
  close_after-Serves popping node e u = quiet-Serves node node refl u (λ h. h)
  close_after-Serves (storing frame) node e u = quiet-Serves node node refl u (λ h. h)
  close_after-Serves (publishing frame) node e u = quiet-Serves node node refl u (λ h. h)

  step-Serves :
      (e : Event P) (node : Node P)
      → InUse node.storage_engine ⊎ Closed node
      → (node' : Node P) × (step P e node ≡ some node')
        × Serves (committed node) (progress_of P e node node').insertions node'
  unfolding step worker_step stop finish
  step-Serves (receives ctx now msg) node u =
      (node, callback_idle P ctx now msg node, quiet-Serves node node refl u (λ h. h))
  step-Serves (works now ros_ok) node u =
      (worker_step P now ros_ok node, refl, work-Serves node.phase now ros_ok node refl u)
  step-Serves stops node u = (stop P node, refl, quiet-Serves node (stop P node) refl u (λ h. h))
  step-Serves finishes node u = (finish P node, refl, close_after-Serves node.phase node refl u)

  -- From a node whose storage engine is open outside a transaction, over any sequence of events,
  -- the table grows by the rows of the frames whose insertion returned true, in the order of the
  -- insertions, and by nothing else; the end of the node takes nothing back.
  pub progress-Serves :
      (es : List (Event P)) (node : Node P)
      → InUse node.storage_engine ⊎ Closed node
      → (h : Progress P) × (progress P es node ≡ some h)
        × Serves (committed node) h.insertions h.node
  unfolding progress
  progress-Serves [] node u = (no_progress P node, refl, quiet-Serves node node refl u (λ h. h))
  progress-Serves (e ∷ es) node u =
      let (node', stepped, now) = step-Serves e node u in
      let (rest, kept, later) = progress-Serves es node' now.usable in
      (
        and_then P (progress_of P e node node') rest,
        rw (stepped, kept) refl,
        record {
          table =
              later.table
              ∙ ap (λ t. t ++ rows rest.insertions) now.table
              ∙ append_assoc (committed node) _ (rows rest.insertions)
              ∙ ap (λ t. committed node ++ t)
                  (sym (rows-append (progress_of P e node node').insertions rest.insertions));
          usable = later.usable;
        },
      )
