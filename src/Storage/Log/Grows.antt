-- ===== src/Storage/Log/Grows.antt =====
-- What the log of Storage.Log comes to for a client that no batch is refused to.
use secure_ros2_gateway.Prelude.{
  ◌≡◌, refl, ap, sym, ◌∙◌, inl, inr, true, false, List, [], ◌∷◌, ◌++◌, map, append_assoc,
  append-nil,
}
use secure_ros2_gateway.Prelude.Text.{Text}
use secure_ros2_gateway.Storage
use secure_ros2_gateway.Storage.{Engine}
use secure_ros2_gateway.Storage.Sqlite.{SqliteApi, IsSqlite, Row}
use secure_ros2_gateway.Storage.Payload.{Doubles}
use secure_ros2_gateway.Storage.Rows.{row_of}
use secure_ros2_gateway.Storage.Log.{
  Log, serving, torn, ended, rows_of, Call, inits, asks, closes, inserts, inserts_batch, queries,
  purges, Reply, answers, Allowed, Allows, call_all,
}
use secure_ros2_gateway.Storage.Log.Refines.{call_all-Allows}

module _ (F : Doubles) where
  -- The rows of a call that returned true.
  abbrev pub stored_by : Call F → Reply F → List Row
  stored_by (inserts row) (answers true) = row_of F row ∷ []
  stored_by (inserts_batch batch) (answers true) = map (row_of F) batch
  stored_by _ _ = []

  abbrev pub stored_in : List (Call F × Reply F) → List Row
  stored_in [] = []
  stored_in ((call, reply) ∷ history) = stored_by call reply ++ stored_in history

  abbrev pub IsRefused : Call F → Reply F → Type 0
  IsRefused (inserts_batch batch) (answers false) = Unit
  IsRefused _ _ = ⊥

  abbrev pub NoneRefused : List (Call F × Reply F) → Type 0
  NoneRefused [] = Unit
  NoneRefused ((call, reply) ∷ history) = ¬ (IsRefused call reply) × NoneRefused history

  -- No transaction is left open.
  abbrev IsWhole : Log → Type 0
  IsWhole (torn rows left) = ⊥
  IsWhole _ = Unit

  abbrev Grown : Call F → Log → Reply F → Log → Type 0
  Grown call log reply log' = IsWhole log' × (rows_of log' ≡ rows_of log ++ stored_by call reply)

  serving-Grown :
      (call : Call F) (rows : List Row) (reply : Reply F) (log' : Log)
      → Allowed F call (serving rows) reply log'
      → ¬ (IsRefused call reply)
      → Grown call (serving rows) reply log'
  serving-Grown inits rows reply log' (r, e) n = rw e (tt, sym (append-nil rows))
  serving-Grown asks rows reply log' (r, e) n = rw e (tt, sym (append-nil rows))
  serving-Grown closes rows reply log' (r, e) n = rw e (tt, sym (append-nil rows))
  serving-Grown (inserts row) rows reply log' (inl (r, e)) n = rw (r, e) (tt, refl)
  serving-Grown (inserts row) rows reply log' (inr (r, e)) n = rw (r, e) (tt, sym (append-nil rows))
  serving-Grown (inserts_batch []) rows reply log' (r, e) n = rw (r, e) (tt, sym (append-nil rows))
  serving-Grown (inserts_batch (row ∷ batch)) rows reply log' (inl (r, e)) n = rw (r, e) (tt, refl)
  serving-Grown (inserts_batch (row ∷ batch)) rows reply log' (inr (r, e)) n = absurd (n (rw r tt))
  serving-Grown (queries id limit) rows reply log' (r, e) n = rw e (tt, sym (append-nil rows))
  serving-Grown (purges ts) rows reply log' (r, e) n = rw e (tt, sym (append-nil rows))

  ended-Grown :
      (call : Call F) (rows : List Row) (reply : Reply F) (log' : Log)
      → Allowed F call (ended rows) reply log'
      → Grown call (ended rows) reply log'
  ended-Grown inits rows reply log' (r, e) = rw e (tt, sym (append-nil rows))
  ended-Grown asks rows reply log' (r, e) = rw e (tt, sym (append-nil rows))
  ended-Grown closes rows reply log' (r, e) = rw e (tt, sym (append-nil rows))
  ended-Grown (inserts row) rows reply log' (r, e) = rw (r, e) (tt, sym (append-nil rows))
  ended-Grown (inserts_batch []) rows reply log' (r, e) = rw (r, e) (tt, sym (append-nil rows))
  ended-Grown (inserts_batch (row ∷ batch)) rows reply log' (r, e) =
      rw (r, e) (tt, sym (append-nil rows))
  ended-Grown (queries id limit) rows reply log' (r, e) = rw e (tt, sym (append-nil rows))
  ended-Grown (purges ts) rows reply log' (r, e) = rw e (tt, sym (append-nil rows))

  step-Grown :
      (call : Call F) (log : Log) (reply : Reply F) (log' : Log)
      → IsWhole log
      → Allowed F call log reply log'
      → ¬ (IsRefused call reply)
      → Grown call log reply log'
  step-Grown call (serving rows) reply log' w a n = serving-Grown call rows reply log' a n
  step-Grown call (torn rows left) reply log' w a n = absurd w
  step-Grown call (ended rows) reply log' w a n = ended-Grown call rows reply log' a

  pub Allows-stored_in :
      (history : List (Call F × Reply F)) (log last : Log)
      → IsWhole log
      → Allows F history log last
      → NoneRefused history
      → rows_of last ≡ rows_of log ++ stored_in history
  Allows-stored_in [] log last w a n = rw a (sym (append-nil (rows_of log)))
  Allows-stored_in ((call, reply) ∷ history) log last w (log', a, later) n =
      let (w', grown) = step-Grown call log reply log' w a n.0 in
      Allows-stored_in history log' last w' later n.1
      ∙ ap (λ rows. rows ++ stored_in history) grown
      ∙ append_assoc (rows_of log) (stored_by call reply) (stored_in history)

  module _ (S : SqliteApi) (L : IsSqlite S) where
    open L use {view}

    -- A new engine after its first init.
    abbrev pub opened : Text → S.World → Engine S F
    opened path world = (Storage.init S F (Storage.new S F path world)).1

    -- After the first init of a new engine, over any calls of the class of which no batch is
    -- refused, the table grows by exactly the rows of the insertions and batches that returned
    -- true, in the order of the calls; a call that returned false, or that closes, queries or
    -- purges, adds and removes nothing.
    pub call_all-stored_in :
        (path : Text) (world : S.World) (calls : List (Call F))
        → NoneRefused (call_all F S calls (opened path world)).0
        → (view (call_all F S calls (opened path world)).1.world).committed
          ≡ (view (opened path world).world).committed
            ++ stored_in (call_all F S calls (opened path world)).0
    call_all-stored_in path world calls n =
        let (first, last, begins, allows, rows) = call_all-Allows S F L path world calls in
        elim begins [
          | inl (_, e) ↦ rows ∙ Allows-stored_in _ (serving _) last tt (rw e at allows) n
          | inr (_, e) ↦ rows ∙ Allows-stored_in _ (ended _) last tt (rw e at allows) n
        ]
