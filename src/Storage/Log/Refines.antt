-- ===== src/Storage/Log/Refines.antt =====
-- The storage engine of src/storage/storage_engine.cpp behaves as the log says.
use secure_ros2_gateway.Prelude.{◌≡◌, ◌⊎◌, refl, ap, inl, inr, true, false, List, [], ◌∷◌, Bool}
use secure_ros2_gateway.Prelude.Text.{Text}
use secure_ros2_gateway.Storage
use secure_ros2_gateway.Storage.{Engine}
use secure_ros2_gateway.Storage.Sqlite.{SqliteApi, IsSqlite}
use secure_ros2_gateway.Storage.Payload.{Doubles}
use secure_ros2_gateway.Storage.Opening.{init_first}
use secure_ros2_gateway.Storage.Outcomes.{rest_of}
use secure_ros2_gateway.Storage.Log.Calls.{Represents, call-Refined}
use secure_ros2_gateway.Storage.Log.{
  Log, serving, torn, ended, rows_of, Call, Allows, call_engine, call_all,
}

module _ (S : SqliteApi) (F : Doubles) (L : IsSqlite S) where
  open L use {view}

  pub call_all-Refined :
      (calls : List (Call F)) (log : Log) (e : Engine S F)
      → Represents S F L e log
      → (last : Log) × Allows F (call_all F S calls e).0 log last
        × Represents S F L (call_all F S calls e).1 last
  unfolding call_all
  call_all-Refined [] log e r = (log, refl, r)
  call_all-Refined (call ∷ calls) log e r =
      let (log', allowed, r') = call-Refined S F L call log e r in
      let (last, allows, r'') = call_all-Refined calls log' (call_engine F S call e).1 r' in
      (last, (log', allowed, allows), r'')

  pub Represents-rows :
      (e : Engine S F) (log : Log) → Represents S F L e log → (view e.world).committed ≡ rows_of log
  Represents-rows e (serving rows) (db, st, o, v) = ap (λ t. t.committed) v
  Represents-rows e (torn rows left) (db, st, o, v) = ap (λ t. t.committed) v
  Represents-rows e (ended rows) x = x.kept

  -- Where the log begins: with the rows that the table holds after the first init, which serves
  -- from then on if it returned true, and is ended if not.
  abbrev pub Begins : Bool × Engine S F → Log → Type 0
  Begins (ready, e) log =
      ((ready ≡ true) × (log ≡ serving (view e.world).committed))
      ⊎ ((ready ≡ false) × (log ≡ ended (view e.world).committed))

  init-Represents :
      (path : Text) (world : S.World)
      → let begun = Storage.init S F (Storage.new S F path world) in
        (first : Log) × Begins begun first × Represents S F L begun.1 first
  unfolding Storage.new
  init-Represents path world = elim (init_first S F L (Storage.new S F path world) refl refl) [
    | inl (ready, db, st, o, quiet) ↦ (serving _, inl (ready, refl), (db, st, o, rest_of _ quiet))
    | inr (failed, f) ↦ (
      ended _,
      inr (failed, refl),
      record { once = f.once; off = f.off; no_db = f.no_db; no_stmt = f.no_stmt; kept = refl },
    )
  ]

  -- The storage engine refines the log. After the first init of a new engine, any calls of the
  -- class get replies that the log allows, from the rows that the table held on, and the committed
  -- rows of the table are at the end those of the log.
  pub call_all-Allows :
      (path : Text) (world : S.World) (calls : List (Call F))
      → let begun = Storage.init S F (Storage.new S F path world) in
        let ran = call_all F S calls begun.1 in
        (first : Log) × (last : Log) × Begins begun first
        × Allows F ran.0 first last
        × ((view ran.1.world).committed ≡ rows_of last)
  call_all-Allows path world calls =
      let begun = Storage.init S F (Storage.new S F path world) in
      let (first, begins, r) = init-Represents path world in
      let (last, allows, r') = call_all-Refined calls first begun.1 r in
      (first, last, begins, allows, Represents-rows _ last r')
