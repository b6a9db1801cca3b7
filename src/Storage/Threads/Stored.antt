-- ===== src/Storage/Threads/Stored.antt =====
-- What threads that call the engine of src/storage/storage_engine.cpp at the same time leave in the
-- table, whatever the order in which they get there.
use secure_ros2_gateway.Prelude.{
  ℕ, zero, suc, ◌≡◌, refl, ap, sym, ◌∙◌, inl, inr, List, [], ◌∷◌, ◌++◌, map, append_assoc,
  append-nil,
}
use mathlib.Core.List.Perm
use mathlib.Core.Logic.{∥∥₁_elim}
use mathlib.Core.List.{Perm, Perm-prop, Permᴰ, perm_append_comm}
use secure_ros2_gateway.Prelude.Text.{Text}
use secure_ros2_gateway.Storage
use secure_ros2_gateway.Storage.{Engine, ensure_initialized}
use secure_ros2_gateway.Storage.Sqlite.{SqliteApi, IsSqlite}
use secure_ros2_gateway.Storage.Payload.{Doubles}
use secure_ros2_gateway.Storage.Log
use secure_ros2_gateway.Storage.Log.{serving, Call, Reply}
use secure_ros2_gateway.Storage.Log.Grows.{
  stored_by, stored_in, IsRefused, NoneRefused, opened, Allows-stored_in,
}
use secure_ros2_gateway.Storage.Threads.{
  Thread, starting, checking, locking, returned, ends_at, advance, turn, run,
}
use secure_ros2_gateway.Storage.Threads.Atomic.{AllMayStart, run-Allows}
use secure_ros2_gateway.Storage.Threads.Tally.{IsBusy, ends_at-cases}

module _ (F : Doubles) where
  abbrev result_of : Thread F → List (Call F × Reply F)
  result_of (starting call) = []
  result_of (checking call) = []
  result_of (locking call) = []
  result_of (returned call reply) = (call, reply) ∷ []

  -- The calls that the threads have returned from, with their replies, by the number of the thread.
  abbrev pub results : List (Thread F) → List (Call F × Reply F)
  results [] = []
  results (t ∷ ts) = result_of t ++ results ts

  results_none : (calls : List (Call F)) → results (map starting calls) ≡ []
  results_none [] = refl
  results_none (call ∷ calls) = results_none calls

  result-IsBusy : (t : Thread F) → IsBusy F t → result_of t ≡ []
  result-IsBusy (starting call) busy = refl
  result-IsBusy (checking call) busy = refl
  result-IsBusy (locking call) busy = refl
  result-IsBusy (returned call reply) busy = absurd busy

  result-ends_at : (t t' : Thread F) → IsBusy F t → result_of t' ≡ ends_at F t t'
  result-ends_at t t' busy = elim (ends_at-cases F t t') [
    | inl (none_ends, still) ↦ result-IsBusy t' (still busy) ∙ sym none_ends
    | inr (reply, out, ends) ↦ ap result_of out ∙ sym ends
  ]

  module _ (S : SqliteApi) where
    result-advance :
        (t : Thread F) (e : Engine S F)
        → let t' = (advance F S t e).0 in result_of t' ≡ result_of t ++ ends_at F t t'
    unfolding advance
    result-advance (starting call) e = result-ends_at (starting call) _ tt
    result-advance (checking call) e = result-ends_at (checking call) _ tt
    result-advance (locking call) e = result-ends_at (locking call) _ tt
    result-advance (returned call reply) e = refl

    results-turn :
        (i : ℕ) (ts : List (Thread F)) (e : Engine S F)
        → let (ts', e', ended) = turn F S i ts e in Perm (results ts') (results ts ++ ended)
    unfolding turn
    results-turn i [] e = Perm.rfl
    results-turn zero (t ∷ ts) e =
        let ends = ends_at F t (advance F S t e).0 in
        rw
          (
            result-advance t e,
            append_assoc (result_of t) ends (results ts),
            append_assoc (result_of t) (results ts) ends,
          )
          (Perm.append_left (result_of t) (perm_append_comm ends (results ts)))
    results-turn (suc i) (t ∷ ts) e =
        let (ts', e', ended) = turn F S i ts e in
        rw (append_assoc (result_of t) (results ts) ended)
          (Perm.append_left (result_of t) (results-turn i ts e))

    results-run :
        (schedule : List ℕ) (ts : List (Thread F)) (e : Engine S F)
        → let (ts', e', ended) = run F S schedule ts e in Perm (results ts') (results ts ++ ended)
    unfolding run
    results-run [] ts e = rw (append-nil (results ts)) Perm.rfl
    results-run (i ∷ is) ts e =
        let (ts', e', ended) = turn F S i ts e in
        let later = (run F S is ts' e').2 in
        rw (← append_assoc (results ts) ended later)
          (Perm.trans (results-run is ts' e') (Perm.append_right later (results-turn i ts e)))

  stored_in-append :
      (xs ys : List (Call F × Reply F)) → stored_in F (xs ++ ys) ≡ stored_in F xs ++ stored_in F ys
  stored_in-append [] ys = refl
  stored_in-append ((call, reply) ∷ xs) ys =
      ap (λ rows. stored_by F call reply ++ rows) (stored_in-append xs ys)
      ∙ sym (append_assoc (stored_by F call reply) (stored_in F xs) (stored_in F ys))

  stored_in-Permᴰ :
      {xs ys : List (Call F × Reply F)} → Permᴰ xs ys → Perm (stored_in F xs) (stored_in F ys)
  stored_in-Permᴰ Permᴰ.nil = Perm.rfl
  stored_in-Permᴰ (Permᴰ.cons {a} {b} e p) =
      rw (ap (λ c. stored_by F c.0 c.1) e)
        (Perm.append_left (stored_by F b.0 b.1) (stored_in-Permᴰ p))
  stored_in-Permᴰ (Permᴰ.swap {a} {b} {a'} {b'} {l} e e') =
      let here = stored_by F b'.0 b'.1 in
      let there = stored_by F a'.0 a'.1 in
      rw
        (
          ap (λ c. stored_by F c.0 c.1) e,
          ap (λ c. stored_by F c.0 c.1) e',
          ← append_assoc here there (stored_in F l),
          ← append_assoc there here (stored_in F l),
        )
        (Perm.append_right (stored_in F l) (perm_append_comm here there))
  stored_in-Permᴰ (Permᴰ.trans p q) = Perm.trans (stored_in-Permᴰ p) (stored_in-Permᴰ q)

  NoneRefused-Permᴰ :
      {xs ys : List (Call F × Reply F)} → Permᴰ xs ys → NoneRefused F xs → NoneRefused F ys
  NoneRefused-Permᴰ Permᴰ.nil n = tt
  NoneRefused-Permᴰ (Permᴰ.cons {a} {b} e p) n =
      (rw (ap (λ c. IsRefused F c.0 c.1) e) at n.0, NoneRefused-Permᴰ p n.1)
  NoneRefused-Permᴰ (Permᴰ.swap e e') n = (
    rw (ap (λ c. IsRefused F c.0 c.1) e') at n.1.0,
    (rw (ap (λ c. IsRefused F c.0 c.1) e) at n.0, n.1.1),
  )
  NoneRefused-Permᴰ (Permᴰ.trans p q) n = NoneRefused-Permᴰ q (NoneRefused-Permᴰ p n)

  NoneRefused-IsProp : (xs : List (Call F × Reply F)) → IsProp (NoneRefused F xs)
  NoneRefused-IsProp [] = hlevel
  NoneRefused-IsProp ((call, reply) ∷ xs) = hlevel (NoneRefused-IsProp xs)

  module _ (S : SqliteApi) (L : IsSqlite S) where
    open L use {view}

    -- Nothing is lost and nothing stands twice. Threads that share a new engine make one call each,
    -- none of them close or is_ready, by any schedule. Unless a thread has returned false from a
    -- batch, the table holds in the end what it held after the initialisation and then, in some
    -- order, the rows of exactly the insertions and batches from which a thread has returned true.
    pub run-stored_in :
        (schedule : List ℕ) (calls : List (Call F)) (path : Text) (world : S.World)
        → AllMayStart S F (Storage.new S F path world) calls
        → NoneRefused F
            (results (run F S schedule (map starting calls) (Storage.new S F path world)).0)
        → let (threads, last, ended) =
            run F S schedule (map starting calls) (Storage.new S F path world) in
          Perm
            (view (ensure_initialized S F last).world).committed
            ((view (opened F S L path world).world).committed ++ stored_in F (results threads))
    run-stored_in schedule calls path world may none_refused =
        let e = Storage.new S F path world in
        let (threads, last, ended) = run F S schedule (map starting calls) e in
        let before = (view (opened F S L path world).world).committed in
        let same : Perm (results threads) ended =
          rw (results_none calls) at (results-run S schedule (map starting calls) e) in
        let refused =
          ∥∥₁_elim same (NoneRefused-IsProp ended) (λ d. NoneRefused-Permᴰ d none_refused) in
        let (first, end, begins, allows, rows) = run-Allows S F L schedule calls path world may in
        let grown : (view (ensure_initialized S F last).world).committed
            ≡ before ++ stored_in F ended =
          elim begins [
            | inl (_, b) ↦
                rows ∙ Allows-stored_in F _ (serving before) end tt (rw b at allows) refused
            | inr (_, b) ↦
                rows ∙ Allows-stored_in F _ (Log.ended before) end tt (rw b at allows) refused
          ] in
        rw grown
          (Perm.append_left before (∥∥₁_elim same Perm-prop (λ d. Perm.symm (stored_in-Permᴰ d))))
