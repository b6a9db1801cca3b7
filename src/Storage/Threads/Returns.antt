-- ===== src/Storage/Threads/Returns.antt =====
-- A thread that calls the engine of src/storage/storage_engine.cpp comes to the end of its call.
use secure_ros2_gateway.Prelude.{
  ℕ, zero, suc, ◌+◌, ◌-◌, ◌≤◌, ◌<◌, ◌≡◌, ◌⊎◌, inl, inr, refl, ap, ◌∙◌, sym, Bool, true, false, List,
  [], ◌∷◌, ◌++◌, some, map, arith, get_elem?, length, hits, turns_for,
}
use mathlib.Core.List.{Memᴰ}
use mathlib.Core.List.Memᴰ
use secure_ros2_gateway.Storage.{Engine}
use secure_ros2_gateway.Storage.Sqlite.{SqliteApi}
use secure_ros2_gateway.Storage.Payload.{Doubles}
use secure_ros2_gateway.Storage.Log.{
  Call, inits, asks, closes, inserts, inserts_batch, queries, purges, Reply,
}
use secure_ros2_gateway.Storage.Threads.{
  Thread, starting, checking, locking, returned, after_check, ends_at, run_locked, advance, Pool,
  turn, run,
}

module _ (F : Doubles) where
  abbrev pub call_in : Thread F → Call F
  call_in (starting call) = call
  call_in (checking call) = call
  call_in (locking call) = call
  call_in (returned call reply) = call

  -- The steps that a call still has, at most.
  abbrev steps_of : Thread F → ℕ
  steps_of (starting call) = 3
  steps_of (checking call) = 2
  steps_of (locking call) = 1
  steps_of (returned call reply) = 0

  -- A thread is still at work, or has not moved, or has returned with a reply on record.
  abbrev Ends : Thread F → Thread F → List (Call F × Reply F) → Type 0
  Ends t t' ended =
      (0 < steps_of t')
      ⊎ (t' ≡ t)
      ⊎ ((reply : Reply F) × (t' ≡ returned (call_in t) reply) × Memᴰ (call_in t, reply) ended)

  -- What n turns do to a thread.
  pub record Moves (t t' : Thread F) (n : ℕ) (ended : List (Call F × Reply F)) : Type 0 where
    pub same_call : call_in t' ≡ call_in t
    closer : steps_of t' ≤ steps_of t - n
    ends : Ends t t' ended

  unmoved : (t : Thread F) (ended : List (Call F × Reply F)) → Moves t t 0 ended
  unmoved t ended = record { same_call = refl; closer = omega arith; ends = inr (inl refl) }

  Moves-trans :
      (t t' t'' : Thread F) (m n : ℕ) (before after : List (Call F × Reply F))
      → Moves t t' m before
      → Moves t' t'' n after
      → Moves t t'' (m + n) (before ++ after)
  Moves-trans t t' t'' m n before after a b = record {
    same_call = b.same_call ∙ a.same_call;
    closer = omega (arith, a.closer, b.closer);
    ends = elim b.ends [
      | inl busy ↦ inl busy
      | inr (inl same) ↦ elim a.ends [
        | inl busy ↦ inl (rw same busy)
        | inr (inl still) ↦ inr (inl (same ∙ still))
        | inr (inr (reply, out, m)) ↦ inr (inr (reply, same ∙ out, Memᴰ.append_left after m))
      ]
      | inr (inr (reply, out, m)) ↦
          inr (
            inr
              (reply, rw (sym a.same_call) out, Memᴰ.append_right before (rw (sym a.same_call) m)))
    ];
  }

  -- The step that ends a call.
  ends_call :
      (t : Thread F) (reply : Reply F)
      → ends_at F t (returned (call_in t) reply) ≡ (call_in t, reply) ∷ []
      → Moves t (returned (call_in t) reply) 1 (ends_at F t (returned (call_in t) reply))
  ends_call t reply e = record {
    same_call = refl;
    closer = omega arith;
    ends = inr (inr (reply, refl, rw e (Memᴰ.head refl)));
  }

  goes_on :
      (t t' : Thread F)
      → call_in t' ≡ call_in t
      → 0 < steps_of t'
      → steps_of t' ≤ steps_of t - 1
      → Moves t t' 1 []
  goes_on t t' same busy closer = record { same_call = same; closer = closer; ends = inl busy }

  checking-Moves :
      (is_initialized : Bool) (call : Call F)
      → let t' = after_check F is_initialized call in
        Moves (checking call) t' 1 (ends_at F (checking call) t')
  unfolding after_check
  checking-Moves b inits = ends_call (checking inits) _ refl
  checking-Moves false asks = ends_call (checking asks) _ refl
  checking-Moves false closes = ends_call (checking closes) _ refl
  checking-Moves false (inserts row) = ends_call (checking (inserts row)) _ refl
  checking-Moves false (inserts_batch batch) = ends_call (checking (inserts_batch batch)) _ refl
  checking-Moves false (queries id limit) = ends_call (checking (queries id limit)) _ refl
  checking-Moves false (purges ts) = ends_call (checking (purges ts)) _ refl
  checking-Moves true (inserts_batch []) = ends_call (checking (inserts_batch [])) _ refl
  checking-Moves true asks = goes_on (checking asks) _ refl (omega arith) (omega arith)
  checking-Moves true closes = goes_on (checking closes) _ refl (omega arith) (omega arith)
  checking-Moves true (inserts row) =
      goes_on (checking (inserts row)) _ refl (omega arith) (omega arith)
  checking-Moves true (inserts_batch (row ∷ batch)) =
      goes_on (checking (inserts_batch (row ∷ batch))) _ refl (omega arith) (omega arith)
  checking-Moves true (queries id limit) =
      goes_on (checking (queries id limit)) _ refl (omega arith) (omega arith)
  checking-Moves true (purges ts) =
      goes_on (checking (purges ts)) _ refl (omega arith) (omega arith)

  module _ (S : SqliteApi) where
    locking-Moves :
        (call : Call F) (e : Engine S F)
        → let t' = (run_locked F S call e).0 in
          Moves (locking call) t' 1 (ends_at F (locking call) t')
    unfolding run_locked
    locking-Moves inits e = ends_call (locking inits) _ refl
    locking-Moves asks e = ends_call (locking asks) _ refl
    locking-Moves closes e = ends_call (locking closes) _ refl
    locking-Moves (inserts row) e = ends_call (locking (inserts row)) _ refl
    locking-Moves (inserts_batch batch) e = ends_call (locking (inserts_batch batch)) _ refl
    locking-Moves (queries id limit) e = ends_call (locking (queries id limit)) _ refl
    locking-Moves (purges ts) e = ends_call (locking (purges ts)) _ refl

    starting-Moves : (call : Call F) → Moves (starting call) (checking call) 1 []
    starting-Moves call = goes_on (starting call) (checking call) refl (omega arith) (omega arith)

    pub advance-Moves :
        (t : Thread F) (e : Engine S F)
        → let t' = (advance F S t e).0 in Moves t t' 1 (ends_at F t t')
    unfolding advance run_locked
    advance-Moves (starting inits) e = starting-Moves inits
    advance-Moves (starting asks) e = ends_call (starting asks) _ refl
    advance-Moves (starting closes) e = ends_call (starting closes) _ refl
    advance-Moves (starting (inserts row)) e = starting-Moves (inserts row)
    advance-Moves (starting (inserts_batch batch)) e = starting-Moves (inserts_batch batch)
    advance-Moves (starting (queries id limit)) e = starting-Moves (queries id limit)
    advance-Moves (starting (purges ts)) e = starting-Moves (purges ts)
    advance-Moves (checking call) e = checking-Moves e.is_initialized call
    advance-Moves (locking call) e = locking-Moves call e
    advance-Moves (returned call reply) e = record {
      same_call = refl;
      closer = omega arith;
      ends = inr (inl refl);
    }

    -- The j-th thread of a pool after n turns of it.
    abbrev Moved : ℕ → Thread F → ℕ → Pool F S → Type 0
    Moved j t n (ts, e, ended) = (t' : Thread F) × (get_elem? ts j ≡ some t') × Moves t t' n ended

    turn-Moved :
        (i j : ℕ) (ts : List (Thread F)) (e : Engine S F) (t : Thread F)
        → get_elem? ts j ≡ some t
        → Moved j t (hits i j) (turn F S i ts e)
    unfolding turn
    turn-Moved i j [] e t at_j = cc
    turn-Moved zero zero (u ∷ us) e t at_j =
        let same : t ≡ u = cc in (_, refl, rw same (advance-Moves u e))
    turn-Moved zero (suc j) (u ∷ us) e t at_j = (t, at_j, unmoved t _)
    turn-Moved (suc i) zero (u ∷ us) e t at_j = (t, at_j, unmoved t _)
    turn-Moved (suc i) (suc j) (u ∷ us) e t at_j = turn-Moved i j us e t at_j

    run-Moved :
        (schedule : List ℕ) (j : ℕ) (ts : List (Thread F)) (e : Engine S F) (t : Thread F)
        → get_elem? ts j ≡ some t
        → Moved j t (turns_for j schedule) (run F S schedule ts e)
    unfolding run
    run-Moved [] j ts e t at_j = (t, at_j, unmoved t [])
    run-Moved (i ∷ is) j ts e t at_j =
        let (ts', e', ended) = turn F S i ts e in
        let (t', at', m) = turn-Moved i j ts e t at_j in
        let (t'', at'', m') = run-Moved is j ts' e' t' at' in
        (
          t'',
          at'',
          Moves-trans t t' t'' (hits i j) (turns_for j is) ended (run F S is ts' e').2 m m',
        )

    at_start :
        (calls : List (Call F)) (j : ℕ) (call : Call F)
        → get_elem? calls j ≡ some call
        → get_elem? (map starting calls) j ≡ some (starting call)
    at_start [] j call at_j = cc
    at_start (c ∷ calls) zero call at_j = cc
    at_start (c ∷ calls) (suc j) call at_j = at_start calls j call at_j

    -- Every call comes to its end. Whatever the other threads do, a thread returns from its call
    -- once the schedule has given it three turns, and its call is among those that have ended,
    -- with the reply that it has.
    pub call_returns :
        (schedule : List ℕ) (calls : List (Call F)) (e : Engine S F) (j : ℕ) (call : Call F)
        → get_elem? calls j ≡ some call
        → 3 ≤ turns_for j schedule
        → let (threads, last, ended) = run F S schedule (map starting calls) e in
          (reply : Reply F) × (get_elem? threads j ≡ some (returned call reply))
          × Memᴰ (call, reply) ended
    call_returns schedule calls e j call at_j enough =
        let (t, at_end, m) =
          run-Moved schedule j (map starting calls) e (starting call)
            (at_start calls j call at_j) in
        elim m.ends [
          | inl busy ↦ absurd (omega (arith, m.closer, enough, busy))
          | inr (inl same) ↦ absurd (omega (arith, m.closer, enough, ap steps_of same))
          | inr (inr (reply, out, recorded)) ↦ (reply, at_end ∙ ap some out, recorded)
        ]

    length-turn :
        (i : ℕ) (ts : List (Thread F)) (e : Engine S F) → length (turn F S i ts e).0 ≡ length ts
    unfolding turn
    length-turn i [] e = refl
    length-turn zero (t ∷ ts) e = refl
    length-turn (suc i) (t ∷ ts) e = ap suc (length-turn i ts e)

    pub length-run :
        (schedule : List ℕ) (ts : List (Thread F)) (e : Engine S F)
        → length (run F S schedule ts e).0 ≡ length ts
    unfolding run
    length-run [] ts e = refl
    length-run (i ∷ is) ts e =
        let (ts', e', ended) = turn F S i ts e in length-run is ts' e' ∙ length-turn i ts e
