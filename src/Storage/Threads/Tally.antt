-- ===== src/Storage/Threads/Tally.antt =====
-- What the calls of threads add up to, over a run of Storage.Threads: each call that a thread has
-- returned from is one of those that have ended.
use secure_ros2_gateway.Prelude.{
  ℕ, zero, suc, ◌+◌, ◌≡◌, refl, ap, ◌∙◌, ◌⊎◌, inl, inr, List, [], ◌∷◌, ◌++◌, arith,
}
use secure_ros2_gateway.Storage.{Engine}
use secure_ros2_gateway.Storage.Sqlite.{SqliteApi}
use secure_ros2_gateway.Storage.Payload.{Doubles}
use secure_ros2_gateway.Storage.Log.{Call, Reply}
use secure_ros2_gateway.Storage.Threads.{
  Thread, starting, checking, locking, returned, ends_at, advance, turn, run,
}
use secure_ros2_gateway.Storage.Threads.Returns.{call_in, advance-Moves}

module _ (F : Doubles) where
  abbrev pub IsBusy : Thread F → Type 0
  IsBusy (returned call reply) = ⊥
  IsBusy _ = Unit

  -- A step ends no call, or the one that the thread then has returned from.
  pub ends_at-cases :
      (t t' : Thread F)
      → ((ends_at F t t' ≡ []) × (IsBusy t → IsBusy t'))
        ⊎ ((reply : Reply F) × (t' ≡ returned (call_in F t') reply)
            × (ends_at F t t' ≡ (call_in F t', reply) ∷ []))
  ends_at-cases (starting call) (starting c) = inl (refl, λ busy. tt)
  ends_at-cases (starting call) (checking c) = inl (refl, λ busy. tt)
  ends_at-cases (starting call) (locking c) = inl (refl, λ busy. tt)
  ends_at-cases (starting call) (returned c reply) = inr (reply, refl, refl)
  ends_at-cases (checking call) (starting c) = inl (refl, λ busy. tt)
  ends_at-cases (checking call) (checking c) = inl (refl, λ busy. tt)
  ends_at-cases (checking call) (locking c) = inl (refl, λ busy. tt)
  ends_at-cases (checking call) (returned c reply) = inr (reply, refl, refl)
  ends_at-cases (locking call) (starting c) = inl (refl, λ busy. tt)
  ends_at-cases (locking call) (checking c) = inl (refl, λ busy. tt)
  ends_at-cases (locking call) (locking c) = inl (refl, λ busy. tt)
  ends_at-cases (locking call) (returned c reply) = inr (reply, refl, refl)
  ends_at-cases (returned call reply) t' = inl (refl, λ busy. absurd busy)

  -- Threads that all make the same call.
  abbrev pub AllMake : Call F → List (Thread F) → Type 0
  AllMake call [] = Unit
  AllMake call (t ∷ ts) = (call_in F t ≡ call) × AllMake call ts

  abbrev pub AllOf : Call F → List (Call F × Reply F) → Type 0
  AllOf call [] = Unit
  AllOf call ((c, reply) ∷ history) = (c ≡ call) × AllOf call history

  AllOf-append :
      (call : Call F) (xs ys : List (Call F × Reply F))
      → AllOf call xs
      → AllOf call ys
      → AllOf call (xs ++ ys)
  AllOf-append call [] ys p q = q
  AllOf-append call ((c, reply) ∷ xs) ys (e, p) q = (e, AllOf-append call xs ys p q)

  AllOf-ends_at :
      (call : Call F) (t t' : Thread F) → call_in F t' ≡ call → AllOf call (ends_at F t t')
  AllOf-ends_at call t t' e = elim (ends_at-cases t t') [
    | inl (none_ends, busy) ↦ rw none_ends tt
    | inr (reply, out, ends) ↦ rw ends (e, tt)
  ]

  module _ (S : SqliteApi) (call : Call F) where
    turn-AllMake :
        (i : ℕ) (ts : List (Thread F)) (e : Engine S F)
        → AllMake call ts
        → let (ts', e', ended) = turn F S i ts e in AllMake call ts' × AllOf call ended
    unfolding turn
    turn-AllMake i [] e all = (tt, tt)
    turn-AllMake zero (t ∷ ts) e (same, all) =
        let same' = (advance-Moves F S t e).same_call ∙ same in
        ((same', all), AllOf-ends_at call t (advance F S t e).0 same')
    turn-AllMake (suc i) (t ∷ ts) e (same, all) =
        let (all', of) = turn-AllMake i ts e all in ((same, all'), of)

    pub run-AllMake :
        (schedule : List ℕ) (ts : List (Thread F)) (e : Engine S F)
        → AllMake call ts
        → let (ts', e', ended) = run F S schedule ts e in AllMake call ts' × AllOf call ended
    unfolding run
    run-AllMake [] ts e all = (all, tt)
    run-AllMake (i ∷ is) ts e all =
        let (ts', e', ended) = turn F S i ts e in
        let (all', of) = turn-AllMake i ts e all in
        let (all'', of') = run-AllMake is ts' e' all' in
        (all'', AllOf-append call ended (run F S is ts' e').2 of of')

module _ (F : Doubles) (weight : Reply F → ℕ) where
  abbrev weight_of : Thread F → ℕ
  weight_of (starting call) = 0
  weight_of (checking call) = 0
  weight_of (locking call) = 0
  weight_of (returned call reply) = weight reply

  abbrev pub tally : List (Thread F) → ℕ
  tally [] = 0
  tally (t ∷ ts) = weight_of t + tally ts

  abbrev pub sum_of : List (Call F × Reply F) → ℕ
  sum_of [] = 0
  sum_of ((call, reply) ∷ history) = weight reply + sum_of history

  sum_of-append : (xs ys : List (Call F × Reply F)) → sum_of (xs ++ ys) ≡ sum_of xs + sum_of ys
  sum_of-append [] ys = omega arith
  sum_of-append ((call, reply) ∷ xs) ys = omega (arith, sum_of-append xs ys)

  weight-IsBusy : (t : Thread F) → IsBusy F t → weight_of t ≡ 0
  weight-IsBusy (starting call) busy = refl
  weight-IsBusy (checking call) busy = refl
  weight-IsBusy (locking call) busy = refl
  weight-IsBusy (returned call reply) busy = absurd busy

  weight-ends_at : (t t' : Thread F) → IsBusy F t → weight_of t' ≡ sum_of (ends_at F t t')
  weight-ends_at t t' busy = elim (ends_at-cases F t t') [
    | inl (none_ends, still) ↦ rw none_ends (weight-IsBusy t' (still busy))
    | inr (reply, out, ends) ↦ omega (arith, ap weight_of out, ap sum_of ends)
  ]

  module _ (S : SqliteApi) where
    advance-tally :
        (t : Thread F) (e : Engine S F)
        → let t' = (advance F S t e).0 in weight_of t' ≡ weight_of t + sum_of (ends_at F t t')
    unfolding advance
    advance-tally (starting call) e =
        omega (arith, weight-ends_at (starting call) (advance F S (starting call) e).0 tt)
    advance-tally (checking call) e =
        omega (arith, weight-ends_at (checking call) (advance F S (checking call) e).0 tt)
    advance-tally (locking call) e =
        omega (arith, weight-ends_at (locking call) (advance F S (locking call) e).0 tt)
    advance-tally (returned call reply) e = omega arith

    turn-tally :
        (i : ℕ) (ts : List (Thread F)) (e : Engine S F)
        → let (ts', e', ended) = turn F S i ts e in tally ts' ≡ tally ts + sum_of ended
    unfolding turn
    turn-tally i [] e = refl
    turn-tally zero (t ∷ ts) e = omega (arith, advance-tally t e)
    turn-tally (suc i) (t ∷ ts) e = omega (arith, turn-tally i ts e)

    pub run-tally :
        (schedule : List ℕ) (ts : List (Thread F)) (e : Engine S F)
        → let (ts', e', ended) = run F S schedule ts e in tally ts' ≡ tally ts + sum_of ended
    unfolding run
    run-tally [] ts e = omega arith
    run-tally (i ∷ is) ts e =
        let (ts', e', ended) = turn F S i ts e in
        omega
          (arith, turn-tally i ts e, run-tally is ts' e', sum_of-append ended (run F S is ts' e').2)
