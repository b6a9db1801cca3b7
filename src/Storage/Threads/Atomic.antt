-- ===== src/Storage/Threads/Atomic.antt =====
-- Threads that call the engine of src/storage/storage_engine.cpp at the same time, but for close:
-- their calls take effect one after the other.
use secure_ros2_gateway.Prelude.{
  ℕ, zero, suc, ◌≡◌, inl, inr, true, refl, ap, List, [], ◌∷◌, ◌++◌, map, map-append,
}
use secure_ros2_gateway.Prelude.Text.{Text}
use secure_ros2_gateway.Storage
use secure_ros2_gateway.Storage.{Engine, ensure_initialized}
use secure_ros2_gateway.Storage.Sqlite.{SqliteApi, IsSqlite}
use secure_ros2_gateway.Storage.Payload.{Doubles}
use secure_ros2_gateway.Storage.Log.{Log, rows_of, Call, Reply, Allows, call_engine, call_all}
use secure_ros2_gateway.Storage.Log.Refines.{Begins, call_all-Allows}
use secure_ros2_gateway.Storage.Threads.{Thread, starting, advance, Pool, turn, run}
use secure_ros2_gateway.Storage.Threads.Whole.{advance-IsWhole}
use secure_ros2_gateway.Storage.Threads.Steps.{
  MayStart, call_of, Fits, Keeps, Fits-Keeps, Whole, IsSound,
}

module _ (S : SqliteApi) (F : Doubles) where
  pub call_all-append :
      (xs ys : List (Call F)) (e : Engine S F)
      → let (before, e') = call_all F S xs e in
        call_all F S (xs ++ ys) e ≡ (before ++ (call_all F S ys e').0, (call_all F S ys e').1)
  unfolding call_all
  call_all-append [] ys e = refl
  call_all-append (x ∷ xs) ys e =
      let (reply, e') = call_engine F S x e in
      ap (λ r. ((x, reply) ∷ r.0, r.1)) (call_all-append xs ys e')

  Whole-append :
      (before after : List (Call F × Reply F)) (e e' e'' : Engine S F)
      → Whole S F before e e'
      → Whole S F after e' e''
      → Whole S F (before ++ after) e e''
  Whole-append before after e e' e'' w w' =
      rw
        (
          map-append (call_of S F) before after,
          call_all-append (map (call_of S F) before) (map (call_of S F) after),
          w,
          w',
        )
        refl

  abbrev AllFit : Engine S F → List (Thread F) → Type 0
  AllFit e [] = Unit
  AllFit e (t ∷ ts) = Fits S F e t × AllFit e ts

  AllFit-Keeps :
      (e e' : Engine S F) (ts : List (Thread F)) → Keeps S F e e' → AllFit e ts → AllFit e' ts
  AllFit-Keeps e e' [] k f = tt
  AllFit-Keeps e e' (t ∷ ts) k (f, fs) = (Fits-Keeps S F e e' t k f, AllFit-Keeps e e' ts k fs)

  -- What one step of the pool does, or several.
  record IsRun (e : Engine S F) (after : Pool F S) : Type 0 where
    all_fit : AllFit after.1 after.0
    keeps : Keeps S F e after.1
    sound : IsSound S F after.1
    whole : Whole S F after.2 e after.1

  IsRun-append :
      (e : Engine S F) (first rest : Pool F S)
      → IsRun e first
      → IsRun first.1 rest
      → IsRun e (rest.0, rest.1, first.2 ++ rest.2)
  IsRun-append e first rest r r' = record {
    all_fit = r'.all_fit;
    keeps = record {
      keeps_once = λ once. r'.keeps.keeps_once (r.keeps.keeps_once once);
      keeps_flag =
          λ once flag. r'.keeps.keeps_flag (r.keeps.keeps_once once) (r.keeps.keeps_flag once flag);
    };
    sound = r'.sound;
    whole = Whole-append first.2 rest.2 e first.1 rest.1 r.whole r'.whole;
  }

  none_runs :
      (ts : List (Thread F)) (e : Engine S F) → AllFit e ts → IsSound S F e → IsRun e (ts, e, [])
  unfolding call_all
  none_runs ts e fits sound = record {
    all_fit = fits;
    keeps = record { keeps_once = λ once. once; keeps_flag = λ once flag. flag };
    sound = sound;
    whole = refl;
  }

  abbrev pub AllMayStart : Engine S F → List (Call F) → Type 0
  AllMayStart e [] = Unit
  AllMayStart e (call ∷ calls) = MayStart S F e call × AllMayStart e calls

  all_start :
      (calls : List (Call F)) (e : Engine S F) → AllMayStart e calls → AllFit e (map starting calls)
  all_start [] e n = tt
  all_start (call ∷ calls) e (n, ns) = (n, all_start calls e ns)

  module _ (L : IsSqlite S) where
    turn-IsRun :
        (i : ℕ) (ts : List (Thread F)) (e : Engine S F)
        → AllFit e ts
        → IsSound S F e
        → IsRun e (turn F S i ts e)
    unfolding turn
    turn-IsRun i [] e fits sound = none_runs [] e fits sound
    turn-IsRun zero (t ∷ ts) e (fit, fits) sound =
        let (t', e') = advance F S t e in
        let w = advance-IsWhole S F L t e fit sound in
        record {
          all_fit = (w.fits, AllFit-Keeps e e' ts w.keeps fits);
          keeps = w.keeps;
          sound = elim w.known [ inl once ↦ inl once | inr same ↦ rw same sound ];
          whole = w.whole;
        }
    turn-IsRun (suc i) (t ∷ ts) e (fit, fits) sound =
        let r = turn-IsRun i ts e fits sound in
        record {
          all_fit = (Fits-Keeps S F e (turn F S i ts e).1 t r.keeps fit, r.all_fit);
          keeps = r.keeps;
          sound = r.sound;
          whole = r.whole;
        }

    run-IsRun :
        (schedule : List ℕ) (ts : List (Thread F)) (e : Engine S F)
        → AllFit e ts
        → IsSound S F e
        → IsRun e (run F S schedule ts e)
    unfolding run
    run-IsRun [] ts e fits sound = none_runs ts e fits sound
    run-IsRun (i ∷ is) ts e fits sound =
        let r = turn-IsRun i ts e fits sound in
        let (ts', e', ended) = turn F S i ts e in
        IsRun-append e (ts', e', ended) (run F S is ts' e') r
          (run-IsRun is ts' e' r.all_fit r.sound)

    -- Calls at the same time are calls one after the other. Threads that each make one call, none
    -- of them close, run by any schedule, on an engine that is new or has been initialised, and
    -- they ask is_ready only where it has been; the calls that have ended got the replies that they
    -- get when they are made one after the other in the order of their ends, after the
    -- initialisation, and leave the engine in the same state.
    pub run_atomic :
        (schedule : List ℕ) (calls : List (Call F)) (e : Engine S F)
        → AllMayStart e calls
        → IsSound S F e
        → let (threads, last, ended) = run F S schedule (map starting calls) e in
          call_all F S (map (call_of S F) ended) (ensure_initialized S F e)
          ≡ (ended, ensure_initialized S F last)
    run_atomic schedule calls e none sound =
        (run-IsRun schedule (map starting calls) e (all_start calls e none) sound).whole

    -- Once call_once has run, it has run.
    pub run_once :
        (schedule : List ℕ) (calls : List (Call F)) (e : Engine S F)
        → AllMayStart e calls
        → e.called_once ≡ true
        → (run F S schedule (map starting calls) e).1.called_once ≡ true
    run_once schedule calls e may once =
        (run-IsRun schedule (map starting calls) e (all_start calls e may)
            (inl once)).keeps.keeps_once
          once

    -- What threads that share a new engine see is what the log of Storage.Log allows, whatever the
    -- schedule, while none of them closes it or asks is_ready: the replies, in the order in which
    -- the calls end, and at the end the committed rows of the table.
    pub run-Allows :
        (schedule : List ℕ) (calls : List (Call F)) (path : Text) (world : S.World)
        → AllMayStart (Storage.new S F path world) calls
        → let e = Storage.new S F path world in
          let (threads, last, ended) = run F S schedule (map starting calls) e in
          (begun : Log) × (end : Log) × Begins S F L (Storage.init S F e) begun
          × Allows F ended begun end
          × ((L.view (ensure_initialized S F last).world).committed ≡ rows_of end)
    unfolding Storage.new Storage.init
    run-Allows schedule calls path world none =
        let e = Storage.new S F path world in
        let eq = run_atomic schedule calls e none (inr refl) in
        let ended = (run F S schedule (map starting calls) e).2 in
        let (begun, end, begins, allows, rows) =
          call_all-Allows S F L path world (map (call_of S F) ended) in
        (begun, end, begins, rw eq at allows, rw eq at rows)
