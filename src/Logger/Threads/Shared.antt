-- ===== src/Logger/Threads/Shared.antt =====
-- get_logger of src/utils/logger.cpp in several threads, after a call of init that made the logger.
use secure_ros2_gateway.Prelude.{
  ℕ, zero, suc, ◌-◌, ◌≤◌, ◌<◌, ◌≡◌, refl, ap, ◌∙◌, List, [], ◌∷◌, some, arith, replicate, get_elem?,
  get_elem?-replicate, hits, turns_for,
}
use secure_ros2_gateway.Logger.{Spdlog, State}
use secure_ros2_gateway.Logger.Threads.{Caller, testing, making, reading, got, step, turn, run}

module _ (L : Spdlog) (l : L.Logger) where
  abbrev steps_of : Caller L → ℕ
  steps_of testing = 2
  steps_of making = 0
  steps_of reading = 1
  steps_of (got logger) = 0

  -- No caller is about to make another logger, or has a different one.
  abbrev IsSafe : Caller L → Type 0
  IsSafe testing = Unit
  IsSafe making = ⊥
  IsSafe reading = Unit
  IsSafe (got logger) = logger ≡ some l

  abbrev AllSafe : List (Caller L) → Type 0
  AllSafe [] = Unit
  AllSafe (c ∷ cs) = IsSafe c × AllSafe cs

  step-IsSafe :
      (c : Caller L) (s : State L)
      → s.logger_instance ≡ some l
      → IsSafe c
      → let (c', s') = step L c s in IsSafe c' × (s' ≡ s) × (steps_of c' ≤ steps_of c - 1)
  unfolding step
  step-IsSafe testing s h safe = rw h (tt, refl, omega arith)
  step-IsSafe making s h safe = absurd safe
  step-IsSafe reading s h safe = (h, refl, omega arith)
  step-IsSafe (got logger) s h safe = (safe, refl, omega arith)

  -- What turns do to the callers, and to the j-th of them.
  record IsShared (j n : ℕ) (cs : List (Caller L)) (s : State L) (after : List (Caller L) × State L)
      : Type 0 where
    safe : AllSafe after.0
    same : after.1 ≡ s
    closer :
        (c : Caller L)
        → get_elem? cs j ≡ some c
        → (c' : Caller L) × (get_elem? after.0 j ≡ some c') × (steps_of c' ≤ steps_of c - n)

  unmoved : (j : ℕ) (cs : List (Caller L)) (s : State L) → AllSafe cs → IsShared j 0 cs s (cs, s)
  unmoved j cs s safe = record { safe = safe; same = refl; closer = λ c h. (c, h, omega arith) }

  turn-IsShared :
      (i j : ℕ) (cs : List (Caller L)) (s : State L)
      → s.logger_instance ≡ some l
      → AllSafe cs
      → IsShared j (hits i j) cs s (turn L i cs s)
  unfolding turn
  turn-IsShared i j [] s h safe = record { safe = tt; same = refl; closer = λ c at_j. cc }
  turn-IsShared zero zero (c ∷ cs) s h (first, others) =
      let (safe, same, closer) = step-IsSafe c s h first in
      record {
        safe = (safe, others);
        same = same;
        closer = λ d at_j. ((step L c s).0, refl, let e : d ≡ c = cc in rw e closer);
      }
  turn-IsShared zero (suc j) (c ∷ cs) s h (first, others) =
      let (safe, same, closer) = step-IsSafe c s h first in
      record { safe = (safe, others); same = same; closer = λ d at_j. (d, at_j, omega arith) }
  turn-IsShared (suc i) zero (c ∷ cs) s h (first, others) =
      let r = turn-IsShared i 0 cs s h others in
      record { safe = (first, r.safe); same = r.same; closer = λ d at_j. (d, at_j, omega arith) }
  turn-IsShared (suc i) (suc j) (c ∷ cs) s h (first, others) =
      let r = turn-IsShared i j cs s h others in
      record { safe = (first, r.safe); same = r.same; closer = r.closer }

  run-IsShared :
      (schedule : List ℕ) (j : ℕ) (cs : List (Caller L)) (s : State L)
      → s.logger_instance ≡ some l
      → AllSafe cs
      → IsShared j (turns_for j schedule) cs s (run L schedule cs s)
  unfolding run
  run-IsShared [] j cs s h all = unmoved j cs s all
  run-IsShared (i ∷ is) j cs s h all =
      let a = turn-IsShared i j cs s h all in
      let (cs', s') = turn L i cs s in
      let b = run-IsShared is j cs' s' (ap (λ t. t.logger_instance) a.same ∙ h) a.safe in
      record {
        safe = b.safe;
        same = b.same ∙ a.same;
        closer = λ c at_j.
            let (c', at', m) = a.closer c at_j in
            let (c'', at'', m') = b.closer c' at' in (c'', at'', omega (arith, m, m'));
      }

  AllSafe-get_elem? :
      (cs : List (Caller L)) (j : ℕ) (c : Caller L)
      → AllSafe cs
      → get_elem? cs j ≡ some c
      → IsSafe c
  AllSafe-get_elem? [] j c all h = cc
  AllSafe-get_elem? (d ∷ cs) zero c all h = let e : c ≡ d = cc in rw e all.0
  AllSafe-get_elem? (d ∷ cs) (suc j) c all h = AllSafe-get_elem? cs j c all.1 h

  has_got : (c : Caller L) → IsSafe c → steps_of c ≤ 0 → c ≡ got (some l)
  has_got testing safe h = absurd (omega arith)
  has_got making safe h = absurd safe
  has_got reading safe h = absurd (omega arith)
  has_got (got logger) safe h = ap got safe

  all_testing : (n : ℕ) → AllSafe (replicate n testing)
  all_testing zero = tt
  all_testing (suc n) = (tt, all_testing n)

  -- Once the logger has been made, any number of threads can ask for it at the same time: nothing
  -- changes, and a thread that has had two turns has that logger.
  pub get_logger_shared :
      (schedule : List ℕ) (n j : ℕ) (s : State L)
      → s.logger_instance ≡ some l
      → j < n
      → 2 ≤ turns_for j schedule
      → let (callers, last) = run L schedule (replicate n testing) s in
        (get_elem? callers j ≡ some (got (some l))) × (last ≡ s)
  get_logger_shared schedule n j s h in_range enough =
      let r = run-IsShared schedule j (replicate n testing) s h (all_testing n) in
      let (c, at_end, closer) = r.closer testing (get_elem?-replicate n j testing in_range) in
      let safe = AllSafe-get_elem? (run L schedule (replicate n testing) s).0 j c r.safe at_end in
      (at_end ∙ ap some (has_got c safe (omega (arith, closer, enough))), r.same)
