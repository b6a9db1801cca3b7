-- ===== src/Logger/Threads/Race.antt =====
-- get_logger of src/utils/logger.cpp in several threads, before any call of init.
use secure_ros2_gateway.Prelude.{
  ℕ, zero, suc, ◌≡◌, refl, ap, ◌∙◌, List, [], ◌∷◌, ◌++◌, map, none, replicate, inl, inr,
  Option-cases,
}
use secure_ros2_gateway.Logger.{Spdlog, State, default_init, get_logger}
use secure_ros2_gateway.Logger.Threads.{
  Caller, testing, making, reading, got, tested, step, turn, run,
}

-- The threads in order.
abbrev pub round : ℕ → List ℕ
round zero = []
round (suc n) = 0 ∷ map suc (round n)

module _ (L : Spdlog) where
  -- The inits of n callers.
  abbrev pub inits : ℕ → State L → State L
  inits zero s = s
  inits (suc n) s = inits n (default_init L s)

  -- A caller alone is get_logger.
  alone-get_logger :
      (s : State L)
      → run L (0 ∷ 0 ∷ 0 ∷ []) (testing ∷ []) s ≡ (got (get_logger L s).0 ∷ [], (get_logger L s).1)
  unfolding run turn step get_logger
  alone-get_logger s = elim (Option-cases s.logger_instance) [
    | inl h ↦ rw h refl
    | inr (logger, h) ↦ rw h refl
  ]

  run-append :
      (is js : List ℕ) (cs : List (Caller L)) (s : State L)
      → run L (is ++ js) cs s ≡ run L js (run L is cs s).0 (run L is cs s).1
  unfolding run
  run-append [] js cs s = refl
  run-append (i ∷ is) js cs s = run-append is js (turn L i cs s).0 (turn L i cs s).1

  -- Steps of the other callers.
  run_others :
      (is : List ℕ) (c : Caller L) (cs : List (Caller L)) (s : State L)
      → run L (map suc is) (c ∷ cs) s ≡ (c ∷ (run L is cs s).0, (run L is cs s).1)
  unfolding run turn
  run_others [] c cs s = refl
  run_others (i ∷ is) c cs s = run_others is c (turn L i cs s).0 (turn L i cs s).1

  all_test :
      (n : ℕ) (s : State L)
      → s.logger_instance ≡ none
      → run L (round n) (replicate n testing) s ≡ (replicate n making, s)
  unfolding run turn step
  all_test zero s h = refl
  all_test (suc n) s h =
      ap (λ p. run L (map suc (round n)) (tested L p ∷ replicate n testing) s) h
      ∙ run_others (round n) making (replicate n testing) s
      ∙ ap (λ r. (making ∷ r.0, r.1)) (all_test n s h)

  all_make :
      (n : ℕ) (s : State L)
      → run L (round n) (replicate n making) s ≡ (replicate n reading, inits n s)
  unfolding run turn step
  all_make zero s = refl
  all_make (suc n) s =
      run_others (round n) reading (replicate n making) (default_init L s)
      ∙ ap (λ r. (reading ∷ r.0, r.1)) (all_make n (default_init L s))

  -- get_logger is not safe to call at the same time before init: when n threads test the pointer
  -- before any of them has set it, each of them runs init, on what the earlier ones have left, and
  -- does not look again whether there is a logger by then.
  pub get_logger_race :
      (n : ℕ) (s : State L)
      → s.logger_instance ≡ none
      → run L (round n ++ round n) (replicate n testing) s ≡ (replicate n reading, inits n s)
  get_logger_race n s h =
      run-append (round n) (round n) (replicate n testing) s
      ∙ ap (λ r. run L (round n) r.0 r.1) (all_test n s h)
      ∙ all_make n s
