-- ===== src/Logger/Messages.antt =====
-- A program that uses the logger of src/utils/logger.cpp by its methods and by the macros of its
-- header: when it dereferences a null pointer.
use secure_ros2_gateway.Prelude.{
  ℕ, ◌*◌, ◌%◌, ◌^◌, ◌≡◌, ◌⊎◌, ◌↔◌, inl, inr, refl, ap, ◌∙◌, List, [], ◌∷◌, Option, none, some,
  arith,
}
use secure_ros2_gateway.Prelude.Text.{Text, text}
use secure_ros2_gateway.Prelude.Fault.{◌>>=◌}
use secure_ros2_gateway.Logger
use secure_ros2_gateway.Logger.{Spdlog, State, Level, init, get_logger, default_init, log_message}

pub data Use : Type 0 where
  inits : Text → Text → ℕ → ℕ → Use
  logs : Level → Text → Use
  flushes : Use

module _ (L : Spdlog) where
  use_logger : Use → State L → Option (State L)
  use_logger (inits name path megabytes files) s = some (init L name path megabytes files s)
  use_logger (logs level message) s = log_message L level message s
  use_logger flushes s = some (Logger.flush L s)

  pub use_all : List Use → State L → Option (State L)
  use_all [] s = some s
  use_all (u ∷ us) s = use_logger u s >>= use_all us

  -- One of the two sinks cannot be made.
  abbrev pub LacksSink : Text → ℕ → ℕ → L.World → Type 0
  LacksSink path bytes files w =
      ((L.console_sink w).0 ≡ none)
      ⊎ ((L.rotating_file_sink path bytes files (L.console_sink w).1).0 ≡ none)

  abbrev file_tried : Text → ℕ → ℕ → Option L.Sink × L.World → L.World
  file_tried path bytes files (none, w) = w
  file_tried path bytes files (some console, w) = (L.rotating_file_sink path bytes files w).1

  -- What the attempt leaves.
  abbrev pub tried : Text → ℕ → ℕ → L.World → L.World
  tried path bytes files w = file_tried path bytes files (L.console_sink w)

  -- While there is no logger: no init before the first message can make one, nor can the message.
  abbrev pub Fails : List Use → L.World → Type 0
  Fails [] w = ⊥
  Fails (inits name path megabytes files ∷ us) w =
      let bytes = megabytes * 1024 * 1024 % 2 ^ 64 in
      LacksSink path bytes files w × Fails us (tried path bytes files w)
  Fails (logs level message ∷ us) w = LacksSink (text "logs/gateway.log") 10485760 5 w
  Fails (flushes ∷ us) w = Fails us w

  -- What init does.
  init_cases :
      (name path : Text) (megabytes files : ℕ) (s : State L)
      → let bytes = megabytes * 1024 * 1024 % 2 ^ 64 in
        let s' = init L name path megabytes files s in
        (LacksSink path bytes files s.world
          × (s' ≡ record s { world = tried path bytes files s.world }))
        ⊎ (¬ (LacksSink path bytes files s.world)
            × ((logger : L.Logger) × (s'.logger_instance ≡ some logger)))
  unfolding init
  init_cases name path megabytes files s = ground arith

  abbrev HasLogger : State L → Type 0
  HasLogger s = (logger : L.Logger) × (s.logger_instance ≡ some logger)

  use_logger-HasLogger :
      (u : Use) (s : State L)
      → HasLogger s
      → (s' : State L) × (use_logger u s ≡ some s') × HasLogger s'
  unfolding use_logger init log_message get_logger Logger.flush
  use_logger-HasLogger (inits name path megabytes files) s (logger, h) =
      elim (init_cases name path megabytes files s) [
        | inl (_, e) ↦ (_, refl, (logger, ap (λ t. t.logger_instance) e ∙ h))
        | inr (_, made) ↦ (_, refl, made)
      ]
  use_logger-HasLogger (logs level message) s (logger, h) = rw h (_, refl, (logger, refl))
  use_logger-HasLogger flushes s (logger, h) = rw h (_, refl, (logger, refl))

  use_all-HasLogger :
      (us : List Use) (s : State L) → HasLogger s → (s' : State L) × (use_all us s ≡ some s')
  unfolding use_all
  use_all-HasLogger [] s h = (s, refl)
  use_all-HasLogger (u ∷ us) s h =
      let (s', eq, h') = use_logger-HasLogger u s h in rw eq (use_all-HasLogger us s' h')

  get_logger_fresh :
      (s : State L)
      → s.logger_instance ≡ none
      → get_logger L s ≡ ((default_init L s).logger_instance, default_init L s)
  unfolding get_logger
  get_logger_fresh s h = rw h refl

  -- A message while there is no logger.
  abbrev Tried : State L → Option (State L) → Type 0
  Tried s after =
      let lacks = LacksSink (text "logs/gateway.log") 10485760 5 s.world in
      (lacks × (after ≡ none)) ⊎ (¬ lacks × ((s' : State L) × (after ≡ some s') × HasLogger s'))

  log_message-Tried :
      (level : Level) (message : Text) (s : State L)
      → s.logger_instance ≡ none
      → Tried s (log_message L level message s)
  unfolding log_message default_init
  log_message-Tried level message s h =
      let s' = default_init L s in
      rw (get_logger_fresh s h)
        (elim (init_cases (text "gateway") (text "logs/gateway.log") 10 5 s) [
          | inl (lacks, e) ↦ inl (lacks, rw (ap (λ t. t.logger_instance) e ∙ h) refl)
          | inr (has, (logger, e)) ↦
              inr (has, (_, ap (λ o. Logger.write_to L level message (o, s')) e, (logger, e)))
        ])

  goes_on :
      (u : Use) (us : List Use) (s s' : State L)
      → use_logger u s ≡ some s'
      → HasLogger s'
      → ¬ (use_all (u ∷ us) s ≡ none)
  unfolding use_all
  goes_on u us s s' eq has fault =
      let (last, out) = use_all-HasLogger us s' has in cc (rw eq at fault)

  flush_none : (s : State L) → s.logger_instance ≡ none → Logger.flush L s ≡ s
  unfolding Logger.flush
  flush_none s h = ground arith

  use_all-Fails :
      (us : List Use) (s : State L)
      → s.logger_instance ≡ none
      → (use_all us s ≡ none) ↔ Fails us s.world
  unfolding use_all use_logger
  use_all-Fails [] s h = (λ fault. cc, λ f. absurd f)
  use_all-Fails (inits name path megabytes files ∷ us) s h =
      let bytes = megabytes * 1024 * 1024 % 2 ^ 64 in
      elim (init_cases name path megabytes files s) [
        | inl (lacks, e) ↦
            let rest = use_all-Fails us (record s { world = tried path bytes files s.world }) h in
            rw e (λ fault. (lacks, rest.0 fault), λ (_, later). rest.1 later)
        | inr (has, made) ↦ (
          λ fault. absurd (goes_on (inits name path megabytes files) us s _ refl made fault),
          λ (lacks, _). absurd (has lacks),
        )
      ]
  use_all-Fails (logs level message ∷ us) s h = elim (log_message-Tried level message s h) [
    | inl (lacks, e) ↦ (λ fault. lacks, λ _. rw e refl)
    | inr (has, (s', e, made)) ↦ (
      λ fault. absurd (goes_on (logs level message) us s s' e made fault),
      λ lacks. absurd (has lacks),
    )
  ]
  use_all-Fails (flushes ∷ us) s h = rw (flush_none s h) (use_all-Fails us s h)

  -- A program that uses the logger faults, by following a null pointer, exactly when it starts
  -- without a logger and its first message comes before any init that can make both sinks, and
  -- cannot have them made itself. A program that starts with a logger does not fault, not even
  -- after an init that fails.
  pub use_all_faults :
      (us : List Use) (s : State L)
      → (use_all us s ≡ none) ↔ ((s.logger_instance ≡ none) × Fails us s.world)
  use_all_faults us s = go s.logger_instance refl
    where
      go :
          (o : Option L.Logger)
          → s.logger_instance ≡ o
          → (use_all us s ≡ none) ↔ ((s.logger_instance ≡ none) × Fails us s.world)
      go none h = let (to, from) = use_all-Fails us s h in (λ fault. (h, to fault), λ f. from f.1)
      go (some logger) h =
          let (last, out) = use_all-HasLogger us s (logger, h) in (λ fault. cc, λ f. cc (f.0))
