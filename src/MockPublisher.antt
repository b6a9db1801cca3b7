-- ===== src/MockPublisher.antt =====
-- src/mock_telemetry_publisher.cpp: the timer callback, which makes an encrypted sample, and main,
-- which runs it each time that the timer fires. Nothing sends the samples.
pub mod Document
pub mod Accepted
pub mod Nonce
pub mod Spin
pub mod Toy
use secure_ros2_gateway.Prelude.{
  ℕ, ◌+◌, ◌%◌, ◌^◌, Bool, List, [], ◌∷◌, Option, some, ◌==◌, if◌then◌else◌,
}
use secure_ros2_gateway.Prelude.Fault.{◌>>=◌}
use secure_ros2_gateway.Prelude.Int.{ℤ}
use secure_ros2_gateway.Prelude.Text.{Text, text}
use secure_ros2_gateway.Json.{Json}
use secure_ros2_gateway.Security.{Encryption, generate_secure_random_bytes, encrypt_aes_gcm}
use secure_ros2_gateway.Security.OpenSsl.{Evp}
use Document.{Scalar, string_value, uint64_value, int64_value, double_value, JsonWriter}

abbrev pub pre_shared_key : List ℕ
pre_shared_key =
    0x60 ∷ 0x3d ∷ 0xeb ∷ 0x10 ∷ 0x15 ∷ 0xca ∷ 0x71 ∷ 0xbe ∷ 0x2b ∷ 0x73 ∷ 0xae ∷ 0xf0 ∷ 0x85 ∷ 0x7d
    ∷ 0x77 ∷ 0x81 ∷ 0x1f ∷ 0x35 ∷ 0x2c ∷ 0x07 ∷ 0x3b ∷ 0x61 ∷ 0x08 ∷ 0xd7 ∷ 0x2d ∷ 0x98 ∷ 0x10
    ∷ 0xa3 ∷ 0x09 ∷ 0x14 ∷ 0xdf ∷ 0xf4 ∷ []

-- The arithmetic of `double` that the samples use.
pub record Arithmetic (D : Type 0) : Type 0 where
  pub literal : Text → D
  pub of_uint64 : ℕ → D
  pub plus : D → D → D
  pub minus : D → D → D
  pub times : D → D → D

-- What a call leaves: the counter, the IV, and what encryption returned.
pub record Sample : Type 0 where
  pub counter : ℕ
  pub iv : List ℕ
  pub encryption : Encryption

module _ (J : Json) (W : JsonWriter J) (A : Arithmetic J.Double) where
  open A use {literal, of_uint64, plus, minus, times}

  -- The members that depend on the kind of sensor.
  unfoldable pub reading : ℕ → List (Text × Scalar J.Double)
  reading counter =
      if counter % 3 == 0
      then (
        text "battery",
        double_value
            (minus (literal (text "98.5")) (times (of_uint64 counter) (literal (text "0.1")))),
      )
        ∷ []
      else if counter % 3 == 1
      then (
        text "temperature",
        double_value
            (plus (literal (text "42.3")) (times (of_uint64 counter) (literal (text "0.05")))),
      )
        ∷ []
      else (text "velocity_x", double_value (literal (text "0.75")))
        ∷ (text "velocity_y", double_value (literal (text "0.00")))
        ∷ []

  unfoldable pub payload : ℤ → ℕ → List (Text × Scalar J.Double)
  unfolding reading
  payload now counter =
      (text "client_id", string_value (text "amr_robot_01"))
      ∷ (text "sequence_id", uint64_value counter)
      ∷ (text "timestamp_ns", int64_value now)
      ∷ reading counter

  module _ (E : Evp) where
    -- `now` is what the system clock counts. `none` is a write out of bounds.
    unfoldable pub publish_telemetry_sample : Option E.Ctx → E.Entropy → ℤ → ℕ → Option Sample
    publish_telemetry_sample ctx entropy now before =
        let counter = (before + 1) % 2 ^ 64 in
        let plaintext = W.dump (payload now counter) in
        generate_secure_random_bytes E entropy 12 >>= λ iv.
        encrypt_aes_gcm E ctx plaintext pre_shared_key iv [] [] >>= λ encryption.
        some (record { counter = counter; iv = iv; encryption = encryption })

    -- What one firing of the timer finds: the context that OpenSSL hands out or refuses, the state
    -- of its generator, and the time.
    pub record Tick : Type 0 where
      pub ctx : Option E.Ctx
      pub entropy : E.Entropy
      pub now : ℤ

    -- The firings that the executor serves, one after the other.
    unfoldable pub spin : ℕ → List Tick → Option (List Sample)
    unfolding publish_telemetry_sample
    spin counter [] = some []
    spin counter (tick ∷ ticks) =
        publish_telemetry_sample tick.ctx tick.entropy tick.now counter >>= λ sample.
        spin sample.counter ticks >>= λ samples. some (sample ∷ samples)

    -- From the constructor on, for as many firings as come before the shutdown.
    unfoldable pub main_program : List Tick → Option (List Sample)
    unfolding spin
    main_program ticks = spin 0 ticks
