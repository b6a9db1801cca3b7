-- ===== src/MockPublisher/Spin.antt =====
-- A run of src/mock_telemetry_publisher.cpp, from its start over any number of timer firings.
use secure_ros2_gateway.Prelude.{
  ℕ, ◌+◌, ◌%◌, ◌^◌, ◌≡◌, refl, sym, ◌∙◌, List, [], ◌∷◌, Option, none, some, length, true,
}
use secure_ros2_gateway.Prelude.Fault.{resize, length-resize, write_at-zero}
use secure_ros2_gateway.Prelude.Int.{ℤ, to_uint64}
use secure_ros2_gateway.Prelude.Text.{Text, text}
use secure_ros2_gateway.Telemetry.{TelemetryData, default_data}
use secure_ros2_gateway.Ros
use secure_ros2_gateway.Json.{Json, IsJson, ok}
use secure_ros2_gateway.Ingestion.{success, parse_and_validate}
use secure_ros2_gateway.Security.{generate_secure_random_bytes, decrypt_aes_gcm}
use secure_ros2_gateway.Security.OpenSsl.{Evp, FitsInt, IsGcm}
use secure_ros2_gateway.Security.Gcm.{encrypt_aes_gcm_lem}
use secure_ros2_gateway.MockPublisher.Document.{JsonWriter, IsWriter}
use secure_ros2_gateway.MockPublisher.Accepted.{kind_of, publish_telemetry_sample_accepted}
use secure_ros2_gateway.MockPublisher.Nonce.{zero_iv, generate_secure_random_bytes_failed}
use secure_ros2_gateway.MockPublisher.{
  pre_shared_key, Arithmetic, Sample, Tick, payload, publish_telemetry_sample, spin, main_program,
}

module _ (E : Evp) where
  -- What RAND_bytes writes, when it does not fail, has the length that was asked for.
  abbrev pub FillsBuffer : Type 0
  FillsBuffer =
      (n : ℕ) (entropy : E.Entropy) (bytes : List ℕ)
      → E.rand_bytes n entropy ≡ some bytes
      → length bytes ≡ n

  abbrev MakesIv : E.Entropy → Type 0
  MakesIv entropy =
      (iv : List ℕ) × (generate_secure_random_bytes E entropy 12 ≡ some iv) × (length iv ≡ 12)

  drawn-MakesIv :
      FillsBuffer
      → (entropy : E.Entropy) (drawn : Option (List ℕ)) → E.rand_bytes 12 entropy ≡ drawn
      → MakesIv entropy
  unfolding generate_secure_random_bytes
  drawn-MakesIv fills entropy none e =
      (zero_iv, generate_secure_random_bytes_failed E entropy e, refl)
  drawn-MakesIv fills entropy (some bytes) e =
      let size = fills 12 entropy bytes e in
      rw e (bytes, write_at-zero bytes (resize 12 []) (length-resize 12 [] ∙ sym size), size)

module _ (J : Json) (W : JsonWriter J) (A : Arithmetic J.Double) (E : Evp) where
  -- The context is there, and the text is short enough for OpenSSL.
  abbrev pub IsServed : ℕ → Tick J W A E → Type 0
  IsServed before tick =
      ((ctx : E.Ctx) × (tick.ctx ≡ some ctx))
      × FitsInt (W.dump (payload J W A tick.now ((before + 1) % 2 ^ 64)))

  abbrev pub AreServed : ℕ → List (Tick J W A E) → Type 0
  AreServed before [] = Unit
  AreServed before (tick ∷ ticks) = IsServed before tick × AreServed ((before + 1) % 2 ^ 64) ticks

  -- What the sample of a firing is to a gateway that holds the same key, whatever its clock.
  abbrev pub IsAccepted : ℕ → Tick J W A E → Sample → Type 0
  IsAccepted before tick sample =
      (ctx : E.Ctx) (clock : ℕ)
      → (plaintext : Text) × (frame : TelemetryData J.Double) × (decrypt_aes_gcm E (some ctx)
            sample.encryption.ciphertext Ros.pre_shared_key sample.iv sample.encryption.tag []
          ≡ some (record { ok = true; plaintext = plaintext }))
        × (parse_and_validate J clock plaintext default_data ≡ (ok success, frame))
        × (frame.robot_id ≡ text "amr_robot_01")
        × (frame.sequence_id ≡ (before + 1) % 2 ^ 64)
        × (frame.timestamp_ns ≡ to_uint64 tick.now)
        × (frame.sensor_type ≡ kind_of ((before + 1) % 2 ^ 64))

  -- One sample for each firing, in their order.
  abbrev pub AreAccepted : ℕ → List (Tick J W A E) → List Sample → Type 0
  AreAccepted before [] [] = Unit
  AreAccepted before [] (sample ∷ samples) = ⊥
  AreAccepted before (tick ∷ ticks) [] = ⊥
  AreAccepted before (tick ∷ ticks) (sample ∷ samples) =
      IsAccepted before tick sample × AreAccepted ((before + 1) % 2 ^ 64) ticks samples

  module _ (L : IsJson J) (R : IsWriter J W) (G : IsGcm E) (fills : FillsBuffer E) where
    pub tick_sealed :
        (before : ℕ) (ctx : E.Ctx) (entropy : E.Entropy) (now : ℤ)
        → FitsInt (W.dump (payload J W A now ((before + 1) % 2 ^ 64)))
        → (sample : Sample) × (publish_telemetry_sample J W A E (some ctx) entropy now before
            ≡ some sample)
          × (sample.counter ≡ (before + 1) % 2 ^ 64)
          × (sample.encryption.ok ≡ true)
    unfolding publish_telemetry_sample
    tick_sealed before ctx entropy now fits =
        let (iv, made, size) = drawn-MakesIv E fills entropy (E.rand_bytes 12 entropy) refl in
        let plaintext = W.dump (payload J W A now ((before + 1) % 2 ^ 64)) in
        rw (made, encrypt_aes_gcm_lem E G ctx plaintext pre_shared_key iv [] [] refl size fits)
          (_, refl, refl, refl)

    tick-IsAccepted :
        (before : ℕ) (tick : Tick J W A E)
        → IsServed before tick
        → (sample : Sample) × (publish_telemetry_sample J W A E tick.ctx tick.entropy tick.now
              before
            ≡ some sample)
          × (sample.counter ≡ (before + 1) % 2 ^ 64)
          × IsAccepted before tick sample
    tick-IsAccepted before tick ((ctx, has), fits) =
        let (sample, made, count, done) = tick_sealed before ctx tick.entropy tick.now fits in
        let short : FitsInt (W.dump (payload J W A tick.now sample.counter)) = rw count fits in
        (
          sample,
          rw has made,
          count,
          λ ctx' clock.
              publish_telemetry_sample_accepted J W A E L R G ctx ctx' tick.entropy tick.now before
                clock made done short,
        )

    spin-AreAccepted :
        (ticks : List (Tick J W A E)) (before : ℕ)
        → AreServed before ticks
        → (samples : List Sample) × (spin J W A E before ticks ≡ some samples)
          × AreAccepted before ticks samples
    unfolding spin
    spin-AreAccepted [] before served = ([], refl, tt)
    spin-AreAccepted (tick ∷ ticks) before (now, later) =
        let (sample, made, count, good) = tick-IsAccepted before tick now in
        let (samples, ran, all_good) = spin-AreAccepted ticks ((before + 1) % 2 ^ 64) later in
        rw (made, count, ran) (sample ∷ samples, refl, (good, all_good))

    -- Over the libraries as documented, a run of the publisher writes nothing out of bounds,
    -- whether or not RAND_bytes fails, and makes one sample for each firing of the timer, when
    -- OpenSSL hands out its contexts and the texts fit an int. The samples are numbered from 1 on,
    -- up to the wrap of 64 bits, and each one decrypts under the gateway's key to a text that the
    -- ingestion engine accepts as a frame of this robot, this number and this time, of the kind of
    -- sensor whose turn it is.
    pub main_program_accepted :
        (ticks : List (Tick J W A E))
        → AreServed 0 ticks
        → (samples : List Sample) × (main_program J W A E ticks ≡ some samples)
          × AreAccepted 0 ticks samples
    unfolding main_program
    main_program_accepted ticks served = spin-AreAccepted ticks 0 served
