-- ===== src/MockPublisher/Nonce.antt =====
-- The IV of a sample of src/mock_telemetry_publisher.cpp when RAND_bytes fails.
use secure_ros2_gateway.Prelude.{ℕ, ◌+◌, ◌%◌, ◌^◌, ◌≡◌, refl, true, List, [], none, some, replicate}
use secure_ros2_gateway.Prelude.Fault.{resize, write_at}
use secure_ros2_gateway.Prelude.Int.{ℤ}
use secure_ros2_gateway.Json.{Json}
use secure_ros2_gateway.Security.{generate_secure_random_bytes}
use secure_ros2_gateway.Security.OpenSsl.{Evp, FitsInt, IsGcm}
use secure_ros2_gateway.Security.Gcm.{encrypt_aes_gcm_lem}
use secure_ros2_gateway.MockPublisher.Document.{JsonWriter}
use secure_ros2_gateway.MockPublisher.{
  pre_shared_key, Arithmetic, payload, publish_telemetry_sample,
}

abbrev pub zero_iv : List ℕ
zero_iv = replicate 12 0

-- The buffer of generate_secure_random_bytes then stays as the vector made it.
pub generate_secure_random_bytes_failed :
    (E : Evp) (entropy : E.Entropy)
    → E.rand_bytes 12 entropy ≡ none
    → generate_secure_random_bytes E entropy 12 ≡ some zero_iv
unfolding generate_secure_random_bytes resize write_at
generate_secure_random_bytes_failed E entropy failed = rw failed refl

module _ (J : Json) (W : JsonWriter J) (A : Arithmetic J.Double) (E : Evp) (G : IsGcm E) where
  -- When RAND_bytes fails, a sample is still encrypted and reported as a success, under the
  -- pre-shared key and the IV of twelve zeros: all such samples share one key and one IV.
  pub zero_iv_used :
      (ctx : E.Ctx) (entropy : E.Entropy) (now : ℤ) (before : ℕ)
      → E.rand_bytes 12 entropy ≡ none
      → FitsInt (W.dump (payload J W A now ((before + 1) % 2 ^ 64)))
      → let counter = (before + 1) % 2 ^ 64 in
        let ciphertext = G.seal pre_shared_key zero_iv (W.dump (payload J W A now counter)) in
        publish_telemetry_sample J W A E (some ctx) entropy now before
        ≡ some (record {
          counter = counter;
          iv = zero_iv;
          encryption = record {
            ok = true;
            ciphertext = ciphertext;
            tag = G.tag_of pre_shared_key zero_iv ciphertext;
          };
        })
  unfolding publish_telemetry_sample
  zero_iv_used ctx entropy now before failed fits =
      let plaintext = W.dump (payload J W A now ((before + 1) % 2 ^ 64)) in
      rw
        (
          generate_secure_random_bytes_failed E entropy failed,
          encrypt_aes_gcm_lem E G ctx plaintext pre_shared_key zero_iv [] [] refl refl fits,
        )
        refl
