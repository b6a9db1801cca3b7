-- ===== src/Tests/MockPublisher.antt =====
-- src/mock_telemetry_publisher.cpp at work, over the small cipher and a small JSON library.
use secure_ros2_gateway.Prelude.{
  ℕ, zero, suc, ◌∷◌, ◌+◌, ◌-◌, ◌*◌, ◌^◌, ◌<◌, ◌≡◌, refl, true, List, [], some, replicate, length,
  length-replicate, arith,
}
use secure_ros2_gateway.Prelude.Fault.{resize, write_at}
use secure_ros2_gateway.Prelude.Int.{pos, to_uint64}
use secure_ros2_gateway.Prelude.Text.{Text}
use secure_ros2_gateway.Security.{generate_secure_random_bytes}
use secure_ros2_gateway.Security.Toy.{blank, toy, toy-IsGcm}
use secure_ros2_gateway.Security.Gcm.{encrypt_aes_gcm_lem}
use secure_ros2_gateway.MockPublisher.{
  Arithmetic, Sample, pre_shared_key, Tick, reading, payload, publish_telemetry_sample,
  main_program,
}
use secure_ros2_gateway.MockPublisher.Toy.{
  member_json, member_json-IsJson, member_writer, member_writer-IsWriter,
}
use secure_ros2_gateway.MockPublisher.Nonce.{zero_iv, zero_iv_used}
use secure_ros2_gateway.MockPublisher.Spin.{
  FillsBuffer, AreServed, AreAccepted, main_program_accepted,
}

abbrev pub small : Arithmetic ℕ
small = record {
  literal = λ t. length t;
  of_uint64 = λ n. n;
  plus = λ a b. a + b;
  minus = λ a b. a - b;
  times = λ a b. a * b;
}

abbrev plaintext : Text
plaintext = member_writer.dump (payload member_json member_writer small (pos 900) 8)

abbrev iv : List ℕ
iv = replicate 12 5

abbrev sample : Sample
sample = record {
  counter = 8;
  iv = iv;
  encryption = record {
    ok = true;
    ciphertext = plaintext;
    tag = toy-IsGcm.tag_of pre_shared_key iv plaintext;
  };
}

short : length plaintext < 2 ^ 31
unfolding payload reading to_uint64
short = omega arith

sample_lem :
    publish_telemetry_sample member_json member_writer small toy (some blank) 5 (pos 900) 7
    ≡ some sample
unfolding publish_telemetry_sample generate_secure_random_bytes resize write_at toy-IsGcm
sample_lem =
    rw (encrypt_aes_gcm_lem toy toy-IsGcm blank plaintext pre_shared_key iv [] [] refl refl short)
      refl

zero_iv_used_example :
    publish_telemetry_sample member_json member_writer small toy (some blank) 0 (pos 900) 7
    ≡ some (record {
      counter = 8;
      iv = zero_iv;
      encryption = record {
        ok = true;
        ciphertext = plaintext;
        tag = toy-IsGcm.tag_of pre_shared_key zero_iv plaintext;
      };
    })
unfolding toy-IsGcm
zero_iv_used_example =
    zero_iv_used member_json member_writer small toy toy-IsGcm blank 0 (pos 900) 7 refl short

pub fills : FillsBuffer toy
fills n zero bytes h = cc
fills n (suc e) bytes h =
    let same : bytes ≡ replicate n (suc e) = cc in rw same (length-replicate n (suc e))

-- RAND_bytes fails at the second firing.
abbrev pub ticks : List (Tick member_json member_writer small toy)
ticks =
    record { ctx = some blank; entropy = 5; now = pos 900 }
    ∷ record { ctx = some blank; entropy = 0; now = pos 950 }
    ∷ []

pub served : AreServed member_json member_writer small toy 0 ticks
unfolding payload reading to_uint64
served = (((blank, refl), omega arith), (((blank, refl), omega arith), tt))

main_program_accepted_example :
    (samples : List Sample) × (main_program member_json member_writer small toy ticks
      ≡ some samples)
    × AreAccepted member_json member_writer small toy 0 ticks samples
main_program_accepted_example =
    main_program_accepted member_json member_writer small toy member_json-IsJson
      member_writer-IsWriter toy-IsGcm fills ticks served
