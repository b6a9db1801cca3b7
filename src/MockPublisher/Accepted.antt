-- ===== src/MockPublisher/Accepted.antt =====
-- What the samples of src/mock_telemetry_publisher.cpp are to the gateway.
use secure_ros2_gateway.Prelude.{
  ℕ, ◌+◌, ◌%◌, ◌^◌, ◌≡◌, refl, ◌∙◌, ◌&&◌, not, Bool, true, false, [], Option, none, some, arith,
  if◌then◌else◌, ◌==◌,
}
use secure_ros2_gateway.Prelude.Fault.{◌>>=◌}
use secure_ros2_gateway.Prelude.Int.{ℤ, to_uint64}
use secure_ros2_gateway.Prelude.Text.{Text, text, text_eq}
use secure_ros2_gateway.Telemetry.{TelemetryData, default_data}
use secure_ros2_gateway.Ros
use secure_ros2_gateway.Json.{Json, IsJson, Except, ok}
use secure_ros2_gateway.Ingestion.{success, field, sensor_category, parse_and_validate}
use secure_ros2_gateway.Ingestion.Payload.{load}
use secure_ros2_gateway.Ingestion.Record.{record_of, robot_id_of, number_or}
use secure_ros2_gateway.Ingestion.Status.{parse_and_validate_ok}
use secure_ros2_gateway.Security.{generate_secure_random_bytes, encrypt_aes_gcm, decrypt_aes_gcm}
use secure_ros2_gateway.Security.OpenSsl.{Evp, FitsInt, IsGcm}
use secure_ros2_gateway.Security.Gcm.{decrypt_aes_gcm-encrypt_aes_gcm}
use secure_ros2_gateway.MockPublisher.Document.{
  Scalar, string_value, uint64_value, int64_value, assigned, all_ascii, JsonWriter, Reads, IsWriter,
}
use secure_ros2_gateway.MockPublisher.{
  pre_shared_key, Arithmetic, Sample, reading, payload, publish_telemetry_sample,
}

wrapped : (n : ℕ) → (n % 2 ^ 64) % 2 ^ 64 ≡ n % 2 ^ 64
wrapped n = omega arith

bind_some :
    {A B : Type 0} (m : Option A) (f : A → Option B) {b : B}
    → (m >>= f) ≡ some b
    → (a : A) × (m ≡ some a) × (f a ≡ some b)
bind_some none f h = cc
bind_some (some a) f h = (a, refl, h)

-- The kinds of sensor, in their turn.
abbrev pub kind_of : ℕ → Text
kind_of counter =
    if counter % 3 == 0
    then text "battery"
    else if counter % 3 == 1
    then text "temperature"
    else text "velocity"

module _ (J : Json) (W : JsonWriter J) (A : Arithmetic J.Double) (E : Evp) where
  pub made :
      (ctx : Option E.Ctx) (entropy : E.Entropy) (now : ℤ) (before : ℕ) (sample : Sample)
      → publish_telemetry_sample J W A E ctx entropy now before ≡ some sample
      → (sample.counter ≡ (before + 1) % 2 ^ 64)
        × (encrypt_aes_gcm E ctx
              (W.dump (payload J W A now ((before + 1) % 2 ^ 64)))
              pre_shared_key
              sample.iv
              []
              []
            ≡ some sample.encryption)
  unfolding publish_telemetry_sample
  made ctx entropy now before sample h =
      let (iv, a, h1) = bind_some (generate_secure_random_bytes E entropy 12) _ h in
      let (sent, b, h2) =
        bind_some
          (encrypt_aes_gcm E ctx (W.dump (payload J W A now ((before + 1) % 2 ^ 64))) pre_shared_key
            iv [] [])
          _ h1 in
      ground (arith, b, h2)

  pub payload_ascii : (now : ℤ) (n : ℕ) → all_ascii (payload J W A now n) ≡ true
  unfolding payload reading
  payload_ascii now n = ground arith

  -- The members that the ingestion engine looks for.
  members_lem :
      (now : ℤ) (n : ℕ)
      → let ms = payload J W A now n in
        (assigned ms (text "client_id") ≡ some (string_value (text "amr_robot_01")))
        × (assigned ms (text "sequence_id") ≡ some (uint64_value n))
        × (assigned ms (text "timestamp_ns") ≡ some (int64_value now))
  unfolding payload reading text_eq
  members_lem now n = ground arith

  is_some : Option (Scalar J.Double) → Bool
  is_some none = false
  is_some (some s) = true

  kinds_lem :
      (now : ℤ) (n : ℕ)
      → let ms = payload J W A now n in
        (is_some (assigned ms (text "battery")) ≡ (n % 3 == 0))
        × (is_some (assigned ms (text "temperature")) ≡ (n % 3 == 1))
        × (is_some (assigned ms (text "velocity_x")) ≡ not (n % 3 == 0) && not (n % 3 == 1))
  unfolding payload reading text_eq is_some
  kinds_lem now n = ground arith

  contains-assigned :
      (v : J.Value) (key : Text) (s : Option (Scalar J.Double))
      → Reads J v key s
      → J.contains v key ≡ is_some s
  unfolding is_some
  contains-assigned v key none r = r
  contains-assigned v key (some s) r = r.0

  Reads-as :
      (v : J.Value) (key : Text) (s : Option (Scalar J.Double)) (s' : Option (Scalar J.Double))
      → s ≡ s'
      → Reads J v key s
      → Reads J v key s'
  Reads-as v key s s' e r = rw (← e) r

  field_lem :
      {B : Type 0} (get : J.Value → Except B) (v : J.Value) (key : Text) (w : J.Value) {b : B}
      → J.index v key ≡ ok w
      → get w ≡ ok b
      → field J get v key ≡ ok b
  field_lem get v key w i h = cc

  category :
      (v : J.Value) (n : ℕ)
      → J.contains v (text "battery") ≡ (n % 3 == 0)
      → J.contains v (text "temperature") ≡ (n % 3 == 1)
      → J.contains v (text "velocity_x") ≡ not (n % 3 == 0) && not (n % 3 == 1)
      → sensor_category J v ≡ kind_of n
  unfolding sensor_category
  category v n b t x = rw (b, t, x) (ground arith)

  -- The one kind of reading that the document has.
  pub kinds_read :
      (now : ℤ) (n : ℕ) (v : J.Value)
      → ((key : Text) → Reads J v key (assigned (payload J W A now n) key))
      → (J.contains v (text "battery") ≡ (n % 3 == 0))
        × (J.contains v (text "temperature") ≡ (n % 3 == 1))
        × (J.contains v (text "velocity_x") ≡ not (n % 3 == 0) && not (n % 3 == 1))
  kinds_read now n v r =
      let (battery, temperature, velocity) = kinds_lem now n in
      (
        contains-assigned v _ _ (r (text "battery")) ∙ battery,
        contains-assigned v _ _ (r (text "temperature")) ∙ temperature,
        contains-assigned v _ _ (r (text "velocity_x")) ∙ velocity,
      )

  pub sample_record :
      (now : ℤ) (n clock : ℕ) (v : J.Value)
      → ((key : Text) → Reads J v key (assigned (payload J W A now n) key))
      → record_of J clock v
        ≡ ok (record {
          robot_id = text "amr_robot_01";
          sensor_type = kind_of n;
          timestamp_ns = to_uint64 now;
          sequence_id = n % 2 ^ 64;
          payload_values = load J (J.items v) [];
        })
  sample_record now n clock v r =
      let (client, sequence, timestamp) = members_lem now n in
      let (b, t, x) = kinds_read now n v r in
      let (c, w, i, id) = Reads-as v (text "client_id") _ _ client (r (text "client_id")) in
      let (c', w', i', number) =
        Reads-as v (text "sequence_id") _ _ sequence (r (text "sequence_id")) in
      let (c'', w'', i'', time) =
        Reads-as v (text "timestamp_ns") _ _ timestamp (r (text "timestamp_ns")) in
      let named : robot_id_of J v ≡ ok (text "amr_robot_01") =
        rw c (field_lem J.get_string v _ w i id) in
      let counted : number_or J v (text "sequence_id") 0 ≡ ok (n % 2 ^ 64) =
        rw c' (field_lem J.get_uint64 v _ w' i' number) in
      let dated : number_or J v (text "timestamp_ns") (clock % 2 ^ 64) ≡ ok (to_uint64 now) =
        rw c'' (field_lem J.get_uint64 v _ w'' i'' time) in
      rw (named, counted, dated, category v n b t x) refl

  -- What the publisher seals is what the gateway could read: if the encryption succeeded, and the
  -- text is short enough for OpenSSL's int, decryption under the same key gives it back, and the
  -- ingestion engine accepts it as a frame of this robot, this counter and this time, of the kind
  -- of sensor whose turn it is.
  pub publish_telemetry_sample_accepted :
      IsJson J
      → IsWriter J W
      → IsGcm E
      → (ctx ctx' : E.Ctx) (entropy : E.Entropy) (now : ℤ) (before clock : ℕ) {sample : Sample}
      → publish_telemetry_sample J W A E (some ctx) entropy now before ≡ some sample
      → sample.encryption.ok ≡ true
      → FitsInt (W.dump (payload J W A now sample.counter))
      → (plaintext : Text) × (frame : TelemetryData J.Double) × (decrypt_aes_gcm E
            (some ctx')
            sample.encryption.ciphertext
            Ros.pre_shared_key
            sample.iv
            sample.encryption.tag
            []
          ≡ some (record { ok = true; plaintext = plaintext }))
        × (parse_and_validate J clock plaintext default_data ≡ (ok success, frame))
        × (frame.robot_id ≡ text "amr_robot_01")
        × (frame.sequence_id ≡ (before + 1) % 2 ^ 64)
        × (frame.timestamp_ns ≡ to_uint64 now)
        × (frame.sensor_type ≡ kind_of ((before + 1) % 2 ^ 64))
  publish_telemetry_sample_accepted L R G ctx ctx' entropy now before clock {sample} h done fits =
      let (count, sealed) = made (some ctx) entropy now before sample h in
      let n = (before + 1) % 2 ^ 64 in
      let (v, p, reads) = R.read_back (payload J W A now n) (payload_ascii now n) in
      (
        W.dump (payload J W A now n),
        _,
        decrypt_aes_gcm-encrypt_aes_gcm E G ctx ctx' (W.dump (payload J W A now n)) pre_shared_key
            sample.iv [] [] [] sealed done (rw count at fits),
        parse_and_validate_ok J L clock (W.dump (payload J W A now n)) default_data p
            (sample_record now n clock v reads),
        refl,
        wrapped (before + 1),
        refl,
        refl,
      )
