-- ===== src/Ros/Incoming.antt =====
-- The JSON envelope that raw_telemetry_callback of src/ros/gateway_node.cpp reads: the `try` block
-- up to the call of process_incoming_raw_payload.
use secure_ros2_gateway.Prelude.{ℕ, List}
use secure_ros2_gateway.Prelude.Text.{Text, text}
use secure_ros2_gateway.Json.{Json, Except, ok, ◌>>=◌}

pub record Envelope : Type 0 where
  pub client_id : Text
  pub ciphertext : List ℕ
  pub iv : List ℕ
  pub tag : List ℕ

module _ (J : Json) where
  open J use {Value, parse, index, get_string, get_bytes}

  pub read_envelope : Text → Except Envelope
  read_envelope msg = do
    j ← parse msg
    sender_id ← index j (text "client_id") >>= get_string
    payload ← index j (text "ciphertext") >>= get_bytes
    iv ← index j (text "iv") >>= get_bytes
    tag ← index j (text "tag") >>= get_bytes
    ok (record { client_id = sender_id; ciphertext = payload; iv = iv; tag = tag })
