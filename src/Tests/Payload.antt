-- ===== src/Tests/Payload.antt =====
-- The JSON text of two payloads that hold the same and were put together in different orders.
use mathlib.Core.List.Perm
use secure_ros2_gateway.Prelude.{ℕ, refl, List, [], ◌∷◌, arith}
use secure_ros2_gateway.Prelude.Text.{Text, text, text_eq, text_eq_iff}
use secure_ros2_gateway.Prelude.Dict.{lookup}
use secure_ros2_gateway.Prelude.Dict.Order.{SameEntries}
use secure_ros2_gateway.Storage.Payload.{payload_json}
use secure_ros2_gateway.Storage.Payload.Members.{Lists, members_of, payload_json-members_of}
use secure_ros2_gateway.Tests.Storage.{plain}

abbrev payload : List (Text × ℕ)
payload = (text "load", 3) ∷ (text "battery", 7) ∷ []

abbrev other : List (Text × ℕ)
other = (text "battery", 7) ∷ (text "load", 3) ∷ []

same : SameEntries payload other
unfolding lookup
same k = ground (arith, text_eq_iff (text "load") k, text_eq_iff (text "battery") k)

payload_json-members_of_example :
    Lists plain (payload_json plain payload) (members_of plain payload)
    × Lists plain (payload_json plain other) (members_of plain payload)
unfolding lookup text_eq
payload_json-members_of_example =
    payload_json-members_of plain (λ kvs. Perm.rfl) payload other (refl, (refl, tt))
      (refl, (refl, tt)) same
