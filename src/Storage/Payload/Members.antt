-- ===== src/Storage/Payload/Members.antt =====
-- The JSON text of a payload in src/storage/storage_engine.cpp, up to the order in which the
-- unordered map is walked.
use mathlib.Core.List.Perm
use mathlib.Core.List.{Perm}
use mathlib.Core.Quot
use mathlib.Core.Quot.{Quot}
use secure_ros2_gateway.Prelude.{◌≡◌, List, ◌++◌, map}
use secure_ros2_gateway.Prelude.Text.{Text, text}
use secure_ros2_gateway.Prelude.Dict.{NodupKeys}
use secure_ros2_gateway.Prelude.Dict.Order.{SameEntries, SameEntries-Perm}
use secure_ros2_gateway.Storage.Payload.{Doubles, member, payload_json}
use secure_ros2_gateway.Storage.Payload.Format.{join, payload_json_lem}

-- Texts in no order, with their multiplicity.
abbrev pub Bag : Type 0
Bag = Quot (Perm {A = Text})

abbrev pub bag : List Text → Bag
bag = Quot.mk

module _ (F : Doubles) where
  -- An object whose members are these, with commas between them.
  abbrev pub Lists : Text → Bag → Type 0
  Lists json members =
      (ms : List Text) × (json ≡ text "{" ++ join ms ++ text "}") × (bag ms ≡ members)

  -- The map is walked in some order, each entry once.
  abbrev pub WalksAll : Type 0
  WalksAll = (payload : List (Text × F.Double)) → Perm (F.walk payload) payload

  abbrev pub members_of : List (Text × F.Double) → Bag
  members_of payload = bag (map (member F) payload)

  -- Where a map is walked in some order, each entry once, and payloads hold each key once: the text
  -- of a payload lists its entries, each once and in some order; payloads that hold the
  -- same under every key, however they were put together, list the same members.
  pub payload_json-members_of :
      WalksAll
      → (payload other : List (Text × F.Double)) → NodupKeys payload
      → NodupKeys other
      → SameEntries payload other
      → Lists (payload_json F payload) (members_of payload)
        × Lists (payload_json F other) (members_of payload)
  payload_json-members_of walks payload other u u' same =
      let listed : Lists (payload_json F payload) (members_of payload) = (
        map (member F) (F.walk payload),
        payload_json_lem F payload,
        Quot.sound (Perm.map (member F) (walks payload)),
      ) in
      let listed' : Lists (payload_json F other) (members_of payload) = (
        map (member F) (F.walk other),
        payload_json_lem F other,
        Quot.sound (
            Perm.map (member F)
              (Perm.trans (walks other) (Perm.symm (SameEntries-Perm payload other u u' same)))),
      ) in
      (listed, listed')
