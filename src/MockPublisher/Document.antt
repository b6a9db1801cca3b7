-- ===== src/MockPublisher/Document.antt =====
-- How src/mock_telemetry_publisher.cpp writes a document with nlohmann::json: members are assigned
-- to an object in turn, and the object is dumped.
use secure_ros2_gateway.Prelude.{
  ℕ, ◌≡◌, Bool, true, false, ◌&&◌, ◌%◌, ◌^◌, List, [], ◌∷◌, Option, none, some, leb, if◌then◌else◌,
}
use secure_ros2_gateway.Prelude.Int.{ℤ, to_uint64}
use secure_ros2_gateway.Prelude.Text.{Text, text_eq}
use secure_ros2_gateway.Json.{Json, ok}

pub data Scalar (D : Type 0) : Type 0 where
  string_value : Text → Scalar D
  -- A number stands for the `uint64_t` or `int64_t` that it wraps around to.
  uint64_value : ℕ → Scalar D
  int64_value : ℤ → Scalar D
  double_value : D → Scalar D

abbrev pub or_later : {A : Type 0} → Option A → Option A → Option A
or_later first none = first
or_later first (some later) = some later

-- What a member holds after the assignments: the last one counts.
abbrev pub assigned : {D : Type 0} → List (Text × Scalar D) → Text → Option (Scalar D)
assigned [] key = none
assigned ((k, s) ∷ rest) key = or_later (if text_eq k key then some s else none) (assigned rest key)

abbrev pub is_ascii : Text → Bool
is_ascii [] = true
is_ascii (b ∷ t) = leb b 127 && is_ascii t

abbrev ascii_scalar : {D : Type 0} → Scalar D → Bool
ascii_scalar (string_value t) = is_ascii t
ascii_scalar _ = true

abbrev pub all_ascii : {D : Type 0} → List (Text × Scalar D) → Bool
all_ascii [] = true
all_ascii ((k, s) ∷ rest) = is_ascii k && ascii_scalar s && all_ascii rest

pub record JsonWriter (J : Json) : Type 0 where
  -- A null `json`, the assignments, and `dump()`.
  pub dump : List (Text × Scalar J.Double) → Text

module _ (J : Json) where
  open J use {Value, contains, index}

  -- What a document that was read says of a member.
  abbrev pub Holds : Value → Scalar J.Double → Type 0
  Holds w (string_value t) = J.get_string w ≡ ok t
  Holds w (uint64_value n) = J.get_uint64 w ≡ ok (n % 2 ^ 64)
  Holds w (int64_value n) = J.get_uint64 w ≡ ok (to_uint64 n)
  Holds w (double_value d) = Unit

  abbrev pub Reads : Value → Text → Option (Scalar J.Double) → Type 0
  Reads v key none = contains v key ≡ false
  Reads v key (some s) = (contains v key ≡ true) × (w : Value) × (index v key ≡ ok w) × Holds w s

  -- A dumped document of ASCII texts is read back with the members that were assigned. A double
  -- may come back as null.
  pub record IsWriter (W : JsonWriter J) : Type 0 where
    pub read_back :
        (members : List (Text × Scalar J.Double))
        → all_ascii members ≡ true
        → (v : Value) × (J.parse (W.dump members) ≡ ok v)
          × ((key : Text) → Reads v key (assigned members key))
