-- ===== src/Ingestion/Payload.antt =====
-- The loop of parse_and_validate over the items of the document.
use secure_ros2_gateway.Prelude.{
  ◌≡◌, refl, ap, ◌∙◌, List, [], ◌∷◌, Option, none, some, arith, if◌then◌else◌, Bool-cases, inl, inr,
}
use secure_ros2_gateway.Prelude.Text.{Text, text_eq}
use secure_ros2_gateway.Prelude.Dict.{insert, lookup, lookup-insert, NodupKeys, insert-NodupKeys}
use secure_ros2_gateway.Telemetry.{TelemetryData}
use secure_ros2_gateway.Json.{Json, IsJson, Except, ok, raised}
use secure_ros2_gateway.Ingestion.{read_payload}

module _ (J : Json) where
  open J use {Value, Double}

  abbrev double_of : Except Double → Option Double
  double_of (ok d) = some d
  double_of (raised e) = none

  -- What the loop takes from a value: its number, if it is one.
  abbrev pub number : Value → Option Double
  number v = if J.is_number v then double_of (J.get_double v) else none

  abbrev or_later : Option Double → Option Double → Option Double
  or_later first none = first
  or_later first (some later) = some later

  -- The number under `k` among the items, the last one if there are several.
  pub last_number : Text → List (Text × Value) → Option Double
  last_number k [] = none
  last_number k ((j, v) ∷ rest) =
      or_later (if text_eq j k then number v else none) (last_number k rest)

  abbrev pub add_number : Text → Option Double → List (Text × Double) → List (Text × Double)
  add_number k none m = m
  add_number k (some d) m = insert k d m

  unfoldable pub load : List (Text × Value) → List (Text × Double) → List (Text × Double)
  load [] m = m
  load ((k, v) ∷ rest) m = load rest (add_number k (number v) m)

  lookup-add_number :
      (k j : Text) (n : Option Double) (m : List (Text × Double))
      → lookup k (add_number j n m) ≡ or_later (lookup k m) (if text_eq j k then n else none)
  lookup-add_number k j none m = ground arith
  lookup-add_number k j (some d) m = ground (arith, lookup-insert j k d m)

  or_later_assoc : (a b c : Option Double) → or_later (or_later a b) c ≡ or_later a (or_later b c)
  or_later_assoc a b none = refl
  or_later_assoc a b (some c) = refl

  lookup-load :
      (k : Text) (xs : List (Text × Value)) (m : List (Text × Double))
      → lookup k (load xs m) ≡ or_later (lookup k m) (last_number k xs)
  unfolding load last_number
  lookup-load k [] m = refl
  lookup-load k ((j, v) ∷ xs) m =
      lookup-load k xs (add_number j (number v) m)
      ∙ ap (λ a. or_later a (last_number k xs)) (lookup-add_number k j (number v) m)
      ∙ or_later_assoc (lookup k m) (if text_eq j k then number v else none) (last_number k xs)

  add_number-NodupKeys :
      (k : Text) (n : Option Double) (m : List (Text × Double))
      → NodupKeys m
      → NodupKeys (add_number k n m)
  add_number-NodupKeys k none m u = u
  add_number-NodupKeys k (some d) m u = insert-NodupKeys k d m u

  pub load-NodupKeys :
      (xs : List (Text × Value)) (m : List (Text × Double)) → NodupKeys m → NodupKeys (load xs m)
  unfolding load
  load-NodupKeys [] m u = u
  load-NodupKeys ((k, v) ∷ xs) m u =
      load-NodupKeys xs (add_number k (number v) m) (add_number-NodupKeys k (number v) m u)

  nothing_later : (a : Option Double) → or_later none a ≡ a
  nothing_later none = refl
  nothing_later (some d) = refl

  pub lookup-load-nil :
      (k : Text) (xs : List (Text × Value)) → lookup k (load xs []) ≡ last_number k xs
  unfolding lookup
  lookup-load-nil k xs = lookup-load k xs [] ∙ nothing_later (last_number k xs)

  -- The loop never throws: it converts numbers only.
  pub read_payload_lem :
      IsJson J
      → (xs : List (Text × Value)) (out : TelemetryData Double)
      → read_payload J xs out ≡ (ok tt, record out { payload_values = load xs out.payload_values })
  unfolding read_payload load
  read_payload_lem L [] out = refl
  read_payload_lem L ((k, v) ∷ xs) out = elim (Bool-cases (J.is_number v)) [
    | inl e ↦
        let (d, h) = L.get_double_number v e in
        rw (e, h)
          (read_payload_lem L xs (record out { payload_values = insert k d out.payload_values }))
    | inr e ↦ rw e (read_payload_lem L xs out)
  ]
