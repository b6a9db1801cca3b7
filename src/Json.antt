-- ===== src/Json.antt =====
-- nlohmann::json, as far as the gateway calls it, and what its manual says of those calls.
pub mod Toy
use secure_ros2_gateway.Prelude.{ℕ, inl, inr, refl, ◌≡◌, ◌⊎◌, Bool, true, List}
use secure_ros2_gateway.Prelude.Text.{Text}

-- `nlohmann::json::parse_error`, `type_error`, and `out_of_range`, which the parser throws on a
-- number that no double can hold.
pub data Exception : Type 0 where
  parse_error type_error out_of_range : Exception

pub data Except {ℓ} (A : Type ℓ) : Type ℓ where
  ok : A → Except A
  raised : Exception → Except A

-- Code in a `try` block that only reads.
infixl 5 ◌>>=◌
abbrev pub ◌>>=◌ {ℓ κ} : {A : Type ℓ} {B : Type κ} → Except A → (A → Except B) → Except B
ok a >>= f = f a
raised e >>= f = raised e

pub Except-cases {ℓ} :
    {A : Type ℓ} (r : Except A) → ((a : A) × (r ≡ ok a)) ⊎ ((e : Exception) × (r ≡ raised e))
Except-cases (ok a) = inl (a, refl)
Except-cases (raised e) = inr (e, refl)

pub record Json : Type 1 where
  pub Value : Type 0
  pub Double : Type 0
  pub parse : Text → Except Value
  pub contains : Value → Text → Bool
  -- `j[key]`; a key that is not there gives null.
  pub index : Value → Text → Except Value
  pub get_string : Value → Except Text
  pub get_uint64 : Value → Except ℕ
  -- conversion to `std::vector<uint8_t>`
  pub get_bytes : Value → Except (List ℕ)
  pub get_double : Value → Except Double
  pub is_number : Value → Bool
  -- `j.items()`
  pub items : Value → List (Text × Value)

-- An `Except` that can hold one kind of exception only.
abbrev pub Raises {ℓ} : {A : Type ℓ} → Exception → Except A → Type 0
Raises e (ok a) = Unit
Raises e (raised x) = x ≡ e

pub record IsJson (J : Json) : Type 0 where
  pub get_string_raises : (v : J.Value) → Raises type_error (J.get_string v)
  pub get_uint64_raises : (v : J.Value) → Raises type_error (J.get_uint64 v)
  pub index_contained :
      (v : J.Value) (k : Text) → J.contains v k ≡ true → (w : J.Value) × (J.index v k ≡ ok w)
  pub get_double_number :
      (v : J.Value) → J.is_number v ≡ true → (d : J.Double) × (J.get_double v ≡ ok d)
