-- ===== src/Json/Toy.antt =====
-- A JSON library that meets the manual's account as far as it is assumed. Its documents are written
-- `key=value;key=value`; a value of digits is a number, any other is a string or an array of bytes.
use secure_ros2_gateway.Prelude.{
  ℕ, ◌+◌, ◌-◌, ◌*◌, ◌≡◌, refl, Bool, true, false, ◌&&◌, not, List, [], ◌∷◌, Option, none, some, leb,
  is_empty, if◌then◌else◌, Bool-cases, inl, inr,
}
use secure_ros2_gateway.Prelude.Text.{Text, split_on}
use secure_ros2_gateway.Prelude.Dict.{lookup}
use secure_ros2_gateway.Json.{
  Json, IsJson, Except, ok, raised, Raises, parse_error, type_error, ◌>>=◌,
}

pub data Value : Type 0 where
  fields : List (Text × Text) → Value
  atom : Text → Value

abbrev digits : Text → Bool
digits [] = true
digits (b ∷ t) = leb b'0' b && leb b b'9' && digits t

abbrev is_digits : Text → Bool
is_digits t = not (is_empty t) && digits t

abbrev decimal : ℕ → Text → ℕ
decimal n [] = n
decimal n (b ∷ t) = decimal (n * 10 + (b - b'0')) t

abbrev field_of : List Text → Except (Text × Text)
field_of (key ∷ value ∷ []) = ok (key, value)
field_of _ = raised parse_error

abbrev fields_of : List Text → Except (List (Text × Text))
fields_of [] = ok []
fields_of (s ∷ rest) = do kv ← field_of (split_on b'=' s); kvs ← fields_of rest; ok (kv ∷ kvs)

abbrev pub parse : Text → Except Value
parse t = fields_of (split_on b';' t) >>= λ kvs. ok (fields kvs)

abbrev found : Option Text → Value
found none = atom []
found (some t) = atom t

abbrev is_some : Option Text → Bool
is_some none = false
is_some (some t) = true

abbrev atoms : List (Text × Text) → List (Text × Value)
atoms [] = []
atoms ((k, t) ∷ rest) = (k, atom t) ∷ atoms rest

abbrev contains : Value → Text → Bool
contains (fields kvs) key = is_some (lookup key kvs)
contains (atom t) key = false

abbrev index : Value → Text → Except Value
index (fields kvs) key = ok (found (lookup key kvs))
index (atom t) key = raised type_error

abbrev get_string : Value → Except Text
get_string (fields kvs) = raised type_error
get_string (atom t) = if is_digits t then raised type_error else ok t

abbrev get_number : Value → Except ℕ
get_number (fields kvs) = raised type_error
get_number (atom t) = if is_digits t then ok (decimal 0 t) else raised type_error

abbrev get_bytes : Value → Except (List ℕ)
get_bytes (fields kvs) = raised type_error
get_bytes (atom t) = ok t

abbrev is_number : Value → Bool
is_number (fields kvs) = false
is_number (atom t) = is_digits t

abbrev items : Value → List (Text × Value)
items (fields kvs) = atoms kvs
items (atom t) = ([], atom t) ∷ []

abbrev pub small_json : Json
small_json = record {
  Value = Value;
  Double = ℕ;
  parse = parse;
  contains = contains;
  index = index;
  get_string = get_string;
  get_uint64 = get_number;
  get_bytes = get_bytes;
  get_double = get_number;
  is_number = is_number;
  items = items;
}

get_string-Raises : (v : Value) → Raises type_error (get_string v)
get_string-Raises (fields kvs) = refl
get_string-Raises (atom t) = elim (Bool-cases (is_digits t)) [ inl e ↦ rw e refl | inr e ↦ rw e tt ]

get_number-Raises : (v : Value) → Raises type_error (get_number v)
get_number-Raises (fields kvs) = refl
get_number-Raises (atom t) = elim (Bool-cases (is_digits t)) [ inl e ↦ rw e tt | inr e ↦ rw e refl ]

index_contained : (v : Value) (k : Text) → contains v k ≡ true → (w : Value) × (index v k ≡ ok w)
index_contained (fields kvs) k h = (found (lookup k kvs), refl)
index_contained (atom t) k h = cc

get_number_number : (v : Value) → is_number v ≡ true → (d : ℕ) × (get_number v ≡ ok d)
get_number_number (fields kvs) h = cc
get_number_number (atom t) h = (decimal 0 t, rw h refl)

pub small_json-IsJson : IsJson small_json
small_json-IsJson = record {
  get_string_raises = get_string-Raises;
  get_uint64_raises = get_number-Raises;
  index_contained = index_contained;
  get_double_number = get_number_number;
}
