-- ===== src/MockPublisher/Toy.antt =====
-- A JSON library that reads its own documents back. A member is written as the length of its key,
-- the key, and its value: a number is its successor, a text is 0, its length and its bytes.
use secure_ros2_gateway.Prelude.{
  ◌%◌, ◌^◌, ℕ, zero, suc, ◌≤◌, ◌≡◌, refl, Bool, true, false, List, [], ◌∷◌, ◌++◌, Option, none,
  some, arith, length, take, drop, length-append, take-append, drop-length, if◌then◌else◌,
}
use secure_ros2_gateway.Prelude.Int.{to_uint64}
use secure_ros2_gateway.Prelude.Text.{Text, text_eq}
use secure_ros2_gateway.Json.{
  Json, IsJson, Except, ok, raised, Raises, parse_error, type_error, ◌>>=◌,
}
use secure_ros2_gateway.MockPublisher.Document.{
  Scalar, string_value, uint64_value, int64_value, double_value, or_later, assigned, JsonWriter,
  Reads, IsWriter,
}

pub data Stored : Type 0 where
  words : Text → Stored
  amount : ℕ → Stored

pub data Value : Type 0 where
  object : List (Text × Stored) → Value
  stored : Stored → Value
  null : Value

abbrev keep : Scalar ℕ → Stored
keep (string_value t) = words t
keep (uint64_value n) = amount (n % 2 ^ 64)
keep (int64_value n) = amount (to_uint64 n)
keep (double_value d) = amount d

abbrev kept : List (Text × Scalar ℕ) → List (Text × Stored)
kept [] = []
kept ((k, s) ∷ rest) = (k, keep s) ∷ kept rest

abbrev put : Stored → Text → Text
put (words t) rest = 0 ∷ length t ∷ (t ++ rest)
put (amount n) rest = suc n ∷ rest

abbrev encode : List (Text × Stored) → Text
encode [] = []
encode ((k, s) ∷ rest) = length k ∷ (k ++ put s (encode rest))

abbrev read : Text → Option (Stored × Text)
read [] = none
read (zero ∷ []) = none
read (zero ∷ n ∷ t) = some (words (take n t), drop n t)
read (suc n ∷ t) = some (amount n, t)

abbrev decode : ℕ → Text → Except (List (Text × Stored))
decode fuel [] = ok []
decode zero (n ∷ t) = raised parse_error
decode (suc fuel) (n ∷ t) = elim (read (drop n t)) [
  | none ↦ raised parse_error
  | some (s, rest) ↦ decode fuel rest >>= λ more. ok ((take n t, s) ∷ more)
]

abbrev parse : Text → Except Value
parse t = decode (length t) t >>= λ kvs. ok (object kvs)

abbrev last : Text → List (Text × Stored) → Option Stored
last key [] = none
last key ((k, s) ∷ rest) = or_later (if text_eq k key then some s else none) (last key rest)

abbrev found : Option Stored → Value
found none = null
found (some s) = stored s

abbrev is_some : Option Stored → Bool
is_some none = false
is_some (some s) = true

abbrev contains : Value → Text → Bool
contains (object kvs) key = is_some (last key kvs)
contains (stored s) key = false
contains null key = false

abbrev index : Value → Text → Except Value
index (object kvs) key = ok (found (last key kvs))
index (stored s) key = raised type_error
index null key = raised type_error

abbrev get_string : Value → Except Text
get_string (object kvs) = raised type_error
get_string (stored (words t)) = ok t
get_string (stored (amount n)) = raised type_error
get_string null = raised type_error

abbrev get_number : Value → Except ℕ
get_number (object kvs) = raised type_error
get_number (stored (words t)) = raised type_error
get_number (stored (amount n)) = ok n
get_number null = raised type_error

abbrev is_number : Value → Bool
is_number (object kvs) = false
is_number (stored (words t)) = false
is_number (stored (amount n)) = true
is_number null = false

abbrev values : List (Text × Stored) → List (Text × Value)
values [] = []
values ((k, s) ∷ rest) = (k, stored s) ∷ values rest

abbrev items : Value → List (Text × Value)
items (object kvs) = values kvs
items (stored s) = []
items null = []

abbrev pub member_json : Json
member_json = record {
  Value = Value;
  Double = ℕ;
  parse = parse;
  contains = contains;
  index = index;
  get_string = get_string;
  get_uint64 = get_number;
  get_bytes = get_string;
  get_double = get_number;
  is_number = is_number;
  items = items;
}

abbrev pub member_writer : JsonWriter member_json
member_writer = record { dump = λ members. encode (kept members) }

get_string-Raises : (v : Value) → Raises type_error (get_string v)
get_string-Raises (object kvs) = refl
get_string-Raises (stored (words t)) = tt
get_string-Raises (stored (amount n)) = refl
get_string-Raises null = refl

get_number-Raises : (v : Value) → Raises type_error (get_number v)
get_number-Raises (object kvs) = refl
get_number-Raises (stored (words t)) = refl
get_number-Raises (stored (amount n)) = tt
get_number-Raises null = refl

index_contained : (v : Value) (k : Text) → contains v k ≡ true → (w : Value) × (index v k ≡ ok w)
index_contained (object kvs) k h = (found (last k kvs), refl)
index_contained (stored s) k h = cc
index_contained null k h = cc

get_number_number : (v : Value) → is_number v ≡ true → (d : ℕ) × (get_number v ≡ ok d)
get_number_number (object kvs) h = cc
get_number_number (stored (words t)) h = cc
get_number_number (stored (amount n)) h = (n, refl)
get_number_number null h = cc

pub member_json-IsJson : IsJson member_json
member_json-IsJson = record {
  get_string_raises = get_string-Raises;
  get_uint64_raises = get_number-Raises;
  index_contained = index_contained;
  get_double_number = get_number_number;
}

read-put : (s : Stored) (rest : Text) → read (put s rest) ≡ some (s, rest)
read-put (words t) rest = rw (take-append t rest, drop-length t rest) refl
read-put (amount n) rest = refl

decode-encode :
    (fuel : ℕ) (kvs : List (Text × Stored)) → length kvs ≤ fuel → decode fuel (encode kvs) ≡ ok kvs
decode-encode zero [] h = refl
decode-encode (suc fuel) [] h = refl
decode-encode zero ((k, s) ∷ rest) h = absurd (omega arith)
decode-encode (suc fuel) ((k, s) ∷ rest) h =
    rw (drop-length k (put s (encode rest)), read-put s (encode rest), decode)
      (rw (take-append k (put s (encode rest)), decode-encode fuel rest (omega arith)) refl)

length-encode : (kvs : List (Text × Stored)) → length kvs ≤ length (encode kvs)
length-encode [] = omega arith
length-encode ((k, words t) ∷ rest) = omega (
  arith,
  length-encode rest,
  length-append k (put (words t) (encode rest)),
  length-append t (encode rest),
)
length-encode ((k, amount n) ∷ rest) =
    omega (arith, length-encode rest, length-append k (put (amount n) (encode rest)))

abbrev keep_some : Option (Scalar ℕ) → Option Stored
keep_some none = none
keep_some (some s) = some (keep s)

keep-or_later :
    (a b : Option (Scalar ℕ)) → keep_some (or_later a b) ≡ or_later (keep_some a) (keep_some b)
keep-or_later a none = refl
keep-or_later a (some s) = refl

last-kept :
    (key : Text) (ms : List (Text × Scalar ℕ)) → last key (kept ms) ≡ keep_some (assigned ms key)
last-kept key [] = refl
last-kept key ((k, s) ∷ rest) = ground (
  arith,
  last-kept key rest,
  keep-or_later (if text_eq k key then some s else none) (assigned rest key),
)

kept-Reads :
    (ms : List (Text × Scalar ℕ)) (key : Text) (s : Option (Scalar ℕ))
    → last key (kept ms) ≡ keep_some s
    → Reads member_json (object (kept ms)) key s
kept-Reads ms key none h = rw h refl
kept-Reads ms key (some (string_value t)) h = (rw h refl, stored (words t), rw h refl, refl)
kept-Reads ms key (some (uint64_value n)) h =
    (rw h refl, stored (amount (n % 2 ^ 64)), rw h refl, refl)
kept-Reads ms key (some (int64_value n)) h =
    (rw h refl, stored (amount (to_uint64 n)), rw h refl, refl)
kept-Reads ms key (some (double_value d)) h = (rw h refl, stored (amount d), rw h refl, tt)

pub member_writer-IsWriter : IsWriter member_json member_writer
member_writer-IsWriter = record {
  read_back = λ ms ascii. (
    object (kept ms),
    rw (decode-encode (length (encode (kept ms))) (kept ms) (length-encode (kept ms))) refl,
    λ key. kept-Reads ms key (assigned ms key) (last-kept key ms),
  );
}
