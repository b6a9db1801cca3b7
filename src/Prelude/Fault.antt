-- ===== src/Prelude/Fault.antt =====
-- Code that may fault: `none` is undefined behaviour, such as a write past the end of a buffer.
use Prim.Native.Nat.{ℕ, zero, suc, ◌+◌, ◌-◌, ◌≤◌}
use mathlib.Core.Path.{◌≡◌, refl, ap}
use mathlib.Core.Option.{Option, none, some}
use mathlib.Core.List.{List, [], ◌∷◌, ◌++◌, append-nil}
use native.Mathlib.Omega.{arith}
use secure_ros2_gateway.Prelude.Tests.{leb, if◌then◌else◌}
use secure_ros2_gateway.Prelude.Lists.{
  length, take, drop, replicate, length-append, length-replicate, take-append-drop,
}

infixl 5 ◌>>=◌
abbrev pub ◌>>=◌ {ℓ κ} : {A : Type ℓ} {B : Type κ} → Option A → (A → Option B) → Option B
none >>= f = none
some a >>= f = f a

-- `std::vector<uint8_t>::resize`: new bytes are zero.
unfoldable pub resize : ℕ → List ℕ → List ℕ
resize n buffer = take n buffer ++ replicate (n - length buffer) 0

-- Bytes that a C function writes at `buffer.data() + offset`.
unfoldable pub write_at : ℕ → List ℕ → List ℕ → Option (List ℕ)
write_at offset bytes buffer =
    if leb (offset + length bytes) (length buffer)
    then some (take offset buffer ++ bytes ++ drop (offset + length bytes) buffer)
    else none

take_all : (n : ℕ) (xs : List ℕ) → length xs ≤ n → take n xs ≡ xs
take_all zero [] h = refl
take_all (suc n) [] h = refl
take_all zero (x ∷ xs) h = absurd (omega arith)
take_all (suc n) (x ∷ xs) h = ap (◌∷◌ x) (take_all n xs (omega arith))

drop_all : (n : ℕ) (xs : List ℕ) → length xs ≤ n → drop n xs ≡ []
drop_all zero [] h = refl
drop_all (suc n) [] h = refl
drop_all zero (x ∷ xs) h = absurd (omega arith)
drop_all (suc n) (x ∷ xs) h = drop_all n xs (omega arith)

length-take : (n : ℕ) (xs : List ℕ) → length (take n xs) + (n - length xs) ≡ n
length-take zero xs = omega arith
length-take (suc n) [] = omega arith
length-take (suc n) (x ∷ xs) = omega (arith, length-take n xs)

pub length-resize : (n : ℕ) (xs : List ℕ) → length (resize n xs) ≡ n
unfolding resize
length-resize n xs = omega (
  arith,
  length-append (take n xs) (replicate (n - length xs) 0),
  length-replicate {A = ℕ} (n - length xs) 0,
  length-take n xs,
)

-- Resizing to the length a vector has changes nothing.
pub resize-length : (n : ℕ) (xs : List ℕ) → length xs ≡ n → resize n xs ≡ xs
unfolding resize
resize-length n xs h =
    let e : n - length xs ≡ 0 = omega arith in rw (e, take_all n xs (omega arith)) (append-nil xs)

pub write_at-zero :
    (bytes buffer : List ℕ) → length buffer ≡ length bytes → write_at 0 bytes buffer ≡ some bytes
unfolding write_at
write_at-zero bytes buffer h =
    ground (arith, drop_all (0 + length bytes) buffer (omega arith), append-nil bytes)

pub write_at-nil :
    (offset : ℕ) (buffer : List ℕ)
    → offset ≤ length buffer
    → write_at offset [] buffer ≡ some buffer
unfolding write_at
write_at-nil offset buffer h =
    let e : offset + 0 ≡ offset = omega arith in
    rw (e, append-nil (take offset buffer), take-append-drop offset buffer) (ground arith)
