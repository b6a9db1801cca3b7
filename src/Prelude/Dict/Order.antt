-- ===== src/Prelude/Dict/Order.antt =====
-- Dictionaries that hold the same are the same up to the order of their entries.
use mathlib.Core.Path.{◌≡◌, sym}
use mathlib.Core.Option.{none, some}
use mathlib.Core.List.Perm
use mathlib.Core.List.{List, [], ◌∷◌, Perm}
use mathlib.Core.Logic.{inl, inr}
use native.Mathlib.Omega.{arith}
use secure_ros2_gateway.Prelude.Tests.{Bool-cases, if◌then◌else◌}
use secure_ros2_gateway.Prelude.Text.{Text, text_eq, text_eq_iff, text_eq_self}
use secure_ros2_gateway.Prelude.Dict.{lookup, NodupKeys}

module _ {ℓ} {V : Type ℓ} where
  remove : Text → List (Text × V) → List (Text × V)
  remove k [] = []
  remove k ((j, v) ∷ m) = if text_eq j k then m else (j, v) ∷ remove k m

  lookup-remove :
      (k j : Text) (m : List (Text × V))
      → NodupKeys m
      → lookup j (remove k m) ≡ (if text_eq k j then none else lookup j m)
  unfolding lookup remove
  lookup-remove k j [] u = ground arith
  lookup-remove k j ((i, w) ∷ m) (fresh, u) =
      ground (arith, text_eq_iff k j, text_eq_iff i k, text_eq_iff i j, lookup-remove k j m u)

  remove-NodupKeys : (k : Text) (m : List (Text × V)) → NodupKeys m → NodupKeys (remove k m)
  unfolding lookup remove
  remove-NodupKeys k [] u = tt
  remove-NodupKeys k ((i, w) ∷ m) (fresh, u) =
      ground (arith, remove-NodupKeys k m u, lookup-remove k i m u, text_eq_iff i k)

  found-Perm :
      (k : Text) (v : V) (m : List (Text × V)) → lookup k m ≡ some v → Perm m ((k, v) ∷ remove k m)
  unfolding lookup remove
  found-Perm k v [] h = cc
  found-Perm k v ((j, w) ∷ m) h = elim (Bool-cases (text_eq j k)) [
    | inl here ↦
        let same : j ≡ k = (text_eq_iff j k).0 here in
        let value : some w ≡ some v = rw here at h in rw here (Perm.cons' (cc) (Perm.rfl {l = m}))
    | inr later ↦
        let rest = found-Perm k v m (rw later at h) in
        rw later (Perm.trans (Perm.cons (j, w) rest) (Perm.swap (k, v) (j, w) (remove k m)))
  ]

  -- Dictionaries that answer every key alike.
  abbrev pub SameEntries : List (Text × V) → List (Text × V) → Type ℓ
  SameEntries m n = (k : Text) → lookup k m ≡ lookup k n

  pub SameEntries-Perm :
      (m n : List (Text × V)) → NodupKeys m → NodupKeys n → SameEntries m n → Perm m n
  unfolding lookup
  SameEntries-Perm [] [] u u' same = Perm.rfl
  SameEntries-Perm [] ((k, v) ∷ n) u u' same = let h = same k in cc (rw (text_eq_self k) at h)
  SameEntries-Perm ((k, v) ∷ m) n (fresh, u) u' same =
      let found : lookup k n ≡ some v = sym (rw (text_eq_self k) at (same k)) in
      let rest : SameEntries m (remove k n) =
        λ j. rw (lookup-remove k j n u') (ground (arith, same j, text_eq_iff k j, fresh)) in
      Perm.trans
        (Perm.cons (k, v) (SameEntries-Perm m (remove k n) u (remove-NodupKeys k n u') rest))
        (Perm.symm (found-Perm k v n found))
