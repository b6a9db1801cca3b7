-- ===== src/Prelude/State.antt =====
-- Stateful code by explicit state passing, for `do` blocks.
abbrev pub State {ℓ κ} : Type ℓ → Type κ → Type (ℓ ⊔ κ)
State S A = S → A × S

abbrev pub pure {ℓ κ} : {S : Type ℓ} {A : Type κ} → A → State S A
pure a s = (a, s)

infixl 5 ◌>>=◌ ◌>>◌
abbrev pub ◌>>=◌ {ℓ κ μ} :
    {S : Type ℓ} {A : Type κ} {B : Type μ} → State S A → (A → State S B) → State S B
◌>>=◌ m f s = f (m s).0 (m s).1

abbrev pub ◌>>◌ {ℓ κ μ} : {S : Type ℓ} {A : Type κ} {B : Type μ} → State S A → State S B → State S B
◌>>◌ m k s = k (m s).1

abbrev pub modify {ℓ} : {S : Type ℓ} → (S → S) → State S (Unit {0})
modify f s = (tt, f s)
