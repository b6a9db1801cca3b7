-- ===== src/Security/Toy.antt =====
-- A cipher that meets OpenSSL's account: the plaintext in the clear, and a checksum for a tag. It
-- shows that the account can hold.
use secure_ros2_gateway.Prelude.{
  ℕ, zero, suc, ◌+◌, ◌≡◌, refl, true, false, List, [], ◌∷◌, Option, none, some, replicate, arith,
}
use secure_ros2_gateway.Prelude.Text.{text_eq, text_eq_iff}
use secure_ros2_gateway.Security.OpenSsl.{Evp, IsGcm}

abbrev sum : List ℕ → ℕ
sum [] = 0
sum (x ∷ xs) = x + sum xs

abbrev checksum : List ℕ → List ℕ → List ℕ → List ℕ
checksum key iv p = (sum key + sum iv + sum p) ∷ replicate 15 0

pub record ToyCtx : Type 0 where
  pub key : List ℕ
  pub iv : List ℕ
  pub taken : List ℕ
  pub tag : List ℕ

abbrev pub blank : ToyCtx
blank = record { key = []; iv = []; taken = []; tag = [] }

abbrev check_tag : ToyCtx → Option (List ℕ)
check_tag c = elim (text_eq c.tag (checksum c.key c.iv c.taken)) [ true ↦ some [] | false ↦ none ]

-- Entropy 0 stands for a generator that fails.
abbrev random_bytes : ℕ → ℕ → Option (List ℕ)
random_bytes n zero = none
random_bytes n (suc e) = some (replicate n (suc e))

abbrev pub toy : Evp
toy = record {
  Ctx = ToyCtx;
  Entropy = ℕ;
  rand_bytes = random_bytes;
  encrypt_init_cipher = λ c. record c { taken = [] };
  decrypt_init_cipher = λ c. record c { taken = [] };
  set_ivlen = λ n c. c;
  encrypt_init_key = λ key iv c. record c { key = key; iv = iv };
  decrypt_init_key = λ key iv c. record c { key = key; iv = iv };
  encrypt_update = λ p c. (some p, record c { taken = p });
  decrypt_update = λ p c. (some p, record c { taken = p });
  encrypt_final = λ c. (some [], c);
  decrypt_final = λ c. (check_tag c, c);
  get_tag = λ n c. (some (checksum c.key c.iv c.taken), c);
  set_tag = λ n tag c. record c { tag = tag };
}

abbrev Holds : List ℕ → List ℕ → List ℕ → ToyCtx → Type 0
Holds key iv p c = (c.key ≡ key) × (c.iv ≡ iv) × (c.taken ≡ p)

pub check_right : (c : ToyCtx) → c.tag ≡ checksum c.key c.iv c.taken → check_tag c ≡ some []
check_right c h = ground (arith, text_eq_iff c.tag (checksum c.key c.iv c.taken))

pub check_wrong : (c : ToyCtx) → ¬ (c.tag ≡ checksum c.key c.iv c.taken) → check_tag c ≡ none
check_wrong c h = ground (arith, text_eq_iff c.tag (checksum c.key c.iv c.taken))

unfoldable pub toy-IsGcm : IsGcm toy
toy-IsGcm = record {
  seal = λ key iv p. p;
  unseal = λ key iv p. p;
  tag_of = checksum;
  length-seal = λ key iv p. refl;
  length-unseal = λ key iv p. refl;
  length-tag_of = λ key iv p. refl;
  unseal-seal = λ key iv p. refl;
  Sealing = Holds;
  Opening = Holds;
  Checking = λ key iv p tag c. Holds key iv p c × (c.tag ≡ tag);
  sealing_init = λ key iv c k v. (refl, refl, refl);
  sealing_update = λ key iv p c fits h. (refl, (h.0, h.1, refl));
  sealing_final = λ key iv p c h. (refl, h);
  sealing_tag = λ key iv p c h. rw (h.0, h.1, h.2);
  opening_init = λ key iv c k v. (refl, refl, refl);
  opening_update = λ key iv p c fits h. (refl, (h.0, h.1, refl));
  checking_tag = λ key iv p tag c t h. (h, refl);
  checking_right = λ key iv p tag c h e. check_right c (cc);
  checking_wrong = λ key iv p tag c h e. check_wrong c (λ x. e (cc));
}
