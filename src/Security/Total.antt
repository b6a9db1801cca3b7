-- ===== src/Security/Total.antt =====
-- encrypt_aes_gcm and decrypt_aes_gcm of src/security/security_engine.cpp on every input: neither
-- writes past a buffer, and when each reports success.
use secure_ros2_gateway.Prelude.{
  ℕ, ◌≡◌, ◌≢◌, ◌↔◌, ◌⊎◌, inl, inr, refl, ap, ◌∙◌, true, false, List, Option, none, some, length,
  arith, ◌==◌, ==_iff, Bool-cases,
}
use secure_ros2_gateway.Prelude.Text.{text_eq, text_eq_iff}
use secure_ros2_gateway.Security.{Encryption, Decryption, encrypt_aes_gcm, decrypt_aes_gcm}
use secure_ros2_gateway.Security.OpenSsl.{Evp, FitsInt, IsGcm}
use secure_ros2_gateway.Security.Gcm.{
  encrypt_aes_gcm_lem, decrypt_aes_gcm_right, decrypt_aes_gcm_wrong, decrypt_aes_gcm_guard,
}

same_or_not : (a b : ℕ) → (a ≡ b) ⊎ (a ≢ b)
same_or_not a b = elim (Bool-cases (a == b)) [
  | inl same ↦ inl ((==_iff a b).0 same)
  | inr other ↦ inr (λ e. cc ((==_iff a b).1 e))
]

module _ (E : Evp) (G : IsGcm E) where
  open G use {tag_of}

  -- A context, a key and an IV of the right sizes.
  abbrev pub MayEncrypt : Option E.Ctx → List ℕ → List ℕ → Type 0
  MayEncrypt fresh key iv =
      ((ctx : E.Ctx) × (fresh ≡ some ctx)) × (length key ≡ 32) × (length iv ≡ 12)

  abbrev pub IsAuthentic : Option E.Ctx → List ℕ → List ℕ → List ℕ → List ℕ → Type 0
  IsAuthentic fresh ciphertext key iv tag =
      MayEncrypt fresh key iv × (tag ≡ tag_of key iv ciphertext)

  encrypt_guard :
      (fresh : Option E.Ctx) (plaintext key iv ciphertext tag : List ℕ)
      → (length key ≢ 32) ⊎ (length iv ≢ 12) ⊎ (fresh ≡ none)
      → encrypt_aes_gcm E fresh plaintext key iv ciphertext tag
        ≡ some (record { ok = false; ciphertext = ciphertext; tag = tag })
  unfolding encrypt_aes_gcm
  encrypt_guard fresh p key iv ciphertext tag h = ground arith

  -- How a call of encrypt_aes_gcm ends.
  abbrev Sends : Option E.Ctx → List ℕ → List ℕ → Option Encryption → Type 0
  Sends fresh key iv after =
      (sent : Encryption) × (after ≡ some sent) × ((sent.ok ≡ true) ↔ MayEncrypt fresh key iv)

  encrypt-Sends :
      (fresh : Option E.Ctx) (plaintext key iv ciphertext tag : List ℕ)
      → FitsInt plaintext
      → Sends fresh key iv (encrypt_aes_gcm E fresh plaintext key iv ciphertext tag)
  encrypt-Sends none p key iv ciphertext tag fits =
      (_, encrypt_guard none p key iv ciphertext tag (inr (inr refl)), (λ h. cc, λ m. cc (m.0.1)))
  encrypt-Sends (some ctx) p key iv ciphertext tag fits = elim (same_or_not (length key) 32) [
    | inr other ↦ (
      _,
      encrypt_guard (some ctx) p key iv ciphertext tag (inl other),
      (λ h. cc, λ m. absurd (other m.1)),
    )
    | inl k ↦ elim (same_or_not (length iv) 12) [
      | inr other ↦ (
        _,
        encrypt_guard (some ctx) p key iv ciphertext tag (inr (inl other)),
        (λ h. cc, λ m. absurd (other m.2)),
      )
      | inl v ↦ (
        _,
        encrypt_aes_gcm_lem E G ctx p key iv ciphertext tag k v fits,
        (λ h. ((ctx, refl), k, v), λ m. refl),
      )
    ]
  ]

  -- How a call of decrypt_aes_gcm ends.
  abbrev Opens : Option E.Ctx → List ℕ → List ℕ → List ℕ → List ℕ → Option Decryption → Type 0
  Opens fresh ciphertext key iv tag after =
      (back : Decryption) × (after ≡ some back)
      × ((back.ok ≡ true) ↔ IsAuthentic fresh ciphertext key iv tag)

  -- The guard refuses what is not authentic.
  refused-Opens :
      (fresh : Option E.Ctx) (ciphertext key iv tag plaintext : List ℕ)
      → (length key ≢ 32) ⊎ (length iv ≢ 12) ⊎ (length tag ≢ 16) ⊎ (fresh ≡ none)
      → ¬ (IsAuthentic fresh ciphertext key iv tag)
      → Opens fresh ciphertext key iv tag (decrypt_aes_gcm E fresh ciphertext key iv tag plaintext)
  refused-Opens fresh ct key iv tag plaintext h n =
      (_, decrypt_aes_gcm_guard E fresh ct key iv tag plaintext h, (λ ok. cc, λ a. absurd (n a)))

  sized-Opens :
      (ctx : E.Ctx) (ciphertext key iv tag plaintext : List ℕ)
      → length key ≡ 32
      → length iv ≡ 12
      → length tag ≡ 16
      → FitsInt ciphertext
      → Opens
          (some ctx)
          ciphertext
          key
          iv
          tag
          (decrypt_aes_gcm E (some ctx) ciphertext key iv tag plaintext)
  sized-Opens ctx ct key iv tag plaintext k v t fits =
      elim (Bool-cases (text_eq tag (tag_of key iv ct))) [
        | inl same ↦
            let right = (text_eq_iff tag (tag_of key iv ct)).0 same in
            (
              _,
              decrypt_aes_gcm_right E G ctx ct key iv tag plaintext k v fits right,
              (λ h. (((ctx, refl), k, v), right), λ a. refl),
            )
        | inr other ↦
            let wrong : tag ≢ tag_of key iv ct =
              λ e. cc ((text_eq_iff tag (tag_of key iv ct)).1 e) in
            (
              _,
              decrypt_aes_gcm_wrong E G ctx ct key iv tag plaintext k v t fits wrong,
              (λ h. cc, λ a. absurd (wrong a.1)),
            )
      ]

  decrypt-Opens :
      (fresh : Option E.Ctx) (ciphertext key iv tag plaintext : List ℕ)
      → FitsInt ciphertext
      → Opens fresh ciphertext key iv tag (decrypt_aes_gcm E fresh ciphertext key iv tag plaintext)
  decrypt-Opens none ct key iv tag out fits =
      refused-Opens none ct key iv tag out (inr (inr (inr refl))) (λ a. cc (a.0.0.1))
  decrypt-Opens (some ctx) ct key iv tag out fits = elim (same_or_not (length key) 32) [
    | inr other ↦ refused-Opens (some ctx) ct key iv tag out (inl other) (λ a. other a.0.1)
    | inl k ↦ elim (same_or_not (length iv) 12) [
      | inr other ↦ refused-Opens (some ctx) ct key iv tag out (inr (inl other)) (λ a. other a.0.2)
      | inl v ↦ elim (same_or_not (length tag) 16) [
        | inr other ↦
            refused-Opens (some ctx) ct key iv tag out (inr (inr (inl other)))
              (λ a. other (ap length a.1 ∙ G.length-tag_of key iv ct))
        | inl t ↦ sized-Opens ctx ct key iv tag out k v t fits
      ]
    ]
  ]

  -- Neither call writes past a buffer, whatever the sizes of its key, IV, tag and output vectors and
  -- whether or not it gets a context, while OpenSSL does AES-256-GCM and the text fits an int.
  -- Encryption reports success exactly with a context, a key of 32 bytes and an IV of 12;
  -- decryption exactly when moreover the tag is the one that GCM gives the ciphertext.
  pub aes_gcm_total :
      (fresh : Option E.Ctx) (bytes key iv tag ciphertext plaintext : List ℕ)
      → FitsInt bytes
      → ((sent : Encryption) × (encrypt_aes_gcm E fresh bytes key iv ciphertext tag ≡ some sent)
          × ((sent.ok ≡ true) ↔ MayEncrypt fresh key iv))
        × ((back : Decryption) × (decrypt_aes_gcm E fresh bytes key iv tag plaintext ≡ some back)
            × ((back.ok ≡ true) ↔ IsAuthentic fresh bytes key iv tag))
  aes_gcm_total fresh bytes key iv tag ciphertext plaintext fits = (
    encrypt-Sends fresh bytes key iv ciphertext tag fits,
    decrypt-Opens fresh bytes key iv tag plaintext fits,
  )
