-- ===== src/Security/OpenSsl.antt =====
-- OpenSSL's EVP interface, as far as security_engine.cpp calls it, and what its manual says of
-- AES-256-GCM. A context is a value that each call returns anew.
use secure_ros2_gateway.Prelude.{ℕ, ◌<◌, ◌^◌, ◌≡◌, List, [], Option, none, some, length}

pub record Evp : Type 1 where
  pub Ctx : Type 0
  pub Entropy : Type 0
  -- The bytes written, or `none` on failure.
  pub rand_bytes : ℕ → Entropy → Option (List ℕ)
  -- `EVP_EncryptInit_ex(ctx, EVP_aes_256_gcm(), NULL, NULL, NULL)`
  pub encrypt_init_cipher : Ctx → Ctx
  pub decrypt_init_cipher : Ctx → Ctx
  -- `EVP_CTRL_GCM_SET_IVLEN`
  pub set_ivlen : ℕ → Ctx → Ctx
  -- `EVP_EncryptInit_ex(ctx, NULL, NULL, key, iv)`
  pub encrypt_init_key : List ℕ → List ℕ → Ctx → Ctx
  pub decrypt_init_key : List ℕ → List ℕ → Ctx → Ctx
  -- The bytes written to `out`, or `none` on failure.
  pub encrypt_update : List ℕ → Ctx → Option (List ℕ) × Ctx
  pub decrypt_update : List ℕ → Ctx → Option (List ℕ) × Ctx
  pub encrypt_final : Ctx → Option (List ℕ) × Ctx
  -- `none` is a result that is not positive.
  pub decrypt_final : Ctx → Option (List ℕ) × Ctx
  -- `EVP_CTRL_GCM_GET_TAG` and `EVP_CTRL_GCM_SET_TAG`
  pub get_tag : ℕ → Ctx → Option (List ℕ) × Ctx
  pub set_tag : ℕ → List ℕ → Ctx → Ctx

-- A length that an update takes: the calls pass it as an `int`.
abbrev pub FitsInt : List ℕ → Type 0
FitsInt bytes = length bytes < 2 ^ 31

-- The manual's account of AES-256-GCM with a key of 32 bytes and an IV of 12.
pub record IsGcm (E : Evp) : Type 1 where
  pub seal : List ℕ → List ℕ → List ℕ → List ℕ
  pub unseal : List ℕ → List ℕ → List ℕ → List ℕ
  -- The tag of a ciphertext.
  pub tag_of : List ℕ → List ℕ → List ℕ → List ℕ
  pub length-seal : (key iv p : List ℕ) → length (seal key iv p) ≡ length p
  pub length-unseal : (key iv c : List ℕ) → length (unseal key iv c) ≡ length c
  pub length-tag_of : (key iv c : List ℕ) → length (tag_of key iv c) ≡ 16
  pub unseal-seal : (key iv p : List ℕ) → unseal key iv (seal key iv p) ≡ p
  -- A context under a key and an IV that has taken in a plaintext, or a ciphertext.
  pub Sealing : List ℕ → List ℕ → List ℕ → E.Ctx → Type 0
  pub Opening : List ℕ → List ℕ → List ℕ → E.Ctx → Type 0
  -- One that is also given the expected tag.
  pub Checking : List ℕ → List ℕ → List ℕ → List ℕ → E.Ctx → Type 0
  pub sealing_init :
      (key iv : List ℕ) (c : E.Ctx)
      → length key ≡ 32
      → length iv ≡ 12
      → Sealing key iv []
          (E.encrypt_init_key key iv (E.set_ivlen (length iv) (E.encrypt_init_cipher c)))
  pub sealing_update :
      (key iv p : List ℕ) (c : E.Ctx)
      → FitsInt p
      → Sealing key iv [] c
      → ((E.encrypt_update p c).0 ≡ some (seal key iv p))
        × Sealing key iv p (E.encrypt_update p c).1
  -- A stream mode holds nothing back.
  pub sealing_final :
      (key iv p : List ℕ) (c : E.Ctx)
      → Sealing key iv p c
      → ((E.encrypt_final c).0 ≡ some []) × Sealing key iv p (E.encrypt_final c).1
  pub sealing_tag :
      (key iv p : List ℕ) (c : E.Ctx)
      → Sealing key iv p c
      → (E.get_tag 16 c).0 ≡ some (tag_of key iv (seal key iv p))
  pub opening_init :
      (key iv : List ℕ) (c : E.Ctx)
      → length key ≡ 32
      → length iv ≡ 12
      → Opening key iv []
          (E.decrypt_init_key key iv (E.set_ivlen (length iv) (E.decrypt_init_cipher c)))
  pub opening_update :
      (key iv ct : List ℕ) (c : E.Ctx)
      → FitsInt ct
      → Opening key iv [] c
      → ((E.decrypt_update ct c).0 ≡ some (unseal key iv ct))
        × Opening key iv ct (E.decrypt_update ct c).1
  pub checking_tag :
      (key iv ct tag : List ℕ) (c : E.Ctx)
      → length tag ≡ 16
      → Opening key iv ct c
      → Checking key iv ct tag (E.set_tag 16 tag c)
  -- The final call is positive exactly for the right tag.
  pub checking_right :
      (key iv ct tag : List ℕ) (c : E.Ctx)
      → Checking key iv ct tag c
      → tag ≡ tag_of key iv ct
      → (E.decrypt_final c).0 ≡ some []
  pub checking_wrong :
      (key iv ct tag : List ℕ) (c : E.Ctx)
      → Checking key iv ct tag c
      → ¬ (tag ≡ tag_of key iv ct)
      → (E.decrypt_final c).0 ≡ none
