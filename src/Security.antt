-- ===== src/Security.antt =====
-- src/security/security_engine.cpp and
-- include/secure_telemetry_gateway/security/security_engine.hpp: AES-256-GCM over OpenSSL's EVP
-- calls. The rate limiter of the class is a stub in the source.
pub mod OpenSsl
pub mod Gcm
pub mod Total
pub mod Toy
use secure_ros2_gateway.Prelude.{
  ℕ, ◌+◌, Bool, true, false, ◌&&◌, ◌||◌, not, List, [], Option, none, some, length, ◌==◌,
  if◌then◌else◌,
}
use secure_ros2_gateway.Prelude.Text.{Text}
use secure_ros2_gateway.Prelude.Fault.{◌>>=◌, resize, write_at}
use OpenSsl.{Evp}

abbrev pub aes_256_key_size : ℕ
aes_256_key_size = 32

abbrev pub gcm_iv_size : ℕ
gcm_iv_size = 12

abbrev pub gcm_tag_size : ℕ
gcm_tag_size = 16

-- What a call returns, with its output vectors on return.
pub record Encryption : Type 0 where
  pub ok : Bool
  pub ciphertext : List ℕ
  pub tag : List ℕ

pub record Decryption : Type 0 where
  pub ok : Bool
  pub plaintext : List ℕ

-- `*outl` after a call: a call that fails does not write it.
abbrev pub outl : Option (List ℕ) → ℕ → ℕ
outl none len = len
outl (some bytes) len = length bytes

abbrev pub written : Option (List ℕ) → List ℕ
written none = []
written (some bytes) = bytes

-- The stub: every client is within its rate.
unfoldable pub check_rate_limit {ℓ} : {D : Type ℓ} → Text → D → D → Bool
check_rate_limit client_id max_requests_per_second burst_capacity = true

module _ (E : Evp) where
  -- `RAND_bytes(buffer.data(), length)`, its result not looked at.
  unfoldable pub generate_secure_random_bytes : E.Entropy → ℕ → Option (List ℕ)
  generate_secure_random_bytes e n = write_at 0 (written (E.rand_bytes n e)) (resize n [])

  -- The calls on the context after the size check. `none` is a write out of bounds.
  unfoldable pub encrypt_with :
      E.Ctx → List ℕ → List ℕ → List ℕ → List ℕ → List ℕ → Option Encryption
  encrypt_with ctx plaintext key iv ciphertext tag =
      let ciphertext = resize (length plaintext) ciphertext in
      let tag = resize gcm_tag_size tag in
      let c1 = E.encrypt_init_key key iv (E.set_ivlen (length iv) (E.encrypt_init_cipher ctx)) in
      let (update, c2) = E.encrypt_update plaintext c1 in
      let len = outl update 0 in
      let (final, c3) = E.encrypt_final c2 in
      let ciphertext_len = len + outl final len in
      let (mac, c4) = E.get_tag gcm_tag_size c3 in
      write_at 0 (written update) ciphertext >>= λ ciphertext.
      write_at len (written final) ciphertext >>= λ ciphertext.
      write_at 0 (written mac) tag >>= λ tag.
      some (record { ok = true; ciphertext = resize ciphertext_len ciphertext; tag = tag })

  -- `fresh` is what `EVP_CIPHER_CTX_new` returns.
  unfoldable pub encrypt_aes_gcm :
      Option E.Ctx → List ℕ → List ℕ → List ℕ → List ℕ → List ℕ → Option Encryption
  encrypt_aes_gcm fresh plaintext key iv ciphertext tag =
      let refused = some (record { ok = false; ciphertext = ciphertext; tag = tag }) in
      if not (length key == 32) || not (length iv == 12) then refused else elim fresh [
        | none ↦ refused
        | some ctx ↦ encrypt_with ctx plaintext key iv ciphertext tag
      ]

  unfoldable pub decrypt_with :
      E.Ctx → List ℕ → List ℕ → List ℕ → List ℕ → List ℕ → Option Decryption
  decrypt_with ctx ciphertext key iv tag plaintext =
      let plaintext = resize (length ciphertext) plaintext in
      let c1 = E.decrypt_init_key key iv (E.set_ivlen (length iv) (E.decrypt_init_cipher ctx)) in
      let (update, c2) = E.decrypt_update ciphertext c1 in
      let plaintext_len = outl update 0 in
      let c3 = E.set_tag gcm_tag_size tag c2 in
      let (final, c4) = E.decrypt_final c3 in
      write_at 0 (written update) plaintext >>= λ plaintext.
      write_at plaintext_len (written final) plaintext >>= λ plaintext. some (elim final [
        | none ↦ record { ok = false; plaintext = plaintext }
        | some bytes ↦ record {
          ok = true;
          plaintext = resize (plaintext_len + length bytes) plaintext;
        }
      ])

  -- The parameters in the order of the definition in security_engine.cpp.
  unfoldable pub decrypt_aes_gcm :
      Option E.Ctx → List ℕ → List ℕ → List ℕ → List ℕ → List ℕ → Option Decryption
  decrypt_aes_gcm fresh ciphertext key iv tag plaintext =
      let refused = some (record { ok = false; plaintext = plaintext }) in
      if not (length key == 32) || not (length iv == 12) || not (length tag == 16)
      then refused
      else elim fresh [
        | none ↦ refused
        | some ctx ↦ decrypt_with ctx ciphertext key iv tag plaintext
      ]
