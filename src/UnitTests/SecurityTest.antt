-- ===== src/UnitTests/SecurityTest.antt =====
-- test/test_security_engine.cpp: what becomes of its two tests on the security engine.
use secure_ros2_gateway.Prelude.{
  ℕ, ◌-◌, ◌≡◌, ◌≢◌, refl, Bool, true, false, not, ◌||◌, ◌&&◌, ◌==◌, List, [], ◌∷◌, Option, none,
  some, length, replicate, arith, if◌then◌else◌,
}
use secure_ros2_gateway.Prelude.Text.{Text, text}
use secure_ros2_gateway.Prelude.Fault.{◌>>=◌}
use secure_ros2_gateway.Security.{encrypt_aes_gcm, decrypt_aes_gcm}
use secure_ros2_gateway.Security.OpenSsl.{Evp, FitsInt, IsGcm}
use secure_ros2_gateway.Security.Gcm.{
  encrypt_aes_gcm_lem, decrypt_aes_gcm-encrypt_aes_gcm, decrypt_aes_gcm_tampered,
}

abbrev pub key : List ℕ
key =
    0x60 ∷ 0x3d ∷ 0xeb ∷ 0x10 ∷ 0x15 ∷ 0xca ∷ 0x71 ∷ 0xbe ∷ 0x2b ∷ 0x73 ∷ 0xae ∷ 0xf0 ∷ 0x85 ∷ 0x7d
    ∷ 0x77 ∷ 0x81 ∷ 0x1f ∷ 0x35 ∷ 0x2c ∷ 0x07 ∷ 0x3b ∷ 0x61 ∷ 0x08 ∷ 0xd7 ∷ 0x2d ∷ 0x98 ∷ 0x10
    ∷ 0xa3 ∷ 0x09 ∷ 0x14 ∷ 0xdf ∷ 0xf4 ∷ []

abbrev pub iv : List ℕ
iv = 0x11 ∷ 0x22 ∷ 0x33 ∷ 0x44 ∷ 0x55 ∷ 0x66 ∷ 0x77 ∷ 0x88 ∷ 0x99 ∷ 0xAA ∷ 0xBB ∷ 0xCC ∷ []

abbrev battery_text : Text
battery_text = text "{\"robot_id\":\"amr_01\",\"battery\":98.5}"

abbrev temperature_text : Text
temperature_text = text "{\"robot_id\":\"amr_01\",\"temperature\":42.0}"

starts_with : Text → Text → Bool
starts_with [] t = true
starts_with (b ∷ s) [] = false
starts_with (b ∷ s) (c ∷ t) = b == c && starts_with s t

-- Whether `std::string::find` finds the text.
occurs : Text → Text → Bool
occurs s [] = starts_with s []
occurs s (c ∷ t) = starts_with s (c ∷ t) || occurs s t

-- `tag[0] ^= 0xFF`; `none` is a write out of bounds.
abbrev flip_first : List ℕ → Option (List ℕ)
flip_first [] = none
flip_first (b ∷ rest) = some ((255 - b) ∷ rest)

abbrev blank : List ℕ → List ℕ
blank bytes = replicate (length bytes) 0

module _ (E : Evp) where
  -- A test with the contexts that its two calls get: whether it passes, `none` a write out of
  -- bounds.
  pub encrypt_decrypt_roundtrip_success : Option E.Ctx → Option E.Ctx → Option Bool
  encrypt_decrypt_roundtrip_success ctx ctx' =
      encrypt_aes_gcm E ctx battery_text key iv (blank battery_text) (replicate 16 0) >>= λ sent.
      if not sent.ok
      then some false
      else decrypt_aes_gcm E ctx' sent.ciphertext key iv sent.tag (blank sent.ciphertext)
        >>= λ back. some (back.ok && occurs (text "amr_01") back.plaintext)

  pub rejects_tampered_tag : Option E.Ctx → Option E.Ctx → Option Bool
  rejects_tampered_tag ctx ctx' =
      encrypt_aes_gcm E ctx temperature_text key iv (blank temperature_text) (replicate 16 0)
      >>= λ sent.
          if not sent.ok
          then some false
          else flip_first sent.tag >>= λ tag.
              decrypt_aes_gcm E ctx' sent.ciphertext key iv tag (blank sent.ciphertext) >>= λ back.
              some (not back.ok)

  flip_first-cases :
      (tag : List ℕ)
      → length tag ≡ 16
      → (forged : List ℕ) × (flip_first tag ≡ some forged) × (length forged ≡ 16) × (forged ≢ tag)
  flip_first-cases [] h = absurd (omega (arith, h))
  flip_first-cases (b ∷ rest) h = ((255 - b) ∷ rest, refl, h, λ same. ground arith)

  module _ (G : IsGcm E) (ctx ctx' : E.Ctx) where
    encrypted :
        (p : List ℕ)
        → FitsInt p
        → encrypt_aes_gcm E (some ctx) p key iv (blank p) (replicate 16 0)
          ≡ some (record {
            ok = true;
            ciphertext = G.seal key iv p;
            tag = G.tag_of key iv (G.seal key iv p);
          })
    encrypted p fits =
        encrypt_aes_gcm_lem E G ctx p key iv (blank p) (replicate 16 0) refl refl fits

    roundtrip_passes : encrypt_decrypt_roundtrip_success (some ctx) (some ctx') ≡ some true
    unfolding encrypt_decrypt_roundtrip_success occurs starts_with
    roundtrip_passes =
        let p = battery_text in
        let sent = encrypted p (omega arith) in
        let back =
          decrypt_aes_gcm-encrypt_aes_gcm E G ctx ctx' p key iv (blank p) (replicate 16 0)
            (blank (G.seal key iv p)) sent refl (omega arith) in
        rw (sent, back) refl

    tampered_passes : rejects_tampered_tag (some ctx) (some ctx') ≡ some true
    unfolding rejects_tampered_tag
    tampered_passes =
        let p = temperature_text in
        let sent = encrypted p (omega arith) in
        let ct = G.seal key iv p in
        let (forged, flipped, size, other) =
          flip_first-cases (G.tag_of key iv ct) (G.length-tag_of key iv ct) in
        let refused =
          decrypt_aes_gcm_tampered E G ctx ctx' p key iv (blank p) (replicate 16 0) forged
            (blank ct) sent refl (omega arith) size other in
        rw (sent, flipped, refused) refl

    -- Over an OpenSSL that does AES-256-GCM, when each call gets its context, both tests pass: the
    -- text comes back, and the ciphertext is refused after a byte of its tag has been changed.
    pub security_tests_pass :
        (encrypt_decrypt_roundtrip_success (some ctx) (some ctx') ≡ some true)
        × (rejects_tampered_tag (some ctx) (some ctx') ≡ some true)
    security_tests_pass = (roundtrip_passes, tampered_passes)
