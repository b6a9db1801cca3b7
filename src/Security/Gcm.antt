-- ===== src/Security/Gcm.antt =====
-- What encrypt_aes_gcm and decrypt_aes_gcm do, given OpenSSL's account of AES-256-GCM.
use native.Mathlib.Nat.{le_refl}
use secure_ros2_gateway.Prelude.{
  ℕ, ◌≡◌, refl, sym, ap, ◌∙◌, ◌⊎◌, ◌≢◌, true, false, List, Option, none, some, arith, length,
  ==_iff, ◌+◌,
}
use secure_ros2_gateway.Prelude.Fault.{
  resize, resize-length, length-resize, write_at-zero, write_at-nil,
}
use secure_ros2_gateway.Security.OpenSsl.{Evp, FitsInt, IsGcm}
use secure_ros2_gateway.Security.{
  Encryption, encrypt_with, encrypt_aes_gcm, decrypt_with, decrypt_aes_gcm,
}

module _ (E : Evp) (G : IsGcm E) where
  open G use {seal, unseal, tag_of}

  encrypt_with-seal :
      (ctx : E.Ctx) (plaintext key iv ciphertext tag : List ℕ)
      → length key ≡ 32
      → length iv ≡ 12
      → FitsInt plaintext
      → encrypt_with E ctx plaintext key iv ciphertext tag
        ≡ some (record {
          ok = true;
          ciphertext = seal key iv plaintext;
          tag = tag_of key iv (seal key iv plaintext);
        })
  unfolding encrypt_with
  encrypt_with-seal ctx p key iv ciphertext tag k v fits =
      let a = G.sealing_init key iv ctx k v in
      let b = G.sealing_update key iv p _ fits a in
      let c = G.sealing_final key iv p _ b.1 in
      let d = G.sealing_tag key iv p _ c.1 in
      let n = G.length-seal key iv p in
      let m = G.length-tag_of key iv (seal key iv p) in
      rw (b.0, c.0, d)
        (rw
          (
            write_at-zero (seal key iv p) (resize (length p) ciphertext)
                (length-resize (length p) ciphertext ∙ sym n),
            write_at-nil (length (seal key iv p)) (seal key iv p) (le_refl _),
            write_at-zero (tag_of key iv (seal key iv p)) (resize 16 tag)
                (length-resize 16 tag ∙ sym m),
            resize-length (length (seal key iv p) + 0) (seal key iv p) (omega arith),
          )
          refl)

  -- With a context, a key of 32 bytes, an IV of 12 and a length that an `int` holds, encryption
  -- succeeds, writes within its buffers and returns the GCM ciphertext and its tag, whatever the
  -- output vectors held.
  pub encrypt_aes_gcm_lem :
      (ctx : E.Ctx) (plaintext key iv ciphertext tag : List ℕ)
      → length key ≡ 32
      → length iv ≡ 12
      → FitsInt plaintext
      → encrypt_aes_gcm E (some ctx) plaintext key iv ciphertext tag
        ≡ some (record {
          ok = true;
          ciphertext = seal key iv plaintext;
          tag = tag_of key iv (seal key iv plaintext);
        })
  unfolding encrypt_aes_gcm
  encrypt_aes_gcm_lem ctx p key iv ciphertext tag k v fits =
      rw ((==_iff (length key) 32).1 k, (==_iff (length iv) 12).1 v)
        (encrypt_with-seal ctx p key iv ciphertext tag k v fits)

  decrypt_with-right :
      (ctx : E.Ctx) (ciphertext key iv tag plaintext : List ℕ)
      → length key ≡ 32
      → length iv ≡ 12
      → length tag ≡ 16
      → FitsInt ciphertext
      → tag ≡ tag_of key iv ciphertext
      → decrypt_with E ctx ciphertext key iv tag plaintext
        ≡ some (record { ok = true; plaintext = unseal key iv ciphertext })
  unfolding decrypt_with
  decrypt_with-right ctx ct key iv tag plaintext k v t fits right =
      let a = G.opening_init key iv ctx k v in
      let b = G.opening_update key iv ct _ fits a in
      let c = G.checking_tag key iv ct tag _ t b.1 in
      let d = G.checking_right key iv ct tag _ c right in
      let n = G.length-unseal key iv ct in
      rw (b.0, d)
        (rw
          (
            write_at-zero (unseal key iv ct) (resize (length ct) plaintext)
                (length-resize (length ct) plaintext ∙ sym n),
            write_at-nil (length (unseal key iv ct)) (unseal key iv ct) (le_refl _),
            b.0,
            resize-length (length (unseal key iv ct) + 0) (unseal key iv ct) (omega arith),
          )
          refl)

  decrypt_with-wrong :
      (ctx : E.Ctx) (ciphertext key iv tag plaintext : List ℕ)
      → length key ≡ 32
      → length iv ≡ 12
      → length tag ≡ 16
      → FitsInt ciphertext
      → ¬ (tag ≡ tag_of key iv ciphertext)
      → decrypt_with E ctx ciphertext key iv tag plaintext
        ≡ some (record { ok = false; plaintext = unseal key iv ciphertext })
  unfolding decrypt_with
  decrypt_with-wrong ctx ct key iv tag plaintext k v t fits wrong =
      let a = G.opening_init key iv ctx k v in
      let b = G.opening_update key iv ct _ fits a in
      let c = G.checking_tag key iv ct tag _ t b.1 in
      let d = G.checking_wrong key iv ct tag _ c wrong in
      let n = G.length-unseal key iv ct in
      rw (b.0, d)
        (rw
          (
            write_at-zero (unseal key iv ct) (resize (length ct) plaintext)
                (length-resize (length ct) plaintext ∙ sym n),
            write_at-nil (length (unseal key iv ct)) (unseal key iv ct) (le_refl _),
          )
          refl)

  -- The right tag: the plaintext is handed out.
  pub decrypt_aes_gcm_right :
      (ctx : E.Ctx) (ciphertext key iv tag plaintext : List ℕ)
      → length key ≡ 32
      → length iv ≡ 12
      → FitsInt ciphertext
      → tag ≡ tag_of key iv ciphertext
      → decrypt_aes_gcm E (some ctx) ciphertext key iv tag plaintext
        ≡ some (record { ok = true; plaintext = unseal key iv ciphertext })
  unfolding decrypt_aes_gcm
  decrypt_aes_gcm_right ctx ct key iv tag plaintext k v fits right =
      let t = ap length right ∙ G.length-tag_of key iv ct in
      rw ((==_iff (length key) 32).1 k, (==_iff (length iv) 12).1 v, (==_iff (length tag) 16).1 t)
        (decrypt_with-right ctx ct key iv tag plaintext k v t fits right)

  -- Any other tag of 16 bytes is refused, without a write out of bounds. The caller's vector then
  -- holds the unverified decryption: it is not cleared.
  pub decrypt_aes_gcm_wrong :
      (ctx : E.Ctx) (ciphertext key iv tag plaintext : List ℕ)
      → length key ≡ 32
      → length iv ≡ 12
      → length tag ≡ 16
      → FitsInt ciphertext
      → tag ≢ tag_of key iv ciphertext
      → decrypt_aes_gcm E (some ctx) ciphertext key iv tag plaintext
        ≡ some (record { ok = false; plaintext = unseal key iv ciphertext })
  unfolding decrypt_aes_gcm
  decrypt_aes_gcm_wrong ctx ct key iv tag plaintext k v t fits wrong =
      rw ((==_iff (length key) 32).1 k, (==_iff (length iv) 12).1 v, (==_iff (length tag) 16).1 t)
        (decrypt_with-wrong ctx ct key iv tag plaintext k v t fits wrong)

  -- Encryption reports success for keys of 32 bytes and IVs of 12 alone.
  encrypt_sizes :
      (ctx : E.Ctx) (plaintext key iv ciphertext tag : List ℕ) {sent : Encryption}
      → encrypt_aes_gcm E (some ctx) plaintext key iv ciphertext tag ≡ some sent
      → sent.ok ≡ true
      → (length key ≡ 32) × (length iv ≡ 12)
  unfolding encrypt_aes_gcm
  encrypt_sizes ctx p key iv ciphertext tag e ok = ground arith

  -- What a successful encrypt_aes_gcm returns, decrypt_aes_gcm takes back to the plaintext under
  -- the same key and IV, whatever the output vectors held.
  pub decrypt_aes_gcm-encrypt_aes_gcm :
      (ctx ctx' : E.Ctx) (plaintext key iv ciphertext tag out : List ℕ) {sent : Encryption}
      → encrypt_aes_gcm E (some ctx) plaintext key iv ciphertext tag ≡ some sent
      → sent.ok ≡ true
      → FitsInt plaintext
      → decrypt_aes_gcm E (some ctx') sent.ciphertext key iv sent.tag out
        ≡ some (record { ok = true; plaintext = plaintext })
  decrypt_aes_gcm-encrypt_aes_gcm ctx ctx' p key iv ciphertext tag out {sent} e ok fits =
      let (k, v) = encrypt_sizes ctx p key iv ciphertext tag e ok in
      let made = encrypt_aes_gcm_lem ctx p key iv ciphertext tag k v fits in
      let room : FitsInt (seal key iv p) = rw (G.length-seal key iv p) fits in
      let c : sent.ciphertext ≡ seal key iv p = ground (arith, made) in
      let t : sent.tag ≡ tag_of key iv (seal key iv p) = ground (arith, made) in
      rw (c, t)
        (rw (decrypt_aes_gcm_right ctx' (seal key iv p) key iv _ out k v room refl)
          (rw (G.unseal-seal key iv p)))

  -- A ciphertext with a tag of 16 bytes other than the one encryption returned is refused.
  pub decrypt_aes_gcm_tampered :
      (ctx ctx' : E.Ctx) (plaintext key iv ciphertext tag forged out : List ℕ) {sent : Encryption}
      → encrypt_aes_gcm E (some ctx) plaintext key iv ciphertext tag ≡ some sent
      → sent.ok ≡ true
      → FitsInt plaintext
      → length forged ≡ 16
      → forged ≢ sent.tag
      → decrypt_aes_gcm E (some ctx') sent.ciphertext key iv forged out
        ≡ some (record { ok = false; plaintext = plaintext })
  decrypt_aes_gcm_tampered ctx ctx' p key iv ciphertext tag forged out {sent} e ok fits size other =
      let (k, v) = encrypt_sizes ctx p key iv ciphertext tag e ok in
      let made = encrypt_aes_gcm_lem ctx p key iv ciphertext tag k v fits in
      let room : FitsInt (seal key iv p) = rw (G.length-seal key iv p) fits in
      let c : sent.ciphertext ≡ seal key iv p = ground (arith, made) in
      let t : sent.tag ≡ tag_of key iv (seal key iv p) = ground (arith, made) in
      rw c (
        rw
          (decrypt_aes_gcm_wrong ctx' (seal key iv p) key iv forged out k v size room
            (λ h. other (h ∙ sym t)))
          (rw (G.unseal-seal key iv p)))

-- Without the right sizes of key, IV and tag, or without a context, decryption reports failure
-- and leaves the output vector alone, whatever OpenSSL does.
pub decrypt_aes_gcm_guard :
    (E : Evp) (fresh : Option E.Ctx) (ciphertext key iv tag plaintext : List ℕ)
    → (length key ≢ 32) ⊎ (length iv ≢ 12) ⊎ (length tag ≢ 16) ⊎ (fresh ≡ none)
    → decrypt_aes_gcm E fresh ciphertext key iv tag plaintext
      ≡ some (record { ok = false; plaintext = plaintext })
unfolding decrypt_aes_gcm
decrypt_aes_gcm_guard E fresh ciphertext key iv tag plaintext h = ground arith
