-- ===== src/Tests/Security.antt =====
-- encrypt_aes_gcm and decrypt_aes_gcm of src/security/security_engine.cpp over the small cipher.
use secure_ros2_gateway.Prelude.{
  ℕ, ◌≡◌, ◌↔◌, refl, true, false, List, [], ◌∷◌, some, replicate, arith,
}
use secure_ros2_gateway.Security.{Encryption, Decryption, encrypt_aes_gcm, decrypt_aes_gcm}
use secure_ros2_gateway.Security.Total.{MayEncrypt, IsAuthentic, aes_gcm_total}
use secure_ros2_gateway.Security.Toy.{blank, toy, toy-IsGcm}
use secure_ros2_gateway.Security.Gcm.{
  encrypt_aes_gcm_lem, decrypt_aes_gcm_wrong, decrypt_aes_gcm-encrypt_aes_gcm,
}

abbrev key : List ℕ
key = replicate 32 1

abbrev iv : List ℕ
iv = replicate 12 2

abbrev plaintext : List ℕ
plaintext = 10 ∷ 20 ∷ 30 ∷ []

abbrev right_tag : List ℕ
right_tag = 116 ∷ replicate 15 0

abbrev wrong_tag : List ℕ
wrong_tag = replicate 16 9

abbrev sent : Encryption
sent = record { ok = true; ciphertext = plaintext; tag = right_tag }

sent_lem : encrypt_aes_gcm toy (some blank) plaintext key iv [] [] ≡ some sent
unfolding toy-IsGcm
sent_lem = encrypt_aes_gcm_lem toy toy-IsGcm blank plaintext key iv [] [] refl refl (omega arith)

decrypt_aes_gcm_wrong_example :
    decrypt_aes_gcm toy (some blank) plaintext key iv wrong_tag []
    ≡ some (record { ok = false; plaintext = plaintext })
unfolding toy-IsGcm
decrypt_aes_gcm_wrong_example =
    decrypt_aes_gcm_wrong toy toy-IsGcm blank plaintext key iv wrong_tag [] refl refl refl
      (omega arith) (λ h. cc)

decrypt_aes_gcm-encrypt_aes_gcm_example :
    decrypt_aes_gcm toy (some blank) plaintext key iv right_tag []
    ≡ some (record { ok = true; plaintext = plaintext })
decrypt_aes_gcm-encrypt_aes_gcm_example =
    decrypt_aes_gcm-encrypt_aes_gcm toy toy-IsGcm blank blank plaintext key iv [] [] []
      {sent = sent} sent_lem refl (omega arith)

aes_gcm_total_example :
    ((sent : Encryption) × (encrypt_aes_gcm toy (some blank) plaintext key iv [] wrong_tag
        ≡ some sent)
      × ((sent.ok ≡ true) ↔ MayEncrypt toy toy-IsGcm (some blank) key iv))
    × ((back : Decryption) × (decrypt_aes_gcm toy (some blank) plaintext key iv wrong_tag []
          ≡ some back)
        × ((back.ok ≡ true) ↔ IsAuthentic toy toy-IsGcm (some blank) plaintext key iv wrong_tag))
aes_gcm_total_example =
    aes_gcm_total toy toy-IsGcm (some blank) plaintext key iv wrong_tag [] [] (omega arith)
