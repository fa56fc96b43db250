-- ===== src/CredProxy/Encrypt.antt =====
-- The encryption at rest (internal/credproxy/encrypt.go). AES in Galois/counter mode, base64, hex
-- and the source of random bytes are parameters.
use kraclaw.Prelude.{
  ℕ, ltb, eqb, true, Text, take, drop, length, ◌++◌, Option, none, some, if◌then◌else◌, [], ◌∷◌,
  ◌<◌, ◌≢◌, length-append, ap₂, subst, ◌≡◌, sym, ◌∙◌, ap, arith, take-length-append,
  drop-length-append, if_cases, option_cases,
}
use kraclaw.CredProxy.{Encrypter, IsEncrypter}

pub record Crypto : Type 1 where
  pub Gcm : Type 0
  pub hex_decode : Text → Option Text
  -- `aes.NewCipher` and `cipher.NewGCM`.
  pub new_gcm : Text → Option Gcm
  pub nonce_size : Gcm → ℕ
  pub seal : Gcm → Text → Text → Text
  pub open_sealed : Gcm → Text → Text → Option Text
  pub base64_encode : Text → Text
  pub base64_decode : Text → Option Text
  -- `io.ReadFull(rand.Reader, …)` of as many bytes, at the n-th call.
  pub random : ℕ → ℕ → Option Text

module _ (c : Crypto) where
  -- `NewEncryptor`.
  unfoldable pub new_encryptor : Text → Option c.Gcm
  new_encryptor key_hex = elim (c.hex_decode key_hex) [
    | none ↦ none
    | some key ↦ if eqb (length key) 32 then c.new_gcm key else none
  ]

  -- The nonce stands in front of what it seals.
  abbrev pub encrypt : c.Gcm → ℕ → Text → Option Text
  encrypt gcm n plaintext = elim (c.random n (c.nonce_size gcm)) [
    | none ↦ none
    | some nonce ↦ some (c.base64_encode (nonce ++ c.seal gcm nonce plaintext))
  ]

  abbrev pub decrypt_data : c.Gcm → Text → Option Text
  decrypt_data gcm payload =
      if ltb (length payload) (c.nonce_size gcm)
      then none
      else c.open_sealed gcm (take (c.nonce_size gcm) payload) (drop (c.nonce_size gcm) payload)

  abbrev pub decrypt : c.Gcm → Text → Option Text
  decrypt gcm ciphertext = elim (c.base64_decode ciphertext) [
    | none ↦ none
    | some payload ↦ decrypt_data gcm payload
  ]

  abbrev pub encryptor : c.Gcm → Encrypter
  encryptor gcm = record { encrypt = encrypt gcm; decrypt = decrypt gcm }

  -- What is known of the parameters.
  pub record IsCrypto : Type 0 where
    pub open-seal :
        (gcm : c.Gcm) (nonce plain : Text)
        → length nonce ≡ c.nonce_size gcm
        → c.open_sealed gcm nonce (c.seal gcm nonce plain) ≡ some plain
    pub decode-encode : (s : Text) → c.base64_decode (c.base64_encode s) ≡ some s
    pub encode-nonempty : (s : Text) → s ≢ [] → c.base64_encode s ≢ []
    pub nonce-positive : (gcm : c.Gcm) → 0 < c.nonce_size gcm
    pub random-length : (n size : ℕ) (s : Text) → c.random n size ≡ some s → length s ≡ size

  decrypt_data_of :
      (gcm : c.Gcm) (nonce sealed : Text)
      → length nonce ≡ c.nonce_size gcm
      → decrypt_data gcm (nonce ++ sealed) ≡ c.open_sealed gcm nonce sealed
  decrypt_data_of gcm nonce sealed e =
      if_cases (λ (o : Option Text). o ≡ c.open_sealed gcm nonce sealed)
        (ltb (length (nonce ++ sealed)) (c.nonce_size gcm)) none
        (c.open_sealed gcm (take (c.nonce_size gcm) (nonce ++ sealed))
          (drop (c.nonce_size gcm) (nonce ++ sealed)))
        (λ short. absurd (enough short)) (λ _. ap₂ (c.open_sealed gcm) front back)
    where
      front : take (c.nonce_size gcm) (nonce ++ sealed) ≡ nonce
      front = ap (λ n. take n (nonce ++ sealed)) (sym e) ∙ take-length-append nonce sealed

      back : drop (c.nonce_size gcm) (nonce ++ sealed) ≡ sealed
      back = ap (λ n. drop n (nonce ++ sealed)) (sym e) ∙ drop-length-append nonce sealed

      enough : ltb (length (nonce ++ sealed)) (c.nonce_size gcm) ≡ true → ⊥
      enough short = ground (arith, length-append nonce sealed)

  -- What an encryptor encrypts, with whatever nonce, it decrypts to the same text; it is not empty.
  pub encryptor-IsEncrypter : IsCrypto → (gcm : c.Gcm) → IsEncrypter (encryptor gcm)
  encryptor-IsEncrypter known gcm = record {
    decrypt-encrypt = round_trip;
    encrypt-nonempty = nonempty;
  }
    where
      round_trip :
          (n : ℕ) (plain cipher : Text)
          → encrypt gcm n plain ≡ some cipher
          → decrypt gcm cipher ≡ some plain
      round_trip n plain cipher e =
          option_cases (λ (o : Option Text). o ≡ some cipher → decrypt gcm cipher ≡ some plain)
            (c.random n (c.nonce_size gcm)) none
            (λ nonce. some (c.base64_encode (nonce ++ c.seal gcm nonce plain))) (λ _ h. cc)
            (λ nonce drawn h.
              let size : length nonce ≡ c.nonce_size gcm =
                known.random-length n (c.nonce_size gcm) nonce drawn in
              subst (λ (o : Option Text). decrypt_of o ≡ some plain) h
                (ap decoded (known.decode-encode (nonce ++ c.seal gcm nonce plain))
                  ∙ (decrypt_data_of gcm nonce (c.seal gcm nonce plain) size
                      ∙ known.open-seal gcm nonce plain size)))
            e
        where
          decoded : Option Text → Option Text
          decoded o = elim o [ none ↦ none | some payload ↦ decrypt_data gcm payload ]

          decrypt_of : Option Text → Option Text
          decrypt_of o = elim o [ none ↦ none | some s ↦ decrypt gcm s ]

      not_nil : (nonce sealed : Text) → 0 < length nonce → nonce ++ sealed ≢ []
      not_nil [] sealed h = absurd (omega (arith, h))
      not_nil (b ∷ nonce) sealed h = λ e. cc

      nonempty : (n : ℕ) (plain cipher : Text) → encrypt gcm n plain ≡ some cipher → cipher ≢ []
      nonempty n plain cipher e =
          option_cases (λ (o : Option Text). o ≡ some cipher → cipher ≢ [])
            (c.random n (c.nonce_size gcm)) none
            (λ nonce. some (c.base64_encode (nonce ++ c.seal gcm nonce plain))) (λ _ h. cc)
            (λ nonce drawn h nil.
              known.encode-nonempty (nonce ++ c.seal gcm nonce plain)
                (not_nil nonce (c.seal gcm nonce plain) (
                  subst (λ k. 0 < k) (sym (known.random-length n (c.nonce_size gcm) nonce drawn))
                    (known.nonce-positive gcm)))
                (inner h ∙ nil))
            e
        where
          inner : {x y : Text} → some x ≡ some y → x ≡ y
          inner h = cc
