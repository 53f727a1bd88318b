-- ===== src/Wallet/Codec/RoundTrip.antt =====
-- wallet-core/src/codec.rs: what was sealed opens again, and what opens is within the limits.
use tinylayer_org.Base.{
  Bytes, ◌≡◌, ◌≤◌, inl, inr, [], ◌∷◌, ◌++◌, ok, some, arith, length, Option-cases, Result-cases,
}
use tinylayer_org.Wallet.Types.{WalletState}
use tinylayer_org.Wallet.Register.{validate_version}
use tinylayer_org.Wallet.Codec.{
  Vault, Json, EncryptedState, validate_kdf, derive_key, kdf_of, encrypted_of, seal_encrypted_json,
  open_encrypted_json, seal_wallet_state, open_wallet_state,
}

-- The documented behaviour of the encodings and the cipher: what they wrote they read back, white
-- space behind a JSON value included.
pub record IsFaithful (v : Vault) : Type 0 where
  pub hex : (bytes : Bytes) → v.hex_decode (v.hex_encode bytes) ≡ some bytes
  pub decrypts :
      (key nonce text aad ciphertext : Bytes)
      → v.encrypt key nonce text aad ≡ some ciphertext
      → v.decrypt key nonce ciphertext aad ≡ some text
  pub json :
      (encrypted : EncryptedState) (bytes : Bytes)
      → v.encrypted_to_json encrypted ≡ some bytes
      → v.encrypted_from_json (bytes ++ b'\n' ∷ []) ≡ some encrypted

pub record IsFaithfulJson {A : Type 0} (json : Json A) : Type 0 where
  pub reads :
      (value : A) (bytes : Bytes)
      → json.to_vec value ≡ some bytes
      → json.from_slice bytes ≡ some value

-- An encrypted state whose costs are within the limits of the code.
pub record IsAffordable (encrypted : EncryptedState) : Type 0 where
  pub memory : (8 ≤ encrypted.kdf.memory_kib) × (encrypted.kdf.memory_kib ≤ 262144)
  pub iterations : (1 ≤ encrypted.kdf.iterations) × (encrypted.kdf.iterations ≤ 10)
  pub parallelism : (1 ≤ encrypted.kdf.parallelism) × (encrypted.kdf.parallelism ≤ 16)

module _ (v : Vault) where
  -- A file that opens has costs within the limits, a salt of 16 bytes and a nonce of 24.
  pub open_encrypted_json-IsAffordable :
      {A : Type 0} (json : Json A) (bytes password aad : Bytes) (value : A)
      → open_encrypted_json v json bytes password aad ≡ ok value
      → (encrypted : EncryptedState) × (salt : Bytes) × (nonce : Bytes) × (v.encrypted_from_json
            bytes
          ≡ some encrypted)
        × IsAffordable encrypted
        × (v.hex_decode encrypted.kdf.salt ≡ some salt)
        × (length salt ≡ 16)
        × (v.hex_decode encrypted.nonce ≡ some nonce)
        × (length nonce ≡ 24)
  unfolding open_encrypted_json validate_kdf
  open_encrypted_json-IsAffordable json bytes password aad value h =
      elim (Option-cases (v.encrypted_from_json bytes)) [
        | inl e1 ↦ absurd (ground arith)
        | inr (encrypted, f1) ↦ elim (Option-cases (v.hex_decode encrypted.kdf.salt)) [
          | inl e2 ↦ absurd (ground arith)
          | inr (salt, f2) ↦ elim (Option-cases (v.hex_decode encrypted.nonce)) [
            | inl e3 ↦ absurd (ground arith)
            | inr (nonce, f3) ↦
                let affordable : IsAffordable encrypted = record {
                  memory = ground arith;
                  iterations = ground arith;
                  parallelism = ground arith;
                } in
                (encrypted, salt, nonce, f1, affordable, f2, ground arith, f3, ground arith)
          ]
        ]
      ]

  module _ (faithful : IsFaithful v) where
    -- With faithful encodings, a value that was sealed with a salt of 16 bytes and a nonce of 24
    -- opens again under the same password and binding.
    pub open-seal :
        {A : Type 0} (json : Json A)
        → IsFaithfulJson json
        → (salt nonce : Bytes) (value : A) (password aad bytes : Bytes) → length salt ≡ 16
        → length nonce ≡ 24
        → seal_encrypted_json v json salt nonce value password aad ≡ ok bytes
        → open_encrypted_json v json bytes password aad ≡ ok value
    unfolding seal_encrypted_json open_encrypted_json derive_key validate_kdf
    open-seal json reads salt nonce value password aad bytes l16 l24 h =
        elim (Option-cases (json.to_vec value)) [
          | inl e1 ↦ absurd (ground arith)
          | inr (text, f1) ↦ elim (Result-cases (derive_key v password (kdf_of v salt) salt)) [
            | inr (e2, g2) ↦ absurd (ground arith)
            | inl (key, f2) ↦ elim (Option-cases (v.cipher_key key)) [
              | inl e3 ↦ absurd (ground arith)
              | inr (cipher, f3) ↦ elim (Option-cases (v.encrypt cipher nonce text aad)) [
                | inl e4 ↦ absurd (ground arith)
                | inr (sealed, f4) ↦
                    elim (Option-cases (v.encrypted_to_json (encrypted_of v salt nonce sealed))) [
                      | inl e5 ↦ absurd (ground arith)
                      | inr (encoded, f5) ↦
                          let shape : encoded ++ b'\n' ∷ [] ≡ bytes = ground arith in
                          let parsed =
                            faithful.json (encrypted_of v salt nonce sealed) encoded f5 in
                          let text_is = faithful.decrypts cipher nonce text aad sealed f4 in
                          rw (← shape) (
                            ground (
                              arith,
                              parsed,
                              faithful.hex salt,
                              faithful.hex nonce,
                              faithful.hex sealed,
                              text_is,
                              reads.reads value text f1,
                            ))
                    ]
              ]
            ]
          ]
        ]

    -- With faithful encodings, a wallet state that was sealed so opens as itself, and a sealed state
    -- has a supported version.
    pub open_wallet_state-seal :
        (json : Json WalletState)
        → IsFaithfulJson json
        → (salt nonce : Bytes) (state : WalletState) (password aad bytes : Bytes) → length salt ≡ 16
        → length nonce ≡ 24
        → seal_wallet_state v json salt nonce state password aad ≡ ok bytes
        → (open_wallet_state v json bytes password aad ≡ ok state)
          × (validate_version state ≡ ok tt)
    unfolding seal_wallet_state open_wallet_state
    open_wallet_state-seal json reads salt nonce state password aad bytes l16 l24 h =
        let again =
          open-seal json reads salt nonce state password aad bytes l16 l24 (ground arith) in
        (ground arith, ground arith)
