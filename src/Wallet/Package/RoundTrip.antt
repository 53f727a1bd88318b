-- ===== src/Wallet/Package/RoundTrip.antt =====
-- wallet-core/src/transfer.rs: what a sender encrypts, the owner of the transport key decrypts.
use tinylayer_org.Base.{
  Bytes, ◌≡◌, ◌+◌, ◌*◌, arith, some, ok, length, Option-cases, Result-cases, inl, inr,
}
use tinylayer_org.Wallet.Types.{TransferRequest, TransferEnvelope, TransferPayload}
use tinylayer_org.Wallet.Platform.{Platform}
use tinylayer_org.Wallet.Request.{request_id_of, transport_key_of, aad}
use tinylayer_org.Wallet.Package.{
  encrypt_transfer, decrypt_transfer, validate_transfer_plaintext_size, transfer_key,
}

-- The documented behaviour of the encodings, of ECDH and of the authenticated cipher, whose tag is 16
-- bytes long.
pub record IsFaithfulTransport (p : Platform) : Type 0 where
  pub hex : (bytes : Bytes) → p.hex_decode (p.hex_encode bytes) ≡ some bytes
  pub hex_length : (bytes : Bytes) → length (p.hex_encode bytes) ≡ 2 * length bytes
  pub texts :
      (secret : Bytes)
      → p.public_from_str (p.public_to_string (p.public_key secret)) ≡ some (p.public_key secret)
  pub agrees :
      (a b : Bytes) → p.shared_secret (p.public_key a) b ≡ p.shared_secret (p.public_key b) a
  pub decrypts :
      (key nonce text associated ciphertext : Bytes)
      → p.encrypt key nonce text associated ≡ some ciphertext
      → p.decrypt key nonce ciphertext associated ≡ some text
  pub tag :
      (key nonce text associated ciphertext : Bytes)
      → p.encrypt key nonce text associated ≡ some ciphertext
      → length ciphertext ≡ length text + 16

-- The serialization of one payload.
abbrev pub IsReadBack : Platform → TransferPayload → Type 0
IsReadBack p payload =
    (text : Bytes) → p.payload_to_json payload ≡ some text → p.payload_from_json text ≡ some payload

module _ (p : Platform) (faithful : IsFaithfulTransport p) where
  -- With faithful encodings and ECDH that agrees, a payload that was encrypted for a request, with a
  -- nonce of 24 bytes, is decrypted by the secret behind the request's transport key.
  pub decrypt_transfer-encrypt :
      (ephemeral nonce saved secret : Bytes) (request : TransferRequest) (payload : TransferPayload)
      (envelope : TransferEnvelope)
      → IsReadBack p payload
      → p.secret_from_slice saved ≡ some secret
      → transport_key_of p request ≡ ok (p.public_key secret)
      → length nonce ≡ 24
      → encrypt_transfer p ephemeral nonce request payload ≡ ok envelope
      → decrypt_transfer p request saved envelope ≡ ok payload
  unfolding encrypt_transfer decrypt_transfer validate_transfer_plaintext_size transfer_key
  decrypt_transfer-encrypt ephemeral nonce saved secret request payload envelope reads f0 f1 l24 h =
      let shared = p.shared_secret (p.public_key secret) ephemeral in
      elim (Result-cases (request_id_of p request)) [
        | inr (e, g) ↦ absurd (ground arith)
        | inl (id, g1) ↦ elim (Result-cases (transfer_key p shared id)) [
          | inr (e, g) ↦ absurd (ground arith)
          | inl (bytes, g2) ↦ elim (Option-cases (p.cipher_key bytes)) [
            | inl g ↦ absurd (ground arith)
            | inr (key, g3) ↦ elim (Option-cases (p.payload_to_json payload)) [
              | inl g ↦ absurd (ground arith)
              | inr (text, g4) ↦ elim (Result-cases (aad p request)) [
                | inr (e, g) ↦ absurd (ground arith)
                | inl (associated, g5) ↦ elim (Option-cases (p.encrypt key nonce text associated)) [
                  | inl g ↦ absurd (ground arith)
                  | inr (sealed, g6) ↦ ground (
                    arith,
                    faithful.hex nonce,
                    faithful.hex sealed,
                    faithful.hex_length sealed,
                    faithful.texts ephemeral,
                    faithful.agrees ephemeral secret,
                    faithful.decrypts key nonce text associated sealed g6,
                    faithful.tag key nonce text associated sealed g6,
                    reads text g4,
                  )
                ]
              ]
            ]
          ]
        ]
      ]
