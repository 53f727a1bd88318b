-- ===== src/Wallet/Package.antt =====
-- wallet-core/src/transfer.rs: the encrypted transfer package.
pub mod RoundTrip
use tinylayer_org.Base.{
  ℕ, Bytes, Result, ok, ensure, ok_or, ◌>>=◌, ◌>>◌, leb, ◌==◌, same, bytes_discrete, length, ◌*◌,
  ◌-◌, checked_add, Option, none, some, Bool, false,
}
use tinylayer_org.Enclave.Types.{protocol_version}
use tinylayer_org.Wallet.Types.{
  Failure, message, TransferRequest, TransferEnvelope, TransferPayload, file_format_version,
}
use tinylayer_org.Wallet.Platform.{Platform}
use tinylayer_org.Wallet.Request.{
  validate_request, request_id_of, transport_key_of, aad, transfer_info,
}

-- `MAX_TRANSFER_CIPHERTEXT_SIZE`: 8 MiB less 4096.
abbrev pub max_transfer_ciphertext_size : ℕ
max_transfer_ciphertext_size = 8 * 1024 * 1024 - 4096

unfoldable pub validate_payload : TransferPayload → Result Failure Unit
validate_payload payload = do
  ensure (payload.format_version == file_format_version)
      (message "unsupported transfer payload version")
  ensure (payload.protocol_version == protocol_version)
      (message "transfer protocol version mismatch")

unfoldable pub validate_expected_amount : TransferPayload → TransferRequest → Result Failure Unit
validate_expected_amount payload request =
    ensure (payload.metadata.amount_sat == request.expected_amount_sat)
      (message "transfer amount mismatch")

-- `is_some_and(|size| size <= MAX_TRANSFER_CIPHERTEXT_SIZE)`
abbrev pub fits : Option ℕ → Bool
fits none = false
fits (some size) = leb size max_transfer_ciphertext_size

unfoldable pub validate_transfer_plaintext_size : ℕ → Result Failure Unit
validate_transfer_plaintext_size plaintext_size =
    ensure (fits (checked_add 64 plaintext_size 16))
      (message "transfer package exceeds 8 MiB ciphertext limit")

module _ (p : Platform) where
  unfoldable pub validate_transfer_payload_size : TransferPayload → Result Failure Unit
  validate_transfer_payload_size payload = do
    plaintext ← ok_or (p.payload_to_json payload) (message "serialization failed")
    validate_transfer_plaintext_size (length plaintext)

  unfoldable pub secret_xonly : Bytes → Bytes
  secret_xonly secret = p.x_only_public_key secret

  unfoldable pub transfer_key : Bytes → Bytes → Result Failure Bytes
  transfer_key shared request_id =
      ok_or (p.hkdf request_id shared transfer_info)
        (message "failed to derive transfer encryption key")

  -- `encrypt_transfer_with_material`; `encrypt_transfer` draws the ephemeral key and the nonce.
  unfoldable pub encrypt_transfer :
      Bytes → Bytes → TransferRequest → TransferPayload → Result Failure TransferEnvelope
  encrypt_transfer ephemeral nonce request payload = do
    validate_request p request
    validate_payload payload
    request_id ← request_id_of p request
    ensure (same bytes_discrete payload.request_id request_id) (message "transfer request mismatch")
    let ephemeral_public_key = p.public_key ephemeral
    transport_key ← transport_key_of p request
    let shared = p.shared_secret transport_key ephemeral
    key_bytes ← transfer_key shared payload.request_id
    key ← ok_or (p.cipher_key key_bytes) (message "invalid transfer encryption key")
    plaintext ← ok_or (p.payload_to_json payload) (message "serialization failed")
    validate_transfer_plaintext_size (length plaintext)
    associated ← aad p request
    ciphertext ←
        ok_or (p.encrypt key nonce plaintext associated)
          (message "failed to encrypt transfer package")
    ok (record {
      format_version = file_format_version;
      request_id = request.request_id;
      ephemeral_public_key = p.public_to_string ephemeral_public_key;
      nonce = p.hex_encode nonce;
      ciphertext = p.hex_encode ciphertext;
    })

  unfoldable pub decrypt_transfer :
      TransferRequest → Bytes → TransferEnvelope → Result Failure TransferPayload
  decrypt_transfer request transport_secret_bytes envelope = do
    validate_request p request
    ensure (envelope.format_version == file_format_version)
        (message "unsupported transfer package version")
    ensure (same bytes_discrete envelope.request_id request.request_id)
        (message "transfer request mismatch")
    ephemeral ←
        ok_or (p.public_from_str envelope.ephemeral_public_key)
          (message "invalid transfer package ephemeral key")
    transport_secret ←
        ok_or (p.secret_from_slice transport_secret_bytes) (message "invalid saved transport key")
    let shared = p.shared_secret ephemeral transport_secret
    request_id ← request_id_of p request
    key_bytes ← transfer_key shared request_id
    key ← ok_or (p.cipher_key key_bytes) (message "invalid transfer decryption key")
    nonce ← ok_or (p.hex_decode envelope.nonce) (message "invalid transfer package nonce")
    ensure (length nonce == 24) (message "invalid transfer package nonce length")
    ensure (leb (length envelope.ciphertext) (max_transfer_ciphertext_size * 2))
        (message "transfer package exceeds 8 MiB ciphertext limit")
    ciphertext ←
        ok_or (p.hex_decode envelope.ciphertext) (message "invalid transfer package ciphertext")
    associated ← aad p request
    plaintext ←
        ok_or (p.decrypt key nonce ciphertext associated)
          (message "transfer package authentication failed")
    payload ← ok_or (p.payload_from_json plaintext) (message "invalid transfer package payload")
    validate_payload payload
    ensure (same bytes_discrete payload.request_id request_id) (message "transfer request mismatch")
    ok payload
