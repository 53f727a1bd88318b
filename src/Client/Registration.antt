-- ===== src/Client/Registration.antt =====
-- client/src/lib.rs: registration, and the checks of a status and of a signing response.
use tinylayer_org.Base.{
  ℕ, Bytes, Result, ok, ensure, ok_or, ◌>>=◌, ◌>>◌, not, same, bytes_discrete, ◌==◌, ◌&&◌,
  checked_add,
}
use tinylayer_org.Extern.{Bitcoin, OutPoint}
use tinylayer_org.Enclave.Types.{protocol_version, CoinId, CoinStatus, SignRequest, SignResponse}
use tinylayer_org.Enclave.Hashes.{authorization, initial_handoff}
use tinylayer_org.Client.Types.{
  NetworkId, Registration, CoinKeys, CoinMetadata, Error, protocol_version_mismatch,
  response_mismatch, equal_signing_keys, metadata_mismatch, invalid_enclave_signature,
}
use tinylayer_org.Client.Scripts.{verify_signature}

-- `CoinKeys::validate`
unfoldable pub validate_keys : CoinKeys → Result Error Unit
validate_keys keys = do
  ensure (keys.protocol_version == protocol_version) protocol_version_mismatch
  ensure (not (same bytes_discrete keys.client_pubkey keys.enclave_pubkey)) metadata_mismatch

-- `CoinMetadata::validate`
unfoldable pub validate_metadata : CoinMetadata → Result Error Unit
unfolding validate_keys
validate_metadata metadata = validate_keys metadata.keys

-- `TryFrom<CoinKeysWire>`: keys that are read from a file are checked. The wire form has the same
-- fields.
unfoldable pub keys_from_wire : CoinKeys → Result Error CoinKeys
unfolding validate_keys
keys_from_wire keys = do validate_keys keys; ok keys

-- `CoinKeys::metadata`
unfoldable pub metadata_of : CoinKeys → NetworkId → OutPoint → ℕ → CoinMetadata
metadata_of keys network outpoint amount_sat = record {
  keys = keys;
  network = network;
  outpoint = outpoint;
  amount_sat = amount_sat;
}

unfoldable pub verify_status : CoinKeys → CoinStatus → Result Error Unit
unfolding validate_keys
verify_status keys status = do
  validate_keys keys
  ensure
      (same bytes_discrete status.coin_id keys.coin_id
        && same bytes_discrete status.signing_pubkey keys.enclave_pubkey)
      response_mismatch

module _ (b : Bitcoin) where
  -- The coin id is drawn at random.
  unfoldable pub prepare_registration : CoinId → Bytes → Bytes → Registration
  prepare_registration coin_id client_secret initial_capability_hash = record {
    protocol_version = protocol_version;
    request = record { coin_id = coin_id; initial_capability_hash = initial_capability_hash };
    client_pubkey = b.x_only_public_key client_secret;
  }

  unfoldable pub complete_registration : Registration → CoinStatus → Result Error CoinKeys
  complete_registration registration status = do
    let request = registration.request
    ensure (registration.protocol_version == protocol_version) protocol_version_mismatch
    ensure
        (same bytes_discrete status.coin_id request.coin_id
          && status.signature_count == 0
          && same bytes_discrete status.authorization (
              authorization b.crypto request.coin_id request.initial_capability_hash
                initial_handoff))
        response_mismatch
    ensure (not (same bytes_discrete registration.client_pubkey status.signing_pubkey))
        equal_signing_keys
    ok (record {
      protocol_version = protocol_version;
      coin_id = request.coin_id;
      client_pubkey = registration.client_pubkey;
      enclave_pubkey = status.signing_pubkey;
    })

  unfoldable pub verify_sign_response :
      SignRequest → ℕ → CoinStatus → SignResponse → Result Error Unit
  unfolding verify_signature
  verify_sign_response request previous_signature_count status response = do
    expected_signature_count ← ok_or (checked_add 64 previous_signature_count 1) response_mismatch
    ensure
        (same bytes_discrete status.coin_id request.coin_id
          && status.signature_count == expected_signature_count
          && same bytes_discrete status.authorization (
              authorization b.crypto request.coin_id request.next_capability_hash
                response.next_handoff))
        response_mismatch
    verify_signature b response.signature request.sighash status.signing_pubkey
        invalid_enclave_signature
