-- ===== src/Client/Recovery.antt =====
-- client/src/lib.rs: the recovery transaction, built, signed and verified.
use tinylayer_org.Base.{
  ℕ, Bytes, List, [], ◌∷◌, ◌++◌, Result, ok, ensure, ok_or, ◌>>=◌, ◌>>◌, not, leb, ltb, ◌==◌, ◌&&◌,
  same, bytes_discrete, length, single, Option, none, some, replicate, if◌then◌else◌, ◌^◌,
}
use tinylayer_org.Extern.{
  Bitcoin, OutPoint, OutPoint_discrete, TxIn, TxOut, TxOut_discrete, Transaction,
  Transaction_discrete,
}
use tinylayer_org.Enclave.Types.{
  Capability, HandoffToken, CoinStatus, SignRequest, SignRequest_discrete, SignResponse,
}
use tinylayer_org.Enclave.Hashes.{authorization, capability_hash}
use tinylayer_org.Client.Types.{
  CoinKeys, CoinMetadata, SignedRecovery, PreparedRecovery, Error, invalid_outpoint,
  amount_too_large, invalid_delay, dust_output, response_mismatch, wrong_client_key,
  transaction_mismatch, invalid_witness, invalid_enclave_signature, invalid_client_signature,
  funding_mismatch, truc_version,
}
use tinylayer_org.Client.Scripts.{
  funding_tapscript, funding_control_block, funding_output_key, funding_script, recovery_sighash,
  client_xonly, verify_signature, require_future_delay,
}
use tinylayer_org.Client.Registration.{validate_keys, validate_metadata, verify_status}

-- `u16::try_from(delay_blocks)`, on a `u32`.
abbrev to_u16 : ℕ → Option ℕ
to_u16 n = if ltb n (2 ^ 16) then some n else none

-- `transaction.input.first_mut()?`, and the pushes to its witness.
unfoldable pub push_witness : List Bytes → List TxIn → Option (List TxIn)
push_witness items [] = none
push_witness items (input ∷ rest) = some (record input { witness = input.witness ++ items } ∷ rest)

-- A witness of exactly four items.
abbrev pub four : List Bytes → Option (Bytes × Bytes × Bytes × Bytes)
four (e ∷ c ∷ s ∷ k ∷ []) = some (e, c, s, k)
four _ = none

module _ (b : Bitcoin) where
  -- The transaction that `canonical_recovery` returns.
  unfoldable pub recovery_transaction : OutPoint → ℕ → Bytes → ℕ → Transaction
  recovery_transaction outpoint amount_sat withdrawal_key delay = record {
    version = truc_version;
    lock_time = 0;
    input =
        record {
          previous_output = outpoint;
          script_sig = [];
          sequence = b.sequence_from_height delay;
          witness = [];
        }
        ∷ [];
    output = record { value = amount_sat; script_pubkey = b.new_p2tr withdrawal_key } ∷ [];
  }

  unfoldable pub canonical_recovery : OutPoint → ℕ → Bytes → ℕ → Result Error Transaction
  canonical_recovery outpoint amount_sat withdrawal_key delay_blocks = do
    ensure (not (b.is_null outpoint)) invalid_outpoint
    ensure (leb amount_sat b.max_money) amount_too_large
    delay ← ok_or (to_u16 delay_blocks) invalid_delay
    ensure (not (delay == 0)) invalid_delay
    let script_pubkey = b.new_p2tr withdrawal_key
    ensure (leb (b.minimal_non_dust script_pubkey) amount_sat) dust_output
    ok (recovery_transaction outpoint amount_sat withdrawal_key delay)

  unfoldable pub prepare_recovery :
      CoinMetadata
      → CoinStatus
      → Bytes
      → Capability
      → HandoffToken
      → Bytes
      → Bytes
      → ℕ
      → ℕ
      → Result Error (SignRequest × PreparedRecovery)
  prepare_recovery metadata status client_secret current_capability current_handoff
        next_capability_hash withdrawal_xonly_pubkey delay_blocks funding_confirmations =
      do
        validate_metadata metadata
        verify_status metadata.keys status
        let current_capability_hash = capability_hash b.crypto current_capability
        ensure
            (same bytes_discrete status.authorization (
              authorization b.crypto metadata.keys.coin_id current_capability_hash current_handoff))
            response_mismatch
        ensure (not (same bytes_discrete next_capability_hash current_capability_hash))
            response_mismatch
        require_future_delay funding_confirmations delay_blocks
        ensure (same bytes_discrete (client_xonly b client_secret) metadata.keys.client_pubkey)
            wrong_client_key
        transaction ←
            canonical_recovery metadata.outpoint metadata.amount_sat withdrawal_xonly_pubkey
              delay_blocks
        sighash ← recovery_sighash b transaction metadata.amount_sat metadata.keys
        let request : SignRequest = record {
          coin_id = metadata.keys.coin_id;
          current_capability = current_capability;
          current_handoff = current_handoff;
          next_capability_hash = next_capability_hash;
          sighash = sighash;
        }
        ok (
          request,
          record {
            request = request;
            metadata = metadata;
            transaction = transaction;
            withdrawal_xonly_pubkey = withdrawal_xonly_pubkey;
            delay_blocks = delay_blocks;
          },
        )

  -- The four items that unlock the funding output.
  unfoldable pub unlocking : CoinKeys → Bytes → Bytes → List Bytes
  unlocking keys enclave_signature client_signature =
      enclave_signature
      ∷ client_signature
      ∷ funding_tapscript b keys
      ∷ funding_control_block b keys
      ∷ []

  -- `recovery_serialization_template`: full-width placeholders for the signatures.
  unfoldable pub recovery_serialization_template : PreparedRecovery → Result Error SignedRecovery
  recovery_serialization_template prepared = do
    let placeholder = replicate 64 0xff
    input ←
        ok_or
          (push_witness (unlocking prepared.metadata.keys placeholder placeholder)
            prepared.transaction.input)
          transaction_mismatch
    ok (record {
      transaction = record (prepared.transaction) { input = input };
      withdrawal_xonly_pubkey = prepared.withdrawal_xonly_pubkey;
      delay_blocks = prepared.delay_blocks;
    })

  -- The part of `verify_signed_recovery` after the witness is taken apart.
  unfoldable pub verify_witness :
      Transaction → ℕ → CoinKeys → Bytes × Bytes × Bytes × Bytes → Result Error Unit
  verify_witness transaction amount_sat keys
        (enclave_signature_bytes, client_signature_bytes, script_bytes, control_bytes) =
      do
        ensure (length enclave_signature_bytes == 64 && length client_signature_bytes == 64)
            invalid_witness
        let leaf = funding_tapscript b keys
        let expected_control = funding_control_block b keys
        ensure
            (same bytes_discrete script_bytes leaf
              && same bytes_discrete control_bytes expected_control)
            invalid_witness
        control ← ok_or (b.decode_control_block control_bytes) invalid_witness
        ensure
            (same bytes_discrete control expected_control
              && b.verify_taproot_commitment control (funding_output_key b keys) leaf)
            invalid_witness
        enclave_signature ← ok_or (b.signature_from_slice enclave_signature_bytes) invalid_witness
        client_signature ← ok_or (b.signature_from_slice client_signature_bytes) invalid_witness
        sighash ← recovery_sighash b transaction amount_sat keys
        verify_signature b enclave_signature sighash keys.enclave_pubkey invalid_enclave_signature
        verify_signature b client_signature sighash keys.client_pubkey invalid_client_signature

  unfoldable pub verify_signed_recovery : Transaction → ℕ → CoinKeys → Result Error Unit
  verify_signed_recovery transaction amount_sat keys = do
    validate_keys keys
    input ← ok_or (single transaction.input) invalid_witness
    items ← ok_or (four input.witness) invalid_witness
    verify_witness transaction amount_sat keys items

  unfoldable pub complete_recovery :
      SignRequest → SignResponse → PreparedRecovery → Bytes → Result Error SignedRecovery
  complete_recovery request enclave_response prepared client_secret = do
    let metadata = prepared.metadata
    ensure (same SignRequest_discrete prepared.request request) response_mismatch
    validate_metadata metadata
    ensure (same bytes_discrete request.coin_id metadata.keys.coin_id) response_mismatch
    ensure (same bytes_discrete (client_xonly b client_secret) metadata.keys.client_pubkey)
        wrong_client_key
    expected ←
        canonical_recovery metadata.outpoint metadata.amount_sat prepared.withdrawal_xonly_pubkey
          prepared.delay_blocks
    ensure (same Transaction_discrete prepared.transaction expected) transaction_mismatch
    sighash ← recovery_sighash b prepared.transaction metadata.amount_sat metadata.keys
    ensure (same bytes_discrete request.sighash sighash) transaction_mismatch
    verify_signature b enclave_response.signature sighash metadata.keys.enclave_pubkey
        invalid_enclave_signature
    let client_signature = b.sign_schnorr client_secret sighash
    input ←
        ok_or
          (push_witness (unlocking metadata.keys enclave_response.signature client_signature)
            prepared.transaction.input)
          transaction_mismatch
    let transaction = record (prepared.transaction) { input = input }
    verify_signed_recovery transaction metadata.amount_sat metadata.keys
    ok (record {
      transaction = transaction;
      withdrawal_xonly_pubkey = prepared.withdrawal_xonly_pubkey;
      delay_blocks = prepared.delay_blocks;
    })

  unfoldable pub verify_recovery : CoinMetadata → SignedRecovery → Result Error Unit
  verify_recovery metadata recovery = do
    validate_metadata metadata
    expected ←
        canonical_recovery metadata.outpoint metadata.amount_sat recovery.withdrawal_xonly_pubkey
          recovery.delay_blocks
    input ← ok_or (single recovery.transaction.input) transaction_mismatch
    let unsigned = record (recovery.transaction) { input = record input { witness = [] } ∷ [] }
    ensure (same Transaction_discrete unsigned expected) transaction_mismatch
    verify_signed_recovery recovery.transaction metadata.amount_sat metadata.keys

  unfoldable pub verify_funding_utxo : CoinMetadata → OutPoint → TxOut → Result Error Unit
  verify_funding_utxo metadata outpoint output = do
    validate_metadata metadata
    let expected : TxOut = record {
      value = metadata.amount_sat;
      script_pubkey = funding_script b metadata.keys;
    }
    ensure
        (same OutPoint_discrete outpoint metadata.outpoint && same TxOut_discrete output expected)
        funding_mismatch
