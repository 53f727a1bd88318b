-- ===== src/Wallet/Send.antt =====
-- wallet-core/src/state.rs: the sender's half of a transfer.
use tinylayer_org.Base.{
  ℕ, Bytes, Bool, true, List, [], ◌∷◌, ◌++◌, Result, ok, err, ensure, ok_or, ◌>>=◌, ◌>>◌, not, ◌==◌,
  ◌&&◌, same, bytes_discrete, last, get_elem?, Option, none, some, is_some, Action, commit,
  replicate, checked_sub, max,
}
use tinylayer_org.Extern.{OutPoint_discrete}
use tinylayer_org.Enclave.Types.{
  CoinStatus, SignRequest, Capability, HandoffToken, protocol_version,
}
use tinylayer_org.Client.Types.{
  NetworkId, NetworkId_discrete, CoinMetadata, delay_step, SignedRecovery,
}
use tinylayer_org.Client.Registration.{verify_status, verify_sign_response}
use tinylayer_org.Client.Recovery.{
  prepare_recovery, complete_recovery, recovery_serialization_template,
}
use tinylayer_org.Client.History.{verify_history}
use tinylayer_org.Wallet.Types.{
  Failure, message, lift, WalletState, WalletCoin, RecoveryPurpose, RecoveryStage, TransferRequest,
  TransferEnvelope, FundingStage, FundingStage_discrete, FundingJournal, ObservedFunding, recovery,
  fund, transfer, file_format_version, OutgoingTransfer,
}
use tinylayer_org.Wallet.Platform.{Platform}
use tinylayer_org.Wallet.Validation.{require_reaction_margin, verify_observed_funding}
use tinylayer_org.Wallet.Request.{
  validate_request, request_id_of, coin_id_of, outpoint_of, withdrawal_key_of,
  next_capability_hash_of,
}
use tinylayer_org.Wallet.Package.{secret_xonly, validate_transfer_payload_size, encrypt_transfer}
use tinylayer_org.Wallet.Register.{validate_version, is_nonempty}
use tinylayer_org.Wallet.Fund.{pending_recovery, responded_stage}

-- `coin.funding.as_ref().is_none_or(|funding| funding.stage == FundingStage::Broadcast)`
unfoldable pub is_broadcast : Option FundingJournal → Bool
is_broadcast none = true
is_broadcast (some funding) = same FundingStage_discrete funding.stage FundingStage.broadcast

unfoldable pub transfer_purpose : RecoveryPurpose → Result Failure TransferRequest
transfer_purpose (fund next_capability withdrawal_secret) =
    err (message "wallet has pending funding")
transfer_purpose (transfer request) = ok request

-- `history.last().delay_blocks.checked_sub(DELAY_STEP)`
unfoldable pub next_delay : List SignedRecovery → Result Failure ℕ
next_delay history = do
  latest ← ok_or (last history) (message "history checked non-empty")
  ok_or (checked_sub latest.delay_blocks delay_step)
      (message "recovery delay cannot be decremented")

module _ (p : Platform) where
  unfoldable pub validate_outgoing_transfer_request :
      NetworkId → TransferRequest → WalletState → Result Failure Unit
  validate_outgoing_transfer_request network request w = do
    validate_version w
    validate_request p request
    coin ← ok_or w.coin (message "wallet has no coin")
    metadata ← ok_or coin.metadata (message "coin has no verified funding")
    ensure (is_nonempty coin.history) (message "fund the coin before transferring it")
    ensure (is_broadcast coin.funding) (message "funding has not been broadcast")
    coin_id ← coin_id_of p request
    ensure (same bytes_discrete coin_id coin.keys.coin_id)
        (message "transfer request is for another coin")
    ensure (same NetworkId_discrete request.network network)
        (message "transfer request network mismatch")
    ensure (same NetworkId_discrete metadata.network network) (message "coin network mismatch")
    outpoint ← outpoint_of p request
    ensure (same OutPoint_discrete outpoint metadata.outpoint)
        (message "transfer request outpoint mismatch")
    ensure (request.expected_amount_sat == metadata.amount_sat)
        (message "transfer request amount mismatch")

  -- The live ownership that both halves of a send check: capability, handoff and withdrawal key
  -- are at hand, and the history is the enclave's.
  unfoldable pub verify_ownership :
      WalletCoin → CoinMetadata → CoinStatus → Capability → HandoffToken → ℕ → Result Failure Unit
  verify_ownership coin metadata status capability handoff confirmations = do
    saved ← ok_or coin.withdrawal_secret (message "wallet has no current withdrawal key")
    withdrawal_secret ←
        ok_or (p.secret_from_slice saved) (message "saved withdrawal key is invalid")
    lift (
        verify_history p.bitcoin metadata status coin.client_secret capability handoff
          (secret_xonly p withdrawal_secret) confirmations coin.history)

  unfoldable pub begin_transfer :
      NetworkId
      → TransferRequest
      → CoinStatus
      → ObservedFunding
      → ℕ
      → ℕ
      → Action WalletState Failure SignRequest
  begin_transfer network request status observed_funding minimum_confirmations
        minimum_reaction_blocks w =
      commit w do
        ensure (not (is_some w.pending)) (message "wallet has a pending operation")
        validate_outgoing_transfer_request network request w
        coin ← ok_or w.coin (message "wallet has no coin")
        ensure (not (is_some coin.outgoing)) (message "coin has already been transferred")
        metadata ← ok_or coin.metadata (message "coin has no verified funding")
        verify_observed_funding p.bitcoin metadata observed_funding minimum_confirmations
        capability ← ok_or coin.current_capability (message "coin has already been transferred")
        handoff ← ok_or coin.current_handoff (message "wallet has no current handoff token")
        verify_ownership coin metadata status capability handoff observed_funding.confirmations
        delay_blocks ← next_delay coin.history
        require_reaction_margin observed_funding.confirmations delay_blocks
            (max minimum_reaction_blocks request.min_reaction_blocks)
        next_capability_hash ← next_capability_hash_of p request
        withdrawal_key ← withdrawal_key_of p request
        (sign_request, prepared) ← lift (
            prepare_recovery p.bitcoin metadata status coin.client_secret capability handoff
              next_capability_hash withdrawal_key delay_blocks observed_funding.confirmations)
        template ← lift (recovery_serialization_template p.bitcoin prepared)
        validate_transfer_payload_size p (record {
          format_version = file_format_version;
          protocol_version = protocol_version;
          request_id = replicate 32 255;
          client_secret = coin.client_secret;
          current_handoff = replicate 32 255;
          metadata = metadata;
          history = coin.history ++ template ∷ [];
        })
        ok (
          sign_request,
          record w {
            pending = some (
                recovery (record {
                  purpose = transfer request;
                  stage = RecoveryStage.prepared (record {
                    expected_signature_count = status.signature_count;
                    delay_blocks = delay_blocks;
                    request = sign_request;
                    prepared = prepared;
                  });
                }));
          },
        )

  unfoldable pub pending_transfer_request : WalletState → Result Failure TransferRequest
  pending_transfer_request w = do
    pending ← pending_recovery "wallet has no pending transfer" w.pending
    transfer_purpose pending.purpose

  -- The two random values are the ephemeral key and the nonce of the package.
  unfoldable pub complete_transfer :
      Bytes → Bytes → CoinStatus → Action WalletState Failure TransferEnvelope
  complete_transfer ephemeral nonce status w = commit w do
    pending ← pending_recovery "wallet has no pending transfer" w.pending
    request ← transfer_purpose pending.purpose
    (attempt, response) ← responded_stage "transfer has no saved enclave response" pending.stage
    validate_request p request
    coin ← ok_or w.coin (message "pending transfer coin is missing")
    metadata ← ok_or coin.metadata (message "pending transfer metadata is missing")
    coin_id ← coin_id_of p request
    outpoint ← outpoint_of p request
    ensure
        (same bytes_discrete coin_id coin.keys.coin_id
          && same NetworkId_discrete request.network metadata.network
          && same OutPoint_discrete outpoint metadata.outpoint
          && request.expected_amount_sat == metadata.amount_sat)
        (message "pending transfer request does not match the coin")
    lift (verify_status coin.keys status)
    lift (
        verify_sign_response p.bitcoin attempt.request attempt.expected_signature_count status
          response)
    completed ←
        lift
          (complete_recovery p.bitcoin attempt.request response attempt.prepared coin.client_secret)
    ensure (completed.delay_blocks == attempt.delay_blocks)
        (message "pending signing delay is inconsistent")
    let history = coin.history ++ completed ∷ []
    index ← ok_or coin.withdrawal_recovery_index (message "wallet has no owned recovery")
    retained_recovery ←
        ok_or (get_elem? coin.history index) (message "owned recovery index is invalid")
    request_id ← request_id_of p request
    envelope ← encrypt_transfer p ephemeral nonce request (record {
      format_version = file_format_version;
      protocol_version = protocol_version;
      request_id = request_id;
      client_secret = coin.client_secret;
      current_handoff = response.next_handoff;
      metadata = metadata;
      history = history;
    })
    ok (
      envelope,
      record w {
        coin = some (record coin {
          history = retained_recovery ∷ [];
          withdrawal_recovery_index = some 0;
          current_capability = none;
          current_handoff = none;
          outgoing = some (record { request = request; envelope = envelope });
        });
        pending = none;
      },
    )

unfoldable pub outgoing_of : Option WalletCoin → Option OutgoingTransfer
outgoing_of none = none
outgoing_of (some coin) = coin.outgoing

unfoldable pub outgoing_transfer : WalletState → Result Failure OutgoingTransfer
unfolding outgoing_of
outgoing_transfer w =
    ok_or (outgoing_of w.coin) (message "wallet has no completed outgoing transfer")
