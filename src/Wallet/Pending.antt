-- ===== src/Wallet/Pending.antt =====
-- wallet-core/src/state.rs: the check of a transfer that was begun and is not yet signed.
use tinylayer_org.Base.{
  ℕ, Result, ok, err, ensure, ok_or, ◌>>=◌, ◌>>◌, ◌==◌, ◌&&◌, same, bytes_discrete, length, max,
  if◌then◌else◌,
}
use tinylayer_org.Enclave.Types.{CoinStatus}
use tinylayer_org.Client.Types.{CoinMetadata}
use tinylayer_org.Client.Registration.{verify_status}
use tinylayer_org.Wallet.Types.{
  Failure, message, lift, WalletState, WalletCoin, RecoveryStage, RecoveryAttempt, TransferRequest,
  ObservedFunding, responded,
}
use tinylayer_org.Wallet.Platform.{Platform}
use tinylayer_org.Wallet.Validation.{
  require_reaction_margin, verify_observed_funding, attempt_committed, attempt_uncommitted,
}
use tinylayer_org.Wallet.Fund.{pending_recovery}
use tinylayer_org.Wallet.Send.{
  transfer_purpose, next_delay, validate_outgoing_transfer_request, verify_ownership,
}

unfoldable pub prepared_stage : RecoveryStage → Result Failure RecoveryAttempt
prepared_stage (RecoveryStage.prepared attempt) = ok attempt
prepared_stage (responded attempt response) =
    err (message "transfer signature response is already saved")

module _ (p : Platform) where
  -- The part of `validate_pending_transfer` for an attempt that the enclave has not seen.
  unfoldable pub validate_uncommitted :
      TransferRequest
      → RecoveryAttempt
      → WalletCoin
      → CoinMetadata
      → CoinStatus
      → ObservedFunding
      → ℕ
      → ℕ
      → Result Failure Unit
  validate_uncommitted request attempt coin metadata status observed_funding minimum_confirmations
        minimum_reaction_blocks =
      do
        ensure (attempt_uncommitted p.bitcoin status attempt)
            (message "pending signing journal does not match live enclave state")
        verify_observed_funding p.bitcoin metadata observed_funding minimum_confirmations
        capability ← ok_or coin.current_capability (message "coin has already been transferred")
        handoff ← ok_or coin.current_handoff (message "wallet has no current handoff token")
        ensure
            (same bytes_discrete attempt.request.current_capability capability
              && same bytes_discrete attempt.request.current_handoff handoff)
            (message "pending transfer does not match local ownership")
        verify_ownership p coin metadata status capability handoff observed_funding.confirmations
        ensure (attempt.expected_signature_count == length coin.history)
            (message "pending transfer signature count is inconsistent")
        expected_delay ← next_delay coin.history
        ensure (attempt.delay_blocks == expected_delay)
            (message "pending transfer delay is inconsistent")
        require_reaction_margin observed_funding.confirmations attempt.delay_blocks
            (max minimum_reaction_blocks request.min_reaction_blocks)

  unfoldable pub validate_pending_transfer :
      CoinStatus → ObservedFunding → ℕ → ℕ → WalletState → Result Failure Unit
  validate_pending_transfer status observed_funding minimum_confirmations minimum_reaction_blocks
        w =
      do
        pending ← pending_recovery "wallet has no pending transfer" w.pending
        request ← transfer_purpose pending.purpose
        attempt ← prepared_stage pending.stage
        coin ← ok_or w.coin (message "pending transfer coin is missing")
        metadata ← ok_or coin.metadata (message "pending transfer metadata is missing")
        validate_outgoing_transfer_request p metadata.network request w
        lift (verify_status coin.keys status)
        committed ← attempt_committed status attempt
        if committed
            then ok tt
            else validate_uncommitted request attempt coin metadata status observed_funding
                minimum_confirmations minimum_reaction_blocks
