-- ===== src/Wallet/Fund.antt =====
-- wallet-core/src/state.rs: safe funding. The recovery is prepared, signed and saved before the
-- funding transaction can be had.
use tinylayer_org.Base.{
  ℕ, Bytes, Bool, false, [], ◌∷◌, ◌++◌, Result, ok, err, ensure, ok_or, ◌>>=◌, ◌>>◌, not, ◌==◌,
  ◌&&◌, ◌||◌, ◌-◌, same, bytes_discrete, length, Option, none, some, is_some, Action, commit,
  String, head,
}
use tinylayer_org.Extern.{Transaction, Transaction_discrete}
use tinylayer_org.Enclave.Types.{CoinStatus, SignRequest, SignResponse, SignResponse_discrete}
use tinylayer_org.Enclave.Hashes.{capability_hash, initial_handoff}
use tinylayer_org.Client.Types.{NetworkId}
use tinylayer_org.Client.Registration.{verify_status, verify_sign_response, metadata_of}
use tinylayer_org.Client.Recovery.{prepare_recovery, complete_recovery, verify_recovery}
use tinylayer_org.Wallet.Types.{
  Failure, message, lift, WalletState, WalletCoin, PendingOperation, PendingRecovery,
  RecoveryPurpose, RecoveryStage, RecoveryAttempt, FundingStage, FundingStage_discrete,
  FundingJournal, SourceUtxo, registration, recovery, fund, transfer, responded,
}
use tinylayer_org.Wallet.Platform.{Platform}
use tinylayer_org.Wallet.Validation.{require_reaction_margin, validate_finalized_funding}
use tinylayer_org.Wallet.Source.{build_source_funding}
use tinylayer_org.Wallet.Register.{validate_version, verify_live_status, is_nonempty}

-- `coin.current_handoff == Some(INITIAL_HANDOFF)`
abbrev pub has_initial_handoff : Option Bytes → Bool
has_initial_handoff none = false
has_initial_handoff (some handoff) = same bytes_discrete handoff initial_handoff

-- `let PendingOperation::Recovery(..) = self.pending.as_ref().context(missing)? else { bail }`
unfoldable pub pending_recovery : String → Option PendingOperation → Result Failure PendingRecovery
pending_recovery missing none = err (message missing)
pending_recovery missing (some (registration s c r)) =
    err (message "wallet has a pending registration")
pending_recovery missing (some (recovery r)) = ok r

unfoldable pub fund_purpose : RecoveryPurpose → Result Failure (Bytes × Bytes)
fund_purpose (fund next_capability withdrawal_secret) = ok (next_capability, withdrawal_secret)
fund_purpose (transfer request) = err (message "wallet has a pending transfer")

unfoldable pub responded_stage :
    String → RecoveryStage → Result Failure (RecoveryAttempt × SignResponse)
responded_stage missing (RecoveryStage.prepared attempt) = err (message missing)
responded_stage missing (responded attempt response) = ok (attempt, response)

unfoldable pub attempt_of : RecoveryStage → RecoveryAttempt
attempt_of (RecoveryStage.prepared attempt) = attempt
attempt_of (responded attempt response) = attempt

unfoldable pub pending_sign_request : WalletState → Result Failure SignRequest
unfolding attempt_of pending_recovery
pending_sign_request w = do
  pending ← pending_recovery "wallet has no pending operation" w.pending
  ok ((attempt_of pending.stage).request)

-- `pending` is taken out, and put back on every path. A second response must be the saved one.
unfoldable pub record_response :
    SignResponse → RecoveryPurpose → WalletState → RecoveryStage → Result Failure Unit × WalletState
record_response response purpose w (RecoveryStage.prepared attempt) = (
  ok tt,
  record w {
    pending = some (recovery (record { purpose = purpose; stage = responded attempt response }));
  },
)
record_response response purpose w (responded attempt saved) = (
  ensure (same SignResponse_discrete saved response)
      (message "enclave response does not match saved response"),
  record w {
    pending = some (recovery (record { purpose = purpose; stage = responded attempt saved }));
  },
)

unfoldable pub record_taken :
    SignResponse → WalletState → Option PendingOperation → Result Failure Unit × WalletState
unfolding record_response
record_taken response taken none = (err (message "wallet has no pending operation"), taken)
record_taken response taken (some (registration s c r)) = (
  err (message "wallet has a pending registration"),
  record taken { pending = some (registration s c r) },
)
record_taken response taken (some (recovery r)) = record_response response r.purpose taken r.stage

unfoldable pub record_sign_response : SignResponse → Action WalletState Failure Unit
unfolding record_taken
record_sign_response response w = record_taken response (record w { pending = none }) w.pending

module _ (p : Platform) where
  -- The two random values are the next capability and the withdrawal secret.
  unfoldable pub begin_funding :
      Bytes
      → Bytes
      → NetworkId
      → Bytes
      → SourceUtxo
      → CoinStatus
      → ℕ
      → ℕ
      → ℕ
      → ℕ
      → ℕ
      → Action WalletState Failure SignRequest
  begin_funding next_capability withdrawal network source_secret source status amount_sat
        delay_blocks fee_rate_sat_vb max_fee_sat minimum_reaction_blocks w =
      commit w do
        validate_version w
        ensure (not (is_some w.pending)) (message "wallet has a pending operation")
        require_reaction_margin 0 delay_blocks minimum_reaction_blocks
        coin ← ok_or w.coin (message "register a coin first")
        ensure
            (not (is_some coin.metadata)
              && not (is_some coin.funding)
              && not (is_nonempty coin.history)
              && has_initial_handoff coin.current_handoff)
            (message "coin has already left the registration stage")
        verify_live_status p coin status
        ensure (status.signature_count == 0) (message "coin already has signed recoveries")
        capability ← ok_or coin.current_capability (message "coin has already been transferred")
        handoff ← ok_or coin.current_handoff (message "coin has no current handoff")
        built ←
            build_source_funding p coin.keys network source_secret source amount_sat fee_rate_sat_vb
              max_fee_sat
        let metadata = metadata_of coin.keys network built.outpoint amount_sat
        (request, prepared) ← lift (
            prepare_recovery p.bitcoin metadata status coin.client_secret capability handoff
              (capability_hash p.crypto next_capability) (p.x_only_public_key withdrawal)
              delay_blocks 0)
        ok (
          request,
          record w {
            coin = some (record coin {
              metadata = some metadata;
              funding = some (record {
                transaction = built.transaction;
                delay_blocks = delay_blocks;
                fee_rate_sat_vb = fee_rate_sat_vb;
                max_fee_sat = max_fee_sat;
                fee_sat = built.fee_sat;
                stage = FundingStage.prepared;
              });
            });
            pending = some (
                recovery (record {
                  purpose = fund next_capability withdrawal;
                  stage = RecoveryStage.prepared (record {
                    expected_signature_count = status.signature_count;
                    delay_blocks = delay_blocks;
                    request = request;
                    prepared = prepared;
                  });
                }));
          },
        )

  unfoldable pub complete_funding_recovery : CoinStatus → Action WalletState Failure Unit
  complete_funding_recovery status w = commit w do
    pending ← pending_recovery "wallet has no pending funding recovery" w.pending
    (next_capability, withdrawal_secret) ← fund_purpose pending.purpose
    (attempt, response) ←
        responded_stage "funding recovery has no saved enclave response" pending.stage
    ensure (attempt.expected_signature_count == 0)
        (message "initial funding recovery has an invalid signature count")
    coin ← ok_or w.coin (message "pending signing coin is missing")
    lift (verify_status coin.keys status)
    lift (
        verify_sign_response p.bitcoin attempt.request attempt.expected_signature_count status
          response)
    secured ←
        lift
          (complete_recovery p.bitcoin attempt.request response attempt.prepared coin.client_secret)
    ensure (secured.delay_blocks == attempt.delay_blocks)
        (message "pending signing delay is inconsistent")
    funding ← ok_or coin.funding (message "pending funding journal is missing")
    ensure (same FundingStage_discrete funding.stage FundingStage.prepared)
        (message "funding recovery was already secured")
    let history = coin.history ++ secured ∷ []
    ok (
      tt,
      record w {
        coin = some (record coin {
          history = history;
          funding = some (record funding { stage = FundingStage.recovery_secured });
          current_capability = some next_capability;
          current_handoff = some (response.next_handoff);
          withdrawal_secret = some withdrawal_secret;
          withdrawal_recovery_index = some (length history - 1);
        });
        pending = none;
      },
    )

  -- The journal comes back with the transaction, for the callers that read it again.
  unfoldable pub funding_journal : WalletState → Result Failure (WalletCoin × FundingJournal)
  funding_journal w = do
    coin ← ok_or w.coin (message "wallet has no coin")
    metadata ← ok_or coin.metadata (message "coin is not funded")
    funding ← ok_or coin.funding (message "funding journal is missing")
    ensure
        (same FundingStage_discrete funding.stage FundingStage.recovery_secured
          || same FundingStage_discrete funding.stage FundingStage.broadcast)
        (message "funding cannot be broadcast before its recovery is durable")
    validate_finalized_funding p.bitcoin metadata funding.transaction
    first ← ok_or (head coin.history) (message "secured funding recovery is missing")
    ensure (first.delay_blocks == funding.delay_blocks)
        (message "secured funding recovery has the wrong delay")
    lift (verify_recovery p.bitcoin metadata first)
    ok (coin, funding)

  unfoldable pub funding_transaction : WalletState → Result Failure Transaction
  funding_transaction w = do (_, funding) ← funding_journal w; ok (funding.transaction)

  unfoldable pub mark_funding_broadcast : Bytes → Action WalletState Failure Unit
  mark_funding_broadcast txid w = commit w do
    (coin, funding) ← funding_journal w
    ensure (same bytes_discrete (p.compute_txid funding.transaction) txid)
        (message "broadcast funding txid does not match recovery outpoint")
    ok (
      tt,
      record w {
        coin =
            some
              (record coin { funding = some (record funding { stage = FundingStage.broadcast }) });
      },
    )

  -- The blocks left until the first recovery matures. `saturating_sub` stops at zero, as `-` does.
  unfoldable pub verify_funding : WalletState → Transaction → ℕ → Bool → Result Failure ℕ
  verify_funding w observed confirmations unspent = do
    (_, funding) ← funding_journal w
    ensure (same Transaction_discrete funding.transaction observed)
        (message "chain returned different funding transaction bytes")
    ensure unspent (message "Tinylayer funding output is spent")
    ensure (same FundingStage_discrete funding.stage FundingStage.broadcast)
        (message "funding transaction is not marked broadcast")
    ok (funding.delay_blocks - confirmations)
