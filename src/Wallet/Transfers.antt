-- ===== src/Wallet/Transfers.antt =====
-- wallet-core/src/state.rs: what a transfer guarantees to the sender and to the receiver.
use tinylayer_org.Base.{
  ℕ, Bytes, ◌≡◌, ◌≢◌, ◌<◌, ◌+◌, ◌^◌, inl, inr, refl, some, ok, arith, Option-cases, Result-cases,
  true, false, last, max,
}
use tinylayer_org.Enclave.Types.{CoinStatus, SignRequest}
use tinylayer_org.Client.Types.{NetworkId, CoinMetadata, SignedRecovery, PreparedRecovery}
use tinylayer_org.Client.Recovery.{prepare_recovery}
use tinylayer_org.Client.Chain.{IsOwnedChain, verify_history-IsOwnedChain}
use tinylayer_org.Wallet.Types.{
  WalletState, WalletCoin, ObservedFunding, TransferRequest, TransferEnvelope, RecoveryAttempt,
  RecoveryStage, recovery, transfer,
}
use tinylayer_org.Wallet.Platform.{Platform}
use tinylayer_org.Wallet.Validation.{require_reaction_margin, verify_observed_funding}
use tinylayer_org.Wallet.Package.{secret_xonly}
use tinylayer_org.Wallet.Request.{next_capability_hash_of, withdrawal_key_of}
use tinylayer_org.Wallet.Register.{validate_version}
use tinylayer_org.Wallet.Send.{begin_transfer, complete_transfer, verify_ownership, next_delay}
use tinylayer_org.Wallet.Receive.{accept_transfer, receive_coin}

-- Where the check passes, confirmations and margin together are below the delay, and their sum does
-- not overflow 32 bits.
require_reaction_margin-lt :
    (confirmations delay margin : ℕ)
    → require_reaction_margin confirmations delay margin ≡ ok tt
    → (confirmations + margin < delay) × (confirmations + margin < 2 ^ 32)
unfolding require_reaction_margin
require_reaction_margin-lt confirmations delay margin h = ground arith

module _ (p : Platform) where
  verify_ownership-IsOwnedChain :
      (coin : WalletCoin) (metadata : CoinMetadata) (status : CoinStatus)
      (capability handoff : Bytes) (confirmations : ℕ)
      → verify_ownership p coin metadata status capability handoff confirmations ≡ ok tt
      → (withdrawal : Bytes) × IsOwnedChain p.bitcoin metadata status withdrawal confirmations
          coin.history
  unfolding verify_ownership
  verify_ownership-IsOwnedChain coin metadata status capability handoff confirmations h =
      elim (Option-cases coin.withdrawal_secret) [
        | inl e ↦ absurd (ground arith)
        | inr (saved, e) ↦ elim (Option-cases (p.secret_from_slice saved)) [
          | inl f ↦ absurd (ground arith)
          | inr (secret, f) ↦ (
            secret_xonly p secret,
            verify_history-IsOwnedChain p.bitcoin metadata status coin.client_secret capability
                handoff (secret_xonly p secret) confirmations coin.history (ground arith),
          )
        ]
      ]

  -- A transfer that a wallet has begun.
  pub record IsBegun (request : TransferRequest) (seen : ObservedFunding) (margin : ℕ)
      (status : CoinStatus) (sign_request : SignRequest) (w v : WalletState) : Type 0 where
    pub coin : WalletCoin
    pub metadata : CoinMetadata
    pub latest : SignedRecovery
    pub withdrawal : Bytes
    pub attempt : RecoveryAttempt
    pub has_coin : w.coin ≡ some coin
    pub has_metadata : coin.metadata ≡ some metadata
    pub unspent : seen.unspent ≡ true
    pub has_latest : last coin.history ≡ some latest
    pub owned : IsOwnedChain p.bitcoin metadata status withdrawal seen.confirmations coin.history
    pub journaled : v ≡ record w {
      pending = some (
          recovery (record { purpose = transfer request; stage = RecoveryStage.prepared attempt }));
    }
    pub asks : attempt.request ≡ sign_request
    pub counts : attempt.expected_signature_count ≡ status.signature_count
    pub ten_blocks : attempt.delay_blocks + 10 ≡ latest.delay_blocks
    pub margin_left :
        seen.confirmations + max margin request.min_reaction_blocks < attempt.delay_blocks

  module _ (network : NetworkId) (request : TransferRequest) (status : CoinStatus)
      (seen : ObservedFunding) (confirmations margin : ℕ) (w v : WalletState)
      (sign_request : SignRequest) where
    -- The parts of a run that began: what the wallet held, and what it prepared.
    begin_transfer-parts :
        (coin : WalletCoin) (metadata : CoinMetadata) (capability handoff : Bytes) (delay : ℕ)
        (next_hash key : Bytes) (prepared : PreparedRecovery)
        → w.coin ≡ some coin
        → coin.metadata ≡ some metadata
        → coin.current_capability ≡ some capability
        → coin.current_handoff ≡ some handoff
        → next_delay coin.history ≡ ok delay
        → next_capability_hash_of p request ≡ ok next_hash
        → withdrawal_key_of p request ≡ ok key
        → prepare_recovery p.bitcoin metadata status coin.client_secret capability handoff next_hash
            key delay seen.confirmations
          ≡ ok (sign_request, prepared)
        → begin_transfer p network request status seen confirmations margin w ≡ (ok sign_request, v)
        → IsBegun request seen margin status sign_request w v
    unfolding begin_transfer verify_observed_funding next_delay
    begin_transfer-parts coin metadata capability handoff delay next_hash key prepared f1 f2 f3 f4
          f5 f6 f7 f8 h =
        let (withdrawal, owned) =
          verify_ownership-IsOwnedChain coin metadata status capability handoff seen.confirmations
            (ground arith) in
        let margin_ok =
          require_reaction_margin-lt seen.confirmations delay
            (max margin request.min_reaction_blocks) (ground arith) in
        record {
          coin = coin;
          metadata = metadata;
          latest = owned.latest;
          withdrawal = withdrawal;
          attempt = record {
            expected_signature_count = status.signature_count;
            delay_blocks = delay;
            request = sign_request;
            prepared = prepared;
          };
          has_coin = f1;
          has_metadata = f2;
          unspent = ground arith;
          has_latest = owned.last_is;
          owned = owned;
          journaled = ground arith;
          asks = refl;
          counts = refl;
          ten_blocks = let e = owned.last_is in ground arith;
          margin_left = margin_ok.0;
        }

    -- A transfer begins only for a coin whose whole chain of recoveries is verified and whose funding
    -- is unspent. It journals a recovery ten blocks ahead of the sender's own, with the larger of the
    -- two reaction margins still to go, and changes nothing else.
    pub begin_transfer-IsBegun :
        begin_transfer p network request status seen confirmations margin w ≡ (ok sign_request, v)
        → IsBegun request seen margin status sign_request w v
    unfolding begin_transfer
    begin_transfer-IsBegun h = elim (Option-cases w.coin) [
      | inl e1 ↦ absurd (ground arith)
      | inr (coin, f1) ↦ elim (Option-cases coin.metadata) [
        | inl e2 ↦ absurd (ground arith)
        | inr (metadata, f2) ↦ elim (Option-cases coin.current_capability) [
          | inl e3 ↦ absurd (ground arith)
          | inr (capability, f3) ↦ elim (Option-cases coin.current_handoff) [
            | inl e4 ↦ absurd (ground arith)
            | inr (handoff, f4) ↦ elim (Result-cases (next_delay coin.history)) [
              | inr (e5, g5) ↦ absurd (ground arith)
              | inl (delay, f5) ↦ elim (Result-cases (next_capability_hash_of p request)) [
                | inr (e6, g6) ↦ absurd (ground arith)
                | inl (next_hash, f6) ↦ elim (Result-cases (withdrawal_key_of p request)) [
                  | inr (e7, g7) ↦ absurd (ground arith)
                  | inl (key, f7) ↦
                      elim (Result-cases (
                        prepare_recovery p.bitcoin metadata status coin.client_secret capability
                          handoff next_hash key delay seen.confirmations)) [
                            | inr (e8, g8) ↦ absurd (ground arith)
                            | inl ((asked, prepared), f8) ↦
                                begin_transfer-parts coin metadata capability handoff delay
                                  next_hash key prepared f1 f2 f3 f4 f5 f6 f7 (ground arith) h
                          ]
                ]
              ]
            ]
          ]
        ]
      ]
    ]

  -- A completed transfer leaves the sender the recovery that it owned and no means to sign: the
  -- capability and the handoff are gone, and no second transfer can begin.
  pub complete_transfer-final :
      (k n : Bytes) (status : CoinStatus) (w v : WalletState) (envelope : TransferEnvelope)
      → complete_transfer p k n status w ≡ (ok envelope, v)
      → (network : NetworkId) (request : TransferRequest) (status' : CoinStatus)
        (seen : ObservedFunding) (confirmations margin : ℕ) (sign_request : SignRequest)
      → (begin_transfer p network request status' seen confirmations margin v).0 ≢ ok sign_request
  unfolding complete_transfer begin_transfer
  complete_transfer-final k n status w v envelope h network request status' seen confirmations
        margin sign_request g =
      ground arith

  -- Accepting the same package again confirms it and changes nothing.
  pub accept_transfer_again :
      (network network' : NetworkId) (request : TransferRequest) (envelope : TransferEnvelope)
      (status status' : CoinStatus) (seen seen' : ObservedFunding)
      (confirmations confirmations' margin margin' : ℕ) (w v : WalletState)
      → accept_transfer p network request envelope status seen confirmations margin w ≡ (ok true, v)
      → accept_transfer p network' request envelope status' seen' confirmations' margin' v
        ≡ (ok false, v)
  unfolding accept_transfer receive_coin validate_version
  accept_transfer_again network network' request envelope status status' seen seen' confirmations
        confirmations' margin margin' w v h =
      ground arith
