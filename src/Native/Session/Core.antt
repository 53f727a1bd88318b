-- ===== src/Native/Session/Core.antt =====
-- wallet/src/cli.rs, `fund_coin` with the wallet of a Bitcoin Core node.
use tinylayer_org.Base.{
  Bool, true, false, Option, some, none, ensure, ok_or, not, is_some, same, ◌&&◌, ◌||◌, ◌==◌, ◌^◌,
  ltb, head, bytes_discrete,
}
use tinylayer_org.Base.Actions.{◌>>=◌, ◌>>◌, check, return}
use tinylayer_org.Enclave.Types.{CoinStatus}
use tinylayer_org.Enclave.Hashes.{capability_hash, authorization, initial_handoff}
use tinylayer_org.Client.Types.{CoinMetadata}
use tinylayer_org.Client.Registration.{verify_status, metadata_of}
use tinylayer_org.Client.Recovery.{prepare_recovery, verify_recovery}
use tinylayer_org.Wallet.Types.{
  message, lift, WalletState, WalletCoin, FundingJournal, FundingStage, FundingStage_discrete,
  PendingOperation, RecoveryAttempt, RecoveryPurpose, RecoveryStage, registration, recovery, fund,
  transfer, responded,
}
use tinylayer_org.Wallet.Platform.{Platform}
use tinylayer_org.Wallet.Register.{is_nonempty}
use tinylayer_org.Wallet.Validation.{
  attempt_committed, attempt_uncommitted, require_reaction_margin,
}
use tinylayer_org.Wallet.Fund.{
  has_initial_handoff, record_sign_response, pending_sign_request, complete_funding_recovery,
  pending_recovery,
}
use tinylayer_org.Wallet.Pending.{prepared_stage}
use tinylayer_org.Native.Model.{Config, ChainConfig, explorer, core_rpc}
use tinylayer_org.Native.Policy.{FundingPolicy, coin_of, check_core_funding}
use tinylayer_org.Native.Session.{Outside, Session, Entropy, Event, ask, note, load_native, save}
use tinylayer_org.Native.Session.Fund.{is_broadcast_stage, fund_coin_explorer}

-- `.coin.as_ref().and_then(|coin| coin.funding.as_ref()).map(|funding| funding.stage)`
abbrev pub funding_stage : WalletState → Option FundingStage
funding_stage state = elim state.coin [
  | none ↦ none
  | some coin ↦ elim coin.funding [ none ↦ none | some funding ↦ some (funding.stage) ]
]

abbrev pub is_unsecured : Option FundingStage → Bool
is_unsecured none = true
is_unsecured (some stage) = same FundingStage_discrete stage FundingStage.prepared

unfoldable pub needs_enclave : WalletState → Bool
needs_enclave state = is_some state.pending || is_unsecured (funding_stage state)

abbrev pub is_prepared_fund : RecoveryPurpose → RecoveryStage → Bool
is_prepared_fund (fund next_capability withdrawal) (RecoveryStage.prepared attempt) = true
is_prepared_fund (fund next_capability withdrawal) (responded attempt response) = false
is_prepared_fund (transfer request) stage = false

abbrev pub is_fund_prepared : Option PendingOperation → Bool
is_fund_prepared none = false
is_fund_prepared (some (registration s c r)) = false
is_fund_prepared (some (recovery r)) = is_prepared_fund r.purpose r.stage

module _ (O : Outside) (p : Platform) (config : Config) where
  unfoldable pub prepare_core :
      FundingPolicy → Bool → WalletState → WalletCoin → Session O WalletState
  prepare_core policy connected state coin = do
    check (ensure (not (is_some state.pending)) (message "wallet has a pending operation"))
    check (
        ensure
          (is_some coin.current_capability
            && has_initial_handoff coin.current_handoff
            && not (is_some coin.metadata)
            && not (is_nonempty coin.history))
          (message "coin has already left the registration stage"))
    check (ensure connected (message "funding requires the enclave"))
    status ← ask O (O.status coin.keys.coin_id)
    check (lift (verify_status coin.keys status))
    capability ← check (ok_or coin.current_capability (message "capability checked above"))
    check (
        ensure
          (status.signature_count == 0
            && same bytes_discrete status.authorization (
                authorization p.crypto coin.keys.coin_id (capability_hash p.crypto capability)
                  initial_handoff))
          (message "wallet authorization does not match enclave"))
    check (require_reaction_margin 0 policy.delay_blocks config.min_reaction_blocks)
    made ←
        ask O
          (O.prepare_funding coin.keys policy.amount_sat policy.fee_rate_sat_vb policy.max_fee_sat)
    let funded : WalletState = record state {
      coin = some (record coin {
        metadata = some (metadata_of coin.keys config.network made.outpoint policy.amount_sat);
        funding = some (record {
          transaction = made.transaction;
          delay_blocks = policy.delay_blocks;
          fee_rate_sat_vb = policy.fee_rate_sat_vb;
          max_fee_sat = policy.max_fee_sat;
          fee_sat = made.fee_sat;
          stage = FundingStage.prepared;
        });
      });
    }
    save O p config funded
    return funded

  unfoldable pub prepare_core_if_new :
      FundingPolicy
      → Bool
      → WalletState
      → WalletCoin
      → Option FundingJournal
      → Session O WalletState
  prepare_core_if_new policy connected state coin none = prepare_core policy connected state coin
  prepare_core_if_new policy connected state coin (some funding) = return state

  unfoldable pub journal_recovery :
      Entropy → FundingPolicy → Bool → WalletState → Session O WalletState
  journal_recovery entropy policy connected state = do
    coin ← check (coin_of state "prepared funding coin is missing")
    metadata ← check (ok_or coin.metadata (message "prepared funding metadata is missing"))
    funding ← check (ok_or coin.funding (message "prepared funding journal is missing"))
    ask O (O.validate_prepared_funding metadata funding.transaction)
    check (ensure connected (message "funding requires the enclave"))
    status ← ask O (O.status coin.keys.coin_id)
    check (lift (verify_status coin.keys status))
    check (ensure (status.signature_count == 0) (message "coin already has signed recoveries"))
    capability ← check (ok_or coin.current_capability (message "coin has already been transferred"))
    handoff ←
        check (ok_or coin.current_handoff (message "registered coin has no current handoff token"))
    check (
        ensure
          (same bytes_discrete status.authorization (
            authorization p.crypto coin.keys.coin_id (capability_hash p.crypto capability) handoff))
          (message "wallet authorization does not match enclave"))
    made ← check (
        lift (
          prepare_recovery p.bitcoin metadata status coin.client_secret capability handoff
            (capability_hash p.crypto entropy.capability) (p.x_only_public_key entropy.withdrawal)
            policy.delay_blocks 0))
    let journaled : WalletState = record state {
      pending = some (
          recovery (record {
            purpose = fund entropy.capability entropy.withdrawal;
            stage = RecoveryStage.prepared (record {
              expected_signature_count = status.signature_count;
              delay_blocks = policy.delay_blocks;
              request = made.0;
              prepared = made.1;
            });
          }));
    }
    save O p config journaled
    return journaled

  unfoldable pub journal_if :
      Entropy → FundingPolicy → Bool → WalletState → Bool → Session O WalletState
  journal_if entropy policy connected state true = journal_recovery entropy policy connected state
  journal_if entropy policy connected state false = return state

  unfoldable pub recheck_core :
      WalletCoin → CoinMetadata → CoinStatus → RecoveryAttempt → Bool → Session O Unit
  recheck_core coin metadata status attempt true = return tt
  recheck_core coin metadata status attempt false = do
    check (
        ensure (attempt_uncommitted p.bitcoin status attempt)
          (message "pending funding journal does not match live enclave state"))
    funding ← check (ok_or coin.funding (message "pending funding journal is missing"))
    check (
        ensure (same FundingStage_discrete funding.stage FundingStage.prepared)
          (message "funding recovery was already secured"))
    ask O O.connect_chain
    ask O (O.validate_prepared_funding metadata funding.transaction)
    check (require_reaction_margin 0 attempt.delay_blocks config.min_reaction_blocks)

  unfoldable pub sign_core : WalletState → Session O WalletState
  sign_core state = do
    coin ← check (coin_of state "pending funding coin is missing")
    metadata ← check (ok_or coin.metadata (message "pending funding metadata is missing"))
    status ← ask O (O.status coin.keys.coin_id)
    check (lift (verify_status coin.keys status))
    pending ← check (pending_recovery "wallet has no pending operation" state.pending)
    attempt ← check (prepared_stage pending.stage)
    committed ← check (attempt_committed status attempt)
    recheck_core coin metadata status attempt committed
    request ← check (pending_sign_request state)
    note O (Event.signs request)
    response ← ask O (O.sign request)
    check (record_sign_response response state).0
    let recorded = (record_sign_response response state).1
    save O p config recorded
    return recorded

  unfoldable pub sign_core_if : WalletState → Bool → Session O WalletState
  sign_core_if state true = sign_core state
  sign_core_if state false = return state

  unfoldable pub secure_core : WalletState → Session O WalletState
  secure_core state = do
    coin ← check (coin_of state "pending funding coin is missing")
    status ← ask O (O.status coin.keys.coin_id)
    check (complete_funding_recovery p status state).0
    let secured = (complete_funding_recovery p status state).1
    save O p config secured
    return secured

  unfoldable pub finish_pending_funding_recovery : WalletState → Session O WalletState
  finish_pending_funding_recovery state = do
    recorded ← sign_core_if state (is_fund_prepared state.pending)
    secure_core recorded

  unfoldable pub finish_if_pending :
      Bool → WalletState → Option PendingOperation → Session O WalletState
  finish_if_pending connected state none = return state
  finish_if_pending connected state (some pending) = do
    check (ensure connected (message "funding requires the enclave"))
    finish_pending_funding_recovery state

  unfoldable pub mark_core : WalletState → Bool → Session O WalletState
  mark_core state true = return state
  mark_core state false = do
    coin ← check (coin_of state "secured funding journal is missing")
    funding ← check (ok_or coin.funding (message "secured funding journal is missing"))
    let marked : WalletState = record state {
      coin =
          some (record coin { funding = some (record funding { stage = FundingStage.broadcast }) });
    }
    save O p config marked
    return marked

  unfoldable pub broadcast_core : WalletState → Session O WalletState
  broadcast_core state = do
    coin ← check (coin_of state "secured funding coin is missing")
    metadata ← check (ok_or coin.metadata (message "secured funding metadata is missing"))
    funding ← check (ok_or coin.funding (message "secured funding journal is missing"))
    check (
        ensure
          (same FundingStage_discrete funding.stage FundingStage.recovery_secured
            || same FundingStage_discrete funding.stage FundingStage.broadcast)
          (message "funding cannot be broadcast before its recovery is durable"))
    first ← check (ok_or (head coin.history) (message "secured funding recovery is missing"))
    check (
        ensure (first.delay_blocks == funding.delay_blocks)
          (message "secured funding recovery has the wrong delay"))
    check (lift (verify_recovery p.bitcoin metadata first))
    note O (Event.funds funding.transaction)
    txid ← ask O (O.broadcast_funding metadata funding.transaction)
    check (
        ensure (same bytes_discrete txid metadata.outpoint.txid)
          (message "broadcast funding txid does not match recovery outpoint"))
    mark_core state (is_broadcast_stage state)

  -- The last argument says whether the enclave is connected.
  unfoldable pub fund_core_from :
      Entropy → FundingPolicy → WalletState → Bool → Session O WalletState
  fund_core_from entropy policy state connected = do
    ask O O.connect_chain
    coin ← check (coin_of state "register a coin first")
    funded ← prepare_core_if_new policy connected state coin coin.funding
    check (check_core_funding policy funded)
    stage ← check (ok_or (funding_stage funded) (message "prepared funding journal is missing"))
    journaled ←
        journal_if entropy policy connected funded
          (same FundingStage_discrete stage FundingStage.prepared && not (is_some funded.pending))
    secured ← finish_if_pending connected journaled journaled.pending
    broadcast_core secured

  unfoldable pub connect_if : Bool → Session O Unit
  connect_if true = ask O O.connect_enclave
  connect_if false = return tt

  unfoldable pub fund_coin_core : Entropy → FundingPolicy → Session O WalletState
  fund_coin_core entropy policy = do
    native ← load_native O p config
    connect_if (needs_enclave native.wallet)
    fund_core_from entropy policy native.wallet (needs_enclave native.wallet)

  abbrev pub fund_by_chain : Entropy → FundingPolicy → ChainConfig → Session O WalletState
  fund_by_chain entropy policy (explorer url) = do
    native ← fund_coin_explorer O p config entropy policy
    return (native.wallet)
  fund_by_chain entropy policy (core_rpc url cookie wallet) = fund_coin_core entropy policy

  unfoldable pub fund_coin : Entropy → FundingPolicy → Session O WalletState
  fund_coin entropy policy = do
    check (
        ensure (ltb policy.delay_blocks (2 ^ 16))
          (message "recovery delay cannot exceed 65535 blocks"))
    check (require_reaction_margin 0 policy.delay_blocks 0)
    fund_by_chain entropy policy config.chain
