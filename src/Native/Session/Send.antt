-- ===== src/Native/Session/Send.antt =====
-- wallet/src/cli.rs, `sign_transfer`.
use tinylayer_org.Base.{
  Bool, true, false, Option, some, none, Result, err, ensure, ok_or, not, is_some, same, ◌||◌,
  String,
}
use tinylayer_org.Base.Actions.{◌>>=◌, ◌>>◌, check, return}
use tinylayer_org.Client.Types.{CoinMetadata}
use tinylayer_org.Wallet.Types.{
  Failure, message, WalletState, PendingOperation, RecoveryStage, TransferRequest,
  TransferRequest_discrete, TransferEnvelope, OutgoingTransfer, registration, recovery, responded,
}
use tinylayer_org.Wallet.Platform.{Platform}
use tinylayer_org.Wallet.Request.{validate_request}
use tinylayer_org.Wallet.Fund.{record_sign_response, pending_sign_request}
use tinylayer_org.Wallet.Send.{
  begin_transfer, pending_transfer_request, complete_transfer, outgoing_of,
}
use tinylayer_org.Wallet.Pending.{validate_pending_transfer}
use tinylayer_org.Native.Model.{NativeWalletState, Config}
use tinylayer_org.Native.Session.{Outside, Session, Entropy, Event, ask, note, load_native, save}

-- `matches!(pending, Some(Recovery(PendingRecovery { stage: Prepared { .. }, .. })))`
abbrev pub is_prepared_stage : RecoveryStage → Bool
is_prepared_stage (RecoveryStage.prepared attempt) = true
is_prepared_stage (responded attempt response) = false

abbrev pub is_prepared : Option PendingOperation → Bool
is_prepared none = false
is_prepared (some (registration s c r)) = false
is_prepared (some (recovery r)) = is_prepared_stage r.stage

module _ (O : Outside) (p : Platform) (config : Config) where
  -- `if enclave.is_none() { enclave = Some(connect_verified(..)) }`
  abbrev pub ensure_connected : Bool → Session O Unit
  ensure_connected true = return tt
  ensure_connected false = ask O O.connect_enclave

  -- The two messages are for a missing coin and for missing metadata.
  abbrev pub metadata_of_coin : String → String → WalletState → Result Failure CoinMetadata
  metadata_of_coin no_coin no_metadata state = elim state.coin [
    | none ↦ err (message no_coin)
    | some coin ↦ ok_or coin.metadata (message no_metadata)
  ]

  unfoldable pub prepare_transfer : TransferRequest → WalletState → Session O WalletState
  prepare_transfer request state = do
    ask O O.available
    metadata ← check (metadata_of_coin "wallet has no coin" "coin has no verified funding" state)
    ask O O.connect_enclave
    status ← ask O (O.status metadata.keys.coin_id)
    ask O O.connect_chain
    observation ← ask O (O.observe_funding metadata)
    asked ←
        check
          (begin_transfer p config.network request status observation.funding
            config.min_confirmations config.min_reaction_blocks state).0
    let begun =
        (begin_transfer p config.network request status observation.funding config.min_confirmations
          config.min_reaction_blocks state).1
    save O p config begun
    return begun

  unfoldable pub sign_prepared : Bool → WalletState → Session O WalletState
  sign_prepared connected state = do
    ensure_connected connected
    metadata ← check (
        metadata_of_coin "pending transfer metadata is missing"
          "pending transfer metadata is missing" state)
    status ← ask O (O.status metadata.keys.coin_id)
    ask O O.connect_chain
    observation ← ask O (O.observe_funding metadata)
    check (
        validate_pending_transfer p status observation.funding config.min_confirmations
          config.min_reaction_blocks state)
    request ← check (pending_sign_request state)
    note O (Event.signs request)
    response ← ask O (O.sign request)
    check (record_sign_response response state).0
    let recorded = (record_sign_response response state).1
    save O p config recorded
    return recorded

  unfoldable pub finish_transfer : Entropy → Bool → WalletState → Session O TransferEnvelope
  finish_transfer entropy connected state = do
    ensure_connected connected
    coin ← check (ok_or state.coin (message "pending transfer coin is missing"))
    status ← ask O (O.status coin.keys.coin_id)
    envelope ← check (complete_transfer p entropy.ephemeral entropy.nonce status state).0
    let completed = (complete_transfer p entropy.ephemeral entropy.nonce status state).1
    save O p config completed
    note O (Event.publishes envelope)
    ask O (O.publish_envelope envelope)
    return envelope

  -- The three steps of a transfer, each skipped where the saved state is past it.
  unfoldable pub resume_transfer :
      TransferRequest → WalletState → Option PendingOperation → Session O WalletState
  resume_transfer request state none = prepare_transfer request state
  resume_transfer request state (some pending) = do
    saved ← check (pending_transfer_request p state)
    check (
        ensure (same TransferRequest_discrete saved request)
          (message "pending signing request does not match input"))
    return state

  -- The last argument is whether the saved request is unanswered.
  unfoldable pub sign_if_prepared : Bool → WalletState → Bool → Session O WalletState
  sign_if_prepared connected state true = sign_prepared connected state
  sign_if_prepared connected state false = return state

  -- A coin that was sent already: the saved envelope is published again.
  unfoldable pub publish_again : TransferRequest → OutgoingTransfer → Session O TransferEnvelope
  publish_again request outgoing = do
    check (
        ensure (same TransferRequest_discrete outgoing.request request)
          (message "coin was transferred using another request"))
    note O (Event.publishes outgoing.envelope)
    ask O (O.publish_envelope outgoing.envelope)
    return (outgoing.envelope)

  unfoldable pub send_from :
      Entropy
      → TransferRequest
      → NativeWalletState
      → Option OutgoingTransfer
      → Session O TransferEnvelope
  send_from entropy request native (some outgoing) = publish_again request outgoing
  send_from entropy request native none = do
    check (
        ensure (not (is_some native.exit))
          (message "coin has a saved exit; finish that exact exit before transferring"))
    begun ← resume_transfer request native.wallet native.wallet.pending
    let fresh = not (is_some native.wallet.pending)
    recorded ← sign_if_prepared fresh begun (is_prepared begun.pending)
    finish_transfer entropy (fresh || is_prepared begun.pending) recorded

  unfoldable pub sign_transfer : Entropy → TransferRequest → Session O TransferEnvelope
  sign_transfer entropy request = do
    check (validate_request p request)
    native ← load_native O p config
    send_from entropy request native (outgoing_of native.wallet.coin)
