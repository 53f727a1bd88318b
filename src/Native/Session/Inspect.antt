-- ===== src/Native/Session/Inspect.antt =====
-- wallet/src/cli.rs: the commands that save nothing. `coin_status`, `export_recovery`,
-- `export_receipt` and `verify_receipt`.
use tinylayer_org.Base.{
  ℕ, Bytes, Bool, true, false, Option, some, none, Result, ok, err, ensure, ok_or, not, is_some,
  same, ◌&&◌, ◌==◌, leb, last, length, get_elem?, bytes_discrete, String, if◌then◌else◌,
}
use tinylayer_org.Base.Actions.{◌>>=◌, ◌>>◌, check, return}
use tinylayer_org.Extern.{Transaction}
use tinylayer_org.Enclave.Types.{CoinStatus, CoinStatus_discrete, protocol_version}
use tinylayer_org.Enclave.Hashes.{capability_hash, authorization}
use tinylayer_org.Client.Types.{CoinMetadata, NetworkId_discrete, SignedRecovery}
use tinylayer_org.Client.Registration.{verify_status}
use tinylayer_org.Client.Recovery.{verify_recovery}
use tinylayer_org.Client.History.{verify_history}
use tinylayer_org.Wallet.Types.{
  Failure, message, lift, file_format_version, WalletState, WalletCoin, FundingStage,
  FundingStage_discrete, Receipt, TransferRequest, IncomingTransfer, PendingOperation, registration,
  recovery, fund, transfer,
}
use tinylayer_org.Wallet.Platform.{Platform}
use tinylayer_org.Wallet.Package.{secret_xonly}
use tinylayer_org.Wallet.Register.{is_nonempty, lifecycle}
use tinylayer_org.Wallet.Validation.{verify_public_history, require_reaction_margin}
use tinylayer_org.Native.Chain.{FundingObservation}
use tinylayer_org.Native.Model.{Config}
use tinylayer_org.Native.Policy.{coin_of}
use tinylayer_org.Native.Session.{Outside, Session, ask, load_native}

unfoldable pub pending_name : Option PendingOperation → Option String
pending_name none = none
pending_name (some (registration s c r)) = some "registration"
pending_name (some (recovery r)) = elim r.purpose [
  | fund next_capability withdrawal ↦ some "funding"
  | transfer request ↦ some "transfer"
]

-- What is known of the funding, where the coin has any.
pub record Seen : Type 0 where
  pub confirmations : ℕ
  pub tip_height : ℕ

pub record StatusReport : Type 0 where
  pub lifecycle : String
  pub status : CoinStatus
  pub history_current : Bool
  pub latest_delay_blocks : Option ℕ
  pub seen : Option Seen
  pub reaction_safe : Option Bool
  pub pending_operation : Option String

pub data StatusOutcome : Type 0 where
  -- The request that a package is awaited for, and what is pending.
  no_coin : Option TransferRequest → Option String → StatusOutcome
  reported : StatusReport → StatusOutcome

abbrev pub stage_of : WalletCoin → Option FundingStage
stage_of coin = elim coin.funding [ none ↦ none | some funding ↦ some (funding.stage) ]

abbrev pub is_stage : FundingStage → Option FundingStage → Bool
is_stage stage none = false
is_stage stage (some other) = same FundingStage_discrete other stage

abbrev pub has_confirmations : ℕ → Option Seen → Bool
has_confirmations minimum none = false
has_confirmations minimum (some seen) = leb minimum seen.confirmations

abbrev pub is_passed : Result Failure Unit → Bool
is_passed (ok done) = true
is_passed (err failure) = false

abbrev pub latest_delay : Option SignedRecovery → Option ℕ
latest_delay none = none
latest_delay (some latest) = some (latest.delay_blocks)

abbrev pub awaited : Option IncomingTransfer → Option TransferRequest
awaited none = none
awaited (some incoming) = some (incoming.request)

unfoldable pub is_unbroadcast : Option FundingStage → Bool
is_unbroadcast none = false
is_unbroadcast (some stage) = not (same FundingStage_discrete stage FundingStage.broadcast)

module _ (O : Outside) (p : Platform) (config : Config) where
  -- Whether the funding was not broadcast yet.
  unfoldable pub see_funding : CoinMetadata → Option FundingStage → Bool → Session O Seen
  see_funding metadata stage true = do
    tip ← ask O O.tip_height
    return (record { confirmations = 0; tip_height = tip })
  see_funding metadata stage false = do
    observation ← ask O (
        O.verify_funding metadata
          (if is_stage FundingStage.broadcast stage then 0 else config.min_confirmations))
    return
        (record { confirmations = observation.confirmations; tip_height = observation.tip_height })

  -- Whether the latest recovery leaves time to react, with an owner's recoveries verified; and whether
  -- they were.
  unfoldable pub judge_owned :
      CoinMetadata
      → CoinStatus
      → WalletCoin
      → Seen
      → Bytes
      → SignedRecovery
      → Session O (Option Bool × Bool)
  judge_owned metadata status coin seen capability latest = do
    handoff ← check (ok_or coin.current_handoff (message "owned coin has no current handoff token"))
    saved ←
        check (ok_or coin.withdrawal_secret (message "owned coin has no current withdrawal key"))
    secret ← check (ok_or (p.secret_from_slice saved) (message "saved withdrawal key is invalid"))
    check (
        lift (
          verify_history p.bitcoin metadata status coin.client_secret capability handoff
            (secret_xonly p secret) 0 coin.history))
    return (
      some (
          is_passed (
            require_reaction_margin seen.confirmations latest.delay_blocks
              config.min_reaction_blocks)),
      true,
    )

  unfoldable pub judge_registered :
      CoinStatus → WalletCoin → Bytes → Bool → Session O (Option Bool × Bool)
  judge_registered status coin capability current = do
    check (ensure (status.signature_count == 0) (message "enclave has unrecorded signatures"))
    handoff ←
        check (ok_or coin.current_handoff (message "registered coin has no current handoff token"))
    check (
        ensure
          (same bytes_discrete status.authorization (
            authorization p.crypto coin.keys.coin_id (capability_hash p.crypto capability) handoff))
          (message "wallet authorization does not match enclave"))
    return (none, current)

  -- By the current capability and the latest recovery.
  unfoldable pub judge :
      CoinMetadata
      → CoinStatus
      → WalletCoin
      → Seen
      → Bool
      → Option Bytes
      → Option SignedRecovery
      → Session O (Option Bool × Bool)
  judge metadata status coin seen current none latest = return (none, current)
  judge metadata status coin seen current (some capability) none =
      judge_registered status coin capability current
  judge metadata status coin seen current (some capability) (some latest) =
      judge_owned metadata status coin seen capability latest

  unfoldable pub inspect_funding :
      CoinStatus
      → WalletCoin
      → Bool
      → Option CoinMetadata
      → Session O (Option Seen × (Option Bool × Bool))
  inspect_funding status coin current none = return (none, (none, current))
  inspect_funding status coin current (some metadata) = do
    ask O O.connect_chain
    seen ← see_funding metadata (stage_of coin) (is_unbroadcast (stage_of coin))
    judged ← judge metadata status coin seen current coin.current_capability (last coin.history)
    return (some seen, judged)

  unfoldable pub is_owned : WalletCoin → Option Seen → Bool
  is_owned coin seen =
      is_some coin.current_capability
      && (is_stage FundingStage.broadcast (stage_of coin)
          && has_confirmations config.min_confirmations seen)

  unfoldable pub report_coin : WalletState → Option WalletCoin → Session O StatusOutcome
  report_coin state none = return (no_coin (awaited state.incoming) (pending_name state.pending))
  report_coin state (some coin) = do
    ask O O.connect_enclave
    status ← ask O (O.status coin.keys.coin_id)
    check (lift (verify_status coin.keys status))
    found ←
        inspect_funding status coin (status.signature_count == length coin.history) coin.metadata
    return (
        reported (record {
          lifecycle = if is_owned coin found.0 then "owned" else lifecycle coin;
          status = status;
          history_current = found.1.1;
          latest_delay_blocks = latest_delay (last coin.history);
          seen = found.0;
          reaction_safe = found.1.0;
          pending_operation = pending_name state.pending;
        }))

  unfoldable pub coin_status : Session O StatusOutcome
  coin_status = do native ← load_native O p config; report_coin native.wallet native.wallet.coin

  unfoldable pub export_recovery : Session O Transaction
  export_recovery = do
    ask O O.available
    native ← load_native O p config
    coin ← check (coin_of native.wallet "wallet has no coin")
    metadata ← check (ok_or coin.metadata (message "coin has no verified funding"))
    saved ← check (ok_or coin.withdrawal_secret (message "wallet has no current withdrawal key"))
    secret ← check (ok_or (p.secret_from_slice saved) (message "saved withdrawal key is invalid"))
    index ← check (ok_or coin.withdrawal_recovery_index (message "wallet has no owned recovery"))
    owned ← check (ok_or (get_elem? coin.history index) (message "owned recovery index is invalid"))
    check (
        ensure (same bytes_discrete (secret_xonly p secret) owned.withdrawal_xonly_pubkey)
          (message "saved withdrawal key does not match owned recovery"))
    check (lift (verify_recovery p.bitcoin metadata owned))
    ask O (O.publish_recovery owned.transaction)
    return (owned.transaction)

  unfoldable pub export_receipt : Session O Receipt
  export_receipt = do
    native ← load_native O p config
    check (ensure (not (is_some native.wallet.pending)) (message "wallet has a pending operation"))
    coin ← check (coin_of native.wallet "wallet has no coin")
    metadata ← check (ok_or coin.metadata (message "coin has no verified funding"))
    check (ensure (is_nonempty coin.history) (message "coin has no signed recovery"))
    ask O O.connect_enclave
    status ← ask O (O.status coin.keys.coin_id)
    ask O O.connect_chain
    observation ← ask O (O.verify_funding metadata config.min_confirmations)
    check (
        verify_public_history p.bitcoin metadata status coin.history observation.confirmations
          config.min_reaction_blocks)
    let receipt : Receipt = record {
      format_version = file_format_version;
      protocol_version = protocol_version;
      metadata = metadata;
      status = status;
      history = coin.history;
    }
    ask O (O.publish_receipt receipt)
    return receipt

  -- The receipt as it was read from its file.
  unfoldable pub verify_receipt : Receipt → Session O FundingObservation
  verify_receipt receipt = do
    native ← load_native O p config
    check (
        ensure (receipt.format_version == file_format_version)
          (message "unsupported receipt format version"))
    check (
        ensure (receipt.protocol_version == protocol_version)
          (message "receipt protocol version mismatch"))
    check (
        ensure (same NetworkId_discrete receipt.metadata.network config.network)
          (message "receipt network mismatch"))
    ask O O.connect_enclave
    status ← ask O (O.status receipt.metadata.keys.coin_id)
    check (
        ensure (same CoinStatus_discrete status receipt.status)
          (message "receipt is stale or enclave state changed"))
    ask O O.connect_chain
    observation ← ask O (O.verify_funding receipt.metadata config.min_confirmations)
    check (
        verify_public_history p.bitcoin receipt.metadata status receipt.history
          observation.confirmations config.min_reaction_blocks)
    return observation
