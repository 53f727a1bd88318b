-- ===== src/Native/Session/Leave.antt =====
-- wallet/src/cli.rs, `exit_coin` and `exit_coin_journaled`.
use tinylayer_org.Base.{
  ℕ, Bytes, Bool, true, false, Option, some, none, Result, ensure, ok_or, not, leb, ltb, ◌&&◌, same,
  bytes_discrete, is_some, get_elem?,
}
use tinylayer_org.Base.Actions.{◌>>=◌, ◌>>◌, check, return}
use tinylayer_org.Extern.{Transaction}
use tinylayer_org.Client.Types.{CoinMetadata}
use tinylayer_org.Client.Recovery.{verify_recovery}
use tinylayer_org.Client.Exit.{build_exit_child}
use tinylayer_org.Wallet.Types.{Failure, message, lift, WalletState, WalletCoin}
use tinylayer_org.Wallet.Platform.{Platform}
use tinylayer_org.Wallet.Package.{secret_xonly}
use tinylayer_org.Wallet.Send.{is_broadcast}
use tinylayer_org.Wallet.Exit.{
  ExitJournal, ExitStage, ExitStage_discrete, verify_exit_funding, prepare_exit, exit_fee,
}
use tinylayer_org.Native.Model.{NativeWalletState, Config}
use tinylayer_org.Native.Policy.{
  coin_of, ExitPolicy, follows_exit_policy, validate_saved_exit_policy,
}
use tinylayer_org.Native.Chain.{DetailedFundingObservation}
use tinylayer_org.Native.Session.{Outside, Session, Event, ask, note, load_native, save_native}
use tinylayer_org.Native.Session.Sweep.{Emission, is_explorer}
use tinylayer_org.Native.Session.Send.{metadata_of_coin}
use tinylayer_org.Native.Session.Exit.{
  past_preparation, observe_exit_package, arm_exit, mark_exit_observed, search_history,
  prove_spender,
}

-- What a command prints: a package that it built for show, one that is saved, or what was observed.
pub data ExitOutcome : Type 0 where
  -- Parent, child and fee.
  previewed : Transaction → Transaction → ℕ → ExitOutcome
  loaded : ExitJournal → ExitOutcome
  emitted : Emission → ExitOutcome

-- A journal that was only prepared, under another policy, is made again.
unfoldable pub must_prepare : ExitPolicy → Option ExitJournal → Bool
unfolding follows_exit_policy ExitStage_discrete
must_prepare policy none = true
must_prepare policy (some journal) =
    same ExitStage_discrete journal.stage ExitStage.prepared
    && not (follows_exit_policy policy journal.exit_package)

module _ (O : Outside) (p : Platform) (config : Config) where
  abbrev pub exit_destination : Bytes → Result Failure Bytes
  exit_destination destination =
      ok_or (p.address_text destination config.network) (message "invalid destination address")

  unfoldable pub chosen_fee_rate : Option ℕ → Session O ℕ
  chosen_fee_rate (some rate) = return rate
  chosen_fee_rate none = ask O O.recommended_fee_rate

  -- The parent is known: only the child is sent again.
  unfoldable pub send_child : NativeWalletState → ExitJournal → WalletCoin → Session O Emission
  send_child native journal coin = do
    armed ← arm_exit O p config native journal
    note O (Event.exits armed.1.exit_package.child)
    txid ← ask O (O.broadcast_exact armed.1.exit_package.child)
    presence ← observe_exit_package O p config armed.1 coin
    check (
        ensure presence.complete
          (message "submitted exit package is not yet fully observable; rerun the command"))
    mark_exit_observed O p config armed.0 false

  -- Whether both are known, and whether the parent is.
  unfoldable pub resume_seen :
      NativeWalletState → ExitJournal → WalletCoin → Bool → Bool → Session O (Option Emission)
  resume_seen native journal coin true parent = do
    emission ← mark_exit_observed O p config native true
    return (some emission)
  resume_seen native journal coin false true = do
    emission ← send_child native journal coin
    return (some emission)
  resume_seen native journal coin false false = return none

  -- A journal past preparation: `none` where nothing of the package is known to the chain.
  unfoldable pub resume_submitted :
      ExitPolicy → NativeWalletState → ExitJournal → Bool → Session O (Option Emission)
  resume_submitted policy native journal false = return none
  resume_submitted policy native journal true = do
    check (validate_saved_exit_policy p policy native)
    coin ← check (coin_of native.wallet "wallet has no coin")
    presence ← observe_exit_package O p config journal coin
    resume_seen native journal coin presence.complete presence.parent

  unfoldable pub resume_exit :
      ExitPolicy → NativeWalletState → Option ExitJournal → Session O (Option Emission)
  resume_exit policy native none = return none
  resume_exit policy native (some journal) =
      resume_submitted policy native journal (past_preparation journal)

  abbrev pub may_prove : Option ExitJournal → Bool
  may_prove none = false
  may_prove (some journal) = not (is_explorer config.chain) && past_preparation journal

  unfoldable pub prove_if_unknown :
      DetailedFundingObservation
      → Option ExitJournal
      → Option Bytes
      → Bool
      → Session O DetailedFundingObservation
  prove_if_unknown observation (some journal) none true =
      prove_spender O p config observation journal
  prove_if_unknown observation (some journal) none false = return observation
  prove_if_unknown observation (some journal) (some txid) authorized = return observation
  prove_if_unknown observation none txid authorized = return observation

  -- A spent output whose spender the backend does not name.
  unfoldable pub find_spender :
      NativeWalletState
      → CoinMetadata
      → DetailedFundingObservation
      → Bool
      → Session O DetailedFundingObservation
  find_spender native metadata observation false = return observation
  find_spender native metadata observation true = do
    coin ← check (coin_of native.wallet "wallet has no coin")
    searched ← search_history O p config metadata observation coin.history
    prove_if_unknown searched native.exit searched.spending_txid (may_prove native.exit)

  unfoldable pub prepare_exit_if :
      ExitPolicy
      → NativeWalletState
      → DetailedFundingObservation
      → Bool
      → Session O NativeWalletState
  prepare_exit_if policy native observation false = return native
  prepare_exit_if policy native observation true = do
    fee_rate ← chosen_fee_rate policy.fee_rate
    coin ← check (coin_of native.wallet "wallet has no coin")
    journal ← check (
        prepare_exit p coin config.network policy.destination observation.funding.confirmations
          fee_rate policy.max_fee_sat)
    let saved = record native { exit = some journal }
    save_native O p config saved
    return saved

  -- Whether the parent is known already.
  unfoldable pub send_package : ExitJournal → Bool → Session O Unit
  send_package journal true = do
    note O (Event.exits journal.exit_package.child)
    txid ← ask O (O.broadcast_exact journal.exit_package.child)
    return tt
  send_package journal false = do
    note O (Event.submits journal.exit_package.parent journal.exit_package.child)
    ask O (O.submit_package journal.exit_package.parent journal.exit_package.child)

  unfoldable pub submit_exit :
      NativeWalletState → ExitJournal → WalletCoin → ℕ → Bool → Bool → Session O Emission
  submit_exit native journal coin confirmations parent true =
      mark_exit_observed O p config native true
  submit_exit native journal coin confirmations parent false = do
    check (
        ensure (leb journal.exit_package.recovery_delay_blocks confirmations)
          (message "recovery is not final until funding has enough confirmations"))
    armed ← arm_exit O p config native journal
    send_package armed.1 parent
    presence ← observe_exit_package O p config armed.1 coin
    check (
        ensure presence.complete
          (message "submitted exit package is not yet fully observable; rerun the command"))
    mark_exit_observed O p config armed.0 false

  abbrev pub saved_parent : Option ExitJournal → Option Bytes
  saved_parent none = none
  saved_parent (some journal) = some (p.compute_txid journal.exit_package.parent)

  unfoldable pub exit_fresh : ExitPolicy → NativeWalletState → CoinMetadata → Session O Emission
  exit_fresh policy native metadata = do
    seen ← ask O (O.observe_funding metadata)
    observation ←
        find_spender native metadata seen
          (not seen.funding.unspent && not (is_some seen.spending_txid))
    coin ← check (coin_of native.wallet "wallet has no coin")
    check (
        verify_exit_funding p coin observation.funding 1 observation.spending_txid
          observation.spending_confirmed (saved_parent native.exit))
    prepared ← prepare_exit_if policy native observation (must_prepare policy native.exit)
    check (validate_saved_exit_policy p policy prepared)
    journal ← check (ok_or prepared.exit (message "exit journal is missing"))
    presence ← observe_exit_package O p config journal coin
    submit_exit prepared journal coin observation.funding.confirmations presence.parent
        presence.complete

  unfoldable pub exit_unless_resumed :
      ExitPolicy → NativeWalletState → CoinMetadata → Option Emission → Session O Emission
  exit_unless_resumed policy native metadata (some emission) = return emission
  exit_unless_resumed policy native metadata none = exit_fresh policy native metadata

  unfoldable pub exit_coin_journaled : NativeWalletState → Bytes → Option ℕ → ℕ → Session O Emission
  exit_coin_journaled native destination fee_rate max_fee_sat = do
    text ← check (exit_destination destination)
    ask O O.connect_chain
    metadata ← check (
        metadata_of_coin O p config "coin has no verified funding" "coin has no verified funding"
          native.wallet)
    let policy : ExitPolicy = record {
      destination = text;
      fee_rate = fee_rate;
      max_fee_sat = max_fee_sat;
    }
    resumed ← resume_exit policy native native.exit
    exit_unless_resumed policy native metadata resumed

  -- `emit_saved_exit_package`
  unfoldable pub load_exit : NativeWalletState → Bytes → Option ℕ → ℕ → Session O ExitOutcome
  load_exit native destination fee_rate max_fee_sat = do
    text ← check (exit_destination destination)
    check (
        validate_saved_exit_policy p
          (record { destination = text; fee_rate = fee_rate; max_fee_sat = max_fee_sat }) native)
    journal ← check (ok_or native.exit (message "exit journal is missing"))
    return (loaded journal)

  -- The package of a coin, for show: nothing is saved or sent.
  unfoldable pub preview_exit : WalletState → Bytes → Option ℕ → ℕ → Session O ExitOutcome
  preview_exit state destination fee_rate max_fee_sat = do
    coin ← check (coin_of state "wallet has no coin")
    metadata ← check (ok_or coin.metadata (message "coin has no verified funding"))
    saved ← check (ok_or coin.withdrawal_secret (message "wallet has no current withdrawal key"))
    withdrawal_secret ←
        check (ok_or (p.secret_from_slice saved) (message "saved withdrawal key is invalid"))
    index ← check (ok_or coin.withdrawal_recovery_index (message "wallet has no owned recovery"))
    recovery ←
        check (ok_or (get_elem? coin.history index) (message "owned recovery index is invalid"))
    check (
        ensure
          (same bytes_discrete (secret_xonly p withdrawal_secret) recovery.withdrawal_xonly_pubkey)
          (message "saved withdrawal key does not match owned recovery"))
    check (lift (verify_recovery p.bitcoin metadata recovery))
    check (ensure (is_broadcast coin.funding) (message "funding has not been broadcast"))
    script ← check (
        ok_or (p.address_script destination config.network) (message "invalid destination address"))
    ask O O.connect_chain
    observation ← ask O (O.verify_funding metadata 1)
    check (
        ensure (leb recovery.delay_blocks observation.confirmations)
          (message "recovery is not final until funding has enough confirmations"))
    rate ← chosen_fee_rate fee_rate
    check (ensure (ltb 0 rate) (message "exit fee rate must be positive"))
    child ← check (
        lift
          (build_exit_child p.bitcoin recovery metadata.amount_sat withdrawal_secret script rate))
    fee_sat ← check (exit_fee p metadata child)
    check (ensure (leb fee_sat max_fee_sat) (message "exit fee exceeds maximum"))
    return (previewed recovery.transaction child fee_sat)

  -- A dry run, and whether an exit is saved.
  unfoldable pub exit_by :
      NativeWalletState → Bytes → Option ℕ → ℕ → Bool → Bool → Session O ExitOutcome
  exit_by native destination fee_rate max_fee_sat true true =
      load_exit native destination fee_rate max_fee_sat
  exit_by native destination fee_rate max_fee_sat true false =
      preview_exit native.wallet destination fee_rate max_fee_sat
  exit_by native destination fee_rate max_fee_sat false saved = do
    emission ← exit_coin_journaled native destination fee_rate max_fee_sat
    return (emitted emission)

  unfoldable pub exit_coin : Bytes → Option ℕ → ℕ → Bool → Session O ExitOutcome
  exit_coin destination fee_rate max_fee_sat dry_run = do
    native ← load_native O p config
    check (
        ensure (not (is_some native.wallet.pending))
          (message "wallet has a pending operation; finish it before exiting"))
    exit_by native destination fee_rate max_fee_sat dry_run (is_some native.exit)
