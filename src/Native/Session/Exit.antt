-- ===== src/Native/Session/Exit.antt =====
-- wallet/src/cli.rs: the steps of `exit_coin_journaled`.
use tinylayer_org.Base.{
  Bool, true, false, Option, some, none, Result, ok, ensure, ok_or, not, ltb, ◌&&◌, ◌||◌, same,
  is_some, List, [], ◌∷◌,
}
use tinylayer_org.Base.Actions.{◌>>=◌, ◌>>◌, check, return}
use tinylayer_org.Extern.{Transaction, Transaction_discrete}
use tinylayer_org.Client.Types.{CoinMetadata, SignedRecovery}
use tinylayer_org.Client.Recovery.{verify_recovery}
use tinylayer_org.Wallet.Types.{Failure, message, lift, WalletCoin}
use tinylayer_org.Wallet.Platform.{Platform}
use tinylayer_org.Wallet.Exit.{
  ExitJournal, ExitStage, ExitStage_discrete, arm_submission, validate_observed_parent,
  mark_observed,
}
use tinylayer_org.Native.Model.{NativeWalletState, Config}
use tinylayer_org.Native.Policy.{coin_of}
use tinylayer_org.Native.Chain.{TransactionObservation, DetailedFundingObservation}
use tinylayer_org.Native.Session.{Outside, Session, ask, save_native}
use tinylayer_org.Native.Session.Sweep.{Emission, is_explorer}

pub record ExitPresence : Type 0 where
  pub parent : Bool
  pub complete : Bool

abbrev pub past_preparation : ExitJournal → Bool
past_preparation journal = not (same ExitStage_discrete journal.stage ExitStage.prepared)

-- A child that is seen shows its parent: Core may not have the parent's bytes any more.
abbrev pub implied_parent :
    ExitJournal
    → Bool
    → Option TransactionObservation
    → Option TransactionObservation
    → Option TransactionObservation
implied_parent journal authorized (some parent) child = some parent
implied_parent journal false none child = none
implied_parent journal true none none = none
implied_parent journal true none (some child) = some (record {
  transaction = journal.exit_package.parent;
  tip_height = child.tip_height;
  confirmations = child.confirmations;
  raw_bytes_observed = false;
})

module _ (p : Platform) where
  unfoldable pub check_observed_parent :
      ExitJournal → WalletCoin → Option TransactionObservation → Result Failure Unit
  check_observed_parent journal coin none = ok tt
  check_observed_parent journal coin (some parent) =
      validate_observed_parent p journal coin parent.transaction

module _ (O : Outside) (p : Platform) (config : Config) where
  abbrev pub may_authorize : ExitJournal → Bool
  may_authorize journal = not (is_explorer config.chain) && past_preparation journal

  -- Core may prove a transaction that was authorized before by its outputs alone.
  unfoldable pub or_authorized :
      Transaction → Bool → Option TransactionObservation → Session O (Option TransactionObservation)
  or_authorized transaction authorized (some seen) = return (some seen)
  or_authorized transaction true none = ask O (O.observe_authorized_transaction transaction)
  or_authorized transaction false none = return none

  unfoldable pub judge_package :
      ExitJournal
      → Option TransactionObservation
      → Option TransactionObservation
      → Session O ExitPresence
  judge_package journal (some child) parent = do
    check (
        ensure
          (not child.raw_bytes_observed
            || same Transaction_discrete child.transaction journal.exit_package.child)
          (message "observed exit child bytes do not match the saved package"))
    check (ensure (is_some parent) (message "exit child is visible without its parent"))
    return (record { parent = true; complete = true })
  judge_package journal none (some parent) = do
    outspend ←
        ask O (O.outspend (record { txid = p.compute_txid journal.exit_package.parent; vout = 0 }))
    check (ensure (not outspend.spent) (message "exit parent is spent by an unknown transaction"))
    return (record { parent = true; complete = false })
  judge_package journal none none = return (record { parent = false; complete = false })

  unfoldable pub observe_exit_package : ExitJournal → WalletCoin → Session O ExitPresence
  observe_exit_package journal coin = do
    child_seen ← ask O (O.transaction (p.compute_txid journal.exit_package.child))
    child ← or_authorized journal.exit_package.child (may_authorize journal) child_seen
    parent_seen ← ask O (O.transaction (p.compute_txid journal.exit_package.parent))
    parent_known ← or_authorized journal.exit_package.parent (may_authorize journal) parent_seen
    let parent = implied_parent journal (may_authorize journal) parent_known child
    check (check_observed_parent p journal coin parent)
    judge_package journal child parent

  -- `arm_submission`, saved.
  unfoldable pub arm_exit :
      NativeWalletState → ExitJournal → Session O (NativeWalletState × ExitJournal)
  arm_exit native journal = do
    coin ← check (coin_of native.wallet "wallet has no coin")
    check (arm_submission p coin journal).0
    let armed = (arm_submission p coin journal).1
    let saved = record native { exit = some armed }
    save_native O p config saved
    return (saved, armed)

  -- `mark_observed` of the saved parent and child, saved.
  unfoldable pub mark_exit : NativeWalletState → ExitJournal → Bool → Session O Emission
  mark_exit native journal existing = do
    coin ← check (coin_of native.wallet "wallet has no coin")
    check (mark_observed p coin journal.exit_package.parent journal.exit_package.child journal).0
    let saved = record native {
      exit =
          some
            (mark_observed p coin journal.exit_package.parent journal.exit_package.child journal).1;
    }
    save_native O p config saved
    return (saved, existing)

  unfoldable pub mark_exit_stage :
      NativeWalletState → ExitJournal → ExitStage → Bool → Session O Emission
  mark_exit_stage native journal ExitStage.observed existing = return (native, existing)
  mark_exit_stage native journal ExitStage.submission_armed existing =
      mark_exit native journal existing
  mark_exit_stage native journal ExitStage.prepared existing = do
    armed ← arm_exit native journal
    mark_exit armed.0 armed.1 existing

  unfoldable pub mark_exit_observed : NativeWalletState → Bool → Session O Emission
  mark_exit_observed native existing = do
    journal ← check (ok_or native.exit (message "exit journal is missing"))
    mark_exit_stage native journal journal.stage existing

  -- The first of the coin's recoveries that the chain knows is the spender, if it verifies.
  unfoldable pub spender_of :
      CoinMetadata
      → DetailedFundingObservation
      → SignedRecovery
      → Session O DetailedFundingObservation
      → Option TransactionObservation
      → Session O DetailedFundingObservation
  spender_of metadata observation recovery later none = later
  spender_of metadata observation recovery later (some observed) = do
    check (
        lift (
          verify_recovery p.bitcoin metadata
            (record recovery { transaction = observed.transaction })))
    return (record observation {
      spending_txid = some (p.compute_txid recovery.transaction);
      spending_confirmed = ltb 0 observed.confirmations;
    })

  unfoldable pub search_history :
      CoinMetadata
      → DetailedFundingObservation
      → List SignedRecovery
      → Session O DetailedFundingObservation
  search_history metadata observation [] = return observation
  search_history metadata observation (recovery ∷ rest) = do
    seen ← ask O (O.transaction (p.compute_txid recovery.transaction))
    spender_of metadata observation recovery (search_history metadata observation rest) seen

  abbrev pub proved_spender :
      DetailedFundingObservation
      → ExitJournal
      → Option TransactionObservation
      → DetailedFundingObservation
  proved_spender observation journal none = observation
  proved_spender observation journal (some observed) = record observation {
    spending_txid = some (p.compute_txid journal.exit_package.parent);
    spending_confirmed = ltb 0 observed.confirmations;
  }

  -- `parent.or(child)` of what Core proves, where the parent is asked first.
  unfoldable pub prove_spender :
      DetailedFundingObservation → ExitJournal → Session O DetailedFundingObservation
  prove_spender observation journal = do
    parent ← ask O (O.observe_authorized_transaction journal.exit_package.parent)
    seen ← or_authorized journal.exit_package.child true parent
    return (proved_spender observation journal seen)
