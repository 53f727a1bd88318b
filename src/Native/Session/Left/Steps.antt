-- ===== src/Native/Session/Left/Steps.antt =====
-- wallet/src/cli.rs, `exit_coin`: the steps that only look.
use tinylayer_org.Base.{ℕ, Bytes, List, [], ◌∷◌, ◌≡◌, refl, ok, Option, some, arith, Bool}
use tinylayer_org.Extern.{Transaction}
use tinylayer_org.Client.Types.{CoinMetadata, SignedRecovery}
use tinylayer_org.Wallet.Platform.{Platform}
use tinylayer_org.Wallet.Types.{WalletCoin, WalletState}
use tinylayer_org.Wallet.Exit.{ExitJournal, ExitStage, arm_submission, validate_package}
use tinylayer_org.Native.Model.{NativeWalletState, Config}
use tinylayer_org.Native.Chain.{TransactionObservation, DetailedFundingObservation}
use tinylayer_org.Native.Policy.{ExitPolicy, coin_of}
use tinylayer_org.Native.Session.{save_native, Outside, World}
use tinylayer_org.Native.Session.Exit.{
  or_authorized, judge_package, observe_exit_package, arm_exit, mark_exit, mark_exit_stage,
  mark_exit_observed, spender_of, search_history, prove_spender,
}
use tinylayer_org.Native.Session.Leave.{
  chosen_fee_rate, prove_if_unknown, prepare_exit_if, load_exit, preview_exit,
}

pub arm_submission-armed :
    (p : Platform) (coin : WalletCoin) (journal : ExitJournal)
    → (arm_submission p coin journal).0 ≡ ok tt
    → ((arm_submission p coin journal).1.stage ≡ ExitStage.submission_armed)
      × (validate_package p (arm_submission p coin journal).1.exit_package coin ≡ ok tt)
      × ((arm_submission p coin journal).1.exit_package ≡ journal.exit_package)
unfolding arm_submission
arm_submission-armed p coin journal h = (ground arith, ground arith, ground arith)

pub coin_of-some :
    (state : WalletState) {coin : WalletCoin}
    → coin_of state "wallet has no coin" ≡ ok coin
    → state.coin ≡ some coin
coin_of-some state h = ground arith

module _ (O : Outside) (p : Platform) (config : Config) where
  pub or_authorized-log :
      (transaction : Transaction) (authorized : Bool) (seen : Option TransactionObservation)
      (w : World O)
      → (or_authorized O p config transaction authorized seen w).1.log ≡ w.log
  unfolding or_authorized
  or_authorized-log transaction authorized seen w = ground arith

  pub judge_package-log :
      (journal : ExitJournal) (child parent : Option TransactionObservation) (w : World O)
      → (judge_package O p config journal child parent w).1.log ≡ w.log
  unfolding judge_package
  judge_package-log journal child parent w = ground arith

  pub observe_exit_package-log :
      (journal : ExitJournal) (coin : WalletCoin) (w : World O)
      → (observe_exit_package O p config journal coin w).1.log ≡ w.log
  unfolding observe_exit_package or_authorized judge_package
  observe_exit_package-log journal coin w = ground arith

  pub mark_exit_observed-log :
      (native : NativeWalletState) (existing : Bool) (w : World O)
      → (mark_exit_observed O p config native existing w).1.log ≡ w.log
  unfolding mark_exit_observed mark_exit_stage mark_exit arm_exit save_native
  mark_exit_observed-log native existing w = ground arith

  pub search_history-log :
      (metadata : CoinMetadata) (observation : DetailedFundingObservation)
      (history : List SignedRecovery) (w : World O)
      → (search_history O p config metadata observation history w).1.log ≡ w.log
  unfolding search_history spender_of
  search_history-log metadata observation [] w = refl
  search_history-log metadata observation (recovery ∷ rest) w = ground (
    arith,
    search_history-log metadata observation rest
        (record w { outside = (O.transaction (p.compute_txid recovery.transaction) w.outside).1 }),
  )

  pub prove_if_unknown-log :
      (observation : DetailedFundingObservation) (exit : Option ExitJournal) (txid : Option Bytes)
      (authorized : Bool) (w : World O)
      → (prove_if_unknown O p config observation exit txid authorized w).1.log ≡ w.log
  unfolding prove_if_unknown prove_spender or_authorized
  prove_if_unknown-log observation exit txid authorized w = ground arith

  pub prepare_exit_if-log :
      (policy : ExitPolicy) (native : NativeWalletState) (observation : DetailedFundingObservation)
      (needed : Bool) (w : World O)
      → (prepare_exit_if O p config policy native observation needed w).1.log ≡ w.log
  unfolding prepare_exit_if chosen_fee_rate save_native
  prepare_exit_if-log policy native observation needed w = ground arith

  pub load_exit-log :
      (native : NativeWalletState) (destination : Bytes) (fee_rate : Option ℕ) (max_fee : ℕ)
      (w : World O)
      → (load_exit O p config native destination fee_rate max_fee w).1.log ≡ w.log
  unfolding load_exit
  load_exit-log native destination fee_rate max_fee w = ground arith

  pub preview_exit-log :
      (state : WalletState) (destination : Bytes) (fee_rate : Option ℕ) (max_fee : ℕ) (w : World O)
      → (preview_exit O p config state destination fee_rate max_fee w).1.log ≡ w.log
  unfolding preview_exit chosen_fee_rate
  preview_exit-log state destination fee_rate max_fee w = ground arith
