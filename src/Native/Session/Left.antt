-- ===== src/Native/Session/Left.antt =====
-- wallet/src/cli.rs, `exit_coin`: what it submits is saved and armed before.
mod Steps
use tinylayer_org.Base.{
  ℕ, Bytes, List, [], ◌∷◌, ◌≡◌, refl, ◌∙◌, ok, ap, Option, none, some, arith, Bool, true, false,
  ok_or, is_some, ensure,
}
use tinylayer_org.Extern.{Transaction}
use tinylayer_org.Client.Types.{CoinMetadata, SignedRecovery}
use tinylayer_org.Wallet.Platform.{Platform}
use tinylayer_org.Wallet.Types.{message, WalletCoin, WalletState}
use tinylayer_org.Wallet.Exit.{ExitJournal, ExitStage, arm_submission, validate_package}
use tinylayer_org.Native.Model.{NativeWalletState, Config}
use tinylayer_org.Native.Chain.{TransactionObservation, DetailedFundingObservation}
use tinylayer_org.Native.Policy.{ExitPolicy, coin_of}
use tinylayer_org.Native.Session.{save_native, Outside, World, exits, submits}
use tinylayer_org.Native.Session.Exit.{
  past_preparation, or_authorized, judge_package, observe_exit_package, arm_exit, mark_exit,
  mark_exit_stage, mark_exit_observed, spender_of, search_history, prove_spender,
}
use tinylayer_org.Native.Session.Leave.{
  chosen_fee_rate, send_child, resume_seen, resume_submitted, resume_exit, prove_if_unknown,
  find_spender, prepare_exit_if, send_package, submit_exit, exit_fresh, exit_unless_resumed,
  exit_coin_journaled, load_exit, preview_exit, exit_by, exit_coin, must_prepare, exit_destination,
}
use tinylayer_org.Native.Session.Sweep.{Emission}
use tinylayer_org.Native.Session.Send.{metadata_of_coin}
use tinylayer_org.Native.Session.Journal.{
  weaken-Journals, AllJournaled, IsArmedExit, Journals, bind-Journals, then-Journals, ask-Journals,
  check-Journals, check_bind-Journals, return-Journals, note-Journals, load_native-Journals,
  save_native-Journals, quiet-Journals,
}
use tinylayer_org.Native.Session.Left.Steps.{
  or_authorized-log, judge_package-log, observe_exit_package-log, mark_exit_observed-log,
  search_history-log, prove_if_unknown-log, prepare_exit_if-log, load_exit-log, preview_exit-log,
  arm_submission-armed, coin_of-some,
}

module _ (O : Outside) (p : Platform) (config : Config) where
  arm_exit-Journals :
      {P : NativeWalletState → Type 0} (native : NativeWalletState) (journal : ExitJournal)
      → Journals O p P (arm_exit O p config native journal) (λ a d. IsArmedExit p d a.1)
  unfolding arm_exit
  arm_exit-Journals native journal =
      check_bind-Journals O p (coin_of native.wallet "wallet has no coin") (λ coin held.
        let armed = arm_submission p coin journal in
        let saved = record native { exit = some armed.1 } in
        check_bind-Journals O p armed.0 (λ done arms.
          then-Journals O p (save_native-Journals O p config saved) (
            return-Journals O p (saved, armed.1)
              (λ d kept.
                let (stage, valid, same) = arm_submission-armed p coin journal arms in
                (
                  ap (λ n. n.exit) kept,
                  stage,
                  (coin, ap (λ n. n.wallet.coin) kept ∙ coin_of-some native.wallet held, valid),
                )))))

  -- The package is known in full: only the journal moves.
  observed-Journals :
      {P : NativeWalletState → Type 0} (native : NativeWalletState) (existing : Bool)
      → Journals O p P (mark_exit_observed O p config native existing) (λ a d. Unit)
  observed-Journals native existing =
      quiet-Journals O p (mark_exit_observed O p config native existing)
        (mark_exit_observed-log O p config native existing)

  looked-Journals :
      {P : NativeWalletState → Type 0} (journal : ExitJournal) (coin : WalletCoin)
      → Journals O p P (observe_exit_package O p config journal coin) (λ a d. Unit)
  looked-Journals journal coin =
      quiet-Journals O p (observe_exit_package O p config journal coin)
        (observe_exit_package-log O p config journal coin)

  send_child-Journals :
      {P : NativeWalletState → Type 0} (native : NativeWalletState) (journal : ExitJournal)
      (coin : WalletCoin)
      → Journals O p P (send_child O p config native journal coin) (λ a d. Unit)
  unfolding send_child
  send_child-Journals native journal coin =
      bind-Journals O p (arm_exit-Journals native journal) (λ armed.
        then-Journals O p
          (note-Journals O p (exits armed.1.exit_package.child) (λ d saved. (armed.1, saved, refl)))
          (bind-Journals O p (ask-Journals O p (O.broadcast_exact armed.1.exit_package.child))
            (λ txid. bind-Journals O p (looked-Journals armed.1 coin) (λ presence.
              then-Journals O p (check-Journals O p _) (observed-Journals armed.0 false)))))

  resume_seen-Journals :
      {P : NativeWalletState → Type 0} (native : NativeWalletState) (journal : ExitJournal)
      (coin : WalletCoin) (complete parent : Bool)
      → Journals O p P (resume_seen O p config native journal coin complete parent) (λ a d. Unit)
  unfolding resume_seen
  resume_seen-Journals native journal coin true parent =
      bind-Journals O p (observed-Journals native true) (λ e. return-Journals O p _ (λ d h. tt))
  resume_seen-Journals native journal coin false true =
      bind-Journals O p (send_child-Journals native journal coin)
        (λ e. return-Journals O p _ (λ d h. tt))
  resume_seen-Journals native journal coin false false = return-Journals O p _ (λ d h. tt)

  resume_submitted-Journals :
      {P : NativeWalletState → Type 0} (policy : ExitPolicy) (native : NativeWalletState)
      (journal : ExitJournal) (past : Bool)
      → Journals O p P (resume_submitted O p config policy native journal past) (λ a d. Unit)
  unfolding resume_submitted
  resume_submitted-Journals policy native journal false = return-Journals O p _ (λ d h. tt)
  resume_submitted-Journals policy native journal true = then-Journals O p (check-Journals O p _) (
      bind-Journals O p (check-Journals O p (coin_of native.wallet "wallet has no coin")) (λ coin.
        bind-Journals O p (looked-Journals journal coin)
          (λ presence. resume_seen-Journals native journal coin presence.complete presence.parent)))

  resume_exit-Journals :
      {P : NativeWalletState → Type 0} (policy : ExitPolicy) (native : NativeWalletState)
      (exit : Option ExitJournal)
      → Journals O p P (resume_exit O p config policy native exit) (λ a d. Unit)
  unfolding resume_exit
  resume_exit-Journals policy native none = return-Journals O p _ (λ d h. tt)
  resume_exit-Journals policy native (some journal) =
      resume_submitted-Journals policy native journal (past_preparation journal)

  find_spender-Journals :
      {P : NativeWalletState → Type 0} (native : NativeWalletState) (metadata : CoinMetadata)
      (observation : DetailedFundingObservation) (unnamed : Bool)
      → Journals O p P (find_spender O p config native metadata observation unnamed) (λ a d. Unit)
  unfolding find_spender
  find_spender-Journals native metadata observation false = return-Journals O p _ (λ d h. tt)
  find_spender-Journals native metadata observation true =
      bind-Journals O p (check-Journals O p (coin_of native.wallet "wallet has no coin")) (λ coin.
        bind-Journals O p
          (quiet-Journals O p (search_history O p config metadata observation coin.history)
            (search_history-log O p config metadata observation coin.history))
          (λ searched.
            quiet-Journals O p (prove_if_unknown O p config searched native.exit _ _)
              (prove_if_unknown-log O p config searched native.exit _ _)))

  send_package-Journals :
      (journal : ExitJournal) (parent : Bool)
      → Journals O p
          (λ d. IsArmedExit p d journal)
          (send_package O p config journal parent)
          (λ a d. Unit)
  unfolding send_package
  send_package-Journals journal true =
      then-Journals O p
        (note-Journals O p (exits journal.exit_package.child) (λ d saved. (journal, saved, refl)))
        (bind-Journals O p (ask-Journals O p (O.broadcast_exact journal.exit_package.child))
          (λ txid. return-Journals O p _ (λ d h. tt)))
  send_package-Journals journal false =
      then-Journals O p
        (note-Journals O p (submits journal.exit_package.parent journal.exit_package.child)
          (λ d saved. (journal, saved, refl, refl)))
        (weaken-Journals O p (λ d h. h) (λ a d h. tt)
          (ask-Journals O p
            (O.submit_package journal.exit_package.parent journal.exit_package.child)))

  submit_exit-Journals :
      {P : NativeWalletState → Type 0} (native : NativeWalletState) (journal : ExitJournal)
      (coin : WalletCoin) (confirmations : ℕ) (parent complete : Bool)
      → Journals O p P
          (submit_exit O p config native journal coin confirmations parent complete)
          (λ a d. Unit)
  unfolding submit_exit
  submit_exit-Journals native journal coin confirmations parent true = observed-Journals native true
  submit_exit-Journals native journal coin confirmations parent false =
      then-Journals O p (check-Journals O p _) (
        bind-Journals O p (arm_exit-Journals native journal) (λ armed.
          then-Journals O p (send_package-Journals armed.1 parent) (
            bind-Journals O p (looked-Journals armed.1 coin) (λ presence.
              then-Journals O p (check-Journals O p _) (observed-Journals armed.0 false)))))

  exit_fresh-Journals :
      {P : NativeWalletState → Type 0} (policy : ExitPolicy) (native : NativeWalletState)
      (metadata : CoinMetadata)
      → Journals O p P (exit_fresh O p config policy native metadata) (λ a d. Unit)
  unfolding exit_fresh
  exit_fresh-Journals policy native metadata =
      bind-Journals O p (ask-Journals O p (O.observe_funding metadata)) (λ seen.
        bind-Journals O p (find_spender-Journals native metadata seen _) (λ observation.
          bind-Journals O p (check-Journals O p (coin_of native.wallet "wallet has no coin"))
            (λ coin. then-Journals O p (check-Journals O p _) (
              bind-Journals O p
                (quiet-Journals O p
                  (prepare_exit_if O p config policy native observation
                    (must_prepare policy native.exit))
                  (prepare_exit_if-log O p config policy native observation
                    (must_prepare policy native.exit)))
                (λ prepared. then-Journals O p (check-Journals O p _) (
                  bind-Journals O p
                    (check-Journals O p (ok_or prepared.exit (message "exit journal is missing")))
                    (λ journal. bind-Journals O p (looked-Journals journal coin) (λ presence.
                      submit_exit-Journals prepared journal coin observation.funding.confirmations
                        presence.parent presence.complete))))))))

  exit_unless_resumed-Journals :
      {P : NativeWalletState → Type 0} (policy : ExitPolicy) (native : NativeWalletState)
      (metadata : CoinMetadata) (resumed : Option Emission)
      → Journals O p P (exit_unless_resumed O p config policy native metadata resumed) (λ a d. Unit)
  unfolding exit_unless_resumed
  exit_unless_resumed-Journals policy native metadata none =
      exit_fresh-Journals policy native metadata
  exit_unless_resumed-Journals policy native metadata (some emission) =
      return-Journals O p _ (λ d h. tt)

  exit_coin_journaled-Journals :
      {P : NativeWalletState → Type 0} (native : NativeWalletState) (destination : Bytes)
      (fee_rate : Option ℕ) (max_fee : ℕ)
      → Journals O p P
          (exit_coin_journaled O p config native destination fee_rate max_fee)
          (λ a d. Unit)
  unfolding exit_coin_journaled
  exit_coin_journaled-Journals native destination fee_rate max_fee =
      bind-Journals O p (check-Journals O p (exit_destination O p config destination)) (λ text.
        let policy : ExitPolicy = record {
          destination = text;
          fee_rate = fee_rate;
          max_fee_sat = max_fee;
        } in
        then-Journals O p (ask-Journals O p O.connect_chain) (
          bind-Journals O p
            (check-Journals O p (
              metadata_of_coin O p config "coin has no verified funding"
                "coin has no verified funding" native.wallet))
            (λ metadata.
              bind-Journals O p (resume_exit-Journals policy native native.exit)
                (exit_unless_resumed-Journals policy native metadata))))

  exit_by-Journals :
      {P : NativeWalletState → Type 0} (native : NativeWalletState) (destination : Bytes)
      (fee_rate : Option ℕ) (max_fee : ℕ) (dry_run saved : Bool)
      → Journals O p P
          (exit_by O p config native destination fee_rate max_fee dry_run saved)
          (λ a d. Unit)
  unfolding exit_by
  exit_by-Journals native destination fee_rate max_fee true true =
      quiet-Journals O p (load_exit O p config native destination fee_rate max_fee)
        (load_exit-log O p config native destination fee_rate max_fee)
  exit_by-Journals native destination fee_rate max_fee true false =
      quiet-Journals O p (preview_exit O p config native.wallet destination fee_rate max_fee)
        (preview_exit-log O p config native.wallet destination fee_rate max_fee)
  exit_by-Journals native destination fee_rate max_fee false saved =
      bind-Journals O p (exit_coin_journaled-Journals native destination fee_rate max_fee)
        (λ emission. return-Journals O p _ (λ d h. tt))

  -- Whatever the chain and the file system answer, an exit's parent and child are sent only as those
  -- of the saved journal, which is armed and validates against the saved coin.
  pub exit_coin-journaled :
      (destination : Bytes) (fee_rate : Option ℕ) (max_fee : ℕ) (dry_run : Bool) (w : World O)
      → AllJournaled p w.log
      → AllJournaled p (exit_coin O p config destination fee_rate max_fee dry_run w).1.log
  unfolding exit_coin
  exit_coin-journaled destination fee_rate max_fee dry_run w all =
      let journals = bind-Journals O p {P = λ d. Unit} (load_native-Journals O p config) (λ native.
        then-Journals O p (check-Journals O p _)
          (exit_by-Journals native destination fee_rate max_fee dry_run (is_some native.exit))) in
      (journals.run w tt all).0
