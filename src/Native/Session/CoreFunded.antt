-- ===== src/Native/Session/CoreFunded.antt =====
-- wallet/src/cli.rs, `fund_coin`: what it signs and sends is saved before, with a node's wallet too.
use tinylayer_org.Base.{
  ◌≡◌, ap, refl, ◌∙◌, Option, none, some, arith, Bool, true, false, head, ok, ok_or, ensure, same,
  ◌||◌, ◌==◌, bytes_discrete, String,
}
use tinylayer_org.Enclave.Types.{CoinStatus}
use tinylayer_org.Client.Types.{CoinMetadata}
use tinylayer_org.Client.Registration.{verify_status}
use tinylayer_org.Client.Recovery.{verify_recovery}
use tinylayer_org.Wallet.Types.{
  message, lift, WalletState, WalletCoin, PendingOperation, FundingJournal, FundingStage,
  FundingStage_discrete, RecoveryAttempt,
}
use tinylayer_org.Wallet.Platform.{Platform}
use tinylayer_org.Wallet.Validation.{attempt_committed, require_reaction_margin}
use tinylayer_org.Wallet.Pending.{prepared_stage}
use tinylayer_org.Wallet.Fund.{record_sign_response, pending_recovery, pending_sign_request}
use tinylayer_org.Native.Model.{NativeWalletState, Config, ChainConfig, explorer, core_rpc}
use tinylayer_org.Native.Policy.{FundingPolicy, coin_of, check_core_funding}
use tinylayer_org.Native.Session.{save, load_native, Outside, World, Entropy, signs, funds}
use tinylayer_org.Native.Session.Fund.{is_broadcast_stage}
use tinylayer_org.Native.Session.Broadcast.{fund_coin_explorer-journaled}
use tinylayer_org.Native.Session.Core.{
  funding_stage, needs_enclave, is_fund_prepared, prepare_core, prepare_core_if_new,
  journal_recovery, journal_if, recheck_core, sign_core, sign_core_if, secure_core,
  finish_pending_funding_recovery, finish_if_pending, mark_core, broadcast_core, fund_core_from,
  connect_if, fund_coin_core, fund_by_chain, fund_coin,
}
use tinylayer_org.Native.Session.Journal.{
  AllJournaled, Journals, quiet-Journals, bind-Journals, then-Journals, ask-Journals,
  check-Journals, weaken-Journals, check_bind-Journals, check_then-Journals, return-Journals,
  note-Journals, load_native-Journals, save-Journals,
}

coin_of-some :
    (state : WalletState) (missing : String) (coin : WalletCoin)
    → coin_of state missing ≡ ok coin
    → state.coin ≡ some coin
unfolding coin_of
coin_of-some state missing coin h = ground arith

module _ (O : Outside) (p : Platform) (config : Config) where
  prepare_core-log :
      (policy : FundingPolicy) (connected : Bool) (state : WalletState) (coin : WalletCoin)
      (w : World O)
      → (prepare_core O p config policy connected state coin w).1.log ≡ w.log
  unfolding prepare_core save load_native
  prepare_core-log policy connected state coin w = ground arith

  prepare_core_if_new-Journals :
      (policy : FundingPolicy) (connected : Bool) (state : WalletState) (coin : WalletCoin)
      (funding : Option FundingJournal)
      → Journals O p
          (λ d. d.wallet ≡ state)
          (prepare_core_if_new O p config policy connected state coin funding)
          (λ s d. d.wallet ≡ s)
  unfolding prepare_core_if_new
  prepare_core_if_new-Journals policy connected state coin (some funding) =
      return-Journals O p _ (λ d h. h)
  prepare_core_if_new-Journals policy connected state coin none = record {
    run = λ w holds all. (
      rw (prepare_core-log policy connected state coin w) all,
      λ n e. unfold prepare_core save load_native in ground arith,
    );
  }

  journal_recovery-log :
      (entropy : Entropy) (policy : FundingPolicy) (connected : Bool) (state : WalletState)
      (w : World O)
      → (journal_recovery O p config entropy policy connected state w).1.log ≡ w.log
  unfolding journal_recovery save load_native
  journal_recovery-log entropy policy connected state w = ground arith

  journal_if-Journals :
      (entropy : Entropy) (policy : FundingPolicy) (connected : Bool) (state : WalletState)
      (fresh : Bool)
      → Journals O p
          (λ d. d.wallet ≡ state)
          (journal_if O p config entropy policy connected state fresh)
          (λ s d. d.wallet ≡ s)
  unfolding journal_if
  journal_if-Journals entropy policy connected state false = return-Journals O p _ (λ d h. h)
  journal_if-Journals entropy policy connected state true = record {
    run = λ w holds all. (
      rw (journal_recovery-log entropy policy connected state w) all,
      λ n e. unfold journal_recovery save load_native in ground arith,
    );
  }

  recheck_core-same :
      (coin : WalletCoin) (metadata : CoinMetadata) (status : CoinStatus)
      (attempt : RecoveryAttempt) (committed : Bool) (w : World O)
      → ((recheck_core O p config coin metadata status attempt committed w).1.log ≡ w.log)
        × ((recheck_core O p config coin metadata status attempt committed w).1.disk ≡ w.disk)
  unfolding recheck_core
  recheck_core-same coin metadata status attempt true w = (ground arith, ground arith)
  recheck_core-same coin metadata status attempt false w = (ground arith, ground arith)

  recheck_core-Journals :
      {P : NativeWalletState → Type 0} (coin : WalletCoin) (metadata : CoinMetadata)
      (status : CoinStatus) (attempt : RecoveryAttempt) (committed : Bool)
      → Journals O p P (recheck_core O p config coin metadata status attempt committed) (λ a. P)
  recheck_core-Journals coin metadata status attempt committed = record {
    run = λ w holds all.
        let (quiet, kept) = recheck_core-same coin metadata status attempt committed w in
        (rw quiet all, λ a e. rw kept holds);
  }

  sign_core-Journals :
      (state : WalletState)
      → Journals O p (λ d. d.wallet ≡ state) (sign_core O p config state) (λ s d. d.wallet ≡ s)
  unfolding sign_core
  sign_core-Journals state =
      bind-Journals O p (check-Journals O p (coin_of state "pending funding coin is missing"))
        (λ coin.
          bind-Journals O p
            (check-Journals O p
              (ok_or coin.metadata (message "pending funding metadata is missing")))
            (λ metadata.
              bind-Journals O p (ask-Journals O p (O.status coin.keys.coin_id)) (λ status.
                then-Journals O p (check-Journals O p (lift (verify_status coin.keys status))) (
                  bind-Journals O p
                    (check-Journals O p
                      (pending_recovery "wallet has no pending operation" state.pending))
                    (λ pending.
                      bind-Journals O p (check-Journals O p (prepared_stage pending.stage))
                        (λ attempt.
                          bind-Journals O p (check-Journals O p (attempt_committed status attempt))
                            (λ committed.
                              then-Journals O p
                                (recheck_core-Journals coin metadata status attempt committed)
                                (check_bind-Journals O p (pending_sign_request state)
                                  (λ request asked.
                                    then-Journals O p
                                      (note-Journals O p (signs request) (λ d same. rw same asked))
                                      (bind-Journals O p (ask-Journals O p (O.sign request))
                                        (λ response.
                                          then-Journals O p
                                            (check-Journals O p
                                              (record_sign_response response state).0)
                                            (then-Journals O p
                                              (save-Journals O p config
                                                (record_sign_response response state).1)
                                              (return-Journals O p _ (λ d h. h))))))))))))))

  sign_core_if-Journals :
      (state : WalletState) (prepared : Bool)
      → Journals O p
          (λ d. d.wallet ≡ state)
          (sign_core_if O p config state prepared)
          (λ s d. d.wallet ≡ s)
  unfolding sign_core_if
  sign_core_if-Journals state true = sign_core-Journals state
  sign_core_if-Journals state false = return-Journals O p _ (λ d h. h)

  secure_core-Journals :
      (state : WalletState)
      → Journals O p (λ d. d.wallet ≡ state) (secure_core O p config state) (λ s d. d.wallet ≡ s)
  unfolding secure_core
  secure_core-Journals state = bind-Journals O p {A = WalletCoin} (check-Journals O p _) (λ coin.
      bind-Journals O p (ask-Journals O p (O.status coin.keys.coin_id)) (λ status.
        then-Journals O p (check-Journals O p _)
          (then-Journals O p (save-Journals O p config _) (return-Journals O p _ (λ d h. h)))))

  finish_if_pending-Journals :
      (connected : Bool) (state : WalletState) (pending : Option PendingOperation)
      → Journals O p
          (λ d. d.wallet ≡ state)
          (finish_if_pending O p config connected state pending)
          (λ s d. d.wallet ≡ s)
  unfolding finish_if_pending finish_pending_funding_recovery
  finish_if_pending-Journals connected state none = return-Journals O p _ (λ d h. h)
  finish_if_pending-Journals connected state (some pending) =
      then-Journals O p (check-Journals O p _) (
        bind-Journals O p (sign_core_if-Journals state (is_fund_prepared state.pending))
          secure_core-Journals)

  mark_core-log :
      (state : WalletState) (marked : Bool) (w : World O)
      → (mark_core O p config state marked w).1.log ≡ w.log
  unfolding mark_core save load_native
  mark_core-log state true w = ground arith
  mark_core-log state false w = ground arith

  broadcast_core-Journals :
      (state : WalletState)
      → Journals O p (λ d. d.wallet ≡ state) (broadcast_core O p config state) (λ a d. Unit)
  unfolding broadcast_core
  broadcast_core-Journals state =
      check_bind-Journals O p (coin_of state "secured funding coin is missing") (λ coin holds_coin.
        check_bind-Journals O p
          (ok_or coin.metadata (message "secured funding metadata is missing"))
          (λ metadata holds_metadata.
            check_bind-Journals O p
              (ok_or coin.funding (message "secured funding journal is missing"))
              (λ funding holds_funding.
                check_then-Journals O p
                  (ensure
                    (same FundingStage_discrete funding.stage FundingStage.recovery_secured
                      || same FundingStage_discrete funding.stage FundingStage.broadcast)
                    (message "funding cannot be broadcast before its recovery is durable"))
                  (λ stage.
                    check_bind-Journals O p
                      (ok_or (head coin.history) (message "secured funding recovery is missing"))
                      (λ first holds_first.
                        check_then-Journals O p
                          (ensure (first.delay_blocks == funding.delay_blocks)
                            (message "secured funding recovery has the wrong delay"))
                          (λ delay.
                            check_then-Journals O p
                              (lift (verify_recovery p.bitcoin metadata first))
                              (λ verified.
                                then-Journals O p
                                  (note-Journals O p (funds funding.transaction) (λ d same_wallet.
                                    record {
                                      coin = coin;
                                      metadata = metadata;
                                      funding = funding;
                                      first = first;
                                      holds_coin =
                                          ap (λ w. w.coin) same_wallet
                                          ∙ coin_of-some state "secured funding coin is missing"
                                              coin holds_coin;
                                      holds_metadata = ground arith;
                                      holds_funding = ground arith;
                                      holds_first = ground arith;
                                      stage = ground arith;
                                      delay = ground arith;
                                      verified = ground arith;
                                      transaction_of = refl;
                                    }))
                                  (bind-Journals O p
                                    (ask-Journals O p
                                      (O.broadcast_funding metadata funding.transaction))
                                    (λ txid.
                                      then-Journals O p
                                        (check-Journals O p (
                                          ensure (same bytes_discrete txid metadata.outpoint.txid) (
                                            message
                                              "broadcast funding txid does not match recovery outpoint")))
                                        (quiet-Journals O p
                                          (mark_core O p config state (is_broadcast_stage state))
                                          (mark_core-log state (is_broadcast_stage state))))))))))))

  fund_core_from-Journals :
      (entropy : Entropy) (policy : FundingPolicy) (state : WalletState) (connected : Bool)
      → Journals O p
          (λ d. d.wallet ≡ state)
          (fund_core_from O p config entropy policy state connected)
          (λ a d. Unit)
  unfolding fund_core_from
  fund_core_from-Journals entropy policy state connected =
      then-Journals O p (ask-Journals O p O.connect_chain) (
        bind-Journals O p (check-Journals O p (coin_of state "register a coin first")) (λ coin.
          bind-Journals O p (prepare_core_if_new-Journals policy connected state coin coin.funding)
            (λ funded. then-Journals O p (check-Journals O p (check_core_funding policy funded)) (
              bind-Journals O p
                (check-Journals O p
                  (ok_or (funding_stage funded) (message "prepared funding journal is missing")))
                (λ stage.
                  bind-Journals O p (journal_if-Journals entropy policy connected funded _)
                    (λ journaled.
                      bind-Journals O p
                        (finish_if_pending-Journals connected journaled journaled.pending)
                        broadcast_core-Journals))))))

  connect_if-Journals :
      {P : NativeWalletState → Type 0} (needed : Bool)
      → Journals O p P (connect_if O p config needed) (λ a. P)
  unfolding connect_if
  connect_if-Journals true = ask-Journals O p O.connect_enclave
  connect_if-Journals false = return-Journals O p _ (λ d h. h)

  fund_coin_core-Journals :
      (entropy : Entropy) (policy : FundingPolicy)
      → Journals O p (λ d. Unit) (fund_coin_core O p config entropy policy) (λ a d. Unit)
  unfolding fund_coin_core
  fund_coin_core-Journals entropy policy =
      bind-Journals O p (load_native-Journals O p config) (λ native.
        weaken-Journals O p (λ d same. ap (λ n. n.wallet) same) (λ a d h. h)
          (then-Journals O p (connect_if-Journals (needs_enclave native.wallet))
            (fund_core_from-Journals entropy policy native.wallet (needs_enclave native.wallet))))

  fund_by_chain-Journals :
      (entropy : Entropy) (policy : FundingPolicy) (chain : ChainConfig)
      → Journals O p (λ d. Unit) (fund_by_chain O p config entropy policy chain) (λ a d. Unit)
  fund_by_chain-Journals entropy policy (explorer url) =
      bind-Journals O p {Q = λ native d. Unit {0}}
        (record {
          run = λ w holds all.
              (fund_coin_explorer-journaled O p config entropy policy w all, λ a e. tt);
        })
        (λ native. return-Journals O p _ (λ d h. tt))
  fund_by_chain-Journals entropy policy (core_rpc url cookie wallet) =
      fund_coin_core-Journals entropy policy

  -- Whatever the enclave, the chain and the file system answer, with an explorer or with a node's
  -- wallet: a funding recovery is signed only as the saved wallet's pending request, an explorer's
  -- broadcast is the funding transaction that the saved wallet gives out, and a node is told to send
  -- only the saved funding transaction, behind a saved and verified first recovery.
  pub fund_coin-journaled :
      (entropy : Entropy) (policy : FundingPolicy) (w : World O)
      → AllJournaled p w.log
      → AllJournaled p (fund_coin O p config entropy policy w).1.log
  unfolding fund_coin
  fund_coin-journaled entropy policy w all =
      let journals = then-Journals O p {P = λ d. Unit} (check-Journals O p _) (
        then-Journals O p (check-Journals O p (require_reaction_margin 0 policy.delay_blocks 0))
          (fund_by_chain-Journals entropy policy config.chain)) in
      (journals.run w tt all).0
