-- ===== src/Native/Session/Broadcast.antt =====
-- wallet/src/cli.rs, `fund_coin_explorer`: what it signs and broadcasts is saved before.
use tinylayer_org.Base.{Bytes, ◌≡◌, Option, none, some, arith, Bool, true, false}
use tinylayer_org.Wallet.Types.{lift, WalletCoin, PendingOperation, FundingJournal}
use tinylayer_org.Wallet.Validation.{attempt_committed}
use tinylayer_org.Wallet.Pending.{prepared_stage}
use tinylayer_org.Wallet.Platform.{Platform}
use tinylayer_org.Enclave.Types.{CoinStatus}
use tinylayer_org.Client.Registration.{verify_status}
use tinylayer_org.Wallet.Types.{RecoveryAttempt}
use tinylayer_org.Wallet.Fund.{
  record_sign_response, pending_recovery, pending_sign_request, funding_transaction,
}
use tinylayer_org.Native.Model.{NativeWalletState, Config}
use tinylayer_org.Native.Policy.{FundingPolicy, coin_of}
use tinylayer_org.Native.Session.{save_native, Outside, World, Entropy, signs, broadcasts}
use tinylayer_org.Native.Session.Send.{is_prepared}
use tinylayer_org.Native.Session.Sent.{ensure_connected-Journals}
use tinylayer_org.Native.Session.Fund.{
  is_broadcast_stage, prepare_funding, validate_explorer_prepared_funding, recheck_uncommitted,
  sign_funding, secure_funding, mark_if_new, broadcast_funding, prepare_if_new, sign_if_prepared,
  secure_if_pending, fund_coin_explorer,
}
use tinylayer_org.Native.Session.Journal.{
  AllJournaled, Journals, bind-Journals, then-Journals, ask-Journals, check-Journals,
  check_bind-Journals, return-Journals, note-Journals, load_native-Journals, save_native-Journals,
}

-- Each step leaves its own state saved.
module _ (O : Outside) (p : Platform) (config : Config) where
  prepare_funding-log :
      (entropy : Entropy) (policy : FundingPolicy) (native : NativeWalletState) (coin : WalletCoin)
      (w : World O)
      → (prepare_funding O p config entropy policy native coin w).1.log ≡ w.log
  unfolding prepare_funding save_native
  prepare_funding-log entropy policy native coin w = ground arith

  prepare_funding-Journals :
      (entropy : Entropy) (policy : FundingPolicy) (native : NativeWalletState) (coin : WalletCoin)
      → Journals O p
          (λ d. d ≡ native)
          (prepare_funding O p config entropy policy native coin)
          (λ n d. d ≡ n)
  prepare_funding-Journals entropy policy native coin = record {
    run = λ w holds all. (
      rw (prepare_funding-log entropy policy native coin w) all,
      λ n e. unfold prepare_funding save_native in ground arith,
    );
  }

  validate_explorer_prepared_funding-same :
      (native : NativeWalletState) (w : World O)
      → ((validate_explorer_prepared_funding O p config native w).1.log ≡ w.log)
        × ((validate_explorer_prepared_funding O p config native w).1.disk ≡ w.disk)
  unfolding validate_explorer_prepared_funding
  validate_explorer_prepared_funding-same native w = (ground arith, ground arith)

  validate_explorer_prepared_funding-Journals :
      {P : NativeWalletState → Type 0} (native : NativeWalletState)
      → Journals O p P (validate_explorer_prepared_funding O p config native) (λ a. P)
  validate_explorer_prepared_funding-Journals native = record {
    run = λ w holds all.
        let (quiet, kept) = validate_explorer_prepared_funding-same native w in
        (rw quiet all, λ a e. rw kept holds);
  }

  recheck_uncommitted-Journals :
      {P : NativeWalletState → Type 0} (native : NativeWalletState) (status : CoinStatus)
      (attempt : RecoveryAttempt) (committed : Bool)
      → Journals O p P (recheck_uncommitted O p config native status attempt committed) (λ a. P)
  unfolding recheck_uncommitted
  recheck_uncommitted-Journals native status attempt true = return-Journals O p _ (λ d h. h)
  recheck_uncommitted-Journals native status attempt false =
      then-Journals O p (check-Journals O p _) (validate_explorer_prepared_funding-Journals native)

  sign_funding-Journals :
      (native : NativeWalletState)
      → Journals O p (λ d. d ≡ native) (sign_funding O p config native) (λ n d. d ≡ n)
  unfolding sign_funding
  sign_funding-Journals native = then-Journals O p (ask-Journals O p O.connect_enclave) (
      bind-Journals O p
        (check-Journals O p (coin_of native.wallet "pending funding coin is missing"))
        (λ coin. bind-Journals O p (ask-Journals O p (O.status coin.keys.coin_id)) (λ status.
          then-Journals O p (check-Journals O p (lift (verify_status coin.keys status))) (
            bind-Journals O p
              (check-Journals O p
                (pending_recovery "wallet has no pending operation" native.wallet.pending))
              (λ pending.
                bind-Journals O p (check-Journals O p (prepared_stage pending.stage)) (λ attempt.
                  bind-Journals O p (check-Journals O p (attempt_committed status attempt))
                    (λ committed.
                      then-Journals O p
                        (recheck_uncommitted-Journals native status attempt committed)
                        (check_bind-Journals O p (pending_sign_request native.wallet)
                          (λ request asked.
                            then-Journals O p
                              (note-Journals O p (signs request) (λ d same. rw same asked))
                              (bind-Journals O p (ask-Journals O p (O.sign request)) (λ response.
                                then-Journals O p
                                  (check-Journals O p
                                    (record_sign_response response native.wallet).0)
                                  (then-Journals O p
                                    (save_native-Journals O p config (record native {
                                      wallet = (record_sign_response response native.wallet).1;
                                    }))
                                    (return-Journals O p _ (λ d h. h))))))))))))))

  secure_funding-Journals :
      (connected : Bool) (native : NativeWalletState)
      → Journals O p (λ d. d ≡ native) (secure_funding O p config connected native) (λ n d. d ≡ n)
  unfolding secure_funding
  secure_funding-Journals connected native =
      then-Journals O p (ensure_connected-Journals O p config connected) (
        bind-Journals O p {A = WalletCoin} (check-Journals O p _) (λ coin.
          bind-Journals O p (ask-Journals O p (O.status coin.keys.coin_id)) (λ status.
            then-Journals O p (check-Journals O p _) (
              then-Journals O p (save_native-Journals O p config _)
                (return-Journals O p _ (λ d h. h))))))

  mark_if_new-Journals :
      (native : NativeWalletState) (txid : Bytes) (marked : Bool)
      → Journals O p (λ d. d ≡ native) (mark_if_new O p config native txid marked) (λ a d. Unit)
  unfolding mark_if_new
  mark_if_new-Journals native txid true = return-Journals O p _ (λ d h. tt)
  mark_if_new-Journals native txid false =
      then-Journals O p (check-Journals O p _)
        (then-Journals O p (save_native-Journals O p config _) (return-Journals O p _ (λ d h. tt)))

  broadcast_funding-Journals :
      (native : NativeWalletState)
      → Journals O p (λ d. d ≡ native) (broadcast_funding O p config native) (λ a d. Unit)
  unfolding broadcast_funding
  broadcast_funding-Journals native =
      check_bind-Journals O p (funding_transaction p native.wallet) (λ transaction given.
        then-Journals O p (note-Journals O p (broadcasts transaction) (λ d same. rw same given)) (
          bind-Journals O p (ask-Journals O p (O.broadcast_exact transaction))
            (λ txid. mark_if_new-Journals native txid (is_broadcast_stage native.wallet))))

  prepare_if_new-Journals :
      (entropy : Entropy) (policy : FundingPolicy) (native : NativeWalletState) (coin : WalletCoin)
      (funding : Option FundingJournal)
      → Journals O p
          (λ d. d ≡ native)
          (prepare_if_new O p config entropy policy native coin funding)
          (λ n d. d ≡ n)
  unfolding prepare_if_new
  prepare_if_new-Journals entropy policy native coin none =
      prepare_funding-Journals entropy policy native coin
  prepare_if_new-Journals entropy policy native coin (some funding) =
      return-Journals O p _ (λ d h. h)

  sign_if_prepared-Journals :
      (native : NativeWalletState) (prepared : Bool)
      → Journals O p (λ d. d ≡ native) (sign_if_prepared O p config native prepared) (λ n d. d ≡ n)
  unfolding sign_if_prepared
  sign_if_prepared-Journals native true = sign_funding-Journals native
  sign_if_prepared-Journals native false = return-Journals O p _ (λ d h. h)

  secure_if_pending-Journals :
      (connected : Bool) (native : NativeWalletState) (pending : Option PendingOperation)
      → Journals O p
          (λ d. d ≡ native)
          (secure_if_pending O p config connected native pending)
          (λ n d. d ≡ n)
  unfolding secure_if_pending
  secure_if_pending-Journals connected native none = return-Journals O p _ (λ d h. h)
  secure_if_pending-Journals connected native (some pending) =
      secure_funding-Journals connected native

  -- Whatever the enclave, the chain and the file system answer, a funding recovery is signed only as
  -- the saved wallet's pending request, and a transaction is broadcast only as the funding
  -- transaction that the saved wallet gives out.
  pub fund_coin_explorer-journaled :
      (entropy : Entropy) (policy : FundingPolicy) (w : World O)
      → AllJournaled p w.log
      → AllJournaled p (fund_coin_explorer O p config entropy policy w).1.log
  unfolding fund_coin_explorer
  fund_coin_explorer-journaled entropy policy w all =
      let journals = then-Journals O p {P = λ d. Unit} (ask-Journals O p O.connect_chain) (
        bind-Journals O p (load_native-Journals O p config) (λ native.
          bind-Journals O p (check-Journals O p (coin_of native.wallet "register a coin first"))
            (λ coin.
              bind-Journals O p (prepare_if_new-Journals entropy policy native coin coin.funding)
                (λ begun. then-Journals O p (check-Journals O p _) (
                  bind-Journals O p
                    (sign_if_prepared-Journals begun (is_prepared begun.wallet.pending))
                    (λ recorded.
                      bind-Journals O p
                        (secure_if_pending-Journals _ recorded recorded.wallet.pending)
                        broadcast_funding-Journals)))))) in
      (journals.run w tt all).0
