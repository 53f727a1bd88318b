-- ===== src/Native/Session/Fund.antt =====
-- wallet/src/cli.rs, `fund_coin_explorer` and `validate_explorer_prepared_funding`.
use tinylayer_org.Base.{
  Bytes, Bool, true, false, Option, some, none, ensure, ok_or, not, is_some, same,
}
use tinylayer_org.Base.Actions.{◌>>=◌, ◌>>◌, check, return}
use tinylayer_org.Client.Registration.{verify_status}
use tinylayer_org.Enclave.Types.{CoinStatus}
use tinylayer_org.Wallet.Types.{
  message, lift, WalletState, WalletCoin, FundingJournal, FundingStage, FundingStage_discrete,
  PendingOperation, RecoveryAttempt,
}
use tinylayer_org.Wallet.Platform.{Platform}
use tinylayer_org.Wallet.Validation.{attempt_committed, attempt_uncommitted}
use tinylayer_org.Wallet.Fund.{
  begin_funding, record_sign_response, pending_sign_request, complete_funding_recovery,
  funding_transaction, mark_funding_broadcast, pending_recovery,
}
use tinylayer_org.Wallet.Pending.{prepared_stage}
use tinylayer_org.Native.Model.{NativeWalletState, Config}
use tinylayer_org.Native.Policy.{
  FundingPolicy, coin_of, sweep_outpoints, largest_source, free_sources, check_saved_funding,
  check_canonical_funding,
}
use tinylayer_org.Native.Session.{
  Outside, Session, Entropy, Event, ask, note, load_native, save_native,
}
use tinylayer_org.Native.Session.Send.{is_prepared, ensure_connected}

abbrev pub is_broadcast_stage : WalletState → Bool
is_broadcast_stage state = elim state.coin [
  | none ↦ false
  | some coin ↦ elim coin.funding [
    | none ↦ false
    | some funding ↦ same FundingStage_discrete funding.stage FundingStage.broadcast
  ]
]

module _ (O : Outside) (p : Platform) (config : Config) where
  unfoldable pub prepare_funding :
      Entropy → FundingPolicy → NativeWalletState → WalletCoin → Session O NativeWalletState
  prepare_funding entropy policy native coin = do
    check (ensure (not (is_some native.wallet.pending)) (message "wallet has a pending operation"))
    ask O O.connect_enclave
    status ← ask O (O.status coin.keys.coin_id)
    sources ← ask O O.confirmed_source_utxos
    source ← check (
        ok_or (largest_source p none (free_sources p (sweep_outpoints native.source_sweep) sources))
          (message "deposit confirmed sats before funding"))
    asked ←
        check
          (begin_funding p entropy.capability entropy.withdrawal config.network
            native.funding_secret source status policy.amount_sat policy.delay_blocks
            policy.fee_rate_sat_vb policy.max_fee_sat config.min_reaction_blocks native.wallet).0
    let begun = record native {
      wallet =
          (begin_funding p entropy.capability entropy.withdrawal config.network
            native.funding_secret source status policy.amount_sat policy.delay_blocks
            policy.fee_rate_sat_vb policy.max_fee_sat config.min_reaction_blocks native.wallet).1;
    }
    save_native O p config begun
    return begun

  unfoldable pub validate_explorer_prepared_funding : NativeWalletState → Session O Unit
  validate_explorer_prepared_funding native = do
    coin ← check (coin_of native.wallet "prepared funding coin is missing")
    metadata ← check (ok_or coin.metadata (message "prepared funding metadata is missing"))
    funding ← check (ok_or coin.funding (message "prepared funding journal is missing"))
    check (
        ensure (same FundingStage_discrete funding.stage FundingStage.prepared)
          (message "funding recovery was already secured"))
    sources ← ask O O.confirmed_source_utxos
    check (check_canonical_funding p config native coin metadata funding sources)

  unfoldable pub recheck_uncommitted :
      NativeWalletState → CoinStatus → RecoveryAttempt → Bool → Session O Unit
  recheck_uncommitted native status attempt true = return tt
  recheck_uncommitted native status attempt false = do
    check (
        ensure (attempt_uncommitted p.bitcoin status attempt)
          (message "pending funding journal does not match live enclave state"))
    validate_explorer_prepared_funding native

  unfoldable pub sign_funding : NativeWalletState → Session O NativeWalletState
  sign_funding native = do
    ask O O.connect_enclave
    coin ← check (coin_of native.wallet "pending funding coin is missing")
    status ← ask O (O.status coin.keys.coin_id)
    check (lift (verify_status coin.keys status))
    pending ← check (pending_recovery "wallet has no pending operation" native.wallet.pending)
    attempt ← check (prepared_stage pending.stage)
    committed ← check (attempt_committed status attempt)
    recheck_uncommitted native status attempt committed
    request ← check (pending_sign_request native.wallet)
    note O (Event.signs request)
    response ← ask O (O.sign request)
    check (record_sign_response response native.wallet).0
    let recorded = record native { wallet = (record_sign_response response native.wallet).1 }
    save_native O p config recorded
    return recorded

  unfoldable pub secure_funding : Bool → NativeWalletState → Session O NativeWalletState
  secure_funding connected native = do
    ensure_connected O p config connected
    coin ← check (coin_of native.wallet "pending funding coin is missing")
    status ← ask O (O.status coin.keys.coin_id)
    check (complete_funding_recovery p status native.wallet).0
    let secured = record native { wallet = (complete_funding_recovery p status native.wallet).1 }
    save_native O p config secured
    return secured

  unfoldable pub mark_if_new : NativeWalletState → Bytes → Bool → Session O NativeWalletState
  mark_if_new native txid true = return native
  mark_if_new native txid false = do
    check (mark_funding_broadcast p txid native.wallet).0
    let marked = record native { wallet = (mark_funding_broadcast p txid native.wallet).1 }
    save_native O p config marked
    return marked

  unfoldable pub broadcast_funding : NativeWalletState → Session O NativeWalletState
  broadcast_funding native = do
    transaction ← check (funding_transaction p native.wallet)
    note O (Event.broadcasts transaction)
    txid ← ask O (O.broadcast_exact transaction)
    mark_if_new native txid (is_broadcast_stage native.wallet)

  -- The last arguments are the saved journal, whether the saved request is unanswered, and what is
  -- pending: after the check of the saved funding a funding recovery, which `sign_if_prepared` has
  -- left answered.
  unfoldable pub prepare_if_new :
      Entropy
      → FundingPolicy
      → NativeWalletState
      → WalletCoin
      → Option FundingJournal
      → Session O NativeWalletState
  prepare_if_new entropy policy native coin none = prepare_funding entropy policy native coin
  prepare_if_new entropy policy native coin (some funding) = return native

  unfoldable pub sign_if_prepared : NativeWalletState → Bool → Session O NativeWalletState
  sign_if_prepared native true = sign_funding native
  sign_if_prepared native false = return native

  unfoldable pub secure_if_pending :
      Bool → NativeWalletState → Option PendingOperation → Session O NativeWalletState
  secure_if_pending connected native none = return native
  secure_if_pending connected native (some pending) = secure_funding connected native

  unfoldable pub fund_coin_explorer : Entropy → FundingPolicy → Session O NativeWalletState
  fund_coin_explorer entropy policy = do
    ask O O.connect_chain
    native ← load_native O p config
    coin ← check (coin_of native.wallet "register a coin first")
    begun ← prepare_if_new entropy policy native coin coin.funding
    check (check_saved_funding policy begun.wallet)
    recorded ← sign_if_prepared begun (is_prepared begun.wallet.pending)
    secured ← secure_if_pending (is_prepared begun.wallet.pending) recorded recorded.wallet.pending
    broadcast_funding secured
