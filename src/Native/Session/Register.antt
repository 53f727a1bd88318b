-- ===== src/Native/Session/Register.antt =====
-- wallet/src/cli.rs, `register_coin`.
use tinylayer_org.Base.{Option, some, none, ensure, not, ◌&&◌, is_some}
use tinylayer_org.Base.Actions.{◌>>=◌, ◌>>◌, check, return, fail}
use tinylayer_org.Enclave.Types.{RegisterRequest}
use tinylayer_org.Wallet.Types.{
  message, WalletState, WalletCoin, PendingOperation, registration, recovery,
}
use tinylayer_org.Wallet.Platform.{Platform}
use tinylayer_org.Wallet.Register.{
  begin_registration, complete_registration_of, verify_live_status, is_nonempty,
}
use tinylayer_org.Wallet.Fund.{has_initial_handoff}
use tinylayer_org.Native.Model.{Config}
use tinylayer_org.Native.Session.{Outside, Session, Entropy, Event, ask, note, load_native, save}

module _ (O : Outside) (p : Platform) (config : Config) where
  -- A wallet that has registered already: its coin is compared with the enclave's.
  unfoldable pub check_registered : WalletState → WalletCoin → Session O WalletCoin
  check_registered state coin = do
    check (ensure (not (is_some state.pending)) (message "wallet has a pending operation"))
    check (
        ensure
          (not (is_some coin.metadata)
            && not (is_nonempty coin.history)
            && is_some coin.current_capability
            && has_initial_handoff coin.current_handoff
            && not (is_some coin.outgoing))
          (message "coin has already left the registration stage"))
    ask O O.connect_enclave
    status ← ask O (O.status coin.keys.coin_id)
    check (verify_live_status p coin status)
    return coin

  -- `begin_registration` changes `state`, which is saved before the request leaves.
  unfoldable pub begin_and_save : Entropy → WalletState → Session O (RegisterRequest × WalletState)
  begin_and_save entropy state = do
    request ←
        check
          (begin_registration p entropy.client_secret entropy.capability entropy.coin_id state).0
    let begun =
        (begin_registration p entropy.client_secret entropy.capability entropy.coin_id state).1
    save O p config begun
    return (request, begun)

  unfoldable pub resume_request :
      Entropy → WalletState → Option PendingOperation → Session O (RegisterRequest × WalletState)
  resume_request entropy state none = begin_and_save entropy state
  resume_request entropy state (some (registration s c r)) = return (r.request, state)
  resume_request entropy state (some (recovery r)) =
      fail (message "wallet has a pending signing operation; resume that command first")

  unfoldable pub finish_registration : RegisterRequest → WalletState → Session O (Option WalletCoin)
  finish_registration request state = do
    note O (Event.registers request)
    status ← ask O (O.register request)
    check (complete_registration_of p status state).0
    let completed = (complete_registration_of p status state).1
    save O p config completed
    return (completed.coin)

  unfoldable pub register_from :
      Entropy → WalletState → Option WalletCoin → Session O (Option WalletCoin)
  register_from entropy state (some coin) = do
    registered ← check_registered state coin
    return (some registered)
  register_from entropy state none = do
    ask O O.connect_enclave
    (request, begun) ← resume_request entropy state state.pending
    finish_registration request begun

  unfoldable pub register_coin : Entropy → Session O (Option WalletCoin)
  register_coin entropy = do
    native ← load_native O p config
    register_from entropy native.wallet native.wallet.coin
