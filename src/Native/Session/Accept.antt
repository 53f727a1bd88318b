-- ===== src/Native/Session/Accept.antt =====
-- wallet/src/cli.rs, `create_transfer_request` and `accept_transfer`.
use tinylayer_org.Base.{
  ℕ, Bytes, Bool, true, false, Option, some, none, Result, ensure, ok_or, ◌&&◌, is_some, max,
}
use tinylayer_org.Base.Actions.{◌>>=◌, ◌>>◌, check, return}
use tinylayer_org.Extern.{OutPoint}
use tinylayer_org.Wallet.Types.{
  Failure, message, WalletState, WalletCoin, TransferRequest, TransferEnvelope,
}
use tinylayer_org.Wallet.Platform.{Platform}
use tinylayer_org.Wallet.Request.{validate_request, parse_hex32, fingerprint}
use tinylayer_org.Wallet.Package.{decrypt_transfer}
use tinylayer_org.Wallet.Receive.{
  RequestEntropy, begin_transfer_request, accept_transfer, accepts, has_fingerprint,
}
use tinylayer_org.Native.Model.{Config}
use tinylayer_org.Native.Session.{Outside, Session, ask, load_native, save}

abbrev pub or_zero : Option ℕ → ℕ
or_zero none = 0
or_zero (some n) = n

module _ (O : Outside) (p : Platform) (config : Config) where
  -- `if !existing { .. }`
  abbrev pub if_new : Bool → Session O Unit → Session O Unit
  if_new true action = return tt
  if_new false action = action

  unfoldable pub create_transfer_request :
      RequestEntropy → Bytes → OutPoint → ℕ → Option ℕ → Session O TransferRequest
  create_transfer_request entropy coin_id_text outpoint amount_sat minimum_reaction_blocks = do
    coin_id ← check (parse_hex32 p "coin ID" coin_id_text)
    native ← load_native O p config
    let state = native.wallet
    let existing = is_some state.incoming
    if_new existing (ask O O.available)
    request ←
        check
          (begin_transfer_request p entropy config.network coin_id outpoint amount_sat
            (max config.min_reaction_blocks (or_zero minimum_reaction_blocks)) state).0
    if_new existing (
        save O p config
          (begin_transfer_request p entropy config.network coin_id outpoint amount_sat
            (max config.min_reaction_blocks (or_zero minimum_reaction_blocks)) state).1)
    ask O (O.publish_request request)
    return request

  unfoldable pub check_accepted :
      TransferRequest → TransferEnvelope → WalletCoin → Result Failure Unit
  check_accepted request envelope coin =
      ensure
        (accepts coin.accepted_request request
          && has_fingerprint coin.accepted_envelope_fingerprint (fingerprint p envelope))
        (message "wallet already contains a different coin or transfer")

  -- The result is the coin that is held at the end.
  unfoldable pub accept_new :
      TransferRequest → TransferEnvelope → WalletState → Session O (Option WalletCoin)
  accept_new request envelope state = do
    incoming ← check (ok_or state.incoming (message "wallet has no matching transfer request"))
    payload ← check (decrypt_transfer p request incoming.transport_secret envelope)
    ask O O.connect_enclave
    status ← ask O (O.status payload.metadata.keys.coin_id)
    ask O O.connect_chain
    observation ← ask O (O.observe_funding payload.metadata)
    accepted ←
        check
          (accept_transfer p config.network request envelope status observation.funding
            config.min_confirmations config.min_reaction_blocks state).0
    check (ensure accepted (message "transfer was already accepted"))
    let received =
        (accept_transfer p config.network request envelope status observation.funding
          config.min_confirmations config.min_reaction_blocks state).1
    save O p config received
    return (received.coin)

  unfoldable pub accept_from :
      TransferRequest
      → TransferEnvelope
      → WalletState
      → Option WalletCoin
      → Session O (Option WalletCoin)
  accept_from request envelope state (some coin) = do
    check (check_accepted request envelope coin)
    return (some coin)
  accept_from request envelope state none = accept_new request envelope state

  unfoldable pub accept_package : TransferRequest → TransferEnvelope → Session O (Option WalletCoin)
  accept_package request envelope = do
    check (validate_request p request)
    native ← load_native O p config
    accept_from request envelope native.wallet native.wallet.coin
