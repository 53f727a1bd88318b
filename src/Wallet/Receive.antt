-- ===== src/Wallet/Receive.antt =====
-- wallet-core/src/state.rs: the receiver's half of a transfer.
use tinylayer_org.Base.{
  ℕ, Bytes, Bool, true, false, Result, ok, ensure, ok_or, ◌>>=◌, ◌>>◌, not, ◌==◌, ◌&&◌, leb, same,
  bytes_discrete, length, last, Option, none, some, is_some, Action, commit, max, if◌then◌else◌,
  ◌-◌,
}
use tinylayer_org.Extern.{OutPoint, OutPoint_discrete}
use tinylayer_org.Enclave.Types.{CoinId, CoinStatus, Capability}
use tinylayer_org.Enclave.Hashes.{capability_hash}
use tinylayer_org.Client.Types.{NetworkId, NetworkId_discrete, delay_step}
use tinylayer_org.Client.History.{verify_history}
use tinylayer_org.Wallet.Types.{
  Failure, message, lift, WalletState, WalletCoin, TransferRequest, TransferRequest_discrete,
  TransferEnvelope, ObservedFunding, IncomingTransfer,
}
use tinylayer_org.Wallet.Platform.{Platform}
use tinylayer_org.Wallet.Validation.{require_reaction_margin, verify_observed_funding}
use tinylayer_org.Wallet.Request.{
  new_request, validate_request, coin_id_of, outpoint_of, withdrawal_key_of,
  next_capability_hash_of, fingerprint,
}
use tinylayer_org.Wallet.Package.{secret_xonly, decrypt_transfer, validate_expected_amount}
use tinylayer_org.Wallet.Register.{validate_version}

-- `coin.accepted_request.as_ref() == Some(request)`
abbrev pub accepts : Option TransferRequest → TransferRequest → Bool
accepts none request = false
accepts (some saved) request = same TransferRequest_discrete saved request

-- `coin.accepted_envelope_fingerprint == Some(envelope.fingerprint())`
abbrev pub has_fingerprint : Option Bytes → Bytes → Bool
has_fingerprint none value = false
has_fingerprint (some saved) value = same bytes_discrete saved value

-- The random values of a new request: request id, capability, withdrawal and transport secrets.
pub record RequestEntropy : Type 0 where
  pub request_id : Bytes
  pub capability : Capability
  pub withdrawal : Bytes
  pub transport : Bytes

module _ (p : Platform) where
  -- `&&` reads the saved outpoint only where the coin id matched.
  matches_incoming : TransferRequest → NetworkId → CoinId → OutPoint → ℕ → ℕ → Result Failure Bool
  matches_incoming saved network coin_id outpoint expected_amount_sat minimum_reaction_blocks = do
    saved_id ← coin_id_of p saved
    if not (same bytes_discrete saved_id coin_id) then ok false else do
      saved_outpoint ← outpoint_of p saved
      ok (
          same OutPoint_discrete saved_outpoint outpoint
          && same NetworkId_discrete saved.network network
          && saved.expected_amount_sat == expected_amount_sat
          && saved.min_reaction_blocks == minimum_reaction_blocks)

  request_or_saved :
      RequestEntropy
      → NetworkId
      → CoinId
      → OutPoint
      → ℕ
      → ℕ
      → WalletState
      → Option IncomingTransfer
      → Result Failure (TransferRequest × WalletState)
  unfolding matches_incoming
  request_or_saved e network coin_id outpoint expected_amount_sat minimum_reaction_blocks w
        (some incoming) =
      do
        agrees ←
            matches_incoming incoming.request network coin_id outpoint expected_amount_sat
              minimum_reaction_blocks
        ensure agrees (message "wallet has another pending transfer request")
        ok (incoming.request, w)
  request_or_saved e network coin_id outpoint expected_amount_sat minimum_reaction_blocks w none =
      do
        let request =
            new_request p e.request_id coin_id network outpoint expected_amount_sat
              (secret_xonly p e.withdrawal) (capability_hash p.crypto e.capability)
              (p.public_key e.transport) minimum_reaction_blocks
        validate_request p request
        ok (
          request,
          record w {
            incoming = some (record {
              request = request;
              capability = e.capability;
              withdrawal_secret = e.withdrawal;
              transport_secret = e.transport;
            });
          },
        )

  unfoldable pub begin_transfer_request :
      RequestEntropy
      → NetworkId
      → CoinId
      → OutPoint
      → ℕ
      → ℕ
      → Action WalletState Failure TransferRequest
  unfolding request_or_saved
  begin_transfer_request e network coin_id outpoint expected_amount_sat minimum_reaction_blocks w =
      commit w do
        validate_version w
        ensure (not (is_some w.coin)) (message "wallet already contains a coin")
        ensure (not (is_some w.pending)) (message "wallet has a pending operation")
        ensure (not (p.is_null outpoint)) (message "transfer outpoint cannot be null")
        ensure (leb delay_step minimum_reaction_blocks)
            (message "minimum reaction margin must be at least 10 blocks")
        request_or_saved e network coin_id outpoint expected_amount_sat minimum_reaction_blocks w
            w.incoming

  -- The checks of a new package, up to the coin that it makes.
  unfoldable pub receive_coin :
      NetworkId
      → TransferRequest
      → TransferEnvelope
      → CoinStatus
      → ObservedFunding
      → ℕ
      → ℕ
      → WalletState
      → Result Failure WalletCoin
  receive_coin network request envelope status observed_funding minimum_confirmations
        minimum_reaction_blocks w =
      do
        ensure (not (is_some w.pending)) (message "wallet has a pending operation")
        incoming ← ok_or w.incoming (message "wallet has no matching transfer request")
        ensure (same TransferRequest_discrete incoming.request request)
            (message "saved transfer request does not match input")
        payload ← decrypt_transfer p request incoming.transport_secret envelope
        ensure
            (same NetworkId_discrete payload.metadata.network network
              && same NetworkId_discrete request.network network)
            (message "transfer network mismatch")
        coin_id ← coin_id_of p request
        ensure (same bytes_discrete payload.metadata.keys.coin_id coin_id)
            (message "transfer coin ID mismatch")
        outpoint ← outpoint_of p request
        ensure (same OutPoint_discrete payload.metadata.outpoint outpoint)
            (message "transfer outpoint mismatch")
        validate_expected_amount payload request
        ensure
            (same bytes_discrete (secret_xonly p payload.client_secret)
              payload.metadata.keys.client_pubkey)
            (message "transferred client secret does not match coin metadata")
        latest ← ok_or (last payload.history) (message "transfer has no recovery history")
        withdrawal_key ← withdrawal_key_of p request
        ensure (same bytes_discrete latest.withdrawal_xonly_pubkey withdrawal_key)
            (message "latest recovery does not pay the receiver")
        next_hash ← next_capability_hash_of p request
        ensure (same bytes_discrete next_hash (capability_hash p.crypto incoming.capability))
            (message "transfer request capability is inconsistent")
        verify_observed_funding p.bitcoin payload.metadata observed_funding minimum_confirmations
        withdrawal ←
            ok_or (p.secret_from_slice incoming.withdrawal_secret)
              (message "saved withdrawal key is invalid")
        lift (
            verify_history p.bitcoin payload.metadata status payload.client_secret
              incoming.capability payload.current_handoff (secret_xonly p withdrawal)
              observed_funding.confirmations payload.history)
        require_reaction_margin observed_funding.confirmations latest.delay_blocks
            (max minimum_reaction_blocks request.min_reaction_blocks)
        ok (record {
          client_secret = payload.client_secret;
          keys = payload.metadata.keys;
          metadata = some payload.metadata;
          funding = none;
          current_capability = some incoming.capability;
          current_handoff = some payload.current_handoff;
          withdrawal_secret = some incoming.withdrawal_secret;
          withdrawal_recovery_index = some (length payload.history - 1);
          accepted_request = some request;
          accepted_envelope_fingerprint = some (fingerprint p envelope);
          history = payload.history;
          outgoing = none;
        })

  -- A wallet that has a coin only confirms the package that it came by.
  accept_or_replay :
      NetworkId
      → TransferRequest
      → TransferEnvelope
      → CoinStatus
      → ObservedFunding
      → ℕ
      → ℕ
      → WalletState
      → Option WalletCoin
      → Result Failure (Bool × WalletState)
  accept_or_replay network request envelope status observed_funding minimum_confirmations
        minimum_reaction_blocks w (some coin) =
      do
        ensure
            (accepts coin.accepted_request request
              && has_fingerprint coin.accepted_envelope_fingerprint (fingerprint p envelope))
            (message "wallet already contains a different coin or transfer")
        ok (false, w)
  accept_or_replay network request envelope status observed_funding minimum_confirmations
        minimum_reaction_blocks w none =
      do
        coin ←
            receive_coin network request envelope status observed_funding minimum_confirmations
              minimum_reaction_blocks w
        ok (true, record w { coin = some coin; incoming = none })

  unfoldable pub accept_transfer :
      NetworkId
      → TransferRequest
      → TransferEnvelope
      → CoinStatus
      → ObservedFunding
      → ℕ
      → ℕ
      → Action WalletState Failure Bool
  unfolding accept_or_replay
  accept_transfer network request envelope status observed_funding minimum_confirmations
        minimum_reaction_blocks w =
      commit w do
        validate_version w
        validate_request p request
        accept_or_replay network request envelope status observed_funding minimum_confirmations
            minimum_reaction_blocks w w.coin
