-- ===== src/Wallet/Register.antt =====
-- wallet-core/src/state.rs: the checks of a saved wallet, and registration.
use tinylayer_org.Base.{
  Bytes, Bool, true, false, List, [], ◌∷◌, Result, ok, err, ensure, ◌>>=◌, ◌>>◌, not, ◌==◌, same,
  bytes_discrete, length, Option, none, some, is_some, Action, commit, String, if◌then◌else◌,
}
use tinylayer_org.Enclave.Types.{CoinId, CoinStatus, RegisterRequest, Capability}
use tinylayer_org.Enclave.Hashes.{authorization, capability_hash, initial_handoff}
use tinylayer_org.Client.Types.{Registration}
use tinylayer_org.Client.Registration.{prepare_registration, complete_registration, verify_status}
use tinylayer_org.Wallet.Types.{
  Failure, message, lift, WalletState, WalletCoin, PendingOperation, FundingStage, FundingJournal,
  registration, recovery, file_format_version,
}
use tinylayer_org.Wallet.Platform.{Platform}

abbrev both_or_neither : Bool → Bool → Bool
both_or_neither true b = b
both_or_neither false b = not b

validate_coin : Option WalletCoin → Result Failure Unit
validate_coin none = ok tt
validate_coin (some coin) =
    ensure
      (both_or_neither (is_some coin.accepted_request) (is_some coin.accepted_envelope_fingerprint))
      (message "accepted transfer replay binding is incomplete")

unfoldable pub validate_version : WalletState → Result Failure Unit
unfolding validate_coin
validate_version w = do
  ensure (w.format_version == file_format_version) (message "unsupported wallet format version")
  validate_coin w.coin

module _ (p : Platform) where
  -- The three random values are the client secret, the capability and the coin id.
  new_registration : Bytes → Capability → CoinId → WalletState → RegisterRequest × WalletState
  new_registration client_secret initial_capability coin_id w =
      let r =
        prepare_registration p.bitcoin coin_id client_secret
          (capability_hash p.crypto initial_capability) in
      (r.request, record w { pending = some (registration client_secret initial_capability r) })

  resume_registration :
      Bytes
      → Capability
      → CoinId
      → WalletState
      → Option PendingOperation
      → Result Failure (RegisterRequest × WalletState)
  resume_registration client_secret initial_capability coin_id w none =
      ok (new_registration client_secret initial_capability coin_id w)
  resume_registration client_secret initial_capability coin_id w (some (registration s c r)) =
      ok (r.request, w)
  resume_registration client_secret initial_capability coin_id w (some (recovery r)) =
      err (message "wallet has a pending signing operation")

  unfoldable pub begin_registration :
      Bytes → Capability → CoinId → Action WalletState Failure RegisterRequest
  unfolding resume_registration new_registration
  begin_registration client_secret initial_capability coin_id w = commit w do
    validate_version w
    ensure (not (is_some w.coin)) (message "wallet already contains a coin")
    ensure (not (is_some w.incoming)) (message "wallet has a pending transfer request")
    resume_registration client_secret initial_capability coin_id w w.pending

pending_registration : Option PendingOperation → Result Failure (Bytes × Capability × Registration)
pending_registration none = err (message "wallet has no pending registration")
pending_registration (some (registration s c r)) = ok (s, c, r)
pending_registration (some (recovery r)) = err (message "wallet has a pending signing operation")

module _ (p : Platform) where
  unfoldable pub complete_registration_of : CoinStatus → Action WalletState Failure Unit
  unfolding pending_registration
  complete_registration_of status w = commit w do
    validate_version w
    ensure (not (is_some w.coin)) (message "wallet already contains a coin")
    (client_secret, initial_capability, r) ← pending_registration w.pending
    keys ← lift (complete_registration p.bitcoin r status)
    ok (
      tt,
      record w {
        coin = some (record {
          client_secret = client_secret;
          keys = keys;
          metadata = none;
          funding = none;
          current_capability = some initial_capability;
          current_handoff = some initial_handoff;
          withdrawal_secret = none;
          withdrawal_recovery_index = none;
          accepted_request = none;
          accepted_envelope_fingerprint = none;
          history = [];
          outgoing = none;
        });
        pending = none;
      },
    )

  matches_authorization : WalletCoin → CoinStatus → Option Bytes → Option Bytes → Bool
  matches_authorization coin status (some capability) (some handoff) =
      same bytes_discrete status.authorization
        (authorization p.crypto coin.keys.coin_id (capability_hash p.crypto capability) handoff)
  matches_authorization coin status _ _ = true

  unfoldable pub verify_live_status : WalletCoin → CoinStatus → Result Failure Unit
  unfolding matches_authorization
  verify_live_status coin status = do
    lift (verify_status coin.keys status)
    ensure (status.signature_count == length coin.history)
        (message "wallet history does not match enclave")
    ensure (matches_authorization coin status coin.current_capability coin.current_handoff)
        (message "wallet authorization does not match enclave")

stage_name : FundingStage → String
stage_name FundingStage.prepared = "funding_prepared"
stage_name FundingStage.recovery_secured = "recovery_secured"
stage_name FundingStage.broadcast = "funding_broadcast"

lifecycle_of : Option FundingJournal → Bool → String
unfolding stage_name
lifecycle_of (some funding) owned = stage_name funding.stage
lifecycle_of none true = "owned"
lifecycle_of none false = "registered"

abbrev pub is_nonempty {ℓ} : {A : Type ℓ} → List A → Bool
is_nonempty [] = false
is_nonempty (x ∷ xs) = true

unfoldable pub lifecycle : WalletCoin → String
unfolding lifecycle_of
lifecycle coin =
    if is_some coin.current_capability
    then lifecycle_of coin.funding (is_nonempty coin.history)
    else "transferred"
