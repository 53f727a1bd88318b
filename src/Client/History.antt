-- ===== src/Client/History.antt =====
-- client/src/lib.rs: `verify_history`, the receiver's check of the whole chain of recoveries.
use tinylayer_org.Base.{
  ℕ, Bytes, List, [], ◌∷◌, Result, ok, ensure, ◌>>◌, not, leb, ◌==◌, ◌&&◌, same, bytes_discrete,
  length, last, Option, none, some, Bool, false,
}
use tinylayer_org.Extern.{Bitcoin}
use tinylayer_org.Enclave.Types.{Capability, HandoffToken, CoinStatus}
use tinylayer_org.Enclave.Hashes.{authorization, capability_hash}
use tinylayer_org.Client.Types.{
  CoinMetadata, SignedRecovery, Error, wrong_client_key, history_mismatch, unsafe_delay,
}
use tinylayer_org.Client.Scripts.{client_xonly, validate_reaction_window}
use tinylayer_org.Client.Registration.{verify_status}
use tinylayer_org.Client.Recovery.{verify_recovery}

-- `history.last().map(|r| r.withdrawal_xonly_pubkey) == Some(expected)`
unfoldable pub pays : Option SignedRecovery → Bytes → Bool
unfolding bytes_discrete
pays none expected = false
pays (some recovery) expected = same bytes_discrete recovery.withdrawal_xonly_pubkey expected

-- `!history.last().is_none_or(|latest| latest.delay_blocks <= funding_confirmations)`
unfoldable pub is_ahead : Option SignedRecovery → ℕ → Bool
is_ahead none funding_confirmations = false
is_ahead (some latest) funding_confirmations = not (leb latest.delay_blocks funding_confirmations)

-- `for pair in history.windows(2)`
unfoldable pub verify_windows : ℕ → List SignedRecovery → Result Error Unit
verify_windows funding_confirmations [] = ok tt
verify_windows funding_confirmations (recovery ∷ []) = ok tt
verify_windows funding_confirmations (older ∷ newer ∷ rest) =
    let later = verify_windows funding_confirmations (newer ∷ rest) in
    do validate_reaction_window funding_confirmations older.delay_blocks newer.delay_blocks; later

module _ (b : Bitcoin) where
  -- `for recovery in history`
  unfoldable pub verify_each : CoinMetadata → List SignedRecovery → Result Error Unit
  verify_each metadata [] = ok tt
  verify_each metadata (recovery ∷ rest) =
      let later = verify_each metadata rest in do verify_recovery b metadata recovery; later

  unfoldable pub verify_history :
      CoinMetadata
      → CoinStatus
      → Bytes
      → Capability
      → HandoffToken
      → Bytes
      → ℕ
      → List SignedRecovery
      → Result Error Unit
  verify_history metadata status client_secret current_capability current_handoff
        expected_latest_withdrawal funding_confirmations history =
      do
        verify_status metadata.keys status
        ensure (same bytes_discrete (client_xonly b client_secret) metadata.keys.client_pubkey)
            wrong_client_key
        let current_capability_hash = capability_hash b.crypto current_capability
        ensure
            (same bytes_discrete status.authorization (
                authorization b.crypto metadata.keys.coin_id current_capability_hash
                  current_handoff)
              && status.signature_count == length history
              && pays (last history) expected_latest_withdrawal)
            history_mismatch
        verify_each metadata history
        verify_windows funding_confirmations history
        ensure (is_ahead (last history) funding_confirmations) unsafe_delay
