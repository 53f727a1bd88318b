-- ===== src/Wallet/Validation.antt =====
-- wallet-core/src/validation.rs.
use tinylayer_org.Base.{
  ℕ, Bytes, Bool, List, [], ◌∷◌, Result, ok, ensure, ok_or, ◌>>=◌, ◌>>◌, not, leb, ltb, ◌==◌, ◌&&◌,
  ◌||◌, ◌+◌, same, bytes_discrete, length, last, get_elem?, checked_add, true, false, if◌then◌else◌,
}
use tinylayer_org.Extern.{Bitcoin, OutPoint_discrete, TxIn, TxOut, Transaction}
use tinylayer_org.Enclave.Types.{CoinStatus}
use tinylayer_org.Enclave.Hashes.{authorization, capability_hash}
use tinylayer_org.Client.Types.{CoinMetadata, SignedRecovery}
use tinylayer_org.Client.Scripts.{funding_script}
use tinylayer_org.Client.Registration.{verify_status}
use tinylayer_org.Client.Recovery.{verify_funding_utxo}
use tinylayer_org.Client.History.{verify_each, verify_windows}
use tinylayer_org.Wallet.Types.{Failure, message, lift, ObservedFunding, RecoveryAttempt}

abbrev is_empty {ℓ} : {A : Type ℓ} → List A → Bool
is_empty [] = true
is_empty (x ∷ xs) = false

unfoldable pub require_reaction_margin : ℕ → ℕ → ℕ → Result Failure Unit
require_reaction_margin funding_confirmations delay_blocks minimum_reaction_blocks = do
  minimum ←
      ok_or (checked_add 32 funding_confirmations minimum_reaction_blocks)
        (message "reaction margin overflow")
  ensure (ltb minimum delay_blocks) (
      message
        "latest recovery delay must be greater than funding confirmations plus reaction margin")

module _ (b : Bitcoin) where
  -- `for input in &transaction.input`
  unfoldable pub validate_each_input : List TxIn → Result Failure Unit
  validate_each_input [] = ok tt
  validate_each_input (input ∷ rest) =
      let later = validate_each_input rest in
      do
        ensure (not (b.is_null input.previous_output))
            (message "funding transaction cannot spend a coinbase input")
        ensure (is_empty input.script_sig && not (is_empty input.witness))
            (message "funding transaction must use only native SegWit or Taproot inputs")
        ensure (not (b.is_rbf input.sequence))
            (message "funding transaction inputs must not signal replace-by-fee")
        later

  unfoldable pub validate_funding_inputs : Transaction → Result Failure Unit
  validate_funding_inputs transaction = do
    ensure (not (is_empty transaction.input)) (message "funding transaction has no inputs")
    ensure (leb (length transaction.input) 100) (message "transaction has more than 100 inputs")
    ensure (leb (b.weight transaction) 400000) (message "transaction exceeds standard weight")
    validate_each_input transaction.input

  -- `.filter(|output| output.script_pubkey == expected_script).count()`
  unfoldable pub count_script : Bytes → List TxOut → ℕ
  count_script script [] = 0
  count_script script (output ∷ rest) =
      (if same bytes_discrete output.script_pubkey script then 1 else 0) + count_script script rest

  unfoldable pub validate_finalized_funding : CoinMetadata → Transaction → Result Failure Unit
  validate_finalized_funding metadata transaction = do
    validate_funding_inputs transaction
    ensure (same bytes_discrete (b.compute_txid transaction) metadata.outpoint.txid)
        (message "prepared funding transaction txid does not match coin metadata")
    ensure (count_script (funding_script b metadata.keys) transaction.output == 1)
        (message "funding transaction must contain exactly one Tinylayer output")
    output ←
        ok_or (get_elem? transaction.output metadata.outpoint.vout)
          (message "prepared funding output index is missing")
    lift (verify_funding_utxo b metadata metadata.outpoint output)

  unfoldable pub verify_observed_funding_output :
      CoinMetadata → ObservedFunding → ℕ → Result Failure Unit
  verify_observed_funding_output metadata observed minimum_confirmations = do
    ensure (same OutPoint_discrete observed.outpoint metadata.outpoint)
        (message "observed funding output has the wrong outpoint")
    lift (verify_funding_utxo b metadata observed.outpoint observed.output)
    ensure (leb minimum_confirmations observed.confirmations)
        (message "funding output has too few confirmations")
    ensure (not observed.coinbase || leb 100 observed.confirmations)
        (message "coinbase funding output is not mature")

  unfoldable pub verify_observed_funding : CoinMetadata → ObservedFunding → ℕ → Result Failure Unit
  verify_observed_funding metadata observed minimum_confirmations = do
    verify_observed_funding_output metadata observed minimum_confirmations
    ensure observed.unspent (message "Tinylayer funding output is spent")

  unfoldable pub verify_public_history :
      CoinMetadata → CoinStatus → List SignedRecovery → ℕ → ℕ → Result Failure Unit
  verify_public_history metadata status history funding_confirmations minimum_reaction_blocks = do
    lift (verify_status metadata.keys status)
    ensure (status.signature_count == length history)
        (message "recovery history does not match enclave signature count")
    latest ← ok_or (last history) (message "coin has no signed recovery")
    lift (verify_each b metadata history)
    lift (verify_windows funding_confirmations history)
    require_reaction_margin funding_confirmations latest.delay_blocks minimum_reaction_blocks

  unfoldable pub attempt_uncommitted : CoinStatus → RecoveryAttempt → Bool
  attempt_uncommitted status attempt =
      status.signature_count == attempt.expected_signature_count
      && same bytes_discrete status.authorization (
          authorization b.crypto attempt.request.coin_id
            (capability_hash b.crypto attempt.request.current_capability)
            attempt.request.current_handoff)

unfoldable pub attempt_committed : CoinStatus → RecoveryAttempt → Result Failure Bool
attempt_committed status attempt = do
  completed_count ←
      ok_or (checked_add 64 attempt.expected_signature_count 1) (message "signature count overflow")
  ok (status.signature_count == completed_count)
