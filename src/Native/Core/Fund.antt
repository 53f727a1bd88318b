-- ===== src/Native/Core/Fund.antt =====
-- wallet/src/services.rs, `Core`: making, checking and broadcasting transactions.
use tinylayer_org.Base.{
  ℕ, Bytes, List, [], ◌∷◌, map, Bool, true, false, Option, some, none, Result, ok, err, ensure,
  ok_or, leb, ltb, ◌+◌, ◌==◌, ◌^◌, ◌&&◌, same, bytes_discrete, is_some, codes, String,
  if◌then◌else◌,
}
use tinylayer_org.Base.Actions.{◌>>=◌, ◌>>◌, check, return, fail}
use tinylayer_org.Extern.{Transaction, Transaction_discrete, TxOut}
use tinylayer_org.Client.Types.{CoinKeys, CoinMetadata}
use tinylayer_org.Client.Scripts.{funding_script}
use tinylayer_org.Wallet.Types.{Failure, message}
use tinylayer_org.Wallet.Platform.{Platform}
use tinylayer_org.Wallet.Validation.{validate_funding_inputs, validate_finalized_funding}
use tinylayer_org.Native.Chain.{TransactionObservation, PreparedFunding}
use tinylayer_org.Native.Core.{
  Node, Called, FinalizedPsbt, Answer, WalletTransaction, answered, failed, call, call_optional,
  decoded, is_nonnegative, is_empty_list, is_zero, transaction_observation,
}
use tinylayer_org.Native.Core.Observe.{first_of, is_alone}

pub data FundingTransactionState : Type 0 where
  unknown evicted known : FundingTransactionState

-- The outputs to the script, with their places.
unfoldable pub matching_from : Bytes → ℕ → List TxOut → List (ℕ × TxOut)
matching_from script vout [] = []
matching_from script vout (output ∷ rest) =
    let later = matching_from script (vout + 1) rest in
    if same bytes_discrete output.script_pubkey script then (vout, output) ∷ later else later

unfoldable pub only_match : List (ℕ × TxOut) → Result Failure (ℕ × TxOut)
only_match (one ∷ []) = ok one
only_match [] = err (message "funding transaction must contain exactly one Tinylayer output")
only_match (one ∷ two ∷ rest) =
    err (message "funding transaction must contain exactly one Tinylayer output")

-- The fee that is expected, if one is.
abbrev pub has_fee : Option ℕ → Option ℕ → Bool
has_fee none base_fee = true
has_fee (some fee) none = false
has_fee (some fee) (some base_fee) = base_fee == fee

-- `message == "success"`
abbrev pub says_success : Option Bytes → Bool
says_success none = false
says_success (some text) = same bytes_discrete text (codes "success")

module _ (C : Node) where
  -- The answer itself, errors included.
  abbrev pub attempt : {A : Type 0} → (C.State → Answer A × C.State) → Called C (Answer A)
  attempt rpc_call s = let (answer, t) = rpc_call s in (ok answer, t)

  unfoldable pub verify_wallet : Called C Unit
  verify_wallet = do
    info ← call "query Bitcoin Core funding wallet" C.get_wallet_info
    check (
        ensure (same bytes_discrete info.wallet_name C.wallet_name)
          (message "Bitcoin Core opened another wallet than expected"))
    check (
        ensure info.private_keys_enabled
          (message "Bitcoin Core funding wallet has private keys disabled"))

  unfoldable pub ensure_inputs_locked : Transaction → Called C Unit
  ensure_inputs_locked transaction = do
    locked ←
        call "persistently lock funding transaction inputs"
          (C.lock_unspent (map (λ input. input.previous_output) transaction.input))
    check (ensure locked (message "Bitcoin Core did not lock every funding input"))

  unfoldable pub submit_package : Transaction → Transaction → Called C Unit
  submit_package parent child = do
    result ← call "submit recovery package" (C.submit_package parent child)
    check (ensure (says_success result) (message "recovery package was not accepted"))

  module _ (p : Platform) where
    -- Whether the transaction was seen, with exactly these bytes.
    unfoldable pub is_exact : Transaction → Option TransactionObservation → Called C Bool
    is_exact expected none = return false
    is_exact expected (some observed) = do
      check (
          ensure (same Transaction_discrete observed.transaction expected)
            (message "Bitcoin Core transaction bytes do not match the saved transaction"))
      return true

    unfoldable pub observe_exact : Transaction → Called C Bool
    observe_exact transaction = do
      seen ← transaction_observation C p (p.compute_txid transaction)
      is_exact transaction seen

    unfoldable pub exact_or_fail : Transaction → String → Called C Bytes
    exact_or_fail transaction refusal = do
      exact ← observe_exact transaction
      check (ensure exact (message refusal))
      return (p.compute_txid transaction)

    unfoldable pub after_send : Transaction → Answer Bytes → Called C Bytes
    after_send transaction (failed error) = exact_or_fail transaction "broadcast exact transaction"
    after_send transaction (answered txid) = do
      check (
          ensure (same bytes_discrete txid (p.compute_txid transaction))
            (message "Bitcoin Core returned the wrong txid"))
      exact_or_fail transaction "Bitcoin Core accepted the transaction but it is not observable"

    unfoldable pub send_unless_known : Transaction → Bool → Called C Bytes
    send_unless_known transaction true = return (p.compute_txid transaction)
    send_unless_known transaction false = do
      answer ← attempt (C.send_raw_transaction transaction)
      after_send transaction answer

    unfoldable pub broadcast_exact : Transaction → Called C Bytes
    broadcast_exact transaction = do
      check (validate_funding_inputs p.bitcoin transaction)
      exact ← observe_exact transaction
      send_unless_known transaction exact

    unfoldable pub test_prepared_funding : Transaction → Option ℕ → Called C Unit
    test_prepared_funding transaction expected_fee = do
      results ← call "test unbroadcast funding transaction" (C.test_mempool_accept transaction)
      result ←
          check
            (ok_or (first_of results) (message "Bitcoin Core returned no funding mempool result"))
      check (
          ensure (is_alone results && same bytes_discrete result.txid (p.compute_txid transaction))
            (message "Bitcoin Core returned a mismatched funding mempool result"))
      check (ensure result.allowed (message "funding transaction is not mempool-acceptable"))
      check (
          ensure (has_fee expected_fee result.base_fee)
            (message "Bitcoin Core funding fee changed during finalization"))

    -- From the answer to `finalizepsbt` on.
    unfoldable pub check_signed : CoinKeys → ℕ → ℕ → FinalizedPsbt → Called C PreparedFunding
    check_signed keys amount_sat fee finalized = do
      check (
          ensure finalized.complete
            (message "Bitcoin Core did not completely finalize the funding PSBT"))
      bytes ← check (ok_or finalized.hex (message "finalized funding PSBT has no transaction"))
      transaction ← check (
          ok_or (C.deserialize bytes)
            (message "Bitcoin Core returned an invalid funding transaction"))
      check (validate_funding_inputs p.bitcoin transaction)
      found ←
          check (only_match (matching_from (funding_script p.bitcoin keys) 0 transaction.output))
      check (
          ensure (found.1.value == amount_sat)
            (message "funding transaction changed the Tinylayer output amount"))
      check (ensure (ltb found.0 (2 ^ 32)) (message "funding output index exceeds u32"))
      test_prepared_funding transaction (some fee)
      return (record {
        transaction = transaction;
        outpoint = record { txid = p.compute_txid transaction; vout = found.0 };
        fee_sat = fee;
      })

    unfoldable pub prepare_funding : CoinKeys → ℕ → ℕ → ℕ → Called C PreparedFunding
    prepare_funding keys amount_sat fee_rate_sat_vb max_fee_sat = do
      verify_wallet
      check (ensure (ltb 0 fee_rate_sat_vb) (message "funding fee rate must be positive"))
      check (
          ensure (leb amount_sat p.bitcoin.max_money)
            (message "funding amount exceeds Bitcoin MAX_MONEY"))
      let script = funding_script p.bitcoin keys
      funded ← call "create unbroadcast funding PSBT" (
          C.wallet_create_funded_psbt (record { value = amount_sat; script_pubkey = script })
            fee_rate_sat_vb)
      check (ensure (leb funded.fee max_fee_sat) (message "funding fee exceeds maximum"))
      processed ←
          call "sign funding PSBT with Bitcoin Core wallet" (C.wallet_process_psbt funded.psbt)
      check (
          ensure processed.complete
            (message "Bitcoin Core did not completely sign the funding PSBT"))
      finalized ← call "finalize funding PSBT" (C.finalize_psbt processed.psbt)
      check_signed keys amount_sat funded.fee finalized

    unfoldable pub validate_prepared_funding : CoinMetadata → Transaction → Called C Unit
    validate_prepared_funding metadata transaction = do
      verify_wallet
      check (validate_finalized_funding p.bitcoin metadata transaction)
      ensure_inputs_locked transaction
      test_prepared_funding transaction none

    unfoldable pub pooled_state : Transaction → Bool → Called C FundingTransactionState
    pooled_state transaction false = return known
    pooled_state transaction true = do
      entry ←
          call_optional "query Bitcoin Core funding mempool entry"
            (C.get_mempool_entry (p.compute_txid transaction))
      return (if is_some entry then known else evicted)

    unfoldable pub funding_state_of :
        Transaction → Option WalletTransaction → Called C FundingTransactionState
    funding_state_of transaction none = return unknown
    funding_state_of transaction (some result) = do
      check (
          ensure (same bytes_discrete result.txid (p.compute_txid transaction))
            (message "Bitcoin Core returned a mismatched funding transaction"))
      observed ← check (
          decoded C p "Bitcoin Core returned invalid funding hex"
            "Bitcoin Core returned an invalid funding transaction" result.hex)
      check (
          ensure (same Transaction_discrete observed transaction)
            (message "Bitcoin Core funding transaction bytes do not match the journal"))
      check (
          ensure (is_nonnegative result.confirmations && is_empty_list result.walletconflicts)
            (message "funding transaction is conflicted"))
      pooled_state transaction (is_zero result.confirmations)

    unfoldable pub funding_transaction_state : Transaction → Called C FundingTransactionState
    funding_transaction_state transaction = do
      result ←
          call_optional "query Bitcoin Core funding transaction"
            (C.get_transaction (p.compute_txid transaction))
      funding_state_of transaction result

    unfoldable pub known_or_error : Transaction → FundingTransactionState → Called C Bytes
    known_or_error transaction known = return (p.compute_txid transaction)
    known_or_error transaction unknown = fail (message "broadcast funding transaction")
    known_or_error transaction evicted = fail (message "broadcast funding transaction")

    unfoldable pub after_funding_send : Transaction → Answer Bytes → Called C Bytes
    after_funding_send transaction (answered txid) = do
      check (
          ensure (same bytes_discrete txid (p.compute_txid transaction))
            (message "Bitcoin Core returned the wrong funding txid"))
      return txid
    after_funding_send transaction (failed error) = do
      state ← funding_transaction_state transaction
      known_or_error transaction state

    unfoldable pub send_funding : Transaction → Called C Bytes
    send_funding transaction = do
      test_prepared_funding transaction none
      answer ← attempt (C.send_raw_transaction transaction)
      after_funding_send transaction answer

    unfoldable pub broadcast_by_state : Transaction → FundingTransactionState → Called C Bytes
    broadcast_by_state transaction known = return (p.compute_txid transaction)
    broadcast_by_state transaction evicted = send_funding transaction
    broadcast_by_state transaction unknown = do
      ensure_inputs_locked transaction
      send_funding transaction

    unfoldable pub broadcast_funding : CoinMetadata → Transaction → Called C Bytes
    broadcast_funding metadata transaction = do
      verify_wallet
      check (validate_finalized_funding p.bitcoin metadata transaction)
      state ← funding_transaction_state transaction
      broadcast_by_state transaction state
