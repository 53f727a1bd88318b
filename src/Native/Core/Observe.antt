-- ===== src/Native/Core/Observe.antt =====
-- wallet/src/services.rs, `Core`: what is observed of transactions, outputs and their spending.
use tinylayer_org.Base.{
  ℕ, Bytes, List, [], ◌∷◌, Bool, true, false, Option, some, none, ensure, ok_or, not, leb, ltb, ◌+◌,
  ◌==◌, ◌^◌, ◌&&◌, ◌||◌, same, bytes_discrete, is_some, get_elem?,
}
use tinylayer_org.Base.Actions.{◌>>=◌, ◌>>◌, check, return}
use tinylayer_org.Extern.{OutPoint, Transaction, Transaction_discrete, TxOut, TxOut_discrete}
use tinylayer_org.Client.Types.{NetworkId_discrete, CoinMetadata}
use tinylayer_org.Client.Recovery.{verify_funding_utxo}
use tinylayer_org.Wallet.Types.{message, lift}
use tinylayer_org.Wallet.Platform.{Platform}
use tinylayer_org.Native.Chain.{
  FundingObservation, TransactionObservation, OutspendObservation, DetailedFundingObservation,
}
use tinylayer_org.Native.Core.{
  Node, Called, ChainInfo, TxOutResult, call, chain_info, height_of, transaction_observation,
}

-- The only entry of a list.
abbrev pub first_of : {A : Type 0} → List A → Option A
first_of [] = none
first_of (x ∷ rest) = some x

abbrev pub is_alone : {A : Type 0} → List A → Bool
is_alone [] = false
is_alone (x ∷ []) = true
is_alone (x ∷ y ∷ rest) = false

module _ (C : Node) where
  abbrev pub refreshed : ChainInfo → Bool → Called C ChainInfo
  refreshed chain true = return chain
  refreshed chain false = chain_info C

  -- The block is to be the best one, which is asked for once more if it is not.
  unfoldable pub best_chain : Bytes → ChainInfo → Called C ChainInfo
  best_chain bestblock chain = refreshed chain (same bytes_discrete bestblock chain.best_block_hash)

  unfoldable pub authorized_output :
      Transaction → TxOut → TxOutResult → ChainInfo → Called C (Option TransactionObservation)
  authorized_output transaction expected result before = do
    check (
        ensure (ltb 0 result.confirmations)
          (message "Bitcoin Core hid an unconfirmed authorized transaction's raw bytes"))
    chain ← best_chain result.bestblock before
    check (
        ensure (same bytes_discrete result.bestblock chain.best_block_hash) (
          message
            "Bitcoin Core authorized transaction observation is not from the current best block"))
    script ←
        check (
          ok_or result.script
            (message "Bitcoin Core returned an invalid transaction output script"))
    check (
        ensure
          (same TxOut_discrete (record { value = result.value; script_pubkey = script }) expected)
          (message "Bitcoin Core transaction output does not match the authorized transaction"))
    tip ← check (height_of chain)
    return (
        some (record {
          transaction = transaction;
          tip_height = tip;
          confirmations = result.confirmations;
          raw_bytes_observed = false;
        }))

  -- One turn of the loop: an output that is not there is passed over.
  abbrev pub authorized_or :
      Transaction
      → TxOut
      → ChainInfo
      → Called C (Option TransactionObservation)
      → Option TxOutResult
      → Called C (Option TransactionObservation)
  authorized_or transaction expected chain later none = later
  authorized_or transaction expected chain later (some result) =
      authorized_output transaction expected result chain

  unfoldable pub authorized_outputs :
      Transaction → Bytes → ChainInfo → ℕ → List TxOut → Called C (Option TransactionObservation)
  authorized_outputs transaction txid chain vout [] = return none
  authorized_outputs transaction txid chain vout (expected ∷ rest) =
      let later = authorized_outputs transaction txid chain (vout + 1) rest in
      do
        check (ensure (ltb vout (2 ^ 32)) (message "transaction output index exceeds u32"))
        result ←
            call "query Bitcoin Core authorized transaction output"
              (C.get_tx_out (record { txid = txid; vout = vout }))
        authorized_or transaction expected chain later result

  module _ (p : Platform) where
    unfoldable pub authorized_observation :
        Transaction → Option TransactionObservation → Called C (Option TransactionObservation)
    authorized_observation transaction (some observed) = do
      check (
          ensure (same Transaction_discrete observed.transaction transaction)
            (message "Bitcoin Core transaction bytes do not match the authorized transaction"))
      return (some observed)
    authorized_observation transaction none = do
      chain ← chain_info C
      authorized_outputs transaction (p.compute_txid transaction) chain 0 transaction.output

    unfoldable pub observe_authorized_transaction :
        Transaction → Called C (Option TransactionObservation)
    observe_authorized_transaction transaction = do
      observed ← transaction_observation C p (p.compute_txid transaction)
      authorized_observation transaction observed

    abbrev pub is_confirmed : Option TransactionObservation → Bool
    is_confirmed none = false
    is_confirmed (some observed) = ltb 0 observed.confirmations

    -- The spender, whether it is confirmed, and whether the output is gone.
    unfoldable pub outspend_by : OutPoint → Option Bytes → Called C OutspendObservation
    outspend_by outpoint (some txid) = do
      observed ← transaction_observation C p txid
      return (record {
        spent = true;
        spending_txid = some txid;
        spending_confirmed = is_confirmed observed;
      })
    outspend_by outpoint none = do
      output ← call "query Bitcoin Core output" (C.get_tx_out outpoint)
      return (record {
        spent = not (is_some output);
        spending_txid = none;
        spending_confirmed = not (is_some output);
      })

    unfoldable pub outspend : OutPoint → Called C OutspendObservation
    outspend outpoint = do
      results ← call "query Bitcoin Core outspend" (C.get_tx_spending_prevout outpoint)
      result ← check (ok_or (first_of results) (message "Bitcoin Core returned no outspend result"))
      check (
          ensure
            (is_alone results
              && (same bytes_discrete result.txid outpoint.txid && result.vout == outpoint.vout))
            (message "Bitcoin Core returned a mismatched outspend result"))
      outspend_by outpoint result.spending_txid

    unfoldable pub unspent_funding :
        CoinMetadata → TxOutResult → Called C DetailedFundingObservation
    unspent_funding metadata result = do
      before ← chain_info C
      chain ← best_chain result.bestblock before
      check (
          ensure (same bytes_discrete result.bestblock chain.best_block_hash)
            (message "Bitcoin Core funding observation is not from the current best block"))
      script ←
          check (ok_or result.script (message "Bitcoin Core returned an invalid funding script"))
      let output : TxOut = record { value = result.value; script_pubkey = script }
      check (lift (verify_funding_utxo p.bitcoin metadata metadata.outpoint output))
      check (
          ensure (not result.coinbase || leb 100 result.confirmations)
            (message "coinbase funding output is not mature"))
      tip ← check (height_of chain)
      return (record {
        funding = record {
          outpoint = metadata.outpoint;
          output = output;
          confirmations = result.confirmations;
          unspent = true;
          coinbase = result.coinbase;
        };
        tip_height = tip;
        spending_txid = none;
        spending_confirmed = false;
      })

    unfoldable pub spent_funding : CoinMetadata → Called C DetailedFundingObservation
    spent_funding metadata = do
      seen ← transaction_observation C p metadata.outpoint.txid
      observed ←
          check (ok_or seen (message "spent funding transaction is unavailable from Bitcoin Core"))
      output ← check (
          ok_or (get_elem? observed.transaction.output metadata.outpoint.vout)
            (message "funding output index is missing"))
      check (lift (verify_funding_utxo p.bitcoin metadata metadata.outpoint output))
      check (
          ensure (not (C.is_coinbase observed.transaction) || leb 100 observed.confirmations)
            (message "coinbase funding output is not mature"))
      spender ← outspend metadata.outpoint
      return (record {
        funding = record {
          outpoint = metadata.outpoint;
          output = output;
          confirmations = observed.confirmations;
          unspent = false;
          coinbase = C.is_coinbase observed.transaction;
        };
        tip_height = observed.tip_height;
        spending_txid = spender.spending_txid;
        spending_confirmed = spender.spending_confirmed;
      })

    unfoldable pub funding_of :
        CoinMetadata → Option TxOutResult → Called C DetailedFundingObservation
    funding_of metadata (some result) = unspent_funding metadata result
    funding_of metadata none = spent_funding metadata

    unfoldable pub observe_funding : CoinMetadata → Called C DetailedFundingObservation
    observe_funding metadata = do
      check (
          ensure (same NetworkId_discrete metadata.network C.network)
            (message "funding network does not match Bitcoin Core"))
      result ← call "query Bitcoin Core funding UTXO" (C.get_tx_out metadata.outpoint)
      funding_of metadata result

    unfoldable pub verify_funding : CoinMetadata → ℕ → Called C FundingObservation
    verify_funding metadata minimum_confirmations = do
      before ← chain_info C
      seen ← call "query funding UTXO" (C.get_tx_out metadata.outpoint)
      result ← check (ok_or seen (message "funding output is spent or missing"))
      chain ← best_chain result.bestblock before
      check (
          ensure (same bytes_discrete result.bestblock chain.best_block_hash)
            (message "Bitcoin Core funding observation is not from the current best block"))
      check (
          ensure (leb minimum_confirmations result.confirmations)
            (message "funding output has too few confirmations"))
      check (
          ensure (not result.coinbase || leb 100 result.confirmations)
            (message "coinbase funding output is not mature"))
      script ←
          check (ok_or result.script (message "Bitcoin Core returned an invalid funding script"))
      check (
          lift (
            verify_funding_utxo p.bitcoin metadata metadata.outpoint
              (record { value = result.value; script_pubkey = script })))
      tip ← check (height_of chain)
      return (record { tip_height = tip; confirmations = result.confirmations })
