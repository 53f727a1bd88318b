-- ===== src/Native/Explorer.antt =====
-- wallet/src/services.rs, `Explorer`: a server that nobody trusts, which answers as it likes.
pub mod Deposits
pub mod Broadcast
pub mod Observed
pub mod Deposited
pub mod Exposed
use tinylayer_org.Base.{
  ℕ, Bytes, List, [], ◌∷◌, Bool, true, false, Option, some, none, Result, ok, err, ensure, ok_or,
  not, leb, ltb, ◌==◌, ◌&&◌, ◌||◌, same, bytes_discrete, is_some, if◌then◌else◌, take, get_elem?,
  codes, Action, String,
}
use tinylayer_org.Base.Actions.{◌>>=◌, ◌>>◌, check, return, fail}
use tinylayer_org.Extern.{OutPoint, Transaction, Transaction_discrete, TxOut}
use tinylayer_org.Client.Types.{NetworkId, NetworkId_discrete, mutinynet, CoinMetadata}
use tinylayer_org.Client.Recovery.{verify_funding_utxo}
use tinylayer_org.Wallet.Types.{Failure, message, lift, SourceUtxo, ObservedFunding}
use tinylayer_org.Wallet.Platform.{Platform}
use tinylayer_org.Wallet.Validation.{validate_funding_inputs}
use tinylayer_org.Wallet.Sweep.{sort_sources}
use tinylayer_org.Native.Chain.{
  FundingObservation, TransactionObservation, OutspendObservation, DetailedFundingObservation,
}
use tinylayer_org.Native.Http.{
  Reply, Query, blocks_tip_height, block_at, tx_summary, tx_hex, tx_outspend, address_utxo, Readers,
  ExplorerTx, ExplorerTxStatus, ExplorerAddressUtxo, ExplorerOutspend, optional_text_of, text_of,
  parsed, raw_transaction_of, depth_of, is_success, lists_once, retain_confirmed,
  max_source_utxo_candidates, mutinynet_checkpoint_height,
}

-- The HTTP client with the server behind it. A request that gets no reply is `none`.
pub record Web : Type 1 where
  pub State : Type 0
  pub get : Query → State → Option Reply × State
  pub post_tx : Transaction → State → Option Reply × State
  -- Whether the path begins with `/v1`.
  pub post_package : Bool → Transaction → Transaction → State → Option Reply × State
  pub readers : Readers
  -- The explorer's network, the genesis block of a network, and the built-in checkpoint.
  pub network : NetworkId
  pub genesis_hash : NetworkId → Bytes
  pub checkpoint_hash : Bytes

abbrev pub Online : Web → Type 0 → Type 0
Online W A = Action W.State Failure A

module _ (W : Web) where
  abbrev pub replied : {S : Type 0} → Option Reply × S → Result Failure Reply × S
  replied (none, s) = (err (message "query explorer"), s)
  replied (some reply, s) = (ok reply, s)

  unfoldable pub get_text_optional : Query → Online W (Option Bytes)
  get_text_optional query = do
    reply ← λ s. replied (W.get query s)
    check (optional_text_of W.readers reply)

  unfoldable pub get_text : Query → Online W Bytes
  get_text query = do
    text ← get_text_optional query
    check (ok_or text (message "explorer returned HTTP 404"))

  unfoldable pub get_json : {A : Type 0} → (Bytes → Option A) → Query → Online W A
  get_json read query = do
    text ← get_text query
    check (ok_or (read text) (message "invalid explorer response"))

  unfoldable pub get_json_optional : {A : Type 0} → (Bytes → Option A) → Query → Online W (Option A)
  get_json_optional read query = do
    text ← get_text_optional query
    check (parsed W.readers read text)

  unfoldable pub tip_height : Online W ℕ
  tip_height = do
    text ← get_text blocks_tip_height
    check (
        ok_or (W.readers.read_height (W.readers.trim text))
          (message "explorer returned an invalid chain tip height"))

  unfoldable pub block_hash_at_height : ℕ → Online W Bytes
  block_hash_at_height height = do
    text ← get_text (block_at height)
    check (
        ok_or (W.readers.read_hash (W.readers.trim text))
          (message "explorer returned an invalid block hash"))

  unfoldable pub expect_block : ℕ → Bytes → String → Online W Unit
  expect_block height expected mismatch = do
    observed ← block_hash_at_height height
    check (ensure (same bytes_discrete observed expected) (message mismatch))

  unfoldable pub verify_checkpoint : Bool → Online W Unit
  verify_checkpoint false = return tt
  verify_checkpoint true =
      expect_block mutinynet_checkpoint_height W.checkpoint_hash
        "explorer is Signet but does not match the Mutinynet checkpoint"

  unfoldable pub verify_network : Online W Unit
  verify_network = do
    expect_block 0 (W.genesis_hash W.network) "explorer genesis does not match"
    verify_checkpoint (same NetworkId_discrete W.network mutinynet)

  -- Whether the status says that it is confirmed.
  unfoldable pub confirmations_of : ExplorerTxStatus → ℕ → Bool → Online W ℕ
  confirmations_of status tip false = do
    check (
        ensure (not (is_some status.block_height) && not (is_some status.block_hash))
          (message "unconfirmed explorer transaction has block metadata"))
    return 0
  confirmations_of status tip true = do
    height ←
        check
          (ok_or status.block_height (message "confirmed explorer transaction has no block height"))
    hash ←
        check (ok_or status.block_hash (message "confirmed explorer transaction has no block hash"))
    expect_block height hash "transaction block is not in the current best chain"
    check (depth_of tip height)

  unfoldable pub status_confirmations : ExplorerTxStatus → ℕ → Online W ℕ
  status_confirmations status tip = confirmations_of status tip status.confirmed

  unfoldable pub outspend_of : ExplorerOutspend → Bool → Online W OutspendObservation
  outspend_of outspend false = do
    check (
        ensure (not (is_some outspend.txid))
          (message "unspent explorer output unexpectedly names a spender"))
    return (record { spent = false; spending_txid = none; spending_confirmed = false })
  outspend_of outspend true = do
    txid ← check (ok_or outspend.txid (message "spent explorer output has no spending txid"))
    status ← check (ok_or outspend.status (message "spent explorer output has no spending status"))
    tip ← tip_height
    confirmations ← status_confirmations status tip
    return (record {
      spent = true;
      spending_txid = some txid;
      spending_confirmed = ltb 0 confirmations;
    })

  unfoldable pub outspend : OutPoint → Online W OutspendObservation
  outspend outpoint = do
    found ← get_json W.readers.read_outspend (tx_outspend outpoint)
    outspend_of found found.spent

  module _ (p : Platform) where
    unfoldable pub raw_transaction_optional : Bytes → Online W (Option Transaction)
    raw_transaction_optional txid = do
      text ← get_text_optional (tx_hex txid)
      check (raw_transaction_of W.readers p txid text)

    unfoldable pub observe_summary :
        Bytes → Option ExplorerTx → Online W (Option TransactionObservation)
    observe_summary txid none = return none
    observe_summary txid (some summary) = do
      check (
          ensure (same bytes_discrete summary.txid txid)
            (message "explorer transaction has the wrong txid"))
      raw ← raw_transaction_optional txid
      transaction ←
          check (ok_or raw (message "explorer transaction summary has no raw transaction"))
      tip ← tip_height
      confirmations ← status_confirmations summary.status tip
      return (
          some (record {
            transaction = transaction;
            tip_height = tip;
            confirmations = confirmations;
            raw_bytes_observed = true;
          }))

    unfoldable pub transaction_observation : Bytes → Online W (Option TransactionObservation)
    transaction_observation txid = do
      summary ← get_json_optional W.readers.read_tx (tx_summary txid)
      observe_summary txid summary

    unfoldable pub observe_funding : CoinMetadata → Online W DetailedFundingObservation
    observe_funding metadata = do
      check (
          ensure (same NetworkId_discrete metadata.network W.network)
            (message "funding network does not match explorer"))
      seen ← transaction_observation metadata.outpoint.txid
      observed ← check (ok_or seen (message "funding transaction is missing"))
      output ← check (
          ok_or (get_elem? observed.transaction.output metadata.outpoint.vout)
            (message "funding output index is missing"))
      check (lift (verify_funding_utxo p.bitcoin metadata metadata.outpoint output))
      check (
          ensure
            (not (W.readers.is_coinbase observed.transaction) || leb 100 observed.confirmations)
            (message "coinbase funding output is not mature"))
      spender ← outspend metadata.outpoint
      return (record {
        funding = record {
          outpoint = metadata.outpoint;
          output = output;
          confirmations = observed.confirmations;
          unspent = not spender.spent;
          coinbase = W.readers.is_coinbase observed.transaction;
        };
        tip_height = observed.tip_height;
        spending_txid = spender.spending_txid;
        spending_confirmed = spender.spending_confirmed;
      })

    unfoldable pub verify_funding : CoinMetadata → ℕ → Online W FundingObservation
    verify_funding metadata minimum_confirmations = do
      observed ← observe_funding metadata
      check (ensure observed.funding.unspent (message "funding output is spent"))
      check (
          ensure (leb minimum_confirmations observed.funding.confirmations)
            (message "funding output has too few confirmations"))
      return (record {
        tip_height = observed.tip_height;
        confirmations = observed.funding.confirmations;
      })
