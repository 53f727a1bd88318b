-- ===== src/Native/Explorer/Observed.antt =====
-- wallet/src/services.rs: what the answers of an explorer are checked for.
use tinylayer_org.Base.{
  ℕ, Bytes, ◌≡◌, ◌≤◌, ◌<◌, ◌+◌, ◌^◌, refl, true, Option, some, none, ok, arith, same,
  bytes_discrete, ok_or, ensure,
}
use tinylayer_org.Base.Yields.{
  Yields, bind-Yields, skip-Yields, check_bind-Yields, check_then-Yields, check-Yields,
  return-Yields, origin-Yields,
}
use tinylayer_org.Extern.{Transaction}
use tinylayer_org.Wallet.Types.{message}
use tinylayer_org.Wallet.Platform.{Platform}
use tinylayer_org.Native.Chain.{TransactionObservation}
use tinylayer_org.Native.Http.{
  tx_hex, tx_summary, ExplorerTx, ExplorerTxStatus, raw_transaction_of, depth_of, Readers,
}
use tinylayer_org.Native.Explorer.{
  Web, get_text_optional, get_json_optional, tip_height, expect_block, confirmations_of,
  status_confirmations, raw_transaction_optional, observe_summary, transaction_observation,
}

-- The confirmations of a block below the tip, which fit 32 bits.
pub depth_of-le :
    (tip height : ℕ) {depth : ℕ}
    → depth_of tip height ≡ ok depth
    → (depth + height ≡ tip + 1) × (depth < 2 ^ 32)
unfolding depth_of
depth_of-le tip height h = (ground arith, ground arith)

raw_transaction_of-txid :
    (r : Readers) (p : Platform) (txid : Bytes) (text : Option Bytes) {transaction : Transaction}
    → raw_transaction_of r p txid text ≡ ok (some transaction)
    → p.compute_txid transaction ≡ txid
unfolding raw_transaction_of
raw_transaction_of-txid r p txid text h = ground arith

module _ (W : Web) (p : Platform) where
  -- An observed transaction has the id that was asked for, and no more confirmations than blocks.
  pub record IsObserved (txid : Bytes) (observed : TransactionObservation) : Type 0 where
    pub same_txid : p.compute_txid observed.transaction ≡ txid
    pub raw : observed.raw_bytes_observed ≡ true
    pub deep : observed.confirmations ≤ observed.tip_height + 1

  status_confirmations-le :
      (status : ExplorerTxStatus) (tip : ℕ) (s : W.State) {n : ℕ}
      → (status_confirmations W status tip s).0 ≡ ok n
      → n ≤ tip + 1
  unfolding status_confirmations confirmations_of expect_block depth_of
  status_confirmations-le status tip s h = ground arith

  raw_transaction_optional-txid :
      (txid : Bytes)
      → Yields (raw_transaction_optional W p txid) (λ raw.
        (transaction : Transaction) → raw ≡ some transaction → p.compute_txid transaction ≡ txid)
  unfolding raw_transaction_optional
  raw_transaction_optional-txid txid = skip-Yields (get_text_optional W (tx_hex txid)) (λ text.
      check-Yields (raw_transaction_of W.readers p txid text)
        (λ raw e transaction found. raw_transaction_of-txid W.readers p txid text (ground arith)))

  observe_summary-IsObserved :
      (txid : Bytes) (summary : Option ExplorerTx)
      → Yields (observe_summary W p txid summary) (λ seen.
        (observed : TransactionObservation) → seen ≡ some observed → IsObserved txid observed)
  unfolding observe_summary
  observe_summary-IsObserved txid none = return-Yields none (λ observed e. absurd (ground arith))
  observe_summary-IsObserved txid (some summary) =
      check_then-Yields
        (ensure (same bytes_discrete summary.txid txid)
          (message "explorer transaction has the wrong txid"))
        (λ named. bind-Yields (raw_transaction_optional-txid txid) (λ raw known.
          check_bind-Yields
            (ok_or raw (message "explorer transaction summary has no raw transaction"))
            (λ transaction found. skip-Yields (tip_height W) (λ tip.
              bind-Yields (origin-Yields (status_confirmations W summary.status tip))
                (λ confirmations (s, e).
                  let observation : TransactionObservation = record {
                    transaction = transaction;
                    tip_height = tip;
                    confirmations = confirmations;
                    raw_bytes_observed = true;
                  } in
                  return-Yields (some observation) (λ observed same.
                    let this : observation ≡ observed = ground arith in
                    rw (← this) (record {
                      same_txid = known transaction (ground arith);
                      raw = refl;
                      deep = status_confirmations-le summary.status tip s e;
                    })))))))

  pub transaction_observation-IsObserved :
      (txid : Bytes)
      → Yields (transaction_observation W p txid) (λ seen.
        (observed : TransactionObservation) → seen ≡ some observed → IsObserved txid observed)
  unfolding transaction_observation
  transaction_observation-IsObserved txid =
      skip-Yields (get_json_optional W W.readers.read_tx (tx_summary txid))
        (observe_summary-IsObserved txid)
