-- ===== src/Wallet/Source.antt =====
-- wallet-core/src/funding.rs: the funding transaction from one deposit of the wallet.
use tinylayer_org.Base.{
  ℕ, Bytes, List, [], ◌∷◌, Result, ok, ensure, ok_or, ◌>>=◌, ◌>>◌, not, leb, ltb, ◌*◌, same,
  bytes_discrete, checked_sub, Option, some, none, replicate,
}
use tinylayer_org.Extern.{OutPoint, Transaction}
use tinylayer_org.Client.Types.{NetworkId, CoinKeys}
use tinylayer_org.Client.Scripts.{funding_script}
use tinylayer_org.Client.Exit.{to_u64}
use tinylayer_org.Wallet.Types.{Failure, message, SourceUtxo, PreparedSourceFunding}
use tinylayer_org.Wallet.Platform.{Platform}
use tinylayer_org.Wallet.Validation.{validate_funding_inputs}

-- `checked_sub(amount).and_then(|value| value.checked_sub(fee))`
abbrev pub change_of : ℕ → ℕ → ℕ → Option ℕ
change_of value amount fee = elim (checked_sub value amount) [
  | none ↦ none
  | some rest ↦ checked_sub rest fee
]

-- `u128::from(rate).checked_mul(vsize).and_then(u64::try_from)`: the product of two 64-bit numbers
-- fits 128 bits.
abbrev pub fee_of : ℕ → ℕ → Option ℕ
fee_of rate vsize = to_u64 (rate * vsize)

module _ (p : Platform) where
  -- The script of `source_funding_address`.
  unfoldable pub source_funding_script : Bytes → NetworkId → Bytes
  source_funding_script secret network = p.p2tr_address_script (p.x_only_public_key secret) network

  -- One input, the coin's output, and the change.
  unfoldable pub funding_transaction_of :
      OutPoint → List Bytes → ℕ → Bytes → ℕ → Bytes → Transaction
  funding_transaction_of source witness amount_sat statechain_script change change_script = record {
    version = 2;
    lock_time = 0;
    input =
        record {
          previous_output = source;
          script_sig = [];
          sequence = p.sequence_max;
          witness = witness;
        }
        ∷ [];
    output =
        record { value = amount_sat; script_pubkey = statechain_script }
        ∷ record { value = change; script_pubkey = change_script }
        ∷ [];
  }

  unfoldable pub build_source_funding :
      CoinKeys → NetworkId → Bytes → SourceUtxo → ℕ → ℕ → ℕ → Result Failure PreparedSourceFunding
  build_source_funding keys network source_secret source amount_sat fee_rate_sat_vb max_fee_sat = do
    ensure (ltb 0 source.confirmations) (message "funding input is not confirmed")
    ensure (not source.coinbase) (message "coinbase funding inputs are not supported")
    ensure (not (p.is_null source.outpoint))
        (message "funding transaction cannot spend a coinbase input")
    ensure (ltb 0 fee_rate_sat_vb) (message "funding fee rate must be positive")
    ensure (leb amount_sat p.max_money) (message "funding amount exceeds Bitcoin MAX_MONEY")
    let change_script = source_funding_script source_secret network
    ensure (same bytes_discrete source.output.script_pubkey change_script)
        (message "funding input does not belong to the local deposit key")
    let statechain_script = funding_script p.bitcoin keys
    ensure (leb (p.minimal_non_dust statechain_script) amount_sat)
        (message "Tinylayer funding output would be dust")
    let placeholder = replicate 64 0
    let draft =
        funding_transaction_of source.outpoint (placeholder ∷ []) amount_sat statechain_script 0
          change_script
    fee_sat ← ok_or (fee_of fee_rate_sat_vb (p.vsize draft)) (message "funding fee overflow")
    ensure (leb fee_sat max_fee_sat) (message "funding fee exceeds maximum")
    change ←
        ok_or (change_of source.output.value amount_sat fee_sat)
          (message "funding input cannot cover amount and fee")
    ensure (leb (p.minimal_non_dust change_script) change)
        (message "funding input does not leave dust-safe change")
    let unsigned =
        funding_transaction_of source.outpoint (placeholder ∷ []) amount_sat statechain_script
          change change_script
    sighash ←
        ok_or (p.key_spend_sighash unsigned 0 (source.output ∷ []))
          (message "compute funding transaction sighash")
    let tweaked = p.tap_tweak source_secret
    let signature = p.sign_schnorr tweaked sighash
    ensure (p.verify_schnorr signature sighash (p.x_only_public_key tweaked))
        (message "verify funding transaction signature")
    let transaction =
        funding_transaction_of source.outpoint (signature ∷ []) amount_sat statechain_script change
          change_script
    validate_funding_inputs p.bitcoin transaction
    ok (record {
      transaction = transaction;
      outpoint = record { txid = p.compute_txid transaction; vout = 0 };
      fee_sat = fee_sat;
    })
