-- ===== src/Wallet/Sweep.antt =====
-- wallet-core/src/funding.rs: the sweep of the deposit address, and its journal.
pub mod Journal
pub mod Order
pub mod Spends
pub mod Laws
use tinylayer_org.Base.{
  ℕ, suc, Bytes, Bool, true, false, List, [], ◌∷◌, map, Result, ok, err, ensure, ok_or, ◌>>=◌, ◌>>◌,
  not, leb, ltb, ◌==◌, ◌&&◌, same, bytes_discrete, length, checked_add, checked_sub, Option, some,
  none, replicate, if◌then◌else◌, Action, commit,
}
use tinylayer_org.Extern.{
  OutPoint, OutPoint_discrete, TxIn, TxOut, Transaction, Transaction_discrete,
}
use tinylayer_org.Client.Types.{NetworkId}
use tinylayer_org.Wallet.Types.{
  Failure, message, SourceUtxo, PreparedSourceSweep, file_format_version,
}
use tinylayer_org.Wallet.Platform.{Platform}
use tinylayer_org.Wallet.Validation.{validate_funding_inputs}
use tinylayer_org.Wallet.Source.{source_funding_script, fee_of}

pub data SourceSweepStage : Type 0 where
  prepared submission_armed observed : SourceSweepStage

unfoldable pub SourceSweepStage_discrete : Discrete SourceSweepStage
SourceSweepStage_discrete = hlevel

pub record SourceSweepJournal : Type 0 where
  pub format_version : ℕ
  pub network : NetworkId
  pub destination : Bytes
  pub sources : List SourceUtxo
  pub fee_rate_sat_vb : ℕ
  pub max_fee_sat : ℕ
  pub fee_sat : ℕ
  pub transaction : Transaction
  pub stage : SourceSweepStage

-- `.windows(2).all(|pair| pair[0].outpoint != pair[1].outpoint)`
unfoldable pub no_duplicates : List SourceUtxo → Bool
no_duplicates [] = true
no_duplicates (source ∷ []) = true
no_duplicates (source ∷ next ∷ rest) =
    let later = no_duplicates (next ∷ rest) in
    not (same OutPoint_discrete source.outpoint next.outpoint) && later

-- `.try_fold(0u64, |total, source| total.checked_add(source.output.value.to_sat()))`
unfoldable pub input_total : ℕ → List SourceUtxo → Option ℕ
input_total total [] = some total
input_total total (source ∷ rest) = elim (checked_add 64 total source.output.value) [
  | none ↦ none
  | some sum ↦ input_total sum rest
]

abbrev pub outputs_of : List SourceUtxo → List TxOut
outputs_of sources = map (λ source. source.output) sources

module _ (p : Platform) where
  -- `sort_by_key(|source| source.outpoint)`, a stable sort.
  unfoldable pub insert_source : SourceUtxo → List SourceUtxo → List SourceUtxo
  insert_source source [] = source ∷ []
  insert_source source (next ∷ rest) =
      let later = insert_source source rest in
      if p.outpoint_le source.outpoint next.outpoint then source ∷ next ∷ rest else next ∷ later

  unfoldable pub sort_sources : List SourceUtxo → List SourceUtxo
  sort_sources [] = []
  sort_sources (source ∷ rest) = insert_source source (sort_sources rest)

  -- `for source in &sources`
  unfoldable pub validate_sources : Bytes → List SourceUtxo → Result Failure Unit
  validate_sources script [] = ok tt
  validate_sources script (source ∷ rest) =
      let later = validate_sources script rest in
      do
        ensure (ltb 0 source.confirmations) (message "source sweep input is not confirmed")
        ensure (not source.coinbase) (message "coinbase source sweep inputs are not supported")
        ensure (not (p.is_null source.outpoint))
            (message "source sweep cannot spend a coinbase input")
        ensure (same bytes_discrete source.output.script_pubkey script)
            (message "source sweep input does not belong to the local deposit key")
        later

  -- The inputs, each with its witness.
  abbrev pub sweep_input : SourceUtxo → Bytes → TxIn
  sweep_input source signature = record {
    previous_output = source.outpoint;
    script_sig = [];
    sequence = p.sequence_max;
    witness = signature ∷ [];
  }

  unfoldable pub sweep_inputs : List SourceUtxo → List Bytes → List TxIn
  sweep_inputs [] signatures = []
  sweep_inputs (source ∷ rest) [] = []
  sweep_inputs (source ∷ rest) (signature ∷ signatures) =
      sweep_input source signature ∷ sweep_inputs rest signatures

  unfoldable pub sweep_transaction : List SourceUtxo → List Bytes → ℕ → Bytes → Transaction
  sweep_transaction sources signatures value script = record {
    version = 2;
    lock_time = 0;
    input = sweep_inputs sources signatures;
    output = record { value = value; script_pubkey = script } ∷ [];
  }

  -- `(0..transaction.input.len()).map(..).collect::<Result<_>>()`, from `index` on.
  unfoldable pub sign_sweep :
      Transaction → List TxOut → Bytes → ℕ → List SourceUtxo → Result Failure (List Bytes)
  sign_sweep unsigned prevouts tweaked index [] = ok []
  sign_sweep unsigned prevouts tweaked index (source ∷ rest) =
      let later = sign_sweep unsigned prevouts tweaked (suc index) rest in
      do
        sighash ←
            ok_or (p.key_spend_sighash unsigned index prevouts)
              (message "compute source sweep sighash")
        let signature = p.sign_schnorr tweaked sighash
        ensure (p.verify_schnorr signature sighash (p.x_only_public_key tweaked))
            (message "verify source sweep signature")
        signatures ← later
        ok (signature ∷ signatures)

  -- `vec![[0; 64]; sources.len()]`
  abbrev pub placeholders : List SourceUtxo → List Bytes
  placeholders sources = replicate (length sources) (replicate 64 0)

  unfoldable pub build_sorted_sweep :
      Bytes → Bytes → List SourceUtxo → Bytes → ℕ → ℕ → Result Failure PreparedSourceSweep
  build_sorted_sweep source_secret expected_script sources destination fee_rate_sat_vb max_fee_sat =
      do
        validate_sources expected_script sources
        ensure (no_duplicates sources) (message "source sweep contains a duplicate input")
        input_sat ← ok_or (input_total 0 sources) (message "source sweep input amount overflow")
        let draft = sweep_transaction sources (placeholders sources) 0 destination
        fee_sat ←
            ok_or (fee_of fee_rate_sat_vb (p.vsize draft)) (message "source sweep fee overflow")
        ensure (leb fee_sat max_fee_sat) (message "source sweep fee exceeds maximum")
        output_sat ←
            ok_or (checked_sub input_sat fee_sat) (message "source sweep fee exceeds its inputs")
        ensure (leb (p.minimal_non_dust destination) output_sat)
            (message "source sweep output would be dust")
        let unsigned = sweep_transaction sources (placeholders sources) output_sat destination
        signatures ← sign_sweep unsigned (outputs_of sources) (p.tap_tweak source_secret) 0 sources
        let transaction = sweep_transaction sources signatures output_sat destination
        validate_funding_inputs p.bitcoin transaction
        ok (record { transaction = transaction; fee_sat = fee_sat })

  unfoldable pub build_source_sweep :
      NetworkId → Bytes → List SourceUtxo → Bytes → ℕ → ℕ → Result Failure PreparedSourceSweep
  build_source_sweep network source_secret sources destination fee_rate_sat_vb max_fee_sat = do
    ensure (ltb 0 (length sources)) (message "source sweep has no inputs")
    ensure (leb (length sources) 100) (message "source sweep exceeds 100 inputs")
    ensure (ltb 0 fee_rate_sat_vb) (message "source sweep fee rate must be positive")
    script ←
        ok_or (p.address_script destination network) (message "invalid source sweep destination")
    let expected_script = source_funding_script p source_secret network
    ensure (not (same bytes_discrete script expected_script))
        (message "source sweep destination cannot be the deposit address")
    build_sorted_sweep source_secret expected_script (sort_sources sources) script fee_rate_sat_vb
        max_fee_sat
