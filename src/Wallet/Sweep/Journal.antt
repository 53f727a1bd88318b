-- ===== src/Wallet/Sweep/Journal.antt =====
-- wallet-core/src/funding.rs, `SourceSweepJournal`.
use tinylayer_org.Base.{
  ℕ, Bytes, List, Result, ok, ensure, ok_or, ◌>>=◌, ◌>>◌, ◌==◌, ◌&&◌, same, Action, commit,
}
use tinylayer_org.Extern.{Transaction, Transaction_discrete}
use tinylayer_org.Client.Types.{NetworkId}
use tinylayer_org.Wallet.Types.{Failure, message, SourceUtxo, file_format_version}
use tinylayer_org.Wallet.Platform.{Platform}
use tinylayer_org.Wallet.Sweep.{
  SourceSweepStage, SourceSweepStage_discrete, SourceSweepJournal, sort_sources, build_source_sweep,
}

module _ (p : Platform) where
  unfoldable pub prepare_sweep :
      Bytes → NetworkId → List SourceUtxo → Bytes → ℕ → ℕ → Result Failure SourceSweepJournal
  prepare_sweep source_secret network sources destination fee_rate_sat_vb max_fee_sat = do
    let sorted = sort_sources p sources
    text ← ok_or (p.address_text destination network) (message "invalid source sweep destination")
    built ← build_source_sweep p network source_secret sorted text fee_rate_sat_vb max_fee_sat
    ok (record {
      format_version = file_format_version;
      network = network;
      destination = text;
      sources = sorted;
      fee_rate_sat_vb = fee_rate_sat_vb;
      max_fee_sat = max_fee_sat;
      fee_sat = built.fee_sat;
      transaction = built.transaction;
      stage = SourceSweepStage.prepared;
    })

  unfoldable pub validate_sweep : Bytes → SourceSweepJournal → Result Failure Unit
  validate_sweep source_secret journal = do
    ensure (journal.format_version == file_format_version)
        (message "unsupported source sweep version")
    expected ←
        build_source_sweep p journal.network source_secret journal.sources journal.destination
          journal.fee_rate_sat_vb journal.max_fee_sat
    ensure
        (expected.fee_sat == journal.fee_sat
          && same Transaction_discrete expected.transaction journal.transaction)
        (message "saved source sweep is not canonical")

  unfoldable pub arm_sweep : Bytes → Action SourceSweepJournal Failure Unit
  arm_sweep source_secret journal = commit journal do
    validate_sweep source_secret journal
    ok (tt, record journal { stage = SourceSweepStage.submission_armed })

  unfoldable pub mark_sweep_observed : Bytes → Transaction → Action SourceSweepJournal Failure Unit
  mark_sweep_observed source_secret observation journal = commit journal do
    validate_sweep source_secret journal
    ensure (same SourceSweepStage_discrete journal.stage SourceSweepStage.submission_armed)
        (message "source sweep was not armed for submission")
    ensure (same Transaction_discrete observation journal.transaction)
        (message "observed source sweep bytes do not match the saved transaction")
    ok (tt, record journal { stage = SourceSweepStage.observed })
