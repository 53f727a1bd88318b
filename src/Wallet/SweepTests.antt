-- ===== src/Wallet/SweepTests.antt =====
-- Runs of the source sweep.
use tinylayer_org.Base.{Bytes, bytes_discrete, ◌≡◌, ◌≤◌, refl, [], ◌∷◌, ok, false, List}
use mathlib.Core.List.{Perm}
use tinylayer_org.Extern.{OutPoint_discrete}
use tinylayer_org.Client.Types.{regtest}
use tinylayer_org.Wallet.Types.{SourceUtxo}
use tinylayer_org.Wallet.Validation.{validate_funding_inputs, validate_each_input}
use tinylayer_org.Wallet.Source.{source_funding_script}
use tinylayer_org.Wallet.Sweep.{
  SourceSweepJournal, SourceSweepStage, sort_sources, insert_source, sweep_transaction,
  build_source_sweep, build_sorted_sweep, validate_sources, no_duplicates, input_total, sign_sweep,
  sweep_inputs,
}
use tinylayer_org.Wallet.Sweep.Journal.{
  prepare_sweep, validate_sweep, arm_sweep, mark_sweep_observed,
}
use tinylayer_org.Wallet.Sweep.Laws.{prepare_sweep-arms}
use tinylayer_org.Samples.{bytes_le, toy_platform, signature_by}

abbrev source : Bytes → SourceUtxo
source txid = record {
  outpoint = record { txid = txid; vout = 1 };
  output = record { value = 50000; script_pubkey = 0x51 ∷ 6 ∷ [] };
  confirmations = 3;
  coinbase = false;
}

abbrev deposits : List SourceUtxo
deposits = source (9 ∷ []) ∷ source (5 ∷ []) ∷ []

-- 100 virtual bytes at 2 sat each.
abbrev journal : SourceSweepStage → SourceSweepJournal
journal stage = record {
  format_version = 1;
  network = regtest;
  destination = 0 ∷ [];
  sources = source (5 ∷ []) ∷ source (9 ∷ []) ∷ [];
  fee_rate_sat_vb = 2;
  max_fee_sat = 500;
  fee_sat = 200;
  transaction =
      sweep_transaction toy_platform (source (5 ∷ []) ∷ source (9 ∷ []) ∷ [])
        (signature_by (6 ∷ []) (99800 ∷ []) ∷ signature_by (6 ∷ []) (99800 ∷ []) ∷ []) 99800
        (0 ∷ []);
  stage = stage;
}

prepare_test :
    prepare_sweep toy_platform (6 ∷ []) regtest deposits (0 ∷ []) 2 500
    ≡ ok (journal SourceSweepStage.prepared)
unfolding prepare_sweep validate_sweep build_source_sweep build_sorted_sweep sort_sources
    insert_source sweep_transaction bytes_discrete bytes_le source_funding_script validate_sources
    no_duplicates OutPoint_discrete input_total sign_sweep validate_funding_inputs sweep_inputs
    validate_each_input
prepare_test = refl

prepare_sweep-arms_example :
    (SourceSweepStage.prepared ≡ SourceSweepStage.prepared)
    × Perm (source (5 ∷ []) ∷ source (9 ∷ []) ∷ []) deposits
    × ((journal SourceSweepStage.prepared).fee_sat ≤ 500)
    × (arm_sweep toy_platform (6 ∷ []) (journal SourceSweepStage.prepared)
        ≡ (ok tt, journal SourceSweepStage.submission_armed))
    × (mark_sweep_observed toy_platform
          (6 ∷ [])
          (journal SourceSweepStage.prepared).transaction
          (journal SourceSweepStage.submission_armed)
        ≡ (ok tt, journal SourceSweepStage.observed))
prepare_sweep-arms_example =
    prepare_sweep-arms toy_platform (6 ∷ []) regtest deposits (0 ∷ []) 2 500
      (journal SourceSweepStage.prepared) prepare_test
