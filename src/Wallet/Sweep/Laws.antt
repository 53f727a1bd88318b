-- ===== src/Wallet/Sweep/Laws.antt =====
-- wallet-core/src/funding.rs: what `build_source_sweep` and the journal guarantee.
use tinylayer_org.Base.{
  ℕ, ◌≤◌, ◌≡◌, ◌≢◌, inl, inr, Bytes, List, length, ok, some, arith, Option-cases, Result-cases,
}
use mathlib.Core.List.{Perm}
use tinylayer_org.Extern.{Transaction}
use tinylayer_org.Client.Types.{NetworkId}
use tinylayer_org.Wallet.Types.{SourceUtxo, PreparedSourceSweep}
use tinylayer_org.Wallet.Platform.{Platform}
use tinylayer_org.Wallet.Source.{source_funding_script}
use tinylayer_org.Wallet.Sweep.{
  SourceSweepJournal, SourceSweepStage, sort_sources, build_source_sweep,
}
use tinylayer_org.Wallet.Sweep.Journal.{
  prepare_sweep, validate_sweep, arm_sweep, mark_sweep_observed,
}
use tinylayer_org.Wallet.Sweep.Order.{
  IsOrder, DistinctSources, sort_sources-perm, sort_sources-IsSorted, no_duplicates-DistinctSources,
}
use tinylayer_org.Wallet.Sweep.Spends.{IsSwept, build_sorted_sweep-IsSwept}

module _ (p : Platform) where
  -- A built sweep of the sources, whatever order they were given in.
  pub record IsSweepOf (network : NetworkId) (secret : Bytes) (sources : List SourceUtxo)
      (destination : Bytes) (rate max_fee : ℕ) (built : PreparedSourceSweep) : Type 0 where
    pub script : Bytes
    pub addressed : p.address_script destination network ≡ some script
    pub elsewhere : script ≢ source_funding_script p secret network
    pub some_inputs : 1 ≤ length sources
    pub few_inputs : length sources ≤ 100
    pub spends :
        IsSwept p secret script
          (source_funding_script p secret network)
          (sort_sources p sources)
          rate
          max_fee
          built
    pub same_sources : Perm (sort_sources p sources) sources
    pub distinct : DistinctSources (sort_sources p sources)

  -- A sweep that was built, under an order of outpoints, spends exactly the given deposits, none
  -- twice, each with a valid signature, and sends their whole value but the fee, which is the rate
  -- times the size and within the limit, to the destination, which is not the deposit address.
  pub build_source_sweep-IsSweepOf :
      IsOrder p
      → (network : NetworkId) (secret : Bytes) (sources : List SourceUtxo) (destination : Bytes)
        (rate max_fee : ℕ) (built : PreparedSourceSweep)
      → build_source_sweep p network secret sources destination rate max_fee ≡ ok built
      → IsSweepOf network secret sources destination rate max_fee built
  unfolding build_source_sweep
  build_source_sweep-IsSweepOf order network secret sources destination rate max_fee built h =
      elim (Option-cases (p.address_script destination network)) [
        | inl e ↦ absurd (ground arith)
        | inr (script, e) ↦
            let swept =
              build_sorted_sweep-IsSwept p secret (source_funding_script p secret network)
                (sort_sources p sources) script rate max_fee built (ground arith) in
            record {
              script = script;
              addressed = e;
              elsewhere = ground arith;
              some_inputs = ground arith;
              few_inputs = ground arith;
              spends = swept;
              same_sources = sort_sources-perm p sources;
              distinct =
                  no_duplicates-DistinctSources p order (sort_sources p sources)
                    (sort_sources-IsSorted p order sources) swept.distinct;
            }
      ]

  build_source_sweep-fee :
      (network : NetworkId) (secret : Bytes) (sources : List SourceUtxo) (destination : Bytes)
      (rate max_fee : ℕ) (built : PreparedSourceSweep)
      → build_source_sweep p network secret sources destination rate max_fee ≡ ok built
      → built.fee_sat ≤ max_fee
  unfolding build_source_sweep
  build_source_sweep-fee network secret sources destination rate max_fee built h =
      elim (Option-cases (p.address_script destination network)) [
        | inl e ↦ absurd (ground arith)
        | inr (script, e) ↦
            (build_sorted_sweep-IsSwept p secret (source_funding_script p secret network)
              (sort_sources p sources) script rate max_fee built (ground arith)).bounded
      ]

  prepare_sweep-fee :
      (secret : Bytes) (network : NetworkId) (sources : List SourceUtxo) (destination : Bytes)
      (rate max_fee : ℕ) (journal : SourceSweepJournal)
      → prepare_sweep p secret network sources destination rate max_fee ≡ ok journal
      → journal.fee_sat ≤ max_fee
  unfolding prepare_sweep
  prepare_sweep-fee secret network sources destination rate max_fee journal h =
      elim (Option-cases (p.address_text destination network)) [
        | inl e ↦ absurd (ground arith)
        | inr (text, e) ↦
            elim (Result-cases
              (build_source_sweep p network secret (sort_sources p sources) text rate max_fee)) [
                | inr (error, f) ↦ absurd (ground arith)
                | inl (built, f) ↦
                    let low =
                      build_source_sweep-fee network secret (sort_sources p sources) text rate
                        max_fee built f in
                    ground arith
              ]
      ]

  -- A prepared journal is not armed, holds the given sources in some order and a fee within the
  -- limit, can be armed as it stands, and once armed is marked observed by its own transaction.
  pub prepare_sweep-arms :
      (secret : Bytes) (network : NetworkId) (sources : List SourceUtxo) (destination : Bytes)
      (rate max_fee : ℕ) (journal : SourceSweepJournal)
      → prepare_sweep p secret network sources destination rate max_fee ≡ ok journal
      → (journal.stage ≡ SourceSweepStage.prepared)
        × Perm journal.sources sources
        × (journal.fee_sat ≤ max_fee)
        × (arm_sweep p secret journal
            ≡ (ok tt, record journal { stage = SourceSweepStage.submission_armed }))
        × (mark_sweep_observed p secret journal.transaction
              (record journal { stage = SourceSweepStage.submission_armed })
            ≡ (ok tt, record journal { stage = SourceSweepStage.observed }))
  unfolding prepare_sweep arm_sweep validate_sweep mark_sweep_observed
  prepare_sweep-arms secret network sources destination rate max_fee journal h =
      let same : journal.sources ≡ sort_sources p sources = ground arith in
      (
        ground arith,
        rw same (sort_sources-perm p sources),
        prepare_sweep-fee secret network sources destination rate max_fee journal h,
        ground arith,
        ground arith,
      )

  -- Under an order of outpoints, a sweep is marked observed only if it was armed, at the saved
  -- transaction's exact bytes, and only its stage changes; the saved transaction is then a sweep of
  -- the saved sources.
  pub mark_sweep_observed-armed :
      IsOrder p
      → (secret : Bytes) (observation : Transaction) (journal later : SourceSweepJournal)
      → mark_sweep_observed p secret observation journal ≡ (ok tt, later)
      → (journal.stage ≡ SourceSweepStage.submission_armed)
        × (observation ≡ journal.transaction)
        × (later ≡ record journal { stage = SourceSweepStage.observed })
        × IsSweepOf journal.network secret journal.sources journal.destination
            journal.fee_rate_sat_vb journal.max_fee_sat
            (record { transaction = journal.transaction; fee_sat = journal.fee_sat })
  unfolding mark_sweep_observed validate_sweep
  mark_sweep_observed-armed order secret observation journal later h = (
    ground arith,
    ground arith,
    ground arith,
    build_source_sweep-IsSweepOf order journal.network secret journal.sources journal.destination
        journal.fee_rate_sat_vb journal.max_fee_sat
        (record { transaction = journal.transaction; fee_sat = journal.fee_sat }) (ground arith),
  )
