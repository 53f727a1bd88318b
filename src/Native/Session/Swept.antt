-- ===== src/Native/Session/Swept.antt =====
-- wallet/src/cli.rs, `source_sweep`: what it broadcasts is saved and armed before.
use tinylayer_org.Base.{
  ℕ, Bytes, List, ◌≡◌, ok, ap, Option, none, some, arith, Bool, true, false, ok_or,
}
use tinylayer_org.Extern.{Transaction}
use tinylayer_org.Wallet.Platform.{Platform}
use tinylayer_org.Wallet.Types.{SourceUtxo, message}
use tinylayer_org.Wallet.Sweep.{SourceSweepJournal, SourceSweepStage}
use tinylayer_org.Wallet.Sweep.Journal.{validate_sweep, arm_sweep}
use tinylayer_org.Native.Model.{NativeWalletState, Config}
use tinylayer_org.Native.Chain.{TransactionObservation}
use tinylayer_org.Native.Session.{save_native, Outside, World, sweeps}
use tinylayer_org.Native.Session.Sweep.{
  SweepPolicy, Journaling, Look, finished, continues, available_source_sweep_inputs, arm_and_save,
  mark_and_save, settle_stage, settle_sweep, prepare_and_save, next_sweep, after_settled,
  first_seen, first_look, ensure_prepared, validate_source_sweep_inputs, submit_sweep, second_look,
  sweep_from, source_sweep, drop_changed,
}
use tinylayer_org.Native.Session.Journal.{
  AllJournaled, IsArmedSweep, Journals, bind-Journals, then-Journals, ask-Journals, check-Journals,
  check_bind-Journals, return-Journals, note-Journals, load_native-Journals, save_native-Journals,
  quiet-Journals,
}

arm_sweep-armed :
    (p : Platform) (secret : Bytes) (journal : SourceSweepJournal)
    → (arm_sweep p secret journal).0 ≡ ok tt
    → ((arm_sweep p secret journal).1.stage ≡ SourceSweepStage.submission_armed)
      × (validate_sweep p secret (arm_sweep p secret journal).1 ≡ ok tt)
      × ((arm_sweep p secret journal).1.transaction ≡ journal.transaction)
unfolding arm_sweep validate_sweep
arm_sweep-armed p secret journal h = (ground arith, ground arith, ground arith)

module _ (O : Outside) (p : Platform) (config : Config) where
  available-log :
      (native : NativeWalletState) (w : World O)
      → (available_source_sweep_inputs O p config native w).1.log ≡ w.log
  unfolding available_source_sweep_inputs
  available-log native w = ground arith

  settle_sweep-log :
      (native : NativeWalletState) (journal : SourceSweepJournal) (observed : Transaction)
      (w : World O)
      → (settle_sweep O p config native journal observed w).1.log ≡ w.log
  unfolding settle_sweep settle_stage arm_and_save mark_and_save save_native
  settle_sweep-log native journal observed w = ground arith

  mark_and_save-log :
      (native : NativeWalletState) (journal : SourceSweepJournal) (observed : Transaction)
      (w : World O)
      → (mark_and_save O p config native journal observed w).1.log ≡ w.log
  unfolding mark_and_save save_native
  mark_and_save-log native journal observed w = ground arith

  prepare_and_save-log :
      (policy : SweepPolicy) (native : NativeWalletState) (sources : List SourceUtxo) (w : World O)
      → (prepare_and_save O p config policy native sources w).1.log ≡ w.log
  unfolding prepare_and_save save_native
  prepare_and_save-log policy native sources w = ground arith

  ensure_prepared-log :
      (policy : SweepPolicy) (native : NativeWalletState) (journal : Option SourceSweepJournal)
      (w : World O)
      → (ensure_prepared O p config policy native journal w).1.log ≡ w.log
  unfolding ensure_prepared prepare_and_save save_native available_source_sweep_inputs
  ensure_prepared-log policy native journal w = ground arith

  next_sweep-log :
      (policy : SweepPolicy) (settled : Journaling) (sources : List SourceUtxo) (w : World O)
      → (next_sweep O p config policy settled sources w).1.log ≡ w.log
  unfolding next_sweep prepare_and_save save_native
  next_sweep-log policy settled sources w = ground arith

  validate_source_sweep_inputs-log :
      (native : NativeWalletState) (journal : SourceSweepJournal) (w : World O)
      → (validate_source_sweep_inputs O p config native journal w).1.log ≡ w.log
  unfolding validate_source_sweep_inputs
  validate_source_sweep_inputs-log native journal w = ground arith

  after_settled-Journals :
      {P : NativeWalletState → Type 0} (policy : SweepPolicy) (settled : Journaling) (done : Bool)
      → Journals O p P (after_settled O p config policy settled done) (λ a d. Unit)
  unfolding after_settled
  after_settled-Journals policy settled true =
      bind-Journals O p
        (quiet-Journals O p (available_source_sweep_inputs O p config settled.0)
          (available-log settled.0))
        (λ sources.
          quiet-Journals O p (next_sweep O p config policy settled sources)
            (next_sweep-log policy settled sources))
  after_settled-Journals policy settled false =
      then-Journals O p (check-Journals O p _) (return-Journals O p _ (λ d h. tt))

  first_seen-Journals :
      {P : NativeWalletState → Type 0} (policy : SweepPolicy) (native : NativeWalletState)
      (journal : SourceSweepJournal) (observed : Option TransactionObservation)
      → Journals O p P (first_seen O p config policy native journal observed) (λ a d. Unit)
  unfolding first_seen
  first_seen-Journals policy native journal none = return-Journals O p _ (λ d h. tt)
  first_seen-Journals policy native journal (some observed) =
      bind-Journals O p
        (quiet-Journals O p (settle_sweep O p config native journal observed.transaction)
          (settle_sweep-log native journal observed.transaction))
        (λ settled. after_settled-Journals policy settled _)

  first_look-Journals :
      {P : NativeWalletState → Type 0} (policy : SweepPolicy) (native : NativeWalletState)
      (journal : Option SourceSweepJournal)
      → Journals O p P (first_look O p config policy native journal) (λ a d. Unit)
  unfolding first_look
  first_look-Journals policy native none = return-Journals O p _ (λ d h. tt)
  first_look-Journals policy native (some journal) =
      bind-Journals O p (ask-Journals O p (O.transaction (p.compute_txid journal.transaction)))
        (first_seen-Journals policy native journal)

  arm_and_save-Journals :
      {P : NativeWalletState → Type 0} (native : NativeWalletState) (journal : SourceSweepJournal)
      → Journals O p P
          (arm_and_save O p config native journal)
          (λ a d. IsArmedSweep p d a.1 × (a.1.transaction ≡ journal.transaction))
  unfolding arm_and_save
  arm_and_save-Journals native journal =
      let armed = arm_sweep p native.funding_secret journal in
      let saved = record native { source_sweep = some armed.1 } in
      check_bind-Journals O p armed.0 (λ done arms.
        then-Journals O p (save_native-Journals O p config saved) (
          return-Journals O p (saved, armed.1)
            (λ d kept.
              let (stage, valid, same) = arm_sweep-armed p native.funding_secret journal arms in
              ((ap (λ n. n.source_sweep) kept, stage, rw kept valid), same))))

  submit_sweep-Journals :
      {P : NativeWalletState → Type 0} (journaling : Journaling)
      (observed : Option TransactionObservation)
      → Journals O p P (submit_sweep O p config journaling observed) (λ a d. Unit)
  unfolding submit_sweep
  submit_sweep-Journals (native, journal) (some observed) =
      bind-Journals O p
        (quiet-Journals O p (settle_sweep O p config native journal observed.transaction)
          (settle_sweep-log native journal observed.transaction))
        (λ settled. return-Journals O p _ (λ d h. tt))
  submit_sweep-Journals (native, journal) none =
      then-Journals O p
        (quiet-Journals O p (validate_source_sweep_inputs O p config native journal)
          (validate_source_sweep_inputs-log native journal))
        (bind-Journals O p (arm_and_save-Journals native journal) (λ armed.
          then-Journals O p
            (note-Journals O p (sweeps journal.transaction)
              (λ d saved. (armed.1, saved.0, saved.1)))
            (bind-Journals O p (ask-Journals O p (O.broadcast_exact journal.transaction)) (λ txid.
              bind-Journals O p
                (ask-Journals O p (O.transaction (p.compute_txid journal.transaction)))
                (λ seen.
                  bind-Journals O p
                    (check-Journals O p (
                      ok_or seen (
                        message "broadcast source sweep is not yet observable; rerun the command")))
                    (λ observed.
                      bind-Journals O p
                        (quiet-Journals O p
                          (mark_and_save O p config armed.0 armed.1 observed.transaction)
                          (mark_and_save-log armed.0 armed.1 observed.transaction))
                        (λ marked. return-Journals O p _ (λ d h. tt))))))))

  second_look-Journals :
      {P : NativeWalletState → Type 0} (policy : SweepPolicy) (journaling : Journaling)
      → Journals O p P (second_look O p config policy journaling) (λ a d. Unit)
  unfolding second_look
  second_look-Journals policy (native, journal) = then-Journals O p (check-Journals O p _) (
      then-Journals O p (check-Journals O p _) (
        bind-Journals O p (ask-Journals O p (O.transaction (p.compute_txid journal.transaction)))
          (submit_sweep-Journals (native, journal))))

  sweep_from-Journals :
      {P : NativeWalletState → Type 0} (policy : SweepPolicy) (look : Look)
      → Journals O p P (sweep_from O p config policy look) (λ a d. Unit)
  unfolding sweep_from
  sweep_from-Journals policy (finished native) = return-Journals O p _ (λ d h. tt)
  sweep_from-Journals policy (continues native) =
      let kept = drop_changed policy native native.source_sweep in
      bind-Journals O p
        (quiet-Journals O p (ensure_prepared O p config policy kept kept.source_sweep)
          (ensure_prepared-log policy kept kept.source_sweep))
        (second_look-Journals policy)

  -- Whatever the chain and the file system answer, a sweep is broadcast only as the transaction of
  -- the saved journal, which is armed and is the one that the saved secret makes.
  pub source_sweep-journaled :
      (destination : Bytes) (rate max_fee : ℕ) (w : World O)
      → AllJournaled p w.log
      → AllJournaled p (source_sweep O p config destination rate max_fee w).1.log
  unfolding source_sweep
  source_sweep-journaled destination rate max_fee w all =
      let journals = then-Journals O p {P = λ d. Unit} (check-Journals O p _) (
        then-Journals O p (check-Journals O p _) (
          bind-Journals O p {A = Bytes}
            (check-Journals O p (
              ok_or (p.address_text destination config.network)
                (message "invalid source sweep destination")))
            (λ text. then-Journals O p (ask-Journals O p O.connect_chain) (
              bind-Journals O p (load_native-Journals O p config) (λ native.
                let policy : SweepPolicy = record {
                  destination = text;
                  fee_rate_sat_vb = rate;
                  max_fee_sat = max_fee;
                } in
                bind-Journals O p (first_look-Journals policy native native.source_sweep)
                  (sweep_from-Journals policy)))))) in
      (journals.run w tt all).0
