-- ===== src/Native/Session/Sweep.antt =====
-- wallet/src/cli.rs, `source_sweep` and its helpers.
use tinylayer_org.Base.{
  ℕ, Bytes, List, [], ◌∷◌, map, Bool, true, false, Option, some, none, Result, ok, err, ensure,
  ok_or, not, leb, ltb, ◌==◌, ◌&&◌, same, bytes_discrete, if◌then◌else◌, take, is_some, head,
}
use tinylayer_org.Base.Actions.{◌>>=◌, ◌>>◌, check, return}
use tinylayer_org.Extern.{OutPoint, Transaction, Transaction_discrete, TxOut_discrete}
use tinylayer_org.Wallet.Types.{Failure, message, WalletCoin, SourceUtxo}
use tinylayer_org.Wallet.Platform.{Platform}
use tinylayer_org.Wallet.Sweep.{SourceSweepJournal, SourceSweepStage, SourceSweepStage_discrete}
use tinylayer_org.Wallet.Sweep.Journal.{
  prepare_sweep, validate_sweep, arm_sweep, mark_sweep_observed,
}
use tinylayer_org.Native.Model.{NativeWalletState, Config, ChainConfig, explorer, core_rpc}
use tinylayer_org.Native.Policy.{contains, find_source}
use tinylayer_org.Native.Chain.{TransactionObservation}
use tinylayer_org.Native.Session.{Outside, Session, Event, ask, note, load_native, save_native}

-- The destination's canonical text, and the fee policy of the command.
pub record SweepPolicy : Type 0 where
  pub destination : Bytes
  pub fee_rate_sat_vb : ℕ
  pub max_fee_sat : ℕ

-- The saved state at the end of a command, and whether the sweep was there before.
abbrev pub Emission : Type 0
Emission = NativeWalletState × Bool

-- The saved state with its journal.
abbrev pub Journaling : Type 0
Journaling = NativeWalletState × SourceSweepJournal

pub data Look : Type 0 where
  finished : NativeWalletState → Look
  continues : NativeWalletState → Look

abbrev pub is_explorer : ChainConfig → Bool
is_explorer (explorer url) = true
is_explorer (core_rpc url cookie wallet) = false

abbrev pub reserved_outpoints : Option WalletCoin → List OutPoint
reserved_outpoints none = []
reserved_outpoints (some coin) = elim coin.funding [
  | none ↦ []
  | some funding ↦ map (λ input. input.previous_output) funding.transaction.input
]

unfoldable pub follows_policy : SweepPolicy → SourceSweepJournal → Bool
follows_policy policy journal =
    same bytes_discrete journal.destination policy.destination
    && journal.fee_rate_sat_vb == policy.fee_rate_sat_vb
    && journal.max_fee_sat == policy.max_fee_sat

unfoldable pub validate_source_sweep_policy : SweepPolicy → SourceSweepJournal → Result Failure Unit
unfolding follows_policy
validate_source_sweep_policy policy journal =
    ensure (follows_policy policy journal)
      (message "saved source sweep policy does not match this command")

-- The outputs that are saved with the journal are the ones that are observed.
unfoldable pub check_saved_inputs : List SourceUtxo → List SourceUtxo → Result Failure Unit
check_saved_inputs available [] = ok tt
check_saved_inputs available (saved ∷ rest) =
    let later = check_saved_inputs available rest in
    elim (find_source saved.outpoint available) [
      | none ↦ err (message "saved source sweep input is no longer confirmed and unspent")
      | some observed ↦
          if same TxOut_discrete observed.output saved.output
            && same_flag observed.coinbase saved.coinbase
          then later
          else err (message "saved source sweep input changed")
    ]
  where
    same_flag : Bool → Bool → Bool
    same_flag a b = if a then b else not b

-- A journal that was only prepared, under another policy, is given up.
unfoldable pub drop_changed :
    SweepPolicy → NativeWalletState → Option SourceSweepJournal → NativeWalletState
unfolding follows_policy SourceSweepStage_discrete
drop_changed policy native none = native
drop_changed policy native (some journal) =
    if same SourceSweepStage_discrete journal.stage SourceSweepStage.prepared
      && not (follows_policy policy journal)
    then record native { source_sweep = none }
    else native

module _ (p : Platform) where
  -- By value, the largest first, then by outpoint.
  abbrev pub sweep_le : SourceUtxo → SourceUtxo → Bool
  sweep_le left right =
      if left.output.value == right.output.value
      then p.outpoint_le left.outpoint right.outpoint
      else ltb right.output.value left.output.value

  -- A stable sort by insertion.
  unfoldable pub insert_by_value : SourceUtxo → List SourceUtxo → List SourceUtxo
  insert_by_value source [] = source ∷ []
  insert_by_value source (next ∷ rest) =
      let later = insert_by_value source rest in
      if sweep_le source next then source ∷ next ∷ rest else next ∷ later

  unfoldable pub sort_by_value : List SourceUtxo → List SourceUtxo
  sort_by_value [] = []
  sort_by_value (source ∷ rest) = insert_by_value source (sort_by_value rest)

  -- `.filter(|source| !source.coinbase && !reserved.contains(&source.outpoint))`
  unfoldable pub unreserved : List OutPoint → List SourceUtxo → List SourceUtxo
  unreserved reserved [] = []
  unreserved reserved (source ∷ rest) =
      let later = unreserved reserved rest in
      if not source.coinbase && not (contains source.outpoint reserved)
      then source ∷ later
      else later

module _ (O : Outside) (p : Platform) (config : Config) where
  unfoldable pub available_source_sweep_inputs : NativeWalletState → Session O (List SourceUtxo)
  available_source_sweep_inputs native = do
    sources ← ask O O.confirmed_source_utxos
    return
        (take 100 (sort_by_value p (unreserved p (reserved_outpoints native.wallet.coin) sources)))

  -- `arm_submission`, saved.
  unfoldable pub arm_and_save : NativeWalletState → SourceSweepJournal → Session O Journaling
  arm_and_save native journal = do
    check (arm_sweep p native.funding_secret journal).0
    let armed = (arm_sweep p native.funding_secret journal).1
    let saved = record native { source_sweep = some armed }
    save_native O p config saved
    return (saved, armed)

  -- `mark_observed`, saved.
  unfoldable pub mark_and_save :
      NativeWalletState → SourceSweepJournal → Transaction → Session O Journaling
  mark_and_save native journal observed = do
    check (mark_sweep_observed p native.funding_secret observed journal).0
    let marked = (mark_sweep_observed p native.funding_secret observed journal).1
    let saved = record native { source_sweep = some marked }
    save_native O p config saved
    return (saved, marked)

  unfoldable pub settle_stage :
      NativeWalletState → SourceSweepJournal → SourceSweepStage → Transaction → Session O Journaling
  settle_stage native journal SourceSweepStage.observed observed = return (native, journal)
  settle_stage native journal SourceSweepStage.submission_armed observed =
      mark_and_save native journal observed
  settle_stage native journal SourceSweepStage.prepared observed = do
    armed ← arm_and_save native journal
    mark_and_save armed.0 armed.1 observed

  -- The saved transaction was seen: its bytes are compared, and the journal follows.
  unfoldable pub settle_sweep :
      NativeWalletState → SourceSweepJournal → Transaction → Session O Journaling
  settle_sweep native journal observed = do
    check (
        ensure (same Transaction_discrete observed journal.transaction)
          (message "observed source sweep bytes do not match the saved transaction"))
    settle_stage native journal journal.stage observed

  unfoldable pub prepare_and_save :
      SweepPolicy → NativeWalletState → List SourceUtxo → Session O Journaling
  prepare_and_save policy native sources = do
    journal ← check (
        prepare_sweep p native.funding_secret config.network sources policy.destination
          policy.fee_rate_sat_vb policy.max_fee_sat)
    let saved = record native { source_sweep = some journal }
    save_native O p config saved
    return (saved, journal)

  -- A sweep that has its confirmations makes way for the next one, if there is something to sweep.
  unfoldable pub next_sweep : SweepPolicy → Journaling → List SourceUtxo → Session O Look
  next_sweep policy settled [] = do
    check (validate_source_sweep_policy policy settled.1)
    return (finished settled.0)
  next_sweep policy settled (source ∷ rest) = do
    prepared ← prepare_and_save policy settled.0 (source ∷ rest)
    return (continues prepared.0)

  unfoldable pub after_settled : SweepPolicy → Journaling → Bool → Session O Look
  after_settled policy settled true = do
    sources ← available_source_sweep_inputs settled.0
    next_sweep policy settled sources
  after_settled policy settled false = do
    check (validate_source_sweep_policy policy settled.1)
    return (finished settled.0)

  unfoldable pub first_seen :
      SweepPolicy
      → NativeWalletState
      → SourceSweepJournal
      → Option TransactionObservation
      → Session O Look
  first_seen policy native journal none = return (continues native)
  first_seen policy native journal (some observed) = do
    settled ← settle_sweep native journal observed.transaction
    after_settled policy settled (leb config.min_confirmations observed.confirmations)

  -- The look for a sweep that was saved before.
  unfoldable pub first_look :
      SweepPolicy → NativeWalletState → Option SourceSweepJournal → Session O Look
  first_look policy native none = return (continues native)
  first_look policy native (some journal) = do
    observed ← ask O (O.transaction (p.compute_txid journal.transaction))
    first_seen policy native journal observed

  unfoldable pub ensure_prepared :
      SweepPolicy → NativeWalletState → Option SourceSweepJournal → Session O Journaling
  ensure_prepared policy native (some journal) = return (native, journal)
  ensure_prepared policy native none = do
    sources ← available_source_sweep_inputs native
    check (
        ensure (is_some (head sources))
          (message "deposit address has no unreserved confirmed outputs to sweep"))
    prepare_and_save policy native sources

  unfoldable pub validate_source_sweep_inputs :
      NativeWalletState → SourceSweepJournal → Session O Unit
  validate_source_sweep_inputs native journal = do
    check (validate_sweep p native.funding_secret journal)
    available ← ask O O.confirmed_source_utxos
    check (check_saved_inputs available journal.sources)

  unfoldable pub submit_sweep : Journaling → Option TransactionObservation → Session O Emission
  submit_sweep (native, journal) (some observed) = do
    settled ← settle_sweep native journal observed.transaction
    return (settled.0, true)
  submit_sweep (native, journal) none = do
    validate_source_sweep_inputs native journal
    armed ← arm_and_save native journal
    note O (Event.sweeps journal.transaction)
    txid ← ask O (O.broadcast_exact journal.transaction)
    seen ← ask O (O.transaction (p.compute_txid journal.transaction))
    observed ←
        check
          (ok_or seen (message "broadcast source sweep is not yet observable; rerun the command"))
    marked ← mark_and_save armed.0 armed.1 observed.transaction
    return (marked.0, false)

  unfoldable pub second_look : SweepPolicy → Journaling → Session O Emission
  second_look policy (native, journal) = do
    check (validate_source_sweep_policy policy journal)
    check (validate_sweep p native.funding_secret journal)
    observed ← ask O (O.transaction (p.compute_txid journal.transaction))
    submit_sweep (native, journal) observed

  unfoldable pub sweep_from : SweepPolicy → Look → Session O Emission
  sweep_from policy (finished native) = return (native, true)
  sweep_from policy (continues native) = do
    let kept = drop_changed policy native native.source_sweep
    journaling ← ensure_prepared policy kept kept.source_sweep
    second_look policy journaling

  unfoldable pub source_sweep : Bytes → ℕ → ℕ → Session O Emission
  source_sweep destination fee_rate_sat_vb max_fee_sat = do
    check (ensure (ltb 0 fee_rate_sat_vb) (message "source sweep fee rate must be positive"))
    check (ensure (is_explorer config.chain) (message "source sweep requires an explorer backend"))
    text ← check (
        ok_or (p.address_text destination config.network)
          (message "invalid source sweep destination"))
    ask O O.connect_chain
    native ← load_native O p config
    let policy : SweepPolicy = record {
      destination = text;
      fee_rate_sat_vb = fee_rate_sat_vb;
      max_fee_sat = max_fee_sat;
    }
    look ← first_look policy native native.source_sweep
    sweep_from policy look
