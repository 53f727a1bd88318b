-- ===== src/Native/Policy.antt =====
-- wallet/src/cli.rs: the checks of `fund_coin_explorer` and of the exit command, which only read.
use tinylayer_org.Base.{
  ℕ, Bytes, bytes_discrete, List, [], ◌∷◌, map, Bool, true, false, Option, some, none, String,
  Result, ok, err, ensure, ok_or, not, leb, ltb, ◌==◌, ◌&&◌, ◌||◌, ◌>>=◌, ◌>>◌, same, if◌then◌else◌,
  head,
}
use tinylayer_org.Extern.{OutPoint, OutPoint_discrete, Transaction_discrete}
use tinylayer_org.Client.Types.{CoinMetadata}
use tinylayer_org.Wallet.Types.{
  Failure, message, WalletState, WalletCoin, SourceUtxo, FundingJournal, FundingStage,
  FundingStage_discrete, PendingOperation, registration, recovery, fund, transfer,
}
use tinylayer_org.Wallet.Platform.{Platform}
use tinylayer_org.Wallet.Source.{build_source_funding}
use tinylayer_org.Wallet.Fund.{attempt_of}
use tinylayer_org.Wallet.Sweep.{SourceSweepJournal}
use tinylayer_org.Wallet.Exit.{ExitPackage, validate_package}
use tinylayer_org.Native.Model.{NativeWalletState, Config}

-- The policy of one funding command.
pub record FundingPolicy : Type 0 where
  pub amount_sat : ℕ
  pub delay_blocks : ℕ
  pub fee_rate_sat_vb : ℕ
  pub max_fee_sat : ℕ

abbrev pub contains : OutPoint → List OutPoint → Bool
contains outpoint [] = false
contains outpoint (next ∷ rest) = same OutPoint_discrete next outpoint || contains outpoint rest

abbrev pub sweep_outpoints : Option SourceSweepJournal → List OutPoint
sweep_outpoints none = []
sweep_outpoints (some sweep) = map (λ source. source.outpoint) sweep.sources

abbrev pub coin_of : WalletState → String → Result Failure WalletCoin
coin_of state missing = ok_or state.coin (message missing)

-- `saved funding policy`: the journal's numbers are the command's.
unfoldable pub check_policy : FundingPolicy → CoinMetadata → FundingJournal → Result Failure Unit
check_policy policy metadata funding = do
  ensure
      (metadata.amount_sat == policy.amount_sat
        && funding.delay_blocks == policy.delay_blocks
        && funding.fee_rate_sat_vb == policy.fee_rate_sat_vb
        && funding.max_fee_sat == policy.max_fee_sat)
      (message "saved funding policy does not match this command")
  ensure (leb funding.fee_sat policy.max_fee_sat)
      (message "saved funding fee exceeds this command's maximum")

-- The recovery that is pending has the command's delay; nothing is pending only past preparation.
unfoldable pub check_pending_funding :
    FundingPolicy → FundingStage → Option PendingOperation → Result Failure Unit
check_pending_funding policy stage none =
    ensure (not (same FundingStage_discrete stage FundingStage.prepared))
      (message "prepared funding has no recovery journal")
check_pending_funding policy stage (some (registration s c r)) =
    err (message "wallet has a pending registration; resume coin register")
check_pending_funding policy stage (some (recovery r)) = elim r.purpose [
  | fund next_capability withdrawal_secret ↦
      ensure ((attempt_of r.stage).delay_blocks == policy.delay_blocks)
        (message "pending funding recovery uses a different delay")
  | transfer request ↦ err (message "wallet has a pending transfer; resume coin sign")
]

unfoldable pub check_saved_funding : FundingPolicy → WalletState → Result Failure Unit
unfolding check_policy check_pending_funding
check_saved_funding policy state = do
  coin ← coin_of state "prepared funding coin is missing"
  metadata ← ok_or coin.metadata (message "prepared funding metadata is missing")
  funding ← ok_or coin.funding (message "prepared funding journal is missing")
  check_policy policy metadata funding
  check_pending_funding policy funding.stage state.pending

-- The recovery that is pending, if one is, has the command's delay.
unfoldable pub check_core_pending : FundingPolicy → Option PendingOperation → Result Failure Unit
check_core_pending policy none = ok tt
check_core_pending policy (some (registration s c r)) =
    err (message "wallet has a pending registration; resume coin register")
check_core_pending policy (some (recovery r)) = elim r.purpose [
  | fund next_capability withdrawal_secret ↦
      ensure ((attempt_of r.stage).delay_blocks == policy.delay_blocks)
        (message "pending funding recovery uses a different delay")
  | transfer request ↦ err (message "wallet has a pending transfer; resume coin sign")
]

unfoldable pub check_core_funding : FundingPolicy → WalletState → Result Failure Unit
unfolding check_policy check_core_pending
check_core_funding policy state = do
  coin ← coin_of state "prepared funding coin is missing"
  metadata ← ok_or coin.metadata (message "prepared funding metadata is missing")
  funding ← ok_or coin.funding (message "prepared funding journal is missing")
  check_policy policy metadata funding
  check_core_pending policy state.pending

-- `.find(|source| source.outpoint == outpoint)`
unfoldable pub find_source : OutPoint → List SourceUtxo → Option SourceUtxo
find_source outpoint [] = none
find_source outpoint (source ∷ rest) =
    let later = find_source outpoint rest in
    if same OutPoint_discrete source.outpoint outpoint then some source else later

-- `exit_coin`: the destination's canonical text, the fee rate if one was given, and the limit.
pub record ExitPolicy : Type 0 where
  pub destination : Bytes
  pub fee_rate : Option ℕ
  pub max_fee_sat : ℕ

-- `fee_rate.is_none_or(|rate| rate == saved)`
abbrev pub is_none_or_rate : Option ℕ → ℕ → Bool
is_none_or_rate none saved = true
is_none_or_rate (some rate) saved = rate == saved

unfoldable pub follows_exit_policy : ExitPolicy → ExitPackage → Bool
follows_exit_policy policy saved =
    same bytes_discrete saved.destination policy.destination
    && saved.max_fee_sat == policy.max_fee_sat
    && is_none_or_rate policy.fee_rate saved.fee_rate_sat_vb

module _ (p : Platform) where
  -- The order of `(source.output.value, source.outpoint)`.
  abbrev pub value_le : SourceUtxo → SourceUtxo → Bool
  value_le a b =
      if a.output.value == b.output.value
      then p.outpoint_le a.outpoint b.outpoint
      else ltb a.output.value b.output.value

  -- `max_by_key`, the last of equal ones.
  unfoldable pub largest_source : Option SourceUtxo → List SourceUtxo → Option SourceUtxo
  largest_source best [] = best
  largest_source none (source ∷ rest) = largest_source (some source) rest
  largest_source (some best) (source ∷ rest) =
      largest_source (some (if value_le best source then source else best)) rest

  -- `.filter(|source| !source.coinbase && !sweep_inputs.contains(&source.outpoint))`
  unfoldable pub free_sources : List OutPoint → List SourceUtxo → List SourceUtxo
  free_sources reserved [] = []
  free_sources reserved (source ∷ rest) =
      let later = free_sources reserved rest in
      if not source.coinbase && not (contains source.outpoint reserved)
      then source ∷ later
      else later

  unfoldable pub check_canonical_funding :
      Config
      → NativeWalletState
      → WalletCoin
      → CoinMetadata
      → FundingJournal
      → List SourceUtxo
      → Result Failure Unit
  check_canonical_funding config native coin metadata funding sources = do
    input ← ok_or (head funding.transaction.input) (message "prepared funding has no input")
    source ←
        ok_or (find_source input.previous_output sources)
          (message "prepared funding deposit is no longer confirmed and unspent")
    expected ←
        build_source_funding p coin.keys config.network native.funding_secret source
          metadata.amount_sat funding.fee_rate_sat_vb funding.max_fee_sat
    ensure
        (same Transaction_discrete expected.transaction funding.transaction
          && same OutPoint_discrete expected.outpoint metadata.outpoint
          && expected.fee_sat == funding.fee_sat)
        (message "prepared funding transaction is not canonical")

  unfoldable pub validate_saved_exit_policy : ExitPolicy → NativeWalletState → Result Failure Unit
  unfolding follows_exit_policy
  validate_saved_exit_policy policy native = do
    coin ← coin_of native.wallet "wallet has no coin"
    journal ← ok_or native.exit (message "exit journal is missing")
    validate_package p journal.exit_package coin
    ensure (follows_exit_policy policy journal.exit_package)
        (message "saved exit policy does not match this command")
