-- ===== src/Native/Backend.antt =====
-- wallet/src/services.rs, `Chain`: the explorer or the node that the configuration names.
use tinylayer_org.Base.{ℕ, Bytes, List, Option, Action}
use tinylayer_org.Base.Actions.{fail, return}
use tinylayer_org.Extern.{OutPoint, Transaction}
use tinylayer_org.Client.Types.{CoinKeys, CoinMetadata}
use tinylayer_org.Wallet.Types.{Failure, message, SourceUtxo}
use tinylayer_org.Wallet.Platform.{Platform}
use tinylayer_org.Native.Chain.{
  FundingObservation, TransactionObservation, OutspendObservation, DetailedFundingObservation,
  PreparedFunding,
}
use tinylayer_org.Native.Core.{Node}
use tinylayer_org.Native.Core
use tinylayer_org.Native.Core.Observe
use tinylayer_org.Native.Core.Fund
use tinylayer_org.Native.Explorer.{Web}
use tinylayer_org.Native.Explorer
use tinylayer_org.Native.Explorer.Deposits
use tinylayer_org.Native.Explorer.Broadcast

pub data Chain : Type 1 where
  explorer : Web → Chain
  core : Node → Chain

abbrev pub StateOf : Chain → Type 0
StateOf (explorer W) = W.State
StateOf (core C) = C.State

abbrev pub Asked : Chain → Type 0 → Type 0
Asked chain A = Action (StateOf chain) Failure A

module _ (p : Platform) where
  unfoldable pub verify_funding :
      (chain : Chain) → CoinMetadata → ℕ → Asked chain FundingObservation
  verify_funding (explorer W) = Explorer.verify_funding W p
  verify_funding (core C) = Observe.verify_funding C p

  unfoldable pub tip_height : (chain : Chain) → Asked chain ℕ
  tip_height (explorer W) = Explorer.tip_height W
  tip_height (core C) = Core.tip_height C

  -- The address and its script.
  unfoldable pub confirmed_source_utxos :
      (chain : Chain) → Bytes → Bytes → Asked chain (List SourceUtxo)
  confirmed_source_utxos (explorer W) = Deposits.confirmed_source_utxos W p
  confirmed_source_utxos (core C) =
      λ address script. fail (message "local deposit funding requires an explorer backend")

  unfoldable pub transaction : (chain : Chain) → Bytes → Asked chain (Option TransactionObservation)
  transaction (explorer W) = Explorer.transaction_observation W p
  transaction (core C) = Core.transaction_observation C p

  unfoldable pub observe_authorized_transaction :
      (chain : Chain) → Transaction → Asked chain (Option TransactionObservation)
  observe_authorized_transaction (explorer W) = Broadcast.observe_authorized W p
  observe_authorized_transaction (core C) = Observe.observe_authorized_transaction C p

  unfoldable pub outspend : (chain : Chain) → OutPoint → Asked chain OutspendObservation
  outspend (explorer W) = Explorer.outspend W
  outspend (core C) = Observe.outspend C p

  unfoldable pub observe_funding :
      (chain : Chain) → CoinMetadata → Asked chain DetailedFundingObservation
  observe_funding (explorer W) = Explorer.observe_funding W p
  observe_funding (core C) = Observe.observe_funding C p

  unfoldable pub broadcast_exact : (chain : Chain) → Transaction → Asked chain Bytes
  broadcast_exact (explorer W) = Broadcast.broadcast_exact W p
  broadcast_exact (core C) = Fund.broadcast_exact C p

  unfoldable pub prepare_funding :
      (chain : Chain) → CoinKeys → ℕ → ℕ → ℕ → Asked chain PreparedFunding
  prepare_funding (explorer W) = λ keys amount_sat fee_rate_sat_vb max_fee_sat.
      fail (message "automatic funding requires a Bitcoin Core wallet backend")
  prepare_funding (core C) = Fund.prepare_funding C p

  unfoldable pub validate_prepared_funding :
      (chain : Chain) → CoinMetadata → Transaction → Asked chain Unit
  validate_prepared_funding (explorer W) =
      λ metadata prepared. fail (message "prepared funding requires a Bitcoin Core wallet backend")
  validate_prepared_funding (core C) = Fund.validate_prepared_funding C p

  unfoldable pub broadcast_funding :
      (chain : Chain) → CoinMetadata → Transaction → Asked chain Bytes
  broadcast_funding (explorer W) =
      λ metadata prepared. fail (message "automatic funding requires a Bitcoin Core wallet backend")
  broadcast_funding (core C) = Fund.broadcast_funding C p

  -- The explorer's recommendation, which is computed in floating point, is an argument.
  unfoldable pub recommended_fee_rate : (chain : Chain) → Asked chain ℕ → Asked chain ℕ
  recommended_fee_rate (explorer W) recommended = recommended
  recommended_fee_rate (core C) recommended = return 1

  -- The parent and the child.
  unfoldable pub submit_package : (chain : Chain) → Transaction → Transaction → Asked chain Unit
  submit_package (explorer W) = Broadcast.submit_package W p
  submit_package (core C) = Fund.submit_package C
