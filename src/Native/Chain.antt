-- ===== src/Native/Chain.antt =====
-- wallet/src/services.rs: what is asked of a chain backend, and its answers.
use tinylayer_org.Base.{ℕ, Bytes, Option, Bool}
use tinylayer_org.Extern.{OutPoint, Transaction}
use tinylayer_org.Wallet.Types.{ObservedFunding}

pub record FundingObservation : Type 0 where
  pub tip_height : ℕ
  pub confirmations : ℕ

pub record TransactionObservation : Type 0 where
  pub transaction : Transaction
  pub tip_height : ℕ
  pub confirmations : ℕ
  pub raw_bytes_observed : Bool

pub record OutspendObservation : Type 0 where
  pub spent : Bool
  pub spending_txid : Option Bytes
  pub spending_confirmed : Bool

pub record DetailedFundingObservation : Type 0 where
  pub funding : ObservedFunding
  pub tip_height : ℕ
  pub spending_txid : Option Bytes
  pub spending_confirmed : Bool

-- What a Core node funds.
pub record PreparedFunding : Type 0 where
  pub transaction : Transaction
  pub outpoint : OutPoint
  pub fee_sat : ℕ
