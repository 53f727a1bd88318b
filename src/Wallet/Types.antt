-- ===== src/Wallet/Types.antt =====
-- wallet-core/src/state.rs, transfer.rs, validation.rs and funding.rs: the data types.
-- A text is the string of its bytes.
use tinylayer_org.Base.{ℕ, Bytes, Bool, Option, none, List, ℕ_discrete, Result, map_err, String}
use tinylayer_org.Extern.{OutPoint, TxOut, Transaction}
use tinylayer_org.Enclave.Types.{CoinStatus, SignRequest, SignResponse, Capability, HandoffToken}
use tinylayer_org.Client.Types.{
  NetworkId, Registration, CoinKeys, CoinMetadata, PreparedRecovery, SignedRecovery, Error,
}

-- `anyhow::Error`: an error of the client library, or a message. A message is its constant text,
-- without the numbers that the source formats into it.
pub data Failure : Type 0 where
  client : Error → Failure
  message : String → Failure

-- `?` on a result of the client library.
abbrev pub lift : {A : Type 0} → Result Error A → Result Failure A
lift r = map_err client r

abbrev pub file_format_version : ℕ
file_format_version = 1

pub record TransferRequest : Type 0 where
  pub format_version : ℕ
  pub protocol_version : ℕ
  pub request_id : Bytes
  pub coin_id : Bytes
  pub network : NetworkId
  pub outpoint : Bytes
  pub expected_amount_sat : ℕ
  pub withdrawal_xonly_pubkey : Bytes
  pub next_capability_hash : Bytes
  pub transport_public_key : Bytes
  pub min_reaction_blocks : ℕ

unfoldable pub TransferRequest_discrete : Discrete TransferRequest
unfolding ℕ_discrete
TransferRequest_discrete = hlevel ℕ_discrete

pub record TransferEnvelope : Type 0 where
  pub format_version : ℕ
  pub request_id : Bytes
  pub ephemeral_public_key : Bytes
  pub nonce : Bytes
  pub ciphertext : Bytes

pub record TransferPayload : Type 0 where
  pub format_version : ℕ
  pub protocol_version : ℕ
  pub request_id : Bytes
  pub client_secret : Bytes
  pub current_handoff : HandoffToken
  pub metadata : CoinMetadata
  pub history : List SignedRecovery

-- What a wallet shows of its coin: the coin, the enclave's status and the recoveries.
pub record Receipt : Type 0 where
  pub format_version : ℕ
  pub protocol_version : ℕ
  pub metadata : CoinMetadata
  pub status : CoinStatus
  pub history : List SignedRecovery

pub record ObservedFunding : Type 0 where
  pub outpoint : OutPoint
  pub output : TxOut
  pub confirmations : ℕ
  pub unspent : Bool
  pub coinbase : Bool

pub record SourceUtxo : Type 0 where
  pub outpoint : OutPoint
  pub output : TxOut
  pub confirmations : ℕ
  pub coinbase : Bool

pub record PreparedSourceFunding : Type 0 where
  pub transaction : Transaction
  pub outpoint : OutPoint
  pub fee_sat : ℕ

pub record PreparedSourceSweep : Type 0 where
  pub transaction : Transaction
  pub fee_sat : ℕ

pub data FundingStage : Type 0 where
  prepared recovery_secured broadcast : FundingStage

unfoldable pub FundingStage_discrete : Discrete FundingStage
FundingStage_discrete = hlevel

pub record FundingJournal : Type 0 where
  pub transaction : Transaction
  pub delay_blocks : ℕ
  pub fee_rate_sat_vb : ℕ
  pub max_fee_sat : ℕ
  pub fee_sat : ℕ
  pub stage : FundingStage

pub record RecoveryAttempt : Type 0 where
  pub expected_signature_count : ℕ
  pub delay_blocks : ℕ
  pub request : SignRequest
  pub prepared : PreparedRecovery

pub data RecoveryPurpose : Type 0 where
  -- The next capability, and the withdrawal secret.
  fund : Bytes → Bytes → RecoveryPurpose
  transfer : TransferRequest → RecoveryPurpose

pub data RecoveryStage : Type 0 where
  prepared : RecoveryAttempt → RecoveryStage
  responded : RecoveryAttempt → SignResponse → RecoveryStage

pub record PendingRecovery : Type 0 where
  pub purpose : RecoveryPurpose
  pub stage : RecoveryStage

pub data PendingOperation : Type 0 where
  -- The client secret, the initial capability, and the registration.
  registration : Bytes → Capability → Registration → PendingOperation
  recovery : PendingRecovery → PendingOperation

pub record IncomingTransfer : Type 0 where
  pub request : TransferRequest
  pub capability : Capability
  pub withdrawal_secret : Bytes
  pub transport_secret : Bytes

pub record OutgoingTransfer : Type 0 where
  pub request : TransferRequest
  pub envelope : TransferEnvelope

pub record WalletCoin : Type 0 where
  pub client_secret : Bytes
  pub keys : CoinKeys
  pub metadata : Option CoinMetadata
  pub funding : Option FundingJournal
  pub current_capability : Option Capability
  pub current_handoff : Option HandoffToken
  pub withdrawal_secret : Option Bytes
  pub withdrawal_recovery_index : Option ℕ
  pub accepted_request : Option TransferRequest
  pub accepted_envelope_fingerprint : Option Bytes
  pub history : List SignedRecovery
  pub outgoing : Option OutgoingTransfer

pub record WalletState : Type 0 where
  pub format_version : ℕ
  pub coin : Option WalletCoin
  pub incoming : Option IncomingTransfer
  pub pending : Option PendingOperation

-- `WalletState::empty`
abbrev pub empty : WalletState
empty = record {
  format_version = file_format_version;
  coin = none;
  incoming = none;
  pending = none;
}
