-- ===== src/Native/Session.antt =====
-- wallet/src/cli.rs: what the commands work with. Everything beyond the process (the enclave, the
-- chain, the file system) is an arbitrary machine that answers each call as it likes.
pub mod Register
pub mod Fund
pub mod Send
pub mod Accept
pub mod Sweep
pub mod Exit
pub mod Leave
pub mod Journal
pub mod Journaled
pub mod Sent
pub mod Broadcast
pub mod Swept
pub mod Left
pub mod Core
pub mod CoreFunded
pub mod Inspect
pub mod Live
use tinylayer_org.Base.{ℕ, Bytes, List, [], ◌∷◌, Bool, Option, Result, ok, err, Action}
use tinylayer_org.Base.Actions.{◌>>=◌, ◌>>◌, check, return}
use tinylayer_org.Extern.{OutPoint, Transaction}
use tinylayer_org.Enclave.Types.{CoinId, CoinStatus, RegisterRequest, SignRequest, SignResponse}
use tinylayer_org.Client.Types.{CoinKeys, CoinMetadata}
use tinylayer_org.Wallet.Types.{
  Failure, message, WalletState, SourceUtxo, TransferRequest, TransferEnvelope, Receipt,
}
use tinylayer_org.Wallet.Platform.{Platform}
use tinylayer_org.Wallet.Register.{validate_version}
use tinylayer_org.Native.Chain.{
  FundingObservation, TransactionObservation, OutspendObservation, DetailedFundingObservation,
  PreparedFunding,
}
use tinylayer_org.Native.Model.{NativeWalletState, Config, validate_native}

-- What came of writing the state: nothing, the new state but an error, or the new state.
pub data Written : Type 0 where
  kept unsynced replaced : Written

-- The random values of one command.
pub record Entropy : Type 0 where
  pub client_secret : Bytes
  pub capability : Bytes
  pub coin_id : Bytes
  pub withdrawal : Bytes
  pub ephemeral : Bytes
  pub nonce : Bytes

pub record Outside : Type 1 where
  pub State : Type 0
  -- `connect_verified` and `Chain::connect`
  pub connect_enclave : Action State Failure Unit
  pub connect_chain : Action State Failure Unit
  -- `EnclaveConnection`
  pub register : RegisterRequest → Action State Failure CoinStatus
  pub status : CoinId → Action State Failure CoinStatus
  pub sign : SignRequest → Action State Failure SignResponse
  -- `Chain`
  pub observe_funding : CoinMetadata → Action State Failure DetailedFundingObservation
  -- The number of confirmations that are asked for.
  pub verify_funding : CoinMetadata → ℕ → Action State Failure FundingObservation
  -- By transaction id.
  pub transaction : Bytes → Action State Failure (Option TransactionObservation)
  pub observe_authorized_transaction :
      Transaction → Action State Failure (Option TransactionObservation)
  pub outspend : OutPoint → Action State Failure OutspendObservation
  pub recommended_fee_rate : Action State Failure ℕ
  pub tip_height : Action State Failure ℕ
  -- The parent and the child, in hexadecimal on the wire.
  pub submit_package : Transaction → Transaction → Action State Failure Unit
  pub confirmed_source_utxos : Action State Failure (List SourceUtxo)
  pub broadcast_exact : Transaction → Action State Failure Bytes
  -- The node's own wallet: the amount, the fee rate and the fee limit.
  pub prepare_funding : CoinKeys → ℕ → ℕ → ℕ → Action State Failure PreparedFunding
  pub validate_prepared_funding : CoinMetadata → Transaction → Action State Failure Unit
  pub broadcast_funding : CoinMetadata → Transaction → Action State Failure Bytes
  -- Files: reading and writing the state, and the output file.
  pub read : Action State Failure Unit
  pub write : State → Written × State
  pub available : Action State Failure Unit
  pub publish_request : TransferRequest → Action State Failure Unit
  pub publish_envelope : TransferEnvelope → Action State Failure Unit
  pub publish_receipt : Receipt → Action State Failure Unit
  pub publish_recovery : Transaction → Action State Failure Unit

-- A call that leaves the process, with the state that is saved when it is made.
pub data Event : Type 0 where
  registers : RegisterRequest → NativeWalletState → Event
  signs : SignRequest → NativeWalletState → Event
  broadcasts : Transaction → NativeWalletState → Event
  publishes : TransferEnvelope → NativeWalletState → Event
  -- The sweep of the deposit address, the exit child after its parent, and both together.
  sweeps : Transaction → NativeWalletState → Event
  exits : Transaction → NativeWalletState → Event
  submits : Transaction → Transaction → NativeWalletState → Event
  -- The funding transaction of a node's wallet.
  funds : Transaction → NativeWalletState → Event

pub record World (O : Outside) : Type 0 where
  pub outside : O.State
  pub disk : NativeWalletState
  -- The latest first.
  pub log : List Event

abbrev pub Session : Outside → Type 0 → Type 0
Session O A = Action (World O) Failure A

module _ (O : Outside) where
  abbrev pub answered :
      {A : Type 0} → World O → Result Failure A × O.State → Result Failure A × World O
  answered w (result, outside) = (result, record w { outside = outside })

  -- A call of something outside.
  abbrev pub ask : {A : Type 0} → Action O.State Failure A → Session O A
  ask call w = answered w (call w.outside)

  abbrev pub note : (NativeWalletState → Event) → Session O Unit
  note event w = (ok tt, record w { log = event w.disk ∷ w.log })

  abbrev pub written :
      NativeWalletState → World O → Written × O.State → Result Failure Unit × World O
  written native w (kept, outside) =
      (err (message "input/output error"), record w { outside = outside })
  written native w (unsynced, outside) =
      (err (message "input/output error"), record w { outside = outside; disk = native })
  written native w (replaced, outside) = (ok tt, record w { outside = outside; disk = native })

  abbrev pub write_state : NativeWalletState → Session O Unit
  write_state native w = written native w (O.write w.outside)

  abbrev pub saved_state : Session O NativeWalletState
  saved_state w = (ok w.disk, w)

  module _ (p : Platform) (config : Config) where
    -- `WalletStore::load_native`. A file that does not decrypt or parse is a `read` that fails.
    unfoldable pub load_native : Session O NativeWalletState
    load_native = do
      ask O.read
      native ← saved_state
      check (validate_native p config.network native)
      return native

    -- `WalletStore::save_native`
    unfoldable pub save_native : NativeWalletState → Session O Unit
    save_native native = do check (validate_native p config.network native); write_state native

    -- `WalletStore::save`
    unfoldable pub save : WalletState → Session O Unit
    unfolding load_native
    save state = do
      check (validate_version state)
      native ← load_native
      write_state (record native { wallet = state })
