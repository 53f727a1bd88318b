-- ===== src/Native/Core.antt =====
-- wallet/src/services.rs, `Core`: a Bitcoin Core node that is asked by remote procedure calls.
pub mod Observe
pub mod Fund
pub mod Prepared
use tinylayer_org.Base.{
  ℕ, Bytes, List, [], ◌∷◌, Bool, true, false, Option, some, none, Result, ok, err, ensure, ok_or,
  not, ltb, ◌==◌, ◌&&◌, ◌^◌, same, bytes_discrete, codes, Action, String, if◌then◌else◌,
}
use tinylayer_org.Base.Actions.{◌>>=◌, ◌>>◌, check, return}
use tinylayer_org.Extern.{OutPoint, Transaction, TxOut}
use tinylayer_org.Client.Types.{NetworkId, mutinynet, mainnet, regtest}
use tinylayer_org.Wallet.Types.{Failure, message}
use tinylayer_org.Wallet.Platform.{Platform}
use tinylayer_org.Native.Chain.{TransactionObservation}

-- `negsuc n` is `- n - 1`.
pub data ℤ : Type 0 where
  pos negsuc : ℕ → ℤ

-- An error of the node, with its code, or of the connection.
pub data RpcError : Type 0 where
  rpc : ℤ → RpcError
  transport : RpcError

pub data Answer (A : Type 0) : Type 0 where
  answered : A → Answer A
  failed : RpcError → Answer A

pub record RawTransactionInfo : Type 0 where
  pub txid : Bytes
  pub in_active_chain : Option Bool
  pub hex : Bytes
  pub confirmations : Option ℕ

pub record WalletTransaction : Type 0 where
  pub confirmations : ℤ
  pub txid : Bytes
  pub walletconflicts : List Bytes
  pub hex : Bytes

-- The script of an output is `none` where its hexadecimal does not parse.
pub record TxOutResult : Type 0 where
  pub bestblock : Bytes
  pub confirmations : ℕ
  pub value : ℕ
  pub script : Option Bytes
  pub coinbase : Bool

pub record CoreSpendingPrevout : Type 0 where
  pub txid : Bytes
  pub vout : ℕ
  pub spending_txid : Option Bytes

pub record ChainInfo : Type 0 where
  pub chain : Bytes
  pub blocks : ℕ
  pub best_block_hash : Bytes

pub record WalletInfo : Type 0 where
  pub wallet_name : Bytes
  pub private_keys_enabled : Bool

pub record FundedPsbt : Type 0 where
  pub psbt : Bytes
  pub fee : ℕ

pub record ProcessedPsbt : Type 0 where
  pub psbt : Bytes
  pub complete : Bool

pub record FinalizedPsbt : Type 0 where
  pub hex : Option Bytes
  pub complete : Bool

pub record MempoolResult : Type 0 where
  pub txid : Bytes
  pub allowed : Bool
  pub base_fee : Option ℕ

-- The RPC client with the node behind it, and the wallet and the network of the configuration.
pub record Node : Type 1 where
  pub State : Type 0
  pub get_raw_transaction_info : Bytes → State → Answer RawTransactionInfo × State
  pub get_transaction : Bytes → State → Answer WalletTransaction × State
  pub get_mempool_entry : Bytes → State → Answer Unit × State
  -- With the memory pool.
  pub get_tx_out : OutPoint → State → Answer (Option TxOutResult) × State
  pub get_tx_spending_prevout : OutPoint → State → Answer (List CoreSpendingPrevout) × State
  pub get_blockchain_info : State → Answer ChainInfo × State
  pub get_wallet_info : State → Answer WalletInfo × State
  pub send_raw_transaction : Transaction → State → Answer Bytes × State
  pub lock_unspent : List OutPoint → State → Answer Bool × State
  pub test_mempool_accept : Transaction → State → Answer (List MempoolResult) × State
  -- One output, given by its script, and the fee rate.
  pub wallet_create_funded_psbt : TxOut → ℕ → State → Answer FundedPsbt × State
  pub wallet_process_psbt : Bytes → State → Answer ProcessedPsbt × State
  pub finalize_psbt : Bytes → State → Answer FinalizedPsbt × State
  -- The `package_msg` of the answer, if it is a text.
  pub submit_package : Transaction → Transaction → State → Answer (Option Bytes) × State
  -- The consensus encoding.
  pub deserialize : Bytes → Option Transaction
  pub is_coinbase : Transaction → Bool
  pub wallet_name : Bytes
  pub network : NetworkId

abbrev pub Called : Node → Type 0 → Type 0
Called C A = Action C.State Failure A

unfoldable pub network_name : NetworkId → String
network_name mutinynet = "mutinynet"
network_name mainnet = "mainnet"
network_name regtest = "regtest"

-- Code -5.
unfoldable pub is_rpc_not_found : RpcError → Bool
is_rpc_not_found (rpc (negsuc n)) = n == 4
is_rpc_not_found (rpc (pos n)) = false
is_rpc_not_found transport = false

abbrev pub is_empty_list : List Bytes → Bool
is_empty_list [] = true
is_empty_list (txid ∷ rest) = false

-- `confirmations >= 0`
abbrev pub is_nonnegative : ℤ → Bool
is_nonnegative (pos n) = true
is_nonnegative (negsuc n) = false

abbrev pub is_zero : ℤ → Bool
is_zero (pos n) = n == 0
is_zero (negsuc n) = false

-- `u32::try_from` of an `i32`.
abbrev pub unsigned : ℤ → Result Failure ℕ
unsigned (pos n) = ok n
unsigned (negsuc n) = err (message "Bitcoin Core returned negative confirmations")

abbrev pub or_none : Option ℕ → ℕ
or_none none = 0
or_none (some n) = n

-- `info.in_active_chain != Some(false)`
abbrev pub is_not_inactive : Option Bool → Bool
is_not_inactive (some false) = false
is_not_inactive (some true) = true
is_not_inactive none = true

unfoldable pub height_of : ChainInfo → Result Failure ℕ
height_of chain =
    if ltb chain.blocks (2 ^ 32)
    then ok (chain.blocks)
    else err (message "Bitcoin Core block height exceeds u32")

abbrev pub received : {A S : Type 0} → String → Answer A × S → Result Failure A × S
received context (answered value, s) = (ok value, s)
received context (failed error, s) = (err (message context), s)

abbrev pub missed : {A S : Type 0} → String → Bool → S → Result Failure (Option A) × S
missed context true s = (ok none, s)
missed context false s = (err (message context), s)

abbrev pub found : {A S : Type 0} → String → Answer A × S → Result Failure (Option A) × S
found context (answered value, s) = (ok (some value), s)
found context (failed error, s) = missed context (is_rpc_not_found error) s

-- A call with its context.
abbrev pub call : {A S : Type 0} → String → (S → Answer A × S) → Action S Failure A
call context rpc_call s = received context (rpc_call s)

-- A call of which the error "not found" is an answer.
abbrev pub call_optional :
    {A S : Type 0} → String → (S → Answer A × S) → Action S Failure (Option A)
call_optional context rpc_call s = found context (rpc_call s)

module _ (C : Node) where
  unfoldable pub chain_info : Called C ChainInfo
  unfolding network_name
  chain_info = do
    info ← call "query Bitcoin Core chain" C.get_blockchain_info
    check (
        ensure (same bytes_discrete info.chain (codes (network_name C.network)))
          (message "Bitcoin Core is on another chain than expected"))
    return info

  unfoldable pub tip_height : Called C ℕ
  tip_height = do info ← chain_info; check (height_of info)

  module _ (p : Platform) where
    -- `deserialize(&hex::decode(..)?)?`
    unfoldable pub decoded : String → String → Bytes → Result Failure Transaction
    decoded bad_hex bad_transaction hex = elim (p.hex_decode hex) [
      | none ↦ err (message bad_hex)
      | some bytes ↦ ok_or (C.deserialize bytes) (message bad_transaction)
    ]

    unfoldable pub raw_observation :
        Bytes → RawTransactionInfo → Called C (Option TransactionObservation)
    raw_observation txid info = do
      check (
          ensure (same bytes_discrete info.txid txid)
            (message "Bitcoin Core returned the wrong txid"))
      check (
          ensure (is_not_inactive info.in_active_chain)
            (message "Bitcoin Core transaction is not in the active chain"))
      transaction ← check (
          ok_or (C.deserialize info.hex)
            (message "Bitcoin Core returned an invalid raw transaction"))
      tip ← tip_height
      return (
          some (record {
            transaction = transaction;
            tip_height = tip;
            confirmations = or_none info.confirmations;
            raw_bytes_observed = true;
          }))

    unfoldable pub mempool_entry : Bytes → Bool → Called C (Option (Unit {0}))
    mempool_entry txid false = return (some tt)
    mempool_entry txid true =
        call_optional "query Bitcoin Core mempool entry" (C.get_mempool_entry txid)

    unfoldable pub wallet_observed :
        Bytes → WalletTransaction → Option (Unit {0}) → Called C (Option TransactionObservation)
    wallet_observed txid result none = return none
    wallet_observed txid result (some entry) = do
      transaction ← check (
          decoded "Bitcoin Core returned invalid transaction hex"
            "Bitcoin Core returned an invalid wallet transaction" result.hex)
      check (
          ensure (same bytes_discrete (p.compute_txid transaction) txid)
            (message "Bitcoin Core wallet transaction has the wrong txid"))
      tip ← tip_height
      confirmations ← check (unsigned result.confirmations)
      return (
          some (record {
            transaction = transaction;
            tip_height = tip;
            confirmations = confirmations;
            raw_bytes_observed = true;
          }))

    unfoldable pub wallet_observation :
        Bytes → Option WalletTransaction → Called C (Option TransactionObservation)
    wallet_observation txid none = return none
    wallet_observation txid (some result) = do
      check (
          ensure (same bytes_discrete result.txid txid)
            (message "Bitcoin Core returned a mismatched wallet transaction"))
      check (
          ensure (is_nonnegative result.confirmations && is_empty_list result.walletconflicts)
            (message "Bitcoin Core transaction is conflicted"))
      entry ← mempool_entry txid (is_zero result.confirmations)
      wallet_observed txid result entry

    unfoldable pub observation_from :
        Bytes → Option RawTransactionInfo → Called C (Option TransactionObservation)
    observation_from txid (some info) = raw_observation txid info
    observation_from txid none = do
      result ← call_optional "query Bitcoin Core wallet transaction" (C.get_transaction txid)
      wallet_observation txid result

    unfoldable pub transaction_observation : Bytes → Called C (Option TransactionObservation)
    transaction_observation txid = do
      info ← call_optional "query Bitcoin Core raw transaction" (C.get_raw_transaction_info txid)
      observation_from txid info
