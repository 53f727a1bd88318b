-- ===== src/Native/Http.antt =====
-- wallet/src/services.rs: the answers of an explorer, and what is read from them.
pub mod Limits
use tinylayer_org.Base.{
  ℕ, Bytes, List, [], ◌∷◌, ◌++◌, ◌+◌, ◌*◌, Bool, Option, some, none, Result, ok, err, ensure, ok_or,
  not, leb, ◌==◌, ◌&&◌, ◌||◌, true, false, ◌>>=◌, ◌>>◌, same, bytes_discrete, length, checked_add,
  checked_sub, if◌then◌else◌,
}
use tinylayer_org.Extern.{OutPoint, Transaction}
use tinylayer_org.Wallet.Types.{Failure, message}
use tinylayer_org.Wallet.Platform.{Platform}

abbrev pub max_http_response_size : ℕ
max_http_response_size = 16 * 1024 * 1024

abbrev pub max_source_utxo_candidates : ℕ
max_source_utxo_candidates = 256

abbrev pub mutinynet_checkpoint_height : ℕ
mutinynet_checkpoint_height = 1

-- A status, the length that is announced, and the chunks of the body; `none` is a failed read.
pub record Reply : Type 0 where
  pub status : ℕ
  pub content_length : Option ℕ
  pub chunks : List (Option Bytes)

pub record ExplorerTxStatus : Type 0 where
  pub confirmed : Bool
  pub block_height : Option ℕ
  pub block_hash : Option Bytes

pub record ExplorerTx : Type 0 where
  pub txid : Bytes
  pub status : ExplorerTxStatus

pub record ExplorerAddressUtxo : Type 0 where
  pub txid : Bytes
  pub vout : ℕ
  pub value : ℕ
  pub status : ExplorerTxStatus

pub record ExplorerOutspend : Type 0 where
  pub spent : Bool
  pub txid : Option Bytes
  pub status : Option ExplorerTxStatus

-- The paths that are queried.
pub data Query : Type 0 where
  blocks_tip_height : Query
  block_at : ℕ → Query
  tx_summary tx_hex : Bytes → Query
  tx_outspend : OutPoint → Query
  address_utxo : Bytes → Query

-- What is read from texts: UTF-8, `trim`, `parse`, JSON and the consensus encoding.
pub record Readers : Type 0 where
  pub utf8 : Bytes → Bool
  pub trim : Bytes → Bytes
  pub read_height : Bytes → Option ℕ
  pub read_hash : Bytes → Option Bytes
  pub read_txid : Bytes → Option Bytes
  pub read_tx : Bytes → Option ExplorerTx
  pub read_utxos : Bytes → Option (List ExplorerAddressUtxo)
  pub read_outspend : Bytes → Option ExplorerOutspend
  pub read_package : Bytes → Option Bytes
  pub deserialize : Bytes → Option Transaction
  pub is_coinbase : Transaction → Bool

abbrev pub within_length : Option ℕ → Result Failure Unit
within_length none = ok tt
within_length (some announced) =
    ensure (leb announced max_http_response_size) (message "HTTP response exceeds 16 MiB limit")

unfoldable pub collect : Bytes → List (Option Bytes) → Result Failure Bytes
collect bytes [] = ok bytes
collect bytes (none ∷ rest) = err (message "read HTTP response")
collect bytes (some chunk ∷ rest) = do
  ensure (leb (length bytes + length chunk) max_http_response_size)
      (message "HTTP response exceeds 16 MiB limit")
  collect (bytes ++ chunk) rest

unfoldable pub response_bytes_limited : Reply → Result Failure Bytes
response_bytes_limited reply = do within_length reply.content_length; collect [] reply.chunks

abbrev pub is_success : ℕ → Bool
is_success status = leb 200 status && leb status 299

-- `tip_height.checked_sub(block_height).and_then(|depth| depth.checked_add(1))`, of 32 bits.
unfoldable pub depth_of : ℕ → ℕ → Result Failure ℕ
depth_of tip_height block_height = do
  depth ←
      ok_or (checked_sub tip_height block_height)
        (message "transaction block is above the chain tip")
  ok_or (checked_add 32 depth 1) (message "transaction block is above the chain tip")

module _ (r : Readers) where
  unfoldable pub text_of : Reply → Result Failure Bytes
  unfolding response_bytes_limited
  text_of reply = do
    bytes ← response_bytes_limited reply
    ensure (r.utf8 bytes) (message "explorer returned non-UTF-8 data")
    ok bytes

  -- `None` for a page that is not found.
  unfoldable pub optional_text_of : Reply → Result Failure (Option Bytes)
  unfolding text_of
  optional_text_of reply = do
    text ← text_of reply
    if reply.status == 404 then ok none else do
      ensure (is_success reply.status) (message "explorer returned an HTTP error")
      ok (some text)

  unfoldable pub parsed :
      {A : Type 0} → (Bytes → Option A) → Option Bytes → Result Failure (Option A)
  parsed read none = ok none
  parsed read (some text) = do
    value ← ok_or (read text) (message "invalid explorer response")
    ok (some value)

  module _ (p : Platform) where
    unfoldable pub raw_transaction_of : Bytes → Option Bytes → Result Failure (Option Transaction)
    raw_transaction_of txid none = ok none
    raw_transaction_of txid (some text) = do
      bytes ←
          ok_or (p.hex_decode (r.trim text)) (message "explorer returned invalid transaction hex")
      transaction ←
          ok_or (r.deserialize bytes) (message "explorer returned an invalid raw transaction")
      ensure (same bytes_discrete (p.compute_txid transaction) txid)
          (message "explorer raw transaction has the wrong txid")
      ok (some transaction)

-- `HashSet::insert` of each output, none twice.
abbrev pub lists : ExplorerAddressUtxo → List ExplorerAddressUtxo → Bool
lists utxo [] = false
lists utxo (next ∷ rest) =
    (same bytes_discrete utxo.txid next.txid && utxo.vout == next.vout) || lists utxo rest

unfoldable pub lists_once : List ExplorerAddressUtxo → Bool
lists_once [] = true
lists_once (utxo ∷ rest) = not (lists utxo rest) && lists_once rest

-- `listed.retain(|utxo| utxo.status.confirmed)`
unfoldable pub retain_confirmed : List ExplorerAddressUtxo → List ExplorerAddressUtxo
retain_confirmed [] = []
retain_confirmed (utxo ∷ rest) =
    let later = retain_confirmed rest in if utxo.status.confirmed then utxo ∷ later else later
