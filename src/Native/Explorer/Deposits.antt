-- ===== src/Native/Explorer/Deposits.antt =====
-- wallet/src/services.rs, `confirmed_source_utxos`: the deposits of an address.
use tinylayer_org.Base.{
  Bytes, List, [], ◌∷◌, Bool, ensure, ok_or, not, ltb, ◌==◌, same, bytes_discrete, if◌then◌else◌,
  take, get_elem?,
}
use tinylayer_org.Base.Actions.{◌>>=◌, ◌>>◌, check, return}
use tinylayer_org.Wallet.Types.{message, SourceUtxo}
use tinylayer_org.Wallet.Platform.{Platform}
use tinylayer_org.Wallet.Sweep.{sort_sources}
use tinylayer_org.Native.Http.{
  address_utxo, ExplorerAddressUtxo, lists_once, retain_confirmed, max_source_utxo_candidates,
}
use tinylayer_org.Native.Explorer.{Web, Online, get_json, transaction_observation, outspend}

-- By value, the largest first, then by transaction id and index.
abbrev pub listed_le : Platform → ExplorerAddressUtxo → ExplorerAddressUtxo → Bool
listed_le p left right =
    if left.value == right.value
    then p.outpoint_le (record { txid = left.txid; vout = left.vout })
        (record { txid = right.txid; vout = right.vout })
    else ltb right.value left.value

-- A stable sort by insertion.
unfoldable pub insert_listed :
    Platform → ExplorerAddressUtxo → List ExplorerAddressUtxo → List ExplorerAddressUtxo
insert_listed p utxo [] = utxo ∷ []
insert_listed p utxo (next ∷ rest) =
    let later = insert_listed p utxo rest in
    if listed_le p utxo next then utxo ∷ next ∷ rest else next ∷ later

unfoldable pub sort_listed : Platform → List ExplorerAddressUtxo → List ExplorerAddressUtxo
sort_listed p [] = []
sort_listed p (utxo ∷ rest) = insert_listed p utxo (sort_listed p rest)

module _ (W : Web) (p : Platform) where
  -- One listed output, whose script is to be the deposit address's.
  unfoldable pub source_of : Bytes → ExplorerAddressUtxo → Online W SourceUtxo
  source_of script listed = do
    seen ← transaction_observation W p listed.txid
    observed ← check (ok_or seen (message "explorer listed a missing deposit transaction"))
    check (
        ensure (ltb 0 observed.confirmations)
          (message "explorer listed an unconfirmed deposit as confirmed"))
    output ← check (
        ok_or (get_elem? observed.transaction.output listed.vout)
          (message "deposit output index is missing"))
    check (
        ensure (output.value == listed.value)
          (message "explorer deposit amount does not match its raw transaction"))
    check (
        ensure (same bytes_discrete output.script_pubkey script)
          (message "explorer deposit does not pay the local deposit address"))
    spender ← outspend W (record { txid = listed.txid; vout = listed.vout })
    check (ensure (not spender.spent) (message "explorer listed a spent deposit output"))
    return (record {
      outpoint = record { txid = listed.txid; vout = listed.vout };
      output = output;
      confirmations = observed.confirmations;
      coinbase = W.readers.is_coinbase observed.transaction;
    })

  unfoldable pub sources_of : Bytes → List ExplorerAddressUtxo → Online W (List SourceUtxo)
  sources_of script [] = return []
  sources_of script (listed ∷ rest) = do
    source ← source_of script listed
    later ← sources_of script rest
    return (source ∷ later)

  -- The address and its script.
  unfoldable pub confirmed_source_utxos : Bytes → Bytes → Online W (List SourceUtxo)
  confirmed_source_utxos address script = do
    listed ← get_json W W.readers.read_utxos (address_utxo address)
    check (
        ensure (lists_once (retain_confirmed listed))
          (message "explorer returned a duplicate deposit output"))
    sources ←
        sources_of script
          (take max_source_utxo_candidates (sort_listed p (retain_confirmed listed)))
    return (sort_sources p sources)
