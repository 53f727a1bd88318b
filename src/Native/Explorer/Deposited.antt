-- ===== src/Native/Explorer/Deposited.antt =====
-- wallet/src/services.rs, `confirmed_source_utxos`: what the deposits are, that an explorer gives.
use tinylayer_org.Base.{
  ℕ, zero, suc, ◌==◌, not, ltb, Bytes, ◌≡◌, ◌≤◌, ◌<◌, refl, inl, inr, List, [], ◌∷◌, Bool-cases,
  some, ok, arith, All, get_elem?, length, take, same, bytes_discrete, ok_or, ensure,
}
use tinylayer_org.Base.Actions.{check}
use tinylayer_org.Base.Yields.{
  Yields, bind-Yields, skip-Yields, then-Yields, check_bind-Yields, check_then-Yields,
  return-Yields,
}
use tinylayer_org.Extern.{Transaction}
use tinylayer_org.Wallet.Types.{SourceUtxo, message}
use tinylayer_org.Wallet.Platform.{Platform}
use tinylayer_org.Wallet.Sweep.{insert_source, sort_sources}
use tinylayer_org.Native.Http.{
  ExplorerAddressUtxo, lists_once, retain_confirmed, max_source_utxo_candidates,
}
use tinylayer_org.Native.Explorer.{Web, get_json, address_utxo, outspend}
use tinylayer_org.Native.Explorer.Deposits.{
  source_of, sources_of, confirmed_source_utxos, sort_listed,
}
use tinylayer_org.Native.Explorer.Observed.{transaction_observation-IsObserved}

module _ (W : Web) (p : Platform) where
  -- A deposit output that was checked: an output of a transaction with that id, to that script.
  pub record IsDepositOutput (script : Bytes) (source : SourceUtxo) : Type 0 where
    pub transaction : Transaction
    pub same_txid : p.compute_txid transaction ≡ source.outpoint.txid
    pub is_output : get_elem? transaction.output source.outpoint.vout ≡ some source.output
    pub pays : source.output.script_pubkey ≡ script
    pub confirmed : 0 < source.confirmations

  source_of-IsDepositOutput :
      (script : Bytes) (listed : ExplorerAddressUtxo)
      → Yields (source_of W p script listed) (IsDepositOutput script)
  unfolding source_of
  source_of-IsDepositOutput script listed =
      bind-Yields (transaction_observation-IsObserved W p listed.txid) (λ seen known.
        check_bind-Yields (ok_or seen (message "explorer listed a missing deposit transaction"))
          (λ observed found.
            check_then-Yields
              (ensure (ltb 0 observed.confirmations)
                (message "explorer listed an unconfirmed deposit as confirmed"))
              (λ confirmed.
                check_bind-Yields
                  (ok_or (get_elem? observed.transaction.output listed.vout)
                    (message "deposit output index is missing"))
                  (λ output held.
                    then-Yields
                      (check (
                        ensure (output.value == listed.value)
                          (message "explorer deposit amount does not match its raw transaction")))
                      (check_then-Yields
                        (ensure (same bytes_discrete output.script_pubkey script)
                          (message "explorer deposit does not pay the local deposit address"))
                        (λ pays.
                          skip-Yields
                            (outspend W (record { txid = listed.txid; vout = listed.vout }))
                            (λ spender.
                              then-Yields
                                (check (
                                  ensure (not spender.spent)
                                    (message "explorer listed a spent deposit output")))
                                (return-Yields
                                  (record {
                                    outpoint = record { txid = listed.txid; vout = listed.vout };
                                    output = output;
                                    confirmations = observed.confirmations;
                                    coinbase = W.readers.is_coinbase observed.transaction;
                                  })
                                  (record {
                                    transaction = observed.transaction;
                                    same_txid = (known observed (ground arith)).same_txid;
                                    is_output = ground arith;
                                    pays = ground arith;
                                    confirmed = ground arith;
                                  })))))))))

  sources_of-all :
      (script : Bytes) (listed : List ExplorerAddressUtxo)
      → Yields
          (sources_of W p script listed)
          (λ sources. All (IsDepositOutput script) sources × (length sources ≡ length listed))
  unfolding sources_of
  sources_of-all script [] = return-Yields [] (tt, refl)
  sources_of-all script (listed ∷ rest) =
      bind-Yields (source_of-IsDepositOutput script listed) (λ source seen.
        bind-Yields (sources_of-all script rest)
          (λ later known. return-Yields (source ∷ later) ((seen, known.0), omega (arith, known.1))))

  insert_source-all :
      (P : SourceUtxo → Type 0) (source : SourceUtxo) (sources : List SourceUtxo)
      → P source
      → All P sources
      → All P (insert_source p source sources)
        × (length (insert_source p source sources) ≡ suc (length sources))
  unfolding insert_source
  insert_source-all P source [] first all = ((first, tt), refl)
  insert_source-all P source (next ∷ rest) first (second, all) =
      let (kept, longer) = insert_source-all P source rest first all in
      elim (Bool-cases (p.outpoint_le source.outpoint next.outpoint)) [
        | inl e ↦ rw e ((first, (second, all)), refl)
        | inr e ↦ rw e ((second, kept), omega (arith, longer))
      ]

  sort_sources-all :
      (P : SourceUtxo → Type 0) (sources : List SourceUtxo)
      → All P sources
      → All P (sort_sources p sources) × (length (sort_sources p sources) ≡ length sources)
  unfolding sort_sources
  sort_sources-all P [] all = (tt, refl)
  sort_sources-all P (source ∷ rest) (first, all) =
      let (kept, same_length) = sort_sources-all P rest all in
      let (added, longer) = insert_source-all P source (sort_sources p rest) first kept in
      (added, omega (arith, same_length, longer))

  length-take-le : {A : Type 0} (n : ℕ) (xs : List A) → length (take n xs) ≤ n
  length-take-le zero xs = omega arith
  length-take-le (suc n) [] = omega arith
  length-take-le (suc n) (x ∷ xs) = omega (arith, length-take-le n xs)

  -- Whatever an explorer answers, each deposit that it gives is a confirmed output, to the address's
  -- script, of a transaction with the deposit's id, and there are at most 256 of them.
  pub confirmed_source_utxos-IsDepositOutput :
      (address script : Bytes) (s : W.State) (sources : List SourceUtxo)
      → (confirmed_source_utxos W p address script s).0 ≡ ok sources
      → All (IsDepositOutput script) sources × (length sources ≤ 256)
  unfolding confirmed_source_utxos
  confirmed_source_utxos-IsDepositOutput address script = yields.run
    where
      yields :
          Yields
            (confirmed_source_utxos W p address script)
            (λ sources. All (IsDepositOutput script) sources × (length sources ≤ 256))
      yields = skip-Yields (get_json W W.readers.read_utxos (address_utxo address)) (λ listed.
          let candidates =
            take max_source_utxo_candidates (sort_listed p (retain_confirmed listed)) in
          then-Yields
            (check (
              ensure (lists_once (retain_confirmed listed))
                (message "explorer returned a duplicate deposit output")))
            (bind-Yields (sources_of-all script candidates) (λ sources known.
              let (all, same_length) = sort_sources-all (IsDepositOutput script) sources known.0 in
              return-Yields (sort_sources p sources) (
                all,
                omega (
                  arith,
                  same_length,
                  known.1,
                  length-take-le 256 (sort_listed p (retain_confirmed listed)),
                ),
              ))))
