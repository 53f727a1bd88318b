-- ===== src/Native/Core/Prepared.antt =====
-- wallet/src/services.rs, `Core::prepare_funding`: what a node prepares is what the journal checks.
use tinylayer_org.Base.{
  ℕ, Bool, Bytes, List, [], ◌∷◌, ◌≡◌, ◌≤◌, ◌+◌, ◌==◌, refl, arith, some, ok, ensure, leb, get_elem?,
  length, All, same, bytes_discrete, if◌then◌else◌, ok_or, ltb, ◌^◌, true, false, suc, subst, sym,
  ◌∙◌,
}
use tinylayer_org.Base.Yields.{
  Yields, skip-Yields, then-Yields, check_bind-Yields, check_then-Yields, return-Yields,
}
use tinylayer_org.Base.Actions.{check}
use tinylayer_org.Extern.{Bitcoin, TxOut}
use tinylayer_org.Client.Types.{CoinKeys}
use tinylayer_org.Client.Scripts.{funding_script}
use tinylayer_org.Client.Registration.{metadata_of, validate_metadata, validate_keys}
use tinylayer_org.Client.Recovery.{verify_funding_utxo}
use tinylayer_org.Wallet.Types.{message}
use tinylayer_org.Wallet.Platform.{Platform}
use tinylayer_org.Wallet.Validation.{
  validate_funding_inputs, validate_finalized_funding, count_script,
}
use tinylayer_org.Native.Chain.{PreparedFunding}
use tinylayer_org.Native.Core.{Node, call, FinalizedPsbt}
use tinylayer_org.Native.Core.Fund.{
  check_signed, matching_from, only_match, verify_wallet, test_prepared_funding, prepare_funding,
}

length-matching_from :
    (b : Bitcoin) (script : Bytes) (vout : ℕ) (outputs : List TxOut)
    → length (matching_from script vout outputs) ≡ count_script b script outputs
unfolding matching_from count_script
length-matching_from b script vout [] = refl
length-matching_from b script vout (output ∷ rest) =
    ground (arith, length-matching_from b script (vout + 1) rest)

-- An output to the script, at its place.
abbrev IsMatch : Bytes → ℕ → List TxOut → ℕ × TxOut → Type 0
IsMatch script vout outputs (place, output) =
    (k : ℕ) × (place ≡ vout + k)
    × (get_elem? outputs k ≡ some output)
    × (output.script_pubkey ≡ script)

later_all :
    (script : Bytes) (vout : ℕ) (output : TxOut) (rest : List TxOut) (found : List (ℕ × TxOut))
    → All (IsMatch script (vout + 1) rest) found
    → All (IsMatch script vout (output ∷ rest)) found
later_all script vout output rest [] all = tt
later_all script vout output rest (one ∷ found) ((k, place, is_output, pays), all) =
    ((suc k, omega arith, is_output, pays), later_all script vout output rest found all)

all_if :
    {A : Type 0} (P : A → Type 0) (chosen : Bool) (x : A) (xs : List A)
    → (chosen ≡ true → P x)
    → All P xs
    → All P (if chosen then x ∷ xs else xs)
all_if P true x xs holds all = (holds refl, all)
all_if P false x xs holds all = all

matching_from-all :
    (script : Bytes) (vout : ℕ) (outputs : List TxOut)
    → All (IsMatch script vout outputs) (matching_from script vout outputs)
unfolding matching_from
matching_from-all script vout [] = tt
matching_from-all script vout (output ∷ rest) =
    let later =
      later_all script vout output rest (matching_from script (vout + 1) rest)
        (matching_from-all script (vout + 1) rest) in
    all_if (IsMatch script vout (output ∷ rest)) (same bytes_discrete output.script_pubkey script)
      (vout, output) (matching_from script (vout + 1) rest)
      (λ e. (0, omega arith, refl, ground arith)) later

only_match-cases :
    (script : Bytes) (vout : ℕ) (outputs : List TxOut) (found : List (ℕ × TxOut)) (one : ℕ × TxOut)
    → All (IsMatch script vout outputs) found
    → only_match found ≡ ok one
    → (length found ≡ 1) × IsMatch script vout outputs one
unfolding only_match
only_match-cases script vout outputs [] one all h = absurd (ground arith)
only_match-cases script vout outputs (first ∷ []) one all h =
    let same_one : first ≡ one = ground arith in
    (refl, subst (IsMatch script vout outputs) same_one all.0)
only_match-cases script vout outputs (first ∷ second ∷ rest) one all h = absurd (ground arith)

module _ (C : Node) (p : Platform) where
  -- The checks that a prepared transaction has passed.
  record IsChecked (keys : CoinKeys) (amount_sat max_fee_sat : ℕ) (prepared : PreparedFunding)
      : Type 0 where
    pub output : TxOut
    pub inputs : validate_funding_inputs p.bitcoin prepared.transaction ≡ ok tt
    pub found :
        only_match (matching_from (funding_script p.bitcoin keys) 0 prepared.transaction.output)
        ≡ ok (prepared.outpoint.vout, output)
    pub amount : output.value ≡ amount_sat
    pub txid : prepared.outpoint.txid ≡ p.compute_txid prepared.transaction
    pub fee : prepared.fee_sat ≤ max_fee_sat

  signed-IsChecked :
      (keys : CoinKeys) (amount_sat max_fee_sat fee : ℕ) (finalized : FinalizedPsbt)
      → fee ≤ max_fee_sat
      → Yields
          (check_signed C p keys amount_sat fee finalized)
          (IsChecked keys amount_sat max_fee_sat)
  unfolding check_signed
  signed-IsChecked keys amount_sat max_fee_sat fee finalized affordable =
      then-Yields
        (check (
          ensure finalized.complete
            (message "Bitcoin Core did not completely finalize the funding PSBT")))
        (check_bind-Yields
          (ok_or finalized.hex (message "finalized funding PSBT has no transaction"))
          (λ bytes given.
            check_bind-Yields
              (ok_or (C.deserialize bytes)
                (message "Bitcoin Core returned an invalid funding transaction"))
              (λ transaction read.
                check_then-Yields (validate_funding_inputs p.bitcoin transaction) (λ inputs.
                  check_bind-Yields
                    (only_match
                      (matching_from (funding_script p.bitcoin keys) 0 transaction.output))
                    (λ one only.
                      check_then-Yields
                        (ensure (one.1.value == amount_sat)
                          (message "funding transaction changed the Tinylayer output amount"))
                        (λ amount.
                          then-Yields
                            (check (
                              ensure (ltb one.0 (2 ^ 32))
                                (message "funding output index exceeds u32")))
                            (then-Yields (test_prepared_funding C p transaction (some fee)) (
                              return-Yields
                                (record {
                                  transaction = transaction;
                                  outpoint = record {
                                    txid = p.compute_txid transaction;
                                    vout = one.0;
                                  };
                                  fee_sat = fee;
                                })
                                (record {
                                  output = one.1;
                                  inputs = inputs;
                                  found = only;
                                  amount = ground arith;
                                  txid = refl;
                                  fee = affordable;
                                })))))))))

  prepare_funding-IsChecked :
      (keys : CoinKeys) (amount_sat fee_rate_sat_vb max_fee_sat : ℕ)
      → Yields
          (prepare_funding C p keys amount_sat fee_rate_sat_vb max_fee_sat)
          (IsChecked keys amount_sat max_fee_sat)
  unfolding prepare_funding
  prepare_funding-IsChecked keys amount_sat fee_rate_sat_vb max_fee_sat =
      then-Yields (verify_wallet C) (
        then-Yields
          (check (ensure (ltb 0 fee_rate_sat_vb) (message "funding fee rate must be positive")))
          (then-Yields
            (check (
              ensure (leb amount_sat p.bitcoin.max_money)
                (message "funding amount exceeds Bitcoin MAX_MONEY")))
            (skip-Yields
              (call "create unbroadcast funding PSBT" (
                C.wallet_create_funded_psbt
                  (record { value = amount_sat; script_pubkey = funding_script p.bitcoin keys })
                  fee_rate_sat_vb))
              (λ funded.
                check_then-Yields
                  (ensure (leb funded.fee max_fee_sat) (message "funding fee exceeds maximum"))
                  (λ affordable.
                    skip-Yields
                      (call "sign funding PSBT with Bitcoin Core wallet"
                        (C.wallet_process_psbt funded.psbt))
                      (λ processed.
                        then-Yields
                          (check (
                            ensure processed.complete
                              (message "Bitcoin Core did not completely sign the funding PSBT")))
                          (skip-Yields
                            (call "finalize funding PSBT" (C.finalize_psbt processed.psbt))
                            (λ finalized.
                              signed-IsChecked keys amount_sat max_fee_sat funded.fee finalized
                                (ground arith)))))))))

  accepted :
      (keys : CoinKeys) (prepared : PreparedFunding) (amount_sat : ℕ) (output : TxOut)
      → validate_keys keys ≡ ok tt
      → validate_funding_inputs p.bitcoin prepared.transaction ≡ ok tt
      → prepared.outpoint.txid ≡ p.compute_txid prepared.transaction
      → count_script p.bitcoin (funding_script p.bitcoin keys) prepared.transaction.output ≡ 1
      → get_elem? prepared.transaction.output prepared.outpoint.vout ≡ some output
      → output.value ≡ amount_sat
      → output.script_pubkey ≡ funding_script p.bitcoin keys
      → validate_finalized_funding p.bitcoin
          (metadata_of keys C.network prepared.outpoint amount_sat)
          prepared.transaction
        ≡ ok tt
  unfolding validate_finalized_funding metadata_of verify_funding_utxo validate_metadata
  accepted keys prepared amount_sat output valid inputs txid count at amount pays = ground arith

  -- What a node prepares for valid keys costs no more than the fee limit, and is a transaction that the
  -- check of a funding journal accepts, at the outpoint and for the amount that are given.
  pub prepare_funding-accepted :
      (keys : CoinKeys) (amount_sat fee_rate_sat_vb max_fee_sat : ℕ) (s : C.State)
      (prepared : PreparedFunding)
      → validate_keys keys ≡ ok tt
      → (prepare_funding C p keys amount_sat fee_rate_sat_vb max_fee_sat s).0 ≡ ok prepared
      → (validate_finalized_funding p.bitcoin
            (metadata_of keys C.network prepared.outpoint amount_sat)
            prepared.transaction
          ≡ ok tt)
        × (prepared.fee_sat ≤ max_fee_sat)
  prepare_funding-accepted keys amount_sat fee_rate_sat_vb max_fee_sat s prepared valid h =
      let checked =
        (prepare_funding-IsChecked keys amount_sat fee_rate_sat_vb max_fee_sat).run s prepared h in
      let script = funding_script p.bitcoin keys in
      let (one, (k, place, is_output, pays)) =
        only_match-cases script 0 prepared.transaction.output
          (matching_from script 0 prepared.transaction.output)
          (prepared.outpoint.vout, checked.output)
          (matching_from-all script 0 prepared.transaction.output) checked.found in
      let count : count_script p.bitcoin script prepared.transaction.output ≡ 1 =
        sym (length-matching_from p.bitcoin script 0 prepared.transaction.output) ∙ one in
      let here : prepared.outpoint.vout ≡ k = omega (arith, place) in
      let at : get_elem? prepared.transaction.output prepared.outpoint.vout ≡ some checked.output =
        rw here is_output in
      (
        accepted keys prepared amount_sat checked.output valid checked.inputs checked.txid count at
            checked.amount pays,
        checked.fee,
      )
