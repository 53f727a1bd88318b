-- ===== src/Wallet/Deposits.antt =====
-- wallet-core/src/funding.rs: the funding transaction spends the deposit on the coin, the change and
-- a bounded fee.
use tinylayer_org.Base.{
  ℕ, ◌+◌, ◌*◌, Bytes, ◌≡◌, ◌≤◌, inl, inr, [], ◌∷◌, ok, arith, Option-cases, replicate,
}
use tinylayer_org.Extern.{Transaction}
use tinylayer_org.Client.Types.{NetworkId, CoinKeys}
use tinylayer_org.Client.Scripts.{funding_script}
use tinylayer_org.Wallet.Types.{SourceUtxo, PreparedSourceFunding}
use tinylayer_org.Wallet.Platform.{Platform}
use tinylayer_org.Wallet.Validation.{validate_funding_inputs}
use tinylayer_org.Wallet.Source.{
  source_funding_script, funding_transaction_of, build_source_funding, fee_of, change_of,
}

module _ (p : Platform) where
  pub record IsBalanced (keys : CoinKeys) (network : NetworkId) (secret : Bytes)
      (source : SourceUtxo) (amount rate max_fee : ℕ) (built : PreparedSourceFunding) : Type 0 where
    pub change : ℕ
    pub signature : Bytes
    pub shape :
        built.transaction
        ≡ funding_transaction_of p source.outpoint
            (signature ∷ [])
            amount
            (funding_script p.bitcoin keys)
            change
            (source_funding_script p secret network)
    pub id : built.outpoint ≡ record { txid = p.compute_txid built.transaction; vout = 0 }
    pub balance : amount + change + built.fee_sat ≡ source.output.value
    pub fee :
        built.fee_sat
        ≡ rate
          * p.vsize (
              funding_transaction_of p source.outpoint
                (replicate 64 0 ∷ [])
                amount
                (funding_script p.bitcoin keys)
                0
                (source_funding_script p secret network))
    pub bounded : built.fee_sat ≤ max_fee
    pub own : source.output.script_pubkey ≡ source_funding_script p secret network
    pub in_supply : amount ≤ p.max_money
    pub change_not_dust : p.minimal_non_dust (source_funding_script p secret network) ≤ change
    pub standard : validate_funding_inputs p.bitcoin built.transaction ≡ ok tt

  module _ (keys : CoinKeys) (network : NetworkId) (secret : Bytes) (source : SourceUtxo)
      (amount rate max_fee : ℕ) (built : PreparedSourceFunding) where
    draft : Transaction
    draft =
        funding_transaction_of p source.outpoint (replicate 64 0 ∷ []) amount
          (funding_script p.bitcoin keys) 0 (source_funding_script p secret network)

    -- What was built spends the deposit in full: the coin's amount, the change and the fee, which is
    -- the rate times the size and within the limit.
    pub build_source_funding-IsBalanced :
        build_source_funding p keys network secret source amount rate max_fee ≡ ok built
        → IsBalanced keys network secret source amount rate max_fee built
    unfolding build_source_funding draft
    build_source_funding-IsBalanced h = elim (Option-cases (fee_of rate (p.vsize draft))) [
      | inl e ↦ absurd (ground arith)
      | inr (fee, e) ↦ elim (Option-cases (change_of source.output.value amount fee)) [
        | inl f ↦ absurd (ground arith)
        | inr (change, f) ↦
            elim (Option-cases (
              p.key_spend_sighash
                (funding_transaction_of p source.outpoint (replicate 64 0 ∷ []) amount
                  (funding_script p.bitcoin keys) change (source_funding_script p secret network))
                0 (source.output ∷ []))) [
                  | inl g ↦ absurd (ground arith)
                  | inr (hash, g) ↦ record {
                    change = change;
                    signature = p.sign_schnorr (p.tap_tweak secret) hash;
                    shape = ground arith;
                    id = ground arith;
                    balance = ground arith;
                    fee = ground arith;
                    bounded = ground arith;
                    own = ground arith;
                    in_supply = ground arith;
                    change_not_dust = ground arith;
                    standard = ground arith;
                  }
                ]
      ]
    ]
