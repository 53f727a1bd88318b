-- ===== src/Wallet/Sweep/Spends.antt =====
-- wallet-core/src/funding.rs: what a sweep spends.
use tinylayer_org.Base.{
  ℕ, suc, ◌+◌, ◌*◌, ◌^◌, ◌≤◌, ◌<◌, ◌≡◌, inl, inr, Bytes, true, List, [], ◌∷◌, ok, some, arith, All,
  Option-cases, Result-cases, checked_sub, false,
}
use tinylayer_org.Extern.{Transaction, TxOut}
use tinylayer_org.Wallet.Types.{SourceUtxo, PreparedSourceSweep}
use tinylayer_org.Wallet.Platform.{Platform}
use tinylayer_org.Wallet.Source.{fee_of}
use tinylayer_org.Wallet.Sweep.{
  input_total, no_duplicates, validate_sources, sweep_transaction, sign_sweep, outputs_of,
  placeholders, build_sorted_sweep,
}

abbrev pub total_of : List SourceUtxo → ℕ
total_of [] = 0
total_of (source ∷ rest) = source.output.value + total_of rest

input_total-eq :
    (total : ℕ) (sources : List SourceUtxo) {sum : ℕ}
    → total < 2 ^ 64
    → input_total total sources ≡ some sum
    → (sum ≡ total + total_of sources) × (sum < 2 ^ 64)
unfolding input_total
input_total-eq total [] b h = ground arith
input_total-eq total (source ∷ rest) {sum} b h =
    ground (arith, input_total-eq (total + source.output.value) rest {sum = sum})

module _ (p : Platform) where
  -- A confirmed deposit to the script.
  abbrev pub IsDeposit : Bytes → SourceUtxo → Type 0
  IsDeposit script source =
      (1 ≤ source.confirmations)
      × (source.output.script_pubkey ≡ script)
      × (p.is_null source.outpoint ≡ false)

  validate_sources-All :
      (script : Bytes) (sources : List SourceUtxo)
      → validate_sources p script sources ≡ ok tt
      → All (IsDeposit script) sources
  unfolding validate_sources
  validate_sources-All script [] h = tt
  validate_sources-All script (source ∷ rest) h =
      (ground arith, validate_sources-All script rest (ground arith))

  -- Each signature is valid under the key for the hash of its input.
  abbrev pub AllSigned :
      Transaction → List TxOut → Bytes → ℕ → List SourceUtxo → List Bytes → Type 0
  AllSigned unsigned prevouts key index [] [] = Unit
  AllSigned unsigned prevouts key index [] (signature ∷ signatures) = ⊥
  AllSigned unsigned prevouts key index (source ∷ rest) [] = ⊥
  AllSigned unsigned prevouts key index (source ∷ rest) (signature ∷ signatures) =
      ((hash : Bytes) × (p.key_spend_sighash unsigned index prevouts ≡ some hash)
        × (p.verify_schnorr signature hash key ≡ true))
      × AllSigned unsigned prevouts key (suc index) rest signatures

  sign_sweep-AllSigned :
      (unsigned : Transaction) (prevouts : List TxOut) (tweaked : Bytes) (index : ℕ)
      (sources : List SourceUtxo) (signatures : List Bytes)
      → sign_sweep p unsigned prevouts tweaked index sources ≡ ok signatures
      → AllSigned unsigned prevouts (p.x_only_public_key tweaked) index sources signatures
  unfolding sign_sweep
  sign_sweep-AllSigned unsigned prevouts tweaked index [] [] h = tt
  sign_sweep-AllSigned unsigned prevouts tweaked index [] (signature ∷ signatures) h =
      absurd (ground arith)
  sign_sweep-AllSigned unsigned prevouts tweaked index (source ∷ rest) signatures h =
      elim (Option-cases (p.key_spend_sighash unsigned index prevouts)) [
        | inl e ↦ absurd (ground arith)
        | inr (hash, e) ↦
            elim (Result-cases (sign_sweep p unsigned prevouts tweaked (suc index) rest)) [
              | inr (error, f) ↦ absurd (ground arith)
              | inl (later, f) ↦
                  let all =
                    sign_sweep-AllSigned unsigned prevouts tweaked (suc index) rest later f in
                  let shape : p.sign_schnorr tweaked hash ∷ later ≡ signatures = ground arith in
                  rw (← shape) ((hash, e, ground arith), all)
            ]
      ]

  -- A built sweep of sources in the order of their outpoints.
  pub record IsSwept (secret script own : Bytes) (sources : List SourceUtxo) (rate max_fee : ℕ)
      (built : PreparedSourceSweep) : Type 0 where
    pub value : ℕ
    pub signatures : List Bytes
    pub shape : built.transaction ≡ sweep_transaction p sources signatures value script
    pub balance : value + built.fee_sat ≡ total_of sources
    pub in_u64 : total_of sources < 2 ^ 64
    pub fee :
        built.fee_sat
        ≡ rate * p.vsize (sweep_transaction p sources (placeholders p sources) 0 script)
    pub bounded : built.fee_sat ≤ max_fee
    pub not_dust : p.minimal_non_dust script ≤ value
    pub deposits : All (IsDeposit own) sources
    pub distinct : no_duplicates sources ≡ true
    pub signed :
        AllSigned
          (sweep_transaction p sources (placeholders p sources) value script)
          (outputs_of sources)
          (p.x_only_public_key (p.tap_tweak secret))
          0
          sources
          signatures

  pub build_sorted_sweep-IsSwept :
      (secret own : Bytes) (sources : List SourceUtxo) (script : Bytes) (rate max_fee : ℕ)
      (built : PreparedSourceSweep)
      → build_sorted_sweep p secret own sources script rate max_fee ≡ ok built
      → IsSwept secret script own sources rate max_fee built
  unfolding build_sorted_sweep
  build_sorted_sweep-IsSwept secret own sources script rate max_fee built h =
      let draft = sweep_transaction p sources (placeholders p sources) in
      elim (Option-cases (input_total 0 sources)) [
        | inl e1 ↦ absurd (ground arith)
        | inr (total, f1) ↦ elim (Option-cases (fee_of rate (p.vsize (draft 0 script)))) [
          | inl e2 ↦ absurd (ground arith)
          | inr (fee, f2) ↦ elim (Option-cases (checked_sub total fee)) [
            | inl e3 ↦ absurd (ground arith)
            | inr (value, f3) ↦
                elim (Result-cases (
                  sign_sweep p (draft value script) (outputs_of sources) (p.tap_tweak secret) 0
                    sources)) [
                      | inr (e4, g4) ↦ absurd (ground arith)
                      | inl (signatures, f4) ↦
                          let sum = input_total-eq 0 sources (omega arith) f1 in
                          record {
                            value = value;
                            signatures = signatures;
                            shape = ground arith;
                            balance = ground arith;
                            in_u64 = ground arith;
                            fee = ground arith;
                            bounded = ground arith;
                            not_dust = ground arith;
                            deposits = validate_sources-All own sources (ground arith);
                            distinct = ground arith;
                            signed =
                                sign_sweep-AllSigned (draft value script) (outputs_of sources)
                                  (p.tap_tweak secret) 0 sources signatures f4;
                          }
                    ]
          ]
        ]
      ]
