-- ===== src/Client/Signing.antt =====
-- client/src/lib.rs: what a verified recovery is, and that the client's own recoveries verify.
use tinylayer_org.Base.{
  ℕ, Bytes, ◌≡◌, ◌≢◌, ◌⊎◌, ◌≤◌, refl, List, [], ◌∷◌, ok, arith, single, none, some, true, false,
  Result-cases, inl, inr, Option-cases,
}
use tinylayer_org.Extern.{Bitcoin, OutPoint, TxIn, Transaction}
use tinylayer_org.Enclave.Types.{SignRequest, SignResponse}
use tinylayer_org.Client.Types.{CoinKeys, CoinMetadata, SignedRecovery, PreparedRecovery}
use tinylayer_org.Client.Scripts.{recovery_sighash, verify_signature}
use tinylayer_org.Client.Registration.{validate_metadata}
use tinylayer_org.Client.Recovery.{
  four, push_witness, recovery_transaction, canonical_recovery, unlocking, verify_witness,
  verify_signed_recovery, complete_recovery, verify_recovery,
}

four_cases : (w : List Bytes) → (four w ≡ none) ⊎ ((e c s k : Bytes) × (w ≡ e ∷ c ∷ s ∷ k ∷ []))
four_cases [] = inl refl
four_cases (e ∷ []) = inl refl
four_cases (e ∷ c ∷ []) = inl refl
four_cases (e ∷ c ∷ s ∷ []) = inl refl
four_cases (e ∷ c ∷ s ∷ k ∷ []) = inr (e, c, s, k, refl)
four_cases (e ∷ c ∷ s ∷ k ∷ m ∷ w) = inl refl

single_cases : (l : List TxIn) → (single l ≡ none) ⊎ ((x : TxIn) × (l ≡ x ∷ []))
single_cases [] = inl refl
single_cases (x ∷ []) = inr (x, refl)
single_cases (x ∷ y ∷ l) = inl refl

module _ (b : Bitcoin) where
  -- The canonical recovery of an outpoint: within the money supply, above dust, and with a delay
  -- that a BIP68 block count can hold.
  pub record IsCanonical (outpoint : OutPoint) (amount withdrawal_delay : ℕ) (key : Bytes)
      (tx : Transaction) : Type 0 where
    pub spendable : b.is_null outpoint ≡ false
    pub in_supply : amount ≤ b.max_money
    pub delayed : 1 ≤ withdrawal_delay
    pub in_u16 : withdrawal_delay ≤ 65535
    pub not_dust : b.minimal_non_dust (b.new_p2tr key) ≤ amount
    pub shape : tx ≡ recovery_transaction b outpoint amount key withdrawal_delay

  pub canonical_recovery-IsCanonical :
      (outpoint : OutPoint) (amount : ℕ) (key : Bytes) (delay : ℕ) (tx : Transaction)
      → canonical_recovery b outpoint amount key delay ≡ ok tx
      → IsCanonical outpoint amount delay key tx
  unfolding canonical_recovery
  canonical_recovery-IsCanonical outpoint amount key delay tx h = ground arith

  pub IsCanonical-canonical_recovery :
      (outpoint : OutPoint) (amount : ℕ) (key : Bytes) (delay : ℕ) (tx : Transaction)
      → IsCanonical outpoint amount delay key tx
      → canonical_recovery b outpoint amount key delay ≡ ok tx
  unfolding canonical_recovery
  IsCanonical-canonical_recovery outpoint amount key delay tx v = ground arith

  -- A transaction that carries the two signatures of a coin's keys over its own signature hash.
  pub record IsUnlocked (keys : CoinKeys) (amount : ℕ) (tx : Transaction) : Type 0 where
    pub input : TxIn
    pub enclave_signature : Bytes
    pub client_signature : Bytes
    pub hash : Bytes
    pub one_input : tx.input ≡ input ∷ []
    pub items :
        (enclave_bytes : Bytes) × (client_bytes : Bytes) × (input.witness
          ≡ unlocking b keys enclave_bytes client_bytes)
        × (b.signature_from_slice enclave_bytes ≡ some enclave_signature)
        × (b.signature_from_slice client_bytes ≡ some client_signature)
    pub hashed : recovery_sighash b tx amount keys ≡ ok hash
    pub enclave_signed : b.verify_schnorr enclave_signature hash keys.enclave_pubkey ≡ true
    pub client_signed : b.verify_schnorr client_signature hash keys.client_pubkey ≡ true

  verify_witness_sound :
      (tx : Transaction) (amount : ℕ) (keys : CoinKeys) (input : TxIn) (e c s k : Bytes)
      → tx.input ≡ input ∷ []
      → input.witness ≡ e ∷ c ∷ s ∷ k ∷ []
      → verify_witness b tx amount keys (e, c, s, k) ≡ ok tt
      → IsUnlocked keys amount tx
  unfolding verify_witness unlocking verify_signature
  verify_witness_sound tx amount keys input e c s k one items h =
      elim (Option-cases (b.signature_from_slice e)) [
        | inl no_enclave ↦ absurd (ground arith)
        | inr (enclave_signature, f) ↦ elim (Option-cases (b.signature_from_slice c)) [
          | inl no_client ↦ absurd (ground arith)
          | inr (client_signature, g) ↦ elim (Result-cases (recovery_sighash b tx amount keys)) [
            | inr (error, no_hash) ↦ absurd (ground arith)
            | inl (hash, q) ↦ record {
              input = input;
              enclave_signature = enclave_signature;
              client_signature = client_signature;
              hash = hash;
              one_input = one;
              items = (e, c, ground arith, f, g);
              hashed = q;
              enclave_signed = ground arith;
              client_signed = ground arith;
            }
          ]
        ]
      ]

  pub verify_signed_recovery_sound :
      (tx : Transaction) (amount : ℕ) (keys : CoinKeys)
      → verify_signed_recovery b tx amount keys ≡ ok tt
      → IsUnlocked keys amount tx
  unfolding verify_signed_recovery
  verify_signed_recovery_sound tx amount keys h = elim (single_cases tx.input) [
    | inl none_or_more ↦ absurd (ground arith)
    | inr (input, one) ↦ elim (four_cases input.witness) [
      | inl other ↦ absurd (ground arith)
      | inr (e, c, s, k, items) ↦
          verify_witness_sound tx amount keys input e c s k one items (ground arith)
    ]
  ]

  -- What `verify_recovery` accepts: the canonical transaction but for its witness, which unlocks the
  -- coin's funding output.
  pub record IsVerified (metadata : CoinMetadata) (recovery : SignedRecovery) : Type 0 where
    pub distinct_keys : metadata.keys.client_pubkey ≢ metadata.keys.enclave_pubkey
    pub unlocked : IsUnlocked metadata.keys metadata.amount_sat recovery.transaction
    pub canonical :
        IsCanonical metadata.outpoint metadata.amount_sat recovery.delay_blocks
          recovery.withdrawal_xonly_pubkey
          (record (recovery.transaction) { input = record (unlocked.input) { witness = [] } ∷ [] })

  -- A recovery that `verify_recovery` accepts is canonical but for its witness, which holds valid
  -- signatures of both keys, the leaf and the control block; and the two keys differ.
  pub verify_recovery_sound :
      (metadata : CoinMetadata) (recovery : SignedRecovery)
      → verify_recovery b metadata recovery ≡ ok tt
      → IsVerified metadata recovery
  unfolding verify_recovery validate_metadata
  verify_recovery_sound metadata recovery h =
      elim (Result-cases (
        canonical_recovery b metadata.outpoint metadata.amount_sat recovery.withdrawal_xonly_pubkey
          recovery.delay_blocks)) [
            | inr (error, f) ↦ absurd (ground arith)
            | inl (expected, f) ↦
                let u =
                  verify_signed_recovery_sound recovery.transaction metadata.amount_sat
                    metadata.keys (ground arith) in
                let one = u.one_input in
                record {
                  distinct_keys = ground arith;
                  unlocked = u;
                  canonical =
                      canonical_recovery-IsCanonical metadata.outpoint metadata.amount_sat
                        recovery.withdrawal_xonly_pubkey recovery.delay_blocks
                        (record (recovery.transaction) {
                          input = record (u.input) { witness = [] } ∷ [];
                        })
                        (ground arith);
                }
          ]

  -- A recovery that the client completes is one that `verify_recovery` accepts, with the delay and the
  -- withdrawal key that were prepared.
  pub complete_recovery-verified :
      (request : SignRequest) (response : SignResponse) (prepared : PreparedRecovery)
      (secret : Bytes) (recovery : SignedRecovery)
      → complete_recovery b request response prepared secret ≡ ok recovery
      → (verify_recovery b prepared.metadata recovery ≡ ok tt)
        × (recovery.delay_blocks ≡ prepared.delay_blocks)
        × (recovery.withdrawal_xonly_pubkey ≡ prepared.withdrawal_xonly_pubkey)
  unfolding complete_recovery verify_recovery recovery_transaction push_witness
  complete_recovery-verified request response prepared secret recovery h =
      let metadata = prepared.metadata in
      elim (Result-cases (
        canonical_recovery b metadata.outpoint metadata.amount_sat prepared.withdrawal_xonly_pubkey
          prepared.delay_blocks)) [
            | inr (error, f) ↦ absurd (ground arith)
            | inl (expected, f) ↦
                let shape =
                  (canonical_recovery-IsCanonical metadata.outpoint metadata.amount_sat
                    prepared.withdrawal_xonly_pubkey prepared.delay_blocks expected f).shape in
                ground arith
          ]
