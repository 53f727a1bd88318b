-- ===== src/Client/Package.antt =====
-- client/src/lib.rs: the exit child pays the package's fee out of the recovered amount, and nothing
-- else.
use tinylayer_org.Base.{
  ℕ, Bytes, ◌+◌, ◌≡◌, ◌≤◌, refl, [], ◌∷◌, ok, arith, List, length, Option-cases, inl, inr, true,
  false, some, ◌==◌, ◌⊎◌, replicate, checked_sub,
}
use tinylayer_org.Extern.{Bitcoin, TxOut, Transaction}
use tinylayer_org.Client.Types.{SignedRecovery}
use tinylayer_org.Client.Exit.{narrow, child_of, package_fee, build_exit_child}

one_output : (l : List TxOut) → ((length l == 1) ≡ false) ⊎ ((x : TxOut) × (l ≡ x ∷ []))
one_output [] = inl refl
one_output (x ∷ []) = inr (x, refl)
one_output (x ∷ y ∷ l) = inl (ground arith)

module _ (b : Bitcoin) where
  -- A child that spends a parent's only output, by a signature of the withdrawal key over the child's
  -- own signature hash, which does not depend on the witness that stands in it.
  pub record Pays (recovery : SignedRecovery) (amount : ℕ) (secret destination : Bytes) (rate : ℕ)
      (child : Transaction) : Type 0 where
    pub value : ℕ
    pub signature : Bytes
    pub hash : Bytes
    pub shape :
        child ≡ child_of b (b.compute_txid recovery.transaction) (signature ∷ []) value destination
    pub conserves : value + package_fee b rate recovery.transaction amount destination ≡ amount
    pub not_dust : b.minimal_non_dust destination ≤ value
    pub own : b.x_only_public_key secret ≡ recovery.withdrawal_xonly_pubkey
    pub spends :
        recovery.transaction.output
        ≡ record { value = amount; script_pubkey = b.new_p2tr (b.x_only_public_key secret) } ∷ []
    pub hashed :
        b.key_spend_sighash
          (child_of b (b.compute_txid recovery.transaction) (replicate 64 0 ∷ []) value destination)
          0
          recovery.transaction.output
        ≡ some hash
    pub signed : b.verify_schnorr signature hash (b.x_only_public_key (b.tap_tweak secret)) ≡ true

  -- A child that was built sends to the destination all of the amount but the fee of the two
  -- transactions, spends the recovery's one output, and carries the owner's signature, which is valid for the
  -- signature hash of just this child, with that value and destination, over the spent output.
  pub build_exit_child-Pays :
      (recovery : SignedRecovery) (amount : ℕ) (secret destination : Bytes) (rate : ℕ)
      (child : Transaction)
      → build_exit_child b recovery amount secret destination rate ≡ ok child
      → Pays recovery amount secret destination rate child
  unfolding build_exit_child
  build_exit_child-Pays recovery amount secret destination rate child h =
      let parent = recovery.transaction in
      elim (one_output parent.output) [
        | inl other ↦ absurd (ground arith)
        | inr (spent, one) ↦
            elim (Option-cases
              (narrow (checked_sub amount (package_fee b rate parent amount destination)))) [
                | inl poor ↦ absurd (ground arith)
                | inr (value, paid) ↦
                    elim (Option-cases (
                      b.key_spend_sighash
                        (child_of b (b.compute_txid parent) (replicate 64 0 ∷ []) value destination)
                        0 (spent ∷ []))) [
                          | inl no_hash ↦ absurd (ground arith)
                          | inr (hash, hashed) ↦ record {
                            value = value;
                            signature = b.sign_schnorr (b.tap_tweak secret) hash;
                            hash = hash;
                            shape = ground arith;
                            conserves = ground arith;
                            not_dust = ground arith;
                            own = ground arith;
                            spends = ground arith;
                            hashed = ground arith;
                            signed = ground arith;
                          }
                        ]
              ]
      ]
