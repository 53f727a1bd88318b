-- ===== src/Wallet/Exits.antt =====
-- wallet-core/src/exit.rs: what a saved exit is worth, and its stages.
use tinylayer_org.Base.{
  ℕ, Bytes, ◌≡◌, ◌≤◌, inl, inr, subst, ok, arith, Option-cases, Result-cases, some, get_elem?,
}
use tinylayer_org.Extern.{Transaction}
use tinylayer_org.Client.Types.{NetworkId, CoinMetadata, SignedRecovery}
use tinylayer_org.Client.Recovery.{verify_recovery}
use tinylayer_org.Client.Signing.{IsVerified, verify_recovery_sound}
use tinylayer_org.Client.Exit.{package_fee, build_exit_child, child_of}
use tinylayer_org.Client.Package.{Pays, build_exit_child-Pays}
use tinylayer_org.Wallet.Types.{WalletCoin}
use tinylayer_org.Wallet.Platform.{Platform}
use tinylayer_org.Wallet.Exit.{
  ExitPackage, ExitStage, ExitJournal, owned_recovery, exit_fee, validate_package, prepare_package,
  prepare_exit, arm_submission, validate_observed_parent, mark_observed,
}

module _ (p : Platform) where
  -- A package that pays its own way: the parent is the coin's owned recovery, which is verified and
  -- pays the coin's withdrawal key, and the child sends the coin's amount, but for a fee within the
  -- limit, to the destination, signed by that key.
  pub record IsPayable (saved : ExitPackage) (coin : WalletCoin) : Type 0 where
    pub metadata : CoinMetadata
    pub recovery : SignedRecovery
    pub secret : Bytes
    pub destination : Bytes
    pub index : ℕ
    pub of_coin : coin.metadata ≡ some metadata
    pub same_network : metadata.network ≡ saved.network
    pub owned_at : coin.withdrawal_recovery_index ≡ some index
    pub owned : get_elem? coin.history index ≡ some recovery
    pub own_secret :
        (kept : Bytes) × (coin.withdrawal_secret ≡ some kept)
        × (p.secret_from_slice kept ≡ some secret)
    pub delay : recovery.delay_blocks ≡ saved.recovery_delay_blocks
    pub addressed : p.address_script saved.destination saved.network ≡ some destination
    pub parent_is : recovery.transaction ≡ saved.parent
    pub verified : IsVerified p.bitcoin metadata recovery
    pub pays :
        Pays p.bitcoin recovery metadata.amount_sat secret destination saved.fee_rate_sat_vb
          saved.child
    pub fee :
        saved.fee_sat
        ≡ package_fee p.bitcoin saved.fee_rate_sat_vb saved.parent metadata.amount_sat destination
    pub bounded : saved.fee_sat ≤ saved.max_fee_sat

  -- What a coin says of the recovery that it owns.
  record IsOwned (coin : WalletCoin) (network : NetworkId) (metadata : CoinMetadata)
      (recovery : SignedRecovery) (secret : Bytes) : Type 0 where
    verified : verify_recovery p.bitcoin metadata recovery ≡ ok tt
    of_coin : coin.metadata ≡ some metadata
    same_network : metadata.network ≡ network
    index : ℕ
    owned_at : coin.withdrawal_recovery_index ≡ some index
    owned : get_elem? coin.history index ≡ some recovery
    kept : Bytes
    saved : coin.withdrawal_secret ≡ some kept
    read : p.secret_from_slice kept ≡ some secret

  owned_recovery-IsOwned :
      (coin : WalletCoin) (network : NetworkId) (metadata : CoinMetadata)
      (recovery : SignedRecovery) (secret : Bytes)
      → owned_recovery p coin network ≡ ok (metadata, recovery, secret)
      → IsOwned coin network metadata recovery secret
  unfolding owned_recovery
  owned_recovery-IsOwned coin network metadata recovery secret h =
      elim (Option-cases coin.withdrawal_recovery_index) [
        | inl e ↦ absurd (ground arith)
        | inr (index, e) ↦ elim (Option-cases coin.withdrawal_secret) [
          | inl f ↦ absurd (ground arith)
          | inr (kept, f) ↦ record {
            verified = ground arith;
            of_coin = ground arith;
            same_network = ground arith;
            index = index;
            owned_at = e;
            owned = ground arith;
            kept = kept;
            saved = f;
            read = ground arith;
          }
        ]
      ]

  package-parts :
      (saved : ExitPackage) (coin : WalletCoin) (destination : Bytes) (metadata : CoinMetadata)
      (recovery : SignedRecovery) (secret : Bytes) (child : Transaction)
      → p.address_script saved.destination saved.network ≡ some destination
      → owned_recovery p coin saved.network ≡ ok (metadata, recovery, secret)
      → build_exit_child p.bitcoin recovery metadata.amount_sat secret destination
          saved.fee_rate_sat_vb
        ≡ ok child
      → validate_package p saved coin ≡ ok tt
      → IsPayable saved coin
  unfolding validate_package exit_fee child_of
  package-parts saved coin destination metadata recovery secret child f1 f2 f3 h =
      let paid =
        build_exit_child-Pays p.bitcoin recovery metadata.amount_sat secret destination
          saved.fee_rate_sat_vb child f3 in
      let conserves = paid.conserves in
      let shape = paid.shape in
      let mine = owned_recovery-IsOwned coin saved.network metadata recovery secret f2 in
      record {
        metadata = metadata;
        recovery = recovery;
        secret = secret;
        destination = destination;
        index = mine.index;
        of_coin = mine.of_coin;
        same_network = mine.same_network;
        owned_at = mine.owned_at;
        owned = mine.owned;
        own_secret = (mine.kept, mine.saved, mine.read);
        delay = ground arith;
        addressed = f1;
        parent_is = ground arith;
        verified = verify_recovery_sound p.bitcoin metadata recovery mine.verified;
        pays =
            subst
              (Pays p.bitcoin recovery metadata.amount_sat secret destination saved.fee_rate_sat_vb)
              (ground arith) paid;
        fee = ground arith;
        bounded = ground arith;
      }

  -- A saved package that validates against a coin has as its parent the recovery that the coin owns,
  -- verified against the coin's metadata, and a child that pays all of the coin's amount but the
  -- package's fee to the destination, signed by the coin's withdrawal key. The fee is exact, for both
  -- transactions at the saved rate, and within the saved limit.
  pub validate_package-IsPayable :
      (saved : ExitPackage) (coin : WalletCoin)
      → validate_package p saved coin ≡ ok tt
      → IsPayable saved coin
  unfolding validate_package
  validate_package-IsPayable saved coin h =
      elim (Option-cases (p.address_script saved.destination saved.network)) [
        | inl e1 ↦ absurd (ground arith)
        | inr (destination, f1) ↦ elim (Result-cases (owned_recovery p coin saved.network)) [
          | inr (e2, g2) ↦ absurd (ground arith)
          | inl ((metadata, recovery, secret), f2) ↦
              elim (Result-cases (
                build_exit_child p.bitcoin recovery metadata.amount_sat secret destination
                  saved.fee_rate_sat_vb)) [
                    | inr (e3, g3) ↦ absurd (ground arith)
                    | inl (child, f3) ↦
                        package-parts saved coin destination metadata recovery secret child f1 f2 f3
                          h
                  ]
        ]
      ]

  -- A prepared exit has matured, keeps within the fee limit, and can be armed for submission as it
  -- stands.
  pub prepare_exit-arms :
      (coin : WalletCoin) (network : NetworkId) (destination : Bytes)
      (confirmations rate max_fee : ℕ) (journal : ExitJournal)
      → prepare_exit p coin network destination confirmations rate max_fee ≡ ok journal
      → (journal.stage ≡ ExitStage.prepared)
        × (journal.exit_package.recovery_delay_blocks ≤ confirmations)
        × (journal.exit_package.fee_sat ≤ max_fee)
        × (arm_submission p coin journal
            ≡ (ok tt, record journal { stage = ExitStage.submission_armed }))
  unfolding prepare_exit prepare_package arm_submission
  prepare_exit-arms coin network destination confirmations rate max_fee journal h = ground arith

  -- An exit is marked observed only if it was armed, at the saved child's exact bytes and a parent of
  -- the saved id, and it then stays payable and keeps the package.
  pub mark_observed-armed :
      (coin : WalletCoin) (parent child : Transaction) (journal later : ExitJournal)
      → mark_observed p coin parent child journal ≡ (ok tt, later)
      → (journal.stage ≡ ExitStage.submission_armed)
        × (child ≡ journal.exit_package.child)
        × (p.compute_txid parent ≡ p.compute_txid journal.exit_package.parent)
        × (later ≡ record journal { stage = ExitStage.observed })
        × IsPayable later.exit_package coin
  unfolding mark_observed validate_observed_parent
  mark_observed-armed coin parent child journal later h =
      let payable = validate_package-IsPayable journal.exit_package coin (ground arith) in
      (
        ground arith,
        ground arith,
        ground arith,
        ground arith,
        subst (λ (e : ExitPackage). IsPayable e coin) (ground arith) payable,
      )
