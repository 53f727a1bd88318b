-- ===== src/Wallet/Secured.antt =====
-- wallet-core/src/state.rs: the funding transaction leaves the wallet only behind a saved recovery.
use tinylayer_org.Base.{
  ◌≡◌, ◌≢◌, inl, inr, refl, subst, some, ok, arith, Option-cases, Result-cases, head, get_elem?,
}
use tinylayer_org.Extern.{Transaction}
use tinylayer_org.Client.Types.{CoinMetadata, SignedRecovery}
use tinylayer_org.Client.Scripts.{funding_script}
use tinylayer_org.Client.Recovery.{verify_funding_utxo}
use tinylayer_org.Client.Signing.{IsVerified, verify_recovery_sound}
use tinylayer_org.Wallet.Types.{WalletState, WalletCoin, FundingStage, FundingJournal}
use tinylayer_org.Wallet.Platform.{Platform}
use tinylayer_org.Wallet.Validation.{validate_finalized_funding, count_script}
use tinylayer_org.Wallet.Fund.{funding_journal, funding_transaction}

module _ (p : Platform) where
  -- A transaction that pays the coin at the outpoint of its metadata, and nowhere else.
  pub record IsFunding (metadata : CoinMetadata) (tx : Transaction) : Type 0 where
    pub id : p.compute_txid tx ≡ metadata.outpoint.txid
    pub output :
        get_elem? tx.output metadata.outpoint.vout
        ≡ some (record {
          value = metadata.amount_sat;
          script_pubkey = funding_script p.bitcoin metadata.keys;
        })
    pub once : count_script p.bitcoin (funding_script p.bitcoin metadata.keys) tx.output ≡ 1

  pub validate_finalized_funding-IsFunding :
      (metadata : CoinMetadata) (tx : Transaction)
      → validate_finalized_funding p.bitcoin metadata tx ≡ ok tt
      → IsFunding metadata tx
  unfolding validate_finalized_funding verify_funding_utxo
  validate_finalized_funding-IsFunding metadata tx h = ground arith

  -- A coin whose funding may be broadcast.
  pub record IsSecured (w : WalletState) (tx : Transaction) : Type 0 where
    pub coin : WalletCoin
    pub metadata : CoinMetadata
    pub funding : FundingJournal
    pub first : SignedRecovery
    pub has_coin : w.coin ≡ some coin
    pub has_metadata : coin.metadata ≡ some metadata
    pub has_funding : coin.funding ≡ some funding
    pub saved : funding.transaction ≡ tx
    pub past_prepared : funding.stage ≢ FundingStage.prepared
    pub has_first : head coin.history ≡ some first
    pub delay : first.delay_blocks ≡ funding.delay_blocks
    pub verified : IsVerified p.bitcoin metadata first
    pub pays : IsFunding metadata tx

  pub funding_journal-IsSecured :
      (w : WalletState) (coin : WalletCoin) (funding : FundingJournal)
      → funding_journal p w ≡ ok (coin, funding)
      → IsSecured w funding.transaction
  unfolding funding_journal
  funding_journal-IsSecured w coin funding h = elim (Option-cases coin.metadata) [
    | inl e ↦ absurd (ground arith)
    | inr (metadata, e) ↦ elim (Option-cases (head coin.history)) [
      | inl f ↦ absurd (ground arith)
      | inr (first, f) ↦ record {
        coin = coin;
        metadata = metadata;
        funding = funding;
        first = first;
        has_coin = ground arith;
        has_metadata = e;
        has_funding = ground arith;
        saved = refl;
        past_prepared = ground arith;
        has_first = f;
        delay = ground arith;
        verified = verify_recovery_sound p.bitcoin metadata first (ground arith);
        pays = validate_finalized_funding-IsFunding metadata funding.transaction (ground arith);
      }
    ]
  ]

  -- A wallet that gives out its funding transaction is past the prepared stage and holds a first
  -- recovery that is verified and has the planned delay; the transaction has the id of the outpoint
  -- that the recovery spends, makes that output with the coin's amount and script, and only once.
  pub funding_transaction-IsSecured :
      (w : WalletState) (tx : Transaction) → funding_transaction p w ≡ ok tx → IsSecured w tx
  unfolding funding_transaction
  funding_transaction-IsSecured w tx h = elim (Result-cases (funding_journal p w)) [
    | inr (error, e) ↦ absurd (ground arith)
    | inl ((coin, funding), e) ↦
        subst (IsSecured w) (ground arith) (funding_journal-IsSecured w coin funding e)
  ]
