-- ===== src/Wallet/Exit.antt =====
-- wallet-core/src/exit.rs: the unilateral exit, its package and its journal.
use tinylayer_org.Base.{
  ℕ, suc, Bytes, Bool, true, List, [], ◌∷◌, Result, ok, ensure, ok_or, ◌>>=◌, ◌>>◌, not, ◌==◌, ◌&&◌,
  ◌||◌, leb, ltb, same, bytes_discrete, get_elem?, head, Option, none, some, Action, commit,
  checked_sub, if◌then◌else◌,
}
use tinylayer_org.Extern.{Transaction, Transaction_discrete}
use tinylayer_org.Client.Types.{NetworkId, NetworkId_discrete, CoinMetadata, SignedRecovery}
use tinylayer_org.Client.Recovery.{verify_recovery}
use tinylayer_org.Client.Exit.{build_exit_child}
use tinylayer_org.Wallet.Types.{
  Failure, message, lift, WalletCoin, ObservedFunding, file_format_version,
}
use tinylayer_org.Wallet.Platform.{Platform}
use tinylayer_org.Wallet.Validation.{verify_observed_funding_output}
use tinylayer_org.Wallet.Package.{secret_xonly}
use tinylayer_org.Wallet.Send.{is_broadcast}

pub record ExitPackage : Type 0 where
  pub format_version : ℕ
  pub network : NetworkId
  pub destination : Bytes
  pub fee_rate_sat_vb : ℕ
  pub max_fee_sat : ℕ
  pub fee_sat : ℕ
  pub recovery_delay_blocks : ℕ
  pub parent : Transaction
  pub child : Transaction

pub data ExitStage : Type 0 where
  prepared submission_armed observed : ExitStage

unfoldable pub ExitStage_discrete : Discrete ExitStage
ExitStage_discrete = hlevel

pub record ExitJournal : Type 0 where
  pub exit_package : ExitPackage
  pub stage : ExitStage

-- `saved_exit_parent.is_none_or(|parent| parent == spending_txid)`
abbrev is_none_or_txid : Option Bytes → Bytes → Bool
is_none_or_txid none txid = true
is_none_or_txid (some parent) txid = same bytes_discrete parent txid

module _ (p : Platform) where
  -- `history.iter().position(|recovery| recovery.transaction.compute_txid() == txid)`
  unfoldable pub position : Bytes → List SignedRecovery → Option ℕ
  position txid [] = none
  position txid (recovery ∷ rest) =
      let later = position txid rest in
      if same bytes_discrete (p.compute_txid recovery.transaction) txid
      then some 0
      else elim later [ none ↦ none | some i ↦ some (suc i) ]

  unfoldable pub verify_exit_funding :
      WalletCoin → ObservedFunding → ℕ → Option Bytes → Bool → Option Bytes → Result Failure Unit
  verify_exit_funding coin observation minimum_confirmations spending_txid spending_confirmed
        saved_exit_parent =
      do
        metadata ← ok_or coin.metadata (message "coin has no verified funding")
        verify_observed_funding_output p.bitcoin metadata observation minimum_confirmations
        if observation.unspent then ok tt else do
          txid ← ok_or spending_txid (message "spent funding output has no spending txid")
          spending_index ←
              ok_or (position txid coin.history)
                (message "funding output was spent by an unknown transaction")
          owned_index ←
              ok_or coin.withdrawal_recovery_index (message "wallet has no owned recovery")
          ensure (leb spending_index owned_index)
              (message "a newer owner's recovery is already in the mempool")
          known_recovery ←
              ok_or (get_elem? coin.history spending_index) (message "index out of bounds")
          lift (verify_recovery p.bitcoin metadata known_recovery)
          ensure
              (not spending_confirmed
                || (spending_index == owned_index && is_none_or_txid saved_exit_parent txid))
              (message "a different recovery has already confirmed")

  unfoldable pub owned_recovery :
      WalletCoin → NetworkId → Result Failure (CoinMetadata × SignedRecovery × Bytes)
  owned_recovery coin network = do
    metadata ← ok_or coin.metadata (message "coin has no verified funding")
    ensure (same NetworkId_discrete metadata.network network) (message "exit network mismatch")
    ensure (is_broadcast coin.funding) (message "funding has not been broadcast")
    saved ← ok_or coin.withdrawal_secret (message "wallet has no current withdrawal key")
    withdrawal_secret ←
        ok_or (p.secret_from_slice saved) (message "saved withdrawal key is invalid")
    index ← ok_or coin.withdrawal_recovery_index (message "wallet has no owned recovery")
    recovery ← ok_or (get_elem? coin.history index) (message "owned recovery index is invalid")
    ensure (same bytes_discrete (secret_xonly p withdrawal_secret) recovery.withdrawal_xonly_pubkey)
        (message "saved withdrawal key does not match owned recovery")
    lift (verify_recovery p.bitcoin metadata recovery)
    ok (metadata, recovery, withdrawal_secret)

  -- `metadata.amount_sat.checked_sub(child.output[0].value.to_sat())`
  unfoldable pub exit_fee : CoinMetadata → Transaction → Result Failure ℕ
  exit_fee metadata child = do
    output ← ok_or (head child.output) (message "index out of bounds")
    ok_or (checked_sub metadata.amount_sat output.value)
        (message "exit fee exceeds the coin amount")

  unfoldable pub validate_package : ExitPackage → WalletCoin → Result Failure Unit
  validate_package saved coin = do
    ensure (saved.format_version == file_format_version)
        (message "unsupported exit package version")
    ensure (ltb 0 saved.fee_rate_sat_vb) (message "exit fee rate must be positive")
    destination ←
        ok_or (p.address_script saved.destination saved.network)
          (message "invalid saved exit destination")
    (metadata, recovery, withdrawal_secret) ← owned_recovery coin saved.network
    ensure
        (recovery.delay_blocks == saved.recovery_delay_blocks
          && same Transaction_discrete recovery.transaction saved.parent)
        (message "saved exit parent does not match the owned recovery")
    expected_child ← lift (
        build_exit_child p.bitcoin recovery metadata.amount_sat withdrawal_secret destination
          saved.fee_rate_sat_vb)
    ensure (same Transaction_discrete expected_child saved.child)
        (message "saved exit child is not canonical")
    fee_sat ← exit_fee metadata saved.child
    ensure (fee_sat == saved.fee_sat) (message "saved exit fee is inconsistent")
    ensure (leb fee_sat saved.max_fee_sat) (message "exit fee exceeds maximum")

  unfoldable pub prepare_package :
      WalletCoin → NetworkId → Bytes → ℕ → ℕ → ℕ → Result Failure ExitPackage
  prepare_package coin network destination_text funding_confirmations fee_rate_sat_vb max_fee_sat =
      do
        ensure (ltb 0 fee_rate_sat_vb) (message "exit fee rate must be positive")
        destination ←
            ok_or (p.address_script destination_text network)
              (message "invalid destination address")
        canonical_text ←
            ok_or (p.address_text destination_text network) (message "invalid destination address")
        (metadata, recovery, withdrawal_secret) ← owned_recovery coin network
        ensure (leb recovery.delay_blocks funding_confirmations)
            (message "recovery is not final until funding has enough confirmations")
        child ← lift (
            build_exit_child p.bitcoin recovery metadata.amount_sat withdrawal_secret destination
              fee_rate_sat_vb)
        fee_sat ← exit_fee metadata child
        ensure (leb fee_sat max_fee_sat) (message "exit fee exceeds maximum")
        let built : ExitPackage = record {
          format_version = file_format_version;
          network = network;
          destination = canonical_text;
          fee_rate_sat_vb = fee_rate_sat_vb;
          max_fee_sat = max_fee_sat;
          fee_sat = fee_sat;
          recovery_delay_blocks = recovery.delay_blocks;
          parent = recovery.transaction;
          child = child;
        }
        validate_package built coin
        ok built

  unfoldable pub prepare_exit :
      WalletCoin → NetworkId → Bytes → ℕ → ℕ → ℕ → Result Failure ExitJournal
  prepare_exit coin network destination funding_confirmations fee_rate_sat_vb max_fee_sat = do
    built ←
        prepare_package coin network destination funding_confirmations fee_rate_sat_vb max_fee_sat
    ok (record { exit_package = built; stage = ExitStage.prepared })

  unfoldable pub arm_submission : WalletCoin → Action ExitJournal Failure Unit
  arm_submission coin journal = commit journal do
    validate_package journal.exit_package coin
    ok (tt, record journal { stage = ExitStage.submission_armed })

  unfoldable pub validate_observed_parent :
      ExitJournal → WalletCoin → Transaction → Result Failure Unit
  validate_observed_parent journal coin parent = do
    validate_package journal.exit_package coin
    ensure
        (same bytes_discrete (p.compute_txid parent) (p.compute_txid journal.exit_package.parent))
        (message "observed exit parent has the wrong txid")
    (metadata, recovery, _) ← owned_recovery coin journal.exit_package.network
    lift (
        verify_recovery p.bitcoin metadata (record {
          transaction = parent;
          withdrawal_xonly_pubkey = recovery.withdrawal_xonly_pubkey;
          delay_blocks = recovery.delay_blocks;
        }))

  unfoldable pub mark_observed :
      WalletCoin → Transaction → Transaction → Action ExitJournal Failure Unit
  mark_observed coin parent child journal = commit journal do
    validate_package journal.exit_package coin
    ensure (same ExitStage_discrete journal.stage ExitStage.submission_armed)
        (message "exit package was not armed for submission")
    validate_observed_parent journal coin parent
    ensure (same Transaction_discrete child journal.exit_package.child)
        (message "observed exit child bytes do not match the saved package")
    ok (tt, record journal { stage = ExitStage.observed })
