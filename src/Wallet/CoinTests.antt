-- ===== src/Wallet/CoinTests.antt =====
-- Runs of the wallet on a coin that was funded and can be left.
use tinylayer_org.Base.{bytes_discrete, ◌≡◌, ◌≤◌, refl, [], ◌∷◌, some, none, ok}
use tinylayer_org.Extern.{Transaction, Transaction_discrete, OutPoint_discrete, TxOut_discrete}
use tinylayer_org.Enclave.Hashes.{initial_handoff}
use tinylayer_org.Client.Types.{regtest, CoinKeys, CoinMetadata, SignedRecovery, NetworkId_discrete}
use tinylayer_org.Client.Registration.{validate_metadata}
use tinylayer_org.Client.Scripts.{
  funding_script, funding_output_key, funding_tapscript, funding_control_block, recovery_sighash,
  verify_signature,
}
use tinylayer_org.Client.Recovery.{
  recovery_transaction, canonical_recovery, unlocking, verify_witness, verify_signed_recovery,
  verify_recovery, verify_funding_utxo,
}
use tinylayer_org.Client.Exit.{child_of, build_exit_child}
use tinylayer_org.Wallet.Types.{WalletState, WalletCoin, FundingStage, FundingStage_discrete, empty}
use tinylayer_org.Wallet.Send.{is_broadcast}
use tinylayer_org.Wallet.Package.{secret_xonly}
use tinylayer_org.Wallet.Validation.{
  validate_funding_inputs, validate_each_input, count_script, validate_finalized_funding,
}
use tinylayer_org.Wallet.Source.{funding_transaction_of}
use tinylayer_org.Wallet.Fund.{funding_transaction, funding_journal}
use tinylayer_org.Wallet.Exit.{
  ExitPackage, ExitJournal, ExitStage, ExitStage_discrete, owned_recovery, exit_fee,
  validate_package, prepare_package, prepare_exit, arm_submission, validate_observed_parent,
  mark_observed,
}
use tinylayer_org.Wallet.Secured.{IsSecured, funding_transaction-IsSecured}
use tinylayer_org.Wallet.Exits.{
  IsPayable, validate_package-IsPayable, prepare_exit-arms, mark_observed-armed,
}
use tinylayer_org.Samples.{toy_chain, toy_platform, signature_by}

abbrev keys : CoinKeys
keys = record {
  protocol_version = 1;
  coin_id = 7 ∷ [];
  client_pubkey = 1 ∷ [];
  enclave_pubkey = 2 ∷ [];
}

abbrev funding : Transaction
funding =
    funding_transaction_of toy_platform (record { txid = 5 ∷ []; vout = 1 })
      (signature_by (6 ∷ []) (100000 ∷ []) ∷ []) 100000 (funding_script toy_chain keys) 99800
      (0x51 ∷ 6 ∷ [])

abbrev metadata : CoinMetadata
metadata = record {
  keys = keys;
  network = regtest;
  outpoint = record { txid = toy_platform.compute_txid funding; vout = 0 };
  amount_sat = 100000;
}

abbrev secured : SignedRecovery
secured = record {
  transaction = record {
    version = 3;
    lock_time = 0;
    input =
        record {
          previous_output = metadata.outpoint;
          script_sig = [];
          sequence = 100;
          witness =
              unlocking toy_chain keys (signature_by (2 ∷ []) (100 ∷ []))
                (signature_by (1 ∷ []) (100 ∷ []));
        }
        ∷ [];
    output = record { value = 100000; script_pubkey = 0x51 ∷ 8 ∷ [] } ∷ [];
  };
  withdrawal_xonly_pubkey = 8 ∷ [];
  delay_blocks = 100;
}

abbrev coin : WalletCoin
coin = record {
  client_secret = 1 ∷ [];
  keys = keys;
  metadata = some metadata;
  funding = some (record {
    transaction = funding;
    delay_blocks = 100;
    fee_rate_sat_vb = 2;
    max_fee_sat = 500;
    fee_sat = 200;
    stage = FundingStage.broadcast;
  });
  current_capability = some (3 ∷ []);
  current_handoff = some initial_handoff;
  withdrawal_secret = some (8 ∷ []);
  withdrawal_recovery_index = some 0;
  accepted_request = none;
  accepted_envelope_fingerprint = none;
  history = secured ∷ [];
  outgoing = none;
}

abbrev wallet : WalletState
wallet = record empty { coin = some coin }

funded_test : funding_transaction toy_platform wallet ≡ ok funding
unfolding funding_transaction funding_journal validate_finalized_funding validate_funding_inputs
    validate_each_input count_script verify_funding_utxo OutPoint_discrete TxOut_discrete
    validate_metadata verify_recovery canonical_recovery recovery_transaction recovery_sighash
    verify_signature verify_signed_recovery verify_witness Transaction_discrete bytes_discrete
    unlocking funding_tapscript funding_control_block funding_transaction_of funding_script
    FundingStage_discrete funding_output_key
funded_test = refl

funding_transaction-IsSecured_example : IsSecured toy_platform wallet funding
funding_transaction-IsSecured_example =
    funding_transaction-IsSecured toy_platform wallet funding funded_test

-- 200 virtual bytes at 2 sat each.
abbrev saved : ExitPackage
saved = record {
  format_version = 1;
  network = regtest;
  destination = 0 ∷ [];
  fee_rate_sat_vb = 2;
  max_fee_sat = 500;
  fee_sat = 400;
  recovery_delay_blocks = 100;
  parent = secured.transaction;
  child =
      child_of toy_chain (100000 ∷ 100 ∷ []) (signature_by (8 ∷ []) (99600 ∷ []) ∷ []) 99600
        (0 ∷ []);
}

abbrev journal : ExitStage → ExitJournal
journal stage = record { exit_package = saved; stage = stage }

validate_test : validate_package toy_platform saved coin ≡ ok tt
unfolding validate_package owned_recovery exit_fee build_exit_child child_of NetworkId_discrete
    is_broadcast secret_xonly validate_metadata verify_recovery canonical_recovery
    recovery_transaction recovery_sighash verify_signature verify_signed_recovery verify_witness
    Transaction_discrete bytes_discrete unlocking funding_tapscript funding_control_block
    funding_transaction_of funding_script FundingStage_discrete funding_output_key
validate_test = refl

validate_package-IsPayable_example : IsPayable toy_platform saved coin
validate_package-IsPayable_example =
    validate_package-IsPayable toy_platform saved coin validate_test

prepare_test :
    prepare_exit toy_platform coin regtest (0 ∷ []) 100 2 500 ≡ ok (journal ExitStage.prepared)
unfolding prepare_exit prepare_package validate_package owned_recovery exit_fee build_exit_child
    child_of NetworkId_discrete is_broadcast secret_xonly validate_metadata verify_recovery
    canonical_recovery recovery_transaction recovery_sighash verify_signature verify_signed_recovery
    verify_witness Transaction_discrete bytes_discrete unlocking funding_tapscript
    funding_control_block funding_transaction_of funding_script FundingStage_discrete
    funding_output_key
prepare_test = refl

prepare_exit-arms_example :
    (ExitStage.prepared ≡ ExitStage.prepared)
    × (100 ≤ 100)
    × (400 ≤ 500)
    × (arm_submission toy_platform coin (journal ExitStage.prepared)
        ≡ (ok tt, journal ExitStage.submission_armed))
prepare_exit-arms_example =
    prepare_exit-arms toy_platform coin regtest (0 ∷ []) 100 2 500 (journal ExitStage.prepared)
      prepare_test

observed_test :
    mark_observed toy_platform coin secured.transaction saved.child
      (journal ExitStage.submission_armed)
    ≡ (ok tt, journal ExitStage.observed)
unfolding mark_observed ExitStage_discrete validate_observed_parent validate_package owned_recovery
    exit_fee build_exit_child child_of NetworkId_discrete is_broadcast secret_xonly
    validate_metadata verify_recovery canonical_recovery recovery_transaction recovery_sighash
    verify_signature verify_signed_recovery verify_witness Transaction_discrete bytes_discrete
    unlocking funding_tapscript funding_control_block funding_transaction_of funding_script
    FundingStage_discrete funding_output_key
observed_test = refl

mark_observed-armed_example :
    (ExitStage.submission_armed ≡ ExitStage.submission_armed)
    × (saved.child ≡ saved.child)
    × (toy_platform.compute_txid secured.transaction ≡ toy_platform.compute_txid saved.parent)
    × (journal ExitStage.observed
        ≡ record (journal ExitStage.submission_armed) { stage = ExitStage.observed })
    × IsPayable toy_platform saved coin
mark_observed-armed_example =
    mark_observed-armed toy_platform coin secured.transaction saved.child
      (journal ExitStage.submission_armed) (journal ExitStage.observed) observed_test
