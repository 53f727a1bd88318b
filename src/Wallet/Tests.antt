-- ===== src/Wallet/Tests.antt =====
-- Runs of the wallet on sample values.
use tinylayer_org.Base.{Bytes, bytes_discrete, false, ◌↔◌, ◌≡◌, refl, [], ◌∷◌, some, ok, replicate}
use tinylayer_org.Enclave.Types.{SignResponse, RegisterRequest}
use tinylayer_org.Enclave.Hashes.{capability_hash, initial_handoff}
use tinylayer_org.Client.Types.{regtest, CoinKeys}
use tinylayer_org.Client.Registration.{prepare_registration}
use tinylayer_org.Client.Scripts.{funding_script}
use tinylayer_org.Extern.{Transaction}
use tinylayer_org.Wallet.Types.{
  WalletState, SourceUtxo, PreparedSourceFunding, RecoveryAttempt, RecoveryStage, empty, recovery,
  fund, responded,
}
use tinylayer_org.Wallet.Fund.{
  record_sign_response, record_taken, record_response, pending_sign_request,
}
use tinylayer_org.Wallet.Deposits.{IsBalanced, build_source_funding-IsBalanced}
use tinylayer_org.Wallet.Register.{begin_registration, validate_version}
use tinylayer_org.Wallet.Validation.{validate_funding_inputs, validate_each_input}
use tinylayer_org.Wallet.Source.{
  source_funding_script, funding_transaction_of, build_source_funding,
}
use tinylayer_org.Wallet.Resume.{
  begin_registration_again, Responded, record_sign_response_again, record_sign_response-Responded,
}
use tinylayer_org.Wallet.Calls.{run, run-empty-IsConsistent, begins_registration, marks_broadcast}
use tinylayer_org.Wallet.Invariant.{IsConsistent}
use tinylayer_org.Samples.{toy, toy_chain, toy_platform, signature_by}

abbrev secret : Bytes
secret = replicate 32 1

abbrev coin_id : Bytes
coin_id = replicate 32 7

abbrev registering : RegisterRequest
registering = record { coin_id = coin_id; initial_capability_hash = capability_hash toy (3 ∷ []) }

abbrev begun : WalletState
begun = (begin_registration toy_platform secret (3 ∷ []) coin_id empty).1

begins : begin_registration toy_platform secret (3 ∷ []) coin_id empty ≡ (ok registering, begun)
unfolding begin_registration validate_version prepare_registration
begins = refl

begin_registration_again_example :
    begin_registration toy_platform [] [] [] begun ≡ (ok registering, begun)
begin_registration_again_example =
    begin_registration_again toy_platform secret [] (3 ∷ []) [] coin_id [] empty begun registering
      begins

run-empty-IsConsistent_example : IsConsistent (
    run toy_platform
      (begins_registration secret (3 ∷ []) coin_id ∷ marks_broadcast (4 ∷ []) ∷ [])
      empty)
run-empty-IsConsistent_example =
    run-empty-IsConsistent toy_platform
      (begins_registration secret (3 ∷ []) coin_id ∷ marks_broadcast (4 ∷ []) ∷ [])

abbrev keys : CoinKeys
keys = record {
  protocol_version = 1;
  coin_id = coin_id;
  client_pubkey = 1 ∷ [];
  enclave_pubkey = 2 ∷ [];
}

abbrev deposit : SourceUtxo
deposit = record {
  outpoint = record { txid = 5 ∷ []; vout = 1 };
  output = record { value = 200000; script_pubkey = 0x51 ∷ 6 ∷ [] };
  confirmations = 3;
  coinbase = false;
}

abbrev funding : Transaction
funding =
    funding_transaction_of toy_platform deposit.outpoint (signature_by (6 ∷ []) (100000 ∷ []) ∷ [])
      100000 (funding_script toy_chain keys) 99800 (0x51 ∷ 6 ∷ [])

abbrev funded : PreparedSourceFunding
funded = record {
  transaction = funding;
  outpoint = record { txid = toy_platform.compute_txid funding; vout = 0 };
  fee_sat = 200;
}

-- 100 virtual bytes at 2 sat each.
funding_test :
    build_source_funding toy_platform keys regtest (6 ∷ []) deposit 100000 2 500 ≡ ok funded
unfolding build_source_funding source_funding_script funding_script validate_funding_inputs
    bytes_discrete funding_transaction_of validate_each_input
funding_test = refl

build_source_funding-IsBalanced_example :
    IsBalanced toy_platform keys regtest (6 ∷ []) deposit 100000 2 500 funded
build_source_funding-IsBalanced_example =
    build_source_funding-IsBalanced toy_platform keys regtest (6 ∷ []) deposit 100000 2 500 funded
      funding_test

abbrev attempt : RecoveryAttempt
attempt = record {
  expected_signature_count = 0;
  delay_blocks = 100;
  request = record {
    coin_id = coin_id;
    current_capability = 3 ∷ [];
    current_handoff = initial_handoff;
    next_capability_hash = 5 ∷ [];
    sighash = 100 ∷ [];
  };
  prepared = record {
    request = record {
      coin_id = coin_id;
      current_capability = 3 ∷ [];
      current_handoff = initial_handoff;
      next_capability_hash = 5 ∷ [];
      sighash = 100 ∷ [];
    };
    metadata = record {
      keys = keys;
      network = regtest;
      outpoint = funded.outpoint;
      amount_sat = 100000;
    };
    transaction = funding;
    withdrawal_xonly_pubkey = 8 ∷ [];
    delay_blocks = 100;
  };
}

abbrev response : SignResponse
response = record { signature = signature_by (2 ∷ []) (100 ∷ []); next_handoff = 6 ∷ [] }

abbrev awaiting : RecoveryStage → WalletState
awaiting stage = record empty {
  pending = some (recovery (record { purpose = fund (5 ∷ []) (8 ∷ []); stage = stage }));
}

record_sign_response_again_example :
    ((record_sign_response response (awaiting (responded attempt response))).1
      ≡ awaiting (responded attempt response))
    × (((record_sign_response response (awaiting (responded attempt response))).0 ≡ ok tt)
        ↔ (response ≡ response))
record_sign_response_again_example =
    record_sign_response_again response response (awaiting (responded attempt response))
      (fund (5 ∷ []) (8 ∷ []), attempt, refl)

record_test :
    record_sign_response response (awaiting (RecoveryStage.prepared attempt))
    ≡ (ok tt, awaiting (responded attempt response))
unfolding record_sign_response record_taken record_response
record_test = refl

record_sign_response-Responded_example :
    Responded (awaiting (responded attempt response)) response
    × (pending_sign_request (awaiting (responded attempt response))
        ≡ pending_sign_request (awaiting (RecoveryStage.prepared attempt)))
record_sign_response-Responded_example =
    record_sign_response-Responded response (awaiting (RecoveryStage.prepared attempt))
      (awaiting (responded attempt response)) record_test
