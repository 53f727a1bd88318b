-- ===== src/Client/Tests.antt =====
-- Runs of the client on a coin whose keys are 1 and 2.
use tinylayer_org.Base.{ℕ, Bytes, ◌≡◌, refl, [], ◌∷◌, List, ok, bytes_discrete, none, lookup, arith}
use tinylayer_org.Extern.{Transaction, Transaction_discrete}
use tinylayer_org.Enclave.Types.{CoinStatus, SignRequest, SignResponse, SignRequest_discrete}
use tinylayer_org.Enclave.Hashes.{authorization, capability_hash, tagged_bytes, initial_handoff}
use tinylayer_org.Client.Types.{CoinKeys, CoinMetadata, SignedRecovery, PreparedRecovery, regtest}
use tinylayer_org.Client.Scripts.{
  funding_tapscript, funding_control_block, recovery_sighash, client_xonly, verify_signature,
  require_future_delay, validate_reaction_window,
}
use tinylayer_org.Client.Registration.{validate_metadata, verify_status}
use tinylayer_org.Client.Recovery.{
  push_witness, recovery_transaction, canonical_recovery, unlocking, verify_witness,
  verify_signed_recovery, complete_recovery, verify_recovery,
}
use tinylayer_org.Client.History.{pays, is_ahead, verify_windows, verify_each, verify_history}
use tinylayer_org.Client.Exit.{child_of, build_exit_child}
use tinylayer_org.Client.Signing.{IsVerified, verify_recovery_sound, complete_recovery-verified}
use tinylayer_org.Client.Chain.{IsOwnedChain, verify_history-IsOwnedChain}
use tinylayer_org.Client.Package.{Pays, build_exit_child-Pays}
use tinylayer_org.Client.Recovery.{prepare_recovery}
use tinylayer_org.Client.Registration.{verify_sign_response}
use tinylayer_org.Client.Progress.{IsSchnorr, prepare_recovery-signed}
use tinylayer_org.Enclave.Types.{Coin, Signer}
use tinylayer_org.Enclave.Signer.{sign, coin_status, retries, status as enclave_status}
use tinylayer_org.Samples.{toy, toy_chain, signature_by}

abbrev keys : CoinKeys
keys = record {
  protocol_version = 1;
  coin_id = 7 ∷ [];
  client_pubkey = 1 ∷ [];
  enclave_pubkey = 2 ∷ [];
}

abbrev metadata : CoinMetadata
metadata = record {
  keys = keys;
  network = regtest;
  outpoint = record { txid = 4 ∷ []; vout = 0 };
  amount_sat = 100000;
}

abbrev unsigned : ℕ → Bytes → Transaction
unsigned delay key = recovery_transaction toy_chain (metadata.outpoint) 100000 key delay

abbrev request : ℕ → SignRequest
request delay = record {
  coin_id = 7 ∷ [];
  current_capability = 3 ∷ [];
  current_handoff = initial_handoff;
  next_capability_hash = 5 ∷ [];
  sighash = delay ∷ [];
}

abbrev prepared : ℕ → Bytes → PreparedRecovery
prepared delay key = record {
  request = request delay;
  metadata = metadata;
  transaction = unsigned delay key;
  withdrawal_xonly_pubkey = key;
  delay_blocks = delay;
}

abbrev response : ℕ → SignResponse
response delay = record { signature = signature_by (2 ∷ []) (delay ∷ []); next_handoff = 6 ∷ [] }

abbrev recovery : ℕ → Bytes → SignedRecovery
recovery delay key = record {
  transaction = record {
    version = 3;
    lock_time = 0;
    input =
        record {
          previous_output = metadata.outpoint;
          script_sig = [];
          sequence = delay;
          witness =
              unlocking toy_chain keys (signature_by (2 ∷ []) (delay ∷ []))
                (signature_by (1 ∷ []) (delay ∷ []));
        }
        ∷ [];
    output = record { value = 100000; script_pubkey = 0x51 ∷ key } ∷ [];
  };
  withdrawal_xonly_pubkey = key;
  delay_blocks = delay;
}

complete_test :
    complete_recovery toy_chain (request 100) (response 100) (prepared 100 (8 ∷ [])) (1 ∷ [])
    ≡ ok (recovery 100 (8 ∷ []))
unfolding complete_recovery validate_metadata canonical_recovery recovery_sighash client_xonly
    verify_signature push_witness verify_signed_recovery verify_witness SignRequest_discrete
    Transaction_discrete bytes_discrete recovery_transaction unlocking funding_tapscript
    funding_control_block
complete_test = refl

complete_recovery-verified_example :
    (verify_recovery toy_chain metadata (recovery 100 (8 ∷ [])) ≡ ok tt)
    × ((recovery 100 (8 ∷ [])).delay_blocks ≡ 100)
    × ((recovery 100 (8 ∷ [])).withdrawal_xonly_pubkey ≡ 8 ∷ [])
complete_recovery-verified_example =
    complete_recovery-verified toy_chain (request 100) (response 100) (prepared 100 (8 ∷ []))
      (1 ∷ []) (recovery 100 (8 ∷ [])) complete_test

verify_recovery_sound_example : IsVerified toy_chain metadata (recovery 100 (8 ∷ []))
verify_recovery_sound_example =
    verify_recovery_sound toy_chain metadata (recovery 100 (8 ∷ []))
      complete_recovery-verified_example.0

abbrev history : List SignedRecovery
history = recovery 100 (8 ∷ []) ∷ recovery 90 (9 ∷ []) ∷ []

abbrev status : CoinStatus
status = record {
  coin_id = 7 ∷ [];
  signing_pubkey = 2 ∷ [];
  authorization = authorization toy (7 ∷ []) (capability_hash toy (3 ∷ [])) (6 ∷ []);
  signature_count = 2;
}

history_test :
    verify_history toy_chain metadata status (1 ∷ []) (3 ∷ []) (6 ∷ []) (9 ∷ []) 20 history ≡ ok tt
unfolding verify_history verify_status verify_each verify_windows verify_recovery pays is_ahead
    validate_reaction_window require_future_delay validate_metadata canonical_recovery
    recovery_sighash client_xonly verify_signature verify_signed_recovery verify_witness
    Transaction_discrete bytes_discrete recovery_transaction unlocking funding_tapscript
    funding_control_block authorization capability_hash tagged_bytes
history_test = refl

verify_history-IsOwnedChain_example : IsOwnedChain toy_chain metadata status (9 ∷ []) 20 history
verify_history-IsOwnedChain_example =
    verify_history-IsOwnedChain toy_chain metadata status (1 ∷ []) (3 ∷ []) (6 ∷ []) (9 ∷ []) 20
      history history_test

-- 200 virtual bytes at 2 sat each.
abbrev child : Transaction
child =
    child_of toy_chain (100000 ∷ 90 ∷ []) (signature_by (9 ∷ []) (99600 ∷ []) ∷ []) 99600 (0 ∷ [])

child_test : build_exit_child toy_chain (recovery 90 (9 ∷ [])) 100000 (9 ∷ []) (0 ∷ []) 2 ≡ ok child
unfolding build_exit_child bytes_discrete child_of
child_test = refl

build_exit_child-Pays_example :
    Pays toy_chain (recovery 90 (9 ∷ [])) 100000 (9 ∷ []) (0 ∷ []) 2 child
build_exit_child-Pays_example =
    build_exit_child-Pays toy_chain (recovery 90 (9 ∷ [])) 100000 (9 ∷ []) (0 ∷ []) 2 child
      child_test

toy-IsSchnorr : IsSchnorr toy
toy-IsSchnorr = record { verifies = λ key message. ground arith }

abbrev held : Coin
held = record {
  authorization = authorization toy (7 ∷ []) (capability_hash toy (3 ∷ [])) initial_handoff;
  signing_key = 2 ∷ [];
  signature_count = 0;
  last = none;
}

abbrev signer : Signer
signer = record { coins = (7 ∷ [], held) ∷ [] }

abbrev fresh_status : CoinStatus
fresh_status = record {
  coin_id = 7 ∷ [];
  signing_pubkey = 2 ∷ [];
  authorization = authorization toy (7 ∷ []) (capability_hash toy (3 ∷ [])) initial_handoff;
  signature_count = 0;
}

held_test : enclave_status toy (7 ∷ []) signer ≡ ok fresh_status
unfolding enclave_status lookup coin_status
held_test = refl

prepare_test :
    prepare_recovery toy_chain metadata fresh_status
      (1 ∷ [])
      (3 ∷ [])
      initial_handoff
      (5 ∷ [])
      (8 ∷ [])
      100
      6
    ≡ ok (request 100, prepared 100 (8 ∷ []))
unfolding prepare_recovery validate_metadata bytes_discrete verify_status authorization tagged_bytes
    capability_hash require_future_delay client_xonly canonical_recovery recovery_sighash
    recovery_transaction
prepare_test = refl

prepare_recovery-signed_example :
    (r : SignResponse) × (later : Signer) × (after : CoinStatus) × (sign toy
        (6 ∷ [])
        (request 100)
        signer
      ≡ (ok r, later))
    × (enclave_status toy (7 ∷ []) later ≡ ok after)
    × (verify_sign_response toy_chain (request 100) 0 after r ≡ ok tt)
unfolding lookup retries
prepare_recovery-signed_example =
    prepare_recovery-signed toy_chain toy-IsSchnorr signer held metadata fresh_status (1 ∷ [])
      (3 ∷ []) initial_handoff (5 ∷ []) (8 ∷ []) 100 6 (request 100) (prepared 100 (8 ∷ []))
      (6 ∷ []) refl held_test prepare_test refl (omega arith)
