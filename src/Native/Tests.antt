-- ===== src/Native/Tests.antt =====
-- Runs of the other commands against the sample environment.
use tinylayer_org.Base.{bytes_discrete, ◌≡◌, refl, [], ◌∷◌, some, ok, replicate}
use tinylayer_org.Enclave.Types.{CoinStatus}
use tinylayer_org.Enclave.Hashes.{}
use tinylayer_org.Client.Types.{CoinKeys, regtest}
use tinylayer_org.Wallet.Types.{Receipt, WalletState, TransferRequest, empty}
use tinylayer_org.Native.Session.{Outside, World}
use tinylayer_org.Native.Session.Register.{register_coin}
use tinylayer_org.Native.Session.Send.{sign_transfer}
use tinylayer_org.Native.Session.Journal.{AllJournaled}
use tinylayer_org.Native.Session.Journaled.{register_coin-journaled}
use tinylayer_org.Native.Session.Sent.{sign_transfer-journaled}
use tinylayer_org.Native.Session.Sweep.{source_sweep}
use tinylayer_org.Native.Session.Swept.{source_sweep-journaled}
use tinylayer_org.Native.Chain.{FundingObservation}
use tinylayer_org.Client.Recovery.{unlocking}
use tinylayer_org.Native.Session.Inspect.{verify_receipt}
use tinylayer_org.Native.Session.Live.{IsLive, verify_receipt-IsLive}
use tinylayer_org.Native.Session.{load_native}
use tinylayer_org.Native.Model.{validate_native, validate_exit, validate_source_sweep}
use tinylayer_org.Wallet.Register.{validate_version}
use tinylayer_org.Client.Types.{NetworkId_discrete}
use tinylayer_org.Enclave.Types.{CoinStatus_discrete}
use tinylayer_org.Wallet.Validation.{verify_public_history, require_reaction_margin}
use tinylayer_org.Client.Registration.{verify_status, validate_metadata, validate_keys}
use tinylayer_org.Client.History.{verify_each, verify_windows}
use tinylayer_org.Client.Recovery.{
  verify_recovery, canonical_recovery, recovery_transaction, verify_signed_recovery, verify_witness,
}
use tinylayer_org.Extern.{Transaction_discrete}
use tinylayer_org.Client.Scripts.{
  funding_control_block, funding_tapscript, recovery_sighash, require_future_delay,
  validate_reaction_window, verify_signature,
}
use tinylayer_org.Samples.{toy_chain, toy_platform, signature_by}
use tinylayer_org.Native.Sample.{
  before, coin, coin_id, config, entropy, native, outside, registered, status,
}

register_coin-journaled_example :
    AllJournaled toy_platform
      (register_coin outside toy_platform config entropy (before empty)).1.log
register_coin-journaled_example =
    register_coin-journaled outside toy_platform config entropy (before empty) tt

abbrev request : TransferRequest
request = record {
  format_version = 1;
  protocol_version = 1;
  request_id = replicate 32 5;
  coin_id = coin_id;
  network = regtest;
  outpoint = 0 ∷ 5 ∷ [];
  expected_amount_sat = 100000;
  withdrawal_xonly_pubkey = 8 ∷ [];
  next_capability_hash = replicate 32 4;
  transport_public_key = 9 ∷ [];
  min_reaction_blocks = 10;
}

abbrev sent : WalletState
sent = record empty {
  coin = some (record coin {
    outgoing = some (record {
      request = request;
      envelope = record {
        format_version = 1;
        request_id = replicate 32 5;
        ephemeral_public_key = 9 ∷ [];
        nonce = replicate 24 4;
        ciphertext = 1 ∷ [];
      };
    });
  });
}

sign_transfer-journaled_example :
    AllJournaled toy_platform
      (sign_transfer outside toy_platform config entropy request (before sent)).1.log
sign_transfer-journaled_example =
    sign_transfer-journaled outside toy_platform config entropy request (before sent) tt

source_sweep-journaled_example :
    AllJournaled toy_platform
      (source_sweep outside toy_platform config (0 ∷ []) 2 500 (before registered)).1.log
source_sweep-journaled_example =
    source_sweep-journaled outside toy_platform config (0 ∷ []) 2 500 (before registered) tt

abbrev shown_keys : CoinKeys
shown_keys = record {
  protocol_version = 1;
  coin_id = 7 ∷ [];
  client_pubkey = 1 ∷ [];
  enclave_pubkey = 2 ∷ [];
}

abbrev shown_status : CoinStatus
shown_status = record {
  coin_id = 7 ∷ [];
  signing_pubkey = 2 ∷ [];
  authorization = 4 ∷ [];
  signature_count = 1;
}

-- A coin with one recovery, of a delay of 100 blocks.
abbrev shown : Receipt
shown = record {
  format_version = 1;
  protocol_version = 1;
  metadata = record {
    keys = shown_keys;
    network = regtest;
    outpoint = record { txid = 4 ∷ []; vout = 0 };
    amount_sat = 100000;
  };
  status = shown_status;
  history =
      record {
        transaction = record {
          version = 3;
          lock_time = 0;
          input =
              record {
                previous_output = record { txid = 4 ∷ []; vout = 0 };
                script_sig = [];
                sequence = 100;
                witness =
                    unlocking toy_chain shown_keys (signature_by (2 ∷ []) (100 ∷ []))
                      (signature_by (1 ∷ []) (100 ∷ []));
              }
              ∷ [];
          output = record { value = 100000; script_pubkey = 0x51 ∷ 8 ∷ [] } ∷ [];
        };
        withdrawal_xonly_pubkey = 8 ∷ [];
        delay_blocks = 100;
      }
      ∷ [];
}

abbrev showing : Outside
showing = record outside { status = λ coin_id s. (ok shown_status, s) }

abbrev seen : FundingObservation
seen = record { tip_height = 100; confirmations = 6 }

abbrev start : World showing
start = record { outside = status; disk = native empty; log = [] }

receipt_test : (verify_receipt showing toy_platform config shown start).0 ≡ ok seen
unfolding verify_receipt bytes_discrete unlocking load_native validate_native validate_exit
    validate_source_sweep validate_version NetworkId_discrete CoinStatus_discrete
    verify_public_history require_reaction_margin verify_status validate_metadata validate_keys
    verify_each verify_windows verify_recovery canonical_recovery recovery_transaction
    verify_signed_recovery verify_witness Transaction_discrete funding_control_block
    funding_tapscript recovery_sighash require_future_delay validate_reaction_window
    verify_signature
receipt_test = refl

verify_receipt-IsLive_example : IsLive showing toy_platform config shown seen
verify_receipt-IsLive_example =
    verify_receipt-IsLive showing toy_platform config shown start seen receipt_test
