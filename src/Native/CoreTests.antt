-- ===== src/Native/CoreTests.antt =====
-- Runs of the client of a Bitcoin Core node against a sample node.
use tinylayer_org.Base.{◌≡◌, ◌≤◌, refl, [], ◌∷◌, some, none, ok, true, false, codes, bytes_discrete}
use tinylayer_org.Extern.{Transaction}
use tinylayer_org.Client.Types.{regtest, CoinKeys}
use tinylayer_org.Client.Scripts.{funding_script, funding_output_key, funding_tapscript}
use tinylayer_org.Client.Registration.{metadata_of, validate_keys}
use tinylayer_org.Wallet.Validation.{
  validate_finalized_funding, validate_funding_inputs, validate_each_input,
}
use tinylayer_org.Native.Chain.{PreparedFunding}
use tinylayer_org.Native.Access.{password_of_file, strip_breaks}
use tinylayer_org.Native.Core.{Node, answered, failed, rpc, negsuc}
use tinylayer_org.Native.Core.Fund.{
  prepare_funding, verify_wallet, check_signed, matching_from, only_match, test_prepared_funding,
}
use tinylayer_org.Native.Core.Prepared.{prepare_funding-accepted}
use tinylayer_org.Samples.{toy_chain, toy_platform}

abbrev keys : CoinKeys
keys = record {
  protocol_version = 1;
  coin_id = 7 ∷ [];
  client_pubkey = 1 ∷ [];
  enclave_pubkey = 2 ∷ [];
}

abbrev transaction : Transaction
transaction = record {
  version = 2;
  lock_time = 0;
  input =
      record {
        previous_output = record { txid = 5 ∷ []; vout = 1 };
        script_sig = [];
        sequence = 0xfffffffe;
        witness = (1 ∷ []) ∷ [];
      }
      ∷ [];
  output =
      record { value = 50000; script_pubkey = 0x51 ∷ 6 ∷ [] }
      ∷ record { value = 100000; script_pubkey = funding_script toy_chain keys }
      ∷ [];
}

-- A node that funds every coin with the same transaction.
abbrev node : Node
node = record {
  State = Unit {0};
  get_raw_transaction_info = λ txid s. (failed (rpc (negsuc 4)), s);
  get_transaction = λ txid s. (failed (rpc (negsuc 4)), s);
  get_mempool_entry = λ txid s. (answered tt, s);
  get_tx_out = λ outpoint s. (answered none, s);
  get_tx_spending_prevout = λ outpoint s. (answered [], s);
  get_blockchain_info =
      λ s. (answered (record { chain = codes "regtest"; blocks = 10; best_block_hash = [] }), s);
  get_wallet_info =
      λ s. (answered (record { wallet_name = 1 ∷ []; private_keys_enabled = true }), s);
  send_raw_transaction = λ sent s. (answered (toy_platform.compute_txid sent), s);
  lock_unspent = λ outpoints s. (answered true, s);
  test_mempool_accept = λ tested s. (
    answered (
        record { txid = toy_platform.compute_txid tested; allowed = true; base_fee = some 200 }
        ∷ []),
    s,
  );
  wallet_create_funded_psbt = λ output rate s. (answered (record { psbt = []; fee = 200 }), s);
  wallet_process_psbt = λ psbt s. (answered (record { psbt = psbt; complete = true }), s);
  finalize_psbt = λ psbt s. (answered (record { hex = some []; complete = true }), s);
  submit_package = λ parent child s. (answered none, s);
  deserialize = λ bytes. some transaction;
  is_coinbase = λ t. false;
  wallet_name = 1 ∷ [];
  network = regtest;
}

abbrev funded : PreparedFunding
funded = record {
  transaction = transaction;
  outpoint = record { txid = toy_platform.compute_txid transaction; vout = 1 };
  fee_sat = 200;
}

password_test : password_of_file (λ bytes. true) (1 ∷ 10 ∷ 2 ∷ 13 ∷ 10 ∷ []) ≡ ok (1 ∷ 10 ∷ 2 ∷ [])
unfolding password_of_file strip_breaks
password_test = refl

keys_test : validate_keys keys ≡ ok tt
unfolding validate_keys bytes_discrete
keys_test = refl

prepare_test : (prepare_funding node toy_platform keys 100000 2 500 tt).0 ≡ ok funded
unfolding prepare_funding verify_wallet check_signed matching_from only_match test_prepared_funding
    validate_funding_inputs validate_each_input funding_script funding_output_key funding_tapscript
    bytes_discrete
prepare_test = refl

prepare_funding-accepted_example :
    (validate_finalized_funding toy_chain
        (metadata_of keys regtest funded.outpoint 100000)
        transaction
      ≡ ok tt)
    × (200 ≤ 500)
prepare_funding-accepted_example =
    prepare_funding-accepted node toy_platform keys 100000 2 500 tt funded keys_test prepare_test
