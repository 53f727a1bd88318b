-- ===== src/Native/ExplorerTests.antt =====
-- Runs of the explorer's client against a sample server.
use tinylayer_org.Base.{
  Bytes, ◌≡◌, ◌≤◌, refl, [], ◌∷◌, All, length, Option, some, none, ok, Bool, true, false,
  bytes_discrete, map,
}
use tinylayer_org.Extern.{Transaction, Transaction_discrete}
use tinylayer_org.Client.Types.{regtest}
use tinylayer_org.Wallet.Types.{SourceUtxo}
use tinylayer_org.Wallet.Validation.{validate_each_input, validate_funding_inputs}
use tinylayer_org.Native.Http.{
  Reply, Query, blocks_tip_height, block_at, tx_summary, tx_hex, tx_outspend, address_utxo,
  ExplorerTxStatus, optional_text_of, collect, lists_once, retain_confirmed, parsed, depth_of,
  raw_transaction_of, response_bytes_limited, text_of,
}
use tinylayer_org.Native.Explorer.{
  Web, get_json, get_text, get_text_optional, transaction_observation, get_json_optional,
  observe_summary, block_hash_at_height, confirmations_of, expect_block, outspend, outspend_of,
  raw_transaction_optional, status_confirmations, tip_height,
}
use tinylayer_org.Native.Explorer.Deposits.{
  sources_of, sort_listed, insert_listed, source_of, confirmed_source_utxos,
}
use tinylayer_org.Native.Explorer.Broadcast.{
  exact_transaction_is_observed, exact_observed, post_unless_known, after_post, accept_reply,
  known_or_fail, broadcast_exact,
}
use tinylayer_org.Native.Http.Limits.{limited, joined, response_bytes_limited-joined}
use tinylayer_org.Native.Explorer.Deposited.{
  IsDepositOutput, confirmed_source_utxos-IsDepositOutput,
}
use tinylayer_org.Native.Explorer.Exposed.{IsBroadcast, broadcast_exact-IsBroadcast}
use tinylayer_org.Wallet.Sweep.{insert_source, sort_sources}
use tinylayer_org.Samples.{toy_chain, toy_platform}

abbrev transaction : Transaction
transaction = record {
  version = 2;
  lock_time = 0;
  input =
      record {
        previous_output = record { txid = 5 ∷ []; vout = 1 };
        script_sig = [];
        sequence = 0xfffffffe;
        witness = (1 ∷ []) ∷ [];
      }
      ∷ [];
  output = record { value = 200000; script_pubkey = 0x51 ∷ 6 ∷ [] } ∷ [];
}

abbrev txid : Bytes
txid = 200000 ∷ 0xfffffffe ∷ []

abbrev mined : ExplorerTxStatus
mined = record { confirmed = true; block_height = some 3; block_hash = some (3 ∷ []) }

abbrev found : Bytes → Option Reply
found body = some (record { status = 200; content_length = none; chunks = some body ∷ [] })

abbrev missing : Option Reply
missing = some (record { status = 404; content_length = some 0; chunks = [] })

-- The server shows the transaction from the time on that it was posted.
unfoldable answer : Query → Bool → Option Reply
answer blocks_tip_height known = found (10 ∷ [])
answer (block_at height) known = found (height ∷ [])
answer (tx_summary id) true = found id
answer (tx_summary id) false = missing
answer (tx_hex id) known = found id
answer (tx_outspend outpoint) known = found []
answer (address_utxo address) known = found address

abbrev web : Web
web = record {
  State = Bool;
  get = λ query known. (answer query known, known);
  post_tx = λ posted known. (found (toy_platform.compute_txid posted), true);
  post_package = λ v1 parent child known. (missing, known);
  readers = record {
    utf8 = λ bytes. true;
    trim = λ text. text;
    read_height = λ text. some 10;
    read_hash = λ text. some text;
    read_txid = λ text. some text;
    read_tx = λ text. some (record { txid = text; status = mined });
    read_utxos =
        λ text. some (record { txid = txid; vout = 0; value = 200000; status = mined } ∷ []);
    read_outspend = λ text. some (record { spent = false; txid = none; status = none });
    read_package = λ text. none;
    deserialize = λ bytes. some transaction;
    is_coinbase = λ transaction. false;
  };
  network = regtest;
  genesis_hash = λ network. 0 ∷ [];
  checkpoint_hash = 1 ∷ [];
}

abbrev source : SourceUtxo
source = record {
  outpoint = record { txid = txid; vout = 0 };
  output = record { value = 200000; script_pubkey = 0x51 ∷ 6 ∷ [] };
  confirmations = 8;
  coinbase = false;
}

sources_test :
    (confirmed_source_utxos web toy_platform [] (0x51 ∷ 6 ∷ []) true).0 ≡ ok (source ∷ [])
unfolding confirmed_source_utxos get_json get_text get_text_optional answer optional_text_of collect
    lists_once retain_confirmed sources_of sort_listed insert_listed source_of
    transaction_observation get_json_optional parsed observe_summary bytes_discrete
    block_hash_at_height confirmations_of expect_block outspend outspend_of raw_transaction_optional
    status_confirmations tip_height depth_of raw_transaction_of response_bytes_limited text_of
    insert_source sort_sources
sources_test = refl

confirmed_source_utxos-IsDepositOutput_example :
    All (IsDepositOutput web toy_platform (0x51 ∷ 6 ∷ [])) (source ∷ [])
    × (length (source ∷ []) ≤ 256)
confirmed_source_utxos-IsDepositOutput_example =
    confirmed_source_utxos-IsDepositOutput web toy_platform [] (0x51 ∷ 6 ∷ []) true (source ∷ [])
      sources_test

broadcast_test : (broadcast_exact web toy_platform transaction false).0 ≡ ok txid
unfolding broadcast_exact validate_funding_inputs validate_each_input exact_transaction_is_observed
    exact_observed post_unless_known after_post accept_reply known_or_fail Transaction_discrete
    get_text_optional answer optional_text_of collect transaction_observation get_json_optional
    parsed observe_summary bytes_discrete block_hash_at_height confirmations_of expect_block
    raw_transaction_optional status_confirmations tip_height depth_of raw_transaction_of
    response_bytes_limited text_of get_text
broadcast_test = refl

broadcast_exact-IsBroadcast_example :
    (validate_funding_inputs toy_chain transaction ≡ ok tt)
    × IsBroadcast web toy_platform transaction txid
broadcast_exact-IsBroadcast_example =
    broadcast_exact-IsBroadcast web toy_platform transaction false txid broadcast_test

response_bytes_limited-joined_example :
    response_bytes_limited (record {
      status = 200;
      content_length = some 3;
      chunks = map some ((1 ∷ 2 ∷ []) ∷ (3 ∷ []) ∷ []);
    })
    ≡ limited (joined ((1 ∷ 2 ∷ []) ∷ (3 ∷ []) ∷ []))
response_bytes_limited-joined_example =
    response_bytes_limited-joined 200 (some 3) ((1 ∷ 2 ∷ []) ∷ (3 ∷ []) ∷ []) refl
