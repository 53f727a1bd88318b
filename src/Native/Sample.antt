-- ===== src/Native/Sample.antt =====
-- A sample environment of the commands: an enclave, a chain and files, and a wallet.
use tinylayer_org.Base.{Bytes, [], ◌∷◌, some, none, ok, true, false, replicate, ◌+◌}
use tinylayer_org.Enclave.Types.{CoinStatus}
use tinylayer_org.Enclave.Hashes.{initial_handoff, authorization, capability_hash}
use tinylayer_org.Client.Types.{regtest}
use tinylayer_org.Wallet.Types.{WalletState, WalletCoin, empty}
use tinylayer_org.Native.Model.{NativeWalletState, Config, unsafe_plaintext, explorer}
use tinylayer_org.Native.Policy.{FundingPolicy}
use tinylayer_org.Native.Session.{Outside, World, Entropy, replaced}
use tinylayer_org.Client.Scripts.{funding_script}
use tinylayer_org.Samples.{toy, toy_chain, toy_platform, signature_by}

abbrev pub coin_id : Bytes
coin_id = replicate 32 7

abbrev pub status : CoinStatus
status = record {
  coin_id = coin_id;
  signing_pubkey = 2 ∷ [];
  authorization = authorization toy coin_id (capability_hash toy (3 ∷ [])) initial_handoff;
  signature_count = 0;
}

-- An enclave with one registered coin, whose status it keeps, a chain with one deposit, and files
-- that never fail.
abbrev pub outside : Outside
outside = record {
  State = CoinStatus;
  connect_enclave = λ s. (ok tt, s);
  connect_chain = λ s. (ok tt, s);
  register = λ request s. (ok s, s);
  status = λ coin s. (ok s, s);
  sign = λ request s. (
    ok (record { signature = signature_by (2 ∷ []) request.sighash; next_handoff = 6 ∷ [] }),
    record s {
      authorization = authorization toy request.coin_id request.next_capability_hash (6 ∷ []);
      signature_count = s.signature_count + 1;
    },
  );
  transaction = λ txid s. (ok none, s);
  observe_authorized_transaction = λ transaction s. (ok none, s);
  outspend = λ outpoint s.
      (ok (record { spent = false; spending_txid = none; spending_confirmed = false }), s);
  verify_funding = λ metadata minimum s. (ok (record { tip_height = 100; confirmations = 6 }), s);
  recommended_fee_rate = λ s. (ok 2, s);
  submit_package = λ parent child s. (ok tt, s);
  observe_funding = λ metadata s. (
    ok (record {
      funding = record {
        outpoint = metadata.outpoint;
        output = record {
          value = metadata.amount_sat;
          script_pubkey = funding_script toy_chain metadata.keys;
        };
        confirmations = 1000;
        unspent = true;
        coinbase = false;
      };
      tip_height = 2000;
      spending_txid = none;
      spending_confirmed = false;
    }),
    s,
  );
  confirmed_source_utxos = λ s. (
    ok (
        record {
          outpoint = record { txid = 5 ∷ []; vout = 1 };
          output = record { value = 200000; script_pubkey = 0x51 ∷ 6 ∷ [] };
          confirmations = 3;
          coinbase = false;
        }
        ∷ []),
    s,
  );
  prepare_funding = λ keys amount_sat rate max_fee s. (
    ok (record {
      transaction = record { version = 2; lock_time = 0; input = []; output = [] };
      outpoint = record { txid = []; vout = 0 };
      fee_sat = 1;
    }),
    s,
  );
  validate_prepared_funding = λ metadata transaction s. (ok tt, s);
  broadcast_funding = λ metadata transaction s. (ok (toy_platform.compute_txid transaction), s);
  broadcast_exact = λ transaction s. (ok (toy_platform.compute_txid transaction), s);
  read = λ s. (ok tt, s);
  write = λ s. (replaced, s);
  available = λ s. (ok tt, s);
  publish_request = λ request s. (ok tt, s);
  publish_envelope = λ envelope s. (ok tt, s);
  publish_receipt = λ receipt s. (ok tt, s);
  publish_recovery = λ recovered s. (ok tt, s);
  tip_height = λ s. (ok 100, s);
}

abbrev pub config : Config
config = record {
  format_version = 1;
  protocol_version = 1;
  network = regtest;
  enclave = unsafe_plaintext [];
  chain = explorer [];
  min_confirmations = 1;
  min_reaction_blocks = 10;
}

abbrev pub entropy : Entropy
entropy = record {
  client_secret = 1 ∷ [];
  capability = 3 ∷ [];
  coin_id = coin_id;
  withdrawal = 8 ∷ [];
  ephemeral = 9 ∷ [];
  nonce = replicate 24 4;
}

abbrev pub native : WalletState → NativeWalletState
native wallet = record {
  format_version = 1;
  funding_secret = 6 ∷ [];
  wallet = wallet;
  exit = none;
  source_sweep = none;
}

abbrev pub before : WalletState → World outside
before wallet = record { outside = status; disk = native wallet; log = [] }

abbrev pub coin : WalletCoin
coin = record {
  client_secret = 1 ∷ [];
  keys = record {
    protocol_version = 1;
    coin_id = coin_id;
    client_pubkey = 1 ∷ [];
    enclave_pubkey = 2 ∷ [];
  };
  metadata = none;
  funding = none;
  current_capability = some (3 ∷ []);
  current_handoff = some initial_handoff;
  withdrawal_secret = none;
  withdrawal_recovery_index = none;
  accepted_request = none;
  accepted_envelope_fingerprint = none;
  history = [];
  outgoing = none;
}

abbrev pub registered : WalletState
registered = record empty { coin = some coin }

abbrev pub policy : FundingPolicy
policy = record { amount_sat = 100000; delay_blocks = 1000; fee_rate_sat_vb = 2; max_fee_sat = 500 }
