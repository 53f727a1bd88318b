-- ===== src/Native/StoreTests.antt =====
-- Runs of the store on a sample file.
use tinylayer_org.Base.{
  bytes_discrete, ℕ_discrete, same, if◌then◌else◌, arith, ◌≡◌, refl, [], ◌∷◌, ok, some, none, true,
  false, replicate,
}
use tinylayer_org.Client.Types.{regtest}
use tinylayer_org.Wallet.Types.{empty, WalletCoin}
use tinylayer_org.Wallet.Codec.{
  Vault, Json, EncryptedState, argon2id, xchacha20poly1305, derive_key,
}
use tinylayer_org.Wallet.Codec.RoundTrip.{IsFaithful, IsFaithfulJson}
use tinylayer_org.Wallet.Register.{validate_version}
use tinylayer_org.Native.Model.{
  NativeWalletState, Config, unsafe_plaintext, explorer, validate_native, validate_exit,
  validate_source_sweep,
}
use tinylayer_org.Native.Wire.Valid.{IsReadAs}
use tinylayer_org.Native.Disk.{Disk, lose_power}
use tinylayer_org.Native.Store.{WalletStore, SaveEntropy, save_native, write_native}
use tinylayer_org.Native.Store.Loads.{IsWhole, reload, save_native-IsWhole, load-save_native}
use tinylayer_org.Samples.{toy_platform}

NativeWalletState_discrete : Discrete NativeWalletState
NativeWalletState_discrete = hlevel ℕ_discrete

EncryptedState_discrete : Discrete EncryptedState
EncryptedState_discrete = hlevel ℕ_discrete

abbrev config : Config
config = record {
  format_version = 1;
  protocol_version = 1;
  network = regtest;
  enclave = unsafe_plaintext [];
  chain = explorer [];
  min_confirmations = 1;
  min_reaction_blocks = 10;
}

abbrev coin : WalletCoin
coin = record {
  client_secret = 1 ∷ [];
  keys = record {
    protocol_version = 1;
    coin_id = 7 ∷ [];
    client_pubkey = 1 ∷ [];
    enclave_pubkey = 2 ∷ [];
  };
  metadata = none;
  funding = none;
  current_capability = some (3 ∷ []);
  current_handoff = none;
  withdrawal_secret = none;
  withdrawal_recovery_index = none;
  accepted_request = none;
  accepted_envelope_fingerprint = none;
  history = [];
  outgoing = none;
}

abbrev native : NativeWalletState
native = record {
  format_version = 1;
  funding_secret = 6 ∷ [];
  wallet = record empty { coin = some coin };
  exit = none;
  source_sweep = none;
}

abbrev entropy : SaveEntropy
entropy = record { salt = replicate 16 1; nonce = replicate 24 2; suffix = 3 ∷ [] }

abbrev sealed : EncryptedState
sealed = record {
  format_version = 1;
  kdf = record {
    algorithm = argon2id;
    memory_kib = 19456;
    iterations = 2;
    parallelism = 1;
    salt = entropy.salt;
  };
  cipher = xchacha20poly1305;
  nonce = entropy.nonce;
  ciphertext = 4 ∷ [];
}

-- The JSON of these runs knows one state and its encryption.
abbrev toy_vault : Vault
toy_vault = record {
  platform = toy_platform;
  argon2_params = λ memory iterations parallelism. true;
  argon2_hash = λ memory iterations parallelism password salt. some password;
  encrypted_to_json = λ encrypted.
      if same EncryptedState_discrete encrypted sealed then some (b'{' ∷ b'}' ∷ []) else none;
  encrypted_from_json = λ bytes. some sealed;
}

toy_vault-IsFaithful : IsFaithful toy_vault
toy_vault-IsFaithful = record {
  hex = λ bytes. refl;
  decrypts = λ key nonce text aad ciphertext e. ground arith;
  json = λ encrypted bytes e. ground arith;
}

abbrev state_json : Json NativeWalletState
state_json = record {
  to_vec = λ state. if same NativeWalletState_discrete state native then some (4 ∷ []) else none;
  from_slice = λ bytes. some native;
}

state_json-IsFaithful : IsFaithfulJson state_json
state_json-IsFaithful = record { reads = λ state bytes e. ground arith }

abbrev store : WalletStore
store = record { directory = 1 ∷ []; password = 8 ∷ []; config = config; aad = [] }

abbrev disk : Disk
disk = record {
  files = λ k. none;
  unsynced = λ k. false;
  directories = λ d. true;
  faults = [];
  torn = 7 ∷ [];
}

-- The second operation fails, which leaves a torn temporary file.
abbrev failing : Disk
failing = record disk { faults = false ∷ true ∷ true ∷ [] }

save_native-IsWhole_example :
    IsWhole toy_vault state_json store native failing
      (save_native toy_vault state_json entropy store native failing).1
    × IsWhole toy_vault state_json store native
        (lose_power failing)
        (lose_power (save_native toy_vault state_json entropy store native failing).1)
save_native-IsWhole_example =
    save_native-IsWhole toy_vault state_json store toy_vault-IsFaithful state_json-IsFaithful
      entropy native failing refl refl

save_test : (save_native toy_vault state_json entropy store native disk).0 ≡ ok tt
unfolding save_native write_native validate_native validate_version validate_exit
    validate_source_sweep NativeWalletState_discrete ℕ_discrete derive_key EncryptedState_discrete
    bytes_discrete
save_test = refl

load-save_native_example : IsReadAs native (
    reload toy_vault state_json store
      (save_native toy_vault state_json entropy store native disk).1)
load-save_native_example =
    load-save_native toy_vault state_json store toy_vault-IsFaithful state_json-IsFaithful entropy
      native disk refl refl save_test
