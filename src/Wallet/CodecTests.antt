-- ===== src/Wallet/CodecTests.antt =====
-- Runs of the encryption of a state.
use tinylayer_org.Base.{
  same, if◌then◌else◌, arith, ◌≡◌, refl, [], ◌∷◌, ok, some, none, true, length, replicate,
  ℕ_discrete, Bytes,
}
use tinylayer_org.Wallet.Codec.{
  argon2id, xchacha20poly1305, Vault, Json, EncryptedState, seal_encrypted_json,
  open_encrypted_json, derive_key,
}
use tinylayer_org.Wallet.Codec.RoundTrip.{
  IsFaithful, IsFaithfulJson, IsAffordable, open-seal, open_encrypted_json-IsAffordable,
}
use tinylayer_org.Samples.{toy_platform}

abbrev salt : Bytes
salt = replicate 16 1

abbrev nonce : Bytes
nonce = replicate 24 2

EncryptedState_discrete : Discrete EncryptedState
EncryptedState_discrete = hlevel ℕ_discrete

-- The one state of these runs: the sealed text is the text.
abbrev sealed : EncryptedState
sealed = record {
  format_version = 1;
  kdf = record {
    algorithm = argon2id;
    memory_kib = 19456;
    iterations = 2;
    parallelism = 1;
    salt = salt;
  };
  cipher = xchacha20poly1305;
  nonce = nonce;
  ciphertext = 3 ∷ 4 ∷ [];
}

-- Its JSON knows that state only.
abbrev toy_vault : Vault
toy_vault = record {
  platform = toy_platform;
  argon2_params = λ memory iterations parallelism. true;
  argon2_hash = λ memory iterations parallelism password salt. some password;
  encrypted_to_json = λ encrypted.
      if same EncryptedState_discrete encrypted sealed then some (b'{' ∷ b'}' ∷ []) else none;
  encrypted_from_json = λ bytes. some sealed;
}

toy_vault-IsFaithful : IsFaithful toy_vault
toy_vault-IsFaithful = record {
  hex = λ bytes. refl;
  decrypts = λ key nonce text aad ciphertext e. ground arith;
  json = λ encrypted bytes e. ground arith;
}

abbrev text_json : Json Bytes
text_json = record { to_vec = λ text. some text; from_slice = λ text. some text }

text_json-IsFaithful : IsFaithfulJson text_json
text_json-IsFaithful = record { reads = λ value bytes e. ground arith }

seal_test :
    seal_encrypted_json toy_vault text_json salt nonce (3 ∷ 4 ∷ []) (8 ∷ []) []
    ≡ ok (b'{' ∷ b'}' ∷ b'\n' ∷ [])
unfolding seal_encrypted_json derive_key EncryptedState_discrete ℕ_discrete
seal_test = refl

open-seal_example :
    open_encrypted_json toy_vault text_json (b'{' ∷ b'}' ∷ b'\n' ∷ []) (8 ∷ []) [] ≡ ok (3 ∷ 4 ∷ [])
open-seal_example =
    open-seal toy_vault toy_vault-IsFaithful text_json text_json-IsFaithful salt nonce (3 ∷ 4 ∷ [])
      (8 ∷ []) [] (b'{' ∷ b'}' ∷ b'\n' ∷ []) refl refl seal_test

open_encrypted_json-IsAffordable_example :
    (encrypted : EncryptedState) × (salt : Bytes) × (nonce : Bytes) × (toy_vault.encrypted_from_json
        (b'{' ∷ b'}' ∷ b'\n' ∷ [])
      ≡ some encrypted)
    × IsAffordable encrypted
    × (toy_vault.hex_decode encrypted.kdf.salt ≡ some salt)
    × (length salt ≡ 16)
    × (toy_vault.hex_decode encrypted.nonce ≡ some nonce)
    × (length nonce ≡ 24)
open_encrypted_json-IsAffordable_example =
    open_encrypted_json-IsAffordable toy_vault text_json (b'{' ∷ b'}' ∷ b'\n' ∷ []) (8 ∷ []) []
      (3 ∷ 4 ∷ []) open-seal_example
