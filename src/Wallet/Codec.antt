-- ===== src/Wallet/Codec.antt =====
-- wallet-core/src/codec.rs: the encrypted form of a saved state.
pub mod RoundTrip
use tinylayer_org.Base.{
  ℕ, Bytes, List, [], ◌∷◌, ◌++◌, Result, ok, ensure, ok_or, ◌>>=◌, ◌>>◌, leb, ◌==◌, ◌&&◌, same,
  bytes_discrete, Bool, length, codes, Option,
}
use tinylayer_org.Wallet.Types.{Failure, message, WalletState, file_format_version}
use tinylayer_org.Wallet.Platform.{Platform}
use tinylayer_org.Wallet.Register.{validate_version}

pub record KdfParameters : Type 0 where
  pub algorithm : Bytes
  pub memory_kib : ℕ
  pub iterations : ℕ
  pub parallelism : ℕ
  pub salt : Bytes

pub record EncryptedState : Type 0 where
  pub format_version : ℕ
  pub kdf : KdfParameters
  pub cipher : Bytes
  pub nonce : Bytes
  pub ciphertext : Bytes

-- What the codec calls beside the platform: `argon2`, and JSON of an encrypted state.
pub record Vault : Type 0 where
  pub platform : Platform
  pub open platform use *
  -- `Params::new(memory, iterations, parallelism, Some(32)).is_ok()`
  pub argon2_params : ℕ → ℕ → ℕ → Bool
  -- `hash_password_into` of 32 bytes: memory, iterations, parallelism, password, salt.
  pub argon2_hash : ℕ → ℕ → ℕ → Bytes → Bytes → Option Bytes
  -- `serde_json::to_vec_pretty` and `from_slice`.
  pub encrypted_to_json : EncryptedState → Option Bytes
  pub encrypted_from_json : Bytes → Option EncryptedState

-- `Serialize` and `DeserializeOwned` of a type, by `serde_json::to_vec` and `from_slice`.
pub record Json (A : Type 0) : Type 0 where
  pub to_vec : A → Option Bytes
  pub from_slice : Bytes → Option A

abbrev pub state_aad_prefix : Bytes
state_aad_prefix = codes "tinylayer-wallet-state-v1"

abbrev pub kdf_memory_kib : ℕ
kdf_memory_kib = 19456

abbrev pub kdf_iterations : ℕ
kdf_iterations = 2

abbrev pub kdf_parallelism : ℕ
kdf_parallelism = 1

abbrev pub argon2id : Bytes
argon2id = codes "argon2id"

abbrev pub xchacha20poly1305 : Bytes
xchacha20poly1305 = codes "xchacha20poly1305"

unfoldable pub validate_kdf : KdfParameters → Result Failure Unit
validate_kdf kdf = do
  ensure (leb 8 kdf.memory_kib && leb kdf.memory_kib 262144)
      (message "wallet KDF memory cost is outside supported limits")
  ensure (leb 1 kdf.iterations && leb kdf.iterations 10)
      (message "wallet KDF iteration cost is outside supported limits")
  ensure (leb 1 kdf.parallelism && leb kdf.parallelism 16)
      (message "wallet KDF parallelism is outside supported limits")

module _ (v : Vault) where
  unfoldable pub wallet_state_aad : {A : Type 0} → Json A → A → Result Failure Bytes
  wallet_state_aad json binding = do
    bytes ← ok_or (json.to_vec binding) (message "serialization failed")
    ok (state_aad_prefix ++ v.sha256 bytes)

  unfoldable pub derive_key : Bytes → KdfParameters → Bytes → Result Failure Bytes
  derive_key password kdf salt = do
    ensure (v.argon2_params kdf.memory_kib kdf.iterations kdf.parallelism)
        (message "invalid wallet KDF parameters")
    ok_or (v.argon2_hash kdf.memory_kib kdf.iterations kdf.parallelism password salt)
        (message "failed to derive wallet encryption key")

  abbrev pub kdf_of : Bytes → KdfParameters
  kdf_of salt = record {
    algorithm = argon2id;
    memory_kib = kdf_memory_kib;
    iterations = kdf_iterations;
    parallelism = kdf_parallelism;
    salt = v.hex_encode salt;
  }

  abbrev pub encrypted_of : Bytes → Bytes → Bytes → EncryptedState
  encrypted_of salt nonce ciphertext = record {
    format_version = file_format_version;
    kdf = kdf_of salt;
    cipher = xchacha20poly1305;
    nonce = v.hex_encode nonce;
    ciphertext = v.hex_encode ciphertext;
  }

  -- The two random values are the salt, of 16 bytes, and the nonce, of 24.
  unfoldable pub seal_encrypted_json :
      {A : Type 0} → Json A → Bytes → Bytes → A → Bytes → Bytes → Result Failure Bytes
  seal_encrypted_json json salt nonce value password aad = do
    plaintext ← ok_or (json.to_vec value) (message "serialization failed")
    key ← derive_key password (kdf_of salt) salt
    cipher ← ok_or (v.cipher_key key) (message "invalid wallet encryption key")
    ciphertext ←
        ok_or (v.encrypt cipher nonce plaintext aad) (message "failed to encrypt wallet state")
    encoded ←
        ok_or (v.encrypted_to_json (encrypted_of salt nonce ciphertext))
          (message "serialization failed")
    ok (encoded ++ b'\n' ∷ [])

  unfoldable pub open_encrypted_json :
      {A : Type 0} → Json A → Bytes → Bytes → Bytes → Result Failure A
  open_encrypted_json json bytes password aad = do
    encrypted ← ok_or (v.encrypted_from_json bytes) (message "encrypted wallet state is invalid")
    ensure (encrypted.format_version == file_format_version)
        (message "unsupported encrypted wallet version")
    ensure (same bytes_discrete encrypted.kdf.algorithm argon2id) (message "unsupported wallet KDF")
    ensure (same bytes_discrete encrypted.cipher xchacha20poly1305)
        (message "unsupported wallet cipher")
    validate_kdf encrypted.kdf
    salt ← ok_or (v.hex_decode encrypted.kdf.salt) (message "invalid wallet salt")
    ensure (length salt == 16) (message "invalid wallet salt length")
    nonce ← ok_or (v.hex_decode encrypted.nonce) (message "invalid wallet nonce")
    ensure (length nonce == 24) (message "invalid wallet nonce length")
    ciphertext ← ok_or (v.hex_decode encrypted.ciphertext) (message "invalid wallet ciphertext")
    key ← derive_key password encrypted.kdf salt
    cipher ← ok_or (v.cipher_key key) (message "invalid wallet encryption key")
    plaintext ←
        ok_or (v.decrypt cipher nonce ciphertext aad)
          (message "wallet password is incorrect or state is corrupted")
    ok_or (json.from_slice plaintext) (message "decrypted wallet state is invalid")

  unfoldable pub seal_wallet_state :
      Json WalletState → Bytes → Bytes → WalletState → Bytes → Bytes → Result Failure Bytes
  seal_wallet_state json salt nonce state password aad = do
    validate_version state
    seal_encrypted_json json salt nonce state password aad

  unfoldable pub open_wallet_state :
      Json WalletState → Bytes → Bytes → Bytes → Result Failure WalletState
  open_wallet_state json bytes password aad = do
    state ← open_encrypted_json json bytes password aad
    validate_version state
    ok state
