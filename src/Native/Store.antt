-- ===== src/Native/Store.antt =====
-- wallet/src/store.rs, `WalletStore`: loading and saving the encrypted state.
pub mod Loads
use tinylayer_org.Base.{ℕ, Bytes, Option, some, none, Result, ok, Action, codes}
use tinylayer_org.Base.Actions.{◌>>=◌, ◌>>◌, check, return}
use tinylayer_org.Wallet.Types.{Failure, WalletState}
use tinylayer_org.Wallet.Register.{validate_version}
use tinylayer_org.Wallet.Codec.{
  Vault, Json, open_encrypted_json, seal_encrypted_json, wallet_state_aad,
}
use tinylayer_org.Native.Model.{NativeWalletState, Config, validate_native}
use tinylayer_org.Native.Wire.{checked_json, state_from_wire}
use tinylayer_org.Native.Disk.{
  Disk, FilePath, key, Io, read_limited_with_limit, max_state_file_size, write_state_bytes_atomic,
}

abbrev pub state_file : Bytes
state_file = codes "wallet.enc"

-- The lock file is held as long as the store lives.
pub record WalletStore : Type 0 where
  pub directory : Bytes
  pub password : Bytes
  pub config : Config
  pub aad : Bytes

-- The random values of a save: the salt, the nonce, and the temporary file's suffix.
pub record SaveEntropy : Type 0 where
  pub salt : Bytes
  pub nonce : Bytes
  pub suffix : Bytes

abbrev pub state_path : WalletStore → FilePath
state_path store = record { directory = store.directory; name = state_file }

-- `json` is the wire form of a state.
module _ (v : Vault) (json : Json NativeWalletState) where
  unfoldable pub load_native : WalletStore → Io NativeWalletState
  unfolding read_limited_with_limit open_encrypted_json validate_native state_from_wire
  load_native store = do
    bytes ← read_limited_with_limit (key (state_path store)) max_state_file_size
    state ← check (open_encrypted_json v (checked_json json) bytes store.password store.aad)
    check (validate_native v.platform store.config.network state)
    return state

  unfoldable pub load : WalletStore → Io WalletState
  load store = do native ← load_native store; return (native.wallet)

  unfoldable pub write_native : SaveEntropy → WalletStore → NativeWalletState → Io Unit
  unfolding seal_encrypted_json write_state_bytes_atomic
  write_native entropy store state = do
    bytes ← check (
        seal_encrypted_json v (checked_json json) entropy.salt entropy.nonce state store.password
          store.aad)
    write_state_bytes_atomic entropy.suffix (state_path store) bytes

  unfoldable pub save_native : SaveEntropy → WalletStore → NativeWalletState → Io Unit
  save_native entropy store state = do
    check (validate_native v.platform store.config.network state)
    write_native entropy store state

  -- `NativeWalletStateRef` has the fields of `NativeWalletState` by reference, and its JSON.
  unfoldable pub save : SaveEntropy → WalletStore → WalletState → Io Unit
  unfolding validate_version
  save entropy store state = do
    check (validate_version state)
    native ← load_native store
    write_native entropy store (record native { wallet = state })
