-- ===== src/Native/Model.antt =====
-- wallet/src/model.rs: the saved state of the native wallet, and its configuration.
use tinylayer_org.Base.{
  ℕ, Bytes, String, Result, ok, ensure, ok_or, ◌>>=◌, ◌>>◌, ◌==◌, same, Option, none, some,
}
use tinylayer_org.Enclave.Types.{protocol_version}
use tinylayer_org.Client.Types.{NetworkId, NetworkId_discrete}
use tinylayer_org.Wallet.Types.{Failure, message, WalletState, WalletCoin, file_format_version}
use tinylayer_org.Wallet.Platform.{Platform}
use tinylayer_org.Wallet.Register.{validate_version}
use tinylayer_org.Wallet.Exit.{ExitJournal, validate_package}
use tinylayer_org.Wallet.Sweep.{SourceSweepJournal}
use tinylayer_org.Wallet.Sweep.Journal.{validate_sweep}

abbrev pub native_state_format_version : ℕ
native_state_format_version = 1

pub record NativeWalletState : Type 0 where
  pub format_version : ℕ
  pub funding_secret : Bytes
  pub wallet : WalletState
  pub exit : Option ExitJournal
  pub source_sweep : Option SourceSweepJournal

-- The random value is the funding secret.
unfoldable pub new_native : Bytes → WalletState → NativeWalletState
new_native funding_secret wallet = record {
  format_version = native_state_format_version;
  funding_secret = funding_secret;
  wallet = wallet;
  exit = none;
  source_sweep = none;
}

module _ (p : Platform) where
  unfoldable pub validate_exit :
      NetworkId → Option WalletCoin → Option ExitJournal → Result Failure Unit
  validate_exit network coin none = ok tt
  validate_exit network coin (some exit) = do
    ensure (same NetworkId_discrete exit.exit_package.network network)
        (message "saved exit network mismatch")
    saved ← ok_or coin (message "saved exit has no wallet coin")
    validate_package p exit.exit_package saved

  unfoldable pub validate_source_sweep :
      NetworkId → Bytes → Option SourceSweepJournal → Result Failure Unit
  validate_source_sweep network funding_secret none = ok tt
  validate_source_sweep network funding_secret (some sweep) = do
    ensure (same NetworkId_discrete sweep.network network)
        (message "saved source sweep network mismatch")
    validate_sweep p funding_secret sweep

  unfoldable pub validate_native : NetworkId → NativeWalletState → Result Failure Unit
  validate_native network native = do
    ensure (native.format_version == native_state_format_version)
        (message "unsupported native wallet version")
    validate_version native.wallet
    validate_exit network native.wallet.coin native.exit
    validate_source_sweep network native.funding_secret native.source_sweep

pub data EnclaveConfig : Type 0 where
  -- The URL and the three PCRs.
  production debug : Bytes → Bytes → Bytes → Bytes → EnclaveConfig
  unsafe_plaintext : Bytes → EnclaveConfig

unfoldable pub enclave_url : EnclaveConfig → Bytes
enclave_url (production url pcr0 pcr1 pcr2) = url
enclave_url (debug url pcr0 pcr1 pcr2) = url
enclave_url (unsafe_plaintext url) = url

unfoldable pub mode_name : EnclaveConfig → String
mode_name (production url pcr0 pcr1 pcr2) = "production"
mode_name (debug url pcr0 pcr1 pcr2) = "debug"
mode_name (unsafe_plaintext url) = "unsafe_plaintext"

pub data ChainConfig : Type 0 where
  explorer : Bytes → ChainConfig
  -- The RPC URL, the cookie file and the wallet's name.
  core_rpc : Bytes → Bytes → Bytes → ChainConfig

pub record Config : Type 0 where
  pub format_version : ℕ
  pub protocol_version : ℕ
  pub network : NetworkId
  pub enclave : EnclaveConfig
  pub chain : ChainConfig
  pub min_confirmations : ℕ
  pub min_reaction_blocks : ℕ

unfoldable pub validate_config_version : Config → Result Failure Unit
validate_config_version config = do
  ensure (config.format_version == file_format_version)
      (message "unsupported wallet configuration version")
  ensure (config.protocol_version == protocol_version)
      (message "unsupported wallet protocol version")
