-- ===== src/Client/Types.antt =====
-- client/src/lib.rs: the data types, the constants and the errors.
use tinylayer_org.Base.{ℕ, Bytes, [], ◌∷◌}
use tinylayer_org.Extern.{OutPoint, Transaction}
use tinylayer_org.Enclave.Types.{CoinId, RegisterRequest, SignRequest}

-- `DELAY_STEP`
abbrev pub delay_step : ℕ
delay_step = 10

-- `TRUC_VERSION`
abbrev pub truc_version : ℕ
truc_version = 3

-- `NUMS_INTERNAL_KEY_BYTES`
abbrev pub nums_internal_key_bytes : Bytes
nums_internal_key_bytes =
    0x50 ∷ 0x92 ∷ 0x9b ∷ 0x74 ∷ 0xc1 ∷ 0xa0 ∷ 0x49 ∷ 0x54 ∷ 0xb7 ∷ 0x8b ∷ 0x4b ∷ 0x60 ∷ 0x35 ∷ 0xe9
    ∷ 0x7a ∷ 0x5e ∷ 0x07 ∷ 0x8a ∷ 0x5a ∷ 0x0f ∷ 0x28 ∷ 0xec ∷ 0x96 ∷ 0xd5 ∷ 0x47 ∷ 0xbf ∷ 0xee
    ∷ 0x9a ∷ 0xce ∷ 0x80 ∷ 0x3a ∷ 0xc0 ∷ []

pub data NetworkId : Type 0 where
  mutinynet mainnet regtest : NetworkId

unfoldable pub NetworkId_discrete : Discrete NetworkId
NetworkId_discrete = hlevel

pub record Registration : Type 0 where
  pub protocol_version : ℕ
  pub request : RegisterRequest
  pub client_pubkey : Bytes

pub record CoinKeys : Type 0 where
  pub protocol_version : ℕ
  pub coin_id : CoinId
  pub client_pubkey : Bytes
  pub enclave_pubkey : Bytes

pub record CoinMetadata : Type 0 where
  pub keys : CoinKeys
  pub network : NetworkId
  pub outpoint : OutPoint
  pub amount_sat : ℕ

pub record SignedRecovery : Type 0 where
  pub transaction : Transaction
  pub withdrawal_xonly_pubkey : Bytes
  pub delay_blocks : ℕ

pub record PreparedRecovery : Type 0 where
  pub request : SignRequest
  pub metadata : CoinMetadata
  pub transaction : Transaction
  pub withdrawal_xonly_pubkey : Bytes
  pub delay_blocks : ℕ

pub data Error : Type 0 where
  protocol_version_mismatch response_mismatch metadata_mismatch wrong_client_key : Error
  equal_signing_keys invalid_enclave_signature invalid_client_signature funding_mismatch : Error
  unsafe_delay transaction_mismatch invalid_witness history_mismatch invalid_outpoint : Error
  amount_too_large dust_output invalid_delay sighash withdrawal_key_mismatch : Error
