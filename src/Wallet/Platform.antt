-- ===== src/Wallet/Platform.antt =====
-- The third-party code that the wallet calls beside the Bitcoin library: hexadecimal and textual
-- encodings (`hex`, the `Display` and `FromStr` of `bitcoin`), ECDH, HKDF, the authenticated cipher
-- and JSON. A record of functions, an argument of the wallet's definitions; it holds no law.
use tinylayer_org.Base.{Bytes, Option, Bool}
use tinylayer_org.Extern.{Bitcoin, OutPoint}
use tinylayer_org.Client.Types.{NetworkId}
use tinylayer_org.Wallet.Types.{TransferPayload}

pub record Platform : Type 0 where
  pub bitcoin : Bitcoin
  pub open bitcoin use *
  pub hex_encode : Bytes → Bytes
  pub hex_decode : Bytes → Option Bytes
  pub outpoint_to_string : OutPoint → Bytes
  pub outpoint_from_str : Bytes → Option OutPoint
  pub xonly_to_string : Bytes → Bytes
  pub xonly_from_str : Bytes → Option Bytes
  -- `PublicKey`: `from_secret_key`, `Display`, `FromStr` and `serialize`.
  pub public_key : Bytes → Bytes
  pub public_to_string : Bytes → Bytes
  pub public_from_str : Bytes → Option Bytes
  pub public_serialize : Bytes → Bytes
  -- `serialize(&txid)`
  pub txid_serialize : Bytes → Bytes
  -- `SharedSecret::new`, `Hkdf::<Sha256>::new(salt, material).expand(info)` into 32 bytes.
  pub shared_secret : Bytes → Bytes → Bytes
  pub hkdf : Bytes → Bytes → Bytes → Option Bytes
  -- `XChaCha20Poly1305::new_from_slice`, `encrypt` and `decrypt`: key, nonce, message, associated
  -- data.
  pub cipher_key : Bytes → Option Bytes
  pub encrypt : Bytes → Bytes → Bytes → Bytes → Option Bytes
  pub decrypt : Bytes → Bytes → Bytes → Bytes → Option Bytes
  -- `serde_json::to_vec` and `from_slice` of a payload.
  pub payload_to_json : TransferPayload → Option Bytes
  pub payload_from_json : Bytes → Option TransferPayload
  -- `Address::p2tr(.., network).script_pubkey()`
  pub p2tr_address_script : Bytes → NetworkId → Bytes
  -- `Address::from_str(..).require_network(..)`, its script and its canonical text.
  pub address_script : Bytes → NetworkId → Option Bytes
  pub address_text : Bytes → NetworkId → Option Bytes
  -- `Ord` of `OutPoint`: is the one not after the other.
  pub outpoint_le : OutPoint → OutPoint → Bool
