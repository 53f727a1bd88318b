-- ===== src/Wallet/Request.antt =====
-- wallet-core/src/transfer.rs: the transfer request, its checks and its associated data.
use tinylayer_org.Base.{
  ℕ, Bytes, Result, ok, ensure, ok_or, ◌>>=◌, ◌>>◌, not, leb, ◌==◌, ◌&&◌, ◌++◌, [], ◌∷◌, same,
  bytes_discrete, length, be_bytes, codes, List, String,
}
use Prim.Native.String
use tinylayer_org.Extern.{OutPoint}
use tinylayer_org.Enclave.Types.{protocol_version}
use tinylayer_org.Client.Types.{NetworkId, mutinynet, mainnet, regtest}
use tinylayer_org.Wallet.Types.{
  Failure, message, TransferRequest, TransferEnvelope, file_format_version,
}
use tinylayer_org.Wallet.Platform.{Platform}

-- `NetworkId as u8`
abbrev pub network_byte : NetworkId → ℕ
network_byte mutinynet = 1
network_byte mainnet = 2
network_byte regtest = 3

-- `TRANSFER_INFO` and `TRANSFER_ENVELOPE_FINGERPRINT`
abbrev pub transfer_info : Bytes
transfer_info = codes "Tinylayer/TransferPackage/v1"

abbrev pub transfer_envelope_fingerprint : Bytes
transfer_envelope_fingerprint = codes "Tinylayer/TransferEnvelopeFingerprint/v1"

-- The checks are methods of `TransferRequest`; a section names the request that they read.
module _ (p : Platform) where
  -- The label stands in the two messages.
  unfoldable pub parse_hex32 : String → Bytes → Result Failure Bytes
  parse_hex32 label value = do
    bytes ← ok_or (p.hex_decode value) (message (String.◌++◌ "invalid " (String.◌++◌ label " hex")))
    ensure (length bytes == 32)
        (message (String.◌++◌ "invalid " (String.◌++◌ label " length: expected 32 bytes, got ")))
    ok bytes

  unfoldable pub new_request :
      Bytes → Bytes → NetworkId → OutPoint → ℕ → Bytes → Bytes → Bytes → ℕ → TransferRequest
  new_request request_id coin_id network outpoint expected_amount_sat withdrawal_xonly_pubkey
        next_capability_hash transport_public_key min_reaction_blocks =
      record {
        format_version = file_format_version;
        protocol_version = protocol_version;
        request_id = p.hex_encode request_id;
        coin_id = p.hex_encode coin_id;
        network = network;
        outpoint = p.outpoint_to_string outpoint;
        expected_amount_sat = expected_amount_sat;
        withdrawal_xonly_pubkey = p.xonly_to_string withdrawal_xonly_pubkey;
        next_capability_hash = p.hex_encode next_capability_hash;
        transport_public_key = p.public_to_string transport_public_key;
        min_reaction_blocks = min_reaction_blocks;
      }

  unfoldable pub request_id_of : TransferRequest → Result Failure Bytes
  request_id_of r = parse_hex32 "request ID" r.request_id

  unfoldable pub coin_id_of : TransferRequest → Result Failure Bytes
  coin_id_of r = parse_hex32 "coin ID" r.coin_id

  unfoldable pub outpoint_of : TransferRequest → Result Failure OutPoint
  outpoint_of r =
      ok_or (p.outpoint_from_str r.outpoint) (message "invalid transfer request outpoint")

  unfoldable pub withdrawal_key_of : TransferRequest → Result Failure Bytes
  withdrawal_key_of r =
      ok_or (p.xonly_from_str r.withdrawal_xonly_pubkey)
        (message "invalid transfer request withdrawal key")

  unfoldable pub next_capability_hash_of : TransferRequest → Result Failure Bytes
  next_capability_hash_of r = parse_hex32 "next capability hash" r.next_capability_hash

  unfoldable pub transport_key_of : TransferRequest → Result Failure Bytes
  transport_key_of r =
      ok_or (p.public_from_str r.transport_public_key)
        (message "invalid transfer request transport key")

  unfoldable pub validate_request : TransferRequest → Result Failure Unit
  validate_request r = do
    ensure (r.format_version == file_format_version)
        (message "unsupported transfer request version")
    ensure (r.protocol_version == protocol_version) (message "transfer protocol version mismatch")
    request_id ← request_id_of r
    coin_id ← coin_id_of r
    ensure
        (same bytes_discrete r.request_id (p.hex_encode request_id)
          && same bytes_discrete r.coin_id (p.hex_encode coin_id))
        (message "transfer request IDs must use canonical lowercase hex")
    outpoint ← outpoint_of r
    ensure (not (p.is_null outpoint)) (message "transfer outpoint cannot be null")
    ensure (same bytes_discrete r.outpoint (p.outpoint_to_string outpoint))
        (message "transfer outpoint must use canonical txid:vout encoding")
    ensure (leb r.expected_amount_sat p.max_money)
        (message "transfer request amount exceeds Bitcoin MAX_MONEY")
    withdrawal_key ← withdrawal_key_of r
    next_capability_hash ← next_capability_hash_of r
    transport_key ← transport_key_of r
    ensure
        (same bytes_discrete r.withdrawal_xonly_pubkey (p.xonly_to_string withdrawal_key)
          && same bytes_discrete r.next_capability_hash (p.hex_encode next_capability_hash)
          && same bytes_discrete r.transport_public_key (p.public_to_string transport_key))
        (message "transfer request keys must use canonical lowercase encodings")

  -- The associated data that binds a package to its request.
  unfoldable pub aad : TransferRequest → Result Failure Bytes
  aad r = do
    validate_request r
    outpoint ← outpoint_of r
    request_id ← request_id_of r
    coin_id ← coin_id_of r
    withdrawal_key ← withdrawal_key_of r
    next_capability_hash ← next_capability_hash_of r
    transport_key ← transport_key_of r
    ok (
        transfer_info
        ++ (be_bytes 4 r.protocol_version
            ++ (request_id
                ++ (coin_id
                    ++ (network_byte r.network
                        ∷ (p.txid_serialize outpoint.txid
                            ++ (be_bytes 4 outpoint.vout
                                ++ (be_bytes 8 r.expected_amount_sat
                                    ++ (withdrawal_key
                                        ++ (next_capability_hash
                                            ++ (p.public_serialize transport_key
                                                ++ be_bytes 4 r.min_reaction_blocks)))))))))))

  -- `(value.len() as u64).to_be_bytes()`, then the value.
  unfoldable pub framed : List Bytes → Bytes
  framed [] = []
  framed (value ∷ rest) = be_bytes 8 (length value) ++ (value ++ framed rest)

  unfoldable pub fingerprint : TransferEnvelope → Bytes
  unfolding framed
  fingerprint e = p.sha256 (
      transfer_envelope_fingerprint
      ++ (be_bytes 4 e.format_version
          ++ framed (e.request_id ∷ e.ephemeral_public_key ∷ e.nonce ∷ e.ciphertext ∷ [])))
