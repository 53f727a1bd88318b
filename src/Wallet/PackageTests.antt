-- ===== src/Wallet/PackageTests.antt =====
-- Runs of the transfer package against encodings that are faithful: each letter is written twice, a
-- ciphertext is its message behind a tag of 16 bytes, and every JSON text is that of one payload.
use tinylayer_org.Base.{
  ℕ, Bytes, ◌≡◌, ◌*◌, refl, ap, arith, ◌+◌, [], ◌∷◌, ◌++◌, some, ok, length, replicate, zero, suc,
  bytes_discrete,
}
use tinylayer_org.Client.Types.{regtest}
use tinylayer_org.Enclave.Hashes.{initial_handoff}
use tinylayer_org.Wallet.Types.{TransferRequest, TransferEnvelope, TransferPayload}
use tinylayer_org.Wallet.Platform.{Platform}
use tinylayer_org.Wallet.Request.{
  validate_request, parse_hex32, request_id_of, coin_id_of, outpoint_of, withdrawal_key_of,
  next_capability_hash_of, transport_key_of, aad,
}
use tinylayer_org.Wallet.Package.{
  encrypt_transfer, decrypt_transfer, validate_payload, validate_transfer_plaintext_size,
  transfer_key,
}
use tinylayer_org.Wallet.Package.RoundTrip.{IsFaithfulTransport, decrypt_transfer-encrypt}
use tinylayer_org.Samples.{toy_platform}

abbrev doubled : Bytes → Bytes
doubled [] = []
doubled (x ∷ xs) = x ∷ x ∷ doubled xs

abbrev halved : Bytes → Bytes
halved [] = []
halved (x ∷ []) = []
halved (x ∷ y ∷ xs) = x ∷ halved xs

abbrev without : ℕ → Bytes → Bytes
without zero xs = xs
without (suc n) [] = []
without (suc n) (x ∷ xs) = without n xs

abbrev payload : TransferPayload
payload = record {
  format_version = 1;
  protocol_version = 1;
  request_id = replicate 32 5;
  client_secret = 1 ∷ [];
  current_handoff = initial_handoff;
  metadata = record {
    keys = record {
      protocol_version = 1;
      coin_id = replicate 32 7;
      client_pubkey = 1 ∷ [];
      enclave_pubkey = 2 ∷ [];
    };
    network = regtest;
    outpoint = record { txid = 5 ∷ []; vout = 0 };
    amount_sat = 100000;
  };
  history = [];
}

abbrev platform : Platform
platform = record toy_platform {
  hex_encode = doubled;
  hex_decode = λ text. some (halved text);
  encrypt = λ key nonce text associated. some (replicate 16 0 ++ text);
  decrypt = λ key nonce sealed associated. some (without 16 sealed);
  payload_to_json = λ written. some (1 ∷ 2 ∷ []);
  payload_from_json = λ text. some payload;
}

halved-doubled : (xs : Bytes) → halved (doubled xs) ≡ xs
halved-doubled [] = refl
halved-doubled (x ∷ xs) = ap (λ ys. x ∷ ys) (halved-doubled xs)

length-doubled : (xs : Bytes) → length (doubled xs) ≡ 2 * length xs
length-doubled [] = refl
length-doubled (x ∷ xs) = omega (arith, length-doubled xs)

sealed_as :
    (text ciphertext : Bytes)
    → some (replicate 16 0 ++ text) ≡ some ciphertext
    → ciphertext ≡ replicate 16 0 ++ text
sealed_as text ciphertext h = cc

tagged :
    (text ciphertext : Bytes)
    → some (replicate 16 0 ++ text) ≡ some ciphertext
    → length ciphertext ≡ length text + 16
tagged text ciphertext h = rw (sealed_as text ciphertext h) (omega arith)

platform-IsFaithfulTransport : IsFaithfulTransport platform
platform-IsFaithfulTransport = record {
  hex = λ bytes. ap some (halved-doubled bytes);
  hex_length = length-doubled;
  texts = λ secret. refl;
  agrees = λ a b. refl;
  decrypts = λ key nonce text associated ciphertext h.
      ap (λ c. some (without 16 c)) (sealed_as text ciphertext h);
  tag = λ key nonce text associated ciphertext h. tagged text ciphertext h;
}

abbrev request : TransferRequest
request = record {
  format_version = 1;
  protocol_version = 1;
  request_id = replicate 64 5;
  coin_id = replicate 64 7;
  network = regtest;
  outpoint = 0 ∷ 5 ∷ [];
  expected_amount_sat = 100000;
  withdrawal_xonly_pubkey = 8 ∷ [];
  next_capability_hash = replicate 64 4;
  transport_public_key = 3 ∷ [];
  min_reaction_blocks = 10;
}

abbrev envelope : TransferEnvelope
envelope = record {
  format_version = 1;
  request_id = replicate 64 5;
  ephemeral_public_key = 9 ∷ [];
  nonce = replicate 48 4;
  ciphertext = doubled (replicate 16 0 ++ (1 ∷ 2 ∷ []));
}

encrypt_test : encrypt_transfer platform (9 ∷ []) (replicate 24 4) request payload ≡ ok envelope
unfolding encrypt_transfer validate_request validate_payload request_id_of coin_id_of outpoint_of
    withdrawal_key_of next_capability_hash_of transport_key_of transfer_key
    validate_transfer_plaintext_size aad parse_hex32 bytes_discrete
encrypt_test = refl

decrypt_transfer-encrypt_example : decrypt_transfer platform request (3 ∷ []) envelope ≡ ok payload
unfolding transport_key_of
decrypt_transfer-encrypt_example =
    decrypt_transfer-encrypt platform platform-IsFaithfulTransport (9 ∷ []) (replicate 24 4)
      (3 ∷ []) (3 ∷ []) request payload envelope (λ text h. refl) refl refl refl encrypt_test
