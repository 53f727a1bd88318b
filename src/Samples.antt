-- ===== src/Samples.antt =====
-- Concrete functions in place of the third-party code, on which the tests run the model. A
-- signature is 64 bytes that name the message and the key by their first bytes; a digest is its input.
use tinylayer_org.Base.{
  ℕ, Bytes, [], ◌∷◌, ◌++◌, some, none, Option, same, bytes_discrete, replicate, true, false, map,
  ltb, leb, ◌==◌, if◌then◌else◌, Bool, ◌-◌, ◌^◌,
}
use tinylayer_org.Extern.{Crypto, Bitcoin, OutPoint}
use tinylayer_org.Wallet.Platform.{Platform}

abbrev pub first_byte : Bytes → ℕ
first_byte [] = 0
first_byte (x ∷ xs) = x

abbrev pub signature_by : Bytes → Bytes → Bytes
signature_by key message = first_byte message ∷ replicate 63 (first_byte key)

abbrev pub toy : Crypto
toy = record {
  sha256 = λ bytes. bytes;
  x_only_public_key = λ key. key;
  sign_schnorr = signature_by;
  verify_schnorr =
      λ signature message key. same bytes_discrete signature (signature_by key message);
}

abbrev pub toy_chain : Bitcoin
toy_chain = record {
  crypto = toy;
  is_null = λ outpoint. false;
  max_money = 2_100_000_000_000_000;
  sequence_from_height = λ height. height;
  sequence_max = 2 ^ 32 - 1;
  is_rbf = λ sequence. ltb sequence (2 ^ 32 - 2);
  signature_from_slice = λ bytes. some bytes;
  secret_from_slice = λ bytes. some bytes;
  new_p2tr = λ key. 0x51 ∷ key;
  new_p2tr_tweaked = λ key. 0x51 ∷ key;
  minimal_non_dust = λ script. 330;
  push_x_only_key = λ key script. script ++ key;
  push_opcode = λ opcode script. script ++ opcode ∷ [];
  output_key = λ leaf internal. leaf;
  control_block = λ leaf internal. 0xc0 ∷ leaf;
  decode_control_block = λ bytes. some bytes;
  verify_taproot_commitment = λ control key leaf. true;
  tap_leaf_hash = λ script. script;
  script_spend_sighash = λ tx index spent leaf. some (map (λ input. input.sequence) tx.input);
  key_spend_sighash = λ tx index spent. some (map (λ output. output.value) tx.output);
  tap_tweak = λ key. key;
  compute_txid =
      λ tx. map (λ output. output.value) tx.output ++ map (λ input. input.sequence) tx.input;
  vsize = λ tx. 100;
  weight = λ tx. 400;
}

abbrev outpoint_of_text : Bytes → Option OutPoint
outpoint_of_text [] = none
outpoint_of_text (vout ∷ txid) = some (record { txid = txid; vout = vout })

-- The order of texts letter by letter.
unfoldable pub bytes_le : Bytes → Bytes → Bool
bytes_le [] ys = true
bytes_le (x ∷ xs) [] = false
bytes_le (x ∷ xs) (y ∷ ys) = let later = bytes_le xs ys in if x == y then later else ltb x y

abbrev pub toy_order : OutPoint → OutPoint → Bool
toy_order a b =
    if same bytes_discrete a.txid b.txid then leb a.vout b.vout else bytes_le a.txid b.txid

-- Keys and texts are their bytes, and a ciphertext is its message.
abbrev pub toy_platform : Platform
toy_platform = record {
  bitcoin = toy_chain;
  hex_encode = λ bytes. bytes;
  hex_decode = λ text. some text;
  outpoint_to_string = λ o. o.vout ∷ o.txid;
  outpoint_from_str = outpoint_of_text;
  xonly_to_string = λ key. key;
  xonly_from_str = λ text. some text;
  public_key = λ secret. secret;
  public_to_string = λ key. key;
  public_from_str = λ text. some text;
  public_serialize = λ key. key;
  txid_serialize = λ txid. txid;
  shared_secret = λ key secret. [];
  hkdf = λ salt material info. some salt;
  cipher_key = λ bytes. some bytes;
  encrypt = λ key nonce message extra. some message;
  decrypt = λ key nonce message extra. some message;
  payload_to_json = λ payload. some [];
  payload_from_json = λ bytes. none;
  p2tr_address_script = λ key network. 0x51 ∷ key;
  address_script = λ text network. some text;
  address_text = λ text network. some text;
  outpoint_le = toy_order;
}
