-- ===== src/Extern.antt =====
-- The third-party code that the program calls: SHA-256 (the `sha2` crate), keys and BIP340
-- signatures (`secp256k1`), scripts, Taproot and transaction ids (`bitcoin`). None of it is source
-- of the repository, so it is a record of functions that the definitions take as an argument. Keys,
-- signatures, scripts and ids are the byte strings that they serialise to. The records hold no
-- law: what a theorem needs of a function it takes as a hypothesis, one of those named below.
use tinylayer_org.Base.{Bytes, ℕ, Bool, Option, List, ℕ_discrete}

-- `Secp256k1::new()` and `Keypair::from_secret_key` carry no data of their own: a key pair is its
-- secret key.
pub record Crypto : Type 0 where
  -- `Sha256::digest`; feeding a hasher piece by piece digests the concatenation.
  pub sha256 : Bytes → Bytes
  -- `SecretKey::x_only_public_key`
  pub x_only_public_key : Bytes → Bytes
  -- `sign_schnorr_no_aux_rand`: key, then message.
  pub sign_schnorr : Bytes → Bytes → Bytes
  -- `verify_schnorr`: signature, message, key.
  pub verify_schnorr : Bytes → Bytes → Bytes → Bool

-- The data types of the `bitcoin` crate, with the fields that the source reads and writes.
pub record OutPoint : Type 0 where
  pub txid : Bytes
  pub vout : ℕ

pub record TxIn : Type 0 where
  pub previous_output : OutPoint
  pub script_sig : Bytes
  pub sequence : ℕ
  pub witness : List Bytes

pub record TxOut : Type 0 where
  pub value : ℕ
  pub script_pubkey : Bytes

pub record Transaction : Type 0 where
  pub version : ℕ
  pub lock_time : ℕ
  pub input : List TxIn
  pub output : List TxOut

-- Their `PartialEq`.
unfoldable pub OutPoint_discrete : Discrete OutPoint
unfolding ℕ_discrete
OutPoint_discrete = hlevel ℕ_discrete

unfoldable pub TxOut_discrete : Discrete TxOut
unfolding ℕ_discrete
TxOut_discrete = hlevel ℕ_discrete

unfoldable pub Transaction_discrete : Discrete Transaction
unfolding ℕ_discrete
Transaction_discrete = hlevel ℕ_discrete

-- A key pair is its secret key, a control block its serialised form.
pub record Bitcoin : Type 0 where
  pub crypto : Crypto
  pub open crypto use *
  -- `OutPoint::is_null`, `Amount::MAX_MONEY`, `Sequence::from_height`, `Sequence::MAX`,
  -- `Sequence::is_rbf`
  pub is_null : OutPoint → Bool
  pub max_money : ℕ
  pub sequence_from_height : ℕ → ℕ
  pub sequence_max : ℕ
  pub is_rbf : ℕ → Bool
  -- `Signature::from_slice`, `SecretKey::from_slice`
  pub signature_from_slice : Bytes → Option Bytes
  pub secret_from_slice : Bytes → Option Bytes
  -- `ScriptBuf::new_p2tr` with no script tree, `ScriptBuf::new_p2tr_tweaked`, and
  -- `Script::minimal_non_dust`
  pub new_p2tr : Bytes → Bytes
  pub new_p2tr_tweaked : Bytes → Bytes
  pub minimal_non_dust : Bytes → ℕ
  -- `Builder::push_x_only_key`, `Builder::push_opcode`, on the script built so far.
  pub push_x_only_key : Bytes → Bytes → Bytes
  pub push_opcode : ℕ → Bytes → Bytes
  -- The output key and the control block of the Taproot tree that has one leaf at depth zero:
  -- leaf, then internal key. `TaprootBuilder` cannot fail on such a tree.
  pub output_key : Bytes → Bytes → Bytes
  pub control_block : Bytes → Bytes → Bytes
  -- `ControlBlock::decode`, `ControlBlock::verify_taproot_commitment`
  pub decode_control_block : Bytes → Option Bytes
  pub verify_taproot_commitment : Bytes → Bytes → Bytes → Bool
  -- `TapLeafHash::from_script` at the Tapscript leaf version, and the two signature hashes of
  -- `SighashCache` at the default type: transaction, input index, spent outputs.
  pub tap_leaf_hash : Bytes → Bytes
  pub script_spend_sighash : Transaction → ℕ → List TxOut → Bytes → Option Bytes
  pub key_spend_sighash : Transaction → ℕ → List TxOut → Option Bytes
  -- `tap_tweak` of a key pair with no script tree.
  pub tap_tweak : Bytes → Bytes
  -- `Transaction::compute_txid`, `Transaction::vsize`, `Transaction::weight`
  pub compute_txid : Transaction → Bytes
  pub vsize : Transaction → ℕ
  pub weight : Transaction → ℕ
