-- ===== src/Client/Scripts.antt =====
-- client/src/lib.rs: the funding script, the recovery's signature hash and the shared checks.
use tinylayer_org.Base.{
  ℕ, Bytes, [], ◌∷◌, Result, ok_or, ensure, ◌>>◌, not, leb, Option, some, none, checked_sub, ◌==◌,
  Bool, false,
}
use tinylayer_org.Extern.{Bitcoin, Transaction, TxOut}
use tinylayer_org.Client.Types.{
  CoinKeys, Error, unsafe_delay, transaction_mismatch, nums_internal_key_bytes, delay_step,
}

-- `OP_CHECKSIGVERIFY` and `OP_CHECKSIG`.
abbrev op_checksigverify : ℕ
op_checksigverify = 0xad

abbrev op_checksig : ℕ
op_checksig = 0xac

module _ (b : Bitcoin) where
  -- The two-party leaf: the client's key, then the enclave's.
  unfoldable pub funding_tapscript : CoinKeys → Bytes
  funding_tapscript keys = b.push_opcode op_checksig (
      b.push_x_only_key keys.enclave_pubkey
        (b.push_opcode op_checksigverify (b.push_x_only_key keys.client_pubkey [])))

  -- `funding_material`: the output key and the control block under the NUMS internal key.
  unfoldable pub funding_output_key : CoinKeys → Bytes
  funding_output_key keys = b.output_key (funding_tapscript keys) nums_internal_key_bytes

  unfoldable pub funding_control_block : CoinKeys → Bytes
  funding_control_block keys = b.control_block (funding_tapscript keys) nums_internal_key_bytes

  unfoldable pub funding_script : CoinKeys → Bytes
  funding_script keys = b.new_p2tr_tweaked (funding_output_key keys)

  unfoldable pub recovery_sighash : Transaction → ℕ → CoinKeys → Result Error Bytes
  recovery_sighash transaction amount_sat keys =
      let prevout : TxOut = record { value = amount_sat; script_pubkey = funding_script keys } in
      let leaf_hash = b.tap_leaf_hash (funding_tapscript keys) in
      ok_or (b.script_spend_sighash transaction 0 (prevout ∷ []) leaf_hash) Error.sighash

  unfoldable pub client_xonly : Bytes → Bytes
  client_xonly secret = b.x_only_public_key secret

  unfoldable pub verify_signature : Bytes → Bytes → Bytes → Error → Result Error Unit
  verify_signature signature sighash pubkey error =
      ensure (b.verify_schnorr signature sighash pubkey) error

unfoldable pub require_future_delay : ℕ → ℕ → Result Error Unit
require_future_delay funding_confirmations delay_blocks =
    ensure (not (leb delay_blocks funding_confirmations)) unsafe_delay

-- `older.checked_sub(DELAY_STEP) != Some(newer)`
unfoldable pub is_step_below : ℕ → Option ℕ → Bool
is_step_below newer none = false
is_step_below newer (some delay) = delay == newer

unfoldable pub validate_reaction_window : ℕ → ℕ → ℕ → Result Error Unit
unfolding is_step_below
validate_reaction_window funding_confirmations older_delay_blocks newer_delay_blocks = do
  ensure (is_step_below newer_delay_blocks (checked_sub older_delay_blocks delay_step))
      transaction_mismatch
  require_future_delay funding_confirmations newer_delay_blocks
