-- ===== src/Client/Exit.antt =====
-- client/src/lib.rs: `build_exit_child`, the child that pays for a zero-fee recovery.
use tinylayer_org.Base.{
  ℕ, Bytes, List, [], ◌∷◌, Result, ok, ensure, ok_or, ◌>>=◌, ◌>>◌, leb, ltb, ◌==◌, ◌&&◌, ◌+◌, ◌*◌,
  same, bytes_discrete, length, head, Option, none, some, checked_sub, replicate, if◌then◌else◌,
  ◌^◌,
}
use tinylayer_org.Extern.{Bitcoin, Transaction}
use tinylayer_org.Client.Types.{
  SignedRecovery, Error, transaction_mismatch, withdrawal_key_mismatch, dust_output,
  invalid_client_signature, truc_version,
}

-- `u64::try_from`, on a `u128`.
abbrev pub to_u64 : ℕ → Option ℕ
to_u64 n = if ltb n (2 ^ 64) then some n else none

-- `first.and_then(u64::try_from)`
abbrev pub narrow : Option ℕ → Option ℕ
narrow none = none
narrow (some n) = to_u64 n

module _ (b : Bitcoin) where
  -- The child with one input, that spends the parent's first output, and one output.
  unfoldable pub child_of : Bytes → List Bytes → ℕ → Bytes → Transaction
  child_of parent_txid witness value destination = record {
    version = truc_version;
    lock_time = 0;
    input =
        record {
          previous_output = record { txid = parent_txid; vout = 0 };
          script_sig = [];
          sequence = b.sequence_max;
          witness = witness;
        }
        ∷ [];
    output = record { value = value; script_pubkey = destination } ∷ [];
  }

  -- The placeholder child has the size of the signed one, a witness of 64 bytes.
  unfoldable pub package_fee : ℕ → Transaction → ℕ → Bytes → ℕ
  unfolding child_of
  package_fee fee_rate_sat_vb parent amount_sat destination =
      let child = child_of (b.compute_txid parent) (replicate 64 0 ∷ []) amount_sat destination in
      fee_rate_sat_vb * (b.vsize parent + b.vsize child)

  unfoldable pub build_exit_child :
      SignedRecovery → ℕ → Bytes → Bytes → ℕ → Result Error Transaction
  unfolding package_fee
  build_exit_child recovery amount_sat withdrawal_secret destination fee_rate_sat_vb = do
    let parent = recovery.transaction
    ensure (length parent.input == 1 && length parent.output == 1) transaction_mismatch
    let internal = b.x_only_public_key withdrawal_secret
    ensure (same bytes_discrete internal recovery.withdrawal_xonly_pubkey) withdrawal_key_mismatch
    spent_output ← ok_or (head parent.output) transaction_mismatch
    ensure
        (spent_output.value == amount_sat
          && same bytes_discrete spent_output.script_pubkey (b.new_p2tr internal))
        transaction_mismatch
    output_sat ←
        ok_or
          (narrow
            (checked_sub amount_sat (package_fee fee_rate_sat_vb parent amount_sat destination)))
          dust_output
    ensure (leb (b.minimal_non_dust destination) output_sat) dust_output
    let unsigned = child_of (b.compute_txid parent) (replicate 64 0 ∷ []) output_sat destination
    sighash ← ok_or (b.key_spend_sighash unsigned 0 (spent_output ∷ [])) Error.sighash
    let tweaked = b.tap_tweak withdrawal_secret
    let signature = b.sign_schnorr tweaked sighash
    ensure (b.verify_schnorr signature sighash (b.x_only_public_key tweaked))
        invalid_client_signature
    ok (child_of (b.compute_txid parent) (signature ∷ []) output_sat destination)
