-- ===== src/Native/RunTests.antt =====
-- Runs of the funding and of the exit of a coin against the sample environment.
use tinylayer_org.Base.{bytes_discrete, ◌≡◌, refl, [], ◌∷◌, some, false, ℕ, List}
use tinylayer_org.Enclave.Hashes.{authorization, capability_hash}
use tinylayer_org.Native.Model.{Config, core_rpc}
use tinylayer_org.Native.Session.{World, Entropy, Event}
use tinylayer_org.Native.Session.Fund.{fund_coin_explorer}
use tinylayer_org.Native.Session.Journal.{AllJournaled}
use tinylayer_org.Native.Session.Broadcast.{fund_coin_explorer-journaled}
use tinylayer_org.Native.Session.Leave.{exit_coin}
use tinylayer_org.Native.Session.Left.{exit_coin-journaled}
use tinylayer_org.Native.Session.Core.{fund_coin}
use tinylayer_org.Native.Session.CoreFunded.{fund_coin-journaled}
use tinylayer_org.Client.Recovery.{unlocking}
use tinylayer_org.Native.Session.{load_native}
use tinylayer_org.Native.Model.{validate_native, validate_exit, validate_source_sweep}
use tinylayer_org.Wallet.Register.{validate_version}
use tinylayer_org.Client.Types.{NetworkId_discrete}
use tinylayer_org.Wallet.Validation.{require_reaction_margin}
use tinylayer_org.Client.Registration.{verify_status, validate_metadata}
use tinylayer_org.Client.Recovery.{
  verify_recovery, canonical_recovery, recovery_transaction, verify_signed_recovery, verify_witness,
}
use tinylayer_org.Extern.{Transaction_discrete}
use tinylayer_org.Client.Scripts.{
  funding_script, funding_control_block, funding_tapscript, recovery_sighash, require_future_delay,
}
use tinylayer_org.Native.Session.Fund.{
  prepare_if_new, prepare_funding, sign_if_prepared, sign_funding, recheck_uncommitted,
  validate_explorer_prepared_funding, secure_if_pending, secure_funding, broadcast_funding,
  mark_if_new,
}
use tinylayer_org.Native.Policy.{
  largest_source, free_sources, check_saved_funding, check_canonical_funding, find_source,
  validate_saved_exit_policy, check_core_funding,
}
use tinylayer_org.Wallet.Fund.{
  begin_funding, attempt_of, pending_recovery, pending_sign_request, record_sign_response,
  complete_funding_recovery, fund_purpose, responded_stage, funding_transaction, funding_journal,
  mark_funding_broadcast,
}
use tinylayer_org.Wallet.Register.{verify_live_status}
use tinylayer_org.Enclave.Hashes.{tagged_bytes}
use tinylayer_org.Wallet.Source.{
  build_source_funding, source_funding_script, funding_transaction_of,
}
use tinylayer_org.Wallet.Validation.{
  validate_funding_inputs, validate_each_input, attempt_committed, attempt_uncommitted,
  validate_finalized_funding, count_script, verify_observed_funding_output,
}
use tinylayer_org.Client.Recovery.{
  prepare_recovery, complete_recovery, push_witness, verify_funding_utxo,
}
use tinylayer_org.Client.Registration.{metadata_of, verify_sign_response}
use tinylayer_org.Client.Scripts.{client_xonly, funding_output_key}
use tinylayer_org.Native.Session.{save_native, save}
use tinylayer_org.Wallet.Pending.{prepared_stage}
use tinylayer_org.Wallet.Types.{FundingStage_discrete}
use tinylayer_org.Extern.{OutPoint_discrete, TxOut_discrete}
use tinylayer_org.Enclave.Types.{SignRequest_discrete}
use tinylayer_org.Native.Session.Leave.{
  exit_by, exit_coin_journaled, resume_exit, exit_unless_resumed, exit_fresh, find_spender,
  prepare_exit_if, must_prepare, chosen_fee_rate, submit_exit, send_package,
}
use tinylayer_org.Wallet.Exit.{
  verify_exit_funding, prepare_exit, prepare_package, owned_recovery, exit_fee, validate_package,
  arm_submission,
}
use tinylayer_org.Wallet.Send.{is_broadcast}
use tinylayer_org.Wallet.Package.{secret_xonly}
use tinylayer_org.Client.Exit.{build_exit_child}
use tinylayer_org.Native.Session.Exit.{
  observe_exit_package, or_authorized, check_observed_parent, judge_package, arm_exit,
}
use tinylayer_org.Native.Session.Core.{
  fund_coin_core, connect_if, needs_enclave, fund_core_from, prepare_core_if_new, prepare_core,
  journal_if, journal_recovery, finish_if_pending, finish_pending_funding_recovery, sign_core_if,
  sign_core, recheck_core, secure_core, broadcast_core, mark_core,
}
use tinylayer_org.Samples.{toy_platform}
use tinylayer_org.Native.Sample.{before, config, entropy, native, outside, policy, registered}

-- The capability and the withdrawal key of the next owner are new.
abbrev fresh : Entropy
fresh = record entropy { capability = 5 ∷ [] }

-- The request of the first recovery is signed, and then its funding is broadcast.
abbrev funded : World outside
funded = (fund_coin_explorer outside toy_platform config fresh policy (before registered)).1

fund_coin_explorer-journaled_example : AllJournaled toy_platform funded.log
fund_coin_explorer-journaled_example =
    fund_coin_explorer-journaled outside toy_platform config fresh policy (before registered) tt

-- The wallet that was funded leaves: its package is submitted.
abbrev left : World outside
left = (exit_coin outside toy_platform config (0 ∷ []) (some 2) 500 false funded).1

exit_coin-journaled_example : AllJournaled toy_platform left.log
exit_coin-journaled_example =
    exit_coin-journaled outside toy_platform config (0 ∷ []) (some 2) 500 false funded
      fund_coin_explorer-journaled_example

abbrev core_config : Config
core_config = record config { chain = core_rpc [] [] [] }

-- The node's wallet makes the transaction, and sends it once its recovery is signed.
abbrev core_funded : World outside
core_funded = (fund_coin outside toy_platform core_config fresh policy (before registered)).1

fund_coin-journaled_example : AllJournaled toy_platform core_funded.log
fund_coin-journaled_example =
    fund_coin-journaled outside toy_platform core_config fresh policy (before registered) tt

abbrev kinds : List Event → List ℕ
kinds [] = []
kinds (Event.registers r native ∷ log) = 1 ∷ kinds log
kinds (Event.signs r native ∷ log) = 2 ∷ kinds log
kinds (Event.broadcasts t native ∷ log) = 3 ∷ kinds log
kinds (Event.publishes e native ∷ log) = 4 ∷ kinds log
kinds (Event.sweeps t native ∷ log) = 5 ∷ kinds log
kinds (Event.exits t native ∷ log) = 6 ∷ kinds log
kinds (Event.submits t u native ∷ log) = 7 ∷ kinds log
kinds (Event.funds t native ∷ log) = 8 ∷ kinds log

-- The latest event first.
left_test : kinds left.log ≡ 7 ∷ 3 ∷ 2 ∷ []
unfolding fund_coin_explorer load_native validate_native validate_version validate_exit
    validate_source_sweep prepare_if_new prepare_funding largest_source free_sources begin_funding
    require_reaction_margin bytes_discrete verify_live_status verify_status authorization
    tagged_bytes capability_hash build_source_funding source_funding_script funding_transaction_of
    validate_funding_inputs validate_each_input prepare_recovery validate_metadata metadata_of
    require_future_delay client_xonly canonical_recovery recovery_sighash save_native
    check_saved_funding attempt_of sign_if_prepared sign_funding pending_recovery prepared_stage
    attempt_committed recheck_uncommitted attempt_uncommitted validate_explorer_prepared_funding
    FundingStage_discrete check_canonical_funding find_source OutPoint_discrete Transaction_discrete
    funding_script funding_output_key funding_tapscript pending_sign_request record_sign_response
    secure_if_pending secure_funding complete_funding_recovery fund_purpose responded_stage
    verify_sign_response recovery_transaction complete_recovery SignRequest_discrete push_witness
    verify_signed_recovery unlocking verify_witness funding_control_block broadcast_funding
    funding_transaction funding_journal validate_finalized_funding count_script verify_funding_utxo
    TxOut_discrete verify_recovery mark_if_new mark_funding_broadcast exit_coin exit_by
    exit_coin_journaled resume_exit exit_unless_resumed exit_fresh find_spender verify_exit_funding
    verify_observed_funding_output prepare_exit_if must_prepare chosen_fee_rate prepare_exit
    prepare_package owned_recovery NetworkId_discrete is_broadcast secret_xonly build_exit_child
    exit_fee validate_package validate_saved_exit_policy observe_exit_package or_authorized
    check_observed_parent judge_package submit_exit arm_exit arm_submission send_package
left_test = refl

core_funded_test : kinds core_funded.log ≡ 8 ∷ 2 ∷ []
unfolding fund_coin require_reaction_margin fund_coin_core load_native validate_native
    validate_version validate_exit validate_source_sweep connect_if needs_enclave fund_core_from
    prepare_core_if_new prepare_core bytes_discrete verify_status authorization tagged_bytes
    capability_hash save check_core_funding metadata_of journal_if FundingStage_discrete
    journal_recovery prepare_recovery validate_metadata require_future_delay client_xonly
    canonical_recovery recovery_sighash finish_if_pending finish_pending_funding_recovery
    sign_core_if sign_core pending_recovery prepared_stage attempt_committed recheck_core
    attempt_uncommitted pending_sign_request record_sign_response secure_core
    complete_funding_recovery fund_purpose responded_stage verify_sign_response recovery_transaction
    complete_recovery SignRequest_discrete Transaction_discrete push_witness verify_signed_recovery
    unlocking verify_witness funding_tapscript funding_control_block broadcast_core verify_recovery
    mark_core
core_funded_test = refl
