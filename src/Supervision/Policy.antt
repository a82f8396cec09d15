-- ===== src/Supervision/Policy.antt =====
-- The tables of src/data/delivery-system/protectiveSupervision.ts.
use autopilot_beta.Prelude.{List, [], ◌∷◌, Text, codes}

-- ProtectiveSupervisionLane
pub data Lane : Type 0 where
  currentness_sentinel handoff_compiler progress_ledger blocker_review : Lane
  failure_repair_supervision : Lane

-- ProjectProgressState
pub data ProgressState : Type 0 where
  not_started ready in_progress needs_review blocked : ProgressState
  waiting_owner waiting_external done cancelled : ProgressState

abbrev pub failure_repair_supervision_checks : List Text
failure_repair_supervision_checks =
    codes "failure_reproduced_or_failure_pointer_recorded"
    ∷ codes "affected_process_identified"
    ∷ codes "progress_checkpoint_created_before_fix"
    ∷ codes "affected_process_stopped_or_drained_before_fix"
    ∷ codes "fix_applied_after_process_safe"
    ∷ codes "session_restarted_after_fix"
    ∷ codes "continuity_updated_and_work_resumed"
    ∷ []

abbrev pub failure_repair_supervision_stop_conditions : List Text
failure_repair_supervision_stop_conditions =
    codes "affected_process_unknown"
    ∷ codes "fix_applied_to_running_process_without_stop_or_drain"
    ∷ codes "session_restart_missing_after_process_fix"
    ∷ codes "continuity_missing_after_restart"
    ∷ []

-- ProtectiveSupervisionPolicy
pub record SupervisionPolicy : Type 0 where
  pub agent_id : Text
  pub source_of_truth : Text
  pub mode : Text
  pub recurring_cadence : Text
  pub lanes : List Lane
  pub progress_states : List ProgressState
  pub required_inputs : List Text
  pub required_outputs : List Text
  pub required_checks : List Text
  pub stop_conditions : List Text

abbrev pub policy_required_inputs : List Text
policy_required_inputs =
    codes "project_slug_or_control_plane"
    ∷ codes "active_scope"
    ∷ codes "agent_output_or_source_pointer"
    ∷ codes "current_decision_mesh_packet"
    ∷ codes "work_log_or_progress_ledger"
    ∷ codes "verification_evidence"
    ∷ codes "next_agent_candidate"
    ∷ []

abbrev pub policy_required_outputs : List Text
policy_required_outputs =
    codes "currentness_report"
    ∷ codes "normalized_handoff_packet"
    ∷ codes "progress_state_delta"
    ∷ codes "blocker_and_waiting_state_summary"
    ∷ codes "next_action_sequence"
    ∷ codes "source_pointers"
    ∷ codes "verification_gap_list"
    ∷ []

abbrev pub policy_required_checks : List Text
policy_required_checks =
    codes "project_scope_classified"
    ∷ codes "official_docs_or_context7_for_currentness"
    ∷ codes "source_pointer_recorded"
    ∷ codes "redacted_context_only"
    ∷ codes "agent_output_normalized"
    ∷ codes "next_agent_scope_declared"
    ∷ codes "progress_state_updated"
    ∷ codes "blocker_owner_declared"
    ∷ codes "waiting_dependency_declared"
    ∷ codes "no_raw_project_log_storage"
    ∷ codes "no_remote_mutation_without_approval"
    ∷ []

abbrev pub policy_stop_conditions : List Text
policy_stop_conditions =
    codes "currentness_claim_without_source"
    ∷ codes "raw_agent_output_used_as_next_prompt"
    ∷ codes "missing_next_agent_scope"
    ∷ codes "stale_progress_ledger"
    ∷ codes "blocker_without_owner"
    ∷ codes "waiting_state_without_dependency"
    ∷ codes "duplicate_runtime_queue"
    ∷ codes "remote_mutation_without_approval"
    ∷ codes "paid_or_cloud_required_for_guardrail"
    ∷ codes "raw_project_logs_copied_to_autopilot"
    ∷ []

abbrev pub protective_supervision_policy : SupervisionPolicy
protective_supervision_policy = record {
  agent_id = codes "protective-supervisor";
  source_of_truth = codes "decision_mesh_and_project_work_logs";
  mode = codes "read_only_guardrail_until_owner_approval";
  recurring_cadence = codes "weekly_review_default";
  lanes =
      currentness_sentinel ∷ handoff_compiler ∷ progress_ledger ∷ blocker_review
      ∷ failure_repair_supervision ∷ [];
  progress_states =
      not_started ∷ ready ∷ in_progress ∷ needs_review ∷ blocked ∷ waiting_owner ∷ waiting_external
      ∷ done ∷ cancelled ∷ [];
  required_inputs = policy_required_inputs;
  required_outputs = policy_required_outputs;
  required_checks = policy_required_checks;
  stop_conditions = policy_stop_conditions;
}
