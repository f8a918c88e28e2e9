-- ===== src/Domain/WorkGraph.antt =====
-- domain/work_graph.py: the states of a work item, the transitions between them, and the admission
-- of an effect. An exception is the `err` of a `Result`.
mod Defs
pub mod Transitions
pub mod Admission
pub use Defs.{
  WorkGraphError, invalid_work_transition, lease_expired, drift_detected, approval_required,
  missing_terminal_evidence, work_not_found, scope_violation, work_effect_failed,
  effect_already_started, idempotency_conflict, work_graph_error, value_error, assertion_error,
  multiple_results_found, no_result_found, Verdict, admit, reject, WorkStatus, draft, ready,
  claimed, running, blocked, verifying, completed, failed, cancelled, recovery_required, ActorType,
  human, policy, service, cli, model, ClaimStatus, active, released, reconciled,
}
unfoldable pub use Defs.{
  status_eq, status_text, is_terminal, allowed_transition, validate_transition, may_approve,
  claim_is_active, assert_apply_admitted,
}
