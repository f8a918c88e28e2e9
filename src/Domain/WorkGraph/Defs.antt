-- ===== src/Domain/WorkGraph/Defs.antt =====
-- domain/work_graph.py: the definitions.
use context_vault.Prelude.{
  ℕ, String, Bool, true, false, not, ◌&&◌, ◌||◌, Option, none, some, leb, ◌==◌, ◌=text◌,
  if◌then◌else◌,
}

-- The exceptions of the work graph; those from `value_error` on are Python's and the database
-- toolkit's.
pub data WorkGraphError : Type 0 where
  invalid_work_transition lease_expired drift_detected approval_required : WorkGraphError
  missing_terminal_evidence work_not_found scope_violation work_effect_failed : WorkGraphError
  effect_already_started idempotency_conflict work_graph_error : WorkGraphError
  value_error assertion_error multiple_results_found no_result_found : WorkGraphError

-- The result of a check that returns nothing or raises.
pub data Verdict : Type 0 where
  admit : Verdict
  reject : WorkGraphError → Verdict

pub data WorkStatus : Type 0 where
  draft ready claimed running blocked verifying : WorkStatus
  completed failed cancelled recovery_required : WorkStatus

-- The values of `WorkStatus`, as events and constraints spell them.
unfoldable pub status_text : WorkStatus → String
status_text draft = "DRAFT"
status_text ready = "READY"
status_text claimed = "CLAIMED"
status_text running = "RUNNING"
status_text blocked = "BLOCKED"
status_text verifying = "VERIFYING"
status_text completed = "COMPLETED"
status_text failed = "FAILED"
status_text cancelled = "CANCELLED"
status_text recovery_required = "RECOVERY_REQUIRED"

unfoldable pub status_eq : WorkStatus → WorkStatus → Bool
status_eq draft draft = true
status_eq ready ready = true
status_eq claimed claimed = true
status_eq running running = true
status_eq blocked blocked = true
status_eq verifying verifying = true
status_eq completed completed = true
status_eq failed failed = true
status_eq cancelled cancelled = true
status_eq recovery_required recovery_required = true
status_eq _ _ = false

-- `TERMINAL_STATUSES`
unfoldable pub is_terminal : WorkStatus → Bool
is_terminal completed = true
is_terminal failed = true
is_terminal cancelled = true
is_terminal recovery_required = true
is_terminal _ = false

-- `_ALLOWED_TRANSITIONS.get(previous, set())`, as a test on the new status.
unfoldable pub allowed_transition : WorkStatus → WorkStatus → Bool
allowed_transition draft ready = true
allowed_transition draft cancelled = true
allowed_transition ready claimed = true
allowed_transition ready cancelled = true
allowed_transition claimed running = true
allowed_transition claimed cancelled = true
allowed_transition claimed recovery_required = true
allowed_transition running blocked = true
allowed_transition running verifying = true
allowed_transition running failed = true
allowed_transition running cancelled = true
allowed_transition running recovery_required = true
allowed_transition blocked ready = true
allowed_transition blocked failed = true
allowed_transition blocked cancelled = true
allowed_transition blocked recovery_required = true
allowed_transition verifying completed = true
allowed_transition verifying failed = true
allowed_transition verifying recovery_required = true
allowed_transition _ _ = false

unfoldable pub validate_transition : WorkStatus → WorkStatus → Bool → Bool → Verdict
unfolding allowed_transition status_eq
validate_transition previous new has_terminal_receipt has_acceptance_evidence =
    if not (allowed_transition previous new)
    then reject invalid_work_transition
    else if status_eq new completed && not (has_terminal_receipt && has_acceptance_evidence)
    then reject missing_terminal_evidence
    else admit

-- Who acts: the values of `actor_type` and `signer_type`.
pub data ActorType : Type 0 where
  human policy service cli model : ActorType

-- `actor_type in {"human", "policy"}`
unfoldable pub may_approve : ActorType → Bool
may_approve human = true
may_approve policy = true
may_approve _ = false

pub data ClaimStatus : Type 0 where
  active released reconciled : ClaimStatus

unfoldable pub claim_is_active : ClaimStatus → Bool
claim_is_active active = true
claim_is_active _ = false

abbrev approver_admitted : Option ActorType → Bool
approver_admitted none = false
approver_admitted (some actor) = may_approve actor

-- `presented == expected`, where the item may have no active token.
abbrev token_matches : Option ℕ → ℕ → Bool
token_matches none presented = false
token_matches (some expected) presented = presented == expected

-- The guards stand in the order in which the function raises.
unfoldable pub assert_apply_admitted :
    (status : WorkStatus) (claim_status : ClaimStatus) (claim_expires_at : ℕ)
    (expected_fencing_token : Option ℕ) (presented_fencing_token : ℕ)
    (expected_revision observed_revision : String) (now : ℕ) (approval_required : Bool)
    (approval_actor_type : Option ActorType)
    → Verdict
unfolding status_eq claim_is_active may_approve
assert_apply_admitted status claim_status expires_at expected presented revision observed now needs
      actor =
    if not (status_eq status claimed)
    then reject invalid_work_transition
    else if not (claim_is_active claim_status) || leb expires_at now
    then reject lease_expired
    else if not (token_matches expected presented)
    then reject lease_expired
    else if revision =text "" || not (observed =text revision)
    then reject drift_detected
    else if needs && not (approver_admitted actor)
    then reject approval_required
    else admit
