-- ===== src/Work/Rows.antt =====
-- models.py: the rows of the work graph's tables, and the database as the lists of its rows. A UUID
-- and an instant (microseconds) are numbers; a text column that takes a few constants is a data type.
-- The id and the correlation id of an event, which nothing reads, are left out, and so are the
-- columns that the service never writes (`deleted_at`, `expected_baseline_hash`).
use context_vault.Prelude.{ℕ, String, Bool, Option, List, [], ◌∷◌, ◌==◌, if◌then◌else◌}
use context_vault.Json.{Json, Fields}
use context_vault.Domain.WorkGraph.{WorkStatus, ActorType, ClaimStatus}

abbrev pub Uuid : Type 0
Uuid = ℕ

abbrev pub Instant : Type 0
Instant = ℕ

pub record WorkItem : Type 0 where
  pub id : Uuid
  pub workspace_id : Uuid
  pub project_id : Option Uuid
  pub title : String
  pub objective : String
  pub scope_json : Json
  pub exclusions_json : List String
  pub priority : ℕ
  pub risk_class : String
  pub required_approvals : List String
  pub expected_revision : String
  pub status : WorkStatus
  pub created_by_principal_id : Uuid
  pub owner_principal_id : Option Uuid
  pub parent_id : Option Uuid
  pub acceptance_criteria : List Json
  pub evidence_requirements : List String
  pub revision : ℕ
  pub next_fencing_token : ℕ
  pub active_fencing_token : Option ℕ
  pub active_attempt_id : Option Uuid
  pub updated_at : Instant

-- The status of an attempt is one of a work item's; `PREPARED`, the default, is never used.
pub record WorkAttempt : Type 0 where
  pub id : Uuid
  pub work_item_id : Uuid
  pub attempt_no : ℕ
  pub executor_id : String
  pub adapter_id : Option String
  pub model_id : Option String
  pub provider_id : Option String
  pub status : WorkStatus
  pub started_at : Instant
  pub finished_at : Option Instant
  pub input_context_manifest_hash : Option String
  pub expected_revision : String
  pub drift_token : String
  pub idempotency_key : String
  pub claim_request_hash : String
  pub effect_idempotency_key : Option String
  pub effect_started_at : Option Instant
  pub rollback_idempotency_key : Option String
  pub rollback_request_hash : Option String
  pub rollback_started_at : Option Instant
  pub outcome_json : Json
  pub terminal_reason : Option String

pub record WorkClaim : Type 0 where
  pub id : Uuid
  pub work_item_id : Uuid
  pub attempt_id : Uuid
  pub resource_scope : Fields
  pub scope_hash : String
  pub claimant_id : String
  pub acquired_at : Instant
  pub expires_at : Instant
  pub heartbeat_at : Instant
  pub fencing_token : ℕ
  pub status : ClaimStatus
  pub released_reason : Option String
  pub reconciled_reason : Option String
  pub released_at : Option Instant

pub record WorkEvent : Type 0 where
  pub work_item_id : Uuid
  pub attempt_id : Option Uuid
  pub event_sequence : ℕ
  pub event_type : String
  pub actor_type : ActorType
  pub actor_id : String
  pub reason : String
  pub previous_state : Option WorkStatus
  pub new_state : Option WorkStatus
  pub payload_hash : String
  pub payload_json : Fields
  pub created_at : Instant

-- `decision == "approved"` is the flag; the service writes no other decision.
pub record WorkApproval : Type 0 where
  pub id : Uuid
  pub work_item_id : Uuid
  pub approval_type : String
  pub scope_hash : String
  pub approved : Bool
  pub actor_type : ActorType
  pub actor_id : String
  pub reason : String
  pub evidence_refs : List String
  pub granted_at : Instant
  pub expires_at : Option Instant
  pub revoked_at : Option Instant

pub data ReceiptType : Type 0 where
  prepare_receipt apply_receipt verify_receipt close_receipt rollback_receipt : ReceiptType

pub record WorkReceipt : Type 0 where
  pub id : Uuid
  pub work_item_id : Uuid
  pub attempt_id : Uuid
  pub claim_id : Option Uuid
  pub parent_receipt_id : Option Uuid
  pub receipt_type : ReceiptType
  pub idempotency_key : String
  pub request_hash : String
  pub command : String
  pub tool : String
  pub action : String
  pub started_at : Instant
  pub ended_at : Instant
  pub exit_status : ℕ
  pub input_artifact_hash : Option String
  pub output_artifact_hash : Option String
  pub before_revision : String
  pub after_revision : String
  pub test_evidence_refs : List String
  pub acceptance_evidence : List String
  pub rollback_result : Option Json
  pub signer_type : ActorType
  pub signer_id : String
  pub attestation : Fields
  pub is_terminal : Bool

-- The tables that only the approval authority reads.
pub record Project : Type 0 where
  pub id : Uuid
  pub workspace_id : Uuid

pub record ContextSource : Type 0 where
  pub project_id : Uuid
  pub source_id : String
  pub version : ℕ
  pub is_active : Bool
  pub metadata_json : Fields

pub record Principal : Type 0 where
  pub id : Uuid
  pub subject : String
  pub is_active : Bool

pub record WorkspaceMembership : Type 0 where
  pub workspace_id : Uuid
  pub principal_id : Uuid
  pub role : String

pub record Db : Type 0 where
  pub items : List WorkItem
  pub attempts : List WorkAttempt
  pub claims : List WorkClaim
  pub events : List WorkEvent
  pub approvals : List WorkApproval
  pub receipts : List WorkReceipt
  pub projects : List Project
  pub sources : List ContextSource
  pub principals : List Principal
  pub memberships : List WorkspaceMembership

-- The write of a loaded row: it replaces the row with its primary key.
abbrev pub store_item : WorkItem → List WorkItem → List WorkItem
store_item row [] = []
store_item row (r ∷ rest) = (if r.id == row.id then row else r) ∷ store_item row rest

abbrev pub store_attempt : WorkAttempt → List WorkAttempt → List WorkAttempt
store_attempt row [] = []
store_attempt row (r ∷ rest) = (if r.id == row.id then row else r) ∷ store_attempt row rest

abbrev pub store_claim : WorkClaim → List WorkClaim → List WorkClaim
store_claim row [] = []
store_claim row (r ∷ rest) = (if r.id == row.id then row else r) ∷ store_claim row rest
