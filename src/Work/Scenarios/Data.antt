-- ===== src/Work/Scenarios/Data.antt =====
-- One small work item, its rows at each stage, and an environment and a dispatcher that answer.
use context_vault.Prelude.{pos, ◌+◌, String, true, false, none, some, [], ◌∷◌}
use context_vault.Json.{Json, Fields, obj, text, arr, nil}
use context_vault.Json
use context_vault.Domain.WorkGraph.{ready, claimed, verifying, human, cli, admit, active}
use context_vault.Work.Rows.{
  Db, WorkItem, WorkAttempt, WorkClaim, WorkReceipt, WorkApproval, apply_receipt, verify_receipt,
}
use context_vault.Work.Session.{Env, Session, ok}
use context_vault.Work.Lifecycle.{NewWork}
use context_vault.Work.Authority.{write_receipt_marker}
use context_vault.Work.Effects.{Dispatcher, EffectResult, done}
use context_vault.Work.Apply.Begin.{ApplyRequest}
use context_vault.Work.Close.{CloseRequest}
use context_vault.Work.Approvals.{Caller, ApprovalRequest}
use context_vault.Work.Claims.{ClaimRequest}

abbrev pub zeros : String
zeros = "0000000000000000000000000000000000000000000000000000000000000000"

abbrev pub ticking : Env
ticking = record {
  clock = λ n. 1000 + n;
  new_id = λ n. 100 + n;
  flushed_at = λ id. 999;
  sha256 = λ bytes. zeros;
  dumps = λ value. [];
  uuid_text = λ id. "uuid";
}

abbrev pub capabilities : Fields
capabilities =
    Json.field "paths" (arr (Json.item (text "marker.txt") nil))
      (Json.field "capabilities" (arr (Json.item (text "write_receipt_marker") nil)) Json.end)

abbrev pub ready_item : WorkItem
ready_item = record {
  id = 7;
  workspace_id = 1;
  project_id = none;
  title = "title";
  objective = "objective";
  scope_json = obj capabilities;
  exclusions_json = [];
  priority = 3;
  risk_class = "low";
  required_approvals = "execute" ∷ [];
  expected_revision = "base";
  status = ready;
  created_by_principal_id = 2;
  owner_principal_id = none;
  parent_id = none;
  acceptance_criteria = text "done" ∷ [];
  evidence_requirements = "log" ∷ [];
  revision = 2;
  next_fencing_token = 0;
  active_fencing_token = none;
  active_attempt_id = none;
  updated_at = 900;
}

abbrev pub claimed_item : WorkItem
claimed_item = record ready_item {
  status = claimed;
  next_fencing_token = 1;
  active_fencing_token = some 1;
  active_attempt_id = some 8;
}

abbrev pub verifying_item : WorkItem
verifying_item = record claimed_item { status = verifying }

abbrev pub attempt : WorkAttempt
attempt = record {
  id = 8;
  work_item_id = 7;
  attempt_no = 1;
  executor_id = "executor";
  adapter_id = none;
  model_id = none;
  provider_id = none;
  status = claimed;
  started_at = 950;
  finished_at = none;
  input_context_manifest_hash = none;
  expected_revision = "base";
  drift_token = zeros;
  idempotency_key = "claim";
  claim_request_hash = zeros;
  effect_idempotency_key = none;
  effect_started_at = none;
  rollback_idempotency_key = none;
  rollback_request_hash = none;
  rollback_started_at = none;
  outcome_json = obj Json.end;
  terminal_reason = none;
}

abbrev pub lease : WorkClaim
lease = record {
  id = 9;
  work_item_id = 7;
  attempt_id = 8;
  resource_scope = capabilities;
  scope_hash = zeros;
  claimant_id = "claimant";
  acquired_at = 950;
  expires_at = 2000;
  heartbeat_at = 950;
  fencing_token = 1;
  status = active;
  released_reason = none;
  reconciled_reason = none;
  released_at = none;
}

abbrev pub approval : WorkApproval
approval = record {
  id = 10;
  work_item_id = 7;
  approval_type = "execute";
  scope_hash = zeros;
  approved = true;
  actor_type = human;
  actor_id = "2";
  reason = "reviewed";
  evidence_refs = [];
  granted_at = 960;
  expires_at = none;
  revoked_at = none;
}

abbrev pub applied : WorkReceipt
applied = record {
  id = 11;
  work_item_id = 7;
  attempt_id = 8;
  claim_id = some 9;
  parent_receipt_id = none;
  receipt_type = apply_receipt;
  idempotency_key = "apply";
  request_hash = zeros;
  command = "cv work apply";
  tool = "context-vault";
  action = "apply";
  started_at = 970;
  ended_at = 971;
  exit_status = 0;
  input_artifact_hash = some "absent";
  output_artifact_hash = some zeros;
  before_revision = "base";
  after_revision = zeros;
  test_evidence_refs = [];
  acceptance_evidence = [];
  rollback_result = none;
  signer_type = cli;
  signer_id = "cli";
  attestation = Json.end;
  is_terminal = false;
}

abbrev pub verified : WorkReceipt
verified = record applied {
  id = 12;
  claim_id = none;
  parent_receipt_id = some 11;
  receipt_type = verify_receipt;
  idempotency_key = "verify";
  acceptance_evidence = "log" ∷ [];
}

abbrev pub empty_db : Db
empty_db = record {
  items = [];
  attempts = [];
  claims = [];
  events = [];
  approvals = [];
  receipts = [];
  projects = [];
  sources = [];
  principals = [];
  memberships = [];
}

abbrev pub ready_db : Db
ready_db = record empty_db { items = ready_item ∷ [] }

abbrev pub claimed_db : Db
claimed_db = record empty_db {
  items = claimed_item ∷ [];
  attempts = attempt ∷ [];
  claims = lease ∷ [];
  approvals = approval ∷ [];
}

abbrev pub verified_db : Db
verified_db = record claimed_db { items = verifying_item ∷ []; receipts = applied ∷ verified ∷ [] }

abbrev pub session : Db → Session
session db = record { committed = db; working = db; readings = 0; drawn = 0 }

abbrev pub effect : EffectResult
effect = record {
  before_artifact_hash = zeros;
  output_artifact_hash = zeros;
  after_revision = zeros;
  test_evidence_refs = [];
  rollback_result = none;
  attestation = Json.end;
}

-- A dispatcher that always creates what it is asked for, while no other session commits.
abbrev pub dispatcher : Dispatcher
dispatcher = record {
  validate = λ context request. admit;
  dispatch = λ context request. done effect;
  rollback = λ context request after. ok effect;
  meanwhile = λ db. db;
}

abbrev pub apply_args : ApplyRequest
apply_args = record {
  claim_id = 9;
  fencing_token = 1;
  observed_revision = "base";
  idempotency_key = "apply";
  command = "cv work apply";
  tool = "context-vault";
  action = "apply";
  signer_type = cli;
  signer_id = "cli";
  effect_request = record {
    capability = write_receipt_marker;
    relative_path = "marker.txt";
    content = 1 ∷ 2 ∷ [];
  };
}

abbrev pub close_args : CloseRequest
close_args = record {
  attempt_id = 8;
  verify_receipt_id = 12;
  idempotency_key = "close";
  signer_type = cli;
  signer_id = "cli";
  after_revision = zeros;
}

abbrev pub new_work : NewWork
new_work = record {
  workspace_id = 1;
  project_id = none;
  title = " title ";
  objective = "objective";
  scope = obj capabilities;
  expected_revision = "base";
  created_by_principal_id = 2;
  acceptance_criteria = text "done" ∷ [];
  evidence_requirements = "log" ∷ [];
  exclusions = [];
  required_approvals = [];
  risk_class = "low";
  priority = 3;
  owner_principal_id = none;
  parent_id = none;
}

-- The item of a project with a registered approval policy.
abbrev pub project_item : WorkItem
project_item = record claimed_item { project_id = some 3 }

abbrev pub governed_db : Db
governed_db = record claimed_db {
  items = project_item ∷ [];
  approvals = [];
  projects = record { id = 3; workspace_id = 1 } ∷ [];
  sources =
      record {
        project_id = 3;
        source_id = "project-manifest:uuid";
        version = 1;
        is_active = true;
        metadata_json =
            Json.field "approval_policy"
              (obj (
                Json.field "owner" (text "owner") (
                  Json.field "approvers" (arr nil) (
                    Json.field "human_required_for" (arr (Json.item (text "execute") nil))
                      Json.end))))
              Json.end;
      }
      ∷ [];
  principals = record { id = 2; subject = "owner"; is_active = true } ∷ [];
  memberships = record { workspace_id = 1; principal_id = 2; role = "admin" } ∷ [];
}

abbrev pub owner : Caller
owner = record { authenticated_principal_id = some 2; trusted_policy_ids = [] }

abbrev pub approval_args : ApprovalRequest
approval_args = record {
  approval_type = "execute";
  scope_hash = zeros;
  actor_type = human;
  actor_id = "owner";
  reason = "reviewed";
  evidence_refs = "log" ∷ [];
  expires_at = none;
}

-- A lease that ran out before its effect, and the claim that replaces it.
abbrev pub expired_lease : WorkClaim
expired_lease = record lease { expires_at = 999 }

abbrev pub expired_db : Db
expired_db = record claimed_db { claims = expired_lease ∷ [] }

abbrev pub claim_args : ClaimRequest
claim_args = record {
  prepared = record {
    work_item_id = 7;
    work_item_revision = 2;
    expected_revision = "base";
    drift_token = zeros;
    scope_hash = zeros;
  };
  claimant_id = "claimant";
  executor_id = "executor";
  resource_scope = capabilities;
  lease_duration = pos 500;
  idempotency_key = "again";
  adapter_id = none;
  model_id = none;
  provider_id = none;
  input_context_manifest_hash = none;
}
