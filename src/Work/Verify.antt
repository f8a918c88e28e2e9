-- ===== src/Work/Verify.antt =====
-- application/work_graph.py: `verify`, which binds acceptance evidence to an applied effect.
use context_vault.Prelude.{
  String, Bool, true, false, not, ◌&&◌, Option, none, some, List, find, ◌==◌, ◌=text◌, is_empty,
}
use context_vault.Json.{Json, Fields, obj, arr, text, text_items}
use context_vault.Json
use context_vault.Domain.WorkGraph.{
  verifying, status_eq, ActorType, value_error, work_not_found, drift_detected,
  invalid_work_transition,
}
use context_vault.Work.Rows.{
  Uuid, Instant, Db, WorkItem, WorkAttempt, WorkClaim, WorkReceipt, ReceiptType, verify_receipt,
}
use context_vault.Work.Session.{
  Env, Action, ◌>>=◌, ◌>>◌, pure, raise_if, require, gets, commit, read_clock, new_uuid,
  one_or_none, add_receipt, canonical_hash,
}
use context_vault.Work.Events.{locked_item, append_observation}
use context_vault.Work.Authority.{
  validate_signer, assert_exact_replay, assert_current_claim, assert_approvals,
}
use context_vault.Work.Apply.Begin.{actor_text, is_apply}

-- The arguments of `verify`.
pub record VerifyRequest : Type 0 where
  pub attempt_id : Uuid
  pub idempotency_key : String
  pub acceptance_evidence : List String
  pub test_evidence_refs : List String
  pub signer_type : ActorType
  pub signer_id : String
  pub observed_revision : String

pub record VerifiedWork : Type 0 where
  pub receipt_id : Uuid
  pub attempt_id : Uuid
  pub evidence_hash : Option String
  pub observed_revision : String
  pub replayed : Bool

abbrev pub is_verify : ReceiptType → Bool
is_verify verify_receipt = true
is_verify _ = false

-- The attempt of the item, as `verify` and `close` load it.
unfoldable pub attempt_of : WorkItem → Uuid → Action WorkAttempt
attempt_of item attempt_id = do
  row ← gets (λ db. find (λ (a : WorkAttempt). a.id == attempt_id) db.attempts)
  attempt ← require row work_not_found
  raise_if (not (attempt.work_item_id == item.id)) work_not_found
  pure attempt

abbrev pub claim_row : Option Uuid → List WorkClaim → Option WorkClaim
claim_row none claims = none
claim_row (some id) claims = find (λ (c : WorkClaim). c.id == id) claims

-- The successful apply receipt of the attempt, at the observed revision.
unfoldable pub applied_receipt :
    WorkItem → WorkAttempt → (observed_revision : String) → Action WorkReceipt
applied_receipt item attempt observed_revision = do
  found ←
      one_or_none (λ (db : Db). db.receipts)
        (λ (r : WorkReceipt).
          r.work_item_id == item.id
          && r.attempt_id == attempt.id
          && is_apply r.receipt_type
          && r.exit_status == 0)
  applied ← require found drift_detected
  raise_if (not (applied.after_revision =text observed_revision)) drift_detected
  pure applied

module _ (env : Env) where
  unfoldable pub verify_binding : WorkItem → WorkAttempt → WorkReceipt → VerifyRequest → Fields
  verify_binding item attempt applied args =
      Json.field "work_item_id" (text (env.uuid_text item.id)) (
        Json.field "attempt_id" (text (env.uuid_text attempt.id)) (
          Json.field "apply_receipt_id" (text (env.uuid_text applied.id)) (
            Json.field "idempotency_key" (text args.idempotency_key) (
              Json.field "acceptance_evidence" (arr (text_items args.acceptance_evidence)) (
                Json.field "test_evidence_refs" (arr (text_items args.test_evidence_refs)) (
                  Json.field "signer_type" (text (actor_text args.signer_type)) (
                    Json.field "signer_id" (text args.signer_id)
                      (Json.field "observed_revision" (text args.observed_revision) Json.end))))))))

  -- `evidence_hash`
  unfoldable pub evidence_hash : VerifyRequest → String
  evidence_hash args = canonical_hash env (
      obj (
        Json.field "acceptance_evidence" (arr (text_items args.acceptance_evidence)) (
          Json.field "test_evidence_refs" (arr (text_items args.test_evidence_refs))
            (Json.field "observed_revision" (text args.observed_revision) Json.end))))

  unfoldable pub replay_verify :
      WorkItem → WorkReceipt → (request_hash : String) → VerifyRequest → Action VerifiedWork
  replay_verify item existing request_hash args = do
    assert_exact_replay env existing request_hash
    append_observation env item (some existing.attempt_id) "verify.replayed" args.signer_id
        "idempotency key resolved to exact verify receipt"
    commit
    pure (record {
      receipt_id = existing.id;
      attempt_id = existing.attempt_id;
      evidence_hash = existing.output_artifact_hash;
      observed_revision = existing.after_revision;
      replayed = true;
    })

  unfoldable pub verify_receipt_row :
      (receipt_id : Uuid)
      → WorkItem
      → WorkAttempt
      → WorkReceipt
      → VerifyRequest
      → (binding : Fields) (request_hash : String) (now : Instant) → WorkReceipt
  verify_receipt_row receipt_id item attempt applied args binding request_hash now = record {
    id = receipt_id;
    work_item_id = item.id;
    attempt_id = attempt.id;
    claim_id = none;
    parent_receipt_id = some applied.id;
    receipt_type = verify_receipt;
    idempotency_key = args.idempotency_key;
    request_hash = request_hash;
    command = "cv work verify";
    tool = "context-vault";
    action = "verify";
    started_at = now;
    ended_at = now;
    exit_status = 0;
    input_artifact_hash = none;
    output_artifact_hash = some (evidence_hash args);
    before_revision = attempt.expected_revision;
    after_revision = args.observed_revision;
    test_evidence_refs = args.test_evidence_refs;
    acceptance_evidence = args.acceptance_evidence;
    rollback_result = none;
    signer_type = args.signer_type;
    signer_id = args.signer_id;
    attestation = Json.field "work_item_id" (text (env.uuid_text item.id)) (
        Json.field "evidence_hash" (text (evidence_hash args))
          (Json.field "request_binding" (obj binding) Json.end));
    is_terminal = false;
  }

  -- A verification whose idempotency key is new.
  unfoldable pub verify_new :
      WorkItem
      → WorkAttempt
      → WorkReceipt
      → VerifyRequest
      → (binding : Fields) (request_hash : String) → Action VerifiedWork
  unfolding status_eq
  verify_new item attempt applied args binding request_hash = do
    raise_if (not (status_eq item.status verifying)) invalid_work_transition
    now ← read_clock env
    row ← gets (λ db. claim_row applied.claim_id db.claims)
    claim ← assert_current_claim item attempt row now none
    assert_approvals item claim now
    id ← new_uuid env
    add_receipt (verify_receipt_row id item attempt applied args binding request_hash now)
    commit
    pure (record {
      receipt_id = id;
      attempt_id = attempt.id;
      evidence_hash = some (evidence_hash args);
      observed_revision = args.observed_revision;
      replayed = false;
    })

  -- `if existing is not None`
  unfoldable pub verify_by :
      Option WorkReceipt
      → WorkItem
      → WorkAttempt
      → WorkReceipt
      → VerifyRequest
      → (binding : Fields) (request_hash : String) → Action VerifiedWork
  verify_by (some existing) item attempt applied args binding request_hash =
      replay_verify item existing request_hash args
  verify_by none item attempt applied args binding request_hash =
      verify_new item attempt applied args binding request_hash

  unfoldable pub verify : Uuid → VerifyRequest → Action VerifiedWork
  unfolding verify_by
  verify work_item_id args = do
    validate_signer args.signer_type args.signer_id
    raise_if (is_empty args.acceptance_evidence) value_error
    item ← locked_item work_item_id
    attempt ← attempt_of item args.attempt_id
    applied ← applied_receipt item attempt args.observed_revision
    let binding = verify_binding item attempt applied args
    existing ←
        one_or_none (λ (db : Db). db.receipts)
          (λ (r : WorkReceipt).
            r.work_item_id == item.id
            && is_verify r.receipt_type
            && r.idempotency_key =text args.idempotency_key)
    verify_by existing item attempt applied args binding (canonical_hash env (obj binding))
