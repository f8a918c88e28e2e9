-- ===== src/Work/Close.antt =====
-- application/work_graph.py: `close`, the only method that completes a work item.
use context_vault.Prelude.{
  String, Bool, true, false, not, ◌&&◌, Option, none, some, List, find, ◌==◌, ◌=text◌, is_empty,
  is_some,
}
use context_vault.Json.{Json, Fields, obj, text}
use context_vault.Json
use context_vault.Domain.WorkGraph.{
  verifying, completed, status_eq, ActorType, released, validate_transition, drift_detected,
  invalid_work_transition,
}
use context_vault.Work.Rows.{
  Uuid, Instant, Db, WorkItem, WorkAttempt, WorkClaim, WorkReceipt, ReceiptType, close_receipt,
}
use context_vault.Work.Session.{
  Env, Action, ◌>>=◌, ◌>>◌, pure, raise_if, require, check, gets, commit, read_clock, new_uuid,
  one_or_none, add_receipt, save_attempt, save_claim, canonical_hash,
}
use context_vault.Work.Events.{locked_item, append_observation, transition}
use context_vault.Work.Authority.{
  validate_signer, assert_exact_replay, assert_current_claim, assert_approvals,
}
use context_vault.Work.Apply.Begin.{actor_text, is_apply}
use context_vault.Work.Verify.{attempt_of, is_verify, claim_row}

-- The arguments of `close`.
pub record CloseRequest : Type 0 where
  pub attempt_id : Uuid
  pub verify_receipt_id : Uuid
  pub idempotency_key : String
  pub signer_type : ActorType
  pub signer_id : String
  pub after_revision : String

abbrev pub is_close : ReceiptType → Bool
is_close close_receipt = true
is_close _ = false

abbrev pub receipt_row : Option Uuid → List WorkReceipt → Option WorkReceipt
receipt_row none receipts = none
receipt_row (some id) receipts = find (λ (r : WorkReceipt). r.id == id) receipts

-- The receipt is the item's and the attempt's successful verification of the revision.
unfoldable pub verifies : WorkItem → WorkAttempt → (after_revision : String) → WorkReceipt → Bool
verifies item attempt after_revision r =
    r.work_item_id == item.id
    && r.attempt_id == attempt.id
    && is_verify r.receipt_type
    && r.exit_status == 0
    && not (is_empty r.acceptance_evidence)
    && r.after_revision =text after_revision

-- The receipt is the successful apply that the verification names as its parent.
unfoldable pub applies : WorkItem → WorkAttempt → WorkReceipt → WorkReceipt → Bool
applies item attempt verified r =
    r.work_item_id == item.id
    && r.attempt_id == attempt.id
    && is_apply r.receipt_type
    && r.exit_status == 0
    && is_some r.claim_id
    && r.after_revision =text verified.after_revision

module _ (env : Env) where
  unfoldable pub close_binding : WorkItem → WorkAttempt → CloseRequest → Fields
  close_binding item attempt args = Json.field "work_item_id" (text (env.uuid_text item.id)) (
      Json.field "attempt_id" (text (env.uuid_text attempt.id)) (
        Json.field "verify_receipt_id" (text (env.uuid_text args.verify_receipt_id)) (
          Json.field "idempotency_key" (text args.idempotency_key) (
            Json.field "signer_type" (text (actor_text args.signer_type)) (
              Json.field "signer_id" (text args.signer_id)
                (Json.field "after_revision" (text args.after_revision) Json.end))))))

  unfoldable pub replay_close :
      WorkItem → WorkReceipt → (request_hash : String) → CloseRequest → Action WorkReceipt
  replay_close item existing request_hash args = do
    assert_exact_replay env existing request_hash
    append_observation env item (some existing.attempt_id) "close.replayed" args.signer_id
        "idempotency key resolved to exact close receipt"
    commit
    pure existing

  unfoldable pub close_receipt_row :
      (receipt_id : Uuid)
      → WorkItem
      → WorkAttempt
      → WorkReceipt
      → CloseRequest
      → (binding : Fields) (request_hash : String) (now : Instant) → WorkReceipt
  close_receipt_row receipt_id item attempt verified args binding request_hash now = record {
    id = receipt_id;
    work_item_id = item.id;
    attempt_id = attempt.id;
    claim_id = none;
    parent_receipt_id = some verified.id;
    receipt_type = close_receipt;
    idempotency_key = args.idempotency_key;
    request_hash = request_hash;
    command = "cv work close";
    tool = "context-vault";
    action = "close";
    started_at = now;
    ended_at = now;
    exit_status = 0;
    input_artifact_hash = none;
    output_artifact_hash = verified.output_artifact_hash;
    before_revision = attempt.expected_revision;
    after_revision = args.after_revision;
    test_evidence_refs = verified.test_evidence_refs;
    acceptance_evidence = verified.acceptance_evidence;
    rollback_result = none;
    signer_type = args.signer_type;
    signer_id = args.signer_id;
    attestation = Json.field "work_item_id" (text (env.uuid_text item.id)) (
        Json.field "verify_receipt_id" (text (env.uuid_text verified.id))
          (Json.field "request_binding" (obj binding) Json.end));
    is_terminal = true;
  }

  -- The terminal receipt, the end of the attempt and the lease, and the completion of the item.
  unfoldable pub complete :
      WorkItem
      → WorkAttempt
      → WorkClaim
      → WorkReceipt
      → (actor_id : String) (now : Instant) → Action (Unit {0})
  complete item attempt claim receipt actor_id now = do
    add_receipt receipt
    check (validate_transition verifying completed true true)
    save_attempt (record attempt {
      status = completed;
      finished_at = some now;
      terminal_reason = some "acceptance_verified";
    })
    save_claim (record claim {
      status = released;
      released_reason = some "work_completed";
      released_at = some now;
    })
    transition env (record item { active_fencing_token = none }) completed actor_id
        "terminal receipt and acceptance evidence recorded" (some attempt.id) true true
    commit

  -- A close whose idempotency key is new.
  unfoldable pub close_new :
      WorkItem
      → WorkAttempt
      → Option WorkReceipt
      → CloseRequest
      → (binding : Fields) (request_hash : String) → Action WorkReceipt
  unfolding status_eq
  close_new item attempt verified_row args binding request_hash = do
    raise_if (not (status_eq item.status verifying)) invalid_work_transition
    verified ← require verified_row drift_detected
    raise_if (not (verifies item attempt args.after_revision verified)) drift_detected
    applied_row ← gets (λ db. receipt_row verified.parent_receipt_id db.receipts)
    applied ← require applied_row drift_detected
    raise_if (not (applies item attempt verified applied)) drift_detected
    now ← read_clock env
    row ← gets (λ db. claim_row applied.claim_id db.claims)
    claim ← assert_current_claim item attempt row now none
    assert_approvals item claim now
    id ← new_uuid env
    let receipt = close_receipt_row id item attempt verified args binding request_hash now
    complete item attempt claim receipt args.signer_id now
    pure receipt

  -- `if existing is not None`
  unfoldable pub close_by :
      Option WorkReceipt
      → WorkItem
      → WorkAttempt
      → Option WorkReceipt
      → CloseRequest
      → (binding : Fields) (request_hash : String) → Action WorkReceipt
  close_by (some existing) item attempt verified_row args binding request_hash =
      replay_close item existing request_hash args
  close_by none item attempt verified_row args binding request_hash =
      close_new item attempt verified_row args binding request_hash

  unfoldable pub close : Uuid → CloseRequest → Action WorkReceipt
  unfolding close_by
  close work_item_id args = do
    validate_signer args.signer_type args.signer_id
    item ← locked_item work_item_id
    attempt ← attempt_of item args.attempt_id
    verified_row ← gets (λ db. receipt_row (some args.verify_receipt_id) db.receipts)
    let binding = close_binding item attempt args
    existing ←
        one_or_none (λ (db : Db). db.receipts)
          (λ (r : WorkReceipt).
            r.work_item_id == item.id
            && is_close r.receipt_type
            && r.idempotency_key =text args.idempotency_key)
    close_by existing item attempt verified_row args binding (canonical_hash env (obj binding))
