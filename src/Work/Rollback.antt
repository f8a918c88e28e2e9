-- ===== src/Work/Rollback.antt =====
-- application/work_graph.py: `rollback`, which undoes an applied effect under its lease.
use context_vault.Prelude.{
  ℕ, pos, String, Bool, true, false, not, ◌&&◌, ◌||◌, Option, none, some, [], ◌==◌, ◌=text◌,
  option_eq, is_some,
}
use context_vault.Json.{Json, Fields, obj, text, int, optional_text, json_eq}
use context_vault.Json
use context_vault.Domain.WorkGraph.{
  verifying, recovery_required, status_eq, ActorType, released, invalid_work_transition,
  work_not_found, idempotency_conflict, effect_already_started, assertion_error, no_result_found,
}
use context_vault.Work.Rows.{
  Uuid, Instant, Db, WorkItem, WorkAttempt, WorkClaim, WorkReceipt, ReceiptType, rollback_receipt,
}
use context_vault.Work.Session.{
  Env, Action, ◌>>=◌, ◌>>◌, pure, raise, lift, raise_if, require, commit, read_clock, new_uuid,
  one_or_none, add_receipt, save_attempt, save_claim, canonical_hash,
}
use context_vault.Work.Events.{locked_item, append_observation, transition}
use context_vault.Work.Authority.{
  EffectRequest, digest_payload, persisted_binding, validate_signer, assert_exact_replay,
  assert_current_claim, assert_approvals, scoped_effect_context,
}
use context_vault.Work.Effects.{EffectResult, Dispatcher, run_effect}
use context_vault.Work.Apply.Begin.{actor_text, is_apply}

-- The arguments of `rollback`.
pub record RollbackRequest : Type 0 where
  pub attempt_id : Uuid
  pub claim_id : Uuid
  pub fencing_token : ℕ
  pub apply_receipt_id : Uuid
  pub idempotency_key : String
  pub signer_type : ActorType
  pub signer_id : String
  pub effect_request : EffectRequest

abbrev pub is_rollback : ReceiptType → Bool
is_rollback rollback_receipt = true
is_rollback _ = false

-- The receipt is the successful apply of the attempt under the claim.
unfoldable pub is_applied : WorkItem → WorkAttempt → (claim_id : Uuid) → WorkReceipt → Bool
is_applied item attempt claim_id r =
    attempt.work_item_id == item.id
    && r.work_item_id == item.id
    && r.attempt_id == attempt.id
    && is_apply r.receipt_type
    && r.exit_status == 0
    && is_some r.output_artifact_hash
    && option_eq ◌==◌ r.claim_id (some claim_id)

-- `value == b`, where the value may be absent.
abbrev same_value : Option Json → Json → Bool
same_value none b = false
same_value (some a) b = json_eq a b

module _ (env : Env) where
  -- `applied_binding` is the binding of the apply receipt, and its effect is the request's.
  unfoldable pub undoes : WorkReceipt → EffectRequest → Bool
  unfolding persisted_binding Json.get canonical_hash
  undoes applied request = elim (persisted_binding applied.attestation) [
    | none ↦ false
    | some binding ↦
        same_value (Json.get "effect" binding) (digest_payload env request)
        && canonical_hash env (obj binding) =text applied.request_hash
  ]

  unfoldable pub rollback_binding :
      WorkItem → WorkAttempt → WorkClaim → WorkReceipt → RollbackRequest → Fields
  rollback_binding item attempt claim applied args =
      Json.field "work_item_id" (text (env.uuid_text item.id)) (
        Json.field "attempt_id" (text (env.uuid_text attempt.id)) (
          Json.field "claim_id" (text (env.uuid_text claim.id)) (
            Json.field "fencing_token" (int (pos args.fencing_token)) (
              Json.field "apply_receipt_id" (text (env.uuid_text applied.id)) (
                Json.field "idempotency_key" (text args.idempotency_key) (
                  Json.field "signer_type" (text (actor_text args.signer_type)) (
                    Json.field "signer_id" (text args.signer_id) (
                      Json.field "expected_after_hash" (optional_text applied.output_artifact_hash)
                        (Json.field "effect" (digest_payload env args.effect_request)
                          Json.end)))))))))

  unfoldable pub replay_rollback :
      WorkItem
      → WorkAttempt
      → WorkReceipt
      → (request_hash : String) → RollbackRequest
      → Action WorkReceipt
  replay_rollback item attempt existing request_hash args = do
    assert_exact_replay env existing request_hash
    append_observation env item (some attempt.id) "rollback.replayed" args.signer_id
        "idempotency key resolved to exact rollback receipt"
    commit
    pure existing

  -- `if attempt.rollback_started_at is not None`
  unfoldable pub block_started :
      Option Instant
      → WorkItem
      → WorkAttempt
      → (request_hash : String) → RollbackRequest
      → Action (Unit {0})
  block_started none item attempt request_hash args = pure tt
  block_started (some at) item attempt request_hash args = do
    raise_if
        (not (option_eq ◌=text◌ attempt.rollback_idempotency_key (some args.idempotency_key))
          || not (option_eq ◌=text◌ attempt.rollback_request_hash (some request_hash)))
        idempotency_conflict
    append_observation env item (some attempt.id) "rollback.duplicate_blocked" args.signer_id
        "rollback intent exists without a canonical result receipt"
    commit
    raise effect_already_started

  -- The intent, committed before the external cleanup.
  unfoldable pub record_intent :
      WorkItem
      → WorkAttempt
      → (request_hash : String) (now : Instant) → RollbackRequest
      → Action (Unit {0})
  record_intent item attempt request_hash now args = do
    save_attempt (record attempt {
      rollback_idempotency_key = some args.idempotency_key;
      rollback_request_hash = some request_hash;
      rollback_started_at = some now;
    })
    append_observation env item (some attempt.id) "rollback.intent_recorded" args.signer_id
        "rollback intent committed before external cleanup"
    commit

  unfoldable pub rollback_receipt_row :
      (receipt_id : Uuid)
      → WorkItem
      → WorkAttempt
      → WorkClaim
      → WorkReceipt
      → EffectResult
      → RollbackRequest
      → (binding : Fields) (request_hash : String) (started_at ended_at : Instant) → WorkReceipt
  rollback_receipt_row id item attempt claim applied outcome args binding request_hash started_at
        ended_at =
      record {
        id = id;
        work_item_id = item.id;
        attempt_id = attempt.id;
        claim_id = some claim.id;
        parent_receipt_id = some applied.id;
        receipt_type = rollback_receipt;
        idempotency_key = args.idempotency_key;
        request_hash = request_hash;
        command = "cv work rollback";
        tool = "context-vault";
        action = "rollback";
        started_at = started_at;
        ended_at = ended_at;
        exit_status = 0;
        input_artifact_hash = some outcome.before_artifact_hash;
        output_artifact_hash = some outcome.output_artifact_hash;
        before_revision = applied.after_revision;
        after_revision = outcome.after_revision;
        test_evidence_refs = [];
        acceptance_evidence = [];
        rollback_result = outcome.rollback_result;
        signer_type = args.signer_type;
        signer_id = args.signer_id;
        attestation = Json.field "request_binding" (obj binding) outcome.attestation;
        is_terminal = false;
      }

  -- What follows the cleanup: the authority is checked again, and the receipt ends the attempt.
  unfoldable pub finish_rollback :
      Uuid
      → WorkReceipt
      → EffectResult
      → RollbackRequest
      → (binding : Fields) (request_hash : String) (started_at : Instant) → Action WorkReceipt
  finish_rollback work_item_id applied outcome args binding request_hash started_at = do
    item ← locked_item work_item_id
    attempt_row ←
        one_or_none (λ (db : Db). db.attempts) (λ (a : WorkAttempt). a.id == args.attempt_id)
    attempt ← require attempt_row no_result_found
    claim_row ← one_or_none (λ (db : Db). db.claims) (λ (c : WorkClaim). c.id == args.claim_id)
    held ← require claim_row no_result_found
    ended_at ← read_clock env
    claim ← assert_current_claim item attempt (some held) ended_at (some args.fencing_token)
    id ← new_uuid env
    let receipt =
        rollback_receipt_row id item attempt claim applied outcome args binding request_hash
          started_at ended_at
    add_receipt receipt
    save_attempt (record attempt {
      status = recovery_required;
      finished_at = some ended_at;
      terminal_reason = some "effect_rolled_back";
    })
    save_claim (record claim {
      status = released;
      released_reason = some "effect_rolled_back";
      released_at = some ended_at;
    })
    transition env (record item { active_fencing_token = none }) recovery_required args.signer_id
        "effect was rolled back with exact cleanup receipt" (some attempt.id) false false
    commit
    pure receipt

  abbrev hash_or_empty : Option String → String
  hash_or_empty none = ""
  hash_or_empty (some hash) = hash

  -- A rollback whose idempotency key has no receipt.
  unfoldable pub rollback_new :
      Option Dispatcher
      → (work_item_id : Uuid) → WorkItem
      → WorkAttempt
      → WorkClaim
      → WorkReceipt
      → RollbackRequest
      → (binding : Fields) (request_hash : String) → Action WorkReceipt
  unfolding status_eq
  rollback_new configured work_item_id item attempt held applied args binding request_hash = do
    block_started attempt.rollback_started_at item attempt request_hash args
    raise_if (not (status_eq item.status verifying)) invalid_work_transition
    now ← read_clock env
    claim ← assert_current_claim item attempt (some held) now (some args.fencing_token)
    assert_approvals item claim now
    dispatcher ← require configured assertion_error
    context ← scoped_effect_context env item claim
    record_intent item attempt request_hash now args
    attempted ← run_effect dispatcher (
        dispatcher.rollback context args.effect_request
          (hash_or_empty applied.output_artifact_hash))
    outcome ← lift attempted
    finish_rollback work_item_id applied outcome args binding request_hash now

  -- `if existing is not None`
  unfoldable pub rollback_by :
      Option WorkReceipt
      → Option Dispatcher
      → (work_item_id : Uuid) → WorkItem
      → WorkAttempt
      → WorkClaim
      → WorkReceipt
      → RollbackRequest
      → (binding : Fields) (request_hash : String) → Action WorkReceipt
  rollback_by (some existing) configured id item attempt held applied args binding request_hash =
      replay_rollback item attempt existing request_hash args
  rollback_by none configured id item attempt held applied args binding request_hash =
      rollback_new configured id item attempt held applied args binding request_hash

  unfoldable pub rollback : Option Dispatcher → Uuid → RollbackRequest → Action WorkReceipt
  unfolding rollback_by
  rollback configured work_item_id args = do
    validate_signer args.signer_type args.signer_id
    item ← locked_item work_item_id
    attempt_row ←
        one_or_none (λ (db : Db). db.attempts) (λ (a : WorkAttempt). a.id == args.attempt_id)
    applied_row ←
        one_or_none (λ (db : Db). db.receipts) (λ (r : WorkReceipt). r.id == args.apply_receipt_id)
    attempt ← require attempt_row work_not_found
    applied ← require applied_row work_not_found
    raise_if (not (is_applied item attempt args.claim_id applied)) work_not_found
    claim_row ← one_or_none (λ (db : Db). db.claims) (λ (c : WorkClaim). c.id == args.claim_id)
    held ← require claim_row work_not_found
    raise_if (not (held.attempt_id == attempt.id)) work_not_found
    raise_if (not (undoes applied args.effect_request)) idempotency_conflict
    let binding = rollback_binding item attempt held applied args
    existing ←
        one_or_none (λ (db : Db). db.receipts)
          (λ (r : WorkReceipt).
            r.work_item_id == item.id
            && is_rollback r.receipt_type
            && r.idempotency_key =text args.idempotency_key)
    rollback_by existing configured work_item_id item attempt held applied args binding
        (canonical_hash env (obj binding))
