-- ===== src/Work/Apply/Finish.antt =====
-- application/work_graph.py: the part of `apply` after the effect: an effect that failed, one that
-- outlived its lease, and one that is bound to its receipt.
use context_vault.Prelude.{
  ℕ, String, Bool, false, not, ◌&&◌, ◌||◌, Option, none, some, List, [], ◌==◌, ◌=text◌, leb,
  option_eq, if◌then◌else◌,
}
use context_vault.Json.{Json, Fields, obj, text}
use context_vault.Json
use context_vault.Domain.WorkGraph.{
  running, verifying, recovery_required, status_eq, reconciled, claim_is_active, work_effect_failed,
  lease_expired,
}
use context_vault.Work.Rows.{
  Uuid, Instant, WorkItem, WorkAttempt, WorkClaim, WorkReceipt, apply_receipt,
}
use context_vault.Work.Session.{
  Env, Action, ◌>>=◌, ◌>>◌, pure, raise, commit, read_clock, new_uuid, save_attempt, save_claim,
  add_receipt, when,
}
use context_vault.Work.Events.{transition}
use context_vault.Work.Effects.{
  EffectResult, Outcome, done, raised, absent_hash, ApplyResult, apply_result, is_sha256,
}
use context_vault.Work.Apply.Begin.{ApplyRequest, locked_apply_rows, expected_after}

-- A copy of the effect's attestation with the binding under its key.
abbrev pub bound_attestation : Fields → Fields → Fields
bound_attestation attestation binding = Json.field "request_binding" (obj binding) attestation

module _ (env : Env) where
  -- What the three receipts of an effect share; they differ in the status, the hashes and the rest.
  unfoldable pub apply_row :
      (receipt_id : Uuid)
      → WorkItem
      → WorkClaim
      → WorkAttempt
      → ApplyRequest
      → (request_hash : String) (started_at ended_at : Instant) (exit_status : ℕ)
        (input_hash : String) (output_hash : Option String) (after_revision : String)
        (test_evidence_refs : List String) (rollback_result : Option Json) (attestation : Fields)
      → WorkReceipt
  apply_row receipt_id item claim attempt args request_hash started_at ended_at exit_status
        input_hash output_hash after_revision test_evidence_refs rollback_result attestation =
      record {
        id = receipt_id;
        work_item_id = item.id;
        attempt_id = attempt.id;
        claim_id = some claim.id;
        parent_receipt_id = none;
        receipt_type = apply_receipt;
        idempotency_key = args.idempotency_key;
        request_hash = request_hash;
        command = args.command;
        tool = args.tool;
        action = args.action;
        started_at = started_at;
        ended_at = ended_at;
        exit_status = exit_status;
        input_artifact_hash = some input_hash;
        output_artifact_hash = output_hash;
        before_revision = attempt.expected_revision;
        after_revision = after_revision;
        test_evidence_refs = test_evidence_refs;
        acceptance_evidence = [];
        rollback_result = rollback_result;
        signer_type = args.signer_type;
        signer_id = args.signer_id;
        attestation = attestation;
        is_terminal = false;
      }

  -- `_record_uncertain_effect`; the receipt has the id of the attempt that started the effect, the
  -- rest is of the rows as they are found after it.
  unfoldable pub record_uncertain_effect :
      (work_item_id attempt_id : Uuid)
      → ApplyRequest
      → (binding : Fields) (request_hash : String) (started_at : Instant) (reason : String)
      → Action (Unit {0})
  unfolding apply_row
  record_uncertain_effect work_item_id attempt_id args binding request_hash started_at reason = do
    (item, claim, attempt) ← locked_apply_rows work_item_id args.claim_id
    ended_at ← read_clock env
    id ← new_uuid env
    let uncertain =
        apply_row id item claim attempt args request_hash started_at ended_at 70 (absent_hash env)
          none attempt.expected_revision []
          (some (obj (Json.field "status" (text "unknown") Json.end)))
          (Json.field "failure_type" (text reason)
            (Json.field "request_binding" (obj binding) Json.end))
    add_receipt (record uncertain { attempt_id = attempt_id })
    save_claim (record claim {
      status = reconciled;
      reconciled_reason = some "effect_failed_or_unknown";
      released_at = some ended_at;
    })
    save_attempt (record attempt {
      status = recovery_required;
      finished_at = some ended_at;
      terminal_reason = some "effect_failed_or_unknown";
    })
    transition env item recovery_required args.signer_id
        "effect outcome uncertain; recovery required" (some attempt.id) false false
    commit

  -- `_record_lost_fence`
  unfoldable pub record_lost_fence :
      WorkItem
      → WorkClaim
      → WorkAttempt
      → EffectResult
      → ApplyRequest
      → (binding : Fields) (request_hash : String) (started_at ended_at : Instant)
      → Action (Unit {0})
  unfolding status_eq claim_is_active apply_row
  record_lost_fence item claim attempt outcome args binding request_hash started_at ended_at = do
    id ← new_uuid env
    add_receipt (
        apply_row id item claim attempt args request_hash started_at ended_at 75
          outcome.before_artifact_hash (some outcome.output_artifact_hash) outcome.after_revision
          outcome.test_evidence_refs (some (obj (Json.field "status" (text "required") Json.end)))
          (Json.field "failure_type" (text "fencing_authority_lost")
            (Json.field "request_binding" (obj binding) Json.end)))
    when (claim_is_active claim.status) (
        save_claim (record claim {
          status = reconciled;
          reconciled_reason = some "fencing_authority_lost";
          released_at = some ended_at;
        }))
    save_attempt (record attempt {
      status = recovery_required;
      finished_at = some ended_at;
      terminal_reason = some "fencing_authority_lost";
    })
    when (status_eq item.status running) (
        transition env item recovery_required args.signer_id
          "effect completed without current fencing authority" (some attempt.id) false false
        >> pure tt)
    commit

  -- The receipt of an effect that ended under its lease.
  unfoldable pub bind_receipt :
      WorkItem
      → WorkClaim
      → WorkAttempt
      → EffectResult
      → ApplyRequest
      → (binding : Fields) (request_hash : String) (started_at ended_at : Instant)
      → Action ApplyResult
  unfolding apply_row
  bind_receipt item claim attempt outcome args binding request_hash started_at ended_at = do
    id ← new_uuid env
    let receipt =
        apply_row id item claim attempt args request_hash started_at ended_at 0
          outcome.before_artifact_hash (some outcome.output_artifact_hash) outcome.after_revision
          outcome.test_evidence_refs outcome.rollback_result
          (bound_attestation outcome.attestation binding)
    add_receipt receipt
    save_attempt (record attempt {
      status = verifying;
      outcome_json = obj (
          Json.field "apply_receipt_id" (text (env.uuid_text id))
            (Json.field "output_artifact_hash" (text outcome.output_artifact_hash) Json.end));
    })
    transition env item verifying args.signer_id "effect bound to apply receipt" (some attempt.id)
        false false
    commit
    pure (apply_result receipt false)

  -- The outcome answers the request: the content's hash, created from nothing.
  unfoldable pub is_bound : ApplyRequest → EffectResult → Bool
  unfolding is_sha256 expected_after
  is_bound args outcome =
      is_sha256 outcome.output_artifact_hash
      && outcome.before_artifact_hash =text absent_hash env
      && outcome.output_artifact_hash =text expected_after env args
      && outcome.after_revision =text expected_after env args

  -- `claim.status != "active" or active_fencing_token != fencing_token or expires_at <= ended_at`
  unfoldable pub fence_lost : WorkItem → WorkClaim → ApplyRequest → (ended_at : Instant) → Bool
  unfolding claim_is_active
  fence_lost item claim args ended_at =
      not (claim_is_active claim.status)
      || not (option_eq ◌==◌ item.active_fencing_token (some args.fencing_token))
      || leb claim.expires_at ended_at

  unfoldable pub settle_done :
      Uuid
      → ApplyRequest
      → (binding : Fields) (request_hash : String) (started_at : Instant) → EffectResult
      → Action ApplyResult
  settle_done work_item_id args binding request_hash started_at outcome = do
    (item, claim, attempt) ← locked_apply_rows work_item_id args.claim_id
    ended_at ← read_clock env
    if fence_lost item claim args ended_at
        then (record_lost_fence item claim attempt outcome args binding request_hash started_at
              ended_at
            >> raise lease_expired)
        else bind_receipt item claim attempt outcome args binding request_hash started_at ended_at

  -- What follows the dispatch, by how it ended.
  unfoldable pub settle :
      (work_item_id attempt_id : Uuid)
      → ApplyRequest
      → (binding : Fields) (request_hash : String) (started_at : Instant) → Outcome
      → Action ApplyResult
  settle work_item_id attempt_id args binding request_hash started_at (raised exception) =
      record_uncertain_effect work_item_id attempt_id args binding request_hash started_at exception
      >> raise work_effect_failed
  settle work_item_id attempt_id args binding request_hash started_at (done outcome) =
      if is_bound args outcome
      then settle_done work_item_id args binding request_hash started_at outcome
      else (record_uncertain_effect work_item_id attempt_id args binding request_hash started_at
            "ValueError"
          >> raise work_effect_failed)
