-- ===== src/Work/Apply/Begin.antt =====
-- application/work_graph.py: the part of `apply` before the effect: its binding, the replays, the
-- admission, and the durable start. `_locked_apply_rows` and `_find_apply_receipt` stand here too.
use context_vault.Prelude.{
  ℕ, pos, String, Bool, true, false, ◌&&◌, Option, none, some, find, ◌==◌, ◌=text◌,
}
use context_vault.Json.{Json, Fields, obj, text, int}
use context_vault.Json
use context_vault.Domain.WorkGraph.{
  running, recovery_required, ActorType, human, policy, service, cli, model, reconciled, Verdict,
  admit, reject, drift_detected, work_not_found, effect_already_started, assert_apply_admitted,
}
use context_vault.Work.Rows.{
  Uuid, Instant, Db, WorkItem, WorkAttempt, WorkClaim, WorkReceipt, ReceiptType, apply_receipt,
}
use context_vault.Work.Session.{
  Env, Action, ◌>>=◌, ◌>>◌, pure, raise, require, gets, commit, one_or_none, save_attempt,
  save_claim,
}
use context_vault.Work.Events.{locked_item, append_observation, transition}
use context_vault.Work.Authority.{
  EffectRequest, digest_payload, assert_exact_replay, assert_approvals,
}
use context_vault.Work.Effects.{ApplyResult, apply_result}

-- The arguments of `apply`.
pub record ApplyRequest : Type 0 where
  pub claim_id : Uuid
  pub fencing_token : ℕ
  pub observed_revision : String
  pub idempotency_key : String
  pub command : String
  pub tool : String
  pub action : String
  pub signer_type : ActorType
  pub signer_id : String
  pub effect_request : EffectRequest

-- The values of `signer_type`, as a binding spells them.
abbrev pub actor_text : ActorType → String
actor_text human = "human"
actor_text policy = "policy"
actor_text service = "service"
actor_text cli = "cli"
actor_text model = "model"

abbrev pub is_apply : ReceiptType → Bool
is_apply apply_receipt = true
is_apply _ = false

unfoldable pub locked_apply_rows : Uuid → Uuid → Action (WorkItem × WorkClaim × WorkAttempt)
locked_apply_rows work_item_id claim_id = do
  item ← locked_item work_item_id
  found ←
      one_or_none (λ (db : Db). db.claims)
        (λ (c : WorkClaim). c.id == claim_id && c.work_item_id == item.id)
  claim ← require found work_not_found
  row ← gets (λ db. find (λ (a : WorkAttempt). a.id == claim.attempt_id) db.attempts)
  attempt ← require row work_not_found
  pure (item, claim, attempt)

unfoldable pub find_apply_receipt : Uuid → (idempotency_key : String) → Action (Option WorkReceipt)
find_apply_receipt work_item_id idempotency_key =
    one_or_none (λ (db : Db). db.receipts)
      (λ (r : WorkReceipt).
        r.work_item_id == work_item_id
        && is_apply r.receipt_type
        && r.idempotency_key =text idempotency_key)

module _ (env : Env) where
  -- `expected_after_revision`
  unfoldable pub expected_after : ApplyRequest → String
  expected_after args = env.sha256 args.effect_request.content

  -- `request_binding`
  unfoldable pub apply_binding : WorkItem → WorkClaim → WorkAttempt → ApplyRequest → Fields
  apply_binding item claim attempt args = Json.field "work_item_id" (text (env.uuid_text item.id)) (
      Json.field "attempt_id" (text (env.uuid_text attempt.id)) (
        Json.field "claim_id" (text (env.uuid_text claim.id)) (
          Json.field "scope_hash" (text claim.scope_hash) (
            Json.field "fencing_token" (int (pos args.fencing_token)) (
              Json.field "before_revision" (text attempt.expected_revision) (
                Json.field "observed_revision" (text args.observed_revision) (
                  Json.field "idempotency_key" (text args.idempotency_key) (
                    Json.field "command" (text args.command) (
                      Json.field "tool" (text args.tool) (
                        Json.field "action" (text args.action) (
                          Json.field "signer_type" (text (actor_text args.signer_type)) (
                            Json.field "signer_id" (text args.signer_id) (
                              Json.field "effect" (digest_payload env args.effect_request) (
                                Json.field "expected_after_revision" (text (expected_after args))
                                  Json.end))))))))))))))

  unfoldable pub replay_apply :
      WorkItem → WorkReceipt → (request_hash : String) → ApplyRequest → Action ApplyResult
  replay_apply item receipt request_hash args = do
    assert_exact_replay env receipt request_hash
    append_observation env item (some receipt.attempt_id) "apply.replayed" args.signer_id
        "idempotency key resolved to canonical receipt"
    commit
    pure (apply_result receipt true)

  -- The effect has started and has no receipt: it is refused, and the refusal is recorded.
  unfoldable pub block_duplicate : WorkItem → WorkAttempt → ApplyRequest → Action ApplyResult
  block_duplicate item prior args = do
    append_observation env item (some prior.id) "apply.duplicate_blocked" args.signer_id
        "effect intent exists without a canonical result receipt"
    commit
    raise effect_already_started

  -- `except DriftDetected`: the claim is given up and the item needs recovery.
  unfoldable pub abandon_drifted :
      WorkItem → WorkClaim → WorkAttempt → (now : Instant) → ApplyRequest → Action (Unit {0})
  abandon_drifted item claim attempt now args = do
    save_attempt (record attempt {
      status = recovery_required;
      finished_at = some now;
      terminal_reason = some "revision_drift";
    })
    save_claim (record claim {
      status = reconciled;
      reconciled_reason = some "revision_drift";
      released_at = some now;
    })
    transition env item recovery_required args.signer_id "revision drift blocked apply"
        (some attempt.id) false false
    commit
    raise drift_detected

  abbrev pub on_admission :
      Verdict
      → WorkItem
      → WorkClaim
      → WorkAttempt
      → (now : Instant) → ApplyRequest
      → Action (Unit {0})
  on_admission admit item claim attempt now args = assert_approvals item claim now
  on_admission (reject drift_detected) item claim attempt now args =
      abandon_drifted item claim attempt now args
  on_admission (reject e) item claim attempt now args = raise e

  -- The `try` block: the admission of the effect, then its approvals.
  unfoldable pub admit_effect :
      WorkItem → WorkClaim → WorkAttempt → (now : Instant) → ApplyRequest → Action (Unit {0})
  admit_effect item claim attempt now args =
      on_admission
        (assert_apply_admitted item.status claim.status claim.expires_at item.active_fencing_token
          args.fencing_token attempt.expected_revision args.observed_revision now false none)
        item claim attempt now args

  -- The intent and RUNNING are committed before the effect starts.
  unfoldable pub start_effect :
      WorkItem → WorkAttempt → (now : Instant) → ApplyRequest → Action (Unit {0})
  start_effect item attempt now args = do
    save_attempt (record attempt {
      status = running;
      effect_idempotency_key = some args.idempotency_key;
      effect_started_at = some now;
    })
    transition env item running args.signer_id "claim admitted before effect" (some attempt.id)
        false false
    commit
