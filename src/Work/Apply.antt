-- ===== src/Work/Apply.antt =====
-- application/work_graph.py: `apply`, the one method that runs an effect. The steps of its body are
-- the children's; here they are composed in the body's order.
pub mod Begin
pub mod Finish
use context_vault.Prelude.{
  ℕ, String, Bool, true, false, not, ◌&&◌, ◌||◌, Option, none, some, List, [], ◌∷◌, ◌==◌, ◌=text◌,
  option_eq,
}
use context_vault.Domain.WorkGraph.{scope_violation}
use context_vault.Work.Rows.{Uuid, Instant, Db, WorkItem, WorkClaim, WorkAttempt, WorkReceipt}
use context_vault.Work.Session.{
  Env, Action, ◌>>=◌, ◌>>◌, pure, raise, require, check, read_clock, one_or_none, canonical_hash,
}
use context_vault.Work.Authority.{ScopedEffectContext, validate_signer, scoped_effect_context}
use context_vault.Work.Effects.{Dispatcher, ApplyResult, run_effect}
use Begin.{
  ApplyRequest, locked_apply_rows, apply_binding, find_apply_receipt, replay_apply, block_duplicate,
  admit_effect, start_effect,
}
use Finish.{settle}
use context_vault.Json.{obj, Fields}

-- The effect is admitted, started, run and settled.
unfoldable pub apply_at :
    Env
    → Dispatcher
    → (work_item_id : Uuid) → WorkItem
    → WorkClaim
    → WorkAttempt
    → ScopedEffectContext
    → ApplyRequest
    → (binding : Fields) (request_hash : String) → (started_at : Instant) → Action ApplyResult
apply_at env dispatcher work_item_id item claim attempt context args binding request_hash
      started_at =
    do
      admit_effect env item claim attempt started_at args
      check (dispatcher.validate context args.effect_request)
      start_effect env item attempt started_at args
      outcome ← run_effect dispatcher (dispatcher.dispatch context args.effect_request)
      settle env work_item_id attempt.id args binding request_hash started_at outcome

-- An effect that neither a receipt nor an intent records.
unfoldable pub apply_new :
    Env
    → Dispatcher
    → (work_item_id : Uuid) → WorkItem
    → WorkClaim
    → WorkAttempt
    → ScopedEffectContext
    → ApplyRequest
    → (binding : Fields) (request_hash : String) → Action ApplyResult
unfolding apply_at
apply_new env dispatcher work_item_id item claim attempt context args binding request_hash = do
  started_at ← read_clock env
  apply_at env dispatcher work_item_id item claim attempt context args binding request_hash
      started_at

-- `if prior_intent is not None`
unfoldable pub apply_by_intent :
    Option WorkAttempt
    → Env
    → Dispatcher
    → (work_item_id : Uuid) → WorkItem
    → WorkClaim
    → WorkAttempt
    → ScopedEffectContext
    → ApplyRequest
    → (binding : Fields) (request_hash : String) → Action ApplyResult
apply_by_intent (some prior) env dispatcher id item claim attempt context args binding
      request_hash =
    block_duplicate env item prior args
apply_by_intent none env dispatcher id item claim attempt context args binding request_hash =
    apply_new env dispatcher id item claim attempt context args binding request_hash

-- `if replay is not None`
unfoldable pub apply_by_receipt :
    Option WorkReceipt
    → Env
    → Dispatcher
    → (work_item_id : Uuid) → WorkItem
    → WorkClaim
    → WorkAttempt
    → ScopedEffectContext
    → ApplyRequest
    → (binding : Fields) (request_hash : String) → Action ApplyResult
unfolding apply_by_intent
apply_by_receipt (some receipt) env dispatcher id item claim attempt context args binding
      request_hash =
    replay_apply env item receipt request_hash args
apply_by_receipt none env dispatcher id item claim attempt context args binding request_hash = do
  intent ←
      one_or_none (λ (db : Db). db.attempts)
        (λ (a : WorkAttempt).
          a.work_item_id == item.id
          && option_eq ◌=text◌ a.effect_idempotency_key (some args.idempotency_key))
  apply_by_intent intent env dispatcher id item claim attempt context args binding request_hash

unfoldable pub apply : Env → Option Dispatcher → Uuid → ApplyRequest → Action ApplyResult
unfolding apply_by_receipt
apply env configured work_item_id args = do
  validate_signer args.signer_type args.signer_id
  (item, claim, attempt) ← locked_apply_rows work_item_id args.claim_id
  dispatcher ← require configured scope_violation
  context ← scoped_effect_context env item claim
  let binding = apply_binding env item claim attempt args
  replay ← find_apply_receipt item.id args.idempotency_key
  apply_by_receipt replay env dispatcher work_item_id item claim attempt context args binding
      (canonical_hash env (obj binding))
