-- ===== src/Work/Atomicity.antt =====
-- All or nothing: the methods that run no effect commit once, at their end, so that a request which
-- raises leaves the database as it was. A replay that is refused is among them.
pub mod Steps
pub mod Leases
pub mod Outcomes
use context_vault.Prelude.{ℕ, ℤ, ◌≡◌, Bool, true, false, Option, none, some, List, [], ◌∷◌, String}
use context_vault.Domain.WorkGraph.{WorkGraphError, ActorType, policy, WorkStatus}
use context_vault.Json.{Fields}
use context_vault.Work.Rows.{Db, Uuid, Instant, WorkItem, WorkAttempt, WorkClaim, WorkReceipt}
use context_vault.Work.Session.{Env, err, run}
use context_vault.Work.Events.{locked_item, append_event, append_observation, transition}
use context_vault.Work.Authority.{
  validate_signer, assert_current_claim, assert_approvals, assert_exact_replay,
}
use context_vault.Work.Lifecycle.{
  NewWork, PreparedWork, create_work_item, mark_ready, prepare, validate_prepared,
}
use context_vault.Work.Claims.{
  ClaimRequest, replay_claim, retire_attempt, retire_expired, acquire, claim_by, claim_new, claim,
  heartbeat,
}
use context_vault.Work.Approvals.{
  Caller, ApprovalPolicy, ApprovalRequest, assert_human, assert_actor,
  assert_trusted_approval_actor, grant_approval,
}
use context_vault.Work.Verify.{
  VerifyRequest, attempt_of, applied_receipt, replay_verify, verify_by, verify_new, verify,
}
use context_vault.Work.Close.{CloseRequest, replay_close, complete, close_by, close_new, close}
use context_vault.Work.Reconcile.{
  retire_stale, reconcile_item, reconcile_claim, reconcile_each, reconcile_stale_leases,
}
use context_vault.Work.Requests.{
  Service, Request, create_request, ready_request, prepare_request, claim_request,
  heartbeat_request, approval_request, apply_request, verify_request, close_request,
  reconcile_request, rollback_request, handle,
}
use context_vault.Work.Rules.Atomic.{
  Quiet, Atomic, quiet_rules, atomic_rules, Quiet-pure, Quiet-bind, Quiet-Atomic,
  Quiet-save_attempt, run-Atomic, Atomic-then_pure,
}
use context_vault.Work.Atomicity.Leases.{
  Atomic-create_work_item, Atomic-mark_ready, Atomic-prepare, Atomic-acquire, Atomic-claim_by,
  Atomic-claim, Atomic-heartbeat, Atomic-reconcile_stale_leases,
}
use context_vault.Work.Atomicity.Outcomes.{
  Atomic-grant_approval, Atomic-verify_by, Atomic-verify, Atomic-complete, Atomic-close_by,
  Atomic-close,
}

-- The request runs no effect.
abbrev pub is_effectless : Request → Bool
is_effectless (apply_request id args) = false
is_effectless (rollback_request id args) = false
is_effectless _ = true

handle-Atomic : (s : Service) (r : Request) → is_effectless r ≡ true → Atomic (handle s r)
unfolding handle
handle-Atomic s (create_request args) h = Atomic-then_pure _ _ (Atomic-create_work_item s.env args)
handle-Atomic s (ready_request id i) h = Atomic-then_pure _ _ (Atomic-mark_ready s.env id i)
handle-Atomic s (prepare_request id o) h = Atomic-then_pure _ _ (Atomic-prepare s.env id o)
handle-Atomic s (claim_request id args) h = Atomic-then_pure _ _ (Atomic-claim s.env id args)
handle-Atomic s (heartbeat_request id t b) h = Atomic-then_pure _ _ (Atomic-heartbeat s.env id t b)
handle-Atomic s (approval_request id args) h =
    Atomic-then_pure _ _ (Atomic-grant_approval s.env s.caller id args)
handle-Atomic s (apply_request id args) h = cc
handle-Atomic s (verify_request id args) h = Atomic-then_pure _ _ (Atomic-verify s.env id args)
handle-Atomic s (close_request id args) h = Atomic-then_pure _ _ (Atomic-close s.env id args)
handle-Atomic s (reconcile_request fetch limit) h =
    Atomic-then_pure _ _ (Atomic-reconcile_stale_leases s.env fetch limit)
handle-Atomic s (rollback_request id args) h = cc

-- A request other than an apply or a rollback that raises, with any error and at any point, leaves the
-- database exactly as it was.
pub handle_all_or_nothing :
    (s : Service) (r : Request) (db : Db) (e : WorkGraphError)
    → is_effectless r ≡ true
    → (run (handle s r) db).0 ≡ err e
    → (run (handle s r) db).1 ≡ db
handle_all_or_nothing s r db e quiet raised = run-Atomic _ db e (handle-Atomic s r quiet) raised
