-- ===== src/Work/Atomicity/Outcomes.antt =====
-- `grant_approval`, `verify` and `close` commit at most once, at their end.
use context_vault.Prelude.{Option, none, some, String}
use context_vault.Domain.WorkGraph.{ActorType, policy}
use context_vault.Json.{Fields}
use context_vault.Work.Rows.{Uuid, Instant, WorkItem, WorkAttempt, WorkClaim, WorkReceipt}
use context_vault.Work.Session.{Env}
use context_vault.Work.Approvals.{
  Caller, ApprovalPolicy, ApprovalRequest, assert_human, assert_actor,
  assert_trusted_approval_actor, record_approval, grant_approval,
}
use context_vault.Work.Verify.{
  VerifyRequest, attempt_of, applied_receipt, replay_verify, verify_by, verify_new, verify,
}
use context_vault.Work.Close.{CloseRequest, replay_close, complete, close_by, close_new, close}
use context_vault.Work.Rules.Atomic.{Quiet, Atomic, quiet_rules, atomic_rules}
use context_vault.Work.Atomicity.Steps.{
  Quiet-locked_item, Quiet-append_observation, Quiet-transition, Quiet-validate_signer,
  Quiet-assert_current_claim, Quiet-assert_approvals, Quiet-assert_exact_replay,
}

module _ (env : Env) where
  pub Quiet-assert_human :
      (caller : Caller) (item : WorkItem) (rules : ApprovalPolicy) (actor_id : String)
      → Quiet (assert_human env caller item rules actor_id)
  unfolding assert_human
  Quiet-assert_human caller item rules actor_id = search quiet_rules

  pub Quiet-assert_actor :
      (t : ActorType) (caller : Caller) (item : WorkItem) (rules : ApprovalPolicy)
      (approval_type actor_id : String)
      → Quiet (assert_actor env caller t item rules approval_type actor_id)
  Quiet-assert_actor policy caller item rules a i = search quiet_rules
  Quiet-assert_actor _ caller item rules a i = Quiet-assert_human caller item rules i

  pub Quiet-assert_trusted_approval_actor :
      (caller : Caller) (item : WorkItem) (a : String) (t : ActorType) (i : String)
      → Quiet (assert_trusted_approval_actor env caller item a t i)
  unfolding assert_trusted_approval_actor
  Quiet-assert_trusted_approval_actor caller item a t i =
      search (quiet_rules, Quiet-assert_actor) depth 12

  pub Atomic-grant_approval :
      (caller : Caller) (id : Uuid) (args : ApprovalRequest)
      → Atomic (grant_approval env caller id args)
  unfolding grant_approval record_approval
  Atomic-grant_approval caller id args =
      search (atomic_rules, quiet_rules, Quiet-locked_item, Quiet-assert_trusted_approval_actor)
        depth 16

  pub Quiet-attempt_of : (item : WorkItem) (id : Uuid) → Quiet (attempt_of item id)
  unfolding attempt_of
  Quiet-attempt_of item id = search quiet_rules

  pub Quiet-applied_receipt :
      (item : WorkItem) (a : WorkAttempt) (observed : String)
      → Quiet (applied_receipt item a observed)
  unfolding applied_receipt
  Quiet-applied_receipt item a observed = search quiet_rules

  pub Atomic-verify_by :
      (existing : Option WorkReceipt) (item : WorkItem) (a : WorkAttempt) (r : WorkReceipt)
      (args : VerifyRequest) (binding : Fields) (hash : String)
      → Atomic (verify_by env existing item a r args binding hash)
  unfolding verify_by verify_new replay_verify
  Atomic-verify_by (some existing) item a r args binding hash =
      search (atomic_rules, quiet_rules, Quiet-assert_exact_replay, Quiet-append_observation)
  Atomic-verify_by none item a r args binding hash =
      search (atomic_rules, quiet_rules, Quiet-assert_current_claim, Quiet-assert_approvals) depth
        14

  pub Atomic-verify : (id : Uuid) (args : VerifyRequest) → Atomic (verify env id args)
  unfolding verify
  Atomic-verify id args =
      search
        (
          atomic_rules, quiet_rules, Quiet-validate_signer, Quiet-locked_item, Quiet-attempt_of,
          Quiet-applied_receipt, Atomic-verify_by,
        )
        depth 12

  pub Atomic-complete :
      (item : WorkItem) (a : WorkAttempt) (c : WorkClaim) (r : WorkReceipt) (i : String)
      (now : Instant)
      → Atomic (complete env item a c r i now)
  unfolding complete
  Atomic-complete item a c r i now = search (atomic_rules, quiet_rules, Quiet-transition) depth 9

  pub Atomic-close_by :
      (existing : Option WorkReceipt) (item : WorkItem) (a : WorkAttempt) (v : Option WorkReceipt)
      (args : CloseRequest) (binding : Fields) (hash : String)
      → Atomic (close_by env existing item a v args binding hash)
  unfolding close_by close_new replay_close
  Atomic-close_by (some existing) item a v args binding hash =
      search (atomic_rules, quiet_rules, Quiet-assert_exact_replay, Quiet-append_observation)
  Atomic-close_by none item a v args binding hash =
      search
        (
          atomic_rules, quiet_rules, Quiet-assert_current_claim, Quiet-assert_approvals,
          Atomic-complete,
        )
        depth 20

  pub Atomic-close : (id : Uuid) (args : CloseRequest) → Atomic (close env id args)
  unfolding close
  Atomic-close id args =
      search
        (
          atomic_rules, quiet_rules, Quiet-validate_signer, Quiet-locked_item, Quiet-attempt_of,
          Atomic-close_by,
        )
        depth 12
