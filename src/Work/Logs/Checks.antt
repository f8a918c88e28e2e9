-- ===== src/Work/Logs/Checks.antt =====
-- The checks of authority write nothing to the logs.
use context_vault.Prelude.{ℕ, ◌≡◌, refl, true, Option, none, some, List, String, is_blank}
use context_vault.Domain.WorkGraph.{ActorType, model, policy, value_error}
use context_vault.Work.Rows.{WorkReceipt, WorkEvent, Instant, WorkItem, WorkAttempt, WorkClaim}
use context_vault.Work.Session.{Env, Action, ◌>>=◌, raise_if}
use context_vault.Work.Authority.{
  may_sign, validate_signer, assert_current_claim, assert_approvals, assert_exact_replay,
}
use context_vault.Work.Approvals.{
  Caller, ApprovalPolicy, assert_human, assert_actor, assert_trusted_approval_actor,
}
use context_vault.Work.Rules.Keeps.{Keeps, keeps_rules, Keeps-guard}
use context_vault.Work.Logs.Writers.{IsLog, OnLogs}

module _ {L : List WorkReceipt → List WorkEvent → Type 0} (log : IsLog L) (env : Env) where
  pub Log-validate_signer :
      {B : Type 0} (t : ActorType) (signer_id : String) (f : Unit {0} → Action B)
      → (may_sign t ≡ true → Keeps (OnLogs L) (f tt))
      → Keeps (OnLogs L) (validate_signer t signer_id >>= f)
  unfolding validate_signer raise_if ◌>>=◌
  Log-validate_signer model signer_id f k = record { at = λ s h. h }
  Log-validate_signer _ signer_id f k = Keeps-guard (is_blank signer_id) value_error f (λ _. k refl)

  pub Log-assert_current_claim :
      (item : WorkItem) (a : WorkAttempt) (c : Option WorkClaim) (now : Instant) (p : Option ℕ)
      → Keeps (OnLogs L) (assert_current_claim item a c now p)
  unfolding assert_current_claim
  Log-assert_current_claim item a none now p = search keeps_rules
  Log-assert_current_claim item a (some c) now p = search keeps_rules

  pub Log-assert_approvals :
      (item : WorkItem) (c : WorkClaim) (now : Instant)
      → Keeps (OnLogs L) (assert_approvals item c now)
  unfolding assert_approvals
  Log-assert_approvals item c now = search keeps_rules

  pub Log-assert_exact_replay :
      (r : WorkReceipt) (hash : String) → Keeps (OnLogs L) (assert_exact_replay env r hash)
  unfolding assert_exact_replay
  Log-assert_exact_replay r hash = search keeps_rules

  pub Log-assert_human :
      (caller : Caller) (item : WorkItem) (rules : ApprovalPolicy) (actor_id : String)
      → Keeps (OnLogs L) (assert_human env caller item rules actor_id)
  unfolding assert_human
  Log-assert_human caller item rules actor_id = search keeps_rules

  pub Log-assert_actor :
      (t : ActorType) (caller : Caller) (item : WorkItem) (rules : ApprovalPolicy)
      (approval_type actor_id : String)
      → Keeps (OnLogs L) (assert_actor env caller t item rules approval_type actor_id)
  Log-assert_actor policy caller item rules a i = search keeps_rules
  Log-assert_actor _ caller item rules a i = Log-assert_human caller item rules i

  pub Log-assert_trusted_approval_actor :
      (caller : Caller) (item : WorkItem) (a : String) (t : ActorType) (i : String)
      → Keeps (OnLogs L) (assert_trusted_approval_actor env caller item a t i)
  unfolding assert_trusted_approval_actor
  Log-assert_trusted_approval_actor caller item a t i =
      search (keeps_rules, Log-assert_actor) depth 12
