-- ===== src/Work/Atomicity/Steps.antt =====
-- The steps that methods share commit nothing.
use context_vault.Prelude.{ℕ, Bool, Option, none, some, String}
use context_vault.Domain.WorkGraph.{ActorType, WorkStatus}
use context_vault.Work.Rows.{Uuid, Instant, WorkItem, WorkAttempt, WorkClaim, WorkReceipt}
use context_vault.Work.Session.{Env}
use context_vault.Work.Events.{locked_item, append_event, append_observation, transition}
use context_vault.Work.Authority.{
  validate_signer, assert_current_claim, assert_approvals, assert_exact_replay,
}
use context_vault.Work.Rules.Atomic.{Quiet, quiet_rules}

pub Quiet-locked_item : (id : Uuid) → Quiet (locked_item id)
unfolding locked_item
Quiet-locked_item id = search quiet_rules

module _ (env : Env) where
  pub Quiet-append_event :
      (item : WorkItem) (attempt_id : Option Uuid) (sequence : Option ℕ) (event_type : String)
      (actor_type : ActorType) (actor_id reason : String) (previous new : Option WorkStatus)
      → Quiet (
          append_event env item attempt_id sequence event_type actor_type actor_id reason previous
            new)
  unfolding append_event
  Quiet-append_event item a q t y i r p n = search quiet_rules

  pub Quiet-append_observation :
      (item : WorkItem) (attempt_id : Option Uuid) (event_type actor_id reason : String)
      → Quiet (append_observation env item attempt_id event_type actor_id reason)
  unfolding append_observation
  Quiet-append_observation item a t i r = search (quiet_rules, Quiet-append_event)

  pub Quiet-transition :
      (item : WorkItem) (new : WorkStatus) (actor_id reason : String) (attempt_id : Option Uuid)
      (receipt evidence : Bool)
      → Quiet (transition env item new actor_id reason attempt_id receipt evidence)
  unfolding transition
  Quiet-transition item new i r a receipt evidence = search (quiet_rules, Quiet-append_event)

  pub Quiet-validate_signer :
      (t : ActorType) (signer_id : String) → Quiet (validate_signer t signer_id)
  unfolding validate_signer
  Quiet-validate_signer t signer_id = search quiet_rules

  pub Quiet-assert_current_claim :
      (item : WorkItem) (a : WorkAttempt) (c : Option WorkClaim) (now : Instant) (p : Option ℕ)
      → Quiet (assert_current_claim item a c now p)
  unfolding assert_current_claim
  Quiet-assert_current_claim item a none now p = search quiet_rules
  Quiet-assert_current_claim item a (some c) now p = search quiet_rules

  pub Quiet-assert_approvals :
      (item : WorkItem) (c : WorkClaim) (now : Instant) → Quiet (assert_approvals item c now)
  unfolding assert_approvals
  Quiet-assert_approvals item c now = search quiet_rules

  pub Quiet-assert_exact_replay :
      (r : WorkReceipt) (hash : String) → Quiet (assert_exact_replay env r hash)
  unfolding assert_exact_replay
  Quiet-assert_exact_replay r hash = search quiet_rules
