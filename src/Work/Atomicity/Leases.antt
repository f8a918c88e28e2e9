-- ===== src/Work/Atomicity/Leases.antt =====
-- The methods up to the lease, and its reconciliation, commit at most once, at their end.
use context_vault.Prelude.{ℕ, ℤ, Option, none, some, List, [], ◌∷◌, String}
use context_vault.Work.Rows.{Uuid, Instant, WorkItem, WorkAttempt, WorkClaim}
use context_vault.Work.Session.{Env}
use context_vault.Work.Lifecycle.{
  NewWork, PreparedWork, create_work_item, mark_ready, prepare, validate_prepared,
}
use context_vault.Work.Claims.{
  ClaimRequest, replay_claim, retire_attempt, retire_expired, acquire, claim_by, claim_new, claim,
  heartbeat,
}
use context_vault.Work.Reconcile.{
  Fetch, retire_stale, reconcile_item, reconcile_claim, reconcile_each, reconcile_stale_leases,
}
use context_vault.Work.Rules.Atomic.{
  Quiet, Atomic, quiet_rules, atomic_rules, Quiet-pure, Quiet-bind, Quiet-Atomic,
  Quiet-save_attempt,
}
use context_vault.Work.Atomicity.Steps.{
  Quiet-locked_item, Quiet-append_event, Quiet-append_observation, Quiet-transition,
}

module _ (env : Env) where
  pub Atomic-create_work_item : (args : NewWork) → Atomic (create_work_item env args)
  unfolding create_work_item
  Atomic-create_work_item args = search (atomic_rules, quiet_rules, Quiet-append_event) depth 12

  pub Atomic-mark_ready : (id : Uuid) (actor : String) → Atomic (mark_ready env id actor)
  unfolding mark_ready
  Atomic-mark_ready id actor =
      search (atomic_rules, quiet_rules, Quiet-locked_item, Quiet-transition)

  pub Atomic-prepare : (id : Uuid) (observed : String) → Atomic (prepare env id observed)
  unfolding prepare
  Atomic-prepare id observed = Quiet-Atomic _ (search quiet_rules)

  pub Quiet-validate_prepared :
      (item : WorkItem) (prepared : PreparedWork) → Quiet (validate_prepared env item prepared)
  unfolding validate_prepared
  Quiet-validate_prepared item prepared = search quiet_rules

  pub Quiet-retire_attempt :
      (a : Option WorkAttempt) (now : Instant) → Quiet (retire_attempt env a now)
  unfolding retire_attempt
  Quiet-retire_attempt none now = Quiet-pure _
  Quiet-retire_attempt (some a) now = Quiet-save_attempt _

  pub Quiet-retire_expired :
      (c : Option WorkClaim) (now : Instant) → Quiet (retire_expired env c now)
  unfolding retire_expired
  Quiet-retire_expired none now = Quiet-pure _
  Quiet-retire_expired (some c) now = search (quiet_rules, Quiet-retire_attempt)

  pub Atomic-acquire :
      (item : WorkItem) (args : ClaimRequest) (hash : String) (now : Instant)
      → Atomic (acquire env item args hash now)
  unfolding acquire
  Atomic-acquire item args hash now =
      search (atomic_rules, quiet_rules, Quiet-transition, Quiet-append_observation) depth 14

  pub Atomic-claim_by :
      (existing : Option WorkAttempt) (item : WorkItem) (args : ClaimRequest) (hash : String)
      (now : Instant)
      → Atomic (claim_by env existing item args hash now)
  unfolding claim_by claim_new replay_claim
  Atomic-claim_by (some existing) item args hash now =
      search (atomic_rules, quiet_rules, Quiet-append_observation) depth 10
  Atomic-claim_by none item args hash now =
      search
        (atomic_rules, quiet_rules, Quiet-validate_prepared, Quiet-retire_expired, Atomic-acquire)
        depth 12

  pub Atomic-claim : (id : Uuid) (args : ClaimRequest) → Atomic (claim env id args)
  unfolding claim
  Atomic-claim id args =
      search (atomic_rules, quiet_rules, Quiet-locked_item, Atomic-claim_by) depth 9

  pub Atomic-heartbeat : (id : Uuid) (token : ℕ) (by : ℤ) → Atomic (heartbeat env id token by)
  unfolding heartbeat
  Atomic-heartbeat id token by = search (atomic_rules, quiet_rules) depth 12

  pub Quiet-retire_stale : (a : Option WorkAttempt) (now : Instant) → Quiet (retire_stale env a now)
  unfolding retire_stale
  Quiet-retire_stale none now = Quiet-pure _
  Quiet-retire_stale (some a) now = Quiet-save_attempt _

  pub Quiet-reconcile_claim : (now : Instant) (c : WorkClaim) → Quiet (reconcile_claim env now c)
  unfolding reconcile_claim reconcile_item
  Quiet-reconcile_claim now c =
      search
        (
          quiet_rules, Quiet-locked_item, Quiet-retire_stale, Quiet-transition,
          Quiet-append_observation,
        )
        depth 9

  pub Quiet-reconcile_each :
      (now : Instant) (cs : List WorkClaim) → Quiet (reconcile_each env now cs)
  unfolding reconcile_each
  Quiet-reconcile_each now [] = Quiet-pure _
  Quiet-reconcile_each now (c ∷ rest) =
      Quiet-bind _ _ (Quiet-reconcile_claim now c)
        λ _. Quiet-bind _ _ (Quiet-reconcile_each now rest) λ ids. Quiet-pure _

  pub Atomic-reconcile_stale_leases :
      (fetch : Fetch) (limit : ℕ) → Atomic (reconcile_stale_leases env fetch limit)
  unfolding reconcile_stale_leases
  Atomic-reconcile_stale_leases fetch limit =
      search (atomic_rules, quiet_rules, Quiet-reconcile_each)
