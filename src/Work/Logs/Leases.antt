-- ===== src/Work/Logs/Leases.antt =====
-- `create_work_item`, `mark_ready`, `prepare`, `claim` and `heartbeat` write only sound rows.
use context_vault.Prelude.{ℕ, ℤ, Option, none, some, List, String}
use context_vault.Work.Rows.{
  WorkReceipt, WorkEvent, Uuid, Instant, WorkItem, WorkAttempt, WorkClaim,
}
use context_vault.Work.Session.{Env}
use context_vault.Work.Lifecycle.{
  NewWork, PreparedWork, create_work_item, mark_ready, prepare, validate_prepared,
}
use context_vault.Work.Claims.{
  ClaimRequest, replay_claim, retire_attempt, retire_expired, acquire, claim_by, claim_new, claim,
  heartbeat,
}
use context_vault.Work.Rules.Keeps.{Keeps, keeps_rules, Keeps-modify}
use context_vault.Work.Logs.Writers.{
  IsLog, OnLogs, Log-save_item, Log-save_attempt, Log-save_claim, Log-append_event,
  Log-append_observation, Log-transition, Log-locked_item, legal_draft,
}

module _ {L : List WorkReceipt → List WorkEvent → Type 0} (log : IsLog L) (env : Env) where
  pub Log-create_work_item : (args : NewWork) → Keeps (OnLogs L) (create_work_item env args)
  unfolding create_work_item
  Log-create_work_item args =
      search (keeps_rules, Keeps-modify, Log-append_event log, legal_draft) depth 12

  pub Log-mark_ready :
      (id : Uuid) (actor_id : String) → Keeps (OnLogs L) (mark_ready env id actor_id)
  unfolding mark_ready
  Log-mark_ready id actor_id = search (keeps_rules, Log-locked_item log, Log-transition log)

  pub Log-prepare : (id : Uuid) (observed : String) → Keeps (OnLogs L) (prepare env id observed)
  unfolding prepare
  Log-prepare id observed = search keeps_rules

  Log-validate_prepared :
      (item : WorkItem) (prepared : PreparedWork)
      → Keeps (OnLogs L) (validate_prepared env item prepared)
  unfolding validate_prepared
  Log-validate_prepared item prepared = search keeps_rules

  Log-replay_claim :
      (item : WorkItem) (args : ClaimRequest) (hash : String) (now : Instant) (a : WorkAttempt)
      → Keeps (OnLogs L) (replay_claim env item args hash now a)
  unfolding replay_claim
  Log-replay_claim item args hash now a = search (keeps_rules, Log-append_observation log) depth 9

  Log-retire_attempt :
      (a : Option WorkAttempt) (now : Instant) → Keeps (OnLogs L) (retire_attempt env a now)
  unfolding retire_attempt
  Log-retire_attempt none now = search keeps_rules
  Log-retire_attempt (some a) now = Log-save_attempt log _

  Log-retire_expired :
      (c : Option WorkClaim) (now : Instant) → Keeps (OnLogs L) (retire_expired env c now)
  unfolding retire_expired
  Log-retire_expired none now = search keeps_rules
  Log-retire_expired (some c) now = search (keeps_rules, Log-save_claim log, Log-retire_attempt)

  Log-acquire :
      (item : WorkItem) (args : ClaimRequest) (hash : String) (now : Instant)
      → Keeps (OnLogs L) (acquire env item args hash now)
  unfolding acquire
  Log-acquire item args hash now =
      search
        (
          keeps_rules,
          Keeps-modify,
          Log-save_item log,
          Log-transition log,
          Log-append_observation log,
        )
        depth 14

  Log-claim_by :
      (existing : Option WorkAttempt) (item : WorkItem) (args : ClaimRequest) (hash : String)
      (now : Instant)
      → Keeps (OnLogs L) (claim_by env existing item args hash now)
  unfolding claim_by claim_new
  Log-claim_by (some existing) item args hash now = Log-replay_claim item args hash now existing
  Log-claim_by none item args hash now =
      search (keeps_rules, Log-validate_prepared, Log-retire_expired, Log-acquire) depth 12

  pub Log-claim : (id : Uuid) (args : ClaimRequest) → Keeps (OnLogs L) (claim env id args)
  unfolding claim
  Log-claim id args = search (keeps_rules, Log-locked_item log, Log-claim_by)

  pub Log-heartbeat :
      (id : Uuid) (token : ℕ) (extend_by : ℤ) → Keeps (OnLogs L) (heartbeat env id token extend_by)
  unfolding heartbeat
  Log-heartbeat id token extend_by = search (keeps_rules, Log-save_claim log) depth 9
