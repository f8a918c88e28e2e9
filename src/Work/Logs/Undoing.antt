-- ===== src/Work/Logs/Undoing.antt =====
-- `rollback` writes only sound rows, if the sessions that run meanwhile do.
use context_vault.Prelude.{◌≡◌, true, Option, none, some, List, String, arith}
use context_vault.Json.{Fields}
use context_vault.Work.Rows.{
  WorkReceipt, WorkEvent, Uuid, Instant, WorkItem, WorkAttempt, WorkClaim,
}
use context_vault.Work.Session.{Env}
use context_vault.Work.Authority.{may_sign}
use context_vault.Work.Effects.{Dispatcher, EffectResult}
use context_vault.Work.Rollback.{
  RollbackRequest, replay_rollback, block_started, record_intent, rollback_receipt_row,
  finish_rollback, rollback_new, rollback_by, rollback,
}
use context_vault.Work.Rules.Keeps.{Keeps, keeps_rules, Keeps-run_effect, Keeps-required}
use context_vault.Work.Logs.Rows.{IsSoundReceipt}
use context_vault.Work.Logs.Writers.{
  IsLog, OnLogs, Log-save_attempt, Log-save_claim, Log-add_receipt, Log-append_observation,
  Log-transition, Log-locked_item,
}
use context_vault.Work.Logs.Checks.{
  Log-validate_signer, Log-assert_current_claim, Log-assert_approvals, Log-assert_exact_replay,
}
use context_vault.Work.Logs.Effects.{Tame, Log-scoped_effect_context}

module _ {L : List WorkReceipt → List WorkEvent → Type 0} (log : IsLog L) (env : Env) where
  Log-block_started :
      (o : Option Instant) (item : WorkItem) (a : WorkAttempt) (hash : String)
      (args : RollbackRequest)
      → Keeps (OnLogs L) (block_started env o item a hash args)
  unfolding block_started
  Log-block_started none item a hash args = search keeps_rules
  Log-block_started (some at) item a hash args = search (keeps_rules, Log-append_observation log)

  Log-record_intent :
      (item : WorkItem) (a : WorkAttempt) (hash : String) (now : Instant) (args : RollbackRequest)
      → Keeps (OnLogs L) (record_intent env item a hash now args)
  unfolding record_intent
  Log-record_intent item a hash now args =
      search (keeps_rules, Log-save_attempt log, Log-append_observation log)

  rollback_row-IsSound :
      (id : Uuid) (item : WorkItem) (a : WorkAttempt) (c : WorkClaim) (r : WorkReceipt)
      (o : EffectResult) (args : RollbackRequest) (binding : Fields) (hash : String)
      (started_at ended_at : Instant)
      → may_sign args.signer_type ≡ true
      → IsSoundReceipt
          (rollback_receipt_row env id item a c r o args binding hash started_at ended_at)
  unfolding rollback_receipt_row
  rollback_row-IsSound id item a c r o args binding hash s e signs = ground arith

  Log-finish_rollback :
      (id : Uuid) (r : WorkReceipt) (o : EffectResult) (args : RollbackRequest) (binding : Fields)
      (hash : String) (started_at : Instant)
      → may_sign args.signer_type ≡ true
      → Keeps (OnLogs L) (finish_rollback env id r o args binding hash started_at)
  unfolding finish_rollback
  Log-finish_rollback id r o args binding hash started_at signs =
      search
        (
          keeps_rules,
          Log-locked_item log,
          Log-assert_current_claim log env,
          Log-add_receipt log,
          Log-save_attempt log,
          Log-save_claim log,
          Log-transition log,
          rollback_row-IsSound,
        )
        depth 18

  Log-rollback_by :
      (existing : Option WorkReceipt) (configured : Option Dispatcher) (id : Uuid) (item : WorkItem)
      (a : WorkAttempt) (c : WorkClaim) (r : WorkReceipt) (args : RollbackRequest)
      (binding : Fields) (hash : String)
      → Tame log env configured
      → may_sign args.signer_type ≡ true
      → Keeps (OnLogs L) (rollback_by env existing configured id item a c r args binding hash)
  unfolding rollback_by rollback_new replay_rollback
  Log-rollback_by (some existing) configured id item a c r args binding hash tame signs =
      search (keeps_rules, Log-assert_exact_replay log env, Log-append_observation log)
  Log-rollback_by none configured id item a c r args binding hash tame signs =
      search
        (
          Keeps-required,
          keeps_rules,
          Log-block_started,
          Log-assert_current_claim log env,
          Log-assert_approvals log env,
          Log-scoped_effect_context log env,
          Log-record_intent,
          Keeps-run_effect,
          Log-finish_rollback,
          tame,
        )
        depth 16

  pub Log-rollback :
      (configured : Option Dispatcher) (id : Uuid) (args : RollbackRequest)
      → Tame log env configured
      → Keeps (OnLogs L) (rollback env configured id args)
  unfolding rollback
  Log-rollback configured id args tame =
      Log-validate_signer log env _ _ _
        λ signs. search (keeps_rules, Log-locked_item log, Log-rollback_by, tame, signs) depth 16
