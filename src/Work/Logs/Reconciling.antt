-- ===== src/Work/Logs/Reconciling.antt =====
-- `reconcile_stale_leases` writes only sound rows.
use context_vault.Prelude.{ℕ, Option, none, some, List, [], ◌∷◌}
use context_vault.Work.Rows.{WorkReceipt, WorkEvent, Instant, WorkAttempt, WorkClaim}
use context_vault.Work.Session.{Env}
use context_vault.Work.Reconcile.{
  Fetch, retire_stale, reconcile_item, reconcile_claim, reconcile_each, reconcile_stale_leases,
}
use context_vault.Work.Rules.Keeps.{Keeps, keeps_rules, Keeps-bind, Keeps-pure}
use context_vault.Work.Logs.Writers.{
  IsLog, OnLogs, Log-save_item, Log-save_attempt, Log-save_claim, Log-append_observation,
  Log-transition, Log-locked_item,
}

module _ {L : List WorkReceipt → List WorkEvent → Type 0} (log : IsLog L) (env : Env) where
  Log-retire_stale :
      (a : Option WorkAttempt) (now : Instant) → Keeps (OnLogs L) (retire_stale env a now)
  unfolding retire_stale
  Log-retire_stale none now = search keeps_rules
  Log-retire_stale (some a) now = Log-save_attempt log _

  Log-reconcile_claim :
      (now : Instant) (c : WorkClaim) → Keeps (OnLogs L) (reconcile_claim env now c)
  unfolding reconcile_claim reconcile_item
  Log-reconcile_claim now c =
      search
        (
          keeps_rules,
          Log-locked_item log,
          Log-save_claim log,
          Log-save_item log,
          Log-retire_stale,
          Log-transition log,
          Log-append_observation log,
        )
        depth 9

  Log-reconcile_each :
      (now : Instant) (cs : List WorkClaim) → Keeps (OnLogs L) (reconcile_each env now cs)
  unfolding reconcile_each
  Log-reconcile_each now [] = search keeps_rules
  Log-reconcile_each now (c ∷ rest) =
      Keeps-bind _ _ (Log-reconcile_claim now c)
        λ _. Keeps-bind _ _ (Log-reconcile_each now rest) λ ids. Keeps-pure _

  pub Log-reconcile_stale_leases :
      (fetch : Fetch) (limit : ℕ) → Keeps (OnLogs L) (reconcile_stale_leases env fetch limit)
  unfolding reconcile_stale_leases
  Log-reconcile_stale_leases fetch limit = search (keeps_rules, Log-reconcile_each)
