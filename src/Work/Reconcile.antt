-- ===== src/Work/Reconcile.antt =====
-- application/work_graph.py: `reconcile_stale_leases`, which ends the leases that have run out.
use context_vault.Prelude.{
  ℕ, false, ◌&&◌, Option, none, some, List, [], ◌∷◌, find, select, leb, ◌==◌, option_eq,
  if◌then◌else◌,
}
use context_vault.Domain.WorkGraph.{
  running, verifying, blocked, recovery_required, status_eq, reconciled, claim_is_active,
}
use context_vault.Work.Rows.{Uuid, Instant, Db, WorkItem, WorkAttempt, WorkClaim}
use context_vault.Work.Session.{
  Env, Action, ◌>>=◌, ◌>>◌, pure, gets, commit, read_clock, save_item, save_attempt, save_claim,
}
use context_vault.Work.Events.{locked_item, append_observation, transition}

-- What the database does with the rows that match the query, outside the repository: their order,
-- the limit, and the rows that it skips since another transaction has locked them.
abbrev pub Fetch : Type 0
Fetch = (limit : ℕ) → List WorkClaim → List WorkClaim

-- The leases that the query for stale ones finds.
unfoldable pub stale_claims : Fetch → (now : Instant) (limit : ℕ) → Db → List WorkClaim
unfolding claim_is_active
stale_claims fetch now limit db =
    fetch limit (select (λ c. claim_is_active c.status && leb c.expires_at now) db.claims)

-- `if item.active_fencing_token == claim.fencing_token: item.active_fencing_token = None`
unfoldable pub drop_fence : WorkItem → WorkClaim → WorkItem
drop_fence item claim =
    if option_eq ◌==◌ item.active_fencing_token (some claim.fencing_token)
    then record item { active_fencing_token = none }
    else item

module _ (env : Env) where
  -- What becomes of the item, by its status.
  unfoldable pub reconcile_item : WorkItem → WorkClaim → Action WorkItem
  unfolding status_eq
  reconcile_item item claim =
      if status_eq item.status running
      then transition env item blocked "reconciler"
          "stale lease; effect outcome requires inspection" (some claim.attempt_id) false false
      else if status_eq item.status verifying
      then transition env item recovery_required "reconciler"
          "verification authority expired before terminal outcome" (some claim.attempt_id) false
          false
      else append_observation env item (some claim.attempt_id) "claim.reconciled" "reconciler"
          "stale lease; no completion inferred"

  unfoldable pub retire_stale : Option WorkAttempt → (now : Instant) → Action (Unit {0})
  retire_stale none now = pure tt
  retire_stale (some attempt) now = save_attempt (record attempt {
    status = recovery_required;
    finished_at = some now;
    terminal_reason = some "stale_lease";
  })

  -- The loop's body.
  unfoldable pub reconcile_claim : (now : Instant) → WorkClaim → Action WorkItem
  unfolding drop_fence
  reconcile_claim now claim = do
    item ← locked_item claim.work_item_id
    attempt ← gets (λ db. find (λ (a : WorkAttempt). a.id == claim.attempt_id) db.attempts)
    save_claim (record claim {
      status = reconciled;
      reconciled_reason = some "stale_lease";
      released_at = some now;
    })
    save_item (drop_fence item claim)
    retire_stale attempt now
    reconcile_item (drop_fence item claim) claim

  -- The loop, with the ids that it collects.
  unfoldable pub reconcile_each : (now : Instant) → List WorkClaim → Action (List Uuid)
  reconcile_each now [] = pure []
  reconcile_each now (c ∷ rest) =
      reconcile_claim now c >>= λ _. reconcile_each now rest >>= λ ids. pure (c.id ∷ ids)

  unfoldable pub reconcile_stale_leases : Fetch → (limit : ℕ) → Action (List Uuid)
  unfolding stale_claims
  reconcile_stale_leases fetch limit = do
    now ← read_clock env
    stale ← gets (stale_claims fetch now limit)
    ids ← reconcile_each now stale
    commit
    pure ids
