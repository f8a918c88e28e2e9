-- ===== src/Work/Claims.antt =====
-- application/work_graph.py: `claim` and `heartbeat`, the leases of a work item.
use context_vault.Prelude.{
  ℕ, zero, suc, ◌+◌, ◌-◌, ℤ, pos, negsuc, String, Bool, true, false, not, ◌&&◌, ◌||◌, Option, none,
  some, List, [], ◌∷◌, ◌++◌, find, leb, ltb, ◌==◌, ◌=text◌, option_eq, if◌then◌else◌,
}
use context_vault.Json.{Json, Fields, obj, text, int, null, optional_text}
use context_vault.Json
use context_vault.Domain.WorkGraph.{
  ready, claimed, recovery_required, status_eq, active, reconciled, claim_is_active, value_error,
  work_not_found, invalid_work_transition, lease_expired, scope_violation, idempotency_conflict,
  work_graph_error,
}
use context_vault.Work.Rows.{Uuid, Instant, Db, WorkItem, WorkAttempt, WorkClaim}
use context_vault.Work.Session.{
  Env, Action, ◌>>=◌, ◌>>◌, pure, raise_if, require, gets, modify, commit, read_clock, new_uuid,
  one_or_none, save_item, save_attempt, save_claim, canonical_hash,
}
use context_vault.Work.Events.{locked_item, append_observation, transition}
use context_vault.Work.Lifecycle.{PreparedWork, validate_prepared}

-- The arguments of `claim`; the lease is in microseconds.
pub record ClaimRequest : Type 0 where
  pub prepared : PreparedWork
  pub claimant_id : String
  pub executor_id : String
  pub resource_scope : Fields
  pub lease_duration : ℤ
  pub idempotency_key : String
  pub adapter_id : Option String
  pub model_id : Option String
  pub provider_id : Option String
  pub input_context_manifest_hash : Option String

pub record ClaimResult : Type 0 where
  pub claim_id : Uuid
  pub attempt_id : Uuid
  pub fencing_token : ℕ
  pub expires_at : Instant

-- `delta <= timedelta(0)`
unfoldable pub not_positive : ℤ → Bool
not_positive (pos zero) = true
not_positive (pos (suc n)) = false
not_positive (negsuc n) = true

-- `instant + delta`; the callers have refused a delta that is not positive.
unfoldable pub add_delta : Instant → ℤ → Instant
add_delta t (pos n) = t + n
add_delta t (negsuc n) = t - suc n

abbrev claim_result : WorkClaim → ClaimResult
claim_result claim = record {
  claim_id = claim.id;
  attempt_id = claim.attempt_id;
  fencing_token = claim.fencing_token;
  expires_at = claim.expires_at;
}

-- `func.coalesce(func.max(WorkAttempt.attempt_no), 0)` over the attempts of the item
unfoldable pub last_attempt_no : Uuid → List WorkAttempt → ℕ
last_attempt_no item_id [] = 0
last_attempt_no item_id (a ∷ rest) =
    let best = last_attempt_no item_id rest in
    if a.work_item_id == item_id && ltb best a.attempt_no then a.attempt_no else best

-- `active is not None and ensure_utc(active.expires_at) > now`
abbrev pub still_leased : Option WorkClaim → Instant → Bool
still_leased none now = false
still_leased (some claim) now = not (leb claim.expires_at now)

module _ (env : Env) where
  -- `claim_request_hash`
  unfoldable pub claim_request_hash : Uuid → ClaimRequest → String
  claim_request_hash work_item_id args = canonical_hash env (
      obj (
        Json.field "work_item_id" (text (env.uuid_text work_item_id)) (
          Json.field "prepared"
            (obj (
              Json.field "work_item_id" (text (env.uuid_text args.prepared.work_item_id)) (
                Json.field "work_item_revision" (int (pos args.prepared.work_item_revision)) (
                  Json.field "expected_revision" (text args.prepared.expected_revision) (
                    Json.field "drift_token" (text args.prepared.drift_token)
                      (Json.field "scope_hash" (text args.prepared.scope_hash) Json.end))))))
            (Json.field "claimant_id" (text args.claimant_id) (
              Json.field "executor_id" (text args.executor_id) (
                Json.field "resource_scope" (obj args.resource_scope) (
                  Json.field "lease_duration_microseconds" (int args.lease_duration) (
                    Json.field "idempotency_key" (text args.idempotency_key) (
                      Json.field "adapter_id" (optional_text args.adapter_id) (
                        Json.field "model_id" (optional_text args.model_id) (
                          Json.field "provider_id" (optional_text args.provider_id) (
                            Json.field "input_context_manifest_hash"
                              (optional_text args.input_context_manifest_hash) Json.end))))))))))))

  -- The replay of a claim whose idempotency key has an attempt.
  unfoldable pub replay_claim :
      WorkItem
      → ClaimRequest
      → (request_hash : String) (now : Instant) → WorkAttempt
      → Action ClaimResult
  unfolding claim_is_active
  replay_claim item args request_hash now existing = do
    raise_if (not (existing.claim_request_hash =text request_hash)) idempotency_conflict
    found ← one_or_none (λ (db : Db). db.claims) (λ (c : WorkClaim). c.attempt_id == existing.id)
    claim ← require found work_graph_error
    raise_if
        (not (claim_is_active claim.status)
          || leb claim.expires_at now
          || not (option_eq ◌==◌ item.active_attempt_id (some existing.id))
          || not (option_eq ◌==◌ item.active_fencing_token (some claim.fencing_token)))
        lease_expired
    append_observation env item (some existing.id) "claim.replayed" args.claimant_id
        "idempotency key resolved to exact active claim"
    commit
    pure (record (claim_result claim) { attempt_id = existing.id })

  -- `if old_attempt is not None`
  unfoldable pub retire_attempt : Option WorkAttempt → Instant → Action (Unit {0})
  retire_attempt none now = pure tt
  retire_attempt (some attempt) now = save_attempt (record attempt {
    status = recovery_required;
    finished_at = some now;
    terminal_reason = some "lease_expired_before_effect";
  })

  -- The expired claim that a new one replaces, and its attempt.
  unfoldable pub retire_expired : Option WorkClaim → Instant → Action (Unit {0})
  retire_expired none now = pure tt
  retire_expired (some claim) now = do
    save_claim (record claim {
      status = reconciled;
      reconciled_reason = some "expired_before_effect";
      released_at = some now;
    })
    old ← gets (λ db. find (λ (a : WorkAttempt). a.id == claim.attempt_id) db.attempts)
    retire_attempt old now

  -- The new attempt, the next fencing token and the new lease.
  unfoldable pub acquire :
      WorkItem → ClaimRequest → (request_hash : String) (now : Instant) → Action ClaimResult
  unfolding status_eq
  acquire item args request_hash now = do
    attempt_no ← gets (λ db. last_attempt_no item.id db.attempts + 1)
    attempt_id ← new_uuid env
    let attempt : WorkAttempt = record {
      id = attempt_id;
      work_item_id = item.id;
      attempt_no = attempt_no;
      executor_id = args.executor_id;
      adapter_id = args.adapter_id;
      model_id = args.model_id;
      provider_id = args.provider_id;
      status = claimed;
      started_at = now;
      finished_at = none;
      input_context_manifest_hash = args.input_context_manifest_hash;
      expected_revision = args.prepared.expected_revision;
      drift_token = args.prepared.drift_token;
      idempotency_key = args.idempotency_key;
      claim_request_hash = request_hash;
      effect_idempotency_key = none;
      effect_started_at = none;
      rollback_idempotency_key = none;
      rollback_request_hash = none;
      rollback_started_at = none;
      outcome_json = obj Json.end;
      terminal_reason = none;
    }
    modify (λ db. record db { attempts = db.attempts ++ attempt ∷ [] })
    let token = item.next_fencing_token + 1
    let fenced = record item {
      next_fencing_token = token;
      active_fencing_token = some token;
      active_attempt_id = some attempt_id;
    }
    save_item fenced
    claim_id ← new_uuid env
    let claim : WorkClaim = record {
      id = claim_id;
      work_item_id = item.id;
      attempt_id = attempt_id;
      resource_scope = args.resource_scope;
      scope_hash = args.prepared.scope_hash;
      claimant_id = args.claimant_id;
      acquired_at = now;
      expires_at = add_delta now args.lease_duration;
      heartbeat_at = now;
      fencing_token = token;
      status = active;
      released_reason = none;
      reconciled_reason = none;
      released_at = none;
    }
    modify (λ db. record db { claims = db.claims ++ claim ∷ [] })
    if status_eq item.status ready
        then transition env fenced claimed args.claimant_id "lease acquired" (some attempt_id) false
            false
        else append_observation env fenced (some attempt_id) "claim.reacquired" args.claimant_id
            "stale pre-effect claim replaced"
    commit
    pure (claim_result claim)

  -- A claim whose idempotency key is new.
  unfoldable pub claim_new :
      WorkItem → ClaimRequest → (request_hash : String) (now : Instant) → Action ClaimResult
  unfolding status_eq claim_is_active
  claim_new item args request_hash now = do
    validate_prepared env item args.prepared
    raise_if (not (canonical_hash env (obj args.resource_scope) =text args.prepared.scope_hash))
        scope_violation
    current ←
        one_or_none (λ (db : Db). db.claims)
          (λ (c : WorkClaim). c.work_item_id == item.id && claim_is_active c.status)
    raise_if (still_leased current now) lease_expired
    retire_expired current now
    raise_if (not (status_eq item.status ready || status_eq item.status claimed))
        invalid_work_transition
    acquire item args request_hash now

  -- `if existing_attempt is not None`
  unfoldable pub claim_by :
      Option WorkAttempt
      → WorkItem
      → ClaimRequest
      → (request_hash : String) (now : Instant) → Action ClaimResult
  claim_by (some existing) item args request_hash now =
      replay_claim item args request_hash now existing
  claim_by none item args request_hash now = claim_new item args request_hash now

  unfoldable pub claim : Uuid → ClaimRequest → Action ClaimResult
  unfolding claim_by
  claim work_item_id args = do
    raise_if (not_positive args.lease_duration) value_error
    item ← locked_item work_item_id
    now ← read_clock env
    existing ←
        one_or_none (λ (db : Db). db.attempts)
          (λ (a : WorkAttempt).
            a.work_item_id == item.id && a.idempotency_key =text args.idempotency_key)
    claim_by existing item args (claim_request_hash work_item_id args) now

  unfoldable pub heartbeat : Uuid → (fencing_token : ℕ) (extend_by : ℤ) → Action Instant
  unfolding claim_is_active
  heartbeat claim_id fencing_token extend_by = do
    raise_if (not_positive extend_by) value_error
    found ← one_or_none (λ (db : Db). db.claims) (λ (c : WorkClaim). c.id == claim_id)
    claim ← require found work_not_found
    now ← read_clock env
    raise_if
        (not (claim_is_active claim.status)
          || not (claim.fencing_token == fencing_token)
          || leb claim.expires_at now)
        lease_expired
    let expires_at = add_delta now extend_by
    save_claim (record claim { heartbeat_at = now; expires_at = expires_at })
    commit
    pure expires_at
