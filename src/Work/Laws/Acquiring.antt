-- ===== src/Work/Laws/Acquiring.antt =====
-- What a granted claim leaves in the database.
use mathlib.Core.List.{Memᴰ}
use mathlib.Core.Path.{subst}
use context_vault.Prelude.{
  ℕ, ◌+◌, pos, ◌≡◌, ◌⊎◌, refl, ap, sym, ◌∙◌, false, Option, none, some, String, List, [], ◌∷◌, ◌++◌,
  ◌==◌, find, inl, inr,
}
use context_vault.Domain.WorkGraph.{
  ready, claimed, active, admit, validate_transition, allowed_transition, status_eq,
}
use context_vault.Work.Rows.{Instant, Db, WorkItem, WorkAttempt, WorkClaim, store_item}
use context_vault.Work.Session.{
  Env, Session, Result, ok, ◌>>=◌, pure, check, gets, modify, commit, read_clock, new_uuid,
  add_event, save_item, save_attempt, save_claim,
}
use context_vault.Work.Events.{transition, append_event, append_observation}
use context_vault.Work.Claims.{
  ClaimRequest, ClaimResult, add_delta, retire_attempt, retire_expired, acquire,
}
use context_vault.Work.Rules.Reads.{ok-inj}
use context_vault.Work.Laws.Completing.{store_item-again}

-- The item, a new lease and a new attempt stand in the database under one token, which is the one after
-- the last that the item has given out.
pub record IsLeased (item : WorkItem) (args : ClaimRequest) (now : Instant) (duration : ℕ)
    (granted : ClaimResult) (before : List WorkItem) (after : Db) : Type 0 where
  pub next_token : granted.fencing_token ≡ item.next_fencing_token + 1
  pub ends : granted.expires_at ≡ now + duration
  pub lease : WorkClaim
  pub lease_stored : Memᴰ lease after.claims
  pub lease_id : lease.id ≡ granted.claim_id
  pub lease_item : lease.work_item_id ≡ item.id
  pub lease_attempt : lease.attempt_id ≡ granted.attempt_id
  pub lease_token : lease.fencing_token ≡ granted.fencing_token
  pub lease_ends : lease.expires_at ≡ granted.expires_at
  pub lease_scope : lease.scope_hash ≡ args.prepared.scope_hash
  pub lease_active : lease.status ≡ active
  pub attempt : WorkAttempt
  pub attempt_stored : Memᴰ attempt after.attempts
  pub attempt_id : attempt.id ≡ granted.attempt_id
  pub attempt_item : attempt.work_item_id ≡ item.id
  pub attempt_revision : attempt.expected_revision ≡ args.prepared.expected_revision
  pub attempt_key : attempt.idempotency_key ≡ args.idempotency_key
  pub row : WorkItem
  pub items : after.items ≡ store_item row before
  pub same_item : row.id ≡ item.id
  pub given_out : row.next_fencing_token ≡ granted.fencing_token
  pub current_token : row.active_fencing_token ≡ some granted.fencing_token
  pub current_attempt : row.active_attempt_id ≡ some granted.attempt_id
  pub is_claimed : row.status ≡ claimed

Mem-last : {A : Type 0} (xs : List A) (x : A) → Memᴰ x (xs ++ x ∷ [])
Mem-last [] x = Memᴰ.head refl
Mem-last (y ∷ xs) x = Memᴰ.tail (Mem-last xs x)

claims : validate_transition ready claimed false false ≡ admit
unfolding validate_transition allowed_transition status_eq
claims = refl

store_item-thrice :
    (row middle old : WorkItem) (items : List WorkItem)
    → old.id ≡ middle.id
    → middle.id ≡ row.id
    → store_item row (store_item middle (store_item old items)) ≡ store_item row items
store_item-thrice row middle old items same same' =
    ap (store_item row) (store_item-again middle old items same)
    ∙ store_item-again row middle items same'

-- A grant, its answer and what it commits.
abbrev Leases :
    (env : Env) (item : WorkItem) (args : ClaimRequest) (hash : String) (now : Instant)
    (duration : ℕ) (s : Session)
    → Type 0
Leases env item args hash now duration s =
    (granted : ClaimResult) × ((acquire env item args hash now s).0 ≡ ok granted)
    × IsLeased item args now duration granted s.working.items
        (acquire env item args hash now s).1.committed

acquire-ready :
    (env : Env) (item : WorkItem) (args : ClaimRequest) (hash : String) (now : Instant)
    (duration : ℕ) (s : Session)
    → item.status ≡ ready
    → args.lease_duration ≡ pos duration
    → Leases env item args hash now duration s
unfolding acquire ◌>>=◌ gets new_uuid modify save_item transition check append_event read_clock
    add_event commit pure add_delta
acquire-ready env item args hash now duration s status lasts = rw status (
    rw claims (
      rw lasts (
        _,
        refl,
        record {
          next_token = refl;
          ends = refl;
          lease = _;
          lease_stored = Mem-last s.working.claims _;
          lease_id = refl;
          lease_item = refl;
          lease_attempt = refl;
          lease_token = refl;
          lease_ends = refl;
          lease_scope = refl;
          lease_active = refl;
          attempt = _;
          attempt_stored = Mem-last s.working.attempts _;
          attempt_id = refl;
          attempt_item = refl;
          attempt_revision = refl;
          attempt_key = refl;
          row = _;
          items = store_item-thrice _ _ _ s.working.items refl refl;
          same_item = refl;
          given_out = refl;
          current_token = refl;
          current_attempt = refl;
          is_claimed = refl;
        },
      )))

acquire-claimed :
    (env : Env) (item : WorkItem) (args : ClaimRequest) (hash : String) (now : Instant)
    (duration : ℕ) (s : Session)
    → item.status ≡ claimed
    → args.lease_duration ≡ pos duration
    → Leases env item args hash now duration s
unfolding acquire ◌>>=◌ gets new_uuid modify save_item append_observation append_event read_clock
    add_event commit pure add_delta
acquire-claimed env item args hash now duration s status lasts = rw status (
    rw lasts (
      _,
      refl,
      record {
        next_token = refl;
        ends = refl;
        lease = _;
        lease_stored = Mem-last s.working.claims _;
        lease_id = refl;
        lease_item = refl;
        lease_attempt = refl;
        lease_token = refl;
        lease_ends = refl;
        lease_scope = refl;
        lease_active = refl;
        attempt = _;
        attempt_stored = Mem-last s.working.attempts _;
        attempt_id = refl;
        attempt_item = refl;
        attempt_revision = refl;
        attempt_key = refl;
        row = _;
        items = store_item-again _ _ s.working.items refl;
        same_item = refl;
        given_out = refl;
        current_token = refl;
        current_attempt = refl;
        is_claimed = refl;
      },
    ))

acquire-Leases :
    (env : Env) (item : WorkItem) (args : ClaimRequest) (hash : String) (now : Instant)
    (duration : ℕ) (s : Session)
    → (item.status ≡ ready) ⊎ (item.status ≡ claimed)
    → args.lease_duration ≡ pos duration
    → Leases env item args hash now duration s
acquire-Leases env item args hash now duration s (inl is_ready) lasts =
    acquire-ready env item args hash now duration s is_ready lasts
acquire-Leases env item args hash now duration s (inr is_claimed) lasts =
    acquire-claimed env item args hash now duration s is_claimed lasts

-- The same of a claim that is known to be granted, whichever state the item is in.
pub acquire-left :
    (env : Env) (item : WorkItem) (args : ClaimRequest) (hash : String) (now : Instant)
    (duration : ℕ) (s : Session) (granted : ClaimResult) (after : Session)
    → (item.status ≡ ready) ⊎ (item.status ≡ claimed)
    → args.lease_duration ≡ pos duration
    → acquire env item args hash now s ≡ (ok granted, after)
    → IsLeased item args now duration granted s.working.items after.committed
acquire-left env item args hash now duration s granted after status lasts h =
    let (answer, returned, leased) =
      acquire-Leases env item args hash now duration s status lasts in
    let same : answer ≡ granted =
      ok-inj answer granted (sym returned ∙ ap (λ (p : Result ClaimResult × Session). p.0) h) in
    let left = ap (λ (p : Result ClaimResult × Session). p.1) h in
    subst (λ g. IsLeased item args now duration g s.working.items after.committed) same
      (subst (λ (t : Session). IsLeased item args now duration answer s.working.items t.committed)
        left leased)

-- The items are as they were after an expired claim is retired.
pub retire_expired-items :
    (env : Env) (current : Option WorkClaim) (now : Instant) (s : Session)
    → (retire_expired env current now s).1.working.items ≡ s.working.items
unfolding retire_expired retire_attempt ◌>>=◌ gets save_claim save_attempt pure
retire_expired-items env none now s = refl
retire_expired-items env (some claim) now s =
    old_kept (find (λ (a : WorkAttempt). a.id == claim.attempt_id) s.working.attempts) _
  where
    old_kept :
        (old : Option WorkAttempt) (t : Session)
        → (retire_attempt env old now t).1.working.items ≡ t.working.items
    old_kept none t = refl
    old_kept (some a) t = refl
