-- ===== src/Work/Authority.antt =====
-- application/work_graph.py: what a method checks before it acts: the signer, the current claim and
-- its fencing token, the approvals, the scope of an effect, and the exactness of a replay.
use context_vault.Prelude.{
  ℕ, String, Bool, true, false, not, ◌&&◌, ◌||◌, Option, none, some, List, [], ◌∷◌, leb, ◌==◌,
  ◌=text◌, option_eq, any, all, is_blank, if◌then◌else◌,
}
use context_vault.Json.{Json, Items, Fields, obj, arr, text, nil}
use context_vault.Json
use context_vault.Domain.WorkGraph.{
  ActorType, model, may_approve, claim_is_active, value_error, lease_expired, approval_required,
  scope_violation, idempotency_conflict,
}
use context_vault.Work.Rows.{Instant, WorkItem, WorkAttempt, WorkClaim, WorkApproval, WorkReceipt}
use context_vault.Work.Session.{
  Env, Action, Result, ok, err, ◌>>=◌, ◌>>◌, pure, raise, lift, raise_if, gets, canonical_hash,
}

-- `signer_type in {"human", "policy", "service", "cli"}`
abbrev pub may_sign : ActorType → Bool
may_sign model = false
may_sign _ = true

unfoldable pub validate_signer : ActorType → String → Action (Unit {0})
validate_signer signer_type signer_id = do
  raise_if (not (may_sign signer_type)) value_error
  raise_if (is_blank signer_id) value_error

-- `presented is not None and presented != token`
abbrev presents_other : Option ℕ → ℕ → Bool
presents_other none token = false
presents_other (some presented) token = not (presented == token)

unfoldable pub lacks_current_claim :
    (item : WorkItem) (attempt : WorkAttempt) (claim : Option WorkClaim) (now : Instant)
    (presented_fencing_token : Option ℕ)
    → Bool
unfolding claim_is_active
lacks_current_claim item attempt none now presented = true
lacks_current_claim item attempt (some claim) now presented =
    not (claim.work_item_id == item.id)
    || not (claim.attempt_id == attempt.id)
    || not (claim_is_active claim.status)
    || leb claim.expires_at now
    || not (option_eq ◌==◌ item.active_attempt_id (some attempt.id))
    || not (option_eq ◌==◌ item.active_fencing_token (some claim.fencing_token))
    || presents_other presented claim.fencing_token

-- The claim stands behind the check, since what follows it uses the claim.
unfoldable pub assert_current_claim :
    (item : WorkItem) (attempt : WorkAttempt) (claim : Option WorkClaim) (now : Instant)
    (presented_fencing_token : Option ℕ)
    → Action WorkClaim
assert_current_claim item attempt none now presented = raise lease_expired
assert_current_claim item attempt (some claim) now presented = do
  raise_if (lacks_current_claim item attempt (some claim) now presented) lease_expired
  pure claim

-- The approval has not run out at `now`.
abbrev pub unexpired : Option Instant → Instant → Bool
unexpired none now = true
unexpired (some expires_at) now = not (leb expires_at now)

abbrev pub unrevoked : Option Instant → Bool
unrevoked none = true
unrevoked (some at) = false

-- An approval row that counts for the item, under the scope of the claim.
unfoldable pub approval_admitted : WorkItem → WorkClaim → Instant → WorkApproval → Bool
unfolding may_approve
approval_admitted item claim now row =
    row.work_item_id == item.id
    && row.scope_hash =text claim.scope_hash
    && row.approved
    && may_approve row.actor_type
    && unrevoked row.revoked_at
    && unexpired row.expires_at now

-- `required.issubset(admitted)`
unfoldable pub approvals_complete : WorkItem → WorkClaim → Instant → List WorkApproval → Bool
unfolding approval_admitted
approvals_complete item claim now approvals =
    all
      (λ required.
        any (λ row. approval_admitted item claim now row && row.approval_type =text required)
          approvals)
      item.required_approvals

unfoldable pub assert_approvals : WorkItem → WorkClaim → Instant → Action (Unit {0})
assert_approvals item claim now = do
  complete ← gets (λ db. approvals_complete item claim now db.approvals)
  raise_if (not complete) approval_required

-- `EffectCapability` has one value.
pub data EffectCapability : Type 0 where
  write_receipt_marker : EffectCapability

pub record EffectRequest : Type 0 where
  pub capability : EffectCapability
  pub relative_path : String
  pub content : List ℕ

-- The root is the dispatcher's own, so the context keeps the allowlists.
pub record ScopedEffectContext : Type 0 where
  pub allowed_paths : List String
  pub capabilities : List EffectCapability

-- `EffectRequest.digest_payload`
unfoldable pub digest_payload : Env → EffectRequest → Json
digest_payload env request = obj (
    Json.field "capability" (text "write_receipt_marker") (
      Json.field "relative_path" (text request.relative_path)
        (Json.field "content_hash" (text (env.sha256 request.content)) Json.end)))

-- `EffectCapability(value) for value in raw_capabilities`
unfoldable pub parse_capabilities : Items → Option (List EffectCapability)
parse_capabilities nil = some []
parse_capabilities (Json.item (text value) rest) = elim (parse_capabilities rest) [
  | none ↦ none
  | some capabilities ↦
      if value =text "write_receipt_marker"
      then some (write_receipt_marker ∷ capabilities)
      else none
]
parse_capabilities (Json.item other rest) = none

-- `isinstance(raw_paths, list) and all(isinstance(path, str) and path for path in raw_paths)`
unfoldable pub parse_paths : Option Json → Option (List String)
unfolding Json.texts
parse_paths (some (arr items)) = elim (Json.texts items) [
  | none ↦ none
  | some paths ↦ if any (λ path. path =text "") paths then none else some paths
]
parse_paths _ = none

abbrev capability_list : Option Json → Option (List EffectCapability)
capability_list (some (arr items)) = parse_capabilities items
capability_list _ = none

abbrev scope_context :
    Option (List String) → Option (List EffectCapability) → Result ScopedEffectContext
scope_context none capabilities = err scope_violation
scope_context (some paths) none = err scope_violation
scope_context (some paths) (some capabilities) =
    ok (record { allowed_paths = paths; capabilities = capabilities })

-- `_scoped_effect_context`, but for the test that a dispatcher is configured.
unfoldable pub scoped_effect_context : Env → WorkItem → WorkClaim → Action ScopedEffectContext
unfolding parse_paths parse_capabilities Json.get
scoped_effect_context env item claim = do
  raise_if (not (canonical_hash env item.scope_json =text claim.scope_hash)) scope_violation
  lift (
      scope_context (parse_paths (Json.get "paths" claim.resource_scope))
        (capability_list (Json.get "capabilities" claim.resource_scope)))

-- `attestation.get("request_binding")`, if it is a dict
unfoldable pub persisted_binding : Fields → Option Fields
unfolding Json.get
persisted_binding attestation = elim (Json.get "request_binding" attestation) [
  | some (obj binding) ↦ some binding
  | _ ↦ none
]

unfoldable pub replay_is_exact : Env → WorkReceipt → String → Bool
replay_is_exact env receipt request_hash = elim (persisted_binding receipt.attestation) [
  | none ↦ false
  | some binding ↦
      canonical_hash env (obj binding) =text receipt.request_hash
      && receipt.request_hash =text request_hash
]

unfoldable pub assert_exact_replay : Env → WorkReceipt → String → Action (Unit {0})
assert_exact_replay env receipt request_hash =
    raise_if (not (replay_is_exact env receipt request_hash)) idempotency_conflict
