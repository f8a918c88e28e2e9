-- ===== src/Work/Approvals.antt =====
-- application/work_graph.py: `grant_approval` and `_assert_trusted_approval_actor`.
use Prim.Native.String.{◌++◌ as text_append}
use context_vault.Prelude.{
  String, Bool, true, false, not, ◌&&◌, ◌||◌, Option, none, some, List, [], ◌∷◌, ◌++◌, find, select,
  any, leb, ltb, ◌==◌, ◌=text◌, is_empty, is_blank, if◌then◌else◌,
}
use package.text.Mathlib.Text.{starts_with}
use context_vault.Json.{Json, Fields, obj, arr, text}
use context_vault.Json
use context_vault.Domain.WorkGraph.{ActorType, policy, may_approve, approval_required}
use context_vault.Work.Rows.{
  Uuid, Instant, WorkItem, WorkApproval, Project, ContextSource, Principal, WorkspaceMembership,
}
use context_vault.Work.Session.{
  Env, Action, ◌>>=◌, ◌>>◌, pure, raise_if, require, gets, modify, commit, read_clock, new_uuid,
  canonical_hash,
}
use context_vault.Work.Events.{locked_item}

-- Who the service acts for: `authenticated_principal_id` and `trusted_policy_ids`.
pub record Caller : Type 0 where
  pub authenticated_principal_id : Option Uuid
  pub trusted_policy_ids : List String

-- The arguments of `grant_approval`.
pub record ApprovalRequest : Type 0 where
  pub approval_type : String
  pub scope_hash : String
  pub actor_type : ActorType
  pub actor_id : String
  pub reason : String
  pub evidence_refs : List String
  pub expires_at : Option Instant

-- `value in values`
abbrev pub contains : String → List String → Bool
contains value values = any (λ v. v =text value) values

-- The approval policy of a registered manifest.
pub record ApprovalPolicy : Type 0 where
  pub owner : String
  pub approvers : List String
  pub human_required_for : List String

abbrev named_texts : Option Json → Option (List String)
named_texts (some (arr items)) = elim (Json.texts items) [
  | none ↦ none
  | some values ↦ if any is_blank values then none else some values
]
named_texts _ = none

abbrev policy_of : Option Json → Option (List String) → Option (List String) → Option ApprovalPolicy
policy_of (some (text owner)) (some approvers) (some required) =
    some (record { owner = owner; approvers = approvers; human_required_for = required })
policy_of _ _ _ = none

-- `raw_policy` with its `isinstance` checks
unfoldable pub parse_policy : Fields → Option ApprovalPolicy
unfolding Json.get Json.texts is_blank
parse_policy metadata = elim (Json.get "approval_policy" metadata) [
  | some (obj raw) ↦
      policy_of (Json.get "owner" raw) (named_texts (Json.get "approvers" raw))
        (named_texts (Json.get "human_required_for" raw))
  | _ ↦ none
]

-- `.order_by(ContextSource.version.desc()).first()`
unfoldable pub latest : List ContextSource → Option ContextSource
latest [] = none
latest (c ∷ rest) = elim (latest rest) [
  | none ↦ some c
  | some best ↦ if ltb c.version best.version then some best else some c
]

-- The active manifest of the project, at its highest version.
unfoldable pub active_manifest : Env → Uuid → List ContextSource → Option ContextSource
unfolding latest
active_manifest env project_id sources = latest (
    select
      (λ c.
        c.project_id == project_id
        && c.source_id =text (text_append "project-manifest:" (env.uuid_text project_id))
        && c.is_active)
      sources)

-- A policy may approve unless a human must, and only if it is trusted and registered.
unfoldable pub policy_trusted : Caller → ApprovalPolicy → (approval_type actor_id : String) → Bool
policy_trusted caller rules approval_type actor_id =
    not (contains approval_type rules.human_required_for)
    && contains actor_id caller.trusted_policy_ids
    && contains (text_append "policy:" actor_id) rules.approvers

abbrev pub may_work : String → Bool
may_work role = role =text "admin" || role =text "member"

-- `actor_id in {owner, *(value for value in approvers if not value.startswith("policy:"))}`
abbrev pub is_authority : ApprovalPolicy → String → Bool
is_authority rules actor_id =
    rules.owner =text actor_id
    || contains actor_id (select (λ value. not (starts_with value "policy:")) rules.approvers)

unfoldable pub human_trusted :
    ApprovalPolicy → Option Principal → Option WorkspaceMembership → (actor_id : String) → Bool
human_trusted rules none membership actor_id = false
human_trusted rules (some principal) none actor_id = false
human_trusted rules (some principal) (some membership) actor_id =
    principal.is_active
    && principal.subject =text actor_id
    && may_work membership.role
    && is_authority rules actor_id

abbrev pub manifest_policy : Option ContextSource → Option ApprovalPolicy
manifest_policy none = none
manifest_policy (some manifest) = parse_policy manifest.metadata_json

module _ (env : Env) (caller : Caller) where
  -- The human branch: the authenticated principal, and a member of the item's workspace.
  unfoldable pub assert_human : WorkItem → ApprovalPolicy → (actor_id : String) → Action (Unit {0})
  assert_human item rules actor_id = do
    principal_id ← require caller.authenticated_principal_id approval_required
    principal ← gets (λ db. find (λ (p : Principal). p.id == principal_id) db.principals)
    membership ← gets (λ db.
        find
          (λ (m : WorkspaceMembership).
            m.workspace_id == item.workspace_id && m.principal_id == principal_id)
          db.memberships)
    raise_if (not (human_trusted rules principal membership actor_id)) approval_required

  abbrev pub assert_actor :
      ActorType → WorkItem → ApprovalPolicy → (approval_type actor_id : String) → Action (Unit {0})
  assert_actor policy item rules approval_type actor_id =
      raise_if (not (policy_trusted caller rules approval_type actor_id)) approval_required
  assert_actor _ item rules approval_type actor_id = assert_human item rules actor_id

  unfoldable pub assert_trusted_approval_actor :
      WorkItem → (approval_type : String) → ActorType → (actor_id : String) → Action (Unit {0})
  assert_trusted_approval_actor item approval_type actor_type actor_id = do
    project_id ← require item.project_id approval_required
    found ← gets (λ db. find (λ (p : Project). p.id == project_id) db.projects)
    project ← require found approval_required
    raise_if (not (project.workspace_id == item.workspace_id)) approval_required
    manifest ← gets (λ db. active_manifest env project.id db.sources)
    rules ← require (manifest_policy manifest) approval_required
    assert_actor actor_type item rules approval_type actor_id

  -- `expires_at is not None and ensure_utc(expires_at) <= now`
  abbrev pub already_expired : Option Instant → Instant → Bool
  already_expired none now = false
  already_expired (some expires_at) now = leb expires_at now

  -- The row that a granted approval is recorded in.
  unfoldable pub record_approval :
      WorkItem → ApprovalRequest → (now : Instant) → Action WorkApproval
  record_approval item args now = do
    id ← new_uuid env
    let approval : WorkApproval = record {
      id = id;
      work_item_id = item.id;
      approval_type = args.approval_type;
      scope_hash = args.scope_hash;
      approved = true;
      actor_type = args.actor_type;
      actor_id = args.actor_id;
      reason = args.reason;
      evidence_refs = args.evidence_refs;
      granted_at = now;
      expires_at = args.expires_at;
      revoked_at = none;
    }
    modify (λ db. record db { approvals = db.approvals ++ approval ∷ [] })
    commit
    pure approval

  unfoldable pub grant_approval : Uuid → ApprovalRequest → Action WorkApproval
  unfolding may_approve
  grant_approval work_item_id args = do
    raise_if (not (may_approve args.actor_type)) approval_required
    item ← locked_item work_item_id
    raise_if (not (contains args.approval_type item.required_approvals)) approval_required
    raise_if (not (args.scope_hash =text canonical_hash env item.scope_json)) approval_required
    raise_if
        (is_blank args.reason || is_empty args.evidence_refs || any is_blank args.evidence_refs)
        approval_required
    now ← read_clock env
    raise_if (already_expired args.expires_at now) approval_required
    assert_trusted_approval_actor item args.approval_type args.actor_type args.actor_id
    record_approval item args now
