-- ===== src/Work/Laws/Trusting.antt =====
-- `_assert_trusted_approval_actor`: under which policy, and as whom, an actor may approve.
use context_vault.Prelude.{◌≡◌, ap, ◌∙◌, String, some, find, arith, ◌==◌}
use context_vault.Domain.WorkGraph.{ActorType, policy}
use context_vault.Work.Rows.{Uuid, Db, WorkItem, Project, ContextSource}
use context_vault.Work.Session.{Env, Session, ok}
use context_vault.Work.Approvals.{
  parse_policy, Caller, ApprovalPolicy, manifest_policy, assert_human, assert_actor,
  assert_trusted_approval_actor,
}
use context_vault.Work.Laws.Entitling.{
  IsHumanAuthority, IsAuthority, policy_trusted-IsPolicyAuthority, human_trusted-IsHumanAuthority,
}
use context_vault.Work.Laws.Manifests.{IsManifest, manifest_policy-IsManifest}
use context_vault.Work.Rules.Reads.{
  Reads, reads_rules, Reads-returned, raise_if-returned, require-returned, gets-returned,
}

-- The actor has authority under the approval policy that the item's project has registered.
pub record IsTrusted (env : Env) (caller : Caller) (item : WorkItem) (approval_type : String)
    (actor_type : ActorType) (actor_id : String) (db : Db) : Type 0 where
  pub project_id : Uuid
  pub project : Project
  pub rules : ApprovalPolicy
  pub in_project : item.project_id ≡ some project_id
  pub registered : find (λ (p : Project). p.id == project_id) db.projects ≡ some project
  pub same_workspace : project.workspace_id ≡ item.workspace_id
  pub manifest : ContextSource
  pub current : IsManifest env project.id db.sources manifest
  pub ruled : parse_policy manifest.metadata_json ≡ some rules
  pub authority : IsAuthority actor_type caller item rules approval_type actor_id db

assert_human-returned :
    (env : Env) (caller : Caller) (item : WorkItem) (rules : ApprovalPolicy) (actor_id : String)
    (s : Session)
    → (assert_human env caller item rules actor_id s).0 ≡ ok tt
    → IsHumanAuthority caller item rules actor_id s.working
unfolding assert_human
assert_human-returned env caller item rules actor_id s h =
    let (id, e1, h1) = Reads-returned _ _ s tt (search reads_rules) h in
    let (p, e2, h2) = Reads-returned _ _ s tt (search reads_rules) h1 in
    let (m, e3, h3) = Reads-returned _ _ s tt (search reads_rules) h2 in
    let passed = raise_if-returned _ _ s h3 in
    human_trusted-IsHumanAuthority caller item rules actor_id s.working id p m
      (require-returned _ _ s id e1) (gets-returned _ s p e2) (gets-returned _ s m e3)
      (ground arith)

assert_actor-returned :
    (env : Env) (caller : Caller) (t : ActorType) (item : WorkItem) (rules : ApprovalPolicy)
    (approval_type actor_id : String) (s : Session)
    → (assert_actor env caller t item rules approval_type actor_id s).0 ≡ ok tt
    → IsAuthority t caller item rules approval_type actor_id s.working
assert_actor-returned env caller policy item rules a i s h =
    let passed = raise_if-returned _ _ s h in
    policy_trusted-IsPolicyAuthority caller rules a i (ground arith)
assert_actor-returned env caller _ item rules a i s h =
    assert_human-returned env caller item rules i s h

pub assert_trusted_approval_actor-IsTrusted :
    (env : Env) (caller : Caller) (item : WorkItem) (approval_type : String) (t : ActorType)
    (actor_id : String) (s : Session)
    → (assert_trusted_approval_actor env caller item approval_type t actor_id s).0 ≡ ok tt
    → IsTrusted env caller item approval_type t actor_id s.working
unfolding assert_trusted_approval_actor
assert_trusted_approval_actor-IsTrusted env caller item approval_type t actor_id s h =
    let (id, e1, h1) = Reads-returned _ _ s tt (search reads_rules) h in
    let (found, e2, h2) = Reads-returned _ _ s tt (search reads_rules) h1 in
    let (project, e3, h3) = Reads-returned _ _ s tt (search reads_rules) h2 in
    let (u4, e4, h4) = Reads-returned _ _ s tt (search reads_rules) h3 in
    let (manifest, e5, h5) = Reads-returned _ _ s tt (search reads_rules) h4 in
    let (rules, e6, h6) = Reads-returned _ _ s tt (search reads_rules) h5 in
    let same = raise_if-returned _ _ s e4 in
    let read = gets-returned _ s manifest e5 in
    let (row, current, ruled) =
      manifest_policy-IsManifest env project.id s.working.sources rules
        (ap manifest_policy read ∙ require-returned _ _ s rules e6) in
    record {
      project_id = id;
      project = project;
      rules = rules;
      in_project = require-returned _ _ s id e1;
      registered = gets-returned _ s found e2 ∙ require-returned _ _ s project e3;
      same_workspace = ground arith;
      manifest = row;
      current = current;
      ruled = ruled;
      authority = assert_actor-returned env caller t item rules approval_type actor_id s h6;
    }

Reads-assert_human :
    (env : Env) (caller : Caller) (item : WorkItem) (rules : ApprovalPolicy) (actor_id : String)
    → Reads (assert_human env caller item rules actor_id)
unfolding assert_human
Reads-assert_human env caller item rules i = search reads_rules

Reads-assert_actor :
    (env : Env) (caller : Caller) (t : ActorType) (item : WorkItem) (rules : ApprovalPolicy)
    (approval_type actor_id : String)
    → Reads (assert_actor env caller t item rules approval_type actor_id)
Reads-assert_actor env caller policy item rules a i = search reads_rules
Reads-assert_actor env caller _ item rules a i = Reads-assert_human env caller item rules i

pub Reads-assert_trusted_approval_actor :
    (env : Env) (caller : Caller) (item : WorkItem) (approval_type : String) (t : ActorType)
    (actor_id : String)
    → Reads (assert_trusted_approval_actor env caller item approval_type t actor_id)
unfolding assert_trusted_approval_actor
Reads-assert_trusted_approval_actor env caller item a t i =
    search (reads_rules, Reads-assert_actor) depth 12
