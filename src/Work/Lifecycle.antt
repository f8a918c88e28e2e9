-- ===== src/Work/Lifecycle.antt =====
-- application/work_graph.py: `create_work_item`, `mark_ready` and the read-only `prepare`.
use context_vault.Prelude.{
  ℕ, String, false, not, ◌||◌, Option, none, some, List, [], ◌∷◌, ◌++◌, find, ◌==◌, ◌=text◌,
  is_empty, is_blank, strip, pos,
}
use context_vault.Json.{Json, obj, text, int}
use context_vault.Json
use context_vault.Domain.WorkGraph.{
  draft, ready, claimed, status_eq, human, value_error, work_not_found, invalid_work_transition,
  drift_detected,
}
use context_vault.Work.Rows.{Uuid, WorkItem}
use context_vault.Work.Session.{
  Env, Action, ◌>>=◌, ◌>>◌, pure, raise_if, require, gets, modify, commit, new_uuid, canonical_hash,
}
use context_vault.Work.Events.{locked_item, append_event, transition}

-- The arguments of `create_work_item`, the defaults filled in.
pub record NewWork : Type 0 where
  pub workspace_id : Uuid
  pub project_id : Option Uuid
  pub title : String
  pub objective : String
  pub scope : Json
  pub expected_revision : String
  pub created_by_principal_id : Uuid
  pub acceptance_criteria : List Json
  pub evidence_requirements : List String
  pub exclusions : List String
  pub required_approvals : List String
  pub risk_class : String
  pub priority : ℕ
  pub owner_principal_id : Option Uuid
  pub parent_id : Option Uuid

pub record PreparedWork : Type 0 where
  pub work_item_id : Uuid
  pub work_item_revision : ℕ
  pub expected_revision : String
  pub drift_token : String
  pub scope_hash : String

module _ (env : Env) where
  unfoldable pub create_work_item : NewWork → Action WorkItem
  create_work_item args = do
    raise_if (is_blank args.title || is_blank args.objective || is_blank args.expected_revision)
        value_error
    raise_if (is_empty args.acceptance_criteria || is_empty args.evidence_requirements) value_error
    id ← new_uuid env
    let item : WorkItem = record {
      id = id;
      workspace_id = args.workspace_id;
      project_id = args.project_id;
      title = strip args.title;
      objective = strip args.objective;
      scope_json = args.scope;
      exclusions_json = args.exclusions;
      priority = args.priority;
      risk_class = args.risk_class;
      required_approvals = args.required_approvals;
      expected_revision = args.expected_revision;
      status = draft;
      created_by_principal_id = args.created_by_principal_id;
      owner_principal_id = args.owner_principal_id;
      parent_id = args.parent_id;
      acceptance_criteria = args.acceptance_criteria;
      evidence_requirements = args.evidence_requirements;
      revision = 0;
      next_fencing_token = 0;
      active_fencing_token = none;
      active_attempt_id = none;
      updated_at = env.flushed_at id;
    }
    modify (λ db. record db { items = db.items ++ item ∷ [] })
    created ←
        append_event env item none none "work.created" human
          (env.uuid_text args.created_by_principal_id) "authoritative work item created" none
          (some draft)
    commit
    pure created

  unfoldable pub mark_ready : Uuid → String → Action WorkItem
  mark_ready work_item_id actor_id = do
    item ← locked_item work_item_id
    moved ← transition env item ready actor_id "prepared" none false false
    commit
    pure moved

  -- The token of a prepared item: a hash of its identity, revision, baseline and scope.
  unfoldable pub drift_token : WorkItem → ℕ → String
  unfolding canonical_hash
  drift_token item revision = canonical_hash env (
      obj (
        Json.field "work_item_id" (text (env.uuid_text item.id)) (
          Json.field "work_item_revision" (int (pos revision)) (
            Json.field "expected_revision" (text item.expected_revision)
              (Json.field "scope_hash" (text (canonical_hash env item.scope_json)) Json.end)))))

  -- What `prepare` returns for an item.
  unfoldable pub prepared_of : WorkItem → PreparedWork
  prepared_of item = record {
    work_item_id = item.id;
    work_item_revision = item.revision;
    expected_revision = item.expected_revision;
    drift_token = drift_token item item.revision;
    scope_hash = canonical_hash env item.scope_json;
  }

  unfoldable pub prepare : Uuid → String → Action PreparedWork
  unfolding status_eq
  prepare work_item_id observed_revision = do
    item ←
        require (← gets (λ db. find (λ (r : WorkItem). r.id == work_item_id) db.items))
          work_not_found
    raise_if (not (status_eq item.status ready || status_eq item.status claimed))
        invalid_work_transition
    raise_if (not (observed_revision =text item.expected_revision)) drift_detected
    pure (prepared_of item)

  -- `_validate_prepared`
  unfoldable pub validate_prepared : WorkItem → PreparedWork → Action (Unit {0})
  validate_prepared item prepared = do
    raise_if (not (prepared.work_item_id == item.id)) drift_detected
    raise_if
        (not (prepared.work_item_revision == item.revision)
          || not (prepared.expected_revision =text item.expected_revision)
          || not (prepared.drift_token =text drift_token item prepared.work_item_revision))
        drift_detected
