-- ===== src/Knowledge/Approval.antt =====
-- context_vault/knowledge.py: `approve` and `resolve_conflict`, and the methods that end a revision.
use context_vault.Prelude.{
  String, Bool, false, not, ◌&&◌, ◌||◌, Option, none, some, List, [], ◌∷◌, find, is_empty, select,
  ◌==◌, option_eq,
}
use context_vault.Work.Rows.{Uuid, Instant}
use context_vault.Knowledge.Records.{
  Checked, accept, refuse, refuse_if, require, ◌>>=◌, ◌>>◌, KnowledgeStatus, proposed, reviewed,
  approved, superseded, revoked, expired, status_eq, resolved_conflict, is_open, Actor, actor_eq,
  ApprovalPolicy, permits,
}
use context_vault.Knowledge.Revision.{
  KnowledgeRevision, KnowledgeConflict, make_revision, make_conflict, is_valid_at, revision_eq,
}
use context_vault.Knowledge.Ledger.{
  Ledger, put_revision, put_conflict, revisions, active_heads, has_open_conflict,
}
use context_vault.Knowledge.Lifecycle.{
  lookup, require_authority_kind, require_lifecycle_authority, stored,
}

-- `active_heads == (predecessor,)`
unfoldable pub is_only_head : KnowledgeRevision → List KnowledgeRevision → Bool
unfolding revision_eq
is_only_head predecessor (head ∷ []) = revision_eq head predecessor
is_only_head predecessor _ = false

-- The approved revision that an approval replaces, which the proposal must have named.
unfoldable pub predecessor_of :
    Ledger → KnowledgeRevision → Option Uuid → Checked (Option KnowledgeRevision)
unfolding active_heads is_only_head
predecessor_of l r none = do
  refuse_if (not (is_empty (active_heads r.item_id l)))
      "stale predecessor: proposal did not bind the approved knowledge head"
  accept none
predecessor_of l r (some id) = do
  predecessor ← lookup id l
  refuse_if
      (not (status_eq predecessor.status approved)
        || not (is_only_head predecessor (active_heads r.item_id l)))
      "stale predecessor: approved knowledge head changed"
  accept (some predecessor)

-- The guards of `_approve_locked`, with the revision and the one that it supersedes.
unfoldable pub approvable :
    Ledger
    → Uuid
    → (approver : Actor) → ApprovalPolicy
    → Checked (KnowledgeRevision × Option KnowledgeRevision)
unfolding require_authority_kind permits has_open_conflict predecessor_of
approvable l id approver rules = do
  r ← lookup id l
  refuse_if (not (status_eq r.status reviewed)) "only reviewed knowledge can be approved"
  require_authority_kind approver
  refuse_if (not (permits rules approver)) "actor is not authorized to approve knowledge"
  refuse_if
      (rules.require_independent_approval
        && (actor_eq approver r.proposed_by || option_eq actor_eq r.reviewed_by (some approver)))
      "knowledge approval must be independent"
  refuse_if (has_open_conflict id l) "conflicting knowledge must be resolved before approval"
  predecessor ← predecessor_of l r r.supersedes_revision_id
  accept (r, predecessor)

module _ (hash_text : String → String) where
  -- The stored approval stays if the copy of the predecessor is refused.
  abbrev pub supersede :
      Option KnowledgeRevision
      → KnowledgeRevision
      → (approver : Actor) (now : Instant) → Ledger
      → Checked KnowledgeRevision × Ledger
  supersede none r approver now l = (accept r, l)
  supersede (some predecessor) r approver now l =
      let (old, l') =
        stored
          (make_revision hash_text (record predecessor {
            status = superseded;
            terminal_by = some approver;
            terminal_at = some now;
          }))
          l in
      (old >> accept r, l')

  abbrev pub install_copy :
      Checked KnowledgeRevision
      → Option KnowledgeRevision
      → (approver : Actor) (now : Instant) → Ledger
      → Checked KnowledgeRevision × Ledger
  install_copy (refuse message) predecessor approver now l = (refuse message, l)
  install_copy (accept copy) predecessor approver now l =
      supersede predecessor copy approver now (record l { table = put_revision copy l.table })

  abbrev pub install :
      Checked (KnowledgeRevision × Option KnowledgeRevision)
      → (approver : Actor) (now : Instant) → Ledger
      → Checked KnowledgeRevision × Ledger
  install (refuse message) approver now l = (refuse message, l)
  install (accept (r, predecessor)) approver now l =
      install_copy
        (make_revision hash_text (record r { status = approved; approved_by = some approver }))
        predecessor approver now l

  unfoldable pub approve :
      Ledger
      → Uuid
      → (approver : Actor) → ApprovalPolicy
      → (now : Instant) → Checked KnowledgeRevision × Ledger
  unfolding approvable
  approve l id approver rules now = install (approvable l id approver rules) approver now l

  unfoldable pub terminal_copy :
      Ledger
      → Uuid
      → Actor
      → ApprovalPolicy
      → KnowledgeStatus
      → (now : Instant) → Checked KnowledgeRevision
  unfolding require_authority_kind require_lifecycle_authority
  terminal_copy l id actor rules status now = do
    require_authority_kind actor
    r ← lookup id l
    require_lifecycle_authority r actor rules
    refuse_if (not (status_eq r.status approved))
        "only approved knowledge can enter a terminal state"
    make_revision hash_text
        (record r { status = status; terminal_by = some actor; terminal_at = some now })

  unfoldable pub revoke :
      Ledger → Uuid → Actor → ApprovalPolicy → (now : Instant) → Checked KnowledgeRevision × Ledger
  unfolding terminal_copy
  revoke l id actor rules now = stored (terminal_copy l id actor rules revoked now) l

  unfoldable pub expire :
      Ledger → Uuid → Actor → ApprovalPolicy → (now : Instant) → Checked KnowledgeRevision × Ledger
  unfolding terminal_copy
  expire l id actor rules now = stored (terminal_copy l id actor rules expired now) l

unfoldable pub get_conflict : Uuid → List KnowledgeConflict → Option KnowledgeConflict
get_conflict id conflicts = find (λ (c : KnowledgeConflict). c.conflict_id == id) conflicts

unfoldable pub resolved_copy :
    Ledger
    → (conflict_id resolution_id : Uuid) → (resolver : Actor) → ApprovalPolicy
    → (now : Instant) → Checked KnowledgeConflict
unfolding require_authority_kind require_lifecycle_authority get_conflict make_conflict
resolved_copy l conflict_id resolution_id resolver rules now = do
  require_authority_kind resolver
  c ← require (get_conflict conflict_id l.conflict_table) "unknown conflict"
  refuse_if (not (is_open c.status)) "conflict is already resolved"
  existing ← lookup c.existing_revision_id l
  refuse_if (not (status_eq existing.status approved)) "conflict predecessor is no longer active"
  require_lifecycle_authority existing resolver rules
  resolution ← lookup resolution_id l
  refuse_if (not (resolution.item_id == c.item_id)) "conflict resolution belongs to another item"
  refuse_if (not (status_eq resolution.status proposed || status_eq resolution.status reviewed))
      "conflict resolution is not pending approval"
  refuse_if (not (option_eq ◌==◌ resolution.supersedes_revision_id (some c.existing_revision_id)))
      "conflict resolution must explicitly supersede the existing revision"
  make_conflict (record c {
    status = resolved_conflict;
    resolution_revision_id = some resolution_id;
    resolved_by = some resolver;
    resolved_at = some now;
  })

abbrev pub stored_conflict : Checked KnowledgeConflict → Ledger → Checked KnowledgeConflict × Ledger
stored_conflict (refuse message) l = (refuse message, l)
stored_conflict (accept c) l =
    (accept c, record l { conflict_table = put_conflict c l.conflict_table })

unfoldable pub resolve_conflict :
    Ledger
    → (conflict_id resolution_id : Uuid) → (resolver : Actor) → ApprovalPolicy
    → (now : Instant) → Checked KnowledgeConflict × Ledger
unfolding resolved_copy
resolve_conflict l conflict_id resolution_id resolver rules now =
    stored_conflict (resolved_copy l conflict_id resolution_id resolver rules now) l

-- The current approved knowledge, for read-only projections.
unfoldable pub approved_projection : Ledger → (at : Instant) → List KnowledgeRevision
unfolding revisions is_valid_at
approved_projection l at =
    select (λ r. status_eq r.status approved && is_valid_at r at) (revisions l)
