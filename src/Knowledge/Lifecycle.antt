-- ===== src/Knowledge/Lifecycle.antt =====
-- context_vault/knowledge.py: the methods of `KnowledgeLedger`. A method is a function on the ledger
-- that returns what it answers or refuses, with the ledger it leaves. `now` is the caller's instant or,
-- without one, the clock's; ids that `uuid4` draws are given.
use context_vault.Prelude.{
  ℕ, suc, ◌+◌, String, Bool, not, ◌&&◌, ◌||◌, Option, none, some, List, [], ◌∷◌, is_some, length,
  select, ◌==◌, ◌=text◌, option_eq,
}
use context_vault.Work.Rows.{Uuid, Instant}
use context_vault.Knowledge.Records.{
  Checked, accept, refuse, refuse_if, require, ◌>>=◌, ◌>>◌, human, policy, kind_eq, proposed,
  reviewed, approved, status_eq, open_conflict, Actor, actor_eq, ApprovalPolicy, permits,
  DataClassification, Float,
}
use context_vault.Knowledge.Revision.{KnowledgeRevision, KnowledgeConflict, make_revision}
use context_vault.Knowledge.Ledger.{
  Ledger, get_revision, put_revision, put_conflict, ids_of, append_id, revisions,
}

-- The arguments of `propose`.
pub record Proposal : Type 0 where
  pub item_id : Uuid
  pub content : String
  pub source_ids : List String
  pub evidence_ids : List String
  pub owner : String
  pub scope : String
  pub confidence : Float
  pub classification : DataClassification
  pub proposed_by : Actor
  pub valid_from : Instant
  pub valid_until : Option Instant
  pub supersedes_revision_id : Option Uuid

-- `_get`
abbrev pub lookup : Uuid → Ledger → Checked KnowledgeRevision
lookup id l = require (get_revision id l.table) "unknown knowledge revision"

-- `_require_authority_kind`
unfoldable pub require_authority_kind : Actor → Checked (Unit {0})
require_authority_kind actor =
    refuse_if (not (kind_eq actor.kind human || kind_eq actor.kind policy))
      "model actors cannot review or approve knowledge"

-- `actor.actor_id == revision.owner or actor in {revision.reviewed_by, revision.approved_by}`
abbrev pub is_related : KnowledgeRevision → Actor → Bool
is_related r actor =
    actor.actor_id =text r.owner
    || option_eq actor_eq r.reviewed_by (some actor)
    || option_eq actor_eq r.approved_by (some actor)

-- `_require_lifecycle_authority`
unfoldable pub require_lifecycle_authority :
    KnowledgeRevision → Actor → ApprovalPolicy → Checked (Unit {0})
unfolding permits
require_lifecycle_authority r actor rules = do
  refuse_if (not (permits rules actor)) "actor is not authorized by approval policy"
  refuse_if (not (kind_eq actor.kind policy) && not (is_related r actor))
      "actor is not the owner or an approving authority"

unfoldable pub check_predecessor : Ledger → Proposal → Option Uuid → Checked (Unit {0})
check_predecessor l args none = accept tt
check_predecessor l args (some id) = do
  predecessor ← lookup id l
  refuse_if (not (predecessor.item_id == args.item_id))
      "superseded revision belongs to another item"
  refuse_if (not (status_eq predecessor.status approved))
      "only approved knowledge can be superseded"

-- The approved revisions that a proposal contradicts without superseding them.
unfoldable pub clashes : KnowledgeRevision → KnowledgeRevision → Bool
clashes proposal existing =
    not (existing.revision_id == proposal.revision_id)
    && existing.item_id == proposal.item_id
    && status_eq existing.status approved
    && not (existing.content_hash =text proposal.content_hash)
    && not (option_eq ◌==◌ proposal.supersedes_revision_id (some existing.revision_id))

unfoldable pub conflict_of :
    (conflict_id : Uuid)
    → KnowledgeRevision
    → KnowledgeRevision
    → (now : Instant) → KnowledgeConflict
conflict_of id proposal existing now = record {
  conflict_id = id;
  item_id = proposal.item_id;
  existing_revision_id = existing.revision_id;
  proposed_revision_id = proposal.revision_id;
  reason = "proposed content conflicts with active approved revision";
  status = open_conflict;
  resolution_revision_id = none;
  created_at = now;
  resolved_by = none;
  resolved_at = none;
}

-- The loop of `_record_conflicts` over the revisions that clash; `fresh` draws the ids.
unfoldable pub record_each :
    (fresh : ℕ → Uuid) (drawn : ℕ)
    → KnowledgeRevision
    → (now : Instant) → List KnowledgeRevision
    → List KnowledgeConflict
    → List KnowledgeConflict
unfolding conflict_of put_conflict
record_each fresh drawn proposal now [] conflicts = conflicts
record_each fresh drawn proposal now (existing ∷ rest) conflicts =
    record_each fresh (suc drawn) proposal now rest
      (put_conflict (conflict_of (fresh drawn) proposal existing now) conflicts)

-- `_record_conflicts`
unfoldable pub record_conflicts :
    (fresh : ℕ → Uuid) → KnowledgeRevision → (now : Instant) → Ledger → Ledger
unfolding clashes record_each revisions
record_conflicts fresh proposal now l = record l {
  conflict_table =
      record_each fresh 0 proposal now (select (clashes proposal) (revisions l)) l.conflict_table;
}

-- What every method does with a new copy of a revision that it may store.
abbrev pub stored : Checked KnowledgeRevision → Ledger → Checked KnowledgeRevision × Ledger
stored (refuse message) l = (refuse message, l)
stored (accept r) l = (accept r, record l { table = put_revision r l.table })

module _ (hash_text : String → String) where
  abbrev pub proposal_draft :
      Ledger → Proposal → (revision_id : Uuid) (created_at : Instant) → KnowledgeRevision
  proposal_draft l args revision_id created_at = record {
    revision_id = revision_id;
    item_id = args.item_id;
    version = length (ids_of args.item_id l.item_revisions) + 1;
    status = proposed;
    content = args.content;
    content_hash = hash_text args.content;
    source_ids = args.source_ids;
    evidence_ids = args.evidence_ids;
    owner = args.owner;
    scope = args.scope;
    confidence = args.confidence;
    classification = args.classification;
    valid_from = args.valid_from;
    valid_until = args.valid_until;
    supersedes_revision_id = args.supersedes_revision_id;
    proposed_by = args.proposed_by;
    reviewed_by = none;
    approved_by = none;
    created_at = created_at;
    terminal_by = none;
    terminal_at = none;
  }

  -- The new proposal, or why there is none.
  unfoldable pub new_proposal :
      Ledger → Proposal → (revision_id : Uuid) (created_at : Instant) → Checked KnowledgeRevision
  unfolding check_predecessor
  new_proposal l args revision_id created_at = do
    check_predecessor l args args.supersedes_revision_id
    r ← make_revision hash_text (proposal_draft l args revision_id created_at)
    refuse_if (is_some (get_revision revision_id l.table)) "revision_id already exists"
    accept r

  abbrev pub add_proposal :
      (fresh : ℕ → Uuid) (created_at : Instant)
      → Checked KnowledgeRevision
      → Ledger
      → Checked KnowledgeRevision × Ledger
  add_proposal fresh created_at (refuse message) l = (refuse message, l)
  add_proposal fresh created_at (accept r) l = (
    accept r,
    record_conflicts fresh r created_at (record l {
      table = put_revision r l.table;
      item_revisions = append_id r.item_id r.revision_id l.item_revisions;
    }),
  )

  unfoldable pub propose :
      Ledger
      → Proposal
      → (revision_id : Uuid) (fresh : ℕ → Uuid) (created_at : Instant)
      → Checked KnowledgeRevision × Ledger
  unfolding new_proposal
  propose l args revision_id fresh created_at =
      add_proposal fresh created_at (new_proposal l args revision_id created_at) l

  unfoldable pub reviewed_copy : Ledger → Uuid → (reviewer : Actor) → Checked KnowledgeRevision
  unfolding require_authority_kind
  reviewed_copy l id reviewer = do
    r ← lookup id l
    refuse_if (not (status_eq r.status proposed)) "only proposed knowledge can be reviewed"
    require_authority_kind reviewer
    refuse_if (actor_eq reviewer r.proposed_by) "proposer cannot review its own knowledge"
    make_revision hash_text (record r { status = reviewed; reviewed_by = some reviewer })

  unfoldable pub review : Ledger → Uuid → (reviewer : Actor) → Checked KnowledgeRevision × Ledger
  unfolding reviewed_copy
  review l id reviewer = stored (reviewed_copy l id reviewer) l
