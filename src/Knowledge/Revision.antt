-- ===== src/Knowledge/Revision.antt =====
-- context_vault/knowledge.py: `KnowledgeRevision` and `KnowledgeConflict`, with the checks that their
-- `__post_init__` repeats for each changed copy (`replace`).
use context_vault.Prelude.{
  ℕ, String, Bool, true, false, not, ◌&&◌, ◌||◌, Option, none, some, List, [], ◌∷◌, any, leb, ltb,
  ◌==◌, ◌=text◌, option_eq, is_empty, is_some, is_blank,
}
use context_vault.Work.Rows.{Uuid, Instant}
use context_vault.Knowledge.Records.{
  Checked, accept, refuse_if, ◌>>◌, model, kind_eq, KnowledgeStatus, proposed, reviewed, approved,
  superseded, revoked, expired, status_eq, ConflictStatus, is_open, Actor, actor_eq, among,
  DataClassification, classification_eq, Float, is_finite, in_unit, float_eq,
}

pub record KnowledgeRevision : Type 0 where
  pub revision_id : Uuid
  pub item_id : Uuid
  pub version : ℕ
  pub status : KnowledgeStatus
  pub content : String
  pub content_hash : String
  pub source_ids : List String
  pub evidence_ids : List String
  pub owner : String
  pub scope : String
  pub confidence : Float
  pub classification : DataClassification
  pub valid_from : Instant
  pub valid_until : Option Instant
  pub supersedes_revision_id : Option Uuid
  pub proposed_by : Actor
  pub reviewed_by : Option Actor
  pub approved_by : Option Actor
  pub created_at : Instant
  pub terminal_by : Option Actor
  pub terminal_at : Option Instant

pub record KnowledgeConflict : Type 0 where
  pub conflict_id : Uuid
  pub item_id : Uuid
  pub existing_revision_id : Uuid
  pub proposed_revision_id : Uuid
  pub reason : String
  pub status : ConflictStatus
  pub resolution_revision_id : Option Uuid
  pub created_at : Instant
  pub resolved_by : Option Actor
  pub resolved_at : Option Instant

-- `len(set(ids)) == len(ids)`
unfoldable pub all_distinct : List String → Bool
all_distinct [] = true
all_distinct (id ∷ rest) = not (among id rest) && all_distinct rest

-- `valid_until is not None and valid_until <= valid_from`
abbrev pub ends_early : Option Instant → Instant → Bool
ends_early none valid_from = false
ends_early (some valid_until) valid_from = leb valid_until valid_from

-- `authority is not None and authority.kind is ActorKind.MODEL`
abbrev pub is_model : Option Actor → Bool
is_model none = false
is_model (some actor) = kind_eq actor.kind model

-- The statuses that a review and an approval stand behind, and those that end a revision.
abbrev pub is_terminal : KnowledgeStatus → Bool
is_terminal superseded = true
is_terminal revoked = true
is_terminal expired = true
is_terminal _ = false

abbrev pub is_authoritative : KnowledgeStatus → Bool
is_authoritative approved = true
is_authoritative status = is_terminal status

-- The checks on who stands behind it.
unfoldable pub check_authority : KnowledgeRevision → Checked (Unit {0})
check_authority r = do
  refuse_if (status_eq r.status proposed && (is_some r.reviewed_by || is_some r.approved_by))
      "proposed knowledge cannot carry review or approval"
  refuse_if (status_eq r.status reviewed && (not (is_some r.reviewed_by) || is_some r.approved_by))
      "reviewed knowledge requires only a reviewer"
  refuse_if
      (is_authoritative r.status && (not (is_some r.reviewed_by) || not (is_some r.approved_by)))
      "authoritative knowledge requires review and approval"
  refuse_if (is_terminal r.status && (not (is_some r.terminal_by) || not (is_some r.terminal_at)))
      "terminal knowledge requires actor and timestamp"
  refuse_if (not (is_terminal r.status) && (is_some r.terminal_by || is_some r.terminal_at))
      "non-terminal knowledge cannot carry terminal audit"
  refuse_if (is_model r.reviewed_by || is_model r.approved_by)
      "model cannot be a knowledge authority"
  refuse_if (is_model r.terminal_by) "model cannot perform a terminal transition"

module _ (hash_text : String → String) where
  -- The checks on what the revision says.
  unfoldable pub check_content : KnowledgeRevision → Checked (Unit {0})
  unfolding all_distinct in_unit
  check_content r = do
    refuse_if (r.version == 0) "knowledge version must be positive"
    refuse_if (is_blank r.content || is_blank r.owner || is_blank r.scope)
        "content, owner and scope cannot be empty"
    refuse_if (not (is_finite r.confidence)) "confidence must be a finite number"
    refuse_if (any is_blank r.source_ids) "source references must be non-empty strings"
    refuse_if (any is_blank r.evidence_ids) "evidence references must be non-empty strings"
    refuse_if (not (hash_text r.content =text r.content_hash))
        "knowledge content_hash does not match content"
    refuse_if (is_empty r.source_ids || is_empty r.evidence_ids)
        "source and evidence references are required"
    refuse_if (not (all_distinct r.source_ids)) "source references must be unique"
    refuse_if (not (all_distinct r.evidence_ids)) "evidence references must be unique"
    refuse_if (not (in_unit r.confidence)) "confidence must be between 0 and 1"
    refuse_if (ends_early r.valid_until r.valid_from) "valid_until must be after valid_from"

  -- `KnowledgeRevision.__post_init__`
  unfoldable pub make_revision : KnowledgeRevision → Checked KnowledgeRevision
  make_revision r = do check_content r; check_authority r; accept r

-- `KnowledgeConflict.__post_init__`
unfoldable pub make_conflict : KnowledgeConflict → Checked KnowledgeConflict
make_conflict c = do
  refuse_if (is_blank c.reason) "conflict reason cannot be empty"
  refuse_if (is_model c.resolved_by) "model cannot resolve a knowledge conflict"
  refuse_if
      (is_open c.status
        && (is_some c.resolution_revision_id || is_some c.resolved_by || is_some c.resolved_at))
      "open conflict cannot carry resolution audit"
  refuse_if
      (not (is_open c.status)
        && (not (is_some c.resolution_revision_id)
            || not (is_some c.resolved_by)
            || not (is_some c.resolved_at)))
      "resolved conflict requires complete audit"
  accept c

-- `instant < valid_until`, if there is an end.
abbrev pub before_end : Instant → Option Instant → Bool
before_end instant none = true
before_end instant (some valid_until) = ltb instant valid_until

-- `KnowledgeRevision.is_valid_at`
unfoldable pub is_valid_at : KnowledgeRevision → Instant → Bool
is_valid_at r instant = leb r.valid_from instant && before_end instant r.valid_until

abbrev texts_eq : List String → List String → Bool
texts_eq [] [] = true
texts_eq (a ∷ as') (b ∷ bs) = a =text b && texts_eq as' bs
texts_eq _ _ = false

unfoldable pub same_identity : KnowledgeRevision → KnowledgeRevision → Bool
same_identity a b =
    a.revision_id == b.revision_id
    && a.item_id == b.item_id
    && a.version == b.version
    && status_eq a.status b.status

unfoldable pub same_fields : KnowledgeRevision → KnowledgeRevision → Bool
same_fields a b =
    a.content =text b.content
    && a.content_hash =text b.content_hash
    && texts_eq a.source_ids b.source_ids
    && texts_eq a.evidence_ids b.evidence_ids
    && a.owner =text b.owner
    && a.scope =text b.scope
    && float_eq a.confidence b.confidence
    && classification_eq a.classification b.classification
    && a.valid_from == b.valid_from
    && option_eq ◌==◌ a.valid_until b.valid_until
    && option_eq ◌==◌ a.supersedes_revision_id b.supersedes_revision_id
    && actor_eq a.proposed_by b.proposed_by
    && option_eq actor_eq a.reviewed_by b.reviewed_by
    && option_eq actor_eq a.approved_by b.approved_by
    && a.created_at == b.created_at
    && option_eq actor_eq a.terminal_by b.terminal_by
    && option_eq ◌==◌ a.terminal_at b.terminal_at

-- `==` of two revisions, field by field.
unfoldable pub revision_eq : KnowledgeRevision → KnowledgeRevision → Bool
unfolding same_identity same_fields
revision_eq a b = same_identity a b && same_fields a b
