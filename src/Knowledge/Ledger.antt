-- ===== src/Knowledge/Ledger.antt =====
-- context_vault/knowledge.py: the state of a `KnowledgeLedger` and its lookups. A `dict` is the list of
-- its values in the order of their insertion; each revision stands under its own id. A UUID's text
-- orders as its number does, since it has a fixed width.
use context_vault.Prelude.{
  Bool, ◌&&◌, ◌||◌, Option, none, some, List, [], ◌∷◌, ◌++◌, any, select, leb, ltb, ◌==◌, sort_by,
  if◌then◌else◌,
}
use context_vault.Work.Rows.{Uuid}
use context_vault.Knowledge.Records.{approved, status_eq, is_open}
use context_vault.Knowledge.Revision.{KnowledgeRevision, KnowledgeConflict}

pub record Ledger : Type 0 where
  pub table : List KnowledgeRevision
  pub item_revisions : List (Uuid × List Uuid)
  pub conflict_table : List KnowledgeConflict

-- `KnowledgeLedger.__init__`
abbrev pub new_ledger : Ledger
new_ledger = record { table = []; item_revisions = []; conflict_table = [] }

-- `self._revisions.get(id)`
abbrev pub get_revision : Uuid → List KnowledgeRevision → Option KnowledgeRevision
get_revision id [] = none
get_revision id (r ∷ rest) = if r.revision_id == id then some r else get_revision id rest

-- `self._revisions[r.revision_id] = r`
unfoldable pub put_revision : KnowledgeRevision → List KnowledgeRevision → List KnowledgeRevision
put_revision r [] = r ∷ []
put_revision r (x ∷ rest) =
    let later = put_revision r rest in
    if x.revision_id == r.revision_id then r ∷ rest else x ∷ later

-- `self._conflicts[c.conflict_id] = c`
unfoldable pub put_conflict : KnowledgeConflict → List KnowledgeConflict → List KnowledgeConflict
put_conflict c [] = c ∷ []
put_conflict c (x ∷ rest) =
    let later = put_conflict c rest in
    if x.conflict_id == c.conflict_id then c ∷ rest else x ∷ later

-- `self._item_revisions.get(item_id, [])`
abbrev pub ids_of : Uuid → List (Uuid × List Uuid) → List Uuid
ids_of item [] = []
ids_of item ((i, ids) ∷ rest) = if i == item then ids else ids_of item rest

-- `self._item_revisions.setdefault(item_id, []).append(id)`
unfoldable pub append_id : Uuid → Uuid → List (Uuid × List Uuid) → List (Uuid × List Uuid)
append_id item id [] = (item, id ∷ []) ∷ []
append_id item id ((i, ids) ∷ rest) =
    let later = append_id item id rest in
    if i == item then (i, ids ++ id ∷ []) ∷ rest else (i, ids) ∷ later

-- The key `(str(revision.item_id), revision.version)`, compared
abbrev pub sorts_before : KnowledgeRevision → KnowledgeRevision → Bool
sorts_before a b = ltb a.item_id b.item_id || (a.item_id == b.item_id && leb a.version b.version)

-- `KnowledgeLedger.revisions`
unfoldable pub revisions : Ledger → List KnowledgeRevision
unfolding sort_by
revisions l = sort_by sorts_before l.table

-- The approved revision, or revisions, of an item.
abbrev pub is_head : Uuid → KnowledgeRevision → Bool
is_head item r = r.item_id == item && status_eq r.status approved

unfoldable pub active_heads : Uuid → Ledger → List KnowledgeRevision
unfolding revisions
active_heads item l = select (is_head item) (revisions l)

-- `open_conflict is not None`
unfoldable pub has_open_conflict : Uuid → Ledger → Bool
has_open_conflict id l =
    any (λ (c : KnowledgeConflict). c.proposed_revision_id == id && is_open c.status)
      l.conflict_table
