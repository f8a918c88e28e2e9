-- ===== src/Knowledge/Laws/Steps.antt =====
-- The lifecycle of revisions as a step relation on their table, which every method refines.
use context_vault.Prelude.{
  ℕ, ◌≡◌, refl, sym, ◌∙◌, ap, true, false, not, Option, none, some, List, arith, String, is_some,
}
use context_vault.Work.Rows.{Uuid, Instant}
use context_vault.Knowledge.Records.{
  Checked, accept, refuse, KnowledgeStatus, proposed, reviewed, approved, superseded, status_eq,
  Actor, ApprovalPolicy,
}
use context_vault.Knowledge.Revision.{KnowledgeRevision, is_terminal, make_revision}
use context_vault.Knowledge.Ledger.{Ledger, get_revision, put_revision}
use context_vault.Knowledge.Lifecycle.{
  Proposal, proposal_draft, new_proposal, propose, record_conflicts, reviewed_copy, review,
  require_authority_kind, require_lifecycle_authority, stored, add_proposal,
}
use context_vault.Knowledge.Approval.{terminal_copy}
use context_vault.Knowledge.Laws.Checks.{accepted, required, passed, accept-inj}
use context_vault.Knowledge.Laws.Tables.{refound, heads}

-- A new copy of a revision of the table: what it says and where it belongs stay.
pub record Follows (t : List KnowledgeRevision) (x r : KnowledgeRevision) : Type 0 where
  pub found : get_revision r.revision_id t ≡ some x
  pub same_item : r.item_id ≡ x.item_id
  pub same_version : r.version ≡ x.version
  pub same_content : (r.content ≡ x.content) × (r.content_hash ≡ x.content_hash)
  pub same_proposer : r.proposed_by ≡ x.proposed_by

-- One step of the lifecycle: nothing, a new proposal, a review, the first approval of an item, an
-- approval that supersedes the approved revision, or the end of an approved revision.
pub data Moves (t : List KnowledgeRevision) : List KnowledgeRevision → Type 0 where
  keep : Moves t t
  add :
      (r : KnowledgeRevision)
      → r.status ≡ proposed
      → get_revision r.revision_id t ≡ none
      → Moves t (put_revision r t)
  vet :
      (x r : KnowledgeRevision)
      → Follows t x r
      → x.status ≡ proposed
      → r.status ≡ reviewed
      → Moves t (put_revision r t)
  install_first :
      (x r : KnowledgeRevision)
      → Follows t x r
      → x.status ≡ reviewed
      → r.status ≡ approved
      → heads r.item_id t ≡ 0
      → Moves t (put_revision r t)
  install_next :
      (x r p q : KnowledgeRevision)
      → Follows t x r
      → x.status ≡ reviewed
      → r.status ≡ approved
      → heads r.item_id t ≡ 1
      → Follows t p q
      → p.status ≡ approved
      → q.status ≡ superseded
      → q.item_id ≡ r.item_id
      → Moves t (put_revision q (put_revision r t))
  finish :
      (x r : KnowledgeRevision)
      → Follows t x r
      → x.status ≡ approved
      → is_terminal r.status ≡ true
      → Moves t (put_revision r t)

pub status_is : (a b : KnowledgeStatus) → not (status_eq a b) ≡ false → a ≡ b
status_is a b h = ground arith

pub is_none : {A : Type 0} (o : Option A) → is_some o ≡ false → o ≡ none
is_none none h = refl
is_none (some x) h = cc

-- The revision passes the checks of its constructor.
abbrev pub IsValid : (hash_text : String → String) → KnowledgeRevision → Type 0
IsValid hash_text r = make_revision hash_text r ≡ accept r

module _ (hash_text : String → String) where
  pub make_revision-same : (r s : KnowledgeRevision) → make_revision hash_text r ≡ accept s → s ≡ r
  unfolding make_revision
  make_revision-same r s h =
      let (u1, e1, h1) = accepted _ _ s h in
      let (u2, e2, h2) = accepted _ _ s h1 in sym (accept-inj r s h2)

  pub stored-Moves :
      (c : Checked KnowledgeRevision) (l : Ledger)
      → ((r : KnowledgeRevision) → c ≡ accept r → Moves l.table (put_revision r l.table))
      → Moves l.table (stored c l).1.table
  stored-Moves (refuse message) l k = keep
  stored-Moves (accept r) l k = k r refl

  pub review-Moves :
      (l : Ledger) (id : Uuid) (reviewer : Actor)
      → Moves l.table (review hash_text l id reviewer).1.table
  unfolding review reviewed_copy require_authority_kind
  review-Moves l id reviewer = stored-Moves (reviewed_copy hash_text l id reviewer) l λ r h.
      let (x, e1, h1) = required _ _ _ r h in
      let (was, h2) = passed _ _ _ r h1 in
      let (kind, h3) = passed _ _ _ r h2 in
      let (other, h4) = passed _ _ _ r h3 in
      let copy : KnowledgeRevision = record x { status = reviewed; reviewed_by = some reviewer } in
      rw (make_revision-same copy r h4) (
        vet x copy
          (record {
            found = refound id l.table x e1;
            same_item = refl;
            same_version = refl;
            same_content = (refl, refl);
            same_proposer = refl;
          })
          (status_is x.status proposed was) refl)

  pub finish-Moves :
      (l : Ledger) (id : Uuid) (actor : Actor) (rules : ApprovalPolicy) (status : KnowledgeStatus)
      (now : Instant)
      → is_terminal status ≡ true
      → Moves l.table (stored (terminal_copy hash_text l id actor rules status now) l).1.table
  unfolding terminal_copy require_authority_kind require_lifecycle_authority
  finish-Moves l id actor rules status now ends =
      stored-Moves (terminal_copy hash_text l id actor rules status now) l λ r h.
        let (kind, h1) = passed _ _ _ r h in
        let (x, e2, h2) = required _ _ _ r h1 in
        let (may, e3, h3) = accepted _ _ r h2 in
        let (was, h4) = passed _ _ _ r h3 in
        let copy : KnowledgeRevision = record x {
          status = status;
          terminal_by = some actor;
          terminal_at = some now;
        } in
        rw (make_revision-same copy r h4) (
          finish x copy
            (record {
              found = refound id l.table x e2;
              same_item = refl;
              same_version = refl;
              same_content = (refl, refl);
              same_proposer = refl;
            })
            (status_is x.status approved was) ends)

  -- An accepted proposal is the draft, under an id that the table does not have.
  pub new_proposal_lem :
      (l : Ledger) (args : Proposal) (id : Uuid) (now : Instant) (r : KnowledgeRevision)
      → new_proposal hash_text l args id now ≡ accept r
      → (r ≡ proposal_draft hash_text l args id now)
        × (get_revision id l.table ≡ none)
        × (make_revision hash_text r ≡ accept r)
  unfolding new_proposal
  new_proposal_lem l args id now r e =
      let (u, e1, h1) = accepted _ _ r e in
      let (s, e2, h2) = accepted _ _ r h1 in
      let (unused, h3) = passed _ _ _ r h2 in
      let kept : s ≡ r = accept-inj s r h3 in
      let drafted : s ≡ proposal_draft hash_text l args id now = make_revision-same _ s e2 in
      (
        sym kept ∙ drafted,
        is_none _ unused,
        ap (make_revision hash_text) (sym kept ∙ drafted) ∙ e2 ∙ h3,
      )

  pub propose-Moves :
      (l : Ledger) (args : Proposal) (id : Uuid) (fresh : ℕ → Uuid) (now : Instant)
      → Moves l.table (propose hash_text l args id fresh now).1.table
  unfolding propose record_conflicts
  propose-Moves l args id fresh now = added (new_proposal hash_text l args id now) refl
    where
      added :
          (c : Checked KnowledgeRevision)
          → new_proposal hash_text l args id now ≡ c
          → Moves l.table (add_proposal hash_text fresh now c l).1.table
      added (refuse message) e = keep
      added (accept r) e =
          let (drafted, unused, valid) = new_proposal_lem l args id now r e in
          add r (ap (λ (x : KnowledgeRevision). x.status) drafted)
            (rw (ap (λ (x : KnowledgeRevision). x.revision_id) drafted) unused)
