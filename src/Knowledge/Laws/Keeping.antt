-- ===== src/Knowledge/Laws/Keeping.antt =====
-- What each call keeps of the table: valid revisions, reviewed by another than their proposer.
use context_vault.Prelude.{
  ℕ, ◌≡◌, refl, ◌∙◌, ap, false, Option, none, some, List, [], ◌∷◌, String, All, option_eq,
}
use context_vault.Work.Rows.{Uuid, Instant}
use context_vault.Knowledge.Records.{
  Checked, accept, refuse, KnowledgeStatus, reviewed, Actor, actor_eq, ApprovalPolicy,
}
use context_vault.Knowledge.Revision.{KnowledgeRevision, make_revision}
use context_vault.Knowledge.Ledger.{Ledger, put_revision}
use context_vault.Knowledge.Lifecycle.{
  Proposal, new_proposal, propose, record_conflicts, reviewed_copy, review, require_authority_kind,
  require_lifecycle_authority, stored, add_proposal,
}
use context_vault.Knowledge.Approval.{approvable, approve, terminal_copy}
use context_vault.Knowledge.Laws.Checks.{accepted, required, passed}
use context_vault.Knowledge.Laws.Tables.{All-put_revision, All-get_revision}
use context_vault.Knowledge.Laws.Steps.{IsValid, make_revision-same, new_proposal_lem}
use context_vault.Knowledge.Laws.Copies.{
  superseded_copy, approved_copy, make_revision-superseded, make_revision-approved,
}
use context_vault.Knowledge.Laws.Approving.{
  Approvable, approvable_lem, approve-stores, replaced, predecessor_of-some,
}

-- A revision that passes its constructor's checks, and that its proposer has not reviewed.
abbrev pub IsSound : (hash_text : String → String) → KnowledgeRevision → Type 0
IsSound hash_text r =
    IsValid hash_text r × (option_eq actor_eq r.reviewed_by (some r.proposed_by) ≡ false)

module _ (hash_text : String → String) where
  pub IsSound-IsValid :
      (t : List KnowledgeRevision) → All (IsSound hash_text) t → All (IsValid hash_text) t
  IsSound-IsValid [] h = tt
  IsSound-IsValid (r ∷ rest) h = (h.0.0, IsSound-IsValid rest h.1)

  stored-All :
      (c : Checked KnowledgeRevision) (l : Ledger)
      → All (IsSound hash_text) l.table
      → ((r : KnowledgeRevision) → c ≡ accept r → IsSound hash_text r)
      → All (IsSound hash_text) (stored c l).1.table
  stored-All (refuse message) l sound k = sound
  stored-All (accept r) l sound k = All-put_revision (IsSound hash_text) r l.table (k r refl) sound

  -- What the constructor returns is valid.
  make_revision-IsValid :
      (c r : KnowledgeRevision) → make_revision hash_text c ≡ accept r → IsValid hash_text r
  make_revision-IsValid c r h =
      ap (make_revision hash_text) (make_revision-same hash_text c r h) ∙ h

  pub review-All :
      (l : Ledger) (id : Uuid) (reviewer : Actor)
      → All (IsSound hash_text) l.table
      → All (IsSound hash_text) (review hash_text l id reviewer).1.table
  unfolding review reviewed_copy require_authority_kind
  review-All l id reviewer sound = stored-All (reviewed_copy hash_text l id reviewer) l sound λ r h.
      let (x, e1, h1) = required _ _ _ r h in
      let (was, h2) = passed _ _ _ r h1 in
      let (kind, h3) = passed _ _ _ r h2 in
      let (other, h4) = passed _ _ _ r h3 in
      let copy : KnowledgeRevision = record x { status = reviewed; reviewed_by = some reviewer } in
      (make_revision-IsValid copy r h4, rw (make_revision-same hash_text copy r h4) other)

  pub finish-All :
      (l : Ledger) (id : Uuid) (actor : Actor) (rules : ApprovalPolicy) (status : KnowledgeStatus)
      (now : Instant)
      → All (IsSound hash_text) l.table
      → All
          (IsSound hash_text)
          (stored (terminal_copy hash_text l id actor rules status now) l).1.table
  unfolding terminal_copy require_authority_kind require_lifecycle_authority
  finish-All l id actor rules status now sound =
      stored-All (terminal_copy hash_text l id actor rules status now) l sound λ r h.
        let (kind, h1) = passed _ _ _ r h in
        let (x, e2, h2) = required _ _ _ r h1 in
        let (may, e3, h3) = accepted _ _ r h2 in
        let (was, h4) = passed _ _ _ r h3 in
        let copy : KnowledgeRevision = record x {
          status = status;
          terminal_by = some actor;
          terminal_at = some now;
        } in
        (
          make_revision-IsValid copy r h4,
          rw (make_revision-same hash_text copy r h4)
              (All-get_revision (IsSound hash_text) id l.table x sound e2).1,
        )

  pub propose-All :
      (l : Ledger) (args : Proposal) (id : Uuid) (fresh : ℕ → Uuid) (now : Instant)
      → All (IsSound hash_text) l.table
      → All (IsSound hash_text) (propose hash_text l args id fresh now).1.table
  unfolding propose record_conflicts
  propose-All l args id fresh now sound = added (new_proposal hash_text l args id now) refl
    where
      added :
          (c : Checked KnowledgeRevision)
          → new_proposal hash_text l args id now ≡ c
          → All (IsSound hash_text) (add_proposal hash_text fresh now c l).1.table
      added (refuse message) e = sound
      added (accept r) e =
          let (drafted, unused, valid) = new_proposal_lem hash_text l args id now r e in
          All-put_revision (IsSound hash_text) r l.table
            (
              valid,
              ap (λ (x : KnowledgeRevision). option_eq actor_eq x.reviewed_by (some x.proposed_by))
                  drafted,
            )
            sound

  replaced-All :
      (l : Ledger) (r : KnowledgeRevision) (predecessor : Option KnowledgeRevision) (id : Uuid)
      (approver : Actor) (rules : ApprovalPolicy) (now : Instant)
      → All (IsSound hash_text) l.table
      → Approvable l id approver rules r predecessor
      → All
          (IsSound hash_text)
          (replaced predecessor approver now (put_revision (approved_copy r approver) l.table))
  unfolding approved_copy superseded_copy
  replaced-All l r none id approver rules now sound passes =
      let old = All-get_revision (IsSound hash_text) id l.table r sound passes.found in
      All-put_revision (IsSound hash_text) (approved_copy r approver) l.table
        (
          make_revision-approved hash_text r approver old.0 passes.was_reviewed passes.not_model,
          old.1,
        )
        sound
  replaced-All l r (some p) id approver rules now sound passes =
      let old = All-get_revision (IsSound hash_text) id l.table r sound passes.found in
      let (found, was, one, item) =
        predecessor_of-some l r r.supersedes_revision_id p passes.bound in
      let before = All-get_revision (IsSound hash_text) p.revision_id l.table p sound found in
      All-put_revision (IsSound hash_text) (superseded_copy p approver now)
        (put_revision (approved_copy r approver) l.table)
        (make_revision-superseded hash_text p approver now before.0 was passes.not_model, before.1)
        (All-put_revision (IsSound hash_text) (approved_copy r approver) l.table
          (
            make_revision-approved hash_text r approver old.0 passes.was_reviewed passes.not_model,
            old.1,
          )
          sound)

  pub approve-All :
      (l : Ledger) (id : Uuid) (approver : Actor) (rules : ApprovalPolicy) (now : Instant)
      → All (IsSound hash_text) l.table
      → All (IsSound hash_text) (approve hash_text l id approver rules now).1.table
  unfolding approve
  approve-All l id approver rules now sound = decided (approvable l id approver rules) refl
    where
      decided :
          (c : Checked (KnowledgeRevision × Option KnowledgeRevision))
          → approvable l id approver rules ≡ c
          → All (IsSound hash_text) (approve hash_text l id approver rules now).1.table
      decided (refuse message) h = rw h sound
      decided (accept (r, predecessor)) h =
          rw
            (approve-stores hash_text l id approver rules now r predecessor
              (IsSound-IsValid l.table sound) h)
            (replaced-All l r predecessor id approver rules now sound
              (approvable_lem l id approver rules r predecessor h))
