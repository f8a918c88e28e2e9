-- ===== src/Knowledge/Laws/Approving.antt =====
-- An approval as a step of the lifecycle. Its second write, the superseded copy, is never refused.
use context_vault.Prelude.{
  ◌≡◌, refl, ap, Bool, true, false, not, ◌&&◌, ◌||◌, Option, none, some, List, arith, String, All,
  option_eq,
}
use context_vault.Work.Rows.{Uuid, Instant}
use context_vault.Knowledge.Records.{
  Checked, accept, refuse, ◌>>=◌, kind_eq, human, policy, reviewed, approved, status_eq, Actor,
  actor_eq, ApprovalPolicy, permits,
}
use context_vault.Knowledge.Revision.{KnowledgeRevision, is_model}
use context_vault.Knowledge.Ledger.{
  Ledger, get_revision, put_revision, has_open_conflict, active_heads,
}
use context_vault.Knowledge.Lifecycle.{require_authority_kind}
use context_vault.Knowledge.Approval.{predecessor_of, approvable, supersede, approve, is_only_head}
use context_vault.Knowledge.Laws.Checks.{accepted, required, passed, accept-inj}
use context_vault.Knowledge.Laws.Copies.{
  superseded_copy, approved_copy, make_revision-superseded, make_revision-approved,
}
use context_vault.Knowledge.Laws.Tables.{
  refound, heads, no_active_heads, only_active_head, All-get_revision,
}
use context_vault.Knowledge.Laws.Steps.{
  Moves, keep, install_first, install_next, status_is, IsValid,
}

neither : (a b : Bool) → (not a || not b) ≡ false → (a ≡ true) × (b ≡ true)
neither a b h = ground arith

-- Who may approve is not a model.
authority-kind :
    (actor : Actor)
    → (not (kind_eq actor.kind human || kind_eq actor.kind policy)) ≡ false
    → is_model (some actor) ≡ false
authority-kind actor h = ground arith

-- What `approve` has checked of a revision and of the one that it supersedes.
pub record Approvable (l : Ledger) (id : Uuid) (approver : Actor) (rules : ApprovalPolicy)
    (r : KnowledgeRevision) (predecessor : Option KnowledgeRevision) : Type 0 where
  pub found : get_revision id l.table ≡ some r
  pub was_reviewed : r.status ≡ reviewed
  pub not_model : is_model (some approver) ≡ false
  pub permitted : permits rules approver ≡ true
  pub independent :
      (rules.require_independent_approval
        && (actor_eq approver r.proposed_by || option_eq actor_eq r.reviewed_by (some approver)))
      ≡ false
  pub no_conflict : has_open_conflict id l ≡ false
  pub bound : predecessor_of l r r.supersedes_revision_id ≡ accept predecessor

pub unnegated : (a : Bool) → not a ≡ false → a ≡ true
unnegated a h = ground arith

pub approvable_lem :
    (l : Ledger) (id : Uuid) (approver : Actor) (rules : ApprovalPolicy) (r : KnowledgeRevision)
    (predecessor : Option KnowledgeRevision)
    → approvable l id approver rules ≡ accept (r, predecessor)
    → Approvable l id approver rules r predecessor
unfolding approvable require_authority_kind
approvable_lem l id approver rules r predecessor h =
    let (x, e1, h1) = required _ _ _ (r, predecessor) h in
    let (was, h2) = passed _ _ _ (r, predecessor) h1 in
    let (kind, h3) = passed _ _ _ (r, predecessor) h2 in
    let (may, h4) = passed _ _ _ (r, predecessor) h3 in
    let (other, h5) = passed _ _ _ (r, predecessor) h4 in
    let (settled, h6) = passed _ _ _ (r, predecessor) h5 in
    let (p, e7, h7) = accepted _ _ (r, predecessor) h6 in
    let same = accept-inj (x, p) (r, predecessor) h7 in
    rw (← ap (λ (y : KnowledgeRevision × Option KnowledgeRevision). y.0) same) (
      rw (← ap (λ (y : KnowledgeRevision × Option KnowledgeRevision). y.1) same) (record {
        found = e1;
        was_reviewed = status_is x.status reviewed was;
        not_model = authority-kind approver kind;
        permitted = unnegated (permits rules approver) may;
        independent = other;
        no_conflict = settled;
        bound = e7;
      }))

-- Without a named predecessor, the item has no approved revision.
pub predecessor_of-none :
    (l : Ledger) (r : KnowledgeRevision) (named : Option Uuid)
    → predecessor_of l r named ≡ accept none
    → heads r.item_id l.table ≡ 0
unfolding predecessor_of
predecessor_of-none l r none h =
    let (empty, h1) = passed _ _ _ none h in no_active_heads r.item_id l (unnegated _ empty)
predecessor_of-none l r (some id) h =
    let (p, e1, h1) = required _ _ _ none h in
    let (u, h2) = passed _ _ _ none h1 in
    let absurd : some p ≡ none = accept-inj (some p) none h2 in cc

-- The named predecessor is the one approved revision of the item.
pub predecessor_of-some :
    (l : Ledger) (r : KnowledgeRevision) (named : Option Uuid) (p : KnowledgeRevision)
    → predecessor_of l r named ≡ accept (some p)
    → (get_revision p.revision_id l.table ≡ some p)
      × (p.status ≡ approved)
      × (heads r.item_id l.table ≡ 1)
      × (p.item_id ≡ r.item_id)
unfolding predecessor_of
predecessor_of-some l r none p h =
    let (empty, h1) = passed _ _ _ (some p) h in
    let absurd : none ≡ some p = accept-inj none (some p) h1 in cc
predecessor_of-some l r (some id) p h =
    let (x, e1, h1) = required _ _ _ (some p) h in
    let (bound, h2) = passed _ _ _ (some p) h1 in
    let eq : some x ≡ some p = accept-inj (some x) (some p) h2 in
    let same : x ≡ p = cc in
    let (was, only) =
      neither (status_eq x.status approved) (is_only_head x (active_heads r.item_id l)) bound in
    let (one, item) = only_active_head r.item_id l x only in
    let found : get_revision x.revision_id l.table ≡ some x = refound id l.table x e1 in
    rw (← same)
      (found, status_is x.status approved (is_true (status_eq x.status approved) was), one, item)
  where
    is_true : (a : Bool) → a ≡ true → not a ≡ false
    is_true a k = rw k refl

abbrev pub replaced :
    Option KnowledgeRevision → Actor → Instant → List KnowledgeRevision → List KnowledgeRevision
replaced none approver now t = t
replaced (some p) approver now t = put_revision (superseded_copy p approver now) t

module _ (hash_text : String → String) where
  superseded-stored :
      (p copy : KnowledgeRevision) (approver : Actor) (now : Instant) (l : Ledger)
      → IsValid hash_text (superseded_copy p approver now)
      → supersede hash_text (some p) copy approver now l
        ≡ (accept copy, record l { table = put_revision (superseded_copy p approver now) l.table })
  unfolding superseded_copy ◌>>=◌
  superseded-stored p copy approver now l valid = rw valid refl

  replaced-stored :
      (l : Ledger) (r copy : KnowledgeRevision) (predecessor : Option KnowledgeRevision)
      (approver : Actor) (now : Instant)
      → All (IsValid hash_text) l.table
      → is_model (some approver) ≡ false
      → predecessor_of l r r.supersedes_revision_id ≡ accept predecessor
      → supersede hash_text predecessor copy approver now
          (record l { table = put_revision copy l.table })
        ≡ (
          accept copy,
          record l { table = replaced predecessor approver now (put_revision copy l.table) },
        )
  replaced-stored l r copy none approver now valid person bound = refl
  replaced-stored l r copy (some p) approver now valid person bound =
      let (found, was, one, item) = predecessor_of-some l r r.supersedes_revision_id p bound in
      superseded-stored p copy approver now (record l { table = put_revision copy l.table })
        (make_revision-superseded hash_text p approver now
          (All-get_revision (IsValid hash_text) p.revision_id l.table p valid found) was person)

  -- An approval of a valid ledger that its guards let pass is stored, with the superseded copy.
  pub approve-stores :
      (l : Ledger) (id : Uuid) (approver : Actor) (rules : ApprovalPolicy) (now : Instant)
      (r : KnowledgeRevision) (predecessor : Option KnowledgeRevision)
      → All (IsValid hash_text) l.table
      → approvable l id approver rules ≡ accept (r, predecessor)
      → approve hash_text l id approver rules now ≡ (
        accept (approved_copy r approver),
        record l {
          table =
              replaced predecessor approver now (put_revision (approved_copy r approver) l.table);
        },
      )
  unfolding approve approved_copy
  approve-stores l id approver rules now r predecessor valid h =
      let passes = approvable_lem l id approver rules r predecessor h in
      let copied =
        make_revision-approved hash_text r approver
          (All-get_revision (IsValid hash_text) id l.table r valid passes.found) passes.was_reviewed
          passes.not_model in
      rw h (
        rw copied (
          replaced-stored l r (approved_copy r approver) predecessor approver now valid
            passes.not_model passes.bound))

  approved_step :
      (l : Ledger) (r : KnowledgeRevision) (predecessor : Option KnowledgeRevision) (id : Uuid)
      (approver : Actor) (rules : ApprovalPolicy) (now : Instant)
      → Approvable l id approver rules r predecessor
      → Moves l.table
          (replaced predecessor approver now (put_revision (approved_copy r approver) l.table))
  unfolding approved_copy superseded_copy
  approved_step l r none id approver rules now passes =
      install_first r (approved_copy r approver)
        (record {
          found = refound id l.table r passes.found;
          same_item = refl;
          same_version = refl;
          same_content = (refl, refl);
          same_proposer = refl;
        })
        passes.was_reviewed refl (predecessor_of-none l r r.supersedes_revision_id passes.bound)
  approved_step l r (some p) id approver rules now passes =
      let (found, was, one, item) =
        predecessor_of-some l r r.supersedes_revision_id p passes.bound in
      install_next r (approved_copy r approver) p (superseded_copy p approver now)
        (record {
          found = refound id l.table r passes.found;
          same_item = refl;
          same_version = refl;
          same_content = (refl, refl);
          same_proposer = refl;
        })
        passes.was_reviewed refl one
        (record {
          found = found;
          same_item = refl;
          same_version = refl;
          same_content = (refl, refl);
          same_proposer = refl;
        })
        was refl item

  pub approve-Moves :
      (l : Ledger) (id : Uuid) (approver : Actor) (rules : ApprovalPolicy) (now : Instant)
      → All (IsValid hash_text) l.table
      → Moves l.table (approve hash_text l id approver rules now).1.table
  unfolding approve
  approve-Moves l id approver rules now valid = decided (approvable l id approver rules) refl
    where
      decided :
          (c : Checked (KnowledgeRevision × Option KnowledgeRevision))
          → approvable l id approver rules ≡ c
          → Moves l.table (approve hash_text l id approver rules now).1.table
      decided (refuse message) h = rw h keep
      decided (accept (r, predecessor)) h =
          rw (approve-stores l id approver rules now r predecessor valid h) (
            approved_step l r predecessor id approver rules now
              (approvable_lem l id approver rules r predecessor h))
