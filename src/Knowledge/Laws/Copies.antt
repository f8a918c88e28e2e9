-- ===== src/Knowledge/Laws/Copies.antt =====
-- The copies that an approval stores pass the checks of the constructor, when what they copy does.
use context_vault.Prelude.{◌≡◌, refl, Bool, false, not, ◌||◌, some, arith, String, is_some}
use context_vault.Work.Rows.{Instant}
use context_vault.Knowledge.Records.{accept, reviewed, approved, superseded, Actor}
use context_vault.Knowledge.Revision.{
  KnowledgeRevision, is_model, make_revision, check_content, check_authority,
}
use context_vault.Knowledge.Laws.Checks.{accepted, passed, is_passed, is_accepted, not_refused}

unfoldable pub superseded_copy : KnowledgeRevision → Actor → Instant → KnowledgeRevision
superseded_copy p approver now = record p {
  status = superseded;
  terminal_by = some approver;
  terminal_at = some now;
}

-- An approved revision has a reviewer and an approver, neither of them a model.
pub stands :
    (p : KnowledgeRevision)
    → check_authority p ≡ accept tt
    → p.status ≡ approved
    → ((not (is_some p.reviewed_by) || not (is_some p.approved_by)) ≡ false)
      × ((is_model p.reviewed_by || is_model p.approved_by) ≡ false)
unfolding check_authority
stands p h was =
    let (a, h1) = passed _ _ _ tt h in
    let (b, h2) = passed _ _ _ tt h1 in
    let (both, h3) = passed _ _ _ tt h2 in
    let (d, h4) = passed _ _ _ tt h3 in
    let (e, h5) = passed _ _ _ tt h4 in
    let (people, h6) = passed _ _ _ tt h5 in (rw was at both, people)

authority-superseded :
    (p : KnowledgeRevision) (approver : Actor) (now : Instant)
    → check_authority p ≡ accept tt
    → p.status ≡ approved
    → is_model (some approver) ≡ false
    → check_authority (superseded_copy p approver now) ≡ accept tt
unfolding check_authority superseded_copy
authority-superseded p approver now h was person =
    let (both, people) = stands p h was in
    is_passed _ _ _ tt refl (
      is_passed _ _ _ tt refl (
        is_passed _ _ _ tt both (
          is_passed _ _ _ tt refl
            (is_passed _ _ _ tt refl (is_passed _ _ _ tt people (not_refused _ _ person))))))

pub make_revision-superseded :
    (hash_text : String → String) (p : KnowledgeRevision) (approver : Actor) (now : Instant)
    → make_revision hash_text p ≡ accept p
    → p.status ≡ approved
    → is_model (some approver) ≡ false
    → make_revision hash_text (superseded_copy p approver now)
      ≡ accept (superseded_copy p approver now)
unfolding make_revision check_content superseded_copy
make_revision-superseded hash_text p approver now h was person =
    let (u, e1, h1) = accepted _ _ p h in
    let (v, e2, h2) = accepted _ _ p h1 in
    is_accepted _ _ tt _ e1
      (is_accepted _ _ tt _ (authority-superseded p approver now e2 was person) refl)

-- The copy that an approval stores.
unfoldable pub approved_copy : KnowledgeRevision → Actor → KnowledgeRevision
approved_copy r approver = record r { status = approved; approved_by = some approver }

authority-approved :
    (r : KnowledgeRevision) (approver : Actor)
    → check_authority r ≡ accept tt
    → r.status ≡ reviewed
    → is_model (some approver) ≡ false
    → check_authority (approved_copy r approver) ≡ accept tt
unfolding check_authority approved_copy
authority-approved r approver h was person =
    let (a, h1) = passed _ _ _ tt h in
    let (reviewer, h2) = passed _ _ _ tt h1 in
    let (c, h3) = passed _ _ _ tt h2 in
    let (d, h4) = passed _ _ _ tt h3 in
    let (audit, h5) = passed _ _ _ tt h4 in
    let (people, h6) = passed _ _ _ tt h5 in
    let has = first_part _ _ (rw was at reviewer) in
    is_passed _ _ _ tt refl (
      is_passed _ _ _ tt refl (
        is_passed _ _ _ tt (both_parts _ _ has refl) (
          is_passed _ _ _ tt refl (
            is_passed _ _ _ tt (rw was at audit)
              (is_passed _ _ _ tt (both_parts _ _ (first_part _ _ people) person) h6)))))
  where
    first_part : (a b : Bool) → (a || b) ≡ false → a ≡ false
    first_part a b k = ground arith

    both_parts : (a b : Bool) → a ≡ false → b ≡ false → (a || b) ≡ false
    both_parts a b k m = ground arith

pub make_revision-approved :
    (hash_text : String → String) (r : KnowledgeRevision) (approver : Actor)
    → make_revision hash_text r ≡ accept r
    → r.status ≡ reviewed
    → is_model (some approver) ≡ false
    → make_revision hash_text (approved_copy r approver) ≡ accept (approved_copy r approver)
unfolding make_revision check_content approved_copy
make_revision-approved hash_text r approver h was person =
    let (u, e1, h1) = accepted _ _ r h in
    let (v, e2, h2) = accepted _ _ r h1 in
    is_accepted _ _ tt _ e1
      (is_accepted _ _ tt _ (authority-approved r approver e2 was person) refl)
