-- ===== src/Knowledge/Laws/Publishing.antt =====
-- What an approval needs, and what it gives.
use context_vault.Prelude.{
  ◌≡◌, refl, Bool, true, false, not, ◌||◌, Option, some, arith, String, All,
}
use context_vault.Work.Rows.{Uuid, Instant}
use context_vault.Knowledge.Records.{
  Checked, accept, require, ◌>>=◌, KnowledgeStatus, reviewed, kind_eq, human, policy, permits,
  status_eq, Actor, ApprovalPolicy,
}
use context_vault.Knowledge.Revision.{KnowledgeRevision, is_model}
use context_vault.Knowledge.Ledger.{Ledger, put_revision}
use context_vault.Knowledge.Lifecycle.{require_authority_kind}
use context_vault.Knowledge.Approval.{approvable, approve}
use context_vault.Knowledge.Laws.Checks.{is_passed, is_accepted, not_refused}
use context_vault.Knowledge.Laws.Copies.{approved_copy}
use context_vault.Knowledge.Laws.Approving.{Approvable, approve-stores, replaced}
use context_vault.Knowledge.Laws.Keeping.{IsSound, IsSound-IsValid}

is_required :
    {A B : Type 0} (value : Option A) (message : String) (rest : A → Checked B) (a : A) (b : B)
    → value ≡ some a
    → rest a ≡ accept b
    → (require value message >>= rest) ≡ accept b
unfolding require ◌>>=◌
is_required value message rest a b h k = rw h k

-- The guards let pass what meets them.
Approvable-approvable :
    (l : Ledger) (id : Uuid) (approver : Actor) (rules : ApprovalPolicy) (r : KnowledgeRevision)
    (predecessor : Option KnowledgeRevision)
    → Approvable l id approver rules r predecessor
    → approvable l id approver rules ≡ accept (r, predecessor)
unfolding approvable require_authority_kind
Approvable-approvable l id approver rules r predecessor passes =
    is_required _ _ _ r _ passes.found (
      is_passed _ _ _ _ (not_other r.status reviewed passes.was_reviewed) (
        is_accepted _ _ tt _ (not_refused _ _ (authority approver passes.not_model)) (
          is_passed _ _ _ _ (allowed (permits rules approver) passes.permitted) (
            is_passed _ _ _ _ passes.independent (
              is_passed _ _ _ _ passes.no_conflict
                (is_accepted _ _ predecessor _ passes.bound refl))))))
  where
    not_other : (s was : KnowledgeStatus) → s ≡ was → not (status_eq s was) ≡ false
    not_other s was k = rw k (same was)
      where
        same : (t : KnowledgeStatus) → not (status_eq t t) ≡ false
        same t = ground arith

    authority :
        (actor : Actor)
        → is_model (some actor) ≡ false
        → (not (kind_eq actor.kind human || kind_eq actor.kind policy)) ≡ false
    authority actor k = ground arith

    allowed : (b : Bool) → b ≡ true → not b ≡ false
    allowed b k = rw k refl

-- On a ledger of sound revisions, a reviewed revision becomes approved when the approver is not a model
-- and the policy permits it, is independent if the policy requires it, no conflict of the revision is
-- open and the revision is bound to the item's approved one: `approve` answers the approved copy and
-- stores it, with the approved revision of before, if any, superseded.
pub Approvable-approve :
    (hash_text : String → String) (l : Ledger) (id : Uuid) (approver : Actor)
    (rules : ApprovalPolicy) (now : Instant) (r : KnowledgeRevision)
    (predecessor : Option KnowledgeRevision)
    → All (IsSound hash_text) l.table
    → Approvable l id approver rules r predecessor
    → approve hash_text l id approver rules now ≡ (
      accept (approved_copy r approver),
      record l {
        table = replaced predecessor approver now (put_revision (approved_copy r approver) l.table);
      },
    )
Approvable-approve hash_text l id approver rules now r predecessor sound passes =
    approve-stores hash_text l id approver rules now r predecessor
      (IsSound-IsValid hash_text l.table sound)
      (Approvable-approvable l id approver rules r predecessor passes)
