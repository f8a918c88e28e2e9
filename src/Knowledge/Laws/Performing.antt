-- ===== src/Knowledge/Laws/Performing.antt =====
-- A call on the ledger as a step of the lifecycle of its revisions, and what a run of calls keeps.
use context_vault.Prelude.{◌≡◌, refl, String, All}
use context_vault.Knowledge.Records.{Checked, accept, refuse, revoked, expired}
use context_vault.Knowledge.Revision.{KnowledgeConflict}
use context_vault.Knowledge.Ledger.{Ledger}
use context_vault.Knowledge.Approval.{revoke, expire, resolve_conflict, resolved_copy}
use context_vault.Knowledge.Laws.Steps.{Moves, keep, propose-Moves, review-Moves, finish-Moves}
use context_vault.Knowledge.Laws.Approving.{approve-Moves}
use context_vault.Knowledge.Runs.{
  Call, call_propose, call_review, call_approve, call_resolve, call_revoke, call_expire, perform,
}
use context_vault.Knowledge.Laws.Keeping.{
  IsSound, IsSound-IsValid, review-All, finish-All, propose-All, approve-All,
}
use context_vault.Knowledge.Approval.{stored_conflict}

module _ (hash_text : String → String) where
  resolve-same :
      (c : Checked KnowledgeConflict) (l : Ledger) → (stored_conflict c l).1.table ≡ l.table
  resolve-same (refuse message) l = refl
  resolve-same (accept c) l = refl

  -- Each call on a ledger of sound revisions, refused or not, makes one step of the lifecycle on its
  -- table: nothing, a new proposal under an unused id, a review of a proposed revision, an approval of a
  -- reviewed revision whose item has no approved one, an approval that in the same step supersedes the
  -- item's one approved revision, or the end of an approved revision.
  pub perform-Moves :
      (l : Ledger) (call : Call)
      → All (IsSound hash_text) l.table
      → Moves l.table (perform hash_text l call).1.table
  unfolding perform resolve_conflict revoke expire
  perform-Moves l (call_propose args id fresh now) sound =
      propose-Moves hash_text l args id fresh now
  perform-Moves l (call_review id reviewer) sound = review-Moves hash_text l id reviewer
  perform-Moves l (call_approve id approver rules now) sound =
      approve-Moves hash_text l id approver rules now (IsSound-IsValid hash_text l.table sound)
  perform-Moves l (call_resolve conflict_id resolution_id resolver rules now) sound =
      rw (resolve-same (resolved_copy l conflict_id resolution_id resolver rules now) l) keep
  perform-Moves l (call_revoke id actor rules now) sound =
      finish-Moves hash_text l id actor rules revoked now refl
  perform-Moves l (call_expire id actor rules now) sound =
      finish-Moves hash_text l id actor rules expired now refl

  pub perform-All :
      (l : Ledger) (call : Call)
      → All (IsSound hash_text) l.table
      → All (IsSound hash_text) (perform hash_text l call).1.table
  unfolding perform resolve_conflict revoke expire
  perform-All l (call_propose args id fresh now) sound =
      propose-All hash_text l args id fresh now sound
  perform-All l (call_review id reviewer) sound = review-All hash_text l id reviewer sound
  perform-All l (call_approve id approver rules now) sound =
      approve-All hash_text l id approver rules now sound
  perform-All l (call_resolve conflict_id resolution_id resolver rules now) sound =
      rw (resolve-same (resolved_copy l conflict_id resolution_id resolver rules now) l) sound
  perform-All l (call_revoke id actor rules now) sound =
      finish-All hash_text l id actor rules revoked now sound
  perform-All l (call_expire id actor rules now) sound =
      finish-All hash_text l id actor rules expired now sound
