-- ===== src/Knowledge/Runs.antt =====
-- context_vault/knowledge.py: calls on a `KnowledgeLedger`, one after the other. Its lock orders the
-- calls but `review`, which does not take it; that a review does not overlap another call is left to the
-- callers.
use context_vault.Prelude.{ℕ, Bool, true, false, List, [], ◌∷◌, String}
use context_vault.Work.Rows.{Uuid, Instant}
use context_vault.Knowledge.Records.{Checked, accept, refuse, Actor, ApprovalPolicy}
use context_vault.Knowledge.Ledger.{Ledger}
use context_vault.Knowledge.Lifecycle.{Proposal, propose, review}
use context_vault.Knowledge.Approval.{approve, revoke, expire, resolve_conflict}

pub data Call : Type 0 where
  call_propose : Proposal → (revision_id : Uuid) (fresh : ℕ → Uuid) (now : Instant) → Call
  call_review : Uuid → (reviewer : Actor) → Call
  call_approve : Uuid → (approver : Actor) → ApprovalPolicy → (now : Instant) → Call
  call_resolve :
      (conflict_id resolution_id : Uuid)
      → (resolver : Actor) → ApprovalPolicy
      → (now : Instant) → Call
  call_revoke : Uuid → Actor → ApprovalPolicy → (now : Instant) → Call
  call_expire : Uuid → Actor → ApprovalPolicy → (now : Instant) → Call

abbrev pub is_refused {ℓ} : {A : Type ℓ} → Checked A → Bool
is_refused (accept a) = false
is_refused (refuse message) = true

module _ (hash_text : String → String) where
  -- Whether the call was refused, and the ledger that it leaves.
  unfoldable pub perform : Ledger → Call → Bool × Ledger
  unfolding propose review approve resolve_conflict revoke expire
  perform l (call_propose args id fresh now) =
      let (answer, l') = propose hash_text l args id fresh now in (is_refused answer, l')
  perform l (call_review id reviewer) =
      let (answer, l') = review hash_text l id reviewer in (is_refused answer, l')
  perform l (call_approve id approver rules now) =
      let (answer, l') = approve hash_text l id approver rules now in (is_refused answer, l')
  perform l (call_resolve conflict_id resolution_id resolver rules now) =
      let (answer, l') = resolve_conflict l conflict_id resolution_id resolver rules now in
      (is_refused answer, l')
  perform l (call_revoke id actor rules now) =
      let (answer, l') = revoke hash_text l id actor rules now in (is_refused answer, l')
  perform l (call_expire id actor rules now) =
      let (answer, l') = expire hash_text l id actor rules now in (is_refused answer, l')

  unfoldable pub run : Ledger → List Call → Ledger
  unfolding perform
  run l [] = l
  run l (call ∷ rest) = run (perform l call).1 rest
