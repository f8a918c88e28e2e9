-- ===== src/Knowledge/Laws/Running.antt =====
-- What any sequence of calls on a ledger guarantees.
use context_vault.Prelude.{some, ◌≡◌, refl, true, false, Option, List, [], ◌∷◌, String, All}
use context_vault.Work.Rows.{Uuid, Instant}
use context_vault.Knowledge.Records.{Checked, accept, refuse, Actor, ApprovalPolicy}
use context_vault.Knowledge.Revision.{KnowledgeRevision, KnowledgeConflict}
use context_vault.Knowledge.Ledger.{get_revision, Ledger, new_ledger}
use context_vault.Knowledge.Lifecycle.{
  new_proposal, propose, add_proposal, reviewed_copy, review, stored,
}
use context_vault.Knowledge.Approval.{
  approvable, approve, revoke, expire, resolve_conflict, resolved_copy, stored_conflict,
}
use context_vault.Knowledge.Laws.Approving.{approve-stores}
use context_vault.Knowledge.Laws.Keeping.{IsSound, IsSound-IsValid}
use context_vault.Knowledge.Laws.Performing.{perform-Moves, perform-All}
use context_vault.Knowledge.Laws.Tracking.{Carries, Tracks, Tracks-refl, Tracks-trans}
use context_vault.Knowledge.Laws.Heads.{AtMostOne, Moves-AtMostOne, Moves-Tracks}
use context_vault.Knowledge.Runs.{
  Call, call_propose, call_review, call_approve, call_resolve, call_revoke, call_expire, is_refused,
  perform, run,
}

module _ (hash_text : String → String) where
  run_keeps :
      (calls : List Call) (l : Ledger)
      → All (IsSound hash_text) l.table
      → All (IsSound hash_text) (run hash_text l calls).table
  unfolding run
  run_keeps [] l sound = sound
  run_keeps (call ∷ rest) l sound =
      run_keeps rest (perform hash_text l call).1 (perform-All hash_text l call sound)

  run_heads :
      (calls : List Call) (l : Ledger)
      → All (IsSound hash_text) l.table
      → AtMostOne l.table
      → AtMostOne (run hash_text l calls).table
  unfolding run
  run_heads [] l sound one = one
  run_heads (call ∷ rest) l sound one =
      let next = (perform hash_text l call).1 in
      run_heads rest next (perform-All hash_text l call sound)
        (Moves-AtMostOne l.table next.table (perform-Moves hash_text l call sound) one)

  tracked_run :
      (calls : List Call) (l : Ledger)
      → All (IsSound hash_text) l.table
      → Tracks l.table (run hash_text l calls).table
  unfolding run
  tracked_run [] l sound = Tracks-refl l.table
  tracked_run (call ∷ rest) l sound =
      let next = (perform hash_text l call).1 in
      Tracks-trans l.table next.table (run hash_text next rest).table
        (Moves-Tracks l.table next.table (perform-Moves hash_text l call sound))
        (tracked_run rest next (perform-All hash_text l call sound))

-- In a ledger that any sequence of calls has built, each revision passes the checks of
-- `KnowledgeRevision`, and its reviewer, if it has one, is not its proposer.
pub run-IsSound :
    (hash_text : String → String) (calls : List Call)
    → All (IsSound hash_text) (run hash_text new_ledger calls).table
run-IsSound hash_text calls = run_keeps hash_text calls new_ledger tt

-- In a ledger that any sequence of calls has built, an item has at most one approved revision.
pub run-AtMostOne :
    (hash_text : String → String) (calls : List Call)
    → AtMostOne (run hash_text new_ledger calls).table
run-AtMostOne hash_text calls = run_heads hash_text calls new_ledger tt (λ item. refl)

-- Whatever calls follow the ones that built a ledger, each of its revisions is found later under the
-- same id: with the same item, version, content, hash and proposer, a status no earlier in the
-- lifecycle, and unchanged once it is superseded, revoked or expired.
pub run-Carries :
    (hash_text : String → String) (before after : List Call) (id : Uuid) (x : KnowledgeRevision)
    → get_revision id (run hash_text new_ledger before).table ≡ some x
    → (y : KnowledgeRevision) × (get_revision id
          (run hash_text (run hash_text new_ledger before) after).table
        ≡ some y)
      × Carries x y
run-Carries hash_text before after =
    tracked_run hash_text after (run hash_text new_ledger before) (run-IsSound hash_text before)

refused_stored :
    (c : Checked KnowledgeRevision) (l : Ledger)
    → is_refused (stored c l).0 ≡ true
    → (stored c l).1 ≡ l
refused_stored (refuse message) l h = refl
refused_stored (accept r) l h = cc

refused_approve :
    (hash_text : String → String) (l : Ledger) (id : Uuid) (approver : Actor)
    (rules : ApprovalPolicy) (now : Instant)
    → All (IsSound hash_text) l.table
    → (c : Checked (KnowledgeRevision × Option KnowledgeRevision))
    → approvable l id approver rules ≡ c
    → is_refused (approve hash_text l id approver rules now).0 ≡ true
    → (approve hash_text l id approver rules now).1 ≡ l
unfolding approve
refused_approve hash_text l id approver rules now sound (refuse message) e h = rw e refl
refused_approve hash_text l id approver rules now sound (accept (r, predecessor)) e h =
    let stores =
      approve-stores hash_text l id approver rules now r predecessor
        (IsSound-IsValid hash_text l.table sound) e in
    let absurd : false ≡ true = rw stores at h in cc

-- A refused call leaves a ledger of sound revisions as it was, also `approve`, which writes twice.
pub refused_unchanged :
    (hash_text : String → String) (l : Ledger) (call : Call)
    → All (IsSound hash_text) l.table
    → (perform hash_text l call).0 ≡ true
    → (perform hash_text l call).1 ≡ l
unfolding perform propose review revoke expire resolve_conflict
refused_unchanged hash_text l (call_propose args id fresh now) sound h =
    proposal (new_proposal hash_text l args id now) h
  where
    proposal :
        (c : Checked KnowledgeRevision)
        → is_refused (add_proposal hash_text fresh now c l).0 ≡ true
        → (add_proposal hash_text fresh now c l).1 ≡ l
    proposal (refuse message) k = refl
    proposal (accept r) k = cc
refused_unchanged hash_text l (call_review id reviewer) sound h =
    refused_stored (reviewed_copy hash_text l id reviewer) l h
refused_unchanged hash_text l (call_approve id approver rules now) sound h =
    refused_approve hash_text l id approver rules now sound (approvable l id approver rules) refl h
refused_unchanged hash_text l (call_resolve conflict_id resolution_id resolver rules now) sound h =
    conflict (resolved_copy l conflict_id resolution_id resolver rules now) h
  where
    conflict :
        (c : Checked KnowledgeConflict)
        → is_refused (stored_conflict c l).0 ≡ true
        → (stored_conflict c l).1 ≡ l
    conflict (refuse message) k = refl
    conflict (accept r) k = cc
refused_unchanged hash_text l (call_revoke id actor rules now) sound h = refused_stored _ l h
refused_unchanged hash_text l (call_expire id actor rules now) sound h = refused_stored _ l h
