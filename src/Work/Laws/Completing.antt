-- ===== src/Work/Laws/Completing.antt =====
-- What `complete`, the end of a close, leaves in the database.
use mathlib.Core.Path.{subst}
use context_vault.Prelude.{
  ◌+◌, ◌≡◌, refl, ap, true, none, some, String, List, [], ◌∷◌, ◌++◌, ◌==◌, if◌then◌else◌,
  Bool-cases, inl, inr, arith,
}
use context_vault.Domain.WorkGraph.{
  verifying, completed, admit, validate_transition, allowed_transition, status_eq, released,
}
use context_vault.Work.Rows.{
  Instant, Db, WorkItem, WorkAttempt, WorkClaim, WorkReceipt, store_item, store_attempt,
  store_claim,
}
use context_vault.Work.Session.{
  Env, Session, ◌>>=◌, pure, check, commit, read_clock, add_receipt, add_event, save_item,
  save_attempt, save_claim,
}
use context_vault.Work.Events.{transition, append_event}
use context_vault.Work.Close.{complete}

-- Of two writes of one row, the later stays.
pub store_item-again :
    (row old : WorkItem) (items : List WorkItem)
    → old.id ≡ row.id
    → store_item row (store_item old items) ≡ store_item row items
store_item-again row old [] same = refl
store_item-again row old (r ∷ rest) same =
    let later = store_item-again row old rest same in
    elim (Bool-cases (r.id == old.id)) [
      | inl here ↦
          let kept : (old.id == row.id) ≡ true = ground arith in
          let found : (r.id == row.id) ≡ true = ground arith in
          rw here (rw kept (rw found (ap (λ xs. row ∷ xs) later)))
      | inr there ↦ rw there (ap (λ xs. (if r.id == row.id then row else r) ∷ xs) later)
    ]

-- The receipt is added; the attempt and the item are completed, the item has no active token, and the
-- lease is released.
pub record IsCompletion (item : WorkItem) (attempt : WorkAttempt) (claim : WorkClaim)
    (receipt : WorkReceipt) (now : Instant) (before after : Db) : Type 0 where
  pub receipts : after.receipts ≡ before.receipts ++ receipt ∷ []
  pub attempts :
      after.attempts
      ≡ store_attempt
          (record attempt {
            status = completed;
            finished_at = some now;
            terminal_reason = some "acceptance_verified";
          })
          before.attempts
  pub claims :
      after.claims
      ≡ store_claim
          (record claim {
            status = released;
            released_reason = some "work_completed";
            released_at = some now;
          })
          before.claims
  pub row : WorkItem
  pub items : after.items ≡ store_item row before.items
  pub same_item : row.id ≡ item.id
  pub is_completed : row.status ≡ completed
  pub no_token : row.active_fencing_token ≡ none
  pub approvals : after.approvals ≡ before.approvals

completes : validate_transition verifying completed true true ≡ admit
unfolding validate_transition allowed_transition status_eq
completes = refl

complete-committed :
    (env : Env) (item : WorkItem) (attempt : WorkAttempt) (claim : WorkClaim)
    (receipt : WorkReceipt) (actor_id : String) (now : Instant) (s : Session)
    → item.status ≡ verifying
    → IsCompletion item attempt claim receipt now s.working
        (complete env item attempt claim receipt actor_id now s).1.committed
unfolding complete ◌>>=◌ add_receipt check save_attempt save_claim transition append_event
    read_clock save_item add_event commit pure
complete-committed env item attempt claim receipt actor_id now s status = rw completes (
    rw status (
      rw completes (record {
        receipts = refl;
        attempts = refl;
        claims = refl;
        row = record item {
          status = completed;
          revision = item.revision + 1;
          active_fencing_token = none;
          updated_at = env.clock (s.readings + 1);
        };
        items = store_item-again _ _ s.working.items refl;
        same_item = refl;
        is_completed = refl;
        no_token = refl;
        approvals = refl;
      })))

-- The same, of the session that the completion is known to leave.
pub complete-left :
    (env : Env) (item : WorkItem) (attempt : WorkAttempt) (claim : WorkClaim)
    (row receipt : WorkReceipt) (actor_id : String) (now : Instant) (s after : Session)
    → item.status ≡ verifying
    → row ≡ receipt
    → (complete env item attempt claim row actor_id now s).1 ≡ after
    → IsCompletion item attempt claim receipt now s.working after.committed
complete-left env item attempt claim row receipt actor_id now s after status same left =
    subst (λ r. IsCompletion item attempt claim r now s.working after.committed) same
      (subst (λ (t : Session). IsCompletion item attempt claim row now s.working t.committed) left
        (complete-committed env item attempt claim row actor_id now s status))
