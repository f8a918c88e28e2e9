-- ===== src/Work/Laws/Closing.antt =====
-- What a work item that `close` has completed rests on, and what the close leaves.
use mathlib.Core.List.{Memᴰ}
use mathlib.Core.Path.{subst}
use context_vault.Prelude.{◌+◌, ◌≡◌, ◌∙◌, String, Option, some, All, find, ◌==◌}
use context_vault.Json.{Fields}
use context_vault.Domain.WorkGraph.{verifying}
use context_vault.Work.Rows.{Uuid, WorkItem, WorkAttempt, WorkClaim, WorkApproval, WorkReceipt}
use context_vault.Work.Session.{Env, Session, ok, Action, ◌>>=◌, new_uuid}
use context_vault.Work.Close.{CloseRequest, close_new}
use context_vault.Work.Rules.Reads.{
  reads_rules, Reads-done, raise_if-returned, require-returned, gets-returned, ticked,
  read_clock-done, then_pure-done,
}
use context_vault.Work.Laws.Approving.{Covers, approvals_complete_iff}
use context_vault.Work.Laws.Completing.{IsCompletion, complete-left}
use context_vault.Work.Laws.Evidence.{
  IsVerification, IsApplication, IsCurrent, IsTerminal, verifies-IsVerification,
  applies-IsApplication, receipt_row-found, claim_row-found, assert_current_claim-IsCurrent,
  assert_approvals-returned, Reads-assert_current_claim, Reads-assert_approvals, is_verifying,
  close_receipt_row-IsTerminal,
}

-- What a close rests on in the session `s`, its receipt, and what it leaves in `after`.
pub record IsClosing (env : Env) (item : WorkItem) (attempt : WorkAttempt)
    (verified_row : Option WorkReceipt) (args : CloseRequest) (s : Session) (receipt : WorkReceipt)
    (after : Session) : Type 0 where
  pub was_verifying : item.status ≡ verifying
  pub verified : WorkReceipt
  pub presented : verified_row ≡ some verified
  pub verification : IsVerification item attempt args.after_revision verified
  pub apply_id : Uuid
  pub applied : WorkReceipt
  pub parent : verified.parent_receipt_id ≡ some apply_id
  pub loaded : find (λ (r : WorkReceipt). r.id == apply_id) s.working.receipts ≡ some applied
  pub application : IsApplication item attempt verified applied
  pub claim_id : Uuid
  pub claim : WorkClaim
  pub leased : applied.claim_id ≡ some claim_id
  pub held : find (λ (c : WorkClaim). c.id == claim_id) s.working.claims ≡ some claim
  pub current : IsCurrent item attempt claim (env.clock s.readings)
  pub approved :
      All
        (λ required.
          (row : WorkApproval) × Memᴰ row s.working.approvals
          × Covers item claim (env.clock s.readings) required row)
        item.required_approvals
  pub terminal : IsTerminal item attempt verified args.after_revision receipt
  pub completion :
      IsCompletion item attempt claim receipt (env.clock s.readings) s.working after.committed

new_uuid-done :
    {B : Type 0} (env : Env) (f : Uuid → Action B) (s : Session) (b : B) (t : Session)
    → (new_uuid env >>= f) s ≡ (ok b, t)
    → f (env.new_id s.drawn) (record s { drawn = s.drawn + 1 }) ≡ (ok b, t)
unfolding new_uuid ◌>>=◌
new_uuid-done env f s b t h = h

-- A close whose idempotency key is new returns a receipt only for an item that is VERIFYING, on a
-- presented receipt that is the verification of the item's attempt at the requested revision, with
-- exit status 0 and evidence; its parent is the apply receipt of the attempt, with exit status 0 and
-- at the verified revision; the claim of that receipt is the item's and the attempt's, active,
-- unexpired, and the one that the item's active attempt and token name; and each required approval has
-- a row that covers it. The returned receipt is the terminal close receipt of the attempt, with the
-- verification as its parent, its evidence and the revision. In the committed database that receipt is
-- added, the attempt and the item are COMPLETED, the item has no active token, and the claim is released.
pub close_new-IsClosing :
    (env : Env) (item : WorkItem) (attempt : WorkAttempt) (verified_row : Option WorkReceipt)
    (args : CloseRequest) (binding : Fields) (hash : String) (s : Session) (receipt : WorkReceipt)
    (after : Session)
    → close_new env item attempt verified_row args binding hash s ≡ (ok receipt, after)
    → IsClosing env item attempt verified_row args s receipt after
unfolding close_new
close_new-IsClosing env item attempt verified_row args binding hash s receipt after h =
    let (u1, e1, h1) = Reads-done _ _ s receipt after (search reads_rules) h in
    let (verified, e2, h2) = Reads-done _ _ s receipt after (search reads_rules) h1 in
    let (u3, e3, h3) = Reads-done _ _ s receipt after (search reads_rules) h2 in
    let (row, e4, h4) = Reads-done _ _ s receipt after (search reads_rules) h3 in
    let (applied, e5, h5) = Reads-done _ _ s receipt after (search reads_rules) h4 in
    let (u6, e6, h6) = Reads-done _ _ s receipt after (search reads_rules) h5 in
    let h7 = read_clock-done env _ s receipt after h6 in
    let (found, e8, h8) = Reads-done _ _ (ticked s) receipt after (search reads_rules) h7 in
    let (claim, e9, h9) =
      Reads-done _ _ (ticked s) receipt after (Reads-assert_current_claim _ _ _ _) h8 in
    let (u10, e10, h10) =
      Reads-done _ _ (ticked s) receipt after (Reads-assert_approvals _ _ _) h9 in
    let h11 = new_uuid-done env _ (ticked s) receipt after h10 in
    let (same, left) = then_pure-done _ _ receipt _ after h11 in
    let status = is_verifying item.status (raise_if-returned _ _ s e1) in
    let looked_up = gets-returned _ s row e4 ∙ require-returned _ _ s applied e5 in
    let (is_claim, current) = assert_current_claim-IsCurrent _ _ found _ claim (ticked s) e9 in
    let (apply_id, parent, loaded) = receipt_row-found _ s.working.receipts applied looked_up in
    let (claim_id, leased, held) =
      claim_row-found _ s.working.claims claim (gets-returned _ (ticked s) found e8 ∙ is_claim) in
    record {
      was_verifying = status;
      verified = verified;
      presented = require-returned _ _ s verified e2;
      verification = verifies-IsVerification _ _ _ _ (raise_if-returned _ _ s e3);
      apply_id = apply_id;
      applied = applied;
      parent = parent;
      loaded = loaded;
      application = applies-IsApplication _ _ _ _ (raise_if-returned _ _ s e6);
      claim_id = claim_id;
      claim = claim;
      leased = leased;
      held = held;
      current = current;
      approved =
          (approvals_complete_iff item claim _ _).0
            (assert_approvals-returned _ _ _ (ticked s) e10);
      terminal =
          subst (IsTerminal item attempt verified args.after_revision) same
            (close_receipt_row-IsTerminal env _ item attempt verified args binding hash _);
      completion =
          complete-left env item attempt claim _ receipt args.signer_id _ _ after status same left;
    }
