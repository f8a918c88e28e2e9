-- ===== src/Work/Laws/Evidence.antt =====
-- What `close` asks of the receipts, the claim and the approvals, in terms of their fields.
use mathlib.Core.Path.{subst}
use context_vault.Prelude.{
  ◌<◌, ◌≡◌, ◌≢◌, refl, ap, ◌∙◌, String, true, false, not, Option, none, some, List, [], ◌∷◌, find,
  is_empty, arith, ◌==◌, eq_iff,
}
use context_vault.Json.{Fields}
use context_vault.Domain.WorkGraph.{WorkStatus, verifying, status_eq, active, claim_is_active}
use context_vault.Work.Rows.{
  Uuid, Instant, WorkItem, WorkAttempt, WorkClaim, WorkReceipt, ReceiptType, verify_receipt,
  apply_receipt, close_receipt,
}
use context_vault.Work.Session.{Env, Session, ok, pure, raise}
use context_vault.Work.Authority.{
  lacks_current_claim, assert_current_claim, assert_approvals, approvals_complete,
}
use context_vault.Work.Close.{
  CloseRequest, verifies, applies, receipt_row, close_receipt_row, complete,
}
use context_vault.Work.Apply.Begin.{is_apply}
use context_vault.Work.Verify.{is_verify, claim_row}
use context_vault.Work.Rules.Reads.{
  Reads, reads_rules, Reads-returned, raise_if-returned, gets-returned, ok-inj,
}

-- The successful verification, with evidence, of the item's attempt at the revision.
pub record IsVerification (item : WorkItem) (attempt : WorkAttempt) (after_revision : String)
    (r : WorkReceipt) : Type 0 where
  pub same_item : r.work_item_id ≡ item.id
  pub same_attempt : r.attempt_id ≡ attempt.id
  pub kind : r.receipt_type ≡ verify_receipt
  pub succeeded : r.exit_status ≡ 0
  pub evidenced : r.acceptance_evidence ≢ []
  pub same_revision : r.after_revision ≡ after_revision

-- The successful apply of the item's attempt, at the revision that was verified.
pub record IsApplication (item : WorkItem) (attempt : WorkAttempt) (verified r : WorkReceipt)
    : Type 0 where
  pub same_item : r.work_item_id ≡ item.id
  pub same_attempt : r.attempt_id ≡ attempt.id
  pub kind : r.receipt_type ≡ apply_receipt
  pub succeeded : r.exit_status ≡ 0
  pub same_revision : r.after_revision ≡ verified.after_revision

-- The lease is the item's and the attempt's, active and unexpired, and its token is the item's.
pub record IsCurrent (item : WorkItem) (attempt : WorkAttempt) (claim : WorkClaim) (now : Instant)
    : Type 0 where
  pub same_item : claim.work_item_id ≡ item.id
  pub same_attempt : claim.attempt_id ≡ attempt.id
  pub is_active : claim.status ≡ active
  pub unexpired : now < claim.expires_at
  pub current_attempt : item.active_attempt_id ≡ some attempt.id
  pub current_token : item.active_fencing_token ≡ some claim.fencing_token

-- The terminal receipt of the item's attempt, on the verification.
pub record IsTerminal (item : WorkItem) (attempt : WorkAttempt) (verified : WorkReceipt)
    (after_revision : String) (r : WorkReceipt) : Type 0 where
  pub is_terminal : r.is_terminal ≡ true
  pub kind : r.receipt_type ≡ close_receipt
  pub same_item : r.work_item_id ≡ item.id
  pub same_attempt : r.attempt_id ≡ attempt.id
  pub verified_by : r.parent_receipt_id ≡ some verified.id
  pub same_evidence : r.acceptance_evidence ≡ verified.acceptance_evidence
  pub same_revision : r.after_revision ≡ after_revision

pub verifies-IsVerification :
    (item : WorkItem) (attempt : WorkAttempt) (after_revision : String) (r : WorkReceipt)
    → not (verifies item attempt after_revision r) ≡ false
    → IsVerification item attempt after_revision r
unfolding verifies
verifies-IsVerification item attempt after r h = record {
  same_item = ground arith;
  same_attempt = ground arith;
  kind = verify_kind r.receipt_type (ground arith);
  succeeded = ground arith;
  evidenced = nonempty r.acceptance_evidence (ground arith);
  same_revision = ground (arith, eq_iff r.after_revision after);
}
  where
    verify_kind : (t : ReceiptType) → is_verify t ≡ true → t ≡ verify_receipt
    verify_kind t k = ground arith

    nonempty : (xs : List String) → is_empty xs ≡ false → xs ≢ []
    nonempty [] k e = cc
    nonempty (x ∷ xs) k e = cc

pub applies-IsApplication :
    (item : WorkItem) (attempt : WorkAttempt) (verified r : WorkReceipt)
    → not (applies item attempt verified r) ≡ false
    → IsApplication item attempt verified r
unfolding applies
applies-IsApplication item attempt verified r h = record {
  same_item = ground arith;
  same_attempt = ground arith;
  kind = apply_kind r.receipt_type (ground arith);
  succeeded = ground arith;
  same_revision = ground (arith, eq_iff r.after_revision verified.after_revision);
}
  where
    apply_kind : (t : ReceiptType) → is_apply t ≡ true → t ≡ apply_receipt
    apply_kind t k = ground arith

lacks_none-IsCurrent :
    (item : WorkItem) (attempt : WorkAttempt) (claim : WorkClaim) (now : Instant)
    → lacks_current_claim item attempt (some claim) now none ≡ false
    → IsCurrent item attempt claim now
unfolding lacks_current_claim claim_is_active
lacks_none-IsCurrent item attempt claim now h = record {
  same_item = ground arith;
  same_attempt = ground arith;
  is_active = ground arith;
  unexpired = ground arith;
  current_attempt = ground arith;
  current_token = ground arith;
}

pub receipt_row-found :
    (parent : Option Uuid) (receipts : List WorkReceipt) (row : WorkReceipt)
    → receipt_row parent receipts ≡ some row
    → (id : Uuid) × (parent ≡ some id)
      × (find (λ (r : WorkReceipt). r.id == id) receipts ≡ some row)
receipt_row-found none receipts row h = cc
receipt_row-found (some id) receipts row h = (id, refl, h)

pub claim_row-found :
    (id : Option Uuid) (claims : List WorkClaim) (row : WorkClaim)
    → claim_row id claims ≡ some row
    → (claim_id : Uuid) × (id ≡ some claim_id)
      × (find (λ (c : WorkClaim). c.id == claim_id) claims ≡ some row)
claim_row-found none claims row h = cc
claim_row-found (some id) claims row h = (id, refl, h)

pub assert_current_claim-IsCurrent :
    (item : WorkItem) (attempt : WorkAttempt) (row : Option WorkClaim) (now : Instant)
    (claim : WorkClaim) (s : Session)
    → (assert_current_claim item attempt row now none s).0 ≡ ok claim
    → (row ≡ some claim) × IsCurrent item attempt claim now
unfolding assert_current_claim raise pure
assert_current_claim-IsCurrent item attempt none now claim s h = cc
assert_current_claim-IsCurrent item attempt (some c) now claim s h =
    let (u, passed, returned) = Reads-returned _ _ s claim (search reads_rules) h in
    let same : c ≡ claim = ok-inj c claim returned in
    (
      ap some same,
      subst (λ x. IsCurrent item attempt x now) same
          (lacks_none-IsCurrent item attempt c now (raise_if-returned _ _ s passed)),
    )

pub assert_approvals-returned :
    (item : WorkItem) (claim : WorkClaim) (now : Instant) (s : Session)
    → (assert_approvals item claim now s).0 ≡ ok tt
    → approvals_complete item claim now s.working.approvals ≡ true
unfolding assert_approvals
assert_approvals-returned item claim now s h =
    let (complete, found, passed) = Reads-returned _ _ s tt (search reads_rules) h in
    let not_incomplete = raise_if-returned _ _ s passed in
    gets-returned _ s complete found ∙ ground arith

pub Reads-assert_current_claim :
    (item : WorkItem) (attempt : WorkAttempt) (row : Option WorkClaim) (now : Instant)
    → Reads (assert_current_claim item attempt row now none)
unfolding assert_current_claim raise
Reads-assert_current_claim item attempt none now = record { at = λ s. refl }
Reads-assert_current_claim item attempt (some c) now = search reads_rules

pub Reads-assert_approvals :
    (item : WorkItem) (claim : WorkClaim) (now : Instant) → Reads (assert_approvals item claim now)
unfolding assert_approvals
Reads-assert_approvals item claim now = search reads_rules

pub is_verifying :
    (status : WorkStatus) → not (status_eq status verifying) ≡ false → status ≡ verifying
unfolding status_eq
is_verifying status h = ground arith

pub close_receipt_row-IsTerminal :
    (env : Env) (id : Uuid) (item : WorkItem) (attempt : WorkAttempt) (verified : WorkReceipt)
    (args : CloseRequest) (binding : Fields) (hash : String) (now : Instant)
    → IsTerminal item attempt verified args.after_revision
        (close_receipt_row env id item attempt verified args binding hash now)
unfolding close_receipt_row
close_receipt_row-IsTerminal env id item attempt verified args binding hash now = record {
  is_terminal = refl;
  kind = refl;
  same_item = refl;
  same_attempt = refl;
  verified_by = refl;
  same_evidence = refl;
  same_revision = refl;
}
