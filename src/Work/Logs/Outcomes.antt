-- ===== src/Work/Logs/Outcomes.antt =====
-- `grant_approval`, `verify` and `close` write only sound rows.
use context_vault.Prelude.{◌≡◌, true, false, not, Option, none, some, List, String, arith, is_empty}
use context_vault.Json.{Fields}
use context_vault.Work.Rows.{
  WorkReceipt, WorkEvent, Uuid, Instant, WorkItem, WorkAttempt, WorkClaim,
}
use context_vault.Work.Session.{Env}
use context_vault.Work.Authority.{may_sign}
use context_vault.Work.Approvals.{Caller, ApprovalRequest, record_approval, grant_approval}
use context_vault.Work.Verify.{
  VerifyRequest, attempt_of, applied_receipt, replay_verify, verify_receipt_row, verify_by,
  verify_new, verify,
}
use context_vault.Work.Close.{
  CloseRequest, replay_close, close_receipt_row, complete, verifies, close_by, close_new, close,
}
use context_vault.Work.Rules.Keeps.{Keeps, keeps_rules, Keeps-guard, Keeps-modify, Keeps-check}
use context_vault.Work.Logs.Rows.{IsSoundReceipt}
use context_vault.Work.Logs.Writers.{
  IsLog, OnLogs, Log-save_attempt, Log-save_claim, Log-add_receipt, Log-append_observation,
  Log-transition, Log-locked_item,
}
use context_vault.Work.Logs.Checks.{
  Log-validate_signer, Log-assert_current_claim, Log-assert_approvals, Log-assert_exact_replay,
  Log-assert_trusted_approval_actor,
}

module _ {L : List WorkReceipt → List WorkEvent → Type 0} (log : IsLog L) (env : Env) where
  pub Log-grant_approval :
      (caller : Caller) (id : Uuid) (args : ApprovalRequest)
      → Keeps (OnLogs L) (grant_approval env caller id args)
  unfolding grant_approval record_approval
  Log-grant_approval caller id args =
      search
        (keeps_rules, Keeps-modify, Log-locked_item log, Log-assert_trusted_approval_actor log env)
        depth 16

  pub Log-attempt_of : (item : WorkItem) (id : Uuid) → Keeps (OnLogs L) (attempt_of item id)
  unfolding attempt_of
  Log-attempt_of item id = search keeps_rules

  Log-applied_receipt :
      (item : WorkItem) (a : WorkAttempt) (observed : String)
      → Keeps (OnLogs L) (applied_receipt item a observed)
  unfolding applied_receipt
  Log-applied_receipt item a observed = search keeps_rules

  verify_row-IsSound :
      (id : Uuid) (item : WorkItem) (a : WorkAttempt) (r : WorkReceipt) (args : VerifyRequest)
      (binding : Fields) (hash : String) (now : Instant)
      → may_sign args.signer_type ≡ true
      → is_empty args.acceptance_evidence ≡ false
      → IsSoundReceipt (verify_receipt_row env id item a r args binding hash now)
  unfolding verify_receipt_row
  verify_row-IsSound id item a r args binding hash now signs evidence = ground arith

  Log-verify_by :
      (existing : Option WorkReceipt) (item : WorkItem) (a : WorkAttempt) (r : WorkReceipt)
      (args : VerifyRequest) (binding : Fields) (hash : String)
      → may_sign args.signer_type ≡ true
      → is_empty args.acceptance_evidence ≡ false
      → Keeps (OnLogs L) (verify_by env existing item a r args binding hash)
  unfolding verify_by verify_new replay_verify
  Log-verify_by (some existing) item a r args binding hash signs evidence =
      search (keeps_rules, Log-assert_exact_replay log env, Log-append_observation log)
  Log-verify_by none item a r args binding hash signs evidence =
      search
        (
          keeps_rules,
          Log-assert_current_claim log env,
          Log-assert_approvals log env,
          Log-add_receipt log,
          verify_row-IsSound,
        )
        depth 14

  pub Log-verify : (id : Uuid) (args : VerifyRequest) → Keeps (OnLogs L) (verify env id args)
  unfolding verify
  Log-verify id args = Log-validate_signer log env _ _ _ λ signs. Keeps-guard _ _ _ λ evidence.
      search
        (
          keeps_rules,
          Log-locked_item log,
          Log-attempt_of,
          Log-applied_receipt,
          Log-verify_by,
          signs,
          evidence,
        )
        depth 9

  close_row-IsSound :
      (id : Uuid) (item : WorkItem) (a : WorkAttempt) (r : WorkReceipt) (args : CloseRequest)
      (binding : Fields) (hash : String) (now : Instant)
      → may_sign args.signer_type ≡ true
      → not (verifies item a args.after_revision r) ≡ false
      → IsSoundReceipt (close_receipt_row env id item a r args binding hash now)
  unfolding close_receipt_row verifies
  close_row-IsSound id item a r args binding hash now signs evidence = ground arith

  Log-complete :
      (item : WorkItem) (a : WorkAttempt) (c : WorkClaim) (r : WorkReceipt) (i : String)
      (now : Instant)
      → IsSoundReceipt r
      → Keeps (OnLogs L) (complete env item a c r i now)
  unfolding complete
  Log-complete item a c r i now sound =
      search
        (
          keeps_rules,
          Log-add_receipt log,
          Keeps-check,
          Log-save_attempt log,
          Log-save_claim log,
          Log-transition log,
        )
        depth 9

  Log-close_by :
      (existing : Option WorkReceipt) (item : WorkItem) (a : WorkAttempt) (v : Option WorkReceipt)
      (args : CloseRequest) (binding : Fields) (hash : String)
      → may_sign args.signer_type ≡ true
      → Keeps (OnLogs L) (close_by env existing item a v args binding hash)
  unfolding close_by close_new replay_close
  Log-close_by (some existing) item a v args binding hash signs =
      search (keeps_rules, Log-assert_exact_replay log env, Log-append_observation log)
  Log-close_by none item a v args binding hash signs =
      search
        (
          Keeps-guard,
          keeps_rules,
          Log-assert_current_claim log env,
          Log-assert_approvals log env,
          Log-complete,
          close_row-IsSound,
        )
        depth 20

  pub Log-close : (id : Uuid) (args : CloseRequest) → Keeps (OnLogs L) (close env id args)
  unfolding close
  Log-close id args = Log-validate_signer log env _ _ _ λ signs.
      search (keeps_rules, Log-locked_item log, Log-attempt_of, Log-close_by, signs) depth 9
