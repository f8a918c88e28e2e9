-- ===== src/Work/Logs/Effects.antt =====
-- `apply` writes only sound rows, if the sessions that run meanwhile do.
use context_vault.Prelude.{ℕ, ◌≡◌, true, Option, none, some, List, String, arith}
use context_vault.Json.{Json, Fields}
use context_vault.Domain.WorkGraph.{drift_detected, Verdict, admit, reject}
use context_vault.Work.Rows.{
  Db, WorkReceipt, WorkEvent, Uuid, Instant, WorkItem, WorkAttempt, WorkClaim,
}
use context_vault.Work.Session.{Env, check}
use context_vault.Work.Authority.{ScopedEffectContext, may_sign, scoped_effect_context}
use context_vault.Work.Effects.{Dispatcher, EffectResult, Outcome, done, raised}
use context_vault.Work.Apply.{apply_new, apply_by_intent, apply_by_receipt, apply}
use context_vault.Work.Apply.Begin.{
  ApplyRequest, locked_apply_rows, find_apply_receipt, replay_apply, block_duplicate,
  abandon_drifted, on_admission, admit_effect, start_effect,
}
use context_vault.Work.Apply.Finish.{
  apply_row, record_uncertain_effect, record_lost_fence, bind_receipt, settle_done, settle,
}
use context_vault.Work.Rules.Keeps.{
  Keeps, keeps_rules, Keeps-bind, Keeps-raise, Keeps-run_effect, Keeps-required,
}
use context_vault.Work.Logs.Rows.{IsSoundReceipt}
use context_vault.Work.Logs.Writers.{
  IsLog, OnLogs, Log-save_attempt, Log-save_claim, Log-add_receipt, Log-append_observation,
  Log-transition, Log-locked_item,
}
use context_vault.Work.Logs.Checks.{
  Log-validate_signer, Log-assert_approvals, Log-assert_exact_replay,
}

module _ {L : List WorkReceipt → List WorkEvent → Type 0} (log : IsLog L) (env : Env) where
  Log-locked_apply_rows : (id claim_id : Uuid) → Keeps (OnLogs L) (locked_apply_rows id claim_id)
  unfolding locked_apply_rows
  Log-locked_apply_rows id claim_id = search (keeps_rules, Log-locked_item log) depth 9

  Log-find_apply_receipt : (id : Uuid) (key : String) → Keeps (OnLogs L) (find_apply_receipt id key)
  unfolding find_apply_receipt
  Log-find_apply_receipt id key = search keeps_rules

  Log-check : (v : Verdict) → Keeps (OnLogs L) (check v)
  unfolding check
  Log-check admit = record { at = λ s h. h }
  Log-check (reject e) = record { at = λ s h. h }

  pub Log-scoped_effect_context :
      (item : WorkItem) (c : WorkClaim) → Keeps (OnLogs L) (scoped_effect_context env item c)
  unfolding scoped_effect_context
  Log-scoped_effect_context item c = search keeps_rules

  Log-abandon_drifted :
      (item : WorkItem) (c : WorkClaim) (a : WorkAttempt) (now : Instant) (args : ApplyRequest)
      → Keeps (OnLogs L) (abandon_drifted env item c a now args)
  unfolding abandon_drifted
  Log-abandon_drifted item c a now args =
      search (keeps_rules, Log-save_attempt log, Log-save_claim log, Log-transition log) depth 9

  Log-on_admission :
      (v : Verdict) (item : WorkItem) (c : WorkClaim) (a : WorkAttempt) (now : Instant)
      (args : ApplyRequest)
      → Keeps (OnLogs L) (on_admission env v item c a now args)
  Log-on_admission admit item c a now args = Log-assert_approvals log env item c now
  Log-on_admission (reject drift_detected) item c a now args = Log-abandon_drifted item c a now args
  Log-on_admission (reject _) item c a now args = Keeps-raise _

  Log-admit_effect :
      (item : WorkItem) (c : WorkClaim) (a : WorkAttempt) (now : Instant) (args : ApplyRequest)
      → Keeps (OnLogs L) (admit_effect env item c a now args)
  unfolding admit_effect
  Log-admit_effect item c a now args = Log-on_admission _ item c a now args

  Log-start_effect :
      (item : WorkItem) (a : WorkAttempt) (now : Instant) (args : ApplyRequest)
      → Keeps (OnLogs L) (start_effect env item a now args)
  unfolding start_effect
  Log-start_effect item a now args = search (keeps_rules, Log-save_attempt log, Log-transition log)

  apply_row-IsSound :
      (id : Uuid) (item : WorkItem) (c : WorkClaim) (a : WorkAttempt) (args : ApplyRequest)
      (hash : String) (started_at ended_at : Instant) (exit_status : ℕ) (input_hash : String)
      (output_hash : Option String) (after : String) (tests : List String) (rolled : Option Json)
      (attestation : Fields)
      → may_sign args.signer_type ≡ true
      → IsSoundReceipt (
          apply_row env id item c a args hash started_at ended_at exit_status input_hash output_hash
            after tests rolled attestation)
  unfolding apply_row
  apply_row-IsSound id item c a args hash s e x i o after tests rolled att signs = ground arith

  Log-record_uncertain_effect :
      (id attempt_id : Uuid) (args : ApplyRequest) (binding : Fields) (hash : String)
      (started_at : Instant) (reason : String)
      → may_sign args.signer_type ≡ true
      → Keeps
          (OnLogs L)
          (record_uncertain_effect env id attempt_id args binding hash started_at reason)
  unfolding record_uncertain_effect
  Log-record_uncertain_effect id attempt_id args binding hash started_at reason signs =
      search
        (
          keeps_rules,
          Log-locked_apply_rows,
          Log-add_receipt log,
          Log-save_claim log,
          Log-save_attempt log,
          Log-transition log,
        )
        depth 12

  Log-record_lost_fence :
      (item : WorkItem) (c : WorkClaim) (a : WorkAttempt) (o : EffectResult) (args : ApplyRequest)
      (binding : Fields) (hash : String) (started_at ended_at : Instant)
      → may_sign args.signer_type ≡ true
      → Keeps (OnLogs L) (record_lost_fence env item c a o args binding hash started_at ended_at)
  unfolding record_lost_fence
  Log-record_lost_fence item c a o args binding hash started_at ended_at signs =
      search
        (
          keeps_rules,
          Log-add_receipt log,
          Log-save_claim log,
          Log-save_attempt log,
          Log-transition log,
          apply_row-IsSound,
        )
        depth 12

  Log-bind_receipt :
      (item : WorkItem) (c : WorkClaim) (a : WorkAttempt) (o : EffectResult) (args : ApplyRequest)
      (binding : Fields) (hash : String) (started_at ended_at : Instant)
      → may_sign args.signer_type ≡ true
      → Keeps (OnLogs L) (bind_receipt env item c a o args binding hash started_at ended_at)
  unfolding bind_receipt
  Log-bind_receipt item c a o args binding hash started_at ended_at signs =
      search
        (
          keeps_rules,
          Log-add_receipt log,
          Log-save_attempt log,
          Log-transition log,
          apply_row-IsSound,
        )
        depth 12

  Log-settle :
      (id attempt_id : Uuid) (args : ApplyRequest) (binding : Fields) (hash : String)
      (started_at : Instant) (o : Outcome)
      → may_sign args.signer_type ≡ true
      → Keeps (OnLogs L) (settle env id attempt_id args binding hash started_at o)
  unfolding settle settle_done
  Log-settle id attempt_id args binding hash started_at (raised reason) signs =
      search (keeps_rules, Log-record_uncertain_effect)
  Log-settle id attempt_id args binding hash started_at (done o) signs =
      search
        (
          keeps_rules, Log-record_uncertain_effect, Log-record_lost_fence, Log-bind_receipt,
          Log-locked_apply_rows,
        )
        depth 9

  -- What the other sessions commit while an effect runs keeps the logs too.
  abbrev pub Tame : Option Dispatcher → Type 0
  Tame configured =
      (d : Dispatcher) → configured ≡ some d → (db : Db) → OnLogs L db → OnLogs L (d.meanwhile db)

  Log-apply_new :
      (d : Dispatcher) (id : Uuid) (item : WorkItem) (c : WorkClaim) (a : WorkAttempt)
      (context : ScopedEffectContext) (args : ApplyRequest) (binding : Fields) (hash : String)
      → ((db : Db) → OnLogs L db → OnLogs L (d.meanwhile db))
      → may_sign args.signer_type ≡ true
      → Keeps (OnLogs L) (apply_new env d id item c a context args binding hash)
  unfolding apply_new
  Log-apply_new d id item c a context args binding hash tame signs =
      search
        (keeps_rules, Log-admit_effect, Log-check, Log-start_effect, Keeps-run_effect, Log-settle)
        depth 9

  Log-apply_by_intent :
      (intent : Option WorkAttempt) (d : Dispatcher) (id : Uuid) (item : WorkItem) (c : WorkClaim)
      (a : WorkAttempt) (context : ScopedEffectContext) (args : ApplyRequest) (binding : Fields)
      (hash : String)
      → ((db : Db) → OnLogs L db → OnLogs L (d.meanwhile db))
      → may_sign args.signer_type ≡ true
      → Keeps (OnLogs L) (apply_by_intent intent env d id item c a context args binding hash)
  unfolding apply_by_intent block_duplicate
  Log-apply_by_intent (some prior) d id item c a context args binding hash tame signs =
      search (keeps_rules, Log-append_observation log)
  Log-apply_by_intent none d id item c a context args binding hash tame signs =
      Log-apply_new d id item c a context args binding hash tame signs

  Log-apply_by_receipt :
      (replay : Option WorkReceipt) (d : Dispatcher) (id : Uuid) (item : WorkItem) (c : WorkClaim)
      (a : WorkAttempt) (context : ScopedEffectContext) (args : ApplyRequest) (binding : Fields)
      (hash : String)
      → ((db : Db) → OnLogs L db → OnLogs L (d.meanwhile db))
      → may_sign args.signer_type ≡ true
      → Keeps (OnLogs L) (apply_by_receipt replay env d id item c a context args binding hash)
  unfolding apply_by_receipt replay_apply
  Log-apply_by_receipt (some r) d id item c a context args binding hash tame signs =
      search (keeps_rules, Log-assert_exact_replay log env, Log-append_observation log)
  Log-apply_by_receipt none d id item c a context args binding hash tame signs =
      search (keeps_rules, Log-apply_by_intent, tame, signs)

  pub Log-apply :
      (configured : Option Dispatcher) (id : Uuid) (args : ApplyRequest)
      → Tame configured
      → Keeps (OnLogs L) (apply env configured id args)
  unfolding apply
  Log-apply configured id args tame = Log-validate_signer log env _ _ _ λ signs.
      Keeps-bind _ _ (Log-locked_apply_rows id args.claim_id) λ rows. Keeps-required _ _ _ λ d e.
        let tame_d = tame d e in
        search
          (
            keeps_rules, Log-scoped_effect_context, Log-find_apply_receipt, Log-apply_by_receipt,
            tame_d, signs,
          )
          depth 9
