-- ===== src/Work/Scenarios.antt =====
-- The theorems at a small work item: one that is claimed, applied, verified and closed.
pub mod Data
pub mod Granting
use context_vault.Prelude.{
  ap, ◌≤◌, ℕ, ◌≡◌, ◌≢◌, ◌↔◌, ◌⊎◌, inl, inr, refl, String, true, false, Option, none, some, List, [],
  ◌∷◌, pos, negsuc, suc, if◌then◌else◌, All, ◌==◌, is_blank,
}
use mathlib.Core.List.{Memᴰ}
use context_vault.Json.{Json, obj, get}
use context_vault.Json
use context_vault.Domain.WorkGraph.{
  WorkStatus, verifying, completed, claimed, ready, running, failed, active, human, admit,
  lease_expired, work_not_found, drift_detected, status_eq, validate_transition, allowed_transition,
  is_terminal, assert_apply_admitted, claim_is_active, may_approve,
}
use context_vault.Domain.WorkGraph.Admission.{IsAdmitted}
use context_vault.Domain.WorkGraph.Transitions.{
  ◌⟶*◌, Lifecycle, here, validate_transition_admits, terminal_absorbs, completed_from_verifying,
}
use context_vault.Work.Rows.{WorkReceipt, WorkApproval}
use context_vault.Work.Session.{
  Session, ok, err, run, ◌>>=◌, pure, raise, lift, gets, raise_if, check, when, modify, commit,
  one_or_none, require, save_item, save_attempt, save_claim, add_receipt, add_event, read_clock,
  new_uuid, canonical_hash,
}
use context_vault.Work.Events.{locked_item, append_event, append_observation, transition}
use context_vault.Work.Authority.{
  validate_signer, lacks_current_claim, assert_current_claim, approval_admitted, approvals_complete,
  assert_approvals, parse_paths, parse_capabilities, scoped_effect_context,
}
use context_vault.Work.Lifecycle.{
  PreparedWork, prepare, prepared_of, validate_prepared, drift_token, mark_ready,
}
use context_vault.Work.Claims.{
  ClaimResult, heartbeat, claim_new, acquire, retire_expired, retire_attempt, add_delta,
  last_attempt_no,
}
use context_vault.Work.Approvals.{
  grant_approval, assert_trusted_approval_actor, active_manifest, parse_policy, assert_human,
  human_trusted, record_approval,
}
use context_vault.Work.Laws.Leasing.{claim_new_exclusive}
use context_vault.Work.Laws.Granting.{IsGranted, grant_approval-IsGranted}
use context_vault.Work.Effects.{
  ApplyResult, raised, absent_hash, run_effect, is_sha256, apply_result,
}
use context_vault.Work.Apply.{apply_at, apply_new, apply_by_intent, apply_by_receipt, apply}
use context_vault.Work.Apply.Begin.{
  locked_apply_rows, find_apply_receipt, expected_after, apply_binding, admit_effect, start_effect,
}
use context_vault.Work.Apply.Finish.{
  apply_row, bind_receipt, is_bound, fence_lost, settle_done, settle,
}
use context_vault.Work.Close.{verifies, applies, close_receipt_row, complete, close_new}
use context_vault.Work.Requests.{
  Service, Request, create_request, ready_request, apply_request, handle, serve,
}
use context_vault.Work.Logs.History.{SoundLogs, ExtendsLogs, serve-SoundLogs, serve-ExtendsLogs}
use context_vault.Work.Atomicity.{handle_all_or_nothing}
use context_vault.Work.Laws.Heartbeat.{is_live, extended, heartbeat_exact}
use context_vault.Work.Laws.Prepared.{prepare_reads_only, prepared_until_moved}
use context_vault.Work.Laws.Approving.{Covers, approvals_complete_iff}
use context_vault.Work.Laws.Admitting.{MayStart, admit_effect_iff, apply_new_gated}
use context_vault.Work.Laws.Settling.{IsAnswer, apply-IsAnswer}
use context_vault.Work.Laws.Replaying.{apply_at_most_once}
use context_vault.Work.Laws.Closing.{IsClosing, close_new-IsClosing}
use context_vault.Work.Scenarios.Data.{
  zeros, ticking, ready_item, claimed_item, verifying_item, attempt, lease, approval, applied,
  verified, empty_db, ready_db, claimed_db, verified_db, session, dispatcher, apply_args,
  close_args, project_item, governed_db, owner, approval_args, expired_lease, expired_db,
  claim_args, new_work,
}

admit_effect_iff_example :
    ((admit_effect ticking claimed_item lease attempt 1000 apply_args (session claimed_db)).0
      ≡ ok tt)
    ↔ MayStart ticking claimed_item lease attempt 1000 apply_args (session claimed_db)
admit_effect_iff_example =
    admit_effect_iff ticking claimed_item lease attempt 1000 apply_args (session claimed_db)

apply_at_most_once_example :
    apply ticking (some dispatcher) 7 apply_args (session verified_db)
    ≡ apply ticking
        (some (record dispatcher { dispatch = λ context request. raised "OSError" }))
        7
        apply_args
        (session verified_db)
apply_at_most_once_example =
    apply_at_most_once ticking dispatcher
      (record dispatcher { dispatch = λ context request. raised "OSError" }) 7 apply_args
      (session verified_db) (inl (λ e. cc))

apply_new_gated_example :
    apply_new ticking dispatcher 7 ready_item lease attempt
      (record { allowed_paths = []; capabilities = [] })
      apply_args
      Json.end
      zeros
      (session claimed_db)
    ≡ apply_new ticking
        (record dispatcher { dispatch = λ context request. raised "OSError" })
        7
        ready_item
        lease
        attempt
        (record { allowed_paths = []; capabilities = [] })
        apply_args
        Json.end
        zeros
        (session claimed_db)
apply_new_gated_example =
    apply_new_gated ticking dispatcher
      (record dispatcher { dispatch = λ context request. raised "OSError" }) 7 ready_item lease
      attempt (record { allowed_paths = []; capabilities = [] }) apply_args Json.end zeros
      (session claimed_db) (λ may. let same : ready ≡ claimed = may.0.is_claimed in cc)

abbrev answer : ApplyResult
answer = record {
  receipt_id = 100;
  attempt_id = 8;
  replayed = false;
  exit_status = 0;
  output_artifact_hash = some zeros;
  after_revision = zeros;
}

apply_answers : (apply ticking (some dispatcher) 7 apply_args (session claimed_db)).0 ≡ ok answer
unfolding apply apply_at apply_new apply_by_intent apply_by_receipt locked_apply_rows
    find_apply_receipt expected_after apply_binding admit_effect start_effect apply_row bind_receipt
    is_bound absent_hash fence_lost settle_done settle run_effect is_sha256 apply_result
    validate_signer approval_admitted approvals_complete assert_approvals parse_paths
    parse_capabilities scoped_effect_context locked_item append_event transition ◌>>=◌ pure raise
    lift gets raise_if check when modify commit one_or_none require save_item save_attempt
    save_claim add_receipt add_event read_clock new_uuid canonical_hash validate_transition
    allowed_transition status_eq claim_is_active may_approve assert_apply_admitted get is_blank
apply_answers = refl

apply-IsAnswer_example : IsAnswer ticking apply_args answer
apply-IsAnswer_example =
    apply-IsAnswer ticking (some dispatcher) 7 apply_args (session claimed_db) answer apply_answers

abbrev terminal : WorkReceipt
terminal =
    close_receipt_row ticking 100 verifying_item attempt verified close_args Json.end zeros 1000

close_closes :
    (close_new ticking verifying_item attempt
      (some verified)
      close_args
      Json.end
      zeros
      (session verified_db)).0
    ≡ ok terminal
unfolding close_new verifies applies complete lacks_current_claim assert_current_claim
    approval_admitted approvals_complete assert_approvals append_event transition ◌>>=◌ pure raise
    gets raise_if check commit require save_item save_attempt save_claim add_receipt add_event
    read_clock new_uuid validate_transition allowed_transition status_eq claim_is_active may_approve
close_closes = refl

abbrev closed_session : Session
closed_session =
    (close_new ticking verifying_item attempt (some verified) close_args Json.end zeros
      (session verified_db)).1

close_new-IsClosing_example :
    IsClosing ticking verifying_item attempt
      (some verified)
      close_args
      (session verified_db)
      terminal
      closed_session
close_new-IsClosing_example =
    close_new-IsClosing ticking verifying_item attempt (some verified) close_args Json.end zeros
      (session verified_db) terminal closed_session (ap (λ r. (r, closed_session)) close_closes)

abbrev worker : Service
worker = record {
  env = ticking;
  caller = record { authenticated_principal_id = some 2; trusted_policy_ids = [] };
  dispatcher = some dispatcher;
}

abbrev requests : List (Service × Request)
requests =
    (worker, create_request new_work)
    ∷ (worker, ready_request 100 "2")
    ∷ (worker, apply_request 100 apply_args)
    ∷ []

serve-SoundLogs_example : SoundLogs (serve requests empty_db)
serve-SoundLogs_example =
    serve-SoundLogs requests empty_db (λ db h. h, (λ db h. h, (λ db h. h, tt))) (tt, tt)

serve-ExtendsLogs_example : ExtendsLogs verified_db (serve requests verified_db)
serve-ExtendsLogs_example =
    serve-ExtendsLogs requests verified_db (λ db h. h, (λ db h. h, (λ db h. h, tt)))

no_item : (run (handle worker (ready_request 100 "2")) ready_db).0 ≡ err work_not_found
unfolding run handle mark_ready locked_item one_or_none require ◌>>=◌
no_item = refl

handle_all_or_nothing_example : (run (handle worker (ready_request 100 "2")) ready_db).1 ≡ ready_db
handle_all_or_nothing_example =
    handle_all_or_nothing worker (ready_request 100 "2") ready_db work_not_found refl no_item

approvals_complete_iff_example :
    (approvals_complete claimed_item lease 1000 (approval ∷ []) ≡ true)
    ↔ All
        (λ required.
          (row : WorkApproval) × Memᴰ row (approval ∷ [])
          × Covers claimed_item lease 1000 required row)
        ("execute" ∷ [])
approvals_complete_iff_example = approvals_complete_iff claimed_item lease 1000 (approval ∷ [])

heartbeat_exact_example : run (heartbeat ticking 9 1 (pos 500)) claimed_db ≡ (
    if is_live lease 1 1000
    then (ok 1500, extended lease 1000 500 claimed_db)
    else (err lease_expired, claimed_db))
heartbeat_exact_example = heartbeat_exact ticking claimed_db lease 1 499 refl

prepares : (prepare ticking 7 "base" (session ready_db)).0 ≡ ok (prepared_of ticking ready_item)
unfolding prepare ◌>>=◌ gets require raise_if pure status_eq
prepares = refl

prepared_until_moved_example :
    (validate_prepared ticking
      (record ready_item { revision = 3 })
      (prepared_of ticking ready_item)
      (session claimed_db)).0
    ≡ err drift_detected
prepared_until_moved_example =
    prepared_until_moved ticking 7 "base" (session ready_db) (session claimed_db) ready_item
      (record ready_item { revision = 3 }) (prepared_of ticking ready_item) refl prepares refl refl
      refl

prepare_reads_only_example : (prepare ticking 7 "stale" (session ready_db)).1 ≡ session ready_db
prepare_reads_only_example = prepare_reads_only ticking 7 "stale" (session ready_db)

validate_transition_admits_example :
    (validate_transition verifying completed true false ≡ admit)
    ↔ Lifecycle verifying completed true false
validate_transition_admits_example = validate_transition_admits verifying completed true false

terminal_absorbs_example : failed ≡ failed
unfolding is_terminal
terminal_absorbs_example = terminal_absorbs failed failed refl here

completed_from_verifying_example : (verifying ≡ verifying) × (true ≡ true) × (true ≡ true)
unfolding validate_transition allowed_transition status_eq
completed_from_verifying_example = completed_from_verifying verifying true true refl
