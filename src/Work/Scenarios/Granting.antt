-- ===== src/Work/Scenarios/Granting.antt =====
-- A lease that replaces one that ran out, and an approval by the owner of a project.
use context_vault.Prelude.{◌≤◌, ◌⊎◌, ap, ◌≡◌, refl, true, none, [], ◌∷◌, is_blank}
use mathlib.Core.List.{Memᴰ}
use context_vault.Domain.WorkGraph.{ready, claimed, human, status_eq, claim_is_active}
use context_vault.Work.Rows.{WorkApproval}
use context_vault.Work.Session.{
  Session, ok, ◌>>=◌, pure, gets, raise_if, modify, commit, one_or_none, require, save_item,
  save_attempt, save_claim, add_event, read_clock, new_uuid, canonical_hash,
}
use context_vault.Work.Events.{locked_item, append_event, append_observation}
use context_vault.Work.Lifecycle.{validate_prepared, drift_token}
use context_vault.Work.Claims.{
  ClaimResult, claim_new, acquire, retire_expired, retire_attempt, add_delta, last_attempt_no,
}
use context_vault.Work.Approvals.{
  grant_approval, assert_trusted_approval_actor, active_manifest, parse_policy, assert_human,
  human_trusted, record_approval,
}
use context_vault.Work.Laws.Leasing.{claim_new_exclusive, claim_new-IsLeased}
use context_vault.Work.Laws.Acquiring.{IsLeased}
use context_vault.Work.Laws.Granting.{IsGranted, grant_approval-IsGranted}
use context_vault.Work.Scenarios.Data.{
  zeros, ticking, claimed_item, session, governed_db, owner, approval_args, expired_lease,
  expired_db, claim_args,
}

abbrev granted : ClaimResult
granted = record { claim_id = 101; attempt_id = 100; fencing_token = 2; expires_at = 1500 }

reclaims :
    (claim_new ticking claimed_item claim_args zeros 1000 (session expired_db)).0 ≡ ok granted
unfolding claim_new acquire ◌>>=◌ validate_prepared raise_if drift_token one_or_none retire_expired
    save_claim retire_attempt save_attempt new_uuid modify save_item append_observation read_clock
    append_event add_event commit add_delta claim_is_active status_eq last_attempt_no canonical_hash
    gets pure
reclaims = refl

claim_new_exclusive_example : expired_lease.expires_at ≤ 1000
claim_new_exclusive_example =
    claim_new_exclusive ticking claimed_item claim_args zeros 1000 (session expired_db) granted
      expired_lease reclaims (Memᴰ.head refl) refl refl

abbrev reclaimed : Session
reclaimed = (claim_new ticking claimed_item claim_args zeros 1000 (session expired_db)).1

claim_new-IsLeased_example :
    ((claimed_item.status ≡ ready) ⊎ (claimed_item.status ≡ claimed))
    × IsLeased claimed_item claim_args 1000 500 granted (claimed_item ∷ []) reclaimed.committed
claim_new-IsLeased_example =
    claim_new-IsLeased ticking claimed_item claim_args zeros 1000 500 (session expired_db) granted
      reclaimed refl (ap (λ r. (r, reclaimed)) reclaims)

abbrev approved_row : WorkApproval
approved_row = record {
  id = 100;
  work_item_id = 7;
  approval_type = "execute";
  scope_hash = zeros;
  approved = true;
  actor_type = human;
  actor_id = "owner";
  reason = "reviewed";
  evidence_refs = "log" ∷ [];
  granted_at = 1000;
  expires_at = none;
  revoked_at = none;
}

-- The session that recording the approval leaves.
abbrev approved_session : Session
approved_session = record {
  committed = record governed_db { approvals = approved_row ∷ [] };
  working = record governed_db { approvals = approved_row ∷ [] };
  readings = 1;
  drawn = 1;
}

approves :
    grant_approval ticking owner 7 approval_args (session governed_db)
    ≡ (ok approved_row, approved_session)
unfolding grant_approval ◌>>=◌ raise_if locked_item one_or_none require canonical_hash is_blank
    read_clock assert_trusted_approval_actor active_manifest parse_policy assert_human human_trusted
    record_approval new_uuid modify commit
approves = refl

grant_approval-IsGranted_example :
    IsGranted ticking owner 7 approval_args (session governed_db) approved_row approved_session
grant_approval-IsGranted_example =
    grant_approval-IsGranted ticking owner 7 approval_args (session governed_db) approved_row
      approved_session approves
