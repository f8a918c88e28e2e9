-- ===== src/Knowledge/Scenarios.antt =====
-- The knowledge ledger at concrete calls: an item whose first revision is approved, then replaced.
use context_vault.Prelude.{
  count, is_blank, ℕ, ◌+◌, ◌≡◌, refl, pos, true, String, Option, none, some, List, [], ◌∷◌, All,
  leb,
}
use context_vault.Work.Rows.{Uuid}
use context_vault.Knowledge.Records.{
  accept, ◌>>=◌, refuse_if, require, human, policy, model, reviewed, approved, superseded, Actor,
  ApprovalPolicy, permits, internal_data, finite, float_eq,
}
use context_vault.Knowledge.Revision.{
  KnowledgeRevision, make_revision, check_content, check_authority,
}
use context_vault.Knowledge.Ledger.{
  Ledger, new_ledger, get_revision, put_revision, append_id, has_open_conflict,
}
use context_vault.Knowledge.Lifecycle.{Proposal, record_conflicts}
use context_vault.Knowledge.Approval.{predecessor_of, approve, approved_projection}
use context_vault.Knowledge.Runs.{Call, call_propose, call_review, call_approve, perform, run}
use context_vault.Knowledge.Laws.Tables.{heads}
use context_vault.Knowledge.Laws.Steps.{Moves}
use context_vault.Knowledge.Laws.Keeping.{IsSound}
use context_vault.Knowledge.Laws.Performing.{perform-Moves}
use context_vault.Knowledge.Laws.Tracking.{Carries}
use context_vault.Knowledge.Laws.Running.{
  run-IsSound, run-AtMostOne, run-Carries, refused_unchanged,
}
use context_vault.Knowledge.Laws.Copies.{approved_copy}
use context_vault.Knowledge.Laws.Approving.{Approvable}
use context_vault.Knowledge.Laws.Publishing.{Approvable-approve}
use context_vault.Knowledge.Laws.Projecting.{IsShown, of_item, approved_projection_lem}

abbrev plain : String → String
plain text = text

abbrev alice : Actor
alice = record { kind = human; actor_id = "alice" }

abbrev bob : Actor
bob = record { kind = human; actor_id = "bob" }

abbrev carol : Actor
carol = record { kind = policy; actor_id = "carol" }

abbrev robot : Actor
robot = record { kind = model; actor_id = "robot" }

abbrev rules : ApprovalPolicy
rules = record {
  authorized_humans = "bob" ∷ [];
  authorized_policies = "carol" ∷ [];
  require_independent_approval = true;
}

abbrev proposal : String → Option Uuid → Proposal
proposal content supersedes = record {
  item_id = 1;
  content = content;
  source_ids = "s" ∷ [];
  evidence_ids = "e" ∷ [];
  owner = "alice";
  scope = "team";
  confidence = finite (pos 1) 1;
  classification = internal_data;
  proposed_by = alice;
  valid_from = 0;
  valid_until = none;
  supersedes_revision_id = supersedes;
}

abbrev fresh : ℕ → Uuid
fresh n = 100 + n

abbrev first_calls : List Call
first_calls =
    call_propose (proposal "one" none) 10 fresh 1
    ∷ call_review 10 bob
    ∷ call_approve 10 carol rules 2
    ∷ []

abbrev second_calls : List Call
second_calls =
    call_propose (proposal "two" (some 10)) 11 fresh 3
    ∷ call_review 11 bob
    ∷ call_approve 11 carol rules 4
    ∷ []

abbrev first_revision : KnowledgeRevision
first_revision = record {
  revision_id = 10;
  item_id = 1;
  version = 1;
  status = approved;
  content = "one";
  content_hash = "one";
  source_ids = "s" ∷ [];
  evidence_ids = "e" ∷ [];
  owner = "alice";
  scope = "team";
  confidence = finite (pos 1) 1;
  classification = internal_data;
  valid_from = 0;
  valid_until = none;
  supersedes_revision_id = none;
  proposed_by = alice;
  reviewed_by = some bob;
  approved_by = some carol;
  created_at = 1;
  terminal_by = none;
  terminal_at = none;
}

first_built : get_revision 10 (run plain new_ledger first_calls).table ≡ some first_revision
unfolding run ◌>>=◌ require make_revision check_content refuse_if is_blank check_authority
    record_conflicts put_revision
first_built = refl

abbrev pending_calls : List Call
pending_calls = call_propose (proposal "one" none) 10 fresh 1 ∷ call_review 10 bob ∷ []

abbrev pending : Ledger
pending = run plain new_ledger pending_calls

abbrev pending_revision : KnowledgeRevision
pending_revision = record first_revision { status = reviewed; approved_by = none }

perform-Moves_example :
    Moves pending.table (perform plain pending (call_approve 10 carol rules 2)).1.table
perform-Moves_example =
    perform-Moves plain pending (call_approve 10 carol rules 2) (run-IsSound plain pending_calls)

run-IsSound_example : All (IsSound plain) (run plain new_ledger first_calls).table
run-IsSound_example = run-IsSound plain first_calls

run-AtMostOne_example : leb (heads 1 (run plain new_ledger first_calls).table) 1 ≡ true
run-AtMostOne_example = run-AtMostOne plain first_calls 1

run-Carries_example :
    (y : KnowledgeRevision) × (get_revision 10
        (run plain (run plain new_ledger first_calls) second_calls).table
      ≡ some y)
    × Carries first_revision y
run-Carries_example = run-Carries plain first_calls second_calls 10 first_revision first_built

-- The approval by the reviewer is refused, since the policy wants another.
reviewer_refused : (perform plain pending (call_approve 10 bob rules 2)).0 ≡ true
unfolding run ◌>>=◌ require make_revision check_content refuse_if is_blank check_authority
    record_conflicts put_revision append_id float_eq perform approve
reviewer_refused = refl

refused_unchanged_example : (perform plain pending (call_approve 10 bob rules 2)).1 ≡ pending
refused_unchanged_example =
    refused_unchanged plain pending (call_approve 10 bob rules 2) (run-IsSound plain pending_calls)
      reviewer_refused

pending-Approvable : Approvable pending 10 carol rules pending_revision none
unfolding run ◌>>=◌ require make_revision check_content refuse_if is_blank check_authority
    record_conflicts put_revision append_id float_eq permits has_open_conflict predecessor_of
pending-Approvable = record {
  found = refl;
  was_reviewed = refl;
  not_model = refl;
  permitted = refl;
  independent = refl;
  no_conflict = refl;
  bound = refl;
}

Approvable-approve_example : approve plain pending 10 carol rules 2 ≡ (
  accept (approved_copy pending_revision carol),
  record pending { table = put_revision (approved_copy pending_revision carol) pending.table },
)
Approvable-approve_example =
    Approvable-approve plain pending 10 carol rules 2 pending_revision none
      (run-IsSound plain pending_calls) pending-Approvable

approved_projection_lem_example :
    All (IsShown 5) (approved_projection (run plain new_ledger first_calls) 5)
    × ((item : Uuid)
        → leb (count (of_item item) (approved_projection (run plain new_ledger first_calls) 5)) 1
          ≡ true)
approved_projection_lem_example = approved_projection_lem plain first_calls 5

second_built :
    get_revision 10 (run plain (run plain new_ledger first_calls) second_calls).table
    ≡ some (record first_revision {
      status = superseded;
      terminal_by = some carol;
      terminal_at = some 4;
    })
unfolding run ◌>>=◌ require make_revision check_content refuse_if is_blank check_authority
    record_conflicts put_revision append_id float_eq
second_built = refl
