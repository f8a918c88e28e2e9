-- ===== src/Work/Events.antt =====
-- application/work_graph.py: `_append_event`, `_append_observation`, `_transition` and
-- `_locked_item`, the steps by which every method reads and moves a work item. A method that mutates
-- the loaded row returns the row.
use context_vault.Prelude.{ℕ, zero, suc, ◌+◌, String, Bool, Option, none, some, ◌==◌}
use context_vault.Json.{obj, Fields}
use context_vault.Json
use context_vault.Domain.WorkGraph.{
  WorkStatus, ActorType, service, validate_transition, work_not_found,
}
use context_vault.Work.Rows.{Uuid, Db, WorkItem}
use context_vault.Work.Session.{
  Env, Action, ◌>>=◌, ◌>>◌, pure, require, one_or_none, check, read_clock, add_event, save_item,
  canonical_hash,
}

unfoldable pub locked_item : Uuid → Action WorkItem
locked_item id = do
  found ← one_or_none (λ (db : Db). db.items) (λ (r : WorkItem). r.id == id)
  require found work_not_found

-- The sequence of a new event, if the caller gives none.
abbrev default_sequence : ℕ → ℕ
default_sequence zero = 1
default_sequence (suc n) = suc n

abbrev sequence_of : Option ℕ → ℕ → ℕ
sequence_of (some n) revision = n
sequence_of none revision = default_sequence revision

-- `if item.revision == 0: item.revision = 1`
abbrev started : ℕ → ℕ
started zero = 1
started (suc n) = suc n

module _ (env : Env) where
  unfoldable pub append_event :
      (item : WorkItem) (attempt_id : Option Uuid) (event_sequence : Option ℕ) (event_type : String)
      (actor_type : ActorType) (actor_id reason : String)
      (previous_state new_state : Option WorkStatus)
      → Action WorkItem
  append_event item attempt_id event_sequence event_type actor_type actor_id reason previous new =
      do
        created_at ← read_clock env
        let item' = record item { revision = started item.revision }
        save_item item'
        add_event (record {
          work_item_id = item.id;
          attempt_id = attempt_id;
          event_sequence = sequence_of event_sequence item.revision;
          event_type = event_type;
          actor_type = actor_type;
          actor_id = actor_id;
          reason = reason;
          previous_state = previous;
          new_state = new;
          payload_hash = canonical_hash env (obj Json.end);
          payload_json = Json.end;
          created_at = created_at;
        })
        pure item'

  unfoldable pub append_observation :
      (item : WorkItem) (attempt_id : Option Uuid) (event_type actor_id reason : String)
      → Action WorkItem
  append_observation item attempt_id event_type actor_id reason = do
    updated_at ← read_clock env
    append_event (record item { revision = item.revision + 1; updated_at = updated_at }) attempt_id
        none event_type service actor_id reason (some item.status) (some item.status)

  unfoldable pub transition :
      (item : WorkItem) (new_status : WorkStatus) (actor_id reason : String)
      (attempt_id : Option Uuid) (has_terminal_receipt has_acceptance_evidence : Bool)
      → Action WorkItem
  transition item new_status actor_id reason attempt_id has_terminal_receipt
        has_acceptance_evidence =
      do
        check (
            validate_transition item.status new_status has_terminal_receipt has_acceptance_evidence)
        let next_revision = item.revision + 1
        item' ←
            append_event item attempt_id (some next_revision) "work.transition" service actor_id
              reason (some item.status) (some new_status)
        updated_at ← read_clock env
        let moved = record item' {
          status = new_status;
          revision = next_revision;
          updated_at = updated_at;
        }
        save_item moved
        pure moved
