-- ===== src/Work/Logs/Writers.antt =====
-- Every method writes to the logs only sound rows: a predicate on the logs that survives the
-- appending of a sound row survives every method.
use context_vault.Prelude.{
  ℕ, ◌≡◌, refl, Bool, true, Option, none, some, List, [], ◌∷◌, ◌++◌, String, arith,
}
use context_vault.Domain.WorkGraph.{WorkStatus, draft, admit, validate_transition, ActorType}
use context_vault.Work.Rows.{Db, WorkReceipt, WorkEvent, Uuid, WorkItem, WorkAttempt, WorkClaim}
use context_vault.Work.Session.{Env, save_item, save_attempt, save_claim, add_receipt, add_event}
use context_vault.Work.Events.{locked_item, append_event, append_observation, transition}
use context_vault.Work.Rules.Keeps.{Keeps, keeps_rules, Keeps-check}
use context_vault.Work.Logs.Rows.{IsSoundReceipt, IsSoundEvent, legal}

-- A predicate on the receipts and events that sound rows may be appended to.
pub record IsLog (L : List WorkReceipt → List WorkEvent → Type 0) : Type 0 where
  pub add_receipt :
      (r : WorkReceipt) (rs : List WorkReceipt) (es : List WorkEvent)
      → IsSoundReceipt r
      → L rs es
      → L (rs ++ r ∷ []) es
  pub add_event :
      (e : WorkEvent) (rs : List WorkReceipt) (es : List WorkEvent)
      → IsSoundEvent e
      → L rs es
      → L rs (es ++ e ∷ [])

abbrev pub OnLogs : (List WorkReceipt → List WorkEvent → Type 0) → Db → Type 0
OnLogs L db = L db.receipts db.events

legal_transition :
    (s t : WorkStatus) (receipt evidence : Bool)
    → validate_transition s t receipt evidence ≡ admit
    → legal (some s) (some t) ≡ true
unfolding validate_transition legal
legal_transition s t receipt evidence h = ground arith

pub legal_draft : legal none (some draft) ≡ true
unfolding legal
legal_draft = refl

legal_self : (s : WorkStatus) → legal (some s) (some s) ≡ true
unfolding legal
legal_self s = ground arith

module _ {L : List WorkReceipt → List WorkEvent → Type 0} (log : IsLog L) where
  pub Log-save_item : (row : WorkItem) → Keeps (OnLogs L) (save_item row)
  unfolding save_item
  Log-save_item row = record { at = λ s h. h }

  pub Log-save_attempt : (row : WorkAttempt) → Keeps (OnLogs L) (save_attempt row)
  unfolding save_attempt
  Log-save_attempt row = record { at = λ s h. h }

  pub Log-save_claim : (row : WorkClaim) → Keeps (OnLogs L) (save_claim row)
  unfolding save_claim
  Log-save_claim row = record { at = λ s h. h }

  pub Log-add_receipt : (r : WorkReceipt) → IsSoundReceipt r → Keeps (OnLogs L) (add_receipt r)
  unfolding add_receipt
  Log-add_receipt r sound = record {
    at = λ s h. (h.0, log.add_receipt r s.working.receipts s.working.events sound h.1);
  }

  pub Log-add_event : (e : WorkEvent) → IsSoundEvent e → Keeps (OnLogs L) (add_event e)
  unfolding add_event
  Log-add_event e sound = record {
    at = λ s h. (h.0, log.add_event e s.working.receipts s.working.events sound h.1);
  }

  pub Log-append_event :
      (env : Env) (item : WorkItem) (attempt_id : Option Uuid) (sequence : Option ℕ)
      (event_type : String) (actor_type : ActorType) (actor_id reason : String)
      (previous new : Option WorkStatus)
      → legal previous new ≡ true
      → Keeps (OnLogs L) (
          append_event env item attempt_id sequence event_type actor_type actor_id reason previous
            new)
  unfolding append_event
  Log-append_event env item a q t y i r p n h = search (keeps_rules, Log-save_item, Log-add_event)

  pub Log-append_observation :
      (env : Env) (item : WorkItem) (attempt_id : Option Uuid) (event_type actor_id reason : String)
      → Keeps (OnLogs L) (append_observation env item attempt_id event_type actor_id reason)
  unfolding append_observation
  Log-append_observation env item a t i r = search (keeps_rules, Log-append_event, legal_self)

  pub Log-transition :
      (env : Env) (item : WorkItem) (new : WorkStatus) (actor_id reason : String)
      (attempt_id : Option Uuid) (receipt evidence : Bool)
      → Keeps (OnLogs L) (transition env item new actor_id reason attempt_id receipt evidence)
  unfolding transition
  Log-transition env item new i r a receipt evidence = Keeps-check _ _ λ ok.
      let lawful = legal_transition item.status new receipt evidence ok in
      search (keeps_rules, Log-append_event, Log-save_item, lawful)

  pub Log-locked_item : (id : Uuid) → Keeps (OnLogs L) (locked_item id)
  unfolding locked_item
  Log-locked_item id = search keeps_rules
