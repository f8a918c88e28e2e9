-- ===== src/Work/Logs/Rows.antt =====
-- What a receipt and an event must satisfy: the check constraints of models.py that the code itself
-- has to meet, and the transitions of domain/work_graph.py.
use context_vault.Prelude.{◌≡◌, Bool, true, false, not, ◌||◌, Option, none, some, is_empty, is_some}
use context_vault.Domain.WorkGraph.{WorkStatus, draft, status_eq, allowed_transition}
use context_vault.Work.Rows.{
  WorkReceipt, WorkEvent, ReceiptType, prepare_receipt, apply_receipt, verify_receipt,
  close_receipt,
}
use context_vault.Work.Authority.{may_sign}
use context_vault.Work.Close.{is_close}

-- `ck_work_receipt_parent_chain`
abbrev pub chained : ReceiptType → Bool → Bool
chained apply_receipt parent = not parent
chained prepare_receipt parent = true
chained _ parent = parent

-- A verification and a completion carry acceptance evidence.
abbrev pub evidenced : ReceiptType → Bool → Bool
evidenced verify_receipt empty = not empty
evidenced close_receipt empty = not empty
evidenced _ empty = true

pub record IsSoundReceipt (r : WorkReceipt) : Type 0 where
  pub terminal_close : r.is_terminal ≡ is_close r.receipt_type
  pub parent_chain : chained r.receipt_type (is_some r.parent_receipt_id) ≡ true
  pub signer : may_sign r.signer_type ≡ true
  pub evidence : evidenced r.receipt_type (is_empty r.acceptance_evidence) ≡ true

-- An event creates a draft, observes a state, or takes an allowed transition.
unfoldable pub legal : Option WorkStatus → Option WorkStatus → Bool
unfolding status_eq allowed_transition
legal none (some new) = status_eq new draft
legal (some previous) (some new) = status_eq previous new || allowed_transition previous new
legal _ none = false

abbrev pub IsSoundEvent : WorkEvent → Type 0
IsSoundEvent e = legal e.previous_state e.new_state ≡ true
