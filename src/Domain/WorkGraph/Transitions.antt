-- ===== src/Domain/WorkGraph/Transitions.antt =====
-- domain/work_graph.py: which transitions `validate_transition` admits, and what follows for a
-- work item's life.
use context_vault.Prelude.{◌≡◌, ◌↔◌, refl, Bool, true, arith}
use context_vault.Domain.WorkGraph.Defs.{
  admit, WorkStatus, draft, ready, claimed, running, blocked, verifying, completed, failed,
  cancelled, recovery_required, is_terminal, validate_transition,
}

infix 40 ◌⟶◌ ◌⟶*◌
-- An admitted transition, with the evidence flags that admitted it.
pub data ◌⟶◌ (s t : WorkStatus) : Type 0 where
  step : (receipt evidence : Bool) → validate_transition s t receipt evidence ≡ admit → s ⟶ t

pub data ◌⟶*◌ (s : WorkStatus) : WorkStatus → Type 0 where
  here : s ⟶* s
  next : {t u : WorkStatus} → s ⟶* t → t ⟶ u → s ⟶* u

-- The states that work can fail in, be cancelled in, and need recovery in.
pub data MayFail : WorkStatus → Type 0 where
  failing_run : MayFail running
  failing_block : MayFail blocked
  failing_check : MayFail verifying

pub data MayCancel : WorkStatus → Type 0 where
  unplanned : MayCancel draft
  untaken : MayCancel ready
  unstarted : MayCancel claimed
  unfinished : MayCancel running
  stuck : MayCancel blocked

pub data MayRecover : WorkStatus → Type 0 where
  lost_claim : MayRecover claimed
  lost_run : MayRecover running
  lost_block : MayRecover blocked
  lost_check : MayRecover verifying

-- The life of a work item, edge by edge, with the evidence flags under which each is taken.
pub data Lifecycle : (s t : WorkStatus) (receipt evidence : Bool) → Type 0 where
  plan : {r e : Bool} → Lifecycle draft ready r e
  take : {r e : Bool} → Lifecycle ready claimed r e
  start : {r e : Bool} → Lifecycle claimed running r e
  block : {r e : Bool} → Lifecycle running blocked r e
  resume : {r e : Bool} → Lifecycle blocked ready r e
  submit : {r e : Bool} → Lifecycle running verifying r e
  complete : Lifecycle verifying completed true true
  fail : {s : WorkStatus} {r e : Bool} → MayFail s → Lifecycle s failed r e
  cancel : {s : WorkStatus} {r e : Bool} → MayCancel s → Lifecycle s cancelled r e
  recover : {s : WorkStatus} {r e : Bool} → MayRecover s → Lifecycle s recovery_required r e

ruleset edges = (
  plan, take, start, block, resume, submit, complete, fail, cancel, recover, failing_run,
  failing_block, failing_check, unplanned, untaken, unstarted, unfinished, stuck, lost_claim,
  lost_run, lost_block, lost_check,
)

Lifecycle-admitted :
    (s t : WorkStatus) (receipt evidence : Bool)
    → validate_transition s t receipt evidence ≡ admit
    → Lifecycle s t receipt evidence
unfolding validate_transition
Lifecycle-admitted s t r e h = grind (arith, edges)

admitted-Lifecycle :
    (s t : WorkStatus) (receipt evidence : Bool)
    → Lifecycle s t receipt evidence
    → validate_transition s t receipt evidence ≡ admit
unfolding validate_transition
admitted-Lifecycle _ _ _ _ plan = refl
admitted-Lifecycle _ _ _ _ take = refl
admitted-Lifecycle _ _ _ _ start = refl
admitted-Lifecycle _ _ _ _ block = refl
admitted-Lifecycle _ _ _ _ resume = refl
admitted-Lifecycle _ _ _ _ submit = refl
admitted-Lifecycle _ _ _ _ complete = refl
admitted-Lifecycle _ _ _ _ (fail failing_run) = refl
admitted-Lifecycle _ _ _ _ (fail failing_block) = refl
admitted-Lifecycle _ _ _ _ (fail failing_check) = refl
admitted-Lifecycle _ _ _ _ (cancel unplanned) = refl
admitted-Lifecycle _ _ _ _ (cancel untaken) = refl
admitted-Lifecycle _ _ _ _ (cancel unstarted) = refl
admitted-Lifecycle _ _ _ _ (cancel unfinished) = refl
admitted-Lifecycle _ _ _ _ (cancel stuck) = refl
admitted-Lifecycle _ _ _ _ (recover lost_claim) = refl
admitted-Lifecycle _ _ _ _ (recover lost_run) = refl
admitted-Lifecycle _ _ _ _ (recover lost_block) = refl
admitted-Lifecycle _ _ _ _ (recover lost_check) = refl

-- The edges of the lifecycle, and no other, are admitted: an item is planned, taken, started, perhaps
-- blocked and resumed, submitted, and completed with both a terminal receipt and acceptance evidence;
-- running, blocked and verifying work can fail; work that is not yet verifying can be cancelled, and
-- work from the claim to the verification can need recovery.
pub validate_transition_admits :
    (s t : WorkStatus) (receipt evidence : Bool)
    → (validate_transition s t receipt evidence ≡ admit) ↔ Lifecycle s t receipt evidence
validate_transition_admits s t r e = (Lifecycle-admitted s t r e, admitted-Lifecycle s t r e)

-- Any sequence of admitted transitions from a terminal state ends in that state.
pub terminal_absorbs : (s t : WorkStatus) → is_terminal s ≡ true → s ⟶* t → t ≡ s
unfolding validate_transition is_terminal
terminal_absorbs s t h here = refl
terminal_absorbs s t h (next {t = u} r (step receipt evidence ok)) =
    ground (arith, terminal_absorbs s u h r)

-- `completed` is entered from `verifying` alone, and only with a receipt and evidence.
pub completed_from_verifying :
    (s : WorkStatus) (receipt evidence : Bool)
    → validate_transition s completed receipt evidence ≡ admit
    → (s ≡ verifying) × (receipt ≡ true) × (evidence ≡ true)
unfolding validate_transition
completed_from_verifying s r e h = ground arith
