-- ===== src/Work/Rules/Atomic.antt =====
-- Atomicity: an action that raises has committed nothing.
use mathlib.Core.Path.{subst}
use context_vault.Prelude.{
  ◌≡◌, refl, ◌∙◌, Bool, true, false, Option, none, some, List, if◌then◌else◌,
}
use context_vault.Domain.WorkGraph.{WorkGraphError, Verdict, admit, reject}
use context_vault.Work.Rows.{Db, WorkItem, WorkAttempt, WorkClaim, WorkReceipt, WorkEvent}
use context_vault.Work.Session.{
  Result, ok, err, Env, Session, Action, pure, raise, gets, continue, ◌>>=◌, raise_if, check,
  modify, commit, one_or_none, require, save_item, save_attempt, save_claim, add_receipt, add_event,
  read_clock, new_uuid, run,
}

-- The action commits nothing.
pub record Quiet {A : Type 0} (m : Action A) : Type 0 where
  pub at : (s : Session) → (m s).1.committed ≡ s.committed

-- What is committed has changed only if the action returned.
abbrev Unchanged : {A : Type 0} → Db → Result A × Session → Type 0
Unchanged db (ok a, s) = Unit
Unchanged db (err e, s) = s.committed ≡ db

pub record Atomic {A : Type 0} (m : Action A) : Type 0 where
  pub at : (s : Session) → Unchanged s.committed (m s)

pub Quiet-read_clock : (env : Env) → Quiet (read_clock env)
unfolding read_clock
Quiet-read_clock env = record { at = λ s. refl }

pub Quiet-new_uuid : (env : Env) → Quiet (new_uuid env)
unfolding new_uuid
Quiet-new_uuid env = record { at = λ s. refl }

pub Quiet-modify : (f : Db → Db) → Quiet (modify f)
unfolding modify
Quiet-modify f = record { at = λ s. refl }

pub Quiet-save_item : (row : WorkItem) → Quiet (save_item row)
unfolding save_item
Quiet-save_item row = record { at = λ s. refl }

pub Quiet-save_attempt : (row : WorkAttempt) → Quiet (save_attempt row)
unfolding save_attempt
Quiet-save_attempt row = record { at = λ s. refl }

pub Quiet-save_claim : (row : WorkClaim) → Quiet (save_claim row)
unfolding save_claim
Quiet-save_claim row = record { at = λ s. refl }

pub Quiet-add_receipt : (row : WorkReceipt) → Quiet (add_receipt row)
unfolding add_receipt
Quiet-add_receipt row = record { at = λ s. refl }

pub Quiet-add_event : (row : WorkEvent) → Quiet (add_event row)
unfolding add_event
Quiet-add_event row = record { at = λ s. refl }

pub Quiet-raise_if : (b : Bool) (e : WorkGraphError) → Quiet (raise_if b e)
unfolding raise_if
Quiet-raise_if true e = record { at = λ s. refl }
Quiet-raise_if false e = record { at = λ s. refl }

pub Quiet-check : (v : Verdict) → Quiet (check v)
unfolding check
Quiet-check admit = record { at = λ s. refl }
Quiet-check (reject e) = record { at = λ s. refl }

module _ {A : Type 0} where
  pub Quiet-pure : (a : A) → Quiet (pure a)
  unfolding pure
  Quiet-pure a = record { at = λ s. refl }

  pub Quiet-raise : (e : WorkGraphError) → Quiet (raise {A = A} e)
  unfolding raise
  Quiet-raise e = record { at = λ s. refl }

  pub Quiet-gets : (f : Db → A) → Quiet (gets f)
  unfolding gets
  Quiet-gets f = record { at = λ s. refl }

  pub Quiet-require : (o : Option A) (e : WorkGraphError) → Quiet (require o e)
  unfolding require
  Quiet-require none e = record { at = λ s. refl }
  Quiet-require (some a) e = record { at = λ s. refl }

  pub Quiet-one_or_none : (table : Db → List A) (test : A → Bool) → Quiet (one_or_none table test)
  unfolding one_or_none
  Quiet-one_or_none table test = record { at = λ s. refl }

  pub Quiet-if : (b : Bool) (m n : Action A) → Quiet m → Quiet n → Quiet (if b then m else n)
  Quiet-if true m n qm qn = qm
  Quiet-if false m n qm qn = qn

  Unchanged-of_eq : (db : Db) (r : Result A) (s : Session) → s.committed ≡ db → Unchanged db (r, s)
  Unchanged-of_eq db (ok a) s e = tt
  Unchanged-of_eq db (err x) s e = e

  -- An action that commits nothing is atomic.
  pub Quiet-Atomic : (m : Action A) → Quiet m → Atomic m
  Quiet-Atomic m q = record {
    at = λ s. let (r, s') = m s in Unchanged-of_eq s.committed r s' (q.at s);
  }

  -- A commit with nothing but a return behind it.
  pub Atomic-commit : (a : A) → Atomic (commit >>= λ _. pure a)
  unfolding commit ◌>>=◌
  Atomic-commit a = record { at = λ s. tt }

module _ {A B : Type 0} where
  continue-Quiet :
      (r : Result A) (f : A → Action B) (s : Session)
      → ((a : A) → Quiet (f a))
      → (continue r f s).1.committed ≡ s.committed
  continue-Quiet (ok a) f s q = (q a).at s
  continue-Quiet (err e) f s q = refl

  pub Quiet-bind :
      (m : Action A) (f : A → Action B) → Quiet m → ((a : A) → Quiet (f a)) → Quiet (m >>= f)
  unfolding ◌>>=◌
  Quiet-bind m f qm qf = record {
    at = λ s. let (r, s') = m s in continue-Quiet r f s' qf ∙ qm.at s;
  }

  continue-Atomic :
      (r : Result A) (f : A → Action B) (s : Session) (db : Db)
      → ((a : A) → Atomic (f a))
      → s.committed ≡ db
      → Unchanged db (continue r f s)
  continue-Atomic (ok a) f s db q e = subst (λ (d : Db). Unchanged d (f a s)) e ((q a).at s)
  continue-Atomic (err x) f s db q e = e

  -- What commits nothing may stand before an atomic action.
  pub Atomic-bind :
      (m : Action A) (f : A → Action B) → Quiet m → ((a : A) → Atomic (f a)) → Atomic (m >>= f)
  unfolding ◌>>=◌
  Atomic-bind m f qm qf = record {
    at = λ s. let (r, s') = m s in continue-Atomic r f s' s.committed qf (qm.at s);
  }

pub ruleset quiet_rules = (
  Quiet-pure, Quiet-raise, Quiet-gets, Quiet-require, Quiet-one_or_none, Quiet-if, Quiet-raise_if,
  Quiet-check, Quiet-read_clock, Quiet-new_uuid, Quiet-modify, Quiet-save_item, Quiet-save_attempt,
  Quiet-save_claim, Quiet-add_receipt, Quiet-add_event, Quiet-bind,
)

-- Nothing but a return behind an atomic action.
continue-pure-Atomic :
    {A B : Type 0} (r : Result A) (b : B) (s : Session) (db : Db)
    → Unchanged db (r, s)
    → Unchanged db (continue r (λ _. pure b) s)
unfolding pure
continue-pure-Atomic (ok a) b s db u = tt
continue-pure-Atomic (err e) b s db u = u

pub Atomic-then_pure : {A B : Type 0} (m : Action A) (b : B) → Atomic m → Atomic (m >>= λ _. pure b)
unfolding ◌>>=◌
Atomic-then_pure m b q = record {
  at = λ s. let (r, s') = m s in continue-pure-Atomic r b s' s.committed (q.at s);
}

pub Atomic-only_commit : Atomic commit
unfolding commit
Atomic-only_commit = record { at = λ s. tt }

pub ruleset atomic_rules = (Atomic-commit, Atomic-only_commit, Atomic-bind, Atomic-then_pure)

Unchanged-committed :
    {A : Type 0} (db : Db) (r : Result A) (s : Session) (e : WorkGraphError)
    → Unchanged db (r, s)
    → r ≡ err e
    → s.committed ≡ db
Unchanged-committed db (ok a) s e u h = cc
Unchanged-committed db (err x) s e u h = u

-- A request that raises out of an atomic action leaves the database as it was.
pub run-Atomic :
    {A : Type 0} (m : Action A) (db : Db) (e : WorkGraphError)
    → Atomic m
    → (run m db).0 ≡ err e
    → (run m db).1 ≡ db
unfolding run
run-Atomic m db e atomic h =
    let s : Session = record { committed = db; working = db; readings = 0; drawn = 0 } in
    Unchanged-committed db (m s).0 (m s).1 e (atomic.at s) h
