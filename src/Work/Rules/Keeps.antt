-- ===== src/Work/Rules/Keeps.antt =====
-- Invariants of the database under actions: an action keeps `P` if what is committed and what the
-- transaction has written satisfy it before and after, whether the action returns or raises.
use context_vault.Prelude.{◌≡◌, refl, Bool, true, false, Option, none, some, List, if◌then◌else◌}
use context_vault.Domain.WorkGraph.{WorkGraphError, Verdict, admit, reject}
use context_vault.Work.Rows.{Db}
use context_vault.Work.Session.{
  Result, ok, err, Env, Session, Action, pure, raise, lift, gets, continue, ◌>>=◌, raise_if, check,
  when, modify, commit, one_or_none, require, read_clock, new_uuid, run,
}
use context_vault.Work.Effects.{Dispatcher, run_effect}

-- Both views of a session satisfy `P`.
abbrev pub Both : (Db → Type 0) → Session → Type 0
Both P s = P s.committed × P s.working

pub record Keeps {A : Type 0} (P : Db → Type 0) (m : Action A) : Type 0 where
  pub at : (s : Session) → Both P s → Both P (m s).1

module _ {P : Db → Type 0} where
  pub run-Keeps : {A : Type 0} (m : Action A) (db : Db) → Keeps P m → P db → P (run m db).1
  unfolding run
  run-Keeps m db k h =
      (k.at (record { committed = db; working = db; readings = 0; drawn = 0 }) (h, h)).0

  pub Keeps-commit : Keeps P commit
  unfolding commit
  Keeps-commit = record { at = λ s h. (h.1, h.1) }

  pub Keeps-raise_if : (b : Bool) (e : WorkGraphError) → Keeps P (raise_if b e)
  unfolding raise_if
  Keeps-raise_if true e = record { at = λ s h. h }
  Keeps-raise_if false e = record { at = λ s h. h }

  pub Keeps-read_clock : (env : Env) → Keeps P (read_clock env)
  unfolding read_clock
  Keeps-read_clock env = record { at = λ s h. h }

  pub Keeps-new_uuid : (env : Env) → Keeps P (new_uuid env)
  unfolding new_uuid
  Keeps-new_uuid env = record { at = λ s h. h }

  pub Keeps-when : (b : Bool) (m : Action (Unit {0})) → Keeps P m → Keeps P (when b m)
  unfolding when pure
  Keeps-when true m k = k
  Keeps-when false m k = record { at = λ s h. h }

  pub Keeps-modify : (f : Db → Db) → ((db : Db) → P db → P (f db)) → Keeps P (modify f)
  unfolding modify
  Keeps-modify f k = record { at = λ s h. (h.0, k s.working h.1) }

module _ {P : Db → Type 0} {A : Type 0} where
  -- An action that leaves the session alone
  pub Keeps-unmoved : (m : Action A) → ((before : Session) → (m before).1 ≡ before) → Keeps P m
  Keeps-unmoved m same = record { at = λ before both. rw (same before) both }

  pub Keeps-one_or_none : (table : Db → List A) (test : A → Bool) → Keeps P (one_or_none table test)
  unfolding one_or_none
  Keeps-one_or_none table test = record { at = λ before both. both }

  pub Keeps-require : (row : Option A) (missing : WorkGraphError) → Keeps P (require row missing)
  unfolding require
  Keeps-require none missing = Keeps-unmoved _ λ before. refl
  Keeps-require (some found) missing = Keeps-unmoved _ λ before. refl

  pub Keeps-gets : (read : Db → A) → Keeps P (gets read)
  unfolding gets
  Keeps-gets read = Keeps-unmoved _ λ before. refl

  pub Keeps-raise : (error : WorkGraphError) → Keeps P (raise {A = A} error)
  unfolding raise
  Keeps-raise error = Keeps-unmoved _ λ before. refl

  pub Keeps-pure : (answer : A) → Keeps P (pure answer)
  unfolding pure
  Keeps-pure answer = Keeps-unmoved _ λ before. refl

  pub Keeps-lift : (answer : Result A) → Keeps P (lift answer)
  unfolding lift
  Keeps-lift answer = Keeps-unmoved _ λ before. refl

  pub Keeps-if :
      (test : Bool) (m n : Action A) → Keeps P m → Keeps P n → Keeps P (if test then m else n)
  Keeps-if true m n kept other = kept
  Keeps-if false m n other kept = kept

  pub Keeps-run_effect :
      (d : Dispatcher) (a : A) → ((db : Db) → P db → P (d.meanwhile db)) → Keeps P (run_effect d a)
  unfolding run_effect
  Keeps-run_effect d a k = record { at = λ s h. (k s.committed h.0, k s.committed h.0) }

module _ {P : Db → Type 0} {A B : Type 0} where
  continue-Keeps :
      (answer : Result A) (next : A → Action B) (after : Session)
      → ((value : A) → Keeps P (next value))
      → Both P after
      → Both P (continue answer next after).1
  continue-Keeps (ok value) next after kept both = (kept value).at after both
  continue-Keeps (err raised) next after kept both = both

  pub Keeps-bind :
      (first : Action A) (next : A → Action B)
      → Keeps P first
      → ((value : A) → Keeps P (next value))
      → Keeps P (first >>= next)
  unfolding ◌>>=◌
  Keeps-bind first next before_kept kept = record {
    at = λ before both.
        let (answer, after) = first before in
        continue-Keeps answer next after kept (before_kept.at before both);
  }

  pub Keeps-option :
      (row : Option A) (absent : Action B) (found : A → Action B)
      → Keeps P absent
      → ((value : A) → Keeps P (found value))
      → Keeps P (elim row [ none ↦ absent | some value ↦ found value ])
  Keeps-option none absent found kept each = kept
  Keeps-option (some value) absent found kept each = each value

-- A check of the domain lets the rest use that it admitted.
pub Keeps-check :
    {P : Db → Type 0} {B : Type 0} (v : Verdict) (f : Unit {0} → Action B)
    → (v ≡ admit → Keeps P (f tt))
    → Keeps P (check v >>= f)
unfolding check ◌>>=◌
Keeps-check admit f k = k refl
Keeps-check (reject e) f k = record { at = λ s h. h }

-- A guard lets the rest use that it did not refuse.
pub Keeps-guard :
    {P : Db → Type 0} {B : Type 0} (b : Bool) (e : WorkGraphError) (f : Unit {0} → Action B)
    → (b ≡ false → Keeps P (f tt))
    → Keeps P (raise_if b e >>= f)
unfolding raise_if ◌>>=◌
Keeps-guard true e f k = record { at = λ s h. h }
Keeps-guard false e f k = k refl

-- The row that is required is the one that was found.
pub Keeps-required :
    {P : Db → Type 0} {A B : Type 0} (o : Option A) (e : WorkGraphError) (f : A → Action B)
    → ((a : A) → o ≡ some a → Keeps P (f a))
    → Keeps P (require o e >>= f)
unfolding require ◌>>=◌
Keeps-required none e f k = record { at = λ s h. h }
Keeps-required (some a) e f k = k a refl

pub ruleset keeps_rules = (
  Keeps-bind, Keeps-if, Keeps-option, Keeps-when, Keeps-commit, Keeps-read_clock, Keeps-new_uuid,
  Keeps-one_or_none, Keeps-require, Keeps-raise_if, Keeps-gets, Keeps-raise, Keeps-pure, Keeps-lift,
)
