-- ===== src/Work/Rules/Reads.antt =====
-- Actions that change nothing of the session, and the equality of two continuations of one action.
use mathlib.Core.Path.{subst}
use context_vault.Prelude.{
  ◌+◌, ◌≡◌, ◌≢◌, refl, sym, ap, ◌∙◌, Bool, true, false, Option, none, some, List,
}
use context_vault.Domain.WorkGraph.{WorkGraphError}
use context_vault.Work.Rows.{Db, Instant}
use context_vault.Work.Session.{
  Env, Result, ok, err, Session, read_clock, Action, pure, lift, gets, continue, ◌>>=◌, raise_if,
  one_or_none, require,
}

pub record Reads {A : Type 0} (m : Action A) : Type 0 where
  pub at : (s : Session) → (m s).1 ≡ s

pub Reads-raise_if : (b : Bool) (e : WorkGraphError) → Reads (raise_if b e)
unfolding raise_if
Reads-raise_if true e = record { at = λ s. refl }
Reads-raise_if false e = record { at = λ s. refl }

module _ {A : Type 0} where
  pub Reads-pure : (a : A) → Reads (pure a)
  unfolding pure
  Reads-pure a = record { at = λ s. refl }

  pub Reads-lift : (r : Result A) → Reads (lift r)
  unfolding lift
  Reads-lift r = record { at = λ s. refl }

  pub Reads-gets : (f : Db → A) → Reads (gets f)
  unfolding gets
  Reads-gets f = record { at = λ s. refl }

  pub Reads-require : (o : Option A) (e : WorkGraphError) → Reads (require o e)
  unfolding require
  Reads-require none e = record { at = λ s. refl }
  Reads-require (some a) e = record { at = λ s. refl }

  pub Reads-one_or_none : (table : Db → List A) (test : A → Bool) → Reads (one_or_none table test)
  unfolding one_or_none
  Reads-one_or_none table test = record { at = λ s. refl }

module _ {A B : Type 0} where
  continue-Reads :
      (r : Result A) (f : A → Action B) (s : Session)
      → ((a : A) → Reads (f a))
      → (continue r f s).1 ≡ s
  continue-Reads (ok a) f s q = (q a).at s
  continue-Reads (err e) f s q = refl

  pub Reads-bind :
      (m : Action A) (f : A → Action B) → Reads m → ((a : A) → Reads (f a)) → Reads (m >>= f)
  unfolding ◌>>=◌
  Reads-bind m f qm qf = record {
    at = λ s. let (r, s') = m s in continue-Reads r f s' qf ∙ qm.at s;
  }

  continue-agree :
      (r : Result A) (f g : A → Action B) (s s' : Session)
      → s' ≡ s
      → ((a : A) → r ≡ ok a → f a s ≡ g a s)
      → continue r f s' ≡ continue r g s'
  continue-agree (ok a) f g s s' e k = subst (λ (t : Session). f a t ≡ g a t) (sym e) (k a refl)
  continue-agree (err x) f g s s' e k = refl

  -- After an action that reads, two continuations that agree on its result agree.
  pub Reads-agree :
      (m : Action A) (f g : A → Action B) (s : Session)
      → Reads m
      → ((a : A) → (m s).0 ≡ ok a → f a s ≡ g a s)
      → (m >>= f) s ≡ (m >>= g) s
  unfolding ◌>>=◌
  Reads-agree m f g s q k = let (r, s') = m s in continue-agree r f g s s' (q.at s) k

continue-refused :
    {A B : Type 0} (r : Result A) (f g : A → Action B) (s : Session)
    → ((a : A) → r ≢ ok a)
    → continue r f s ≡ continue r g s
continue-refused (ok a) f g s refused = absurd (refused a refl)
continue-refused (err e) f g s refused = refl

-- After an action that raises, what would have followed does not matter.
pub refused-agree :
    {A B : Type 0} (m : Action A) (f g : A → Action B) (s : Session)
    → ((a : A) → (m s).0 ≢ ok a)
    → (m >>= f) s ≡ (m >>= g) s
unfolding ◌>>=◌
refused-agree m f g s refused = let (r, s') = m s in continue-refused r f g s' refused

module _ {A B : Type 0} where
  continue-returned :
      (r : Result A) (f : A → Action B) (s' s : Session) (b : B)
      → s' ≡ s
      → (continue r f s').0 ≡ ok b
      → (a : A) × (r ≡ ok a) × ((f a s).0 ≡ ok b)
  continue-returned (ok a) f s' s b same h = (a, refl, rw (← same) h)
  continue-returned (err e) f s' s b same h = cc

  -- An action that reads and is followed by a return has returned, and left the session alone.
  pub Reads-returned :
      (m : Action A) (f : A → Action B) (s : Session) (b : B)
      → Reads m
      → ((m >>= f) s).0 ≡ ok b
      → (a : A) × ((m s).0 ≡ ok a) × ((f a s).0 ≡ ok b)
  unfolding ◌>>=◌
  Reads-returned m f s b q h = let (r, s') = m s in continue-returned r f s' s b (q.at s) h

module _ {A B : Type 0} where
  continue-done :
      (r : Result A) (f : A → Action B) (s' s : Session) (b : B) (t : Session)
      → s' ≡ s
      → continue r f s' ≡ (ok b, t)
      → (a : A) × (r ≡ ok a) × (f a s ≡ (ok b, t))
  continue-done (ok a) f s' s b t same h = (a, refl, rw (← same) h)
  continue-done (err e) f s' s b t same h =
      let absurd : err e ≡ ok b = ap (λ (p : Result B × Session). p.0) h in cc

  -- The same, with the session that the whole leaves.
  pub Reads-done :
      (m : Action A) (f : A → Action B) (s : Session) (b : B) (t : Session)
      → Reads m
      → (m >>= f) s ≡ (ok b, t)
      → (a : A) × ((m s).0 ≡ ok a) × (f a s ≡ (ok b, t))
  unfolding ◌>>=◌
  Reads-done m f s b t q h = let (r, s') = m s in continue-done r f s' s b t (q.at s) h

pub raise_if-returned :
    (b : Bool) (e : WorkGraphError) (s : Session) → (raise_if b e s).0 ≡ ok tt → b ≡ false
unfolding raise_if
raise_if-returned true e s h = cc
raise_if-returned false e s h = refl

pub require-returned :
    {A : Type 0} (o : Option A) (e : WorkGraphError) (s : Session) (a : A)
    → (require o e s).0 ≡ ok a
    → o ≡ some a
unfolding require
require-returned none e s a h = cc
require-returned (some b) e s a h = cc

pub gets-returned :
    {A : Type 0} (f : Db → A) (s : Session) (a : A) → (gets f s).0 ≡ ok a → f s.working ≡ a
unfolding gets
gets-returned f s a h = cc

-- The session after a reading of the clock.
abbrev pub ticked : Session → Session
ticked s = record s { readings = s.readings + 1 }

pub ok-inj : {A : Type 0} (a b : A) → ok a ≡ ok b → a ≡ b
ok-inj a b h = cc

pub read_clock-done :
    {B : Type 0} (env : Env) (f : Instant → Action B) (s : Session) (b : B) (t : Session)
    → (read_clock env >>= f) s ≡ (ok b, t)
    → f (env.clock s.readings) (ticked s) ≡ (ok b, t)
unfolding read_clock ◌>>=◌
read_clock-done env f s b t h = h

module _ {A B : Type 0} where
  continue-bound :
      (r : Result A) (f : A → Action B) (s : Session) (b : B) (t : Session)
      → continue r f s ≡ (ok b, t)
      → (a : A) × (r ≡ ok a) × (f a s ≡ (ok b, t))
  continue-bound (ok a) f s b t h = (a, refl, h)
  continue-bound (err e) f s b t h =
      let absurd : err e ≡ ok b = ap (λ (p : Result B × Session). p.0) h in cc

  -- An action that is followed by a return has returned.
  pub bind-done :
      (m : Action A) (f : A → Action B) (s : Session) (b : B) (t : Session)
      → (m >>= f) s ≡ (ok b, t)
      → (a : A) × ((m s).0 ≡ ok a) × (f a (m s).1 ≡ (ok b, t))
  unfolding ◌>>=◌
  bind-done m f s b t h = let (r, s') = m s in continue-bound r f s' b t h

-- An action whose answer is not used, and then a value.
pub then_pure-done :
    {A B : Type 0} (m : Action A) (b c : B) (s t : Session)
    → (m >>= λ _. pure b) s ≡ (ok c, t)
    → (b ≡ c) × ((m s).1 ≡ t)
unfolding ◌>>=◌ pure
then_pure-done {A = A} {B = B} m b c s t h = let (r, s') = m s in answered r s' h
  where
    answered :
        (r : Result A) (s' : Session)
        → continue r (λ _ after. (ok b, after)) s' ≡ (ok c, t)
        → (b ≡ c) × (s' ≡ t)
    answered (ok a) s' k = (
      ok-inj b c (ap (λ (p : Result B × Session). p.0) k),
      ap (λ (p : Result B × Session). p.1) k,
    )
    answered (err e) s' k = let absurd : err e ≡ ok c = ap (λ (p : Result B × Session). p.0) k in cc

pub ruleset reads_rules = (
  Reads-pure, Reads-lift, Reads-gets, Reads-require, Reads-one_or_none, Reads-raise_if, Reads-bind,
)
