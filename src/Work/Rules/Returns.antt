-- ===== src/Work/Rules/Returns.antt =====
-- What an action that returns has returned.
use context_vault.Prelude.{
  All-select, ◌≡◌, refl, Bool, true, false, Option, none, some, List, [], ◌∷◌, select, All,
  if◌then◌else◌,
}
use context_vault.Domain.WorkGraph.{WorkGraphError}
use context_vault.Work.Rows.{Db}
use context_vault.Work.Session.{
  Result, ok, err, Session, Action, pure, raise, continue, ◌>>=◌, raise_if, require, at_most_one,
  one_or_none,
}

pub record Returns {A : Type 0} (Q : A → Type 0) (m : Action A) : Type 0 where
  pub at : (s : Session) (a : A) → (m s).0 ≡ ok a → Q a

-- The action never returns.
abbrev pub Raises : {A : Type 0} → Action A → Type 0
Raises {A} m = Returns {A = A} (λ _. ⊥) m

module _ {A : Type 0} {Q : A → Type 0} where
  pub Returns-pure : (a : A) → Q a → Returns Q (pure a)
  unfolding pure
  Returns-pure a q = record { at = λ s b e. let same : a ≡ b = cc in rw same at q }

  pub Returns-raise : (e : WorkGraphError) → Returns Q (raise e)
  unfolding raise
  Returns-raise e = record { at = λ s b h. cc }

  pub Returns-if :
      (b : Bool) (m n : Action A) → Returns Q m → Returns Q n → Returns Q (if b then m else n)
  Returns-if true m n qm qn = qm
  Returns-if false m n qm qn = qn

module _ {A B : Type 0} {Q : B → Type 0} where
  continue-Returns :
      (r : Result A) (f : A → Action B) (s : Session) (b : B)
      → ((a : A) → Returns Q (f a))
      → (continue r f s).0 ≡ ok b
      → Q b
  continue-Returns (ok a) f s b q h = (q a).at s b h
  continue-Returns (err e) f s b q h = cc

  pub Returns-bind :
      (m : Action A) (f : A → Action B) → ((a : A) → Returns Q (f a)) → Returns Q (m >>= f)
  unfolding ◌>>=◌
  Returns-bind m f q = record { at = λ s b h. let (r, s') = m s in continue-Returns r f s' b q h }

  -- What follows may use what the first action returns.
  continue-Returns_from :
      {R : A → Type 0} (r : Result A) (f : A → Action B) (s : Session) (b : B)
      → ((a : A) → r ≡ ok a → R a)
      → ((a : A) → R a → Returns Q (f a))
      → (continue r f s).0 ≡ ok b
      → Q b
  continue-Returns_from (ok a) f s b k q h = (q a (k a refl)).at s b h
  continue-Returns_from (err e) f s b k q h = cc

  pub Returns-from :
      {R : A → Type 0} (m : Action A) (f : A → Action B)
      → Returns R m
      → ((a : A) → R a → Returns Q (f a))
      → Returns Q (m >>= f)
  unfolding ◌>>=◌
  Returns-from m f k q = record {
    at = λ s b h. let (r, s') = m s in continue-Returns_from r f s' b (λ a e. k.at s a e) q h;
  }

  pub Returns-required :
      (o : Option A) (e : WorkGraphError) (f : A → Action B)
      → ((a : A) → o ≡ some a → Returns Q (f a))
      → Returns Q (require o e >>= f)
  unfolding require ◌>>=◌
  Returns-required none e f k = record { at = λ s b h. cc }
  Returns-required (some a) e f k = k a refl

pub require-Returns :
    {A : Type 0} (o : Option A) (e : WorkGraphError) → Returns (λ a. o ≡ some a) (require o e)
unfolding require
require-Returns none e = record { at = λ s a h. cc }
require-Returns (some b) e = record { at = λ s a h. cc }

select-at_most_one :
    {A : Type 0} (test : A → Bool) (xs : List A) (a : A)
    → at_most_one (select test xs) ≡ ok (some a)
    → test a ≡ true
select-at_most_one {A} test xs a h = found (select test xs) (All-select test xs) h
  where
    found :
        (ys : List A) → All (λ y. test y ≡ true) ys → at_most_one ys ≡ ok (some a) → test a ≡ true
    found [] all e = cc
    found (y ∷ []) all e = let same : y ≡ a = cc in rw (← same) all.0
    found (y ∷ z ∷ rest) all e = cc

-- The row that a query answers with passes its test.
pub one_or_none-Returns :
    {A : Type 0} (table : Db → List A) (test : A → Bool)
    → Returns (λ o. (a : A) → o ≡ some a → test a ≡ true) (one_or_none table test)
unfolding one_or_none
one_or_none-Returns table test = record {
  at = λ s o h a e. select-at_most_one test (table s.working) a (rw e at h);
}

pub Returns-weaken :
    {A : Type 0} {P Q : A → Type 0} (m : Action A)
    → ((a : A) → P a → Q a)
    → Returns P m
    → Returns Q m
Returns-weaken m k r = record { at = λ s a h. k a (r.at s a h) }

pub Returns-guard :
    {B : Type 0} {Q : B → Type 0} (b : Bool) (e : WorkGraphError) (f : Unit {0} → Action B)
    → (b ≡ false → Returns Q (f tt))
    → Returns Q (raise_if b e >>= f)
unfolding raise_if ◌>>=◌
Returns-guard true e f k = record { at = λ s b h. cc }
Returns-guard false e f k = k refl
