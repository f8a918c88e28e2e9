-- ===== src/Work/Session.antt =====
-- The database session of a `WorkGraphService`: what is committed, what the transaction has written,
-- and the environment that answers with instants, identifiers and hashes. A method is an action
-- that returns or raises; a raise ends the request, and its uncommitted writes are dropped.
use context_vault.Prelude.{
  ℕ, ◌+◌, String, Bool, true, false, Option, none, some, List, [], ◌∷◌, ◌++◌, select,
}
use context_vault.Json.{Json}
use context_vault.Domain.WorkGraph.{WorkGraphError, multiple_results_found, Verdict, admit, reject}
use context_vault.Work.Rows.{
  Uuid, Instant, Db, WorkItem, WorkAttempt, WorkClaim, WorkReceipt, WorkEvent, store_item,
  store_attempt, store_claim,
}

pub data Result {ℓ} (A : Type ℓ) : Type ℓ where
  ok : A → Result A
  err : WorkGraphError → Result A

-- What code outside the repository answers: the n-th reading of the clock and the n-th identifier
-- that is drawn in the session, what the column default `utc_now` gives the new row with an identifier,
-- SHA-256 of bytes (as hexadecimal digits), the canonical JSON text in
-- UTF-8, and the text of an identifier.
pub record Env : Type 0 where
  pub clock : ℕ → Instant
  pub new_id : ℕ → Uuid
  pub flushed_at : Uuid → Instant
  pub sha256 : List ℕ → String
  pub dumps : Json → List ℕ
  pub uuid_text : Uuid → String

pub record Session : Type 0 where
  pub committed : Db
  pub working : Db
  pub readings : ℕ
  pub drawn : ℕ

abbrev pub Action {ℓ} : Type ℓ → Type ℓ
Action A = Session → Result A × Session

module _ {ℓ} {A : Type ℓ} where
  unfoldable pub pure : A → Action A
  pure a s = (ok a, s)

  unfoldable pub raise : WorkGraphError → Action A
  raise e s = (err e, s)

  -- A pure result, returned or raised
  unfoldable pub lift : Result A → Action A
  lift r s = (r, s)

  unfoldable pub gets : (Db → A) → Action A
  gets f s = (ok (f s.working), s)

module _ {ℓ κ} {A : Type ℓ} {B : Type κ} where
  -- What follows an action that returned; a raise skips it.
  abbrev pub continue : (answer : Result A) → (A → Action B) → Action B
  continue (ok value) next after = next value after
  continue (err raised) next after = (err raised, after)

  infixl 10 ◌>>=◌ ◌>>◌
  unfoldable pub ◌>>=◌ : (first : Action A) (next : A → Action B) → Action B
  unfolding lift gets raise pure
  ◌>>=◌ first next before = let (answer, after) = first before in continue answer next after

  -- The first action's answer is not used.
  abbrev pub ◌>>◌ : (first : Action A) (second : Action B) → Action B
  ◌>>◌ first second = first >>= λ answer. second

-- `if refused: raise e`
unfoldable pub raise_if : Bool → WorkGraphError → Action (Unit {0})
raise_if true e s = (err e, s)
raise_if false e s = (ok tt, s)

-- An `if` with no `else`
unfoldable pub when : Bool → Action (Unit {0}) → Action (Unit {0})
when true m = m
when false m = pure tt

-- A check of the domain that returns nothing or raises.
unfoldable pub check : Verdict → Action (Unit {0})
check admit s = (ok tt, s)
check (reject e) s = (err e, s)

unfoldable pub modify : (Db → Db) → Action (Unit {0})
modify f s = (ok tt, record s { working = f s.working })

-- `self.db.commit()`
unfoldable pub commit : Action (Unit {0})
commit s = (ok tt, record s { committed = s.working })

-- `.one_or_none()` on the rows that a query selects
abbrev pub at_most_one {ℓ} : {A : Type ℓ} → List A → Result (Option A)
at_most_one [] = ok none
at_most_one (x ∷ []) = ok (some x)
at_most_one (x ∷ y ∷ rest) = err multiple_results_found

unfoldable pub one_or_none {ℓ} : {A : Type ℓ} → (Db → List A) → (A → Bool) → Action (Option A)
one_or_none table test s = (at_most_one (select test (table s.working)), s)

-- `if row is None: raise e`
unfoldable pub require {ℓ} : {A : Type ℓ} → Option A → WorkGraphError → Action A
require none e s = (err e, s)
require (some a) e s = (ok a, s)

unfoldable pub save_item : WorkItem → Action (Unit {0})
save_item row s =
    (ok tt, record s { working = record s.working { items = store_item row s.working.items } })

unfoldable pub save_attempt : WorkAttempt → Action (Unit {0})
save_attempt row s = (
  ok tt,
  record s { working = record s.working { attempts = store_attempt row s.working.attempts } },
)

unfoldable pub save_claim : WorkClaim → Action (Unit {0})
save_claim row s =
    (ok tt, record s { working = record s.working { claims = store_claim row s.working.claims } })

unfoldable pub add_receipt : WorkReceipt → Action (Unit {0})
add_receipt row s =
    (ok tt, record s { working = record s.working { receipts = s.working.receipts ++ row ∷ [] } })

unfoldable pub add_event : WorkEvent → Action (Unit {0})
add_event row s =
    (ok tt, record s { working = record s.working { events = s.working.events ++ row ∷ [] } })

module _ (env : Env) where
  -- `self.clock.now()`
  unfoldable pub read_clock : Action Instant
  read_clock s = (ok (env.clock s.readings), record s { readings = s.readings + 1 })

  -- `uuid.uuid4()`
  unfoldable pub new_uuid : Action Uuid
  new_uuid s = (ok (env.new_id s.drawn), record s { drawn = s.drawn + 1 })

  unfoldable pub canonical_hash : Json → String
  canonical_hash value = env.sha256 (env.dumps value)

-- A request runs in a session of its own: what it committed stays, however it ends.
unfoldable pub run {ℓ} : {A : Type ℓ} → Action A → Db → Result A × Db
run m db =
    let (r, s) = m (record { committed = db; working = db; readings = 0; drawn = 0 }) in
    (r, s.committed)
