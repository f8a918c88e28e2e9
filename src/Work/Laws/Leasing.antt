-- ===== src/Work/Laws/Leasing.antt =====
-- `claim`: no lease is taken over another live one, and what a granted lease stores.
use mathlib.Core.List.{Memᴰ}
use mathlib.Core.Path.{subst}
use context_vault.Prelude.{
  Mem-select, ℕ, pos, refl, ◌⊎◌, inl, inr, ◌≤◌, ◌≡◌, String, false, not, ◌||◌, Option, none, some,
  List, [], ◌∷◌, arith,
}
use context_vault.Domain.WorkGraph.{WorkStatus, active, ready, claimed, status_eq, claim_is_active}
use context_vault.Work.Rows.{Instant, WorkItem, WorkClaim}
use context_vault.Work.Session.{Env, ok, Session, at_most_one, one_or_none}
use context_vault.Work.Lifecycle.{PreparedWork, validate_prepared}
use context_vault.Work.Claims.{ClaimRequest, ClaimResult, still_leased, retire_expired, claim_new}
use context_vault.Work.Rules.Reads.{
  Reads, reads_rules, Reads-returned, Reads-done, bind-done, raise_if-returned,
}
use context_vault.Work.Laws.Acquiring.{IsLeased, acquire-left, retire_expired-items}

at_most_one-Mem :
    {A : Type 0} (xs : List A) (o : Option A) (a : A)
    → at_most_one xs ≡ ok o
    → Memᴰ a xs
    → o ≡ some a
at_most_one-Mem [] o a e m = elim m [ ]
at_most_one-Mem (x ∷ []) o a e (Memᴰ.head same) = cc
at_most_one-Mem (x ∷ []) o a e (Memᴰ.tail m) = elim m [ ]
at_most_one-Mem (x ∷ y ∷ rest) o a e m = cc

Reads-validate_prepared :
    (env : Env) (item : WorkItem) (prepared : PreparedWork)
    → Reads (validate_prepared env item prepared)
unfolding validate_prepared
Reads-validate_prepared env item prepared = search reads_rules

live_refused :
    (c : WorkClaim) (current : Option WorkClaim) (now : Instant)
    → current ≡ some c
    → still_leased current now ≡ false
    → c.expires_at ≤ now
live_refused c none now found over = cc
live_refused c (some d) now found over = let same : d ≡ c = cc in rw (← same) (ground arith)

-- If a claim under a new idempotency key is granted, every claim of the item that is active in
-- the session at that time has run out.
pub claim_new_exclusive :
    (env : Env) (item : WorkItem) (args : ClaimRequest) (hash : String) (now : Instant)
    (s : Session) (granted : ClaimResult) (c : WorkClaim)
    → (claim_new env item args hash now s).0 ≡ ok granted
    → Memᴰ c s.working.claims
    → c.work_item_id ≡ item.id
    → c.status ≡ active
    → c.expires_at ≤ now
unfolding claim_new claim_is_active one_or_none
claim_new_exclusive env item args hash now s granted c returned m same is_active =
    let (u1, e1, h1) =
      Reads-returned _ _ s granted (Reads-validate_prepared env item args.prepared) returned in
    let (u2, e2, h2) = Reads-returned _ _ s granted (search reads_rules) h1 in
    let (current, e3, h3) = Reads-returned _ _ s granted (search reads_rules) h2 in
    let (u4, e4, h4) = Reads-returned _ _ s granted (search reads_rules) h3 in
    live_refused c current now
      (at_most_one-Mem _ current c e3 (Mem-select _ s.working.claims c m (ground arith)))
      (raise_if-returned _ _ s e4)

may_claim-of :
    (status : WorkStatus)
    → not (status_eq status ready || status_eq status claimed) ≡ false
    → (status ≡ ready) ⊎ (status ≡ claimed)
unfolding status_eq
may_claim-of ready h = inl refl
may_claim-of claimed h = inr refl
may_claim-of _ h = cc

-- If a claim under a new idempotency key and for a positive time is granted, the item was READY or
-- CLAIMED, and the answer and the committed database agree on a new lease: an active claim row and an
-- attempt row of the item stand under the ids of the answer, the lease under the answer's fencing token
-- and end; the token is the one after the last that the item has given out, the end is the requested time
-- from now; and the stored item is CLAIMED, counts the token as given out, and names the token and the
-- attempt as its active ones.
pub claim_new-IsLeased :
    (env : Env) (item : WorkItem) (args : ClaimRequest) (hash : String) (now : Instant)
    (duration : ℕ) (s : Session) (granted : ClaimResult) (after : Session)
    → args.lease_duration ≡ pos duration
    → claim_new env item args hash now s ≡ (ok granted, after)
    → ((item.status ≡ ready) ⊎ (item.status ≡ claimed))
      × IsLeased item args now duration granted s.working.items after.committed
unfolding claim_new
claim_new-IsLeased env item args hash now duration s granted after lasts h =
    let (u1, e1, h1) =
      Reads-done _ _ s granted after (Reads-validate_prepared env item args.prepared) h in
    let (u2, e2, h2) = Reads-done _ _ s granted after (search reads_rules) h1 in
    let (current, e3, h3) = Reads-done _ _ s granted after (search reads_rules) h2 in
    let (u4, e4, h4) = Reads-done _ _ s granted after (search reads_rules) h3 in
    let (u5, e5, h5) = bind-done (retire_expired env current now) _ s granted after h4 in
    let retired : Session = (retire_expired env current now s).1 in
    let (u6, e6, h6) = Reads-done _ _ retired granted after (search reads_rules) h5 in
    let status = may_claim-of item.status (raise_if-returned _ _ retired e6) in
    let leased =
      acquire-left env item args hash now duration retired granted after status lasts h6 in
    (
      status,
      subst (λ items. IsLeased item args now duration granted items after.committed)
          (retire_expired-items env current now s) leased,
    )
