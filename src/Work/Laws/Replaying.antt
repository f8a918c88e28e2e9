-- ===== src/Work/Laws/Replaying.antt =====
-- At most once: a request whose idempotency key has a receipt or an intent runs no effect.
use context_vault.Prelude.{
  ◌≡◌, ◌≢◌, refl, String, ◌&&◌, ◌⊎◌, inl, inr, Option, none, some, List, [], ◌∷◌, select, ◌==◌,
  ◌=text◌, option_eq, ==→eq,
}
use context_vault.Json.{Fields}
use context_vault.Domain.WorkGraph.{WorkGraphError, ActorType, work_not_found}
use context_vault.Work.Rows.{Uuid, Db, WorkItem, WorkAttempt, WorkClaim, WorkReceipt}
use context_vault.Work.Session.{Env, Session, ok, Action, ◌>>=◌, at_most_one, one_or_none, require}
use context_vault.Work.Events.{locked_item}
use context_vault.Work.Authority.{ScopedEffectContext, validate_signer, scoped_effect_context}
use context_vault.Work.Effects.{Dispatcher}
use context_vault.Work.Apply.{apply_by_intent, apply_by_receipt, apply}
use context_vault.Work.Apply.Begin.{ApplyRequest, is_apply, locked_apply_rows, find_apply_receipt}
use context_vault.Work.Rules.Reads.{Reads, Reads-agree, Reads-one_or_none, reads_rules}
use context_vault.Work.Rules.Returns.{
  Returns, Returns-bind, Returns-from, Returns-pure, Returns-weaken, require-Returns,
  one_or_none-Returns,
}

-- The receipts and the intents of the work item under the key.
abbrev pub key_receipts : Uuid → String → Db → List WorkReceipt
key_receipts id key db =
    select (λ r. r.work_item_id == id && is_apply r.receipt_type && r.idempotency_key =text key)
      db.receipts

abbrev pub key_intents : Uuid → String → Db → List WorkAttempt
key_intents id key db =
    select (λ a. a.work_item_id == id && option_eq ◌=text◌ a.effect_idempotency_key (some key))
      db.attempts

Reads-validate_signer : (t : ActorType) (i : String) → Reads (validate_signer t i)
unfolding validate_signer
Reads-validate_signer t i = search reads_rules

Reads-locked_apply_rows : (id claim_id : Uuid) → Reads (locked_apply_rows id claim_id)
unfolding locked_apply_rows locked_item
Reads-locked_apply_rows id claim_id = search reads_rules depth 12

Reads-scoped_effect_context :
    (env : Env) (item : WorkItem) (c : WorkClaim) → Reads (scoped_effect_context env item c)
unfolding scoped_effect_context
Reads-scoped_effect_context env item c = search reads_rules

Reads-find_apply_receipt : (id : Uuid) (key : String) → Reads (find_apply_receipt id key)
unfolding find_apply_receipt
Reads-find_apply_receipt id key = search reads_rules

-- A query that finds a row does not answer that there is none.
at_most_one-found : {A : Type 0} (xs : List A) → xs ≢ [] → at_most_one xs ≢ ok none
at_most_one-found [] found e = found refl
at_most_one-found (x ∷ []) found e = cc
at_most_one-found (x ∷ y ∷ rest) found e = cc

-- The loaded item has the id that was asked for.
locked_item-id : (id : Uuid) → Returns (λ (r : WorkItem). r.id ≡ id) (locked_item id)
unfolding locked_item
locked_item-id id = Returns-from _ _ (one_or_none-Returns _ _) λ found passes.
    Returns-weaken _ (λ r e. ==→eq r.id id (passes r e)) (require-Returns found work_not_found)

locked_apply_rows-id :
    (id claim_id : Uuid)
    → Returns
        (λ (rows : WorkItem × WorkClaim × WorkAttempt). rows.0.id ≡ id)
        (locked_apply_rows id claim_id)
unfolding locked_apply_rows
locked_apply_rows-id id claim_id =
    Returns-from _ _ (locked_item-id id) λ item same. search (Returns-bind, Returns-pure, same)

module _ (env : Env) (d d' : Dispatcher) (id : Uuid) (item : WorkItem) (c : WorkClaim)
    (a : WorkAttempt) (context : ScopedEffectContext) (args : ApplyRequest) (binding : Fields)
    (hash : String) (s : Session) where
  intent-agree :
      (intent : Option WorkAttempt)
      → intent ≢ none
      → apply_by_intent intent env d id item c a context args binding hash s
        ≡ apply_by_intent intent env d' id item c a context args binding hash s
  unfolding apply_by_intent
  intent-agree none found = absurd (found refl)
  intent-agree (some prior) found = refl

  intent_found :
      (intent : Option WorkAttempt)
      → key_intents item.id args.idempotency_key s.working ≢ []
      → at_most_one (key_intents item.id args.idempotency_key s.working) ≡ ok intent
      → intent ≢ none
  intent_found intent known e n = at_most_one-found _ known (rw n at e)

  receipt-agree :
      (replay : Option WorkReceipt)
      → (replay ≢ none) ⊎ (key_intents item.id args.idempotency_key s.working ≢ [])
      → apply_by_receipt replay env d id item c a context args binding hash s
        ≡ apply_by_receipt replay env d' id item c a context args binding hash s
  unfolding apply_by_receipt one_or_none
  receipt-agree (some r) known = refl
  receipt-agree none (inl found) = absurd (found refl)
  receipt-agree none (inr known) =
      Reads-agree _ _ _ s
        (Reads-one_or_none (λ (db : Db). db.attempts)
          (λ (a' : WorkAttempt).
            a'.work_item_id == item.id
            && option_eq ◌=text◌ a'.effect_idempotency_key (some args.idempotency_key)))
        λ intent e. intent-agree intent (intent_found intent known e)

required-agree :
    {A B : Type 0} (d d' : A) (e : WorkGraphError) (f g : A → Action B) (s : Session)
    → f d s ≡ g d' s
    → (require (some d) e >>= f) s ≡ (require (some d') e >>= g) s
unfolding require ◌>>=◌
required-agree d d' e f g s h = h

replay_found :
    (id : Uuid) (key : String) (s : Session) (replay : Option WorkReceipt)
    → (key_receipts id key s.working ≢ []) ⊎ (key_intents id key s.working ≢ [])
    → (find_apply_receipt id key s).0 ≡ ok replay
    → (replay ≢ none) ⊎ (key_intents id key s.working ≢ [])
unfolding find_apply_receipt one_or_none
replay_found id key s replay (inl known) e = inl (λ n. at_most_one-found _ known (rw n at e))
replay_found id key s replay (inr known) e = inr known

-- At most once: if the work item has an apply receipt or a started attempt under the idempotency
-- key, `apply` gives the same result and leaves the same session with any two dispatchers.
pub apply_at_most_once :
    (env : Env) (d d' : Dispatcher) (id : Uuid) (args : ApplyRequest) (s : Session)
    → (key_receipts id args.idempotency_key s.working ≢ [])
      ⊎ (key_intents id args.idempotency_key s.working ≢ [])
    → apply env (some d) id args s ≡ apply env (some d') id args s
unfolding apply
apply_at_most_once env d d' id args s known =
    Reads-agree _ _ _ s (Reads-validate_signer args.signer_type args.signer_id) λ _ _.
      Reads-agree _ _ _ s (Reads-locked_apply_rows id args.claim_id) λ rows loaded.
        let same = (locked_apply_rows-id id args.claim_id).at s rows loaded in
        required-agree d d' _ _ _ s (
          Reads-agree _ _ _ s (Reads-scoped_effect_context env rows.0 rows.1) λ context _.
            Reads-agree _ _ _ s (Reads-find_apply_receipt rows.0.id args.idempotency_key)
              λ replay e.
                receipt-agree env d d' id rows.0 rows.1 rows.2 context args _ _ s replay
                  (replay_found rows.0.id args.idempotency_key s replay (rw same known) e))
