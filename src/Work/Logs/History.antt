-- ===== src/Work/Logs/History.antt =====
-- What any run of requests leaves in the receipts and the events.
use context_vault.Prelude.{
  ◌≡◌, sym, ◌∙◌, ap, Option, none, some, List, [], ◌∷◌, ◌++◌, All, All-append,
}
use mathlib.Core.List.{append-nil, append_assoc}
use mathlib.Core.Path.{subst}
use context_vault.Work.Rows.{Db, WorkReceipt, WorkEvent}
use context_vault.Work.Session.{run}
use context_vault.Work.Effects.{Dispatcher}
use context_vault.Work.Requests.{
  Service, Request, create_request, ready_request, prepare_request, claim_request,
  heartbeat_request, approval_request, apply_request, verify_request, close_request,
  reconcile_request, rollback_request, handle, serve,
}
use context_vault.Work.Rules.Keeps.{Keeps, keeps_rules, run-Keeps}
use context_vault.Work.Logs.Rows.{IsSoundReceipt, IsSoundEvent}
use context_vault.Work.Logs.Writers.{IsLog, OnLogs}
use context_vault.Work.Logs.Leases.{
  Log-create_work_item, Log-mark_ready, Log-prepare, Log-claim, Log-heartbeat,
}
use context_vault.Work.Logs.Outcomes.{Log-grant_approval, Log-verify, Log-close}
use context_vault.Work.Logs.Reconciling.{Log-reconcile_stale_leases}
use context_vault.Work.Logs.Effects.{Log-apply}
use context_vault.Work.Logs.Undoing.{Log-rollback}

-- The other sessions that commit while an effect runs keep `P`.
abbrev pub IsTame : (Db → Type 0) → Option Dispatcher → Type 0
IsTame P none = Unit
IsTame P (some d) = (db : Db) → P db → P (d.meanwhile db)

abbrev pub AllTame : (Db → Type 0) → List (Service × Request) → Type 0
AllTame P [] = Unit
AllTame P ((s, r) ∷ rest) = IsTame P s.dispatcher × AllTame P rest

module _ {L : List WorkReceipt → List WorkEvent → Type 0} (log : IsLog L) where
  tame_of :
      (configured : Option Dispatcher)
      → IsTame (OnLogs L) configured
      → (d : Dispatcher) → configured ≡ some d
      → (db : Db) → OnLogs L db
      → OnLogs L (d.meanwhile db)
  tame_of none t d e db h = cc
  tame_of (some d') t d e db h =
      let same : d' ≡ d = cc in subst (λ (x : Dispatcher). OnLogs L (x.meanwhile db)) same (t db h)

  Log-handle :
      (s : Service) (r : Request) → IsTame (OnLogs L) s.dispatcher → Keeps (OnLogs L) (handle s r)
  unfolding handle
  Log-handle s (create_request args) t = search (keeps_rules, Log-create_work_item log)
  Log-handle s (ready_request id actor) t = search (keeps_rules, Log-mark_ready log)
  Log-handle s (prepare_request id observed) t = search (keeps_rules, Log-prepare log)
  Log-handle s (claim_request id args) t = search (keeps_rules, Log-claim log)
  Log-handle s (heartbeat_request id token by) t = search (keeps_rules, Log-heartbeat log)
  Log-handle s (approval_request id args) t = search (keeps_rules, Log-grant_approval log)
  Log-handle s (apply_request id args) t =
      search (keeps_rules, Log-apply log, tame_of s.dispatcher t)
  Log-handle s (verify_request id args) t = search (keeps_rules, Log-verify log)
  Log-handle s (close_request id args) t = search (keeps_rules, Log-close log)
  Log-handle s (reconcile_request fetch limit) t =
      search (keeps_rules, Log-reconcile_stale_leases log)
  Log-handle s (rollback_request id args) t =
      search (keeps_rules, Log-rollback log, tame_of s.dispatcher t)

  serve-OnLogs :
      (requests : List (Service × Request)) (db : Db)
      → AllTame (OnLogs L) requests
      → OnLogs L db
      → OnLogs L (serve requests db)
  unfolding serve
  serve-OnLogs [] db t h = h
  serve-OnLogs ((s, r) ∷ rest) db t h =
      serve-OnLogs rest (run (handle s r) db).1 t.1 (run-Keeps _ db (Log-handle s r t.0) h)

-- Every receipt and every event of the database is sound.
abbrev pub SoundLogs : Db → Type 0
SoundLogs = OnLogs (λ rs es. All IsSoundReceipt rs × All IsSoundEvent es)

SoundLogs-IsLog : IsLog (λ rs es. All IsSoundReceipt rs × All IsSoundEvent es)
SoundLogs-IsLog = record {
  add_receipt = λ r rs es sound h. (All-append IsSoundReceipt rs (r ∷ []) h.0 (sound, tt), h.1);
  add_event = λ e rs es sound h. (h.0, All-append IsSoundEvent es (e ∷ []) h.1 (sound, tt));
}

-- From a database with sound logs, any run of requests, failing or not and with any answers of
-- the environment, leaves sound logs: a receipt is terminal exactly if it closes, has no parent
-- if it applies and one if it verifies, closes or rolls back, is signed by an admitted signer,
-- and carries acceptance evidence if it verifies or closes; an event creates a draft, stays, or
-- takes an allowed transition. The sessions that commit while an effect runs are assumed to keep
-- this.
pub serve-SoundLogs :
    (requests : List (Service × Request)) (db : Db)
    → AllTame SoundLogs requests
    → SoundLogs db
    → SoundLogs (serve requests db)
serve-SoundLogs = serve-OnLogs SoundLogs-IsLog

-- `ys` is `xs` with rows appended.
abbrev pub Extends : {A : Type 0} → List A → List A → Type 0
Extends {A} xs ys = (zs : List A) × (ys ≡ xs ++ zs)

-- The logs of `db` extend those of `base`.
abbrev pub ExtendsLogs : Db → Db → Type 0
ExtendsLogs base = OnLogs (λ rs es. Extends base.receipts rs × Extends base.events es)

Extends-append : {A : Type 0} (xs ys : List A) (y : A) → Extends xs ys → Extends xs (ys ++ y ∷ [])
Extends-append xs ys y (zs, e) =
    (zs ++ y ∷ [], ap (λ l. l ++ y ∷ []) e ∙ append_assoc xs zs (y ∷ []))

ExtendsLogs-IsLog : (base : Db) → IsLog (λ rs es. Extends base.receipts rs × Extends base.events es)
ExtendsLogs-IsLog base = record {
  add_receipt = λ r rs es _ h. (Extends-append base.receipts rs r h.0, h.1);
  add_event = λ e rs es _ h. (h.0, Extends-append base.events es e h.1);
}

-- Receipts and events are append-only: whatever the requests, the receipts and the events of the
-- database are a prefix of those afterwards, if the sessions that commit while an effect runs only
-- append to them too.
pub serve-ExtendsLogs :
    (requests : List (Service × Request)) (db : Db)
    → AllTame (ExtendsLogs db) requests
    → ExtendsLogs db (serve requests db)
serve-ExtendsLogs requests db t =
    serve-OnLogs (ExtendsLogs-IsLog db) requests db t
      (([], sym (append-nil db.receipts)), ([], sym (append-nil db.events)))
