-- ===== src/Work/Laws/Settling.antt =====
-- What `apply` answers after its effect.
use context_vault.Prelude.{
  ◌≡◌, refl, String, true, false, Option, none, some, List, arith, eq_iff, Bool-cases, ◌⊎◌, inl,
  inr, ap,
}
use context_vault.Json.{Json, Fields}
use context_vault.Work.Rows.{Uuid, Instant, WorkItem, WorkClaim, WorkAttempt, WorkReceipt}
use context_vault.Work.Session.{Env, Session, ok}
use context_vault.Work.Rules.Returns.{
  Raises, Returns, Returns-bind, Returns-if, Returns-raise, Returns-pure, Returns-weaken,
}
use context_vault.Work.Effects.{
  Dispatcher, EffectResult, Outcome, done, raised, absent_hash, ApplyResult, apply_result,
}
use context_vault.Work.Authority.{ScopedEffectContext}
use context_vault.Work.Apply.{apply_new, apply_by_intent, apply_by_receipt, apply}
use context_vault.Work.Apply.Begin.{ApplyRequest, expected_after, replay_apply, block_duplicate}
use context_vault.Work.Apply.Finish.{apply_row, bind_receipt, is_bound, settle_done, settle}

-- The answer of an effect that is bound to its request: a fresh success, with the hash of the content.
abbrev pub IsBoundAnswer : Env → ApplyRequest → ApplyResult → Type 0
IsBoundAnswer env args r =
    (r.replayed ≡ false)
    × (r.exit_status ≡ 0)
    × (r.output_artifact_hash ≡ some (env.sha256 args.effect_request.content))
    × (r.after_revision ≡ env.sha256 args.effect_request.content)

module _ (env : Env) (args : ApplyRequest) (binding : Fields) (hash : String) where
  row_answer :
      (o : EffectResult) (started_at ended_at : Instant) (id : Uuid) (item : WorkItem)
      (c : WorkClaim) (a : WorkAttempt) (tests : List String) (rolled : Option Json) (att : Fields)
      → o.output_artifact_hash ≡ env.sha256 args.effect_request.content
      → o.after_revision ≡ env.sha256 args.effect_request.content
      → IsBoundAnswer env args (
          apply_result
            (apply_row env id item c a args hash started_at ended_at 0 o.before_artifact_hash
              (some o.output_artifact_hash)
              o.after_revision
              tests
              rolled
              att)
            false)
  unfolding apply_result apply_row
  row_answer o started_at ended_at id item c a tests rolled att p q = (refl, refl, ap some p, q)

  settle_done-answer :
      (started_at : Instant) (id : Uuid) (o : EffectResult)
      → o.output_artifact_hash ≡ env.sha256 args.effect_request.content
      → o.after_revision ≡ env.sha256 args.effect_request.content
      → Returns (IsBoundAnswer env args) (settle_done env id args binding hash started_at o)
  unfolding settle_done bind_receipt
  settle_done-answer started_at id o p q =
      search (Returns-bind, Returns-if, Returns-raise, Returns-pure, row_answer) depth 14

  is_bound-parts :
      (o : EffectResult)
      → is_bound env args o ≡ true
      → (o.before_artifact_hash ≡ absent_hash env)
        × (o.output_artifact_hash ≡ env.sha256 args.effect_request.content)
        × (o.after_revision ≡ env.sha256 args.effect_request.content)
  unfolding is_bound expected_after
  is_bound-parts o h = ground (
    arith,
    eq_iff o.before_artifact_hash (absent_hash env),
    eq_iff o.output_artifact_hash (env.sha256 args.effect_request.content),
    eq_iff o.after_revision (env.sha256 args.effect_request.content),
  )

  settle-answer :
      (started_at : Instant) (id attempt_id : Uuid) (outcome : Outcome)
      → Returns
          (IsBoundAnswer env args)
          (settle env id attempt_id args binding hash started_at outcome)
  unfolding settle
  settle-answer started_at id attempt_id (raised exception) = search (Returns-bind, Returns-raise)
  settle-answer started_at id attempt_id (done o) = elim (Bool-cases (is_bound env args o)) [
    | inl bound ↦
        let parts = is_bound-parts o bound in
        rw bound (settle_done-answer started_at id o parts.1 parts.2)
    | inr unbound ↦ rw unbound (search (Returns-bind, Returns-raise))
  ]

  new-answer :
      (d : Dispatcher) (id : Uuid) (item : WorkItem) (c : WorkClaim) (a : WorkAttempt)
      (context : ScopedEffectContext)
      → Returns (IsBoundAnswer env args) (apply_new env d id item c a context args binding hash)
  unfolding apply_new
  new-answer d id item c a context = search (Returns-bind, settle-answer) depth 9

replay-answer :
    (env : Env) (item : WorkItem) (r : WorkReceipt) (hash : String) (args : ApplyRequest)
    → Returns (λ a. a.replayed ≡ true) (replay_apply env item r hash args)
unfolding replay_apply apply_result
replay-answer env item r hash args = search (Returns-bind, Returns-pure)

duplicate-Raises :
    (env : Env) (item : WorkItem) (a : WorkAttempt) (args : ApplyRequest)
    → Raises (block_duplicate env item a args)
unfolding block_duplicate
duplicate-Raises env item a args = search (Returns-bind, Returns-raise)

-- An answer is a replay, or it is bound to the request.
abbrev pub IsAnswer : Env → ApplyRequest → ApplyResult → Type 0
IsAnswer env args r = (r.replayed ≡ true) ⊎ IsBoundAnswer env args r

module _ (env : Env) (args : ApplyRequest) (binding : Fields) (hash : String) where
  intent-IsAnswer :
      (intent : Option WorkAttempt) (d : Dispatcher) (id : Uuid) (item : WorkItem) (c : WorkClaim)
      (a : WorkAttempt) (context : ScopedEffectContext)
      → Returns
          (IsAnswer env args)
          (apply_by_intent intent env d id item c a context args binding hash)
  unfolding apply_by_intent
  intent-IsAnswer (some prior) d id item c a context =
      Returns-weaken _ (λ r h. absurd h) (duplicate-Raises env item prior args)
  intent-IsAnswer none d id item c a context =
      Returns-weaken _ (λ r h. inr h) (new-answer env args binding hash d id item c a context)

  receipt-IsAnswer :
      (replay : Option WorkReceipt) (d : Dispatcher) (id : Uuid) (item : WorkItem) (c : WorkClaim)
      (a : WorkAttempt) (context : ScopedEffectContext)
      → Returns
          (IsAnswer env args)
          (apply_by_receipt replay env d id item c a context args binding hash)
  unfolding apply_by_receipt
  receipt-IsAnswer (some r) d id item c a context =
      Returns-weaken _ (λ r h. inl h) (replay-answer env item r hash args)
  receipt-IsAnswer none d id item c a context = search (Returns-bind, intent-IsAnswer)

-- Whenever `apply` returns, with any dispatcher, its answer is marked as a replay, or it has exit
-- status 0 and the hash of the requested content as both the output and the new revision.
pub apply-IsAnswer :
    (env : Env) (configured : Option Dispatcher) (id : Uuid) (args : ApplyRequest) (s : Session)
    (r : ApplyResult)
    → (apply env configured id args s).0 ≡ ok r
    → IsAnswer env args r
unfolding apply
apply-IsAnswer env configured id args s r h =
    let answers : Returns (IsAnswer env args) (apply env configured id args) =
      search (Returns-bind, receipt-IsAnswer) depth 12 in
    answers.at s r h
