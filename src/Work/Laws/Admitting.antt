-- ===== src/Work/Laws/Admitting.antt =====
-- The admission of an effect by `apply`: what it rests on, and what a drifted one leaves behind.
use context_vault.Prelude.{◌+◌, ◌≡◌, ◌↔◌, String, true, false, none, arith}
use context_vault.Domain.WorkGraph.{Verdict, admit, reject, drift_detected, assert_apply_admitted}
use context_vault.Domain.WorkGraph.Admission.{IsAdmitted, assert_apply_admitted_iff}
use context_vault.Work.Rows.{Uuid, Instant, WorkItem, WorkAttempt, WorkClaim}
use context_vault.Work.Session.{Env, Session, ok, ◌>>=◌, raise_if, read_clock}
use context_vault.Work.Authority.{ScopedEffectContext, approvals_complete, assert_approvals}
use context_vault.Work.Effects.{Dispatcher}
use context_vault.Json.{Fields}
use context_vault.Work.Rules.Reads.{refused-agree}
use context_vault.Work.Rules.Returns.{Raises, Returns-bind, Returns-raise}
use context_vault.Work.Apply.{apply_at, apply_new}
use context_vault.Work.Apply.Begin.{ApplyRequest, abandon_drifted, on_admission, admit_effect}

module _ (env : Env) (item : WorkItem) (claim : WorkClaim) (attempt : WorkAttempt) (now : Instant)
    (args : ApplyRequest) where
  -- Everything that lets the effect start.
  abbrev pub MayStart : Session → Type 0
  MayStart s =
      IsAdmitted item.status claim.status claim.expires_at item.active_fencing_token
        args.fencing_token attempt.expected_revision args.observed_revision now
      × (approvals_complete item claim now s.working.approvals ≡ true)

  -- The drift handler always raises.
  abandon-Raises : Raises (abandon_drifted env item claim attempt now args)
  unfolding abandon_drifted
  abandon-Raises = search (Returns-bind, Returns-raise)

  on_admission-ok :
      (v : Verdict) (s : Session)
      → ((on_admission env v item claim attempt now args s).0 ≡ ok tt)
        ↔ ((v ≡ admit) × (approvals_complete item claim now s.working.approvals ≡ true))
  unfolding assert_approvals ◌>>=◌ raise_if
  on_admission-ok admit s = (λ h. ground arith, λ h. ground arith)
  on_admission-ok (reject drift_detected) s =
      (λ h. absurd (abandon-Raises.at s tt h), λ h. ground arith)
  on_admission-ok (reject _) s = (λ h. ground arith, λ h. ground arith)

  -- The admission of an effect returns exactly if the item is claimed, the claim is active and
  -- unexpired, the presented token is the item's, the revision is the prepared one, and the approvals
  -- are complete.
  pub admit_effect_iff :
      (s : Session) → ((admit_effect env item claim attempt now args s).0 ≡ ok tt) ↔ MayStart s
  unfolding admit_effect
  admit_effect_iff s =
      let iff =
        assert_apply_admitted_iff item.status claim.status claim.expires_at
          item.active_fencing_token args.fencing_token attempt.expected_revision
          args.observed_revision now none in
      let step =
        on_admission-ok
          (assert_apply_admitted item.status claim.status claim.expires_at item.active_fencing_token
            args.fencing_token attempt.expected_revision args.observed_revision now false none)
          s in
      (λ h. (iff.0 (step.0 h).0, (step.0 h).1), λ h. step.1 (iff.1 h.0, h.1))

apply_at_gated :
    (env : Env) (d d' : Dispatcher) (id : Uuid) (item : WorkItem) (claim : WorkClaim)
    (attempt : WorkAttempt) (context : ScopedEffectContext) (args : ApplyRequest) (binding : Fields)
    (hash : String) (now : Instant) (s : Session)
    → ¬ MayStart env item claim attempt now args s
    → apply_at env d id item claim attempt context args binding hash now s
      ≡ apply_at env d' id item claim attempt context args binding hash now s
unfolding apply_at
apply_at_gated env d d' id item claim attempt context args binding hash now s barred =
    refused-agree _ _ _ s (λ u h. barred ((admit_effect_iff env item claim attempt now args s).0 h))

-- Where the work item, the claim, the token, the revision or the approvals do not let an effect
-- start, an apply under a new idempotency key gives the same result and leaves the same session
-- with any two dispatchers.
pub apply_new_gated :
    (env : Env) (d d' : Dispatcher) (id : Uuid) (item : WorkItem) (claim : WorkClaim)
    (attempt : WorkAttempt) (context : ScopedEffectContext) (args : ApplyRequest) (binding : Fields)
    (hash : String) (s : Session)
    → ¬ MayStart env item claim attempt (env.clock s.readings) args s
    → apply_new env d id item claim attempt context args binding hash s
      ≡ apply_new env d' id item claim attempt context args binding hash s
unfolding apply_new read_clock ◌>>=◌
apply_new_gated env d d' id item claim attempt context args binding hash s barred =
    apply_at_gated env d d' id item claim attempt context args binding hash (env.clock s.readings)
      (record s { readings = s.readings + 1 }) barred
