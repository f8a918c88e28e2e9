-- ===== src/Work/Effects.antt =====
-- application/work_graph.py: the effect that `apply` dispatches, as an interface. The service sees of
-- a dispatcher only these answers; what other sessions commit while an effect runs is `meanwhile`.
use context_vault.Prelude.{
  ℕ, String, Bool, Option, List, length, all, ◌&&◌, ◌||◌, leb, ◌==◌, text_codes,
}
use context_vault.Json.{Json, Fields}
use context_vault.Domain.WorkGraph.{Verdict}
use context_vault.Work.Rows.{Uuid, Db, WorkReceipt}
use context_vault.Work.Session.{Env, Action, Result, ok}
use context_vault.Work.Authority.{EffectRequest, ScopedEffectContext}

pub record EffectResult : Type 0 where
  pub before_artifact_hash : String
  pub output_artifact_hash : String
  pub after_revision : String
  pub test_evidence_refs : List String
  pub rollback_result : Option Json
  pub attestation : Fields

-- A dispatch returns its result, or raises an exception of the named type.
pub data Outcome : Type 0 where
  done : EffectResult → Outcome
  raised : String → Outcome

pub record Dispatcher : Type 0 where
  pub validate : ScopedEffectContext → EffectRequest → Verdict
  pub dispatch : ScopedEffectContext → EffectRequest → Outcome
  pub rollback :
      ScopedEffectContext → EffectRequest → (expected_after_hash : String) → Result EffectResult
  pub meanwhile : Db → Db

-- `ScopedMutationDispatcher.ABSENT_HASH`: the marker is ASCII, so that its code points are its bytes.
unfoldable pub absent_hash : Env → String
absent_hash env = env.sha256 (text_codes "context-vault:absent-v1")

-- The effect runs outside the transaction: the rows that are read after it are what is committed
-- then, other sessions' work included.
unfoldable pub run_effect {ℓ} : {A : Type ℓ} → Dispatcher → A → Action A
run_effect dispatcher outcome s =
    let seen = dispatcher.meanwhile s.committed in
    (ok outcome, record s { committed = seen; working = seen })

-- `_is_sha256`
unfoldable pub is_sha256 : String → Bool
is_sha256 value =
    let digits = text_codes value in
    length digits == 64
    && all (λ c. (leb b'0' c && leb c b'9') || (leb b'a' c && leb c b'f')) digits

pub record ApplyResult : Type 0 where
  pub receipt_id : Uuid
  pub attempt_id : Uuid
  pub replayed : Bool
  pub exit_status : ℕ
  pub output_artifact_hash : Option String
  pub after_revision : String

-- `_apply_result`
unfoldable pub apply_result : WorkReceipt → Bool → ApplyResult
apply_result receipt replayed = record {
  receipt_id = receipt.id;
  attempt_id = receipt.attempt_id;
  replayed = replayed;
  exit_status = receipt.exit_status;
  output_artifact_hash = receipt.output_artifact_hash;
  after_revision = receipt.after_revision;
}
