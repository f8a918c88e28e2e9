-- ===== src/Domain/WorkGraph/Admission.antt =====
-- domain/work_graph.py: what `assert_apply_admitted` admits.
use context_vault.Prelude.{ℕ, String, ◌≡◌, ◌↔◌, ◌<◌, ◌≢◌, false, Option, none, some, arith, eq_iff}
use context_vault.Domain.WorkGraph.Defs.{
  admit, WorkStatus, claimed, ActorType, ClaimStatus, active, assert_apply_admitted,
}

-- What an admitted effect rests on.
pub record IsAdmitted (status : WorkStatus) (claim_status : ClaimStatus) (expires_at : ℕ)
    (expected : Option ℕ) (presented : ℕ) (revision observed : String) (now : ℕ) : Type 0 where
  pub is_claimed : status ≡ claimed
  pub is_active : claim_status ≡ active
  pub unexpired : now < expires_at
  pub fenced : expected ≡ some presented
  pub has_revision : revision ≢ ""
  pub undrifted : observed ≡ revision

-- An effect that needs no approval of its own is admitted exactly for a claimed item under an
-- active, unexpired lease, with the item's own fencing token and the prepared revision.
pub assert_apply_admitted_iff :
    (status : WorkStatus) (claim_status : ClaimStatus) (expires_at : ℕ) (expected : Option ℕ)
    (presented : ℕ) (revision observed : String) (now : ℕ) (actor : Option ActorType)
    → (assert_apply_admitted status claim_status expires_at expected presented revision observed now
          false actor
        ≡ admit)
      ↔ IsAdmitted status claim_status expires_at expected presented revision observed now
unfolding assert_apply_admitted
assert_apply_admitted_iff status cs ex none p r o now actor = (λ h. ground arith, λ h. ground arith)
assert_apply_admitted_iff status cs ex (some e) p r o now actor =
    (λ h. ground (arith, eq_iff r "", eq_iff o r), λ h. ground (arith, eq_iff r "", eq_iff o r))
