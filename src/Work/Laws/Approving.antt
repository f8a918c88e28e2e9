-- ===== src/Work/Laws/Approving.antt =====
-- `grant_approval` and `_assert_approvals`: who can approve, and what the approvals must cover.
use mathlib.Core.List.{Memᴰ}
use context_vault.Prelude.{
  ◌≡◌, ◌↔◌, refl, String, Bool, true, ◌&&◌, none, List, [], ◌∷◌, All, any, all, arith, ◌=text◌,
  eq_iff, Bool-cases, inl, inr, ap,
}
use context_vault.Domain.WorkGraph.{may_approve}
use context_vault.Work.Rows.{Instant, WorkItem, WorkClaim, WorkApproval}
use context_vault.Work.Authority.{approval_admitted, approvals_complete, unexpired}

-- An approval of the type that counts: the item's, for the claim's scope, approved by a human or a
-- policy, not revoked, and not expired.
pub record Covers (item : WorkItem) (claim : WorkClaim) (now : Instant) (required : String)
    (row : WorkApproval) : Type 0 where
  pub same_item : row.work_item_id ≡ item.id
  pub same_scope : row.scope_hash ≡ claim.scope_hash
  pub same_type : row.approval_type ≡ required
  pub is_approved : row.approved ≡ true
  pub by_authority : may_approve row.actor_type ≡ true
  pub not_revoked : row.revoked_at ≡ none
  pub not_expired : unexpired row.expires_at now ≡ true

Covers-of :
    (item : WorkItem) (claim : WorkClaim) (now : Instant) (required : String) (row : WorkApproval)
    → (approval_admitted item claim now row && row.approval_type =text required) ≡ true
    → Covers item claim now required row
unfolding approval_admitted
Covers-of item claim now required row h = record {
  same_item = ground arith;
  same_scope = ground (arith, eq_iff row.scope_hash claim.scope_hash);
  same_type = ground (arith, eq_iff row.approval_type required);
  is_approved = ground arith;
  by_authority = ground arith;
  not_revoked = ground arith;
  not_expired = ground arith;
}

admitted_of_Covers :
    (item : WorkItem) (claim : WorkClaim) (now : Instant) (required : String) (row : WorkApproval)
    → Covers item claim now required row
    → (approval_admitted item claim now row && row.approval_type =text required) ≡ true
unfolding approval_admitted
admitted_of_Covers item claim now required row h =
    ground (arith, eq_iff row.scope_hash claim.scope_hash, eq_iff row.approval_type required)

and_parts : (a b : Bool) → (a && b) ≡ true → (a ≡ true) × (b ≡ true)
and_parts a b h = ground arith

and_true : (a b : Bool) → a ≡ true → b ≡ true → (a && b) ≡ true
and_true a b p q = ground arith

any_mem :
    {A : Type 0} (test : A → Bool) (xs : List A)
    → any test xs ≡ true
    → (x : A) × Memᴰ x xs × (test x ≡ true)
any_mem test [] h = cc
any_mem test (x ∷ xs) h = elim (Bool-cases (test x)) [
  | inl passes ↦ (x, Memᴰ.head refl, passes)
  | inr fails ↦ let found = any_mem test xs (rw fails at h) in (found.0, Memᴰ.tail found.1, found.2)
]

any_of_mem :
    {A : Type 0} (test : A → Bool) (xs : List A) (x : A)
    → Memᴰ x xs
    → test x ≡ true
    → any test xs ≡ true
any_of_mem test [] x m h = elim m [ ]
any_of_mem test (y ∷ xs) x (Memᴰ.head e) h = ground (arith, ap test e)
any_of_mem test (y ∷ xs) x (Memᴰ.tail m) h = ground (arith, any_of_mem test xs x m h)

complete_of_all :
    (item : WorkItem) (claim : WorkClaim) (now : Instant) (approvals : List WorkApproval)
    (required : List String)
    → (all
          (λ r.
            any
              (λ row. approval_admitted item claim now row && row.approval_type =text r)
              approvals)
          required
        ≡ true)
      ↔ All (λ r. (row : WorkApproval) × Memᴰ row approvals × Covers item claim now r row) required
complete_of_all item claim now approvals [] = (λ h. tt, λ h. refl)
complete_of_all item claim now approvals (r ∷ rest) =
    let later = complete_of_all item claim now approvals rest in
    (
      λ h.
          let (here, there) = and_parts _ _ h in
          let found = any_mem _ approvals here in
          ((found.0, found.1, Covers-of item claim now r found.0 found.2), later.0 there),
      λ h.
          let here =
            any_of_mem _ approvals h.0.0 h.0.1 (admitted_of_Covers item claim now r h.0.0 h.0.2) in
          and_true _ _ here (later.1 h.1),
    )

-- The approvals are complete exactly if each required type has an approval row that covers it: the
-- item's, for the claim's scope, by a human or a policy, not revoked and not expired.
pub approvals_complete_iff :
    (item : WorkItem) (claim : WorkClaim) (now : Instant) (approvals : List WorkApproval)
    → (approvals_complete item claim now approvals ≡ true)
      ↔ All
          (λ required.
            (row : WorkApproval) × Memᴰ row approvals × Covers item claim now required row)
          item.required_approvals
unfolding approvals_complete
approvals_complete_iff item claim now approvals =
    complete_of_all item claim now approvals item.required_approvals
