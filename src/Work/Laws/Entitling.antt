-- ===== src/Work/Laws/Entitling.antt =====
-- What the authority of an actor consists of: the tests of `_assert_trusted_approval_actor` in terms
-- of the rows and the rules.
use mathlib.Core.List.{Memᴰ}
use package.text.Mathlib.Text.{starts_with}
use Prim.Native.String.{◌++◌ as text_append}
use context_vault.Prelude.{
  ◌≡◌, ◌⊎◌, sym, String, Bool, true, false, ◌&&◌, Option, none, some, List, [], ◌∷◌, find, select,
  arith, ◌==◌, ◌=text◌, eq_iff, Bool-cases, inl, inr,
}
use context_vault.Domain.WorkGraph.{ActorType, policy}
use context_vault.Work.Rows.{Uuid, Db, WorkItem, Principal, WorkspaceMembership}
use context_vault.Work.Approvals.{
  Caller, ApprovalPolicy, policy_trusted, human_trusted, may_work, is_authority, contains,
}

-- A policy acts: no human is required for the type, the service trusts the policy, and the project's
-- rules list it.
pub record IsPolicyAuthority (caller : Caller) (rules : ApprovalPolicy)
    (approval_type actor_id : String) : Type 0 where
  pub no_human : ¬ Memᴰ approval_type rules.human_required_for
  pub trusted : Memᴰ actor_id caller.trusted_policy_ids
  pub listed : Memᴰ (text_append "policy:" actor_id) rules.approvers

-- A human acts: the authenticated principal of the caller, who is active and goes by the actor's id,
-- is an admin or a member of the item's workspace, and is the owner that the rules name or one of
-- their approvers that are no policies.
pub record IsHumanAuthority (caller : Caller) (item : WorkItem) (rules : ApprovalPolicy)
    (actor_id : String) (db : Db) : Type 0 where
  pub principal_id : Uuid
  pub principal : Principal
  pub membership : WorkspaceMembership
  pub authenticated : caller.authenticated_principal_id ≡ some principal_id
  pub known : find (λ (p : Principal). p.id == principal_id) db.principals ≡ some principal
  pub is_active : principal.is_active ≡ true
  pub same_subject : principal.subject ≡ actor_id
  pub joined :
      find
        (λ (m : WorkspaceMembership).
          m.workspace_id == item.workspace_id && m.principal_id == principal_id)
        db.memberships
      ≡ some membership
  pub may_work : (membership.role ≡ "admin") ⊎ (membership.role ≡ "member")
  pub entitled :
      (rules.owner ≡ actor_id)
      ⊎ (Memᴰ actor_id rules.approvers × (starts_with actor_id "policy:" ≡ false))

-- The authority of an approval, by the type of its actor.
abbrev pub IsAuthority :
    ActorType → Caller → WorkItem → ApprovalPolicy → (approval_type actor_id : String) → Db → Type 0
IsAuthority policy caller item rules approval_type actor_id db =
    IsPolicyAuthority caller rules approval_type actor_id
IsAuthority _ caller item rules approval_type actor_id db =
    IsHumanAuthority caller item rules actor_id db

pub text_same : (a b : String) → (a =text b) ≡ true → a ≡ b
text_same a b h = ground (arith, eq_iff a b)

pub contains-Mem :
    (value : String) (values : List String) → contains value values ≡ true → Memᴰ value values
contains-Mem value [] h = cc
contains-Mem value (v ∷ rest) h = elim (Bool-cases (v =text value)) [
  | inl same ↦ Memᴰ.head (sym (text_same v value same))
  | inr apart ↦ Memᴰ.tail (contains-Mem value rest (rw apart at h))
]

Mem-contains :
    (value : String) (values : List String) → Memᴰ value values → contains value values ≡ true
Mem-contains value [] m = elim m [ ]
Mem-contains value (v ∷ rest) (Memᴰ.head same) = ground (arith, eq_iff v value)
Mem-contains value (v ∷ rest) (Memᴰ.tail m) = ground (arith, Mem-contains value rest m)

pub missing :
    (value : String) (values : List String) → contains value values ≡ false → ¬ Memᴰ value values
missing value values h m = let there = Mem-contains value values m in ground arith

pub Mem-of_select :
    {A : Type 0} (test : A → Bool) (values : List A) (value : A)
    → Memᴰ value (select test values)
    → Memᴰ value values × (test value ≡ true)
Mem-of_select test [] value m = elim m [ ]
Mem-of_select test (v ∷ rest) value m = elim (Bool-cases (test v)) [
  | inr out ↦
      let (there, passes) = Mem-of_select test rest value (rw out at m) in (Memᴰ.tail there, passes)
  | inl in_ ↦ elim (rw in_ at m) [
    | Memᴰ.head same ↦ (Memᴰ.head same, rw same in_)
    | Memᴰ.tail later ↦
        let (there, passes) = Mem-of_select test rest value later in (Memᴰ.tail there, passes)
  ]
]

pub policy_trusted-IsPolicyAuthority :
    (caller : Caller) (rules : ApprovalPolicy) (approval_type actor_id : String)
    → policy_trusted caller rules approval_type actor_id ≡ true
    → IsPolicyAuthority caller rules approval_type actor_id
unfolding policy_trusted
policy_trusted-IsPolicyAuthority caller rules t i h = record {
  no_human = missing t rules.human_required_for (ground arith);
  trusted = contains-Mem i caller.trusted_policy_ids (ground arith);
  listed = contains-Mem (text_append "policy:" i) rules.approvers (ground arith);
}

entitled-of :
    (rules : ApprovalPolicy) (actor_id : String)
    → is_authority rules actor_id ≡ true
    → (rules.owner ≡ actor_id)
      ⊎ (Memᴰ actor_id rules.approvers × (starts_with actor_id "policy:" ≡ false))
entitled-of rules i h = elim (Bool-cases (rules.owner =text i)) [
  | inl same ↦ inl (text_same rules.owner i same)
  | inr other ↦
      let (listed, person) = Mem-of_select _ rules.approvers i (contains-Mem i _ (rw other at h)) in
      inr (listed, ground arith)
]

role-of : (role : String) → may_work role ≡ true → (role ≡ "admin") ⊎ (role ≡ "member")
role-of role h = elim (Bool-cases (role =text "admin")) [
  | inl admin ↦ inl (text_same role "admin" admin)
  | inr other ↦ inr (text_same role "member" (rw other at h))
]

-- What a human that passes the check has.
pub human_trusted-IsHumanAuthority :
    (caller : Caller) (item : WorkItem) (rules : ApprovalPolicy) (actor_id : String) (db : Db)
    (id : Uuid) (p : Option Principal) (m : Option WorkspaceMembership)
    → caller.authenticated_principal_id ≡ some id
    → find (λ (p : Principal). p.id == id) db.principals ≡ p
    → find
        (λ (m : WorkspaceMembership). m.workspace_id == item.workspace_id && m.principal_id == id)
        db.memberships
      ≡ m
    → human_trusted rules p m actor_id ≡ true
    → IsHumanAuthority caller item rules actor_id db
unfolding human_trusted
human_trusted-IsHumanAuthority caller item rules i db id none m auth known joined h = cc
human_trusted-IsHumanAuthority caller item rules i db id (some p) none auth known joined h = cc
human_trusted-IsHumanAuthority caller item rules i db id (some p) (some m) auth known joined h =
    record {
      principal_id = id;
      principal = p;
      membership = m;
      authenticated = auth;
      known = known;
      is_active = ground arith;
      same_subject = text_same p.subject i (ground arith);
      joined = joined;
      may_work = role-of m.role (ground arith);
      entitled = entitled-of rules i (ground arith);
    }
