-- ===== src/Knowledge/Records.antt =====
-- context_vault/knowledge.py: the values of the knowledge ledger and what their constructors check.
-- The tests of Python types are the types here, an instant is timezone-aware, and a constructor that
-- raises is a check that refuses with its message.
use context_vault.Prelude.{
  ℕ, suc, ◌*◌, ℤ, pos, negsuc, String, Bool, true, false, ◌&&◌, Option, none, some, List, any, leb,
  ◌==◌, ◌=text◌, is_blank,
}

pub data Checked {ℓ} (A : Type ℓ) : Type ℓ where
  accept : A → Checked A
  refuse : (message : String) → Checked A

module _ {ℓ κ} {A : Type ℓ} {B : Type κ} where
  infixl 10 ◌>>=◌ ◌>>◌
  -- A refusal ends the method.
  unfoldable pub ◌>>=◌ : (checked : Checked A) (rest : A → Checked B) → Checked B
  ◌>>=◌ (refuse message) rest = refuse message
  ◌>>=◌ (accept value) rest = rest value

  abbrev pub ◌>>◌ : (checked : Checked A) (rest : Checked B) → Checked B
  ◌>>◌ checked rest = checked >>= λ value. rest

unfoldable pub refuse_if : Bool → (message : String) → Checked (Unit {0})
refuse_if true message = refuse message
refuse_if false message = accept tt

pub data ActorKind : Type 0 where
  human policy model : ActorKind

abbrev pub kind_eq : ActorKind → ActorKind → Bool
kind_eq human human = true
kind_eq policy policy = true
kind_eq model model = true
kind_eq _ _ = false

pub data KnowledgeStatus : Type 0 where
  proposed reviewed approved superseded revoked expired : KnowledgeStatus

abbrev pub status_eq : KnowledgeStatus → KnowledgeStatus → Bool
status_eq proposed proposed = true
status_eq reviewed reviewed = true
status_eq approved approved = true
status_eq superseded superseded = true
status_eq revoked revoked = true
status_eq expired expired = true
status_eq _ _ = false

pub data ConflictStatus : Type 0 where
  open_conflict resolved_conflict : ConflictStatus

abbrev pub is_open : ConflictStatus → Bool
is_open open_conflict = true
is_open resolved_conflict = false

pub record Actor : Type 0 where
  pub kind : ActorKind
  pub actor_id : String

-- `Actor.__post_init__`
unfoldable pub make_actor : ActorKind → String → Checked Actor
make_actor kind actor_id = do
  refuse_if (is_blank actor_id) "actor_id cannot be empty"
  accept (record { kind = kind; actor_id = actor_id })

abbrev pub actor_eq : Actor → Actor → Bool
actor_eq a b = kind_eq a.kind b.kind && a.actor_id =text b.actor_id

-- `value in ids`
abbrev pub among : String → List String → Bool
among value ids = any (λ id. id =text value) ids

pub record ApprovalPolicy : Type 0 where
  pub authorized_humans : List String
  pub authorized_policies : List String
  pub require_independent_approval : Bool

-- `ApprovalPolicy.__post_init__`
unfoldable pub make_policy :
    (humans policies : List String) (independent : Bool) → Checked ApprovalPolicy
make_policy humans policies independent = do
  refuse_if (any is_blank humans) "authorized_humans must contain non-empty strings"
  refuse_if (any is_blank policies) "authorized_policies must contain non-empty strings"
  accept (record {
    authorized_humans = humans;
    authorized_policies = policies;
    require_independent_approval = independent;
  })

abbrev permits_as : ActorKind → ApprovalPolicy → (actor_id : String) → Bool
permits_as human rules actor_id = among actor_id rules.authorized_humans
permits_as policy rules actor_id = among actor_id rules.authorized_policies
permits_as model rules actor_id = false

-- `ApprovalPolicy.permits`
unfoldable pub permits : ApprovalPolicy → Actor → Bool
permits rules actor = permits_as actor.kind rules actor.actor_id

pub data DataClassification : Type 0 where
  public_data internal_data confidential_data restricted_data : DataClassification

abbrev pub classification_eq : DataClassification → DataClassification → Bool
classification_eq public_data public_data = true
classification_eq internal_data internal_data = true
classification_eq confidential_data confidential_data = true
classification_eq restricted_data restricted_data = true
classification_eq _ _ = false

-- A float: a finite one is the fraction `numerator / (below + 1)`.
pub data Float : Type 0 where
  finite : (numerator : ℤ) (below : ℕ) → Float
  not_finite : Float

abbrev pub is_finite : Float → Bool
is_finite (finite numerator below) = true
is_finite not_finite = false

-- `math.isfinite(c) and 0.0 <= c <= 1.0`
unfoldable pub in_unit : Float → Bool
in_unit (finite (pos n) below) = leb n (suc below)
in_unit (finite (negsuc n) below) = false
in_unit not_finite = false

abbrev scaled_eq : ℤ → ℕ → ℤ → ℕ → Bool
scaled_eq (pos m) b (pos n) d = m * suc d == n * suc b
scaled_eq (negsuc m) b (negsuc n) d = suc m * suc d == suc n * suc b
scaled_eq _ b _ d = false

-- `==` of two finite floats; a revision's confidence is finite.
unfoldable pub float_eq : Float → Float → Bool
float_eq (finite m b) (finite n d) = scaled_eq m b n d
float_eq _ _ = false

-- `if value is None: raise`
unfoldable pub require {ℓ} : {A : Type ℓ} → Option A → (message : String) → Checked A
require none message = refuse message
require (some value) message = accept value
