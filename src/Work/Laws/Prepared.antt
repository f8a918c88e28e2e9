-- ===== src/Work/Laws/Prepared.antt =====
-- `prepare` and `_validate_prepared`: a token is good exactly as long as the item is as it was.
use context_vault.Prelude.{ℕ, ◌≡◌, String, some, find, arith, ◌==◌, eq_iff, if◌then◌else◌}
use context_vault.Domain.WorkGraph.{drift_detected}
use context_vault.Work.Rows.{Uuid, WorkItem}
use context_vault.Work.Session.{Env, Session, ok, err, ◌>>=◌, raise_if, require}
use context_vault.Work.Lifecycle.{
  PreparedWork, drift_token, prepared_of, prepare, validate_prepared,
}

-- Preparing reads only: the session is as it was, whether it returns or raises.
pub prepare_reads_only :
    (env : Env) (id : Uuid) (observed : String) (s : Session) → (prepare env id observed s).1 ≡ s
unfolding prepare ◌>>=◌ raise_if require
prepare_reads_only env id observed s = ground arith

prepare-prepared_of :
    (env : Env) (id : Uuid) (observed : String) (s : Session) (item : WorkItem)
    (prepared : PreparedWork)
    → find (λ (r : WorkItem). r.id == id) s.working.items ≡ some item
    → (prepare env id observed s).0 ≡ ok prepared
    → prepared ≡ prepared_of env item
unfolding prepare ◌>>=◌ raise_if require
prepare-prepared_of env id observed s item prepared found returned = ground arith

same-drift_token :
    (env : Env) (item item' : WorkItem) (n : ℕ)
    → item'.id ≡ item.id
    → item'.expected_revision ≡ item.expected_revision
    → item'.scope_json ≡ item.scope_json
    → drift_token env item' n ≡ drift_token env item n
unfolding drift_token
same-drift_token env item item' n e1 e2 e3 = cc

validate-prepared_of :
    (env : Env) (s' : Session) (item item' : WorkItem)
    → item'.id ≡ item.id
    → item'.expected_revision ≡ item.expected_revision
    → item'.scope_json ≡ item.scope_json
    → (validate_prepared env item' (prepared_of env item) s').0
      ≡ (if item'.revision == item.revision then ok tt else err drift_detected)
unfolding validate_prepared prepared_of ◌>>=◌ raise_if
validate-prepared_of env s' item item' e1 e2 e3 =
    let token = same-drift_token env item item' item.revision e1 e2 e3 in
    ground (
      arith,
      eq_iff item.expected_revision item'.expected_revision,
      token,
      eq_iff (drift_token env item item.revision) (drift_token env item' item.revision),
    )

-- What `prepare` returns passes the check of `claim` against any item that has kept the id, the
-- baseline, the scope and the revision of the prepared one; as soon as the item's revision has moved,
-- it is refused as drift.
pub prepared_until_moved :
    (env : Env) (id : Uuid) (observed : String) (s s' : Session) (item item' : WorkItem)
    (prepared : PreparedWork)
    → find (λ (r : WorkItem). r.id == id) s.working.items ≡ some item
    → (prepare env id observed s).0 ≡ ok prepared
    → item'.id ≡ item.id
    → item'.expected_revision ≡ item.expected_revision
    → item'.scope_json ≡ item.scope_json
    → (validate_prepared env item' prepared s').0
      ≡ (if item'.revision == item.revision then ok tt else err drift_detected)
prepared_until_moved env id observed s s' item item' prepared found returned e1 e2 e3 =
    rw (prepare-prepared_of env id observed s item prepared found returned)
      (validate-prepared_of env s' item item' e1 e2 e3)
