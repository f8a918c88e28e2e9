-- ===== src/Work/Laws/Heartbeat.antt =====
-- `heartbeat`: when it extends a lease, and to when.
use context_vault.Prelude.{
  ℕ, suc, ◌+◌, pos, ◌≡◌, Bool, [], ◌∷◌, select, arith, ◌==◌, ltb, ◌&&◌, if◌then◌else◌,
}
use context_vault.Domain.WorkGraph.{claim_is_active, lease_expired}
use context_vault.Work.Rows.{Instant, Db, WorkClaim, store_claim}
use context_vault.Work.Session.{
  Env, ok, err, ◌>>=◌, raise_if, one_or_none, require, read_clock, save_claim, commit, run,
}
use context_vault.Work.Claims.{not_positive, add_delta, heartbeat}

-- The lease is held under the token and has not run out.
abbrev pub is_live : WorkClaim → (fencing_token : ℕ) (now : Instant) → Bool
is_live claim token now =
    claim_is_active claim.status && claim.fencing_token == token && ltb now claim.expires_at

-- The database with the lease extended.
abbrev pub extended : WorkClaim → (now : Instant) (lease : ℕ) → Db → Db
extended claim now lease db = record db {
  claims = store_claim (record claim { heartbeat_at = now; expires_at = now + lease }) db.claims;
}

-- A heartbeat on the one claim with its id, by a positive extension, answers with the new expiry,
-- counted from the clock and not from the old expiry, and commits exactly that, if the claim is active
-- under the presented token and unexpired; else it raises `lease_expired` and changes nothing.
pub heartbeat_exact :
    (env : Env) (db : Db) (claim : WorkClaim) (token n : ℕ)
    → select (λ (c : WorkClaim). c.id == claim.id) db.claims ≡ claim ∷ []
    → run (heartbeat env claim.id token (pos (suc n))) db ≡ (
        if is_live claim token (env.clock 0)
        then (ok (env.clock 0 + suc n), extended claim (env.clock 0) (suc n) db)
        else (err lease_expired, db))
unfolding run heartbeat not_positive add_delta claim_is_active ◌>>=◌ raise_if one_or_none require
    read_clock save_claim commit
heartbeat_exact env db claim token n found = rw found (ground arith)
