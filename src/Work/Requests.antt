-- ===== src/Work/Requests.antt =====
-- The requests that a `WorkGraphService` answers, each in a session of its own, and a run of many.
use context_vault.Prelude.{ℕ, ℤ, String, Option, List, [], ◌∷◌}
use context_vault.Work.Rows.{Uuid, Db}
use context_vault.Work.Session.{Env, Action, ◌>>◌, pure, run}
use context_vault.Work.Effects.{Dispatcher}
use context_vault.Work.Lifecycle.{NewWork, create_work_item, mark_ready, prepare}
use context_vault.Work.Claims.{ClaimRequest, claim, heartbeat}
use context_vault.Work.Approvals.{Caller, ApprovalRequest, grant_approval}
use context_vault.Work.Apply.{apply}
use context_vault.Work.Apply.Begin.{ApplyRequest}
use context_vault.Work.Verify.{VerifyRequest, verify}
use context_vault.Work.Close.{CloseRequest, close}
use context_vault.Work.Reconcile.{Fetch, reconcile_stale_leases}
use context_vault.Work.Rollback.{RollbackRequest, rollback}

-- `WorkGraphService.__init__`: what the service of one request is built from.
pub record Service : Type 0 where
  pub env : Env
  pub caller : Caller
  pub dispatcher : Option Dispatcher

pub data Request : Type 0 where
  create_request : NewWork → Request
  ready_request : Uuid → (actor_id : String) → Request
  prepare_request : Uuid → (observed_revision : String) → Request
  claim_request : Uuid → ClaimRequest → Request
  heartbeat_request : Uuid → (fencing_token : ℕ) (extend_by : ℤ) → Request
  approval_request : Uuid → ApprovalRequest → Request
  apply_request : Uuid → ApplyRequest → Request
  verify_request : Uuid → VerifyRequest → Request
  close_request : Uuid → CloseRequest → Request
  reconcile_request : Fetch → (limit : ℕ) → Request
  rollback_request : Uuid → RollbackRequest → Request

-- The answer goes to the client; what matters here is what the request commits.
unfoldable pub handle : Service → Request → Action (Unit {0})
handle s (create_request args) = create_work_item s.env args >> pure tt
handle s (ready_request id actor) = mark_ready s.env id actor >> pure tt
handle s (prepare_request id observed) = prepare s.env id observed >> pure tt
handle s (claim_request id args) = claim s.env id args >> pure tt
handle s (heartbeat_request id token by) = heartbeat s.env id token by >> pure tt
handle s (approval_request id args) = grant_approval s.env s.caller id args >> pure tt
handle s (apply_request id args) = apply s.env s.dispatcher id args >> pure tt
handle s (verify_request id args) = verify s.env id args >> pure tt
handle s (close_request id args) = close s.env id args >> pure tt
handle s (reconcile_request fetch limit) = reconcile_stale_leases s.env fetch limit >> pure tt
handle s (rollback_request id args) = rollback s.env s.dispatcher id args >> pure tt

unfoldable pub serve : List (Service × Request) → Db → Db
serve [] db = db
serve ((s, r) ∷ rest) db = serve rest (run (handle s r) db).1
