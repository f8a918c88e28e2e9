-- ===== src/Work/Laws/Granting.antt =====
-- `grant_approval`: what a recorded approval rests on.
use mathlib.Core.List.{Memᴰ}
use context_vault.Prelude.{
  ℕ, ◌≡◌, ◌≢◌, refl, sym, ap, String, Bool, true, false, not, ◌||◌, Option, none, some, List, [],
  ◌∷◌, ◌++◌, All, any, is_empty, is_blank, arith, eq_iff,
}
use context_vault.Domain.WorkGraph.{may_approve}
use context_vault.Work.Rows.{Uuid, Instant, WorkItem, WorkApproval}
use context_vault.Work.Session.{
  Env, Session, Result, ok, ◌>>=◌, pure, canonical_hash, new_uuid, modify, commit,
}
use context_vault.Work.Events.{locked_item}
use context_vault.Work.Approvals.{
  Caller, ApprovalRequest, already_expired, record_approval, grant_approval,
}
use context_vault.Work.Authority.{unexpired}
use context_vault.Work.Rules.Reads.{
  Reads, reads_rules, Reads-done, raise_if-returned, ticked, read_clock-done, ok-inj,
}
use context_vault.Work.Laws.Entitling.{contains-Mem}
use context_vault.Work.Laws.Trusting.{
  IsTrusted, Reads-assert_trusted_approval_actor, assert_trusted_approval_actor-IsTrusted,
}

-- What is asked for, as a row.
abbrev approval_row : Env → WorkItem → ApprovalRequest → (now : Instant) (drawn : ℕ) → WorkApproval
approval_row env item args now drawn = record {
  id = env.new_id drawn;
  work_item_id = item.id;
  approval_type = args.approval_type;
  scope_hash = args.scope_hash;
  approved = true;
  actor_type = args.actor_type;
  actor_id = args.actor_id;
  reason = args.reason;
  evidence_refs = args.evidence_refs;
  granted_at = now;
  expires_at = args.expires_at;
  revoked_at = none;
}

-- What a recorded approval rests on, in the session that it was asked for, and what it leaves.
pub record IsGranted (env : Env) (caller : Caller) (id : Uuid) (args : ApprovalRequest)
    (s : Session) (row : WorkApproval) (after : Session) : Type 0 where
  pub item : WorkItem
  pub loaded : (locked_item id s).0 ≡ ok item
  pub by_authority : may_approve args.actor_type ≡ true
  pub wanted : Memᴰ args.approval_type item.required_approvals
  pub same_scope : args.scope_hash ≡ canonical_hash env item.scope_json
  pub reasoned : is_blank args.reason ≡ false
  pub evidenced : args.evidence_refs ≢ []
  pub legible : All (λ ref. is_blank ref ≡ false) args.evidence_refs
  pub not_expired : unexpired args.expires_at (env.clock s.readings) ≡ true
  pub authority :
      IsTrusted env caller item args.approval_type args.actor_type args.actor_id s.working
  pub recorded : row ≡ approval_row env item args (env.clock s.readings) s.drawn
  pub stored : after.committed ≡ record s.working { approvals = s.working.approvals ++ row ∷ [] }

Reads-locked_item : (id : Uuid) → Reads (locked_item id)
unfolding locked_item
Reads-locked_item id = search reads_rules

not_refused : (b : Bool) → not b ≡ false → b ≡ true
not_refused b h = ground arith

-- Nothing is blank, and something is there.
documented :
    (reason : String) (refs : List String)
    → (is_blank reason || is_empty refs || any is_blank refs) ≡ false
    → (is_blank reason ≡ false) × (refs ≢ []) × All (λ ref. is_blank ref ≡ false) refs
documented reason [] h = ground arith
documented reason (ref ∷ refs) h = (ground arith, (λ e. cc), none_of (ref ∷ refs) (ground arith))
  where
    none_of : (xs : List String) → any is_blank xs ≡ false → All (λ ref. is_blank ref ≡ false) xs
    none_of [] k = tt
    none_of (x ∷ xs) k = (ground arith, none_of xs (ground arith))

unexpired-of :
    (env : Env) (caller : Caller) (expires_at : Option Instant) (now : Instant)
    → already_expired env caller expires_at now ≡ false
    → unexpired expires_at now ≡ true
unexpired-of env caller none now h = refl
unexpired-of env caller (some e) now h = ground arith

-- The recorded row, and the session that recording it leaves.
record_approval-done :
    (env : Env) (caller : Caller) (item : WorkItem) (args : ApprovalRequest) (now : Instant)
    (s : Session) (row : WorkApproval) (t : Session)
    → record_approval env caller item args now s ≡ (ok row, t)
    → (row ≡ approval_row env item args now s.drawn)
      × (t.committed ≡ record s.working { approvals = s.working.approvals ++ row ∷ [] })
unfolding record_approval ◌>>=◌ new_uuid modify commit pure
record_approval-done env caller item args now s row t h =
    let same : approval_row env item args now s.drawn ≡ row =
      ok-inj _ _ (ap (λ (p : Result WorkApproval × Session). p.0) h) in
    let left = ap (λ (p : Result WorkApproval × Session). p.1.committed) h in
    (sym same, rw (← same) (sym left))

-- If `grant_approval` returns, the actor is a human or a policy, the item requires the type, the
-- scope is the item's own, there are a reason and evidence, none of them blank, and an expiry, if
-- any, that is yet to come, and the actor has authority under the approval policy that the item's
-- project has registered: a policy that the service trusts, that is listed, and where no human is
-- required, or the authenticated principal, active and named as the actor, who is an admin or a
-- member of the workspace and the owner or an approver. The returned row is what was asked for, at
-- the clock's time, and it is added to the committed approvals, where nothing else changes.
pub grant_approval-IsGranted :
    (env : Env) (caller : Caller) (id : Uuid) (args : ApprovalRequest) (s : Session)
    (row : WorkApproval) (after : Session)
    → grant_approval env caller id args s ≡ (ok row, after)
    → IsGranted env caller id args s row after
unfolding grant_approval
grant_approval-IsGranted env caller id args s row after h =
    let (u1, e1, h1) = Reads-done _ _ s row after (search reads_rules) h in
    let (item, e2, h2) = Reads-done _ _ s row after (Reads-locked_item id) h1 in
    let (u3, e3, h3) = Reads-done _ _ s row after (search reads_rules) h2 in
    let (u4, e4, h4) = Reads-done _ _ s row after (search reads_rules) h3 in
    let (u5, e5, h5) = Reads-done _ _ s row after (search reads_rules) h4 in
    let h6 = read_clock-done env _ s row after h5 in
    let (u7, e7, h7) = Reads-done _ _ (ticked s) row after (search reads_rules) h6 in
    let (u8, e8, h8) =
      Reads-done _ _ (ticked s) row after (Reads-assert_trusted_approval_actor _ _ _ _ _ _) h7 in
    let (row_is, left) = record_approval-done env caller item args _ (ticked s) row after h8 in
    let model = raise_if-returned _ _ s e1 in
    let wanted = raise_if-returned _ _ s e3 in
    let scope = raise_if-returned _ _ s e4 in
    let (reasoned, evidenced, legible) = documented _ _ (raise_if-returned _ _ s e5) in
    record {
      item = item;
      loaded = e2;
      by_authority = not_refused _ model;
      wanted = contains-Mem _ _ (not_refused _ wanted);
      same_scope =
          (eq_iff args.scope_hash (canonical_hash env item.scope_json)).0 (not_refused _ scope);
      reasoned = reasoned;
      evidenced = evidenced;
      legible = legible;
      not_expired = unexpired-of env caller args.expires_at _ (raise_if-returned _ _ (ticked s) e7);
      authority =
          assert_trusted_approval_actor-IsTrusted env caller item args.approval_type args.actor_type
            args.actor_id (ticked s) e8;
      recorded = row_is;
      stored = left;
    }
