-- ===== src/Knowledge/Laws/Projecting.antt =====
-- What the read-only projection of approved knowledge shows.
use context_vault.Prelude.{
  one_if, count, ℕ, ◌+◌, ◌≡◌, refl, Bool, true, false, not, ◌&&◌, ◌||◌, some, List, [], ◌∷◌, arith,
  String, All, option_eq, leb, ◌==◌, select, Bool-cases, inl, inr, is_some, sort_by, All-sort_by,
}
use context_vault.Work.Rows.{Uuid, Instant}
use context_vault.Knowledge.Records.{approved, status_eq, actor_eq}
use context_vault.Knowledge.Revision.{KnowledgeRevision, is_model, make_revision, is_valid_at}
use context_vault.Knowledge.Ledger.{new_ledger, is_head, sorts_before, revisions}
use context_vault.Knowledge.Approval.{approved_projection}
use context_vault.Knowledge.Laws.Checks.{accepted}
use context_vault.Knowledge.Laws.Tables.{heads, count-sort_by}
use context_vault.Knowledge.Laws.Steps.{status_is}
use context_vault.Knowledge.Laws.Copies.{stands}
use context_vault.Knowledge.Laws.Keeping.{IsSound}
use context_vault.Knowledge.Runs.{Call, run}
use context_vault.Knowledge.Laws.Running.{run-IsSound, run-AtMostOne}

-- What a projection at an instant shows of a revision.
abbrev pub IsShown : Instant → KnowledgeRevision → Type 0
IsShown at r =
    (r.status ≡ approved)
    × (is_valid_at r at ≡ true)
    × ((not (is_some r.reviewed_by) || not (is_some r.approved_by)) ≡ false)
    × ((is_model r.reviewed_by || is_model r.approved_by) ≡ false)
    × (option_eq actor_eq r.reviewed_by (some r.proposed_by) ≡ false)

abbrev is_current : Instant → KnowledgeRevision → Bool
is_current at r = status_eq r.status approved && is_valid_at r at

-- A sound revision that the projection selects.
shown :
    (hash_text : String → String) (at : Instant) (r : KnowledgeRevision)
    → IsSound hash_text r
    → is_current at r ≡ true
    → IsShown at r
unfolding make_revision
shown hash_text at r sound h =
    let (is_approved, valid) = both_of (status_eq r.status approved) (is_valid_at r at) h in
    let was = status_is r.status approved (rw is_approved refl) in
    let (u, e1, h1) = accepted _ _ r sound.0 in
    let (v, e2, h2) = accepted _ _ r h1 in
    let (people, not_model) = stands r e2 was in (was, valid, people, not_model, sound.1)
  where
    both_of : (a b : Bool) → (a && b) ≡ true → (a ≡ true) × (b ≡ true)
    both_of a b k = ground arith

select-IsShown :
    (hash_text : String → String) (at : Instant) (rs : List KnowledgeRevision)
    → All (IsSound hash_text) rs
    → All (IsShown at) (select (is_current at) rs)
select-IsShown hash_text at [] sound = tt
select-IsShown hash_text at (r ∷ rest) sound = elim (Bool-cases (is_current at r)) [
  | inl current ↦
      rw current (shown hash_text at r sound.0 current, select-IsShown hash_text at rest sound.1)
  | inr other ↦ rw other (select-IsShown hash_text at rest sound.1)
]

abbrev pub of_item : Uuid → KnowledgeRevision → Bool
of_item item r = r.item_id == item

count-current :
    (item : Uuid) (at : Instant) (rs : List KnowledgeRevision)
    → leb (count (of_item item) (select (is_current at) rs)) (heads item rs) ≡ true
count-current item at [] = refl
count-current item at (r ∷ rest) = elim (Bool-cases (is_current at r)) [
  | inl current ↦
      let later = count-current item at rest in
      rw current (
        one_more (r.item_id == item) (status_eq r.status approved) (is_valid_at r at) _ _ current
          later)
  | inr other ↦
      let later = count-current item at rest in
      rw other (no_more (one_if (is_head item r)) _ _ later)
]
  where
    one_more :
        (mine is_approved valid : Bool) (n m : ℕ)
        → (is_approved && valid) ≡ true
        → leb n m ≡ true
        → leb (one_if mine + n) (one_if (mine && is_approved) + m) ≡ true
    one_more true true valid n m k h = ground arith
    one_more true false valid n m k h = cc
    one_more false is_approved valid n m k h = ground arith

    no_more : (a n m : ℕ) → leb n m ≡ true → leb n (a + m) ≡ true
    no_more a n m h = ground arith

-- In a ledger that any sequence of calls has built, the projection at an instant shows at most one
-- revision of an item, and only approved ones that are valid at the instant, that have been reviewed and
-- approved by actors that are no models, and reviewed by another than their proposer.
pub approved_projection_lem :
    (hash_text : String → String) (calls : List Call) (at : Instant)
    → All (IsShown at) (approved_projection (run hash_text new_ledger calls) at)
      × ((item : Uuid)
          → leb (count (of_item item) (approved_projection (run hash_text new_ledger calls) at)) 1
            ≡ true)
unfolding approved_projection revisions
approved_projection_lem hash_text calls at =
    let l = run hash_text new_ledger calls in
    (
      select-IsShown hash_text at (sort_by sorts_before l.table)
          (All-sort_by sorts_before (IsSound hash_text) l.table (run-IsSound hash_text calls)),
      λ item.
          within _ (heads item (sort_by sorts_before l.table)) (heads item l.table)
            (count-current item at (sort_by sorts_before l.table))
            (count-sort_by sorts_before (is_head item) l.table)
            (run-AtMostOne hash_text calls item),
    )
  where
    within : (a b c : ℕ) → leb a b ≡ true → b ≡ c → leb c 1 ≡ true → leb a 1 ≡ true
    within a b c h k one = ground arith
