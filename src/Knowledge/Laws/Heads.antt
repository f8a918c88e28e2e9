-- ===== src/Knowledge/Laws/Heads.antt =====
-- Each step of the lifecycle carries the revisions on and leaves an item at most one approved revision.
use context_vault.Prelude.{
  one_if, ℕ, ◌+◌, ◌≡◌, ◌≢◌, refl, sym, ◌∙◌, ap, Bool, true, false, ◌&&◌, some, List, arith, leb,
  ◌==◌, ==→eq, Bool-cases, inl, inr,
}
use context_vault.Work.Rows.{Uuid}
use context_vault.Knowledge.Records.{
  KnowledgeStatus, proposed, reviewed, approved, superseded, status_eq,
}
use context_vault.Knowledge.Revision.{KnowledgeRevision, is_terminal}
use context_vault.Knowledge.Ledger.{get_revision, put_revision, is_head}
use context_vault.Knowledge.Laws.Tables.{
  heads, count-put_revision, count-new_revision, get_revision-other,
}
use context_vault.Knowledge.Laws.Steps.{
  Follows, Moves, keep, add, vet, install_first, install_next, finish,
}
use context_vault.Knowledge.Laws.Tracking.{
  rank, Tracks, Tracks-refl, Tracks-trans, carried, copy-Tracks, new-Tracks,
}

-- Two revisions of a table with different statuses have different ids.
apart_of :
    (t : List KnowledgeRevision) (x r p q : KnowledgeRevision)
    → Follows t x r
    → Follows t p q
    → x.status ≡ reviewed
    → p.status ≡ approved
    → q.revision_id ≢ r.revision_id
apart_of t x r p q f g was_x was_p same =
    let both : some p ≡ some x = sym g.found ∙ ap (λ i. get_revision i t) same ∙ f.found in
    let eq : p ≡ x = cc in
    let statuses : approved ≡ reviewed =
      sym was_p ∙ ap (λ (y : KnowledgeRevision). y.status) eq ∙ was_x in
    cc

-- The predecessor is still there after the first write of an approval.
still_found :
    (t : List KnowledgeRevision) (x r p q : KnowledgeRevision)
    → Follows t x r
    → Follows t p q
    → x.status ≡ reviewed
    → p.status ≡ approved
    → Follows (put_revision r t) p q
still_found t x r p q f g was_x was_p = record {
  found = get_revision-other q.revision_id r t (apart_of t x r p q f g was_x was_p) ∙ g.found;
  same_item = g.same_item;
  same_version = g.same_version;
  same_content = g.same_content;
  same_proposer = g.same_proposer;
}

-- A copy with the next status carries its revision on.
advance :
    (t : List KnowledgeRevision) (x r : KnowledgeRevision) (a b : KnowledgeStatus)
    → Follows t x r
    → x.status ≡ a
    → r.status ≡ b
    → leb (rank a) (rank b) ≡ true
    → is_terminal a ≡ false
    → Tracks t (put_revision r t)
advance t x r a b f was now ahead live =
    copy-Tracks t x r f (carried t x r f (rw was (rw now ahead)) (rw was live))

ended : (s : KnowledgeStatus) → is_terminal s ≡ true → leb (rank approved) (rank s) ≡ true
ended s h = ground arith

pub Moves-Tracks : (t t' : List KnowledgeRevision) → Moves t t' → Tracks t t'
Moves-Tracks t t' keep = Tracks-refl t
Moves-Tracks t t' (add r now unused) = new-Tracks t r unused
Moves-Tracks t t' (vet x r f was now) = advance t x r proposed reviewed f was now refl refl
Moves-Tracks t t' (install_first x r f was now free) =
    advance t x r reviewed approved f was now refl refl
Moves-Tracks t t' (install_next x r p q f was now one g was_p now_q item) =
    Tracks-trans t (put_revision r t) (put_revision q (put_revision r t))
      (advance t x r reviewed approved f was now refl refl)
      (advance (put_revision r t) p q approved superseded (still_found t x r p q f g was was_p)
        was_p now_q refl refl)
Moves-Tracks t t' (finish x r f was now) =
    advance t x r approved r.status f was refl (ended r.status now) refl

abbrev pub AtMostOne : List KnowledgeRevision → Type 0
AtMostOne t = (item : Uuid) → leb (heads item t) 1 ≡ true

not_head :
    (item : Uuid) (r : KnowledgeRevision) (s : KnowledgeStatus)
    → r.status ≡ s
    → status_eq s approved ≡ false
    → one_if (is_head item r) ≡ 0
not_head item r s was other = rw was (rw other (dropped (r.item_id == item)))
  where
    dropped : (b : Bool) → one_if (b && false) ≡ 0
    dropped b = ground arith

head_of :
    (item : Uuid) (r : KnowledgeRevision)
    → r.status ≡ approved
    → one_if (is_head item r) ≡ one_if (r.item_id == item)
head_of item r was = rw was (kept (r.item_id == item))
  where
    kept : (b : Bool) → one_if (b && true) ≡ one_if b
    kept b = ground arith

-- A write that adds no approved revision.
held : (n m a b : ℕ) → n + a ≡ m + b → b ≡ 0 → leb m 1 ≡ true → leb n 1 ≡ true
held n m a b h none_new k = ground arith

without : (n m a b c : ℕ) → n + a ≡ m + b → a ≡ 0 → b ≡ c → n ≡ m + c
without n m a b c h k e = omega arith

moved_on : (n o m a b k : ℕ) → n + a ≡ o + b → a ≡ k → b ≡ 0 → o ≡ m + k → n ≡ m
moved_on n o m a b k h was none_new before = omega arith

-- An approved revision counts for its own item, where there was none.
first_head :
    (n m mine item : ℕ)
    → n ≡ m + one_if (mine == item)
    → leb m 1 ≡ true
    → (mine ≡ item → m ≡ 0)
    → leb n 1 ≡ true
first_head n m mine item h k none_yet = elim (Bool-cases (mine == item)) [
  | inl same ↦
      let zero : m ≡ 0 = none_yet (==→eq mine item same) in
      let counted : n ≡ m + 1 = rw same at h in ground arith
  | inr differ ↦ let counted : n ≡ m + 0 = rw differ at h in ground arith
]

module _ (t : List KnowledgeRevision) (item : Uuid) where
  swapped :
      (x r : KnowledgeRevision)
      → Follows t x r
      → heads item (put_revision r t) + one_if (is_head item x)
        ≡ heads item t + one_if (is_head item r)
  swapped x r f = count-put_revision (is_head item) r x t f.found

ended_head :
    (item : Uuid) (r : KnowledgeRevision)
    → is_terminal r.status ≡ true
    → one_if (is_head item r) ≡ 0
ended_head item r h = not_head item r r.status refl (other r.status h)
  where
    other : (s : KnowledgeStatus) → is_terminal s ≡ true → status_eq s approved ≡ false
    other s k = ground arith

pub Moves-AtMostOne : (t t' : List KnowledgeRevision) → Moves t t' → AtMostOne t → AtMostOne t'
Moves-AtMostOne t t' keep h item = h item
Moves-AtMostOne t t' (add r now unused) h item =
    let counted = count-new_revision (is_head item) r t unused in
    held (heads item (put_revision r t)) (heads item t) 0 (one_if (is_head item r)) (omega arith)
      (not_head item r proposed now refl) (h item)
Moves-AtMostOne t t' (vet x r f was now) h item =
    held (heads item (put_revision r t)) (heads item t) (one_if (is_head item x))
      (one_if (is_head item r)) (swapped t item x r f) (not_head item r reviewed now refl) (h item)
Moves-AtMostOne t t' (install_first x r f was now free) h item =
    first_head (heads item (put_revision r t)) (heads item t) r.item_id item
      (without _ _ _ _ _ (swapped t item x r f) (not_head item x reviewed was refl)
        (head_of item r now))
      (h item) (λ mine. ap (λ i. heads i t) (sym mine) ∙ free)
Moves-AtMostOne t t' (install_next x r p q f was now one g was_p now_q same) h item =
    let first =
      without (heads item (put_revision r t)) (heads item t) _ _ _ (swapped t item x r f)
        (not_head item x reviewed was refl) (head_of item r now) in
    let mine : one_if (is_head item p) ≡ one_if (r.item_id == item) =
      head_of item p was_p ∙ ap (λ i. one_if (i == item)) (sym g.same_item ∙ same) in
    let total =
      moved_on (heads item (put_revision q (put_revision r t))) (heads item (put_revision r t))
        (heads item t) _ _ (one_if (r.item_id == item))
        (swapped (put_revision r t) item p q (still_found t x r p q f g was was_p)) mine
        (not_head item q superseded now_q refl) first in
    rw total (h item)
Moves-AtMostOne t t' (finish x r f was now) h item =
    held (heads item (put_revision r t)) (heads item t) (one_if (is_head item x))
      (one_if (is_head item r)) (swapped t item x r f) (ended_head item r now) (h item)
