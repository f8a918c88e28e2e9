-- ===== src/Knowledge/Laws/Tables.antt =====
-- The table of revisions: lookups after a write, and the number of approved revisions of an item.
use context_vault.Prelude.{
  one_if, count, ℕ, ◌+◌, ◌≡◌, ◌≢◌, refl, Bool, true, ◌&&◌, none, some, List, [], ◌∷◌, All, length,
  select, arith, sym, ◌∙◌, ap, ◌==◌, sort_by, insert_by, Bool-cases, inl, inr, All-select, is_empty,
}
use context_vault.Work.Rows.{Uuid}
use context_vault.Knowledge.Revision.{KnowledgeRevision, revision_eq, same_identity, same_fields}
use context_vault.Knowledge.Ledger.{
  Ledger, get_revision, put_revision, is_head, sorts_before, revisions, active_heads,
}
use context_vault.Knowledge.Approval.{is_only_head}

pub get_revision-id :
    (id : Uuid) (t : List KnowledgeRevision) (r : KnowledgeRevision)
    → get_revision id t ≡ some r
    → r.revision_id ≡ id
get_revision-id id [] r h = cc
get_revision-id id (x ∷ rest) r h = ground (arith, get_revision-id id rest r)

-- A revision is found under its own id.
pub refound :
    (id : Uuid) (t : List KnowledgeRevision) (r : KnowledgeRevision)
    → get_revision id t ≡ some r
    → get_revision r.revision_id t ≡ some r
refound id t r h = ap (λ i. get_revision i t) (get_revision-id id t r h) ∙ h

pub get_revision-put_revision :
    (r : KnowledgeRevision) (t : List KnowledgeRevision)
    → get_revision r.revision_id (put_revision r t) ≡ some r
unfolding put_revision
get_revision-put_revision r [] = ground arith
get_revision-put_revision r (x ∷ rest) = ground (arith, get_revision-put_revision r rest)

pub get_revision-other :
    (id : Uuid) (r : KnowledgeRevision) (t : List KnowledgeRevision)
    → id ≢ r.revision_id
    → get_revision id (put_revision r t) ≡ get_revision id t
unfolding put_revision
get_revision-other id r [] other = ground arith
get_revision-other id r (x ∷ rest) other = ground (arith, get_revision-other id r rest other)

pub All-put_revision :
    (P : KnowledgeRevision → Type 0) (r : KnowledgeRevision) (t : List KnowledgeRevision)
    → P r
    → All P t
    → All P (put_revision r t)
unfolding put_revision
All-put_revision P r [] p h = (p, tt)
All-put_revision P r (x ∷ rest) p h = elim (Bool-cases (x.revision_id == r.revision_id)) [
  | inl same ↦ rw same (p, h.1)
  | inr other ↦ rw other (h.0, All-put_revision P r rest p h.1)
]

pub All-get_revision :
    (P : KnowledgeRevision → Type 0) (id : Uuid) (t : List KnowledgeRevision)
    (r : KnowledgeRevision)
    → All P t
    → get_revision id t ≡ some r
    → P r
All-get_revision P id [] r h e = cc
All-get_revision P id (x ∷ rest) r h e = ground (arith, All-get_revision P id rest r h.1)

-- A write over a revision exchanges it in the count.
pub count-put_revision :
    (test : KnowledgeRevision → Bool) (r x : KnowledgeRevision) (t : List KnowledgeRevision)
    → get_revision r.revision_id t ≡ some x
    → count test (put_revision r t) + one_if (test x) ≡ count test t + one_if (test r)
unfolding put_revision
count-put_revision test r x [] h = cc
count-put_revision test r x (y ∷ rest) h = elim (Bool-cases (y.revision_id == r.revision_id)) [
  | inl same ↦
      rw same
        (let found : some y ≡ some x = rw same at h in let eq : y ≡ x = cc in rw eq (omega arith))
  | inr other ↦
      let later = count-put_revision test r x rest (rw other at h) in rw other (omega arith)
]

-- A new revision adds itself.
pub count-new_revision :
    (test : KnowledgeRevision → Bool) (r : KnowledgeRevision) (t : List KnowledgeRevision)
    → get_revision r.revision_id t ≡ none
    → count test (put_revision r t) ≡ count test t + one_if (test r)
unfolding put_revision
count-new_revision test r [] h = omega arith
count-new_revision test r (y ∷ rest) h = elim (Bool-cases (y.revision_id == r.revision_id)) [
  | inl same ↦ let found : some y ≡ none = rw same at h in cc
  | inr other ↦ let later = count-new_revision test r rest (rw other at h) in rw other (omega arith)
]

count-insert_by :
    {A : Type 0} (before : A → A → Bool) (test : A → Bool) (x : A) (xs : List A)
    → count test (insert_by before x xs) ≡ one_if (test x) + count test xs
unfolding insert_by
count-insert_by before test x [] = refl
count-insert_by before test x (y ∷ rest) = elim (Bool-cases (before x y)) [
  | inl first ↦ rw first refl
  | inr later ↦ let rest_same = count-insert_by before test x rest in rw later (omega arith)
]

pub count-sort_by :
    {A : Type 0} (before : A → A → Bool) (test : A → Bool) (xs : List A)
    → count test (sort_by before xs) ≡ count test xs
unfolding sort_by
count-sort_by before test [] = refl
count-sort_by before test (x ∷ rest) =
    let later = count-sort_by before test rest in
    let here = count-insert_by before test x (sort_by before rest) in omega arith

length-select :
    {A : Type 0} (test : A → Bool) (xs : List A) → length (select test xs) ≡ count test xs
length-select test [] = refl
length-select test (x ∷ xs) = elim (Bool-cases (test x)) [
  | inl kept ↦ let later = length-select test xs in rw kept (omega arith)
  | inr dropped ↦ let later = length-select test xs in rw dropped (omega arith)
]

-- The number of approved revisions of an item.
abbrev pub heads : Uuid → List KnowledgeRevision → ℕ
heads item t = count (is_head item) t

length-active_heads : (item : Uuid) (l : Ledger) → length (active_heads item l) ≡ heads item l.table
unfolding active_heads revisions
length-active_heads item l =
    length-select (is_head item) (sort_by sorts_before l.table)
    ∙ count-sort_by sorts_before (is_head item) l.table

pub no_active_heads :
    (item : Uuid) (l : Ledger) → is_empty (active_heads item l) ≡ true → heads item l.table ≡ 0
no_active_heads item l h = counted (active_heads item l) (length-active_heads item l) h
  where
    counted :
        (hs : List KnowledgeRevision)
        → length hs ≡ heads item l.table
        → is_empty hs ≡ true
        → heads item l.table ≡ 0
    counted [] e k = omega arith
    counted (x ∷ xs) e k = cc

same_identity-item : (a b : KnowledgeRevision) → same_identity a b ≡ true → a.item_id ≡ b.item_id
unfolding same_identity
same_identity-item a b h = ground arith

first_of : (a b : Bool) → (a && b) ≡ true → a ≡ true
first_of a b h = ground arith

revision_eq-item : (a b : KnowledgeRevision) → revision_eq a b ≡ true → a.item_id ≡ b.item_id
unfolding revision_eq
revision_eq-item a b h = same_identity-item a b (first_of (same_identity a b) (same_fields a b) h)

is_head-item : (item : Uuid) (r : KnowledgeRevision) → is_head item r ≡ true → r.item_id ≡ item
is_head-item item r h = ground arith

pub only_active_head :
    (item : Uuid) (l : Ledger) (p : KnowledgeRevision)
    → is_only_head p (active_heads item l) ≡ true
    → (heads item l.table ≡ 1) × (p.item_id ≡ item)
unfolding active_heads is_only_head
only_active_head item l p h =
    counted (active_heads item l) (length-active_heads item l)
      (All-select (is_head item) (revisions l)) h
  where
    counted :
        (hs : List KnowledgeRevision)
        → length hs ≡ heads item l.table
        → All (λ r. is_head item r ≡ true) hs
        → is_only_head p hs ≡ true
        → (heads item l.table ≡ 1) × (p.item_id ≡ item)
    counted [] e all k = cc
    counted (x ∷ []) e all k =
        (omega arith, sym (revision_eq-item x p k) ∙ is_head-item item x all.0)
    counted (x ∷ y ∷ xs) e all k = cc
