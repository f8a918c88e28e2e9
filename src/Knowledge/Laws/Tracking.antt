-- ===== src/Knowledge/Laws/Tracking.antt =====
-- What a step of the lifecycle leaves of each revision, and of the approved revisions of an item.
use context_vault.Prelude.{
  ◌⊎◌, ℕ, ◌≡◌, ◌≢◌, refl, sym, ◌∙◌, ap, true, false, none, some, List, arith, leb, ◌==◌, ==→eq,
  Bool-cases, inl, inr,
}
use context_vault.Work.Rows.{Uuid}
use context_vault.Knowledge.Records.{KnowledgeStatus, proposed, reviewed, approved}
use context_vault.Knowledge.Revision.{KnowledgeRevision, is_terminal}
use context_vault.Knowledge.Ledger.{get_revision, put_revision}
use context_vault.Knowledge.Laws.Tables.{get_revision-put_revision, get_revision-other}
use context_vault.Knowledge.Laws.Steps.{Follows}

-- How far a revision has come.
abbrev pub rank : KnowledgeStatus → ℕ
rank proposed = 0
rank reviewed = 1
rank approved = 2
rank _ = 3

-- What a revision says, and whose it is, stays; its status only advances; an ended one is final.
pub record Carries (x y : KnowledgeRevision) : Type 0 where
  pub same_item : y.item_id ≡ x.item_id
  pub same_version : y.version ≡ x.version
  pub same_content : (y.content ≡ x.content) × (y.content_hash ≡ x.content_hash)
  pub same_proposer : y.proposed_by ≡ x.proposed_by
  pub forward : leb (rank x.status) (rank y.status) ≡ true
  pub final : (is_terminal x.status ≡ false) ⊎ (y ≡ x)

-- Each revision of the first table is in the second one, carried on.
abbrev pub Tracks : List KnowledgeRevision → List KnowledgeRevision → Type 0
Tracks t t' =
    (id : Uuid) (x : KnowledgeRevision)
    → get_revision id t ≡ some x
    → (y : KnowledgeRevision) × (get_revision id t' ≡ some y) × Carries x y

leb_refl : (n : ℕ) → leb n n ≡ true
leb_refl n = ground arith

leb_trans : (a b c : ℕ) → leb a b ≡ true → leb b c ≡ true → leb a c ≡ true
leb_trans a b c h k = ground arith

Carries-refl : (x : KnowledgeRevision) → Carries x x
Carries-refl x = record {
  same_item = refl;
  same_version = refl;
  same_content = (refl, refl);
  same_proposer = refl;
  forward = leb_refl (rank x.status);
  final = inr refl;
}

pub Carries-trans : (x y z : KnowledgeRevision) → Carries x y → Carries y z → Carries x z
Carries-trans x y z f g = record {
  same_item = g.same_item ∙ f.same_item;
  same_version = g.same_version ∙ f.same_version;
  same_content = (g.same_content.0 ∙ f.same_content.0, g.same_content.1 ∙ f.same_content.1);
  same_proposer = g.same_proposer ∙ f.same_proposer;
  forward = leb_trans (rank x.status) (rank y.status) (rank z.status) f.forward g.forward;
  final = final_after f.final g.final;
}
  where
    final_after :
        (is_terminal x.status ≡ false) ⊎ (y ≡ x)
        → (is_terminal y.status ≡ false) ⊎ (z ≡ y)
        → (is_terminal x.status ≡ false) ⊎ (z ≡ x)
    final_after (inl live) later = inl live
    final_after (inr same) (inl live) =
        inl (ap (λ (r : KnowledgeRevision). is_terminal r.status) (sym same) ∙ live)
    final_after (inr same) (inr kept) = inr (kept ∙ same)

pub Tracks-refl : (t : List KnowledgeRevision) → Tracks t t
Tracks-refl t id x h = (x, h, Carries-refl x)

pub Tracks-trans : (t u v : List KnowledgeRevision) → Tracks t u → Tracks u v → Tracks t v
Tracks-trans t u v f g id x h =
    let (y, found, first) = f id x h in
    let (z, found', second) = g id y found in (z, found', Carries-trans x y z first second)

module _ (t : List KnowledgeRevision) where
  -- A copy of a revision that has not ended carries it on.
  pub carried :
      (x r : KnowledgeRevision)
      → Follows t x r
      → leb (rank x.status) (rank r.status) ≡ true
      → is_terminal x.status ≡ false
      → Carries x r
  carried x r f ahead live = record {
    same_item = f.same_item;
    same_version = f.same_version;
    same_content = f.same_content;
    same_proposer = f.same_proposer;
    forward = ahead;
    final = inl live;
  }

  pub copy-Tracks :
      (x r : KnowledgeRevision) → Follows t x r → Carries x r → Tracks t (put_revision r t)
  copy-Tracks x r f step id y h = elim (Bool-cases (id == r.revision_id)) [
    | inl same ↦
        let eq : id ≡ r.revision_id = ==→eq id r.revision_id same in
        let both : some x ≡ some y = sym f.found ∙ ap (λ i. get_revision i t) (sym eq) ∙ h in
        let y_is_x : x ≡ y = cc in
        (
          r,
          ap (λ i. get_revision i (put_revision r t)) eq ∙ get_revision-put_revision r t,
          rw (← y_is_x) step,
        )
    | inr differ ↦
        (y, get_revision-other id r t (apart id r.revision_id differ) ∙ h, Carries-refl y)
  ]
    where
      apart : (a b : Uuid) → (a == b) ≡ false → a ≢ b
      apart a b k = ground arith

  pub new-Tracks :
      (r : KnowledgeRevision) → get_revision r.revision_id t ≡ none → Tracks t (put_revision r t)
  new-Tracks r unused id x h = (
    x,
    get_revision-other id r t (λ same.
          let absurd : none ≡ some x = sym unused ∙ ap (λ i. get_revision i t) (sym same) ∙ h in cc)
        ∙ h,
    Carries-refl x,
  )
