-- ===== src/Retrieval/Laws/Budgets.antt =====
-- The context never exceeds its budgets and never shows a text twice.
use context_vault.Prelude.{
  ℕ, ◌+◌, ◌-◌, ◌≡◌, refl, sym, ap, ◌∙◌, String, Bool, true, false, ◌||◌, Option, some, List, [],
  ◌∷◌, ◌++◌, arith, ◌==◌, ◌=text◌, length, count, one_if, ltb, leb, Bool-cases, inl, inr, eq_iff,
}
use context_vault.Retrieval.Chunks.{Scope, Chunk, ContextItem, Reason, Measures}
use context_vault.Retrieval.Context.{
  Sources, Limits, Draft, is_seen, reject, add_item, add_candidates,
}
use context_vault.Retrieval.Bundle.{empty_draft, bundle_of, ContextBundle, make_bundle, build}
use context_vault.Retrieval.Laws.Rules.{add_candidates_keeps}

abbrev pub tokens_of : List ContextItem → ℕ
tokens_of [] = 0
tokens_of (item ∷ rest) = item.token_count + tokens_of rest

abbrev pub has_hash : String → ContextItem → Bool
has_hash hash item = item.content_hash =text hash

-- The variables of `build` account for the items.
pub record IsWithin (max_chunks max_tokens : ℕ) (d : Draft) : Type 0 where
  pub counted : length d.items + d.remaining_chunks ≡ max_chunks
  pub summed : tokens_of d.items ≡ d.total_tokens
  pub affordable : leb d.total_tokens max_tokens ≡ true
  pub once : (hash : String) → leb (count (has_hash hash) d.items) 1 ≡ true
  pub seen :
      (hash : String) → is_seen hash d.seen_hashes ≡ false → count (has_hash hash) d.items ≡ 0

length-snoc : (xs : List ContextItem) (x : ContextItem) → length (xs ++ (x ∷ [])) ≡ length xs + 1
length-snoc [] x = omega arith
length-snoc (y ∷ rest) x = let later = length-snoc rest x in omega arith

tokens_of-snoc :
    (xs : List ContextItem) (x : ContextItem)
    → tokens_of (xs ++ (x ∷ [])) ≡ tokens_of xs + x.token_count
tokens_of-snoc [] x = omega arith
tokens_of-snoc (y ∷ rest) x = let later = tokens_of-snoc rest x in omega arith

count-snoc :
    (test : ContextItem → Bool) (xs : List ContextItem) (x : ContextItem)
    → count test (xs ++ (x ∷ [])) ≡ count test xs + one_if (test x)
count-snoc test [] x = omega arith
count-snoc test (y ∷ rest) x = let later = count-snoc test rest x in omega arith

text_same : (a b : String) → (a =text b) ≡ true → a ≡ b
text_same a b h = ground (arith, eq_iff a b)

module _ (max_chunks max_tokens : ℕ) where
  reject-IsWithin :
      (id : String) (rank : ℕ) (reason : Reason) (hash : String) (d : Draft)
      → IsWithin max_chunks max_tokens d
      → IsWithin max_chunks max_tokens (reject id rank reason hash d)
  reject-IsWithin id rank reason hash d w = record {
    counted = w.counted;
    summed = w.summed;
    affordable = w.affordable;
    once = w.once;
    seen = w.seen;
  }

  truncated-IsWithin :
      (d : Draft)
      → IsWithin max_chunks max_tokens d
      → IsWithin max_chunks max_tokens (record d { truncated = true })
  truncated-IsWithin d w = record {
    counted = w.counted;
    summed = w.summed;
    affordable = w.affordable;
    once = w.once;
    seen = w.seen;
  }

  added : ContextItem → Draft → Draft
  added item d = record d {
    items = d.items ++ (item ∷ []);
    total_tokens = d.total_tokens + item.token_count;
    seen_hashes = item.content_hash ∷ d.seen_hashes;
    remaining_chunks = d.remaining_chunks - 1;
  }

  one_more :
      (n m left : ℕ)
      → n ≡ m + 1
      → m + left ≡ max_chunks
      → (left == 0) ≡ false
      → n + (left - 1) ≡ max_chunks
  one_more n m left h k e = ground arith

  once_more :
      (n m : ℕ) (same : Bool)
      → n ≡ m + one_if same
      → leb m 1 ≡ true
      → (same ≡ true → m ≡ 0)
      → leb n 1 ≡ true
  once_more n m true h k none_yet = let zero : m ≡ 0 = none_yet refl in ground arith
  once_more n m false h k none_yet = ground arith

  not_or : (a b : Bool) → (a || b) ≡ false → (a ≡ false) × (b ≡ false)
  not_or a b h = ground arith

  added-IsWithin :
      (item : ContextItem) (d : Draft)
      → is_seen item.content_hash d.seen_hashes ≡ false
      → (d.remaining_chunks == 0) ≡ false
      → ltb max_tokens (d.total_tokens + item.token_count) ≡ false
      → IsWithin max_chunks max_tokens d
      → IsWithin max_chunks max_tokens (added item d)
  unfolding added is_seen
  added-IsWithin item d new room fits w = record {
    counted = one_more _ _ d.remaining_chunks (length-snoc d.items item) w.counted room;
    summed = tokens_of-snoc d.items item ∙ ap (λ n. n + item.token_count) w.summed;
    affordable = not_over max_tokens (d.total_tokens + item.token_count) fits;
    once = λ hash.
        once_more _ (count (has_hash hash) d.items) (has_hash hash item)
          (count-snoc (has_hash hash) d.items item) (w.once hash)
          (λ same.
            ap (λ h. count (has_hash h) d.items) (sym (text_same item.content_hash hash same))
            ∙ w.seen item.content_hash new);
    seen = λ hash h.
        let (other, unseen) =
          not_or (item.content_hash =text hash) (is_seen hash d.seen_hashes) h in
        count-snoc (has_hash hash) d.items item
        ∙ none_more _ (has_hash hash item) (w.seen hash unseen) other;
  }
    where
      not_over : (a b : ℕ) → ltb a b ≡ false → leb b a ≡ true
      not_over a b h = ground arith

      none_more : (n : ℕ) (same : Bool) → n ≡ 0 → same ≡ false → n + one_if same ≡ 0
      none_more n same h k = ground arith

  add_item-IsWithin :
      (item : ContextItem) (d : Draft)
      → Unit {0}
      → IsWithin max_chunks max_tokens d
      → IsWithin max_chunks max_tokens (add_item max_tokens item d).1
  unfolding add_item added
  add_item-IsWithin item d u w = elim (Bool-cases (is_seen item.content_hash d.seen_hashes)) [
    | inl old ↦ rw old (reject-IsWithin _ _ _ _ d w)
    | inr new ↦ rw new (elim (Bool-cases (d.remaining_chunks == 0)) [
      | inl full ↦
          rw full (reject-IsWithin _ _ _ _ (record d { truncated = true }) (truncated-IsWithin d w))
      | inr room ↦ rw room (elim (Bool-cases (ltb max_tokens (d.total_tokens + item.token_count))) [
        | inl over ↦
            rw over
              (reject-IsWithin _ _ _ _ (record d { truncated = true }) (truncated-IsWithin d w))
        | inr fits ↦ rw fits (added-IsWithin item d new room fits w)
      ])
    ])
  ]

-- With budgets that are not negative `build` never raises: it returns a bundle whose items number at
-- most the chunk budget, whose tokens are exactly `total_tokens` and at most the token budget, and in
-- which no content hash stands twice.
pub build_lem :
    (given : Measures) (limits : Limits) (scope : Option Scope) (sources : Sources)
    (candidates : List Chunk)
    → (b : ContextBundle) × (build given limits scope sources candidates ≡ some b)
      × (leb (length b.selected_items) limits.max_chunks ≡ true)
      × (tokens_of b.selected_items ≡ b.total_tokens)
      × (leb b.total_tokens limits.max_tokens ≡ true)
      × ((hash : String) → leb (count (has_hash hash) b.selected_items) 1 ≡ true)
unfolding build make_bundle
build_lem given limits scope sources candidates =
    let d =
      add_candidates given limits scope sources 1 candidates (empty_draft limits.max_chunks) in
    let w : IsWithin limits.max_chunks limits.max_tokens d =
      add_candidates_keeps given limits scope (IsWithin limits.max_chunks limits.max_tokens)
        (λ item. Unit {0}) (add_item-IsWithin limits.max_chunks limits.max_tokens)
        (reject-IsWithin limits.max_chunks limits.max_tokens)
        (truncated-IsWithin limits.max_chunks limits.max_tokens)
        (λ chunk content hash rank relation inside. tt) sources 1 candidates
        (empty_draft limits.max_chunks)
        (record {
          counted = omega arith;
          summed = refl;
          affordable = none_spent limits.max_tokens;
          once = λ hash. refl;
          seen = λ hash h. refl;
        }) in
    let few = at_most (length d.items) d.remaining_chunks limits.max_chunks w.counted in
    (
      bundle_of limits d,
      rw (not_less d.total_tokens limits.max_tokens w.affordable)
          (rw (not_less (length d.items) limits.max_chunks few) refl),
      few,
      w.summed,
      w.affordable,
      w.once,
    )
  where
    at_most : (n left most : ℕ) → n + left ≡ most → leb n most ≡ true
    at_most n left most h = ground arith

    not_less : (n most : ℕ) → leb n most ≡ true → ltb most n ≡ false
    not_less n most h = ground arith

    none_spent : (most : ℕ) → leb 0 most ≡ true
    none_spent most = ground arith
