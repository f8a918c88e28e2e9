-- ===== src/Retrieval/Laws/Rules.antt =====
-- How a property of the variables of `build` is kept through the whole loop.
use context_vault.Prelude.{
  ℕ, zero, suc, ◌≡◌, refl, String, Bool, true, false, not, ◌&&◌, Option, none, some, List, [], ◌∷◌,
  arith, ◌==◌, ◌=text◌, strip, if◌then◌else◌, Bool-cases, inl, inr,
}
use context_vault.Retrieval.Chunks.{
  Scope, Chunk, ContextItem, Reason, ScopedNeighborKey, scope_mismatch, empty_content,
  neighbor_boundary_mismatch, within_scope, neighbor_key, text_of, includes, Measures, hash_of,
  make_item, item_from, extra_item, extra_of, non_empty, metadata_get,
}
use context_vault.Retrieval.Context.{
  Sources, Limits, Draft, reject, is_foreign, add_item, add_extra, add_parent, add_neighbor,
  add_both, add_adjacent, add_neighbors, add_base, expand, add_candidate, add_candidates, parent_of,
  before, after,
}

module _ (given : Measures) (limits : Limits) (scope : Option Scope) (P : Draft → Type 0)
    (Q : ContextItem → Type 0)
    (keep_add : (item : ContextItem) (d : Draft)
      → Q item
      → P d
      → P (add_item limits.max_tokens item d).1)
    (keep_reject : (id : String) (rank : ℕ) (reason : Reason) (hash : String) (d : Draft)
      → P d
      → P (reject id rank reason hash d))
    (keep_truncated : (d : Draft) → P d → P (record d { truncated = true }))
    (items_of : (chunk : Chunk) (content hash : String) (rank : ℕ) (relation : String)
      → within_scope scope chunk ≡ true
      → Q (make_item given chunk content hash rank relation)) where
  keep_branch :
      (b : Bool) (x y : Draft) → (b ≡ true → P x) → (b ≡ false → P y) → P (if b then x else y)
  keep_branch true x y f g = f refl
  keep_branch false x y f g = g refl

  keep_parent :
      (parent : Option Chunk) (rank : ℕ) (d : Draft)
      → P d
      → P (add_parent given limits scope parent rank d)
  keep_parent none rank d p = p
  keep_parent (some parent) rank d p =
      keep_branch (limits.include_parents && within_scope scope parent) _ d
        (λ h. keep_add _ d (items_of parent _ _ rank "parent" (second_of _ _ h)) p) (λ h. p)
    where
      second_of : (a b : Bool) → (a && b) ≡ true → b ≡ true
      second_of a b h = ground arith

  keep_neighbor :
      (neighbor : Option Chunk) (key : ScopedNeighborKey) (rank : ℕ) (d : Draft)
      → P d
      → P (add_neighbor given limits scope neighbor key rank d)
  keep_neighbor none key rank d p = p
  keep_neighbor (some neighbor) key rank d p = elim (Bool-cases (is_foreign scope neighbor key)) [
    | inl foreign ↦ rw foreign (keep_reject _ rank neighbor_boundary_mismatch _ d p)
    | inr own ↦ rw own (elim (Bool-cases (within_scope scope neighbor)) [
      | inl inside ↦ rw inside (keep_add _ d (items_of neighbor _ _ rank "adjacent" inside) p)
      | inr out ↦ rw out (keep_reject _ rank scope_mismatch _ d p)
    ])
  ]

  keep_both :
      (resolver : Option Scope → ScopedNeighborKey → Option Chunk) (chunk : Chunk) (rank offset : ℕ)
      (d : Draft)
      → P d
      → P (add_both given limits scope resolver chunk rank offset d)
  unfolding add_both
  keep_both resolver chunk rank offset d p =
      let key = neighbor_key chunk scope chunk.sequence_no in
      let first = resolver scope (record key { sequence_no = before chunk.sequence_no offset }) in
      let second = resolver scope (record key { sequence_no = after chunk.sequence_no offset }) in
      let d1 = add_neighbor given limits scope first key rank d in
      let p1 : P d1 = keep_neighbor first key rank d p in keep_neighbor second key rank d1 p1

  keep_adjacent :
      (resolver : Option Scope → ScopedNeighborKey → Option Chunk) (chunk : Chunk)
      (rank done left : ℕ) (d : Draft)
      → P d
      → P (add_adjacent given limits scope resolver chunk rank done left d)
  unfolding add_adjacent
  keep_adjacent resolver chunk rank done zero d p = p
  keep_adjacent resolver chunk rank done (suc left) d p =
      keep_adjacent resolver chunk rank (suc done) left
        (add_both given limits scope resolver chunk rank (suc done) d)
        (keep_both resolver chunk rank (suc done) d p)

  keep_neighbors :
      (resolver : Option (Option Scope → ScopedNeighborKey → Option Chunk)) (chunk : Chunk)
      (rank : ℕ) (d : Draft)
      → P d
      → P (add_neighbors given limits scope resolver chunk rank d)
  keep_neighbors none chunk rank d p = p
  keep_neighbors (some resolver) chunk rank d p =
      keep_branch limits.include_adjacent _ d
        (λ h. keep_adjacent resolver chunk rank 0 limits.adjacent_window d p) (λ h. p)

  keep_extra :
      (whole : String) (item : Option ContextItem) (d : Draft)
      → ((i : ContextItem) → item ≡ some i → Q i)
      → P d
      → P (add_extra limits.max_tokens whole item d).1
  keep_extra whole none d q p = p
  keep_extra whole (some item) d q p = elim (Bool-cases (includes (strip item.content) whole)) [
    | inl has ↦ rw has p
    | inr lacks ↦ rw lacks (keep_add item d (q item refl) p)
  ]

  extra-Q :
      (chunk : Chunk) (wanted key : String) (rank : ℕ) (relation : String) (i : ContextItem)
      → within_scope scope chunk ≡ true
      → extra_item given chunk wanted key rank relation ≡ some i
      → Q i
  extra-Q chunk wanted key rank relation i inside h =
      elim (Bool-cases (chunk.chunk_type =text wanted)) [
        | inl same ↦ of_text (non_empty (metadata_get key chunk.metadata)) (rw same at h)
        | inr other ↦ let absurd : none ≡ some i = rw other at h in cc
      ]
    where
      of_text : (text : Option String) → extra_of given chunk text rank relation ≡ some i → Q i
      of_text none k = cc
      of_text (some content) k =
          let eq : make_item given chunk content (given.hash_text content) rank relation ≡ i = cc in
          rw (← eq) (items_of chunk content _ rank relation inside)

  keep_base :
      (chunk : Chunk) (rank : ℕ) (d : Draft)
      → within_scope scope chunk ≡ true
      → P d
      → P (add_base given limits scope chunk rank d).1
  unfolding add_base
  keep_base chunk rank d inside p =
      let header = extra_item given chunk "table" "header" rank "table_header" in
      let signature = extra_item given chunk "code" "signature" rank "code_signature" in
      let d1 = (add_extra limits.max_tokens (text_of chunk) header d).1 in
      let p1 : P d1 =
        keep_extra (text_of chunk) header d
          (λ i. extra-Q chunk "table" "header" rank "table_header" i inside) p in
      let d2 = (add_extra limits.max_tokens (text_of chunk) signature d1).1 in
      let p2 : P d2 =
        keep_extra (text_of chunk) signature d1
          (λ i. extra-Q chunk "code" "signature" rank "code_signature" i inside) p1 in
      keep_add (item_from given chunk rank "selected") d2
        (items_of chunk (text_of chunk) (hash_of given chunk) rank "selected" inside) p2

  keep_expand :
      (sources : Sources) (chunk : Chunk) (rank : ℕ) (d : Draft)
      → P d
      → P (expand given limits scope sources chunk rank d)
  unfolding expand
  keep_expand sources chunk rank d p =
      keep_neighbors sources.neighbor_resolver chunk rank _
        (keep_parent (parent_of sources scope chunk) rank d p)

  keep_candidate :
      (sources : Sources) (rank : ℕ) (chunk : Chunk) (d : Draft)
      → P d
      → P (add_candidate given limits scope sources rank chunk d).1
  unfolding add_candidate
  keep_candidate sources rank chunk d p = elim (Bool-cases (within_scope scope chunk)) [
    | inr out ↦ rw out (keep_reject chunk.chunk_id rank scope_mismatch (hash_of given chunk) d p)
    | inl inside ↦
        let d1 = (add_base given limits scope chunk rank d).1 in
        let based : P d1 = keep_base chunk rank d inside p in
        let d2 = expand given limits scope sources chunk rank d1 in
        let expanded : P d2 = keep_expand sources chunk rank d1 based in
        rw inside (
          keep_rest (text_of chunk =text "") (add_base given limits scope chunk rank d).0
            (d1.remaining_chunks == 0) (d2.remaining_chunks == 0) _ d1 d2
            (keep_reject chunk.chunk_id rank empty_content
              (item_from given chunk rank "selected").content_hash d p)
            based expanded)
  ]
    where
      keep_rest :
          (empty any_added full then_full : Bool) (rejected d1 d2 : Draft)
          → P rejected
          → P d1
          → P d2
          → (let step : Bool × Draft =
                if empty
                then (true, rejected)
                else if not any_added
                then (true, d1)
                else if full
                then (false, record d1 { truncated = true })
                else if then_full
                then (false, record d2 { truncated = true })
                else (true, d2) in
              P step.1)
      keep_rest true any_added full then_full rejected d1 d2 r p1 p2 = r
      keep_rest false false full then_full rejected d1 d2 r p1 p2 = p1
      keep_rest false true true then_full rejected d1 d2 r p1 p2 = keep_truncated d1 p1
      keep_rest false true false true rejected d1 d2 r p1 p2 = keep_truncated d2 p2
      keep_rest false true false false rejected d1 d2 r p1 p2 = p2

  -- What every addition, rejection and truncation keeps, the loop keeps.
  pub add_candidates_keeps :
      (sources : Sources) (rank : ℕ) (candidates : List Chunk) (d : Draft)
      → P d
      → P (add_candidates given limits scope sources rank candidates d)
  unfolding add_candidates
  add_candidates_keeps sources rank [] d p = p
  add_candidates_keeps sources rank (chunk ∷ rest) d p =
      let step = add_candidate given limits scope sources rank chunk d in
      let next : P step.1 = keep_candidate sources rank chunk d p in
      keep_branch step.0 (add_candidates given limits scope sources (suc rank) rest step.1) step.1
        (λ on. add_candidates_keeps sources (suc rank) rest step.1 next) (λ full. next)
