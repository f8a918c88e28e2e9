-- ===== src/Retrieval/Laws/Scoped.antt =====
-- Under a scope, the context shows only what the scope allows.
use context_vault.Prelude.{
  ℕ, ◌≡◌, ap, String, Bool, true, ◌&&◌, Option, none, some, List, [], ◌∷◌, arith, ◌==◌, ◌=text◌,
  option_eq, All, All-append, length, ◌+◌, ltb, Bool-cases, inl, inr, eq_iff,
}
use context_vault.Retrieval.Chunks.{
  Scope, Chunk, ContextItem, Measures, make_item, in_scope, within_scope, workspace_of, project_of,
  document_allowed,
}
use context_vault.Retrieval.Context.{Sources, Limits, Draft, is_seen, add_item, add_candidates}
use context_vault.Retrieval.Bundle.{empty_draft, bundle_of, ContextBundle, make_bundle, build}
use context_vault.Retrieval.Laws.Rules.{add_candidates_keeps}

-- The item belongs to the scope's workspace and project, and to a document that the scope allows.
pub record IsVisible (scope : Scope) (item : ContextItem) : Type 0 where
  pub same_workspace : item.workspace_id ≡ some scope.workspace_id
  pub same_project : item.project_id ≡ some scope.project_id
  pub allowed : document_allowed item.document_id scope.allowed_document_ids ≡ true

is_text :
    (value : Option String) (wanted : String)
    → option_eq ◌=text◌ value (some wanted) ≡ true
    → value ≡ some wanted
is_text none wanted h = cc
is_text (some value) wanted h =
    let same : value ≡ wanted = ground (arith, eq_iff value wanted) in ap some same

three : (a b c : Bool) → (a && b && c) ≡ true → (a ≡ true) × (b ≡ true) × (c ≡ true)
three a b c h = ground arith

make_item-IsVisible :
    (given : Measures) (scope : Scope) (chunk : Chunk) (content hash : String) (rank : ℕ)
    (relation : String)
    → within_scope (some scope) chunk ≡ true
    → IsVisible scope (make_item given chunk content hash rank relation)
unfolding within_scope in_scope make_item
make_item-IsVisible given scope chunk content hash rank relation inside =
    let (workspace, project, document) = three _ _ _ inside in
    record {
      same_workspace = is_text (workspace_of chunk) scope.workspace_id workspace;
      same_project = is_text (project_of chunk) scope.project_id project;
      allowed = document;
    }

module _ (scope : Scope) (max_tokens : ℕ) where
  Shows : Draft → Type 0
  Shows d = All (IsVisible scope) d.items

  add_item-Shows :
      (item : ContextItem) (d : Draft)
      → IsVisible scope item
      → Shows d
      → Shows (add_item max_tokens item d).1
  unfolding Shows add_item
  add_item-Shows item d visible shows =
      elim (Bool-cases (is_seen item.content_hash d.seen_hashes)) [
        | inl old ↦ rw old shows
        | inr new ↦ rw new (elim (Bool-cases (d.remaining_chunks == 0)) [
          | inl full ↦ rw full shows
          | inr room ↦
              rw room (elim (Bool-cases (ltb max_tokens (d.total_tokens + item.token_count))) [
                | inl over ↦ rw over shows
                | inr fits ↦
                    rw fits (All-append (IsVisible scope) d.items (item ∷ []) shows (visible, tt))
              ])
        ])
      ]

-- Under a scope, whatever the candidates, the pool and the resolvers are, each item of the bundle is of
-- the scope's workspace and project, and of an allowed document if the scope lists them.
pub build-IsVisible :
    (given : Measures) (limits : Limits) (scope : Scope) (sources : Sources)
    (candidates : List Chunk) (b : ContextBundle)
    → build given limits (some scope) sources candidates ≡ some b
    → All (IsVisible scope) b.selected_items
unfolding build make_bundle Shows
build-IsVisible given limits scope sources candidates b h =
    let d =
      add_candidates given limits (some scope) sources 1 candidates
        (empty_draft limits.max_chunks) in
    let shows : All (IsVisible scope) d.items =
      add_candidates_keeps given limits (some scope) (Shows scope limits.max_tokens)
        (IsVisible scope) (add_item-Shows scope limits.max_tokens) (λ id rank reason hash e p. p)
        (λ e p. p) (make_item-IsVisible given scope) sources 1 candidates
        (empty_draft limits.max_chunks) tt in
    rw (← bundled (bundle_of limits d) b h) shows
  where
    bundled : (c e : ContextBundle) → make_bundle c ≡ some e → c ≡ e
    bundled c e k = elim (Bool-cases (ltb c.token_budget c.total_tokens)) [
      | inl over ↦ let absurd : none ≡ some e = rw over at k in cc
      | inr fits ↦ elim (Bool-cases (ltb c.chunk_budget (length c.selected_items))) [
        | inl many ↦ let absurd : none ≡ some e = rw (fits, many) at k in cc
        | inr few ↦ let same : some c ≡ some e = rw (fits, few) at k in cc
      ]
    ]
