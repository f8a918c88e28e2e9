-- ===== src/Retrieval/Bundle.antt =====
-- infrastructure/retrieval/context_builder.py: `ContextBuilder.build` as a whole, with the `ContextBundle`
-- of domain/retrieval.py that it returns.
use context_vault.Prelude.{
  ℕ, ℤ, pos, negsuc, ◌+◌, Bool, true, false, Option, none, some, List, [], ◌∷◌, ltb, length,
  if◌then◌else◌,
}
use context_vault.Retrieval.Chunks.{
  Scope, Chunk, ContextItem, Reason, duplicate_content, chunk_budget, token_budget, scope_mismatch,
  empty_content, neighbor_boundary_mismatch, RejectedContextItem, Measures,
}
use context_vault.Retrieval.Context.{Sources, Limits, Draft, add_candidates}

abbrev pub reason_eq : Reason → Reason → Bool
reason_eq duplicate_content duplicate_content = true
reason_eq chunk_budget chunk_budget = true
reason_eq token_budget token_budget = true
reason_eq scope_mismatch scope_mismatch = true
reason_eq empty_content empty_content = true
reason_eq neighbor_boundary_mismatch neighbor_boundary_mismatch = true
reason_eq _ _ = false

-- `reason_counts[reason] = reason_counts.get(reason, 0) + 1`
unfoldable pub count_reason : Reason → List (Reason × ℕ) → List (Reason × ℕ)
count_reason reason [] = (reason, 1) ∷ []
count_reason reason ((r, n) ∷ rest) =
    let later = count_reason reason rest in
    if reason_eq r reason then (r, n + 1) ∷ rest else (r, n) ∷ later

unfoldable pub reason_counts : List RejectedContextItem → List (Reason × ℕ) → List (Reason × ℕ)
unfolding count_reason
reason_counts [] counts = counts
reason_counts (item ∷ rest) counts = reason_counts rest (count_reason item.reason counts)

pub record ContextBundle : Type 0 where
  pub selected_items : List ContextItem
  pub rejected_items : List RejectedContextItem
  pub token_budget : ℕ
  pub chunk_budget : ℕ
  pub total_tokens : ℕ
  pub truncated : Bool
  pub truncation_summary : List (Reason × ℕ)

-- `ContextBundle.__post_init__`, which raises over a budget.
unfoldable pub make_bundle : ContextBundle → Option ContextBundle
make_bundle b =
    if ltb b.token_budget b.total_tokens
    then none
    else if ltb b.chunk_budget (length b.selected_items)
    then none
    else some b

abbrev pub empty_draft : (max_chunks : ℕ) → Draft
empty_draft max_chunks = record {
  items = [];
  rejected = [];
  total_tokens = 0;
  truncated = false;
  seen_hashes = [];
  remaining_chunks = max_chunks;
}

abbrev pub bundle_of : Limits → Draft → ContextBundle
bundle_of limits d = record {
  selected_items = d.items;
  rejected_items = d.rejected;
  token_budget = limits.max_tokens;
  chunk_budget = limits.max_chunks;
  total_tokens = d.total_tokens;
  truncated = d.truncated;
  truncation_summary = reason_counts d.rejected [];
}

unfoldable pub build :
    Measures → Limits → Option Scope → Sources → (candidates : List Chunk) → Option ContextBundle
unfolding add_candidates make_bundle reason_counts
build given limits scope sources candidates = make_bundle (
    bundle_of limits
      (add_candidates given limits scope sources 1 candidates (empty_draft limits.max_chunks)))

-- The settings as the constructor takes them, integers without a lower bound.
pub record Settings : Type 0 where
  pub chunks : ℤ
  pub tokens : ℤ
  pub window : ℤ
  pub parents : Bool
  pub adjacent : Bool

-- `range(1, window + 1)` is empty for a negative window.
abbrev natural : ℤ → ℕ
natural (pos n) = n
natural (negsuc n) = 0

abbrev limits_of : (chunks tokens : ℕ) → Settings → Limits
limits_of chunks tokens settings = record {
  max_chunks = chunks;
  max_tokens = tokens;
  adjacent_window = natural settings.window;
  include_parents = settings.parents;
  include_adjacent = settings.adjacent;
}

-- The result by the signs of the budgets.
abbrev build_within :
    (chunks tokens : ℤ)
    → Measures
    → Settings
    → Option Scope
    → Sources
    → List Chunk
    → Option ContextBundle
build_within (pos chunks) (pos tokens) given settings scope sources candidates =
    build given (limits_of chunks tokens settings) scope sources candidates
build_within _ _ given settings scope sources candidates = none

-- `build` of a builder with any settings: no bundle is within a negative budget, and `ContextBundle`
-- raises.
unfoldable pub build_any :
    Measures → Settings → Option Scope → Sources → (candidates : List Chunk) → Option ContextBundle
unfolding build
build_any given settings scope sources candidates =
    build_within settings.chunks settings.tokens given settings scope sources candidates
