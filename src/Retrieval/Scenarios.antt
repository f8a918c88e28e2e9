-- ===== src/Retrieval/Scenarios.antt =====
-- A context of three candidates: a table of the scope, a copy of its text, and a chunk of another
-- project.
use context_vault.Prelude.{
  strip, ◌≡◌, refl, pos, String, true, none, some, List, [], ◌∷◌, All, length, leb, count,
}
use context_vault.Json.{null}
use context_vault.Retrieval.Chunks.{
  Scope, Chunk, Measures, within_scope, in_scope, make_item, includes,
}
use context_vault.Retrieval.Context.{Sources, Limits, add_candidates, add_item, add_base, expand}
use context_vault.Retrieval.Bundle.{ContextBundle, bundle_of, empty_draft, build}
use context_vault.Retrieval.Laws.Budgets.{tokens_of, has_hash, build_lem}
use context_vault.Retrieval.Laws.Scoped.{IsVisible, build-IsVisible}

abbrev given : Measures
given = record { hash_text = λ text. text; hash_evidence = λ hash id. id; count = λ text. 5 }

abbrev limits : Limits
limits = record {
  max_chunks = 8;
  max_tokens = 12;
  adjacent_window = 1;
  include_parents = true;
  include_adjacent = true;
}

abbrev scope : Scope
scope = record { workspace_id = "w"; project_id = "p"; allowed_document_ids = none }

abbrev sources : Sources
sources = record { chunk_pool = []; parent_resolver = none; neighbor_resolver = none }

abbrev chunk_of : (id project content : String) → Chunk
chunk_of id project content = record {
  chunk_id = id;
  source_id = "s";
  chunk_type = "table";
  content = content;
  embedding_text = "";
  content_hash = "";
  heading_path = [];
  locator = null;
  sequence_no = pos 0;
  parent_chunk_id = "";
  workspace_id = some "w";
  project_id = some project;
  document_id = some "d";
  version_id = some "v";
  source_file_id = none;
  classification = none;
  metadata = ("header", "a|b") ∷ [];
}

abbrev candidates : List Chunk
candidates = chunk_of "1" "p" "1|2" ∷ chunk_of "2" "q" "3|4" ∷ chunk_of "3" "p" "1|2" ∷ []

abbrev bundle : ContextBundle
bundle =
    bundle_of limits (add_candidates given limits (some scope) sources 1 candidates (empty_draft 8))

-- The header and the text of the table are shown, each once.
header_and_text : length bundle.selected_items ≡ 2
unfolding add_candidates add_base expand add_item within_scope in_scope make_item includes strip
header_and_text = refl

bundle_built : build given limits (some scope) sources candidates ≡ some bundle
unfolding build add_candidates add_base expand add_item within_scope in_scope make_item includes
    strip
bundle_built = refl

build_lem_example :
    (b : ContextBundle) × (build given limits (some scope) sources candidates ≡ some b)
    × (leb (length b.selected_items) 8 ≡ true)
    × (tokens_of b.selected_items ≡ b.total_tokens)
    × (leb b.total_tokens 12 ≡ true)
    × ((hash : String) → leb (count (has_hash hash) b.selected_items) 1 ≡ true)
build_lem_example = build_lem given limits (some scope) sources candidates

build-IsVisible_example : All (IsVisible scope) bundle.selected_items
build-IsVisible_example = build-IsVisible given limits scope sources candidates bundle bundle_built
