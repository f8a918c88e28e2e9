-- ===== src/Retrieval/Chunks.antt =====
-- infrastructure/retrieval/context_builder.py: chunks, their identity and scope, and the items that
-- they become. A chunk's attributes are texts; a missing one is `none` where the program tests for it
-- and else the empty text. A UUID of the scope is given as its text.
use Prim.Native.Char.{code}
use context_vault.Prelude.{
  ℕ, ℤ, String, Bool, true, false, ◌&&◌, ◌||◌, Option, none, some, List, [], ◌∷◌, any, ◌==◌,
  ◌=text◌, option_eq, if◌then◌else◌,
}
use context_vault.Json.{Json}

-- The fields of `RetrievalScope` that the builder reads.
pub record Scope : Type 0 where
  pub workspace_id : String
  pub project_id : String
  pub allowed_document_ids : Option (List String)

pub record Chunk : Type 0 where
  pub chunk_id : String
  pub source_id : String
  pub chunk_type : String
  pub content : String
  pub embedding_text : String
  pub content_hash : String
  pub heading_path : List String
  pub locator : Json
  pub sequence_no : ℤ
  pub parent_chunk_id : String
  pub workspace_id : Option String
  pub project_id : Option String
  pub document_id : Option String
  pub version_id : Option String
  pub source_file_id : Option String
  pub classification : Option String
  pub metadata : List (String × String)

pub record ContextItem : Type 0 where
  pub chunk_id : String
  pub workspace_id : Option String
  pub project_id : Option String
  pub document_id : Option String
  pub version_id : Option String
  pub source_file_id : Option String
  pub source_id : String
  pub chunk_type : String
  pub content : String
  pub heading_path : List String
  pub locator : Json
  pub policy_classification : String
  pub metadata : List (String × String)
  pub content_hash : String
  pub evidence_hash : String
  pub token_count : ℕ
  pub rank : ℕ
  pub sequence_no : ℤ
  pub relation : String

pub data Reason : Type 0 where
  duplicate_content chunk_budget token_budget scope_mismatch empty_content
        neighbor_boundary_mismatch :
      Reason

pub record RejectedContextItem : Type 0 where
  pub chunk_id : String
  pub rank : ℕ
  pub reason : Reason
  pub content_hash : String

pub record ScopedNeighborKey : Type 0 where
  pub workspace_id : String
  pub project_id : String
  pub document_id : String
  pub version_id : String
  pub source_file_id : Option String
  pub sequence_no : ℤ

-- `dict.get(name)`
abbrev pub metadata_get : String → List (String × String) → Option String
metadata_get name [] = none
metadata_get name ((key, value) ∷ rest) =
    if key =text name then some value else metadata_get name rest

abbrev or_else : Option String → Option String → Option String
or_else none other = other
or_else (some value) other = some value

abbrev pub non_empty : Option String → Option String
non_empty none = none
non_empty (some value) = if value =text "" then none else some value

-- `value or default`
abbrev or_text : Option String → String → String
or_text none default = default
or_text (some value) default = if value =text "" then default else value

-- `_identity`: the attribute, or the metadata of its name.
abbrev pub identity : Chunk → Option String → (name : String) → Option String
identity chunk attribute name = non_empty (or_else attribute (metadata_get name chunk.metadata))

abbrev pub workspace_of : Chunk → Option String
workspace_of chunk = identity chunk chunk.workspace_id "workspace_id"

abbrev pub project_of : Chunk → Option String
project_of chunk = identity chunk chunk.project_id "project_id"

abbrev pub document_of : Chunk → Option String
document_of chunk = identity chunk chunk.document_id "document_id"

abbrev pub version_of : Chunk → Option String
version_of chunk = identity chunk chunk.version_id "version_id"

abbrev pub source_file_of : Chunk → Option String
source_file_of chunk = identity chunk chunk.source_file_id "source_file_id"

-- `allowed_document_ids is None or document_id in allowed_document_ids`
abbrev pub document_allowed : Option String → Option (List String) → Bool
document_allowed document none = true
document_allowed none (some allowed) = false
document_allowed (some document) (some allowed) = any (λ id. id =text document) allowed

-- `_in_scope`
unfoldable pub in_scope : Chunk → Scope → Bool
in_scope chunk scope =
    option_eq ◌=text◌ (workspace_of chunk) (some scope.workspace_id)
    && option_eq ◌=text◌ (project_of chunk) (some scope.project_id)
    && document_allowed (document_of chunk) scope.allowed_document_ids

-- `scope is None or _in_scope(chunk, scope)`
unfoldable pub within_scope : Option Scope → Chunk → Bool
unfolding in_scope
within_scope none chunk = true
within_scope (some scope) chunk = in_scope chunk scope

abbrev scope_workspace : Option Scope → String
scope_workspace none = ""
scope_workspace (some scope) = scope.workspace_id

abbrev scope_project : Option Scope → String
scope_project none = ""
scope_project (some scope) = scope.project_id

-- `_neighbor_key`
unfoldable pub neighbor_key : Chunk → Option Scope → ℤ → ScopedNeighborKey
neighbor_key chunk scope sequence_no = record {
  workspace_id = or_text (workspace_of chunk) (scope_workspace scope);
  project_id = or_text (project_of chunk) (scope_project scope);
  document_id = or_text (document_of chunk) "";
  version_id = or_text (version_of chunk) "";
  source_file_id = source_file_of chunk;
  sequence_no = sequence_no;
}

-- `_matches_neighbor_key`
unfoldable pub matches_neighbor_key : Chunk → ScopedNeighborKey → Bool
matches_neighbor_key chunk key =
    option_eq ◌=text◌ (workspace_of chunk) (some key.workspace_id)
    && option_eq ◌=text◌ (project_of chunk) (some key.project_id)
    && option_eq ◌=text◌ (document_of chunk) (some key.document_id)
    && option_eq ◌=text◌ (version_of chunk) (some key.version_id)
    && option_eq ◌=text◌ (source_file_of chunk) key.source_file_id

-- `_text_of`
abbrev pub text_of : Chunk → String
text_of chunk = if chunk.content =text "" then chunk.embedding_text else chunk.content

abbrev starts_with : String → String → Bool
starts_with String.[] s = true
starts_with (String.◌∷◌ c p) String.[] = false
starts_with (String.◌∷◌ c p) (String.◌∷◌ d s) = code c == code d && starts_with p s

-- `part in whole`
unfoldable pub includes : (part whole : String) → Bool
includes part String.[] = part =text ""
includes part (String.◌∷◌ c s) = starts_with part (String.◌∷◌ c s) || includes part s

-- SHA-256 of a text and of a hash joined to an id, and the token counter, are given.
pub record Measures : Type 0 where
  pub hash_text : String → String
  pub hash_evidence : (content_hash chunk_id : String) → String
  pub count : String → ℕ

module _ (given : Measures) where
  -- `_hash_of`
  abbrev pub hash_of : Chunk → String
  hash_of chunk =
      if chunk.content_hash =text "" then given.hash_text (text_of chunk) else chunk.content_hash

  -- `_make_item`, with `_context_identity`
  unfoldable pub make_item :
      Chunk → (content content_hash : String) → (rank : ℕ) → (relation : String) → ContextItem
  make_item chunk content content_hash rank relation =
      let hash = if content_hash =text "" then given.hash_text content else content_hash in
      record {
        chunk_id = chunk.chunk_id;
        workspace_id = workspace_of chunk;
        project_id = project_of chunk;
        document_id = document_of chunk;
        version_id = version_of chunk;
        source_file_id = source_file_of chunk;
        source_id = chunk.source_id;
        chunk_type = if chunk.chunk_type =text "" then "document" else chunk.chunk_type;
        content = content;
        heading_path = chunk.heading_path;
        locator = chunk.locator;
        policy_classification =
            or_text (identity chunk chunk.classification "classification")
              (or_text (metadata_get "data_classification" chunk.metadata) "internal");
        metadata = chunk.metadata;
        content_hash = hash;
        evidence_hash = given.hash_evidence hash chunk.chunk_id;
        token_count = given.count content;
        rank = rank;
        sequence_no = chunk.sequence_no;
        relation = relation;
      }

  -- `_item_from`
  abbrev pub item_from : Chunk → (rank : ℕ) → (relation : String) → ContextItem
  item_from chunk rank relation = make_item chunk (text_of chunk) (hash_of chunk) rank relation

  abbrev pub extra_of :
      Chunk → Option String → (rank : ℕ) → (relation : String) → Option ContextItem
  extra_of chunk none rank relation = none
  extra_of chunk (some content) rank relation =
      some (make_item chunk content (given.hash_text content) rank relation)

  -- An item of a text that the metadata holds, for chunks of one type.
  abbrev pub extra_item :
      Chunk → (wanted_type key : String) → (rank : ℕ) → (relation : String) → Option ContextItem
  extra_item chunk wanted_type key rank relation =
      if chunk.chunk_type =text wanted_type
      then extra_of chunk (non_empty (metadata_get key chunk.metadata)) rank relation
      else none
