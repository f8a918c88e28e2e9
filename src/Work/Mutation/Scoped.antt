-- ===== src/Work/Mutation/Scoped.antt =====
-- application/work_graph.py: `ScopedMutationDispatcher` on a tree whose root is its own. A violation of
-- the scope and an error of the operating system are named by their exceptions.
use context_vault.Prelude.{
  ℕ, String, Bool, true, false, not, ◌&&◌, Option, none, some, List, [], ◌∷◌, ◌++◌, any, is_empty,
  is_some, ◌=text◌, if◌then◌else◌,
}
use context_vault.Json.{Json, Fields}
use context_vault.Json
use context_vault.Domain.WorkGraph.{Verdict, admit, reject, scope_violation}
use context_vault.Work.Session.{Env}
use context_vault.Work.Authority.{
  EffectCapability, write_receipt_marker, EffectRequest, ScopedEffectContext,
}
use context_vault.Work.Effects.{EffectResult, Outcome, done, raised, absent_hash}
use context_vault.Work.Mutation.Tree.{
  Node, file, link, dir, Entries, find_entry, put_entry, drop_entry, edit_at, node_at, entries_at,
}
use context_vault.Work.Mutation.Paths.{path_parts, is_absolute, as_posix, split_last}

-- `request.capability in context.capabilities`
abbrev pub has_capability : List EffectCapability → Bool
has_capability [] = false
has_capability (write_receipt_marker ∷ rest) = true

-- `stat.S_ISDIR`, of an entry that is there and no link
abbrev pub is_directory : Option Node → Bool
is_directory (some (dir entries)) = true
is_directory _ = false

abbrev pub holds : Option Node → (Node → Bool) → Bool
holds none test = false
holds (some node) test = test node

-- The loop of `_admit`: each parent is a directory, and no link.
unfoldable pub admits_parents : List String → Node → Bool
admits_parents [] node = true
admits_parents (part ∷ parts) (dir entries) =
    let below = find_entry part entries in is_directory below && holds below (admits_parents parts)
admits_parents (part ∷ parts) node = false

-- The path tests of `_admit`.
unfoldable pub admits_path : ScopedEffectContext → EffectRequest → Bool
admits_path context request =
    let parts = path_parts request.relative_path in
    has_capability context.capabilities
    && not (is_absolute request.relative_path)
    && not (is_empty parts)
    && not (any (λ part. part =text "..") parts)
    && any (λ allowed. allowed =text as_posix parts) context.allowed_paths

abbrev pub admitted_in : Node → Option (List String × String) → Option (List String × String)
admitted_in root none = none
admitted_in root (some (parents, name)) =
    if admits_parents parents root then some (parents, name) else none

-- `_admit`: the parents and the name of the target.
unfoldable pub admit_target :
    Node → ScopedEffectContext → EffectRequest → Option (List String × String)
unfolding admits_parents admits_path split_last
admit_target root context request =
    if admits_path context request
    then admitted_in root (split_last (path_parts request.relative_path))
    else none

abbrev attestation_of : EffectRequest → Fields
attestation_of request =
    Json.field "capability" (Json.text "write_receipt_marker")
      (Json.field "relative_path" (Json.text request.relative_path) Json.end)

abbrev pub free_at : Node → Option (List String × String) → Verdict
free_at root none = reject scope_violation
free_at root (some (parents, name)) =
    if is_some (node_at (parents ++ (name ∷ [])) root) then reject scope_violation else admit

-- `validate`
unfoldable pub validate_file : Node → ScopedEffectContext → EffectRequest → Verdict
unfolding admit_target node_at
validate_file root context request = free_at root (admit_target root context request)

-- How the writing of a file ends, outside the repository: all of it is written; or the operating
-- system raises, before the file is there, or with a part of the content in it.
pub data Writing : Type 0 where
  written : Writing
  unopened : Writing
  broken : (part : List ℕ) → Writing

module _ (env : Env) where
  abbrev pub created : EffectRequest → EffectResult
  created request = record {
    before_artifact_hash = absent_hash env;
    output_artifact_hash = env.sha256 request.content;
    after_revision = env.sha256 request.content;
    test_evidence_refs = [];
    rollback_result = none;
    attestation = attestation_of request;
  }

  -- `os.open`, the loop of `os.write`, and the two `os.fsync`.
  abbrev pub write_file :
      Writing → Node → EffectRequest → (parents : List String) (name : String) → Outcome × Node
  write_file written root request parents name =
      (done (created request), edit_at parents (put_entry name (file request.content)) root)
  write_file unopened root request parents name = (raised "OSError", root)
  write_file (broken part) root request parents name =
      (raised "OSError", edit_at parents (put_entry name (file part)) root)

  -- The file is created in the opened parent, where nothing has its name.
  abbrev pub create_in :
      Writing
      → Node
      → EffectRequest
      → (parents : List String) (name : String) → Option Entries
      → Outcome × Node
  create_in writing root request parents name none = (raised "ScopeViolation", root)
  create_in writing root request parents name (some entries) =
      if is_some (find_entry name entries)
      then (raised "ScopeViolation", root)
      else write_file writing root request parents name

  abbrev pub dispatch_at :
      Writing → Node → EffectRequest → Option (List String × String) → Outcome × Node
  dispatch_at writing root request none = (raised "ScopeViolation", root)
  dispatch_at writing root request (some (parents, name)) =
      if is_some (node_at (parents ++ (name ∷ [])) root)
      then (raised "ScopeViolation", root)
      else create_in writing root request parents name (entries_at parents root)

  -- `dispatch`
  unfoldable pub dispatch_file :
      Writing → Node → ScopedEffectContext → EffectRequest → Outcome × Node
  unfolding admit_target node_at entries_at edit_at put_entry absent_hash
  dispatch_file writing root context request =
      dispatch_at writing root request (admit_target root context request)

  abbrev pub removed : EffectRequest → (expected : String) → EffectResult
  removed request expected = record {
    before_artifact_hash = expected;
    output_artifact_hash = absent_hash env;
    after_revision = absent_hash env;
    test_evidence_refs = [];
    rollback_result = some (
        Json.obj (
          Json.field "status" (Json.text "completed")
            (Json.field "action" (Json.text "unlink") Json.end)));
    attestation = attestation_of request;
  }

  -- What the target is decides: `open` follows no link, and only a regular file with the hash goes.
  abbrev pub remove_node :
      Node
      → EffectRequest
      → (expected : String) (parents : List String) (name : String) → Option Node
      → Outcome × Node
  remove_node root request expected parents name none = (raised "ScopeViolation", root)
  remove_node root request expected parents name (some link) = (raised "OSError", root)
  remove_node root request expected parents name (some (dir entries)) =
      (raised "ScopeViolation", root)
  remove_node root request expected parents name (some (file content)) =
      if not (env.sha256 content =text expected)
      then (raised "ScopeViolation", root)
      else (done (removed request expected), edit_at parents (drop_entry name) root)

  abbrev pub remove_in :
      Node
      → EffectRequest
      → (expected : String) (parents : List String) (name : String) → Option Entries
      → Outcome × Node
  remove_in root request expected parents name none = (raised "ScopeViolation", root)
  remove_in root request expected parents name (some entries) =
      remove_node root request expected parents name (find_entry name entries)

  abbrev pub rollback_at :
      Node → EffectRequest → (expected : String) → Option (List String × String) → Outcome × Node
  rollback_at root request expected none = (raised "ScopeViolation", root)
  rollback_at root request expected (some (parents, name)) =
      remove_in root request expected parents name (entries_at parents root)

  -- `rollback`
  unfoldable pub rollback_file :
      Node → ScopedEffectContext → EffectRequest → (expected : String) → Outcome × Node
  unfolding admit_target entries_at edit_at drop_entry absent_hash
  rollback_file root context request expected =
      rollback_at root request expected (admit_target root context request)
