-- ===== src/Work/Mutation/Tree.antt =====
-- The part of a file system that `ScopedMutationDispatcher` sees: directories, regular files and
-- symbolic links, which its calls never follow.
use context_vault.Prelude.{ℕ, String, Option, none, some, List, [], ◌∷◌, ◌=text◌, if◌then◌else◌}

mutual
  pub data Node : Type 0 where
    file : List ℕ → Node
    link : Node
    dir : Entries → Node

  pub data Entries : Type 0 where
    nil : Entries
    entry : String → Node → Entries → Entries

abbrev pub find_entry : String → Entries → Option Node
find_entry name nil = none
find_entry name (entry n node rest) = if n =text name then some node else find_entry name rest

-- A new entry.
unfoldable pub put_entry : String → Node → Entries → Entries
put_entry name node nil = entry name node nil
put_entry name node (entry n x rest) = entry n x (put_entry name node rest)

-- `os.unlink`
unfoldable pub drop_entry : String → Entries → Entries
drop_entry name nil = nil
drop_entry name (entry n x rest) =
    let later = drop_entry name rest in if n =text name then rest else entry n x later

-- A change below one entry.
unfoldable pub map_entry : String → (Node → Node) → Entries → Entries
map_entry name change nil = nil
map_entry name change (entry n x rest) =
    let later = map_entry name change rest in
    if n =text name then entry n (change x) rest else entry n x later

-- A change to the entries of the directory at a path.
unfoldable pub edit_at : List String → (Entries → Entries) → Node → Node
unfolding map_entry
edit_at [] change (dir entries) = dir (change entries)
edit_at (part ∷ parts) change (dir entries) = dir (map_entry part (edit_at parts change) entries)
edit_at parts change node = node

abbrev pub and_then : {A : Type 0} → Option Node → (Node → Option A) → Option A
and_then none next = none
and_then (some node) next = next node

-- The node at a path.
unfoldable pub node_at : List String → Node → Option Node
node_at [] node = some node
node_at (part ∷ parts) (dir entries) = and_then (find_entry part entries) (node_at parts)
node_at (part ∷ parts) node = none

-- The entries of the directory at a path.
unfoldable pub entries_at : List String → Node → Option Entries
entries_at [] (dir entries) = some entries
entries_at (part ∷ parts) (dir entries) = and_then (find_entry part entries) (entries_at parts)
entries_at parts node = none
