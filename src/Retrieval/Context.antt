-- ===== src/Retrieval/Context.antt =====
-- infrastructure/retrieval/context_builder.py: the loop of `ContextBuilder.build`. The budgets are natural numbers,
-- as the settings have them. What the caller's `query_id`, `retrieval_run_id` and profiles are is passed
-- through and left out of the bundle.
use context_vault.Prelude.{
  ℕ, zero, suc, ◌+◌, ◌-◌, ℤ, pos, negsuc, String, Bool, true, false, not, ◌&&◌, ◌||◌, Option, none,
  some, List, [], ◌∷◌, ◌++◌, any, ltb, leb, ◌==◌, ◌=text◌, strip, if◌then◌else◌,
}
use context_vault.Retrieval.Chunks.{
  Scope, Chunk, ContextItem, Reason, duplicate_content, chunk_budget, token_budget, scope_mismatch,
  empty_content, neighbor_boundary_mismatch, RejectedContextItem, ScopedNeighborKey, within_scope,
  neighbor_key, matches_neighbor_key, text_of, includes, Measures, hash_of, make_item, item_from,
  extra_item,
}

-- What the caller gives beside the candidates.
pub record Sources : Type 0 where
  pub chunk_pool : List (String × Chunk)
  pub parent_resolver : Option (Option Scope → String → Option Chunk)
  pub neighbor_resolver : Option (Option Scope → ScopedNeighborKey → Option Chunk)

-- The settings of a `ContextBuilder` whose budgets are not negative; `build_any` takes any integers.
pub record Limits : Type 0 where
  pub max_chunks : ℕ
  pub max_tokens : ℕ
  pub adjacent_window : ℕ
  pub include_parents : Bool
  pub include_adjacent : Bool

-- The variables of `build`.
pub record Draft : Type 0 where
  pub items : List ContextItem
  pub rejected : List RejectedContextItem
  pub total_tokens : ℕ
  pub truncated : Bool
  pub seen_hashes : List String
  pub remaining_chunks : ℕ

unfoldable pub is_seen : String → List String → Bool
is_seen hash seen = any (λ h. h =text hash) seen

abbrev pub reject :
    (chunk_id : String) (rank : ℕ) → Reason → (content_hash : String) → Draft → Draft
reject chunk_id rank reason content_hash d = record d {
  rejected =
      d.rejected
      ++ (record { chunk_id = chunk_id; rank = rank; reason = reason; content_hash = content_hash }
          ∷ []);
}

-- `add`
unfoldable pub add_item : (max_tokens : ℕ) → ContextItem → Draft → Bool × Draft
unfolding is_seen
add_item max_tokens item d =
    if is_seen item.content_hash d.seen_hashes
    then (false, reject item.chunk_id item.rank duplicate_content item.content_hash d)
    else if d.remaining_chunks == 0
    then (
      false,
      reject item.chunk_id item.rank chunk_budget item.content_hash (record d { truncated = true }),
    )
    else if ltb max_tokens (d.total_tokens + item.token_count)
    then (
      false,
      reject item.chunk_id item.rank token_budget item.content_hash (record d { truncated = true }),
    )
    else (
      true,
      record d {
        items = d.items ++ (item ∷ []);
        total_tokens = d.total_tokens + item.token_count;
        seen_hashes = item.content_hash ∷ d.seen_hashes;
        remaining_chunks = d.remaining_chunks - 1;
      },
    )

-- A table's header or a code chunk's signature is added unless the text has it.
abbrev pub add_extra :
    (max_tokens : ℕ) → (whole : String) → Option ContextItem → Draft → Bool × Draft
add_extra max_tokens whole none d = (false, d)
add_extra max_tokens whole (some item) d =
    if includes (strip item.content) whole then (false, d) else add_item max_tokens item d

abbrev pub pool_get : String → List (String × Chunk) → Option Chunk
pool_get id [] = none
pool_get id ((key, chunk) ∷ rest) = if key =text id then some chunk else pool_get id rest

abbrev resolve_parent :
    Option (Option Scope → String → Option Chunk)
    → Option Scope
    → (parent_id : String) → Option Chunk
resolve_parent none scope parent_id = none
resolve_parent (some resolver) scope parent_id =
    if parent_id =text "" then none else resolver scope parent_id

abbrev parent_or : Option Chunk → Option Chunk → Option Chunk
parent_or (some parent) other = some parent
parent_or none other = other

-- The parent in the pool, or else the one that is resolved.
unfoldable pub parent_of : Sources → Option Scope → Chunk → Option Chunk
parent_of sources scope chunk =
    parent_or (pool_get chunk.parent_chunk_id sources.chunk_pool)
      (resolve_parent sources.parent_resolver scope chunk.parent_chunk_id)

-- `seq - offset` and `seq + offset`
abbrev pub before : ℤ → ℕ → ℤ
before (pos n) offset = if leb offset n then pos (n - offset) else negsuc (offset - n - 1)
before (negsuc n) offset = negsuc (n + offset)

abbrev pub after : ℤ → ℕ → ℤ
after (pos n) offset = pos (n + offset)
after (negsuc n) offset = if ltb n offset then pos (offset - n - 1) else negsuc (n - offset)

-- `scope is not None and not _matches_neighbor_key(...)`
abbrev pub is_foreign : Option Scope → Chunk → ScopedNeighborKey → Bool
is_foreign none neighbor key = false
is_foreign (some s) neighbor key = not (matches_neighbor_key neighbor key)

module _ (given : Measures) (limits : Limits) (scope : Option Scope) where
  abbrev pub add_parent : Option Chunk → (rank : ℕ) → Draft → Draft
  add_parent none rank d = d
  add_parent (some parent) rank d =
      if limits.include_parents && within_scope scope parent
      then (add_item limits.max_tokens (item_from given parent rank "parent") d).1
      else d

  abbrev pub add_neighbor : Option Chunk → ScopedNeighborKey → (rank : ℕ) → Draft → Draft
  add_neighbor none key rank d = d
  add_neighbor (some neighbor) key rank d =
      if is_foreign scope neighbor key
      then reject neighbor.chunk_id rank neighbor_boundary_mismatch (hash_of given neighbor) d
      else if not (within_scope scope neighbor)
      then reject neighbor.chunk_id rank scope_mismatch (hash_of given neighbor) d
      else (add_item limits.max_tokens (item_from given neighbor rank "adjacent") d).1

  -- The neighbours before and after the chunk at an offset.
  unfoldable pub add_both :
      (Option Scope → ScopedNeighborKey → Option Chunk) → Chunk → (rank offset : ℕ) → Draft → Draft
  unfolding neighbor_key add_item
  add_both resolver chunk rank offset d =
      let key = neighbor_key chunk scope chunk.sequence_no in
      let first = resolver scope (record key { sequence_no = before chunk.sequence_no offset }) in
      let second = resolver scope (record key { sequence_no = after chunk.sequence_no offset }) in
      add_neighbor second key rank (add_neighbor first key rank d)

  -- The loop over the offsets, of which `left` are left after `done`.
  unfoldable pub add_adjacent :
      (Option Scope → ScopedNeighborKey → Option Chunk)
      → Chunk
      → (rank : ℕ) → (done left : ℕ) → Draft
      → Draft
  unfolding add_both
  add_adjacent resolver chunk rank done zero d = d
  add_adjacent resolver chunk rank done (suc left) d =
      add_adjacent resolver chunk rank (suc done) left (add_both resolver chunk rank (suc done) d)

  abbrev pub add_neighbors :
      Option (Option Scope → ScopedNeighborKey → Option Chunk) → Chunk → (rank : ℕ) → Draft → Draft
  add_neighbors none chunk rank d = d
  add_neighbors (some resolver) chunk rank d =
      if limits.include_adjacent
      then add_adjacent resolver chunk rank 0 limits.adjacent_window d
      else d

  -- The items of a candidate itself, and whether any is added.
  unfoldable pub add_base : Chunk → (rank : ℕ) → Draft → Bool × Draft
  unfolding make_item add_item
  add_base chunk rank d =
      let (header, d1) =
        add_extra limits.max_tokens (text_of chunk)
          (extra_item given chunk "table" "header" rank "table_header") d in
      let (signature, d2) =
        add_extra limits.max_tokens (text_of chunk)
          (extra_item given chunk "code" "signature" rank "code_signature") d1 in
      let (selected, d3) = add_item limits.max_tokens (item_from given chunk rank "selected") d2 in
      (selected || signature || header, d3)

  -- The parent and the neighbours of a candidate.
  unfoldable pub expand : Sources → Chunk → (rank : ℕ) → Draft → Draft
  unfolding add_adjacent parent_of
  expand sources chunk rank d =
      add_neighbors sources.neighbor_resolver chunk rank
        (add_parent (parent_of sources scope chunk) rank d)

  -- One candidate: whether the loop goes on, which a full context ends.
  unfoldable pub add_candidate : Sources → (rank : ℕ) → Chunk → Draft → Bool × Draft
  unfolding add_base expand within_scope
  add_candidate sources rank chunk d =
      let (added_any, d1) = add_base chunk rank d in
      let d2 = expand sources chunk rank d1 in
      if not (within_scope scope chunk)
      then (true, reject chunk.chunk_id rank scope_mismatch (hash_of given chunk) d)
      else if text_of chunk =text ""
      then (
        true,
        reject chunk.chunk_id rank empty_content
            (item_from given chunk rank "selected").content_hash d,
      )
      else if not added_any
      then (true, d1)
      else if d1.remaining_chunks == 0
      then (false, record d1 { truncated = true })
      else if d2.remaining_chunks == 0
      then (false, record d2 { truncated = true })
      else (true, d2)

  -- The loop over the candidates.
  unfoldable pub add_candidates : Sources → (rank : ℕ) → List Chunk → Draft → Draft
  unfolding add_candidate
  add_candidates sources rank [] d = d
  add_candidates sources rank (chunk ∷ rest) d =
      let (goes_on, next) = add_candidate sources rank chunk d in
      let all = add_candidates sources (suc rank) rest next in if goes_on then all else next
