-- ===== src/Work/Mutation/Scenarios.antt =====
-- A marker `out/m` created in a root that has the directory `out`, and rolled back.
use context_vault.Prelude.{
  ap, ◌=text◌, false, ◌≡◌, ◌≢◌, ◌⊎◌, refl, String, true, none, some, List, [], ◌∷◌,
}
use context_vault.Work.Authority.{write_receipt_marker, EffectRequest, ScopedEffectContext}
use context_vault.Work.Effects.{done, raised, is_sha256}
use context_vault.Work.Apply.Finish.{is_bound}
use context_vault.Work.Scenarios.Data.{ticking, zeros, apply_args}
use context_vault.Work.Mutation.Tree.{Node, file, link, dir, nil, entry, node_at}
use context_vault.Work.Mutation.Paths.{path_parts}
use context_vault.Work.Mutation.Scoped.{
  broken, written, created, removed, dispatch_file, rollback_file, validate_file,
}
use context_vault.Domain.WorkGraph.{admit}
use context_vault.Work.Mutation.Laws.Serving.{validate_file-dispatch_file, dispatch_file-bound}
use context_vault.Work.Mutation.Laws.Allowing.{IsAllowed}
use context_vault.Work.Mutation.Laws.Editing.{leaf}
use context_vault.Work.Mutation.Laws.Effects.{dispatch_file_lem, leaf-dispatch_file}
use context_vault.Work.Mutation.Laws.Undoing.{rollback_file-dispatch_file}
use context_vault.Work.Mutation.Laws.Breaking.{IsPartial, dispatch_file_raised}

abbrev root : Node
root = dir (entry "out" (dir (entry "old" (file (1 ∷ [])) nil)) (entry "way" link nil))

abbrev context : ScopedEffectContext
context = record {
  allowed_paths = "out/m" ∷ "way/m" ∷ [];
  capabilities = write_receipt_marker ∷ [];
}

abbrev request_of : String → EffectRequest
request_of path = record {
  capability = write_receipt_marker;
  relative_path = path;
  content = 7 ∷ [];
}

dispatched :
    (dispatch_file ticking written root context (request_of "out/./m")).0
    ≡ done (created ticking (request_of "out/./m"))
unfolding dispatch_file
dispatched = refl

dispatch_file_lem_example :
    IsAllowed context (request_of "out/./m")
    × ((created ticking (request_of "out/./m")).output_artifact_hash ≡ ticking.sha256 (7 ∷ []))
    × (node_at (path_parts "out/./m") root ≡ none)
    × (node_at
          (path_parts "out/./m")
          (dispatch_file ticking written root context (request_of "out/./m")).1
        ≡ some (file (7 ∷ [])))
dispatch_file_lem_example =
    dispatch_file_lem ticking written root context (request_of "out/./m")
      (created ticking (request_of "out/./m")) dispatched

rollback_file-dispatch_file_example :
    rollback_file ticking
      (dispatch_file ticking written root context (request_of "out/./m")).1
      context
      (request_of "out/./m")
      (ticking.sha256 (7 ∷ []))
    ≡ (done (removed ticking (request_of "out/./m") (ticking.sha256 (7 ∷ []))), root)
rollback_file-dispatch_file_example =
    rollback_file-dispatch_file ticking written root context (request_of "out/./m")
      (created ticking (request_of "out/./m")) dispatched

-- The disk is full after no byte is written.
breaks :
    (dispatch_file ticking (broken []) root context (request_of "out/./m")).0 ≡ raised "OSError"
unfolding dispatch_file
breaks = refl

abbrev second : List String → String
second (a ∷ b ∷ rest) = b
second _ = ""

other_path : ("out" ∷ "old" ∷ []) ≢ path_parts "out/./m"
other_path same = let absurd : true ≡ false = ap (λ path. second path =text "old") same in cc

dispatch_file_raised_example :
    ((dispatch_file ticking (broken []) root context (request_of "out/./m")).1 ≡ root)
    ⊎ (◌≡◌ {A = String} "OSError" "OSError"
        × IsPartial root
            (dispatch_file ticking (broken []) root context (request_of "out/./m")).1
            (path_parts "out/./m")
            ("out" ∷ "old" ∷ []))
dispatch_file_raised_example =
    dispatch_file_raised ticking (broken []) root context (request_of "out/./m") "OSError"
      ("out" ∷ "old" ∷ []) breaks other_path

admitted : validate_file root context (request_of "out/./m") ≡ admit
unfolding validate_file
admitted = refl

validate_file-dispatch_file_example :
    (dispatch_file ticking written root context (request_of "out/./m")).0
    ≡ done (created ticking (request_of "out/./m"))
validate_file-dispatch_file_example =
    validate_file-dispatch_file ticking root context (request_of "out/./m") refl admitted

abbrev marker_context : ScopedEffectContext
marker_context = record {
  allowed_paths = "marker.txt" ∷ [];
  capabilities = write_receipt_marker ∷ [];
}

marker_dispatched :
    (dispatch_file ticking written root marker_context apply_args.effect_request).0
    ≡ done (created ticking apply_args.effect_request)
unfolding dispatch_file
marker_dispatched = refl

digits : is_sha256 zeros ≡ true
unfolding is_sha256
digits = refl

dispatch_file-bound_example :
    is_bound ticking apply_args (created ticking apply_args.effect_request) ≡ true
dispatch_file-bound_example =
    dispatch_file-bound ticking written root marker_context apply_args
      (created ticking apply_args.effect_request) digits marker_dispatched

leaf-dispatch_file_example :
    leaf (
      node_at
        ("out" ∷ "old" ∷ [])
        (dispatch_file ticking written root context (request_of "out/./m")).1)
    ≡ leaf (node_at ("out" ∷ "old" ∷ []) root)
leaf-dispatch_file_example =
    leaf-dispatch_file ticking written root context (request_of "out/./m")
      (created ticking (request_of "out/./m")) ("out" ∷ "old" ∷ []) dispatched
      (λ same. let absurd : true ≡ false = ap (λ path. second path =text "old") same in cc)
