-- ===== src/Work/Mutation/Laws/Serving.antt =====
-- How the effect meets the service: what validation promises, and what the service checks of an answer.
use context_vault.Prelude.{
  ◌≡◌, refl, sym, ap, ◌∙◌, String, Bool, true, ◌&&◌, Option, none, some, List, [], ◌∷◌, ◌++◌, arith,
  is_some, Bool-cases, inl, inr,
}
use context_vault.Work.Session.{Env}
use context_vault.Work.Authority.{EffectRequest, ScopedEffectContext}
use context_vault.Work.Effects.{EffectResult, done}
use context_vault.Work.Mutation.Tree.{
  Node, file, link, dir, Entries, find_entry, node_at, entries_at,
}
use context_vault.Work.Mutation.Scoped.{
  Writing, written, admits_parents, admit_target, created, dispatch_at, dispatch_file,
}
use context_vault.Work.Mutation.Laws.Entries.{text_refl}
use context_vault.Work.Mutation.Laws.Editing.{and_then-some}
use context_vault.Work.Mutation.Laws.Effects.{dispatch_file-IsCreated}
use context_vault.Domain.WorkGraph.{admit, reject, scope_violation}
use context_vault.Work.Apply.Begin.{ApplyRequest, expected_after}
use context_vault.Work.Apply.Finish.{is_bound}
use context_vault.Work.Effects.{is_sha256, absent_hash}
use context_vault.Work.Mutation.Tree.{and_then}
use context_vault.Work.Mutation.Scoped.{
  Writing, written, free_at, validate_file, is_directory, holds,
}
use context_vault.Work.Mutation.Laws.Effects.{admit_target-some, not_some}

held :
    (o : Option Node) (test : Node → Bool)
    → (is_directory o && holds o test) ≡ true
    → (x : Node) × (o ≡ some x) × (is_directory (some x) ≡ true) × (test x ≡ true)
held none test h = cc
held (some (dir e)) test h = (dir e, refl, refl, ground arith)
held (some (file b)) test h = cc
held (some link) test h = cc

-- A path whose parents are admitted can be opened.
admits_parents-opens :
    (parts : List String) (root : Node)
    → is_directory (some root) ≡ true
    → admits_parents parts root ≡ true
    → (es : Entries) × (entries_at parts root ≡ some es)
unfolding admits_parents entries_at
admits_parents-opens [] (dir e) d h = (e, refl)
admits_parents-opens [] (file b) d h = cc
admits_parents-opens [] link d h = cc
admits_parents-opens (part ∷ parts) (dir e) d h =
    let (x, found, below, later) = held (find_entry part e) (admits_parents parts) h in
    let (es, opened) = admits_parents-opens parts x below later in
    (es, ap (λ o. and_then o (entries_at parts)) found ∙ opened)
admits_parents-opens (part ∷ parts) (file b) d h = cc
admits_parents-opens (part ∷ parts) link d h = cc

node_at-entries_at :
    (parts : List String) (name : String) (root : Node) (es : Entries)
    → entries_at parts root ≡ some es
    → node_at (parts ++ (name ∷ [])) root ≡ find_entry name es
unfolding entries_at node_at
node_at-entries_at [] name (dir e) es h =
    then_here (find_entry name e) ∙ ap (find_entry name) (entries-inj e es h)
  where
    then_here : (o : Option Node) → and_then o (node_at []) ≡ o
    then_here none = refl
    then_here (some x) = refl

    entries-inj : (a b : Entries) → some a ≡ some b → a ≡ b
    entries-inj a b k = cc
node_at-entries_at [] name (file b) es h = cc
node_at-entries_at [] name link es h = cc
node_at-entries_at (part ∷ parts) name (dir e) es h =
    let (x, found, later) = and_then-some (find_entry part e) (entries_at parts) es h in
    ap (λ o. and_then o (node_at (parts ++ (name ∷ [])))) found
    ∙ node_at-entries_at parts name x es later
node_at-entries_at (part ∷ parts) name (file b) es h = cc
node_at-entries_at (part ∷ parts) name link es h = cc

-- What a completed dispatch answers passes the checks that `apply` makes of an effect's answer, for a
-- content whose SHA-256 is written as 64 hexadecimal digits.
pub dispatch_file-bound :
    (env : Env) (w : Writing) (root : Node) (context : ScopedEffectContext) (args : ApplyRequest)
    (result : EffectResult)
    → is_sha256 (env.sha256 args.effect_request.content) ≡ true
    → (dispatch_file env w root context args.effect_request).0 ≡ done result
    → is_bound env args result ≡ true
unfolding is_bound expected_after
dispatch_file-bound env w root context args result digest h =
    let c = dispatch_file-IsCreated env w root context args.effect_request result h in
    rw (← c.answered) (
      all_four _ _ _ _ digest (text_refl (absent_hash env))
        (text_refl (env.sha256 args.effect_request.content))
        (text_refl (env.sha256 args.effect_request.content)))
  where
    all_four :
        (a b c d : Bool) → a ≡ true → b ≡ true → c ≡ true → d ≡ true → (a && b && c && d) ≡ true
    all_four a b c d h k m n = ground arith

-- An effect that `validate` admits, on a root that is a directory, completes when it is dispatched on the
-- same tree, and answers the hash of its content.
pub validate_file-dispatch_file :
    (env : Env) (root : Node) (context : ScopedEffectContext) (request : EffectRequest)
    → is_directory (some root) ≡ true
    → validate_file root context request ≡ admit
    → (dispatch_file env written root context request).0 ≡ done (created env request)
unfolding validate_file dispatch_file
validate_file-dispatch_file env root context request d =
    at_target (admit_target root context request) refl
  where
    at_target :
        (target : Option (List String × String))
        → admit_target root context request ≡ target
        → free_at root target ≡ admit
        → (dispatch_at env written root request target).0 ≡ done (created env request)
    at_target none e h = let absurd : reject scope_violation ≡ admit = h in cc
    at_target (some (parents, name)) e h =
        elim (Bool-cases (is_some (node_at (parents ++ (name ∷ [])) root))) [
          | inl taken ↦ let absurd : reject scope_violation ≡ admit = rw taken at h in cc
          | inr free ↦
              let admitted = admit_target-some root context request parents name e in
              let (es, opened) = admits_parents-opens parents root d admitted.walked in
              let absent : find_entry name es ≡ none =
                sym (node_at-entries_at parents name root es opened)
                ∙ not_some (node_at (parents ++ (name ∷ [])) root) free in
              rw free (rw opened (rw absent refl))
        ]
