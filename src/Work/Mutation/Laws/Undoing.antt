-- ===== src/Work/Mutation/Laws/Undoing.antt =====
-- The rollback of a create-only effect.
use context_vault.Prelude.{◌≡◌, ap, ◌∙◌, ◌=text◌}
use context_vault.Work.Session.{Env}
use context_vault.Work.Authority.{EffectRequest, ScopedEffectContext}
use context_vault.Work.Effects.{EffectResult, done}
use context_vault.Work.Mutation.Tree.{Node, file, put_entry, drop_entry, edit_at}
use context_vault.Work.Mutation.Scoped.{Writing, dispatch_file, removed, rollback_file}
use context_vault.Work.Mutation.Laws.Entries.{text_refl, find_entry-put_entry, drop_entry-put_entry}
use context_vault.Work.Mutation.Laws.Editing.{
  entries_at-edit_at, edit_at-undo, admits_parents-edit_at,
}
use context_vault.Work.Mutation.Laws.Effects.{some-admit_target, dispatch_file-IsCreated}

-- Rolling back a completed dispatch, with the hash that it answered, completes and gives back the tree
-- from before the dispatch.
pub rollback_file-dispatch_file :
    (env : Env) (w : Writing) (root : Node) (context : ScopedEffectContext)
    (request : EffectRequest) (result : EffectResult)
    → (dispatch_file env w root context request).0 ≡ done result
    → rollback_file env
        (dispatch_file env w root context request).1
        context
        request
        result.output_artifact_hash
      ≡ (done (removed env request result.output_artifact_hash), root)
unfolding rollback_file
rollback_file-dispatch_file env w root context request result h =
    let c = dispatch_file-IsCreated env w root context request result h in
    let put = put_entry c.name (file request.content) in
    let after = edit_at c.parents put root in
    let expected = result.output_artifact_hash in
    let hash : env.sha256 request.content ≡ expected =
      ap (λ (r : EffectResult). r.output_artifact_hash) c.answered in
    let again = some-admit_target after context request c.parents c.name (record {
      scoped = c.admitted.scoped;
      split = c.admitted.split;
      walked = admits_parents-edit_at c.parents put root c.entries c.opened;
    }) in
    rw (← c.changed) (
      rw again (
        rw (entries_at-edit_at c.parents put root c.entries c.opened) (
          rw (find_entry-put_entry c.name (file request.content) c.entries c.absent) (
            rw (ap (λ h. h =text expected) hash ∙ text_refl expected) (
              ap (λ n. (done (removed env request expected), n))
                (edit_at-undo c.parents put (drop_entry c.name) root c.entries c.opened
                  (drop_entry-put_entry c.name (file request.content) c.entries c.absent)))))))
