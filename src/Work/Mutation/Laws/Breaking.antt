-- ===== src/Work/Mutation/Laws/Breaking.antt =====
-- What a dispatch that raises leaves: the tree as it was, or a file that was not written to its end.
use context_vault.Prelude.{
  ℕ, ◌≡◌, ◌≢◌, ◌⊎◌, refl, sym, ap, ◌∙◌, String, Option, none, some, List, [], ◌∷◌, ◌++◌, is_some,
  Bool-cases, inl, inr,
}
use context_vault.Work.Session.{Env}
use context_vault.Work.Authority.{EffectRequest, ScopedEffectContext}
use context_vault.Work.Effects.{raised}
use context_vault.Work.Mutation.Tree.{
  Node, file, Entries, find_entry, put_entry, edit_at, node_at, entries_at,
}
use context_vault.Work.Mutation.Paths.{path_parts, split_last_lem}
use context_vault.Work.Mutation.Scoped.{
  Writing, written, unopened, broken, admit_target, write_file, create_in, dispatch_at,
  dispatch_file,
}
use context_vault.Work.Mutation.Laws.Entries.{find_entry-put_entry}
use context_vault.Work.Mutation.Laws.Editing.{leaf, node_at-edit_at, leaf-edit_at}
use context_vault.Work.Mutation.Laws.Effects.{IsAdmitted, admit_target-some, not_some}

-- A write that broke off at an admitted target, where nothing was.
pub record IsBroken (root root' : Node) (context : ScopedEffectContext) (request : EffectRequest)
    (error : String) : Type 0 where
  pub parents : List String
  pub name : String
  pub entries : Entries
  pub part : List ℕ
  pub admitted : IsAdmitted root context request parents name
  pub opened : entries_at parents root ≡ some entries
  pub absent : find_entry name entries ≡ none
  pub nothing : node_at (parents ++ (name ∷ [])) root ≡ none
  pub changed : edit_at parents (put_entry name (file part)) root ≡ root'
  pub by_system : error ≡ "OSError"

-- The end of a dispatch that raises.
abbrev IsRaised :
    (root : Node) → ScopedEffectContext → EffectRequest → (error : String) → Node → Type 0
IsRaised root context request error root' =
    (root' ≡ root) ⊎ IsBroken root root' context request error

raised-inj : (a b : String) → raised a ≡ raised b → a ≡ b
raised-inj a b h = cc

module _ (env : Env) (root : Node) (context : ScopedEffectContext) (request : EffectRequest)
    (error : String) where
  write_file-IsRaised :
      (w : Writing) (parents : List String) (name : String) (es : Entries)
      → IsAdmitted root context request parents name
      → node_at (parents ++ (name ∷ [])) root ≡ none
      → entries_at parents root ≡ some es
      → find_entry name es ≡ none
      → (write_file env w root request parents name).0 ≡ raised error
      → IsRaised root context request error (write_file env w root request parents name).1
  write_file-IsRaised written parents name es a n e free h = cc
  write_file-IsRaised unopened parents name es a n e free h = inl refl
  write_file-IsRaised (broken part) parents name es a n e free h = inr (record {
    parents = parents;
    name = name;
    entries = es;
    part = part;
    admitted = a;
    opened = e;
    absent = free;
    nothing = n;
    changed = refl;
    by_system = sym (raised-inj "OSError" error h);
  })

  create_in-IsRaised :
      (w : Writing) (parents : List String) (name : String) (opened : Option Entries)
      → IsAdmitted root context request parents name
      → node_at (parents ++ (name ∷ [])) root ≡ none
      → entries_at parents root ≡ opened
      → (create_in env w root request parents name opened).0 ≡ raised error
      → IsRaised root context request error (create_in env w root request parents name opened).1
  create_in-IsRaised w parents name none a n e h = inl refl
  create_in-IsRaised w parents name (some es) a n e h =
      elim (Bool-cases (is_some (find_entry name es))) [
        | inl taken ↦ rw taken (inl refl)
        | inr free ↦ rw free (
            write_file-IsRaised w parents name es a n e (not_some (find_entry name es) free)
              (rw free at h))
      ]

  dispatch_at-IsRaised :
      (w : Writing) (target : Option (List String × String))
      → admit_target root context request ≡ target
      → (dispatch_at env w root request target).0 ≡ raised error
      → IsRaised root context request error (dispatch_at env w root request target).1
  dispatch_at-IsRaised w none e h = inl refl
  dispatch_at-IsRaised w (some (parents, name)) e h =
      elim (Bool-cases (is_some (node_at (parents ++ (name ∷ [])) root))) [
        | inl taken ↦ rw taken (inl refl)
        | inr free ↦ rw free (
            create_in-IsRaised w parents name (entries_at parents root)
              (admit_target-some root context request parents name e)
              (not_some (node_at (parents ++ (name ∷ [])) root) free) refl (rw free at h))
      ]

-- What holds of the requested path and of another after a write that broke off.
abbrev pub IsPartial : Node → Node → (requested other : List String) → Type 0
IsPartial root root' requested other =
    (node_at requested root ≡ none)
    × ((part : List ℕ) × (node_at requested root' ≡ some (file part)))
    × (leaf (node_at other root') ≡ leaf (node_at other root))

broken-IsPartial :
    (root root' : Node) (context : ScopedEffectContext) (request : EffectRequest) (error : String)
    (other : List String)
    → other ≢ path_parts request.relative_path
    → IsBroken root root' context request error
    → IsPartial root root' (path_parts request.relative_path) other
broken-IsPartial root root' context request error other apart b =
    let requested = path_parts request.relative_path in
    let parts = split_last_lem requested b.parents b.name b.admitted.split in
    let put = put_entry b.name (file b.part) in
    (
      ap (λ p. node_at p root) parts ∙ b.nothing,
      (
        b.part,
        ap (λ n. node_at requested n) (sym b.changed)
            ∙ ap (λ p. node_at p (edit_at b.parents put root)) parts
            ∙ node_at-edit_at b.parents b.name put root b.entries b.opened
            ∙ find_entry-put_entry b.name (file b.part) b.entries b.absent,
      ),
      ap (λ n. leaf (node_at other n)) (sym b.changed)
          ∙ leaf-edit_at b.parents b.name b.part root b.entries other b.opened b.absent
              (λ same. apart (same ∙ sym parts)),
    )

-- A dispatch that raises, however the writing of its file ends, leaves the tree as it was; or it raises
-- an error of the operating system, nothing was at the requested path, a regular file is there now, and
-- any other path has the file, the link or the absence that it had.
pub dispatch_file_raised :
    (env : Env) (w : Writing) (root : Node) (context : ScopedEffectContext)
    (request : EffectRequest) (error : String) (other : List String)
    → (dispatch_file env w root context request).0 ≡ raised error
    → other ≢ path_parts request.relative_path
    → ((dispatch_file env w root context request).1 ≡ root)
      ⊎ ((error ≡ "OSError")
          × IsPartial root
              (dispatch_file env w root context request).1
              (path_parts request.relative_path)
              other)
unfolding dispatch_file
dispatch_file_raised env w root context request error other h apart =
    elim (dispatch_at-IsRaised env root context request error w (admit_target root context request)
      refl h) [
        | inl same ↦ inl same
        | inr b ↦ inr (b.by_system, broken-IsPartial root _ context request error other apart b)
      ]
