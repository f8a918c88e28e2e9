-- ===== src/Work/Mutation/Laws/Effects.antt =====
-- The create-only effect and its rollback on the tree.
use context_vault.Prelude.{
  ◌≡◌, ◌≢◌, refl, sym, ap, ◌∙◌, String, true, false, Option, none, some, List, [], ◌∷◌, ◌++◌,
  is_some, Bool-cases, inl, inr,
}
use context_vault.Work.Session.{Env}
use context_vault.Work.Authority.{EffectRequest, ScopedEffectContext}
use context_vault.Work.Effects.{EffectResult, done, raised}
use context_vault.Work.Mutation.Tree.{
  Node, file, Entries, find_entry, put_entry, edit_at, node_at, entries_at,
}
use context_vault.Work.Mutation.Paths.{path_parts, split_last, split_last_lem}
use context_vault.Work.Mutation.Scoped.{
  Writing, written, unopened, broken, write_file, admits_path, admits_parents, admitted_in,
  admit_target, created, create_in, dispatch_at, dispatch_file,
}
use context_vault.Work.Mutation.Laws.Allowing.{IsAllowed, admits_path-IsAllowed}
use context_vault.Work.Mutation.Laws.Entries.{find_entry-put_entry}
use context_vault.Work.Mutation.Laws.Editing.{leaf, node_at-edit_at, leaf-edit_at}

pub not_some : {A : Type 0} (o : Option A) → is_some o ≡ false → o ≡ none
not_some none h = refl
not_some (some x) h = cc

target-inj : (p q : List String × String) → some p ≡ some q → p ≡ q
target-inj p q h = cc

-- An admitted target, and what admits it.
pub record IsAdmitted (root : Node) (context : ScopedEffectContext) (request : EffectRequest)
    (parents : List String) (name : String) : Type 0 where
  pub scoped : admits_path context request ≡ true
  pub split : split_last (path_parts request.relative_path) ≡ some (parents, name)
  pub walked : admits_parents parents root ≡ true

admitted_in-some :
    (root : Node) (o : Option (List String × String)) (parents : List String) (name : String)
    → admitted_in root o ≡ some (parents, name)
    → (o ≡ some (parents, name)) × (admits_parents parents root ≡ true)
admitted_in-some root none parents name h = cc
admitted_in-some root (some (ps, n)) parents name h = elim (Bool-cases (admits_parents ps root)) [
  | inl passes ↦
      let same : some (ps, n) ≡ some (parents, name) = rw passes at h in
      let walked : admits_parents parents root ≡ true =
        ap (λ (p : List String × String). admits_parents p.0 root)
          (sym (target-inj (ps, n) (parents, name) same))
        ∙ passes in
      (same, walked)
  | inr fails ↦
      let absurd : ◌≡◌ {A = Option (List String × String)} none (some (parents, name)) =
        rw fails at h in
      cc
]

pub admit_target-some :
    (root : Node) (context : ScopedEffectContext) (request : EffectRequest) (parents : List String)
    (name : String)
    → admit_target root context request ≡ some (parents, name)
    → IsAdmitted root context request parents name
unfolding admit_target
admit_target-some root context request parents name h =
    elim (Bool-cases (admits_path context request)) [
      | inl passes ↦
          let inside : admitted_in root (split_last (path_parts request.relative_path))
              ≡ some (parents, name) =
            rw passes at h in
          let (split, walked) =
            admitted_in-some root (split_last (path_parts request.relative_path)) parents name
              inside in
          record { scoped = passes; split = split; walked = walked }
      | inr fails ↦
          let absurd : ◌≡◌ {A = Option (List String × String)} none (some (parents, name)) =
            rw fails at h in
          cc
    ]

pub some-admit_target :
    (root : Node) (context : ScopedEffectContext) (request : EffectRequest) (parents : List String)
    (name : String)
    → IsAdmitted root context request parents name
    → admit_target root context request ≡ some (parents, name)
unfolding admit_target
some-admit_target root context request parents name a = rw a.scoped (rw a.split (rw a.walked refl))

-- What a completed dispatch has found and done.
pub record IsCreated (env : Env) (root root' : Node) (context : ScopedEffectContext)
    (request : EffectRequest) (result : EffectResult) : Type 0 where
  pub parents : List String
  pub name : String
  pub entries : Entries
  pub admitted : IsAdmitted root context request parents name
  pub opened : entries_at parents root ≡ some entries
  pub absent : find_entry name entries ≡ none
  pub nothing : node_at (parents ++ (name ∷ [])) root ≡ none
  pub changed : edit_at parents (put_entry name (file request.content)) root ≡ root'
  pub answered : created env request ≡ result

done-inj : (p q : EffectResult) → done p ≡ done q → p ≡ q
done-inj p q k = cc

write_file-IsCreated :
    (env : Env) (w : Writing) (root : Node) (context : ScopedEffectContext)
    (request : EffectRequest) (result : EffectResult) (parents : List String) (name : String)
    (es : Entries)
    → IsAdmitted root context request parents name
    → node_at (parents ++ (name ∷ [])) root ≡ none
    → entries_at parents root ≡ some es
    → find_entry name es ≡ none
    → (write_file env w root request parents name).0 ≡ done result
    → IsCreated env root (write_file env w root request parents name).1 context request result
write_file-IsCreated env written root context request result parents name es a n e free h = record {
  parents = parents;
  name = name;
  entries = es;
  admitted = a;
  opened = e;
  absent = free;
  nothing = n;
  changed = refl;
  answered = done-inj (created env request) result h;
}
write_file-IsCreated env unopened root context request result parents name es a n e free h = cc
write_file-IsCreated env (broken part) root context request result parents name es a n e free h = cc

create_in-IsCreated :
    (env : Env) (w : Writing) (root : Node) (context : ScopedEffectContext)
    (request : EffectRequest) (result : EffectResult) (parents : List String) (name : String)
    (opened : Option Entries)
    → IsAdmitted root context request parents name
    → node_at (parents ++ (name ∷ [])) root ≡ none
    → entries_at parents root ≡ opened
    → (create_in env w root request parents name opened).0 ≡ done result
    → IsCreated env root (create_in env w root request parents name opened).1 context request result
create_in-IsCreated env w root context request result parents name none a n e h = cc
create_in-IsCreated env w root context request result parents name (some es) a n e h =
    elim (Bool-cases (is_some (find_entry name es))) [
      | inl taken ↦ let absurd : raised "ScopeViolation" ≡ done result = rw taken at h in cc
      | inr free ↦ rw free (
          write_file-IsCreated env w root context request result parents name es a n e
            (not_some (find_entry name es) free) (rw free at h))
    ]

pub dispatch_file-IsCreated :
    (env : Env) (w : Writing) (root : Node) (context : ScopedEffectContext)
    (request : EffectRequest) (result : EffectResult)
    → (dispatch_file env w root context request).0 ≡ done result
    → IsCreated env root (dispatch_file env w root context request).1 context request result
unfolding dispatch_file
dispatch_file-IsCreated env w root context request result =
    at_target (admit_target root context request) refl
  where
    at_target :
        (target : Option (List String × String))
        → admit_target root context request ≡ target
        → (dispatch_at env w root request target).0 ≡ done result
        → IsCreated env root (dispatch_at env w root request target).1 context request result
    at_target none e h = cc
    at_target (some (parents, name)) e h =
        elim (Bool-cases (is_some (node_at (parents ++ (name ∷ [])) root))) [
          | inl taken ↦ let absurd : raised "ScopeViolation" ≡ done result = rw taken at h in cc
          | inr free ↦ rw free (
              create_in-IsCreated env w root context request result parents name
                (entries_at parents root) (admit_target-some root context request parents name e)
                (not_some (node_at (parents ++ (name ∷ [])) root) free) refl (rw free at h))
        ]

-- A dispatch that completes has a capability that the context grants and a path that it lists, relative,
-- not empty and without `..`, where nothing was; it answers the hash of the content, and the path then holds a regular file with the content.
pub dispatch_file_lem :
    (env : Env) (w : Writing) (root : Node) (context : ScopedEffectContext)
    (request : EffectRequest) (result : EffectResult)
    → (dispatch_file env w root context request).0 ≡ done result
    → IsAllowed context request
      × (result.output_artifact_hash ≡ env.sha256 request.content)
      × (node_at (path_parts request.relative_path) root ≡ none)
      × (node_at (path_parts request.relative_path) (dispatch_file env w root context request).1
          ≡ some (file request.content))
dispatch_file_lem env w root context request result h =
    let c = dispatch_file-IsCreated env w root context request result h in
    let parts =
      split_last_lem (path_parts request.relative_path) c.parents c.name c.admitted.split in
    let put = put_entry c.name (file request.content) in
    (
      admits_path-IsAllowed context request c.admitted.scoped,
      ap (λ (r : EffectResult). r.output_artifact_hash) (sym c.answered),
      ap (λ p. node_at p root) parts ∙ c.nothing,
      ap (λ n. node_at (path_parts request.relative_path) n) (sym c.changed)
          ∙ ap (λ p. node_at p (edit_at c.parents put root)) parts
          ∙ node_at-edit_at c.parents c.name put root c.entries c.opened
          ∙ find_entry-put_entry c.name (file request.content) c.entries c.absent,
    )

-- A dispatch that completes leaves every path but the requested one with the file, the link or the
-- absence that was there.
pub leaf-dispatch_file :
    (env : Env) (w : Writing) (root : Node) (context : ScopedEffectContext)
    (request : EffectRequest) (result : EffectResult) (path : List String)
    → (dispatch_file env w root context request).0 ≡ done result
    → path ≢ path_parts request.relative_path
    → leaf (node_at path (dispatch_file env w root context request).1) ≡ leaf (node_at path root)
leaf-dispatch_file env w root context request result path h other =
    let c = dispatch_file-IsCreated env w root context request result h in
    let parts =
      split_last_lem (path_parts request.relative_path) c.parents c.name c.admitted.split in
    ap (λ n. leaf (node_at path n)) (sym c.changed)
    ∙ leaf-edit_at c.parents c.name request.content root c.entries path c.opened c.absent
        (λ same. other (same ∙ sym parts))
