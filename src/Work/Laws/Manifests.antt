-- ===== src/Work/Laws/Manifests.antt =====
-- The registered manifest that `_assert_trusted_approval_actor` takes a project's rules from.
use mathlib.Core.List.{Memᴰ}
use mathlib.Core.Path.{subst}
use Prim.Native.String.{◌++◌ as text_append}
use context_vault.Prelude.{
  ◌≤◌, ◌≡◌, refl, sym, ◌∙◌, String, true, ◌&&◌, Option, none, some, List, [], ◌∷◌, All, select,
  arith, ◌==◌, ◌=text◌, eq_iff, ltb, Bool-cases, inl, inr, if◌then◌else◌,
}
use context_vault.Work.Rows.{Uuid, ContextSource}
use context_vault.Work.Session.{Env}
use context_vault.Work.Approvals.{
  ApprovalPolicy, parse_policy, latest, active_manifest, manifest_policy,
}
use context_vault.Work.Laws.Entitling.{Mem-of_select}

-- The source id of a project's manifest.
abbrev manifest_id : Env → Uuid → String
manifest_id env project_id = text_append "project-manifest:" (env.uuid_text project_id)

-- An active source of the project under the manifest's id, at the highest version of these.
pub record IsManifest (env : Env) (project_id : Uuid) (sources : List ContextSource)
    (manifest : ContextSource) : Type 0 where
  pub registered : Memᴰ manifest sources
  pub in_force : manifest.is_active ≡ true
  pub of_project : manifest.project_id ≡ project_id
  pub named : manifest.source_id ≡ manifest_id env project_id
  pub newest :
      All
        (λ c. c.version ≤ manifest.version)
        (select
          (λ c.
            c.project_id == project_id
            && c.source_id =text manifest_id env project_id
            && c.is_active)
          sources)

not_above :
    (best : ContextSource) (c : ContextSource) (xs : List ContextSource)
    → best.version ≤ c.version
    → All (λ d. d.version ≤ best.version) xs
    → All (λ d. d.version ≤ c.version) xs
not_above best c [] h all = tt
not_above best c (x ∷ xs) h all = (omega (arith, all.0), not_above best c xs h all.1)

-- The first of two sources, unless the second is newer.
abbrev newer : ContextSource → Option ContextSource → Option ContextSource
newer c none = some c
newer c (some best) = if ltb c.version best.version then some best else some c

latest-cons :
    (c : ContextSource) (rest : List ContextSource) → latest (c ∷ rest) ≡ newer c (latest rest)
unfolding latest
latest-cons c rest = either (latest rest)
  where
    either :
        (o : Option ContextSource)
        → (elim o [
          | none ↦ some c
          | some best ↦ if ltb c.version best.version then some best else some c
        ])
          ≡ newer c o
    either none = refl
    either (some best) = refl

newer-some : (c : ContextSource) (o : Option ContextSource) → newer c o ≡ none → ⊥
newer-some c none h = cc
newer-some c (some best) h = elim (Bool-cases (ltb c.version best.version)) [
  | inl older ↦ let absurd : some best ≡ none = rw older at h in cc
  | inr above ↦ let absurd : some c ≡ none = rw above at h in cc
]

latest-none : (xs : List ContextSource) → latest xs ≡ none → xs ≡ []
latest-none [] h = refl
latest-none (c ∷ rest) h = absurd (newer-some c (latest rest) (sym (latest-cons c rest) ∙ h))

-- A member that none is newer than.
abbrev IsNewest : List ContextSource → ContextSource → Type 0
IsNewest xs best = Memᴰ best xs × All (λ c. c.version ≤ best.version) xs

newer-IsNewest :
    (c b best : ContextSource) (rest : List ContextSource)
    → newer c (some b) ≡ some best
    → IsNewest rest b
    → IsNewest (c ∷ rest) best
newer-IsNewest c b best rest k (there, below) = elim (Bool-cases (ltb c.version b.version)) [
  | inl older ↦
      let taken : some b ≡ some best = rw older at k in
      let same : b ≡ best = cc in
      subst (IsNewest (c ∷ rest)) same (Memᴰ.tail there, (ground arith, below))
  | inr above ↦
      let taken : some c ≡ some best = rw above at k in
      let same : c ≡ best = cc in
      subst (IsNewest (c ∷ rest)) same
        (Memᴰ.head refl, (omega arith, not_above b c rest (ground arith) below))
]

latest-IsNewest :
    (xs : List ContextSource) (best : ContextSource) → latest xs ≡ some best → IsNewest xs best
unfolding latest
latest-IsNewest [] best h = cc
latest-IsNewest (c ∷ rest) best h =
    after (latest rest) refl (sym (latest-cons c rest) ∙ h) (λ b e. latest-IsNewest rest b e)
  where
    after :
        (o : Option ContextSource)
        → latest rest ≡ o
        → newer c o ≡ some best
        → ((b : ContextSource) → latest rest ≡ some b → IsNewest rest b)
        → IsNewest (c ∷ rest) best
    after none e k later =
        let same : c ≡ best = cc in
        rw (latest-none rest e) (Memᴰ.head (sym same), (rw same (omega arith), tt))
    after (some b) e k later = newer-IsNewest c b best rest k (later b e)

pub manifest_policy-IsManifest :
    (env : Env) (project_id : Uuid) (sources : List ContextSource) (rules : ApprovalPolicy)
    → manifest_policy (active_manifest env project_id sources) ≡ some rules
    → (manifest : ContextSource) × IsManifest env project_id sources manifest
      × (parse_policy manifest.metadata_json ≡ some rules)
unfolding active_manifest
manifest_policy-IsManifest env project_id sources rules h = at_row _ refl h
  where
    at_row :
        (o : Option ContextSource)
        → active_manifest env project_id sources ≡ o
        → manifest_policy o ≡ some rules
        → (manifest : ContextSource) × IsManifest env project_id sources manifest
          × (parse_policy manifest.metadata_json ≡ some rules)
    at_row none e k = cc
    at_row (some row) e k =
        let (here, newest) = latest-IsNewest _ row e in
        let (registered, passes) = Mem-of_select _ sources row here in
        (
          row,
          record {
            registered = registered;
            in_force = ground arith;
            of_project = ground arith;
            named = ground (arith, eq_iff row.source_id (manifest_id env project_id));
            newest = newest;
          },
          k,
        )
