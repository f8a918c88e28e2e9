-- ===== src/Work/Mutation/Laws/Editing.antt =====
-- The tree after a change to the entries of one of its directories.
use context_vault.Prelude.{
  ℕ, ◌≡◌, ◌≢◌, refl, sym, ap, ◌∙◌, String, Bool, true, ◌&&◌, Option, none, some, List, [], ◌∷◌,
  ◌++◌, arith, ◌=text◌, Bool-cases, inl, inr,
}
use context_vault.Work.Mutation.Tree.{
  Node, file, link, dir, Entries, find_entry, put_entry, edit_at, and_then, node_at, entries_at,
}
use context_vault.Work.Mutation.Scoped.{admits_parents, is_directory}
use context_vault.Work.Mutation.Laws.Entries.{
  text_same, find_entry-put_entry, find_entry-other, find_entry-map_entry, find_entry-map_other,
  map_entry-undo,
}

pub and_then-some :
    {A : Type 0} (o : Option Node) (next : Node → Option A) (a : A)
    → and_then o next ≡ some a
    → (x : Node) × (o ≡ some x) × (next x ≡ some a)
and_then-some none next a h = cc
and_then-some (some x) next a h = (x, refl, h)

some-inj : {A : Type 0} (a b : A) → some a ≡ some b → a ≡ b
some-inj a b h = cc

pub entries_at-edit_at :
    (parts : List String) (change : Entries → Entries) (root : Node) (es : Entries)
    → entries_at parts root ≡ some es
    → entries_at parts (edit_at parts change root) ≡ some (change es)
unfolding entries_at edit_at
entries_at-edit_at [] change (dir e) es h = ap (λ x. some (change x)) (some-inj e es h)
entries_at-edit_at [] change (file b) es h = cc
entries_at-edit_at [] change link es h = cc
entries_at-edit_at (part ∷ parts) change (dir e) es h =
    let (x, found, later) = and_then-some (find_entry part e) (entries_at parts) es h in
    rw (find_entry-map_entry part (edit_at parts change) e x found)
      (entries_at-edit_at parts change x es later)
entries_at-edit_at (part ∷ parts) change (file b) es h = cc
entries_at-edit_at (part ∷ parts) change link es h = cc

pub edit_at-undo :
    (parts : List String) (change undo : Entries → Entries) (root : Node) (es : Entries)
    → entries_at parts root ≡ some es
    → undo (change es) ≡ es
    → edit_at parts undo (edit_at parts change root) ≡ root
unfolding entries_at edit_at
edit_at-undo [] change undo (dir e) es h back =
    let eq : e ≡ es = some-inj e es h in ap dir (rw eq back)
edit_at-undo [] change undo (file b) es h back = cc
edit_at-undo [] change undo link es h back = cc
edit_at-undo (part ∷ parts) change undo (dir e) es h back =
    let (x, found, later) = and_then-some (find_entry part e) (entries_at parts) es h in
    ap dir (
      map_entry-undo part (edit_at parts change) (edit_at parts undo) e λ y at.
        let both : some x ≡ some y = sym found ∙ at in
        rw (← some-inj x y both) (edit_at-undo parts change undo x es later back))
edit_at-undo (part ∷ parts) change undo (file b) es h back = cc
edit_at-undo (part ∷ parts) change undo link es h back = cc

is_directory-edit_at :
    (parts : List String) (change : Entries → Entries) (root : Node) (es : Entries)
    → entries_at parts root ≡ some es
    → is_directory (some (edit_at parts change root)) ≡ true
unfolding entries_at edit_at
is_directory-edit_at [] change (dir e) es h = refl
is_directory-edit_at [] change (file b) es h = cc
is_directory-edit_at [] change link es h = cc
is_directory-edit_at (part ∷ parts) change (dir e) es h = refl
is_directory-edit_at (part ∷ parts) change (file b) es h = cc
is_directory-edit_at (part ∷ parts) change link es h = cc

-- The directories on the way stay directories.
pub admits_parents-edit_at :
    (parts : List String) (change : Entries → Entries) (root : Node) (es : Entries)
    → entries_at parts root ≡ some es
    → admits_parents parts (edit_at parts change root) ≡ true
unfolding entries_at edit_at admits_parents
admits_parents-edit_at [] change root es h = refl
admits_parents-edit_at (part ∷ parts) change (dir e) es h =
    let (x, found, later) = and_then-some (find_entry part e) (entries_at parts) es h in
    rw (find_entry-map_entry part (edit_at parts change) e x found) (
      both _ _ (is_directory-edit_at parts change x es later)
        (admits_parents-edit_at parts change x es later))
  where
    both : (a b : Bool) → a ≡ true → b ≡ true → (a && b) ≡ true
    both a b h k = ground arith
admits_parents-edit_at (part ∷ parts) change (file b) es h = cc
admits_parents-edit_at (part ∷ parts) change link es h = cc

-- What a path holds, if it is no directory.
abbrev pub leaf : Option Node → Option Node
leaf none = none
leaf (some (dir entries)) = none
leaf (some node) = some node

pub node_at-edit_at :
    (parts : List String) (name : String) (change : Entries → Entries) (root : Node) (es : Entries)
    → entries_at parts root ≡ some es
    → node_at (parts ++ (name ∷ [])) (edit_at parts change root) ≡ find_entry name (change es)
unfolding entries_at edit_at node_at
node_at-edit_at [] name change (dir e) es h =
    then_here (find_entry name (change e)) ∙ ap (λ x. find_entry name (change x)) (some-inj e es h)
  where
    then_here : (o : Option Node) → and_then o (node_at []) ≡ o
    then_here none = refl
    then_here (some x) = refl
node_at-edit_at [] name change (file b) es h = cc
node_at-edit_at [] name change link es h = cc
node_at-edit_at (part ∷ parts) name change (dir e) es h =
    let (x, found, later) = and_then-some (find_entry part e) (entries_at parts) es h in
    rw (find_entry-map_entry part (edit_at parts change) e x found)
      (node_at-edit_at parts name change x es later)
node_at-edit_at (part ∷ parts) name change (file b) es h = cc
node_at-edit_at (part ∷ parts) name change link es h = cc

-- A new file leaves every other path with what it holds.
pub leaf-edit_at :
    (parts : List String) (name : String) (content : List ℕ) (root : Node) (es : Entries)
    (path : List String)
    → entries_at parts root ≡ some es
    → find_entry name es ≡ none
    → path ≢ (parts ++ (name ∷ []))
    → leaf (node_at path (edit_at parts (put_entry name (file content)) root))
      ≡ leaf (node_at path root)
unfolding entries_at edit_at node_at
leaf-edit_at [] name content (file b) es path h absent other = cc
leaf-edit_at [] name content link es path h absent other = cc
leaf-edit_at [] name content (dir e) es [] h absent other = refl
leaf-edit_at [] name content (dir e) es (a ∷ rest) h absent other =
    elim (Bool-cases (name =text a)) [
      | inr apart ↦
          ap (λ o. leaf (and_then o (node_at rest)))
            (find_entry-other a name (file content) e apart)
      | inl same ↦
          let gone : find_entry name e ≡ none = ap (find_entry name) (some-inj e es h) ∙ absent in
          rw (← text_same name a same) (
            rw gone (
              rw (find_entry-put_entry name (file content) e gone) (
                nothing_below rest λ empty.
                  other (ap (λ l. a ∷ l) empty ∙ ap (λ n. n ∷ []) (sym (text_same name a same))))))
    ]
  where
    nothing_below : (ps : List String) → ps ≢ [] → leaf (node_at ps (file content)) ≡ none
    nothing_below [] k = elim (k refl) [ ]
    nothing_below (p ∷ ps) k = refl
leaf-edit_at (part ∷ parts) name content (file b) es path h absent other = cc
leaf-edit_at (part ∷ parts) name content link es path h absent other = cc
leaf-edit_at (part ∷ parts) name content (dir e) es [] h absent other = refl
leaf-edit_at (part ∷ parts) name content (dir e) es (a ∷ rest) h absent other =
    let (x, found, later) = and_then-some (find_entry part e) (entries_at parts) es h in
    let change = edit_at parts (put_entry name (file content)) in
    elim (Bool-cases (part =text a)) [
      | inr apart ↦
          ap (λ o. leaf (and_then o (node_at rest))) (find_entry-map_other a part change e apart)
      | inl same ↦ rw (← text_same part a same) (
          rw found (
            rw (find_entry-map_entry part change e x found) (
              leaf-edit_at parts name content x es rest later absent λ eq.
                other (ap (λ n. n ∷ rest) (sym (text_same part a same)) ∙ ap (λ l. part ∷ l) eq))))
    ]
