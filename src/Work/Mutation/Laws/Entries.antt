-- ===== src/Work/Mutation/Laws/Entries.antt =====
-- Entries of a directory after one is put, dropped or changed.
use context_vault.Prelude.{
  ◌≡◌, refl, ap, String, true, false, none, some, arith, ◌=text◌, Bool-cases, inl, inr, eq_iff,
}
use context_vault.Work.Mutation.Tree.{
  Node, Entries, nil, entry, find_entry, put_entry, drop_entry, map_entry,
}

pub text_same : (a b : String) → (a =text b) ≡ true → a ≡ b
text_same a b h = ground (arith, eq_iff a b)

pub text_refl : (a : String) → (a =text a) ≡ true
text_refl a = ground (arith, eq_iff a a)

pub find_entry-put_entry :
    (name : String) (node : Node) (es : Entries)
    → find_entry name es ≡ none
    → find_entry name (put_entry name node es) ≡ some node
unfolding put_entry
find_entry-put_entry name node nil h = rw (text_refl name) refl
find_entry-put_entry name node (entry n x rest) h = elim (Bool-cases (n =text name)) [
  | inl same ↦ let absurd : some x ≡ none = rw same at h in cc
  | inr other ↦
      let absent : find_entry name rest ≡ none = rw other at h in
      rw other (find_entry-put_entry name node rest absent)
]

pub find_entry-other :
    (a name : String) (node : Node) (es : Entries)
    → (name =text a) ≡ false
    → find_entry a (put_entry name node es) ≡ find_entry a es
unfolding put_entry
find_entry-other a name node nil apart = rw apart refl
find_entry-other a name node (entry n x rest) apart = elim (Bool-cases (n =text a)) [
  | inl same ↦ rw same refl
  | inr other ↦ rw other (find_entry-other a name node rest apart)
]

pub drop_entry-put_entry :
    (name : String) (node : Node) (es : Entries)
    → find_entry name es ≡ none
    → drop_entry name (put_entry name node es) ≡ es
unfolding put_entry drop_entry
drop_entry-put_entry name node nil h = rw (text_refl name) refl
drop_entry-put_entry name node (entry n x rest) h = elim (Bool-cases (n =text name)) [
  | inl same ↦ let absurd : some x ≡ none = rw same at h in cc
  | inr other ↦
      let absent : find_entry name rest ≡ none = rw other at h in
      rw other (ap (entry n x) (drop_entry-put_entry name node rest absent))
]

pub find_entry-map_entry :
    (name : String) (change : Node → Node) (es : Entries) (x : Node)
    → find_entry name es ≡ some x
    → find_entry name (map_entry name change es) ≡ some (change x)
unfolding map_entry
find_entry-map_entry name change nil x h = cc
find_entry-map_entry name change (entry n y rest) x h = elim (Bool-cases (n =text name)) [
  | inl same ↦
      let found : some y ≡ some x = rw same at h in
      let eq : y ≡ x = cc in rw same (rw same (ap (λ z. some (change z)) eq))
  | inr other ↦
      let later : find_entry name rest ≡ some x = rw other at h in
      rw other (rw other (find_entry-map_entry name change rest x later))
]

pub find_entry-map_other :
    (a name : String) (change : Node → Node) (es : Entries)
    → (name =text a) ≡ false
    → find_entry a (map_entry name change es) ≡ find_entry a es
unfolding map_entry
find_entry-map_other a name change nil apart = refl
find_entry-map_other a name change (entry n x rest) apart = elim (Bool-cases (n =text name)) [
  | inl same ↦ rw same (rw (text_same n name same) (rw apart refl))
  | inr other ↦ rw other (elim (Bool-cases (n =text a)) [
    | inl mine ↦ rw mine refl
    | inr not_mine ↦ rw not_mine (find_entry-map_other a name change rest apart)
  ])
]

-- A change of one entry and its undoing.
pub map_entry-undo :
    (name : String) (change undo : Node → Node) (es : Entries)
    → ((x : Node) → find_entry name es ≡ some x → undo (change x) ≡ x)
    → map_entry name undo (map_entry name change es) ≡ es
unfolding map_entry
map_entry-undo name change undo nil h = refl
map_entry-undo name change undo (entry n x rest) h = elim (Bool-cases (n =text name)) [
  | inl same ↦
      let found : find_entry name (entry n x rest) ≡ some x = rw same refl in
      rw same (rw same (ap (λ y. entry n y rest) (h x found)))
  | inr other ↦
      rw other
        (rw other (ap (entry n x) (map_entry-undo name change undo rest λ y e. h y (rw other e))))
]
