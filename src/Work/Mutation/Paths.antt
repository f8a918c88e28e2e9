-- ===== src/Work/Mutation/Paths.antt =====
-- `PurePosixPath` of a relative path: its parts and its normal form.
use Prim.Native.Char.{Char, code}
use context_vault.Prelude.{
  String, Bool, false, not, ◌&&◌, Option, none, some, List, [], ◌∷◌, select, is_empty, ◌++◌, ◌≡◌,
  refl, ap, ◌∙◌, ◌==◌, ◌=text◌, if◌then◌else◌,
}

abbrev prepend : Char → List String → List String
prepend c [] = String.◌∷◌ c String.[] ∷ []
prepend c (word ∷ words) = String.◌∷◌ c word ∷ words

-- `path.split("/")`
abbrev split : String → List String
split String.[] = "" ∷ []
split (String.◌∷◌ c s) = let rest = split s in if code c == b'/' then "" ∷ rest else prepend c rest

-- `path.parts`, of a relative path
abbrev pub path_parts : String → List String
path_parts path = select (λ part. not (part =text "") && not (part =text ".")) (split path)

-- `path.is_absolute()`
abbrev pub is_absolute : String → Bool
is_absolute String.[] = false
is_absolute (String.◌∷◌ c s) = code c == b'/'

abbrev append_text : String → String → String
append_text String.[] t = t
append_text (String.◌∷◌ c s) t = String.◌∷◌ c (append_text s t)

-- `path.as_posix()`
abbrev pub as_posix : List String → String
as_posix [] = "."
as_posix (part ∷ []) = part
as_posix (part ∷ more ∷ rest) = append_text part (append_text "/" (as_posix (more ∷ rest)))

abbrev below : String → Option (List String × String) → Option (List String × String)
below part none = none
below part (some (parents, name)) = some (part ∷ parents, name)

-- `path.parts[:-1]` and `path.name`
unfoldable pub split_last : List String → Option (List String × String)
split_last [] = none
split_last (part ∷ rest) =
    let later = split_last rest in if is_empty rest then some ([], part) else below part later

some-inj : (p q : List String × String) → some p ≡ some q → p ≡ q
some-inj p q h = cc

-- The parents and the name are the parts.
pub split_last_lem :
    (parts parents : List String) (name : String)
    → split_last parts ≡ some (parents, name)
    → parts ≡ parents ++ (name ∷ [])
unfolding split_last
split_last_lem [] parents name h = cc
split_last_lem (part ∷ []) parents name h =
    let same : some ([], part) ≡ some (parents, name) = h in
    let pair = some-inj ([], part) (parents, name) same in
    ap (λ (p : List String × String). p.0 ++ (p.1 ∷ [])) pair
split_last_lem (part ∷ more ∷ rest) parents name h =
    shorter (split_last (more ∷ rest)) refl h (split_last_lem (more ∷ rest))
  where
    shorter :
        (o : Option (List String × String))
        → split_last (more ∷ rest) ≡ o
        → below part o ≡ some (parents, name)
        → ((ps : List String) (n : String)
            → split_last (more ∷ rest) ≡ some (ps, n)
            → more ∷ rest ≡ ps ++ (n ∷ []))
        → part ∷ more ∷ rest ≡ parents ++ (name ∷ [])
    shorter none e k ih = cc
    shorter (some (ps, n)) e k ih =
        let pair = some-inj (part ∷ ps, n) (parents, name) k in
        ap (λ l. part ∷ l) (ih ps n e) ∙ ap (λ (p : List String × String). p.0 ++ (p.1 ∷ [])) pair
