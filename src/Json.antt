-- ===== src/Json.antt =====
-- The JSON values that rows store and that `canonical_hash` serialises.
use context_vault.Prelude.{
  ℕ, suc, ℤ, pos, negsuc, String, Bool, true, false, ◌&&◌, Option, none, some, List, [], ◌∷◌, ◌==◌,
  ◌=text◌, if◌then◌else◌,
}

mutual
  -- A JSON value; `Items` is a list of values and `Fields` a `dict` with text keys.
  pub data Json : Type 0 where
    null : Json
    bool : Bool → Json
    int : ℤ → Json
    text : String → Json
    arr : Items → Json
    obj : Fields → Json

  pub data Items : Type 0 where
    nil : Items
    item : Json → Items → Items

  pub data Fields : Type 0 where
    end : Fields
    field : String → Json → Fields → Fields

-- `d.get(key)`
unfoldable pub get : String → Fields → Option Json
get key end = none
get key (field k v rest) = if k =text key then some v else get key rest

-- `isinstance(value, list) and all(isinstance(x, str) for x in value)`, with the texts.
unfoldable pub texts : Items → Option (List String)
texts nil = some []
texts (item (text s) rest) = elim (texts rest) [ none ↦ none | some ss ↦ some (s ∷ ss) ]
texts (item other rest) = none

-- A list of texts as a JSON array.
unfoldable pub text_items : List String → Items
text_items [] = nil
text_items (s ∷ ss) = item (text s) (text_items ss)

unfoldable pub optional_text : Option String → Json
optional_text none = null
optional_text (some s) = text s

abbrev int_eq : ℤ → ℤ → Bool
int_eq (pos m) (pos n) = m == n
int_eq (negsuc m) (negsuc n) = m == n
int_eq _ _ = false

abbrev bool_eq : Bool → Bool → Bool
bool_eq true b = b
bool_eq false true = false
bool_eq false false = true

abbrev count_fields : Fields → ℕ
count_fields end = 0
count_fields (field k v rest) = suc (count_fields rest)

-- `==` of two values: a `dict` is compared without the order of its keys.
unfoldable mutual
  pub json_eq : Json → Json → Bool
  json_eq null null = true
  json_eq (bool a) (bool b) = bool_eq a b
  json_eq (int a) (int b) = int_eq a b
  json_eq (text a) (text b) = a =text b
  json_eq (arr a) (arr b) = items_eq a b
  json_eq (obj a) (obj b) = count_fields a == count_fields b && fields_within a b
  json_eq _ _ = false

  items_eq : Items → Items → Bool
  items_eq nil nil = true
  items_eq (item a as') (item b bs) = json_eq a b && items_eq as' bs
  items_eq _ _ = false

  fields_within : Fields → Fields → Bool
  fields_within end b = true
  fields_within (field k v rest) b =
      elim (get k b) [ none ↦ false | some w ↦ json_eq v w ] && fields_within rest b
