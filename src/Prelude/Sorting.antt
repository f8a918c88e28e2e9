-- ===== src/Prelude/Sorting.antt =====
-- A stable sort by a Boolean order, for the rows and values that the program reads in order.
use mathlib.Core.Path.{◌≡◌}
use mathlib.Core.Bool.{Bool}
use mathlib.Core.Logic.{inl, inr}
use mathlib.Core.List.{List, [], ◌∷◌, Memᴰ}
use context_vault.Prelude.Tests.{if◌then◌else◌, Bool-cases}
use context_vault.Prelude.Lists.{All}

module _ {A : Type 0} (before : A → A → Bool) where
  unfoldable pub insert_by : A → List A → List A
  insert_by x [] = x ∷ []
  insert_by x (y ∷ rest) =
      let later = insert_by x rest in if before x y then x ∷ y ∷ rest else y ∷ later

  unfoldable pub sort_by : List A → List A
  unfolding insert_by
  sort_by [] = []
  sort_by (x ∷ rest) = insert_by x (sort_by rest)

  pub All-insert_by :
      (P : A → Type 0) (x : A) (xs : List A) → P x → All P xs → All P (insert_by x xs)
  unfolding insert_by
  All-insert_by P x [] p h = (p, tt)
  All-insert_by P x (y ∷ rest) p h = elim (Bool-cases (before x y)) [
    | inl first ↦ rw first (p, h)
    | inr later ↦ rw later (h.0, All-insert_by P x rest p h.1)
  ]

  pub All-sort_by : (P : A → Type 0) (xs : List A) → All P xs → All P (sort_by xs)
  unfolding sort_by
  All-sort_by P [] h = tt
  All-sort_by P (x ∷ rest) h = All-insert_by P x (sort_by rest) h.0 (All-sort_by P rest h.1)

  Mem-insert_by : (x y : A) (xs : List A) → y ≡ x → Memᴰ y (insert_by x xs)
  unfolding insert_by
  Mem-insert_by x y [] same = Memᴰ.head same
  Mem-insert_by x y (z ∷ rest) same = elim (Bool-cases (before x z)) [
    | inl first ↦ rw first (Memᴰ.head same)
    | inr later ↦ rw later (Memᴰ.tail (Mem-insert_by x y rest same))
  ]

  insert_by-Mem : (x y : A) (xs : List A) → Memᴰ y xs → Memᴰ y (insert_by x xs)
  unfolding insert_by
  insert_by-Mem x y [] m = elim m [ ]
  insert_by-Mem x y (z ∷ rest) (Memᴰ.head same) = elim (Bool-cases (before x z)) [
    | inl first ↦ rw first (Memᴰ.tail (Memᴰ.head same))
    | inr later ↦ rw later (Memᴰ.head same)
  ]
  insert_by-Mem x y (z ∷ rest) (Memᴰ.tail m) = elim (Bool-cases (before x z)) [
    | inl first ↦ rw first (Memᴰ.tail (Memᴰ.tail m))
    | inr later ↦ rw later (Memᴰ.tail (insert_by-Mem x y rest m))
  ]

  -- Sorting loses nothing.
  pub Mem-sort_by : (x : A) (xs : List A) → Memᴰ x xs → Memᴰ x (sort_by xs)
  unfolding sort_by
  Mem-sort_by x [] m = m
  Mem-sort_by x (y ∷ rest) (Memᴰ.head same) = Mem-insert_by y x (sort_by rest) same
  Mem-sort_by x (y ∷ rest) (Memᴰ.tail m) = insert_by-Mem y x (sort_by rest) (Mem-sort_by x rest m)
