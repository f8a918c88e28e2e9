-- ===== src/Prelude/Lists.antt =====
-- Lists as the tables and collections of the program.
use Prim.Native.Nat.{ℕ, suc, ◌+◌}
use mathlib.Core.Path.{◌≡◌}
use mathlib.Core.Logic.{inl, inr}
use mathlib.Core.Bool.{Bool, true, false, ◌&&◌, ◌||◌}
use mathlib.Core.Option.{Option, none, some}
use mathlib.Core.List.{List, [], ◌∷◌, ◌++◌, Memᴰ}
use native.Mathlib.Omega.{arith}
use context_vault.Prelude.Tests.{if◌then◌else◌, Bool-cases}

module _ {ℓ} {A : Type ℓ} where
  abbrev pub length : List A → ℕ
  length [] = 0
  length (x ∷ xs) = suc (length xs)

  -- `[x for x in xs if test(x)]`
  abbrev pub select : (A → Bool) → List A → List A
  select test [] = []
  select test (x ∷ xs) = let rest = select test xs in if test x then x ∷ rest else rest

  -- `any(test(x) for x in xs)`
  abbrev pub any : (A → Bool) → List A → Bool
  any test [] = false
  any test (x ∷ xs) = test x || any test xs

  -- `all(test(x) for x in xs)`
  abbrev pub all : (A → Bool) → List A → Bool
  all test [] = true
  all test (x ∷ xs) = test x && all test xs

  abbrev pub is_empty : List A → Bool
  is_empty [] = true
  is_empty (x ∷ xs) = false

  -- The first element that passes.
  abbrev pub find : (A → Bool) → List A → Option A
  find test [] = none
  find test (x ∷ xs) = if test x then some x else find test xs

-- Every element of the list meets the predicate.
module _ {ℓ κ} {A : Type ℓ} (P : A → Type κ) where
  abbrev pub All : List A → Type κ
  All [] = Unit
  All (x ∷ xs) = P x × All xs

module _ {ℓ κ} {A : Type ℓ} (P : A → Type κ) where
  pub All-append : (xs ys : List A) → All P xs → All P ys → All P (xs ++ ys)
  All-append [] ys hx hy = hy
  All-append (x ∷ xs) ys hx hy = (hx.0, All-append xs ys hx.1 hy)

  pub All-find : (test : A → Bool) (xs : List A) (a : A) → All P xs → find test xs ≡ some a → P a
  All-find test [] a h e = cc
  All-find test (x ∷ xs) a h e = ground (arith, All-find test xs a h.1)

-- A member that passes is selected.
pub Mem-select :
    {A : Type 0} (test : A → Bool) (xs : List A) (a : A)
    → Memᴰ a xs
    → test a ≡ true
    → Memᴰ a (select test xs)
Mem-select test [] a m passes = elim m [ ]
Mem-select test (x ∷ xs) a (Memᴰ.head same) passes =
    let here : test x ≡ true = rw (← same) passes in rw here (Memᴰ.head same)
Mem-select test (x ∷ xs) a (Memᴰ.tail m) passes = elim (Bool-cases (test x)) [
  | inl kept ↦ rw kept (Memᴰ.tail (Mem-select test xs a m passes))
  | inr dropped ↦ rw dropped (Mem-select test xs a m passes)
]

pub All-Mem : {A : Type 0} (P : A → Type 0) (xs : List A) (a : A) → All P xs → Memᴰ a xs → P a
All-Mem P [] a h m = elim m [ ]
All-Mem P (x ∷ xs) a h (Memᴰ.head same) = rw same h.0
All-Mem P (x ∷ xs) a h (Memᴰ.tail m) = All-Mem P xs a h.1 m

-- What is selected passes.
pub All-select :
    {A : Type 0} (test : A → Bool) (xs : List A) → All (λ y. test y ≡ true) (select test xs)
All-select test [] = tt
All-select test (x ∷ xs) = elim (Bool-cases (test x)) [
  | inl passes ↦ rw passes (passes, All-select test xs)
  | inr fails ↦ rw fails (All-select test xs)
]

abbrev pub one_if : Bool → ℕ
one_if true = 1
one_if false = 0

-- How many elements pass.
abbrev pub count : {A : Type 0} → (A → Bool) → List A → ℕ
count test [] = 0
count test (x ∷ xs) = one_if (test x) + count test xs
