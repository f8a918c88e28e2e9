-- ===== src/Limiter/Laws/Sliding.antt =====
-- What the hits of a key say of the requests that the store has allowed, and that each step keeps it.
use context_vault.Prelude.{
  ℕ, ◌+◌, ◌≡◌, refl, ap, ◌∙◌, String, Bool, true, false, List, [], ◌∷◌, ◌++◌, arith, length, leb,
  count, one_if, All, Bool-cases, inl, inr, All-append,
}
use context_vault.Limiter.Store.{drop_expired}
use context_vault.Limiter.Window.{Request, of_key, in_window}
use context_vault.Limiter.Laws.Hits.{
  text_refl, count-append, count-length, IsOrdered, further, All-weaken, IsOrdered-weaken,
  drop_expired-split, drop_expired-IsOrdered, drop_expired-length,
}

-- The hits of a key stand for what the store has allowed: all but `gone`, which is expired.
pub record IsKept (limit window : ℕ) (key : String) (last : ℕ) (history : List Request)
    (hits : List ℕ) : Type 0 where
  pub gone : List ℕ
  pub old : All (λ g. leb (g + window) last ≡ true) gone
  pub balance :
      (test : ℕ → Bool) → count (of_key key test) history ≡ count test gone + count test hits
  pub short : leb (length hits) limit ≡ true
  pub ordered : IsOrdered last hits
  pub bounded : (start : ℕ) → leb (count (of_key key (in_window window start)) history) limit ≡ true

module _ (limit window : ℕ) (key : String) where
  pub later-IsKept :
      (last now : ℕ) (history : List Request) (hits : List ℕ)
      → leb last now ≡ true
      → IsKept limit window key last history hits
      → IsKept limit window key now history hits
  later-IsKept last now history hits h k = record {
    gone = k.gone;
    old = All-weaken last now window k.gone h k.old;
    balance = k.balance;
    short = k.short;
    ordered = IsOrdered-weaken last now hits h k.ordered;
    bounded = k.bounded;
  }

  pub dropped-IsKept :
      (now : ℕ) (history : List Request) (hits : List ℕ)
      → IsKept limit window key now history hits
      → IsKept limit window key now history (drop_expired window now hits)
  dropped-IsKept now history hits k =
      let (gone, old, balance) = drop_expired-split window now hits in
      record {
        gone = k.gone ++ gone;
        old = All-append (λ g. leb (g + window) now ≡ true) k.gone gone k.old old;
        balance = λ test.
            let before = k.balance test in
            let split = balance test in let joined = count-append test k.gone gone in omega arith;
        short =
            further (length (drop_expired window now hits)) (length hits) limit
              (drop_expired-length window now hits) k.short;
        ordered = drop_expired-IsOrdered window now now hits k.ordered;
        bounded = k.bounded;
      }

  -- Of expired hits, none is in a window that has not ended.
  none_in_window :
      (now start : ℕ) (gone : List ℕ)
      → All (λ g. leb (g + window) now ≡ true) gone
      → in_window window start now ≡ true
      → count (in_window window start) gone ≡ 0
  none_in_window now start [] old h = refl
  none_in_window now start (g ∷ rest) old h =
      let later = none_in_window now start rest old.1 h in
      let out = outside g start old.0 h in rw out (omega arith)
    where
      outside :
          (g start : ℕ)
          → leb (g + window) now ≡ true
          → in_window window start now ≡ true
          → in_window window start g ≡ false
      outside g start k m = ground arith

  snoc-IsOrdered :
      (now : ℕ) (hits : List ℕ) → IsOrdered now hits → IsOrdered now (hits ++ (now ∷ []))
  snoc-IsOrdered now [] o = (same now, tt, tt)
    where
      same : (n : ℕ) → leb n n ≡ true
      same n = ground arith
  snoc-IsOrdered now (x ∷ xs) o =
      (o.0, All-append (λ y. leb x y ≡ true) xs (now ∷ []) o.1 (o.0, tt), snoc-IsOrdered now xs o.2)

  length-snoc : (xs : List ℕ) (x : ℕ) → length (xs ++ (x ∷ [])) ≡ length xs + 1
  length-snoc [] x = omega arith
  length-snoc (y ∷ ys) x = let more = length-snoc ys x in omega arith

  own :
      (test : ℕ → Bool) (now : ℕ)
      → one_if (of_key key test (record { key = key; at = now })) ≡ one_if (test now)
  own test now = rw (text_refl key) refl

  pub added-IsKept :
      (now : ℕ) (history : List Request) (hits : List ℕ)
      → leb limit (length hits) ≡ false
      → IsKept limit window key now history hits
      → IsKept limit window key now
          ((record { key = key; at = now }) ∷ history)
          (hits ++ (now ∷ []))
  added-IsKept now history hits room k = record {
    gone = k.gone;
    old = k.old;
    balance = λ test.
        let before = k.balance test in
        let mine = own test now in let joined = count-append test hits (now ∷ []) in omega arith;
    short = rw (length-snoc hits now) (fits (length hits) room);
    ordered = snoc-IsOrdered now hits k.ordered;
    bounded = λ start.
        let mine = own (in_window window start) now in
        let before = k.balance (in_window window start) in
        elim (Bool-cases (in_window window start now)) [
          | inl inside ↦
              let none_old = none_in_window now start k.gone k.old inside in
              let few = count-length (in_window window start) hits in
              let one : one_if
                    (of_key key (in_window window start) (record { key = key; at = now }))
                  ≡ 1 =
                mine ∙ ap one_if inside in
              within _ _ _ _ (length hits) one before none_old few room
          | inr outside ↦
              let none_new : one_if
                    (of_key key (in_window window start) (record { key = key; at = now }))
                  ≡ 0 =
                mine ∙ ap one_if outside in
              unchanged _ _ none_new (k.bounded start)
        ];
  }
    where
      fits : (n : ℕ) → leb limit n ≡ false → leb (n + 1) limit ≡ true
      fits n h = ground arith

      within :
          (a c g h n : ℕ)
          → a ≡ 1
          → c ≡ g + h
          → g ≡ 0
          → leb h n ≡ true
          → leb limit n ≡ false
          → leb (a + c) limit ≡ true
      within a c g h n e f z l r = ground arith

      unchanged : (a c : ℕ) → a ≡ 0 → leb c limit ≡ true → leb (a + c) limit ≡ true
      unchanged a c e h = ground arith
