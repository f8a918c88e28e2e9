-- ===== src/Limiter/Laws/Hits.antt =====
-- The hits of a key: after a write, in order, and with the expired ones dropped.
use context_vault.Prelude.{
  ℕ, suc, ◌+◌, ◌≡◌, refl, String, Bool, true, false, List, [], ◌∷◌, ◌++◌, arith, length, leb, ltb,
  count, one_if, All, ◌=text◌, Bool-cases, inl, inr, eq_iff,
}
use context_vault.Limiter.Store.{Buckets, hits_of, put_hits, drop_expired}
use context_vault.Limiter.Window.{is_live}

pub text_same : (a b : String) → (a =text b) ≡ true → a ≡ b
text_same a b h = ground (arith, eq_iff a b)

pub text_refl : (a : String) → (a =text a) ≡ true
text_refl a = ground (arith, eq_iff a a)

pub hits_of-put_hits :
    (key : String) (hits : List ℕ) (b : Buckets) → hits_of key (put_hits key hits b) ≡ hits
unfolding put_hits
hits_of-put_hits key hits [] = rw (text_refl key) refl
hits_of-put_hits key hits ((k, old) ∷ rest) = elim (Bool-cases (k =text key)) [
  | inl same ↦ rw same (rw (text_refl key) refl)
  | inr other ↦ rw other (rw other (hits_of-put_hits key hits rest))
]

pub hits_of-other :
    (key other : String) (hits : List ℕ) (b : Buckets)
    → (other =text key) ≡ false
    → hits_of key (put_hits other hits b) ≡ hits_of key b
unfolding put_hits
hits_of-other key other hits [] apart = rw apart refl
hits_of-other key other hits ((k, old) ∷ rest) apart = elim (Bool-cases (k =text other)) [
  | inl same ↦ rw same (rw apart (rw (text_same k other same) (rw apart refl)))
  | inr differ ↦ rw differ (elim (Bool-cases (k =text key)) [
    | inl mine ↦ rw mine refl
    | inr not_mine ↦ rw not_mine (hits_of-other key other hits rest apart)
  ])
]

pub count-append :
    (test : ℕ → Bool) (xs ys : List ℕ) → count test (xs ++ ys) ≡ count test xs + count test ys
count-append test [] ys = omega arith
count-append test (x ∷ xs) ys = let later = count-append test xs ys in omega arith

pub count-length : (test : ℕ → Bool) (xs : List ℕ) → leb (count test xs) (length xs) ≡ true
count-length test [] = refl
count-length test (x ∷ xs) = let later = count-length test xs in shorter (test x) _ _ later
  where
    shorter : (b : Bool) (n m : ℕ) → leb n m ≡ true → leb (one_if b + n) (suc m) ≡ true
    shorter true n m h = ground arith
    shorter false n m h = ground arith

-- Hits that are in order, none later than `last`.
abbrev pub IsOrdered : ℕ → List ℕ → Type 0
IsOrdered last [] = Unit
IsOrdered last (x ∷ xs) = (leb x last ≡ true) × All (λ y. leb x y ≡ true) xs × IsOrdered last xs

pub further : (a b c : ℕ) → leb a b ≡ true → leb b c ≡ true → leb a c ≡ true
further a b c h k = ground arith

pub All-weaken :
    (last now window : ℕ) (xs : List ℕ)
    → leb last now ≡ true
    → All (λ g. leb (g + window) last ≡ true) xs
    → All (λ g. leb (g + window) now ≡ true) xs
All-weaken last now window [] h a = tt
All-weaken last now window (x ∷ xs) h a =
    (further (x + window) last now a.0 h, All-weaken last now window xs h a.1)

pub IsOrdered-weaken :
    (last now : ℕ) (xs : List ℕ) → leb last now ≡ true → IsOrdered last xs → IsOrdered now xs
IsOrdered-weaken last now [] h o = tt
IsOrdered-weaken last now (x ∷ xs) h o =
    (further x last now o.0 h, o.1, IsOrdered-weaken last now xs h o.2)

-- Dropping takes expired hits off the front; in order, the hits that are left are live.
pub drop_expired-split :
    (window now : ℕ) (hits : List ℕ)
    → (gone : List ℕ) × All (λ g. leb (g + window) now ≡ true) gone
      × ((test : ℕ → Bool)
          → count test hits ≡ count test gone + count test (drop_expired window now hits))
unfolding drop_expired
drop_expired-split window now [] = ([], tt, λ test. refl)
drop_expired-split window now (x ∷ xs) = elim (Bool-cases (leb (x + window) now)) [
  | inl old ↦
      let (gone, all_old, balance) = drop_expired-split window now xs in
      (x ∷ gone, (old, all_old), λ test. let later = balance test in rw old (omega arith))
  | inr live ↦ ([], tt, λ test. rw live (omega arith))
]

pub drop_expired-IsOrdered :
    (window now last : ℕ) (hits : List ℕ)
    → IsOrdered last hits
    → IsOrdered last (drop_expired window now hits)
unfolding drop_expired
drop_expired-IsOrdered window now last [] o = tt
drop_expired-IsOrdered window now last (x ∷ xs) o = elim (Bool-cases (leb (x + window) now)) [
  | inl old ↦ rw old (drop_expired-IsOrdered window now last xs o.2)
  | inr live ↦ rw live o
]

pub drop_expired-length :
    (window now : ℕ) (hits : List ℕ)
    → leb (length (drop_expired window now hits)) (length hits) ≡ true
unfolding drop_expired
drop_expired-length window now [] = refl
drop_expired-length window now (x ∷ xs) = elim (Bool-cases (leb (x + window) now)) [
  | inl old ↦ let later = drop_expired-length window now xs in rw old (longer _ _ later)
  | inr live ↦ rw live (same (length xs))
]
  where
    longer : (n m : ℕ) → leb n m ≡ true → leb n (suc m) ≡ true
    longer n m h = ground arith

    same : (n : ℕ) → leb (suc n) (suc n) ≡ true
    same n = ground arith

pub live_after :
    (window now x : ℕ) (xs : List ℕ)
    → leb (x + window) now ≡ false
    → All (λ y. leb x y ≡ true) xs
    → All (λ y. is_live window now y ≡ true) xs
live_after window now x [] h a = tt
live_after window now x (y ∷ ys) h a = (still x y h a.0, live_after window now x ys h a.1)
  where
    still : (x y : ℕ) → leb (x + window) now ≡ false → leb x y ≡ true → ltb now (y + window) ≡ true
    still x y h k = ground arith

pub drop_expired-live :
    (window now last : ℕ) (hits : List ℕ)
    → IsOrdered last hits
    → All (λ y. is_live window now y ≡ true) (drop_expired window now hits)
unfolding drop_expired
drop_expired-live window now last [] o = tt
drop_expired-live window now last (x ∷ xs) o = elim (Bool-cases (leb (x + window) now)) [
  | inl old ↦ rw old (drop_expired-live window now last xs o.2)
  | inr live ↦ rw live (not_old (x + window) live, live_after window now x xs live o.1)
]
  where
    not_old : (e : ℕ) → leb e now ≡ false → ltb now e ≡ true
    not_old e h = ground arith
