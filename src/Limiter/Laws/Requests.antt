-- ===== src/Limiter/Laws/Requests.antt =====
-- Over any sequence of requests, a store allows at most the limit in a window, and exactly as a log would.
use context_vault.Prelude.{
  ℕ, ◌+◌, ◌≡◌, refl, sym, ap, ◌∙◌, String, Bool, true, false, not, List, [], ◌∷◌, ◌++◌, arith,
  length, leb, ltb, count, one_if, All, ◌=text◌, Bool-cases, inl, inr,
}
use context_vault.Limiter.Store.{Buckets, hits_of, drop_expired, allow}
use context_vault.Limiter.Window.{
  Request, recorded, run_requests, IsMonotone, last_of, of_key, in_window, is_live,
}
use context_vault.Limiter.Laws.Hits.{text_same, hits_of-put_hits, hits_of-other, drop_expired-live}
use context_vault.Limiter.Laws.Sliding.{IsKept, later-IsKept, dropped-IsKept, added-IsKept}

module _ (limit window : ℕ) where
  abbrev AllKept : ℕ → Buckets → List Request → Type 0
  AllKept last buckets history =
      (key : String) → IsKept limit window key last history (hits_of key buckets)

  other-IsKept :
      (key : String) (request : Request) (history : List Request) (hits : List ℕ)
      → (request.key =text key) ≡ false
      → IsKept limit window key request.at history hits
      → IsKept limit window key request.at (request ∷ history) hits
  other-IsKept key request history hits apart k = record {
    gone = k.gone;
    old = k.old;
    balance = λ test. let none_new = foreign test in let before = k.balance test in omega arith;
    short = k.short;
    ordered = k.ordered;
    bounded = λ start. unchanged _ _ (foreign (in_window window start)) (k.bounded start);
  }
    where
      foreign : (test : ℕ → Bool) → one_if (of_key key test request) ≡ 0
      foreign test = rw apart refl

      unchanged : (a c : ℕ) → a ≡ 0 → leb c limit ≡ true → leb (a + c) limit ≡ true
      unchanged a c e h = ground arith

  -- The request's own key, whether it is allowed or not.
  allow-own :
      (request : Request) (buckets : Buckets) (history : List Request)
      → IsKept limit window request.key request.at history (hits_of request.key buckets)
      → (let step : Bool × Buckets = allow request.key limit window request.at buckets in
          IsKept limit window request.key request.at
            (recorded limit window step.0 request history)
            (hits_of request.key step.1))
  unfolding allow
  allow-own request buckets history k =
      let hits = drop_expired window request.at (hits_of request.key buckets) in
      let kept =
        dropped-IsKept limit window request.key request.at history (hits_of request.key buckets)
          k in
      elim (Bool-cases (leb limit (length hits))) [
        | inl full ↦ rw full (rw (hits_of-put_hits request.key hits buckets) kept)
        | inr room ↦ rw room (
            rw (hits_of-put_hits request.key (hits ++ (request.at ∷ [])) buckets)
              (added-IsKept limit window request.key request.at history hits room kept))
      ]

  allow-foreign :
      (key : String) (request : Request) (buckets : Buckets) (history : List Request)
      → (request.key =text key) ≡ false
      → IsKept limit window key request.at history (hits_of key buckets)
      → (let step : Bool × Buckets = allow request.key limit window request.at buckets in
          IsKept limit window key request.at
            (recorded limit window step.0 request history)
            (hits_of key step.1))
  unfolding allow
  allow-foreign key request buckets history apart k =
      let hits = drop_expired window request.at (hits_of request.key buckets) in
      elim (Bool-cases (leb limit (length hits))) [
        | inl full ↦ rw full (rw (hits_of-other key request.key hits buckets apart) k)
        | inr room ↦ rw room (
            rw (hits_of-other key request.key (hits ++ (request.at ∷ [])) buckets apart)
              (other-IsKept key request history (hits_of key buckets) apart k))
      ]

  allow-AllKept :
      (last : ℕ) (request : Request) (buckets : Buckets) (history : List Request)
      → leb last request.at ≡ true
      → AllKept last buckets history
      → (let step : Bool × Buckets = allow request.key limit window request.at buckets in
          AllKept request.at step.1 (recorded limit window step.0 request history))
  allow-AllKept last request buckets history h kept key =
      let now =
        later-IsKept limit window key last request.at history (hits_of key buckets) h (kept key) in
      elim (Bool-cases (request.key =text key)) [
        | inl same ↦
            let eq : request.key ≡ key = text_same request.key key same in
            rw (← eq) (
              allow-own request buckets history (
                later-IsKept limit window request.key last request.at history
                  (hits_of request.key buckets) h (kept request.key)))
        | inr apart ↦ allow-foreign key request buckets history apart now
      ]

  run-AllKept :
      (requests : List Request) (last : ℕ) (buckets : Buckets) (history : List Request)
      → IsMonotone last requests
      → AllKept last buckets history
      → (let end : Buckets × List Request = run_requests limit window requests (buckets, history) in
          AllKept (last_of last requests) end.0 end.1)
  unfolding run_requests
  run-AllKept [] last buckets history m kept = kept
  run-AllKept (request ∷ rest) last buckets history m kept =
      let step : Bool × Buckets = allow request.key limit window request.at buckets in
      run-AllKept rest request.at step.1 (recorded limit window step.0 request history) m.1
        (allow-AllKept last request buckets history m.0 kept)

  empty-AllKept : AllKept 0 [] []
  empty-AllKept key = record {
    gone = [];
    old = tt;
    balance = λ test. refl;
    short = least limit;
    ordered = tt;
    bounded = λ start. least limit;
  }
    where
      least : (n : ℕ) → leb 0 n ≡ true
      least n = ground arith

-- With a clock that does not go back, whatever requests of whatever keys come, at most `limit` of the
-- allowed requests of a key lie in any window `[start, start + window)`.
pub run_requests_lem :
    (limit window : ℕ) (requests : List Request) (key : String) (start : ℕ)
    → IsMonotone 0 requests
    → leb
        (count
          (of_key key (in_window window start))
          (run_requests limit window requests ([], [])).1)
        limit
      ≡ true
run_requests_lem limit window requests key start m =
    IsKept.bounded (run-AllKept limit window requests 0 [] [] m (empty-AllKept limit window) key)
      start

-- With a clock that does not go back, after any requests the next one is allowed exactly if fewer than
-- `limit` requests of its key were allowed less than a window ago: the dropping of expired hits makes no
-- difference to counting over everything that was ever allowed.
pub allow_lem :
    (limit window : ℕ) (requests : List Request) (next : Request)
    → IsMonotone 0 requests
    → leb (last_of 0 requests) next.at ≡ true
    → (allow next.key limit window next.at (run_requests limit window requests ([], [])).0).0
      ≡ ltb
          (count
            (of_key next.key (is_live window next.at))
            (run_requests limit window requests ([], [])).1)
          limit
unfolding allow
allow_lem limit window requests next m h =
    let end = run_requests limit window requests ([], []) in
    let kept = run-AllKept limit window requests 0 [] [] m (empty-AllKept limit window) next.key in
    let now =
      later-IsKept limit window next.key (last_of 0 requests) next.at end.1 (hits_of next.key end.0)
        h kept in
    let hits = drop_expired window next.at (hits_of next.key end.0) in
    let left = dropped-IsKept limit window next.key next.at end.1 (hits_of next.key end.0) now in
    let live =
      all_count (is_live window next.at) hits
        (drop_expired-live window next.at next.at (hits_of next.key end.0) now.ordered) in
    let counted =
      decided (length hits) _ _ _ (left.balance (is_live window next.at))
        (none_live left.gone left.old) live in
    elim (Bool-cases (leb limit (length hits))) [
      | inl full ↦ rw full (sym (counted ∙ ap not full))
      | inr room ↦ rw room (sym (counted ∙ ap not room))
    ]
  where
    all_count :
        (test : ℕ → Bool) (xs : List ℕ) → All (λ y. test y ≡ true) xs → count test xs ≡ length xs
    all_count test [] a = refl
    all_count test (x ∷ xs) a = let later = all_count test xs a.1 in rw a.0 (omega arith)

    none_live :
        (gone : List ℕ)
        → All (λ g. leb (g + window) next.at ≡ true) gone
        → count (is_live window next.at) gone ≡ 0
    none_live [] old = refl
    none_live (g ∷ rest) old = let later = none_live rest old.1 in rw (dead g old.0) (omega arith)
      where
        dead : (g : ℕ) → leb (g + window) next.at ≡ true → is_live window next.at g ≡ false
        dead g k = ground arith

    decided :
        (n all old new : ℕ)
        → all ≡ old + new
        → old ≡ 0
        → new ≡ n
        → ltb all limit ≡ not (leb limit n)
    decided n all old new e z l = ground arith
