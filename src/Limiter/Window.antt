-- ===== src/Limiter/Window.antt =====
-- A sequence of requests to a store, and the requests that it has allowed, latest first.
use context_vault.Prelude.{
  ℕ, ◌+◌, String, Bool, true, false, ◌&&◌, ◌≡◌, List, [], ◌∷◌, leb, ltb, ◌=text◌,
}
use context_vault.Limiter.Store.{Buckets, allow}

-- A request: its key, and the clock's reading.
pub record Request : Type 0 where
  pub key : String
  pub at : ℕ

module _ (limit window : ℕ) where
  abbrev pub recorded : Bool → Request → List Request → List Request
  recorded true request history = request ∷ history
  recorded false request history = history

  unfoldable pub run_requests : List Request → Buckets × List Request → Buckets × List Request
  unfolding allow
  run_requests [] state = state
  run_requests (request ∷ rest) (buckets, history) =
      let (allowed, next) = allow request.key limit window request.at buckets in
      run_requests rest (next, recorded allowed request history)

-- The clock does not go back.
abbrev pub IsMonotone : (last : ℕ) → List Request → Type 0
IsMonotone last [] = Unit
IsMonotone last (request ∷ rest) = (leb last request.at ≡ true) × IsMonotone request.at rest

-- The reading of the clock at the last request.
abbrev pub last_of : ℕ → List Request → ℕ
last_of last [] = last
last_of last (request ∷ rest) = last_of request.at rest

-- The requests of a key whose time passes a test.
abbrev pub of_key : String → (ℕ → Bool) → Request → Bool
of_key key test request = request.key =text key && test request.at

-- From `start`, before `start + window`.
abbrev pub in_window : (window start : ℕ) → ℕ → Bool
in_window window start t = leb start t && ltb t (start + window)

-- Less than a window before `now`.
abbrev pub is_live : (window now : ℕ) → ℕ → Bool
is_live window now t = ltb now (t + window)
