-- ===== src/Limiter/Scenarios.antt =====
-- Two requests in a window of ten: the third one of the same key is refused, and allowed later.
use context_vault.Prelude.{ℕ, ◌≡◌, refl, true, List, [], ◌∷◌, leb, ltb, count}
use context_vault.Limiter.Store.{allow}
use context_vault.Limiter.Window.{Request, run_requests, of_key, in_window, is_live}
use context_vault.Limiter.Laws.Requests.{run_requests_lem, allow_lem}

abbrev hit : ℕ → Request
hit t = record { key = "a"; at = t }

abbrev requests : List Request
requests = hit 1 ∷ hit 2 ∷ hit 3 ∷ (record { key = "b"; at = 4 }) ∷ hit 12 ∷ []

third_refused :
    (run_requests 2 10 requests ([], [])).1
    ≡ (hit 12 ∷ (record { key = "b"; at = 4 }) ∷ hit 2 ∷ hit 1 ∷ [])
unfolding run_requests allow
third_refused = refl

run_requests_lem_example :
    leb (count (of_key "a" (in_window 10 1)) (run_requests 2 10 requests ([], [])).1) 2 ≡ true
run_requests_lem_example =
    run_requests_lem 2 10 requests "a" 1 (refl, (refl, (refl, (refl, (refl, tt)))))

allow_lem_example :
    (allow "a" 2 10 13 (run_requests 2 10 requests ([], [])).0).0
    ≡ ltb (count (of_key "a" (is_live 10 13)) (run_requests 2 10 requests ([], [])).1) 2
allow_lem_example = allow_lem 2 10 requests (hit 13) (refl, (refl, (refl, (refl, (refl, tt))))) refl
