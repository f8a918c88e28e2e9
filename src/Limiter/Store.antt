-- ===== src/Limiter/Store.antt =====
-- infrastructure/rate_limiter.py: `SlidingWindowStore` and `RateLimiter.__call__`. The clock's readings
-- are natural numbers; `now - hit >= window` is written as a sum. The key of a request is given.
use context_vault.Prelude.{
  ℕ, ◌+◌, String, Bool, true, false, Option, none, some, List, [], ◌∷◌, ◌++◌, length, leb, ◌=text◌,
  if◌then◌else◌,
}

-- The hits of each key, oldest first.
abbrev pub Buckets : Type 0
Buckets = List (String × List ℕ)

-- `self._buckets[key]` of a `defaultdict(deque)`
abbrev pub hits_of : String → Buckets → List ℕ
hits_of key [] = []
hits_of key ((k, hits) ∷ rest) = if k =text key then hits else hits_of key rest

unfoldable pub put_hits : String → List ℕ → Buckets → Buckets
put_hits key hits [] = (key, hits) ∷ []
put_hits key hits ((k, old) ∷ rest) =
    let later = put_hits key hits rest in
    if k =text key then (key, hits) ∷ rest else (k, old) ∷ later

-- The loop that drops the expired hits in front.
unfoldable pub drop_expired : (window now : ℕ) → List ℕ → List ℕ
drop_expired window now [] = []
drop_expired window now (hit ∷ rest) =
    let later = drop_expired window now rest in if leb (hit + window) now then later else hit ∷ rest

-- `SlidingWindowStore.allow`
unfoldable pub allow : (key : String) (limit window now : ℕ) → Buckets → Bool × Buckets
unfolding drop_expired put_hits
allow key limit window now buckets =
    let hits = drop_expired window now (hits_of key buckets) in
    if leb limit (length hits)
    then (false, put_hits key hits buckets)
    else (true, put_hits key (hits ++ (now ∷ [])) buckets)

pub data Answer : Type 0 where
  passed unavailable too_many : Answer

-- `RateLimiter.__call__`: `none` is a store that raises.
unfoldable pub answer : (enabled : Bool) → (allowed : Option Bool) → Answer
answer false allowed = passed
answer true none = unavailable
answer true (some false) = too_many
answer true (some true) = passed
