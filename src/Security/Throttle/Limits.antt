-- ===== src/Security/Throttle/Limits.antt =====
-- How many requests of a tracker go on, for any sequence of arrival times.
use service_hub_backend.Base.{
  ℕ, ◌+◌, ◌≤◌, ◌<◌, ◌≡◌, refl, Bool, true, false, List, [], ◌∷◌, Option, none, some, arith, All,
  length, min,
}
use service_hub_backend.Security.Throttle.{
  Counter, no_requests, increment, incr, count_hit, AuthRateLimit, can_activate, requests, pexpire,
}

-- How many of the requests went on.
unfoldable pub passes : List Bool → ℕ
passes [] = 0
passes (true ∷ oks) = passes oks + 1
passes (false ∷ oks) = passes oks

abbrev pub counted : ℕ → ℕ → Option ℕ → Counter
counted n until block = record { hits = some (n, until); block = block }

passes-counted :
    (r : AuthRateLimit) (times : List ℕ) (n until : ℕ) (block : Option ℕ)
    → 0 < r.block_ms
    → 1 ≤ n
    → All (λ t. t ≤ until) times
    → passes (requests r times (counted n until block)).0 + min n r.limit ≤ r.limit
unfolding requests can_activate increment count_hit incr passes
passes-counted r [] n until block pos one h = omega arith
passes-counted r (now ∷ times) n until block pos one h = ground (
  arith,
  passes-counted r times n until block pos one h.1,
  passes-counted r times (n + 1) until block pos (omega arith) h.1,
  passes-counted r times (n + 1) until (some (now + r.block_ms)) pos (omega arith) h.1,
)

-- Of all the requests of a tracker in one window, at most `limit` go on: those that come, in any
-- number, up to `ttl` after the first, when nothing was counted before; provided that `ttl` and the
-- time of a block are positive.
pub passes_limit :
    (r : AuthRateLimit) (first : ℕ) (times : List ℕ)
    → 0 < r.block_ms
    → 0 < r.ttl_ms
    → All (λ t. t ≤ first + r.ttl_ms) times
    → passes (requests r (first ∷ times) no_requests).0 ≤ r.limit
unfolding requests can_activate increment count_hit incr passes pexpire
passes_limit r first times pos live h = ground (
  arith,
  passes-counted r times 1 (first + r.ttl_ms) none pos (omega arith) h,
  passes-counted r times 1 (first + r.ttl_ms) (some (first + r.block_ms)) pos (omega arith) h,
)

passes_spare :
    (r : AuthRateLimit) (times : List ℕ) (n until : ℕ)
    → 0 < r.ttl_ms
    → n + length times ≤ r.limit
    → 1 ≤ n
    → passes (requests r times (counted n until none)).0 ≡ length times
unfolding requests can_activate increment count_hit incr passes pexpire
passes_spare r [] n until pos h one = refl
passes_spare r (now ∷ times) n until pos h one = ground (
  arith,
  passes_spare r times (n + 1) until pos (omega arith) (omega arith),
  passes_spare r times 1 (now + r.ttl_ms) pos (omega arith) (omega arith),
)

-- Of at most `limit` requests of a tracker of which nothing is counted, all go on, whenever they
-- come.
pub passes_all :
    (r : AuthRateLimit) (times : List ℕ)
    → 0 < r.ttl_ms
    → length times ≤ r.limit
    → passes (requests r times no_requests).0 ≡ length times
unfolding requests can_activate increment count_hit incr passes pexpire
passes_all r [] pos h = refl
passes_all r (now ∷ times) pos h =
    ground (arith, passes_spare r times 1 (now + r.ttl_ms) pos (omega arith) (omega arith))

-- Whoever is blocked stays blocked to the end of the block, and what comes meanwhile neither
-- counts nor extends it.
pub requests_blocked :
    (r : AuthRateLimit) (c : Counter) (until : ℕ) (times : List ℕ)
    → c.block ≡ some until
    → All (λ t. t < until) times
    → (passes (requests r times c).0 ≡ 0) × ((requests r times c).1 ≡ c)
unfolding requests can_activate increment passes
requests_blocked r c until [] b h = (refl, refl)
requests_blocked r c until (now ∷ times) b h =
    ground (arith, requests_blocked r c until times b h.1)
