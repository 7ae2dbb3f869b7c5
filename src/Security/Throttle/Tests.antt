-- ===== src/Security/Throttle/Tests.antt =====
-- Runs of the rate limiter.
use service_hub_backend.Base.{◌≤◌, [], ◌∷◌, some, arith}
use service_hub_backend.Security.Throttle.{Counter, no_requests, default_auth_limit, requests}
use service_hub_backend.Security.Throttle.Limits.{passes, passes_limit}

abbrev blocked : Counter
blocked = record { hits = some (6, 60000); block = some 300005 }

passes_limit_example :
    passes (requests default_auth_limit (0 ∷ 1 ∷ 2 ∷ 3 ∷ 4 ∷ 5 ∷ 60000 ∷ []) no_requests).0 ≤ 5
passes_limit_example =
    passes_limit default_auth_limit 0 (1 ∷ 2 ∷ 3 ∷ 4 ∷ 5 ∷ 60000 ∷ []) (omega arith) (omega arith)
      (omega arith, (omega arith, (omega arith, (omega arith, (omega arith, (omega arith, tt))))))
