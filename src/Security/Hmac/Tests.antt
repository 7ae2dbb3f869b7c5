-- ===== src/Security/Hmac/Tests.antt =====
-- Runs of the signature checks.
use service_hub_backend.Base.{ℕ, ◌≡◌, refl, true, ◌∷◌, arith}
use service_hub_backend.Base.Text.{codes}
use service_hub_backend.Reliability.Json.{null}
use service_hub_backend.Security.Hmac.{Digest, SecureRpcRequest, create_request, verify_request}
use service_hub_backend.Security.Hmac.Window.{verify-create_request}

abbrev pub sample_digest : Digest
sample_digest secret m = 1 ∷ m

abbrev pub sample_request : ℕ → SecureRpcRequest
sample_request sent =
    create_request sample_digest sent (codes "r") (codes "gateway") (codes "k") null (codes "login")

verify-create_request_example :
    verify_request sample_digest 30100 (sample_request 100) (codes "k") ≡ true
verify-create_request_example =
    verify-create_request sample_digest 100 30100 (codes "r") (codes "gateway") (codes "k") null
      (codes "login") (λ m. refl) refl refl refl (omega arith) (omega arith)
