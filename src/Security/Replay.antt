-- ===== src/Security/Replay.antt =====
-- libs/common/src/security/replay-protection.service.ts: `SET key 1 EX 30 NX` on the Redis cache.
use service_hub_backend.Base.{
  ℕ, ◌+◌, Bool, true, false, ◌&&◌, List, ◌∷◌, ◌++◌, leb, any, if◌then◌else◌,
}
use service_hub_backend.Base.Text.{Text, codes, text_eq}

-- The keys with the last millisecond at which they are there.
abbrev pub RedisKeys : Type 0
RedisKeys = List (Text × ℕ)

abbrev pub ttl_ms : ℕ
ttl_ms = 30000

unfoldable pub is_live : ℕ → Text → Text × ℕ → Bool
is_live now key (k, until) = text_eq k key && leb now until

unfoldable pub request_key : Text → Text
request_key request_id = codes "hmac:request:" ++ request_id

-- Whether the call may go on, and the keys. Where Redis is not ready, fails or is slow
-- (`is_up` is false) the check is skipped.
unfoldable pub check : Bool → ℕ → Text → RedisKeys → Bool × RedisKeys
unfolding request_key is_live
check false now request_id keys = (true, keys)
check true now request_id keys =
    if any (is_live now (request_key request_id)) keys
    then (false, keys)
    else (true, (request_key request_id, now + ttl_ms) ∷ keys)
