-- ===== src/Security/Guard.antt =====
-- libs/common/src/guards/hmac.guard.ts, on calls of the type `rpc`.
pub mod Replays
pub mod Bypass
pub mod Trust
mod Tests
use service_hub_backend.Base.{
  ℕ, Bool, true, false, not, ◌&&◌, ◌||◌, List, [], ◌∷◌, Option, none, some, if◌then◌else◌,
}
use service_hub_backend.Base.Text.{Text, text_eq, is_empty}
use service_hub_backend.Reliability.Json.{Json}
use service_hub_backend.Security.Hmac.{Digest, Meta, SecureRpcRequest, verify_request}
use service_hub_backend.Security.Replay.{RedisKeys, check}

-- A message, as far as the guard looks at it.
pub record Message : Type 0 where
  pub spec_version : Option Text
  pub event_type : Option Text
  pub meta : Option Meta
  pub payload : Option Json

-- `SERVICE_CREDENTIAL_ENVS` with the values of its variables: name and secret.
abbrev pub Credentials : Type 0
Credentials = List (Option Text × Option Text)

-- The handler gets the whole message or its payload; or the guard throws with a status code.
pub data Verdict : Type 0 where
  whole : Verdict
  passed : Json → Verdict
  denied : ℕ → Verdict

abbrev pub is_set : Option Text → Bool
is_set none = false
is_set (some s) = not (is_empty s)

named : Text → Option Text → Bool
named service none = false
named service (some name) = text_eq name service

pub get_secret : Text → Credentials → Option Text
unfolding named
get_secret service [] = none
get_secret service ((name, secret) ∷ rest) =
    if named service name then secret else get_secret service rest

-- The guard's surroundings: the digest, the environment, its clock, and whether Redis answers.
pub record Surroundings : Type 0 where
  pub digest : Digest
  pub credentials : Credentials
  pub now : ℕ
  pub is_up : Bool

admit : Bool × RedisKeys → Json → Verdict × RedisKeys
admit (true, keys) payload = (passed payload, keys)
admit (false, keys) payload = (denied 429, keys)

check_signed : Surroundings → Meta → Json → Option Text → RedisKeys → Verdict × RedisKeys
unfolding admit
check_signed s m payload none keys = (denied 401, keys)
check_signed s m payload (some secret) keys =
    if is_empty secret
    then (denied 401, keys)
    else if verify_request s.digest s.now (record { meta = m; payload = payload }) secret
    then admit (check s.is_up s.now m.request_id keys) payload
    else (denied 401, keys)

check_envelope : Surroundings → Option Meta → Option Json → RedisKeys → Verdict × RedisKeys
unfolding check_signed
check_envelope s none payload keys = (denied 400, keys)
check_envelope s (some m) none keys = (denied 400, keys)
check_envelope s (some m) (some payload) keys =
    check_signed s m payload (get_secret m.service s.credentials) keys

pub can_activate : Surroundings → Message → RedisKeys → Verdict × RedisKeys
unfolding check_envelope
can_activate s message keys =
    if is_set message.spec_version && is_set message.event_type
    then (whole, keys)
    else check_envelope s message.meta message.payload keys
