-- ===== src/Security/Guard/Tests.antt =====
-- Messages at the guard.
use service_hub_backend.Base.{ℕ, ◌≡◌, ◌≢◌, ◌↔◌, refl, true, [], ◌∷◌, some, none, arith}
use service_hub_backend.Base.Text.{codes, text_eq, decimal}
use service_hub_backend.Reliability.Json.{null, stringify}
use service_hub_backend.Security.Hmac.{Meta, verify_request, create_signature}
use service_hub_backend.Security.Hmac.Tests.{sample_digest}
use service_hub_backend.Security.Replay.{RedisKeys, request_key, check}
use service_hub_backend.Security.Guard.{Message, Surroundings, passed, can_activate, get_secret}
use service_hub_backend.Security.Guard.Trust.{IsTrusted, can_activate-IsTrusted}
use service_hub_backend.Security.Guard.Bypass.{can_activate_vouched}
use service_hub_backend.Security.Guard.Replays.{at_time, can_activate_once}

abbrev surroundings : Surroundings
surroundings = record {
  digest = sample_digest;
  credentials = (some (codes "gateway"), some (codes "k")) ∷ [];
  now = 1000;
  is_up = true;
}

abbrev meta_at : ℕ → Meta
meta_at t = record {
  service = codes "gateway";
  timestamp = t;
  request_id = codes "r";
  pattern_key = codes "login";
  signature =
      create_signature sample_digest (codes "k") (codes "gateway") t (codes "r") (codes "login")
        null;
}

abbrev call_at : ℕ → Message
call_at t = record {
  spec_version = none;
  event_type = none;
  meta = some (meta_at t);
  payload = some null;
}

abbrev forged : Message
forged = record {
  spec_version = some (codes "1.0");
  event_type = some (codes "billing.invoice_paid.v1");
  meta = none;
  payload = none;
}

abbrev used : RedisKeys
used = (codes "hmac:request:r", 31000) ∷ []

can_activate-IsTrusted_example :
    (can_activate surroundings (call_at 900) [] ≡ (passed null, used))
    ↔ IsTrusted surroundings (call_at 900) null [] used
can_activate-IsTrusted_example = can_activate-IsTrusted surroundings (call_at 900) null [] used

call_passes :
    (t : ℕ)
    → verify_request sample_digest 1000 (record { meta = meta_at t; payload = null }) (codes "k")
      ≡ true
    → can_activate surroundings (call_at t) [] ≡ (passed null, used)
unfolding check request_key get_secret text_eq
call_passes t h = can_activate_vouched surroundings (call_at t) null [] used (record {
  meta = meta_at t;
  secret = codes "k";
  is_call = refl;
  has_meta = refl;
  has_payload = refl;
  known = refl;
  has_secret = refl;
  signed = h;
  fresh = refl;
})

past_passes : can_activate surroundings (call_at 900) [] ≡ (passed null, used)
unfolding verify_request text_eq decimal stringify
past_passes = call_passes 900 refl

future_passes : can_activate surroundings (call_at 2000) [] ≡ (passed null, used)
unfolding verify_request text_eq decimal stringify
future_passes = call_passes 2000 refl

can_activate_once_example :
    can_activate (at_time surroundings 5000) (call_at 900) ((codes "hmac:request:q", 32000) ∷ used)
    ≢ (passed null, (codes "hmac:request:q", 32000) ∷ used)
can_activate_once_example =
    can_activate_once surroundings (call_at 900) (meta_at 900) 5000 null null [] used
      ((codes "hmac:request:q", 32000) ∷ []) ((codes "hmac:request:q", 32000) ∷ used) refl refl
      (omega arith) past_passes
