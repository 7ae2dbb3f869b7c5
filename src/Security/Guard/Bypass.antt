-- ===== src/Security/Guard/Bypass.antt =====
-- Which messages reach a handler, and on what grounds.
use service_hub_backend.Base.{
  ◌↔◌, ◌≢◌, ap, ◌∙◌, ◌≡◌, refl, Bool, true, false, ◌&&◌, Option, none, some, arith, Bool-cases,
  Option-cases, inl, inr,
}
use service_hub_backend.Base.Text.{Text, is_empty}
use service_hub_backend.Reliability.Json.{Json}
use service_hub_backend.Security.Hmac.{Meta, verify_request}
use service_hub_backend.Security.Replay.{RedisKeys, check}
use service_hub_backend.Security.Guard.{
  Message, whole, passed, is_set, get_secret, Surroundings, admit, check_signed, check_envelope,
  can_activate,
}

-- Why a payload was handed on: the message names a known service, is signed with its secret, and
-- was not seen before as far as Redis tells.
pub record IsVouched (s : Surroundings) (message : Message) (payload : Json)
    (keys keys' : RedisKeys) : Type 0 where
  pub meta : Meta
  pub secret : Text
  pub is_call : is_set message.spec_version && is_set message.event_type ≡ false
  pub has_meta : message.meta ≡ some meta
  pub has_payload : message.payload ≡ some payload
  pub known : get_secret meta.service s.credentials ≡ some secret
  pub has_secret : is_empty secret ≡ false
  pub signed :
      verify_request s.digest s.now (record { meta = meta; payload = payload }) secret ≡ true
  pub fresh : check s.is_up s.now meta.request_id keys ≡ (true, keys')

admit_passed :
    (r : Bool × RedisKeys) (payload payload' : Json) (keys' : RedisKeys)
    → admit r payload ≡ (passed payload', keys')
    → (r ≡ (true, keys')) × (payload ≡ payload')
unfolding admit
admit_passed (true, keys) payload payload' keys' h = ground arith
admit_passed (false, keys) payload payload' keys' h = ground arith

check_signed_passed :
    (s : Surroundings) (m : Meta) (payload payload' : Json) (k : Text) (keys keys' : RedisKeys)
    → check_signed s m payload (some k) keys ≡ (passed payload', keys')
    → (is_empty k ≡ false)
      × (payload ≡ payload')
      × (verify_request s.digest s.now (record { meta = m; payload = payload }) k ≡ true)
      × (check s.is_up s.now m.request_id keys ≡ (true, keys'))
unfolding check_signed
check_signed_passed s m payload payload' k keys keys' h =
    ground (arith, admit_passed (check s.is_up s.now m.request_id keys) payload payload' keys')

passed_of_envelope :
    (s : Surroundings) (message : Message) (m : Option Meta) (p : Option Json) (payload : Json)
    (keys keys' : RedisKeys)
    → is_set message.spec_version && is_set message.event_type ≡ false
    → message.meta ≡ m
    → message.payload ≡ p
    → check_envelope s m p keys ≡ (passed payload, keys')
    → IsVouched s message payload keys keys'
unfolding check_envelope
passed_of_envelope s message none p payload keys keys' c a b h = cc
passed_of_envelope s message (some m) none payload keys keys' c a b h = cc
passed_of_envelope s message (some m) (some p) payload keys keys' c a b h =
    elim (Option-cases (get_secret m.service s.credentials)) [
      | inl e ↦ ground (arith, check_signed)
      | inr (k, e) ↦
          let run : check_signed s m p (some k) keys ≡ (passed payload, keys') = rw e at h in
          let (x, y, z, w) = check_signed_passed s m p payload k keys keys' run in
          record {
            meta = m;
            secret = k;
            is_call = c;
            has_meta = a;
            has_payload = b ∙ ap some y;
            known = e;
            has_secret = x;
            signed = rw (← y) z;
            fresh = w;
          }
    ]

-- A payload that was handed on was vouched for.
pub can_activate_passed :
    (s : Surroundings) (message : Message) (payload : Json) (keys keys' : RedisKeys)
    → can_activate s message keys ≡ (passed payload, keys')
    → IsVouched s message payload keys keys'
unfolding can_activate
can_activate_passed s message payload keys keys' h =
    elim (Bool-cases (is_set message.spec_version && is_set message.event_type)) [
      | inl event ↦ ground arith
      | inr call ↦
          passed_of_envelope s message message.meta message.payload payload keys keys' call refl
            refl (rw call at h)
    ]

-- A message that is vouched for is handed on.
pub can_activate_vouched :
    (s : Surroundings) (message : Message) (payload : Json) (keys keys' : RedisKeys)
    → IsVouched s message payload keys keys'
    → can_activate s message keys ≡ (passed payload, keys')
unfolding can_activate check_envelope check_signed admit
can_activate_vouched s message payload keys keys' v = ground arith

admit_whole : (r : Bool × RedisKeys) (payload : Json) → (admit r payload).0 ≢ whole
unfolding admit
admit_whole (true, keys) payload h = ground arith
admit_whole (false, keys) payload h = ground arith

check_signed_whole :
    (s : Surroundings) (m : Meta) (payload : Json) (k : Option Text) (keys : RedisKeys)
    → (check_signed s m payload k keys).0 ≢ whole
unfolding check_signed
check_signed_whole s m payload none keys h = ground arith
check_signed_whole s m payload (some k) keys h =
    ground (arith, admit_whole (check s.is_up s.now m.request_id keys) payload)

check_envelope_whole :
    (s : Surroundings) (m : Option Meta) (p : Option Json) (keys : RedisKeys)
    → (check_envelope s m p keys).0 ≢ whole
unfolding check_envelope
check_envelope_whole s none p keys h = ground arith
check_envelope_whole s (some m) none keys h = ground arith
check_envelope_whole s (some m) (some p) keys h =
    check_signed_whole s m p (get_secret m.service s.credentials) keys h

-- A message reaches its handler whole exactly when it has a specVersion and an eventType. Neither a
-- signature nor a known service, nor a replay check, plays a part, whatever else it holds and
-- however the services are set up.
pub can_activate_whole :
    (s : Surroundings) (message : Message) (keys : RedisKeys)
    → ((can_activate s message keys).0 ≡ whole)
      ↔ (is_set message.spec_version && is_set message.event_type ≡ true)
unfolding can_activate
can_activate_whole s message keys = (
  λ h. elim (Bool-cases (is_set message.spec_version && is_set message.event_type)) [
    | inl event ↦ event
    | inr call ↦
        ground (arith, check_envelope_whole s message.meta message.payload keys (rw call at h))
  ],
  λ event. ground arith,
)
