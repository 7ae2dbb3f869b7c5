-- ===== src/Security/Guard/Trust.antt =====
-- What it takes for the guard to hand a payload on, said without the guard's own checks.
use service_hub_backend.Base.Table.{find_first}
use service_hub_backend.Base.Text.{
  Text, codes, decimal, is_empty, text_eq, text_eq→eq, text_eq_refl,
}
use service_hub_backend.Base.{
  ◌==◌, ◌↔◌, ◌⊎◌, ◌≤◌, ◌<◌, ◌+◌, ◌++◌, ◌∷◌, ◌≡◌, ◌∙◌, sym, refl, Bool, Bool-cases, true, false, not,
  ◌&&◌, Option, none, some, any, leb, ltb, arith, inl, inr, ℕ, [],
}
use service_hub_backend.Reliability.Json.{Json, stringify}
use service_hub_backend.Security.Hmac.{distance, Digest, Meta, create_signature, verify_request}
use service_hub_backend.Security.Replay.{RedisKeys, check, is_live, request_key}
use service_hub_backend.Security.Guard.Bypass.{can_activate_passed, can_activate_vouched}
use service_hub_backend.Security.Guard.{
  is_set, Credentials, Message, Surroundings, can_activate, get_secret, passed,
}

abbrev is_named : Text → Option Text × Option Text → Bool
is_named service c = elim c.0 [ none ↦ false | some name ↦ text_eq name service ]

-- All five members are there, the timestamp is at most 30 seconds off either way, and the signature
-- is the digest of service, timestamp, request, pattern and payload with dots between them.
pub record IsSigned (digest : Digest) (now : ℕ) (m : Meta) (payload : Json) (secret : Text)
    : Type 0 where
  pub has_service : is_empty m.service ≡ false
  pub has_timestamp : 0 < m.timestamp
  pub has_request_id : is_empty m.request_id ≡ false
  pub has_pattern_key : is_empty m.pattern_key ≡ false
  pub has_signature : is_empty m.signature ≡ false
  pub not_late : now ≤ m.timestamp + 30000
  pub not_early : m.timestamp ≤ now + 30000
  pub signature_matches :
      m.signature
      ≡ digest secret (
          m.service
          ++ (46
              ∷ (decimal m.timestamp
                  ++ (46 ∷ (m.request_id ++ (46 ∷ (m.pattern_key ++ (46 ∷ stringify payload))))))))

-- Redis is down, or it has no live key for the request and now has one for 30 seconds.
abbrev pub IsFirst : Surroundings → Text → RedisKeys → RedisKeys → Type 0
IsFirst s request_id keys keys' =
    ((s.is_up ≡ false) × (keys' ≡ keys))
    ⊎ ((s.is_up ≡ true)
        × (any (λ k. text_eq k.0 (codes "hmac:request:" ++ request_id) && leb s.now k.1) keys
            ≡ false)
        × (keys' ≡ (codes "hmac:request:" ++ request_id, s.now + 30000) ∷ keys))

pub record IsTrusted (s : Surroundings) (message : Message) (payload : Json)
    (keys keys' : RedisKeys) : Type 0 where
  pub meta : Meta
  pub secret : Text
  pub entry : Option Text × Option Text
  pub is_call :
      elim message.spec_version [ none ↦ false | some v ↦ not (is_empty v) ]
        && elim message.event_type [ none ↦ false | some t ↦ not (is_empty t) ]
      ≡ false
  pub has_meta : message.meta ≡ some meta
  pub has_payload : message.payload ≡ some payload
  pub known : find_first (is_named meta.service) s.credentials ≡ some entry
  pub its_secret : entry.1 ≡ some secret
  pub has_secret : is_empty secret ≡ false
  pub signed : IsSigned s.digest s.now meta payload secret
  pub is_first : IsFirst s meta.request_id keys keys'

is_set_lem : (x : Option Text) → elim x [ none ↦ false | some v ↦ not (is_empty v) ] ≡ is_set x
is_set_lem none = refl
is_set_lem (some v) = refl

is_set_both :
    (x y : Option Text)
    → elim x [ none ↦ false | some v ↦ not (is_empty v) ]
        && elim y [ none ↦ false | some v ↦ not (is_empty v) ]
      ≡ is_set x && is_set y
is_set_both x y = rw (is_set_lem x, is_set_lem y) refl

get_secret_entry :
    (service k : Text) (cs : Credentials)
    → get_secret service cs ≡ some k
    → (e : Option Text × Option Text) × (find_first (is_named service) cs ≡ some e) × (e.1 ≡ some k)
unfolding get_secret
get_secret_entry service k [] h = cc
get_secret_entry service k ((none, b) ∷ cs) h = get_secret_entry service k cs h
get_secret_entry service k ((some name, b) ∷ cs) h = elim (Bool-cases (text_eq name service)) [
  | inl e ↦ ((some name, b), rw e refl, rw e at h)
  | inr e ↦ rw e (get_secret_entry service k cs (rw e at h))
]

entry-get_secret :
    (service k : Text) (cs : Credentials) (e : Option Text × Option Text)
    → find_first (is_named service) cs ≡ some e
    → e.1 ≡ some k
    → get_secret service cs ≡ some k
unfolding get_secret
entry-get_secret service k [] e h p = cc
entry-get_secret service k ((none, b) ∷ cs) e h p = entry-get_secret service k cs e h p
entry-get_secret service k ((some name, b) ∷ cs) e h p = elim (Bool-cases (text_eq name service)) [
  | inl n ↦ ground (arith, n, h, p)
  | inr n ↦ rw n (entry-get_secret service k cs e (rw n at h) p)
]

module _ (digest : Digest) (now : ℕ) (m : Meta) (payload : Json) (k : Text) where
  near_enough :
      now ≤ m.timestamp + 30000
      → m.timestamp ≤ now + 30000
      → ltb 30000 (distance now m.timestamp) ≡ false
  near_enough late early = ground (arith, late, early)

  nonzero : 0 < m.timestamp → (m.timestamp == 0) ≡ false
  nonzero h = ground (arith, h)

  verify_request-IsSigned :
      verify_request digest now (record { meta = m; payload = payload }) k ≡ true
      → IsSigned digest now m payload k
  unfolding verify_request create_signature
  verify_request-IsSigned h = record {
    has_service = ground (arith, h);
    has_timestamp = ground (arith, h);
    has_request_id = ground (arith, h);
    has_pattern_key = ground (arith, h);
    has_signature = ground (arith, h);
    not_late = ground (arith, h);
    not_early = ground (arith, h);
    signature_matches = text_eq→eq _ _ (ground (arith, h));
  }

  IsSigned-verify_request :
      IsSigned digest now m payload k
      → verify_request digest now (record { meta = m; payload = payload }) k ≡ true
  unfolding verify_request create_signature
  IsSigned-verify_request v =
      rw
        (
          near_enough v.not_late v.not_early,
          ← v.signature_matches,
          text_eq_refl m.signature,
          v.has_service,
          v.has_request_id,
          v.has_pattern_key,
          v.has_signature,
          nonzero v.has_timestamp,
        )
        refl

check_keys :
    (now : ℕ) (id : Text) (keys keys' : RedisKeys)
    → check true now id keys ≡ (true, keys')
    → (any (λ k. text_eq k.0 (codes "hmac:request:" ++ id) && leb now k.1) keys ≡ false)
      × (keys' ≡ (codes "hmac:request:" ++ id, now + 30000) ∷ keys)
unfolding check request_key is_live
check_keys now id keys keys' h = ground arith

check-IsFirst :
    (s : Surroundings) (id : Text) (keys keys' : RedisKeys)
    → check s.is_up s.now id keys ≡ (true, keys')
    → IsFirst s id keys keys'
unfolding check request_key is_live
check-IsFirst s id keys keys' h = elim (Bool-cases s.is_up) [
  | inr down ↦ inl (down, ground (arith, rw down at h))
  | inl up ↦ (let (dead, set) = check_keys s.now id keys keys' (rw up at h) in inr (up, dead, set))
]

IsFirst-check :
    (s : Surroundings) (id : Text) (keys keys' : RedisKeys)
    → IsFirst s id keys keys'
    → check s.is_up s.now id keys ≡ (true, keys')
unfolding check request_key is_live
IsFirst-check s id keys keys' (inl (down, same)) = rw (down, same) refl
IsFirst-check s id keys keys' (inr (up, dead, set)) = rw (up, check, dead, set) refl

-- The guard hands a payload on, with the keys that it leaves, exactly when the message is no event
-- and names a service whose first entry has a secret, its signature is the digest under that secret
-- with all five members there and a timestamp at most 30 seconds off, and its request was not seen
-- in the last 30 seconds as far as Redis tells; a key of 30 seconds is then left.
pub can_activate-IsTrusted :
    (s : Surroundings) (message : Message) (payload : Json) (keys keys' : RedisKeys)
    → (can_activate s message keys ≡ (passed payload, keys'))
      ↔ IsTrusted s message payload keys keys'
can_activate-IsTrusted s message payload keys keys' = (
  λ h.
      let v = can_activate_passed s message payload keys keys' h in
      let (e, known, its) = get_secret_entry v.meta.service v.secret s.credentials v.known in
      record {
        meta = v.meta;
        secret = v.secret;
        entry = e;
        is_call = is_set_both message.spec_version message.event_type ∙ v.is_call;
        has_meta = v.has_meta;
        has_payload = v.has_payload;
        known = known;
        its_secret = its;
        has_secret = v.has_secret;
        signed = verify_request-IsSigned s.digest s.now v.meta payload v.secret v.signed;
        is_first = check-IsFirst s v.meta.request_id keys keys' v.fresh;
      },
  λ t. can_activate_vouched s message payload keys keys' (record {
    meta = t.meta;
    secret = t.secret;
    is_call = sym (is_set_both message.spec_version message.event_type) ∙ t.is_call;
    has_meta = t.has_meta;
    has_payload = t.has_payload;
    known = entry-get_secret t.meta.service t.secret s.credentials t.entry t.known t.its_secret;
    has_secret = t.has_secret;
    signed = IsSigned-verify_request s.digest s.now t.meta payload t.secret t.signed;
    fresh = IsFirst-check s t.meta.request_id keys keys' t.is_first;
  }),
)
