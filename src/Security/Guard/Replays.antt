-- ===== src/Security/Guard/Replays.antt =====
-- The same message a second time.
use mathlib.Core.Option.{some, Option}
use service_hub_backend.Base.{
  ℕ, ◌+◌, ◌≤◌, ◌<◌, ◌≡◌, ◌≢◌, refl, Bool, true, false, [], ◌∷◌, ◌++◌, arith, any,
}
use service_hub_backend.Base.Text.{Text, text_eq_refl}
use service_hub_backend.Reliability.Json.{Json}
use service_hub_backend.Security.Hmac.{Meta, timestamp_tolerance, distance}
use service_hub_backend.Security.Hmac.Window.{verify_request_later, verify_request_near}
use service_hub_backend.Security.Replay.{request_key, RedisKeys, ttl_ms, is_live, check}
use service_hub_backend.Security.Guard.{Message, passed, Surroundings, can_activate}
use service_hub_backend.Security.Guard.Bypass.{IsVouched, can_activate_passed, can_activate_vouched}

-- The guard's surroundings at another time.
abbrev pub at_time : Surroundings → ℕ → Surroundings
at_time s now = record s { now = now }

any-append :
    (p : Text × ℕ → Bool) (more keys : RedisKeys) → any p keys ≡ true → any p (more ++ keys) ≡ true
any-append p [] keys h = h
any-append p (x ∷ more) keys h = ground (arith, any-append p more keys h)

any_expired :
    (now later : ℕ) (k : Text) (keys : RedisKeys)
    → now ≤ later
    → any (is_live now k) keys ≡ false
    → any (is_live later k) keys ≡ false
unfolding is_live
any_expired now later k [] le h = refl
any_expired now later k ((j, until) ∷ keys) le h = ground (arith, any_expired now later k keys le)

check_keys :
    (now : ℕ) (id : Text) (keys keys' : RedisKeys)
    → check true now id keys ≡ (true, keys')
    → (any (is_live now (request_key id)) keys ≡ false)
      × (keys' ≡ (request_key id, now + ttl_ms) ∷ keys)
unfolding check
check_keys now id keys keys' h = ground arith

check_dead :
    (now : ℕ) (id : Text) (keys : RedisKeys)
    → any (is_live now (request_key id)) keys ≡ true
    → check true now id keys ≡ (false, keys)
unfolding check
check_dead now id keys h = ground arith

check_fresh :
    (now : ℕ) (id : Text) (keys : RedisKeys)
    → any (is_live now (request_key id)) keys ≡ false
    → check true now id keys ≡ (true, (request_key id, now + ttl_ms) ∷ keys)
unfolding check
check_fresh now id keys h = ground arith

live_entry :
    (now later : ℕ) (id : Text) (keys : RedisKeys)
    → later ≤ now + ttl_ms
    → any (is_live later (request_key id)) ((request_key id, now + ttl_ms) ∷ keys) ≡ true
unfolding is_live
live_entry now later id keys near = ground (arith, text_eq_refl (request_key id))

expired_entry :
    (now later : ℕ) (id : Text) (keys : RedisKeys)
    → now + ttl_ms < later
    → any (is_live now (request_key id)) keys ≡ false
    → any (is_live later (request_key id)) ((request_key id, now + ttl_ms) ∷ keys) ≡ false
unfolding is_live
expired_entry now later id keys far h =
    ground (arith, any_expired now later (request_key id) keys (omega arith) h)

same_meta : {m : Option Meta} {a b : Meta} → m ≡ some a → m ≡ some b → a ≡ b
same_meta p q = cc

near_of :
    (later stamp now : ℕ)
    → distance later stamp ≤ timestamp_tolerance
    → stamp ≤ now
    → later ≤ now + ttl_ms
near_of later stamp now h k = ground arith

-- A vouched-for message leaves its key behind.
vouched_keys :
    (s : Surroundings) (message : Message) (meta : Meta) (payload : Json) (keys keys' : RedisKeys)
    → s.is_up ≡ true
    → message.meta ≡ some meta
    → IsVouched s message payload keys keys'
    → (any (is_live s.now (request_key meta.request_id)) keys ≡ false)
      × (keys' ≡ (request_key meta.request_id, s.now + ttl_ms) ∷ keys)
vouched_keys s message meta payload keys keys' up m v =
    let e : v.meta ≡ meta = same_meta v.has_meta m in
    let fresh : check true s.now meta.request_id keys ≡ (true, keys') = rw (up, e) at v.fresh in
    check_keys s.now meta.request_id keys keys' fresh

-- A message that was handed on when its timestamp was not in the future is never handed on again,
-- at any later time, whatever other keys have been added meanwhile, while Redis answers.
pub can_activate_once :
    (s : Surroundings) (message : Message) (meta : Meta) (later : ℕ) (payload payload' : Json)
    (keys keys' more keys'' : RedisKeys)
    → s.is_up ≡ true
    → message.meta ≡ some meta
    → meta.timestamp ≤ s.now
    → can_activate s message keys ≡ (passed payload, keys')
    → can_activate (at_time s later) message (more ++ keys') ≢ (passed payload', keys'')
can_activate_once s message meta later payload payload' keys keys' more keys'' up m past first
      again =
    let v = can_activate_passed s message payload keys keys' first in
    let w = can_activate_passed (at_time s later) message payload' (more ++ keys') keys'' again in
    let e : w.meta ≡ meta = same_meta w.has_meta m in
    let id = request_key meta.request_id in
    let near : distance later meta.timestamp ≤ timestamp_tolerance =
      rw e at (verify_request_near s.digest later _ w.secret w.signed) in
    let (free, made) = vouched_keys s message meta payload keys keys' up m v in
    let live : any (is_live later id) keys' ≡ true = rw made (
      live_entry s.now later meta.request_id keys (near_of later meta.timestamp s.now near past)) in
    let (absent, _) =
      vouched_keys (at_time s later) message meta payload' (more ++ keys') keys'' up m w in
    let present = any-append (is_live later id) more keys' live in cc

again_near :
    (now stamp later : ℕ)
    → now + ttl_ms < later
    → later ≤ stamp + timestamp_tolerance
    → stamp ≤ now + timestamp_tolerance
    → distance later stamp ≤ timestamp_tolerance
again_near now stamp later a b c = ground arith

-- A message stamped in the future outlives its Redis key: it is handed on a second time, by the
-- same guard, at every time after the key's thirty seconds that is within thirty seconds of its
-- timestamp, where Redis answers.
can_activate_twice :
    (s : Surroundings) (message : Message) (meta : Meta) (later : ℕ) (payload : Json)
    (keys keys' : RedisKeys)
    → s.is_up ≡ true
    → message.meta ≡ some meta
    → s.now + ttl_ms < later
    → later ≤ meta.timestamp + timestamp_tolerance
    → meta.timestamp ≤ s.now + timestamp_tolerance
    → can_activate s message keys ≡ (passed payload, keys')
    → (keys'' : RedisKeys) × (can_activate (at_time s later) message keys'
        ≡ (passed payload, keys''))
can_activate_twice s message meta later payload keys keys' up m expired near skew first =
    let v = can_activate_passed s message payload keys keys' first in
    let e : v.meta ≡ meta = same_meta v.has_meta m in
    let (free, made) = vouched_keys s message meta payload keys keys' up m v in
    let d : distance later v.meta.timestamp ≤ timestamp_tolerance =
      rw e (again_near s.now meta.timestamp later expired near skew) in
    let none_left : any (is_live later (request_key v.meta.request_id)) keys' ≡ false =
      rw (e, made) (expired_entry s.now later meta.request_id keys expired free) in
    (
      (request_key v.meta.request_id, later + ttl_ms) ∷ keys',
      can_activate_vouched (at_time s later) message payload keys' _ (record {
        meta = v.meta;
        secret = v.secret;
        is_call = v.is_call;
        has_meta = v.has_meta;
        has_payload = v.has_payload;
        known = v.known;
        has_secret = v.has_secret;
        signed = verify_request_later s.digest s.now later _ v.secret v.signed d;
        fresh = rw up (check_fresh later v.meta.request_id keys' none_left);
      }),
    )
