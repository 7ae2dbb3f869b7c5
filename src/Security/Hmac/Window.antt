-- ===== src/Security/Hmac/Window.antt =====
-- A signed request passes within its window, and the text that is signed.
use service_hub_backend.Base.{ℕ, ◌≤◌, ◌<◌, ◌≡◌, refl, true, false, [], ◌∷◌, ◌++◌, arith}
use mathlib.Core.List.{append_assoc}
use service_hub_backend.Base.Text.{Text, text_eq_refl, is_empty}
use service_hub_backend.Reliability.Json.{Json, num, stringify}
use service_hub_backend.Security.Hmac.{
  Digest, SecureRpcRequest, timestamp_tolerance, signed_text, create_signature, create_request,
  distance, is_complete, verify_request,
}

-- What `createRequest` makes passes `verifyRequest` with the same secret for thirty seconds before
-- and after its timestamp, if no part of it is empty.
pub verify-create_request :
    (digest : Digest) (sent now : ℕ) (request_id service secret : Text) (payload : Json)
    (pattern_key : Text)
    → ((m : Text) → is_empty (digest secret m) ≡ false)
    → is_empty service ≡ false
    → is_empty request_id ≡ false
    → is_empty pattern_key ≡ false
    → 0 < sent
    → distance now sent ≤ timestamp_tolerance
    → verify_request digest now
        (create_request digest sent request_id service secret payload pattern_key)
        secret
      ≡ true
unfolding verify_request create_request is_complete create_signature
verify-create_request digest sent now request_id service secret payload pattern_key d a b c pos
      near =
    let s = signed_text service sent request_id pattern_key payload in
    ground (arith, d s, text_eq_refl (digest secret s))

signed_text_ambiguous :
    (service : Text) (t : ℕ) (id p q d : Text)
    → signed_text service t id (p ++ (46 ∷ q)) (num d)
      ≡ signed_text service t id p (num (q ++ (46 ∷ d)))
unfolding signed_text stringify
signed_text_ambiguous service t id p q d = simp append_assoc

nonempty-append : (p q : Text) → is_empty p ≡ false → is_empty (p ++ q) ≡ false
nonempty-append [] q h = cc
nonempty-append (x ∷ p) q h = refl

abbrev pub number_request : Text → ℕ → Text → Text → Text → Text → SecureRpcRequest
number_request service timestamp request_id signature pattern_key n = record {
  meta = record {
    service = service;
    timestamp = timestamp;
    request_id = request_id;
    pattern_key = pattern_key;
    signature = signature;
  };
  payload = num n;
}

-- The parts are joined by dots that they may contain: a signature for the pattern `p` with a number
-- `q.d` as payload is as good for the pattern `p.q` with the payload `d`.
verify_request_ambiguous :
    (digest : Digest) (now timestamp : ℕ) (service request_id signature secret p q d : Text)
    → is_empty p ≡ false
    → verify_request digest now
        (number_request service timestamp request_id signature (p ++ (46 ∷ q)) d)
        secret
      ≡ verify_request digest now
          (number_request service timestamp request_id signature p (q ++ (46 ∷ d)))
          secret
unfolding verify_request is_complete create_signature
verify_request_ambiguous digest now timestamp service request_id signature secret p q d h =
    rw (nonempty-append p (46 ∷ q) h, h, signed_text_ambiguous service timestamp request_id p q d)

-- A request that passes at one time passes at every other time of its window.
pub verify_request_later :
    (digest : Digest) (now later : ℕ) (request : SecureRpcRequest) (secret : Text)
    → verify_request digest now request secret ≡ true
    → distance later request.meta.timestamp ≤ timestamp_tolerance
    → verify_request digest later request secret ≡ true
unfolding verify_request
verify_request_later digest now later request secret h near = ground arith

pub verify_request_near :
    (digest : Digest) (now : ℕ) (request : SecureRpcRequest) (secret : Text)
    → verify_request digest now request secret ≡ true
    → distance now request.meta.timestamp ≤ timestamp_tolerance
unfolding verify_request
verify_request_near digest now request secret h = ground arith
