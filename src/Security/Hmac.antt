-- ===== src/Security/Hmac.antt =====
-- libs/common/src/security/hmac.service.ts. The digest is the runtime's; times are milliseconds.
pub mod Window
pub mod Tests
use service_hub_backend.Base.{
  ℕ, ◌+◌, ◌-◌, Bool, true, false, not, ◌&&◌, ◌||◌, List, [], ◌∷◌, ◌++◌, ◌==◌, ltb, if◌then◌else◌,
}
use service_hub_backend.Base.Text.{Text, text_eq, is_empty, decimal}
use service_hub_backend.Reliability.Json.{Json, stringify}

-- `createHmac('sha256', secret).update(text).digest('hex')`
abbrev pub Digest : Type 0
Digest = Text → Text → Text

-- An absent field is the empty text, or the time 0.
pub record Meta : Type 0 where
  pub service : Text
  pub timestamp : ℕ
  pub request_id : Text
  pub pattern_key : Text
  pub signature : Text

pub record SecureRpcRequest : Type 0 where
  pub meta : Meta
  pub payload : Json

abbrev pub timestamp_tolerance : ℕ
timestamp_tolerance = 30000

-- The five parts with a dot between them.
signed_text : Text → ℕ → Text → Text → Json → Text
signed_text service timestamp request_id pattern_key payload =
    service
    ++ (46
        ∷ (decimal timestamp
            ++ (46 ∷ (request_id ++ (46 ∷ (pattern_key ++ (46 ∷ stringify payload)))))))

unfoldable pub create_signature : Digest → Text → Text → ℕ → Text → Text → Json → Text
unfolding signed_text
create_signature digest secret service timestamp request_id pattern_key payload =
    digest secret (signed_text service timestamp request_id pattern_key payload)

pub create_request : Digest → ℕ → Text → Text → Text → Json → Text → SecureRpcRequest
unfolding create_signature
create_request digest now request_id service secret payload pattern_key = record {
  meta = record {
    service = service;
    timestamp = now;
    request_id = request_id;
    pattern_key = pattern_key;
    signature = create_signature digest secret service now request_id pattern_key payload;
  };
  payload = payload;
}

-- `Math.abs(a - b)`
abbrev pub distance : ℕ → ℕ → ℕ
distance a b = if ltb a b then b - a else a - b

is_complete : Meta → Bool
is_complete m =
    not (is_empty m.service)
    && (not (m.timestamp == 0)
        && (not (is_empty m.request_id)
            && (not (is_empty m.pattern_key) && not (is_empty m.signature))))

-- Texts of equal bytes: `safeCompare` answers false at once where the lengths differ.
unfoldable pub verify_request : Digest → ℕ → SecureRpcRequest → Text → Bool
unfolding is_complete create_signature
verify_request digest now request secret =
    let m = request.meta in
    if is_complete m
    then (if ltb timestamp_tolerance (distance now m.timestamp)
        then false
        else text_eq m.signature (
            create_signature digest secret m.service m.timestamp m.request_id m.pattern_key
              request.payload))
    else false
