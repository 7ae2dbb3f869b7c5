-- ===== src/Security/Throttle.antt =====
-- libs/common/src/rate-limit/redis-throttler-storage.service.ts and guards/auth-throttle.guard.ts.
pub mod Limits
mod Tests
use service_hub_backend.Base.{
  ◌/◌, ℕ, ◌+◌, ◌*◌, ◌-◌, Bool, true, false, not, ◌&&◌, List, [], ◌∷◌, Option, none, some, leb, ltb,
  if◌then◌else◌,
}

-- The two keys of one tracker: `throttle:{name}:key` with its count, `throttle:block:{name}:key`,
-- each with the last millisecond at which it is there.
pub record Counter : Type 0 where
  pub hits : Option (ℕ × ℕ)
  pub block : Option ℕ

abbrev pub no_requests : Counter
no_requests = record { hits = none; block = none }

-- `PTTL`; the script and its caller treat the negative answer for a missing key as they treat 0.
abbrev pub pttl : ℕ → Option ℕ → ℕ
pttl now none = 0
pttl now (some until) = until - now

pub expiry : Option (ℕ × ℕ) → Option ℕ
expiry none = none
expiry (some (n, until)) = some until

-- `GET`, or what `or` gives for a missing key.
pub get_hits : ℕ → ℕ → Option (ℕ × ℕ) → ℕ
get_hits now default none = default
get_hits now default (some (n, until)) = if leb now until then n else default

-- `PEXPIRE`, which deletes the key when the time is not positive.
pub pexpire : ℕ → ℕ → ℕ → Option (ℕ × ℕ)
pexpire now ttl n = if leb ttl 0 then none else some (n, now + ttl)

-- `INCR`, and `PEXPIRE` where the count is new: the count and the key.
unfoldable pub incr : ℕ → ℕ → Option (ℕ × ℕ) → ℕ × Option (ℕ × ℕ)
unfolding pexpire
incr now ttl none = (1, pexpire now ttl 1)
incr now ttl (some (n, until)) =
    if leb now until
    then (n + 1, if leb (n + 1) 1 then pexpire now ttl (n + 1) else some (n + 1, until))
    else (1, pexpire now ttl 1)

-- `Math.ceil(px / 1000)`.
abbrev pub seconds : ℕ → ℕ
seconds px = (px + 999) / 1000

pub record ThrottlerStorageRecord : Type 0 where
  pub total_hits : ℕ
  pub time_to_expire : ℕ
  pub is_blocked : Bool
  pub time_to_block_expire : ℕ

-- The script's second part.
unfoldable pub count_hit :
    ℕ → ℕ → ℕ → Option ℕ → ℕ × Option (ℕ × ℕ) → ThrottlerStorageRecord × Counter
unfolding expiry
count_hit now limit block_duration block (n, key) =
    if ltb limit n && ltb 0 block_duration
    then (
      record {
        total_hits = n;
        time_to_expire = seconds (pttl now (expiry key));
        is_blocked = true;
        time_to_block_expire = seconds block_duration;
      },
      record { hits = key; block = some (now + block_duration) },
    )
    else (
      record {
        total_hits = n;
        time_to_expire = seconds (pttl now (expiry key));
        is_blocked = false;
        time_to_block_expire = 0;
      },
      record { hits = key; block = block },
    )

unfoldable pub increment : ℕ → ℕ → ℕ → ℕ → Counter → ThrottlerStorageRecord × Counter
unfolding get_hits expiry incr count_hit
increment now ttl limit block_duration c =
    if ltb 0 (pttl now c.block)
    then (
      record {
        total_hits = get_hits now (limit + 1) c.hits;
        time_to_expire = seconds (pttl now (expiry c.hits));
        is_blocked = true;
        time_to_block_expire = seconds (pttl now c.block);
      },
      c,
    )
    else count_hit now limit block_duration c.block (incr now ttl c.hits)

-- The settings `AUTH_RATE_LIMIT_*`, the times in milliseconds.
pub record AuthRateLimit : Type 0 where
  pub limit : ℕ
  pub ttl_ms : ℕ
  pub block_ms : ℕ

abbrev pub default_auth_limit : AuthRateLimit
default_auth_limit = record { limit = 5; ttl_ms = 60 * 1000; block_ms = 300 * 1000 }

-- `canActivate`: whether the request goes on; it is answered with 429 otherwise.
unfoldable pub can_activate : AuthRateLimit → ℕ → Counter → Bool × Counter
unfolding increment
can_activate r now c =
    let (answer, c') = increment now r.ttl_ms r.limit r.block_ms c in (not answer.is_blocked, c')

-- The requests of one tracker at these times, in turn: which went on, and the counter.
unfoldable pub requests : AuthRateLimit → List ℕ → Counter → List Bool × Counter
unfolding can_activate
requests r [] c = ([], c)
requests r (now ∷ times) c =
    let (ok, c') = can_activate r now c in let (oks, c'') = requests r times c' in (ok ∷ oks, c'')
