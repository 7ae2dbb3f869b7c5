-- ===== src/Reliability/Poller/Attempts.antt =====
-- Retries: the delay before the next attempt, and when a row is given up.
use service_hub_backend.Base.{
  ℕ, zero, suc, ◌≡◌, refl, ◌+◌, ◌*◌, ◌^◌, ◌≤◌, min, List, [], ◌∷◌, arith, leb, if◌then◌else◌,
  length, ap, ◌∙◌,
}
use mathlib.Core.Path.{ap₂}
use native.Mathlib.Nat.{pow-suc}
use native.Mathlib.Numerals.{towards_suc}
use service_hub_backend.Reliability.Outbox.{OutboxRow, pending, dead_letter}
use service_hub_backend.Reliability.Poller.{Worker, Failure, failed, classify, write, delay_ms}
use service_hub_backend.Reliability.Poller.Pass.{settle}

pow_pos : (n : ℕ) → 1 ≤ 2 ^ n
pow_pos zero = omega arith
pow_pos (suc n) = rw pow-suc (omega (arith, pow_pos n))

-- The delay is between one second and one minute, and doubles until it reaches the minute.
pub delay_ms_bounds :
    (n : ℕ)
    → (1000 ≤ delay_ms n) × (delay_ms n ≤ 60000) × (delay_ms (n + 1) ≡ min (2 * delay_ms n) 60000)
unfolding delay_ms
delay_ms_bounds n =
    let more : 2 ^ (n + 1) ≡ 2 ^ n * 2 = simp towards_suc (rw pow-suc) in
    (omega (arith, pow_pos n), omega arith, rw more (omega arith))

-- The cycles in which a row is tried, one worker each.
pub retry_all : List Worker → OutboxRow → OutboxRow
retry_all [] r = r
retry_all (w ∷ ws) r = retry_all ws (settle w r)

-- In each of them `emit` throws.
abbrev pub AllFail : List Worker → OutboxRow → Type 0
AllFail [] r = Unit
AllFail (w ∷ ws) r = ((e : Failure) × (classify w r ≡ failed e)) × AllFail ws (settle w r)

settle_failed :
    (w : Worker) (r : OutboxRow) (e : Failure)
    → classify w r ≡ failed e
    → ((settle w r).attempt_count ≡ r.attempt_count + 1)
      × ((settle w r).max_attempts ≡ r.max_attempts)
      × ((settle w r).status
          ≡ (if leb r.max_attempts (r.attempt_count + 1) then dead_letter else pending))
      × ((settle w r).next_attempt_at ≡ w.clock r.id + delay_ms r.attempt_count)
unfolding settle write
settle_failed w r e h = rw h (refl, refl, refl, refl)

-- A row that is tried in some cycles, in each of which `emit` throws, has counted them all, and is
-- then given up (DEAD_LETTER) exactly when the count has reached `maxAttempts`; until then it is
-- PENDING.
pub retry_all-status :
    (w : Worker) (ws : List Worker) (r : OutboxRow)
    → AllFail (w ∷ ws) r
    → let r' = retry_all (w ∷ ws) r in
      let tried = r.attempt_count + length (w ∷ ws) in
      (r'.attempt_count ≡ tried)
      × (r'.max_attempts ≡ r.max_attempts)
      × (r'.status ≡ (if leb r.max_attempts tried then dead_letter else pending))
unfolding retry_all
retry_all-status w [] r ((e, h), rest) = ground (arith, settle_failed w r e h)
retry_all-status w (v ∷ ws) r ((e, h), rest) =
    let (a, m, _, _) = settle_failed w r e h in
    let (b, n, s) = retry_all-status v ws (settle w r) rest in
    let sums : r.attempt_count + 1 + length (v ∷ ws) ≡ r.attempt_count + length (w ∷ v ∷ ws) =
      omega arith in
    (
      b ∙ (ap (λ t. t + length (v ∷ ws)) a ∙ sums),
      n ∙ m,
      s
          ∙ ap₂ (λ x y. if leb x y then dead_letter else pending) m
              (ap (λ t. t + length (v ∷ ws)) a ∙ sums),
    )
