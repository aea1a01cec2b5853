-- ===== src/RateLimit/Limiter.antt =====
-- The token bucket of internal/ratelimit/ratelimit.go. An instant is a number of nanoseconds, and a
-- token is `one` units, so that the refill of a nanosecond is `per_minute` units: what the source
-- computes in float64 is exact here.
mod Map
pub mod Bound
use dsforms.Common.{
  ℕ, ◌+◌, ◌*◌, Text, Bool, true, false, ◌||◌, leb, if◌then◌else◌, Option, none, some, [],
}
use dsforms.Common.Int.{ℤ, pos, sub_ℕ, ◌+ℤ◌, ◌-ℤ◌, ◌*ℤ◌, ltb_ℤ}
use dsforms.Common.Assoc.{Assoc, lookup, put, sweep}

abbrev pub one : ℕ
one = 60_000_000_000

pub record Bucket : Type 0 where
  pub tokens : ℤ
  pub last_seen : ℕ
  pub requests : ℕ
  pub throttled : ℕ

pub record Limiter : Type 0 where
  pub buckets : Assoc Bucket
  pub burst : ℕ
  pub per_minute : ℕ

-- The two panics on the bounds; the clock is an argument of each call here.
unfoldable pub new_limiter : ℕ → ℕ → Option Limiter
new_limiter burst per_minute =
    if leb burst 0 || leb per_minute 0
    then none
    else some (record { buckets = []; burst = burst; per_minute = per_minute })

unfoldable pub full : Limiter → ℤ
full l = pos (l.burst * one)

unfoldable pub refill : Limiter → ℕ → Bucket → Bucket
unfolding full ◌+ℤ◌ ◌*ℤ◌
refill l t b =
    let tokens = b.tokens +ℤ sub_ℕ t b.last_seen *ℤ pos l.per_minute in
    record b { tokens = (if ltb_ℤ (full l) tokens then full l else tokens); last_seen = t }

-- The bucket that a call at `t` starts from: a new one, or the old one refilled.
unfoldable pub opened : Limiter → ℕ → Option Bucket → Bucket
unfolding refill
opened l t none = record { tokens = full l; last_seen = t; requests = 0; throttled = 0 }
opened l t (some b) = refill l t b

-- The count of requests, and the decision.
unfoldable pub spend : Bucket → Bucket × Bool
unfolding ◌-ℤ◌
spend b =
    if ltb_ℤ b.tokens (pos one)
    then (record b { requests = b.requests + 1; throttled = b.throttled + 1 }, false)
    else (record b { requests = b.requests + 1; tokens = b.tokens -ℤ pos one }, true)

unfoldable pub allow : Limiter → Text → ℕ → Limiter × Bool
unfolding opened spend
allow l ip t =
    let (b, answer) = spend (opened l t (lookup ip l.buckets)) in
    (record l { buckets = put ip b l.buckets }, answer)

-- The clock is read once for each bucket.
unfoldable pub cleanup : Limiter → (Text → ℕ) → ℕ → Limiter
cleanup l clock max_age = record l {
  buckets = sweep (λ ip b. ltb_ℤ (pos max_age) (sub_ℕ (clock ip) b.last_seen)) l.buckets;
}
