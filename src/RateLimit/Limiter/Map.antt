-- ===== src/RateLimit/Limiter/Map.antt =====
-- How the operations of the limiter act on the bucket of one address.
use dsforms.Common.{ℕ, Text, Bool, if◌then◌else◌, some, ◌==◌, ◌≡◌, refl}
use dsforms.Common.Int.{pos, sub_ℕ, ltb_ℤ}
use dsforms.Common.Assoc.{lookup, kept, lookup-put, lookup-sweep, IsMap, put-IsMap, sweep-IsMap}
use dsforms.RateLimit.Limiter.{Bucket, Limiter, opened, spend, allow, cleanup}

pub answer-allow :
    (l : Limiter) (ip : Text) (t : ℕ)
    → (allow l ip t).1 ≡ (spend (opened l t (lookup ip l.buckets))).1
unfolding allow
answer-allow l ip t = refl

pub lookup-allow :
    (l : Limiter) (ip j : Text) (t : ℕ)
    → lookup j (allow l ip t).0.buckets
      ≡ (if ip == j then some (spend (opened l t (lookup ip l.buckets))).0 else lookup j l.buckets)
unfolding allow
lookup-allow l ip j t = lookup-put ip j (spend (opened l t (lookup ip l.buckets))).0 l.buckets

pub bounds-allow :
    (l : Limiter) (ip : Text) (t : ℕ)
    → ((allow l ip t).0.burst ≡ l.burst) × ((allow l ip t).0.per_minute ≡ l.per_minute)
unfolding allow
bounds-allow l ip t = (refl, refl)

pub allow-IsMap :
    (l : Limiter) (ip : Text) (t : ℕ) → IsMap l.buckets → IsMap (allow l ip t).0.buckets
unfolding allow
allow-IsMap l ip t h = put-IsMap ip (spend (opened l t (lookup ip l.buckets))).0 l.buckets h

abbrev pub is_stale : ℕ → ℕ → Bucket → Bool
is_stale now max_age b = ltb_ℤ (pos max_age) (sub_ℕ now b.last_seen)

pub lookup-cleanup :
    (l : Limiter) (clock : Text → ℕ) (max_age : ℕ) (j : Text)
    → IsMap l.buckets
    → lookup j (cleanup l clock max_age).buckets
      ≡ kept (is_stale (clock j) max_age) (lookup j l.buckets)
unfolding cleanup
lookup-cleanup l clock max_age j h =
    lookup-sweep j (λ ip b. is_stale (clock ip) max_age b) l.buckets h

pub bounds-cleanup :
    (l : Limiter) (clock : Text → ℕ) (max_age : ℕ)
    → ((cleanup l clock max_age).burst ≡ l.burst)
      × ((cleanup l clock max_age).per_minute ≡ l.per_minute)
unfolding cleanup
bounds-cleanup l clock max_age = (refl, refl)

pub cleanup-IsMap :
    (l : Limiter) (clock : Text → ℕ) (max_age : ℕ)
    → IsMap l.buckets
    → IsMap (cleanup l clock max_age).buckets
unfolding cleanup
cleanup-IsMap l clock max_age h = sweep-IsMap (λ ip b. is_stale (clock ip) max_age b) l.buckets h
